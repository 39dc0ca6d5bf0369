-- ===== src/Common/Maps.antt =====
-- A hash map as an association list over numeric keys. The order of the list is the order of
-- iteration, which a theorem that ranges over all lists leaves open.
use Prim.Native.Nat.{ℕ, ◌+◌}
use mathlib.Core.Path.{◌≡◌, refl}
use mathlib.Core.Bool.{Bool, true, false, ◌||◌}
use mathlib.Core.List.{List, [], ◌∷◌}
use mathlib.Core.Option.{Option, none, some}
use native.Mathlib.Omega.{arith}
use atomr_accel.Common.Tests.{◌==◌, if◌then◌else◌, is_some}
use atomr_accel.Common.Lists.{length, mem, IsDistinct}

module _ {ℓ} {V : Type ℓ} where
  abbrev pub lookup : ℕ → List (ℕ × V) → Option V
  lookup k [] = none
  lookup k ((j, v) ∷ m) = if j == k then some v else lookup k m

  abbrev pub insert : ℕ → V → List (ℕ × V) → List (ℕ × V)
  insert k v [] = (k, v) ∷ []
  insert k v ((j, w) ∷ m) = if j == k then (k, v) ∷ m else (j, w) ∷ insert k v m

  abbrev pub remove : ℕ → List (ℕ × V) → List (ℕ × V)
  remove k [] = []
  remove k ((j, v) ∷ m) = if j == k then m else (j, v) ∷ remove k m

  abbrev pub keys : List (ℕ × V) → List ℕ
  keys [] = []
  keys ((j, v) ∷ m) = j ∷ keys m

  abbrev pub contains_key : ℕ → List (ℕ × V) → Bool
  contains_key k m = is_some (lookup k m)

  pub lookup-insert :
      (k j : ℕ) (v : V) (m : List (ℕ × V))
      → lookup j (insert k v m) ≡ (if k == j then some v else lookup j m)
  lookup-insert k j v [] = refl
  lookup-insert k j v ((i, w) ∷ m) = ground (arith, lookup-insert k j v m)

  pub contains_key-mem : (k : ℕ) (m : List (ℕ × V)) → contains_key k m ≡ mem k (keys m)
  contains_key-mem k [] = refl
  contains_key-mem k ((j, v) ∷ m) = ground (arith, contains_key-mem k m)

  pub mem-keys-insert :
      (k j : ℕ) (v : V) (m : List (ℕ × V))
      → mem j (keys (insert k v m)) ≡ (k == j || mem j (keys m))
  mem-keys-insert k j v [] = refl
  mem-keys-insert k j v ((i, w) ∷ m) = ground (arith, mem-keys-insert k j v m)

  pub keys-insert-IsDistinct :
      (k : ℕ) (v : V) (m : List (ℕ × V)) → IsDistinct (keys m) → IsDistinct (keys (insert k v m))
  keys-insert-IsDistinct k v [] d = (refl, tt)
  keys-insert-IsDistinct k v ((i, w) ∷ m) d =
      ground (arith, keys-insert-IsDistinct k v m d.1, mem-keys-insert k i v m)

  pub length-insert :
      (k : ℕ) (v : V) (m : List (ℕ × V))
      → length (insert k v m) ≡ (if mem k (keys m) then length m else length m + 1)
  length-insert k v [] = refl
  length-insert k v ((i, w) ∷ m) = ground (arith, length-insert k v m)

  pub lookup-remove_ne :
      (k j : ℕ) (m : List (ℕ × V)) → (k == j) ≡ false → lookup j (remove k m) ≡ lookup j m
  lookup-remove_ne k j [] h = refl
  lookup-remove_ne k j ((i, w) ∷ m) h = ground (arith, lookup-remove_ne k j m h)

  pub lookup_absent : (k : ℕ) (m : List (ℕ × V)) → mem k (keys m) ≡ false → lookup k m ≡ none
  lookup_absent k [] h = refl
  lookup_absent k ((i, w) ∷ m) h = ground (arith, lookup_absent k m)

  pub lookup-remove_self :
      (k : ℕ) (m : List (ℕ × V)) → IsDistinct (keys m) → lookup k (remove k m) ≡ none
  lookup-remove_self k [] d = refl
  lookup-remove_self k ((i, w) ∷ m) d =
      ground (arith, lookup-remove_self k m d.1, lookup_absent k m)

  pub mem-keys-remove_ne :
      (k j : ℕ) (m : List (ℕ × V)) → (k == j) ≡ false → mem j (keys (remove k m)) ≡ mem j (keys m)
  mem-keys-remove_ne k j [] h = refl
  mem-keys-remove_ne k j ((i, w) ∷ m) h = ground (arith, mem-keys-remove_ne k j m h)

  pub mem-keys-remove_self :
      (k : ℕ) (m : List (ℕ × V)) → IsDistinct (keys m) → mem k (keys (remove k m)) ≡ false
  mem-keys-remove_self k [] d = refl
  mem-keys-remove_self k ((i, w) ∷ m) d = ground (arith, mem-keys-remove_self k m d.1)

  mem-keys-remove_le :
      (k j : ℕ) (m : List (ℕ × V)) → mem j (keys m) ≡ false → mem j (keys (remove k m)) ≡ false
  mem-keys-remove_le k j [] h = refl
  mem-keys-remove_le k j ((i, w) ∷ m) h = ground (arith, mem-keys-remove_le k j m)

  pub keys-remove-IsDistinct :
      (k : ℕ) (m : List (ℕ × V)) → IsDistinct (keys m) → IsDistinct (keys (remove k m))
  keys-remove-IsDistinct k [] d = tt
  keys-remove-IsDistinct k ((i, w) ∷ m) d =
      ground (arith, keys-remove-IsDistinct k m d.1, mem-keys-remove_le k i m d.0)

  pub length-remove :
      (k : ℕ) (m : List (ℕ × V)) → mem k (keys m) ≡ true → length (remove k m) + 1 ≡ length m
  length-remove k [] h = cc
  length-remove k ((i, w) ∷ m) h = ground (arith, length-remove k m)
