-- ===== src/Common/Lists.antt =====
-- Lists measured and indexed by native numbers, under the library's names.
use Prim.Native.Nat.{ℕ, zero, suc, ◌+◌, ◌-◌, ◌≤◌, min}
use mathlib.Core.Path.{◌≡◌, refl, sym, ap, ◌∙◌}
use mathlib.Core.Bool.{Bool, true, false, ◌||◌}
use mathlib.Core.List.{List, [], ◌∷◌, ◌++◌, append_assoc}
use mathlib.Core.Option.{Option, none, some}
use native.Mathlib.Omega.{arith}
use atomr_accel.Common.Tests.{◌==◌, if◌then◌else◌}

module _ {ℓ} {A : Type ℓ} where
  abbrev pub length : List A → ℕ
  length [] = 0
  length (x ∷ xs) = suc (length xs)

  abbrev pub get_elem? : List A → ℕ → Option A
  get_elem? [] i = none
  get_elem? (x ∷ xs) zero = some x
  get_elem? (x ∷ xs) (suc i) = get_elem? xs i

  -- A write out of bounds changes nothing.
  abbrev pub set : List A → ℕ → A → List A
  set [] i v = []
  set (x ∷ xs) zero v = v ∷ xs
  set (x ∷ xs) (suc i) v = x ∷ set xs i v

  abbrev pub take : ℕ → List A → List A
  take zero xs = []
  take (suc n) [] = []
  take (suc n) (x ∷ xs) = x ∷ take n xs

  abbrev pub drop : ℕ → List A → List A
  drop zero xs = xs
  drop (suc n) [] = []
  drop (suc n) (x ∷ xs) = drop n xs

  pub take-drop : (n : ℕ) (xs : List A) → take n xs ++ drop n xs ≡ xs
  take-drop zero xs = refl
  take-drop (suc n) [] = refl
  take-drop (suc n) (x ∷ xs) = ap (λ ys. x ∷ ys) (take-drop n xs)

  pub length-drop : (n : ℕ) (xs : List A) → length (drop n xs) ≡ length xs - n
  length-drop zero xs = omega arith
  length-drop (suc n) [] = omega arith
  length-drop (suc n) (x ∷ xs) = omega (arith, length-drop n xs)

  pub drop-append_left :
      (n : ℕ) (xs ys : List A) → n ≤ length xs → drop n (xs ++ ys) ≡ drop n xs ++ ys
  drop-append_left zero xs ys h = refl
  drop-append_left (suc n) [] ys h = absurd (omega arith)
  drop-append_left (suc n) (x ∷ xs) ys h = drop-append_left n xs ys (omega arith)

  pub drop_one-drop : (n : ℕ) (xs : List A) → drop 1 (drop n xs) ≡ drop (suc n) xs
  drop_one-drop zero xs = refl
  drop_one-drop (suc n) [] = refl
  drop_one-drop (suc n) (x ∷ xs) = drop_one-drop n xs

  abbrev pub is_empty : List A → Bool
  is_empty [] = true
  is_empty (x ∷ xs) = false

  pub length-append : (xs ys : List A) → length (xs ++ ys) ≡ length xs + length ys
  length-append [] ys = omega arith
  length-append (x ∷ xs) ys = omega (arith, length-append xs ys)

  pub length-take : (n : ℕ) (xs : List A) → length (take n xs) ≡ min n (length xs)
  length-take zero xs = omega arith
  length-take (suc n) [] = omega arith
  length-take (suc n) (x ∷ xs) = omega (arith, length-take n xs)

  pub length-set : (xs : List A) (i : ℕ) (v : A) → length (set xs i v) ≡ length xs
  length-set [] i v = refl
  length-set (x ∷ xs) zero v = refl
  length-set (x ∷ xs) (suc i) v = ap suc (length-set xs i v)

  -- The list's cases, with the equation.
  abbrev pub All {κ} : (A → Type κ) → List A → Type κ
  All P [] = Unit
  All P (x ∷ xs) = P x × All P xs

  pub All-append {κ} : (P : A → Type κ) (xs ys : List A) → All P xs → All P ys → All P (xs ++ ys)
  All-append P [] ys hx hy = hy
  All-append P (x ∷ xs) ys hx hy = (hx.0, All-append P xs ys hx.1 hy)

  pub All-take {κ} : (P : A → Type κ) (n : ℕ) (xs : List A) → All P xs → All P (take n xs)
  All-take P zero xs h = tt
  All-take P (suc n) [] h = tt
  All-take P (suc n) (x ∷ xs) h = (h.0, All-take P n xs (h.1))

  pub All-drop {κ} : (P : A → Type κ) (n : ℕ) (xs : List A) → All P xs → All P (drop n xs)
  All-drop P zero xs h = h
  All-drop P (suc n) [] h = tt
  All-drop P (suc n) (x ∷ xs) h = All-drop P n xs (h.1)

abbrev pub mem : ℕ → List ℕ → Bool
mem k [] = false
mem k (x ∷ xs) = x == k || mem k xs

-- No number twice.
abbrev pub IsDistinct : List ℕ → Type 0
IsDistinct [] = Unit
IsDistinct (x ∷ xs) = (mem x xs ≡ false) × IsDistinct xs

abbrev pub count : ℕ → List ℕ → ℕ
count k [] = 0
count k (x ∷ xs) = if x == k then suc (count k xs) else count k xs

pub count-append : (k : ℕ) (xs ys : List ℕ) → count k (xs ++ ys) ≡ count k xs + count k ys
count-append k [] ys = omega arith
count-append k (x ∷ xs) ys = ground (arith, count-append k xs ys)

-- `iter().position(|x| x == k)` and then `remove(pos)`: the first occurrence is dropped.
abbrev pub remove_first : ℕ → List ℕ → List ℕ
remove_first k [] = []
remove_first k (x ∷ xs) = if x == k then xs else x ∷ remove_first k xs

pub mem-append : (k : ℕ) (xs ys : List ℕ) → mem k (xs ++ ys) ≡ (mem k xs || mem k ys)
mem-append k [] ys = refl
mem-append k (x ∷ xs) ys = ground (arith, mem-append k xs ys)

pub mem-remove_first_ne :
    (k j : ℕ) (xs : List ℕ) → (k == j) ≡ false → mem j (remove_first k xs) ≡ mem j xs
mem-remove_first_ne k j [] h = refl
mem-remove_first_ne k j (x ∷ xs) h = ground (arith, mem-remove_first_ne k j xs h)

pub mem-remove_first_self :
    (k : ℕ) (xs : List ℕ) → IsDistinct xs → mem k (remove_first k xs) ≡ false
mem-remove_first_self k [] d = refl
mem-remove_first_self k (x ∷ xs) d = ground (arith, mem-remove_first_self k xs d.1)

pub remove_first-absent : (k : ℕ) (xs : List ℕ) → mem k xs ≡ false → remove_first k xs ≡ xs
remove_first-absent k [] h = refl
remove_first-absent k (x ∷ xs) h = ground (arith, remove_first-absent k xs)

pub length-remove_first :
    (k : ℕ) (xs : List ℕ) → mem k xs ≡ true → length (remove_first k xs) + 1 ≡ length xs
length-remove_first k [] h = cc
length-remove_first k (x ∷ xs) h = ground (arith, length-remove_first k xs)

mem-remove_first_le : (k j : ℕ) (xs : List ℕ) → mem j xs ≡ false → mem j (remove_first k xs) ≡ false
mem-remove_first_le k j [] h = refl
mem-remove_first_le k j (x ∷ xs) h = ground (arith, mem-remove_first_le k j xs)

pub remove_first-IsDistinct : (k : ℕ) (xs : List ℕ) → IsDistinct xs → IsDistinct (remove_first k xs)
remove_first-IsDistinct k [] d = tt
remove_first-IsDistinct k (x ∷ xs) d =
    ground (arith, remove_first-IsDistinct k xs d.1, mem-remove_first_le k x xs d.0)

pub append-IsDistinct :
    (xs : List ℕ) (k : ℕ) → IsDistinct xs → mem k xs ≡ false → IsDistinct (xs ++ k ∷ [])
append-IsDistinct [] k d h = (refl, tt)
append-IsDistinct (x ∷ xs) k d h =
    ground (arith, append-IsDistinct xs k d.1, mem-append x xs (k ∷ []))

-- Two steps that move items from a queue `w` to an output, one after the other.
pub joined {ℓ} :
    {A : Type ℓ} (g w g' w' w₀ a a' : List A) {gs : List A}
    → gs ≡ g ++ g'
    → g ++ w ≡ w₀ ++ a
    → g' ++ w' ≡ w ++ a'
    → gs ++ w' ≡ w₀ ++ (a ++ a')
joined g w g' w' w₀ a a' h i j =
    ap (λ l. l ++ w') h
    ∙ append_assoc g g' w'
    ∙ ap (λ l. g ++ l) j
    ∙ sym (append_assoc g w a')
    ∙ ap (λ l. l ++ a') i
    ∙ append_assoc w₀ a a'
