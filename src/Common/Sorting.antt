-- ===== src/Common/Sorting.antt =====
-- The stable sort of the standard library with a comparison, and the first items of what it gives.
use Prim.Native.Nat.{ℕ, zero, suc}
use mathlib.Core.Path.{◌≡◌, refl, sym, ap, ◌∙◌, subst}
use mathlib.Core.Logic.{inl, inr}
use mathlib.Core.Bool.{Bool, true, false}
use mathlib.Core.List.Perm
use mathlib.Core.List.{List, [], ◌∷◌, ◌++◌, Perm}
use atomr_accel.Common.Tests.{Bool-cases, if◌then◌else◌}
use atomr_accel.Common.Lists.{length, take, drop, take-drop, All-take, All-drop, All}

module _ {A : Type 0} (ahead : A → A → Bool) where
  -- Equal items keep their order.
  unfoldable pub insert_by : A → List A → List A
  insert_by a [] = a ∷ []
  insert_by a (b ∷ xs) = let rest = insert_by a xs in if ahead b a then b ∷ rest else a ∷ b ∷ xs

  unfoldable pub sort_by : List A → List A
  unfolding insert_by
  sort_by [] = []
  sort_by (a ∷ xs) = insert_by a (sort_by xs)

  -- The comparison orders the items.
  pub record IsRanking : Type 0 where
    pub asymmetric : (a b : A) → ahead a b ≡ true → ahead b a ≡ false
    pub not_ahead_trans : (a b c : A) → ahead a b ≡ false → ahead b c ≡ false → ahead a c ≡ false

  insert_by-Perm : (a : A) (xs : List A) → Perm (insert_by a xs) (a ∷ xs)
  unfolding insert_by
  insert_by-Perm a [] = Perm.rfl
  insert_by-Perm a (b ∷ xs) = elim (Bool-cases (ahead b a)) [
    | inl h ↦ rw h (Perm.trans (Perm.cons b (insert_by-Perm a xs)) (Perm.swap a b xs))
    | inr h ↦ rw h Perm.rfl
  ]

  pub sort_by-Perm : (xs : List A) → Perm (sort_by xs) xs
  unfolding sort_by
  sort_by-Perm [] = Perm.rfl
  sort_by-Perm (a ∷ xs) = Perm.trans (insert_by-Perm a (sort_by xs)) (Perm.cons a (sort_by-Perm xs))

  length-insert_by : (a : A) (xs : List A) → length (insert_by a xs) ≡ suc (length xs)
  unfolding insert_by
  length-insert_by a [] = refl
  length-insert_by a (b ∷ xs) = elim (Bool-cases (ahead b a)) [
    | inl h ↦ rw h (ap suc (length-insert_by a xs))
    | inr h ↦ rw h refl
  ]

  pub length-sort_by : (xs : List A) → length (sort_by xs) ≡ length xs
  unfolding sort_by
  length-sort_by [] = refl
  length-sort_by (a ∷ xs) = length-insert_by a (sort_by xs) ∙ ap suc (length-sort_by xs)

  -- Nothing in the list is ahead.
  abbrev pub NotBehind : List A → A → Type 0
  NotBehind xs a = All (λ b. ahead b a ≡ false) xs

  abbrev pub InOrder : List A → Type 0
  InOrder [] = Unit
  InOrder (a ∷ xs) = NotBehind xs a × InOrder xs

  All-insert_by : (P : A → Type 0) (a : A) (xs : List A) → P a → All P xs → All P (insert_by a xs)
  unfolding insert_by
  All-insert_by P a [] p h = (p, tt)
  All-insert_by P a (b ∷ xs) p h = elim (Bool-cases (ahead b a)) [
    | inl e ↦ rw e (h.0, All-insert_by P a xs p (h.1))
    | inr e ↦ rw e (p, h)
  ]

  take-InOrder : (k : ℕ) (xs : List A) → InOrder xs → InOrder (take k xs)
  take-InOrder zero xs h = tt
  take-InOrder (suc k) [] h = tt
  take-InOrder (suc k) (a ∷ xs) h =
      (All-take (λ b. ahead b a ≡ false) k xs (h.0), take-InOrder k xs (h.1))

  taken_best : (k : ℕ) (xs : List A) → InOrder xs → All (NotBehind (drop k xs)) (take k xs)
  taken_best zero xs h = tt
  taken_best (suc k) [] h = tt
  taken_best (suc k) (a ∷ xs) h =
      (All-drop (λ b. ahead b a ≡ false) k xs (h.0), taken_best k xs (h.1))

  -- Some of the items, in order, with none of the others ahead of one of them.
  pub record Best (xs chosen : List A) : Type 0 where
    pub others : List A
    pub all_items : Perm (chosen ++ others) xs
    pub best : All (NotBehind others) chosen
    pub in_order : InOrder chosen

  module _ (laws : IsRanking) where
    behind_trans : (a b : A) (xs : List A) → ahead b a ≡ false → NotBehind xs b → NotBehind xs a
    behind_trans a b [] e h = tt
    behind_trans a b (c ∷ xs) e h =
        (laws.not_ahead_trans c b a (h.0) e, behind_trans a b xs e (h.1))

    insert_by-InOrder : (a : A) (xs : List A) → InOrder xs → InOrder (insert_by a xs)
    unfolding insert_by
    insert_by-InOrder a [] h = (tt, tt)
    insert_by-InOrder a (b ∷ xs) h = elim (Bool-cases (ahead b a)) [
      | inl e ↦ rw e (
        All-insert_by (λ c. ahead c b ≡ false) a xs (laws.asymmetric b a e) (h.0),
        insert_by-InOrder a xs (h.1),
      )
      | inr e ↦ rw e ((e, behind_trans a b xs e (h.0)), h)
    ]

    sort_by-InOrder : (xs : List A) → InOrder (sort_by xs)
    unfolding sort_by
    sort_by-InOrder [] = tt
    sort_by-InOrder (a ∷ xs) = insert_by-InOrder a (sort_by xs) (sort_by-InOrder xs)

    pub sort_by-Best : (k : ℕ) (xs : List A) → Best xs (take k (sort_by xs))
    sort_by-Best k xs = record {
      others = drop k (sort_by xs);
      all_items = subst (λ l. Perm l xs) (sym (take-drop k (sort_by xs))) (sort_by-Perm xs);
      best = taken_best k (sort_by xs) (sort_by-InOrder xs);
      in_order = take-InOrder k (sort_by xs) (sort_by-InOrder xs);
    }
