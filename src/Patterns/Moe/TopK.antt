-- ===== src/Patterns/Moe/TopK.antt =====
-- moe.rs: the experts that are chosen are those with the greatest scores.
use atomr_accel.Common.{
  ℕ, zero, suc, ◌+◌, min, max, ◌≡◌, refl, ap, ◌∙◌, true, false, Bool-cases, ◌⊎◌, inl, inr, none,
  some, List, length, length-take, take, arith, ltb,
}
use atomr_accel.Patterns.Moe.{Scalar, at, ahead, indices, choose, sorted}
use atomr_accel.Common.Sorting.{IsRanking, Best, sort_by-Best, length-sort_by}

-- What the sort relies on: scores are ordered, so no score is NaN.
pub record IsOrdered {F : Type 0} (o : Scalar F) : Type 0 where
  pub asymmetric : (x y : F) → o.less x y ≡ true → o.less y x ≡ false
  pub not_less_trans : (x y z : F) → o.less x y ≡ false → o.less y z ≡ false → o.less x z ≡ false

length-indices : {F : Type 0} (o : Scalar F) (i n : ℕ) → length (indices o i n) ≡ n
length-indices o i zero = refl
length-indices o i (suc n) = ap suc (length-indices o (i + 1) n)

module _ {F : Type 0} (o : Scalar F) (scores : List F) where
  ahead-IsRanking : IsOrdered o → IsRanking (ahead o scores)
  ahead-IsRanking laws = record {
    asymmetric = λ a b. laws.asymmetric (at o scores b) (at o scores a);
    not_ahead_trans =
        λ a b c h k. laws.not_less_trans (at o scores c) (at o scores b) (at o scores a) k h;
  }

  -- The chosen experts: in the order of their scores, with no greater score among the others.
  pub record TopK (top_k : ℕ) (chosen : List ℕ) : Type 0 where
    pub as_many : length chosen ≡ max (min top_k (length scores)) 1
    pub best : Best (ahead o scores) (indices o 0 (length scores)) chosen

  pub choose-TopK :
      IsOrdered o
      → (top_k : ℕ)
      → ((length scores ≡ 0) × (choose o scores top_k ≡ none))
        ⊎ ((chosen : List ℕ) × ((choose o scores top_k ≡ some chosen) × TopK top_k chosen))
  unfolding choose
  choose-TopK laws top_k =
      let idx = sorted o scores in
      let k = max (min top_k (length idx)) 1 in
      let n : length idx ≡ length scores =
        length-sort_by (ahead o scores) (indices o 0 (length scores))
        ∙ length-indices o 0 (length scores) in
      elim (Bool-cases (ltb (length idx) k)) [
        | inl short ↦ inl (ground (arith, n, short), ground (arith, short))
        | inr enough ↦ inr (
          take k idx,
          (
            ground (arith, enough),
            record {
              as_many = ground (arith, length-take k idx, n, enough);
              best =
                  sort_by-Best (ahead o scores) (ahead-IsRanking laws) k
                    (indices o 0 (length scores));
            },
          ),
        )
      ]
