-- ===== src/Agents/Rag/Ranked.antt =====
-- rag.rs and vector_index.rs: the entries that a search gives.
use atomr_accel.Common.{
  ℕ, min, ◌≡◌, refl, ap, ◌∙◌, true, false, List, [], ◌∷◌, map, length, length-take, take,
}
use atomr_accel.Common.Sorting.{IsRanking, Best, sort_by, sort_by-Best, length-sort_by}
use atomr_accel.Agents.VectorIndex.{Scalar, CpuVectorIndex, ahead, scored}

-- Similarities are ordered, so none is NaN.
pub record IsOrdered {F : Type 0} (o : Scalar F) : Type 0 where
  pub asymmetric : (x y : F) → o.less x y ≡ true → o.less y x ≡ false
  pub not_less_trans : (x y z : F) → o.less x y ≡ false → o.less y z ≡ false → o.less x z ≡ false

ahead-IsRanking : {F : Type 0} (o : Scalar F) → IsOrdered o → IsRanking (ahead o)
ahead-IsRanking o laws = record {
  asymmetric = λ a b. laws.asymmetric (b.1) (a.1);
  not_ahead_trans = λ a b c h k. laws.not_less_trans (c.1) (b.1) (a.1) k h;
}

-- The entries that are most similar to an embedding, with their similarities.
pub record Ranked {F : Type 0} (o : Scalar F) (index : CpuVectorIndex F) (v : List F) (k : ℕ)
    (ranked : List (ℕ × F)) : Type 0 where
  pub as_many : length ranked ≡ min k (length index.entries)
  pub best : Best (ahead o) (scored o v index.entries) ranked

length-map : {A B : Type 0} (f : A → B) (xs : List A) → length (map f xs) ≡ length xs
length-map f [] = refl
length-map f (x ∷ xs) = ap ℕ.suc (length-map f xs)

-- The first of the sorted entries are ranked.
pub search-Ranked :
    {F : Type 0} (o : Scalar F) (index : CpuVectorIndex F) (v : List F) (k : ℕ)
    → IsOrdered o
    → Ranked o index v k (take k (sort_by (ahead o) (scored o v index.entries)))
search-Ranked o index v k laws = record {
  as_many =
      length-take k (sort_by (ahead o) (scored o v index.entries))
      ∙ ap (min k)
          (length-sort_by (ahead o) (scored o v index.entries) ∙ length-map _ index.entries);
  best = sort_by-Best (ahead o) (ahead-IsRanking o laws) k (scored o v index.entries);
}
