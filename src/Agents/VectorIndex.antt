-- ===== src/Agents/VectorIndex.antt =====
-- crates/atomr-accel-agents/src/vector_index.rs: `CpuVectorIndex`. An `f32` is any type `F` with the operations that
-- are used.
use atomr_accel.Common.{
  ℕ, ◌==◌, Bool, ◌||◌, List, [], ◌∷◌, ◌++◌, map, length, take, if◌then◌else◌, Text, text, decimal,
}
use atomr_accel.Common.Sorting.{sort_by}
use atomr_accel.Gpu.Error.{unrecoverable, Result, ok, err}

pub record Scalar (F : Type 0) : Type 0 where
  pub zero_f : F
  pub mul : F → F → F
  pub div : F → F → F
  pub sqrt : F → F
  -- `iter().sum()`.
  pub sum : List F → F
  pub is_zero : F → Bool
  -- `partial_cmp` says `Less`.
  pub less : F → F → Bool

pub record VectorEntry (F : Type 0) : Type 0 where
  pub id : ℕ
  pub embedding : List F

pub record CpuVectorIndex (F : Type 0) : Type 0 where
  pub dim : ℕ
  pub entries : List (VectorEntry F)

pub data VectorIndexMsg (F : Type 0) : Type 0 where
  insert : VectorEntry F → VectorIndexMsg F
  search : (query : List F) → (top_k : ℕ) → VectorIndexMsg F
  get_stats : VectorIndexMsg F

-- What each message is answered with.
pub data Reply (F : Type 0) : Type 0 where
  inserted : Result {0} Unit → Reply F
  found : Result (List (ℕ × F)) → Reply F
  counted : ℕ → Reply F

unfoldable pub wrong_dim : Text → ℕ → ℕ → Text
unfolding text decimal
wrong_dim what got dim = what ++ text " dim " ++ decimal got ++ text " != index dim " ++ decimal dim

unfoldable pub new_index : {F : Type 0} → ℕ → CpuVectorIndex F
new_index dim = record { dim = dim; entries = [] }

module _ {F : Type 0} (o : Scalar F) where
  abbrev products : List F → List F → List F
  products (x ∷ a) (y ∷ b) = o.mul x y ∷ products a b
  products a b = []

  unfoldable pub cosine : List F → List F → F
  cosine a b =
      let dot = o.sum (products a b) in
      let na = o.sqrt (o.sum (map (λ x. o.mul x x) a)) in
      let nb = o.sqrt (o.sum (map (λ x. o.mul x x) b)) in
      if o.is_zero na || o.is_zero nb then o.zero_f else o.div dot (o.mul na nb)

  -- The first goes before the second: it is more similar.
  abbrev pub ahead : ℕ × F → ℕ × F → Bool
  ahead a b = o.less (b.1) (a.1)

  abbrev pub scored : List F → List (VectorEntry F) → List (ℕ × F)
  scored query entries = map (λ e. (e.id, cosine e.embedding query)) entries

  unfoldable pub handle_search : CpuVectorIndex F → List F → ℕ → Result (List (ℕ × F))
  unfolding cosine wrong_dim text sort_by
  handle_search index query top_k =
      if length query == index.dim
      then ok (take top_k (sort_by ahead (scored query index.entries)))
      else err (unrecoverable (wrong_dim (text "query") (length query) index.dim))

  unfoldable pub handle_insert :
      CpuVectorIndex F → VectorEntry F → CpuVectorIndex F × Result {0} Unit
  unfolding wrong_dim text
  handle_insert index entry =
      if length entry.embedding == index.dim
      then (record index { entries = index.entries ++ entry ∷ [] }, ok tt)
      else (
        index,
        err (unrecoverable (wrong_dim (text "vector") (length entry.embedding) index.dim)),
      )

  unfoldable pub handle : CpuVectorIndex F → VectorIndexMsg F → CpuVectorIndex F × Reply F
  unfolding handle_search handle_insert
  handle index (insert entry) = let (index', r) = handle_insert index entry in (index', inserted r)
  handle index (search query top_k) = (index, found (handle_search index query top_k))
  handle index get_stats = (index, counted (length index.entries))
