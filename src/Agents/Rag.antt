-- ===== src/Agents/Rag.antt =====
-- crates/atomr-accel-agents/src/rag.rs: `RagPipeline`, with the embedding cache and the index that it asks. The key of the cache is the bytes of the text. A
-- question is handled even if its answer comes too late, which is the text of the error then.
pub mod Cached
pub mod Ranked
pub mod Sources
use atomr_accel.Common.{
  ℕ, max, Bool, true, false, Option, none, some, List, [], ◌∷◌, ◌++◌, map, Text, text,
}
use atomr_accel.Gpu.Error.{GpuError, unrecoverable, Result, ok, err}
use atomr_accel.Agents.Embedding.{EmbeddingCache, handle_get, handle_insert}
use atomr_accel.Agents.VectorIndex.{Scalar, CpuVectorIndex, handle_search}

pub record RagQuery : Type 0 where
  pub text : Text
  pub top_k : ℕ

pub record RagAnswer : Type 0 where
  pub answer : Text
  pub sources : List ℕ
  pub embedding_was_cached : Bool

pub record RagConfig (F : Type 0) : Type 0 where
  pub embedding : Text → Result (List F)
  pub llm : Text → List ℕ → Result Text

-- A look for the embedding of a text, and the computation and insertion of one.
pub data CacheStep : Type 0 where
  looks stores : Text → CacheStep

abbrev pub text_of : CacheStep → Text
text_of (looks s) = s
text_of (stores s) = s

-- Why an answer did not come in time, for the look into the cache and for the search.
pub record Late : Type 0 where
  pub get_late : Option Text
  pub search_late : Option Text

module _ {F : Type 0} (o : Scalar F) (hash_key : List ℕ → ℕ) (cfg : RagConfig F) where
  abbrev pub sources_of : List (ℕ × F) → List ℕ
  sources_of scored = map (λ s. s.0) scored

  -- The third step.
  unfoldable pub ask_llm : RagQuery → Bool → List ℕ → Result RagAnswer
  ask_llm q was_cached sources = elim (cfg.llm q.text sources) [
    | err e ↦ err e
    | ok answer ↦
        ok (record { answer = answer; sources = sources; embedding_was_cached = was_cached })
  ]

  -- The second step, and what follows.
  unfoldable pub search_index :
      CpuVectorIndex F → Late → RagQuery → List F → Bool → Result RagAnswer
  unfolding ask_llm handle_search
  search_index index late q embedding was_cached = elim late.search_late [
    | some e ↦ err (unrecoverable (text "rag: vec search: " ++ e))
    | none ↦ elim (handle_search o index embedding (max q.top_k 1)) [
      | err e ↦ err e
      | ok scored ↦ ask_llm q was_cached (sources_of scored)
    ]
  ]

  -- After the look into the cache.
  unfoldable pub with_cached :
      CpuVectorIndex F
      → Late
      → RagQuery
      → EmbeddingCache (List F)
      → Option (List F)
      → EmbeddingCache (List F) × Result RagAnswer
  unfolding search_index handle_insert
  with_cached index late q cache (some v) = (cache, search_index index late q v true)
  with_cached index late q cache none = elim (cfg.embedding q.text) [
    | err e ↦ (cache, err e)
    | ok v ↦ (handle_insert cache (hash_key q.text) v, search_index index late q v false)
  ]

  unfoldable pub run_rag :
      CpuVectorIndex F
      → Late
      → EmbeddingCache (List F)
      → RagQuery
      → EmbeddingCache (List F) × Result RagAnswer
  unfolding with_cached handle_get
  run_rag index late cache q =
      let got = handle_get cache (hash_key q.text) in
      elim late.get_late [
        | some e ↦ (got.0, err (unrecoverable (text "rag: embed cache get: " ++ e)))
        | none ↦ with_cached index late q (got.0) (got.1)
      ]

  -- What the runs of queries do to the cache, one step after another: the steps of several runs may come in
  -- any order.
  unfoldable pub apply_step : EmbeddingCache (List F) → CacheStep → EmbeddingCache (List F)
  unfolding handle_get handle_insert
  apply_step cache (looks s) = (handle_get cache (hash_key s)).0
  apply_step cache (stores s) = elim (cfg.embedding s) [
    | err e ↦ cache
    | ok v ↦ handle_insert cache (hash_key s) v
  ]

  abbrev pub run_steps : EmbeddingCache (List F) → List CacheStep → EmbeddingCache (List F)
  run_steps cache [] = cache
  run_steps cache (step ∷ steps) = run_steps (apply_step cache step) steps
