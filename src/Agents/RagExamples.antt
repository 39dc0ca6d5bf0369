-- ===== src/Agents/RagExamples.antt =====
-- The steps of two interleaved queries, and another query over an index with three entries.
use atomr_accel.Common.{ℕ, ◌+◌, ◌*◌, ◌/◌, ◌<◌, List, [], ◌∷◌, ltb, ◌==◌, none, Text, arith, length}
use atomr_accel.Gpu.Error.{ok}
use atomr_accel.Agents.Embedding.{new_cache}
use atomr_accel.Agents.VectorIndex.{Scalar, CpuVectorIndex}
use atomr_accel.Agents.Rag.{RagQuery, RagConfig, Late, run_rag, run_steps, CacheStep, looks, stores}
use atomr_accel.Agents.Rag.Ranked.{IsOrdered}
use atomr_accel.Agents.Rag.Sources.{Outcome, run_rag-run_steps}

abbrev total : List ℕ → ℕ
total [] = 0
total (n ∷ ns) = n + total ns

abbrev whole : Scalar ℕ
whole = record {
  zero_f = 0;
  mul = λ a b. a * b;
  div = λ a b. a / b;
  sqrt = λ a. a;
  sum = total;
  is_zero = λ a. a == 0;
  less = ltb;
}

whole-IsOrdered : IsOrdered whole
whole-IsOrdered = record {
  asymmetric = λ x y h. ground arith;
  not_less_trans = λ x y z h k. ground arith;
}

abbrev index : CpuVectorIndex ℕ
index = record {
  dim = 2;
  entries =
      record { id = 11; embedding = 1 ∷ 0 ∷ [] }
      ∷ record { id = 12; embedding = 0 ∷ 1 ∷ [] }
      ∷ record { id = 13; embedding = 1 ∷ 1 ∷ [] }
      ∷ [];
}

abbrev config : RagConfig ℕ
config = record { embedding = λ s. ok (length s ∷ 1 ∷ []); llm = λ s ids. ok ids }

abbrev in_time : Late
in_time = record { get_late = none; search_late = none }

abbrev query : RagQuery
query = record { text = 104 ∷ 105 ∷ []; top_k = 2 }

-- The texts of queries are short here.
abbrev IsShort : Text → Type 0
IsShort s = length s < 5

abbrev steps : List CacheStep
steps = looks query.text ∷ looks (105 ∷ []) ∷ stores (105 ∷ []) ∷ stores query.text ∷ []

run_rag-run_steps_example :
    Outcome whole total config IsShort index in_time query
      (run_steps whole total config (new_cache 8) steps)
      ((run_rag whole total config index in_time
        (run_steps whole total config (new_cache 8) steps)
        query).1)
run_rag-run_steps_example =
    run_rag-run_steps whole total config IsShort index in_time query whole-IsOrdered 8 steps
      (omega arith, (omega arith, (omega arith, (omega arith, tt)))) (omega arith)
