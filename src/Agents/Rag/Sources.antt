-- ===== src/Agents/Rag/Sources.antt =====
-- rag.rs: what a query is answered with, whatever queries filled the cache.
use mathlib.Core.Path.{subst}
use atomr_accel.Common.{
  ℕ, max, ◌≡◌, ◌≢◌, refl, sym, ap, Bool, true, false, Bool-cases, ◌⊎◌, inl, inr, Option, none, some,
  Option-cases, List, ◌++◌, length, take, All, arith, ◌==◌, lookup, Text, text,
}
use atomr_accel.Common.Sorting.{sort_by}
use atomr_accel.Gpu.Error.{GpuError, unrecoverable, Result, ok, err}
use atomr_accel.Agents.Embedding.{EmbeddingCache, new_cache, handle_get}
use atomr_accel.Agents.VectorIndex.{Scalar, CpuVectorIndex, ahead, scored, handle_search, wrong_dim}
use atomr_accel.Agents.Rag.{
  RagQuery, RagAnswer, RagConfig, Late, sources_of, ask_llm, search_index, with_cached, run_rag,
  run_steps, CacheStep, text_of,
}
use atomr_accel.Agents.Rag.Ranked.{IsOrdered, Ranked, search-Ranked}
use atomr_accel.Agents.Rag.Cached.{Origin, All-lookup, run_steps-Origin, result_cases}

module _ {F : Type 0} (o : Scalar F) (hash_key : List ℕ → ℕ) (cfg : RagConfig F) (Q : Text → Type 0)
    (index : CpuVectorIndex F) (late : Late) (q : RagQuery) where
  -- The embedding that is searched for, with what the cache has under the hash of the text: the embedding
  -- itself if it is said to be cached, and nothing otherwise.
  pub record Embedded (cache : EmbeddingCache (List F)) (cached : Bool) (v : List F) : Type 0 where
    pub like : Text
    pub holds : Q like
    pub same_hash : hash_key like ≡ hash_key q.text
    pub embedded : cfg.embedding like ≡ ok v
    pub found :
        ((cached ≡ true) × (lookup (hash_key q.text) cache.cache ≡ some v))
        ⊎ ((cached ≡ false) × ((lookup (hash_key q.text) cache.cache ≡ none) × (like ≡ q.text)))

  -- The index was asked in time for an embedding of its length, and these are its answers.
  pub record Found (v : List F) (ranked : List (ℕ × F)) : Type 0 where
    pub in_time : late.search_late ≡ none
    pub same_length : length v ≡ index.dim
    pub ranking : Ranked o index v (max q.top_k 1) ranked

  pub data Outcome (cache : EmbeddingCache (List F)) (result : Result RagAnswer) : Type 0 where
    cache_late :
        (e : Text)
        → late.get_late ≡ some e
        → result ≡ err (unrecoverable (text "rag: embed cache get: " ++ e))
        → Outcome cache result
    not_embedded :
        (e : GpuError)
        → late.get_late ≡ none
        → lookup (hash_key q.text) cache.cache ≡ none
        → cfg.embedding q.text ≡ err e
        → result ≡ err e
        → Outcome cache result
    index_late :
        (cached : Bool) (v : List F) (e : Text)
        → late.get_late ≡ none
        → Embedded cache cached v
        → late.search_late ≡ some e
        → result ≡ err (unrecoverable (text "rag: vec search: " ++ e))
        → Outcome cache result
    wrong_length :
        (cached : Bool) (v : List F)
        → late.get_late ≡ none
        → Embedded cache cached v
        → late.search_late ≡ none
        → length v ≢ index.dim
        → result ≡ err (unrecoverable (wrong_dim (text "query") (length v) index.dim))
        → Outcome cache result
    llm_failed :
        (cached : Bool) (v : List F) (ranked : List (ℕ × F)) (e : GpuError)
        → late.get_late ≡ none
        → Embedded cache cached v
        → Found v ranked
        → cfg.llm q.text (sources_of o hash_key cfg ranked) ≡ err e
        → result ≡ err e
        → Outcome cache result
    answered :
        (cached : Bool) (v : List F) (ranked : List (ℕ × F)) (answer : Text)
        → late.get_late ≡ none
        → Embedded cache cached v
        → Found v ranked
        → cfg.llm q.text (sources_of o hash_key cfg ranked) ≡ ok answer
        → result
          ≡ ok (record {
            answer = answer;
            sources = sources_of o hash_key cfg ranked;
            embedding_was_cached = cached;
          })
        → Outcome cache result

  module _ (laws : IsOrdered o) (cache : EmbeddingCache (List F)) where
    search_index-Outcome :
        (cached : Bool) (v : List F)
        → late.get_late ≡ none
        → Embedded cache cached v
        → Outcome cache (search_index o hash_key cfg index late q v cached)
    unfolding search_index ask_llm handle_search
    search_index-Outcome cached v g m = elim (Option-cases late.search_late) [
      | inr (e, l) ↦ index_late cached v e g m l (rw (l, search_index) refl)
      | inl l ↦ elim (Bool-cases (length v == index.dim)) [
        | inr w ↦
            wrong_length cached v g m l (λ e. ground (arith, e, w))
              (rw (l, w, search_index, handle_search) refl)
        | inl w ↦
            let ranked = take (max q.top_k 1) (sort_by (ahead o) (scored o v index.entries)) in
            let found : Found v ranked = record {
              in_time = l;
              same_length = ground (arith, w);
              ranking = search-Ranked o index v (max q.top_k 1) laws;
            } in
            elim (result_cases o hash_key cfg Q
              (cfg.llm q.text (sources_of o hash_key cfg ranked))) [
                | inl (a, f) ↦
                    answered cached v ranked a g m found f
                      (rw (l, w, f, search_index, handle_search, ask_llm) refl)
                | inr (e, f) ↦
                    llm_failed cached v ranked e g m found f
                      (rw (l, w, f, search_index, handle_search, ask_llm) refl)
              ]
      ]
    ]

    with_cached-Outcome :
        (used : EmbeddingCache (List F)) (got : Option (List F))
        → late.get_late ≡ none
        → Q q.text
        → ((v : List F) → got ≡ some v → Embedded cache true v)
        → (got ≡ none → lookup (hash_key q.text) cache.cache ≡ none)
        → Outcome cache ((with_cached o hash_key cfg index late q used got).1)
    unfolding with_cached
    with_cached-Outcome used (some v) g t hit miss = search_index-Outcome true v g (hit v refl)
    with_cached-Outcome used none g t hit miss =
        elim (result_cases o hash_key cfg Q (cfg.embedding q.text)) [
          | inr (e, f) ↦ not_embedded e g (miss refl) f (rw (f, with_cached) refl)
          | inl (v, f) ↦
              rw (f, with_cached)
                (search_index-Outcome false v g (record {
                  like = q.text;
                  holds = t;
                  same_hash = refl;
                  embedded = f;
                  found = inr (refl, (miss refl, refl));
                }))
        ]

    found-Embedded :
        (v : List F)
        → All (Origin o hash_key cfg Q) cache.cache
        → (handle_get cache (hash_key q.text)).1 ≡ some v
        → Embedded cache true v
    unfolding handle_get
    found-Embedded v h e = elim (Option-cases (lookup (hash_key q.text) cache.cache)) [
      | inl l ↦ absurd (ground (arith, e, l))
      | inr (w, l) ↦
          let here : lookup (hash_key q.text) cache.cache ≡ some v = ground (arith, e, l) in
          let from = All-lookup (Origin o hash_key cfg Q) (hash_key q.text) v cache.cache h here in
          record {
            like = from.asked;
            holds = from.holds;
            same_hash = from.same_hash;
            embedded = from.embedded;
            found = inl (refl, here);
          }
    ]

    not_found :
        (handle_get cache (hash_key q.text)).1 ≡ none → lookup (hash_key q.text) cache.cache ≡ none
    unfolding handle_get
    not_found e = elim (Option-cases (lookup (hash_key q.text) cache.cache)) [
      | inl l ↦ l
      | inr (w, l) ↦ absurd (ground (arith, e, l))
    ]

    in_time :
        late.get_late ≡ none
        → run_rag o hash_key cfg index late cache q
          ≡ with_cached o hash_key cfg index late q
              ((handle_get cache (hash_key q.text)).0)
              ((handle_get cache (hash_key q.text)).1)
    unfolding run_rag
    in_time l = rw (l, run_rag) refl

    run_rag-Outcome :
        Q q.text
        → All (Origin o hash_key cfg Q) cache.cache
        → Outcome cache ((run_rag o hash_key cfg index late cache q).1)
    unfolding run_rag
    run_rag-Outcome t h = elim (Option-cases late.get_late) [
      | inr (e, l) ↦ cache_late e l (rw (l, run_rag) refl)
      | inl l ↦ subst (Outcome cache) (sym (ap (λ r. r.1) (in_time l))) (
          with_cached-Outcome ((handle_get cache (hash_key q.text)).0)
            ((handle_get cache (hash_key q.text)).1) l t (λ v e. found-Embedded v h e) not_found)
    ]

  -- From an empty cache, after the looks and insertions of any other runs in any order, a query is answered
  -- with an error if the cache is late; else with the error of the embedding, if the cache has none for the
  -- hash of the text; else with an error if the index is late; else with one that names the lengths exactly if
  -- the embedding has not that of the index; else with the error of the language model, or with its
  -- answer to the sources. These are as many as top_k says, but at least one and
  -- at most all: the entries most similar to the embedding, in the order of their similarity, when no
  -- similarity is NaN. The embedding is said to be cached exactly if the cache had it under the hash of the text:
  -- then it is that of a text with the same hash, and otherwise that of the text; whatever holds of the text
  -- of each look and insertion and of this query holds of that text.
  pub run_rag-run_steps :
      IsOrdered o
      → (capacity : ℕ) (steps : List CacheStep) → All (λ step. Q (text_of step)) steps
      → Q q.text
      → Outcome (run_steps o hash_key cfg (new_cache capacity) steps) (
          (run_rag o hash_key cfg index late
            (run_steps o hash_key cfg (new_cache capacity) steps)
            q).1)
  unfolding new_cache
  run_rag-run_steps laws capacity steps ts t =
      run_rag-Outcome laws (run_steps o hash_key cfg (new_cache capacity) steps) t
        (run_steps-Origin o hash_key cfg Q (new_cache capacity) steps ts tt)
