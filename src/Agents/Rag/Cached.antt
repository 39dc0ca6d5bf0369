-- ===== src/Agents/Rag/Cached.antt =====
-- rag.rs: the embeddings that queries leave in the cache.
use mathlib.Core.Path.{subst}
use atomr_accel.Common.{
  ℕ, ◌≡◌, refl, Bool-cases, ◌⊎◌, inl, inr, some, Option-cases, List, [], ◌∷◌, length, All, arith,
  ◌==◌, ==_iff, if_both, lookup, insert, remove, Text, leb, not, contains_key, ◌&&◌,
}
use atomr_accel.Gpu.Error.{GpuError, Result, ok, err}
use atomr_accel.Agents.Embedding.{EmbeddingCache, handle_get, handle_insert, evict, touch}
use atomr_accel.Agents.VectorIndex.{Scalar}
use atomr_accel.Agents.Rag.{RagConfig, CacheStep, looks, stores, text_of, apply_step, run_steps}

module _ {V : Type 0} (P : ℕ × V → Type 0) where
  All-insert : (k : ℕ) (v : V) (m : List (ℕ × V)) → P (k, v) → All P m → All P (insert k v m)
  All-insert k v [] p h = (p, tt)
  All-insert k v ((j, w) ∷ m) p h = elim (Bool-cases (j == k)) [
    | inl e ↦ rw e (p, h.1)
    | inr e ↦ rw e (h.0, All-insert k v m p (h.1))
  ]

  All-remove : (k : ℕ) (m : List (ℕ × V)) → All P m → All P (remove k m)
  All-remove k [] h = tt
  All-remove k ((j, w) ∷ m) h = elim (Bool-cases (j == k)) [
    | inl e ↦ rw e (h.1)
    | inr e ↦ rw e (h.0, All-remove k m (h.1))
  ]

  same : {v w : V} → some v ≡ some w → v ≡ w
  same e = ground (arith, e)

  pub All-lookup : (k : ℕ) (v : V) (m : List (ℕ × V)) → All P m → lookup k m ≡ some v → P (k, v)
  All-lookup k v [] h e = absurd (ground (arith, e))
  All-lookup k v ((j, w) ∷ m) h e = elim (Bool-cases (j == k)) [
    | inl s ↦
        subst P (λ i. ((==_iff j k).0 s i, same {v = w} {w = v} (ground (arith, s, e)) i)) (h.0)
    | inr s ↦ All-lookup k v m (h.1) (ground (arith, s, e))
  ]

  All-victim :
      (c : EmbeddingCache V) (order : List ℕ)
      → All P c.cache
      → All P
          (elim order as (λ x. EmbeddingCache V) [
            | [] ↦ c
            | victim ∷ rest ↦ record c { order = rest; cache = remove victim c.cache }
          ]).cache
  All-victim c [] h = h
  All-victim c (victim ∷ rest) h = All-remove victim c.cache h

  All-evict : (c : EmbeddingCache V) (k : ℕ) → All P c.cache → All P (evict c k).cache
  unfolding evict
  All-evict c k h =
      if_both (λ (d : EmbeddingCache V). All P d.cache) (All-victim c c.order h) h
        (leb c.capacity_entries (length c.cache) && not (contains_key k c.cache))

  pub All-handle_get :
      (c : EmbeddingCache V) (k : ℕ) → All P c.cache → All P ((handle_get c k).0).cache
  unfolding handle_get touch
  All-handle_get c k h = elim (Option-cases (lookup k c.cache)) [
    | inl e ↦ rw (e, handle_get) h
    | inr (v, e) ↦ rw (e, handle_get) h
  ]

  All-handle_insert :
      (c : EmbeddingCache V) (k : ℕ) (v : V)
      → P (k, v)
      → All P c.cache
      → All P (handle_insert c k v).cache
  unfolding handle_insert touch
  All-handle_insert c k v p h = All-insert k v (evict c k).cache p (All-evict c k h)

module _ {F : Type 0} (o : Scalar F) (hash_key : List ℕ → ℕ) (cfg : RagConfig F)
    (Q : Text → Type 0) where
  -- An entry of the cache is the embedding of a text with this hash.
  pub record Origin (entry : ℕ × List F) : Type 0 where
    pub asked : Text
    pub holds : Q asked
    pub same_hash : hash_key asked ≡ entry.0
    pub embedded : cfg.embedding asked ≡ ok (entry.1)

  pub result_cases :
      {B : Type 0} (r : Result B) → ((b : B) × (r ≡ ok b)) ⊎ ((e : GpuError) × (r ≡ err e))
  result_cases (ok b) = inl (b, refl)
  result_cases (err e) = inr (e, refl)

  apply_step-Origin :
      (cache : EmbeddingCache (List F)) (step : CacheStep)
      → Q (text_of step)
      → All Origin cache.cache
      → All Origin (apply_step o hash_key cfg cache step).cache
  unfolding apply_step
  apply_step-Origin cache (looks s) t h = All-handle_get Origin cache (hash_key s) h
  apply_step-Origin cache (stores s) t h = elim (result_cases (cfg.embedding s)) [
    | inr (e, f) ↦ rw (f, apply_step) h
    | inl (v, f) ↦
        rw (f, apply_step)
          (All-handle_insert Origin cache (hash_key s) v
            (record { asked = s; holds = t; same_hash = refl; embedded = f }) h)
  ]

  pub run_steps-Origin :
      (cache : EmbeddingCache (List F)) (steps : List CacheStep)
      → All (λ step. Q (text_of step)) steps
      → All Origin cache.cache
      → All Origin (run_steps o hash_key cfg cache steps).cache
  run_steps-Origin cache [] ts h = h
  run_steps-Origin cache (step ∷ steps) ts h =
      run_steps-Origin (apply_step o hash_key cfg cache step) steps (ts.1)
        (apply_step-Origin cache step (ts.0) h)
