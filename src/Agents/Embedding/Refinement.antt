-- ===== src/Agents/Embedding/Refinement.antt =====
-- embedding_cache.rs: the cache and the list answer alike.
use mathlib.Core.Path.{subst, sym, ap}
use atomr_accel.Common.{
  ℕ, ◌+◌, ◌≡◌, refl, ◌∙◌, Option-cases, inl, inr, none, some, is_some, List, [], ◌∷◌, lookup, arith,
}
use atomr_accel.Agents.Embedding.{
  Reply, found, invalidated, EmbeddingCacheMsg, get, insert_entry, invalidate, get_stats,
  EmbeddingCache, new_cache, touch, handle_get, handle_msg, run_msgs,
}
use atomr_accel.Agents.Embedding.Lru.{Shows, Lru, use_entry, lru_step, lru_run, Shows}
use atomr_accel.Agents.Embedding.Stored.{miss-Shows, hit-Shows}
use atomr_accel.Agents.Embedding.Evicted.{insert-Shows, invalidate-Shows}

module _ {V : Type 0} where
  abbrev Agrees : ℕ → Lru V × Reply V → EmbeddingCache V × Reply V → Type 0
  Agrees capacity x y = Shows capacity (x.0) (y.0) × (y.1 ≡ x.1)

  lru_miss :
      (capacity : ℕ) (hash_key : List ℕ → ℕ) (l : Lru V) (key : List ℕ)
      → lookup (hash_key key) l.entries ≡ none
      → lru_step capacity hash_key l (get key) ≡ (record l { misses = l.misses + 1 }, found none)
  unfolding lru_step
  lru_miss capacity hash_key l key h = ground arith

  lru_hit :
      (capacity : ℕ) (hash_key : List ℕ → ℕ) (l : Lru V) (key : List ℕ) (v : V)
      → lookup (hash_key key) l.entries ≡ some v
      → lru_step capacity hash_key l (get key) ≡ (
        record l { entries = use_entry (hash_key key) v l.entries; hits = l.hits + 1 },
        found (some v),
      )
  unfolding lru_step
  lru_hit capacity hash_key l key v h = ground arith

  get_miss :
      (hash_key : List ℕ → ℕ) (c : EmbeddingCache V) (key : List ℕ)
      → lookup (hash_key key) c.cache ≡ none
      → handle_msg hash_key c (get key)
        ≡ (record c { stats = record c.stats { misses = c.stats.misses + 1 } }, found none)
  unfolding handle_msg handle_get
  get_miss hash_key c key h = ground arith

  get_hit :
      (hash_key : List ℕ → ℕ) (c : EmbeddingCache V) (key : List ℕ) (v : V)
      → lookup (hash_key key) c.cache ≡ some v
      → handle_msg hash_key c (get key) ≡ (
        touch (record c { stats = record c.stats { hits = c.stats.hits + 1 } }) (hash_key key),
        found (some v),
      )
  unfolding handle_msg handle_get
  get_hit hash_key c key v h = ground arith

  -- One message: the same reply, and states that still go together.
  handle_msg-Shows :
      (capacity : ℕ) (hash_key : List ℕ → ℕ) (l : Lru V) (c : EmbeddingCache V)
      (m : EmbeddingCacheMsg V)
      → Shows capacity l c
      → Shows capacity ((lru_step capacity hash_key l m).0) ((handle_msg hash_key c m).0)
        × ((handle_msg hash_key c m).1 ≡ (lru_step capacity hash_key l m).1)
  unfolding lru_step handle_msg handle_get
  handle_msg-Shows capacity hash_key l c (get key) s =
      let k = hash_key key in
      elim (Option-cases (lookup k l.entries)) [
        | inl n ↦
            subst (λ x. Agrees capacity x (handle_msg hash_key c (get key)))
              (sym (lru_miss capacity hash_key l key n))
              (subst (Agrees capacity (record l { misses = l.misses + 1 }, found none))
                (sym (get_miss hash_key c key (s.same_values k ∙ n)))
                (miss-Shows capacity l c s, refl))
        | inr (v, y) ↦
            subst (λ x. Agrees capacity x (handle_msg hash_key c (get key)))
              (sym (lru_hit capacity hash_key l key v y))
              (subst
                (Agrees capacity (
                  record l { entries = use_entry k v l.entries; hits = l.hits + 1 },
                  found (some v),
                ))
                (sym (get_hit hash_key c key v (s.same_values k ∙ y)))
                (hit-Shows capacity k v l c y s, refl))
      ]
  handle_msg-Shows capacity hash_key l c (insert_entry key value) s =
      (insert-Shows capacity (hash_key key) value l c s, refl)
  handle_msg-Shows capacity hash_key l c (invalidate key) s = (
    invalidate-Shows capacity (hash_key key) l c s,
    ap (λ o. invalidated (is_some o)) (s.same_values (hash_key key)),
  )
  handle_msg-Shows capacity hash_key l c get_stats s =
      (s, ground (arith, s.same_hits, s.same_misses, s.stats_size, s.stats_capacity))

  run-Shows :
      (capacity : ℕ) (hash_key : List ℕ → ℕ) (l : Lru V) (c : EmbeddingCache V)
      (ms : List (EmbeddingCacheMsg V))
      → Shows capacity l c
      → run_msgs hash_key c ms ≡ lru_run capacity hash_key l ms
  unfolding run_msgs lru_run
  run-Shows capacity hash_key l c [] s = refl
  run-Shows capacity hash_key l c (m ∷ ms) s =
      let (next, same) = handle_msg-Shows capacity hash_key l c m s in
      ap (λ r. r ∷ run_msgs hash_key ((handle_msg hash_key c m).0) ms) same
      ∙ ap (λ rs. (lru_step capacity hash_key l m).1 ∷ rs)
          (run-Shows capacity hash_key ((lru_step capacity hash_key l m).0)
            ((handle_msg hash_key c m).0) ms next)

  new_cache-Shows :
      (capacity : ℕ)
      → Shows {V = V} capacity (record { entries = []; hits = 0; misses = 0 }) (new_cache capacity)
  unfolding new_cache
  new_cache-Shows capacity = record {
    same_order = refl;
    same_values = λ k. refl;
    same_size = refl;
    distinct = tt;
    cache_distinct = tt;
    same_hits = refl;
    same_misses = refl;
    stats_size = refl;
    stats_capacity = refl;
    same_capacity = refl;
  }

  -- For every hash function and every sequence of messages, a new cache answers each message, its
  -- statistics included, exactly as a plain list of entries in the order of their last use would: a hit
  -- moves the entry to the end, and an insertion of a new key at capacity drops the first entry.
  pub run_msgs-lru_run :
      (capacity : ℕ) (hash_key : List ℕ → ℕ) (ms : List (EmbeddingCacheMsg V))
      → run_msgs hash_key (new_cache capacity) ms
        ≡ lru_run capacity hash_key (record { entries = []; hits = 0; misses = 0 }) ms
  run_msgs-lru_run capacity hash_key ms =
      run-Shows capacity hash_key (record { entries = []; hits = 0; misses = 0 })
        (new_cache capacity) ms (new_cache-Shows capacity)
