-- ===== src/Agents/Embedding/Evicted.antt =====
-- embedding_cache.rs: an eviction, an insertion and an invalidation keep the two views together.
use mathlib.Core.Path.{subst, sym}
use atomr_accel.Common.{
  ℕ, ◌≡◌, refl, ◌∙◌, Bool, true, false, not, ◌&&◌, leb, Bool-cases, inl, inr, List, [], ◌∷◌, length,
  remove_first-absent, remove, contains_key, keys, contains_key-mem, lookup-remove_ne,
  lookup-remove_self, keys-remove-IsDistinct, length-remove, lookup_absent, if◌then◌else◌, arith,
}
use atomr_accel.Agents.Embedding.{EmbeddingCache, touch, evict, handle_insert, handle_invalidate}
use atomr_accel.Agents.Embedding.Lru.{Shows, Lru, drop_first, use_entry, keys-remove, remove_absent}
use atomr_accel.Agents.Embedding.Stored.{stored-Shows}

module _ {V : Type 0} where
  -- The cache with its size counted again, as `handle_insert` ends by doing.
  abbrev pub resized : EmbeddingCache V → EmbeddingCache V
  resized c = record c { stats = record c.stats { size = length c.cache } }

  abbrev pub is_full : ℕ → ℕ → List (ℕ × V) → Bool
  is_full capacity k l = leb capacity (length l) && not (contains_key k l)

  pub resized-Shows :
      (capacity : ℕ) (l : Lru V) (c : EmbeddingCache V)
      → Shows capacity l c
      → Shows capacity l (resized c)
  resized-Shows capacity l c s = record {
    same_order = s.same_order;
    same_values = s.same_values;
    same_size = s.same_size;
    distinct = s.distinct;
    cache_distinct = s.cache_distinct;
    same_hits = s.same_hits;
    same_misses = s.same_misses;
    stats_size = s.same_size;
    stats_capacity = s.stats_capacity;
    same_capacity = s.same_capacity;
  }

  pub same_full :
      (capacity k : ℕ) (l : Lru V) (c : EmbeddingCache V)
      → Shows capacity l c
      → is_full c.capacity_entries k c.cache ≡ is_full capacity k l.entries
  same_full capacity k l c s = ground (arith, s.same_capacity, s.same_size, s.same_values k)

  pub victim-Shows :
      (capacity i hits misses : ℕ) (w : V) (e : List (ℕ × V)) (c : EmbeddingCache V)
      → Shows capacity (record { entries = (i, w) ∷ e; hits = hits; misses = misses }) c
      → Shows capacity
          (record { entries = e; hits = hits; misses = misses })
          (resized (record c { order = keys e; cache = remove i c.cache }))
  victim-Shows capacity i hits misses w e c s =
      let size : length (remove i c.cache) ≡ length e = ground (
        arith,
        s.same_size,
        s.same_values i,
        contains_key-mem i c.cache,
        length-remove i c.cache,
      ) in
      record {
        same_order = refl;
        same_values = λ j. ground (
          arith,
          s.same_values j,
          lookup-remove_ne i j c.cache,
          lookup-remove_self i c.cache s.cache_distinct,
          lookup_absent i e,
          s.distinct.0,
        );
        same_size = size;
        distinct = s.distinct.1;
        cache_distinct = keys-remove-IsDistinct i c.cache s.cache_distinct;
        same_hits = s.same_hits;
        same_misses = s.same_misses;
        stats_size = size;
        stats_capacity = s.stats_capacity;
        same_capacity = s.same_capacity;
      }

  pub evict_full :
      (k i : ℕ) (rest : List ℕ) (c : EmbeddingCache V)
      → is_full c.capacity_entries k c.cache ≡ true
      → c.order ≡ i ∷ rest
      → record c { order = rest; cache = remove i c.cache } ≡ evict c k
  unfolding evict
  evict_full k i rest c f o = ground arith

  pub evict_empty : (k : ℕ) (c : EmbeddingCache V) → c.order ≡ [] → c ≡ evict c k
  unfolding evict
  evict_empty k c o = ground arith

  pub evict_room :
      (k : ℕ) (c : EmbeddingCache V) → is_full c.capacity_entries k c.cache ≡ false → c ≡ evict c k
  unfolding evict
  evict_room k c f = ground arith

  pub evict_full-Shows :
      (capacity k hits misses : ℕ) (e : List (ℕ × V)) (c : EmbeddingCache V)
      → is_full c.capacity_entries k c.cache ≡ true
      → Shows capacity (record { entries = e; hits = hits; misses = misses }) c
      → Shows capacity
          (record { entries = drop_first e; hits = hits; misses = misses })
          (resized (evict c k))
  unfolding drop_first
  evict_full-Shows capacity k hits misses [] c f s =
      subst
        (λ d. Shows capacity (record { entries = []; hits = hits; misses = misses }) (resized d))
        (evict_empty k c s.same_order)
        (resized-Shows capacity (record { entries = []; hits = hits; misses = misses }) c s)
  evict_full-Shows capacity k hits misses ((i, w) ∷ e) c f s =
      subst (λ d. Shows capacity (record { entries = e; hits = hits; misses = misses }) (resized d))
        (evict_full k i (keys e) c f s.same_order) (victim-Shows capacity i hits misses w e c s)

  pub insert-Shows :
      (capacity k : ℕ) (v : V) (l : Lru V) (c : EmbeddingCache V)
      → Shows capacity l c
      → Shows capacity
          (record l {
            entries =
                use_entry k v
                  (if is_full capacity k l.entries then drop_first l.entries else l.entries);
          })
          (handle_insert c k v)
  unfolding handle_insert touch
  insert-Shows capacity k v l c s = elim (Bool-cases (is_full capacity k l.entries)) [
    | inl f ↦
        subst
          (λ b.
            Shows capacity
              (record l { entries = use_entry k v (if b then drop_first l.entries else l.entries) })
              (handle_insert c k v))
          (sym f)
          (stored-Shows capacity k v (record l { entries = drop_first l.entries })
            (resized (evict c k))
            (evict_full-Shows capacity k l.hits l.misses l.entries c
              (same_full capacity k l c s ∙ f) s))
    | inr f ↦
        subst
          (λ b.
            Shows capacity
              (record l { entries = use_entry k v (if b then drop_first l.entries else l.entries) })
              (handle_insert c k v))
          (sym f)
          (stored-Shows capacity k v l (resized (evict c k)) (
            subst (λ d. Shows capacity l (resized d))
              (evict_room k c (same_full capacity k l c s ∙ f)) (resized-Shows capacity l c s)))
  ]

  pub invalidate-Shows :
      (capacity k : ℕ) (l : Lru V) (c : EmbeddingCache V)
      → Shows capacity l c
      → Shows capacity (record l { entries = remove k l.entries }) ((handle_invalidate c k).0)
  unfolding handle_invalidate
  invalidate-Shows capacity k l c s =
      let there = contains_key-mem k l.entries in
      let cached = contains_key-mem k c.cache in
      let gone = remove_absent k l.entries in
      let gone' = remove_absent k c.cache in
      let size : length (remove k c.cache) ≡ length (remove k l.entries) = ground (
        arith,
        s.same_size,
        s.same_values k,
        there,
        cached,
        gone,
        gone',
        length-remove k c.cache,
        length-remove k l.entries,
      ) in
      record {
        same_order = ground (
          arith,
          s.same_order,
          s.same_values k,
          there,
          keys-remove k l.entries,
          remove_first-absent k (keys l.entries),
        );
        same_values = λ j. ground (
          arith,
          s.same_values j,
          s.same_values k,
          lookup-remove_ne k j c.cache,
          lookup-remove_self k c.cache s.cache_distinct,
          lookup-remove_ne k j l.entries,
          lookup-remove_self k l.entries s.distinct,
        );
        same_size = ground (arith, size);
        distinct = keys-remove-IsDistinct k l.entries s.distinct;
        cache_distinct = ground (arith, keys-remove-IsDistinct k c.cache s.cache_distinct);
        same_hits = ground (arith, s.same_hits);
        same_misses = ground (arith, s.same_misses);
        stats_size = ground (arith, size, s.stats_size, s.same_values k, there, gone);
        stats_capacity = ground (arith, s.stats_capacity);
        same_capacity = ground (arith, s.same_capacity);
      }
