-- ===== src/Agents/Embedding/Stored.antt =====
-- embedding_cache.rs: a miss, a hit and a stored entry keep the two views together.
use mathlib.Core.Path.{sym, ap}
use atomr_accel.Common.{
  ℕ, ◌+◌, ◌≡◌, ◌∙◌, true, some, List, [], ◌∷◌, ◌++◌, length, mem, remove_first, lookup, insert,
  keys, lookup-insert, contains_key-mem, keys-insert-IsDistinct, length-insert, arith,
}
use atomr_accel.Agents.Embedding.{EmbeddingCache, touch}
use atomr_accel.Agents.Embedding.Lru.{
  Shows, Lru, use_entry, keys-use_entry, lookup-use_entry, length-use_entry, use_entry-IsDistinct,
}

module _ {V : Type 0} where
  pub present : (k : ℕ) (v : V) (l : List (ℕ × V)) → lookup k l ≡ some v → mem k (keys l) ≡ true
  present k v l h = ground (arith, contains_key-mem k l, h)

  -- The record of equations for a hit, an insertion and a removal are got from these.
  pub miss-Shows :
      (capacity : ℕ) (l : Lru V) (c : EmbeddingCache V)
      → Shows capacity l c
      → Shows capacity
          (record l { misses = l.misses + 1 })
          (record c { stats = record c.stats { misses = c.stats.misses + 1 } })
  miss-Shows capacity l c s = record {
    same_order = s.same_order;
    same_values = s.same_values;
    same_size = s.same_size;
    distinct = s.distinct;
    cache_distinct = s.cache_distinct;
    same_hits = s.same_hits;
    same_misses = ap (λ n. n + 1) s.same_misses;
    stats_size = s.stats_size;
    stats_capacity = s.stats_capacity;
    same_capacity = s.same_capacity;
  }

  pub hit-Shows :
      (capacity k : ℕ) (v : V) (l : Lru V) (c : EmbeddingCache V)
      → lookup k l.entries ≡ some v
      → Shows capacity l c
      → Shows capacity
          (record l { entries = use_entry k v l.entries; hits = l.hits + 1 })
          (touch (record c { stats = record c.stats { hits = c.stats.hits + 1 } }) k)
  unfolding touch
  hit-Shows capacity k v l c h s = record {
    same_order =
        ap (λ o. remove_first k o ++ k ∷ []) s.same_order ∙ sym (keys-use_entry k v l.entries);
    same_values =
        λ j. ground (arith, h, s.same_values j, lookup-use_entry j k v l.entries s.distinct);
    same_size =
        ground (arith, s.same_size, length-use_entry k v l.entries, present k v l.entries h);
    distinct = use_entry-IsDistinct k v l.entries s.distinct;
    cache_distinct = s.cache_distinct;
    same_hits = ap (λ n. n + 1) s.same_hits;
    same_misses = s.same_misses;
    stats_size =
        ground (arith, s.stats_size, length-use_entry k v l.entries, present k v l.entries h);
    stats_capacity = s.stats_capacity;
    same_capacity = s.same_capacity;
  }

  pub stored-Shows :
      (capacity k : ℕ) (v : V) (l : Lru V) (c : EmbeddingCache V)
      → Shows capacity l c
      → Shows capacity
          (record l { entries = use_entry k v l.entries })
          (let d = touch (record c { cache = insert k v c.cache }) k in
            record d { stats = record d.stats { size = length d.cache } })
  unfolding touch
  stored-Shows capacity k v l c s =
      let size : length (insert k v c.cache) ≡ length (use_entry k v l.entries) = ground (
        arith,
        s.same_size,
        length-use_entry k v l.entries,
        length-insert k v c.cache,
        contains_key-mem k c.cache,
        contains_key-mem k l.entries,
        s.same_values k,
      ) in
      record {
        same_order =
            ap (λ o. remove_first k o ++ k ∷ []) s.same_order ∙ sym (keys-use_entry k v l.entries);
        same_values = λ j. ground (
          arith,
          s.same_values j,
          lookup-insert k j v c.cache,
          lookup-use_entry j k v l.entries s.distinct,
        );
        same_size = size;
        distinct = use_entry-IsDistinct k v l.entries s.distinct;
        cache_distinct = keys-insert-IsDistinct k v c.cache s.cache_distinct;
        same_hits = s.same_hits;
        same_misses = s.same_misses;
        stats_size = size;
        stats_capacity = s.stats_capacity;
        same_capacity = s.same_capacity;
      }
