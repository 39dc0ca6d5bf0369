-- ===== src/Agents/Embedding.antt =====
-- crates/atomr-accel-agents/src/embedding_cache.rs. The standard library's hasher is the argument
-- `hash_key`; the values are of any type.
pub mod Lru
pub mod Stored
pub mod Evicted
pub mod Refinement
use atomr_accel.Common.{
  ℕ, ◌+◌, Bool, true, false, not, ◌&&◌, leb, Option, none, some, is_some, List, [], ◌∷◌, ◌++◌,
  length, remove_first, lookup, insert, remove, contains_key, if◌then◌else◌,
}

pub record CacheStats : Type 0 where
  pub hits : ℕ
  pub misses : ℕ
  pub size : ℕ
  pub capacity : ℕ

pub data Reply (V : Type 0) : Type 0 where
  found : (value : Option V) → Reply V
  inserted : Reply V
  invalidated : (removed : Bool) → Reply V
  counted : (stats : CacheStats) → Reply V

pub data EmbeddingCacheMsg (V : Type 0) : Type 0 where
  get : (key : List ℕ) → EmbeddingCacheMsg V
  insert_entry : (key : List ℕ) (value : V) → EmbeddingCacheMsg V
  invalidate : (key : List ℕ) → EmbeddingCacheMsg V
  get_stats : EmbeddingCacheMsg V

pub record EmbeddingCache (V : Type 0) : Type 0 where
  pub capacity_entries : ℕ
  pub cache : List (ℕ × V)
  -- The front is the least recent.
  pub order : List ℕ
  pub stats : CacheStats

module _ {V : Type 0} where
  unfoldable pub new_cache : ℕ → EmbeddingCache V
  new_cache capacity = record {
    capacity_entries = capacity;
    cache = [];
    order = [];
    stats = record { hits = 0; misses = 0; size = 0; capacity = capacity };
  }

  unfoldable pub touch : EmbeddingCache V → ℕ → EmbeddingCache V
  touch c k = record c { order = remove_first k c.order ++ k ∷ [] }

  unfoldable pub handle_get : EmbeddingCache V → ℕ → EmbeddingCache V × Option V
  unfolding touch
  handle_get c h = elim (lookup h c.cache) [
    | some v ↦ (touch (record c { stats = record c.stats { hits = c.stats.hits + 1 } }) h, some v)
    | none ↦ (record c { stats = record c.stats { misses = c.stats.misses + 1 } }, none)
  ]

  -- A full cache that lacks the key loses the front of `order`, if there is one.
  unfoldable pub evict : EmbeddingCache V → ℕ → EmbeddingCache V
  evict c h =
      if leb c.capacity_entries (length c.cache) && not (contains_key h c.cache)
      then elim c.order [
        | [] ↦ c
        | victim ∷ rest ↦ record c { order = rest; cache = remove victim c.cache }
      ]
      else c

  unfoldable pub handle_insert : EmbeddingCache V → ℕ → V → EmbeddingCache V
  unfolding evict touch
  handle_insert c h value =
      let c = evict c h in
      let c = touch (record c { cache = insert h value c.cache }) h in
      record c { stats = record c.stats { size = length c.cache } }

  unfoldable pub handle_invalidate : EmbeddingCache V → ℕ → EmbeddingCache V × Bool
  handle_invalidate c h =
      let removed = is_some (lookup h c.cache) in
      let cache = remove h c.cache in
      (
        if removed
            then record c {
              cache = cache;
              order = remove_first h c.order;
              stats = record c.stats { size = length cache };
            }
            else record c { cache = cache },
        removed,
      )

  unfoldable pub handle_msg :
      (List ℕ → ℕ) → EmbeddingCache V → EmbeddingCacheMsg V → EmbeddingCache V × Reply V
  unfolding handle_get handle_insert handle_invalidate
  handle_msg hash_key c (get key) = let (c', v) = handle_get c (hash_key key) in (c', found v)
  handle_msg hash_key c (insert_entry key value) = (handle_insert c (hash_key key) value, inserted)
  handle_msg hash_key c (invalidate key) =
      let (c', b) = handle_invalidate c (hash_key key) in (c', invalidated b)
  handle_msg hash_key c get_stats = (c, counted c.stats)

  unfoldable pub run_msgs :
      (List ℕ → ℕ) → EmbeddingCache V → List (EmbeddingCacheMsg V) → List (Reply V)
  unfolding handle_msg
  run_msgs hash_key c [] = []
  run_msgs hash_key c (m ∷ ms) =
      let (c', r) = handle_msg hash_key c m in r ∷ run_msgs hash_key c' ms
