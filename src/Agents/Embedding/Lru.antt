-- ===== src/Agents/Embedding/Lru.antt =====
-- embedding_cache.rs against the textbook: one list of entries, the least recently used first.
use mathlib.Core.Path.{subst, sym, ap}
use atomr_accel.Common.{
  ℕ, ◌+◌, ◌≡◌, refl, ◌∙◌, false, not, ◌&&◌, leb, ◌==◌, none, some, List, [], ◌∷◌, ◌++◌, length, mem,
  IsDistinct, append-IsDistinct, length-append, mem-remove_first_self, remove_first,
  remove_first-IsDistinct, lookup, remove, contains_key, keys, lookup-remove_ne, length-remove,
  lookup_absent, mem-keys-remove_self, if◌then◌else◌, arith,
}
use atomr_accel.Agents.Embedding.{
  Reply, found, inserted, invalidated, counted, EmbeddingCacheMsg, get, insert_entry, invalidate,
  get_stats, EmbeddingCache,
}

-- The entries, the least recently used first, and the counters.
pub record Lru (V : Type 0) : Type 0 where
  pub entries : List (ℕ × V)
  pub hits : ℕ
  pub misses : ℕ

module _ {V : Type 0} where
  unfoldable pub drop_first : List (ℕ × V) → List (ℕ × V)
  drop_first [] = []
  drop_first (x ∷ xs) = xs

  unfoldable pub use_entry : ℕ → V → List (ℕ × V) → List (ℕ × V)
  use_entry k v l = remove k l ++ (k, v) ∷ []

  unfoldable pub lru_step : ℕ → (List ℕ → ℕ) → Lru V → EmbeddingCacheMsg V → Lru V × Reply V
  unfolding drop_first use_entry
  lru_step capacity hash_key l (get key) = elim (lookup (hash_key key) l.entries) [
    | some v ↦ (
      record l { entries = use_entry (hash_key key) v l.entries; hits = l.hits + 1 },
      found (some v),
    )
    | none ↦ (record l { misses = l.misses + 1 }, found none)
  ]
  lru_step capacity hash_key l (insert_entry key value) =
      let full = leb capacity (length l.entries) && not (contains_key (hash_key key) l.entries) in
      let kept = if full then drop_first l.entries else l.entries in
      (record l { entries = use_entry (hash_key key) value kept }, inserted)
  lru_step capacity hash_key l (invalidate key) = (
    record l { entries = remove (hash_key key) l.entries },
    invalidated (contains_key (hash_key key) l.entries),
  )
  lru_step capacity hash_key l get_stats = (
    l,
    counted
        (record { hits = l.hits; misses = l.misses; size = length l.entries; capacity = capacity }),
  )

  unfoldable pub lru_run : ℕ → (List ℕ → ℕ) → Lru V → List (EmbeddingCacheMsg V) → List (Reply V)
  unfolding lru_step
  lru_run capacity hash_key l [] = []
  lru_run capacity hash_key l (m ∷ ms) =
      let (l', r) = lru_step capacity hash_key l m in r ∷ lru_run capacity hash_key l' ms

  -- The cache's two tables and its counters hold the list's entries.
  pub record Shows (capacity : ℕ) (l : Lru V) (c : EmbeddingCache V) : Type 0 where
    pub same_order : c.order ≡ keys l.entries
    pub same_values : (k : ℕ) → lookup k c.cache ≡ lookup k l.entries
    pub same_size : length c.cache ≡ length l.entries
    pub distinct : IsDistinct (keys l.entries)
    pub cache_distinct : IsDistinct (keys c.cache)
    pub same_hits : c.stats.hits ≡ l.hits
    pub same_misses : c.stats.misses ≡ l.misses
    pub stats_size : c.stats.size ≡ length l.entries
    pub stats_capacity : c.stats.capacity ≡ capacity
    pub same_capacity : c.capacity_entries ≡ capacity

  pub keys-append : (xs ys : List (ℕ × V)) → keys (xs ++ ys) ≡ keys xs ++ keys ys
  keys-append [] ys = refl
  keys-append ((k, v) ∷ xs) ys = ap (λ l. k ∷ l) (keys-append xs ys)

  pub keys-remove : (k : ℕ) (xs : List (ℕ × V)) → keys (remove k xs) ≡ remove_first k (keys xs)
  keys-remove k [] = refl
  keys-remove k ((j, v) ∷ xs) = ground (arith, keys-remove k xs)

  pub keys-use_entry :
      (k : ℕ) (v : V) (l : List (ℕ × V))
      → keys (use_entry k v l) ≡ remove_first k (keys l) ++ k ∷ []
  unfolding use_entry
  keys-use_entry k v l =
      keys-append (remove k l) ((k, v) ∷ []) ∙ ap (λ r. r ++ k ∷ []) (keys-remove k l)

  pub lookup-append :
      (j k : ℕ) (v : V) (xs : List (ℕ × V))
      → lookup j (xs ++ (k, v) ∷ [])
        ≡ (if mem j (keys xs) then lookup j xs else if k == j then some v else none)
  lookup-append j k v [] = refl
  lookup-append j k v ((i, w) ∷ xs) = ground (arith, lookup-append j k v xs)

  pub lookup-use_entry :
      (j k : ℕ) (v : V) (l : List (ℕ × V))
      → IsDistinct (keys l)
      → lookup j (use_entry k v l) ≡ (if k == j then some v else lookup j l)
  unfolding use_entry
  lookup-use_entry j k v l d = ground (
    arith,
    lookup-append j k v (remove k l),
    mem-keys-remove_self k l d,
    lookup-remove_ne k j l,
    lookup_absent j (remove k l),
  )

  pub remove_absent : (k : ℕ) (xs : List (ℕ × V)) → mem k (keys xs) ≡ false → remove k xs ≡ xs
  remove_absent k [] h = refl
  remove_absent k ((j, v) ∷ xs) h = ground (arith, remove_absent k xs)

  pub length-use_entry :
      (k : ℕ) (v : V) (l : List (ℕ × V))
      → length (use_entry k v l) ≡ (if mem k (keys l) then length l else length l + 1)
  unfolding use_entry
  length-use_entry k v l =
      ground (arith, length-append (remove k l) ((k, v) ∷ []), length-remove k l, remove_absent k l)

  pub use_entry-IsDistinct :
      (k : ℕ) (v : V) (l : List (ℕ × V)) → IsDistinct (keys l) → IsDistinct (keys (use_entry k v l))
  use_entry-IsDistinct k v l d = subst IsDistinct (sym (keys-use_entry k v l)) (
      append-IsDistinct (remove_first k (keys l)) k (remove_first-IsDistinct k (keys l) d)
        (mem-remove_first_self k (keys l) d))
