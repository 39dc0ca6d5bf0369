-- ===== src/Flash/Layout/Accepted.antt =====
-- varlen.rs, prefill.rs and paged.rs: which layouts and requests are accepted.
use atomr_accel.Common.{
  ℕ, zero, suc, ◌+◌, ◌-◌, ◌%◌, min, ap, ◌*◌, ◌≤◌, ◌<◌, ◌≡◌, refl, ◌≢◌, ◌↔◌, true, false, arith, mem,
  List, [], ◌∷◌, length, All,
}
use atomr_accel.Flash.Key.{
  DispatchKey, dispatch, seqlen_overflow, paged_flag_not_set, ok, err, IsServed, validate_fwd,
  validate_paged,
}
use atomr_accel.Flash.Request.{Common, compute_key}
use atomr_accel.Flash.Request.Accepted.{validate_iff}
use atomr_accel.Flash.Layout.{
  u32_mod, new_seqlens, ChunkLayout, new_chunk, is_final, PagedKvCache, block_sizes, new_cache,
  PagedAttentionRequest, new_paged,
}

-- The tokens of a batch of sequences.
unfoldable pub sum : List ℕ → ℕ
sum [] = 0
sum (x ∷ xs) = x + sum xs

abbrev pub Below : ℕ → List ℕ → Type 0
Below most = All (λ n. n ≤ most)

sum-le : (most : ℕ) (xs : List ℕ) → Below most xs → sum xs ≤ length xs * most
unfolding sum
sum-le most [] h = omega arith
sum-le most (x ∷ xs) h = omega (arith, sum-le most xs h.1)

-- A batch that is described as it is gets its layout: the sequences are at least one, their lengths lie
-- under positive maxima, and the batch size times either maximum fits 32 bits.
pub new_seqlens-Below :
    (qs kvs : List ℕ) (max_q max_kv : ℕ)
    → length kvs ≡ length qs
    → 0 < length qs
    → 0 < max_q
    → 0 < max_kv
    → Below max_q qs
    → Below max_kv kvs
    → length qs * max_q < u32_mod
    → length qs * max_kv < u32_mod
    → new_seqlens (length qs) max_q max_kv (sum qs) (sum kvs)
      ≡ ok (record {
        batch_size = length qs;
        max_seqlen_q = max_q;
        max_seqlen_kv = max_kv;
        total_q_tokens = sum qs;
        total_kv_tokens = sum kvs;
      })
unfolding new_seqlens
new_seqlens-Below qs kvs max_q max_kv same some_seq pq pkv bq bkv fq fkv =
    ground (arith, sum-le max_q qs bq, sum-le max_kv kvs bkv)

-- A batch of sequences with these many tokens, the first of them as long as they may be.
spread : ℕ → ℕ → ℕ → List ℕ
spread zero most tokens = []
spread (suc n) most tokens = min tokens most ∷ spread n most (tokens - most)

length-spread : (n most tokens : ℕ) → length (spread n most tokens) ≡ n
unfolding spread
length-spread zero most tokens = refl
length-spread (suc n) most tokens = ap suc (length-spread n most (tokens - most))

spread-Below : (n most tokens : ℕ) → Below most (spread n most tokens)
unfolding spread
spread-Below zero most tokens = tt
spread-Below (suc n) most tokens = (omega arith, spread-Below n most (tokens - most))

sum-spread : (n most tokens : ℕ) → tokens ≤ n * most → sum (spread n most tokens) ≡ tokens
unfolding sum spread
sum-spread zero most tokens h = omega (arith, h)
sum-spread (suc n) most tokens h =
    omega (arith, sum-spread n most (tokens - most) (grind (arith, h)))

positive : (a b : ℕ) → 1 ≤ a * b → (1 ≤ a) × (1 ≤ b)
positive zero b h = let no : ⊥ = omega (arith, h) in elim no [ ]
positive (suc a) zero h = let no : ⊥ = omega (arith, h) in elim no [ ]
positive (suc a) (suc b) h = (omega arith, omega arith)

-- The lengths of the sequences of a batch, within a maximum, and all tokens within 32 bits.
pub record IsBatch (batch most : ℕ) (xs : List ℕ) : Type 0 where
  pub size : length xs ≡ batch
  pub short : Below most xs
  pub total : sum xs < u32_mod

-- For every batch size and maxima for which the batch size times the maximum of the query lengths does not fit
-- 32 bits, unless it leaves the remainder 2^32 - 1, there is a batch of this size that lies under the maxima, and whose tokens fit
-- 32 bits, and that is refused as an overflow.
pub new_seqlens_refuses :
    (batch max_q max_kv : ℕ)
    → 0 < max_kv
    → u32_mod ≤ batch * max_q
    → batch * max_q % u32_mod + 1 < u32_mod
    → (qs : List ℕ) × ((kvs : List ℕ) × (IsBatch batch max_q qs
          × (IsBatch batch max_kv kvs
              × (new_seqlens batch max_q max_kv (sum qs) (sum kvs) ≡ err seqlen_overflow))))
unfolding new_seqlens
new_seqlens_refuses batch max_q max_kv kv big rest =
    let tokens = batch * max_q % u32_mod + 1 in
    let all_q = sum-spread batch max_q tokens (omega (arith, big, rest)) in
    let (some_seq, pq) = positive batch max_q (omega (arith, big)) in
    let all_kv = sum-spread batch max_kv 0 (omega arith) in
    (
      spread batch max_q tokens,
      (
        spread batch max_kv 0,
        (
          record {
            size = length-spread batch max_q tokens;
            short = spread-Below batch max_q tokens;
            total = omega (arith, all_q, rest);
          },
          (
            record {
              size = length-spread batch max_kv 0;
              short = spread-Below batch max_kv 0;
              total = omega (arith, all_kv);
            },
            ground (arith, all_q, all_kv, some_seq, pq, kv),
          ),
        ),
      ),
    )

-- Chunks are accepted exactly with tokens in them and an index below their number; and an accepted
-- chunk of a number that fits 32 bits is final exactly if it is the last.
pub new_chunk_iff :
    (tokens before total index : ℕ)
    → total < u32_mod
    → ((c : ChunkLayout) × (new_chunk tokens before total index ≡ ok c)
        × ((is_final c ≡ true) ↔ (index + 1 ≡ total)))
      ↔ ((0 < tokens) × (index < total))
unfolding new_chunk is_final
new_chunk_iff tokens before total index fits = (
  λ h. ground arith,
  λ h. (
    record {
      chunk_q_tokens = tokens;
      prefix_kv_tokens = before;
      total_chunks = total;
      chunk_index = index;
    },
    ground arith,
    ground arith,
  ),
)

-- A paged cache is accepted exactly if nothing in it is empty and its block size is one of the five.
pub new_cache_iff :
    (blocks size heads dim most : ℕ)
    → ((c : PagedKvCache) × (new_cache blocks size heads dim most ≡ ok c))
      ↔ ((0 < blocks) × (0 < heads) × (0 < most) × (mem size block_sizes ≡ true))
unfolding new_cache
new_cache_iff blocks size heads dim most = (
  λ h. ground arith,
  λ h. (
    record {
      num_blocks = blocks;
      block_size = size;
      num_kv_heads = heads;
      head_dim = dim;
      max_blocks_per_seq = most;
    },
    ground arith,
  ),
)

flag_set : (F : Type 0) (c : Common F) → (compute_key false true c).paged ≡ true
unfolding compute_key
flag_set F c = refl

-- The forward validation has no complaint about the flag.
fwd_flag : (k : DispatchKey) → validate_fwd k ≢ err paged_flag_not_set
unfolding validate_fwd
fwd_flag k h = ground arith

never_unset :
    (F : Type 0) (c : Common F) (cache : PagedKvCache) (seqs tokens : ℕ)
    → new_paged F c cache seqs tokens ≢ err (dispatch paged_flag_not_set)
unfolding new_paged validate_paged
never_unset F c cache seqs tokens h =
    ground (arith, fwd_flag (compute_key false true c), flag_set F c)

-- A paged request is accepted exactly if its batch is not empty, the cache has its head dimension and
-- its key is served; the validation's complaint about a missing paged flag never occurs.
pub new_paged_iff :
    (F : Type 0) (c : Common F) (cache : PagedKvCache) (seqs tokens : ℕ)
    → (((r : PagedAttentionRequest F) × (new_paged F c cache seqs tokens ≡ ok r)) ↔ (
        (0 < seqs)
        × (0 < tokens)
        × (cache.head_dim ≡ c.head_dim)
        × IsServed (compute_key false true c)))
      × (new_paged F c cache seqs tokens ≢ err (dispatch paged_flag_not_set))
unfolding new_paged
new_paged_iff F c cache seqs tokens =
    let key = compute_key false true c in
    (
      (
        λ h.
            let passed : validate_paged key ≡ ok tt = ground arith in
            (ground arith, ground arith, ground arith, ((validate_iff key).1.0 passed).0),
        λ h.
            let passed = (validate_iff key).1.1 (h.3, flag_set F c) in
            (
              record { common = c; cache = cache; num_seqs = seqs; q_tokens_per_seq = tokens },
              ground arith,
            ),
      ),
      never_unset F c cache seqs tokens,
    )
