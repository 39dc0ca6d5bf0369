-- ===== src/Flash/Layout.antt =====
-- varlen.rs, prefill.rs and paged.rs: packed, chunked and paged batches. Products of `u32` values wrap
-- as in a release build.
pub mod Accepted
use atomr_accel.Common.{
  ℕ, ◌+◌, ◌*◌, ◌%◌, ◌^◌, Bool, true, false, not, ◌||◌, ltb, leb, ◌==◌, mem, List, [], ◌∷◌,
}
use atomr_accel.Flash.Key.{
  FlashAttnError, dispatch, empty_batch, zero_seqlen, seqlen_overflow, empty_paged_cache,
  invalid_paged_block_size, paged_head_dim_mismatch, chunk_index_out_of_range, Result, ok, err,
  ◌>>=◌, ◌>>◌, map_err, refuse_if, validate_fwd, validate_paged,
}
use atomr_accel.Flash.Request.{Common, compute_key}

abbrev pub u32_mod : ℕ
u32_mod = 2 ^ 32

pub record CumulativeSeqlens : Type 0 where
  pub batch_size : ℕ
  pub max_seqlen_q : ℕ
  pub max_seqlen_kv : ℕ
  pub total_q_tokens : ℕ
  pub total_kv_tokens : ℕ

unfoldable pub new_seqlens :
    (batch_size max_seqlen_q max_seqlen_kv total_q_tokens total_kv_tokens : ℕ)
    → Result FlashAttnError CumulativeSeqlens
new_seqlens batch max_q max_kv total_q total_kv = do
  refuse_if (batch == 0) empty_batch
  refuse_if (max_q == 0 || max_kv == 0) zero_seqlen
  refuse_if (ltb (batch * max_q % u32_mod) total_q) seqlen_overflow
  refuse_if (ltb (batch * max_kv % u32_mod) total_kv) seqlen_overflow
  ok (record {
    batch_size = batch;
    max_seqlen_q = max_q;
    max_seqlen_kv = max_kv;
    total_q_tokens = total_q;
    total_kv_tokens = total_kv;
  })

pub record ChunkLayout : Type 0 where
  pub chunk_q_tokens : ℕ
  pub prefix_kv_tokens : ℕ
  pub total_chunks : ℕ
  pub chunk_index : ℕ

unfoldable pub new_chunk :
    (chunk_q_tokens prefix_kv_tokens total_chunks chunk_index : ℕ)
    → Result FlashAttnError ChunkLayout
new_chunk tokens before total index = do
  refuse_if (tokens == 0) zero_seqlen
  refuse_if (total == 0) zero_seqlen
  refuse_if (leb total index) (chunk_index_out_of_range index total)
  ok (record {
    chunk_q_tokens = tokens;
    prefix_kv_tokens = before;
    total_chunks = total;
    chunk_index = index;
  })

unfoldable pub is_final : ChunkLayout → Bool
is_final c = (c.chunk_index + 1) % u32_mod == c.total_chunks

pub record PagedKvCache : Type 0 where
  pub num_blocks : ℕ
  pub block_size : ℕ
  pub num_kv_heads : ℕ
  pub head_dim : ℕ
  pub max_blocks_per_seq : ℕ

abbrev pub block_sizes : List ℕ
block_sizes = 8 ∷ 16 ∷ 32 ∷ 64 ∷ 128 ∷ []

unfoldable pub new_cache :
    (num_blocks block_size num_kv_heads head_dim max_blocks_per_seq : ℕ)
    → Result FlashAttnError PagedKvCache
new_cache blocks size heads dim most = do
  refuse_if (blocks == 0 || (size == 0 || heads == 0)) empty_paged_cache
  refuse_if (not (mem size block_sizes)) (invalid_paged_block_size size)
  refuse_if (most == 0) empty_paged_cache
  ok (record {
    num_blocks = blocks;
    block_size = size;
    num_kv_heads = heads;
    head_dim = dim;
    max_blocks_per_seq = most;
  })

module _ (F : Type 0) where
  pub record VarlenFwdRequest : Type 0 where
    pub common : Common F
    pub seqlens : CumulativeSeqlens

  unfoldable pub new_varlen : Common F → CumulativeSeqlens → Result FlashAttnError VarlenFwdRequest
  new_varlen c seqlens = do
    map_err dispatch (validate_fwd (compute_key true false c))
    ok (record { common = c; seqlens = seqlens })

  pub record ChunkedPrefillRequest : Type 0 where
    pub common : Common F
    pub seqlens : CumulativeSeqlens
    pub chunk : ChunkLayout

  unfoldable pub new_prefill :
      Common F → CumulativeSeqlens → ChunkLayout → Result FlashAttnError ChunkedPrefillRequest
  new_prefill c seqlens chunk = do
    map_err dispatch (validate_fwd (compute_key true false c))
    ok (record { common = c; seqlens = seqlens; chunk = chunk })

  pub record PagedAttentionRequest : Type 0 where
    pub common : Common F
    pub cache : PagedKvCache
    pub num_seqs : ℕ
    pub q_tokens_per_seq : ℕ

  unfoldable pub new_paged :
      Common F
      → PagedKvCache
      → (num_seqs q_tokens_per_seq : ℕ) → Result FlashAttnError PagedAttentionRequest
  new_paged c cache seqs tokens = do
    refuse_if (seqs == 0 || tokens == 0) empty_batch
    refuse_if (not (cache.head_dim == c.head_dim))
        (paged_head_dim_mismatch cache.head_dim c.head_dim)
    map_err dispatch (validate_paged (compute_key false true c))
    ok (record { common = c; cache = cache; num_seqs = seqs; q_tokens_per_seq = tokens })

  unfoldable pub is_pure_decode : PagedAttentionRequest → Bool
  is_pure_decode r = r.q_tokens_per_seq == 1
