-- ===== src/Flash/Examples.antt =====
-- Runs of the dispatch, request and layout models on small inputs.
use atomr_accel.Common.{List, ℕ, ◌≡◌, ◌↔◌, true, false, some, arith}
use atomr_accel.Flash.Key.{
  sm80, sm89, sm90a, sm100, f16, DispatchKey, supports_fa3, seqlen_overflow, err, ok, ◌>>◌,
  validate_fwd, kernel_name,
}
use atomr_accel.Flash.Naming.{kernel_name_iff}
use atomr_accel.Flash.Table.{lookup}
use atomr_accel.Flash.Table.Faithful.{lookup_lem}
use atomr_accel.Flash.Request.{Common, alibi, causal}
use atomr_accel.Flash.Layout.{new_seqlens}
use atomr_accel.Flash.Layout.Accepted.{IsBatch, sum, new_seqlens_refuses}

abbrev key : DispatchKey
key = record {
  arch = sm80;
  dtype = f16;
  head_dim = 128;
  causal = true;
  varlen = false;
  sliding_window = some 256;
  alibi = false;
  sink = 4;
  gqa_ratio = 8;
  paged = false;
}

abbrev ada : DispatchKey
ada = record key { arch = sm89 }

kernel_name_iff_example :
    (kernel_name key ≡ kernel_name ada)
    ↔ ((key ≡ record ada { arch = sm80 }) × (supports_fa3 sm80 ≡ supports_fa3 sm89))
kernel_name_iff_example = kernel_name_iff key ada (omega arith) (omega arith)

lookup_lem_example : lookup true ada ≡ (validate_fwd ada >> ok (kernel_name ada))
lookup_lem_example = lookup_lem true ada

-- Scalars are numbers here, and 0 is their zero.
abbrev common : Common ℕ
common = record {
  arch = sm90a;
  dtype = f16;
  head_dim = 64;
  gqa_ratio = 1;
  mask = causal;
  bias = alibi;
  sink_tokens = 0;
  softmax_scale = 1;
  reply = 9;
}

-- The same request for another device of the generation.
abbrev other : Common ℕ
other = record common { arch = sm100; reply = 10 }

-- Two sequences of up to 2^31 + 1 tokens: the product wraps to 2, and 3 tokens are too many.
new_seqlens_refuses_example :
    (qs : List ℕ) × ((kvs : List ℕ) × (IsBatch 2 2147483649 qs
        × (IsBatch 2 1 kvs
            × (new_seqlens 2 2147483649 1 (sum qs) (sum kvs) ≡ err seqlen_overflow))))
new_seqlens_refuses_example =
    new_seqlens_refuses 2 2147483649 1 (omega arith) (omega arith) (omega arith)
