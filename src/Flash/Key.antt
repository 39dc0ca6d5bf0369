-- ===== src/Flash/Key.antt =====
-- crates/atomr-accel-flashattn/src/dispatch.rs: dispatch keys, their validation and their names; and
-- the error type of lib.rs. `u32` values are numbers, which the code only compares and prints.
use atomr_accel.Common.{
  ℕ, ◌≤◌, ◌≡◌, Bool, true, false, not, ◌&&◌, Option, none, some, List, [], ◌∷◌, ◌++◌, Text, text,
  decimal, mem, ltb, ◌==◌, if◌then◌else◌, is_some,
}

pub data SmArch : Type 0 where
  sm80 sm89 sm90a sm100 : SmArch

unfoldable pub nvrtc_flag : SmArch → Text
unfolding text
nvrtc_flag sm80 = text "--gpu-architecture=sm_80"
nvrtc_flag sm89 = text "--gpu-architecture=sm_89"
nvrtc_flag sm90a = text "--gpu-architecture=sm_90a"
nvrtc_flag sm100 = text "--gpu-architecture=sm_100a"

abbrev pub supports_fa3 : SmArch → Bool
supports_fa3 sm90a = true
supports_fa3 sm100 = true
supports_fa3 _ = false

abbrev pub supports_fp8 : SmArch → Bool
supports_fp8 sm90a = true
supports_fp8 sm100 = true
supports_fp8 _ = false

pub data DType : Type 0 where
  f16 bf16 f8_e4m3 f8_e5m2 : DType

unfoldable pub size_in_bytes : DType → ℕ
size_in_bytes f16 = 2
size_in_bytes bf16 = 2
size_in_bytes f8_e4m3 = 1
size_in_bytes f8_e5m2 = 1

abbrev pub is_fp8 : DType → Bool
is_fp8 f8_e4m3 = true
is_fp8 f8_e5m2 = true
is_fp8 _ = false

unfoldable pub tag : DType → Text
unfolding text
tag f16 = text "f16"
tag bf16 = text "bf16"
tag f8_e4m3 = text "e4m3"
tag f8_e5m2 = text "e5m2"

pub record DispatchKey : Type 0 where
  pub arch : SmArch
  pub dtype : DType
  pub head_dim : ℕ
  pub causal : Bool
  pub varlen : Bool
  pub sliding_window : Option ℕ
  pub alibi : Bool
  pub sink : ℕ
  pub paged : Bool
  pub gqa_ratio : ℕ

pub data DispatchError : Type 0 where
  unsupported_head_dim : ℕ → DispatchError
  fp8_requires_hopper : SmArch → DispatchError
  fp8_backward_unsupported : DispatchError
  sink_without_mask : DispatchError
  invalid_gqa_ratio : ℕ → DispatchError
  zero_window : DispatchError
  paged_flag_not_set : DispatchError
  unknown_key : DispatchKey → DispatchError

pub data FlashAttnError : Type 0 where
  dispatch : DispatchError → FlashAttnError
  fa3_requires_hopper : SmArch → FlashAttnError
  fp8_must_use_fp8_request : FlashAttnError
  empty_batch : FlashAttnError
  zero_seqlen : FlashAttnError
  seqlen_overflow : FlashAttnError
  empty_paged_cache : FlashAttnError
  invalid_paged_block_size : ℕ → FlashAttnError
  paged_head_dim_mismatch : ℕ → ℕ → FlashAttnError
  chunk_index_out_of_range : ℕ → ℕ → FlashAttnError
  mock_mode : FlashAttnError

pub data Result {ℓ} (E A : Type ℓ) : Type ℓ where
  ok : A → Result E A
  err : E → Result E A

infixl 5 ◌>>=◌ ◌>>◌
abbrev pub ◌>>=◌ {ℓ} : {E A B : Type ℓ} → Result E A → (A → Result E B) → Result E B
ok a >>= f = f a
err e >>= f = err e

abbrev pub ◌>>◌ : {E B : Type 0} → Result E (Unit {0}) → Result E B → Result E B
m >> k = m >>= λ _. k

abbrev pub map_err : {E F A : Type 0} → (E → F) → Result E A → Result F A
map_err f (ok a) = ok a
map_err f (err e) = err (f e)

-- `if test { return Err(e) }`.
abbrev pub refuse_if : {E : Type 0} → Bool → E → Result E (Unit {0})
refuse_if true e = err e
refuse_if false e = ok tt

abbrev pub allowed : List ℕ
allowed = 64 ∷ 80 ∷ 96 ∷ 128 ∷ 192 ∷ 256 ∷ []

abbrev pub is_zero_window : Option ℕ → Bool
is_zero_window none = false
is_zero_window (some n) = n == 0

unfoldable pub validate_fwd : DispatchKey → Result DispatchError (Unit {0})
validate_fwd k = do
  refuse_if (not (mem k.head_dim allowed)) (unsupported_head_dim k.head_dim)
  refuse_if (is_fp8 k.dtype && not (supports_fp8 k.arch)) (fp8_requires_hopper k.arch)
  refuse_if (ltb 0 k.sink && not (is_some k.sliding_window) && not k.causal) sink_without_mask
  refuse_if (k.gqa_ratio == 0) (invalid_gqa_ratio k.gqa_ratio)
  refuse_if (is_zero_window k.sliding_window) zero_window

unfoldable pub validate_bwd : DispatchKey → Result DispatchError (Unit {0})
validate_bwd k = do validate_fwd k; refuse_if (is_fp8 k.dtype) fp8_backward_unsupported

unfoldable pub validate_paged : DispatchKey → Result DispatchError (Unit {0})
validate_paged k = do validate_fwd k; refuse_if (not k.paged) paged_flag_not_set

unfoldable pub causal_tag : Bool → Text
unfolding text
causal_tag true = text "causal"
causal_tag false = text "full"

unfoldable pub kind : SmArch → Text
unfolding text
kind arch = if supports_fa3 arch then text "fa3" else text "fa2"

unfoldable pub window_part : Option ℕ → Text
unfolding text
window_part none = []
window_part (some n) = text "_sw" ++ decimal n

-- The pieces pushed onto the string, in order.
unfoldable pub kernel_name : DispatchKey → Text
unfolding text tag kind causal_tag window_part
kernel_name k =
    (text "atomr_flashattn::"
      ++ (kind k.arch
          ++ (text "::fwd<"
              ++ (tag k.dtype
                  ++ (text ", "
                      ++ (decimal k.head_dim
                          ++ (text ", "
                              ++ (causal_tag k.causal
                                  ++ (text ">"
                                      ++ ((if k.varlen then text "_varlen" else [])
                                          ++ (window_part k.sliding_window
                                              ++ ((if k.alibi then text "_alibi" else [])
                                                  ++ ((if ltb 0 k.sink
                                                        then text "_sink" ++ decimal k.sink
                                                        else [])
                                                      ++ ((if k.paged then text "_paged" else [])
                                                          ++ (if ltb 1 k.gqa_ratio
                                                            then text "_gqa" ++ decimal k.gqa_ratio
                                                            else [])))))))))))))))

-- A key is served by the forward kernels: exactly what `validate_fwd` lets through.
pub record IsServed (k : DispatchKey) : Type 0 where
  pub head : mem k.head_dim allowed ≡ true
  pub precision : (is_fp8 k.dtype && not (supports_fp8 k.arch)) ≡ false
  pub masked : (ltb 0 k.sink && not (is_some k.sliding_window) && not k.causal) ≡ false
  pub grouped : 1 ≤ k.gqa_ratio
  pub windowed : is_zero_window k.sliding_window ≡ false
