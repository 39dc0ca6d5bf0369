-- ===== src/Flash/Request.antt =====
-- fa2.rs and fa3.rs: the request types, their constructors and their keys. The element type `T` of a
-- request is its field `dtype`; scalars of type `f32` are passed on unread, and the reply channel that
-- a constructor opens is numbered by its caller.
pub mod Accepted
pub mod Kernels
use atomr_accel.Common.{ℕ, Bool, true, false, not, ◌||◌, Option, none, some, Text}
use atomr_accel.Flash.Key.{
  SmArch, DType, f8_e4m3, f8_e5m2, DispatchKey, DispatchError, fp8_requires_hopper,
  fp8_backward_unsupported, FlashAttnError, dispatch, fa3_requires_hopper, fp8_must_use_fp8_request,
  Result, ok, err, ◌>>=◌, ◌>>◌, map_err, refuse_if, supports_fa3, supports_fp8, is_fp8,
  validate_fwd, validate_bwd,
}
use atomr_accel.Flash.Table.{lookup}

pub data PositionBias : Type 0 where
  no_bias alibi : PositionBias

unfoldable pub requires_alibi_flag : PositionBias → Bool
requires_alibi_flag no_bias = false
requires_alibi_flag alibi = true

pub data MaskKind : Type 0 where
  full causal : MaskKind
  sliding_causal : ℕ → MaskKind
  sliding_full : ℕ → MaskKind

unfoldable pub is_causal : MaskKind → Bool
is_causal causal = true
is_causal (sliding_causal window) = true
is_causal _ = false

unfoldable pub sliding_window : MaskKind → Option ℕ
sliding_window (sliding_causal window) = some window
sliding_window (sliding_full window) = some window
sliding_window _ = none

-- The fields that all requests share.
pub record Common (F : Type 0) : Type 0 where
  pub arch : SmArch
  pub dtype : DType
  pub head_dim : ℕ
  pub gqa_ratio : ℕ
  pub mask : MaskKind
  pub bias : PositionBias
  pub sink_tokens : ℕ
  pub softmax_scale : F
  pub reply : ℕ

-- `compute_key`, which the request types write out alike but for the two flags.
unfoldable pub compute_key : {F : Type 0} → (varlen paged : Bool) → Common F → DispatchKey
unfolding is_causal sliding_window requires_alibi_flag
compute_key varlen paged r = record {
  arch = r.arch;
  dtype = r.dtype;
  head_dim = r.head_dim;
  causal = is_causal r.mask;
  varlen = varlen;
  sliding_window = sliding_window r.mask;
  alibi = requires_alibi_flag r.bias;
  sink = r.sink_tokens;
  paged = paged;
  gqa_ratio = r.gqa_ratio;
}

pub data PersistentMode : Type 0 where
  grid : PersistentMode
  persistent : ℕ → PersistentMode

module _ (F : Type 0) (zero_f32 : F) where
  pub record Fa2FwdRequest : Type 0 where
    pub common : Common F
    pub dropout_p : F
    pub dropout_seed : ℕ

  unfoldable pub new_fa2_fwd : Common F → Result FlashAttnError Fa2FwdRequest
  new_fa2_fwd c = do
    map_err dispatch (validate_fwd (compute_key false false c))
    ok (record { common = c; dropout_p = zero_f32; dropout_seed = 0 })

  -- `feature_fp8` is the crate's feature, which the table depends on.
  unfoldable pub resolve_kernel : (feature_fp8 : Bool) → Fa2FwdRequest → Result DispatchError Text
  resolve_kernel feature_fp8 r = lookup feature_fp8 (compute_key false false r.common)

  pub record Fa2BwdRequest : Type 0 where
    pub common : Common F
    pub recompute : Bool

  abbrev is_dtype_fp8 : DType → Bool
  is_dtype_fp8 f8_e4m3 = true
  is_dtype_fp8 f8_e5m2 = true
  is_dtype_fp8 _ = false

  unfoldable pub new_fa2_bwd : Common F → Bool → Result FlashAttnError Fa2BwdRequest
  new_fa2_bwd c recompute = do
    map_err dispatch (validate_bwd (compute_key false false c))
    refuse_if (is_dtype_fp8 c.dtype) (dispatch fp8_backward_unsupported)
    ok (record { common = c; recompute = recompute })

  pub record Fa3FwdRequest : Type 0 where
    pub common : Common F
    pub persistent_mode : PersistentMode

  unfoldable pub new_fa3_fwd : Common F → PersistentMode → Result FlashAttnError Fa3FwdRequest
  new_fa3_fwd c mode = do
    refuse_if (not (supports_fa3 c.arch)) (fa3_requires_hopper c.arch)
    refuse_if (is_dtype_fp8 c.dtype) fp8_must_use_fp8_request
    map_err dispatch (validate_fwd (compute_key false false c))
    ok (record { common = c; persistent_mode = mode })

  unfoldable pub is_persistent : Fa3FwdRequest → Bool
  is_persistent r = elim r.persistent_mode [ grid ↦ false | persistent num_sms ↦ true ]

  -- The bias of such a request is none; the common part's element type is that of Q.
  pub record Fa3FwdFp8Request : Type 0 where
    pub common : Common F
    pub kv_dtype : DType
    pub q_scale : F
    pub k_scale : F
    pub v_scale : F
    pub persistent_mode : PersistentMode

  unfoldable pub new_fa3_fwd_fp8 :
      Common F → DType → F → F → F → PersistentMode → Result FlashAttnError Fa3FwdFp8Request
  new_fa3_fwd_fp8 c kv q_scale k_scale v_scale mode = do
    refuse_if (not (supports_fp8 c.arch)) (dispatch (fp8_requires_hopper c.arch))
    refuse_if (not (is_fp8 c.dtype) || not (is_fp8 kv)) fp8_must_use_fp8_request
    map_err dispatch (validate_fwd (compute_key false false (record c { bias = no_bias })))
    ok (record {
      common = record c { bias = no_bias };
      kv_dtype = kv;
      q_scale = q_scale;
      k_scale = k_scale;
      v_scale = v_scale;
      persistent_mode = mode;
    })

  unfoldable pub fp8_dtypes : Fa3FwdFp8Request → DType × DType
  fp8_dtypes r = (r.common.dtype, r.kv_dtype)
