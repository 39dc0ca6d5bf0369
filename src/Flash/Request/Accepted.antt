-- ===== src/Flash/Request/Accepted.antt =====
-- fa2.rs and fa3.rs: which requests are accepted.
use atomr_accel.Common.{◌≡◌, ◌↔◌, Bool, true, false, arith}
use atomr_accel.Flash.Key.{
  DType, DispatchKey, dispatch, ok, ◌>>◌, map_err, supports_fa3, supports_fp8, is_fp8, validate_fwd,
  validate_bwd, validate_paged, IsServed,
}
use atomr_accel.Flash.Request.{
  no_bias, Common, compute_key, Fa3FwdRequest, Fa3FwdFp8Request, PersistentMode, new_fa2_bwd,
  new_fa3_fwd, new_fa3_fwd_fp8,
}

-- `validate_fwd` lets through exactly the keys that the forward kernels serve.
pub validate_fwd_iff : (k : DispatchKey) → (validate_fwd k ≡ ok tt) ↔ IsServed k
unfolding validate_fwd
validate_fwd_iff k = ground arith

-- `validate_bwd` lets through the served keys that are not fp8, and `validate_paged` the served keys
-- that are paged.
pub validate_iff :
    (k : DispatchKey)
    → ((validate_bwd k ≡ ok tt) ↔ (IsServed k × (is_fp8 k.dtype ≡ false)))
      × ((validate_paged k ≡ ok tt) ↔ (IsServed k × (k.paged ≡ true)))
unfolding validate_bwd validate_paged validate_fwd
validate_iff k = ground arith

module _ (F : Type 0) (zero_f32 : F) where
  -- The fp8 test that `Fa2BwdRequest::new` makes after the validation never decides: a backward
  -- request is built exactly for a served key of another element type, and a refusal is always the
  -- validation's.
  pub new_fa2_bwd_lem :
      (c : Common F) (recompute : Bool)
      → new_fa2_bwd F zero_f32 c recompute ≡ (
          map_err dispatch (validate_bwd (compute_key false false c))
          >> ok (record { common = c; recompute = recompute }))
  unfolding new_fa2_bwd validate_bwd compute_key
  new_fa2_bwd_lem c recompute = ground arith

  -- The two FlashAttention 3 constructors divide the element types: one accepts what is served on an
  -- architecture with those kernels and is not fp8, the other what is served without a bias on an
  -- architecture with fp8 kernels, Q and KV both fp8.
  pub new_fa3_iff :
      (c : Common F) (kv : DType) (q k v : F) (mode : PersistentMode)
      → (((r : Fa3FwdRequest F zero_f32) × (new_fa3_fwd F zero_f32 c mode ≡ ok r)) ↔ (
          IsServed (compute_key false false c)
          × (supports_fa3 c.arch ≡ true)
          × (is_fp8 c.dtype ≡ false)))
        × (((r : Fa3FwdFp8Request F zero_f32) × (new_fa3_fwd_fp8 F zero_f32 c kv q k v mode ≡ ok r))
            ↔ (IsServed (compute_key false false (record c { bias = no_bias }))
                × (supports_fp8 c.arch ≡ true)
                × (is_fp8 c.dtype ≡ true)
                × (is_fp8 kv ≡ true)))
  unfolding new_fa3_fwd new_fa3_fwd_fp8
  new_fa3_iff c kv q k v mode =
      let key = compute_key false false c in
      let bare = compute_key false false (record c { bias = no_bias }) in
      (
        (
          λ h.
              let passed : validate_fwd key ≡ ok tt = ground arith in
              ((validate_fwd_iff key).0 passed, ground arith, ground arith),
          λ h.
              let passed = (validate_fwd_iff key).1 h.0 in
              (record { common = c; persistent_mode = mode }, rw (h.1, h.2, passed)),
        ),
        (
          λ h.
              let passed : validate_fwd bare ≡ ok tt = ground arith in
              ((validate_fwd_iff bare).0 passed, ground arith, ground arith, ground arith),
          λ h.
              let passed = (validate_fwd_iff bare).1 h.0 in
              (
                record {
                  common = record c { bias = no_bias };
                  kv_dtype = kv;
                  q_scale = q;
                  k_scale = k;
                  v_scale = v;
                  persistent_mode = mode;
                },
                rw (h.1, h.2, h.3, passed),
              ),
        ),
      )
