-- ===== src/Flash/Request/Kernels.antt =====
-- fa2.rs: which two FlashAttention 2 forward requests are built and resolve to one kernel.
use atomr_accel.Common.{
  ℕ, ◌≤◌, ◌≡◌, Bool, true, false, ◌⊎◌, [], ◌∷◌, mem, ltb, not, is_some, ◌&&◌, Text,
}
use atomr_accel.Flash.Key.{ok, is_fp8, supports_fp8, supports_fa3, is_zero_window}
use atomr_accel.Flash.Request.{
  MaskKind, full, causal, sliding_causal, sliding_full, is_causal, sliding_window, Common,
  Fa2FwdRequest, new_fa2_fwd, resolve_kernel,
}

-- The sinks that a mask allows, and its window: without a window, tokens can be sinks under a causal mask
-- only, and a window is not empty.
abbrev pub MaskServed : MaskKind → ℕ → Type 0
MaskServed full sinks = sinks ≡ 0
MaskServed causal sinks = Unit
MaskServed (sliding_causal window) sinks = 1 ≤ window
MaskServed (sliding_full window) sinks = 1 ≤ window

-- The same in the flags of a key.
abbrev MaskFlags : MaskKind → ℕ → Type 0
MaskFlags mask sinks =
    ((ltb 0 sinks && not (is_some (sliding_window mask)) && not (is_causal mask)) ≡ false)
    × (is_zero_window (sliding_window mask) ≡ false)

module _ {F : Type 0} where
  -- What a request is to ask for.
  pub record Serves (c : Common F) : Type 0 where
    pub head : mem c.head_dim (64 ∷ 80 ∷ 96 ∷ 128 ∷ 192 ∷ 256 ∷ []) ≡ true
    pub precision : (is_fp8 c.dtype ≡ false) ⊎ (supports_fp8 c.arch ≡ true)
    pub masked : MaskServed c.mask c.sink_tokens
    pub grouped : 1 ≤ c.gqa_ratio

  -- The fields that two requests are to agree in, and of the architecture the generation.
  pub record SameKernel (c d : Common F) : Type 0 where
    pub dtype : c.dtype ≡ d.dtype
    pub head : c.head_dim ≡ d.head_dim
    pub mask : c.mask ≡ d.mask
    pub bias : c.bias ≡ d.bias
    pub sinks : c.sink_tokens ≡ d.sink_tokens
    pub ratio : c.gqa_ratio ≡ d.gqa_ratio
    pub generation : supports_fa3 c.arch ≡ supports_fa3 d.arch

module _ (F : Type 0) (zero_f32 : F) where
  -- The request is built, and resolves to the kernel of the name.
  pub record Runs (feature_fp8 : Bool) (c : Common F) (name : Text) : Type 0 where
    pub request : Fa2FwdRequest F zero_f32
    pub built : new_fa2_fwd F zero_f32 c ≡ ok request
    pub resolved : resolve_kernel F zero_f32 feature_fp8 request ≡ ok name
