-- ===== src/Cutlass/Lanes/Conv.antt =====
-- crates/atomr-accel-cutlass/src/plan_cache.rs: what `PlanKey::conv` writes.
use atomr_accel.Common.{ℕ, ◌≡◌, refl, sym, ◌∙◌, List, [], ◌∷◌, ◌++◌, append_assoc, Text}
use atomr_accel.Cutlass.Dtype.{dtype_name, arch_name}
use atomr_accel.Cutlass.Gemm.{ConvShape, ConvKind, kind_name, conv_layout_name}
use atomr_accel.Cutlass.Cancel.{
  Fit, words, types_text, words-same, types-same, dtype-same, last_arch-same, conv_layout-same,
  kind-same, nth,
}
use atomr_accel.Cutlass.Key.{new_hasher, add_u32, add_str, add_conv_shape, conv_hasher}
use atomr_accel.Cutlass.Lanes.{seed, seed-same}
use atomr_accel.Cutlass.Requests.{ConvRequest, conv, hasher}

abbrev pub numbers : ConvShape → List ℕ
numbers s =
    s.n ∷ s.h ∷ s.w ∷ s.c ∷ s.k ∷ s.r ∷ s.s ∷ s.pad_h ∷ s.pad_w ∷ s.stride_h ∷ s.stride_w ∷ s.dil_h
    ∷ s.dil_w ∷ []

abbrev pub types : ConvRequest → Text
types r = types_text r.accum_dtype r.output_dtype (arch_name r.arch)

abbrev pub element : ConvRequest → Text
element r = dtype_name r.dtype ++ types r

abbrev pub layout : ConvRequest → Text
layout r = conv_layout_name r.layout ++ element r

pub lane :
    (k : ConvKind) (r : ConvRequest)
    → (hasher (conv k r)).a ≡ seed ++ (kind_name k ++ words (numbers r.shape) (layout r))
unfolding hasher conv_hasher new_hasher add_u32 add_str add_conv_shape
lane k r = simp (append_assoc)

pub conv_hasher-injective :
    (k l : ConvKind) (r q : ConvRequest)
    → Fit (numbers r.shape)
    → Fit (numbers q.shape)
    → (hasher (conv k r)).a ≡ (hasher (conv l q)).a
    → (k ≡ l) × (r ≡ q)
conv_hasher-injective k l r q hr hq e =
    let c =
      kind-same k l (words (numbers r.shape) (layout r)) (words (numbers q.shape) (layout q)) (
        seed-same (kind_name k ++ words (numbers r.shape) (layout r))
          (kind_name l ++ words (numbers q.shape) (layout q)) (sym (lane k r) ∙ e ∙ lane l q)) in
    let w = words-same (numbers r.shape) (numbers q.shape) (layout r) (layout q) refl hr hq (c.1) in
    let l = conv_layout-same r.layout q.layout (element r) (element q) (w.1) in
    let d = dtype-same r.dtype q.dtype (types r) (types q) (l.1) in
    let t =
      types-same r.accum_dtype r.output_dtype q.accum_dtype q.output_dtype (arch_name r.arch)
        (arch_name q.arch) (d.1) in
    (
      c.0,
      λ i. record {
        dtype = (d.0) i;
        shape = record {
          n = nth ((w.0) i) 0;
          h = nth ((w.0) i) 1;
          w = nth ((w.0) i) 2;
          c = nth ((w.0) i) 3;
          k = nth ((w.0) i) 4;
          r = nth ((w.0) i) 5;
          s = nth ((w.0) i) 6;
          pad_h = nth ((w.0) i) 7;
          pad_w = nth ((w.0) i) 8;
          stride_h = nth ((w.0) i) 9;
          stride_w = nth ((w.0) i) 10;
          dil_h = nth ((w.0) i) 11;
          dil_w = nth ((w.0) i) 12;
        };
        layout = (l.0) i;
        accum_dtype = (t.0) i;
        output_dtype = (t.1) i;
        arch = last_arch-same r.arch q.arch (t.2) i;
      },
    )
