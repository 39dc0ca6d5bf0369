-- ===== src/Cutlass/Requests.antt =====
-- crates/atomr-accel-cutlass/src/gemm.rs, grouped_gemm.rs and conv.rs: the requests with their
-- builders, and their plan keys.
use atomr_accel.Common.{ℕ, Bool, List, Text}
use atomr_accel.Cutlass.Dtype.{CutlassDtype, f32, SmArch, sm80, supports_persistent_kernels}
use atomr_accel.Cutlass.Gemm.{
  GemmLayout, row_major, GemmShape, GemmEpilogue, linear, default_epilogue, GroupedLayout, uniform,
  summary, ConvLayout, nhwc, ConvShape, ConvKind,
}
use atomr_accel.Cutlass.Key.{Hasher, PlanKey, gemm_hasher, grouped_hasher, conv_hasher, finish}

pub record GemmRequest : Type 0 where
  pub dtype : CutlassDtype
  pub shape : GemmShape
  pub layout_a : GemmLayout
  pub layout_b : GemmLayout
  pub layout_c : GemmLayout
  pub epilogue : GemmEpilogue
  pub accum_dtype : CutlassDtype
  pub output_dtype : CutlassDtype
  pub arch : SmArch
  pub persistent : Bool

unfoldable pub new_gemm : CutlassDtype → GemmShape → SmArch → GemmRequest
unfolding supports_persistent_kernels
new_gemm dtype shape arch = record {
  dtype = dtype;
  shape = shape;
  layout_a = row_major;
  layout_b = row_major;
  layout_c = row_major;
  epilogue = default_epilogue;
  accum_dtype = f32;
  output_dtype = dtype;
  arch = arch;
  persistent = supports_persistent_kernels arch;
}

unfoldable pub legacy : CutlassDtype → ℕ → ℕ → ℕ → GemmLayout → ℕ → GemmRequest
unfolding new_gemm
legacy dtype m n k layout alpha = record (new_gemm dtype (record { m = m; n = n; k = k }) sm80) {
  layout_a = layout;
  layout_b = layout;
  layout_c = layout;
  epilogue = linear alpha 0;
}

unfoldable pub with_layouts : GemmRequest → GemmLayout → GemmLayout → GemmLayout → GemmRequest
with_layouts r a b c = record r { layout_a = a; layout_b = b; layout_c = c }

unfoldable pub with_epilogue : GemmRequest → GemmEpilogue → GemmRequest
with_epilogue r ep = record r { epilogue = ep }

unfoldable pub with_accum_dtype : GemmRequest → CutlassDtype → GemmRequest
with_accum_dtype r dt = record r { accum_dtype = dt }

unfoldable pub with_output_dtype : GemmRequest → CutlassDtype → GemmRequest
with_output_dtype r dt = record r { output_dtype = dt }

unfoldable pub with_persistent : GemmRequest → Bool → GemmRequest
with_persistent r persistent = record r { persistent = persistent }

pub record GroupedGemmRequest : Type 0 where
  pub dtype : CutlassDtype
  pub shape : List GemmShape
  pub layout_a : GemmLayout
  pub layout_b : GemmLayout
  pub layout_c : GemmLayout
  pub grouped_layout : GroupedLayout
  pub epilogue : GemmEpilogue
  pub accum_dtype : CutlassDtype
  pub output_dtype : CutlassDtype
  pub arch : SmArch
  pub persistent : Bool

unfoldable pub new_grouped : CutlassDtype → List GemmShape → SmArch → GroupedGemmRequest
unfolding supports_persistent_kernels
new_grouped dtype shape arch = record {
  dtype = dtype;
  shape = shape;
  layout_a = row_major;
  layout_b = row_major;
  layout_c = row_major;
  grouped_layout = uniform;
  epilogue = default_epilogue;
  accum_dtype = f32;
  output_dtype = dtype;
  arch = arch;
  persistent = supports_persistent_kernels arch;
}

-- The three types that the macro makes, apart from their kind.
pub record ConvRequest : Type 0 where
  pub dtype : CutlassDtype
  pub shape : ConvShape
  pub layout : ConvLayout
  pub accum_dtype : CutlassDtype
  pub output_dtype : CutlassDtype
  pub arch : SmArch

unfoldable pub new_conv : CutlassDtype → ConvShape → SmArch → ConvRequest
new_conv dtype shape arch = record {
  dtype = dtype;
  shape = shape;
  layout = nhwc;
  accum_dtype = f32;
  output_dtype = dtype;
  arch = arch;
}

-- What the boxed traits stand for.
pub data Dispatch : Type 0 where
  gemm : GemmRequest → Dispatch
  grouped_gemm : GroupedGemmRequest → Dispatch
  conv : ConvKind → ConvRequest → Dispatch

unfoldable pub hasher : Dispatch → Hasher
unfolding gemm_hasher grouped_hasher conv_hasher summary
hasher (gemm r) =
    gemm_hasher r.dtype r.shape r.layout_a r.layout_b r.layout_c r.epilogue r.accum_dtype
      r.output_dtype r.arch r.persistent
hasher (grouped_gemm r) =
    grouped_hasher r.dtype (summary r.shape) r.layout_a r.layout_b r.layout_c r.grouped_layout
      r.epilogue r.accum_dtype r.output_dtype r.arch r.persistent
hasher (conv kind r) = conv_hasher r.dtype kind r.shape r.layout r.accum_dtype r.output_dtype r.arch

abbrev pub template : Dispatch → ℕ
template (gemm r) = 1
template (grouped_gemm r) = 2
template (conv kind r) = 3

unfoldable pub plan_key : (Text → ℕ) → Dispatch → PlanKey
unfolding hasher finish
plan_key sip d = finish sip (template d) (hasher d)
