-- ===== src/Cutlass/Gemm.antt =====
-- crates/atomr-accel-cutlass/src/gemm.rs, grouped_gemm.rs and conv.rs: what the requests are made
-- of. A `u32` is a number, an `f32` the number of its bits, and `T::DTYPE` a value.
use atomr_accel.Common.{ℕ, Text, text, List, [], ◌∷◌, length, max}

pub data GemmLayout : Type 0 where
  row_major col_major : GemmLayout

unfoldable pub cutlass_layout : GemmLayout → Text
unfolding text
cutlass_layout row_major = text "cutlass::layout::RowMajor"
cutlass_layout col_major = text "cutlass::layout::ColumnMajor"

unfoldable pub layout_name : GemmLayout → Text
unfolding text
layout_name row_major = text "rm"
layout_name col_major = text "cm"

pub record GemmShape : Type 0 where
  pub m : ℕ
  pub n : ℕ
  pub k : ℕ

-- Each with `alpha` and `beta`.
pub data GemmEpilogue : Type 0 where
  linear linear_relu linear_gelu : ℕ → ℕ → GemmEpilogue

unfoldable pub epilogue_name : GemmEpilogue → Text
unfolding text
epilogue_name (linear alpha beta) = text "linear"
epilogue_name (linear_relu alpha beta) = text "linear_relu"
epilogue_name (linear_gelu alpha beta) = text "linear_gelu"

-- `alpha` is 1.0 and `beta` is 0.0.
abbrev pub default_epilogue : GemmEpilogue
default_epilogue = linear 0x3F800000 0

pub data GroupedLayout : Type 0 where
  uniform variable_m variable : GroupedLayout

unfoldable pub grouped_name : GroupedLayout → Text
unfolding text
grouped_name uniform = text "uniform"
grouped_name variable_m = text "var_m"
grouped_name variable = text "var"

pub record Summary : Type 0 where
  pub max_m : ℕ
  pub max_n : ℕ
  pub max_k : ℕ
  pub group_count : ℕ

-- `iter().map(field).max().unwrap_or(0)`.
unfoldable pub max_of : (GemmShape → ℕ) → List GemmShape → ℕ
max_of field [] = 0
max_of field (s ∷ shapes) = max (field s) (max_of field shapes)

unfoldable pub summary : List GemmShape → Summary
unfolding max_of
summary shapes = record {
  max_m = max_of (λ s. s.m) shapes;
  max_n = max_of (λ s. s.n) shapes;
  max_k = max_of (λ s. s.k) shapes;
  group_count = length shapes;
}

pub data ConvLayout : Type 0 where
  nhwc nchw : ConvLayout

unfoldable pub conv_layout_name : ConvLayout → Text
unfolding text
conv_layout_name nhwc = text "nhwc"
conv_layout_name nchw = text "nchw"

pub record ConvShape : Type 0 where
  pub n : ℕ
  pub h : ℕ
  pub w : ℕ
  pub c : ℕ
  pub k : ℕ
  pub r : ℕ
  pub s : ℕ
  pub pad_h : ℕ
  pub pad_w : ℕ
  pub stride_h : ℕ
  pub stride_w : ℕ
  pub dil_h : ℕ
  pub dil_w : ℕ

pub data ConvKind : Type 0 where
  fprop dgrad wgrad : ConvKind

unfoldable pub kind_name : ConvKind → Text
unfolding text
kind_name fprop = text "fprop"
kind_name dgrad = text "dgrad"
kind_name wgrad = text "wgrad"

unfoldable pub cutlass_kernel : ConvKind → Text
unfolding text
cutlass_kernel fprop = text "cutlass::conv::device::ImplicitGemmConvolution"
cutlass_kernel dgrad = text "cutlass::conv::device::ImplicitGemmConvolutionDgrad"
cutlass_kernel wgrad = text "cutlass::conv::device::ImplicitGemmConvolutionWgrad"
