-- ===== src/Cutlass/Lanes.antt =====
-- crates/atomr-accel-cutlass/src/plan_cache.rs: the bytes of the first lane, in the order in which they
-- are written.
use atomr_accel.Common.{ap, ◌+◌, ◌≡◌, refl, ◌%◌, ◌^◌, ℕ, ◌∷◌, [], ◌++◌, append_assoc, Text, List}
use atomr_accel.Cutlass.Dtype.{dtype_name, arch_name}
use atomr_accel.Cutlass.Gemm.{
  GemmEpilogue, linear, linear_relu, linear_gelu, epilogue_name, grouped_name, conv_layout_name,
  kind_name, summary, ConvShape, ConvKind,
}
use atomr_accel.Cutlass.Cancel.{alpha, beta, words, layouts_text, arch_text, types_text}
use atomr_accel.Cutlass.Key.{
  Hasher, le_bytes, layout_byte, bool_byte, new_hasher, add_u8, add_u32, add_str, add_factors,
  add_types, add_layouts, add_conv_shape, gemm_hasher, grouped_hasher, conv_hasher,
}
use atomr_accel.Cutlass.Requests.{
  GemmRequest, GroupedGemmRequest, ConvRequest, gemm, grouped_gemm, conv, hasher,
}
pub mod Gemm
pub mod Grouped
pub mod Conv
pub mod All

abbrev pub seed : Text
seed = le_bytes 8 0xA5A5A5A5A5A5A5A5

abbrev after_seed : Text → Text
after_seed (a ∷ b ∷ c ∷ d ∷ e ∷ f ∷ g ∷ h ∷ s) = s
after_seed s = s

pub seed-same : (s t : Text) → seed ++ s ≡ seed ++ t → s ≡ t
unfolding le_bytes
seed-same s t e = ap after_seed e

pub factors-lane :
    (e : GemmEpilogue) (h : Hasher)
    → (add_factors e h).a ≡ (h.a ++ le_bytes 4 (alpha e)) ++ le_bytes 4 (beta e)
unfolding add_factors add_u32
factors-lane (linear a b) h = refl
factors-lane (linear_relu a b) h = refl
factors-lane (linear_gelu a b) h = refl
