-- ===== src/Cutlass/Dtype.antt =====
-- crates/atomr-accel-cutlass/src/dtype.rs: element types and architectures with their names.
use atomr_accel.Common.{Bool, true, false, Text, text}

pub data CutlassDtype : Type 0 where
  f32 f64 f16 bf16 f8_e4m3 f8_e5m2 f4_e2m1 i8 i32 u8 : CutlassDtype

unfoldable pub as_cutlass_type : CutlassDtype → Text
unfolding text
as_cutlass_type f32 = text "float"
as_cutlass_type f64 = text "double"
as_cutlass_type f16 = text "cutlass::half_t"
as_cutlass_type bf16 = text "cutlass::bfloat16_t"
as_cutlass_type f8_e4m3 = text "cutlass::float_e4m3_t"
as_cutlass_type f8_e5m2 = text "cutlass::float_e5m2_t"
as_cutlass_type f4_e2m1 = text "cutlass::float_e2m1_t"
as_cutlass_type i8 = text "int8_t"
as_cutlass_type i32 = text "int32_t"
as_cutlass_type u8 = text "uint8_t"

unfoldable pub dtype_name : CutlassDtype → Text
unfolding text
dtype_name f32 = text "f32"
dtype_name f64 = text "f64"
dtype_name f16 = text "f16"
dtype_name bf16 = text "bf16"
dtype_name f8_e4m3 = text "f8e4m3"
dtype_name f8_e5m2 = text "f8e5m2"
dtype_name f4_e2m1 = text "f4e2m1"
dtype_name i8 = text "i8"
dtype_name i32 = text "i32"
dtype_name u8 = text "u8"

pub data SmArch : Type 0 where
  sm80 sm86 sm89 sm90 sm90a sm100 sm120 : SmArch

unfoldable pub arch_name : SmArch → Text
unfolding text
arch_name sm80 = text "sm_80"
arch_name sm86 = text "sm_86"
arch_name sm89 = text "sm_89"
arch_name sm90 = text "sm_90"
arch_name sm90a = text "sm_90a"
arch_name sm100 = text "sm_100"
arch_name sm120 = text "sm_120"

unfoldable pub supports_persistent_kernels : SmArch → Bool
supports_persistent_kernels sm80 = false
supports_persistent_kernels sm86 = false
supports_persistent_kernels sm89 = false
supports_persistent_kernels _ = true
