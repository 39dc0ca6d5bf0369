-- ===== src/Cutlass/Key.antt =====
-- crates/atomr-accel-cutlass/src/plan_cache.rs: `PlanKey` and its `Hasher`. A lane of the hasher is
-- the bytes written to it so far, on a little-endian machine; what the standard library's hasher
-- makes of them (`finish`) is a parameter. Booleans and layouts are cast to bytes.
use atomr_accel.Common.{
  ℕ, zero, suc, ◌+◌, ◌*◌, ◌/◌, ◌%◌, ◌^◌, Bool, true, false, [], ◌∷◌, ◌++◌, Text,
}
use atomr_accel.Cutlass.Dtype.{CutlassDtype, SmArch, dtype_name, arch_name}
use atomr_accel.Cutlass.Gemm.{
  GemmLayout, row_major, col_major, GemmShape, GemmEpilogue, linear, linear_relu, linear_gelu,
  epilogue_name, GroupedLayout, grouped_name, Summary, ConvLayout, conv_layout_name, ConvShape,
  ConvKind, kind_name,
}

-- The three words of `payload` are fields.
pub record PlanKey : Type 0 where
  pub template_id : ℕ
  pub payload_0 : ℕ
  pub payload_1 : ℕ
  pub payload_2 : ℕ

pub record Hasher : Type 0 where
  pub a : Text
  pub b : Text
  pub c : Text

-- `to_le_bytes` of a word of so many bytes.
unfoldable pub le_bytes : ℕ → ℕ → Text
le_bytes zero v = []
le_bytes (suc w) v = v % 256 ∷ le_bytes w (v / 256)

unfoldable pub rotate_left : ℕ → ℕ → ℕ
rotate_left v r = v * 2 ^ r % 2 ^ 32 + v * 2 ^ r / 2 ^ 32

unfoldable pub new_hasher : Hasher
unfolding le_bytes
new_hasher = record {
  a = le_bytes 8 0xA5A5A5A5A5A5A5A5;
  b = le_bytes 8 0x5A5A5A5A5A5A5A5A;
  c = le_bytes 8 0xC3C3C3C3C3C3C3C3;
}

unfoldable pub add_u8 : ℕ → Hasher → Hasher
add_u8 v h = record {
  a = h.a ++ v ∷ [];
  b = h.b ++ (v + 0x55) % 256 ∷ [];
  c = h.c ++ (v + 0xAA) % 256 ∷ [];
}

unfoldable pub add_u32 : ℕ → Hasher → Hasher
unfolding le_bytes rotate_left
add_u32 v h = record {
  a = h.a ++ le_bytes 4 v;
  b = h.b ++ le_bytes 4 (rotate_left v 11);
  c = h.c ++ le_bytes 4 (rotate_left v 23);
}

unfoldable pub add_str : Text → Hasher → Hasher
add_str s h = record { a = h.a ++ s; b = h.b ++ s; c = h.c ++ s }

unfoldable pub finish : (Text → ℕ) → ℕ → Hasher → PlanKey
finish sip template h = record {
  template_id = template;
  payload_0 = sip h.a;
  payload_1 = sip h.b;
  payload_2 = sip h.c;
}

abbrev pub layout_byte : GemmLayout → ℕ
layout_byte row_major = 0
layout_byte col_major = 1

abbrev pub bool_byte : Bool → ℕ
bool_byte false = 0
bool_byte true = 1

-- The match at the end of `PlanKey::gemm`.
unfoldable pub add_factors : GemmEpilogue → Hasher → Hasher
unfolding add_u32
add_factors (linear alpha beta) h = add_u32 beta (add_u32 alpha h)
add_factors (linear_relu alpha beta) h = add_u32 beta (add_u32 alpha h)
add_factors (linear_gelu alpha beta) h = add_u32 beta (add_u32 alpha h)

-- The four names and the byte in the middle of the keys of both kinds of GEMM, and the epilogue.
unfoldable pub add_types :
    CutlassDtype → CutlassDtype → CutlassDtype → SmArch → Bool → GemmEpilogue → Hasher → Hasher
unfolding add_str add_u8
add_types dtype accum out arch persistent epilogue h = add_str (epilogue_name epilogue) (
    add_u8 (bool_byte persistent) (
      add_str (arch_name arch)
        (add_str (dtype_name out) (add_str (dtype_name accum) (add_str (dtype_name dtype) h)))))

unfoldable pub add_layouts : GemmLayout → GemmLayout → GemmLayout → Hasher → Hasher
unfolding add_u8
add_layouts layout_a layout_b layout_c h =
    add_u8 (layout_byte layout_c) (add_u8 (layout_byte layout_b) (add_u8 (layout_byte layout_a) h))

unfoldable pub gemm_hasher :
    CutlassDtype
    → GemmShape
    → GemmLayout
    → GemmLayout
    → GemmLayout
    → GemmEpilogue
    → CutlassDtype
    → CutlassDtype
    → SmArch
    → Bool
    → Hasher
unfolding new_hasher add_u32 add_layouts add_types add_factors
gemm_hasher dtype shape layout_a layout_b layout_c epilogue accum out arch persistent =
    add_factors epilogue (
      add_types dtype accum out arch persistent epilogue (
        add_layouts layout_a layout_b layout_c
          (add_u32 shape.k (add_u32 shape.n (add_u32 shape.m new_hasher)))))

unfoldable pub grouped_hasher :
    CutlassDtype
    → Summary
    → GemmLayout
    → GemmLayout
    → GemmLayout
    → GroupedLayout
    → GemmEpilogue
    → CutlassDtype
    → CutlassDtype
    → SmArch
    → Bool
    → Hasher
unfolding new_hasher add_u32 add_str add_layouts add_types
grouped_hasher dtype sum layout_a layout_b layout_c grouped epilogue accum out arch persistent =
    add_types dtype accum out arch persistent epilogue (
      add_str (grouped_name grouped) (
        add_layouts layout_a layout_b layout_c (
          add_u32 (sum.group_count % 2 ^ 32)
            (add_u32 sum.max_k (add_u32 sum.max_n (add_u32 sum.max_m new_hasher))))))

-- The thirteen numbers of a convolution.
unfoldable pub add_conv_shape : ConvShape → Hasher → Hasher
unfolding add_u32
add_conv_shape shape h = add_u32 shape.dil_w (
    add_u32 shape.dil_h (
      add_u32 shape.stride_w (
        add_u32 shape.stride_h (
          add_u32 shape.pad_w (
            add_u32 shape.pad_h (
              add_u32 shape.s (
                add_u32 shape.r (
                  add_u32 shape.k (
                    add_u32 shape.c (add_u32 shape.w (add_u32 shape.h (add_u32 shape.n h))))))))))))

unfoldable pub conv_hasher :
    CutlassDtype → ConvKind → ConvShape → ConvLayout → CutlassDtype → CutlassDtype → SmArch → Hasher
unfolding new_hasher add_str add_conv_shape
conv_hasher dtype kind shape layout accum out arch = add_str (arch_name arch) (
    add_str (dtype_name out) (
      add_str (dtype_name accum) (
        add_str (dtype_name dtype) (
          add_str (conv_layout_name layout)
            (add_conv_shape shape (add_str (kind_name kind) new_hasher))))))
