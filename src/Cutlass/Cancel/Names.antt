-- ===== src/Cutlass/Cancel/Names.antt =====
-- crates/atomr-accel-cutlass/src/plan_cache.rs: reading back the names, which stand one after another with nothing between them.
use atomr_accel.Common.{◌≡◌, refl, Bool, true, false, some, List, [], ◌∷◌, ◌++◌, arith, Text, text}
use atomr_accel.Cutlass.Dtype.{
  CutlassDtype, f32, f64, f16, bf16, f8_e4m3, f8_e5m2, f4_e2m1, i8, i32, u8, dtype_name, SmArch,
  sm80, sm86, sm89, sm90, sm90a, sm100, sm120, arch_name,
}
use atomr_accel.Cutlass.Gemm.{
  GemmLayout, row_major, col_major, GroupedLayout, uniform, variable_m, variable, grouped_name,
  ConvLayout, nhwc, nchw, conv_layout_name, ConvKind, fprop, dgrad, wgrad, kind_name,
}
use atomr_accel.Cutlass.Key.{layout_byte, bool_byte}
use atomr_accel.Cutlass.Cancel.Prefix.{read, read-same}

abbrev dtypes : List (CutlassDtype × Text)
dtypes =
    (f32, text "f32")
    ∷ (f64, text "f64")
    ∷ (f16, text "f16")
    ∷ (bf16, text "bf16")
    ∷ (f8_e4m3, text "f8e4m3")
    ∷ (f8_e5m2, text "f8e5m2")
    ∷ (f4_e2m1, text "f4e2m1")
    ∷ (i8, text "i8")
    ∷ (i32, text "i32")
    ∷ (u8, text "u8")
    ∷ []

read-dtype : (d : CutlassDtype) (s : Text) → read dtypes (dtype_name d ++ s) ≡ some (d, s)
unfolding dtype_name text
read-dtype f32 s = refl
read-dtype f64 s = refl
read-dtype f16 s = refl
read-dtype bf16 s = refl
read-dtype f8_e4m3 s = refl
read-dtype f8_e5m2 s = refl
read-dtype f4_e2m1 s = refl
read-dtype i8 s = refl
read-dtype i32 s = refl
read-dtype u8 s = refl

pub dtype-same :
    (d e : CutlassDtype) (s t : Text) → dtype_name d ++ s ≡ dtype_name e ++ t → (d ≡ e) × (s ≡ t)
dtype-same d e s t = read-same (read dtypes) (read-dtype d s) (read-dtype e t)

abbrev archs : List (SmArch × Text)
archs =
    (sm80, text "sm_80")
    ∷ (sm86, text "sm_86")
    ∷ (sm89, text "sm_89")
    ∷ (sm90a, text "sm_90a")
    ∷ (sm90, text "sm_90")
    ∷ (sm100, text "sm_100")
    ∷ (sm120, text "sm_120")
    ∷ []

-- A name of an architecture ends where the byte of a Boolean comes, or with the text.
read-arch_bool :
    (a : SmArch) (b : Bool) (s : Text)
    → read archs (arch_name a ++ bool_byte b ∷ s) ≡ some (a, bool_byte b ∷ s)
unfolding arch_name text
read-arch_bool sm80 b s = refl
read-arch_bool sm86 b s = refl
read-arch_bool sm89 b s = refl
read-arch_bool sm90 false s = refl
read-arch_bool sm90 true s = refl
read-arch_bool sm90a b s = refl
read-arch_bool sm100 b s = refl
read-arch_bool sm120 b s = refl

read-arch_end : (a : SmArch) → read archs (arch_name a) ≡ some (a, [])
unfolding arch_name text
read-arch_end sm80 = refl
read-arch_end sm86 = refl
read-arch_end sm89 = refl
read-arch_end sm90 = refl
read-arch_end sm90a = refl
read-arch_end sm100 = refl
read-arch_end sm120 = refl

byte-same : (b c : Bool) (s t : Text) → bool_byte b ∷ s ≡ bool_byte c ∷ t → (b ≡ c) × (s ≡ t)
byte-same false false s t e = ground arith
byte-same false true s t e = ground arith
byte-same true false s t e = ground arith
byte-same true true s t e = ground arith

pub arch-same :
    (a a' : SmArch) (b b' : Bool) (s t : Text)
    → arch_name a ++ bool_byte b ∷ s ≡ arch_name a' ++ bool_byte b' ∷ t
    → (a ≡ a') × (b ≡ b') × (s ≡ t)
arch-same a a' b b' s t e =
    let h = read-same (read archs) (read-arch_bool a b s) (read-arch_bool a' b' t) e in
    let k = byte-same b b' s t (h.1) in (h.0, k.0, k.1)

pub last_arch-same : (a b : SmArch) → arch_name a ≡ arch_name b → a ≡ b
last_arch-same a b e = (read-same (read archs) (read-arch_end a) (read-arch_end b) e).0

layout-same :
    (a b : GemmLayout) (s t : Text) → layout_byte a ∷ s ≡ layout_byte b ∷ t → (a ≡ b) × (s ≡ t)
layout-same row_major row_major s t e = ground arith
layout-same row_major col_major s t e = ground arith
layout-same col_major row_major s t e = ground arith
layout-same col_major col_major s t e = ground arith

abbrev conv_layouts : List (ConvLayout × Text)
conv_layouts = (nhwc, text "nhwc") ∷ (nchw, text "nchw") ∷ []

read-conv_layout :
    (l : ConvLayout) (s : Text) → read conv_layouts (conv_layout_name l ++ s) ≡ some (l, s)
unfolding conv_layout_name text
read-conv_layout nhwc s = refl
read-conv_layout nchw s = refl

pub conv_layout-same :
    (a b : ConvLayout) (s t : Text)
    → conv_layout_name a ++ s ≡ conv_layout_name b ++ t
    → (a ≡ b) × (s ≡ t)
conv_layout-same a b s t =
    read-same (read conv_layouts) (read-conv_layout a s) (read-conv_layout b t)

abbrev kinds : List (ConvKind × Text)
kinds = (fprop, text "fprop") ∷ (dgrad, text "dgrad") ∷ (wgrad, text "wgrad") ∷ []

read-kind : (k : ConvKind) (s : Text) → read kinds (kind_name k ++ s) ≡ some (k, s)
unfolding kind_name text
read-kind fprop s = refl
read-kind dgrad s = refl
read-kind wgrad s = refl

pub kind-same :
    (a b : ConvKind) (s t : Text) → kind_name a ++ s ≡ kind_name b ++ t → (a ≡ b) × (s ≡ t)
kind-same a b s t = read-same (read kinds) (read-kind a s) (read-kind b t)

abbrev grouped_layouts : List (GroupedLayout × Text)
grouped_layouts =
    (uniform, text "uniform") ∷ (variable_m, text "var_m") ∷ (variable, text "var") ∷ []

-- No name of an element type starts with what `var_m` has after `var`.
read-grouped :
    (g : GroupedLayout) (d : CutlassDtype) (s : Text)
    → read grouped_layouts (grouped_name g ++ (dtype_name d ++ s)) ≡ some (g, dtype_name d ++ s)
unfolding grouped_name dtype_name text
read-grouped uniform d s = refl
read-grouped variable_m d s = refl
read-grouped variable f32 s = refl
read-grouped variable f64 s = refl
read-grouped variable f16 s = refl
read-grouped variable bf16 s = refl
read-grouped variable f8_e4m3 s = refl
read-grouped variable f8_e5m2 s = refl
read-grouped variable f4_e2m1 s = refl
read-grouped variable i8 s = refl
read-grouped variable i32 s = refl
read-grouped variable u8 s = refl

pub grouped-same :
    (g h : GroupedLayout) (d e : CutlassDtype) (s t : Text)
    → grouped_name g ++ (dtype_name d ++ s) ≡ grouped_name h ++ (dtype_name e ++ t)
    → (g ≡ h) × (d ≡ e) × (s ≡ t)
grouped-same g h d e s t p =
    let q = read-same (read grouped_layouts) (read-grouped g d s) (read-grouped h e t) p in
    let k = dtype-same d e s t (q.1) in (q.0, k.0, k.1)

abbrev pub layouts_text : GemmLayout → GemmLayout → GemmLayout → Text → Text
layouts_text a b c s = layout_byte a ∷ layout_byte b ∷ layout_byte c ∷ s

pub layouts-same :
    (a b c a' b' c' : GemmLayout) (s t : Text)
    → layouts_text a b c s ≡ layouts_text a' b' c' t
    → (a ≡ a') × (b ≡ b') × (c ≡ c') × (s ≡ t)
layouts-same a b c a' b' c' s t e =
    let p =
      layout-same a a' (layout_byte b ∷ layout_byte c ∷ s) (layout_byte b' ∷ layout_byte c' ∷ t)
        e in
    let q = layout-same b b' (layout_byte c ∷ s) (layout_byte c' ∷ t) (p.1) in
    let r = layout-same c c' s t (q.1) in (p.0, q.0, r.0, r.1)

abbrev pub arch_text : SmArch → Bool → Text → Text
arch_text a p s = arch_name a ++ bool_byte p ∷ s

-- The names of the accumulator and the output, and what ends them.
abbrev pub types_text : CutlassDtype → CutlassDtype → Text → Text
types_text b c s = dtype_name b ++ (dtype_name c ++ s)

pub types-same :
    (b c b' c' : CutlassDtype) (s t : Text)
    → types_text b c s ≡ types_text b' c' t
    → (b ≡ b') × (c ≡ c') × (s ≡ t)
types-same b c b' c' s t e =
    let h = dtype-same b b' (dtype_name c ++ s) (dtype_name c' ++ t) e in
    let k = dtype-same c c' s t (h.1) in (h.0, k.0, k.1)
