-- ===== src/Flash/Naming/Head.antt =====
-- dispatch.rs: the fixed part of a kernel's name, and what it says of the key.
use mathlib.Core.List.{append_assoc}
use atomr_accel.Common.{
  ℕ, ◌≡◌, refl, sym, ap, ◌∙◌, Bool, true, false, some, ◌∷◌, ◌++◌, arith, Text, text, decimal, mem,
  if◌then◌else◌, get_elem?,
}
use atomr_accel.Common.Decimal.{decimal-injective, mem-decimal, cut}
use atomr_accel.Flash.Key.{
  SmArch, sm80, sm89, sm90a, sm100, DType, f16, bf16, f8_e4m3, f8_e5m2, supports_fa3, DispatchKey,
  tag, kind, causal_tag,
}

-- The part of a name before its optional pieces.
unfoldable pub base : DispatchKey → Text
unfolding text
base k =
    text "atomr_flashattn::"
    ++ (kind k.arch
        ++ (text "::fwd<"
            ++ (tag k.dtype
                ++ (text ", "
                    ++ (decimal k.head_dim ++ (text ", " ++ (causal_tag k.causal ++ text ">")))))))

head : SmArch → DType → Text
unfolding text kind tag
head arch dtype = text "atomr_flashattn::" ++ (kind arch ++ (text "::fwd<" ++ tag dtype))

base-head :
    (k : DispatchKey) (r : Text)
    → base k ++ r
      ≡ head k.arch k.dtype
        ++ 44 ∷ (32 ∷ (decimal k.head_dim ++ 44 ∷ (32 ∷ (causal_tag k.causal ++ 62 ∷ r))))
unfolding base head
base-head k r = simp append_assoc

mem-head : (arch : SmArch) (dtype : DType) → mem 44 (head arch dtype) ≡ false
unfolding head
mem-head sm80 f16 = refl
mem-head sm80 _ = refl
mem-head sm89 f16 = refl
mem-head sm89 _ = refl
mem-head sm90a f16 = refl
mem-head sm90a _ = refl
mem-head sm100 f16 = refl
mem-head sm100 _ = refl

-- The character at 19 tells the kernels' generation, and the one at 27 the element type.
generation : SmArch → ℕ
generation arch = if supports_fa3 arch then b'3' else b'2'

second : DType → ℕ
second f16 = b'1'
second bf16 = b'f'
second f8_e4m3 = b'4'
second f8_e5m2 = b'5'

get_elem?-head :
    (arch : SmArch) (dtype : DType)
    → (get_elem? (head arch dtype) 19 ≡ some (generation arch))
      × (get_elem? (head arch dtype) 27 ≡ some (second dtype))
unfolding head generation second
get_elem?-head sm80 f16 = (refl, refl)
get_elem?-head sm80 _ = (refl, refl)
get_elem?-head sm89 f16 = (refl, refl)
get_elem?-head sm89 _ = (refl, refl)
get_elem?-head sm90a f16 = (refl, refl)
get_elem?-head sm90a _ = (refl, refl)
get_elem?-head sm100 f16 = (refl, refl)
get_elem?-head sm100 _ = (refl, refl)

generation-injective :
    (a b : SmArch) → generation a ≡ generation b → supports_fa3 a ≡ supports_fa3 b
unfolding generation
generation-injective a b e = ground arith

second-injective : (a b : DType) → second a ≡ second b → a ≡ b
unfolding second
second-injective a b e = ground arith

head-injective :
    (a b : SmArch) (d e : DType) → head a d ≡ head b e → (supports_fa3 a ≡ supports_fa3 b) × (d ≡ e)
head-injective a b d e h = ground (
  arith,
  get_elem?-head a d,
  get_elem?-head b e,
  ap (λ t. get_elem? t 19) h,
  ap (λ t. get_elem? t 27) h,
  generation-injective a b,
  second-injective d e,
)

causal_tag-injective : (b c : Bool) → causal_tag b ≡ causal_tag c → b ≡ c
unfolding causal_tag
causal_tag-injective true false e = ground arith
causal_tag-injective false true e = ground arith
causal_tag-injective true true e = refl
causal_tag-injective false false e = refl

mem-causal_tag : (b : Bool) → mem 62 (causal_tag b) ≡ false
unfolding causal_tag
mem-causal_tag true = refl
mem-causal_tag false = refl

pub base-cut :
    (j k : DispatchKey) (r s : Text)
    → base j ++ r ≡ base k ++ s
    → (supports_fa3 j.arch ≡ supports_fa3 k.arch)
      × (j.dtype ≡ k.dtype)
      × (j.head_dim ≡ k.head_dim)
      × (j.causal ≡ k.causal)
      × (r ≡ s)
base-cut j k r s e =
    let heads =
      cut 44 (head j.arch j.dtype) (head k.arch k.dtype) _ _ (mem-head j.arch j.dtype)
        (mem-head k.arch k.dtype) (sym (base-head j r) ∙ e ∙ base-head k s) in
    let dims =
      cut 44 (32 ∷ decimal j.head_dim) (32 ∷ decimal k.head_dim) _ _
        (ground (arith, mem-decimal 44 j.head_dim)) (ground (arith, mem-decimal 44 k.head_dim))
        heads.1 in
    let ends =
      cut 62 (32 ∷ causal_tag j.causal) (32 ∷ causal_tag k.causal) _ _
        (ground (arith, mem-causal_tag j.causal)) (ground (arith, mem-causal_tag k.causal))
        dims.1 in
    ground (
      arith,
      head-injective j.arch k.arch j.dtype k.dtype heads.0,
      decimal-injective j.head_dim k.head_dim,
      causal_tag-injective j.causal k.causal,
    )
