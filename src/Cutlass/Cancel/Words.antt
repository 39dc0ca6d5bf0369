-- ===== src/Cutlass/Cancel/Words.antt =====
-- crates/atomr-accel-cutlass/src/plan_cache.rs: reading back the words, which have a fixed width.
use atomr_accel.Common.{
  ℕ, ◌+◌, ◌*◌, ◌/◌, ◌%◌, ◌^◌, ◌<◌, ◌≡◌, refl, ap, Option, none, some, List, [], ◌∷◌, ◌++◌, arith,
  Text, length,
}
use atomr_accel.Cutlass.Key.{le_bytes}
use atomr_accel.Cutlass.Cancel.Prefix.{read-same}

-- A word of four bytes.
abbrev read_u32 : Text → Option (ℕ × Text)
read_u32 (b0 ∷ b1 ∷ b2 ∷ b3 ∷ s) = some (b0 + 256 * (b1 + 256 * (b2 + 256 * b3)), s)
read_u32 _ = none

pub word :
    (v : ℕ)
    → v < 2 ^ 32
    → v % 256
        + 256 * (v / 256 % 256 + 256 * (v / 256 / 256 % 256 + 256 * (v / 256 / 256 / 256 % 256)))
      ≡ v
word v h = omega arith

read-u32 : (v : ℕ) (s : Text) → v < 2 ^ 32 → read_u32 (le_bytes 4 v ++ s) ≡ some (v, s)
unfolding le_bytes
read-u32 v s h = ap (λ w. some (w, s)) (word v h)

u32-same :
    (v w : ℕ) (s t : Text)
    → v < 2 ^ 32
    → w < 2 ^ 32
    → le_bytes 4 v ++ s ≡ le_bytes 4 w ++ t
    → (v ≡ w) × (s ≡ t)
u32-same v w s t hv hw = read-same read_u32 (read-u32 v s hv) (read-u32 w t hw)

-- Numbers that are values of `u32`.
pub data Fit : List ℕ → Type 0 where
  none_left : Fit []
  fit : {v : ℕ} {vs : List ℕ} → v < 2 ^ 32 → Fit vs → Fit (v ∷ vs)

abbrev pub words : List ℕ → Text → Text
words [] s = s
words (v ∷ vs) s = le_bytes 4 v ++ words vs s

pub words-same :
    (vs ws : List ℕ) (s t : Text)
    → length vs ≡ length ws
    → Fit vs
    → Fit ws
    → words vs s ≡ words ws t
    → (vs ≡ ws) × (s ≡ t)
words-same [] [] s t n hv hw e = (refl, e)
words-same [] (w ∷ ws) s t n hv hw e = absurd (omega (arith, n))
words-same (v ∷ vs) [] s t n hv hw e = absurd (omega (arith, n))
words-same (v ∷ vs) (w ∷ ws) s t n (fit hv hvs) (fit hw hws) e =
    let p = u32-same v w (words vs s) (words ws t) hv hw e in
    let q = words-same vs ws s t (omega (arith, n)) hvs hws (p.1) in (cc (p.0, q.0), q.1)

-- The number at a place, or 0.
abbrev pub nth : List ℕ → ℕ → ℕ
nth [] i = 0
nth (v ∷ vs) ℕ.zero = v
nth (v ∷ vs) (ℕ.suc i) = nth vs i
