-- ===== src/Common/Decimal.antt =====
-- The decimal form of a number: it determines the number, and is made of digits only.
use Prim.Native.Nat.{ℕ, zero, suc, ◌+◌, ◌-◌, ◌*◌, ◌/◌, ◌%◌, ◌<◌}
use mathlib.Core.Path.{◌≡◌, refl, ap, sym, ◌∙◌}
use mathlib.Core.Logic.{◌⊎◌, inl, inr}
use mathlib.Core.Bool.{false}
use mathlib.Core.List.{[], ◌∷◌, ◌++◌}
use native.Mathlib.Omega.{arith}
use atomr_accel.Common.Tests.{◌==◌, Bool-cases}
use atomr_accel.Common.Lists.{mem}
use atomr_accel.Common.Strings.{Text, decimal, decimal_loop}

-- The number that digits stand for, after a number already read.
abbrev value : ℕ → Text → ℕ
value acc [] = acc
value acc (c ∷ s) = value (acc * 10 + (c - b'0')) s

value-decimal_loop :
    (fuel n : ℕ) (done : Text) → n < fuel → value 0 (decimal_loop fuel n done) ≡ value n done
unfolding decimal_loop
value-decimal_loop zero n done h = elim h [ ]
value-decimal_loop (suc fuel) n done h = elim (Bool-cases (n / 10 == 0)) [
  | inl last ↦ rw last (ap (λ a. value a done) (ground arith))
  | inr more ↦ rw more (
      value-decimal_loop fuel (n / 10) ((b'0' + n % 10) ∷ done) (ground arith)
      ∙ ap (λ a. value a done) (omega arith))
]

pub decimal-injective : (m n : ℕ) → decimal m ≡ decimal n → m ≡ n
unfolding decimal
decimal-injective m n e =
    sym (value-decimal_loop (suc m) m [] (omega arith))
    ∙ ap (value 0) e
    ∙ value-decimal_loop (suc n) n [] (omega arith)

mem-decimal_loop :
    (c fuel n : ℕ) (done : Text)
    → (c < 48) ⊎ (57 < c)
    → mem c done ≡ false
    → mem c (decimal_loop fuel n done) ≡ false
unfolding decimal_loop
mem-decimal_loop c zero n done h k = k
mem-decimal_loop c (suc fuel) n done h k =
    ground (arith, mem-decimal_loop c fuel (n / 10) ((b'0' + n % 10) ∷ done) h)

-- A character that is no digit does not occur.
pub mem-decimal : (c n : ℕ) → (c < 48) ⊎ (57 < c) → mem c (decimal n) ≡ false
unfolding decimal
mem-decimal c n h = mem-decimal_loop c (suc n) n [] h refl

-- Texts cut at the first place of a character are equal in both parts.
pub cut :
    (c : ℕ) (xs ys rs ss : Text)
    → mem c xs ≡ false
    → mem c ys ≡ false
    → xs ++ c ∷ rs ≡ ys ++ c ∷ ss
    → (xs ≡ ys) × (rs ≡ ss)
cut c [] [] rs ss h k e = ground arith
cut c [] (y ∷ ys) rs ss h k e = ground arith
cut c (x ∷ xs) [] rs ss h k e = ground arith
cut c (x ∷ xs) (y ∷ ys) rs ss h k e = ground (arith, cut c xs ys rs ss)
