-- ===== src/Common/Strings.antt =====
-- Text as the list of its code points, with the search and the formatting that the program uses.
use Prim.Native.Nat.{ℕ, zero, suc, ◌+◌, ◌/◌, ◌%◌}
use Prim.Native.Char.{code}
use Prim.Native.String.{String}
use mathlib.Core.Path.{◌≡◌, refl}
use mathlib.Core.Logic.{◌≢◌, ◌⊎◌, inl, inr}
use mathlib.Core.Bool.{Bool, true, false, ◌||◌, ◌&&◌}
use mathlib.Core.List.{List, [], ◌∷◌, ◌++◌}
use native.Mathlib.Omega.{arith}
use atomr_accel.Common.Tests.{◌==◌, Bool-cases, if◌then◌else◌}
use atomr_accel.Common.Lists.{mem}

abbrev pub Text : Type 0
Text = List ℕ

abbrev codes : String → Text
codes String.[] = []
codes (String.◌∷◌ c s) = code c ∷ codes s

unfoldable pub text : String → Text
text s = codes s

-- `{}` of an unsigned number, with the digits still to come in front of those done.
unfoldable pub decimal_loop : ℕ → ℕ → Text → Text
decimal_loop zero n done = done
decimal_loop (suc fuel) n done =
    let shown = (b'0' + n % 10) ∷ done in
    let rest = decimal_loop fuel (n / 10) shown in if n / 10 == 0 then shown else rest

-- A number n has at most n + 1 digits, so the fuel is enough.
unfoldable pub decimal : ℕ → Text
unfolding decimal_loop
decimal n = decimal_loop (suc n) n []

abbrev pub starts_with : Text → Text → Bool
starts_with [] s = true
starts_with (p ∷ ps) [] = false
starts_with (p ∷ ps) (c ∷ s) = c == p && starts_with ps s

-- `str::contains`: the pattern occurs at some position.
abbrev pub contains : Text → Text → Bool
contains p [] = starts_with p []
contains p (c ∷ s) = starts_with p (c ∷ s) || contains p s

-- What follows a blank plays no part in a match of a pattern without blanks.
pub starts_with-append :
    (p xs ys : Text) → mem 32 p ≡ false → starts_with p (xs ++ 32 ∷ ys) ≡ starts_with p xs
starts_with-append [] xs ys h = refl
starts_with-append (p ∷ ps) [] ys h = ground arith
starts_with-append (p ∷ ps) (x ∷ xs) ys h = ground (arith, starts_with-append ps xs ys)

-- A pattern with no blank in it does not reach across one.
pub contains-append_blank :
    (p xs ys : Text)
    → mem 32 p ≡ false
    → contains p (xs ++ 32 ∷ ys) ≡ (contains p xs || contains p ys)
contains-append_blank p [] ys h = ground (arith, starts_with-append p [] ys h)
contains-append_blank p (x ∷ xs) ys h =
    ground (arith, starts_with-append p (x ∷ xs) ys h, contains-append_blank p xs ys h)

pub Text-cases : (s t : Text) → (s ≡ t) ⊎ (s ≢ t)
Text-cases [] [] = inl refl
Text-cases [] (y ∷ t) = inr (λ e. ground (arith, e))
Text-cases (x ∷ s) [] = inr (λ e. ground (arith, e))
Text-cases (x ∷ s) (y ∷ t) = elim (Text-cases s t) [
  | inl e ↦ elim (Bool-cases (x == y)) [
    | inl h ↦ inl (ground (arith, e))
    | inr h ↦ inr (λ p. ground (arith, p))
  ]
  | inr n ↦ inr (λ p. n (ground (arith, p)))
]
