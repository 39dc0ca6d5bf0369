-- ===== src/Cutlass/Cancel/Epilogue.antt =====
-- crates/atomr-accel-cutlass/src/plan_cache.rs: reading back the epilogue, whose name is followed by two words and the end.
use atomr_accel.Common.{
  ℕ, ◌+◌, ◌*◌, ◌^◌, ◌<◌, ◌≡◌, sym, ap, ◌∙◌, Option, none, some, ◌∷◌, ◌++◌, Text, text, ◌==◌,
  if◌then◌else◌, length, is_some,
}
use atomr_accel.Cutlass.Gemm.{GemmEpilogue, linear, linear_relu, linear_gelu, epilogue_name}
use atomr_accel.Cutlass.Key.{le_bytes}
use atomr_accel.Cutlass.Cancel.Prefix.{strip, some-only}
use atomr_accel.Cutlass.Cancel.Words.{word}

abbrev pub alpha : GemmEpilogue → ℕ
alpha (linear a b) = a
alpha (linear_relu a b) = a
alpha (linear_gelu a b) = a

abbrev pub beta : GemmEpilogue → ℕ
beta (linear a b) = b
beta (linear_relu a b) = b
beta (linear_gelu a b) = b

abbrev factors : (ℕ → ℕ → GemmEpilogue) → Option Text → Option GemmEpilogue
factors make (some (a0 ∷ a1 ∷ a2 ∷ a3 ∷ b0 ∷ b1 ∷ b2 ∷ b3 ∷ s)) =
    some (make (a0 + 256 * (a1 + 256 * (a2 + 256 * a3))) (b0 + 256 * (b1 + 256 * (b2 + 256 * b3))))
factors make _ = none

-- The short name is known by the length of the whole; the other two differ in a letter.
abbrev read_epilogue : Text → Option GemmEpilogue
read_epilogue s =
    if length s == 14
    then factors linear (strip (text "linear") s)
    else if is_some (strip (text "linear_relu") s)
    then factors linear_relu (strip (text "linear_relu") s)
    else factors linear_gelu (strip (text "linear_gelu") s)

pub read-epilogue :
    (e : GemmEpilogue)
    → alpha e < 2 ^ 32
    → beta e < 2 ^ 32
    → read_epilogue (epilogue_name e ++ (le_bytes 4 (alpha e) ++ le_bytes 4 (beta e))) ≡ some e
unfolding epilogue_name le_bytes text
read-epilogue (linear a b) ha hb = cc (word a ha, word b hb)
read-epilogue (linear_relu a b) ha hb = cc (word a ha, word b hb)
read-epilogue (linear_gelu a b) ha hb = cc (word a ha, word b hb)

pub epilogue-same :
    (e f : GemmEpilogue)
    → alpha e < 2 ^ 32
    → beta e < 2 ^ 32
    → alpha f < 2 ^ 32
    → beta f < 2 ^ 32
    → epilogue_name e ++ (le_bytes 4 (alpha e) ++ le_bytes 4 (beta e))
      ≡ epilogue_name f ++ (le_bytes 4 (alpha f) ++ le_bytes 4 (beta f))
    → e ≡ f
epilogue-same e f ha hb ka kb p =
    some-only (sym (read-epilogue e ha hb) ∙ ap read_epilogue p ∙ read-epilogue f ka kb)
