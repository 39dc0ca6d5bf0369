-- ===== src/Cutlass/Cancel/Prefix.antt =====
-- crates/atomr-accel-cutlass/src/plan_cache.rs: reading a name off the front of a text.
use atomr_accel.Common.{
  ◌≡◌, sym, ap, ◌∙◌, Option, none, some, List, [], ◌∷◌, arith, Text, ◌==◌, if◌then◌else◌,
}

-- What follows a prefix.
abbrev pub strip : Text → Text → Option Text
strip [] s = some s
strip (p ∷ ps) [] = none
strip (p ∷ ps) (c ∷ s) = if c == p then strip ps s else none

module _ {ℓ} {A : Type ℓ} where
  abbrev pub or_else : A → Option Text → Option (A × Text) → Option (A × Text)
  or_else a none other = other
  or_else a (some s) other = some (a, s)

  -- The first of the names that the text starts with.
  abbrev pub read : List (A × Text) → Text → Option (A × Text)
  read [] s = none
  read ((a, name) ∷ names) s = or_else a (strip name s) (read names s)

  some-first : {x y : A × Text} → some x ≡ some y → (x.0 ≡ y.0) × (x.1 ≡ y.1)
  some-first {x = (a, s)} {y = (b, t)} e = ground arith

  pub some-only : {x y : A} → some x ≡ some y → x ≡ y
  some-only e = ground arith

  -- Equal texts that are read as two things are read as one.
  pub read-same :
      (reader : Text → Option (A × Text)) {x y : Text} {a b : A} {s t : Text}
      → reader x ≡ some (a, s)
      → reader y ≡ some (b, t)
      → x ≡ y
      → (a ≡ b) × (s ≡ t)
  read-same reader hx hy e = some-first (sym hx ∙ ap reader e ∙ hy)
