-- ===== src/Patterns/Moe.antt =====
-- crates/atomr-accel-patterns/src/moe.rs: `MoeRouter`. An `f32` is any type `F` with the operations that the
-- code uses (Scalar); the gate is a function, and an expert answers, fails, or drops its reply. Where
-- the task panics, and the caller gets no answer, the result is `none`.
pub mod TopK
pub mod Answer
use atomr_accel.Common.{
  ℕ, zero, suc, ◌+◌, min, max, Bool, true, false, Option, none, some, List, [], ◌∷◌, ◌++◌, map,
  length, take, ltb, ◌==◌, if◌then◌else◌, not, Text, text, decimal,
}
use atomr_accel.Common.Sorting.{sort_by}
use atomr_accel.Gpu.Error.{GpuError, unrecoverable, Result, ok, err}

pub record Scalar (F : Type 0) : Type 0 where
  pub neg_infinity : F
  pub zero_f : F
  pub add : F → F → F
  pub sub : F → F → F
  pub mul : F → F → F
  pub div : F → F → F
  pub max_f : F → F → F
  pub exp : F → F
  pub is_zero : F → Bool
  -- `partial_cmp` says `Less`.
  pub less : F → F → Bool

pub record MoeConfig (F : Type 0) : Type 0 where
  pub experts : List (List F → Option (Result (List F)))
  pub gate : List F → Result (List F)
  pub top_k : ℕ

module _ {F : Type 0} (o : Scalar F) where
  abbrev pub at : List F → ℕ → F
  at [] i = o.zero_f
  at (x ∷ xs) zero = x
  at (x ∷ xs) (suc i) = at xs i

  -- The first index goes before the second: its score is greater.
  abbrev pub ahead : List F → ℕ → ℕ → Bool
  ahead scores a b = o.less (at scores b) (at scores a)

  -- `(0..n).collect()`, from `i`.
  abbrev pub indices : ℕ → ℕ → List ℕ
  indices i zero = []
  indices i (suc n) = i ∷ indices (i + 1) n

  abbrev pub sorted : List F → List ℕ
  sorted scores = sort_by (ahead scores) (indices 0 (length scores))

  -- `none`: the slice is too long.
  unfoldable pub choose : List F → ℕ → Option (List ℕ)
  unfolding sort_by
  choose scores top_k =
      let idx = sort_by (ahead scores) (indices 0 (length scores)) in
      let k = max (min top_k (length idx)) 1 in
      if ltb (length idx) k then none else some (take k idx)

  abbrev fold_max : F → List F → F
  fold_max m [] = m
  fold_max m (s ∷ scores) = fold_max (o.max_f m s) scores

  abbrev fold_add : F → List F → F
  fold_add m [] = m
  fold_add m (s ∷ scores) = fold_add (o.add m s) scores

  unfoldable pub softmax : List F → List F
  softmax scores =
      let exps = map (λ s. o.exp (o.sub s (fold_max o.neg_infinity scores))) scores in
      let sum = fold_add o.zero_f exps in
      if o.is_zero sum then map (λ s. o.zero_f) scores else map (λ e. o.div e sum) exps

  abbrev zeros : ℕ → List F
  zeros zero = []
  zeros (suc n) = o.zero_f ∷ zeros n

  abbrev longest : List (List F) → ℕ
  longest [] = 0
  longest (v ∷ outputs) = max (length v) (longest outputs)

  -- The inner loop: `blended[i] += v * w`.
  abbrev add_scaled : F → List F → List F → List F
  add_scaled w (b ∷ blended) (v ∷ out) = o.add b (o.mul v w) ∷ add_scaled w blended out
  add_scaled w blended out = blended

  abbrev blend_loop : List F → List (List F) → List F → List F
  blend_loop blended (out ∷ outputs) (w ∷ weights) =
      blend_loop (add_scaled w blended out) outputs weights
  blend_loop blended outputs weights = blended

  unfoldable pub blend : List (List F) → List F → List F
  blend outputs weights = blend_loop (zeros (longest outputs)) outputs weights

  unfoldable pub dropped_reply : Text
  unfolding text
  dropped_reply = text "MoE: expert dropped reply"

  -- The expert at an index, which is one of them.
  abbrev pub expert_at :
      List (List F → Option (Result (List F))) → ℕ → List F → Option (Result (List F))
  expert_at [] i input = none
  expert_at (e ∷ experts) zero input = e input
  expert_at (e ∷ experts) (suc i) input = expert_at experts i input

  abbrev pub push : List F → Result (List (List F)) → Result (List (List F))
  push out (ok outputs) = ok (out ∷ outputs)
  push out (err e) = err e

  -- The answers are awaited in the order of the choice.
  unfoldable pub collect : MoeConfig F → List F → List ℕ → Result (List (List F))
  unfolding dropped_reply
  collect cfg input [] = ok []
  collect cfg input (i ∷ chosen) =
      let rest = collect cfg input chosen in
      elim (expert_at cfg.experts i input) [
        | none ↦ err (unrecoverable dropped_reply)
        | some r ↦ elim r [ err e ↦ err e | ok out ↦ push out rest ]
      ]

  unfoldable pub wrong_count : ℕ → ℕ → Text
  unfolding text decimal
  wrong_count produced expected =
      text "MoE: gate produced "
      ++ decimal produced
      ++ text " scores, expected "
      ++ decimal expected

  abbrev pub answer : List F → Result (List (List F)) → Result (List F)
  answer weights (ok outputs) = ok (blend outputs weights)
  answer weights (err e) = err e

  -- After the gate.
  unfoldable pub run_chosen : MoeConfig F → List F → List F → Option (Result (List F))
  unfolding choose softmax collect blend
  run_chosen cfg input scores = elim (choose scores cfg.top_k) [
    | none ↦ none
    | some chosen ↦ some (answer (softmax (map (at scores) chosen)) (collect cfg input chosen))
  ]

  unfoldable pub handle_run : MoeConfig F → List F → Option (Result (List F))
  unfolding run_chosen wrong_count
  handle_run cfg input = elim (cfg.gate input) [
    | err e ↦ some (err e)
    | ok scores ↦
        if length scores == length cfg.experts
        then run_chosen cfg input scores
        else some (err (unrecoverable (wrong_count (length scores) (length cfg.experts))))
  ]
