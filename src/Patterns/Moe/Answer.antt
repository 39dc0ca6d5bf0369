-- ===== src/Patterns/Moe/Answer.antt =====
-- moe.rs: what a router answers, by what its gate and its experts do.
use atomr_accel.Common.{
  ℕ, ◌≡◌, ◌≢◌, refl, sym, ap, ◌∙◌, Bool-cases, ◌⊎◌, inl, inr, Option, none, some, List, [], ◌∷◌,
  map, length, arith, ◌==◌, ==_iff,
}
use atomr_accel.Gpu.Error.{GpuError, unrecoverable, Result, ok, err}
use atomr_accel.Patterns.Moe.{
  Scalar, MoeConfig, at, softmax, blend, dropped_reply, expert_at, collect, wrong_count, run_chosen,
  handle_run, choose, push, answer,
}
use atomr_accel.Patterns.Moe.TopK.{IsOrdered, TopK, choose-TopK}

module _ {F : Type 0} (o : Scalar F) (cfg : MoeConfig F) (input : List F) where
  -- The outputs of experts, one for each.
  pub data Outputs : List ℕ → List (List F) → Type 0 where
    no_experts : Outputs [] []
    output :
        {i : ℕ} {out : List F} {chosen : List ℕ} {outputs : List (List F)}
        → expert_at o cfg.experts i input ≡ some (ok out)
        → Outputs chosen outputs
        → Outputs (i ∷ chosen) (out ∷ outputs)

  -- An expert that fails, or drops its reply, after others that do not.
  pub data FirstFailure : List ℕ → GpuError → Type 0 where
    fails :
        {i : ℕ} {chosen : List ℕ} {e : GpuError}
        → expert_at o cfg.experts i input ≡ some (err e)
        → FirstFailure (i ∷ chosen) e
    drops :
        {i : ℕ} {chosen : List ℕ}
        → expert_at o cfg.experts i input ≡ none
        → FirstFailure (i ∷ chosen) (unrecoverable (dropped_reply o))
    after :
        {i : ℕ} {out : List F} {chosen : List ℕ} {e : GpuError}
        → expert_at o cfg.experts i input ≡ some (ok out)
        → FirstFailure chosen e
        → FirstFailure (i ∷ chosen) e

  reply_cases :
      (r : Option (Result (List F)))
      → (r ≡ none) ⊎ ((e : GpuError) × (r ≡ some (err e))) ⊎ ((out : List F) × (r ≡ some (ok out)))
  reply_cases none = inl refl
  reply_cases (some (err e)) = inr (inl (e, refl))
  reply_cases (some (ok out)) = inr (inr (out, refl))

  collect_cases :
      (chosen : List ℕ)
      → ((outputs : List (List F)) × ((collect o cfg input chosen ≡ ok outputs)
            × Outputs chosen outputs))
        ⊎ ((e : GpuError) × ((collect o cfg input chosen ≡ err e) × FirstFailure chosen e))
  unfolding collect
  collect_cases [] = inl ([], (refl, no_experts))
  collect_cases (i ∷ chosen) = elim (reply_cases (expert_at o cfg.experts i input)) [
    | inl dropped ↦
        inr (unrecoverable (dropped_reply o), (rw (dropped, collect) refl, drops dropped))
    | inr (inl (e, failed)) ↦ inr (e, (rw (failed, collect) refl, fails failed))
    | inr (inr (out, answered)) ↦ elim (collect_cases chosen) [
      | inl (outputs, (same, all)) ↦
          inl (out ∷ outputs, (rw (answered, collect) (ap (push o out) same), output answered all))
      | inr (e, (same, first)) ↦
          inr (e, (rw (answered, collect) (ap (push o out) same), after answered first))
    ]
  ]

  pub data Outcome (result : Option (Result (List F))) : Type 0 where
    gate_failed : (e : GpuError) → cfg.gate input ≡ err e → result ≡ some (err e) → Outcome result
    miscounted :
        (scores : List F)
        → cfg.gate input ≡ ok scores
        → length scores ≢ length cfg.experts
        → result ≡ some (err (unrecoverable (wrong_count o (length scores) (length cfg.experts))))
        → Outcome result
    lost :
        (scores : List F)
        → cfg.gate input ≡ ok scores
        → length scores ≡ 0
        → length cfg.experts ≡ 0
        → result ≡ none
        → Outcome result
    failed :
        (scores : List F) (chosen : List ℕ) (e : GpuError)
        → cfg.gate input ≡ ok scores
        → length scores ≡ length cfg.experts
        → TopK o scores cfg.top_k chosen
        → FirstFailure chosen e
        → result ≡ some (err e)
        → Outcome result
    blended :
        (scores : List F) (chosen : List ℕ) (outputs : List (List F))
        → cfg.gate input ≡ ok scores
        → length scores ≡ length cfg.experts
        → TopK o scores cfg.top_k chosen
        → Outputs chosen outputs
        → result ≡ some (ok (blend o outputs (softmax o (map (at o scores) chosen))))
        → Outcome result

  run_chosen_lem :
      (scores : List F) (chosen : List ℕ)
      → choose o scores cfg.top_k ≡ some chosen
      → run_chosen o cfg input scores
        ≡ some (answer o (softmax o (map (at o scores) chosen)) (collect o cfg input chosen))
  unfolding run_chosen
  run_chosen_lem scores chosen e = rw (e, run_chosen) refl

  chosen-Outcome :
      IsOrdered o
      → (scores : List F) → cfg.gate input ≡ ok scores
      → length scores ≡ length cfg.experts
      → Outcome (run_chosen o cfg input scores)
  unfolding run_chosen
  chosen-Outcome laws scores g n = elim (choose-TopK o scores laws cfg.top_k) [
    | inl (z, c) ↦ lost scores g z (sym n ∙ z) (rw (c, run_chosen) refl)
    | inr (chosen, (c, top)) ↦ elim (collect_cases chosen) [
      | inl (outputs, (same, all)) ↦ blended scores chosen outputs g n top all (
          run_chosen_lem scores chosen c
          ∙ ap (λ r. some (answer o (softmax o (map (at o scores) chosen)) r)) same)
      | inr (e, (same, first)) ↦ failed scores chosen e g n top first (
          run_chosen_lem scores chosen c
          ∙ ap (λ r. some (answer o (softmax o (map (at o scores) chosen)) r)) same)
    ]
  ]

  gate_cases : (r : Result (List F)) → ((s : List F) × (r ≡ ok s)) ⊎ ((e : GpuError) × (r ≡ err e))
  gate_cases (ok s) = inl (s, refl)
  gate_cases (err e) = inr (e, refl)

  -- When no score is NaN, so that scores are ordered: the answer of a router is the error of its gate; or an
  -- error that names the counts, if the gate does not give one score for each expert; or none, since the
  -- task panics, when there are no experts; or the error of the first expert, in the order of the choice,
  -- that fails or drops its reply; or the blend of all outputs with the softmax of their scores. The experts
  -- that are chosen are top_k of them, but at least one and at most all, in the order of their scores,
  -- and none of the others has a greater score.
  pub handle_run-Outcome : IsOrdered o → Outcome (handle_run o cfg input)
  unfolding handle_run
  handle_run-Outcome laws = elim (gate_cases (cfg.gate input)) [
    | inr (e, g) ↦ gate_failed e g (rw (g, handle_run) refl)
    | inl (scores, g) ↦ elim (Bool-cases (length scores == length cfg.experts)) [
      | inl same ↦
          rw (g, same, handle_run)
            (chosen-Outcome laws scores g ((==_iff (length scores) (length cfg.experts)).0 same))
      | inr other ↦
          miscounted scores g (λ e. ground (arith, e, other)) (rw (g, other, handle_run) refl)
    ]
  ]
