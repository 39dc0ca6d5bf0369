-- ===== src/Train/Parameters/Staleness.antt =====
-- parameter_server.rs: the gradients that are applied, and what the state keeps of them.
use mathlib.Core.Path.{subst}
use atomr_accel.Common.{
  ℕ, suc, ◌+◌, ◌-◌, ◌≤◌, ◌≡◌, refl, sym, ap, ◌∙◌, true, false, Bool-cases, inl, inr, List, [], ◌∷◌,
  ◌++◌, length, length-append, length-drop, drop-append_left, drop_one-drop, drop, All, ltb, leb,
  if◌then◌else◌, arith, append_assoc, append-nil, All-drop,
}
use atomr_accel.Train.Parameters.{
  Scalar, OptimizerKind, learning_rate, ParameterServerMsg, push_gradient, pull_weights, get_stats,
  AsyncParameterServer, push_window, new_server, descend, apply_gradient, push, handle, run,
}

-- The last 128 of a list.
abbrev pub last_ones : List ℕ → List ℕ
last_ones xs = drop (length xs - 128) xs

push_window-last_ones :
    (n : ℕ) (xs : List ℕ) → push_window n (last_ones xs) ≡ last_ones (xs ++ n ∷ [])
unfolding push_window
push_window-last_ones n xs =
    let old = length-drop (length xs - 128) xs in
    let kept = length-append (last_ones xs) (n ∷ []) in
    let all = length-append xs (n ∷ []) in
    elim (Bool-cases (ltb (length xs) 128)) [
      | inl few ↦
          let short : ltb 128 (length (last_ones xs ++ n ∷ [])) ≡ false =
            ground (arith, few, old, kept) in
          let a : length xs - 128 ≡ 0 = ground (arith, few) in
          let b : length (xs ++ n ∷ []) - 128 ≡ 0 = ground (arith, few, all) in
          rw short (ap (λ k. drop k xs ++ n ∷ []) a ∙ ap (λ k. drop k (xs ++ n ∷ [])) (sym b))
      | inr many ↦
          let long : ltb 128 (length (last_ones xs ++ n ∷ [])) ≡ true =
            ground (arith, many, old, kept) in
          let a : suc (length xs - 128) ≡ length (xs ++ n ∷ []) - 128 = ground (arith, many, all) in
          rw long (
            ap (drop 1) (sym (drop-append_left (length xs - 128) xs (n ∷ []) (omega arith)))
            ∙ drop_one-drop (length xs - 128) (xs ++ n ∷ [])
            ∙ ap (λ k. drop k (xs ++ n ∷ [])) a)
    ]

-- How old the gradients were, in order.
abbrev pub ages {ℓ} : {F : Type ℓ} → List (ℕ × List F) → List ℕ
ages [] = []
ages (g ∷ gs) = (g.0) ∷ ages gs

ages-append : {F : Type 0} (gs hs : List (ℕ × List F)) → ages (gs ++ hs) ≡ ages gs ++ ages hs
ages-append [] hs = refl
ages-append (g ∷ gs) hs = ap (λ xs. (g.0) ∷ xs) (ages-append gs hs)

module _ {F : Type 0} (o : Scalar F) (limit : ℕ) where
  -- The gradients that are not too old when `n` were applied before, each with how old it is.
  abbrev pub applied : ℕ → List (ParameterServerMsg F) → List (ℕ × List F)
  applied n [] = []
  applied n (push_gradient worker seen gradient reply ∷ ms) =
      let rest = applied n ms in
      let more = applied (n + 1) ms in
      if leb (n - seen) limit then (n - seen, gradient) ∷ more else rest
  applied n (pull_weights worker reply ∷ ms) = applied n ms
  applied n (get_stats reply ∷ ms) = applied n ms

  abbrev pub pulls : List (ParameterServerMsg F) → ℕ
  pulls [] = 0
  pulls (push_gradient worker seen gradient reply ∷ ms) = pulls ms
  pulls (pull_weights worker reply ∷ ms) = 1 + pulls ms
  pulls (get_stats reply ∷ ms) = pulls ms

  abbrev pub descend_all : F → List F → List (ℕ × List F) → List F
  descend_all lr weights [] = weights
  descend_all lr weights (g ∷ gs) = descend_all lr (descend o lr weights (g.1)) gs

  descend_all-append :
      (lr : F) (weights : List F) (gs hs : List (ℕ × List F))
      → descend_all lr weights (gs ++ hs) ≡ descend_all lr (descend_all lr weights gs) hs
  descend_all-append lr weights [] hs = refl
  descend_all-append lr weights (g ∷ gs) hs =
      descend_all-append lr (descend o lr weights (g.1)) gs hs

  ages-applied :
      (n : ℕ) (ms : List (ParameterServerMsg F)) → All (λ a. a ≤ limit) (ages (applied n ms))
  ages-applied n [] = tt
  ages-applied n (push_gradient worker seen gradient reply ∷ ms) =
      elim (Bool-cases (leb (n - seen) limit)) [
        | inl fresh ↦ rw fresh (ground (arith, fresh), ages-applied (n + 1) ms)
        | inr stale ↦ rw stale (ages-applied n ms)
      ]
  ages-applied n (pull_weights worker reply ∷ ms) = ages-applied n ms
  ages-applied n (get_stats reply ∷ ms) = ages-applied n ms

  module _ (initial : List F) (optimizer : OptimizerKind F) where
    -- The state by the gradients that were applied and the number of pulls.
    abbrev pub state_of : List (ℕ × List F) → ℕ → AsyncParameterServer F
    state_of gs p = record {
      weights = descend_all (learning_rate optimizer) initial gs;
      version = length gs;
      optimizer = optimizer;
      max_staleness = limit;
      gradients_applied = length gs;
      weights_pulled = p;
      staleness_window = last_ones (ages gs);
    }

    push-state_of :
        (gs : List (ℕ × List F)) (p : ℕ) (a : ℕ) (gradient : List F)
        → record (apply_gradient o (state_of gs p) gradient) {
          staleness_window = push_window a (last_ones (ages gs));
        }
          ≡ state_of (gs ++ (a, gradient) ∷ []) p
    unfolding apply_gradient
    push-state_of gs p a gradient =
        let n = length-append gs ((a, gradient) ∷ []) in
        let w = descend_all-append (learning_rate optimizer) initial gs ((a, gradient) ∷ []) in
        let l =
          push_window-last_ones a (ages gs)
          ∙ ap last_ones (sym (ages-append gs ((a, gradient) ∷ []))) in
        λ i. record {
          weights = (sym w) i;
          version = (sym n) i;
          optimizer = optimizer;
          max_staleness = limit;
          gradients_applied = (sym n) i;
          weights_pulled = p;
          staleness_window = l i;
        }

    run-state_of :
        (gs : List (ℕ × List F)) (p : ℕ) (ms : List (ParameterServerMsg F))
        → run o (state_of gs p) ms ≡ state_of (gs ++ applied (length gs) ms) (p + pulls ms)
    unfolding handle push
    run-state_of gs p [] =
        ap (λ hs. state_of hs p) (sym (append-nil gs)) ∙ ap (state_of (gs ++ [])) (omega arith)
    run-state_of gs p (push_gradient worker seen gradient reply ∷ ms) =
        let age = length gs - seen in
        elim (Bool-cases (leb age limit)) [
          | inl fresh ↦
              let kept : ltb limit age ≡ false = ground (arith, fresh) in
              rw (fresh, kept, handle, push)
                (ap (λ s. run o s ms) (push-state_of gs p age gradient)
                  ∙ run-state_of (gs ++ (age, gradient) ∷ []) p ms
                  ∙ ap (λ n. state_of ((gs ++ (age, gradient) ∷ []) ++ applied n ms) (p + pulls ms))
                      (length-append gs ((age, gradient) ∷ []))
                  ∙ ap (λ hs. state_of hs (p + pulls ms))
                      (append_assoc gs ((age, gradient) ∷ []) (applied (length gs + 1) ms)))
          | inr stale ↦
              let refused : ltb limit age ≡ true = ground (arith, stale) in
              rw (stale, refused, handle, push) (run-state_of gs p ms)
        ]
    run-state_of gs p (pull_weights worker reply ∷ ms) =
        run-state_of gs (p + 1) ms ∙ ap (state_of (gs ++ applied (length gs) ms)) (omega arith)
    run-state_of gs p (get_stats reply ∷ ms) = run-state_of gs p ms

    -- After any messages, from initial weights: the weights are what the descent by each accepted gradient
    -- in turn makes of them, the version is the number of the accepted gradients, as is the counter
    -- of those applied, the pulls are counted, and the window holds the ages of the last 128 accepted
    -- gradients. A gradient is accepted exactly if the versions since the one it was computed for are
    -- no more than the limit, and each age in the window is within the limit.
    pub run-applied :
        (ms : List (ParameterServerMsg F))
        → (run o (new_server o initial optimizer limit) ms ≡ state_of (applied 0 ms) (pulls ms))
          × All (λ a. a ≤ limit) (run o (new_server o initial optimizer limit) ms).staleness_window
    unfolding new_server
    run-applied ms =
        let same = run-state_of [] 0 ms ∙ ap (state_of (applied 0 ms)) (omega arith) in
        (
          same,
          subst (λ s. All (λ a. a ≤ limit) s.staleness_window) (sym same)
              (All-drop (λ a. a ≤ limit) (length (ages (applied 0 ms)) - 128) (ages (applied 0 ms))
                (ages-applied 0 ms)),
        )
