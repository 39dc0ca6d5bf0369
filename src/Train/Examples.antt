-- ===== src/Train/Examples.antt =====
-- Workers that push gradients of different ages, and pull.
use atomr_accel.Common.{ℕ, ◌-◌, ◌*◌, ◌/◌, ◌≤◌, ◌≡◌, List, [], ◌∷◌, All}
use atomr_accel.Train.Parameters.{
  Scalar, sgd, ParameterServerMsg, push_gradient, pull_weights, new_server, run,
}
use atomr_accel.Train.Parameters.Staleness.{run-applied}

abbrev whole : Scalar ℕ
whole = record { zero_f = 0; sub = λ a b. a - b; mul = λ a b. a * b; ratio = λ a b. a / b }

-- With at most one version between: the last gradient is two versions old.
abbrev pushes : List (ParameterServerMsg ℕ)
pushes =
    push_gradient 1 0 (1 ∷ 2 ∷ []) 100
    ∷ push_gradient 2 0 (3 ∷ []) 101
    ∷ pull_weights 1 102
    ∷ push_gradient 3 0 (50 ∷ 50 ∷ []) 103
    ∷ []

run-applied_example :
    let s = run whole (new_server whole (100 ∷ 200 ∷ []) (sgd 2 0 0) 1) pushes in
    (s ≡ record {
      weights = 92 ∷ 196 ∷ [];
      version = 2;
      optimizer = sgd 2 0 0;
      max_staleness = 1;
      gradients_applied = 2;
      weights_pulled = 1;
      staleness_window = 0 ∷ 1 ∷ [];
    })
    × All (λ a. a ≤ 1) s.staleness_window
run-applied_example = run-applied whole 1 (100 ∷ 200 ∷ []) (sgd 2 0 0) pushes
