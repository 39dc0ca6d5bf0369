-- ===== src/Patterns/MoreExamples.antt =====
-- A hot swap and a router of experts on small inputs.
use atomr_accel.Common.{
  ℕ, ◌+◌, ◌-◌, ◌*◌, ◌/◌, max, ◌≡◌, some, none, List, [], ◌∷◌, ltb, ◌==◌, map, arith,
}
use atomr_accel.Gpu.Error.{ok}
use atomr_accel.Patterns.HotSwap
use atomr_accel.Patterns.HotSwap.{HotSwapMsg, predict, swap_in, stats, told, new_server}
use atomr_accel.Patterns.HotSwap.Routing.{handle-expected}
use atomr_accel.Patterns.Moe.{Scalar, MoeConfig, handle_run}
use atomr_accel.Patterns.Moe.TopK.{IsOrdered}
use atomr_accel.Patterns.Moe.Answer.{Outcome, handle_run-Outcome}

abbrev swapped_twice : List (HotSwapMsg ℕ)
swapped_twice = predict 5 100 ∷ swap_in 8 101 ∷ predict 6 102 ∷ swap_in 9 103 ∷ []

handle-expected_example :
    (HotSwap.handle {Req = ℕ} (HotSwap.run (new_server 7) swapped_twice) (predict 5 104)).1
    ≡ told 9 5 104 ∷ []
handle-expected_example = handle-expected 7 swapped_twice (predict 5 104)

abbrev whole : Scalar ℕ
whole = record {
  neg_infinity = 0;
  zero_f = 0;
  add = λ a b. a + b;
  sub = λ a b. a - b;
  mul = λ a b. a * b;
  div = λ a b. a / b;
  max_f = λ a b. max a b;
  exp = λ a. a + 1;
  is_zero = λ a. a == 0;
  less = ltb;
}

whole-IsOrdered : IsOrdered whole
whole-IsOrdered = record {
  asymmetric = λ x y h. ground arith;
  not_less_trans = λ x y z h k. ground arith;
}

-- Three experts, of which the gate prefers the last one and the first.
abbrev experts : MoeConfig ℕ
experts = record {
  experts =
      (λ v. some (ok (map (λ x. x + 10) v)))
      ∷ (λ v. none)
      ∷ (λ v. some (ok (map (λ x. x + 100) v)))
      ∷ [];
  gate = λ v. ok (3 ∷ 1 ∷ 4 ∷ []);
  top_k = 2;
}

handle_run-Outcome_example :
    Outcome whole experts (1 ∷ 2 ∷ []) (handle_run whole experts (1 ∷ 2 ∷ []))
handle_run-Outcome_example = handle_run-Outcome whole experts (1 ∷ 2 ∷ []) whole-IsOrdered
