-- ===== src/Patterns/HotSwap/Routing.antt =====
-- hot_swap.rs: where a prediction goes, and what the counters say, by the messages that came before.
use atomr_accel.Common.{ℕ, ◌+◌, ◌≡◌, refl, ap, ◌∙◌, List, [], ◌∷◌, arith, length}
use atomr_accel.Patterns.HotSwap.{
  HotSwapStats, ModelHotSwapServer, HotSwapMsg, predict, swap_in, stats, Effect, told, replied,
  new_server, stats_of, handle, run,
}

abbrev pub first_or : ℕ → List ℕ → ℕ
first_or n [] = n
first_or n (x ∷ xs) = x

abbrev pub counted : List ℕ → ℕ → HotSwapStats
counted swapped predicted = record {
  generation = length swapped;
  predicted = predicted;
  swaps = length swapped;
}

-- The state that a server is in.
abbrev state_of : ℕ → List ℕ → ℕ → ModelHotSwapServer
state_of initial swapped predicted = record {
  current = first_or initial swapped;
  generation = length swapped;
  predicted = predicted;
  swaps = length swapped;
}

module _ {Req : Type 0} where
  -- The backends that were swapped in, the last one first.
  abbrev pub swapped_in : List (HotSwapMsg Req) → List ℕ → List ℕ
  swapped_in [] seen = seen
  swapped_in (predict req reply ∷ ms) seen = swapped_in ms seen
  swapped_in (swap_in backend reply ∷ ms) seen = swapped_in ms (backend ∷ seen)
  swapped_in (stats reply ∷ ms) seen = swapped_in ms seen

  abbrev pub predictions : List (HotSwapMsg Req) → ℕ
  predictions [] = 0
  predictions (predict req reply ∷ ms) = 1 + predictions ms
  predictions (swap_in backend reply ∷ ms) = predictions ms
  predictions (stats reply ∷ ms) = predictions ms

  -- What is sent for a message after others, by those that came before it.
  abbrev pub expected : ℕ → List (HotSwapMsg Req) → HotSwapMsg Req → Effect Req
  expected initial before (predict req reply) =
      told (first_or initial (swapped_in before [])) req reply
  expected initial before (swap_in backend reply) =
      replied reply (counted (backend ∷ swapped_in before []) (predictions before))
  expected initial before (stats reply) =
      replied reply (counted (swapped_in before []) (predictions before))

  run-state_of :
      (initial : ℕ) (ms : List (HotSwapMsg Req)) (swapped : List ℕ) (predicted : ℕ)
      → run (state_of initial swapped predicted) ms
        ≡ state_of initial (swapped_in ms swapped) (predicted + predictions ms)
  unfolding handle
  run-state_of initial [] swapped predicted = ap (state_of initial swapped) (omega arith)
  run-state_of initial (predict req reply ∷ ms) swapped predicted =
      run-state_of initial ms swapped (predicted + 1)
      ∙ ap (state_of initial (swapped_in ms swapped)) (omega arith)
  run-state_of initial (swap_in backend reply ∷ ms) swapped predicted =
      ap
        (λ n.
          run (record { current = backend; generation = n; predicted = predicted; swaps = n }) ms)
        (omega arith)
      ∙ run-state_of initial ms (backend ∷ swapped) predicted
  run-state_of initial (stats reply ∷ ms) swapped predicted =
      run-state_of initial ms swapped predicted

  handle-state_of :
      (initial : ℕ) (before : List (HotSwapMsg Req)) (m : HotSwapMsg Req)
      → (handle (state_of initial (swapped_in before []) (predictions before)) m).1
        ≡ expected initial before m ∷ []
  unfolding handle stats_of
  handle-state_of initial before (predict req reply) = refl
  handle-state_of initial before (swap_in backend reply) =
      ap
        (λ n.
          replied reply (record { generation = n; predicted = predictions before; swaps = n }) ∷ [])
        (omega arith)
  handle-state_of initial before (stats reply) = refl

  -- For a server that started with a backend: each message is followed by one thing sent. A prediction
  -- goes to the backend that was swapped in last, or the first one if none was. The answer to a swap
  -- and to `Stats` counts the swaps and the predictions up to it, and the generation is the number of
  -- swaps.
  pub handle-expected :
      (initial : ℕ) (before : List (HotSwapMsg Req)) (m : HotSwapMsg Req)
      → (handle (run (new_server initial) before) m).1 ≡ expected initial before m ∷ []
  unfolding new_server
  handle-expected initial before m =
      ap (λ s. (handle s m).1)
        (run-state_of initial before [] 0
          ∙ ap (state_of initial (swapped_in before [])) (omega arith))
      ∙ handle-state_of initial before m
