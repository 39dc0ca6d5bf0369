-- ===== src/Patterns/HotSwap.antt =====
-- crates/atomr-accel-patterns/src/hot_swap.rs: `ModelHotSwapServer`. A backend is the number of its mailbox; the
-- counters are taken to stay within their types.
pub mod Routing
use atomr_accel.Common.{ℕ, ◌+◌, List, [], ◌∷◌}

pub record HotSwapStats : Type 0 where
  pub generation : ℕ
  pub predicted : ℕ
  pub swaps : ℕ

pub record ModelHotSwapServer : Type 0 where
  pub current : ℕ
  pub generation : ℕ
  pub predicted : ℕ
  pub swaps : ℕ

module _ (Req : Type 0) where
  -- Each with the channel of the reply.
  pub data HotSwapMsg : Type 0 where
    predict : Req → ℕ → HotSwapMsg
    swap_in : ℕ → ℕ → HotSwapMsg
    stats : ℕ → HotSwapMsg

  -- A message to a backend with the channel to answer on, or an answer.
  pub data Effect : Type 0 where
    told : ℕ → Req → ℕ → Effect
    replied : ℕ → HotSwapStats → Effect

unfoldable pub new_server : ℕ → ModelHotSwapServer
new_server initial = record { current = initial; generation = 0; predicted = 0; swaps = 0 }

unfoldable pub stats_of : ModelHotSwapServer → HotSwapStats
stats_of s = record { generation = s.generation; predicted = s.predicted; swaps = s.swaps }

module _ {Req : Type 0} where
  unfoldable pub handle :
      ModelHotSwapServer → HotSwapMsg Req → ModelHotSwapServer × List (Effect Req)
  unfolding stats_of
  handle s (predict req reply) =
      (record s { predicted = s.predicted + 1 }, told s.current req reply ∷ [])
  handle s (swap_in backend reply) =
      let swapped : ModelHotSwapServer = record s {
        current = backend;
        generation = s.generation + 1;
        swaps = s.swaps + 1;
      } in
      (swapped, replied reply (stats_of swapped) ∷ [])
  handle s (stats reply) = (s, replied reply (stats_of s) ∷ [])

  -- A mailbox, message after message.
  abbrev pub run : ModelHotSwapServer → List (HotSwapMsg Req) → ModelHotSwapServer
  run s [] = s
  run s (m ∷ ms) = run ((handle s m).0) ms
