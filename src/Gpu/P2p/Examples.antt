-- ===== src/Gpu/P2p/Examples.antt =====
-- Runs of the peer-to-peer topology on small inputs.
use atomr_accel.Common.{
  ℕ, ◌≡◌, refl, ltb, true, false, none, some, Option, List, [], ◌∷◌, length, IsDistinct, mem, All,
}
use atomr_accel.Gpu.State
use atomr_accel.Common.{◌≢◌, ◌↔◌, ◌<◌, ◌≤◌, ◌⊎◌, arith}
use atomr_accel.Gpu.Error.{GpuError, ok}
use atomr_accel.Gpu.State
use atomr_accel.Gpu.State.{Watch, DeviceState}
use atomr_accel.Gpu.Context.{Buffers}
use atomr_accel.Gpu.P2p.Topology.{
  P2pMsg, enable_all, refresh_device, Effect, reply_error, handle_can_access, handle_copy,
  handle_refresh, run,
}
use atomr_accel.Gpu.P2p.Guarded.{inside, copy-run}
use atomr_accel.Gpu.P2p.{P2pGraph, can_pair, islands}
use atomr_accel.Gpu.P2p.Islands.{members, IsIsland, islands_lem}
use atomr_accel.Gpu.P2p.Topology.{Peers, P2pTopology, new, reply_graph, handle_enable_all}
use atomr_accel.Gpu.P2p.Squares.{Reaches, can_pair-enable_all}

-- 0 reaches 2, and 1 and 3 stand alone.
abbrev two_linked : P2pGraph
two_linked = record {
  edges =
      (true ∷ false ∷ true ∷ false ∷ [])
      ∷ (false ∷ true ∷ false ∷ false ∷ [])
      ∷ (false ∷ false ∷ true ∷ false ∷ [])
      ∷ (false ∷ false ∷ false ∷ true ∷ [])
      ∷ [];
  device_count = 4;
}

islands_lem_example :
    (out : List (List ℕ)) × ((islands two_linked ≡ some out)
      × (IsDistinct (members out)
          × (((v : ℕ) → mem v (members out) ≡ ltb v 4) × All (IsIsland two_linked) out)))
islands_lem_example = islands_lem two_linked

islands_run : islands two_linked ≡ some ((0 ∷ 2 ∷ []) ∷ (1 ∷ []) ∷ (3 ∷ []) ∷ [])
unfolding islands
islands_run = refl

abbrev pairs : Peers
pairs = record { loadable = true; can_access = λ a b. ltb a b; enable = λ a b. true }

abbrev topology : P2pTopology
topology = new (70 ∷ 71 ∷ 72 ∷ [])

abbrev contexts : List (Option ℕ)
contexts = some 7 ∷ none ∷ some 9 ∷ []

can_pair-enable_all_example :
    let (t', out) = handle_enable_all topology pairs contexts 100 in
    ((can_pair t'.graph 0 2 ≡ some true) ↔ (
      ((0 < length topology.devices) × (2 < length topology.devices)) × Reaches pairs contexts 0 2))
    × (((can_pair t'.graph 0 2 ≡ none)
          ↔ ((length topology.devices ≤ 0) ⊎ (length topology.devices ≤ 2)))
        × ((out ≡ reply_graph 100 (ok t'.graph) ∷ []) × (t'.enabled ≡ true)))
can_pair-enable_all_example = can_pair-enable_all topology pairs contexts 100 0 2 refl

abbrev silent_watch : Watch
silent_watch = record { Sender = Unit {0}; channel = λ n. tt; send = λ s n. s }

abbrev state : DeviceState silent_watch
state = State.new silent_watch 0

abbrev buffers : Buffers silent_watch
buffers = record {
  device_ref = λ n. record {
    slice = record { ptr = n; elements = 16 };
    generation = 0;
    last_write_stream = none;
  };
  owner = λ _. some state;
  strong_count = λ _. 1;
  host_len = λ _. 16;
}

abbrev asked : List (Buffers silent_watch × P2pMsg)
asked = (buffers, refresh_device 1 (some 8)) ∷ (buffers, enable_all pairs contexts 100) ∷ []

abbrev enabled : P2pTopology
enabled = (handle_enable_all (handle_refresh topology 1 (some 8)) pairs contexts 100).0

abbrev answers : List Effect
answers = (handle_enable_all (handle_refresh topology 1 (some 8)) pairs contexts 100).1

asked-runs : run silent_watch topology asked ≡ some (enabled, answers)
unfolding run handle_enable_all
asked-runs = refl

copy-run_example :
    ((handle_copy silent_watch enabled buffers 1 0 2 5 none 101 ≡ none)
      ↔ ((enabled.enabled ≡ true) × (inside silent_watch (70 ∷ 71 ∷ 72 ∷ []) 0 5 ≡ false)))
    × (((handle_copy silent_watch enabled buffers 1 0 2 5 none 101 ≡ none)
          ⊎ ((e : GpuError) × (handle_copy silent_watch enabled buffers 1 0 2 5 none 101
                ≡ some (reply_error 101 e))))
        × (◌≢◌ {A = ℕ} 0 5
            → inside silent_watch (70 ∷ 71 ∷ 72 ∷ []) 0 5 ≡ false
            → handle_can_access enabled 0 5 ≡ false))
copy-run_example =
    copy-run silent_watch (70 ∷ 71 ∷ 72 ∷ []) asked enabled answers buffers 1 0 2 5 none 101
      asked-runs (omega arith)
