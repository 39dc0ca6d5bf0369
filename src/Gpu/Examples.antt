-- ===== src/Gpu/Examples.antt =====
-- Runs of the device, reference, pool and placement models on small inputs.
use atomr_accel.Common.{
  Text, ℕ, ◌+◌, false, ◌≡◌, refl, ◌↔◌, true, false, ◌==◌, some, List, [], ◌∷◌, count, if◌then◌else◌,
  arith, text,
}
use atomr_accel.Gpu.Error.{
  GpuError, out_of_memory, unrecoverable, gpu_ref_stale, ok, err, decide_str, panic_message, decide,
  payload_tagged,
}
use atomr_accel.Gpu.Error.Routing.{decide_str-panic_message}
use atomr_accel.Gpu.State
use atomr_accel.Gpu.State.{Watch, Op, bump, install, DeviceState, u64_mod}
use atomr_accel.Gpu.Ref
use atomr_accel.Gpu.Ref.{
  Slice, access, raw_device_ptr, record_write, shutting_down, context_rebuilt,
}
use atomr_accel.Gpu.Ref.Validity.{access-new-run, bumps, shuts_down}
use atomr_accel.Gpu.Device.Messages.{DeviceMsg, KernelChildren, DeviceLoad}
use atomr_accel.Gpu.Device.Handler
use atomr_accel.Gpu.Device.Handler.{DeviceConfig, DeviceActor, pre_start, post_stop, snapshot_load}
use atomr_accel.Gpu.Device.Fifo.{Kept, works, work_of, run-Kept}
use atomr_accel.Gpu.Device.Settled.{all_owed, waiting}
use atomr_accel.Gpu.Device.Answered.{
  given_up, served, told_stale, dropped_of, products, boxed_of, post_stop-run-served,
}
use atomr_accel.Gpu.Pinned.{minted_at, Config, try_acquire, new_pool, pool_full}
use atomr_accel.Gpu.Pinned.Accounts
use atomr_accel.Gpu.Pinned.Accounts.{acquire, give_back, new_system, IsBalanced, taken}
use atomr_accel.Gpu.Pinned.Balance.{run-IsBalanced, Lends, Serves, try_acquire-run}
use atomr_accel.Gpu.Pinned.Drift.{fail_times, try_acquire-fail_times}
use atomr_accel.Gpu.Placement
use atomr_accel.Gpu.Placement.{
  PlacementHints, PlacementMsg, pick, poll_stats, stats_update, least_loaded, choose_least_loaded,
  handle_pick, no_device,
}
use atomr_accel.Gpu.Placement.Reported.{FromDevices, handle_pick-reported}
use atomr_accel.Gpu.Placement.Answer.{IsAnswer, ids, handle_pick-run}

-- An error that holds the tag of another kind.
abbrev nested : GpuError
nested = unrecoverable (text "wrapped: CUDA_CONTEXT_POISONED: ecc")

decide_str-panic_message_example :
    (decide_str (panic_message nested) ≡ decide nested) ↔ (payload_tagged nested ≡ false)
decide_str-panic_message_example = decide_str-panic_message nested

-- A watch channel that keeps the last value.
abbrev last_value : Watch
last_value = record { Sender = ℕ; channel = λ n. n; send = λ s n. n }

abbrev device_state : DeviceState last_value
device_state = State.new last_value 3

abbrev slice : Slice
slice = record { ptr = 4096; elements = 16 }

abbrev rebuilt : List Op
rebuilt = install 7 ∷ bump ∷ []

access-new-run_example :
    let verdict = λ (A : Type 0) (a : A).
      if shuts_down rebuilt
      then err (gpu_ref_stale shutting_down)
      else if bumps rebuilt == 0
      then ok a
      else err (gpu_ref_stale context_rebuilt) in
    let r = record_write 2 (Ref.new last_value slice device_state) in
    (access last_value (some (State.run last_value device_state rebuilt)) r ≡ verdict Slice slice)
    × (raw_device_ptr last_value (some (State.run last_value device_state rebuilt)) r
        ≡ verdict ℕ slice.ptr)
unfolding State.new bumps
access-new-run_example =
    access-new-run last_value device_state rebuilt slice 2 refl (omega arith) (omega arith)

abbrev config : DeviceConfig
config = record {
  device_id = 3;
  mock_mode = true;
  pending_queue_capacity = 3;
  enabled_libraries = 1;
}

abbrev fresh : DeviceActor last_value ℕ
fresh = pre_start last_value ℕ 11 (Handler.new last_value ℕ config)

abbrev children : KernelChildren
children = record { blas = 5; others = 6 }

-- Work before the context is ready, the context, more work, the loss, and work after it.
abbrev history : List (DeviceMsg ℕ)
history =
    DeviceMsg.allocate_f32 64 100
    ∷ DeviceMsg.context_ready children
    ∷ DeviceMsg.allocate_f64 8 101
    ∷ DeviceMsg.context_lost
    ∷ DeviceMsg.allocate_f32 4 102
    ∷ DeviceMsg.stats 103
    ∷ []

run-Kept_example :
    Kept last_value ℕ fresh (works last_value ℕ history) (Handler.run last_value ℕ fresh history)
unfolding pre_start Handler.new works work_of Handler.translate
run-Kept_example =
    run-Kept last_value ℕ fresh history (record { started = refl; queued = refl; drained = refl })
      (omega arith)

post_stop-run-served_example :
    let (d, out) = Handler.run last_value ℕ fresh history in
    let (stopped, final) = post_stop last_value ℕ d in
    (count 101 (served out) + count 101 (waiting d.pending)
      ≡ count 101 (waiting fresh.pending) + count 101 (all_owed history))
    × ((given_up out ≡ [])
        × ((count 101 (told_stale final) ≡ count 101 (products d.pending))
            × ((count 101 (dropped_of final) ≡ count 101 (boxed_of d.pending))
                × (stopped.pending ≡ []))))
unfolding pre_start Handler.new works work_of Handler.translate
post_stop-run-served_example = post_stop-run-served last_value ℕ 101 fresh history (omega arith)

abbrev small : Config
small = record {
  initial_buffers = 0;
  max_buffers = 2;
  buffer_capacity_bytes = 64;
  allow_oversize = true;
}

abbrev uses : List Accounts.Op
uses = acquire 10 1000 ∷ acquire 100 2000 ∷ give_back 1 ∷ acquire 20 3000 ∷ []

run-IsBalanced_example : IsBalanced (Accounts.run (new_system small) uses)
run-IsBalanced_example = run-IsBalanced small uses

try_acquire-run_example :
    let p = (Accounts.run (new_system small) uses).pool in
    Lends 32 (taken ((try_acquire p 32 (minted_at 4000)).1)) ↔ Serves p 32
try_acquire-run_example = try_acquire-run small uses 32 4000

abbrev no_memory : Text
no_memory = []

try_acquire-fail_times_example :
    let p = fail_times no_memory small.max_buffers 16 (new_pool small) in
    (p.free ≡ [])
    × ((p.in_use ≡ 0)
        × (try_acquire p 16 (minted_at 8) ≡ (p, err (out_of_memory (pool_full small.max_buffers)))))
try_acquire-fail_times_example =
    try_acquire-fail_times no_memory small 16 (minted_at 8) (omega arith)

abbrev hints : PlacementHints
hints = record { min_free_bytes = 1; min_compute_cap = some (8, 0) }

abbrev load : DeviceLoad
load = record {
  free_bytes = 100;
  total_bytes = 200;
  active_streams = 1;
  queue_depth = 2;
  compute_cap = (9, 0);
}

abbrev candidates : List (ℕ × DeviceLoad)
candidates = (0, load) ∷ (1, record load { queue_depth = 0 }) ∷ []

abbrev devices : List (ℕ × ℕ)
devices = (0, 50) ∷ (1, 51) ∷ []

handle_pick-run_example :
    let a = Placement.run (Placement.new devices least_loaded) (stats_update 1 load ∷ []) in
    IsAnswer hints a ((handle_pick a hints).1)
unfolding ids
handle_pick-run_example =
    handle_pick-run devices (stats_update 1 load ∷ []) hints (refl, (refl, tt))

abbrev reports : List PlacementMsg
reports = poll_stats ∷ stats_update 0 (snapshot_load last_value ℕ fresh) ∷ pick hints ∷ []

handle_pick-reported_example :
    (handle_pick (Placement.run (Placement.new devices least_loaded) reports) hints).1
    ≡ some (err (unrecoverable no_device))
unfolding FromDevices
handle_pick-reported_example =
    handle_pick-reported last_value ℕ devices reports hints ((fresh, refl), tt) (omega arith)
