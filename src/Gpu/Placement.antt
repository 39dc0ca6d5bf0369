-- ===== src/Gpu/Placement.antt =====
-- crates/atomr-accel-cuda/src/placement/mod.rs: the actor that picks a device for a request. A device's
-- mailbox is named by a number; the poll timer is not modelled, its message is; a compute
-- capability is taken not to be negative.
pub mod Choice
pub mod Reported
pub mod Answer
use atomr_accel.Common.{
  ℕ, ◌+◌, ◌%◌, ◌≡◌, Bool, true, false, not, ◌&&◌, ◌||◌, ltb, leb, ◌==◌, Option, none, some, List,
  [], ◌∷◌, length, get_elem?, set, if◌then◌else◌, Text, text,
}
use atomr_accel.Gpu.Error.{unrecoverable, Result, ok, err}
use atomr_accel.Gpu.Device.Messages.{DeviceLoad}
use atomr_accel.Gpu.State.{u64_mod}

-- `priority` is not read by either policy.
pub record PlacementHints : Type 0 where
  pub min_free_bytes : ℕ
  pub min_compute_cap : Option (ℕ × ℕ)

pub record DeviceChoice : Type 0 where
  pub device_id : ℕ
  pub device : ℕ
  pub load : DeviceLoad

pub data Policy : Type 0 where
  round_robin : (cursor : ℕ) → Policy
  least_loaded : Policy

-- `usize` has 64 bits.
unfoldable pub choose_round_robin : ℕ → List (ℕ × DeviceLoad) → ℕ × Option ℕ
choose_round_robin cursor [] = (cursor, none)
choose_round_robin cursor (c ∷ cs) = (
  (cursor + 1) % u64_mod,
  elim (get_elem? (c ∷ cs) (cursor % length (c ∷ cs))) [ none ↦ none | some x ↦ some (x.0) ],
)

-- The two `continue`s of the loop, negated.
unfoldable pub is_eligible : PlacementHints → DeviceLoad → Bool
is_eligible hints load =
    not (ltb load.free_bytes hints.min_free_bytes) && elim hints.min_compute_cap [
      | none ↦ true
      | some cap ↦ not (
          ltb (load.compute_cap.0) (cap.0)
          || (load.compute_cap.0 == cap.0 && ltb (load.compute_cap.1) (cap.1)))
    ]

-- A sum of two `u32` in `u64`, which cannot overflow.
unfoldable pub score : DeviceLoad → ℕ
score load = load.queue_depth + load.active_streams

unfoldable pub better : Option (ℕ × ℕ) → ℕ → ℕ → Option (ℕ × ℕ)
better none id s = some (id, s)
better (some (id', s')) id s = if ltb s s' then some (id, s) else some (id', s')

unfoldable pub choose_loop :
    PlacementHints → Option (ℕ × ℕ) → List (ℕ × DeviceLoad) → Option (ℕ × ℕ)
unfolding is_eligible score better
choose_loop hints best [] = best
choose_loop hints best ((id, load) ∷ cs) =
    choose_loop hints (if is_eligible hints load then better best id (score load) else best) cs

unfoldable pub choose_least_loaded : PlacementHints → List (ℕ × DeviceLoad) → Option ℕ
unfolding choose_loop
choose_least_loaded hints cs = elim (choose_loop hints none cs) [
  | none ↦ none
  | some x ↦ some (x.0)
]

unfoldable pub choose : Policy → PlacementHints → List (ℕ × DeviceLoad) → Policy × Option ℕ
unfolding choose_round_robin choose_least_loaded
choose (round_robin cursor) hints cs =
    let (cursor', id) = choose_round_robin cursor cs in (round_robin cursor', id)
choose least_loaded hints cs = (least_loaded, choose_least_loaded hints cs)

pub record PlacementActor : Type 0 where
  pub devices : List (ℕ × ℕ)
  pub loads : List DeviceLoad
  pub policy : Policy

unfoldable pub idle : DeviceLoad
idle = record {
  free_bytes = 0;
  total_bytes = 0;
  active_streams = 0;
  queue_depth = 0;
  compute_cap = (0, 0);
}

unfoldable pub idle_loads : List (ℕ × ℕ) → List DeviceLoad
idle_loads [] = []
idle_loads (d ∷ ds) = idle ∷ idle_loads ds

unfoldable pub new : List (ℕ × ℕ) → Policy → PlacementActor
new devices policy = record { devices = devices; loads = idle_loads devices; policy = policy }

unfoldable pub zip_loads : List (ℕ × ℕ) → List DeviceLoad → List (ℕ × DeviceLoad)
zip_loads [] loads = []
zip_loads (d ∷ ds) [] = []
zip_loads (d ∷ ds) (l ∷ ls) = (d.0, l) ∷ zip_loads ds ls

unfoldable pub position : ℕ → List (ℕ × ℕ) → Option ℕ
position id [] = none
position id (d ∷ ds) =
    let rest = position id ds in
    if d.0 == id then some 0 else elim rest [ none ↦ none | some n ↦ some (n + 1) ]

unfoldable pub no_device : Text
no_device = text "placement: no eligible device"

-- `none` where `unwrap` or an index panics.
unfoldable pub device_choice : PlacementActor → ℕ → Option DeviceChoice
unfolding position
device_choice a id = elim (position id a.devices) [
  | none ↦ none
  | some pos ↦ elim (get_elem? a.devices pos) [
    | none ↦ none
    | some d ↦ elim (get_elem? a.loads pos) [
      | none ↦ none
      | some load ↦ some (record { device_id = id; device = d.1; load = load })
    ]
  ]
]

unfoldable pub handle_pick :
    PlacementActor → PlacementHints → PlacementActor × Option (Result DeviceChoice)
unfolding choose zip_loads device_choice
handle_pick a hints =
    let (policy, id) = choose a.policy hints (zip_loads a.devices a.loads) in
    (
      record a { policy = policy },
      elim id [
        | none ↦ some (err (unrecoverable no_device))
        | some n ↦ elim (device_choice a n) [ none ↦ none | some c ↦ some (ok c) ]
      ],
    )

-- `PollStats`: one `Stats` request per device, each with the slot that its reply goes to.
unfoldable pub poll_from : ℕ → List (ℕ × ℕ) → List (ℕ × ℕ)
poll_from i [] = []
poll_from i (d ∷ ds) = (d.1, i) ∷ poll_from (i + 1) ds

unfoldable pub handle_poll_stats : PlacementActor → List (ℕ × ℕ)
unfolding poll_from
handle_poll_stats a = poll_from 0 a.devices

unfoldable pub handle_stats_update : PlacementActor → ℕ → DeviceLoad → PlacementActor
handle_stats_update a slot load = record a { loads = set a.loads slot load }

pub data PlacementMsg : Type 0 where
  pick : (hints : PlacementHints) → PlacementMsg
  poll_stats : PlacementMsg
  stats_update : (slot : ℕ) (load : DeviceLoad) → PlacementMsg

pub data Outcome : Type 0 where
  picked : (choice : Option (Result DeviceChoice)) → Outcome
  polls : (requests : List (ℕ × ℕ)) → Outcome
  silent : Outcome

unfoldable pub handle : PlacementActor → PlacementMsg → PlacementActor × Outcome
unfolding handle_pick handle_poll_stats handle_stats_update
handle a (pick hints) = let (a', choice) = handle_pick a hints in (a', picked choice)
handle a poll_stats = (a, polls (handle_poll_stats a))
handle a (stats_update slot load) = (handle_stats_update a slot load, silent)

unfoldable pub run : PlacementActor → List PlacementMsg → PlacementActor
unfolding handle
run a [] = a
run a (m ∷ ms) = run ((handle a m).0) ms
