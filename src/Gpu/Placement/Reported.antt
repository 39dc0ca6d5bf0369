-- ===== src/Gpu/Placement/Reported.antt =====
-- placement/mod.rs: the tables over any run of the messages, and the loads that device actors report.
use atomr_accel.Common.{
  ℕ, zero, suc, ◌<◌, ◌≡◌, refl, ap, ◌∙◌, none, some, List, [], ◌∷◌, length, length-set, set, arith,
  All,
}
use atomr_accel.Gpu.State.{Watch}
use atomr_accel.Gpu.Error.{unrecoverable, err}
use atomr_accel.Gpu.Device.Messages.{DeviceLoad}
use atomr_accel.Gpu.Device.Handler.{DeviceActor, snapshot_load}
use atomr_accel.Gpu.Placement.{
  PlacementHints, PlacementActor, choose_loop, choose_least_loaded, is_eligible, least_loaded,
  choose, zip_loads, new, PlacementMsg, pick, poll_stats, stats_update, handle, handle_pick,
  handle_stats_update, run, idle, idle_loads, no_device,
}

pub length-idle_loads : (ds : List (ℕ × ℕ)) → length (idle_loads ds) ≡ length ds
unfolding idle_loads
length-idle_loads [] = refl
length-idle_loads (d ∷ ds) = ap suc (length-idle_loads ds)

unfoldable pub IsSized : List (ℕ × ℕ) → PlacementActor → Type 0
IsSized ds a = (a.devices ≡ ds) × (length a.loads ≡ length ds)

pub handle-IsSized :
    (ds : List (ℕ × ℕ)) (a : PlacementActor) (m : PlacementMsg)
    → IsSized ds a
    → IsSized ds ((handle a m).0)
unfolding handle handle_pick handle_stats_update IsSized
handle-IsSized ds a (pick hints) h = h
handle-IsSized ds a poll_stats h = h
handle-IsSized ds a (stats_update slot load) h = (h.0, length-set a.loads slot load ∙ h.1)

pub run-IsSized :
    (ds : List (ℕ × ℕ)) (a : PlacementActor) (ms : List PlacementMsg)
    → IsSized ds a
    → IsSized ds (run a ms)
unfolding run
run-IsSized ds a [] h = h
run-IsSized ds a (m ∷ ms) h = run-IsSized ds ((handle a m).0) ms (handle-IsSized ds a m h)

pub new-IsSized : (ds : List (ℕ × ℕ)) → IsSized ds (new ds least_loaded)
unfolding IsSized new
new-IsSized ds = (refl, length-idle_loads ds)

pub new_policy : (ds : List (ℕ × ℕ)) → (new ds least_loaded).policy ≡ least_loaded
unfolding new
new_policy ds = refl

-- The loads that a device actor's own reports can put into the table.
pub IsReported : DeviceLoad → Type 0
IsReported l = l.free_bytes ≡ 0

pub set-All :
    (P : DeviceLoad → Type 0) (ls : List DeviceLoad) (i : ℕ) (l : DeviceLoad)
    → All P ls
    → P l
    → All P (set ls i l)
set-All P [] i l h p = tt
set-All P (x ∷ xs) zero l h p = (p, h.1)
set-All P (x ∷ xs) (suc i) l h p = (h.0, set-All P xs i l h.1 p)

module _ (w : Watch) (F : Type 0) where
  -- Picks and polls come in any order, and a load that arrives is one that some device actor reports.
  unfoldable pub FromDevices : List PlacementMsg → Type 0
  FromDevices [] = Unit
  FromDevices (stats_update slot load ∷ ms) =
      ((d : DeviceActor w F) × (load ≡ snapshot_load w F d)) × FromDevices ms
  FromDevices (pick hints ∷ ms) = FromDevices ms
  FromDevices (poll_stats ∷ ms) = FromDevices ms

  pub run-IsReported :
      (a : PlacementActor) (ms : List PlacementMsg)
      → FromDevices ms
      → All IsReported a.loads
      → All IsReported (run a ms).loads
  unfolding FromDevices run handle handle_pick handle_stats_update IsReported snapshot_load
  run-IsReported a [] f h = h
  run-IsReported a (pick hints ∷ ms) f h = run-IsReported ((handle a (pick hints)).0) ms f h
  run-IsReported a (poll_stats ∷ ms) f h = run-IsReported a ms f h
  run-IsReported a (stats_update slot load ∷ ms) f h =
      run-IsReported ((handle a (stats_update slot load)).0) ms f.1
        (set-All IsReported a.loads slot load h (ap (λ l. l.free_bytes) f.0.1))

pub idle-IsReported : (ds : List (ℕ × ℕ)) → All IsReported (idle_loads ds)
unfolding idle_loads IsReported idle
idle-IsReported [] = tt
idle-IsReported (d ∷ ds) = (refl, idle-IsReported ds)

pub none_eligible :
    (hints : PlacementHints) (ds : List (ℕ × ℕ)) (ls : List DeviceLoad)
    → 0 < hints.min_free_bytes
    → All IsReported ls
    → choose_loop hints none (zip_loads ds ls) ≡ none
unfolding choose_loop zip_loads is_eligible IsReported
none_eligible hints [] ls h r = refl
none_eligible hints (d ∷ ds) [] h r = refl
none_eligible hints (d ∷ ds) (l ∷ ls) h r = ground (arith, none_eligible hints ds ls h r.1, r.0)

pub handle_pick-starved :
    (hints : PlacementHints) (a : PlacementActor)
    → choose_loop hints none (zip_loads a.devices a.loads) ≡ none
    → a.policy ≡ least_loaded
    → (handle_pick a hints).1 ≡ some (err (unrecoverable no_device))
unfolding handle_pick choose choose_least_loaded
handle_pick-starved hints a n p = ground (arith, n, p)

pub run-policy :
    (a : PlacementActor) (ms : List PlacementMsg)
    → a.policy ≡ least_loaded
    → (run a ms).policy ≡ least_loaded
unfolding run handle handle_pick handle_stats_update choose
run-policy a [] h = h
run-policy a (pick hints ∷ ms) h = run-policy ((handle a (pick hints)).0) ms (ground (arith, h))
run-policy a (poll_stats ∷ ms) h = run-policy a ms h
run-policy a (stats_update slot load ∷ ms) h =
    run-policy ((handle a (stats_update slot load)).0) ms h

-- Under the least-loaded policy, with loads that only device actors report, a pick that asks for any free memory at
-- all is refused with "no eligible device", whatever devices there are and whatever they have reported.
pub handle_pick-reported :
    (w : Watch) (F : Type 0) (ds : List (ℕ × ℕ)) (ms : List PlacementMsg) (hints : PlacementHints)
    → FromDevices w F ms
    → 0 < hints.min_free_bytes
    → (handle_pick (run (new ds least_loaded) ms) hints).1 ≡ some (err (unrecoverable no_device))
unfolding new
handle_pick-reported w F ds ms hints f h =
    let a = run (new ds least_loaded) ms in
    handle_pick-starved hints a
      (none_eligible hints a.devices a.loads h
        (run-IsReported w F (new ds least_loaded) ms f (idle-IsReported ds)))
      (run-policy (new ds least_loaded) ms refl)
