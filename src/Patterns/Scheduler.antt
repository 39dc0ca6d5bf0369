-- ===== src/Patterns/Scheduler.antt =====
-- crates/atomr-accel-patterns/src/scheduler.rs. The virtual times, `f64` in the source, are any type `F` with a
-- start, an order, and the charge `t.vfinish + 1.0 / max(weight, 1)`. The hash map is an association list.
pub mod Service
pub mod Loop
pub mod Steps
pub mod Runs
use atomr_accel.Common.{
  ℕ, zero, suc, ◌+◌, ◌-◌, Bool, Option, none, some, List, [], ◌∷◌, ◌++◌, is_empty, if◌then◌else◌,
  lookup, insert,
}

pub record VirtualTime : Type 1 where
  pub F : Type 0
  pub zero_time : F
  pub lt : F → F → Bool
  -- By the weight and the time so far.
  pub charge : ℕ → F → F

pub record Tenant (F Req : Type 0) : Type 0 where
  pub weight : ℕ
  pub queue : List (Req × ℕ)
  pub vfinish : F

pub record FairShareStats : Type 0 where
  pub in_flight : ℕ
  pub total_dispatched : ℕ

pub data FairShareMsg (Req : Type 0) : Type 0 where
  submit : (tenant : ℕ) (req : Req) (reply : ℕ) → FairShareMsg Req
  finished : (tenant : ℕ) → FairShareMsg Req
  get_stats : (reply : ℕ) → FairShareMsg Req

-- `dispatched`: the request goes to the dispatcher, and its answer will be sent on and reported as `finished`.
pub data Effect (Req : Type 0) : Type 0 where
  dispatched : (tenant : ℕ) (req : Req) (reply : ℕ) → Effect Req
  unknown_tenant : (tenant reply : ℕ) → Effect Req
  send_stats : (reply : ℕ) (stats : FairShareStats) → Effect Req

pub record FairShareScheduler (F Req : Type 0) : Type 0 where
  pub max_in_flight : ℕ
  pub tenants : List (ℕ × Tenant F Req)
  pub in_flight : ℕ
  pub total_dispatched : ℕ

module _ (T : VirtualTime) where
  open T use {F, lt}

  unfoldable pub better_of : Option (ℕ × F) → ℕ → F → Option (ℕ × F)
  better_of none id v = some (id, v)
  better_of (some best) id v = if lt v (best.1) then some (id, v) else some best

module _ (T : VirtualTime) (Req : Type 0) where
  open T use {F, zero_time, charge}

  unfoldable pub new_tenants : List (ℕ × ℕ) → List (ℕ × Tenant F Req) → List (ℕ × Tenant F Req)
  new_tenants [] m = m
  new_tenants ((id, weight) ∷ ts) m =
      new_tenants ts (insert id (record { weight = weight; queue = []; vfinish = zero_time }) m)

  unfoldable pub new_scheduler : ℕ → List (ℕ × ℕ) → FairShareScheduler F Req
  unfolding new_tenants
  new_scheduler max tenants = record {
    max_in_flight = max;
    tenants = new_tenants tenants [];
    in_flight = 0;
    total_dispatched = 0;
  }

  abbrev pub Reaction : Type 0
  Reaction = FairShareScheduler F Req × List (Effect Req)

  -- The loop over the tenants.
  unfoldable pub pick_tenant : Option (ℕ × F) → List (ℕ × Tenant F Req) → Option (ℕ × F)
  unfolding better_of
  pick_tenant best [] = best
  pick_tenant best ((id, t) ∷ ts) =
      pick_tenant (if is_empty t.queue then best else better_of T best id t.vfinish) ts

  -- `none` where an `unwrap` panics.
  unfoldable pub dispatch_one : FairShareScheduler F Req → ℕ → Option Reaction
  dispatch_one s id = elim (lookup id s.tenants) [
    | none ↦ none
    | some t ↦ elim t.queue [
      | [] ↦ none
      | x ∷ rest ↦ some (
        record s {
          tenants =
              insert id (record t { queue = rest; vfinish = charge t.weight t.vfinish }) s.tenants;
          in_flight = s.in_flight + 1;
          total_dispatched = s.total_dispatched + 1;
        },
        dispatched id (x.0) (x.1) ∷ [],
      )
    ]
  ]

  unfoldable pub and_then : List (Effect Req) → Option Reaction → Option Reaction
  and_then out none = none
  and_then out (some (s, rest)) = some (s, out ++ rest)

  -- The `while` loop: each round raises `in_flight` by one, so that `room` rounds reach the limit.
  unfoldable pub dispatch_loop : (room : ℕ) → FairShareScheduler F Req → Option Reaction
  unfolding pick_tenant dispatch_one and_then
  dispatch_loop zero s = some (s, [])
  dispatch_loop (suc room) s = elim (pick_tenant none s.tenants) [
    | none ↦ some (s, [])
    | some best ↦ elim (dispatch_one s (best.0)) [
      | none ↦ none
      | some r ↦ and_then (r.1) (dispatch_loop room (r.0))
    ]
  ]

  unfoldable pub try_dispatch : FairShareScheduler F Req → Option Reaction
  unfolding dispatch_loop
  try_dispatch s = dispatch_loop (s.max_in_flight - s.in_flight) s

  unfoldable pub handle : FairShareScheduler F Req → FairShareMsg Req → Option Reaction
  unfolding try_dispatch
  handle s (submit tenant req reply) = elim (lookup tenant s.tenants) [
    | none ↦ some (s, unknown_tenant tenant reply ∷ [])
    | some t ↦ try_dispatch (record s {
      tenants = insert tenant (record t { queue = t.queue ++ (req, reply) ∷ [] }) s.tenants;
    })
  ]
  handle s (finished tenant) = try_dispatch (record s { in_flight = s.in_flight - 1 })
  handle s (get_stats reply) =
      (some (
        s,
        send_stats reply (record { in_flight = s.in_flight; total_dispatched = s.total_dispatched })
            ∷ [],
      ))

  unfoldable pub run : FairShareScheduler F Req → List (FairShareMsg Req) → Option Reaction
  unfolding handle and_then
  run s [] = some (s, [])
  run s (m ∷ ms) = elim (handle s m) [ none ↦ none | some r ↦ and_then (r.1) (run (r.0) ms) ]
