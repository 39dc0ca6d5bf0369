-- ===== src/Patterns/Scheduler/Runs.antt =====
-- scheduler.rs: the limit in flight, the order within a tenant, and that no request waits without need.
use mathlib.Core.Path.{subst}
use atomr_accel.Common.{
  ℕ, ◌≤◌, ◌≡◌, refl, ap, ◌∙◌, true, some, is_some, List, [], ◌∷◌, ◌++◌, IsDistinct, is_empty,
  lookup, insert, keys, keys-insert-IsDistinct, arith,
}
use atomr_accel.Patterns.Scheduler.{
  VirtualTime, Tenant, FairShareMsg, submit, finished, get_stats, Effect, FairShareScheduler,
  new_tenants, new_scheduler, and_then, handle, run,
}
use atomr_accel.Patterns.Scheduler.Service.{served, queue_of, all_idle, IsSound, is_settled}
use atomr_accel.Patterns.Scheduler.Loop.{Ends, idle-Ends, and_then-Ends}
use atomr_accel.Patterns.Scheduler.Steps.{submitted, wanted, handle-Ends}

module _ (T : VirtualTime) (Req : Type 0) where
  open T use {F}

  wanted-cons :
      (k : ℕ) (s s' : FairShareScheduler F Req) (m : FairShareMsg Req)
      (ms : List (FairShareMsg Req))
      → is_some (lookup k s'.tenants) ≡ is_some (lookup k s.tenants)
      → wanted T Req k s.tenants (m ∷ []) ++ wanted T Req k s'.tenants ms
        ≡ wanted T Req k s.tenants (m ∷ ms)
  unfolding submitted
  wanted-cons k s s' (submit tenant req reply) ms e = ground arith
  wanted-cons k s s' (finished tenant) ms e = ground arith
  wanted-cons k s s' (get_stats reply) ms e = ground arith

  run_next :
      (s : FairShareScheduler F Req) (m : FairShareMsg Req) (ms : List (FairShareMsg Req))
      (r : FairShareScheduler F Req × List (Effect Req))
      → handle T Req s m ≡ some r
      → and_then T Req (r.1) (run T Req (r.0) ms) ≡ run T Req s (m ∷ ms)
  unfolding run
  run_next s m ms r e = ground arith

  wanted_none : (k : ℕ) (ts : List (ℕ × Tenant F Req)) → [] ≡ wanted T Req k ts []
  unfolding submitted
  wanted_none k ts = ground arith

  run-Ends :
      (k : ℕ) (s : FairShareScheduler F Req) (ms : List (FairShareMsg Req))
      → IsSound T Req s
      → is_settled T Req s ≡ true
      → Ends T Req k s (wanted T Req k s.tenants ms) (run T Req s ms)
  unfolding run submitted
  run-Ends k s [] h i =
      subst (λ a. Ends T Req k s a (some (s, []))) (wanted_none k s.tenants)
        (idle-Ends T Req k s h i)
  run-Ends k s (m ∷ ms) h i =
      let (r, (done, (i', moves))) = handle-Ends T Req k s m h i in
      let (h', (same, (kept, moved))) = moves in
      subst (λ a. Ends T Req k s a (run T Req s (m ∷ ms))) (wanted-cons k s (r.0) m ms kept)
        (subst
          (Ends T Req k s (wanted T Req k s.tenants (m ∷ []) ++ wanted T Req k (r.0).tenants ms))
          (run_next s m ms r done)
          (and_then-Ends T Req k s (r.0) (r.1) (run T Req (r.0) ms)
            (wanted T Req k s.tenants (m ∷ [])) (wanted T Req k (r.0).tenants ms) moves
            (run-Ends k (r.0) ms h' i')))

  all_idle-insert :
      (id : ℕ) (t : Tenant F Req) (m : List (ℕ × Tenant F Req))
      → is_empty t.queue ≡ true
      → all_idle T Req m ≡ true
      → all_idle T Req (insert id t m) ≡ true
  unfolding all_idle
  all_idle-insert id t [] e a = ground (arith, e)
  all_idle-insert id t (x ∷ m) e a = ground (arith, e, a, all_idle-insert id t m e)

  fresh :
      (ts : List (ℕ × ℕ)) (m : List (ℕ × Tenant F Req))
      → IsDistinct (keys m)
      → all_idle T Req m ≡ true
      → IsDistinct (keys (new_tenants T Req ts m))
        × (all_idle T Req (new_tenants T Req ts m) ≡ true)
  unfolding new_tenants
  fresh [] m d a = (d, a)
  fresh ((id, weight) ∷ ts) m d a =
      let t : Tenant F Req = record { weight = weight; queue = []; vfinish = T.zero_time } in
      fresh ts (insert id t m) (keys-insert-IsDistinct id t m d) (all_idle-insert id t m refl a)

  queue_of_idle :
      (k : ℕ) (ts : List (ℕ × Tenant F Req)) → all_idle T Req ts ≡ true → queue_of T Req k ts ≡ []
  unfolding queue_of all_idle
  queue_of_idle k [] a = refl
  queue_of_idle k ((id, t) ∷ ts) a = ground (arith, a, queue_of_idle k ts)

  new_scheduler-IsSound :
      (max : ℕ) (ts : List (ℕ × ℕ))
      → IsSound T Req (new_scheduler T Req max ts)
        × (all_idle T Req (new_scheduler T Req max ts).tenants ≡ true)
  unfolding new_scheduler all_idle
  new_scheduler-IsSound max ts =
      let (d, a) = fresh ts [] tt refl in (record { distinct = d; limited = omega arith }, a)

  idle-is_settled :
      (s : FairShareScheduler F Req) → all_idle T Req s.tenants ≡ true → is_settled T Req s ≡ true
  idle-is_settled s a = ground (arith, a)

  -- For every order of virtual times and every sequence of messages: a new scheduler never panics, the
  -- requests in flight stay within the limit, no request waits while there is room in flight, and for each tenant
  -- what was dispatched followed by what still waits is, in order, what was submitted for it if it is known.
  pub run-served :
      (max : ℕ) (ts : List (ℕ × ℕ)) (ms : List (FairShareMsg Req)) (k : ℕ)
      → (s : FairShareScheduler F Req) × ((out : List (Effect Req)) × ((run T Req
                (new_scheduler T Req max ts)
                ms
              ≡ some (s, out))
            × ((s.in_flight ≤ max)
                × ((is_settled T Req s ≡ true)
                    × (served k out ++ queue_of T Req k s.tenants
                        ≡ wanted T Req k (new_scheduler T Req max ts).tenants ms)))))
  unfolding new_scheduler
  run-served max ts ms k =
      let s₀ = new_scheduler T Req max ts in
      let (h, a) = new_scheduler-IsSound max ts in
      let ((s, out), (done, (i, (h', (same, (kept, moved)))))) =
        run-Ends k s₀ ms h (idle-is_settled s₀ a) in
      (
        s,
        (
          out,
          (
            done,
            (
              subst (λ n. s.in_flight ≤ n) same h'.limited,
              (
                i,
                moved ∙ ap (λ q. q ++ wanted T Req k s₀.tenants ms) (queue_of_idle k s₀.tenants a),
              ),
            ),
          ),
        ),
      )
