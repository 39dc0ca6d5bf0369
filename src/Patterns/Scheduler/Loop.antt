-- ===== src/Patterns/Scheduler/Loop.antt =====
-- scheduler.rs: the dispatch loop, round by round.
use mathlib.Core.Path.{subst}
use atomr_accel.Common.{
  ℕ, zero, suc, ◌+◌, ◌<◌, ◌≡◌, refl, sym, ap, ◌∙◌, true, false, Option-cases, inl, inr, Option,
  none, some, List, [], ◌∷◌, ◌++◌, append-nil, joined, is_empty, lookup, insert, lookup-insert,
  keys-insert-IsDistinct, arith,
}
use atomr_accel.Patterns.Scheduler.{
  VirtualTime, Tenant, Effect, dispatched, FairShareScheduler, pick_tenant, dispatch_one, and_then,
  dispatch_loop,
}
use atomr_accel.Patterns.Scheduler.Service.{
  served, served-append, queue_of, all_idle, HasWork, Finds, pick_tenant-Finds, HasWork-lookup,
  queue_of-insert, IsSound, Moves, is_settled,
}

module _ (T : VirtualTime) (Req : Type 0) where
  open T use {F}

  -- The state after the first request of `t` has gone out.
  abbrev pub sent_from :
      FairShareScheduler F Req → ℕ → Tenant F Req → List (Req × ℕ) → FairShareScheduler F Req
  sent_from s id t rest = record s {
    tenants =
        insert id (record t { queue = rest; vfinish = T.charge t.weight t.vfinish }) s.tenants;
    in_flight = s.in_flight + 1;
    total_dispatched = s.total_dispatched + 1;
  }

  pub dispatch_one-found :
      (s : FairShareScheduler F Req) (id : ℕ) (t : Tenant F Req) (x : Req × ℕ)
      (rest : List (Req × ℕ))
      → lookup id s.tenants ≡ some t
      → t.queue ≡ x ∷ rest
      → dispatch_one T Req s id ≡ some (sent_from s id t rest, dispatched id (x.0) (x.1) ∷ [])
  unfolding dispatch_one
  dispatch_one-found s id t x rest h q = ground arith

  pub sent_from-Moves :
      (k : ℕ) (s : FairShareScheduler F Req) (id : ℕ) (t : Tenant F Req) (x : Req × ℕ)
      (rest : List (Req × ℕ))
      → IsSound T Req s
      → s.in_flight < s.max_in_flight
      → lookup id s.tenants ≡ some t
      → t.queue ≡ x ∷ rest
      → Moves T Req k s [] (sent_from s id t rest, dispatched id (x.0) (x.1) ∷ [])
  unfolding served queue_of
  sent_from-Moves k s id t x rest h room found q = (
    record {
      distinct =
          keys-insert-IsDistinct id
            (record t { queue = rest; vfinish = T.charge t.weight t.vfinish }) s.tenants h.distinct;
      limited = omega (arith, room);
    },
    (
      refl,
      (
        ground (
          arith,
          lookup-insert id k (record t { queue = rest; vfinish = T.charge t.weight t.vfinish })
              s.tenants,
          found,
        ),
        ground (
          arith,
          queue_of-insert T Req k id
              (record t { queue = rest; vfinish = T.charge t.weight t.vfinish }) s.tenants,
          append-nil (queue_of T Req k s.tenants),
          found,
          q,
        ),
      ),
    ),
  )

  pub busy_queue :
      (q : List (Req × ℕ))
      → is_empty q ≡ false
      → (x : Req × ℕ) × ((rest : List (Req × ℕ)) × (q ≡ x ∷ rest))
  busy_queue [] h = ground (arith, h)
  busy_queue (x ∷ rest) h = (x, (rest, refl))

  -- The loop ends at the limit or with nothing to do, and never at a panic.
  abbrev pub Ends :
      ℕ
      → FairShareScheduler F Req
      → List (Req × ℕ)
      → Option (FairShareScheduler F Req × List (Effect Req))
      → Type 0
  Ends k s asked o =
      (r : FairShareScheduler F Req × List (Effect Req)) × ((o ≡ some r)
        × ((is_settled T Req (r.0) ≡ true) × Moves T Req k s asked r))

  pub idle-Ends :
      (k : ℕ) (s : FairShareScheduler F Req)
      → IsSound T Req s
      → is_settled T Req s ≡ true
      → Ends k s [] (some (s, []))
  unfolding served
  idle-Ends k s h i =
      ((s, []), (refl, (i, (h, (refl, (refl, sym (append-nil (queue_of T Req k s.tenants))))))))

  pub none-some : (b : ℕ × F) → none ≡ some b → ⊥
  none-some b e = cc

  pub nothing_found :
      (s : FairShareScheduler F Req)
      → pick_tenant T Req none s.tenants ≡ none
      → all_idle T Req s.tenants ≡ true
  unfolding Finds
  nothing_found s n =
      (subst (Finds T Req none s.tenants) n (pick_tenant-Finds T Req none s.tenants)).1

  pub some_found :
      (s : FairShareScheduler F Req) (b : ℕ × F)
      → pick_tenant T Req none s.tenants ≡ some b
      → HasWork T Req (b.0) s.tenants
  unfolding Finds
  some_found s b f =
      elim (subst (Finds T Req none s.tenants) f (pick_tenant-Finds T Req none s.tenants)) [
        | inl e ↦ elim (none-some b e) [ ]
        | inr w ↦ w
      ]

  pub loop_stops :
      (room : ℕ) (s : FairShareScheduler F Req)
      → pick_tenant T Req none s.tenants ≡ none
      → some (s, []) ≡ dispatch_loop T Req (suc room) s
  unfolding dispatch_loop
  loop_stops room s n = ground arith

  pub loop_goes :
      (room : ℕ) (s : FairShareScheduler F Req) (b : ℕ × F)
      (r : FairShareScheduler F Req × List (Effect Req))
      → pick_tenant T Req none s.tenants ≡ some b
      → dispatch_one T Req s (b.0) ≡ some r
      → and_then T Req (r.1) (dispatch_loop T Req room (r.0)) ≡ dispatch_loop T Req (suc room) s
  unfolding dispatch_loop
  loop_goes room s b r f d = ground arith

  pub and_then-Ends :
      (k : ℕ) (s s' : FairShareScheduler F Req) (out : List (Effect Req))
      (o : Option (FairShareScheduler F Req × List (Effect Req))) (asked asked' : List (Req × ℕ))
      → Moves T Req k s asked (s', out)
      → Ends k s' asked' o
      → Ends k s (asked ++ asked') (and_then T Req out o)
  unfolding and_then
  and_then-Ends k s s' out o asked asked' (h, (same, (kept, moved)))
        ((s'', rest), (done, (i, (h', (same', (kept', moved')))))) =
      (
        (s'', out ++ rest),
        (
          ap (and_then T Req out) done,
          (
            i,
            (
              h',
              (
                same' ∙ same,
                (
                  kept' ∙ kept,
                  joined (served k out) (queue_of T Req k s'.tenants) (served k rest)
                      (queue_of T Req k s''.tenants) (queue_of T Req k s.tenants) asked asked'
                      (served-append k out rest) moved moved',
                ),
              ),
            ),
          ),
        ),
      )

  pub dispatch_loop-Ends :
      (k room : ℕ) (s : FairShareScheduler F Req)
      → IsSound T Req s
      → room + s.in_flight ≡ s.max_in_flight
      → Ends k s [] (dispatch_loop T Req room s)
  unfolding dispatch_loop
  dispatch_loop-Ends k zero s h e = idle-Ends k s h (ground arith)
  dispatch_loop-Ends k (suc room) s h e = elim (Option-cases (pick_tenant T Req none s.tenants)) [
    | inl n ↦
        subst (Ends k s []) (loop_stops room s n)
          (idle-Ends k s h (ground (arith, nothing_found s n)))
    | inr (b, f) ↦
        let (t, (found, busy)) =
          HasWork-lookup T Req (b.0) s.tenants h.distinct (some_found s b f) in
        let (x, (rest, q)) = busy_queue t.queue busy in
        let s' = sent_from s (b.0) t rest in
        let moves = sent_from-Moves k s (b.0) t x rest h (omega (arith, e)) found q in
        subst (Ends k s [])
          (loop_goes room s b (s', dispatched (b.0) (x.0) (x.1) ∷ []) f
            (dispatch_one-found s (b.0) t x rest found q))
          (and_then-Ends k s s' (dispatched (b.0) (x.0) (x.1) ∷ []) (dispatch_loop T Req room s') []
            [] moves (dispatch_loop-Ends k room s' moves.0 (omega (arith, e))))
  ]
