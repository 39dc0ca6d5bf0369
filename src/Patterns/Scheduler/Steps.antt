-- ===== src/Patterns/Scheduler/Steps.antt =====
-- scheduler.rs: one message, and the dispatch loop after it.
use mathlib.Core.Path.{subst}
use atomr_accel.Common.{
  ℕ, ◌-◌, ◌≡◌, refl, sym, ap, ◌∙◌, true, ◌==◌, Option-cases, inl, inr, Option, none, some, is_some,
  List, [], ◌∷◌, ◌++◌, append-nil, if◌then◌else◌, lookup, insert, lookup-insert,
  keys-insert-IsDistinct, arith,
}
use atomr_accel.Patterns.Scheduler.{
  VirtualTime, Tenant, FairShareMsg, submit, finished, get_stats, Effect, unknown_tenant,
  send_stats, FairShareScheduler, try_dispatch, handle,
}
use atomr_accel.Patterns.Scheduler.Service.{
  served, queue_of, queue_of-insert, IsSound, Moves, is_settled,
}
use atomr_accel.Patterns.Scheduler.Loop.{Ends, dispatch_loop-Ends}

module _ (T : VirtualTime) (Req : Type 0) where
  open T use {F}

  -- The requests for the tenant `k`, in order.
  unfoldable pub submitted : ℕ → List (FairShareMsg Req) → List (Req × ℕ)
  submitted k [] = []
  submitted k (submit tenant req reply ∷ ms) =
      let rest = submitted k ms in if tenant == k then (req, reply) ∷ rest else rest
  submitted k (finished tenant ∷ ms) = submitted k ms
  submitted k (get_stats reply ∷ ms) = submitted k ms

  -- Those, if the tenant is known.
  abbrev pub wanted : ℕ → List (ℕ × Tenant F Req) → List (FairShareMsg Req) → List (Req × ℕ)
  wanted k ts ms = if is_some (lookup k ts) then submitted k ms else []

  pub try_dispatch-Ends :
      (k : ℕ) (s : FairShareScheduler F Req)
      → IsSound T Req s
      → Ends T Req k s [] (try_dispatch T Req s)
  unfolding try_dispatch
  try_dispatch-Ends k s h =
      dispatch_loop-Ends T Req k (s.max_in_flight - s.in_flight) s h (omega (arith, h.limited))

  -- The state with the new request in its tenant's queue.
  abbrev pub queued :
      FairShareScheduler F Req → ℕ → Tenant F Req → Req → ℕ → FairShareScheduler F Req
  queued s tenant t req reply = record s {
    tenants = insert tenant (record t { queue = t.queue ++ (req, reply) ∷ [] }) s.tenants;
  }

  pub queued-Moves :
      (k : ℕ) (s : FairShareScheduler F Req) (tenant : ℕ) (t : Tenant F Req) (req : Req) (reply : ℕ)
      → IsSound T Req s
      → lookup tenant s.tenants ≡ some t
      → Moves T Req k s
          (wanted k s.tenants (submit tenant req reply ∷ []))
          (queued s tenant t req reply, [])
  unfolding served submitted queue_of
  queued-Moves k s tenant t req reply h found =
      let t' = record t { queue = t.queue ++ (req, reply) ∷ [] } in
      (
        record {
          distinct = keys-insert-IsDistinct tenant t' s.tenants h.distinct;
          limited = h.limited;
        },
        (
          refl,
          (
            ground (arith, lookup-insert tenant k t' s.tenants, found),
            ground (
              arith,
              queue_of-insert T Req k tenant t' s.tenants,
              found,
              append-nil (queue_of T Req k s.tenants),
            ),
          ),
        ),
      )

  pub submit_known :
      (s : FairShareScheduler F Req) (tenant : ℕ) (t : Tenant F Req) (req : Req) (reply : ℕ)
      → lookup tenant s.tenants ≡ some t
      → try_dispatch T Req (queued s tenant t req reply) ≡ handle T Req s (submit tenant req reply)
  unfolding handle
  submit_known s tenant t req reply found = ground arith

  -- A change of the state that sends nothing, and then a run of the loop.
  pub relay-Ends :
      (k : ℕ) (s s' : FairShareScheduler F Req) (asked : List (Req × ℕ))
      (o : Option (FairShareScheduler F Req × List (Effect Req)))
      → Moves T Req k s asked (s', [])
      → Ends T Req k s' [] o
      → Ends T Req k s asked o
  unfolding served
  relay-Ends k s s' asked o (h, (same, (kept, moved)))
        (r, (done, (i, (h', (same', (kept', moved')))))) =
      (
        r,
        (
          done,
          (
            i,
            (
              h',
              (
                same' ∙ same,
                (kept' ∙ kept, moved' ∙ append-nil (queue_of T Req k s'.tenants) ∙ moved),
              ),
            ),
          ),
        ),
      )

  pub finished-Moves :
      (k : ℕ) (s : FairShareScheduler F Req)
      → IsSound T Req s
      → Moves T Req k s [] (record s { in_flight = s.in_flight - 1 }, [])
  unfolding served
  finished-Moves k s h = (
    record { distinct = h.distinct; limited = omega (arith, h.limited) },
    (refl, (refl, sym (append-nil (queue_of T Req k s.tenants)))),
  )

  pub submit_unknown :
      (s : FairShareScheduler F Req) (tenant : ℕ) (req : Req) (reply : ℕ)
      → lookup tenant s.tenants ≡ none
      → some (s, unknown_tenant tenant reply ∷ []) ≡ handle T Req s (submit tenant req reply)
  unfolding handle
  submit_unknown s tenant req reply found = ground arith

  pub unknown-wanted :
      (k : ℕ) (s : FairShareScheduler F Req) (tenant : ℕ) (req : Req) (reply : ℕ)
      → lookup tenant s.tenants ≡ none
      → [] ≡ wanted k s.tenants (submit tenant req reply ∷ [])
  unfolding submitted
  unknown-wanted k s tenant req reply found = ground (arith, found)

  pub same-Ends :
      (k : ℕ) (s : FairShareScheduler F Req) (out : List (Effect Req))
      → IsSound T Req s
      → is_settled T Req s ≡ true
      → served k out ≡ []
      → Ends T Req k s [] (some (s, out))
  same-Ends k s out h i quiet = (
    (s, out),
    (
      refl,
      (
        i,
        (
          h,
          (
            refl,
            (
              refl,
              ap (λ l. l ++ queue_of T Req k s.tenants) quiet
                  ∙ sym (append-nil (queue_of T Req k s.tenants)),
            ),
          ),
        ),
      ),
    ),
  )

  pub no_wanted :
      (k : ℕ) (ts : List (ℕ × Tenant F Req)) (m : FairShareMsg Req)
      → submitted k (m ∷ []) ≡ []
      → [] ≡ wanted k ts (m ∷ [])
  no_wanted k ts m e = ground (arith, e)

  pub handle-Ends :
      (k : ℕ) (s : FairShareScheduler F Req) (m : FairShareMsg Req)
      → IsSound T Req s
      → is_settled T Req s ≡ true
      → Ends T Req k s (wanted k s.tenants (m ∷ [])) (handle T Req s m)
  unfolding handle served submitted
  handle-Ends k s (submit tenant req reply) h i = elim (Option-cases (lookup tenant s.tenants)) [
    | inl n ↦
        subst (Ends T Req k s (wanted k s.tenants (submit tenant req reply ∷ [])))
          (submit_unknown s tenant req reply n)
          (subst (λ a. Ends T Req k s a (some (s, unknown_tenant tenant reply ∷ [])))
            (unknown-wanted k s tenant req reply n)
            (same-Ends k s (unknown_tenant tenant reply ∷ []) h i refl))
    | inr (t, f) ↦
        let moves = queued-Moves k s tenant t req reply h f in
        subst (Ends T Req k s (wanted k s.tenants (submit tenant req reply ∷ [])))
          (submit_known s tenant t req reply f)
          (relay-Ends k s (queued s tenant t req reply)
            (wanted k s.tenants (submit tenant req reply ∷ []))
            (try_dispatch T Req (queued s tenant t req reply)) moves
            (try_dispatch-Ends k (queued s tenant t req reply) moves.0))
  ]
  handle-Ends k s (finished tenant) h i =
      let moves = finished-Moves k s h in
      let s' = record s { in_flight = s.in_flight - 1 } in
      subst (λ a. Ends T Req k s a (try_dispatch T Req s'))
        (no_wanted k s.tenants (finished tenant) refl)
        (relay-Ends k s s' [] (try_dispatch T Req s') moves (try_dispatch-Ends k s' moves.0))
  handle-Ends k s (get_stats reply) h i =
      subst (λ a. Ends T Req k s a (handle T Req s (get_stats reply)))
        (no_wanted k s.tenants (get_stats reply) refl)
        (same-Ends k s
          (send_stats reply
              (record { in_flight = s.in_flight; total_dispatched = s.total_dispatched })
            ∷ [])
          h i refl)
