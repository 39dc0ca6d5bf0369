-- ===== src/Patterns/Batching/Settled.antt =====
-- batching.rs: every request is answered once, in the order of the requests.
use mathlib.Core.Path.{subst}
use atomr_accel.Common.{
  ℕ, ◌≤◌, ◌<◌, ◌≡◌, refl, sym, ap, ◌∙◌, true, false, not, leb, Bool-cases, inl, inr, ◌⊎◌, some,
  is_some, List, [], ◌∷◌, ◌++◌, append-nil, joined, length, is_empty, if◌then◌else◌, arith,
}
use atomr_accel.Gpu.Error.{Result, err, gpu_ref_stale}
use atomr_accel.Patterns.Batching.{
  BatchingConfig, BatchingMsg, submit, timer_flush, flush_now, get_stats, Effect, send_stats,
  schedule_timer, DynamicBatchingServer, new_server, flush, push, handle_submit, handle_timer_flush,
  handle, post_stop, run, and_then, server_stopped,
}
use atomr_accel.Patterns.Batching.Flushes.{
  answered, answered-append, replies, replies-append, submitted, all_submitted, answered-fail_all,
  IsSound, Steps, flush-Steps,
}

module _ {Req Resp : Type 0} (batch_fn : List Req → List (Result Resp)) where
  -- The batch with the new request in it.
  abbrev pub grown : ℕ → DynamicBatchingServer Req → Req → ℕ → DynamicBatchingServer Req
  grown now s req reply = record s {
    pending = s.pending ++ (req, reply) ∷ [];
    batch_started_at = if is_empty s.pending then some now else s.batch_started_at;
  }

  abbrev pub timer_of : DynamicBatchingServer Req → List (Effect Resp)
  timer_of s = if is_empty s.pending then schedule_timer ∷ [] else []

  answered-timer :
      (s : DynamicBatchingServer Req) (out : List (Effect Resp))
      → answered (timer_of s ++ out) ≡ answered out
  unfolding answered
  answered-timer s out = ground arith

  pub push_full :
      (now : ℕ) (s : DynamicBatchingServer Req) (req : Req) (reply : ℕ)
      → leb s.config.max_batch (length (s.pending ++ (req, reply) ∷ [])) ≡ true
      → (
        (flush batch_fn (grown now s req reply)).0,
        timer_of s ++ (flush batch_fn (grown now s req reply)).1,
      )
        ≡ push batch_fn now s req reply
  unfolding push
  push_full now s req reply h = ground arith

  pub push_room :
      (now : ℕ) (s : DynamicBatchingServer Req) (req : Req) (reply : ℕ)
      → leb s.config.max_batch (length (s.pending ++ (req, reply) ∷ [])) ≡ false
      → (grown now s req reply, timer_of s) ≡ push batch_fn now s req reply
  unfolding push
  push_room now s req reply h = ground arith

  pub push-Steps :
      (now : ℕ) (s : DynamicBatchingServer Req) (req : Req) (reply : ℕ)
      → IsSound batch_fn s
      → Steps batch_fn s (reply ∷ []) (push batch_fn now s req reply)
  unfolding replies answered
  push-Steps now s req reply h =
      let s' = grown now s req reply in
      let more = replies-append s.pending ((req, reply) ∷ []) in
      elim (Bool-cases (leb s.config.max_batch (length (s.pending ++ (req, reply) ∷ [])))) [
        | inl full ↦
            let (sound, (same, moved)) =
              flush-Steps batch_fn s' (ground (arith, h.room)) h.undropped
                (ground (arith, h.timed)) in
            subst (Steps batch_fn s (reply ∷ [])) (push_full now s req reply full) (
              sound,
              (
                same,
                ap (λ l. l ++ replies ((flush batch_fn s').0).pending)
                      (answered-timer s ((flush batch_fn s').1))
                    ∙ moved
                    ∙ append-nil (replies s'.pending)
                    ∙ more,
              ),
            )
        | inr room ↦ subst (Steps batch_fn s (reply ∷ [])) (push_room now s req reply room) (
          record {
            room = ground (arith, room);
            timed = ground (arith, h.timed);
            undropped = h.undropped;
          },
          (
            refl,
            ap (λ l. l ++ replies s'.pending)
                  (ap answered (sym (append-nil (timer_of s))) ∙ answered-timer s [])
                ∙ more,
          ),
        )
      ]

  pub submit-room :
      (now : ℕ) (s : DynamicBatchingServer Req) (req : Req) (reply : ℕ)
      → IsSound batch_fn s
      → handle batch_fn now s (submit req reply) ≡ some (push batch_fn now s req reply)
  unfolding handle handle_submit
  submit-room now s req reply h = ground (arith, h.room)

  -- A timer that is early starts again, and one that is late flushes.
  pub timer_cases :
      (now : ℕ) (s : DynamicBatchingServer Req)
      → ((s, []) ≡ handle_timer_flush batch_fn now s)
        ⊎ (((s, schedule_timer ∷ []) ≡ handle_timer_flush batch_fn now s)
            ⊎ (flush batch_fn s ≡ handle_timer_flush batch_fn now s))
  unfolding handle_timer_flush
  timer_cases now s = ground arith

  idle-Steps :
      (s : DynamicBatchingServer Req) (out : List (Effect Resp))
      → IsSound batch_fn s
      → answered out ≡ []
      → Steps batch_fn s [] (s, out)
  idle-Steps s out h quiet =
      (h, (refl, ap (λ l. l ++ replies s.pending) quiet ∙ sym (append-nil (replies s.pending))))

  pub timer-Steps :
      (now : ℕ) (s : DynamicBatchingServer Req)
      → IsSound batch_fn s
      → Steps batch_fn s [] (handle_timer_flush batch_fn now s)
  unfolding answered
  timer-Steps now s h = elim (timer_cases now s) [
    | inl e ↦ subst (Steps batch_fn s []) e (idle-Steps s [] h refl)
    | inr (inl e) ↦ subst (Steps batch_fn s []) e (idle-Steps s (schedule_timer ∷ []) h refl)
    | inr (inr e) ↦
        subst (Steps batch_fn s []) e
          (flush-Steps batch_fn s (ground (arith, h.room)) h.undropped h.timed)
  ]

  pub handle-Steps :
      (now : ℕ) (s : DynamicBatchingServer Req) (m : BatchingMsg Req)
      → IsSound batch_fn s
      → (r : DynamicBatchingServer Req × List (Effect Resp)) × ((handle batch_fn now s m ≡ some r)
          × Steps batch_fn s (submitted m) r)
  unfolding handle submitted answered
  handle-Steps now s (submit req reply) h =
      (push batch_fn now s req reply, (submit-room now s req reply h, push-Steps now s req reply h))
  handle-Steps now s timer_flush h =
      (handle_timer_flush batch_fn now s, (refl, timer-Steps now s h))
  handle-Steps now s flush_now h = (
    flush batch_fn s,
    (refl, flush-Steps batch_fn s (ground (arith, h.room)) h.undropped h.timed),
  )
  handle-Steps now s (get_stats reply) h = (
    (s, send_stats reply s.stats ∷ []),
    (refl, (h, (refl, sym (append-nil (replies s.pending))))),
  )

  run-Steps :
      (s : DynamicBatchingServer Req) (ms : List (ℕ × BatchingMsg Req))
      → IsSound batch_fn s
      → (r : DynamicBatchingServer Req × List (Effect Resp)) × ((run batch_fn s ms ≡ some r)
          × Steps batch_fn s (all_submitted ms) r)
  unfolding run and_then all_submitted answered
  run-Steps s [] h = ((s, []), (refl, (h, (refl, sym (append-nil (replies s.pending))))))
  run-Steps s ((now, m) ∷ ms) h =
      let ((s', out), (done, (h', (same, moved)))) = handle-Steps now s m h in
      let ((s'', rest), (done', (h'', (same', moved')))) = run-Steps s' ms h' in
      (
        (s'', out ++ rest),
        (
          ground (arith, done, done'),
          (
            h'',
            (
              same' ∙ same,
              joined (answered out) (replies s'.pending) (answered rest) (replies s''.pending)
                  (replies s.pending) (submitted m) (all_submitted ms) (answered-append out rest)
                  moved moved',
            ),
          ),
        ),
      )

  pub new_server-IsSound :
      (config : BatchingConfig) → 1 ≤ config.max_batch → IsSound batch_fn (new_server config)
  unfolding new_server
  new_server-IsSound config h = record { room = ground arith; timed = refl; undropped = refl }

  post_stop-answered :
      (s : DynamicBatchingServer Req) → answered ((post_stop batch_fn s).1) ≡ replies s.pending
  unfolding post_stop
  post_stop-answered s = answered-fail_all (err (gpu_ref_stale server_stopped)) s.pending

  -- With a batch size of at least one, whatever the batch function answers and whatever messages come at
  -- whatever times: a new server never panics, and from its start to its stop it answers every request
  -- exactly once, in the order of the requests.
  pub post_stop-run :
      (config : BatchingConfig) (ms : List (ℕ × BatchingMsg Req))
      → 1 ≤ config.max_batch
      → (s : DynamicBatchingServer Req) × ((out : List (Effect Resp)) × ((run batch_fn
                (new_server config)
                ms
              ≡ some (s, out))
            × (answered (out ++ (post_stop batch_fn s).1) ≡ all_submitted ms)))
  unfolding new_server replies
  post_stop-run config ms h =
      let ((s, out), (done, (h', (same, moved)))) =
        run-Steps (new_server config) ms (new_server-IsSound config h) in
      (
        s,
        (
          out,
          (
            done,
            answered-append out ((post_stop batch_fn s).1)
                ∙ ap (λ l. answered out ++ l) (post_stop-answered s)
                ∙ moved,
          ),
        ),
      )

  -- With a batch size of at least one the overflow policy never acts: after any messages, fewer requests
  -- than a batch wait, the start of the batch is noted exactly while some do, and no request has been dropped.
  pub run-IsSound :
      (config : BatchingConfig) (ms : List (ℕ × BatchingMsg Req))
      → 1 ≤ config.max_batch
      → (s : DynamicBatchingServer Req) × ((out : List (Effect Resp)) × ((run batch_fn
                (new_server config)
                ms
              ≡ some (s, out))
            × ((length s.pending < config.max_batch)
                × ((is_some s.batch_started_at ≡ not (is_empty s.pending))
                    × (s.stats.items_dropped ≡ 0)))))
  unfolding new_server
  run-IsSound config ms h =
      let ((s, out), (done, (h', (same, moved)))) =
        run-Steps (new_server config) ms (new_server-IsSound config h) in
      (
        s,
        (
          out,
          (
            done,
            (subst (λ c. length s.pending < c.max_batch) same h'.room, (h'.timed, h'.undropped)),
          ),
        ),
      )
