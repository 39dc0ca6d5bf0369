-- ===== src/Patterns/Batching/Results.antt =====
-- batching.rs: which result each request is answered with.
use mathlib.Core.Path.{subst, sym}
use atomr_accel.Common.{
  ℕ, suc, ◌≤◌, ◌≡◌, refl, ap, Bool, true, false, leb, ◌⊎◌, inl, inr, Bool-cases, Option, some, List,
  [], ◌∷◌, ◌++◌, length, is_empty, if◌then◌else◌, All, All-append, arith,
}
use atomr_accel.Gpu.Error.{Result}
use atomr_accel.Patterns.Batching.{
  BatchingConfig, BatchingMsg, submit, timer_flush, flush_now, get_stats, Effect, answer,
  send_stats, schedule_timer, DynamicBatchingServer, new_server, requests, answer_all, flush, push,
  handle_timer_flush, handle, run, and_then,
}
use atomr_accel.Patterns.Batching.Flushes.{IsSound, flush-Steps}
use atomr_accel.Patterns.Batching.Settled.{
  grown, timer_of, push_full, push_room, submit-room, timer_cases, push-Steps, timer-Steps,
  new_server-IsSound,
}

module _ {Req : Type 0} where
  -- `P` joins every submitted request with its reply channel.
  unfoldable pub Joins : (Req → ℕ → Type 0) → List (ℕ × BatchingMsg Req) → Type 0
  Joins P [] = Unit
  Joins P ((now, submit req reply) ∷ ms) = P req reply × Joins P ms
  Joins P ((now, timer_flush) ∷ ms) = Joins P ms
  Joins P ((now, flush_now) ∷ ms) = Joins P ms
  Joins P ((now, get_stats reply) ∷ ms) = Joins P ms

module _ {Req Resp : Type 0} (f : Req → Result Resp) where
  -- The batch function that answers each request by `f`.
  unfoldable pub each : List Req → List (Result Resp)
  each [] = []
  each (r ∷ rs) = f r ∷ each rs

  -- Every answer is `f` of some request that `P` joins with the reply channel.
  unfoldable pub AllAnswers : (Req → ℕ → Type 0) → List (Effect Resp) → Type 0
  AllAnswers P [] = Unit
  AllAnswers P (answer reply result ∷ es) =
      ((req : Req) × (P req reply × (result ≡ f req))) × AllAnswers P es
  AllAnswers P (send_stats reply stats ∷ es) = AllAnswers P es
  AllAnswers P (schedule_timer ∷ es) = AllAnswers P es

  abbrev AllPending : (Req → ℕ → Type 0) → List (Req × ℕ) → Type 0
  AllPending P = All (λ x. P (x.0) (x.1))

  AllAnswers-append :
      (P : Req → ℕ → Type 0) (xs ys : List (Effect Resp))
      → AllAnswers P xs
      → AllAnswers P ys
      → AllAnswers P (xs ++ ys)
  unfolding AllAnswers
  AllAnswers-append P [] ys h k = k
  AllAnswers-append P (answer reply result ∷ xs) ys h k = (h.0, AllAnswers-append P xs ys h.1 k)
  AllAnswers-append P (send_stats reply stats ∷ xs) ys h k = AllAnswers-append P xs ys h k
  AllAnswers-append P (schedule_timer ∷ xs) ys h k = AllAnswers-append P xs ys h k

  length-each : (xs : List (Req × ℕ)) → length (each (requests xs)) ≡ length xs
  unfolding each requests
  length-each [] = refl
  length-each (x ∷ xs) = ap suc (length-each xs)

  answer_all-AllAnswers :
      (P : Req → ℕ → Type 0) (xs : List (Req × ℕ))
      → AllPending P xs
      → AllAnswers P (answer_all xs (each (requests xs)))
  unfolding each requests answer_all AllAnswers
  answer_all-AllAnswers P [] h = tt
  answer_all-AllAnswers P (x ∷ xs) h = ((x.0, (h.0, refl)), answer_all-AllAnswers P xs h.1)

  -- Good answers so far, and a batch that still joins requests and channels.
  abbrev Keeps : (Req → ℕ → Type 0) → DynamicBatchingServer Req × List (Effect Resp) → Type 0
  Keeps P r = AllAnswers P (r.1) × AllPending P (r.0).pending

  flush_cases :
      (s : DynamicBatchingServer Req)
      → ((flush each s).1 ≡ []) × ((flush each s).0.pending ≡ s.pending)
        ⊎ ((flush each s).1 ≡ answer_all s.pending (each (requests s.pending)))
          × ((flush each s).0.pending ≡ [])
  unfolding flush
  flush_cases s = ground (arith, length-each s.pending)

  flush-Keeps :
      (P : Req → ℕ → Type 0) (s : DynamicBatchingServer Req)
      → AllPending P s.pending
      → Keeps P (flush each s)
  unfolding AllAnswers
  flush-Keeps P s h = elim (flush_cases s) [
    | inl (a, b) ↦ (subst (AllAnswers P) (sym a) tt, subst (AllPending P) (sym b) h)
    | inr (a, b) ↦ (
      subst (AllAnswers P) (sym a) (answer_all-AllAnswers P s.pending h),
      subst (AllPending P) (sym b) tt,
    )
  ]

  timer-AllAnswers :
      (P : Req → ℕ → Type 0) (b : Bool) → AllAnswers P (if b then schedule_timer ∷ [] else [])
  unfolding AllAnswers
  timer-AllAnswers P true = tt
  timer-AllAnswers P false = tt

  push-Keeps :
      (P : Req → ℕ → Type 0) (now : ℕ) (s : DynamicBatchingServer Req) (req : Req) (reply : ℕ)
      → AllPending P s.pending
      → P req reply
      → Keeps P (push each now s req reply)
  push-Keeps P now s req reply h p =
      let s' = grown each now s req reply in
      let pending = All-append (λ x. P (x.0) (x.1)) s.pending ((req, reply) ∷ []) h (p, tt) in
      let timer = timer-AllAnswers P (is_empty s.pending) in
      elim (Bool-cases (leb s.config.max_batch (length (s.pending ++ (req, reply) ∷ [])))) [
        | inl full ↦
            let (answers, rest) = flush-Keeps P s' pending in
            subst (Keeps P) (push_full each now s req reply full)
              (AllAnswers-append P (timer_of each s) ((flush each s').1) timer answers, rest)
        | inr room ↦ subst (Keeps P) (push_room each now s req reply room) (timer, pending)
      ]

  timer-Keeps :
      (P : Req → ℕ → Type 0) (now : ℕ) (s : DynamicBatchingServer Req)
      → AllPending P s.pending
      → Keeps P (handle_timer_flush each now s)
  unfolding AllAnswers
  timer-Keeps P now s h = elim (timer_cases each now s) [
    | inl e ↦ subst (Keeps P) e (tt, h)
    | inr (inl e) ↦ subst (Keeps P) e (tt, h)
    | inr (inr e) ↦ subst (Keeps P) e (flush-Keeps P s h)
  ]

  -- The reaction exists, its state is sound, and its answers are good.
  abbrev Goes :
      (Req → ℕ → Type 0) → Option (DynamicBatchingServer Req × List (Effect Resp)) → Type 0
  Goes P o =
      (r : DynamicBatchingServer Req × List (Effect Resp)) × ((o ≡ some r)
        × (IsSound each (r.0) × Keeps P r))

  handle-Goes :
      (P : Req → ℕ → Type 0) (now : ℕ) (s : DynamicBatchingServer Req) (m : BatchingMsg Req)
      (ms : List (ℕ × BatchingMsg Req))
      → IsSound each s
      → AllPending P s.pending
      → Joins P ((now, m) ∷ ms)
      → Goes P (handle each now s m) × Joins P ms
  unfolding handle AllAnswers Joins
  handle-Goes P now s (submit req reply) ms h a j = (
    (
      push each now s req reply,
      (
        submit-room each now s req reply h,
        ((push-Steps each now s req reply h).0, push-Keeps P now s req reply a (j.0)),
      ),
    ),
    j.1,
  )
  handle-Goes P now s timer_flush ms h a j = (
    (handle_timer_flush each now s, (refl, ((timer-Steps each now s h).0, timer-Keeps P now s a))),
    j,
  )
  handle-Goes P now s flush_now ms h a j = (
    (
      flush each s,
      (
        refl,
        ((flush-Steps each s (ground (arith, h.room)) h.undropped h.timed).0, flush-Keeps P s a),
      ),
    ),
    j,
  )
  handle-Goes P now s (get_stats reply) ms h a j =
      (((s, send_stats reply s.stats ∷ []), (refl, (h, (tt, a)))), j)

  run-Goes :
      (P : Req → ℕ → Type 0) (s : DynamicBatchingServer Req) (ms : List (ℕ × BatchingMsg Req))
      → IsSound each s
      → AllPending P s.pending
      → Joins P ms
      → Goes P (run each s ms)
  unfolding run and_then AllAnswers
  run-Goes P s [] h a j = ((s, []), (refl, (h, (tt, a))))
  run-Goes P s ((now, m) ∷ ms) h a j =
      let (((s', out), (done, (h', (good, a')))), j') = handle-Goes P now s m ms h a j in
      let ((s'', rest), (done', (h'', (good', a'')))) = run-Goes P s' ms h' a' j' in
      (
        (s'', out ++ rest),
        (ground (arith, done, done'), (h'', (AllAnswers-append P out rest good good', a''))),
      )

  -- Let the batch function answer each request by `f`, the batch size be at least one, and `P` relate every
  -- submitted request to its reply channel. After any messages at any times, every answer that was sent is
  -- `f` of some request that `P` relates to the channel of the answer: no answer is an error of the server,
  -- and none goes to the channel of another request.
  pub run-AllAnswers :
      (P : Req → ℕ → Type 0) (config : BatchingConfig) (ms : List (ℕ × BatchingMsg Req))
      → 1 ≤ config.max_batch
      → Joins P ms
      → (s : DynamicBatchingServer Req) × ((out : List (Effect Resp)) × ((run each
                (new_server config)
                ms
              ≡ some (s, out))
            × AllAnswers P out))
  unfolding new_server
  run-AllAnswers P config ms h j =
      let ((s, out), (done, (h', (good, a)))) =
        run-Goes P (new_server config) ms (new_server-IsSound each config h) tt j in
      (s, (out, (done, good)))
