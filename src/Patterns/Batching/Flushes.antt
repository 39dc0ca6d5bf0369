-- ===== src/Patterns/Batching/Flushes.antt =====
-- batching.rs: whom a flush answers, and the state that it leaves.
use atomr_accel.Common.{
  ℕ, ◌<◌, ◌≡◌, refl, ap, not, none, is_some, List, [], ◌∷◌, ◌++◌, append-nil, length, is_empty,
  if◌then◌else◌, arith,
}
use atomr_accel.Gpu.Error.{Result, err, unrecoverable}
use atomr_accel.Patterns.Batching.{
  BatchingMsg, submit, timer_flush, flush_now, get_stats, Effect, answer, send_stats,
  schedule_timer, DynamicBatchingServer, requests, fail_all, answer_all, flush, wrong_count,
}

module _ {Resp : Type 0} where
  -- The reply channels that are answered, in order.
  unfoldable pub answered : List (Effect Resp) → List ℕ
  answered [] = []
  answered (answer reply result ∷ es) = reply ∷ answered es
  answered (send_stats reply s ∷ es) = answered es
  answered (schedule_timer ∷ es) = answered es

  pub answered-append :
      (xs ys : List (Effect Resp)) → answered (xs ++ ys) ≡ answered xs ++ answered ys
  unfolding answered
  answered-append [] ys = refl
  answered-append (answer reply result ∷ xs) ys = ap (λ l. reply ∷ l) (answered-append xs ys)
  answered-append (send_stats reply s ∷ xs) ys = answered-append xs ys
  answered-append (schedule_timer ∷ xs) ys = answered-append xs ys

module _ {Req : Type 0} where
  unfoldable pub replies : List (Req × ℕ) → List ℕ
  replies [] = []
  replies (x ∷ xs) = x.1 ∷ replies xs

  pub replies-append : (xs ys : List (Req × ℕ)) → replies (xs ++ ys) ≡ replies xs ++ replies ys
  unfolding replies
  replies-append [] ys = refl
  replies-append (x ∷ xs) ys = ap (λ l. x.1 ∷ l) (replies-append xs ys)

  -- The reply channel of a request for work.
  unfoldable pub submitted : BatchingMsg Req → List ℕ
  submitted (submit req reply) = reply ∷ []
  submitted timer_flush = []
  submitted flush_now = []
  submitted (get_stats reply) = []

  unfoldable pub all_submitted : List (ℕ × BatchingMsg Req) → List ℕ
  unfolding submitted
  all_submitted [] = []
  all_submitted ((now, m) ∷ ms) = submitted m ++ all_submitted ms

module _ {Req Resp : Type 0} where
  pub answered-fail_all :
      (e : Result Resp) (xs : List (Req × ℕ)) → answered (fail_all e xs) ≡ replies xs
  unfolding answered fail_all replies
  answered-fail_all e [] = refl
  answered-fail_all e (x ∷ xs) = ap (λ l. x.1 ∷ l) (answered-fail_all e xs)

  pub answered-answer_all :
      (xs : List (Req × ℕ)) (rs : List (Result Resp))
      → length rs ≡ length xs
      → answered (answer_all xs rs) ≡ replies xs
  unfolding answered answer_all replies
  answered-answer_all [] rs h = refl
  answered-answer_all (x ∷ xs) [] h = ground (arith, h)
  answered-answer_all (x ∷ xs) (r ∷ rs) h =
      ap (λ l. x.1 ∷ l) (answered-answer_all xs rs (omega (arith, h)))

module _ {Req Resp : Type 0} (batch_fn : List Req → List (Result Resp)) where
  -- What a flush leaves, and whom it answers.
  pub record Flushed (s : DynamicBatchingServer Req)
      (r : DynamicBatchingServer Req × List (Effect Resp)) : Type 0 where
    pub emptied : (r.0).pending ≡ []
    pub stopped : (r.0).batch_started_at ≡ (if is_empty s.pending then s.batch_started_at else none)
    pub same : (r.0).config ≡ s.config
    pub same_dropped : (r.0).stats.items_dropped ≡ s.stats.items_dropped
    pub everyone : answered (r.1) ≡ replies s.pending

  pub flush-Flushed : (s : DynamicBatchingServer Req) → Flushed s (flush batch_fn s)
  unfolding flush answered replies
  flush-Flushed s = record {
    emptied = ground arith;
    stopped = ground arith;
    same = ground arith;
    same_dropped = ground arith;
    everyone = ground (
      arith,
      answered-fail_all {Resp = Resp} (err (unrecoverable wrong_count)) s.pending,
      answered-answer_all s.pending (batch_fn (requests s.pending)),
    );
  }

  -- Fewer items than a batch wait, the timer's start is set exactly while some do, and none was dropped.
  pub record IsSound (s : DynamicBatchingServer Req) : Type 0 where
    pub room : length s.pending < s.config.max_batch
    pub timed : is_some s.batch_started_at ≡ not (is_empty s.pending)
    pub undropped : s.stats.items_dropped ≡ 0

  -- A step that goes on, keeps the state sound and answers in order.
  abbrev pub Steps :
      DynamicBatchingServer Req → List ℕ → DynamicBatchingServer Req × List (Effect Resp) → Type 0
  Steps s asked r =
      IsSound (r.0)
      × (((r.0).config ≡ s.config)
          × (answered (r.1) ++ replies (r.0).pending ≡ replies s.pending ++ asked))

  pub flush-Steps :
      (s : DynamicBatchingServer Req)
      → 0 < s.config.max_batch
      → s.stats.items_dropped ≡ 0
      → (is_some s.batch_started_at ≡ not (is_empty s.pending))
      → Steps s [] (flush batch_fn s)
  unfolding replies
  flush-Steps s h d t =
      let f = flush-Flushed s in
      (
        record {
          room = ground (arith, f.emptied, f.same);
          timed = ground (arith, f.emptied, f.stopped, t);
          undropped = ground (arith, f.same_dropped);
        },
        (f.same, ground (arith, f.everyone, f.emptied, append-nil (replies s.pending))),
      )
