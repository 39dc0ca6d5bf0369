-- ===== src/Patterns/Examples.antt =====
-- Runs of the batching server, the cascade, the replica pool, the scheduler and speculative decoding on small inputs.
use atomr_accel.Common.{
  All, Bool, leb, true, ltb, max, ◌/◌, ◌≤◌, ℕ, ◌+◌, ◌<◌, ◌≡◌, refl, not, some, is_some, List, [],
  ◌∷◌, ◌++◌, length, is_empty, arith,
}
use atomr_accel.Gpu.Error.{Result, ok}
use atomr_accel.Patterns.Speculative.{SpeculativeConfig, DecodeStats, decode}
use atomr_accel.Patterns.Speculative.Budget.{IsReply, decode-IsReply}
use atomr_accel.Patterns.Cascade.{CascadeStageEntry, handle_predict}
use atomr_accel.Patterns.Cascade.Outcome.{Outcome, handle_predict-Outcome}
use atomr_accel.Patterns.Replicas
use atomr_accel.Patterns.Replicas.{
  ReplicaPoolMsg, round_robin, least_loaded, ModelReplicaPool, new_pool,
}
use atomr_accel.Patterns.Replicas.Rotation.{Rotates, run-Rotates}
use atomr_accel.Patterns.Replicas.Least.{IsEven}
use atomr_accel.Patterns.Replicas.Balance.{total, forwarded, sent_to, submitted, run-IsEven}
use atomr_accel.Patterns.Scheduler
use atomr_accel.Patterns.Scheduler.{
  VirtualTime, FairShareMsg, finished, FairShareScheduler, new_scheduler,
}
use atomr_accel.Patterns.Scheduler.Service.{served, queue_of, is_settled}
use atomr_accel.Patterns.Scheduler.Steps.{wanted}
use atomr_accel.Patterns.Scheduler.Runs.{run-served}
use atomr_accel.Patterns.Batching.{
  BatchingConfig, reject, BatchingMsg, submit, timer_flush, get_stats, Effect,
  DynamicBatchingServer, new_server, post_stop, run,
}
use atomr_accel.Patterns.Batching.Flushes.{answered, all_submitted}
use atomr_accel.Patterns.Batching.Results.{each, AllAnswers, Joins, run-AllAnswers}
use atomr_accel.Patterns.Batching.Settled.{post_stop-run, run-IsSound}

-- Every request is doubled.
abbrev double_all : List ℕ → List (Result ℕ)
double_all [] = []
double_all (n ∷ ns) = ok (n + n) ∷ double_all ns

abbrev config : BatchingConfig
config = record { max_batch = 2; max_wait = 10; overflow = reject }

-- A full batch, an early timer, a late one, and a request that the stop finds.
abbrev traffic : List (ℕ × BatchingMsg ℕ)
traffic =
    (0, submit 5 100)
    ∷ (1, submit 6 101)
    ∷ (2, submit 7 102)
    ∷ (5, timer_flush)
    ∷ (12, timer_flush)
    ∷ (13, get_stats 103)
    ∷ (14, submit 9 104)
    ∷ []

post_stop-run_example :
    (s : DynamicBatchingServer ℕ) × ((out : List (Effect ℕ)) × ((run double_all
            (new_server config)
            traffic
          ≡ some (s, out))
        × (answered (out ++ (post_stop double_all s).1) ≡ all_submitted traffic)))
post_stop-run_example = post_stop-run double_all config traffic (omega arith)

run-IsSound_example :
    (s : DynamicBatchingServer ℕ) × ((out : List (Effect ℕ)) × ((run double_all
            (new_server config)
            traffic
          ≡ some (s, out))
        × ((length s.pending < config.max_batch)
            × ((is_some s.batch_started_at ≡ not (is_empty s.pending))
                × (s.stats.items_dropped ≡ 0)))))
run-IsSound_example = run-IsSound double_all config traffic (omega arith)

abbrev double : ℕ → Result ℕ
double n = ok (n + n)

-- The reply channel of a request in `traffic`.
abbrev IsChannel : ℕ → ℕ → Type 0
IsChannel req reply = req + 95 ≡ reply

traffic-Joins : Joins IsChannel traffic
unfolding Joins
traffic-Joins = (refl, (refl, (refl, (refl, tt))))

run-AllAnswers_example :
    (s : DynamicBatchingServer ℕ) × ((out : List (Effect ℕ)) × ((run
            (each double)
            (new_server config)
            traffic
          ≡ some (s, out))
        × AllAnswers double IsChannel out))
run-AllAnswers_example = run-AllAnswers double IsChannel config traffic (omega arith) traffic-Joins

-- Virtual times in whole numbers.
abbrev whole : VirtualTime
whole = record { F = ℕ; zero_time = 0; lt = ltb; charge = λ weight v. v + 12 / max weight 1 }

-- Two tenants, one of them of double weight, and a submission of a stranger.
abbrev tenants : List (ℕ × ℕ)
tenants = (1, 1) ∷ (2, 2) ∷ []

abbrev submissions : List (FairShareMsg ℕ)
submissions =
    FairShareMsg.submit 1 10 200
    ∷ FairShareMsg.submit 1 11 201
    ∷ FairShareMsg.submit 2 20 202
    ∷ FairShareMsg.submit 9 90 203
    ∷ finished 1
    ∷ finished 2
    ∷ []

run-served_example :
    (s : FairShareScheduler ℕ ℕ) × ((out : List (Scheduler.Effect ℕ)) × ((Scheduler.run whole ℕ
            (new_scheduler whole ℕ 1 tenants)
            submissions
          ≡ some (s, out))
        × ((s.in_flight ≤ 1)
            × ((is_settled whole ℕ s ≡ true)
                × (served 1 out ++ queue_of whole ℕ 1 s.tenants
                    ≡ wanted whole ℕ 1 (new_scheduler whole ℕ 1 tenants).tenants submissions)))))
run-served_example = run-served whole ℕ 1 tenants submissions 1

-- A draft that overshoots, and a verifier that accepts one candidate and replaces the next.
abbrev speculative : SpeculativeConfig
speculative = record {
  draft = λ prefix k. ok (1 ∷ 2 ∷ 3 ∷ 4 ∷ []);
  verify = λ prefix candidates. ok (1, some 9);
  k = 2;
  max_total_tokens = 6;
}

decode-IsReply_example :
    (r : Result (List ℕ × DecodeStats)) × ((decode speculative (7 ∷ []) ≡ some r)
      × IsReply speculative (7 ∷ []) r)
decode-IsReply_example = decode-IsReply speculative (7 ∷ [])

-- Five requests over three replicas.
abbrev asked : List (ReplicaPoolMsg ℕ)
asked =
    Replicas.submit 5 100
    ∷ Replicas.submit 6 101
    ∷ Replicas.submit 7 102
    ∷ Replicas.submit 8 103
    ∷ Replicas.submit 9 104
    ∷ []

run-IsEven_example :
    (p : ModelReplicaPool) × ((out : List (Replicas.Effect ℕ)) × ((Replicas.run
            (new_pool (record { replicas = 7 ∷ 8 ∷ 9 ∷ []; policy = least_loaded }))
            asked
          ≡ some (p, out))
        × ((forwarded out ≡ submitted asked)
            × ((total p.counters ≡ length asked)
                × ((low : ℕ) × (IsEven low p.counters
                      × All
                          (λ x. (low ≤ sent_to x out) × (sent_to x out ≤ low + 1))
                          (7 ∷ 8 ∷ 9 ∷ [])))))))
run-IsEven_example = run-IsEven (7 ∷ 8 ∷ 9 ∷ []) asked refl (refl, (refl, (refl, tt))) (omega arith)

run-Rotates_example :
    (p : ModelReplicaPool) × ((out : List (Replicas.Effect ℕ)) × ((Replicas.run
            (new_pool (record { replicas = 7 ∷ 8 ∷ 9 ∷ []; policy = round_robin }))
            asked
          ≡ some (p, out))
        × ((forwarded out ≡ submitted asked) × Rotates (7 ∷ 8 ∷ 9 ∷ []) 0 out)))
run-Rotates_example = run-Rotates (7 ∷ 8 ∷ 9 ∷ []) asked refl (omega arith)

abbrev at_least : ℕ → ℕ → Bool
at_least a b = leb b a

-- A cheap model that is not sure, a better one that is, and a third that is not asked.
abbrev models : List (CascadeStageEntry ℕ ℕ ℕ)
models =
    record { stage = λ n. ok (n, 3); confidence_threshold = 5 }
    ∷ record { stage = λ n. ok (n + 1, 9); confidence_threshold = 8 }
    ∷ record { stage = λ n. ok (n + 2, 10); confidence_threshold = 0 }
    ∷ []

handle_predict-Outcome_example : Outcome at_least 4 models (handle_predict at_least models 4)
handle_predict-Outcome_example = handle_predict-Outcome at_least 4 models
