-- ===== src/Patterns/Batching.antt =====
-- crates/atomr-accel-patterns/src/batching.rs. The batch function is the argument `batch_fn`; every
-- message brings the time at which it is handled. Reply channels are numbers.
pub mod Flushes
pub mod Settled
pub mod Results
use atomr_accel.Common.{
  ℕ, ◌+◌, ◌-◌, Bool, not, leb, ◌==◌, Option, none, some, List, [], ◌∷◌, ◌++◌, length, is_empty,
  if◌then◌else◌, Text, text,
}
use atomr_accel.Gpu.Error.{unrecoverable, gpu_ref_stale, Result, ok, err}

pub data BatchOverflow : Type 0 where
  reject drop_oldest : BatchOverflow

pub record BatchingStats : Type 0 where
  pub flushes : ℕ
  pub items_processed : ℕ
  pub items_dropped : ℕ

pub record BatchingConfig : Type 0 where
  pub max_batch : ℕ
  pub max_wait : ℕ
  pub overflow : BatchOverflow

pub data BatchingMsg (Req : Type 0) : Type 0 where
  submit : (req : Req) (reply : ℕ) → BatchingMsg Req
  timer_flush : BatchingMsg Req
  flush_now : BatchingMsg Req
  get_stats : (reply : ℕ) → BatchingMsg Req

pub data Effect (Resp : Type 0) : Type 0 where
  answer : (reply : ℕ) (result : Result Resp) → Effect Resp
  send_stats : (reply : ℕ) (stats : BatchingStats) → Effect Resp
  schedule_timer : Effect Resp

unfoldable pub wrong_count : Text
wrong_count = text "BatchFn returned wrong number of results"

unfoldable pub batch_full : Text
batch_full = text "batch full"

unfoldable pub dropped_oldest : Text
dropped_oldest = text "dropped by batching overflow policy"

unfoldable pub server_stopped : Text
server_stopped = text "batching server stopped"

pub record DynamicBatchingServer (Req : Type 0) : Type 0 where
  pub config : BatchingConfig
  pub pending : List (Req × ℕ)
  pub batch_started_at : Option ℕ
  pub stats : BatchingStats

module _ {Req : Type 0} where
  unfoldable pub new_server : BatchingConfig → DynamicBatchingServer Req
  new_server config = record {
    config = config;
    pending = [];
    batch_started_at = none;
    stats = record { flushes = 0; items_processed = 0; items_dropped = 0 };
  }

  unfoldable pub requests : List (Req × ℕ) → List Req
  requests [] = []
  requests (x ∷ xs) = x.0 ∷ requests xs

module _ {Req Resp : Type 0} where
  -- The same error to every reply channel of the batch.
  unfoldable pub fail_all : Result Resp → List (Req × ℕ) → List (Effect Resp)
  fail_all e [] = []
  fail_all e (x ∷ xs) = answer (x.1) e ∷ fail_all e xs

  unfoldable pub answer_all : List (Req × ℕ) → List (Result Resp) → List (Effect Resp)
  answer_all (x ∷ xs) (r ∷ rs) = answer (x.1) r ∷ answer_all xs rs
  answer_all _ _ = []

module _ {Req Resp : Type 0} (batch_fn : List Req → List (Result Resp)) where
  abbrev pub Reaction : Type 0
  Reaction = DynamicBatchingServer Req × List (Effect Resp)

  unfoldable pub flush : DynamicBatchingServer Req → Reaction
  unfolding requests fail_all answer_all
  flush s =
      let n = length s.pending in
      let results = batch_fn (requests s.pending) in
      let s' = record s { pending = []; batch_started_at = none } in
      if is_empty s.pending
      then (s, [])
      else if not (length results == n)
      then (s', fail_all (err (unrecoverable wrong_count)) s.pending)
      else (
        record s' {
          stats = record s.stats {
            flushes = s.stats.flushes + 1;
            items_processed = s.stats.items_processed + n;
          };
        },
        answer_all s.pending results,
      )

  -- `submit` once there is room: push, start the timer of a new batch, flush a full one.
  unfoldable pub push : ℕ → DynamicBatchingServer Req → Req → ℕ → Reaction
  unfolding flush
  push now s req reply =
      let was_empty = is_empty s.pending in
      let s' = record s {
        pending = s.pending ++ (req, reply) ∷ [];
        batch_started_at = if was_empty then some now else s.batch_started_at;
      } in
      let timer = if was_empty then schedule_timer ∷ [] else [] in
      let (s'', out) = flush s' in
      if leb s'.config.max_batch (length s'.pending) then (s'', timer ++ out) else (s', timer)

  abbrev pub drop_one : DynamicBatchingServer Req → DynamicBatchingServer Req
  drop_one s = record s { stats = record s.stats { items_dropped = s.stats.items_dropped + 1 } }

  -- `none` where `pending.remove(0)` panics, on an empty batch.
  unfoldable pub handle_submit : ℕ → DynamicBatchingServer Req → Req → ℕ → Option Reaction
  unfolding push
  handle_submit now s req reply =
      if leb s.config.max_batch (length s.pending)
      then elim s.config.overflow [
        | reject ↦ some (drop_one s, answer reply (err (unrecoverable batch_full)) ∷ [])
        | drop_oldest ↦ elim s.pending [
          | [] ↦ none
          | oldest ∷ rest ↦
              let (s', out) = push now (drop_one (record s { pending = rest })) req reply in
              some (s', answer (oldest.1) (err (unrecoverable dropped_oldest)) ∷ out)
        ]
      ]
      else some (push now s req reply)

  unfoldable pub handle_timer_flush : ℕ → DynamicBatchingServer Req → Reaction
  unfolding flush
  handle_timer_flush now s = elim s.batch_started_at [
    | none ↦ (s, [])
    | some start ↦ if leb s.config.max_wait (now - start) then flush s else (s, schedule_timer ∷ [])
  ]

  unfoldable pub handle : ℕ → DynamicBatchingServer Req → BatchingMsg Req → Option Reaction
  unfolding handle_submit handle_timer_flush flush
  handle now s (submit req reply) = handle_submit now s req reply
  handle now s timer_flush = some (handle_timer_flush now s)
  handle now s flush_now = some (flush s)
  handle now s (get_stats reply) = some (s, send_stats reply s.stats ∷ [])

  unfoldable pub post_stop : DynamicBatchingServer Req → Reaction
  unfolding fail_all
  post_stop s = (record s { pending = [] }, fail_all (err (gpu_ref_stale server_stopped)) s.pending)

  and_then : List (Effect Resp) → Option Reaction → Option Reaction
  and_then out none = none
  and_then out (some (s, rest)) = some (s, out ++ rest)

  -- Messages with the times of their handling.
  unfoldable pub run : DynamicBatchingServer Req → List (ℕ × BatchingMsg Req) → Option Reaction
  unfolding handle and_then
  run s [] = some (s, [])
  run s ((now, m) ∷ ms) = elim (handle now s m) [
    | none ↦ none
    | some r ↦ and_then (r.1) (run (r.0) ms)
  ]
