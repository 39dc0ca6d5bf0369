-- ===== src/Patterns/Cascade.antt =====
-- crates/atomr-accel-patterns/src/cascade.rs. A confidence, `f32` in the source, is any type `F` with the test
-- `≥`; the stages are functions.
pub mod Outcome
use atomr_accel.Common.{
  ℕ, suc, ◌+◌, Bool, Option, none, some, List, [], ◌∷◌, is_empty, if◌then◌else◌, Text, text,
}
use atomr_accel.Gpu.Error.{unrecoverable, Result, ok, err}

pub record CascadeStageEntry (F Req Resp : Type 0) : Type 0 where
  pub stage : Req → Result (Resp × F)
  pub confidence_threshold : F

pub record CascadeReply (F Resp : Type 0) : Type 0 where
  pub response : Resp
  pub stage_index : ℕ
  pub confidence : F

unfoldable pub no_stages : Text
no_stages = text "InferenceCascade: no stages configured"

unfoldable pub no_response : Text
no_response = text "InferenceCascade: no stage produced a response"

module _ {F Resp : Type 0} where
  unfoldable pub last_reply : Option (CascadeReply F Resp) → Result (CascadeReply F Resp)
  last_reply none = err (unrecoverable no_response)
  last_reply (some r) = ok r

module _ {F Req Resp : Type 0} (at_least : F → F → Bool) where
  -- The loop over the stages from position `idx`, after `last`.
  unfoldable pub predict_loop :
      Req
      → ℕ
      → Option (CascadeReply F Resp)
      → List (CascadeStageEntry F Req Resp)
      → Result (CascadeReply F Resp)
  unfolding last_reply
  predict_loop req idx last [] = last_reply last
  predict_loop req idx last (entry ∷ stages) = elim (entry.stage req) [
    | err e ↦ err e
    | ok answer ↦
        let reply : CascadeReply F Resp = record {
          response = answer.0;
          stage_index = idx;
          confidence = answer.1;
        } in
        let rest = predict_loop req (idx + 1) (some reply) stages in
        if at_least (answer.1) entry.confidence_threshold then ok reply else rest
  ]

  unfoldable pub handle_predict :
      List (CascadeStageEntry F Req Resp) → Req → Result (CascadeReply F Resp)
  unfolding predict_loop
  handle_predict stages req =
      if is_empty stages then err (unrecoverable no_stages) else predict_loop req 0 none stages
