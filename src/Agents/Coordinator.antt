-- ===== src/Agents/Coordinator.antt =====
-- crates/atomr-accel-agents/src/shared_state.rs: one write token at a time, waiters served in order. A reply
-- channel is named by a number; the attached buffer is of any type `S`.
pub mod Exclusion
use atomr_accel.Common.{
  ℕ, ◌+◌, ◌==◌, Option, none, some, List, [], ◌∷◌, ◌++◌, length, if◌then◌else◌,
}

pub record SharedStateStats : Type 0 where
  pub current_holder : Option ℕ
  pub waiting : ℕ
  pub tokens_issued : ℕ

pub data Sent (S : Type 0) : Type 0 where
  token_sent : (reply agent token : ℕ) → Sent S
  state_sent : (reply : ℕ) (state : Option S) → Sent S
  attached : (reply : ℕ) → Sent S
  stats_sent : (reply : ℕ) (stats : SharedStateStats) → Sent S

pub data SharedStateMsg (S : Type 0) : Type 0 where
  acquire_write : (agent_id reply : ℕ) → SharedStateMsg S
  release_write : (token : ℕ) → SharedStateMsg S
  snapshot : (reply : ℕ) → SharedStateMsg S
  attach_state : (state : S) (reply : ℕ) → SharedStateMsg S
  stats : (reply : ℕ) → SharedStateMsg S

pub record SharedGpuStateCoordinator (S : Type 0) : Type 0 where
  pub counter : ℕ
  pub waiters : List (ℕ × ℕ)
  pub held : Option (ℕ × ℕ)
  pub state : Option S

module _ {S : Type 0} where
  unfoldable pub new_coordinator : SharedGpuStateCoordinator S
  new_coordinator = record { counter = 0; waiters = []; held = none; state = none }

  unfoldable pub issue_token :
      SharedGpuStateCoordinator S → ℕ → ℕ → SharedGpuStateCoordinator S × List (Sent S)
  issue_token c agent_id reply =
      let token = c.counter + 1 in
      (
        record c { counter = token; held = some (agent_id, token) },
        token_sent reply agent_id token ∷ [],
      )

  unfoldable pub release : SharedGpuStateCoordinator S → SharedGpuStateCoordinator S × List (Sent S)
  unfolding issue_token
  release c = elim c.waiters [
    | [] ↦ (record c { held = none }, [])
    | next ∷ rest ↦ issue_token (record c { held = none; waiters = rest }) (next.0) (next.1)
  ]

  unfoldable pub handle :
      SharedGpuStateCoordinator S → SharedStateMsg S → SharedGpuStateCoordinator S × List (Sent S)
  unfolding issue_token release
  handle c (acquire_write agent_id reply) = elim c.held [
    | none ↦ issue_token c agent_id reply
    | some h ↦ (record c { waiters = c.waiters ++ (agent_id, reply) ∷ [] }, [])
  ]
  handle c (release_write token) = elim c.held [
    | none ↦ (c, [])
    | some h ↦ if h.1 == token then release c else (c, [])
  ]
  handle c (snapshot reply) = (c, state_sent reply c.state ∷ [])
  handle c (attach_state state reply) = (record c { state = some state }, attached reply ∷ [])
  handle c (stats reply) = (
    c,
    stats_sent reply (record {
      current_holder = elim c.held [ none ↦ none | some h ↦ some (h.0) ];
      waiting = length c.waiters;
      tokens_issued = c.counter;
    })
        ∷ [],
  )

  unfoldable pub run :
      SharedGpuStateCoordinator S
      → List (SharedStateMsg S)
      → SharedGpuStateCoordinator S × List (Sent S)
  unfolding handle
  run c [] = (c, [])
  run c (m ∷ ms) = let (c', out) = handle c m in let (c'', rest) = run c' ms in (c'', out ++ rest)
