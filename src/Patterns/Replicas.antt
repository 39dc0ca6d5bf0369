-- ===== src/Patterns/Replicas.antt =====
-- crates/atomr-accel-patterns/src/replica_pool.rs. Replicas and reply channels are numbers.
pub mod Least
pub mod Tally
pub mod Balance
pub mod Rotation
use atomr_accel.Common.{
  ℕ, zero, suc, ◌+◌, ◌%◌, ◌^◌, Bool, Option, none, some, List, [], ◌∷◌, ◌++◌, length, get_elem?,
  set, is_empty, ltb, if◌then◌else◌, Text, text,
}

pub data RoutingPolicy : Type 0 where
  round_robin least_loaded : RoutingPolicy

pub record ReplicaPoolConfig : Type 0 where
  pub replicas : List ℕ
  pub policy : RoutingPolicy

pub data ReplicaPoolMsg (Req : Type 0) : Type 0 where
  submit : (req : Req) (reply : ℕ) → ReplicaPoolMsg Req

pub data Effect (Req : Type 0) : Type 0 where
  forward : (replica : ℕ) (req : Req) (reply : ℕ) → Effect Req
  refuse : (reply : ℕ) (reason : Text) → Effect Req

pub record ModelReplicaPool : Type 0 where
  pub config : ReplicaPoolConfig
  pub cursor : ℕ
  pub counters : List ℕ

unfoldable pub zero_replicas : Text
zero_replicas = text "ModelReplicaPool: zero replicas"

abbrev pub u32_max : ℕ
u32_max = 4294967295

unfoldable pub zeros : List ℕ → List ℕ
zeros [] = []
zeros (r ∷ rs) = 0 ∷ zeros rs

unfoldable pub new_pool : ReplicaPoolConfig → ModelReplicaPool
unfolding zeros
new_pool config = record { config = config; cursor = 0; counters = zeros config.replicas }

-- The loop over the counters from position `i`.
unfoldable pub least_index : ℕ → ℕ → ℕ → List ℕ → ℕ
least_index i low low_idx [] = low_idx
least_index i low low_idx (v ∷ vs) =
    let smaller = least_index (suc i) v i vs in
    let kept = least_index (suc i) low low_idx vs in if ltb v low then smaller else kept

unfoldable pub pick_replica : ModelReplicaPool → ModelReplicaPool × Option ℕ
unfolding least_index
pick_replica p =
    let n = length p.config.replicas in
    if is_empty p.config.replicas then (p, none) else elim p.config.policy [
      | round_robin ↦ (record p { cursor = (p.cursor + 1) % 2 ^ 64 }, some (p.cursor % n))
      | least_loaded ↦ (p, some (least_index 0 u32_max 0 p.counters))
    ]

module _ {Req : Type 0} where
  -- `none` where the source panics, on an index out of range.
  unfoldable pub send_to :
      ModelReplicaPool → ℕ → Req → ℕ → Option (ModelReplicaPool × List (Effect Req))
  send_to p idx req reply = elim (get_elem? p.counters idx) [
    | none ↦ none
    | some v ↦ elim (get_elem? p.config.replicas idx) [
      | none ↦ none
      | some replica ↦ some (
        record p { counters = set p.counters idx ((v + 1) % 2 ^ 32) },
        forward replica req reply ∷ [],
      )
    ]
  ]

  unfoldable pub handle :
      ModelReplicaPool → ReplicaPoolMsg Req → Option (ModelReplicaPool × List (Effect Req))
  unfolding pick_replica send_to
  handle p (submit req reply) =
      let (p', picked) = pick_replica p in
      elim picked [
        | none ↦ some (p', refuse reply zero_replicas ∷ [])
        | some idx ↦ send_to p' idx req reply
      ]

  and_then :
      List (Effect Req)
      → Option (ModelReplicaPool × List (Effect Req))
      → Option (ModelReplicaPool × List (Effect Req))
  and_then out none = none
  and_then out (some (p, rest)) = some (p, out ++ rest)

  unfoldable pub run :
      ModelReplicaPool → List (ReplicaPoolMsg Req) → Option (ModelReplicaPool × List (Effect Req))
  unfolding handle and_then
  run p [] = some (p, [])
  run p (m ∷ ms) = elim (handle p m) [ none ↦ none | some r ↦ and_then (r.1) (run (r.0) ms) ]
