-- ===== src/Train/Parameters.antt =====
-- crates/atomr-accel-train/src/parameter_server.rs and optimizer.rs: `AsyncParameterServer`. An `f32` is any type
-- `F` with the operations that are used; the version and the counters are taken to stay within
-- their types. `started` is never read and left out.
pub mod Staleness
use atomr_accel.Common.{
  ℕ, zero, suc, ◌+◌, ◌-◌, Bool, List, [], ◌∷◌, ◌++◌, length, drop, is_empty, ltb, if◌then◌else◌,
  Text, text, decimal,
}
use atomr_accel.Gpu.Error.{unrecoverable, Result, ok, err}

pub record Scalar (F : Type 0) : Type 0 where
  pub zero_f : F
  pub sub : F → F → F
  pub mul : F → F → F
  -- `a as f32 / b as f32`.
  pub ratio : ℕ → ℕ → F

pub data OptimizerKind (F : Type 0) : Type 0 where
  sgd : (lr momentum weight_decay : F) → OptimizerKind F
  adam_w : (lr beta1 beta2 eps weight_decay : F) → OptimizerKind F

abbrev pub learning_rate : {F : Type 0} → OptimizerKind F → F
learning_rate (sgd lr momentum weight_decay) = lr
learning_rate (adam_w lr beta1 beta2 eps weight_decay) = lr

pub record ParameterServerStats (F : Type 0) : Type 0 where
  pub version : ℕ
  pub gradients_applied : ℕ
  pub weights_pulled : ℕ
  pub avg_staleness : F

-- Workers and reply channels are numbers.
pub data ParameterServerMsg (F : Type 0) : Type 0 where
  push_gradient : (worker worker_version : ℕ) → List F → (reply : ℕ) → ParameterServerMsg F
  pull_weights : (worker reply : ℕ) → ParameterServerMsg F
  get_stats : (reply : ℕ) → ParameterServerMsg F

pub data Reply (F : Type 0) : Type 0 where
  pushed : ℕ → Result ℕ → Reply F
  pulled : ℕ → List F → ℕ → Reply F
  told_stats : ℕ → ParameterServerStats F → Reply F

pub record AsyncParameterServer (F : Type 0) : Type 0 where
  pub weights : List F
  pub version : ℕ
  pub optimizer : OptimizerKind F
  pub max_staleness : ℕ
  pub gradients_applied : ℕ
  pub weights_pulled : ℕ
  -- The front of the deque first.
  pub staleness_window : List ℕ

unfoldable pub too_stale : ℕ → ℕ → Text
unfolding text decimal
too_stale staleness max_staleness =
    text "parameter server: staleness "
    ++ decimal staleness
    ++ text " > max "
    ++ decimal max_staleness

abbrev sum_of : List ℕ → ℕ
sum_of [] = 0
sum_of (n ∷ ns) = n + sum_of ns

-- `push_back`, and `pop_front` where there are more than 128 then.
unfoldable pub push_window : ℕ → List ℕ → List ℕ
push_window staleness window =
    let pushed = window ++ staleness ∷ [] in
    if ltb 128 (length pushed) then drop 1 pushed else pushed

module _ {F : Type 0} (o : Scalar F) where
  unfoldable pub new_server : List F → OptimizerKind F → ℕ → AsyncParameterServer F
  new_server initial optimizer max_staleness = record {
    weights = initial;
    version = 0;
    optimizer = optimizer;
    max_staleness = max_staleness;
    gradients_applied = 0;
    weights_pulled = 0;
    staleness_window = [];
  }

  -- `w -= lr * g` for as many as both have.
  abbrev pub descend : F → List F → List F → List F
  descend lr (w ∷ weights) (g ∷ grad) = o.sub w (o.mul lr g) ∷ descend lr weights grad
  descend lr weights grad = weights

  unfoldable pub apply_gradient : AsyncParameterServer F → List F → AsyncParameterServer F
  apply_gradient s grad = record s {
    weights = descend (learning_rate s.optimizer) s.weights grad;
    version = s.version + 1;
    gradients_applied = s.gradients_applied + 1;
  }

  unfoldable pub push :
      AsyncParameterServer F → ℕ → List F → ℕ → AsyncParameterServer F × List (Reply F)
  unfolding apply_gradient push_window too_stale
  push s worker_version gradient reply =
      let staleness = s.version - worker_version in
      let applied = apply_gradient s gradient in
      if ltb s.max_staleness staleness
      then (s, pushed reply (err (unrecoverable (too_stale staleness s.max_staleness))) ∷ [])
      else (
        record applied { staleness_window = push_window staleness applied.staleness_window },
        pushed reply (ok applied.version) ∷ [],
      )

  unfoldable pub stats_of : AsyncParameterServer F → ParameterServerStats F
  stats_of s = record {
    version = s.version;
    gradients_applied = s.gradients_applied;
    weights_pulled = s.weights_pulled;
    avg_staleness =
        if is_empty s.staleness_window
        then o.zero_f
        else o.ratio (sum_of s.staleness_window) (length s.staleness_window);
  }

  unfoldable pub handle :
      AsyncParameterServer F → ParameterServerMsg F → AsyncParameterServer F × List (Reply F)
  unfolding push stats_of
  handle s (push_gradient worker worker_version gradient reply) =
      push s worker_version gradient reply
  handle s (pull_weights worker reply) =
      (record s { weights_pulled = s.weights_pulled + 1 }, pulled reply s.weights s.version ∷ [])
  handle s (get_stats reply) = (s, told_stats reply (stats_of s) ∷ [])

  -- A mailbox, message after message.
  abbrev pub run : AsyncParameterServer F → List (ParameterServerMsg F) → AsyncParameterServer F
  run s [] = s
  run s (m ∷ ms) = run ((handle s m).0) ms
