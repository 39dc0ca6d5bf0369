-- ===== src/Gpu/State.antt =====
-- crates/atomr-accel-cuda/src/device/state.rs: the state that outlives the context's rebuilds. The
-- watch channel is tokio's, taken as a parameter; contexts and observers are numbered.
use atomr_accel.Common.{ℕ, ◌+◌, ◌%◌, ◌^◌, Bool, true, false, Option, none, some, List, [], ◌∷◌}

pub record Watch : Type 1 where
  pub Sender : Type 0
  pub channel : ℕ → Sender
  pub send : Sender → ℕ → Sender

abbrev pub u64_mod : ℕ
u64_mod = 2 ^ 64

-- The calls that change the state.
pub data Op : Type 0 where
  bump : Op
  shutdown : Op
  install : ℕ → Op
  clear : Op

module _ (w : Watch) where
  open w use {Sender, channel, send}

  pub record DeviceState : Type 0 where
    pub device_id : ℕ
    pub generation : ℕ
    pub accepting_ops : Bool
    pub current_ctx : Option ℕ
    pub generation_tx : Sender

  unfoldable pub new : ℕ → DeviceState
  new device_id = record {
    device_id = device_id;
    generation = 0;
    accepting_ops = true;
    current_ctx = none;
    generation_tx = channel 0;
  }

  -- `fetch_add` wraps; the new value is the old one plus one.
  unfoldable pub bump_generation : DeviceState → DeviceState
  bump_generation s =
      let next = (s.generation + 1) % u64_mod in
      record s { generation = next; generation_tx = send s.generation_tx next }

  unfoldable pub begin_shutdown : DeviceState → DeviceState
  begin_shutdown s = record s { accepting_ops = false }

  unfoldable pub install_context : ℕ → DeviceState → DeviceState
  install_context ctx s = record s { current_ctx = some ctx }

  unfoldable pub clear_context : DeviceState → DeviceState
  clear_context s = record s { current_ctx = none }

  unfoldable pub current_context : DeviceState → Option ℕ
  current_context s = s.current_ctx

  unfoldable pub apply : DeviceState → Op → DeviceState
  unfolding bump_generation begin_shutdown install_context clear_context
  apply s bump = bump_generation s
  apply s shutdown = begin_shutdown s
  apply s (install ctx) = install_context ctx s
  apply s clear = clear_context s

  unfoldable pub run : DeviceState → List Op → DeviceState
  run s [] = s
  run s (o ∷ os) = run (apply s o) os
