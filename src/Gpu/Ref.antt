-- ===== src/Gpu/Ref.antt =====
-- crates/atomr-accel-cuda/src/gpu_ref.rs: device buffers that are checked at each use. A `Weak`
-- handle is read as the state that it upgrades to, or `none` once that is dropped.
pub mod Validity
use atomr_accel.Common.{
  ℕ, Bool, true, false, not, Option, none, some, if◌then◌else◌, ◌==◌, Text, text,
}
use atomr_accel.Gpu.Error.{gpu_ref_stale, Result, ok, err}
use atomr_accel.Gpu.State.{Watch, DeviceState}

unfoldable pub state_dropped : Text
state_dropped = text "device state dropped"

unfoldable pub shutting_down : Text
shutting_down = text "device shutting down"

unfoldable pub context_rebuilt : Text
context_rebuilt = text "context rebuilt"

pub record Slice : Type 0 where
  pub ptr : ℕ
  pub elements : ℕ

pub record GpuRef : Type 0 where
  pub slice : Slice
  pub generation : ℕ
  pub last_write_stream : Option ℕ

module _ (w : Watch) where
  unfoldable pub new : Slice → DeviceState w → GpuRef
  new slice s = record { slice = slice; generation = s.generation; last_write_stream = none }

  unfoldable pub access : Option (DeviceState w) → GpuRef → Result Slice
  access none r = err (gpu_ref_stale state_dropped)
  access (some s) r =
      if not s.accepting_ops
      then err (gpu_ref_stale shutting_down)
      else if not (s.generation == r.generation)
      then err (gpu_ref_stale context_rebuilt)
      else ok r.slice

  after_access : Result Slice → Result ℕ
  after_access (ok slice) = ok slice.ptr
  after_access (err e) = err e

  -- `access` with `?`, then the slice's pointer.
  unfoldable pub raw_device_ptr : Option (DeviceState w) → GpuRef → Result ℕ
  unfolding after_access
  raw_device_ptr upgraded r = after_access (access upgraded r)

  unfoldable pub device_id : Option (DeviceState w) → GpuRef → Option ℕ
  device_id none r = none
  device_id (some s) r = some s.device_id

unfoldable pub len : GpuRef → ℕ
len r = r.slice.elements

unfoldable pub record_write : ℕ → GpuRef → GpuRef
record_write stream r = record r { last_write_stream = some stream }
