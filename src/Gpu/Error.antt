-- ===== src/Gpu/Error.antt =====
-- crates/atomr-accel-cuda/src/error.rs: the error type, its display form, and the supervisor's
-- decision from the typed error and from the panic message.
pub mod Routing
use atomr_accel.Common.{
  ◌≡◌, refl, Bool, true, false, ◌||◌, List, [], ◌∷◌, ◌++◌, arith, Text, text, contains, mem,
  if◌then◌else◌, contains-append_blank,
}

pub data GpuError : Type 0 where
  context_poisoned : Text → GpuError
  out_of_memory : Text → GpuError
  unrecoverable : Text → GpuError
  gpu_ref_stale : Text → GpuError
  driver : Text → GpuError
  cublas : Text → GpuError
  library_error : Text → Text → GpuError
  timeout : GpuError

-- `Result<_, GpuError>`.
pub data Result {ℓ} (A : Type ℓ) : Type ℓ where
  ok : A → Result A
  err : GpuError → Result A

-- `atomr_core::supervision::Directive`.
pub data Directive : Type 0 where
  restart resume stop escalate : Directive

unfoldable pub context_poisoned_tag : Text
unfolding text
context_poisoned_tag = text "ContextPoisoned"

unfoldable pub out_of_memory_tag : Text
unfolding text
out_of_memory_tag = text "OutOfMemory"

unfoldable pub unrecoverable_tag : Text
unfolding text
unrecoverable_tag = text "Unrecoverable"

-- `GpuError::to_string`, by the `#[error]` lines.
unfoldable pub panic_message : GpuError → Text
unfolding text
panic_message (context_poisoned m) = text "ContextPoisoned:" ++ 32 ∷ m
panic_message (out_of_memory m) = text "OutOfMemory:" ++ 32 ∷ m
panic_message (unrecoverable m) = text "Unrecoverable:" ++ 32 ∷ m
panic_message (gpu_ref_stale m) = text "GpuRef stale:" ++ 32 ∷ m
panic_message (driver m) = text "cudarc driver error:" ++ 32 ∷ m
panic_message (cublas m) = text "cudarc cuBLAS error:" ++ 32 ∷ m
panic_message (library_error lib m) = text "cudarc" ++ 32 ∷ (lib ++ 32 ∷ (text "error:" ++ 32 ∷ m))
panic_message timeout = text "ask timed out before GPU completion"

-- `DeviceSupervisor::decide_str`, and the closure that `decider` returns.
unfoldable pub decide_str : Text → Directive
decide_str msg =
    if contains context_poisoned_tag msg
    then restart
    else if contains out_of_memory_tag msg
    then resume
    else if contains unrecoverable_tag msg
    then stop
    else escalate

-- `DeviceSupervisor::decide`.
unfoldable pub decide : GpuError → Directive
decide (context_poisoned m) = restart
decide (out_of_memory m) = resume
decide (unrecoverable m) = stop
decide timeout = escalate
decide (gpu_ref_stale m) = escalate
decide (driver m) = escalate
decide (library_error lib m) = escalate
decide (cublas m) = escalate

-- None of the three tags occurs.
abbrev pub is_tagged : Text → Bool
is_tagged m =
    contains context_poisoned_tag m
    || (contains out_of_memory_tag m || contains unrecoverable_tag m)

-- The texts that an error carries.
abbrev pub payload_tagged : GpuError → Bool
payload_tagged (context_poisoned m) = false
payload_tagged (out_of_memory m) = contains context_poisoned_tag m
payload_tagged (unrecoverable m) = contains context_poisoned_tag m || contains out_of_memory_tag m
payload_tagged (gpu_ref_stale m) = is_tagged m
payload_tagged (driver m) = is_tagged m
payload_tagged (cublas m) = is_tagged m
payload_tagged (library_error lib m) = is_tagged lib || is_tagged m
payload_tagged timeout = false
