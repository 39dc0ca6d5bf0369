-- ===== src/Gpu/Error/Routing.antt =====
-- error.rs: the decision from the panic message against the decision from the typed error.
use atomr_accel.Common.{◌≡◌, refl, ◌↔◌, false, ◌∷◌, ◌++◌, arith, text, contains-append_blank}
use atomr_accel.Gpu.Error.{
  GpuError, context_poisoned, out_of_memory, unrecoverable, gpu_ref_stale, driver, cublas,
  library_error, timeout, context_poisoned_tag, out_of_memory_tag, unrecoverable_tag, panic_message,
  decide_str, decide, payload_tagged,
}

tags : Unit {0}
unfolding context_poisoned_tag out_of_memory_tag unrecoverable_tag panic_message
tags = tt

-- The decision read back from the panic message is the typed decision exactly when no text inside
-- the error holds a tag that is tested before the error's own.
pub decide_str-panic_message :
    (e : GpuError) → (decide_str (panic_message e) ≡ decide e) ↔ (payload_tagged e ≡ false)
unfolding decide_str decide tags text
decide_str-panic_message (context_poisoned m) = ground arith
decide_str-panic_message (out_of_memory m) = ground arith
decide_str-panic_message (unrecoverable m) = ground arith
decide_str-panic_message (gpu_ref_stale m) = ground arith
decide_str-panic_message (driver m) = ground arith
decide_str-panic_message (cublas m) = ground arith
decide_str-panic_message (library_error lib m) = ground (
  arith,
  contains-append_blank context_poisoned_tag lib (text "error:" ++ 32 ∷ m) refl,
  contains-append_blank out_of_memory_tag lib (text "error:" ++ 32 ∷ m) refl,
  contains-append_blank unrecoverable_tag lib (text "error:" ++ 32 ∷ m) refl,
)
decide_str-panic_message timeout = ground arith
