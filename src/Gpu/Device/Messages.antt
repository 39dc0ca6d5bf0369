-- ===== src/Gpu/Device/Messages.antt =====
-- device_actor.rs: the messages of `DeviceActor`, the work that it keeps back, and what it sends.
use atomr_accel.Common.{ℕ, Option}
use atomr_accel.Gpu.Error.{GpuError}

pub data DType : Type 0 where
  f32 f64 i8 i32 i64 u8 u32 u64 f16 bf16 : DType

-- `AllocReq<T>`, with `T` as data.
pub record AllocReq : Type 0 where
  pub dtype : DType
  pub len : ℕ
  pub reply : ℕ

-- `CopyToHostReq<T>` and `CopyFromHostReq<T>`.
pub record CopyReq : Type 0 where
  pub dtype : DType
  pub src : ℕ
  pub dst : ℕ
  pub reply : ℕ

-- Dimensions (as `i32` bit patterns) and the scalars are passed on unread.
pub record SgemmRequest {ℓ} (F : Type ℓ) : Type ℓ where
  pub a : ℕ
  pub b : ℕ
  pub c : ℕ
  pub m : ℕ
  pub n : ℕ
  pub k : ℕ
  pub alpha : F
  pub beta : F
  pub reply : ℕ

-- The kernel actors of a context: `blas`, and all others as one bundle.
pub record KernelChildren : Type 0 where
  pub blas : ℕ
  pub others : ℕ

pub data DeviceMsg (F : Type 0) : Type 0 where
  alloc : AllocReq → DeviceMsg F
  copy_to_host : CopyReq → DeviceMsg F
  copy_from_host : CopyReq → DeviceMsg F
  allocate allocate_f32 allocate_f64 allocate_i8 allocate_i32 : ℕ → ℕ → DeviceMsg F
  allocate_i64 allocate_u8 allocate_u32 allocate_u64 : ℕ → ℕ → DeviceMsg F
  allocate_f16 allocate_bf16 : ℕ → ℕ → DeviceMsg F
  copy_to_host_f32 copy_to_host_f64 copy_to_host_i32 : ℕ → ℕ → ℕ → DeviceMsg F
  copy_to_host_u32 copy_to_host_u8 : ℕ → ℕ → ℕ → DeviceMsg F
  copy_from_host_f32 copy_from_host_f64 copy_from_host_i32 : ℕ → ℕ → ℕ → DeviceMsg F
  copy_from_host_u32 copy_from_host_u8 : ℕ → ℕ → ℕ → DeviceMsg F
  sgemm : SgemmRequest F → DeviceMsg F
  snapshot_context snapshot_stream snapshot_children : ℕ → DeviceMsg F
  watch_generation stats : ℕ → DeviceMsg F
  context_ready : KernelChildren → DeviceMsg F
  context_lost : DeviceMsg F

-- The messages that `DeviceActor` sends to its `ContextActor`.
pub data ContextMsg : Type 0 where
  alloc : AllocReq → ContextMsg
  copy_to_host : CopyReq → ContextMsg
  copy_from_host : CopyReq → ContextMsg
  snapshot_stream : ℕ → ContextMsg

-- Every closure that is boxed sends the one message that it holds to the context.
pub data WorkRequest (F : Type 0) : Type 0 where
  boxed : ContextMsg → WorkRequest F
  sgemm : SgemmRequest F → WorkRequest F
  snapshot_context : ℕ → WorkRequest F

pub record DeviceLoad : Type 0 where
  pub free_bytes : ℕ
  pub total_bytes : ℕ
  pub active_streams : ℕ
  pub queue_depth : ℕ
  pub compute_cap : ℕ × ℕ

-- `dropped`: the reply channel goes away unused, and its receiver sees an error.
pub data Effect (F : Type 0) : Type 0 where
  tell_context : ℕ → ContextMsg → Effect F
  tell_blas : ℕ → SgemmRequest F → Effect F
  reply_error : ℕ → GpuError → Effect F
  reply_context : ℕ → Option ℕ → Effect F
  reply_no_stream : ℕ → Effect F
  reply_children : ℕ → Option KernelChildren → Effect F
  reply_watch : ℕ → Effect F
  reply_load : ℕ → DeviceLoad → Effect F
  dropped : ℕ → Effect F

unfoldable pub context_reply : ContextMsg → ℕ
context_reply (alloc r) = r.reply
context_reply (copy_to_host r) = r.reply
context_reply (copy_from_host r) = r.reply
context_reply (snapshot_stream reply) = reply
