-- ===== src/Gpu/Context.antt =====
-- crates/atomr-accel-cuda/src/device/context_actor.rs, with alloc_dispatch.rs: the actor that owns
-- the CUDA context. The driver and the actor runtime's spawn are a record of their answers; buffers
-- are numbers, which `Buffers` looks up.
pub mod Supervised
pub mod Copies
pub mod Account
pub mod Life
pub mod Recovery
mod Examples
use atomr_accel.Common.{
  ℕ, ◌+◌, ◌==◌, Bool, not, ◌⊎◌, inl, inr, Option, none, some, List, [], ◌∷◌, ◌++◌, if◌then◌else◌,
  Text, text, decimal,
}
use atomr_accel.Gpu.Error.{
  GpuError, context_poisoned, out_of_memory, unrecoverable, gpu_ref_stale, library_error, Result,
  ok, err, context_poisoned_tag,
}
use atomr_accel.Gpu.State.{Watch, DeviceState, bump_generation, install_context, clear_context}
use atomr_accel.Gpu.Ref
use atomr_accel.Gpu.Ref.{Slice, GpuRef, access, record_write}
use atomr_accel.Gpu.Device.Messages.{DType, AllocReq, CopyReq, KernelChildren, ContextMsg}
use atomr_accel.Gpu.Device.Handler.{DeviceConfig}

-- What the driver and the runtime answer while one message is handled, errors by their texts.
-- A spawn that fails names the actor. `acquire`: why the allocator makes no stream for one of the kernel
-- actors, if a stream is asked for and no spawn has failed before.
pub record Driver : Type 0 where
  pub new_context : Text ⊎ ℕ
  pub new_stream : Text ⊎ ℕ
  pub acquire : Option Text
  pub spawn : (Text × Text) ⊎ KernelChildren
  pub alloc_zeros : ℕ → Text ⊎ Slice
  pub memcpy : Option Text

-- `ContextMsg`: the generic forms, and the deprecated ones that carry a type.
pub data Input : Type 0 where
  init : Input
  generic : ContextMsg → Input
  allocate : (dtype : DType) (len reply : ℕ) → Input
  copy_to_host copy_from_host : (dtype : DType) (src dst reply : ℕ) → Input

-- `awaits`: the copy is on the stream, and the completion will answer.
pub data Effect : Type 0 where
  context_ready : KernelChildren → Effect
  context_lost tell_init : Effect
  reply_stream : ℕ → Option ℕ → Effect
  reply_ref : ℕ → Result GpuRef → Effect
  reply_error : ℕ → GpuError → Effect
  awaits : (reply host_buffer : ℕ) → Effect

unfoldable pub no_mock_alloc : Text
no_mock_alloc = text "alloc not supported in mock mode"

unfoldable pub not_ready : Text
not_ready = text "context not ready"

unfoldable pub expect_ready : Text
unfolding text
expect_ready = text "ctx not ready"

unfoldable pub many_references : Text
many_references = text "H2D destination has multiple live references"

unfoldable pub len_mismatch : ℕ → ℕ → Text
len_mismatch src dst =
    text "memcpy len mismatch: src=" ++ (decimal src ++ (text " dst=" ++ decimal dst))

unfoldable pub spawn_failed : Text × Text → Text
unfolding text
spawn_failed (actor, e) = text "Unrecoverable: spawn" ++ 32 ∷ (actor ++ (text ": " ++ e))

unfoldable pub no_context : ℕ → Text → Text
unfolding text context_poisoned_tag
no_context id e =
    context_poisoned_tag ++ (text ": CudaContext::new(" ++ (decimal id ++ (text ") failed: " ++ e)))

unfoldable pub no_stream : ℕ → Text → Text
unfolding text context_poisoned_tag
no_stream id e =
    context_poisoned_tag
    ++ (text ": new_stream failed on device " ++ (decimal id ++ (text ": " ++ e)))

-- The panic of the allocator.
unfoldable pub no_fresh_stream : Text → Text
unfolding text
no_fresh_stream e = text "ContextPoisoned: new_stream: " ++ e

-- `Arc::try_unwrap`: the last strong reference gives the value up.
unfoldable pub try_unwrap : ℕ → Bool
try_unwrap strong = strong == 1

module _ (w : Watch) where
  -- The buffers behind the numbers: each reference with the state that its `Weak` upgrades to and the
  -- strong count of its slice.
  pub record Buffers : Type 0 where
    pub device_ref : ℕ → GpuRef
    pub owner : ℕ → Option (DeviceState w)
    pub strong_count : ℕ → ℕ
    pub host_len : ℕ → ℕ

  pub record ContextActor : Type 0 where
    pub state : DeviceState w
    pub config : DeviceConfig
    pub stream : Option ℕ
    pub allocator : Option ℕ
    pub children : Option KernelChildren

  unfoldable pub new : DeviceConfig → DeviceState w → ContextActor
  new config state = record {
    state = state;
    config = config;
    stream = none;
    allocator = none;
    children = none;
  }

  -- A handler ends, or panics with what it has changed so far.
  pub data Outcome : Type 0 where
    done : ContextActor → List Effect → Outcome
    panicked : ContextActor → Text → Outcome

  -- The kernel actors are spawned, kept and reported.
  unfoldable pub announce : ContextActor → (Text × Text) ⊎ KernelChildren → Outcome
  announce c (inl e) = panicked c (spawn_failed e)
  announce c (inr children) =
      done (record c { children = some children }) (context_ready children ∷ [])

  -- The streams of the kernel actors, outside mock mode.
  unfoldable pub acquired : ContextActor → (Text × Text) ⊎ KernelChildren → Option Text → Outcome
  unfolding announce
  acquired c spawned (some e) = panicked c (no_fresh_stream e)
  acquired c spawned none = announce c spawned

  unfoldable pub with_stream : ContextActor → Driver → ℕ → Text ⊎ ℕ → Outcome
  unfolding acquired bump_generation install_context
  with_stream c driver ctx (inl e) = panicked c (no_stream c.config.device_id e)
  with_stream c driver ctx (inr stream) =
      acquired
        (record c {
          state = install_context w ctx (bump_generation w c.state);
          stream = some stream;
          allocator = some ctx;
        })
        driver.spawn driver.acquire

  unfoldable pub with_context : ContextActor → Driver → Text ⊎ ℕ → Outcome
  unfolding with_stream
  with_context c driver (inl e) = panicked c (no_context c.config.device_id e)
  with_context c driver (inr ctx) = with_stream c driver ctx driver.new_stream

  unfoldable pub run_init : ContextActor → Driver → Outcome
  unfolding announce with_context bump_generation
  run_init c driver =
      if c.config.mock_mode
      then announce (record c { state = bump_generation w c.state }) driver.spawn
      else with_context c driver driver.new_context

  unfoldable pub allocated : ContextActor → ℕ → Text ⊎ Slice → Result GpuRef
  unfolding Ref.new
  allocated c len (inl e) = err (out_of_memory (text "alloc " ++ (decimal len ++ (text ": " ++ e))))
  allocated c len (inr slice) = ok (Ref.new w slice c.state)

  unfoldable pub alloc : ContextActor → Driver → ℕ → Result GpuRef
  unfolding allocated
  alloc c driver len =
      if c.config.mock_mode then err (unrecoverable no_mock_alloc) else elim c.stream [
        | none ↦ err (gpu_ref_stale not_ready)
        | some stream ↦ allocated c len (driver.alloc_zeros len)
      ]

  -- `run_kernel` with work that is on the stream already, unless the copy was refused.
  unfoldable pub enqueued : Text → ℕ → ℕ → Option Text → Effect
  enqueued call reply host (some e) = reply_error reply (library_error (text "driver") (call ++ e))
  enqueued call reply host none = awaits reply host

  unfoldable pub to_host_slice : Buffers → Driver → ℕ → ℕ → Result Slice → Effect
  unfolding enqueued len_mismatch
  to_host_slice b driver dst reply (err e) = reply_error reply e
  to_host_slice b driver dst reply (ok slice) =
      if not (slice.elements == b.host_len dst)
      then reply_error reply (unrecoverable (len_mismatch slice.elements (b.host_len dst)))
      else enqueued (text "memcpy_dtoh: ") reply dst driver.memcpy

  unfoldable pub run_copy_to_host : Buffers → Driver → CopyReq → Effect
  unfolding to_host_slice access
  run_copy_to_host b driver r =
      to_host_slice b driver r.dst r.reply (access w (b.owner r.src) (b.device_ref r.src))

  -- `s.clone()` is one more strong reference beside those there are, the request's own among them.
  unfoldable pub from_host_slice : Buffers → Driver → ℕ → ℕ → ℕ → Result Slice → Effect
  unfolding enqueued len_mismatch try_unwrap
  from_host_slice b driver src dst reply (err e) = reply_error reply e
  from_host_slice b driver src dst reply (ok slice) =
      if not (slice.elements == b.host_len src)
      then reply_error reply (unrecoverable (len_mismatch (b.host_len src) slice.elements))
      else if not (try_unwrap (b.strong_count dst + 1))
      then reply_error reply (unrecoverable many_references)
      else enqueued (text "memcpy_htod: ") reply src driver.memcpy

  unfoldable pub run_copy_from_host : Buffers → Driver → CopyReq → Effect
  unfolding from_host_slice access
  run_copy_from_host b driver r =
      from_host_slice b driver r.src r.dst r.reply (access w (b.owner r.dst) (b.device_ref r.dst))

  -- `self.stream.clone().expect("ctx not ready")`, and then the copy.
  unfoldable pub on_stream : ContextActor → Effect → Outcome
  on_stream c effect = elim c.stream [
    | none ↦ panicked c expect_ready
    | some stream ↦ done c (effect ∷ [])
  ]

  unfoldable pub reply_alloc : ContextActor → ℕ → Result GpuRef → Outcome
  reply_alloc c reply answer = done c (reply_ref reply answer ∷ [])

  unfoldable pub handle_generic : ContextActor → Buffers → Driver → ContextMsg → Outcome
  unfolding alloc run_copy_to_host run_copy_from_host on_stream reply_alloc
  handle_generic c b driver (ContextMsg.alloc r) = reply_alloc c r.reply (alloc c driver r.len)
  handle_generic c b driver (ContextMsg.copy_to_host r) = on_stream c (run_copy_to_host b driver r)
  handle_generic c b driver (ContextMsg.copy_from_host r) =
      on_stream c (run_copy_from_host b driver r)
  handle_generic c b driver (ContextMsg.snapshot_stream reply) =
      done c (reply_stream reply c.stream ∷ [])

  unfoldable pub handle : ContextActor → Buffers → Driver → Input → Outcome
  unfolding run_init alloc run_copy_to_host run_copy_from_host on_stream reply_alloc handle_generic
  handle c b driver init = run_init c driver
  handle c b driver (generic m) = handle_generic c b driver m
  handle c b driver (allocate dtype len reply) = reply_alloc c reply (alloc c driver len)
  handle c b driver (copy_to_host dtype src dst reply) =
      on_stream c
        (run_copy_to_host b driver (record { dtype = dtype; src = src; dst = dst; reply = reply }))
  handle c b driver (copy_from_host dtype src dst reply) =
      on_stream c (
        run_copy_from_host b driver (record { dtype = dtype; src = src; dst = dst; reply = reply }))

  abbrev pub pre_start : List Effect
  pre_start = tell_init ∷ []

  abbrev pub post_restart : List Effect
  post_restart = context_lost ∷ tell_init ∷ []

  unfoldable pub post_stop : ContextActor → ContextActor × List Effect
  unfolding clear_context
  post_stop c = (
    record c { state = clear_context w c.state; stream = none; allocator = none; children = none },
    context_lost ∷ [],
  )
