-- ===== src/Gpu/Device/Handler.antt =====
-- device_actor.rs: `enqueue_pending`, `drain_pending`, `handle`, `pre_start`, `post_stop`.
use atomr_accel.Common.{
  ℕ, ◌%◌, ◌^◌, Bool, Option, none, some, List, [], ◌∷◌, ◌++◌, Text, text, leb, length, is_some,
  if◌then◌else◌,
}
use atomr_accel.Gpu.Error.{unrecoverable, gpu_ref_stale}
use atomr_accel.Gpu.State.{Watch, DeviceState, begin_shutdown, current_context}
use atomr_accel.Gpu.State
use atomr_accel.Gpu.Device.Messages.{
  f32, f64, i8, i32, i64, u8, u32, u64, f16, bf16, KernelChildren, DeviceMsg, ContextMsg,
  WorkRequest, DeviceLoad, Effect, tell_context, tell_blas, reply_error, reply_context,
  reply_no_stream, reply_children, reply_watch, reply_load, dropped, context_reply,
}

pub record DeviceConfig : Type 0 where
  pub device_id : ℕ
  pub mock_mode : Bool
  pub pending_queue_capacity : ℕ
  pub enabled_libraries : ℕ

unfoldable pub queue_full : Text
queue_full = text "device pending queue full"

unfoldable pub device_stopping : Text
device_stopping = text "device shutting down"

module _ (w : Watch) (F : Type 0) where
  pub record DeviceActor : Type 0 where
    pub config : DeviceConfig
    pub state : DeviceState w
    pub context_ref : Option ℕ
    pub children : Option KernelChildren
    pub pending : List (WorkRequest F)

  abbrev pub Reaction : Type 0
  Reaction = DeviceActor × List (Effect F)

  unfoldable pub new : DeviceConfig → DeviceActor
  new config = record {
    config = config;
    state = State.new w config.device_id;
    context_ref = none;
    children = none;
    pending = [];
  }

  -- The context's actor is spawned; a failure of the spawn is a panic of the whole actor.
  unfoldable pub pre_start : ℕ → DeviceActor → DeviceActor
  pre_start spawned d = record d { context_ref = some spawned }

  unfoldable pub refuse : WorkRequest F → Effect F
  unfolding context_reply
  refuse (WorkRequest.sgemm req) = reply_error req.reply (unrecoverable queue_full)
  refuse (WorkRequest.snapshot_context reply) = reply_context reply none
  refuse (WorkRequest.boxed m) = dropped (context_reply m)

  unfoldable pub enqueue_pending : DeviceActor → WorkRequest F → Reaction
  unfolding refuse
  enqueue_pending d work =
      if leb d.config.pending_queue_capacity (length d.pending)
      then (d, refuse work ∷ [])
      else (record d { pending = d.pending ++ work ∷ [] }, [])

  unfoldable pub dispatch : ℕ → ℕ → Option ℕ → WorkRequest F → Effect F
  dispatch ctx blas current (WorkRequest.boxed m) = tell_context ctx m
  dispatch ctx blas current (WorkRequest.sgemm req) = tell_blas blas req
  dispatch ctx blas current (WorkRequest.snapshot_context reply) = reply_context reply current

  -- The loop over the queue.
  unfoldable pub dispatch_all : ℕ → ℕ → Option ℕ → List (WorkRequest F) → List (Effect F)
  unfolding dispatch
  dispatch_all ctx blas current [] = []
  dispatch_all ctx blas current (work ∷ rest) =
      dispatch ctx blas current work ∷ dispatch_all ctx blas current rest

  unfoldable pub drain_pending : DeviceActor → Reaction
  unfolding current_context
  drain_pending d = elim d.children [
    | none ↦ (d, [])
    | some children ↦ elim d.context_ref [
      | none ↦ (d, [])
      | some ctx ↦ (
        record d { pending = [] },
        dispatch_all ctx children.blas (current_context w d.state) d.pending,
      )
    ]
  ]

  -- The first `match` of `handle`: the deprecated variants become the generic ones.
  unfoldable pub translate : DeviceMsg F → DeviceMsg F
  translate (DeviceMsg.allocate n r) = DeviceMsg.alloc (record { dtype = f32; len = n; reply = r })
  translate (DeviceMsg.allocate_f32 n r) =
      DeviceMsg.alloc (record { dtype = f32; len = n; reply = r })
  translate (DeviceMsg.allocate_f64 n r) =
      DeviceMsg.alloc (record { dtype = f64; len = n; reply = r })
  translate (DeviceMsg.allocate_i8 n r) =
      DeviceMsg.alloc (record { dtype = i8; len = n; reply = r })
  translate (DeviceMsg.allocate_i32 n r) =
      DeviceMsg.alloc (record { dtype = i32; len = n; reply = r })
  translate (DeviceMsg.allocate_i64 n r) =
      DeviceMsg.alloc (record { dtype = i64; len = n; reply = r })
  translate (DeviceMsg.allocate_u8 n r) =
      DeviceMsg.alloc (record { dtype = u8; len = n; reply = r })
  translate (DeviceMsg.allocate_u32 n r) =
      DeviceMsg.alloc (record { dtype = u32; len = n; reply = r })
  translate (DeviceMsg.allocate_u64 n r) =
      DeviceMsg.alloc (record { dtype = u64; len = n; reply = r })
  translate (DeviceMsg.allocate_f16 n r) =
      DeviceMsg.alloc (record { dtype = f16; len = n; reply = r })
  translate (DeviceMsg.allocate_bf16 n r) =
      DeviceMsg.alloc (record { dtype = bf16; len = n; reply = r })
  translate (DeviceMsg.copy_to_host_f32 s d r) =
      DeviceMsg.copy_to_host (record { dtype = f32; src = s; dst = d; reply = r })
  translate (DeviceMsg.copy_to_host_f64 s d r) =
      DeviceMsg.copy_to_host (record { dtype = f64; src = s; dst = d; reply = r })
  translate (DeviceMsg.copy_to_host_i32 s d r) =
      DeviceMsg.copy_to_host (record { dtype = i32; src = s; dst = d; reply = r })
  translate (DeviceMsg.copy_to_host_u32 s d r) =
      DeviceMsg.copy_to_host (record { dtype = u32; src = s; dst = d; reply = r })
  translate (DeviceMsg.copy_to_host_u8 s d r) =
      DeviceMsg.copy_to_host (record { dtype = u8; src = s; dst = d; reply = r })
  translate (DeviceMsg.copy_from_host_f32 s d r) =
      DeviceMsg.copy_from_host (record { dtype = f32; src = s; dst = d; reply = r })
  translate (DeviceMsg.copy_from_host_f64 s d r) =
      DeviceMsg.copy_from_host (record { dtype = f64; src = s; dst = d; reply = r })
  translate (DeviceMsg.copy_from_host_i32 s d r) =
      DeviceMsg.copy_from_host (record { dtype = i32; src = s; dst = d; reply = r })
  translate (DeviceMsg.copy_from_host_u32 s d r) =
      DeviceMsg.copy_from_host (record { dtype = u32; src = s; dst = d; reply = r })
  translate (DeviceMsg.copy_from_host_u8 s d r) =
      DeviceMsg.copy_from_host (record { dtype = u8; src = s; dst = d; reply = r })
  translate other = other

  -- The `if ready` of the three generic arms.
  unfoldable pub forward : DeviceActor → ContextMsg → Reaction
  unfolding enqueue_pending
  forward d m = elim d.context_ref [
    | some ctx ↦
        if is_some d.children
        then (d, tell_context ctx m ∷ [])
        else enqueue_pending d (WorkRequest.boxed m)
    | none ↦ enqueue_pending d (WorkRequest.boxed m)
  ]

  unfoldable pub snapshot_load : DeviceActor → DeviceLoad
  snapshot_load d = record {
    free_bytes = 0;
    total_bytes = 0;
    active_streams = 0;
    queue_depth = length d.pending % 2 ^ 32;
    compute_cap = (0, 0);
  }

  -- The second `match` of `handle`; the variants that `translate` rewrote are unreachable.
  unfoldable pub react : DeviceActor → DeviceMsg F → Reaction
  unfolding forward enqueue_pending drain_pending snapshot_load current_context
  react d (DeviceMsg.alloc r) = forward d (ContextMsg.alloc r)
  react d (DeviceMsg.copy_to_host r) = forward d (ContextMsg.copy_to_host r)
  react d (DeviceMsg.copy_from_host r) = forward d (ContextMsg.copy_from_host r)
  react d (DeviceMsg.sgemm req) = elim d.children [
    | some c ↦ (d, tell_blas c.blas req ∷ [])
    | none ↦ enqueue_pending d (WorkRequest.sgemm req)
  ]
  react d (DeviceMsg.snapshot_context reply) =
      (d, reply_context reply (current_context w d.state) ∷ [])
  react d (DeviceMsg.snapshot_stream reply) = elim d.context_ref [
    | some ctx ↦ (d, tell_context ctx (ContextMsg.snapshot_stream reply) ∷ [])
    | none ↦ (d, reply_no_stream reply ∷ [])
  ]
  react d (DeviceMsg.snapshot_children reply) = (d, reply_children reply d.children ∷ [])
  react d (DeviceMsg.watch_generation reply) = (d, reply_watch reply ∷ [])
  react d (DeviceMsg.stats reply) = (d, reply_load reply (snapshot_load d) ∷ [])
  react d (DeviceMsg.context_ready children) = drain_pending (record d { children = some children })
  react d DeviceMsg.context_lost = (record d { children = none }, [])
  react d unreachable = (d, [])

  unfoldable pub handle : DeviceActor → DeviceMsg F → Reaction
  unfolding translate react
  handle d msg = react d (translate msg)

  unfoldable pub stop_work : WorkRequest F → Effect F
  unfolding context_reply
  stop_work (WorkRequest.boxed m) = dropped (context_reply m)
  stop_work (WorkRequest.sgemm req) = reply_error req.reply (gpu_ref_stale device_stopping)
  stop_work (WorkRequest.snapshot_context reply) = reply_context reply none

  unfoldable pub stop_all : List (WorkRequest F) → List (Effect F)
  unfolding stop_work
  stop_all [] = []
  stop_all (work ∷ rest) = stop_work work ∷ stop_all rest

  unfoldable pub post_stop : DeviceActor → Reaction
  post_stop d = (record d { state = begin_shutdown w d.state; pending = [] }, stop_all d.pending)

  -- A history of messages.
  unfoldable pub run : DeviceActor → List (DeviceMsg F) → Reaction
  run d [] = (d, [])
  run d (msg ∷ msgs) =
      let (d', out) = handle d msg in let (d'', rest) = run d' msgs in (d'', out ++ rest)
