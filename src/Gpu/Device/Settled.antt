-- ===== src/Gpu/Device/Settled.antt =====
-- device_actor.rs: how often a reply channel is settled in any way, over a history of messages.
use atomr_accel.Common.{
  ℕ, ◌+◌, ◌≡◌, refl, Option-cases, inl, inr, Option, some, List, [], ◌∷◌, ◌++◌, arith, count,
  count-append,
}
use atomr_accel.Gpu.State.{Watch, current_context}
use atomr_accel.Gpu.Device.Messages.{
  DeviceMsg, ContextMsg, WorkRequest, Effect, tell_context, tell_blas, reply_error, reply_context,
  reply_no_stream, reply_children, reply_watch, reply_load, dropped, context_reply,
}
use atomr_accel.Gpu.Device.Handler.{
  DeviceActor, Reaction, enqueue_pending, drain_pending, dispatch, dispatch_all, forward, translate,
  react, handle, stop_work, stop_all, refuse, run,
}

module _ {F : Type 0} where
  -- The reply channel that a message brings, if any.
  unfoldable pub owed : DeviceMsg F → List ℕ
  owed (DeviceMsg.alloc r) = r.reply ∷ []
  owed (DeviceMsg.copy_to_host r) = r.reply ∷ []
  owed (DeviceMsg.copy_from_host r) = r.reply ∷ []
  owed (DeviceMsg.allocate n reply) = reply ∷ []
  owed (DeviceMsg.allocate_f32 n reply) = reply ∷ []
  owed (DeviceMsg.allocate_f64 n reply) = reply ∷ []
  owed (DeviceMsg.allocate_i8 n reply) = reply ∷ []
  owed (DeviceMsg.allocate_i32 n reply) = reply ∷ []
  owed (DeviceMsg.allocate_i64 n reply) = reply ∷ []
  owed (DeviceMsg.allocate_u8 n reply) = reply ∷ []
  owed (DeviceMsg.allocate_u32 n reply) = reply ∷ []
  owed (DeviceMsg.allocate_u64 n reply) = reply ∷ []
  owed (DeviceMsg.allocate_f16 n reply) = reply ∷ []
  owed (DeviceMsg.allocate_bf16 n reply) = reply ∷ []
  owed (DeviceMsg.copy_to_host_f32 s d reply) = reply ∷ []
  owed (DeviceMsg.copy_to_host_f64 s d reply) = reply ∷ []
  owed (DeviceMsg.copy_to_host_i32 s d reply) = reply ∷ []
  owed (DeviceMsg.copy_to_host_u32 s d reply) = reply ∷ []
  owed (DeviceMsg.copy_to_host_u8 s d reply) = reply ∷ []
  owed (DeviceMsg.copy_from_host_f32 s d reply) = reply ∷ []
  owed (DeviceMsg.copy_from_host_f64 s d reply) = reply ∷ []
  owed (DeviceMsg.copy_from_host_i32 s d reply) = reply ∷ []
  owed (DeviceMsg.copy_from_host_u32 s d reply) = reply ∷ []
  owed (DeviceMsg.copy_from_host_u8 s d reply) = reply ∷ []
  owed (DeviceMsg.sgemm req) = req.reply ∷ []
  owed (DeviceMsg.snapshot_context reply) = reply ∷ []
  owed (DeviceMsg.snapshot_stream reply) = reply ∷ []
  owed (DeviceMsg.snapshot_children reply) = reply ∷ []
  owed (DeviceMsg.watch_generation reply) = reply ∷ []
  owed (DeviceMsg.stats reply) = reply ∷ []
  owed (DeviceMsg.context_ready children) = []
  owed DeviceMsg.context_lost = []

  unfoldable pub all_owed : List (DeviceMsg F) → List ℕ
  unfolding owed
  all_owed [] = []
  all_owed (m ∷ ms) = owed m ++ all_owed ms

  -- The reply channel that an effect hands on, answers or drops.
  unfoldable pub settles : Effect F → ℕ
  unfolding context_reply
  settles (tell_context ctx m) = context_reply m
  settles (tell_blas blas req) = req.reply
  settles (reply_error reply e) = reply
  settles (reply_context reply c) = reply
  settles (reply_no_stream reply) = reply
  settles (reply_children reply c) = reply
  settles (reply_watch reply) = reply
  settles (reply_load reply l) = reply
  settles (dropped reply) = reply

  unfoldable pub settled : List (Effect F) → List ℕ
  unfolding settles
  settled [] = []
  settled (e ∷ es) = settles e ∷ settled es

  unfoldable pub work_reply : WorkRequest F → ℕ
  unfolding context_reply
  work_reply (WorkRequest.boxed m) = context_reply m
  work_reply (WorkRequest.sgemm req) = req.reply
  work_reply (WorkRequest.snapshot_context reply) = reply

  unfoldable pub waiting : List (WorkRequest F) → List ℕ
  unfolding work_reply
  waiting [] = []
  waiting (x ∷ xs) = work_reply x ∷ waiting xs

  count-settled-append :
      (k : ℕ) (es fs : List (Effect F))
      → count k (settled (es ++ fs)) ≡ count k (settled es) + count k (settled fs)
  unfolding settled
  count-settled-append k [] fs = omega arith
  count-settled-append k (e ∷ es) fs = ground (arith, count-settled-append k es fs)

  count-waiting-append :
      (k : ℕ) (xs ys : List (WorkRequest F))
      → count k (waiting (xs ++ ys)) ≡ count k (waiting xs) + count k (waiting ys)
  unfolding waiting
  count-waiting-append k [] ys = omega arith
  count-waiting-append k (x ∷ xs) ys = ground (arith, count-waiting-append k xs ys)

module _ (w : Watch) (F : Type 0) (k : ℕ) where
  -- How often the channel `k` is settled by a reaction or still waits after it.
  abbrev total : Reaction w F → ℕ
  total (d, out) = count k (settled out) + count k (waiting d.pending)

  enqueue_pending-total :
      (d : DeviceActor w F) (x : WorkRequest F)
      → total (enqueue_pending w F d x) ≡ count k (waiting d.pending) + count k (work_reply x ∷ [])
  unfolding enqueue_pending refuse settled waiting work_reply
  enqueue_pending-total d (WorkRequest.boxed m) =
      ground (arith, count-waiting-append k d.pending (WorkRequest.boxed m ∷ []))
  enqueue_pending-total d (WorkRequest.sgemm req) =
      ground (arith, count-waiting-append k d.pending (WorkRequest.sgemm req ∷ []))
  enqueue_pending-total d (WorkRequest.snapshot_context reply) =
      ground (arith, count-waiting-append k d.pending (WorkRequest.snapshot_context reply ∷ []))

  count-dispatch_all :
      (ctx blas : ℕ) (current : Option ℕ) (q : List (WorkRequest F))
      → count k (settled (dispatch_all w F ctx blas current q)) ≡ count k (waiting q)
  unfolding dispatch_all dispatch settled waiting
  count-dispatch_all ctx blas current [] = refl
  count-dispatch_all ctx blas current (WorkRequest.boxed m ∷ q) =
      ground (arith, count-dispatch_all ctx blas current q)
  count-dispatch_all ctx blas current (WorkRequest.sgemm req ∷ q) =
      ground (arith, count-dispatch_all ctx blas current q)
  count-dispatch_all ctx blas current (WorkRequest.snapshot_context reply ∷ q) =
      ground (arith, count-dispatch_all ctx blas current q)

  count-stop_all :
      (q : List (WorkRequest F)) → count k (settled (stop_all w F q)) ≡ count k (waiting q)
  unfolding stop_all stop_work settled waiting
  count-stop_all [] = refl
  count-stop_all (WorkRequest.boxed m ∷ q) = ground (arith, count-stop_all q)
  count-stop_all (WorkRequest.sgemm req ∷ q) = ground (arith, count-stop_all q)
  count-stop_all (WorkRequest.snapshot_context reply ∷ q) = ground (arith, count-stop_all q)

  drain_pending-total :
      (d : DeviceActor w F) → total (drain_pending w F d) ≡ count k (waiting d.pending)
  unfolding drain_pending settled waiting
  drain_pending-total d = elim (Option-cases d.children) [
    | inl e ↦ ground arith
    | inr (children, e) ↦ elim (Option-cases d.context_ref) [
      | inl e' ↦ ground arith
      | inr (ctx, e') ↦
          let sent = count-dispatch_all ctx children.blas (current_context w d.state) d.pending in
          ground (arith, sent)
    ]
  ]

  forward-total :
      (d : DeviceActor w F) (m : ContextMsg)
      → total (forward w F d m) ≡ count k (waiting d.pending) + count k (context_reply m ∷ [])
  unfolding forward settled settles work_reply
  forward-total d m = ground (arith, enqueue_pending-total d (WorkRequest.boxed m))

  -- What a message in its generic form brings; the deprecated forms bring nothing here.
  generic_owed : DeviceMsg F → List ℕ
  unfolding owed
  generic_owed (DeviceMsg.alloc r) = r.reply ∷ []
  generic_owed (DeviceMsg.copy_to_host r) = r.reply ∷ []
  generic_owed (DeviceMsg.copy_from_host r) = r.reply ∷ []
  generic_owed (DeviceMsg.sgemm req) = req.reply ∷ []
  generic_owed (DeviceMsg.snapshot_context reply) = reply ∷ []
  generic_owed (DeviceMsg.snapshot_stream reply) = reply ∷ []
  generic_owed (DeviceMsg.snapshot_children reply) = reply ∷ []
  generic_owed (DeviceMsg.watch_generation reply) = reply ∷ []
  generic_owed (DeviceMsg.stats reply) = reply ∷ []
  generic_owed _ = []

  owed-translate : (m : DeviceMsg F) → generic_owed (translate w F m) ≡ owed m
  unfolding generic_owed owed translate
  owed-translate (DeviceMsg.alloc r) = refl
  owed-translate _ = refl

  react-total :
      (d : DeviceActor w F) (m : DeviceMsg F)
      → total (react w F d m) ≡ count k (waiting d.pending) + count k (generic_owed m)
  unfolding react generic_owed settled settles work_reply context_reply
  react-total d (DeviceMsg.alloc r) = forward-total d (ContextMsg.alloc r)
  react-total d (DeviceMsg.copy_to_host r) = forward-total d (ContextMsg.copy_to_host r)
  react-total d (DeviceMsg.copy_from_host r) = forward-total d (ContextMsg.copy_from_host r)
  react-total d (DeviceMsg.sgemm req) =
      ground (arith, enqueue_pending-total d (WorkRequest.sgemm req))
  react-total d (DeviceMsg.context_ready children) =
      ground (arith, drain_pending-total (record d { children = some children }))
  react-total d _ = ground arith

  handle-total :
      (d : DeviceActor w F) (m : DeviceMsg F)
      → total (handle w F d m) ≡ count k (waiting d.pending) + count k (owed m)
  unfolding handle
  handle-total d m = rw (← owed-translate m) (react-total d (translate w F m))

  pub run-total :
      (d : DeviceActor w F) (ms : List (DeviceMsg F))
      → total (run w F d ms) ≡ count k (waiting d.pending) + count k (all_owed ms)
  unfolding run all_owed settled
  run-total d [] = omega arith
  run-total d (m ∷ ms) = omega (
    arith,
    handle-total d m,
    run-total (handle w F d m).0 ms,
    count-settled-append k (handle w F d m).1 (run w F (handle w F d m).0 ms).1,
    count-append k (owed m) (all_owed ms),
  )
