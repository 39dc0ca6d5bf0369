-- ===== src/Gpu/Device/Answered.antt =====
-- device_actor.rs: how each reply channel is settled, while the device lives and at its stop.
use atomr_accel.Common.{
  ℕ, ◌+◌, ◌≤◌, ◌≡◌, refl, ap, Option, Option-cases, inl, inr, some, List, [], ◌∷◌, ◌++◌, arith,
  count, length, length-append,
}
use atomr_accel.Gpu.Error.{gpu_ref_stale}
use atomr_accel.Gpu.State.{Watch, current_context}
use atomr_accel.Gpu.Device.Messages.{
  KernelChildren, DeviceMsg, ContextMsg, WorkRequest, Effect, tell_context, tell_blas, reply_error,
  reply_context, reply_no_stream, reply_children, reply_watch, reply_load, dropped, context_reply,
}
use atomr_accel.Gpu.Device.Handler.{
  DeviceConfig, DeviceActor, enqueue_pending, drain_pending, dispatch, dispatch_all, forward,
  translate, react, handle, stop_work, stop_all, post_stop, run,
}
use atomr_accel.Gpu.Device.Fifo.{HasRoom, work_of, works}
use atomr_accel.Gpu.Device.Settled.{all_owed, settles, settled, waiting, run-total}

nil_parts : (xs ys : List ℕ) → xs ++ ys ≡ [] → (xs ≡ []) × (ys ≡ [])
nil_parts [] ys h = (refl, h)
nil_parts (x ∷ xs) ys h = cc

module _ {F : Type 0} where
  -- The reply channel that an effect gives up: it is dropped, or told of an error.
  unfoldable pub given_up_by : Effect F → List ℕ
  given_up_by (reply_error reply e) = reply ∷ []
  given_up_by (dropped reply) = reply ∷ []
  given_up_by _ = []

  unfoldable pub given_up : List (Effect F) → List ℕ
  unfolding given_up_by
  given_up [] = []
  given_up (e ∷ es) = given_up_by e ++ given_up es

  -- The reply channel that an effect hands to the context or the BLAS actor, or answers with what was asked.
  unfoldable pub served_by : Effect F → List ℕ
  unfolding context_reply
  served_by (tell_context ctx m) = context_reply m ∷ []
  served_by (tell_blas blas req) = req.reply ∷ []
  served_by (reply_context reply c) = reply ∷ []
  served_by (reply_no_stream reply) = reply ∷ []
  served_by (reply_children reply c) = reply ∷ []
  served_by (reply_watch reply) = reply ∷ []
  served_by (reply_load reply l) = reply ∷ []
  served_by _ = []

  unfoldable pub served : List (Effect F) → List ℕ
  unfolding served_by
  served [] = []
  served (e ∷ es) = served_by e ++ served es

  -- The channels that are told of a stale reference, and those that are dropped.
  unfoldable pub told_stale : List (Effect F) → List ℕ
  told_stale [] = []
  told_stale (reply_error reply (gpu_ref_stale reason) ∷ es) = reply ∷ told_stale es
  told_stale (_ ∷ es) = told_stale es

  unfoldable pub dropped_of : List (Effect F) → List ℕ
  dropped_of [] = []
  dropped_of (dropped reply ∷ es) = reply ∷ dropped_of es
  dropped_of (_ ∷ es) = dropped_of es

  -- The channels of the matrix products in a queue, and of the messages for the context actor.
  unfoldable pub products : List (WorkRequest F) → List ℕ
  products [] = []
  products (WorkRequest.sgemm req ∷ q) = req.reply ∷ products q
  products (_ ∷ q) = products q

  unfoldable pub boxed_of : List (WorkRequest F) → List ℕ
  unfolding context_reply
  boxed_of [] = []
  boxed_of (WorkRequest.boxed m ∷ q) = context_reply m ∷ boxed_of q
  boxed_of (_ ∷ q) = boxed_of q

  given_up-append :
      (es fs : List (Effect F)) → given_up es ≡ [] → given_up fs ≡ [] → given_up (es ++ fs) ≡ []
  unfolding given_up
  given_up-append [] fs h k = k
  given_up-append (e ∷ es) fs h k =
      let (quiet, rest) = nil_parts (given_up_by e) (given_up es) h in
      rw quiet (given_up-append es fs rest k)

  -- What is settled and not given up is served.
  count-served :
      (k : ℕ) (es : List (Effect F)) → given_up es ≡ [] → count k (settled es) ≡ count k (served es)
  unfolding given_up given_up_by settled settles served served_by
  count-served k [] h = refl
  count-served k (tell_context ctx m ∷ es) h = ground (arith, count-served k es h)
  count-served k (tell_blas blas req ∷ es) h = ground (arith, count-served k es h)
  count-served k (reply_context reply c ∷ es) h = ground (arith, count-served k es h)
  count-served k (reply_children reply c ∷ es) h = ground (arith, count-served k es h)
  count-served k (reply_watch reply ∷ es) h = ground (arith, count-served k es h)
  count-served k (reply_load reply l ∷ es) h = ground (arith, count-served k es h)
  count-served k (reply_error reply e ∷ es) h = cc
  count-served k (reply_no_stream reply ∷ es) h = ground (arith, count-served k es h)
  count-served k (dropped reply ∷ es) h = cc

module _ (w : Watch) (F : Type 0) where
  given_up-dispatch_all :
      (ctx blas : ℕ) (current : Option ℕ) (q : List (WorkRequest F))
      → given_up (dispatch_all w F ctx blas current q) ≡ []
  unfolding given_up given_up_by dispatch_all dispatch
  given_up-dispatch_all ctx blas current [] = refl
  given_up-dispatch_all ctx blas current (WorkRequest.boxed m ∷ q) =
      given_up-dispatch_all ctx blas current q
  given_up-dispatch_all ctx blas current (WorkRequest.sgemm req ∷ q) =
      given_up-dispatch_all ctx blas current q
  given_up-dispatch_all ctx blas current (WorkRequest.snapshot_context reply ∷ q) =
      given_up-dispatch_all ctx blas current q

  given_up-enqueue_pending :
      (d : DeviceActor w F) (x : WorkRequest F)
      → HasRoom w F d (x ∷ [])
      → given_up (enqueue_pending w F d x).1 ≡ []
  unfolding given_up enqueue_pending
  given_up-enqueue_pending d x r = ground (arith, r)

  given_up-forward :
      (d : DeviceActor w F) (m : ContextMsg)
      → HasRoom w F d (WorkRequest.boxed m ∷ [])
      → given_up (forward w F d m).1 ≡ []
  unfolding given_up given_up_by forward
  given_up-forward d m r = ground (arith, given_up-enqueue_pending d (WorkRequest.boxed m) r)

  given_up-drain_pending :
      (d : DeviceActor w F) (children : KernelChildren)
      → given_up (drain_pending w F (record d { children = some children })).1 ≡ []
  unfolding given_up drain_pending
  given_up-drain_pending d children = elim (Option-cases d.context_ref) [
    | inl e ↦ ground (arith, e)
    | inr (ctx, e) ↦
        ground
          (arith, e, given_up-dispatch_all ctx children.blas (current_context w d.state) d.pending)
  ]

  given_up-react :
      (d : DeviceActor w F) (m : DeviceMsg F)
      → HasRoom w F d (work_of m)
      → given_up (react w F d m).1 ≡ []
  unfolding react work_of given_up given_up_by
  given_up-react d (DeviceMsg.alloc q) r = given_up-forward d (ContextMsg.alloc q) r
  given_up-react d (DeviceMsg.copy_to_host q) r = given_up-forward d (ContextMsg.copy_to_host q) r
  given_up-react d (DeviceMsg.copy_from_host q) r =
      given_up-forward d (ContextMsg.copy_from_host q) r
  given_up-react d (DeviceMsg.sgemm req) r =
      ground (arith, given_up-enqueue_pending d (WorkRequest.sgemm req) r)
  given_up-react d (DeviceMsg.context_ready children) r = given_up-drain_pending d children
  given_up-react d _ r = ground arith

  -- A message leaves the configuration, and lengthens the queue by its work at most.
  abbrev Fits : DeviceActor w F → List (WorkRequest F) → DeviceActor w F → Type 0
  Fits d work d' = (d'.config ≡ d.config) × (length d'.pending ≤ length d.pending + length work)

  enqueue_pending-Fits :
      (d : DeviceActor w F) (x : WorkRequest F) → Fits d (x ∷ []) (enqueue_pending w F d x).0
  unfolding enqueue_pending
  enqueue_pending-Fits d x = ground (arith, length-append d.pending (x ∷ []))

  forward-Fits :
      (d : DeviceActor w F) (m : ContextMsg) → Fits d (WorkRequest.boxed m ∷ []) (forward w F d m).0
  unfolding forward
  forward-Fits d m = ground (arith, enqueue_pending-Fits d (WorkRequest.boxed m))

  drain_pending-Fits :
      (d : DeviceActor w F) (children : KernelChildren)
      → Fits d [] (drain_pending w F (record d { children = some children })).0
  unfolding drain_pending
  drain_pending-Fits d children = ground arith

  react-Fits : (d : DeviceActor w F) (m : DeviceMsg F) → Fits d (work_of m) (react w F d m).0
  unfolding react work_of
  react-Fits d (DeviceMsg.alloc q) = forward-Fits d (ContextMsg.alloc q)
  react-Fits d (DeviceMsg.copy_to_host q) = forward-Fits d (ContextMsg.copy_to_host q)
  react-Fits d (DeviceMsg.copy_from_host q) = forward-Fits d (ContextMsg.copy_from_host q)
  react-Fits d (DeviceMsg.sgemm req) =
      ground (arith, enqueue_pending-Fits d (WorkRequest.sgemm req))
  react-Fits d (DeviceMsg.context_ready children) = drain_pending-Fits d children
  react-Fits d _ = ground arith

  given_up-run :
      (d : DeviceActor w F) (ms : List (DeviceMsg F))
      → length d.pending + length (works w F ms) ≤ d.config.pending_queue_capacity
      → given_up (run w F d ms).1 ≡ []
  unfolding run works handle given_up
  given_up-run d [] r = refl
  given_up-run d (m ∷ ms) r =
      let split = length-append (work_of (translate w F m)) (works w F ms) in
      let (same, longer) = react-Fits d (translate w F m) in
      let d' = (react w F d (translate w F m)).0 in
      given_up-append ((react w F d (translate w F m)).1) ((run w F d' ms).1)
        (given_up-react d (translate w F m) (omega (arith, split, r)))
        (given_up-run d' ms (
          omega
            (arith, split, r, longer, ap (λ (c : DeviceConfig). c.pending_queue_capacity) same)))

module _ (w : Watch) (F : Type 0) (k : ℕ) where
  count-told_stale :
      (q : List (WorkRequest F)) → count k (told_stale (stop_all w F q)) ≡ count k (products q)
  unfolding stop_all stop_work told_stale products
  count-told_stale [] = refl
  count-told_stale (WorkRequest.boxed m ∷ q) = count-told_stale q
  count-told_stale (WorkRequest.sgemm req ∷ q) = ground (arith, count-told_stale q)
  count-told_stale (WorkRequest.snapshot_context reply ∷ q) = count-told_stale q

  count-dropped_of :
      (q : List (WorkRequest F)) → count k (dropped_of (stop_all w F q)) ≡ count k (boxed_of q)
  unfolding stop_all stop_work dropped_of boxed_of
  count-dropped_of [] = refl
  count-dropped_of (WorkRequest.boxed m ∷ q) = ground (arith, count-dropped_of q)
  count-dropped_of (WorkRequest.sgemm req ∷ q) = count-dropped_of q
  count-dropped_of (WorkRequest.snapshot_context reply ∷ q) = count-dropped_of q

  -- A device in any state, and work in reach of the queue's capacity, until the stop: each reply channel that
  -- was brought or waited in the queue is handed to the context or the BLAS actor, is answered, or waits in the
  -- queue, exactly as often as it was brought or waited; none is dropped or told of an error before the
  -- stop. At the stop each matrix product in the queue is answered with a stale reference, each message for the context
  -- actor in it is dropped, and the queue is empty.
  pub post_stop-run-served :
      (d : DeviceActor w F) (ms : List (DeviceMsg F))
      → length d.pending + length (works w F ms) ≤ d.config.pending_queue_capacity
      → let (d', out) = run w F d ms in
        let (stopped, final) = post_stop w F d' in
        (count k (served out) + count k (waiting d'.pending)
          ≡ count k (waiting d.pending) + count k (all_owed ms))
        × ((given_up out ≡ [])
            × ((count k (told_stale final) ≡ count k (products d'.pending))
                × ((count k (dropped_of final) ≡ count k (boxed_of d'.pending))
                    × (stopped.pending ≡ []))))
  unfolding post_stop
  post_stop-run-served d ms r =
      let none_lost = given_up-run w F d ms r in
      let left = (run w F d ms).0.pending in
      (
        omega (arith, run-total w F k d ms, count-served k ((run w F d ms).1) none_lost),
        (none_lost, (count-told_stale left, (count-dropped_of left, refl))),
      )
