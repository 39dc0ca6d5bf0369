-- ===== src/Gpu/Device/Fifo.antt =====
-- device_actor.rs: work leaves the device actor in the order in which it came.
use mathlib.Core.List.{append-nil, append_assoc}
use atomr_accel.Common.{
  ℕ, ◌+◌, ◌≤◌, ◌≡◌, refl, sym, ◌∙◌, ap, Bool, true, false, not, ◌&&◌, Option, none, some, List, [],
  ◌∷◌, ◌++◌, arith, Option-cases, inl, inr, length, is_some, is_empty, length-append,
}
use atomr_accel.Gpu.State.{Watch, current_context}
use atomr_accel.Gpu.Device.Messages.{
  KernelChildren, DeviceMsg, ContextMsg, WorkRequest, Effect, tell_context, tell_blas,
}
use atomr_accel.Gpu.Device.Handler.{
  DeviceConfig, DeviceActor, Reaction, enqueue_pending, drain_pending, dispatch, dispatch_all,
  forward, translate, react, handle, run,
}

module _ {F : Type 0} where
  -- The work that a message in its generic form asks for.
  unfoldable pub work_of : DeviceMsg F → List (WorkRequest F)
  work_of (DeviceMsg.alloc r) = WorkRequest.boxed (ContextMsg.alloc r) ∷ []
  work_of (DeviceMsg.copy_to_host r) = WorkRequest.boxed (ContextMsg.copy_to_host r) ∷ []
  work_of (DeviceMsg.copy_from_host r) = WorkRequest.boxed (ContextMsg.copy_from_host r) ∷ []
  work_of (DeviceMsg.sgemm req) = WorkRequest.sgemm req ∷ []
  work_of _ = []

  -- The work that an effect hands to the context or to the BLAS actor.
  pub handed : Effect F → List (WorkRequest F)
  handed (tell_context ctx (ContextMsg.snapshot_stream reply)) = []
  handed (tell_context ctx m) = WorkRequest.boxed m ∷ []
  handed (tell_blas blas req) = WorkRequest.sgemm req ∷ []
  handed _ = []

  pub handed_over : List (Effect F) → List (WorkRequest F)
  handed_over [] = []
  handed_over (e ∷ es) = handed e ++ handed_over es

  pub handed_over-append :
      (es fs : List (Effect F)) → handed_over (es ++ fs) ≡ handed_over es ++ handed_over fs
  unfolding handed_over
  handed_over-append [] fs = refl
  handed_over-append (e ∷ es) fs = simp (handed_over-append es fs, append_assoc)

  -- Two stretches of a history, each of which moves work in order, do so together.
  chain :
      (out : List (WorkRequest F)) (es fs : List (Effect F))
      (q p work later q' : List (WorkRequest F))
      → handed_over es ≡ out
      → out ++ q ≡ p ++ work
      → handed_over fs ++ q' ≡ q ++ later
      → handed_over (es ++ fs) ++ q' ≡ p ++ (work ++ later)
  chain out es fs q p work later q' e moved moved' =
      rw (handed_over-append es fs, e, append_assoc out (handed_over fs) q', moved')
        (sym (append_assoc out q later) ∙ ap (λ l. l ++ later) moved ∙ append_assoc p work later)

  -- What the queue holds: allocations, copies and matrix products.
  abbrev pub is_work : WorkRequest F → Bool
  is_work (WorkRequest.boxed (ContextMsg.snapshot_stream reply)) = false
  is_work (WorkRequest.boxed _) = true
  is_work (WorkRequest.sgemm req) = true
  is_work (WorkRequest.snapshot_context reply) = false

  abbrev pub all_work : List (WorkRequest F) → Bool
  all_work [] = true
  all_work (x ∷ xs) = is_work x && all_work xs

module _ (w : Watch) (F : Type 0) where
  -- The context's actor was spawned, the queue holds work only, and none while a context is ready.
  pub record IsStarted (d : DeviceActor w F) : Type 0 where
    pub started : is_some d.context_ref ≡ true
    pub queued : all_work d.pending ≡ true
    pub drained : (is_some d.children && not (is_empty d.pending)) ≡ false

  handed-dispatch :
      (ctx blas : ℕ) (current : Option ℕ) (x : WorkRequest F)
      → is_work x ≡ true
      → handed (dispatch w F ctx blas current x) ≡ x ∷ []
  unfolding handed dispatch
  handed-dispatch ctx blas current (WorkRequest.boxed (ContextMsg.snapshot_stream r)) h = cc
  handed-dispatch ctx blas current (WorkRequest.boxed _) h = refl
  handed-dispatch ctx blas current (WorkRequest.sgemm req) h = refl
  handed-dispatch ctx blas current (WorkRequest.snapshot_context r) h = cc

  handed_over-dispatch_all :
      (ctx blas : ℕ) (current : Option ℕ) (q : List (WorkRequest F))
      → all_work q ≡ true
      → handed_over (dispatch_all w F ctx blas current q) ≡ q
  unfolding handed_over dispatch_all
  handed_over-dispatch_all ctx blas current [] h = refl
  handed_over-dispatch_all ctx blas current (x ∷ q) h =
      ground
        (arith, handed-dispatch ctx blas current x, handed_over-dispatch_all ctx blas current q)

  all_work-append :
      (xs : List (WorkRequest F)) (x : WorkRequest F)
      → all_work xs ≡ true
      → is_work x ≡ true
      → all_work (xs ++ x ∷ []) ≡ true
  all_work-append [] x h k = ground arith
  all_work-append (y ∷ xs) x h k = ground (arith, all_work-append xs x)

  -- One message keeps the invariant and the configuration, and moves work from the back of the
  -- queue to the front in order, if there is room for the message's work.
  abbrev pub Kept : DeviceActor w F → List (WorkRequest F) → Reaction w F → Type 0
  Kept d work (d', out) =
      IsStarted d' × (d'.config ≡ d.config) × (handed_over out ++ d'.pending ≡ d.pending ++ work)

  abbrev pub HasRoom : DeviceActor w F → List (WorkRequest F) → Type 0
  HasRoom d work = length d.pending + length work ≤ d.config.pending_queue_capacity

  enqueue_pending-Kept :
      (d : DeviceActor w F) (x : WorkRequest F)
      → IsStarted d
      → d.children ≡ none
      → is_work x ≡ true
      → HasRoom d (x ∷ [])
      → Kept d (x ∷ []) (enqueue_pending w F d x)
  unfolding enqueue_pending handed_over
  enqueue_pending-Kept d x h lost k r = ground (arith, all_work-append d.pending x h.queued k)

  forward-Kept :
      (d : DeviceActor w F) (m : ContextMsg)
      → IsStarted d
      → is_work {F = F} (WorkRequest.boxed m) ≡ true
      → HasRoom d (WorkRequest.boxed m ∷ [])
      → Kept d (WorkRequest.boxed m ∷ []) (forward w F d m)
  unfolding forward handed_over handed
  forward-Kept d (ContextMsg.snapshot_stream reply) h k r = cc
  forward-Kept d m h k r =
      ground (arith, enqueue_pending-Kept d (WorkRequest.boxed m) h, append-nil d.pending)

  drain_pending-Kept :
      (d : DeviceActor w F) (children : KernelChildren)
      → IsStarted d
      → Kept d [] (drain_pending w F (record d { children = some children }))
  unfolding drain_pending
  drain_pending-Kept d children h = elim (Option-cases d.context_ref) [
    | inl e ↦ cc
    | inr (ctx, e) ↦
        let sent =
          handed_over-dispatch_all ctx children.blas (current_context w d.state) d.pending in
        ground (arith, sent h.queued, append-nil d.pending)
  ]

  react-Kept :
      (d : DeviceActor w F) (m : DeviceMsg F)
      → IsStarted d
      → HasRoom d (work_of m)
      → Kept d (work_of m) (react w F d m)
  unfolding react work_of handed_over handed
  react-Kept d (DeviceMsg.alloc q) h r = forward-Kept d (ContextMsg.alloc q) h refl r
  react-Kept d (DeviceMsg.copy_to_host q) h r = forward-Kept d (ContextMsg.copy_to_host q) h refl r
  react-Kept d (DeviceMsg.copy_from_host q) h r =
      forward-Kept d (ContextMsg.copy_from_host q) h refl r
  react-Kept d (DeviceMsg.sgemm req) h r =
      ground (arith, enqueue_pending-Kept d (WorkRequest.sgemm req) h, append-nil d.pending)
  react-Kept d (DeviceMsg.context_ready children) h r = drain_pending-Kept d children h
  react-Kept d _ h r = ground (arith, append-nil d.pending)

  room :
      (d d' : DeviceActor w F) (out work later : List (WorkRequest F))
      → d'.config ≡ d.config
      → out ++ d'.pending ≡ d.pending ++ work
      → length d.pending + (length work + length later) ≤ d.config.pending_queue_capacity
      → length d'.pending + length later ≤ d'.config.pending_queue_capacity
  room d d' out work later same moved r = omega (
    arith,
    ap (λ (c : DeviceConfig). c.pending_queue_capacity) same,
    ap length moved,
    length-append out d'.pending,
    length-append d.pending work,
  )

  -- The work of a history, in order.
  unfoldable pub works : List (DeviceMsg F) → List (WorkRequest F)
  works [] = []
  works (m ∷ ms) = work_of (translate w F m) ++ works ms

  -- Work that is in reach of the queue's capacity is neither lost nor reordered: over any history
  -- of messages, of context losses and recoveries too, what was handed on followed by what still
  -- waits is what waited at the start followed by the work asked for. No work is held while a
  -- context is ready.
  pub run-Kept :
      (d : DeviceActor w F) (ms : List (DeviceMsg F))
      → IsStarted d
      → length d.pending + length (works ms) ≤ d.config.pending_queue_capacity
      → Kept d (works ms) (run w F d ms)
  unfolding run works handle handed_over
  run-Kept d [] h r = (h, refl, sym (append-nil d.pending))
  run-Kept d (m ∷ ms) h r =
      let work = work_of (translate w F m) in
      let split = length-append work (works ms) in
      let (h', same, moved) = react-Kept d (translate w F m) h (omega (arith, split)) in
      let d' = (react w F d (translate w F m)).0 in
      let out = handed_over (react w F d (translate w F m)).1 in
      let (h'', same', moved') =
        run-Kept d' ms h' (room d d' out work (works ms) same moved (omega (arith, split, r))) in
      (h'', same' ∙ same, chain out _ _ d'.pending d.pending work (works ms) _ refl moved moved')
