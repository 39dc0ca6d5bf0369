-- ===== src/Cutlass/Actor/Again.antt =====
-- crates/atomr-accel-cutlass/src/actor.rs: a message that comes again, and `Refit`.
use atomr_accel.Common.{ℕ, ◌≡◌, refl, ◌∙◌, Bool, true, false, Option, some, [], ◌∷◌, Text, ◌+◌, max}
use atomr_accel.Cutlass.Key.{PlanKey}
use atomr_accel.Cutlass.Requests.{Dispatch, gemm, grouped_gemm, conv, plan_key}
use atomr_accel.Cutlass.Actor.{
  CachedPlan, LruCache, CutlassInner, refit, replied_ok, replied_no_plan, new_cache, get, new_actor,
  dispatch, message_of, handle_refit, handle,
}
use atomr_accel.Cutlass.Actor.Rendered.{IsLru}
use atomr_accel.Cutlass.Actor.Served.{handle-finds}

module _ {C : Type 0} (lru : LruCache C) (laws : IsLru lru) (sip : Text → ℕ) where
  dispatch-hit :
      (s : CutlassInner C) (warns : Bool) (d : Dispatch) (p : CachedPlan)
      → laws.peek s.plan_cache.inner (plan_key sip d) ≡ some p
      → (dispatch lru sip s warns d).1 ≡ []
  unfolding dispatch get
  dispatch-hit s warns d p e = rw (laws.get_value s.plan_cache.inner (plan_key sip d) ∙ e) refl

  handle-hit :
      (s : CutlassInner C) (d : Dispatch) (p : CachedPlan)
      → laws.peek s.plan_cache.inner (plan_key sip d) ≡ some p
      → (handle lru sip s (message_of d)).1 ≡ []
  unfolding handle
  handle-hit s (gemm r) = dispatch-hit (record s { dispatched = s.dispatched + 1 }) true (gemm r)
  handle-hit s (grouped_gemm r) =
      dispatch-hit (record s { dispatched = s.dispatched + 1 }) false (grouped_gemm r)
  handle-hit s (conv k r) =
      dispatch-hit (record s { dispatched = s.dispatched + 1 }) false (conv k r)

  refit-hit :
      (s : CutlassInner C) (k : PlanKey) (w : Text) (p : CachedPlan)
      → laws.peek s.plan_cache.inner k ≡ some p
      → (handle lru sip s (refit k w)).1 ≡ replied_ok ∷ []
  unfolding handle handle_refit get
  refit-hit s k w p e = rw (laws.get_value s.plan_cache.inner k ∙ e) refl

  -- Before any request, no plan is found.
  pub new-refit :
      (capacity : ℕ) (sink : Option (Text → Text → Option Text)) (k : PlanKey) (w : Text)
      → (handle lru sip (new_actor lru capacity sink) (refit k w)).1 ≡ replied_no_plan k ∷ []
  unfolding handle handle_refit get new_actor new_cache
  new-refit capacity sink k w =
      rw (laws.get_value (lru.new_lru (max capacity 1)) k ∙ laws.peek-new (max capacity 1) k) refl

  -- In any state, once a request was handled, the same request calls no compiler and has no other effect, and a
  -- refit of its key is accepted.
  pub handle-again :
      (s : CutlassInner C) (d : Dispatch) (w : Text)
      → ((handle lru sip ((handle lru sip s (message_of d)).0) (message_of d)).1 ≡ [])
        × ((handle lru sip ((handle lru sip s (message_of d)).0) (refit (plan_key sip d) w)).1
            ≡ replied_ok ∷ [])
  handle-again s d w =
      let s' = (handle lru sip s (message_of d)).0 in
      let found = handle-finds lru laws sip s d in
      (handle-hit s' d (found.0) (found.1), refit-hit s' (plan_key sip d) w (found.0) (found.1))
