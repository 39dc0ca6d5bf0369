-- ===== src/Cutlass/Actor/Rendered.antt =====
-- crates/atomr-accel-cutlass/src/actor.rs: the plans that a history of messages leaves in the cache.
use atomr_accel.Common.{
  ℕ, ◌≡◌, ◌⊎◌, inl, inr, sym, ◌∙◌, Bool, true, false, Option, none, some, List, [], ◌∷◌, Text,
  arith, if_both, is_some, ◌+◌, max,
}
use atomr_accel.Cutlass.Key.{PlanKey}
use atomr_accel.Cutlass.Gemm.{ConvKind}
use atomr_accel.Cutlass.Requests.{
  GemmRequest, GroupedGemmRequest, ConvRequest, Dispatch, gemm, grouped_gemm, conv, plan_key,
}
use atomr_accel.Cutlass.Actor.{
  CachedPlan, LruCache, CutlassInner, CutlassMsg, gemm_msg, grouped_msg, conv_msg, refit, Effect,
  new_cache, get, insert, new_actor, plan_of, dispatch, handle_refit, handle, run,
}

-- What the program relies on in the cache of the crate: which plan stands under a key.
pub record IsLru {C : Type 0} (lru : LruCache C) : Type 0 where
  pub peek : C → PlanKey → Option CachedPlan
  pub peek-new : (n : ℕ) (k : PlanKey) → peek (lru.new_lru n) k ≡ none
  pub get_value : (c : C) (k : PlanKey) → (lru.get_lru c k).0 ≡ peek c k
  pub get_keeps : (c : C) (k j : PlanKey) → peek ((lru.get_lru c k).1) j ≡ peek c j
  pub put_value : (c : C) (k : PlanKey) (p : CachedPlan) → peek (lru.put_lru c k p) k ≡ some p
  -- Another plan may be evicted, and is not changed.
  pub put_others :
      (c : C) (k : PlanKey) (p : CachedPlan) (j : PlanKey)
      → (peek (lru.put_lru c k p) j ≡ none)
        ⊎ (peek (lru.put_lru c k p) j ≡ peek c j)
        ⊎ ((j ≡ k) × (peek (lru.put_lru c k p) j ≡ some p))

-- What holds of the request in each message.
pub data Carries (Q : Dispatch → Type 0) : CutlassMsg → Type 0 where
  gemm_carries : {r : GemmRequest} → Q (gemm r) → Carries Q (gemm_msg r)
  grouped_carries : {r : GroupedGemmRequest} → Q (grouped_gemm r) → Carries Q (grouped_msg r)
  conv_carries : {k : ConvKind} {r : ConvRequest} → Q (conv k r) → Carries Q (conv_msg k r)
  refit_carries : {k : PlanKey} {w : Text} → Carries Q (refit k w)

pub data Each (Q : Dispatch → Type 0) : List CutlassMsg → Type 0 where
  no_messages : Each Q []
  message : {m : CutlassMsg} {ms : List CutlassMsg} → Carries Q m → Each Q ms → Each Q (m ∷ ms)

module _ {C : Type 0} (lru : LruCache C) (laws : IsLru lru) (sip : Text → ℕ)
    (Q : Dispatch → Type 0) where
  -- Where a cached plan comes from.
  pub record Origin (k : PlanKey) (p : CachedPlan) : Type 0 where
    pub request : Dispatch
    pub holds : Q request
    pub same_key : plan_key sip request ≡ k
    pub is_plan : plan_of sip request ≡ p

  unfoldable pub AllRendered : C → Type 0
  AllRendered c = (k : PlanKey) (p : CachedPlan) → laws.peek c k ≡ some p → Origin k p

  get-AllRendered : (c : C) (k : PlanKey) → AllRendered c → AllRendered ((lru.get_lru c k).1)
  unfolding AllRendered
  get-AllRendered c k h j p e = h j p (sym (laws.get_keeps c k j) ∙ e)

  put-AllRendered :
      (c : C) (d : Dispatch)
      → Q d
      → AllRendered c
      → AllRendered (lru.put_lru c (plan_key sip d) (plan_of sip d))
  unfolding AllRendered
  put-AllRendered c d f h j p e = elim (laws.put_others c (plan_key sip d) (plan_of sip d) j) [
    | inl gone ↦ ground (arith, gone, e)
    | inr (inl kept) ↦ h j p (sym kept ∙ e)
    | inr (inr at_key) ↦ record {
      request = d;
      holds = f;
      same_key = sym (at_key.0);
      is_plan = ground (arith, at_key.1, e);
    }
  ]

  dispatch-AllRendered :
      (s : CutlassInner C) (warns : Bool) (d : Dispatch)
      → Q d
      → AllRendered s.plan_cache.inner
      → AllRendered ((dispatch lru sip s warns d).0).plan_cache.inner
  unfolding dispatch get insert plan_of
  dispatch-AllRendered s warns d f h =
      let g = get-AllRendered s.plan_cache.inner (plan_key sip d) h in
      if_both (λ (r : CutlassInner C × List Effect). AllRendered ((r.0).plan_cache.inner)) g
        (put-AllRendered ((lru.get_lru s.plan_cache.inner (plan_key sip d)).1) d f g)
        (is_some ((lru.get_lru s.plan_cache.inner (plan_key sip d)).0))

  pub handle-AllRendered :
      (s : CutlassInner C) (m : CutlassMsg)
      → Carries Q m
      → AllRendered s.plan_cache.inner
      → AllRendered ((handle lru sip s m).0).plan_cache.inner
  unfolding handle handle_refit get
  handle-AllRendered s (gemm_msg r) (gemm_carries f) h =
      dispatch-AllRendered (record s { dispatched = s.dispatched + 1 }) true (gemm r) f h
  handle-AllRendered s (grouped_msg r) (grouped_carries f) h =
      dispatch-AllRendered (record s { dispatched = s.dispatched + 1 }) false (grouped_gemm r) f h
  handle-AllRendered s (conv_msg k r) (conv_carries f) h =
      dispatch-AllRendered (record s { dispatched = s.dispatched + 1 }) false (conv k r) f h
  handle-AllRendered s (refit k w) refit_carries h = get-AllRendered s.plan_cache.inner k h

  pub run-AllRendered :
      (s : CutlassInner C) (ms : List CutlassMsg)
      → Each Q ms
      → AllRendered s.plan_cache.inner
      → AllRendered (run lru sip s ms).plan_cache.inner
  run-AllRendered s [] no_messages h = h
  run-AllRendered s (m ∷ ms) (message t ts) h =
      run-AllRendered ((handle lru sip s m).0) ms ts (handle-AllRendered s m t h)

  pub new-AllRendered :
      (capacity : ℕ) (sink : Option (Text → Text → Option Text))
      → AllRendered (new_actor lru capacity sink).plan_cache.inner
  unfolding AllRendered new_actor new_cache
  new-AllRendered capacity sink k p e = ground (arith, laws.peek-new (max capacity 1) k, e)
