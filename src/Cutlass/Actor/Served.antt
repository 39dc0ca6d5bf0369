-- ===== src/Cutlass/Actor/Served.antt =====
-- crates/atomr-accel-cutlass/src/actor.rs: what a request finds in the cache after its message.
use atomr_accel.Common.{
  ℕ, ◌≡◌, ◌≢◌, ◌⊎◌, inl, inr, refl, sym, ◌∙◌, Bool, true, false, Option, some, List, [], ◌∷◌, Text,
  Option-cases, ◌+◌, Text-cases,
}
use atomr_accel.Cutlass.Lanes.All.{Fits, render_cu-same}
use atomr_accel.Cutlass.Requests.{Dispatch, gemm, grouped_gemm, conv, hasher, plan_key}
use atomr_accel.Cutlass.Actor.{
  CachedPlan, LruCache, CutlassInner, CutlassMsg, get, insert, new_actor, plan_of, dispatch,
  message_of, handle, run,
}
use atomr_accel.Cutlass.Actor.Rendered.{
  IsLru, Carries, gemm_carries, grouped_carries, conv_carries, refit_carries, Each, no_messages,
  message, Origin, AllRendered, run-AllRendered, new-AllRendered, handle-AllRendered,
}

-- The request came in a message.
pub data Sent (d : Dispatch) : List CutlassMsg → Type 0 where
  now : {m : CutlassMsg} {ms : List CutlassMsg} → message_of d ≡ m → Sent d (m ∷ ms)
  later : {m : CutlassMsg} {ms : List CutlassMsg} → Sent d ms → Sent d (m ∷ ms)

weaken-Carries :
    {Q R : Dispatch → Type 0} {m : CutlassMsg}
    → ((d : Dispatch) → Q d → message_of d ≡ m → R d)
    → Carries Q m
    → Carries R m
weaken-Carries f (gemm_carries q) = gemm_carries (f _ q refl)
weaken-Carries f (grouped_carries q) = grouped_carries (f _ q refl)
weaken-Carries f (conv_carries q) = conv_carries (f _ q refl)
weaken-Carries f refit_carries = refit_carries

weaken-Each :
    {Q R : Dispatch → Type 0} (ms : List CutlassMsg)
    → ((d : Dispatch) → Q d → R d)
    → Each Q ms
    → Each R ms
weaken-Each [] f no_messages = no_messages
weaken-Each (m ∷ ms) f (message c cs) =
    message (weaken-Carries (λ d q e. f d q) c) (weaken-Each ms f cs)

WasSent : List CutlassMsg → Dispatch → Type 0
WasSent ms d = Fits d × Sent d ms

Each-WasSent : (ms : List CutlassMsg) → Each Fits ms → Each (WasSent ms) ms
unfolding WasSent
Each-WasSent [] no_messages = no_messages
Each-WasSent (m ∷ ms) (message c cs) =
    message (weaken-Carries (λ d f e. (f, now e)) c)
      (weaken-Each ms (λ d s. (s.0, later (s.1))) (Each-WasSent ms cs))

carry-message : {Q : Dispatch → Type 0} (d : Dispatch) → Q d → Carries Q (message_of d)
carry-message (gemm r) q = gemm_carries q
carry-message (grouped_gemm r) q = grouped_carries q
carry-message (conv k r) q = conv_carries q

key-same : {p q : CachedPlan} → p ≡ q → p.key ≡ q.key
key-same e = λ i. (e i).key

module _ {C : Type 0} (lru : LruCache C) (laws : IsLru lru) (sip : Text → ℕ) where
  -- What a dispatched request finds under its key.
  dispatch-finds :
      (s : CutlassInner C) (warns : Bool) (d : Dispatch)
      → (p : CachedPlan) × (laws.peek
            ((dispatch lru sip s warns d).0).plan_cache.inner
            (plan_key sip d)
          ≡ some p)
  unfolding dispatch get insert plan_of
  dispatch-finds s warns d =
      elim (Option-cases ((lru.get_lru s.plan_cache.inner (plan_key sip d)).0)) [
        | inl missed ↦ rw missed (plan_of sip d, laws.put_value _ (plan_key sip d) (plan_of sip d))
        | inr (p, hit) ↦ rw hit (
          p,
          laws.get_keeps s.plan_cache.inner (plan_key sip d) (plan_key sip d)
              ∙ sym (laws.get_value s.plan_cache.inner (plan_key sip d))
              ∙ hit,
        )
      ]

  -- The plan of a request that came before, or of this one, whose bytes are others with the same hash.
  pub record Collides (ms : List CutlassMsg) (d : Dispatch) (p : CachedPlan) : Type 0 where
    pub other : Dispatch
    pub sent : Sent other (message_of d ∷ ms)
    pub is_plan : plan_of sip other ≡ p
    pub differs : (hasher d).a ≢ (hasher other).a
    pub same_hash : plan_key sip other ≡ plan_key sip d

  pub record Served (ms : List CutlassMsg) (d : Dispatch) (s : CutlassInner C) : Type 0 where
    pub plan : CachedPlan
    pub found : laws.peek s.plan_cache.inner (plan_key sip d) ≡ some plan
    pub right : (plan ≡ plan_of sip d) ⊎ Collides ms d plan

  right_plan :
      (ms : List CutlassMsg) (d : Dispatch) (p : CachedPlan)
      → Fits d
      → Origin lru laws sip (WasSent (message_of d ∷ ms)) (plan_key sip d) p
      → (p ≡ plan_of sip d) ⊎ Collides ms d p
  unfolding WasSent plan_of
  right_plan ms d p f o = elim (Text-cases (hasher d).a (hasher o.request).a) [
    | inl same ↦
        let r = render_cu-same sip d o.request f (o.holds.0) (sym o.same_key) same in
        inl (
          sym o.is_plan ∙ λ i. record {
            key = o.same_key i;
            source = (sym r i).0;
            kernel_name = (sym r i).1;
          })
    | inr differs ↦ inr (record {
      other = o.request;
      sent = o.holds.1;
      is_plan = o.is_plan;
      differs = differs;
      same_hash = o.same_key;
    })
  ]

  pub handle-finds :
      (s : CutlassInner C) (d : Dispatch)
      → (p : CachedPlan) × (laws.peek
            ((handle lru sip s (message_of d)).0).plan_cache.inner
            (plan_key sip d)
          ≡ some p)
  unfolding handle
  handle-finds s (gemm r) =
      dispatch-finds (record s { dispatched = s.dispatched + 1 }) true (gemm r)
  handle-finds s (grouped_gemm r) =
      dispatch-finds (record s { dispatched = s.dispatched + 1 }) false (grouped_gemm r)
  handle-finds s (conv k r) =
      dispatch-finds (record s { dispatched = s.dispatched + 1 }) false (conv k r)

  -- Whatever messages came before, after the message with a request the cache has a plan under the key of
  -- the request: it is the plan that is rendered for the request, or that of a request in one of the messages
  -- which wrote other bytes to the hasher and got the same key. The values that are `u32` in the source
  -- are below 2 ^ 32, and so is the number of groups.
  pub handle-Served :
      (capacity : ℕ) (sink : Option (Text → Text → Option Text)) (ms : List CutlassMsg)
      (d : Dispatch)
      → Each Fits ms
      → Fits d
      → Served ms d
          ((handle lru sip (run lru sip (new_actor lru capacity sink) ms) (message_of d)).0)
  unfolding WasSent AllRendered
  handle-Served capacity sink ms d fs f =
      let s = run lru sip (new_actor lru capacity sink) ms in
      let h =
        handle-AllRendered lru laws sip (WasSent (message_of d ∷ ms)) s (message_of d)
          (carry-message d (f, now refl))
          (run-AllRendered lru laws sip (WasSent (message_of d ∷ ms)) (new_actor lru capacity sink)
            ms (weaken-Each ms (λ e w. (w.0, later (w.1))) (Each-WasSent ms fs))
            (new-AllRendered lru laws sip (WasSent (message_of d ∷ ms)) capacity sink)) in
      let found = handle-finds s d in
      record {
        plan = found.0;
        found = found.1;
        right = right_plan ms d (found.0) f (h (plan_key sip d) (found.0) (found.1));
      }
