-- ===== src/Patterns/Scheduler/Service.antt =====
-- scheduler.rs: the tenants with work, and which of them the search over the tenants finds.
use atomr_accel.Common.{
  ℕ, ◌≤◌, ◌≡◌, refl, Bool, true, false, ◌&&◌, ◌||◌, leb, ◌==◌, inl, inr, ◌⊎◌, Option, none, some,
  is_some, List, [], ◌∷◌, ◌++◌, mem, IsDistinct, is_empty, if◌then◌else◌, lookup, insert, keys,
  lookup-insert, arith,
}
use atomr_accel.Patterns.Scheduler.{
  VirtualTime, Tenant, Effect, dispatched, unknown_tenant, send_stats, FairShareScheduler,
  better_of, pick_tenant,
}

module _ {Req : Type 0} where
  -- What is dispatched for the tenant `k`, in order.
  unfoldable pub served : ℕ → List (Effect Req) → List (Req × ℕ)
  served k [] = []
  served k (dispatched tenant req reply ∷ es) =
      if tenant == k then (req, reply) ∷ served k es else served k es
  served k (unknown_tenant tenant reply ∷ es) = served k es
  served k (send_stats reply stats ∷ es) = served k es

  pub served-append :
      (k : ℕ) (xs ys : List (Effect Req)) → served k (xs ++ ys) ≡ served k xs ++ served k ys
  unfolding served
  served-append k [] ys = refl
  served-append k (dispatched tenant req reply ∷ xs) ys = ground (arith, served-append k xs ys)
  served-append k (unknown_tenant tenant reply ∷ xs) ys = served-append k xs ys
  served-append k (send_stats reply stats ∷ xs) ys = served-append k xs ys

module _ (T : VirtualTime) (Req : Type 0) where
  open T use {F}

  unfoldable pub queue_of : ℕ → List (ℕ × Tenant F Req) → List (Req × ℕ)
  queue_of k ts = elim (lookup k ts) [ none ↦ [] | some t ↦ t.queue ]

  unfoldable pub all_idle : List (ℕ × Tenant F Req) → Bool
  all_idle [] = true
  all_idle (x ∷ ts) = is_empty (x.1).queue && all_idle ts

  unfoldable pub HasWork : ℕ → List (ℕ × Tenant F Req) → Type 0
  HasWork id [] = ⊥
  HasWork id (x ∷ ts) = ((x.0 ≡ id) × (is_empty (x.1).queue ≡ false)) ⊎ HasWork id ts

  -- What the loop over the tenants finds.
  unfoldable pub Finds : Option (ℕ × F) → List (ℕ × Tenant F Req) → Option (ℕ × F) → Type 0
  Finds best ts none = (best ≡ none) × (all_idle ts ≡ true)
  Finds best ts (some b) = (best ≡ some b) ⊎ HasWork (b.0) ts

  pub better_of-cases :
      (best : Option (ℕ × F)) (id : ℕ) (v : F)
      → (better_of T best id v ≡ best) × (is_some best ≡ true)
        ⊎ (better_of T best id v ≡ some (id, v))
  unfolding better_of
  better_of-cases none id v = inr refl
  better_of-cases (some b) id v = ground arith

  pub Finds-next :
      (best : Option (ℕ × F)) (id : ℕ) (t : Tenant F Req) (ts : List (ℕ × Tenant F Req))
      (o : Option (ℕ × F))
      → Finds (if is_empty t.queue then best else better_of T best id t.vfinish) ts o
      → Finds best ((id, t) ∷ ts) o
  unfolding Finds all_idle HasWork
  Finds-next best id t ts none f = ground (arith, f, better_of-cases best id t.vfinish)
  Finds-next best id t ts (some b) f = ground (arith, f, better_of-cases best id t.vfinish)

  pub Finds-self : (best : Option (ℕ × F)) → Finds best [] best
  unfolding Finds all_idle
  Finds-self none = (refl, refl)
  Finds-self (some b) = inl refl

  pub pick_tenant-Finds :
      (best : Option (ℕ × F)) (ts : List (ℕ × Tenant F Req))
      → Finds best ts (pick_tenant T Req best ts)
  unfolding pick_tenant
  pick_tenant-Finds best [] = Finds-self best
  pick_tenant-Finds best ((id, t) ∷ ts) =
      Finds-next best id t ts (pick_tenant T Req best ((id, t) ∷ ts))
        (pick_tenant-Finds (if is_empty t.queue then best else better_of T best id t.vfinish) ts)

  pub HasWork-mem :
      (id : ℕ) (ts : List (ℕ × Tenant F Req)) → HasWork id ts → mem id (keys ts) ≡ true
  unfolding HasWork
  HasWork-mem id [] h = ground (arith, h)
  HasWork-mem id (x ∷ ts) h = ground (arith, h, HasWork-mem id ts)

  pub HasWork-lookup :
      (id : ℕ) (ts : List (ℕ × Tenant F Req))
      → IsDistinct (keys ts)
      → HasWork id ts
      → (t : Tenant F Req) × ((lookup id ts ≡ some t) × (is_empty t.queue ≡ false))
  unfolding HasWork
  HasWork-lookup id [] d h = ground (arith, h)
  HasWork-lookup id (x ∷ ts) d (inl h) = (x.1, (ground (arith, h.0), h.1))
  HasWork-lookup id (x ∷ ts) d (inr h) =
      let (t, (found, busy)) = HasWork-lookup id ts d.1 h in
      (t, (ground (arith, found, d.0, HasWork-mem id ts h), busy))

  pub queue_of-insert :
      (k id : ℕ) (t : Tenant F Req) (ts : List (ℕ × Tenant F Req))
      → queue_of k (insert id t ts) ≡ (if id == k then t.queue else queue_of k ts)
  unfolding queue_of
  queue_of-insert k id t ts = ground (arith, lookup-insert id k t ts)

  -- The map's keys differ and the limit is kept.
  pub record IsSound (s : FairShareScheduler F Req) : Type 0 where
    pub distinct : IsDistinct (keys s.tenants)
    pub limited : s.in_flight ≤ s.max_in_flight

  -- A step that keeps the state sound and the limit, and moves the tenant `k`'s requests in order.
  abbrev pub Moves :
      ℕ
      → FairShareScheduler F Req
      → List (Req × ℕ)
      → FairShareScheduler F Req × List (Effect Req)
      → Type 0
  Moves k s asked r =
      IsSound (r.0)
      × (((r.0).max_in_flight ≡ s.max_in_flight)
          × ((is_some (lookup k (r.0).tenants) ≡ is_some (lookup k s.tenants))
              × (served k (r.1) ++ queue_of k (r.0).tenants ≡ queue_of k s.tenants ++ asked)))

  abbrev pub is_settled : FairShareScheduler F Req → Bool
  is_settled s = leb s.max_in_flight s.in_flight || all_idle s.tenants
