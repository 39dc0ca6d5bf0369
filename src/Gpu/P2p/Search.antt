-- ===== src/Gpu/P2p/Search.antt =====
-- p2p/mod.rs: the search from one device ends, and finds what is linked to it.
use mathlib.Core.Path.{subst}
use atomr_accel.Common.{
  ℕ, zero, suc, ◌+◌, ◌*◌, ◌≤◌, ◌<◌, ◌≡◌, refl, ap, ◌∙◌, Bool, true, false, ◌||◌, Bool-cases, inl,
  inr, some, List, [], ◌∷◌, ◌++◌, length, length-set, mem, mem-append, set, IsDistinct,
  append-IsDistinct, arith,
}
use atomr_accel.Gpu.P2p.{P2pGraph, flag, push_linked, grow, enough}
use atomr_accel.Gpu.P2p.Linked.{
  Adjacent, Adjacent-sym, Connected, here, step, flag-set, unseen, unseen-set, mem-push_linked,
  length-push_linked,
}

module _ (g : P2pGraph) where
  -- The rounds that are left at most.
  abbrev work : List Bool → List ℕ → ℕ
  work visited stack = unseen visited * (g.device_count + 1) + length stack

  -- `grow` ends, and its result has what every round keeps.
  grow_rule :
      (P : List Bool → List ℕ → List ℕ → Type 0)
      → ((visited : List Bool) (j : ℕ) (stack island : List ℕ)
          → P visited (j ∷ stack) island
          → j < length visited)
      → ((visited : List Bool) (j : ℕ) (stack island : List ℕ)
          → P visited (j ∷ stack) island
          → flag visited j ≡ true
          → P visited stack island)
      → ((visited : List Bool) (j : ℕ) (stack island : List ℕ)
          → P visited (j ∷ stack) island
          → flag visited j ≡ false
          → P
              (set visited j true)
              (push_linked g (set visited j true) j 0 g.device_count stack)
              (island ++ j ∷ []))
      → (fuel : ℕ) (visited : List Bool) (stack island : List ℕ) → work visited stack ≤ fuel
      → P visited stack island
      → (r : List Bool × List ℕ) × ((grow fuel g visited stack island ≡ some r) × P (r.0) [] (r.1))
  unfolding grow
  grow_rule P range skip expand fuel visited [] island h p = ((visited, island), (refl, p))
  grow_rule P range skip expand zero visited (j ∷ stack) island h p =
      let no : ⊥ = omega (arith, h) in elim no [ ]
  grow_rule P range skip expand (suc fuel) visited (j ∷ stack) island h p =
      elim (Bool-cases (flag visited j)) [
        | inl seen ↦
            let (r, (e, q)) =
              grow_rule P range skip expand fuel visited stack island (omega (arith, h))
                (skip visited j stack island p seen) in
            (r, (ground (arith, e, seen), q))
        | inr new ↦
            let visited' = set visited j true in
            let (r, (e, q)) =
              grow_rule P range skip expand fuel visited'
                (push_linked g visited' j 0 g.device_count stack) (island ++ j ∷ [])
                (omega (
                  arith,
                  h,
                  ap (λ (t : ℕ). t * (g.device_count + 1))
                      (unseen-set visited j (range visited j stack island p) new),
                  length-push_linked g visited' j 0 g.device_count stack,
                ))
                (expand visited j stack island p new) in
            (r, (ground (arith, e, new), q))
      ]

  -- The search for `start`, with `before` visited already.
  record Inv (start : ℕ) (before visited : List Bool) (stack island : List ℕ) : Type 0 where
    size : length visited ≡ g.device_count
    seen : (v : ℕ) → flag visited v ≡ (flag before v || mem v island)
    fresh : (v : ℕ) → mem v island ≡ true → flag before v ≡ false
    distinct : IsDistinct island
    found : (v : ℕ) → mem v island ≡ true → (v < g.device_count) × Connected g start v
    queued : (v : ℕ) → mem v stack ≡ true → (v < g.device_count) × Connected g start v
    closed :
        (u v : ℕ) → mem u island ≡ true → Adjacent g u v → (flag visited v || mem v stack) ≡ true
    new_root : flag before start ≡ false
    rooted : (mem start island || mem start stack) ≡ true

  range-Inv :
      (start : ℕ) (before visited : List Bool) (j : ℕ) (stack island : List ℕ)
      → Inv start before visited (j ∷ stack) island
      → j < length visited
  range-Inv start before visited j stack island h =
      omega (arith, (h.queued j (ground arith)).0, h.size)

  skip-Inv :
      (start : ℕ) (before visited : List Bool) (j : ℕ) (stack island : List ℕ)
      → Inv start before visited (j ∷ stack) island
      → flag visited j ≡ true
      → Inv start before visited stack island
  skip-Inv start before visited j stack island h seen = record {
    size = h.size;
    seen = h.seen;
    fresh = h.fresh;
    distinct = h.distinct;
    found = h.found;
    queued = λ v m. h.queued v (ground (arith, m));
    closed = λ u v m e. ground (arith, h.closed u v m e, seen);
    new_root = h.new_root;
    rooted = ground (arith, h.rooted, h.seen start, h.new_root, seen);
  }

  expand-Inv :
      (start : ℕ) (before visited : List Bool) (j : ℕ) (stack island : List ℕ)
      → Inv start before visited (j ∷ stack) island
      → flag visited j ≡ false
      → Inv start before
          (set visited j true)
          (push_linked g (set visited j true) j 0 g.device_count stack)
          (island ++ j ∷ [])
  expand-Inv start before visited j stack island h new =
      let range = range-Inv start before visited j stack island h in
      let (below, walk) = h.queued j (ground arith) in
      let put = λ (v : ℕ). flag-set visited j v range in
      let pushed = λ (v : ℕ). mem-push_linked g (set visited j true) j 0 g.device_count stack v in
      let joined = λ (v : ℕ). mem-append v island (j ∷ []) in
      record {
        size = length-set visited j true ∙ h.size;
        seen = λ v. ground (arith, put v, joined v, h.seen v);
        fresh = λ v m. ground (arith, joined v, m, h.fresh v, h.seen v, new);
        distinct = append-IsDistinct island j h.distinct (ground (arith, h.seen j, new));
        found = λ v m. elim (Bool-cases (mem v island)) [
          | inl old ↦ h.found v old
          | inr absent ↦
              let same : j ≡ v = ground (arith, m, joined v, absent) in
              subst (λ x. (x < g.device_count) × Connected g start x) same (below, walk)
        ];
        queued = λ v m. elim (Bool-cases (mem v stack)) [
          | inl old ↦ h.queued v (ground (arith, old))
          | inr absent ↦
              let inside : v < g.device_count = ground (arith, m, pushed v, absent) in
              (
                inside,
                step walk (record {
                  first = below;
                  second = inside;
                  link = ground (arith, m, pushed v, absent);
                }),
              )
        ];
        closed = λ u v m e. elim (Bool-cases (mem u island)) [
          | inl old ↦ ground (arith, h.closed u v old e, put v, pushed v)
          | inr absent ↦
              let same : u ≡ j = ground (arith, m, joined u, absent) in
              let e' = subst (λ x. Adjacent g x v) same e in
              ground (arith, pushed v, e'.link, e'.second)
        ];
        new_root = h.new_root;
        rooted = ground (arith, h.rooted, joined start, pushed start);
      }

  -- `island` is what is connected to `start`, and has been marked beside `before`.
  pub record IsComponent (start : ℕ) (before visited : List Bool) (island : List ℕ) : Type 0 where
    pub size : length visited ≡ g.device_count
    pub seen : (v : ℕ) → flag visited v ≡ (flag before v || mem v island)
    pub fresh : (v : ℕ) → mem v island ≡ true → flag before v ≡ false
    pub distinct : IsDistinct island
    pub sound : (v : ℕ) → mem v island ≡ true → (v < g.device_count) × Connected g start v
    pub complete : (v : ℕ) → Connected g start v → mem v island ≡ true

  unseen-le : (bs : List Bool) → unseen bs ≤ length bs
  unseen-le [] = omega arith
  unseen-le (true ∷ bs) = omega (arith, unseen-le bs)
  unseen-le (false ∷ bs) = omega (arith, unseen-le bs)

  abbrev pub IsClosed : List Bool → Type 0
  IsClosed flags = (u v : ℕ) → flag flags u ≡ true → Adjacent g u v → flag flags v ≡ true

  reached :
      (start : ℕ) (before visited : List Bool) (island : List ℕ)
      → Inv start before visited [] island
      → IsClosed before
      → {v : ℕ} → Connected g start v
      → mem v island ≡ true
  reached start before visited island h c here = ground (arith, h.rooted)
  reached start before visited island h c (step {b} {c = v} walk e) =
      let met = reached start before visited island h c walk in
      elim (Bool-cases (flag before v)) [
        | inl old ↦
            let back = c v b old (Adjacent-sym g b v e) in ground (arith, back, h.fresh b met)
        | inr new ↦ ground (arith, h.closed b v met e, h.seen v, new)
      ]

  pub grow-IsComponent :
      (start : ℕ) (before : List Bool)
      → length before ≡ g.device_count
      → start < g.device_count
      → flag before start ≡ false
      → IsClosed before
      → (r : List Bool × List ℕ) × ((grow (enough g) g before (start ∷ []) [] ≡ some r)
          × IsComponent start before (r.0) (r.1))
  grow-IsComponent start before size range new c =
      let (r, (e, h)) =
        grow_rule (Inv start before) (range-Inv start before) (skip-Inv start before)
          (expand-Inv start before) (enough g) before (start ∷ []) []
          (grind (arith, unseen-le before))
          (record {
            size = size;
            seen = λ v. ground arith;
            fresh = λ v m. cc;
            distinct = tt;
            found = λ v m. let no : ⊥ = ground (arith, m) in elim no [ ];
            queued = λ v m.
                let same : start ≡ v = ground (arith, m) in
                subst (λ x. (x < g.device_count) × Connected g start x) same (range, here);
            closed = λ u v m e. cc;
            new_root = new;
            rooted = ground arith;
          }) in
      (
        r,
        (
          e,
          record {
            size = h.size;
            seen = h.seen;
            fresh = h.fresh;
            distinct = h.distinct;
            sound = h.found;
            complete = λ v walk. reached start before (r.0) (r.1) h c walk;
          },
        ),
      )
