-- ===== src/Gpu/P2p/Squares.antt =====
-- p2p/mod.rs: what the graph of the topology says after EnableAll.
use mathlib.Core.Path.{subst}
use atomr_accel.Common.{if_both}
use atomr_accel.Common.{
  ℕ, zero, suc, ◌==◌, ◌≤◌, ◌<◌, ◌↔◌, ◌≡◌, refl, ap, Bool, Bool-cases, true, false, not, ◌&&◌, ltb,
  leb, [], ◌∷◌, ◌⊎◌, inl, inr, Option, none, some, List, length, get_elem?, set, if◌then◌else◌,
  arith,
}
use atomr_accel.Gpu.Error.{ok}
use atomr_accel.Gpu.P2p.{can_pair}
use atomr_accel.Gpu.P2p.Topology.{
  Peers, Effect, reply_graph, P2pTopology, has_context, probe, enable_edge, enable_rows,
  ready_count, table, handle_enable_all, handle_refresh,
}
use atomr_accel.Gpu.P2p.Tables.{
  IsSquare, table-IsSquare, can_pair-table, both_passes, graph-enable_all,
}

pub record IsSound (n : ℕ) (t : P2pTopology) : Type 0 where
  pub sized : length t.devices ≡ n
  pub square : IsSquare n t.graph

pub enable_all-IsSound :
    (n : ℕ) (t : P2pTopology) (p : Peers) (contexts : List (Option ℕ)) (reply : ℕ)
    → IsSound n t
    → IsSound n ((handle_enable_all t p contexts reply).0)
unfolding handle_enable_all
enable_all-IsSound n t p contexts reply h =
    let m = length t.devices in
    if_both (λ (r : P2pTopology × List Effect). IsSound n (r.0))
      (record { sized = h.sized; square = h.square })
      (record {
        sized = h.sized;
        square =
            subst
              (λ k. IsSquare k (record {
                edges = enable_rows p contexts 0 (table (probe p contexts) m 0 m);
                device_count = m;
              }))
              h.sized
              (subst (λ e. IsSquare m (record { edges = e; device_count = m }))
                (graph-enable_all p contexts m) (table-IsSquare (both_passes p contexts) m));
      })
      (not p.loadable && leb 2 (ready_count contexts))

refresh_cases :
    (t : P2pTopology) (idx : ℕ) (context : Option ℕ)
    → (t ≡ handle_refresh t idx context)
      ⊎ (record t { contexts = set t.contexts idx context; enabled = false }
          ≡ handle_refresh t idx context)
unfolding handle_refresh
refresh_cases t idx context = ground arith

pub refresh-IsSound :
    (n : ℕ) (t : P2pTopology) (idx : ℕ) (context : Option ℕ)
    → IsSound n t
    → IsSound n (handle_refresh t idx context)
refresh-IsSound n t idx context h = elim (refresh_cases t idx context) [
  | inl same ↦ subst (IsSound n) same h
  | inr stored ↦ subst (IsSound n) stored (record { sized = h.sized; square = h.square })
]

-- The device answered with a context.
abbrev pub HasContext : List (Option ℕ) → ℕ → Type 0
HasContext contexts d = (context : ℕ) × (get_elem? contexts d ≡ some (some context))

-- The first device can reach the second: both have contexts, and they are the same device, or the driver
-- says that the second is accessible from the first and enables the access.
abbrev pub Reaches : Peers → List (Option ℕ) → ℕ → ℕ → Type 0
Reaches p contexts a b =
    HasContext contexts a
    × (HasContext contexts b × ((a ≡ b) ⊎ ((p.can_access a b ≡ true) × (p.enable a b ≡ true))))

has_context_iff :
    (contexts : List (Option ℕ)) (d : ℕ) → (has_context contexts d ≡ true) ↔ HasContext contexts d
has_context_iff [] d =
    (λ e. let no : ⊥ = ground (arith, e) in elim no [ ], λ (c, e). ground (arith, e))
has_context_iff (none ∷ cs) zero =
    (λ e. let no : ⊥ = ground (arith, e) in elim no [ ], λ (c, e). ground (arith, e))
has_context_iff (some c ∷ cs) zero = (λ e. (c, refl), λ e. refl)
has_context_iff (c ∷ cs) (suc d) = has_context_iff cs d

both_passes_iff :
    (p : Peers) (contexts : List (Option ℕ)) (a b : ℕ)
    → (both_passes p contexts a b ≡ true) ↔ Reaches p contexts a b
unfolding both_passes enable_edge probe
both_passes_iff p contexts a b =
    let ca = has_context_iff contexts a in
    let cb = has_context_iff contexts b in
    (
      λ e.
          let here : has_context contexts a ≡ true = ground (arith, e) in
          elim (Bool-cases (a == b)) [
            | inl same ↦
                let eq : a ≡ b = ground (arith, same) in
                (ca.0 here, (subst (HasContext contexts) eq (ca.0 here), inl eq))
            | inr other ↦
                let there : has_context contexts b ≡ true = ground (arith, e, other) in
                let can : p.can_access a b ≡ true = ground (arith, e, other) in
                let on : p.enable a b ≡ true = ground (arith, e, other, can, there, here) in
                (ca.0 here, (cb.0 there, inr (can, on)))
          ],
      λ (ha, (hb, how)).
          let here = ca.1 ha in
          let there = cb.1 hb in
          elim how [
            | inl eq ↦ ground (arith, here, eq)
            | inr (can, on) ↦ ground (arith, here, there, can, on)
          ],
    )

can_pair-both_passes :
    (t : P2pTopology) (p : Peers) (contexts : List (Option ℕ)) (reply a b : ℕ)
    → p.loadable ≡ true
    → can_pair ((handle_enable_all t p contexts reply).0.graph) a b ≡ (
        if ltb a (length t.devices) && ltb b (length t.devices)
        then some (both_passes p contexts a b)
        else none)
unfolding handle_enable_all
can_pair-both_passes t p contexts reply a b h =
    let n = length t.devices in
    let same =
      ap (λ e. can_pair (record { edges = e; device_count = n }) a b)
        (graph-enable_all p contexts n) in
    ground (arith, h, same, can_pair-table (both_passes p contexts) n a b)

read_iff :
    (x : Option Bool) (n a b : ℕ) (v : Bool)
    → x ≡ (if ltb a n && ltb b n then some v else none)
    → ((x ≡ some true) ↔ (((a < n) × (b < n)) × (v ≡ true))) × ((x ≡ none) ↔ ((n ≤ a) ⊎ (n ≤ b)))
read_iff x n a b v e = elim (Bool-cases (ltb a n)) [
  | inr out ↦ (
    (
      λ f. let no : ⊥ = ground (arith, e, f, out) in elim no [ ],
      λ f. ground (arith, e, f.0.0, out),
    ),
    (λ f. inl (ground (arith, out)), λ f. ground (arith, e, out)),
  )
  | inl a_in ↦ elim (Bool-cases (ltb b n)) [
    | inr out ↦ (
      (
        λ f. let no : ⊥ = ground (arith, e, f, out) in elim no [ ],
        λ f. ground (arith, e, f.0.1, out),
      ),
      (λ f. inr (ground (arith, out)), λ f. ground (arith, e, out)),
    )
    | inl b_in ↦ (
      (
        λ f. ((ground (arith, a_in), ground (arith, b_in)), ground (arith, e, f, a_in, b_in)),
        λ f. ground (arith, e, f.1, a_in, b_in),
      ),
      (
        λ f. let no : ⊥ = ground (arith, e, f, a_in, b_in) in elim no [ ],
        λ f. elim f [
          | inl above ↦ let no : ⊥ = ground (arith, above, a_in) in elim no [ ]
          | inr above ↦ let no : ⊥ = ground (arith, above, b_in) in elim no [ ]
        ],
      ),
    )
  ]
]

-- Once the driver can be called, whatever contexts the devices answer with, the graph says of two devices that
-- the first can reach the second exactly when both answered with a context and they are the same device, or the
-- driver says that the second is accessible from the first and the access was enabled. There is
-- nothing to read exactly outside the devices. The graph that is kept is also the reply, and copies
-- are let through from then on.
pub can_pair-enable_all :
    (t : P2pTopology) (p : Peers) (contexts : List (Option ℕ)) (reply a b : ℕ)
    → p.loadable ≡ true
    → let (t', out) = handle_enable_all t p contexts reply in
      ((can_pair t'.graph a b ≡ some true)
        ↔ (((a < length t.devices) × (b < length t.devices)) × Reaches p contexts a b))
      × (((can_pair t'.graph a b ≡ none) ↔ ((length t.devices ≤ a) ⊎ (length t.devices ≤ b)))
          × ((out ≡ reply_graph reply (ok t'.graph) ∷ []) × (t'.enabled ≡ true)))
unfolding handle_enable_all
can_pair-enable_all t p contexts reply a b h =
    let (reached, outside) =
      read_iff _ (length t.devices) a b (both_passes p contexts a b)
        (can_pair-both_passes t p contexts reply a b h) in
    let (reaches, flagged) = both_passes_iff p contexts a b in
    (
      (
        λ e. let (inside, flag) = reached.0 e in (inside, reaches flag),
        λ (inside, r). reached.1 (inside, flagged r),
      ),
      (outside, (ground (arith, h), ground (arith, h))),
    )
