-- ===== src/Gpu/P2p/Islands.antt =====
-- p2p/mod.rs: the islands are the classes of connected devices.
use mathlib.Core.Path.{subst}
use atomr_accel.Common.{
  ℕ, zero, suc, ◌+◌, ◌<◌, ◌≡◌, refl, sym, ap, ◌∙◌, ◌↔◌, Bool, true, false, ltb, Bool-cases, inl,
  inr, some, List, [], ◌∷◌, ◌++◌, append-nil, append_assoc, length, mem, mem-append, ◌==◌,
  IsDistinct, All, All-append, arith,
}
use atomr_accel.Gpu.P2p.{P2pGraph, flag, repeat, islands_loop, islands}
use atomr_accel.Gpu.P2p.Linked.{
  Connected, here, step, Connected-trans, Connected-sym, flag-repeat, length-repeat,
}
use atomr_accel.Gpu.P2p.Search.{IsComponent, IsClosed, grow-IsComponent}

-- The devices of all islands.
abbrev pub members : List (List ℕ) → List ℕ
members [] = []
members (island ∷ rest) = island ++ members rest

members-append :
    (xs : List (List ℕ)) (island : List ℕ) → members (xs ++ island ∷ []) ≡ members xs ++ island
members-append [] island = append-nil island
members-append (x ∷ xs) island =
    ap (λ l. x ++ l) (members-append xs island) ∙ sym (append_assoc x (members xs) island)

append-IsDistinct_disjoint :
    (xs ys : List ℕ)
    → IsDistinct xs
    → IsDistinct ys
    → ((v : ℕ) → mem v xs ≡ true → mem v ys ≡ false)
    → IsDistinct (xs ++ ys)
append-IsDistinct_disjoint [] ys d e h = e
append-IsDistinct_disjoint (x ∷ xs) ys d e h = (
  ground (arith, mem-append x xs ys, d.0, h x),
  append-IsDistinct_disjoint xs ys d.1 e (λ v m. h v (ground (arith, m))),
)

module _ (g : P2pGraph) where
  -- A device of the island, with what else is in it.
  abbrev pub IsIsland : List ℕ → Type 0
  IsIsland island = (a b : ℕ) → mem a island ≡ true → (mem b island ≡ true) ↔ Connected g a b

  -- Before the device `i` is looked at.
  record Inv (i : ℕ) (visited : List Bool) (out : List (List ℕ)) : Type 0 where
    size : length visited ≡ g.device_count
    closed : IsClosed g visited
    covered : (v : ℕ) → mem v (members out) ≡ flag visited v
    passed : (v : ℕ) → v < i → flag visited v ≡ true
    distinct : IsDistinct (members out)
    bounded : (v : ℕ) → flag visited v ≡ true → v < g.device_count
    classes : All IsIsland out

  Component-IsIsland :
      (start : ℕ) (before visited : List Bool) (island : List ℕ)
      → IsComponent g start before visited island
      → IsIsland island
  Component-IsIsland start before visited island k a b m =
      let to_a = (k.sound a m).1 in
      (
        λ n. Connected-trans g a start (Connected-sym g start to_a) ((k.sound b n).1),
        λ walk. k.complete b (Connected-trans g start a to_a walk),
      )

  extended-IsClosed :
      (start : ℕ) (before visited : List Bool) (island : List ℕ)
      → IsComponent g start before visited island
      → IsClosed g before
      → IsClosed g visited
  extended-IsClosed start before visited island k c u v m e = elim (Bool-cases (flag before u)) [
    | inl old ↦ ground (arith, k.seen v, c u v old e)
    | inr new ↦
        let met : mem u island ≡ true = ground (arith, m, k.seen u, new) in
        ground (arith, k.seen v, k.complete v (step ((k.sound u met).1) e))
  ]

  extend-Inv :
      (i : ℕ) (before visited : List Bool) (out : List (List ℕ)) (island : List ℕ)
      → Inv i before out
      → IsComponent g i before visited island
      → Inv (i + 1) visited (out ++ island ∷ [])
  extend-Inv i before visited out island h k =
      let flat = members-append out island in
      record {
        size = k.size;
        closed = extended-IsClosed i before visited island k h.closed;
        covered = λ v.
            ap (mem v) flat
            ∙ ground (arith, mem-append v (members out) island, h.covered v, k.seen v);
        passed = λ v below. ground (arith, k.seen v, h.passed v, k.complete i here, below);
        distinct = subst IsDistinct (sym flat) (
            append-IsDistinct_disjoint (members out) island h.distinct k.distinct
              (λ v m. ground (arith, m, h.covered v, k.fresh v)));
        bounded = λ v m. elim (Bool-cases (flag before v)) [
          | inl old ↦ h.bounded v old
          | inr new ↦ (k.sound v (ground (arith, m, k.seen v, new))).0
        ];
        classes =
            All-append IsIsland out (island ∷ []) h.classes
              (Component-IsIsland i before visited island k, tt);
      }

  loop-Inv :
      (i m : ℕ) (visited : List Bool) (out : List (List ℕ))
      → i + m ≡ g.device_count
      → Inv i visited out
      → (out' : List (List ℕ)) × ((islands_loop g i m visited out ≡ some out')
          × ((visited' : List Bool) × Inv g.device_count visited' out'))
  unfolding islands_loop
  loop-Inv i zero visited out e h =
      (out, (refl, (visited, subst (λ n. Inv n visited out) (omega (arith, e)) h)))
  loop-Inv i (suc m) visited out e h = elim (Bool-cases (flag visited i)) [
    | inl seen ↦
        let (out', (done, rest)) = loop-Inv (i + 1) m visited out (omega (arith, e)) (record {
          size = h.size;
          closed = h.closed;
          covered = h.covered;
          passed = λ v below. elim (Bool-cases (v == i)) [
            | inl same ↦ ground (arith, same, seen)
            | inr other ↦ h.passed v (ground (arith, below, other))
          ];
          distinct = h.distinct;
          bounded = h.bounded;
          classes = h.classes;
        }) in
        (out', (ground (arith, done, seen), rest))
    | inr new ↦
        let ((visited', island), (grown, k)) =
          grow-IsComponent g i visited h.size (omega (arith, e)) new h.closed in
        let (out', (done, rest)) =
          loop-Inv (i + 1) m visited' (out ++ island ∷ []) (omega (arith, e))
            (extend-Inv i visited visited' out island h k) in
        (out', (ground (arith, done, new, grown), rest))
  ]

  -- `islands` ends with a list in which every device of the graph stands exactly once and nothing else stands, and each
  -- of whose islands holds, with any device of it, exactly the devices that some walk over links, taken in either
  -- direction, leads to.
  pub islands_lem :
      (out : List (List ℕ)) × ((islands g ≡ some out)
        × (IsDistinct (members out)
            × (((v : ℕ) → mem v (members out) ≡ ltb v g.device_count) × All IsIsland out)))
  unfolding islands
  islands_lem =
      let (out, (done, (visited, h))) =
        loop-Inv 0 g.device_count (repeat g.device_count) [] (omega arith) (record {
          size = length-repeat g.device_count;
          closed = λ u v m e. ground (arith, m, flag-repeat g.device_count u);
          covered = λ v. ground (arith, flag-repeat g.device_count v);
          passed = λ v below. let no : ⊥ = omega (arith, below) in elim no [ ];
          distinct = tt;
          bounded =
              λ v m. let no : ⊥ = ground (arith, m, flag-repeat g.device_count v) in elim no [ ];
          classes = tt;
        }) in
      (
        out,
        (
          done,
          (h.distinct, (λ v. ground (arith, h.covered v, h.passed v, h.bounded v), h.classes)),
        ),
      )
