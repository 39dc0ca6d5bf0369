-- ===== src/Agents/Graph/Topological.antt =====
-- langgraph_nodes.rs: the order that Kahn's algorithm finds, and that it ends.
use mathlib.Core.Path.{subst}
use atomr_accel.Common.{
  ℕ, zero, suc, ◌+◌, ◌-◌, ◌<◌, ◌≡◌, sym, ap, ◌∙◌, true, false, Bool-cases, inl, inr, ◌==◌, Option,
  some, List, [], ◌∷◌, ◌++◌, append-nil, append_assoc, length, mem, IsDistinct, insert, keys,
  if◌then◌else◌, arith, All-append,
}
use atomr_accel.Agents.Graph.{successors, degree, relax, topo_loop}
use atomr_accel.Agents.Graph.Degrees.{
  remaining, unseen, degree-insert, remaining-take, unseen-take, degree-relax, length-relax,
  AllReady,
}

-- No node comes twice or is in `before`, and every edge into a node starts at an earlier one.
unfoldable pub IsTopological : List (ℕ × List ℕ) → (before order : List ℕ) → Type 0
unfolding remaining
IsTopological edges before [] = Unit
IsTopological edges before (v ∷ order) =
    (mem v before ≡ false)
    × ((remaining v before edges ≡ 0) × IsTopological edges (v ∷ before) order)

lowered-AllReady :
    (s : ℕ) (in_deg : List (ℕ × ℕ)) (q : List ℕ)
    → AllReady in_deg q
    → AllReady (insert s (degree s in_deg - 1) in_deg) q
lowered-AllReady s in_deg [] h = tt
lowered-AllReady s in_deg (n ∷ q) h = (
  ground (arith, h.0, degree-insert n s (degree s in_deg - 1) in_deg),
  lowered-AllReady s in_deg q h.1,
)

relax-AllReady :
    (succs : List ℕ) (in_deg : List (ℕ × ℕ)) (q : List ℕ)
    → AllReady in_deg q
    → AllReady ((relax succs in_deg q).0) ((relax succs in_deg q).1)
unfolding relax
relax-AllReady [] in_deg q h = h
relax-AllReady (s ∷ succs) in_deg q h =
    let d = degree s in_deg - 1 in
    let low = lowered-AllReady s in_deg q h in
    relax-AllReady succs (insert s d in_deg) (if d == 0 then q ++ s ∷ [] else q)
      (elim (Bool-cases (d == 0)) [
        | inl z ↦
            subst (λ b. AllReady (insert s d in_deg) (if b then q ++ s ∷ [] else q)) (sym z)
              (All-append (λ n. degree n (insert s d in_deg) ≡ 0) q (s ∷ []) low
                (ground (arith, z, degree-insert s s d in_deg), tt))
        | inr p ↦
            subst (λ b. AllReady (insert s d in_deg) (if b then q ++ s ∷ [] else q)) (sym p) low
      ])

-- What the loop keeps: the queue is ready, and the degrees count the edges that are left.
pub record IsExact (edges : List (ℕ × List ℕ)) (q : List ℕ) (in_deg : List (ℕ × ℕ)) (seen : List ℕ)
    : Type 0 where
  pub queue : AllReady in_deg q
  pub exact : (v : ℕ) → degree v in_deg ≡ remaining v seen edges

abbrev pub Ends : List (ℕ × List ℕ) → (seen order : List ℕ) → Option (List ℕ) → Type 0
Ends edges seen order o =
    (tail : List ℕ) × ((o ≡ some (order ++ tail)) × IsTopological edges seen tail)

taken-IsExact :
    (edges : List (ℕ × List ℕ)) (n : ℕ) (q : List ℕ) (in_deg : List (ℕ × ℕ)) (seen : List ℕ)
    → IsDistinct (keys edges)
    → mem n seen ≡ false
    → IsExact edges (n ∷ q) in_deg seen
    → IsExact edges
        ((relax (successors n edges) in_deg q).1)
        ((relax (successors n edges) in_deg q).0)
        (n ∷ seen)
taken-IsExact edges n q in_deg seen d new e = record {
  queue = relax-AllReady (successors n edges) in_deg q e.queue.1;
  exact = λ v. omega (
    arith,
    degree-relax v (successors n edges) in_deg q,
    e.exact v,
    remaining-take v n seen edges d new,
  );
}

skip :
    (edges : List (ℕ × List ℕ)) (fuel n : ℕ) (q : List ℕ) (in_deg : List (ℕ × ℕ))
    (seen order : List ℕ)
    → mem n seen ≡ true
    → topo_loop edges fuel q in_deg seen order
      ≡ topo_loop edges (suc fuel) (n ∷ q) in_deg seen order
unfolding topo_loop
skip edges fuel n q in_deg seen order h = ground arith

visit :
    (edges : List (ℕ × List ℕ)) (fuel n : ℕ) (q : List ℕ) (in_deg : List (ℕ × ℕ))
    (seen order : List ℕ)
    → mem n seen ≡ false
    → let (in_deg', q') = relax (successors n edges) in_deg q in
      topo_loop edges fuel q' in_deg' (n ∷ seen) (order ++ n ∷ [])
      ≡ topo_loop edges (suc fuel) (n ∷ q) in_deg seen order
unfolding topo_loop
visit edges fuel n q in_deg seen order h = ground arith

pub topo_loop-Ends :
    (edges : List (ℕ × List ℕ)) (fuel : ℕ) (q : List ℕ) (in_deg : List (ℕ × ℕ))
    (seen order : List ℕ)
    → IsDistinct (keys edges)
    → IsExact edges q in_deg seen
    → length q + unseen seen edges < fuel
    → Ends edges seen order (topo_loop edges fuel q in_deg seen order)
unfolding topo_loop IsTopological
topo_loop-Ends edges zero q in_deg seen order d e f = ground arith
topo_loop-Ends edges (suc fuel) [] in_deg seen order d e f =
    ([], (ap some (sym (append-nil order)), tt))
topo_loop-Ends edges (suc fuel) (n ∷ q) in_deg seen order d e f = elim (Bool-cases (mem n seen)) [
  | inl old ↦ subst (Ends edges seen order) (skip edges fuel n q in_deg seen order old) (
      topo_loop-Ends edges fuel q in_deg seen order d
        (record { queue = e.queue.1; exact = e.exact }) (omega (arith, f)))
  | inr new ↦
      let next = relax (successors n edges) in_deg q in
      let (tail, (done, good)) =
        topo_loop-Ends edges fuel (next.1) (next.0) (n ∷ seen) (order ++ n ∷ []) d
          (taken-IsExact edges n q in_deg seen d new e)
          (omega
            (arith, f, length-relax (successors n edges) in_deg q, unseen-take n seen edges new)) in
      (
        n ∷ tail,
        (
          sym (visit edges fuel n q in_deg seen order new)
              ∙ done
              ∙ ap some (append_assoc order (n ∷ []) tail),
          (new, (sym (e.exact n) ∙ e.queue.0, good)),
        ),
      )
]
