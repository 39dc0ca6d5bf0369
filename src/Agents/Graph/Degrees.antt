-- ===== src/Agents/Graph/Degrees.antt =====
-- langgraph_nodes.rs: the in-degrees count the edges whose source has not been taken.
use atomr_accel.Common.{
  ℕ, ◌+◌, ◌-◌, ◌≤◌, ◌≡◌, refl, false, ◌==◌, List, [], ◌∷◌, ◌++◌, length, length-append, mem, count,
  IsDistinct, insert, keys, lookup-insert, if◌then◌else◌, arith, All,
}
use atomr_accel.Agents.Graph.{successors, degree, relax, edge_count}

-- The edges into `v` from nodes that are not in `seen`.
unfoldable pub remaining : ℕ → List ℕ → List (ℕ × List ℕ) → ℕ
remaining v seen [] = 0
remaining v seen ((u, succs) ∷ edges) =
    let rest = remaining v seen edges in if mem u seen then rest else count v succs + rest

-- The edges out of nodes that are not in `seen`.
unfoldable pub unseen : List ℕ → List (ℕ × List ℕ) → ℕ
unseen seen [] = 0
unseen seen ((u, succs) ∷ edges) =
    let rest = unseen seen edges in if mem u seen then rest else length succs + rest

pub degree-insert :
    (v k d : ℕ) (m : List (ℕ × ℕ)) → degree v (insert k d m) ≡ (if k == v then d else degree v m)
unfolding degree
degree-insert v k d m = ground (arith, lookup-insert k v d m)

pub successors-insert :
    (v k : ℕ) (l : List ℕ) (m : List (ℕ × List ℕ))
    → successors v (insert k l m) ≡ (if k == v then l else successors v m)
unfolding successors
successors-insert v k l m = ground (arith, lookup-insert k v l m)

remaining-absent :
    (v n : ℕ) (seen : List ℕ) (edges : List (ℕ × List ℕ))
    → mem n (keys edges) ≡ false
    → remaining v (n ∷ seen) edges ≡ remaining v seen edges
unfolding remaining
remaining-absent v n seen [] h = refl
remaining-absent v n seen ((u, succs) ∷ edges) h = ground (arith, remaining-absent v n seen edges)

pub remaining-take :
    (v n : ℕ) (seen : List ℕ) (edges : List (ℕ × List ℕ))
    → IsDistinct (keys edges)
    → mem n seen ≡ false
    → remaining v seen edges ≡ count v (successors n edges) + remaining v (n ∷ seen) edges
unfolding remaining successors
remaining-take v n seen [] d h = refl
remaining-take v n seen ((u, succs) ∷ edges) d h =
    ground (arith, remaining-take v n seen edges d.1 h, remaining-absent v n seen edges, d.0)

unseen-le :
    (n : ℕ) (seen : List ℕ) (edges : List (ℕ × List ℕ))
    → unseen (n ∷ seen) edges ≤ unseen seen edges
unfolding unseen
unseen-le n seen [] = omega arith
unseen-le n seen ((u, succs) ∷ edges) = ground (arith, unseen-le n seen edges)

pub unseen-take :
    (n : ℕ) (seen : List ℕ) (edges : List (ℕ × List ℕ))
    → mem n seen ≡ false
    → length (successors n edges) + unseen (n ∷ seen) edges ≤ unseen seen edges
unfolding unseen successors
unseen-take n seen [] h = omega arith
unseen-take n seen ((u, succs) ∷ edges) h =
    ground (arith, unseen-take n seen edges h, unseen-le n seen edges)

pub unseen-edge_count : (edges : List (ℕ × List ℕ)) → unseen [] edges ≡ edge_count edges
unfolding unseen edge_count
unseen-edge_count [] = refl
unseen-edge_count ((u, succs) ∷ edges) = ground (arith, unseen-edge_count edges)

pub degree-relax :
    (v : ℕ) (succs : List ℕ) (in_deg : List (ℕ × ℕ)) (q : List ℕ)
    → degree v ((relax succs in_deg q).0) ≡ degree v in_deg - count v succs
unfolding relax
degree-relax v [] in_deg q = omega arith
degree-relax v (s ∷ succs) in_deg q =
    let d = degree s in_deg - 1 in
    ground (
      arith,
      degree-relax v succs (insert s d in_deg) (if d == 0 then q ++ s ∷ [] else q),
      degree-insert v s d in_deg,
    )

pub length-relax :
    (succs : List ℕ) (in_deg : List (ℕ × ℕ)) (q : List ℕ)
    → length ((relax succs in_deg q).1) ≤ length q + length succs
unfolding relax
length-relax [] in_deg q = omega arith
length-relax (s ∷ succs) in_deg q =
    let d = degree s in_deg - 1 in
    ground (
      arith,
      length-relax succs (insert s d in_deg) (if d == 0 then q ++ s ∷ [] else q),
      length-append q (s ∷ []),
    )

-- Everything in the list has degree 0.
abbrev pub AllReady : List (ℕ × ℕ) → List ℕ → Type 0
AllReady in_deg = All (λ n. degree n in_deg ≡ 0)
