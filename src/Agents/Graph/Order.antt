-- ===== src/Agents/Graph/Order.antt =====
-- langgraph_nodes.rs: what `topo_order` answers on every graph that can be built.
use mathlib.Core.Path.{subst}
use atomr_accel.Common.{
  ℕ, suc, ◌+◌, ◌≡◌, refl, sym, ◌∙◌, true, false, not, Bool-cases, inl, inr, ◌==◌, Option, none,
  some, List, [], ◌∷◌, ◌++◌, length, mem, count, count-append, IsDistinct, insert, keys,
  keys-insert-IsDistinct, if◌then◌else◌, arith, All,
}
use atomr_accel.Gpu.Error.{unrecoverable, Result, ok, err}
use atomr_accel.Agents.Graph.{
  NodeGraph, successors, degree, new_graph, add_node, add_edge, set_entry, GraphOp, with_node,
  with_edge, with_entry, apply, build, ready, topo_loop, edge_count, cycle_detected, topo_order,
}
use atomr_accel.Agents.Graph.Degrees.{remaining, degree-insert, unseen-edge_count, AllReady}
use atomr_accel.Agents.Graph.Topological.{IsTopological, topo_loop-Ends}

-- The successors are listed once for each node, and the degrees count the edges.
record IsConsistent {S : Type 0} (g : NodeGraph S) : Type 0 where
  distinct : IsDistinct (keys g.edges)
  counted : (v : ℕ) → degree v g.in_degree ≡ remaining v [] g.edges

remaining-insert :
    (v k : ℕ) (l : List ℕ) (m : List (ℕ × List ℕ))
    → remaining v [] (insert k l m) + count v (successors k m) ≡ remaining v [] m + count v l
unfolding remaining successors
remaining-insert v k l [] = omega arith
remaining-insert v k l ((u, succs) ∷ m) = ground (arith, remaining-insert v k l m)

module _ {S : Type 0} where
  apply-IsConsistent : (g : NodeGraph S) (o : GraphOp S) → IsConsistent g → IsConsistent (apply g o)
  unfolding apply add_node add_edge set_entry
  apply-IsConsistent g (with_node id run) c = record {
    distinct = c.distinct;
    counted =
        λ v. ground (arith, degree-insert v id (degree id g.in_degree) g.in_degree, c.counted v);
  }
  apply-IsConsistent g (with_edge source target) c = record {
    distinct =
        keys-insert-IsDistinct source (successors source g.edges ++ target ∷ []) g.edges c.distinct;
    counted = λ v. ground (
      arith,
      degree-insert v target (degree target g.in_degree + 1) g.in_degree,
      c.counted v,
      remaining-insert v source (successors source g.edges ++ target ∷ []) g.edges,
      count-append v (successors source g.edges) (target ∷ []),
    );
  }
  apply-IsConsistent g (with_entry id) c = record { distinct = c.distinct; counted = c.counted }

  build-IsConsistent :
      (g : NodeGraph S) (os : List (GraphOp S)) → IsConsistent g → IsConsistent (build g os)
  unfolding build
  build-IsConsistent g [] c = c
  build-IsConsistent g (o ∷ os) c = build-IsConsistent (apply g o) os (apply-IsConsistent g o c)

  new_graph-IsConsistent : IsConsistent (new_graph {S = S})
  unfolding new_graph degree remaining
  new_graph-IsConsistent = record { distinct = tt; counted = λ v. refl }

-- A key of the map with degree 0.
IsReady : List (ℕ × ℕ) → ℕ → Type 0
IsReady m n = (degree n m ≡ 0) × (mem n (keys m) ≡ true)

weaker-IsReady :
    (id d : ℕ) (rest : List (ℕ × ℕ)) (xs : List ℕ)
    → mem id (keys rest) ≡ false
    → All (IsReady rest) xs
    → All (IsReady ((id, d) ∷ rest)) xs
unfolding IsReady degree
weaker-IsReady id d rest [] new h = tt
weaker-IsReady id d rest (x ∷ xs) new h =
    (ground (arith, h.0, new), weaker-IsReady id d rest xs new h.1)

ready-IsReady : (m : List (ℕ × ℕ)) → IsDistinct (keys m) → All (IsReady m) (ready m)
unfolding ready IsReady degree
ready-IsReady [] u = tt
ready-IsReady ((id, d) ∷ rest) u =
    let later = weaker-IsReady id d rest (ready rest) u.0 (ready-IsReady rest u.1) in
    elim (Bool-cases (d == 0)) [
      | inl z ↦
          subst (λ b. All (IsReady ((id, d) ∷ rest)) (if b then id ∷ ready rest else ready rest))
            (sym z) (ground (arith, z), later)
      | inr p ↦
          subst (λ b. All (IsReady ((id, d) ∷ rest)) (if b then id ∷ ready rest else ready rest))
            (sym p) later
    ]

IsReady-AllReady : (m : List (ℕ × ℕ)) (xs : List ℕ) → All (IsReady m) xs → AllReady m xs
unfolding IsReady
IsReady-AllReady m [] h = tt
IsReady-AllReady m (x ∷ xs) h = (h.0.0, IsReady-AllReady m xs h.1)

module _ {S : Type 0} where
  -- What an answer says of the graph.
  unfoldable pub IsOrder : NodeGraph S → Result (List ℕ) → Type 0
  unfolding IsTopological
  IsOrder g (ok order) = (length order ≡ length g.nodes) × IsTopological g.edges [] order
  IsOrder g (err e) = e ≡ unrecoverable cycle_detected

  finish :
      (g : NodeGraph S) (o : Option (List ℕ)) (order : List ℕ)
      → o ≡ some order
      → IsTopological g.edges [] order
      → (r : Result (List ℕ)) × (((elim o [
        | none ↦ none
        | some order ↦ some (
            if not (length order == length g.nodes)
            then err (unrecoverable cycle_detected)
            else ok order)
      ])
            ≡ some r)
          × IsOrder g r)
  unfolding IsOrder
  finish g o order h t = elim (Bool-cases (length order == length g.nodes)) [
    | inl same ↦ (ok order, (ground (arith, h, same), (ground (arith, same), t)))
    | inr other ↦ (err (unrecoverable cycle_detected), (ground (arith, h, other), refl))
  ]

  -- For every graph that can be built, and whichever order the map of the degrees is iterated in, the search
  -- ends. Its answer is an error about a cycle, or an order with as many entries as there are nodes, none of
  -- them twice, in which every edge into a node starts at an earlier one.
  pub topo_order-build :
      (os : List (GraphOp S)) (listing : List (ℕ × ℕ))
      → IsDistinct (keys listing)
      → ((v : ℕ) → degree v listing ≡ degree v (build new_graph os).in_degree)
      → let g = record (build new_graph os) { in_degree = listing } in
        (r : Result (List ℕ)) × ((topo_order g ≡ some r) × IsOrder g r)
  unfolding topo_order
  topo_order-build os listing u same =
      let g = record (build new_graph os) { in_degree = listing } in
      let c = build-IsConsistent (new_graph {S = S}) os new_graph-IsConsistent in
      let q = ready listing in
      let (order, (done, good)) =
        topo_loop-Ends g.edges (suc (length q + edge_count g.edges)) q listing [] [] c.distinct
          (record {
            queue = IsReady-AllReady listing q (ready-IsReady listing u);
            exact = λ v. same v ∙ c.counted v;
          })
          (omega (arith, unseen-edge_count g.edges)) in
      finish g (topo_loop g.edges (suc (length q + edge_count g.edges)) q listing [] []) order done
        good
