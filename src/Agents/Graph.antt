-- ===== src/Agents/Graph.antt =====
-- crates/atomr-accel-agents/src/langgraph_nodes.rs. A node is a function on the state `S`. The hash maps
-- are association lists, and every order of iteration is one of theirs.
pub mod Degrees
pub mod Topological
pub mod Order
use atomr_accel.Common.{
  ℕ, zero, suc, ◌+◌, ◌-◌, ◌==◌, not, Option, none, some, List, [], ◌∷◌, ◌++◌, length, mem, is_empty,
  lookup, insert, contains_key, if◌then◌else◌, Text, text, decimal,
}
use atomr_accel.Gpu.Error.{unrecoverable, Result, ok, err}

pub record NodeGraph (S : Type 0) : Type 0 where
  pub nodes : List (ℕ × (S → Result S))
  pub edges : List (ℕ × List ℕ)
  pub in_degree : List (ℕ × ℕ)
  pub entry : Option ℕ

-- `map.get(k)`, or what `entry(k).or_insert(…)` starts from.
unfoldable pub successors : ℕ → List (ℕ × List ℕ) → List ℕ
successors n edges = elim (lookup n edges) [ none ↦ [] | some succs ↦ succs ]

unfoldable pub degree : ℕ → List (ℕ × ℕ) → ℕ
degree n in_degree = elim (lookup n in_degree) [ none ↦ 0 | some d ↦ d ]

module _ {S : Type 0} where
  unfoldable pub new_graph : NodeGraph S
  new_graph = record { nodes = []; edges = []; in_degree = []; entry = none }

  unfoldable pub add_node : NodeGraph S → ℕ → (S → Result S) → NodeGraph S
  unfolding degree
  add_node g id node = record g {
    nodes = insert id node g.nodes;
    in_degree = insert id (degree id g.in_degree) g.in_degree;
  }

  unfoldable pub add_edge : NodeGraph S → ℕ → ℕ → NodeGraph S
  unfolding successors degree
  add_edge g source target = record g {
    edges = insert source (successors source g.edges ++ target ∷ []) g.edges;
    in_degree = insert target (degree target g.in_degree + 1) g.in_degree;
  }

  unfoldable pub set_entry : NodeGraph S → ℕ → NodeGraph S
  set_entry g id = record g { entry = some id }

pub data GraphOp (S : Type 0) : Type 0 where
  with_node : (id : ℕ) (run : S → Result S) → GraphOp S
  with_edge : (source target : ℕ) → GraphOp S
  with_entry : (id : ℕ) → GraphOp S

module _ {S : Type 0} where
  unfoldable pub apply : NodeGraph S → GraphOp S → NodeGraph S
  unfolding add_node add_edge set_entry
  apply g (with_node id run) = add_node g id run
  apply g (with_edge source target) = add_edge g source target
  apply g (with_entry id) = set_entry g id

  -- A graph as its owner builds it.
  unfoldable pub build : NodeGraph S → List (GraphOp S) → NodeGraph S
  unfolding apply
  build g [] = g
  build g (o ∷ os) = build (apply g o) os

-- The nodes of degree 0, in the map's order.
unfoldable pub ready : List (ℕ × ℕ) → List ℕ
ready [] = []
ready ((id, d) ∷ rest) = let others = ready rest in if d == 0 then id ∷ others else others

-- The loop over the successors of a node: the degrees and the queue after it.
unfoldable pub relax : List ℕ → List (ℕ × ℕ) → List ℕ → List (ℕ × ℕ) × List ℕ
unfolding degree
relax [] in_deg q = (in_deg, q)
relax (s ∷ succs) in_deg q =
    let d = degree s in_deg - 1 in
    relax succs (insert s d in_deg) (if d == 0 then q ++ s ∷ [] else q)

-- The `while let` loop; `none` when the fuel is used up.
unfoldable pub topo_loop :
    List (ℕ × List ℕ)
    → (fuel : ℕ) → (q : List ℕ) → List (ℕ × ℕ)
    → (seen order : List ℕ) → Option (List ℕ)
unfolding successors relax
topo_loop edges zero q in_deg seen order = none
topo_loop edges (suc fuel) [] in_deg seen order = some order
topo_loop edges (suc fuel) (n ∷ q) in_deg seen order =
    let skipped = topo_loop edges fuel q in_deg seen order in
    let (in_deg', q') = relax (successors n edges) in_deg q in
    let taken = topo_loop edges fuel q' in_deg' (n ∷ seen) (order ++ n ∷ []) in
    if mem n seen then skipped else taken

unfoldable pub edge_count : List (ℕ × List ℕ) → ℕ
edge_count [] = 0
edge_count ((u, succs) ∷ edges) = length succs + edge_count edges

unfoldable pub cycle_detected : Text
cycle_detected = text "NodeGraph: cycle detected"

unfoldable pub node_missing : ℕ → Text
node_missing id = text "NodeGraph: node NodeId(" ++ (decimal id ++ text ") missing")

module _ {S : Type 0} where
  -- A round for each node that is ready and for each edge, and one to leave.
  unfoldable pub topo_order : NodeGraph S → Option (Result (List ℕ))
  unfolding ready topo_loop edge_count
  topo_order g =
      let q = ready g.in_degree in
      elim (topo_loop g.edges (suc (length q + edge_count g.edges)) q g.in_degree [] []) [
        | none ↦ none
        | some order ↦ some (
            if not (length order == length g.nodes)
            then err (unrecoverable cycle_detected)
            else ok order)
      ]

  unfoldable pub run_nodes : List (ℕ × (S → Result S)) → List ℕ → S → Result S
  unfolding node_missing
  run_nodes nodes [] s = ok s
  run_nodes nodes (id ∷ order) s = elim (lookup id nodes) [
    | none ↦ err (unrecoverable (node_missing id))
    | some node ↦ elim (node s) [ err e ↦ err e | ok next ↦ run_nodes nodes order next ]
  ]

  unfoldable pub handle_run : NodeGraph S → S → Option (Result S)
  unfolding run_nodes
  handle_run g state = elim (topo_order g) [
    | none ↦ none
    | some (err e) ↦ some (err e)
    | some (ok order) ↦ some (run_nodes g.nodes order state)
  ]
