-- ===== src/Agents/Examples.antt =====
-- Runs of the cache, the coordinator and the node graph on small inputs.
use atomr_accel.Common.{
  arith, ℕ, ◌+◌, ◌≡◌, refl, true, ◌||◌, is_empty, is_some, none, some, List, [], ◌∷◌, ◌++◌,
}
use atomr_accel.Gpu.Error.{Result, ok}
use atomr_accel.Agents.Graph.{
  GraphOp, with_node, with_edge, with_entry, new_graph, build, degree, topo_order,
}
use atomr_accel.Agents.Graph.Order.{IsOrder, topo_order-build}
use atomr_accel.Agents.Embedding.{
  EmbeddingCacheMsg, get, insert_entry, invalidate, get_stats, new_cache, run_msgs,
}
use atomr_accel.Agents.Embedding.Lru.{lru_run}
use atomr_accel.Agents.Embedding.Refinement.{run_msgs-lru_run}
use atomr_accel.Agents.Coordinator.{
  SharedStateMsg, acquire_write, release_write, stats, SharedGpuStateCoordinator, new_coordinator,
  run,
}
use atomr_accel.Agents.Coordinator.Exclusion.{
  granted, seconds, asked, tokens, Keeps, run-granted, run-held,
}

-- A hash that adds the bytes up, and so collides.
abbrev hash_key : List ℕ → ℕ
hash_key [] = 0
hash_key (b ∷ bs) = b + hash_key bs

-- The third insertion evicts the second key, since the first was used in between.
abbrev traffic : List (EmbeddingCacheMsg ℕ)
traffic =
    insert_entry (1 ∷ []) 10
    ∷ insert_entry (2 ∷ []) 20
    ∷ get (1 ∷ [])
    ∷ insert_entry (3 ∷ []) 30
    ∷ get (2 ∷ [])
    ∷ get (1 ∷ [])
    ∷ invalidate (3 ∷ [])
    ∷ get_stats
    ∷ []

run_msgs-lru_run_example :
    run_msgs hash_key (new_cache 2) traffic
    ≡ lru_run 2 hash_key (record { entries = []; hits = 0; misses = 0 }) traffic
run_msgs-lru_run_example = run_msgs-lru_run 2 hash_key traffic

abbrev requests : List (SharedStateMsg ℕ)
requests =
    acquire_write 1 100 ∷ acquire_write 2 101 ∷ release_write 9 ∷ release_write 1 ∷ stats 102 ∷ []

run-granted_example :
    let (c, out) = run new_coordinator requests in
    (granted out ++ seconds c.waiters ≡ asked requests)
    × ((is_empty c.waiters || is_some c.held) ≡ true)
run-granted_example = run-granted requests

abbrev holding : SharedGpuStateCoordinator ℕ
holding = record { counter = 4; waiters = (2, 101) ∷ []; held = some (1, 4); state = none }

abbrev without_release : List (SharedStateMsg ℕ)
without_release = release_write 3 ∷ acquire_write 3 103 ∷ []

run-held_example :
    let (c, out) = run holding without_release in (c.held ≡ some (1, 4)) × (tokens out ≡ [])
unfolding Keeps
run-held_example = run-held holding 1 4 without_release refl (refl, tt)

-- Two nodes, the edge between them put in first.
abbrev steps : List (GraphOp ℕ)
steps =
    with_edge 1 2
    ∷ with_node 1 (λ s. ok (s + 1))
    ∷ with_node 2 (λ s. ok (s + s))
    ∷ with_entry 1
    ∷ []

-- The degrees as another iteration would meet them.
abbrev listing : List (ℕ × ℕ)
listing = (1, 0) ∷ (2, 1) ∷ []

listing-build : (v : ℕ) → degree v listing ≡ degree v (build new_graph steps).in_degree
unfolding degree build new_graph
listing-build v = ground arith

topo_order-build_example :
    let g = record (build new_graph steps) { in_degree = listing } in
    (r : Result (List ℕ)) × ((topo_order g ≡ some r) × IsOrder g r)
topo_order-build_example = topo_order-build steps listing (refl, (refl, tt)) listing-build
