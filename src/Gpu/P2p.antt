-- ===== src/Gpu/P2p.antt =====
-- crates/atomr-accel-cuda/src/p2p/mod.rs: P2pGraph. A graph has `device_count` rows of as many flags,
-- so that the default of `linked` is never seen in `islands`. An island is the list of its devices.
pub mod Linked
pub mod Search
pub mod Islands
pub mod Topology
pub mod Tables
pub mod Squares
pub mod Guarded
mod Examples
use atomr_accel.Common.{
  ℕ, zero, suc, ◌+◌, ◌*◌, Bool, true, false, not, ◌&&◌, ◌||◌, Option, none, some, List, [], ◌∷◌,
  ◌++◌, get_elem?, set, if◌then◌else◌,
}

pub record P2pGraph : Type 0 where
  pub edges : List (List Bool)
  pub device_count : ℕ

unfoldable pub repeat : ℕ → List Bool
repeat zero = []
repeat (suc n) = false ∷ repeat n

unfoldable pub rows : ℕ → ℕ → List (List Bool)
unfolding repeat
rows zero n = []
rows (suc m) n = repeat n ∷ rows m n

unfoldable pub new_graph : ℕ → P2pGraph
unfolding rows
new_graph n = record { edges = rows n n; device_count = n }

-- `edges[a][b]`, which panics out of range.
unfoldable pub can_pair : P2pGraph → ℕ → ℕ → Option Bool
can_pair g a b = elim (get_elem? g.edges a) [ none ↦ none | some row ↦ get_elem? row b ]

is_true : Option Bool → Bool
is_true none = false
is_true (some b) = b

abbrev pub flag : List Bool → ℕ → Bool
flag [] i = false
flag (b ∷ bs) zero = b
flag (b ∷ bs) (suc i) = flag bs i

-- `edges[j][k] || edges[k][j]`.
unfoldable pub linked : P2pGraph → ℕ → ℕ → Bool
unfolding can_pair is_true
linked g j k = is_true (can_pair g j k) || is_true (can_pair g k j)

-- The loop over `k`, from `k` for `m` rounds; the head of a stack is its top.
unfoldable pub push_linked : P2pGraph → List Bool → ℕ → ℕ → ℕ → List ℕ → List ℕ
unfolding linked
push_linked g visited j k zero stack = stack
push_linked g visited j k (suc m) stack =
    push_linked g visited j (k + 1) m
      (if not (flag visited k) && linked g j k then k ∷ stack else stack)

-- The `while` loop, with what it has visited and the island so far. `none`: the fuel ran out.
unfoldable pub grow : ℕ → P2pGraph → List Bool → List ℕ → List ℕ → Option (List Bool × List ℕ)
unfolding push_linked
grow fuel g visited [] island = some (visited, island)
grow zero g visited (j ∷ stack) island = none
grow (suc fuel) g visited (j ∷ stack) island =
    let skipped = grow fuel g visited stack island in
    let expanded =
      grow fuel g (set visited j true) (push_linked g (set visited j true) j 0 g.device_count stack)
        (island ++ j ∷ []) in
    if flag visited j then skipped else expanded

-- Each of the n devices is expanded once and pushes n others at most.
abbrev pub enough : P2pGraph → ℕ
enough g = g.device_count * (g.device_count + 1) + 1

-- The `for` loop over the devices from `i`, for `m` rounds.
unfoldable pub islands_loop : P2pGraph → ℕ → ℕ → List Bool → List (List ℕ) → Option (List (List ℕ))
unfolding grow
islands_loop g i zero visited out = some out
islands_loop g i (suc m) visited out =
    let skipped = islands_loop g (i + 1) m visited out in
    let grown : Option (List (List ℕ)) = elim (grow (enough g) g visited (i ∷ []) []) [
      | none ↦ none
      | some r ↦ islands_loop g (i + 1) m (r.0) (out ++ (r.1) ∷ [])
    ] in
    if flag visited i then skipped else grown

unfoldable pub islands : P2pGraph → Option (List (List ℕ))
unfolding islands_loop repeat
islands g = islands_loop g 0 g.device_count (repeat g.device_count) []
