-- ===== src/Gpu/P2p/Tables.antt =====
-- p2p/mod.rs: the entries of the edges, as new and as the two passes of EnableAll leave them.
use atomr_accel.Common.{
  ℕ, zero, suc, ◌+◌, ◌≡◌, refl, sym, ap, ◌∙◌, Bool, false, ◌&&◌, ltb, ◌∷◌, Option, none, some,
  is_some, List, get_elem?, if◌then◌else◌, arith,
}
use atomr_accel.Gpu.P2p.{P2pGraph, new_graph, can_pair, rows, repeat}
use atomr_accel.Gpu.P2p.Topology.{Peers, probe, enable_edge, enable_row, enable_rows, row, table}

get_elem?-row :
    (f : ℕ → Bool) (j m i : ℕ)
    → get_elem? (row f j m) i ≡ (if ltb i m then some (f (j + i)) else none)
unfolding row
get_elem?-row f j zero i = ground arith
get_elem?-row f j (suc m) zero = let e : j + 0 ≡ j = omega arith in ground (arith, ap f e)
get_elem?-row f j (suc m) (suc i) =
    let e : j + 1 + i ≡ j + suc i = omega arith in
    ground (arith, get_elem?-row f (j + 1) m i, ap f e)

get_elem?-table :
    (f : ℕ → ℕ → Bool) (n k m i : ℕ)
    → get_elem? (table f n k m) i ≡ (if ltb i m then some (row (f (k + i)) 0 n) else none)
unfolding table
get_elem?-table f n k zero i = ground arith
get_elem?-table f n k (suc m) zero =
    let e : k + 0 ≡ k = omega arith in ground (arith, ap (λ x. row (f x) 0 n) e)
get_elem?-table f n k (suc m) (suc i) =
    let e : k + 1 + i ≡ k + suc i = omega arith in
    ground (arith, get_elem?-table f n (k + 1) m i, ap (λ x. row (f x) 0 n) e)

-- The entries of a table.
pub can_pair-table :
    (f : ℕ → ℕ → Bool) (n a b : ℕ)
    → can_pair (record { edges = table f n 0 n; device_count = n }) a b
      ≡ (if ltb a n && ltb b n then some (f a b) else none)
unfolding can_pair
can_pair-table f n a b =
    let ea : 0 + a ≡ a = omega arith in
    let eb : 0 + b ≡ b = omega arith in
    ground (
      arith,
      get_elem?-table f n 0 n a,
      get_elem?-row (f a) 0 n b,
      ap (λ x. row (f x) 0 n) ea,
      ap (f a) eb,
    )

get_elem?-repeat : (n b : ℕ) → get_elem? (repeat n) b ≡ (if ltb b n then some false else none)
unfolding repeat
get_elem?-repeat zero b = ground arith
get_elem?-repeat (suc n) zero = ground arith
get_elem?-repeat (suc n) (suc b) = ground (arith, get_elem?-repeat n b)

get_elem?-rows : (m n a : ℕ) → get_elem? (rows m n) a ≡ (if ltb a m then some (repeat n) else none)
unfolding rows
get_elem?-rows zero n a = ground arith
get_elem?-rows (suc m) n zero = ground arith
get_elem?-rows (suc m) n (suc a) = ground (arith, get_elem?-rows m n a)

-- A graph of `n` rows of `n` flags, as far as reads can tell.
abbrev pub IsSquare : ℕ → P2pGraph → Type 0
IsSquare n g = (a b : ℕ) → is_some (can_pair g a b) ≡ (ltb a n && ltb b n)

pub new_graph-IsSquare : (n : ℕ) → IsSquare n (new_graph n)
unfolding new_graph can_pair
new_graph-IsSquare n a b = ground (arith, get_elem?-rows n n a, get_elem?-repeat n b)

pub table-IsSquare :
    (f : ℕ → ℕ → Bool) (n : ℕ) → IsSquare n (record { edges = table f n 0 n; device_count = n })
table-IsSquare f n a b = ap is_some (can_pair-table f n a b) ∙ ground arith

-- The entry of the graph after both passes.
unfoldable pub both_passes : Peers → List (Option ℕ) → ℕ → ℕ → Bool
both_passes p contexts i j = enable_edge p contexts i j (probe p contexts i j)

enable_row-row :
    (p : Peers) (contexts : List (Option ℕ)) (f : ℕ → Bool) (i j m : ℕ)
    → enable_row p contexts i j (row f j m) ≡ row (λ k. enable_edge p contexts i k (f k)) j m
unfolding enable_row row
enable_row-row p contexts f i j zero = refl
enable_row-row p contexts f i j (suc m) =
    ap (λ r. enable_edge p contexts i j (f j) ∷ r) (enable_row-row p contexts f i (j + 1) m)

enable_rows-table :
    (p : Peers) (contexts : List (Option ℕ)) (f : ℕ → ℕ → Bool) (n i m : ℕ)
    → enable_rows p contexts i (table f n i m)
      ≡ table (λ k j. enable_edge p contexts k j (f k j)) n i m
unfolding enable_rows table
enable_rows-table p contexts f n i zero = refl
enable_rows-table p contexts f n i (suc m) =
    λ k. enable_row-row p contexts (f i) i 0 n k ∷ enable_rows-table p contexts f n (i + 1) m k

pub graph-enable_all :
    (p : Peers) (contexts : List (Option ℕ)) (n : ℕ)
    → table (both_passes p contexts) n 0 n
      ≡ enable_rows p contexts 0 (table (probe p contexts) n 0 n)
unfolding both_passes
graph-enable_all p contexts n = sym (enable_rows-table p contexts (probe p contexts) n 0 n)
