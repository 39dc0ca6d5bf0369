-- ===== src/Patterns/Replicas/Tally.antt =====
-- replica_pool.rs: the counters of a replica, found by its name.
use mathlib.Core.Path.{subst}
use atomr_accel.Common.{
  ℕ, zero, suc, ◌+◌, ◌≤◌, ◌≡◌, ◌==◌, refl, Bool-cases, inl, inr, true, false, mem, All, IsDistinct,
  if◌then◌else◌, some, List, [], ◌∷◌, length, get_elem?, set, arith,
}
use atomr_accel.Patterns.Replicas.{zeros}
use atomr_accel.Patterns.Replicas.Least.{IsEven}

-- The counters of the positions at which a replica stands.
unfoldable pub tally : ℕ → List ℕ → List ℕ → ℕ
tally x [] vs = 0
tally x rs [] = 0
tally x (r ∷ rs) (v ∷ vs) = (if r == x then v else 0) + tally x rs vs

pub tally-set :
    (x j v r : ℕ) (rs vs : List ℕ)
    → get_elem? rs j ≡ some r
    → get_elem? vs j ≡ some v
    → tally x rs (set vs j (v + 1)) ≡ tally x rs vs + (if r == x then 1 else 0)
unfolding tally
tally-set x j v r [] vs e f = ground (arith, e)
tally-set x j v r rs [] e f = ground (arith, f)
tally-set x zero v r (s ∷ rs) (w ∷ vs) e f = ground (arith, e, f)
tally-set x (suc j) v r (s ∷ rs) (w ∷ vs) e f = omega (arith, tally-set x j v r rs vs e f)

pub tally-zeros : (x : ℕ) (rs : List ℕ) → tally x rs (zeros rs) ≡ 0
unfolding tally zeros
tally-zeros x [] = refl
tally-zeros x (r ∷ rs) = ground (arith, tally-zeros x rs)

tally-absent : (x : ℕ) (rs vs : List ℕ) → mem x rs ≡ false → tally x rs vs ≡ 0
unfolding tally
tally-absent x [] vs h = refl
tally-absent x (r ∷ rs) [] h = refl
tally-absent x (r ∷ rs) (v ∷ vs) h = ground (arith, tally-absent x rs vs, h)

-- A replica that stands once in the list has one counter.
tally-IsEven :
    (m x : ℕ) (rs vs : List ℕ)
    → IsDistinct rs
    → length rs ≡ length vs
    → IsEven m vs
    → mem x rs ≡ true
    → (m ≤ tally x rs vs) × (tally x rs vs ≤ m + 1)
unfolding tally
tally-IsEven m x [] vs d l h k = ground (arith, k)
tally-IsEven m x (r ∷ rs) [] d l h k = ground (arith, l)
tally-IsEven m x (r ∷ rs) (v ∷ vs) d l h k = elim (Bool-cases (r == x)) [
  | inl here ↦
      let same : r ≡ x = ground (arith, here) in
      let alone = tally-absent x rs vs (subst (λ y. mem y rs ≡ false) same d.0) in
      (ground (arith, here, alone, h.0.0), ground (arith, here, alone, h.0.1))
  | inr other ↦
      let (above, below) =
        tally-IsEven m x rs vs d.1 (omega (arith, l)) h.1 (ground (arith, k, other)) in
      (ground (arith, other, above), ground (arith, other, below))
]

each_member : {P : ℕ → Type 0} (rs : List ℕ) → ((r : ℕ) → mem r rs ≡ true → P r) → All P rs
each_member [] h = tt
each_member (r ∷ rs) h = (h r (ground arith), each_member rs (λ x k. h x (ground (arith, k))))

-- What the replicas were sent is even, if the counters tell it.
pub even_shares :
    (m : ℕ) (rs vs : List ℕ) (sent : ℕ → ℕ)
    → IsDistinct rs
    → length rs ≡ length vs
    → IsEven m vs
    → ((x : ℕ) → tally x rs vs ≡ sent x)
    → All (λ x. (m ≤ sent x) × (sent x ≤ m + 1)) rs
even_shares m rs vs sent d l h same = each_member rs (λ x member.
    let (above, below) = tally-IsEven m x rs vs d l h member in
    (omega (arith, above, same x), omega (arith, below, same x)))
