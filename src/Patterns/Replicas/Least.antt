-- ===== src/Patterns/Replicas/Least.antt =====
-- replica_pool.rs: the scan finds a least counter, and one more there keeps the counters even.
use atomr_accel.Common.{
  ℕ, zero, suc, ◌+◌, ◌≤◌, ◌<◌, ◌≡◌, refl, false, ◌⊎◌, inl, inr, Bool-cases, some, List, [], ◌∷◌,
  length, get_elem?, set, is_empty, ltb, All, arith,
}
use atomr_accel.Patterns.Replicas.{u32_max, least_index}

-- The position `j` holds `v`, and no counter is smaller.
pub record IsLeast (j v : ℕ) (vs : List ℕ) : Type 0 where
  pub at : get_elem? vs j ≡ some v
  pub least : All (λ w. v ≤ w) vs

weaken : (v w : ℕ) (vs : List ℕ) → v ≤ w → All (λ x. w ≤ x) vs → All (λ x. v ≤ x) vs
weaken v w [] h a = tt
weaken v w (x ∷ xs) h a = (omega (arith, h, a.0), weaken v w xs h a.1)

-- The scan stays with what it has, or finds a smaller counter, the least of all.
pub least_index_cases :
    (i low idx : ℕ) (vs : List ℕ)
    → ((least_index i low idx vs ≡ idx) × All (λ w. low ≤ w) vs)
      ⊎ ((j : ℕ) × ((v : ℕ) × ((least_index i low idx vs ≡ i + j) × ((v < low) × IsLeast j v vs))))
unfolding least_index
least_index_cases i low idx [] = inl (refl, tt)
least_index_cases i low idx (v ∷ vs) = elim (Bool-cases (ltb v low)) [
  | inl smaller ↦ elim (least_index_cases (suc i) v i vs) [
    | inl (e, a) ↦ inr (
      0,
      (
        v,
        (
          ground (arith, e, smaller),
          (ground (arith, smaller), record { at = refl; least = (omega arith, a) }),
        ),
      ),
    )
    | inr (j, (w, (e, (b, l)))) ↦ inr (
      suc j,
      (
        w,
        (
          ground (arith, e, smaller),
          (ground (arith, smaller, b), record { at = l.at; least = (omega (arith, b), l.least) }),
        ),
      ),
    )
  ]
  | inr kept ↦ elim (least_index_cases (suc i) low idx vs) [
    | inl (e, a) ↦ inl (ground (arith, e, kept), (ground (arith, kept), a))
    | inr (j, (w, (e, (b, l)))) ↦ inr (
      suc j,
      (
        w,
        (
          ground (arith, e, kept),
          (b, record { at = l.at; least = (ground (arith, kept, b), l.least) }),
        ),
      ),
    )
  ]
]

-- Every counter is `m` or one more.
abbrev pub IsEven : ℕ → List ℕ → Type 0
IsEven m vs = All (λ v. (m ≤ v) × (v ≤ m + 1)) vs

raise : (m : ℕ) (vs : List ℕ) → All (λ w. m + 1 ≤ w) vs → IsEven m vs → IsEven (m + 1) vs
raise m [] a h = tt
raise m (v ∷ vs) a h = ((a.0, omega (arith, h.0)), raise m vs a.1 h.1)

set-IsEven : (m j v : ℕ) (vs : List ℕ) → IsEven m vs → m ≤ v → v ≤ m + 1 → IsEven m (set vs j v)
set-IsEven m j v [] h a b = tt
set-IsEven m zero v (w ∷ vs) h a b = ((a, b), h.1)
set-IsEven m (suc j) v (w ∷ vs) h a b = (h.0, set-IsEven m j v vs h.1 a b)

pub get-IsEven :
    (m j v : ℕ) (vs : List ℕ) → get_elem? vs j ≡ some v → IsEven m vs → (m ≤ v) × (v ≤ m + 1)
get-IsEven m j v [] e h = ground (arith, e)
get-IsEven m zero v (w ∷ vs) e h = (ground (arith, e, h.0), ground (arith, e, h.0))
get-IsEven m (suc j) v (w ∷ vs) e h = get-IsEven m j v vs e h.1

-- One more request at a least counter.
pub step-IsEven :
    (m j v : ℕ) (vs : List ℕ)
    → IsLeast j v vs
    → IsEven m vs
    → (m' : ℕ) × ((m' ≤ m + 1) × IsEven m' (set vs j (v + 1)))
step-IsEven m j v vs l h =
    let (above, below) = get-IsEven m j v vs l.at h in
    elim (Bool-cases (ltb m v)) [
      | inl raised ↦ (
        m + 1,
        (
          omega arith,
          set-IsEven (m + 1) j (v + 1) vs
              (raise m vs (weaken (m + 1) v vs (ground (arith, raised)) l.least) h)
              (omega (arith, above)) (omega (arith, below)),
        ),
      )
      | inr kept ↦ (
        m,
        (omega arith, set-IsEven m j (v + 1) vs h (omega (arith, above)) (ground (arith, kept))),
      )
    ]

-- A list of the same length has an element at the position.
pub same_place :
    (rs vs : List ℕ) (j v : ℕ)
    → length rs ≡ length vs
    → get_elem? vs j ≡ some v
    → (r : ℕ) × (get_elem? rs j ≡ some r)
same_place [] [] j v e h = ground (arith, h)
same_place [] (w ∷ vs) j v e h = ground (arith, e)
same_place (r ∷ rs) [] j v e h = ground (arith, e)
same_place (r ∷ rs) (w ∷ vs) zero v e h = (r, refl)
same_place (r ∷ rs) (w ∷ vs) (suc j) v e h = same_place rs vs j v (omega (arith, e)) h

-- The scan of a list that is not empty and below the largest counter.
pub found :
    (m : ℕ) (vs : List ℕ)
    → IsEven m vs
    → m + 1 < u32_max
    → is_empty vs ≡ false
    → (j : ℕ) × ((v : ℕ) × ((least_index 0 u32_max 0 vs ≡ j) × IsLeast j v vs))
found m [] h b e = ground (arith, e)
found m (w ∷ vs) h b e = elim (least_index_cases 0 u32_max 0 (w ∷ vs)) [
  | inl (same, a) ↦ let no : ⊥ = omega (arith, a.0, h.0, b) in elim no [ ]
  | inr (j, (v, (same, (low, l)))) ↦ (j, (v, (omega (arith, same), l)))
]
