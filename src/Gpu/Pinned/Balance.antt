-- ===== src/Gpu/Pinned/Balance.antt =====
-- host/pinned.rs: what the counters of the pool tell of the slots, and when a request is served.
use mathlib.Core.Path.{subst}
use atomr_accel.Common.{
  ℕ, zero, suc, ◌+◌, ◌≤◌, ◌≡◌, refl, sym, ap, true, false, ◌⊎◌, inl, inr, none, some, List, [], ◌∷◌,
  ◌++◌, length, get_elem?, is_empty, All, All-append, if◌then◌else◌, arith, ◌↔◌, Bool-cases,
  length-append, Option-cases, ◌<◌,
}
use atomr_accel.Gpu.Pinned.{
  minted_at, Config, Slot, Pool, new_pool, try_acquire, mint, hand_out, forget, return_slot,
}
use atomr_accel.Gpu.Pinned.Accounts.{
  System, Op, acquire, give_back, remove_at, taken, returned, step, run, new_system, sum_free,
  sum_out, regular, IsRegular, IsCurrent, IsBalanced,
}

regular_le : (xs : List (Slot × ℕ)) → regular xs ≤ length xs
unfolding regular
regular_le [] = omega arith
regular_le (x ∷ xs) = ground (arith, regular_le xs)

sum_free-append :
    (xs : List Slot) (s : Slot) → sum_free (xs ++ s ∷ []) ≡ sum_free xs + s.capacity_bytes
unfolding sum_free
sum_free-append [] s = omega arith
sum_free-append (x ∷ xs) s = ground (arith, sum_free-append xs s)

-- What is left after slot `i` has been taken from the list.
abbrev Split : List (Slot × ℕ) → ℕ → Slot × ℕ → Type 0
Split xs i x =
    (length xs ≡ suc (length (remove_at xs i)))
    × (sum_out xs ≡ (x.0).capacity_bytes + sum_out (remove_at xs i))
    × (regular xs
        ≡ (if (x.0).oversize then regular (remove_at xs i) else suc (regular (remove_at xs i))))

remove_at-Split :
    (xs : List (Slot × ℕ)) (i : ℕ) (x : Slot × ℕ) → get_elem? xs i ≡ some x → Split xs i x
unfolding remove_at sum_out regular
remove_at-Split [] i x h = ground arith
remove_at-Split (y ∷ ys) zero x h = ground arith
remove_at-Split (y ∷ ys) (suc i) x h = ground (arith, remove_at-Split ys i x h)

remove_at-All :
    (P : Slot × ℕ → Type 0) (xs : List (Slot × ℕ)) (i : ℕ) → All P xs → All P (remove_at xs i)
unfolding remove_at
remove_at-All P [] i h = tt
remove_at-All P (x ∷ xs) zero h = h.1
remove_at-All P (x ∷ xs) (suc i) h = (h.0, remove_at-All P xs i h.1)

some_injective : {A : Type 0} {x y : A} → some x ≡ some y → x ≡ y
some_injective h = cc

get_elem?-All :
    (P : Slot × ℕ → Type 0) (xs : List (Slot × ℕ)) (i : ℕ) (x : Slot × ℕ)
    → All P xs
    → get_elem? xs i ≡ some x
    → P x
get_elem?-All P [] i x a h = ground arith
get_elem?-All P (y ∷ ys) zero x a h = subst P (some_injective h) a.0
get_elem?-All P (y ∷ ys) (suc i) x a h = get_elem?-All P ys i x a.1 h

remove_at-absent : (xs : List (Slot × ℕ)) (i : ℕ) → get_elem? xs i ≡ none → remove_at xs i ≡ xs
unfolding remove_at
remove_at-absent [] i h = refl
remove_at-absent (x ∷ xs) zero h = ground arith
remove_at-absent (x ∷ xs) (suc i) h = ap (λ ys. x ∷ ys) (remove_at-absent xs i h)

is_oversize-IsRegular :
    (cap : ℕ) (s : Slot)
    → (s.oversize ≡ true) ⊎ IsRegular cap s
    → s.oversize ≡ false
    → IsRegular cap s
is_oversize-IsRegular cap s h f = ground arith

return_slot-IsBalanced :
    (s : System) (i : ℕ) (slot : Slot) (g : ℕ)
    → get_elem? s.out i ≡ some (slot, g)
    → IsBalanced s
    → IsBalanced (record { pool = return_slot s.pool slot g; out = remove_at s.out i })
unfolding return_slot forget IsCurrent
return_slot-IsBalanced s i slot g h b =
    let P = IsCurrent s.pool.config.buffer_capacity_bytes s.pool.generation in
    let (l, c, r) = remove_at-Split s.out i (slot, g) h in
    let rest = remove_at-All P s.out i b.out_ok in
    let here = get_elem?-All P s.out i (slot, g) b.out_ok h in
    let len = length-append s.pool.free (slot ∷ []) in
    let sum = sum_free-append s.pool.free slot in
    elim (Bool-cases slot.oversize) [
      | inl o ↦ record {
        minted = ground (arith, l, here.0);
        used = ground (arith, l, here.0);
        bytes = ground (arith, c, here.0);
        free_ok = ground (arith, b.free_ok);
        out_ok = ground (arith, rest);
        limit = ground (arith, r, b.limit);
      }
      | inr o ↦
          let all =
            All-append (IsRegular s.pool.config.buffer_capacity_bytes) s.pool.free (slot ∷ [])
              b.free_ok
              (is_oversize-IsRegular s.pool.config.buffer_capacity_bytes slot here.1 o, tt) in
          record {
            minted = ground (arith, l, here.0, len);
            used = ground (arith, l, here.0);
            bytes = ground (arith, c, here.0, sum);
            free_ok = ground (arith, all);
            out_ok = ground (arith, rest);
            limit = ground (arith, r, b.limit, len);
          }
    ]

acquire-IsBalanced :
    (s : System) (len ptr : ℕ) → IsBalanced s → IsBalanced (step s (acquire len ptr))
unfolding step try_acquire mint hand_out taken sum_out sum_free regular IsCurrent IsRegular
acquire-IsBalanced s len ptr b =
    let bound = regular_le s.out in
    record {
      minted = ground (arith, b.minted);
      used = ground (arith, b.used);
      bytes = ground (arith, b.bytes);
      free_ok = ground (arith, b.free_ok);
      out_ok = ground (arith, b.free_ok, b.out_ok);
      limit = ground (arith, b.limit, b.minted, bound, b.free_ok);
    }

step-IsBalanced : (s : System) (o : Op) → IsBalanced s → IsBalanced (step s o)
unfolding step returned
step-IsBalanced s (acquire len ptr) b = acquire-IsBalanced s len ptr b
step-IsBalanced s (give_back i) b = elim (Option-cases (get_elem? s.out i)) [
  | inl h ↦
      subst (λ o. IsBalanced (record { pool = returned s.pool o; out = remove_at s.out i })) (sym h)
        (subst (λ l. IsBalanced (record { pool = s.pool; out = l }))
          (sym (remove_at-absent s.out i h)) b)
  | inr (x, h) ↦
      subst (λ o. IsBalanced (record { pool = returned s.pool o; out = remove_at s.out i })) (sym h)
        (return_slot-IsBalanced s i (x.0) (x.1) h b)
]

run_from-IsBalanced : (s : System) (os : List Op) → IsBalanced s → IsBalanced (run s os)
unfolding run
run_from-IsBalanced s [] b = b
run_from-IsBalanced s (o ∷ os) b = run_from-IsBalanced (step s o) os (step-IsBalanced s o b)

-- While the allocator succeeds and nothing restarts the pool, whatever is asked for and given back, from a
-- new pool: the counters tell exactly the slots that exist and their bytes, free slots are regular ones,
-- slots that are out carry the pool's generation, and regular slots never exceed `max_buffers`.
pub run-IsBalanced : (config : Config) (os : List Op) → IsBalanced (run (new_system config) os)
unfolding new_system new_pool sum_free sum_out regular
run-IsBalanced config os = run_from-IsBalanced (new_system config) os (record {
  minted = refl;
  used = refl;
  bytes = refl;
  free_ok = tt;
  out_ok = tt;
  limit = ground arith;
})

-- When a request is served.
unfoldable pub Serves : Pool → ℕ → Type 0
Serves p len =
    ((p.config.buffer_capacity_bytes < len) × (p.config.allow_oversize ≡ true))
    ⊎ ((len ≤ p.config.buffer_capacity_bytes)
        × ((is_empty p.free ≡ false) ⊎ (p.total_minted < p.config.max_buffers)))

-- The answer lends one slot that is large enough.
unfoldable pub Lends : ℕ → List (Slot × ℕ) → Type 0
Lends len [] = ⊥
Lends len (x ∷ xs) = (len ≤ (x.0).capacity_bytes) × (xs ≡ [])

first_fits :
    (cap len : ℕ) (slot : Slot) (rest : List Slot)
    → All (IsRegular cap) (slot ∷ rest)
    → len ≤ cap
    → len ≤ slot.capacity_bytes
unfolding IsRegular
first_fits cap len slot rest h l = ground arith

try_acquire_iff :
    (p : Pool) (len ptr : ℕ)
    → All (IsRegular p.config.buffer_capacity_bytes) p.free
    → Lends len (taken ((try_acquire p len (minted_at ptr)).1)) ↔ Serves p len
unfolding try_acquire mint hand_out taken Lends Serves IsRegular
try_acquire_iff p len ptr h = ground (arith, h)

-- In every state that a pool can reach, with an allocator that succeeds, a request is served
-- with one slot of at least the length asked for exactly when it is oversize and oversize is allowed, or it
-- fits and a slot is free or may still be minted.
pub try_acquire-run :
    (config : Config) (os : List Op) (len ptr : ℕ)
    → let p = (run (new_system config) os).pool in
      Lends len (taken ((try_acquire p len (minted_at ptr)).1)) ↔ Serves p len
unfolding try_acquire mint hand_out taken Lends Serves
try_acquire-run config os len ptr =
    try_acquire_iff (run (new_system config) os).pool len ptr (run-IsBalanced config os).free_ok
