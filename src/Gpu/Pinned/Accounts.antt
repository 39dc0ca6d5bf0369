-- ===== src/Gpu/Pinned/Accounts.antt =====
-- host/pinned.rs together with its clients: the slots that are out are kept beside the pool, each with the
-- generation that its handle carries. Dropping a handle or a buffer sends its slot back.
use atomr_accel.Common.{
  ℕ, zero, suc, ◌+◌, ◌≤◌, ◌≡◌, true, false, ◌⊎◌, Option, none, some, List, [], ◌∷◌, ◌++◌, length,
  get_elem?, All, if◌then◌else◌,
}
use atomr_accel.Gpu.Error.{Result, ok, err}
use atomr_accel.Gpu.Pinned.{
  minted_at, Config, Slot, Handle, Pool, new_pool, try_acquire, return_slot,
}

pub record System : Type 0 where
  pub pool : Pool
  pub out : List (Slot × ℕ)

pub data Op : Type 0 where
  acquire : (len ptr : ℕ) → Op
  give_back : (i : ℕ) → Op

unfoldable pub remove_at : List (Slot × ℕ) → ℕ → List (Slot × ℕ)
remove_at [] i = []
remove_at (x ∷ xs) zero = xs
remove_at (x ∷ xs) (suc i) = x ∷ remove_at xs i

unfoldable pub taken : Result Handle → List (Slot × ℕ)
taken (ok h) = elim h.slot [ none ↦ [] | some slot ↦ (slot, h.generation) ∷ [] ]
taken (err e) = []

-- `Drop` of a handle or of a buffer: `InternalReturn` with its slot and its generation.
unfoldable pub returned : Pool → Option (Slot × ℕ) → Pool
returned p none = p
returned p (some (slot, generation)) = return_slot p slot generation

unfoldable pub step : System → Op → System
unfolding taken remove_at returned
step s (acquire len ptr) =
    let (p, r) = try_acquire s.pool len (minted_at ptr) in
    record { pool = p; out = taken r ++ s.out }
step s (give_back i) = record {
  pool = returned s.pool (get_elem? s.out i);
  out = remove_at s.out i;
}

unfoldable pub run : System → List Op → System
unfolding step
run s [] = s
run s (o ∷ os) = run (step s o) os

unfoldable pub new_system : Config → System
new_system config = record { pool = new_pool config; out = [] }

unfoldable pub sum_free : List Slot → ℕ
sum_free [] = 0
sum_free (s ∷ ss) = s.capacity_bytes + sum_free ss

unfoldable pub sum_out : List (Slot × ℕ) → ℕ
sum_out [] = 0
sum_out (x ∷ xs) = (x.0).capacity_bytes + sum_out xs

unfoldable pub regular : List (Slot × ℕ) → ℕ
regular [] = 0
regular (x ∷ xs) = if (x.0).oversize then regular xs else suc (regular xs)

unfoldable pub IsRegular : ℕ → Slot → Type 0
IsRegular cap s = (s.oversize ≡ false) × (s.capacity_bytes ≡ cap)

unfoldable pub IsCurrent : ℕ → ℕ → Slot × ℕ → Type 0
unfolding IsRegular
IsCurrent cap g (s, h) = (h ≡ g) × ((s.oversize ≡ true) ⊎ IsRegular cap s)

-- The counters tell the slots that exist, and the regular ones are within the limit.
pub record IsBalanced (s : System) : Type 0 where
  pub minted : s.pool.total_minted ≡ length s.pool.free + length s.out
  pub used : s.pool.in_use ≡ length s.out
  pub bytes : s.pool.bytes_allocated ≡ sum_free s.pool.free + sum_out s.out
  pub free_ok : All (IsRegular s.pool.config.buffer_capacity_bytes) s.pool.free
  pub out_ok : All (IsCurrent s.pool.config.buffer_capacity_bytes s.pool.generation) s.out
  pub limit : length s.pool.free + regular s.out ≤ s.pool.config.max_buffers
