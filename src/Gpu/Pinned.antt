-- ===== src/Gpu/Pinned.antt =====
-- crates/atomr-accel-cuda/src/host/pinned.rs: the pool of page-locked host buffers. The driver's
-- allocator is the argument `minted` of a request: the address that it gives, or the reason of its refusal. Byte counts
-- are taken to stay within `usize`.
pub mod Accounts
pub mod Balance
pub mod Drift
use atomr_accel.Common.{
  ℕ, ◌+◌, ◌-◌, ◌*◌, ◌%◌, ◌^◌, ◌≡◌, Bool, true, false, not, ltb, leb, ◌==◌, Option, none, some, List,
  [], ◌∷◌, ◌++◌, length, if◌then◌else◌, Text, text, decimal,
}
use atomr_accel.Gpu.Error.{out_of_memory, unrecoverable, Result, ok, err}
use atomr_accel.Gpu.State.{u64_mod}

pub record Config : Type 0 where
  pub initial_buffers : ℕ
  pub max_buffers : ℕ
  pub buffer_capacity_bytes : ℕ
  pub allow_oversize : Bool

unfoldable pub default_config : Config
default_config = record {
  initial_buffers = 4;
  max_buffers = 32;
  buffer_capacity_bytes = 4 * 1024 * 1024;
  allow_oversize = true;
}

pub record Slot : Type 0 where
  pub ptr : ℕ
  pub capacity_bytes : ℕ
  pub oversize : Bool

pub record Stats : Type 0 where
  pub in_use : ℕ
  pub free : ℕ
  pub total : ℕ
  pub bytes_allocated : ℕ

-- The answer of `malloc_host`.
pub data Minted : Type 0 where
  minted_at : (ptr : ℕ) → Minted
  refused : (reason : Text) → Minted

pub record Handle : Type 0 where
  pub slot : Option Slot
  pub generation : ℕ

pub record Pool : Type 0 where
  pub config : Config
  pub free : List Slot
  pub in_use : ℕ
  pub total_minted : ℕ
  pub bytes_allocated : ℕ
  pub generation : ℕ

unfoldable pub new_pool : Config → Pool
new_pool config = record {
  config = config;
  free = [];
  in_use = 0;
  total_minted = 0;
  bytes_allocated = 0;
  generation = 0;
}

unfoldable pub stats : Pool → Stats
stats p = record {
  in_use = p.in_use;
  free = length p.free;
  total = p.total_minted;
  bytes_allocated = p.bytes_allocated;
}

unfoldable pub alloc_failed : ℕ → Text
alloc_failed n = text "pinned alloc " ++ (decimal n ++ text "B: ")

unfoldable pub too_large : ℕ → ℕ → Text
too_large n cap =
    text "pinned pool: oversize request "
    ++ (decimal n ++ (text "B exceeds slot capacity " ++ (decimal cap ++ text "B")))

unfoldable pub pool_full : ℕ → Text
pool_full most = text "pinned pool: max_buffers=" ++ (decimal most ++ text " reached")

-- The end of `try_acquire`, once there is a slot.
hand_out : Pool → Slot → Pool × Result Handle
hand_out p slot = (
  record p { in_use = p.in_use + 1 },
  ok (record { slot = some slot; generation = p.generation }),
)

-- The counters are raised before `PinnedSlot::new` is called, and `?` leaves them so if it fails.
mint : Pool → ℕ → Bool → Minted → Pool × Result Handle
unfolding hand_out
mint p size oversize minted =
    let p' = record p {
      bytes_allocated = p.bytes_allocated + size;
      total_minted = p.total_minted + 1;
    } in
    elim minted [
      | minted_at ptr ↦
          hand_out p' (record { ptr = ptr; capacity_bytes = size; oversize = oversize })
      | refused reason ↦ (p', err (out_of_memory (alloc_failed size ++ reason)))
    ]

unfoldable pub try_acquire : Pool → ℕ → Minted → Pool × Result Handle
unfolding mint hand_out
try_acquire p len_bytes minted =
    let cap = p.config.buffer_capacity_bytes in
    if ltb cap len_bytes
    then if not p.config.allow_oversize
      then (p, err (out_of_memory (too_large len_bytes cap)))
      else mint p len_bytes true minted
    else elim p.free [
      | slot ∷ rest ↦ hand_out (record p { free = rest }) slot
      | [] ↦
          if leb p.config.max_buffers p.total_minted
          then (p, err (out_of_memory (pool_full p.config.max_buffers)))
          else mint p cap false minted
    ]

forget : Pool → Slot → Pool
forget p slot = record p {
  bytes_allocated = p.bytes_allocated - slot.capacity_bytes;
  total_minted = p.total_minted - 1;
}

unfoldable pub return_slot : Pool → Slot → ℕ → Pool
unfolding forget
return_slot p slot generation =
    if not (generation == p.generation)
    then forget p slot
    else let p' = record p { in_use = p.in_use - 1 } in
      if slot.oversize then forget p' slot else record p' { free = p'.free ++ slot ∷ [] }

-- What the hook does to the instance that is given up; the next instance is a `new_pool`.
unfoldable pre_restart : Pool → Pool
pre_restart p = record p {
  free = [];
  generation = (p.generation + 1) % u64_mod;
  in_use = 0;
  total_minted = 0;
  bytes_allocated = 0;
}

unfoldable pub capacity_bytes : Handle → ℕ
capacity_bytes h = elim h.slot [ none ↦ 0 | some slot ↦ slot.capacity_bytes ]

pub record Buf : Type 0 where
  pub slot : Slot
  pub len : ℕ
  pub generation : ℕ

unfoldable pub len_overflowed : Text
len_overflowed = text "pinned buf: len * size_of overflowed"

unfoldable pub exceeds : ℕ → ℕ → ℕ → Text
exceeds n needed cap =
    text "pinned buf: requested "
    ++ (decimal n
        ++ (text " elements ("
            ++ (decimal needed ++ (text " B) exceeds capacity " ++ (decimal cap ++ text " B")))))

-- `None` where `take().expect` panics: the handle was already turned into a buffer.
unfoldable pub into_typed : Handle → (len size_of : ℕ) → Option (Result Buf)
unfolding capacity_bytes
into_typed h len size_of =
    if leb u64_mod (len * size_of)
    then some (err (unrecoverable len_overflowed))
    else if ltb (capacity_bytes h) (len * size_of)
    then some (err (unrecoverable (exceeds len (len * size_of) (capacity_bytes h))))
    else elim h.slot [
      | none ↦ none
      | some slot ↦ some (ok (record { slot = slot; len = len; generation = h.generation }))
    ]
