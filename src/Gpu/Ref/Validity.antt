-- ===== src/Gpu/Ref/Validity.antt =====
-- gpu_ref.rs over state.rs: how long a reference stays usable.
use atomr_accel.Common.{
  ℕ, suc, ◌+◌, ◌%◌, ◌<◌, ◌≡◌, Bool, true, false, not, ◌&&◌, some, List, [], ◌∷◌, arith, ◌==◌,
  if◌then◌else◌,
}
use atomr_accel.Gpu.Error.{gpu_ref_stale, ok, err}
use atomr_accel.Gpu.State.{
  Watch, DeviceState, Op, bump, shutdown, install, clear, apply, run, u64_mod, bump_generation,
  begin_shutdown,
}
use atomr_accel.Gpu.Ref.{
  Slice, new, access, raw_device_ptr, record_write, shutting_down, context_rebuilt,
}

-- How often a history rebuilds the context.
unfoldable pub bumps : List Op → ℕ
bumps [] = 0
bumps (bump ∷ os) = suc (bumps os)
bumps (shutdown ∷ os) = bumps os
bumps (install c ∷ os) = bumps os
bumps (clear ∷ os) = bumps os

-- Whether a history begins the shutdown.
unfoldable pub shuts_down : List Op → Bool
shuts_down [] = false
shuts_down (bump ∷ os) = shuts_down os
shuts_down (shutdown ∷ os) = true
shuts_down (install c ∷ os) = shuts_down os
shuts_down (clear ∷ os) = shuts_down os

module _ (w : Watch) where
  generation-run :
      (s : DeviceState w) (os : List Op)
      → s.generation < u64_mod
      → (run w s os).generation ≡ (s.generation + bumps os) % u64_mod
  unfolding run apply bumps
  generation-run s [] h = omega arith
  generation-run s (bump ∷ os) h =
      omega (arith, generation-run (bump_generation w s) os (omega arith))
  generation-run s (shutdown ∷ os) h = generation-run (begin_shutdown w s) os h
  generation-run s (install c ∷ os) h = generation-run (apply w s (install c)) os h
  generation-run s (clear ∷ os) h = generation-run (apply w s clear) os h

  accepting-run :
      (s : DeviceState w) (os : List Op)
      → (run w s os).accepting_ops ≡ (s.accepting_ops && not (shuts_down os))
  unfolding run apply shuts_down
  accepting-run s [] = ground arith
  accepting-run s (bump ∷ os) = accepting-run (bump_generation w s) os
  accepting-run s (shutdown ∷ os) = ground (arith, accepting-run (begin_shutdown w s) os)
  accepting-run s (install c ∷ os) = accepting-run (apply w s (install c)) os
  accepting-run s (clear ∷ os) = accepting-run (apply w s clear) os

  -- A reference minted while the device accepts work, read after any history of fewer than 2^64
  -- rebuilds: it gives its slice, and its
  -- raw pointer, if the history neither rebuilt the context nor began the shutdown,
  -- and otherwise says which of the two happened, the shutdown first. Recorded writes play no part.
  pub access-new-run :
      (s : DeviceState w) (os : List Op) (slice : Slice) (stream : ℕ)
      → s.accepting_ops ≡ true
      → s.generation < u64_mod
      → bumps os < u64_mod
      → let verdict = λ (A : Type 0) (a : A).
        if shuts_down os
        then err (gpu_ref_stale shutting_down)
        else if bumps os == 0
        then ok a
        else err (gpu_ref_stale context_rebuilt) in
        let r = record_write stream (new w slice s) in
        (access w (some (run w s os)) r ≡ verdict Slice slice)
        × (raw_device_ptr w (some (run w s os)) r ≡ verdict ℕ slice.ptr)
  unfolding access raw_device_ptr new record_write
  access-new-run s os slice stream a g b = ground (arith, generation-run s os g, accepting-run s os)
