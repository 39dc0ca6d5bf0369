-- ===== src/Gpu/Pinned/Drift.antt =====
-- host/pinned.rs: where the counters leave the slots that exist: an allocation that fails.
use mathlib.Core.Path.{subst}
use atomr_accel.Common.{ℕ, zero, suc, ◌+◌, ◌≤◌, ◌<◌, ◌≡◌, refl, [], Text, ap, arith}
use atomr_accel.Gpu.Error.{out_of_memory, err}
use atomr_accel.Gpu.Pinned.{
  Minted, refused, Config, Pool, new_pool, try_acquire, mint, hand_out, pool_full,
}

-- `n` requests in a row that the driver refuses.
unfoldable pub fail_times : Text → ℕ → ℕ → Pool → Pool
fail_times reason zero len p = p
fail_times reason (suc n) len p = fail_times reason n len ((try_acquire p len (refused reason)).0)

-- A pool without slots that has counted `k` of them.
IsLeaky : Config → ℕ → Pool → Type 0
IsLeaky config k p = (p.config ≡ config) × ((p.free ≡ []) × ((p.in_use ≡ 0) × (p.total_minted ≡ k)))

fail-IsLeaky :
    (reason : Text) (config : Config) (k len : ℕ) (p : Pool)
    → len ≤ config.buffer_capacity_bytes
    → k < config.max_buffers
    → IsLeaky config k p
    → IsLeaky config (suc k) ((try_acquire p len (refused reason)).0)
unfolding IsLeaky try_acquire mint hand_out
fail-IsLeaky reason config k len p h l (c, (f, (u, t))) =
    ground (arith, ap (λ x. x.buffer_capacity_bytes) c, ap (λ x. x.max_buffers) c)

fail_times-IsLeaky :
    (reason : Text) (config : Config) (n k len : ℕ) (p : Pool)
    → len ≤ config.buffer_capacity_bytes
    → k + n ≤ config.max_buffers
    → IsLeaky config k p
    → IsLeaky config (k + n) (fail_times reason n len p)
unfolding fail_times
fail_times-IsLeaky reason config zero k len p h l i =
    subst (λ m. IsLeaky config m p) (omega arith) i
fail_times-IsLeaky reason config (suc n) k len p h l i =
    subst (λ m. IsLeaky config m (fail_times reason n len ((try_acquire p len (refused reason)).0)))
      (omega arith)
      (fail_times-IsLeaky reason config n (suc k) len ((try_acquire p len (refused reason)).0) h
        (omega (arith, l)) (fail-IsLeaky reason config k len p h (omega (arith, l)) i))

full-refuses :
    (config : Config) (len : ℕ) (minted : Minted) (p : Pool)
    → len ≤ config.buffer_capacity_bytes
    → IsLeaky config config.max_buffers p
    → try_acquire p len minted ≡ (p, err (out_of_memory (pool_full config.max_buffers)))
unfolding IsLeaky try_acquire
full-refuses config len minted p h (c, (f, (u, t))) =
    ground (arith, ap (λ x. x.buffer_capacity_bytes) c, ap (λ x. x.max_buffers) c)

-- After `max_buffers` requests that the driver refused, for whatever reason, a new pool holds no slot and has none out, and yet
-- refuses every request that fits its capacity as if it were full, whatever the driver would now answer.
pub try_acquire-fail_times :
    (reason : Text) (config : Config) (len : ℕ) (minted : Minted)
    → len ≤ config.buffer_capacity_bytes
    → let p = fail_times reason config.max_buffers len (new_pool config) in
      (p.free ≡ [])
      × ((p.in_use ≡ 0)
          × (try_acquire p len minted ≡ (p, err (out_of_memory (pool_full config.max_buffers)))))
unfolding new_pool IsLeaky
try_acquire-fail_times reason config len minted h =
    let i =
      fail_times-IsLeaky reason config config.max_buffers 0 len (new_pool config) h (omega arith)
        (refl, (refl, (refl, refl))) in
    let (c, (f, (u, t))) =
      subst (λ m. IsLeaky config m (fail_times reason config.max_buffers len (new_pool config)))
        (omega arith) i in
    (
      f,
      (
        u,
        full-refuses config len minted (fail_times reason config.max_buffers len (new_pool config))
            h (c, (f, (u, t))),
      ),
    )
