-- ===== src/Patterns/Replicas/Balance.antt =====
-- replica_pool.rs: the least-loaded policy shares the requests out evenly.
use mathlib.Core.Path.{subst}
use atomr_accel.Common.{
  ℕ, zero, suc, ◌+◌, ◌^◌, ◌≤◌, ◌<◌, ◌≡◌, ◌==◌, refl, sym, ap, ◌∙◌, false, All, IsDistinct,
  if◌then◌else◌, some, List, [], ◌∷◌, length, length-set, get_elem?, set, is_empty, arith,
}
use atomr_accel.Patterns.Replicas.{
  least_loaded, ReplicaPoolMsg, submit, Effect, forward, refuse, ModelReplicaPool, u32_max, zeros,
  ReplicaPoolConfig, new_pool, least_index, pick_replica, send_to, handle, and_then, run,
}
use atomr_accel.Patterns.Replicas.Least.{IsEven, get-IsEven, step-IsEven, same_place, found}
use atomr_accel.Patterns.Replicas.Tally.{tally, tally-set, tally-zeros, even_shares}

unfoldable pub total : List ℕ → ℕ
total [] = 0
total (v ∷ vs) = v + total vs

total-set :
    (vs : List ℕ) (j v : ℕ) → get_elem? vs j ≡ some v → total (set vs j (v + 1)) ≡ total vs + 1
unfolding total
total-set [] j v e = ground (arith, e)
total-set (w ∷ vs) zero v e = ground (arith, e)
total-set (w ∷ vs) (suc j) v e = omega (arith, total-set vs j v e)

-- After `k` requests.
record IsBalanced (k : ℕ) (p : ModelReplicaPool) : Type 0 where
  low : ℕ
  even : IsEven low p.counters
  low_small : low ≤ k
  counted : total p.counters ≡ k
  paired : length p.config.replicas ≡ length p.counters
  policy : p.config.policy ≡ least_loaded
  nonempty : is_empty p.config.replicas ≡ false

zeros-IsEven : (rs : List ℕ) → IsEven 0 (zeros rs)
unfolding zeros
zeros-IsEven [] = tt
zeros-IsEven (r ∷ rs) = ((omega arith, omega arith), zeros-IsEven rs)

total-zeros : (rs : List ℕ) → total (zeros rs) ≡ 0
unfolding zeros total
total-zeros [] = refl
total-zeros (r ∷ rs) = omega (arith, total-zeros rs)

pub length-zeros : (rs : List ℕ) → length rs ≡ length (zeros rs)
unfolding zeros
length-zeros [] = refl
length-zeros (r ∷ rs) = ap suc (length-zeros rs)

new_pool-IsBalanced :
    (rs : List ℕ)
    → is_empty rs ≡ false
    → IsBalanced 0 (new_pool (record { replicas = rs; policy = least_loaded }))
unfolding new_pool
new_pool-IsBalanced rs h = record {
  low = 0;
  even = zeros-IsEven rs;
  low_small = omega arith;
  counted = total-zeros rs;
  paired = length-zeros rs;
  policy = refl;
  nonempty = h;
}

nonempty_pair : (rs vs : List ℕ) → length rs ≡ length vs → is_empty rs ≡ false → is_empty vs ≡ false
nonempty_pair [] [] h e = e
nonempty_pair (r ∷ rs) [] h e = ground (arith, h)
nonempty_pair rs (v ∷ vs) h e = refl

module _ {Req : Type 0} where
  -- The requests that were sent on, with their reply channels.
  unfoldable pub forwarded : List (Effect Req) → List (Req × ℕ)
  forwarded [] = []
  forwarded (forward replica req reply ∷ es) = (req, reply) ∷ forwarded es
  forwarded (refuse reply reason ∷ es) = forwarded es

  -- How many requests were sent to the replica.
  unfoldable pub sent_to : ℕ → List (Effect Req) → ℕ
  sent_to x [] = 0
  sent_to x (forward replica req reply ∷ es) = (if replica == x then 1 else 0) + sent_to x es
  sent_to x (refuse reply reason ∷ es) = sent_to x es

  unfoldable pub submitted : List (ReplicaPoolMsg Req) → List (Req × ℕ)
  submitted [] = []
  submitted (submit req reply ∷ ms) = (req, reply) ∷ submitted ms

  send_to_at :
      (p : ModelReplicaPool) (j v r : ℕ) (req : Req) (reply : ℕ)
      → get_elem? p.counters j ≡ some v
      → get_elem? p.config.replicas j ≡ some r
      → v + 1 < 2 ^ 32
      → send_to p j req reply
        ≡ some (record p { counters = set p.counters j (v + 1) }, forward r req reply ∷ [])
  unfolding send_to
  send_to_at p j v r req reply a b h = ground (arith, a, b, h)

  handle_at :
      (p : ModelReplicaPool) (req : Req) (reply : ℕ)
      → is_empty p.config.replicas ≡ false
      → p.config.policy ≡ least_loaded
      → handle p (submit req reply) ≡ send_to p (least_index 0 u32_max 0 p.counters) req reply
  unfolding handle pick_replica
  handle_at p req reply a b = ground (arith, a, b)

  handle-IsBalanced :
      (k : ℕ) (p : ModelReplicaPool) (req : Req) (reply : ℕ)
      → k + 1 < u32_max
      → IsBalanced k p
      → (p' : ModelReplicaPool) × ((r : ℕ) × ((handle p (submit req reply)
              ≡ some (p', forward r req reply ∷ []))
            × ((p'.config ≡ p.config)
                × (((x : ℕ)
                      → tally x p.config.replicas p'.counters
                        ≡ tally x p.config.replicas p.counters + (if r == x then 1 else 0))
                    × IsBalanced (k + 1) p'))))
  handle-IsBalanced k p req reply h b =
      let (j, (v, (same, l))) =
        found b.low p.counters b.even (omega (arith, h, b.low_small))
          (nonempty_pair p.config.replicas p.counters b.paired b.nonempty) in
      let (r, here) = same_place p.config.replicas p.counters j v b.paired l.at in
      let (above, below) = get-IsEven b.low j v p.counters l.at b.even in
      let (low', (small, even')) = step-IsEven b.low j v p.counters l b.even in
      (
        record p { counters = set p.counters j (v + 1) },
        (
          r,
          (
            handle_at p req reply b.nonempty b.policy
                ∙ ap (λ i. send_to p i req reply) same
                ∙ send_to_at p j v r req reply l.at here (omega (arith, below, h, b.low_small)),
            (
              refl,
              (
                λ x. tally-set x j v r p.config.replicas p.counters here l.at,
                record {
                  low = low';
                  even = even';
                  low_small = omega (arith, small, b.low_small);
                  counted = total-set p.counters j v l.at ∙ ap (λ n. n + 1) b.counted;
                  paired = b.paired ∙ sym (length-set p.counters j (v + 1));
                  policy = b.policy;
                  nonempty = b.nonempty;
                },
              ),
            ),
          ),
        ),
      )

  run-IsBalanced :
      (k : ℕ) (p : ModelReplicaPool) (ms : List (ReplicaPoolMsg Req))
      → k + length ms + 1 < u32_max
      → IsBalanced k p
      → (p' : ModelReplicaPool) × ((out : List (Effect Req)) × ((run p ms ≡ some (p', out))
            × ((forwarded out ≡ submitted ms)
                × ((p'.config ≡ p.config)
                    × (((x : ℕ)
                          → tally x p.config.replicas p'.counters
                            ≡ tally x p.config.replicas p.counters + sent_to x out)
                        × IsBalanced (k + length ms) p')))))
  unfolding run and_then forwarded submitted sent_to
  run-IsBalanced k p [] h b = (
    p,
    ([], (refl, (refl, (refl, (λ x. omega arith, subst (λ n. IsBalanced n p) (omega arith) b))))),
  )
  run-IsBalanced k p (submit req reply ∷ ms) h b =
      let (p', (r, (done, (same, (one, b'))))) =
        handle-IsBalanced k p req reply (omega (arith, h)) b in
      let (p'', (out, (done', (all, (same', (more, b'')))))) =
        run-IsBalanced (k + 1) p' ms (omega (arith, h)) b' in
      (
        p'',
        (
          forward r req reply ∷ out,
          (
            ground (arith, done, done'),
            (
              ap (λ l. (req, reply) ∷ l) all,
              (
                same' ∙ same,
                (
                  λ x. omega (
                    arith,
                    one x,
                    subst
                        (λ (c : ReplicaPoolConfig).
                          tally x c.replicas p''.counters
                          ≡ tally x c.replicas p'.counters + sent_to x out)
                        same (more x),
                  ),
                  subst (λ n. IsBalanced n p'') (omega arith) b'',
                ),
              ),
            ),
          ),
        ),
      )

  -- The least-loaded policy over at least one replica, all of them different, for less than 2^32 - 2 requests:
  -- the pool never panics and sends every request on, once and in order; its counters add up to the number of
  -- the requests; and of any two replicas the one is sent at most one request more than the other, as
  -- of any two counters the one is at most one more.
  pub run-IsEven :
      (replicas : List ℕ) (ms : List (ReplicaPoolMsg Req))
      → is_empty replicas ≡ false
      → IsDistinct replicas
      → length ms + 1 < u32_max
      → (p : ModelReplicaPool) × ((out : List (Effect Req)) × ((run
                (new_pool (record { replicas = replicas; policy = least_loaded }))
                ms
              ≡ some (p, out))
            × ((forwarded out ≡ submitted ms)
                × ((total p.counters ≡ length ms)
                    × ((low : ℕ) × (IsEven low p.counters
                          × All
                              (λ x. (low ≤ sent_to x out) × (sent_to x out ≤ low + 1))
                              replicas))))))
  unfolding new_pool
  run-IsEven replicas ms e d h =
      let (p, (out, (done, (all, (same, (tallies, b)))))) =
        run-IsBalanced 0 (new_pool (record { replicas = replicas; policy = least_loaded })) ms
          (omega (arith, h)) (new_pool-IsBalanced replicas e) in
      let long : length replicas ≡ length p.counters =
        ap (λ (c : ReplicaPoolConfig). length c.replicas) (sym same) ∙ b.paired in
      let told : (x : ℕ) → tally x replicas p.counters ≡ sent_to x out =
        λ x. omega (arith, tallies x, tally-zeros x replicas) in
      (
        p,
        (
          out,
          (
            done,
            (
              all,
              (
                omega (arith, b.counted),
                (
                  b.low,
                  (
                    b.even,
                    even_shares b.low replicas p.counters (λ x. sent_to x out) d long b.even told,
                  ),
                ),
              ),
            ),
          ),
        ),
      )
