-- ===== src/Patterns/Replicas/Rotation.antt =====
-- replica_pool.rs: the round-robin policy takes the replicas in turn.
use atomr_accel.Common.{
  ℕ, zero, suc, ◌+◌, ◌%◌, ◌^◌, ◌<◌, ◌≡◌, refl, sym, ap, ◌∙◌, false, some, List, [], ◌∷◌, length,
  length-set, get_elem?, set, is_empty, arith,
}
use atomr_accel.Patterns.Replicas.{
  round_robin, ReplicaPoolMsg, submit, Effect, forward, refuse, ModelReplicaPool, new_pool,
  pick_replica, send_to, handle, and_then, run,
}
use atomr_accel.Patterns.Replicas.Balance.{forwarded, submitted, length-zeros}

-- An element at every position within the list.
within : (vs : List ℕ) (i : ℕ) → i < length vs → (v : ℕ) × (get_elem? vs i ≡ some v)
within [] i h = let no : ⊥ = omega (arith, h) in elim no [ ]
within (v ∷ vs) zero h = (v, refl)
within (v ∷ vs) (suc i) h = within vs i (omega (arith, h))

modulo_below : (rs : List ℕ) (c : ℕ) → is_empty rs ≡ false → c % length rs < length rs
modulo_below [] c h = ground (arith, h)
modulo_below (r ∷ rs) c h = omega arith

-- After `c` requests.
record IsTurning (rs : List ℕ) (c : ℕ) (p : ModelReplicaPool) : Type 0 where
  same : p.config.replicas ≡ rs
  paired : length p.config.replicas ≡ length p.counters
  policy : p.config.policy ≡ round_robin
  turn : p.cursor ≡ c

module _ {Req : Type 0} where
  -- The effects send to the replicas from the turn `c` on, each to the next of the list, and after the last to the first.
  unfoldable pub Rotates : List ℕ → ℕ → List (Effect Req) → Type 0
  Rotates rs c [] = Unit
  Rotates rs c (forward replica req reply ∷ es) =
      (get_elem? rs (c % length rs) ≡ some replica) × Rotates rs (c + 1) es
  Rotates rs c (refuse reply reason ∷ es) = ⊥

  send_to_any :
      (p : ModelReplicaPool) (j v r : ℕ) (req : Req) (reply : ℕ)
      → get_elem? p.counters j ≡ some v
      → get_elem? p.config.replicas j ≡ some r
      → send_to p j req reply
        ≡ some
            (record p { counters = set p.counters j ((v + 1) % 2 ^ 32) }, forward r req reply ∷ [])
  unfolding send_to
  send_to_any p j v r req reply a b = ground (arith, a, b)

  handle_turn :
      (p : ModelReplicaPool) (req : Req) (reply : ℕ)
      → is_empty p.config.replicas ≡ false
      → p.config.policy ≡ round_robin
      → handle p (submit req reply)
        ≡ send_to
            (record p { cursor = (p.cursor + 1) % 2 ^ 64 })
            (p.cursor % length p.config.replicas)
            req
            reply
  unfolding handle pick_replica
  handle_turn p req reply a b = ground (arith, a, b)

  handle-IsTurning :
      (rs : List ℕ) (c : ℕ) (p : ModelReplicaPool) (req : Req) (reply : ℕ)
      → is_empty rs ≡ false
      → c + 1 < 2 ^ 64
      → IsTurning rs c p
      → (p' : ModelReplicaPool) × ((r : ℕ) × ((handle p (submit req reply)
              ≡ some (p', forward r req reply ∷ []))
            × ((get_elem? rs (c % length rs) ≡ some r) × IsTurning rs (c + 1) p')))
  handle-IsTurning rs c p req reply e h t =
      let j = p.cursor % length p.config.replicas in
      let q = record p { cursor = (p.cursor + 1) % 2 ^ 64 } in
      let (r, here) = within rs (c % length rs) (modulo_below rs c e) in
      let filled = ap is_empty t.same ∙ e in
      let (v, counter) =
        within p.counters j
          (omega (arith, modulo_below p.config.replicas p.cursor filled, t.paired)) in
      (
        record q { counters = set p.counters j ((v + 1) % 2 ^ 32) },
        (
          r,
          (
            handle_turn p req reply filled t.policy
                ∙ send_to_any q j v r req reply counter (
                    ap (λ l. get_elem? l (p.cursor % length l)) t.same
                    ∙ ap (λ n. get_elem? rs (n % length rs)) t.turn
                    ∙ here),
            (
              here,
              record {
                same = t.same;
                paired = t.paired ∙ sym (length-set p.counters j ((v + 1) % 2 ^ 32));
                policy = t.policy;
                turn = omega (arith, t.turn, h);
              },
            ),
          ),
        ),
      )

  run-IsTurning :
      (rs : List ℕ) (c : ℕ) (p : ModelReplicaPool) (ms : List (ReplicaPoolMsg Req))
      → is_empty rs ≡ false
      → c + length ms < 2 ^ 64
      → IsTurning rs c p
      → (p' : ModelReplicaPool) × ((out : List (Effect Req)) × ((run p ms ≡ some (p', out))
            × ((forwarded out ≡ submitted ms) × Rotates rs c out)))
  unfolding run and_then forwarded submitted Rotates
  run-IsTurning rs c p [] e h t = (p, ([], (refl, (refl, tt))))
  run-IsTurning rs c p (submit req reply ∷ ms) e h t =
      let (p', (r, (done, (here, t')))) =
        handle-IsTurning rs c p req reply e (omega (arith, h)) t in
      let (p'', (out, (done', (all, turns)))) =
        run-IsTurning rs (c + 1) p' ms e (omega (arith, h)) t' in
      (
        p'',
        (
          forward r req reply ∷ out,
          (ground (arith, done, done'), (ap (λ l. (req, reply) ∷ l) all, (here, turns))),
        ),
      )

  -- The round-robin policy over at least one replica, for less than 2^64 requests: the pool never panics and
  -- sends every request on, once and in order, the first to the first replica, each other to the replica
  -- after the one before, and to the first after the last.
  pub run-Rotates :
      (replicas : List ℕ) (ms : List (ReplicaPoolMsg Req))
      → is_empty replicas ≡ false
      → length ms < 2 ^ 64
      → (p : ModelReplicaPool) × ((out : List (Effect Req)) × ((run
                (new_pool (record { replicas = replicas; policy = round_robin }))
                ms
              ≡ some (p, out))
            × ((forwarded out ≡ submitted ms) × Rotates replicas 0 out)))
  unfolding new_pool
  run-Rotates replicas ms e h =
      run-IsTurning replicas 0 (new_pool (record { replicas = replicas; policy = round_robin })) ms
        e (omega (arith, h))
        (record { same = refl; paired = length-zeros replicas; policy = refl; turn = refl })
