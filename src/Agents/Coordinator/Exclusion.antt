-- ===== src/Agents/Coordinator/Exclusion.antt =====
-- shared_state.rs: who is given the token, when, and in which order.
use mathlib.Core.Path.{sym, ap}
use atomr_accel.Common.{
  append-nil, joined, ℕ, zero, suc, ◌+◌, ◌≡◌, refl, ◌∙◌, true, false, ◌==◌, Option, none, some,
  List, [], ◌∷◌, ◌++◌, arith, false, ◌⊎◌, ◌||◌, is_empty, is_some, inl, inr,
}
use atomr_accel.Agents.Coordinator.{
  Sent, token_sent, state_sent, attached, stats_sent, SharedStateMsg, acquire_write, release_write,
  snapshot, attach_state, stats, SharedGpuStateCoordinator, new_coordinator, issue_token, release,
  handle, run,
}

unfoldable pub seconds : List (ℕ × ℕ) → List ℕ
seconds [] = []
seconds (x ∷ xs) = x.1 ∷ seconds xs

seconds-append : (xs ys : List (ℕ × ℕ)) → seconds (xs ++ ys) ≡ seconds xs ++ seconds ys
unfolding seconds
seconds-append [] ys = refl
seconds-append (x ∷ xs) ys = ap (λ l. x.1 ∷ l) (seconds-append xs ys)

-- `n + 1`, `n + 2`, …, `k` of them.
unfoldable pub upto : ℕ → ℕ → List ℕ
upto n zero = []
upto n (suc k) = suc n ∷ upto (suc n) k

module _ {S : Type 0} where
  -- The reply channels that were given a token, in order.
  unfoldable pub granted : List (Sent S) → List ℕ
  granted [] = []
  granted (token_sent reply agent token ∷ es) = reply ∷ granted es
  granted (state_sent reply state ∷ es) = granted es
  granted (attached reply ∷ es) = granted es
  granted (stats_sent reply s ∷ es) = granted es

  -- The tokens that were given, in order.
  unfoldable pub tokens : List (Sent S) → List ℕ
  tokens [] = []
  tokens (token_sent reply agent token ∷ es) = token ∷ tokens es
  tokens (state_sent reply state ∷ es) = tokens es
  tokens (attached reply ∷ es) = tokens es
  tokens (stats_sent reply s ∷ es) = tokens es

  unfoldable pub asked : List (SharedStateMsg S) → List ℕ
  asked [] = []
  asked (acquire_write agent_id reply ∷ ms) = reply ∷ asked ms
  asked (release_write token ∷ ms) = asked ms
  asked (snapshot reply ∷ ms) = asked ms
  asked (attach_state state reply ∷ ms) = asked ms
  asked (stats reply ∷ ms) = asked ms

  granted-append : (xs ys : List (Sent S)) → granted (xs ++ ys) ≡ granted xs ++ granted ys
  unfolding granted
  granted-append [] ys = refl
  granted-append (token_sent reply agent token ∷ xs) ys = ap (λ l. reply ∷ l) (granted-append xs ys)
  granted-append (state_sent reply state ∷ xs) ys = granted-append xs ys
  granted-append (attached reply ∷ xs) ys = granted-append xs ys
  granted-append (stats_sent reply s ∷ xs) ys = granted-append xs ys

  tokens-append : (xs ys : List (Sent S)) → tokens (xs ++ ys) ≡ tokens xs ++ tokens ys
  unfolding tokens
  tokens-append [] ys = refl
  tokens-append (token_sent reply agent token ∷ xs) ys = ap (λ l. token ∷ l) (tokens-append xs ys)
  tokens-append (state_sent reply state ∷ xs) ys = tokens-append xs ys
  tokens-append (attached reply ∷ xs) ys = tokens-append xs ys
  tokens-append (stats_sent reply s ∷ xs) ys = tokens-append xs ys

  asked-cons :
      (m : SharedStateMsg S) (ms : List (SharedStateMsg S))
      → asked (m ∷ ms) ≡ asked (m ∷ []) ++ asked ms
  unfolding asked
  asked-cons (acquire_write agent_id reply) ms = refl
  asked-cons (release_write token) ms = refl
  asked-cons (snapshot reply) ms = refl
  asked-cons (attach_state state reply) ms = refl
  asked-cons (stats reply) ms = refl

  -- Nobody waits for a token that is free.
  Busy : SharedGpuStateCoordinator S → Type 0
  Busy c = c.held ≡ none → c.waiters ≡ []

  Served :
      SharedGpuStateCoordinator S
      → List (SharedStateMsg S)
      → SharedGpuStateCoordinator S × List (Sent S)
      → Type 0
  Served c ms (c', out) =
      (granted out ++ seconds c'.waiters ≡ seconds c.waiters ++ asked ms) × Busy c'

  handle-Served :
      (c : SharedGpuStateCoordinator S) (m : SharedStateMsg S)
      → Busy c
      → Served c (m ∷ []) (handle c m)
  unfolding handle issue_token release Served Busy granted asked seconds
  handle-Served c (acquire_write agent_id reply) b =
      ground (arith, b, seconds-append c.waiters ((agent_id, reply) ∷ []))
  handle-Served c (release_write token) b = ground (arith, b, append-nil (seconds c.waiters))
  handle-Served c (snapshot reply) b = ground (arith, b, append-nil (seconds c.waiters))
  handle-Served c (attach_state state reply) b = ground (arith, b, append-nil (seconds c.waiters))
  handle-Served c (stats reply) b = ground (arith, b, append-nil (seconds c.waiters))

  run-Served :
      (c : SharedGpuStateCoordinator S) (ms : List (SharedStateMsg S))
      → Busy c
      → Served c ms (run c ms)
  unfolding run Served granted asked
  run-Served c [] b = (sym (append-nil (seconds c.waiters)), b)
  run-Served c (m ∷ ms) b =
      let (first, b') = handle-Served c m b in
      let (rest, b'') = run-Served ((handle c m).0) ms b' in
      (
        joined (granted ((handle c m).1)) (seconds ((handle c m).0).waiters)
              (granted ((run ((handle c m).0) ms).1))
              (seconds ((run ((handle c m).0) ms).0).waiters) (seconds c.waiters) (asked (m ∷ []))
              (asked ms) (granted-append ((handle c m).1) ((run ((handle c m).0) ms).1)) first rest
            ∙ ap (λ l. seconds c.waiters ++ l) (sym (asked-cons m ms)),
        b'',
      )

  Busy-test :
      (c : SharedGpuStateCoordinator S) → Busy c → (is_empty c.waiters || is_some c.held) ≡ true
  unfolding Busy
  Busy-test c b = ground (arith, b)

  -- From the start, after any messages: the write requests that were given a token and then the ones that
  -- still wait are, in order, exactly the write requests that were made, and either nobody waits or the
  -- token is held.
  pub run-granted :
      (ms : List (SharedStateMsg S))
      → let (c, out) = run new_coordinator ms in
        (granted out ++ seconds c.waiters ≡ asked ms)
        × ((is_empty c.waiters || is_some c.held) ≡ true)
  unfolding Served Busy new_coordinator seconds
  run-granted ms =
      let (served, busy) = run-Served new_coordinator ms (λ h. refl) in
      (served, Busy-test ((run new_coordinator ms).0) busy)

  -- No message gives back the token `t`.
  unfoldable pub Keeps : ℕ → List (SharedStateMsg S) → Type 0
  Keeps t [] = Unit
  Keeps t (release_write token ∷ ms) = ((t == token) ≡ false) × Keeps t ms
  Keeps t (acquire_write agent_id reply ∷ ms) = Keeps t ms
  Keeps t (snapshot reply ∷ ms) = Keeps t ms
  Keeps t (attach_state state reply ∷ ms) = Keeps t ms
  Keeps t (stats reply ∷ ms) = Keeps t ms

  Quiet : Option (ℕ × ℕ) → SharedGpuStateCoordinator S × List (Sent S) → Type 0
  Quiet h (c, out) = (c.held ≡ h) × (tokens out ≡ [])

  handle-Quiet :
      (c : SharedGpuStateCoordinator S) (agent t : ℕ) (m : SharedStateMsg S)
      → c.held ≡ some (agent, t)
      → Keeps t (m ∷ [])
      → Quiet (some (agent, t)) (handle c m)
  unfolding handle Quiet Keeps tokens
  handle-Quiet c agent t (acquire_write agent_id reply) h k = ground (arith, h)
  handle-Quiet c agent t (release_write token) h k = ground (arith, h, k.0)
  handle-Quiet c agent t (snapshot reply) h k = ground (arith, h)
  handle-Quiet c agent t (attach_state state reply) h k = ground (arith, h)
  handle-Quiet c agent t (stats reply) h k = ground (arith, h)

  Keeps-cons :
      (t : ℕ) (m : SharedStateMsg S) (ms : List (SharedStateMsg S))
      → Keeps t (m ∷ ms)
      → Keeps t (m ∷ []) × Keeps t ms
  unfolding Keeps
  Keeps-cons t (release_write token) ms k = ((k.0, tt), k.1)
  Keeps-cons t (acquire_write agent_id reply) ms k = (tt, k)
  Keeps-cons t (snapshot reply) ms k = (tt, k)
  Keeps-cons t (attach_state state reply) ms k = (tt, k)
  Keeps-cons t (stats reply) ms k = (tt, k)

  -- In every state, while an agent holds a token and no message gives that token back, no other
  -- token is given to anybody and the holder stays the same.
  pub run-held :
      (c : SharedGpuStateCoordinator S) (agent t : ℕ) (ms : List (SharedStateMsg S))
      → c.held ≡ some (agent, t)
      → Keeps t ms
      → let (c', out) = run c ms in (c'.held ≡ some (agent, t)) × (tokens out ≡ [])
  unfolding run Quiet tokens
  run-held c agent t [] h k = (h, refl)
  run-held c agent t (m ∷ ms) h k =
      let (now, later) = Keeps-cons t m ms k in
      let (h', none_now) = handle-Quiet c agent t m h now in
      let (h'', none_later) = run-held ((handle c m).0) agent t ms h' later in
      (
        h'',
        tokens-append ((handle c m).1) ((run ((handle c m).0) ms).1)
            ∙ ap (λ l. l ++ tokens ((run ((handle c m).0) ms).1)) none_now
            ∙ none_later,
      )

  -- What the tokens are that one message gives out.
  handle-tokens :
      (c : SharedGpuStateCoordinator S) (m : SharedStateMsg S)
      → ((tokens ((handle c m).1) ≡ []) × (((handle c m).0).counter ≡ c.counter))
        ⊎ ((tokens ((handle c m).1) ≡ suc c.counter ∷ [])
            × (((handle c m).0).counter ≡ suc c.counter))
  unfolding handle issue_token release tokens
  handle-tokens c (acquire_write agent_id reply) = ground arith
  handle-tokens c (release_write token) = ground arith
  handle-tokens c (snapshot reply) = ground arith
  handle-tokens c (attach_state state reply) = ground arith
  handle-tokens c (stats reply) = ground arith

  -- In every state, the tokens that a run gives out are the numbers that follow the counter, in
  -- order, so that no token is given twice, and the counter ends at the last of them.
  pub run-tokens :
      (c : SharedGpuStateCoordinator S) (ms : List (SharedStateMsg S))
      → let (c', out) = run c ms in
        (n : ℕ) × ((tokens out ≡ upto c.counter n) × (c'.counter ≡ c.counter + n))
  unfolding run tokens upto
  run-tokens c [] = (0, (refl, omega arith))
  run-tokens c (m ∷ ms) =
      let c' = (handle c m).0 in
      let (n, (later, total)) = run-tokens c' ms in
      let all = tokens-append ((handle c m).1) ((run c' ms).1) in
      elim (handle-tokens c m) [
        | inl (now, same) ↦ (n, (ground (arith, all, now, same, later), omega (arith, total, same)))
        | inr (now, next) ↦
            (suc n, (ground (arith, all, now, next, later), omega (arith, total, next)))
      ]
