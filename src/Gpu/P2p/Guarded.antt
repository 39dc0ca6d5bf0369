-- ===== src/Gpu/P2p/Guarded.antt =====
-- p2p/mod.rs: which copies get past the topology.
use mathlib.Core.Path.{subst}
use mathlib.Core.Option.{some-injective}
use atomr_accel.Common.{text}
use atomr_accel.Common.{
  ℕ, ◌≤◌, ◌≢◌, ◌≡◌, refl, ap, ◌∙◌, ◌↔◌, Bool, true, false, ◌&&◌, ltb, Bool-cases, Option-cases, ◌⊎◌,
  inl, inr, Option, none, some, List, [], ◌∷◌, length, arith,
}
use atomr_accel.Gpu.Error.{GpuError, unrecoverable, Result, ok, err}
use atomr_accel.Gpu.State.{Watch}
use atomr_accel.Gpu.Ref.{Slice, access}
use atomr_accel.Gpu.Context.{Buffers}
use atomr_accel.Gpu.P2p.{can_pair}
use atomr_accel.Gpu.P2p.Topology.{
  context_of, P2pMsg, enable_all, can_access, copy_f32, topology, refresh_device, Effect,
  reply_error, P2pTopology, new, handle_can_access, copy_into, copy_from, with_contexts,
  handle_copy, handle, and_then, run, many_references, no_side, no_peer, enable_first,
}
use atomr_accel.Gpu.P2p.Tables.{new_graph-IsSquare}
use atomr_accel.Gpu.P2p.Squares.{IsSound, enable_all-IsSound, refresh-IsSound}

module _ (w : Watch) where
  handle-IsSound :
      (n : ℕ) (t : P2pTopology) (b : Buffers w) (m : P2pMsg) (r : P2pTopology × List Effect)
      → handle w t b m ≡ some r
      → IsSound n t
      → IsSound n (r.0)
  unfolding handle
  handle-IsSound n t b (enable_all p contexts reply) r e h =
      subst (λ r. IsSound n (r.0)) (some-injective _ _ e)
        (enable_all-IsSound n t p contexts reply h)
  handle-IsSound n t b (can_access from to reply) r e h =
      subst (λ r. IsSound n (r.0)) (some-injective _ _ e) h
  handle-IsSound n t b (copy_f32 src src_device dst dst_device outcome reply) r e h =
      elim (Option-cases (handle_copy w t b src src_device dst dst_device outcome reply)) [
        | inl panics ↦ let no : ⊥ = ground (arith, e, panics) in elim no [ ]
        | inr (effect, answers) ↦
            let same : (t, effect ∷ []) ≡ r = ground (arith, e, answers) in
            subst (λ r. IsSound n (r.0)) same h
      ]
  handle-IsSound n t b (topology reply) r e h =
      subst (λ r. IsSound n (r.0)) (some-injective _ _ e) h
  handle-IsSound n t b (refresh_device idx context) r e h =
      subst (λ r. IsSound n (r.0)) (some-injective _ _ e) (refresh-IsSound n t idx context h)

  -- A run that does not panic, message by message.
  run-split :
      (t : P2pTopology) (b : Buffers w) (m : P2pMsg) (ms : List (Buffers w × P2pMsg))
      (r : P2pTopology × List Effect)
      → run w t ((b, m) ∷ ms) ≡ some r
      → (s : P2pTopology × List Effect) × ((handle w t b m ≡ some s)
          × ((out : List Effect) × (run w (s.0) ms ≡ some (r.0, out))))
  unfolding run and_then
  run-split t b m ms r e = elim (Option-cases (handle w t b m)) [
    | inl panics ↦ let no : ⊥ = ground (arith, e, panics) in elim no [ ]
    | inr (s, steps) ↦ elim (Option-cases (run w (s.0) ms)) [
      | inl panics ↦ let no : ⊥ = ground (arith, e, steps, panics) in elim no [ ]
      | inr ((t', out), goes) ↦ (
        s,
        (
          steps,
          (
            out,
            let same : t' ≡ r.0 = ground (arith, e, steps, goes) in
                goes ∙ ap (λ x. some (x, out)) same,
          ),
        ),
      )
    ]
  ]

  run-IsSound :
      (n : ℕ) (t : P2pTopology) (ms : List (Buffers w × P2pMsg)) (r : P2pTopology × List Effect)
      → run w t ms ≡ some r
      → IsSound n t
      → IsSound n (r.0)
  unfolding run
  run-IsSound n t [] r e h = subst (λ r. IsSound n (r.0)) (some-injective _ _ e) h
  run-IsSound n t ((b, m) ∷ ms) r e h =
      let (s, (steps, (out, goes))) = run-split t b m ms r e in
      run-IsSound n (s.0) ms (r.0, out) goes (handle-IsSound n t b m s steps h)

  -- The effect is an error for the channel.
  abbrev Refuses : ℕ → Effect → Type 0
  Refuses reply effect = (e : GpuError) × (effect ≡ reply_error reply e)

  copy_into-Refuses :
      (b : Buffers w) (dst : ℕ) (outcome : Option GpuError) (reply : ℕ) (accessed : Result Slice)
      → 1 ≤ b.strong_count dst
      → Refuses reply (copy_into w b dst outcome reply accessed)
  unfolding copy_into
  copy_into-Refuses b dst outcome reply (err e) h = (e, refl)
  copy_into-Refuses b dst outcome reply (ok slice) h =
      (unrecoverable many_references, ground (arith, h))

  copy_from-Refuses :
      (b : Buffers w) (dst : ℕ) (outcome : Option GpuError) (reply : ℕ) (accessed : Result Slice)
      → 1 ≤ b.strong_count dst
      → Refuses reply (copy_from w b dst outcome reply accessed)
  unfolding copy_from
  copy_from-Refuses b dst outcome reply (err e) h = (e, refl)
  copy_from-Refuses b dst outcome reply (ok slice) h = copy_into-Refuses b dst outcome reply _ h

  with_contexts-Refuses :
      (t : P2pTopology) (b : Buffers w) (src src_device dst dst_device : ℕ)
      (outcome : Option GpuError) (reply : ℕ)
      → 1 ≤ b.strong_count dst
      → Refuses reply (with_contexts w t b src src_device dst dst_device outcome reply)
  unfolding with_contexts
  with_contexts-Refuses t b src src_device dst dst_device outcome reply h =
      elim (Option-cases (context_of t.contexts src_device)) [
        | inl absent ↦ (unrecoverable (no_side (text "src") src_device), ground (arith, absent))
        | inr (src_ctx, there) ↦ elim (Option-cases (context_of t.contexts dst_device)) [
          | inl absent ↦
              (unrecoverable (no_side (text "dst") dst_device), ground (arith, there, absent))
          | inr (dst_ctx, there') ↦
              let (e, refused) =
                copy_from-Refuses b dst outcome reply (access w (b.owner src) (b.device_ref src))
                  h in
              (e, ground (arith, there, there', refused))
        ]
      ]

  -- Whether both devices are devices of the topology.
  abbrev pub inside : List ℕ → ℕ → ℕ → Bool
  inside devices a b = ltb a (length devices) && ltb b (length devices)

  copy-panics :
      (n : ℕ) (t : P2pTopology) (b : Buffers w) (src src_device dst dst_device : ℕ)
      (outcome : Option GpuError) (reply : ℕ)
      → IsSound n t
      → (handle_copy w t b src src_device dst dst_device outcome reply ≡ none)
        ↔ ((t.enabled ≡ true) × ((ltb src_device n && ltb dst_device n) ≡ false))
  unfolding handle_copy
  copy-panics n t b src src_device dst dst_device outcome reply h =
      let square = h.square src_device dst_device in
      elim (Option-cases (can_pair t.graph src_device dst_device)) [
        | inl outside ↦ (λ e. ground (arith, e, outside, square), λ e. ground (arith, e.0, outside))
        | inr (v, there) ↦ (
          λ e. let no : ⊥ = ground (arith, e, there) in elim no [ ],
          λ e. let no : ⊥ = ground (arith, e.1, there, square) in elim no [ ],
        )
      ]

  copy-refuses :
      (t : P2pTopology) (b : Buffers w) (src src_device dst dst_device : ℕ)
      (outcome : Option GpuError) (reply : ℕ)
      → 1 ≤ b.strong_count dst
      → (handle_copy w t b src src_device dst dst_device outcome reply ≡ none)
        ⊎ ((e : GpuError) × (handle_copy w t b src src_device dst dst_device outcome reply
              ≡ some (reply_error reply e)))
  unfolding handle_copy
  copy-refuses t b src src_device dst dst_device outcome reply h =
      let (e, refused) = with_contexts-Refuses t b src src_device dst dst_device outcome reply h in
      elim (Bool-cases t.enabled) [
        | inr off ↦ inr (unrecoverable enable_first, ground (arith, off))
        | inl on ↦ elim (Option-cases (can_pair t.graph src_device dst_device)) [
          | inl outside ↦ inl (ground (arith, on, outside))
          | inr (true, there) ↦ inr (e, ground (arith, on, there, refused))
          | inr (false, there) ↦
              inr (unrecoverable (no_peer src_device dst_device), ground (arith, on, there))
        ]
      ]

  access-outside :
      (n : ℕ) (t : P2pTopology) (a b : ℕ)
      → IsSound n t
      → a ≢ b
      → (ltb a n && ltb b n) ≡ false
      → handle_can_access t a b ≡ false
  unfolding handle_can_access
  access-outside n t a b h apart outside = elim (Option-cases (can_pair t.graph a b)) [
    | inl absent ↦ ground (arith, absent, apart)
    | inr (v, there) ↦ let no : ⊥ = ground (arith, there, outside, h.square a b) in elim no [ ]
  ]

  -- After any messages to a new topology, a copy between devices is never made, since the request itself holds a reference to
  -- its destination: it is answered with an error, or the actor panics, exactly when peer access was enabled and
  -- one of the devices is not of the topology. Of two different devices one of which is not of the topology the
  -- access test says no.
  pub copy-run :
      (devices : List ℕ) (ms : List (Buffers w × P2pMsg)) (t : P2pTopology) (out : List Effect)
      (b : Buffers w) (src src_device dst dst_device : ℕ) (outcome : Option GpuError) (reply : ℕ)
      → run w (new devices) ms ≡ some (t, out)
      → 1 ≤ b.strong_count dst
      → ((handle_copy w t b src src_device dst dst_device outcome reply ≡ none)
          ↔ ((t.enabled ≡ true) × (inside devices src_device dst_device ≡ false)))
        × (((handle_copy w t b src src_device dst dst_device outcome reply ≡ none)
              ⊎ ((e : GpuError) × (handle_copy w t b src src_device dst dst_device outcome reply
                    ≡ some (reply_error reply e))))
            × (src_device ≢ dst_device
                → inside devices src_device dst_device ≡ false
                → handle_can_access t src_device dst_device ≡ false))
  unfolding new
  copy-run devices ms t out b src src_device dst dst_device outcome reply e h =
      let sound =
        run-IsSound (length devices) (new devices) ms (t, out) e
          (record { sized = refl; square = new_graph-IsSquare (length devices) }) in
      (
        copy-panics (length devices) t b src src_device dst dst_device outcome reply sound,
        (
          copy-refuses t b src src_device dst dst_device outcome reply h,
          λ apart outside.
              access-outside (length devices) t src_device dst_device sound apart outside,
        ),
      )
