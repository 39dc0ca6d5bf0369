-- ===== src/Gpu/Context/Copies.antt =====
-- context_actor.rs: what becomes of a copy.
use atomr_accel.Common.{
  ℕ, ◌==◌, Bool-cases, Option-cases, ◌⊎◌, inl, inr, ◌≤◌, ◌≡◌, refl, ap, ◌↔◌, ◌∙◌, none, some, [],
  ◌∷◌, arith,
}
use atomr_accel.Gpu.Error.{
  context_poisoned_tag, out_of_memory_tag, unrecoverable_tag, GpuError, unrecoverable, Result, ok,
  err, decide_str, escalate,
}
use atomr_accel.Gpu.State.{Watch}
use atomr_accel.Gpu.Ref.{Slice, access}
use atomr_accel.Gpu.Device.Messages.{CopyReq, ContextMsg}
use atomr_accel.Gpu.Context.{
  Driver, generic, Effect, reply_error, awaits, many_references, expect_ready, ContextActor, done,
  panicked, Buffers, enqueued, from_host_slice, to_host_slice, len_mismatch, run_copy_from_host,
  run_copy_to_host, on_stream, handle_generic, handle,
}

module _ (w : Watch) where
  -- No copy to the device ever starts.
  from_host_slice-refuses :
      (b : Buffers w) (driver : Driver) (src dst reply : ℕ) (accessed : Result Slice)
      → 1 ≤ b.strong_count dst
      → (e : GpuError) × (from_host_slice w b driver src dst reply accessed ≡ reply_error reply e)
  unfolding from_host_slice
  from_host_slice-refuses b driver src dst reply (err e) h = (e, refl)
  from_host_slice-refuses b driver src dst reply (ok slice) h =
      elim (Bool-cases (slice.elements == b.host_len src)) [
        | inl same ↦ (unrecoverable many_references, ground (arith, same, h))
        | inr other ↦
            (unrecoverable (len_mismatch (b.host_len src) slice.elements), ground (arith, other))
      ]

  pub expect_ready-escalates : decide_str expect_ready ≡ escalate
  unfolding decide_str expect_ready context_poisoned_tag out_of_memory_tag unrecoverable_tag
  expect_ready-escalates = refl

  pub on_stream_cases :
      (c : ContextActor w) (e : Effect)
      → ((c.stream ≡ none) × (on_stream w c e ≡ panicked c expect_ready))
        ⊎ ((stream : ℕ) × ((c.stream ≡ some stream) × (on_stream w c e ≡ done c (e ∷ []))))
  unfolding on_stream
  on_stream_cases c e = elim (Option-cases c.stream) [
    | inl absent ↦ inl (absent, ground (arith, absent))
    | inr (stream, there) ↦ inr (stream, (there, ground (arith, there)))
  ]

  -- No copy to the device ever starts, whatever the driver answers: the request holds a reference to the
  -- slice, so the slice that `access` gives and that is cloned has two owners at least. Without a stream the
  -- actor panics; with one the request is answered with an error.
  pub copy_from_host-refuses :
      (c : ContextActor w) (b : Buffers w) (driver : Driver) (r : CopyReq)
      → 1 ≤ b.strong_count r.dst
      → ((c.stream ≡ none)
          × (handle w c b driver (generic (ContextMsg.copy_from_host r)) ≡ panicked c expect_ready))
        ⊎ ((stream : ℕ) × ((c.stream ≡ some stream)
              × ((e : GpuError) × (handle w c b driver (generic (ContextMsg.copy_from_host r))
                    ≡ done c (reply_error r.reply e ∷ [])))))
  unfolding handle handle_generic run_copy_from_host
  copy_from_host-refuses c b driver r h =
      let (e, refused) =
        from_host_slice-refuses b driver r.src r.dst r.reply
          (access w (b.owner r.dst) (b.device_ref r.dst)) h in
      elim (on_stream_cases c (run_copy_from_host w b driver r)) [
        | inl panics ↦ inl panics
        | inr (stream, (there, answers)) ↦
            inr (stream, (there, (e, answers ∙ ap (λ x. done c (x ∷ [])) refused)))
      ]

  -- What lets a copy to the host start.
  pub record Startable (c : ContextActor w) (b : Buffers w) (driver : Driver) (r : CopyReq)
      : Type 0 where
    pub stream : ℕ
    pub has_stream : c.stream ≡ some stream
    pub slice : Slice
    pub readable : access w (b.owner r.src) (b.device_ref r.src) ≡ ok slice
    pub same_len : slice.elements ≡ b.host_len r.dst
    pub taken : driver.memcpy ≡ none

  to_host_slice-starts :
      (b : Buffers w) (driver : Driver) (dst reply : ℕ) (accessed : Result Slice)
      → to_host_slice w b driver dst reply accessed ≡ awaits reply dst
      → (slice : Slice) × ((accessed ≡ ok slice)
          × ((slice.elements ≡ b.host_len dst) × (driver.memcpy ≡ none)))
  unfolding to_host_slice enqueued
  to_host_slice-starts b driver dst reply (err e) h = ground (arith, h)
  to_host_slice-starts b driver dst reply (ok slice) h = (slice, (refl, ground (arith, h)))

  on_stream-awaits :
      (c : ContextActor w) (e : Effect) (reply host : ℕ)
      → on_stream w c e ≡ done c (awaits reply host ∷ [])
      → (stream : ℕ) × ((c.stream ≡ some stream) × (e ≡ awaits reply host))
  unfolding on_stream
  on_stream-awaits c e reply host h = elim (Option-cases c.stream) [
    | inl absent ↦ let no : ⊥ = ground (arith, h, absent) in elim no [ ]
    | inr (stream, there) ↦ (stream, (there, ground (arith, h, there)))
  ]

  copy-starts :
      (c : ContextActor w) (b : Buffers w) (driver : Driver) (r : CopyReq)
      → Startable c b driver r
      → on_stream w c (run_copy_to_host w b driver r) ≡ done c (awaits r.reply r.dst ∷ [])
  unfolding on_stream run_copy_to_host to_host_slice enqueued
  copy-starts c b driver r s = ground (arith, s.has_stream, s.readable, s.same_len, s.taken)

  -- A copy to the host starts, so that its completion will answer, exactly when the actor has a stream, the
  -- reference is valid, the lengths agree, and the driver takes the copy.
  pub copy_to_host_iff :
      (c : ContextActor w) (b : Buffers w) (driver : Driver) (r : CopyReq)
      → (handle w c b driver (generic (ContextMsg.copy_to_host r))
          ≡ done c (awaits r.reply r.dst ∷ []))
        ↔ Startable c b driver r
  unfolding handle handle_generic run_copy_to_host
  copy_to_host_iff c b driver r = (
    λ h.
        let (stream, (there, starts)) =
          on_stream-awaits c (run_copy_to_host w b driver r) r.reply r.dst h in
        let (slice, (readable, (same, taken))) =
          to_host_slice-starts b driver r.dst r.reply
            (access w (b.owner r.src) (b.device_ref r.src)) starts in
        record {
          stream = stream;
          has_stream = there;
          slice = slice;
          readable = readable;
          same_len = same;
          taken = taken;
        },
    λ s. copy-starts c b driver r s,
  )
