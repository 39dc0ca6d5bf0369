-- ===== src/Patterns/Cascade/Outcome.antt =====
-- cascade.rs: which stage a prediction is answered by.
use mathlib.Core.Path.{subst}
use atomr_accel.Common.{
  ℕ, ◌+◌, ◌≡◌, refl, sym, ap, ◌∙◌, Bool, true, false, Bool-cases, ◌⊎◌, inl, inr, Option, none, some,
  List, [], ◌∷◌, ◌++◌, append-nil, append_assoc, is_empty, length, length-append, All, All-append,
  arith,
}
use atomr_accel.Gpu.Error.{GpuError, unrecoverable, Result, ok, err}
use atomr_accel.Patterns.Cascade.{
  CascadeStageEntry, CascadeReply, no_stages, last_reply, predict_loop, handle_predict,
}

Result-cases : {A : Type 0} (r : Result A) → ((a : A) × (r ≡ ok a)) ⊎ ((e : GpuError) × (r ≡ err e))
Result-cases (ok a) = inl (a, refl)
Result-cases (err e) = inr (e, refl)

module _ {F Req Resp : Type 0} (at_least : F → F → Bool) (req : Req) where
  -- The stage answers, with less confidence than it needs.
  unfoldable pub Passes : CascadeStageEntry F Req Resp → Type 0
  Passes entry =
      (a : Resp × F) × ((entry.stage req ≡ ok a)
        × (at_least (a.1) entry.confidence_threshold ≡ false))

  -- What the list of the stages makes of a request.
  pub data Outcome (stages : List (CascadeStageEntry F Req Resp))
      (result : Result (CascadeReply F Resp)) : Type 0 where
    empty : stages ≡ [] → result ≡ err (unrecoverable no_stages) → Outcome stages result
    failed :
        (before after : List (CascadeStageEntry F Req Resp)) (entry : CascadeStageEntry F Req Resp)
        (e : GpuError)
        → stages ≡ before ++ entry ∷ after
        → All Passes before
        → entry.stage req ≡ err e
        → result ≡ err e
        → Outcome stages result
    confident :
        (before after : List (CascadeStageEntry F Req Resp)) (entry : CascadeStageEntry F Req Resp)
        (a : Resp × F)
        → stages ≡ before ++ entry ∷ after
        → All Passes before
        → entry.stage req ≡ ok a
        → at_least (a.1) entry.confidence_threshold ≡ true
        → result ≡ ok (record { response = a.0; stage_index = length before; confidence = a.1 })
        → Outcome stages result
    exhausted :
        (before : List (CascadeStageEntry F Req Resp)) (entry : CascadeStageEntry F Req Resp)
        (a : Resp × F)
        → stages ≡ before ++ entry ∷ []
        → All Passes stages
        → entry.stage req ≡ ok a
        → result ≡ ok (record { response = a.0; stage_index = length before; confidence = a.1 })
        → Outcome stages result

  -- `last` is the answer of the last stage of `seen`, if there is one.
  record IsLast (seen : List (CascadeStageEntry F Req Resp)) (last : Option (CascadeReply F Resp))
      : Type 0 where
    before : List (CascadeStageEntry F Req Resp)
    entry : CascadeStageEntry F Req Resp
    a : Resp × F
    split : seen ≡ before ++ entry ∷ []
    answered : entry.stage req ≡ ok a
    kept : last ≡ some (record { response = a.0; stage_index = length before; confidence = a.1 })

  loop_failed :
      (idx : ℕ) (last : Option (CascadeReply F Resp)) (entry : CascadeStageEntry F Req Resp)
      (stages : List (CascadeStageEntry F Req Resp)) (e : GpuError)
      → entry.stage req ≡ err e
      → predict_loop at_least req idx last (entry ∷ stages) ≡ err e
  unfolding predict_loop
  loop_failed idx last entry stages e h = ground (arith, h)

  loop_confident :
      (idx : ℕ) (last : Option (CascadeReply F Resp)) (entry : CascadeStageEntry F Req Resp)
      (stages : List (CascadeStageEntry F Req Resp)) (a : Resp × F)
      → entry.stage req ≡ ok a
      → at_least (a.1) entry.confidence_threshold ≡ true
      → predict_loop at_least req idx last (entry ∷ stages)
        ≡ ok (record { response = a.0; stage_index = idx; confidence = a.1 })
  unfolding predict_loop
  loop_confident idx last entry stages a h t = ground (arith, h, t)

  loop_passes :
      (idx : ℕ) (last : Option (CascadeReply F Resp)) (entry : CascadeStageEntry F Req Resp)
      (stages : List (CascadeStageEntry F Req Resp)) (a : Resp × F)
      → entry.stage req ≡ ok a
      → at_least (a.1) entry.confidence_threshold ≡ false
      → predict_loop at_least req idx last (entry ∷ stages)
        ≡ predict_loop at_least req
            (idx + 1)
            (some (record { response = a.0; stage_index = idx; confidence = a.1 }))
            stages
  unfolding predict_loop
  loop_passes idx last entry stages a h t = ground (arith, h, t)

  loop-Outcome :
      (seen stages : List (CascadeStageEntry F Req Resp)) (last : Option (CascadeReply F Resp))
      → All Passes seen
      → IsLast seen last ⊎ (is_empty stages ≡ false)
      → Outcome (seen ++ stages) (predict_loop at_least req (length seen) last stages)
  unfolding predict_loop last_reply Passes
  loop-Outcome seen [] last h (inl l) =
      let same = append-nil seen in
      exhausted l.before l.entry l.a (same ∙ l.split) (subst (All Passes) (sym same) h) l.answered
        (ap last_reply l.kept)
  loop-Outcome seen [] last h (inr e) = ground (arith, e)
  loop-Outcome seen (entry ∷ stages) last h l = elim (Result-cases (entry.stage req)) [
    | inr (e, fails) ↦
        failed seen stages entry e refl h fails
          (loop_failed (length seen) last entry stages e fails)
    | inl (a, answers) ↦ elim (Bool-cases (at_least (a.1) entry.confidence_threshold)) [
      | inl clears ↦
          confident seen stages entry a refl h answers clears
            (loop_confident (length seen) last entry stages a answers clears)
      | inr short ↦
          let reply : CascadeReply F Resp = record {
            response = a.0;
            stage_index = length seen;
            confidence = a.1;
          } in
          let rest =
            loop-Outcome (seen ++ entry ∷ []) stages (some reply)
              (All-append Passes seen (entry ∷ []) h ((a, (answers, short)), tt))
              (inl (record {
                before = seen;
                entry = entry;
                a = a;
                split = refl;
                answered = answers;
                kept = refl;
              })) in
          let same =
            ap (λ n. predict_loop at_least req n (some reply) stages)
              (length-append seen (entry ∷ []))
            ∙ sym (loop_passes (length seen) last entry stages a answers short) in
          subst (λ l. Outcome l (predict_loop at_least req (length seen) last (entry ∷ stages)))
            (append_assoc seen (entry ∷ []) stages)
            (subst (Outcome ((seen ++ entry ∷ []) ++ stages)) same rest)
    ]
  ]

  -- A prediction is answered by the first stage that fails, with its error, or that answers with as much
  -- confidence as it needs, with its answer, its index and its confidence, where every stage before has
  -- answered with too little; when all have, by the last stage; and by an error of the cascade only when there is no stage.
  pub handle_predict-Outcome :
      (stages : List (CascadeStageEntry F Req Resp))
      → Outcome stages (handle_predict at_least stages req)
  unfolding handle_predict
  handle_predict-Outcome [] = empty refl refl
  handle_predict-Outcome (entry ∷ stages) = loop-Outcome [] (entry ∷ stages) none tt (inr refl)
