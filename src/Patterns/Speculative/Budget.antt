-- ===== src/Patterns/Speculative/Budget.antt =====
-- speculative.rs: the loop ends, keeps its prefix, and stays within the budget of tokens.
use mathlib.Core.Path.{subst}
use atomr_accel.Common.{
  ℕ, zero, suc, ◌+◌, ◌-◌, ◌≤◌, ◌<◌, ◌≡◌, refl, sym, ap, ◌∙◌, min, max, ◌==◌, ltb, leb, not, Option,
  none, some, List, [], ◌∷◌, ◌++◌, append-nil, append_assoc, length, take, length-take,
  length-append, is_empty, if◌then◌else◌, arith, Bool, Bool-cases, inl, inr, true, false,
}
use atomr_accel.Gpu.Error.{Result, ok, err}
use atomr_accel.Patterns.Speculative.{
  DecodeStats, SpeculativeConfig, Round, leaves, fails, goes_on, no_stats, end_round, accept,
  verify_round, round, decode_loop, decode,
}

module _ (cfg : SpeculativeConfig) where
  -- `tokens'` continues `tokens`, within the budget unless `tokens` was already past it.
  abbrev pub Continues : List ℕ → List ℕ → Type 0
  Continues tokens tokens' =
      ((added : List ℕ) × (tokens' ≡ tokens ++ added))
      × (length tokens' ≤ max (length tokens) cfg.max_total_tokens)

  -- A round that goes on has added a token.
  Grows : List ℕ → Round → Type 0
  Grows tokens (leaves tokens' stats) = Continues tokens tokens'
  Grows tokens (fails e) = Unit
  Grows tokens (goes_on tokens' stats) = Continues tokens tokens' × (length tokens < length tokens')

  end_round-Grows :
      (tokens tokens' : List ℕ) (stats : DecodeStats)
      → Continues tokens tokens'
      → length tokens < length tokens'
      → Grows tokens (end_round cfg tokens' stats)
  unfolding end_round Grows
  end_round-Grows tokens tokens' stats c l =
      elim (Bool-cases (leb cfg.max_total_tokens (length tokens'))) [
        | inl h ↦
            subst (Grows tokens)
              (ap (λ b. if b then leaves tokens' stats else goes_on tokens' stats) (sym h)) c
        | inr h ↦
            subst (Grows tokens)
              (ap (λ b. if b then leaves tokens' stats else goes_on tokens' stats) (sym h)) (c, l)
      ]

  extend :
      (tokens more : List ℕ)
      → length tokens + length more ≤ cfg.max_total_tokens
      → Continues tokens (tokens ++ more)
  extend tokens more h = ((more, refl), omega (arith, h, length-append tokens more))

  abbrev accepted_of : List ℕ → ℕ → ℕ
  accepted_of candidates accepted = min accepted (length candidates)

  abbrev counted : DecodeStats → ℕ → DecodeStats
  counted stats acc = record stats { accepted_tokens = stats.accepted_tokens + acc }

  abbrev extended : List ℕ → List ℕ → ℕ → List ℕ
  extended tokens candidates accepted = tokens ++ take (accepted_of candidates accepted) candidates

  length-extended :
      (tokens candidates : List ℕ) (accepted : ℕ)
      → length (extended tokens candidates accepted)
        ≡ length tokens + accepted_of candidates accepted
  length-extended tokens candidates accepted = omega (
    arith,
    length-append tokens (take (accepted_of candidates accepted) candidates),
    length-take (accepted_of candidates accepted) candidates,
  )

  accept-all :
      (tokens : List ℕ) (stats : DecodeStats) (candidates : List ℕ) (accepted : ℕ)
      (replacement : Option ℕ)
      → ltb (accepted_of candidates accepted) (length candidates) ≡ false
      → end_round cfg
          (extended tokens candidates accepted)
          (counted stats (accepted_of candidates accepted))
        ≡ accept cfg tokens stats candidates (accepted, replacement)
  unfolding accept
  accept-all tokens stats candidates accepted replacement h = ground arith

  accept-none :
      (tokens : List ℕ) (stats : DecodeStats) (candidates : List ℕ) (accepted : ℕ)
      → ltb (accepted_of candidates accepted) (length candidates) ≡ true
      → leaves
          (extended tokens candidates accepted)
          (counted stats (accepted_of candidates accepted))
        ≡ accept cfg tokens stats candidates (accepted, none)
  unfolding accept
  accept-none tokens stats candidates accepted h = ground arith

  accept-some :
      (tokens : List ℕ) (stats : DecodeStats) (candidates : List ℕ) (accepted t : ℕ)
      → ltb (accepted_of candidates accepted) (length candidates) ≡ true
      → length tokens + length candidates ≤ cfg.max_total_tokens
      → end_round cfg
          (extended tokens candidates accepted ++ t ∷ [])
          (counted stats (accepted_of candidates accepted))
        ≡ accept cfg tokens stats candidates (accepted, some t)
  unfolding accept
  accept-some tokens stats candidates accepted t h fits =
      ground (arith, fits, length-extended tokens candidates accepted)

  grown :
      (tokens : List ℕ) (stats : DecodeStats) (more : List ℕ)
      → 0 < length more
      → length tokens + length more ≤ cfg.max_total_tokens
      → Grows tokens (end_round cfg (tokens ++ more) stats)
  grown tokens stats more some_more fits =
      end_round-Grows tokens (tokens ++ more) stats (extend tokens more fits)
        (omega (arith, some_more, length-append tokens more))

  accept-Grows :
      (tokens : List ℕ) (stats : DecodeStats) (candidates : List ℕ) (v : ℕ × Option ℕ)
      → 0 < length candidates
      → length tokens + length candidates ≤ cfg.max_total_tokens
      → Grows tokens (accept cfg tokens stats candidates v)
  unfolding Grows
  accept-Grows tokens stats candidates (accepted, replacement) some_left fits =
      let acc = accepted_of candidates accepted in
      let taken = take acc candidates in
      let size = length-take acc candidates in
      elim (Bool-cases (ltb acc (length candidates))) [
        | inr all ↦
            subst (Grows tokens) (accept-all tokens stats candidates accepted replacement all) (
              grown tokens (counted stats acc) taken (ground (arith, size, some_left))
                (omega (arith, size, fits)))
        | inl part ↦
            elim replacement
              as (λ o. Grows tokens (accept cfg tokens stats candidates (accepted, o))) [
                | none ↦
                    subst (Grows tokens) (accept-none tokens stats candidates accepted part)
                      (extend tokens taken (omega (arith, size, fits)))
                | some t ↦
                    subst (Grows tokens)
                      (ap (λ l. end_round cfg l (counted stats acc))
                          (sym (append_assoc tokens taken (t ∷ [])))
                        ∙ accept-some tokens stats candidates accepted t part fits)
                      (grown tokens (counted stats acc) (taken ++ t ∷ [])
                        (omega (arith, length-append taken (t ∷ [])))
                        (ground (arith, length-append taken (t ∷ []), size, fits, part)))
              ]
      ]

  verify_round-Grows :
      (tokens : List ℕ) (stats : DecodeStats) (candidates : List ℕ)
      → 0 < length candidates
      → length tokens + length candidates ≤ cfg.max_total_tokens
      → Grows tokens (verify_round cfg tokens stats candidates)
  unfolding verify_round Grows
  verify_round-Grows tokens stats candidates some_left fits =
      let stats' = record stats {
        iterations = stats.iterations + 1;
        draft_tokens = stats.draft_tokens + length candidates;
      } in
      elim (cfg.verify tokens candidates)
        as (λ v.
          Grows tokens
            (elim v [ err e ↦ fails e | ok x ↦ accept cfg tokens stats' candidates x ])) [
              | err e ↦ tt
              | ok x ↦ accept-Grows tokens stats' candidates x some_left fits
            ]

  stays : (tokens : List ℕ) → Continues tokens tokens
  stays tokens = (([], sym (append-nil tokens)), omega arith)

  draft_round :
      (tokens : List ℕ) (stats : DecodeStats) (d : Result (List ℕ))
      → length tokens < cfg.max_total_tokens
      → Grows tokens (elim d [
        | err e ↦ fails e
        | ok candidates ↦
            if is_empty candidates
            then leaves tokens stats
            else verify_round cfg tokens stats
                (take (min (length candidates) (cfg.max_total_tokens - length tokens)) candidates)
      ])
  unfolding Grows
  draft_round tokens stats (err e) room = tt
  draft_round tokens stats (ok []) room = stays tokens
  draft_round tokens stats (ok (c ∷ cs)) room =
      let n = min (length (c ∷ cs)) (cfg.max_total_tokens - length tokens) in
      let size = length-take n (c ∷ cs) in
      verify_round-Grows tokens stats (take n (c ∷ cs)) (omega (arith, size, room))
        (omega (arith, size, room))

  if-Grows :
      (tokens : List ℕ) (b : Bool) (x y : Round)
      → (b ≡ true → Grows tokens x)
      → (b ≡ false → Grows tokens y)
      → Grows tokens (if b then x else y)
  if-Grows tokens true x y f g = f refl
  if-Grows tokens false x y f g = g refl

  round-Grows : (tokens : List ℕ) (stats : DecodeStats) → Grows tokens (round cfg tokens stats)
  unfolding round Grows
  round-Grows tokens stats =
      let remaining = cfg.max_total_tokens - length tokens in
      if-Grows tokens (not (ltb (length tokens) cfg.max_total_tokens)) _ _ (λ full. stays tokens)
        λ room.
          if-Grows tokens (min cfg.k remaining == 0) _ _ (λ stuck. stays tokens)
            λ k.
              draft_round tokens stats (cfg.draft tokens (min cfg.k remaining))
                (ground (arith, room))

  -- What a reply says: the prefix goes on within the budget and its length is reported.
  unfoldable pub IsReply : List ℕ → Result (List ℕ × DecodeStats) → Type 0
  IsReply prefix (err e) = Unit
  IsReply prefix (ok (tokens, stats)) = Continues prefix tokens × (stats.final_len ≡ length tokens)

  Continues-trans : (a b c : List ℕ) → Continues a b → Continues b c → Continues a c
  Continues-trans a b c ((x, e), l) ((y, f), m) =
      ((x ++ y, f ∙ ap (λ t. t ++ y) e ∙ append_assoc a x y), omega (arith, l, m))

  IsReply-later :
      (a b : List ℕ) (r : Result (List ℕ × DecodeStats)) → Continues a b → IsReply b r → IsReply a r
  unfolding IsReply
  IsReply-later a b (err e) c h = tt
  IsReply-later a b (ok (tokens, stats)) c (d, l) = (Continues-trans a b tokens c d, l)

  abbrev Ends : List ℕ → Option (Result (List ℕ × DecodeStats)) → Type 0
  Ends prefix o = (r : Result (List ℕ × DecodeStats)) × ((o ≡ some r) × IsReply prefix r)

  next_round :
      (fuel : ℕ) (tokens : List ℕ) (x : Round)
      → cfg.max_total_tokens - length tokens < suc fuel
      → Grows tokens x
      → ((ts : List ℕ) (st : DecodeStats)
          → cfg.max_total_tokens - length ts < fuel
          → Ends ts (decode_loop cfg fuel ts st))
      → Ends tokens (elim x [
        | leaves tokens' stats' ↦ some (ok (tokens', record stats' { final_len = length tokens' }))
        | fails e ↦ some (err e)
        | goes_on tokens' stats' ↦ decode_loop cfg fuel tokens' stats'
      ])
  unfolding Grows IsReply
  next_round fuel tokens (leaves tokens' stats') enough g later =
      (ok (tokens', record stats' { final_len = length tokens' }), (refl, (g, refl)))
  next_round fuel tokens (fails e) enough g later = (err e, (refl, tt))
  next_round fuel tokens (goes_on tokens' stats') enough (c, l) later =
      let (r, (done, good)) = later tokens' stats' (omega (arith, enough, l, c.1)) in
      (r, (done, IsReply-later tokens tokens' r c good))

  decode_loop-Ends :
      (fuel : ℕ) (tokens : List ℕ) (stats : DecodeStats)
      → cfg.max_total_tokens - length tokens < fuel
      → Ends tokens (decode_loop cfg fuel tokens stats)
  unfolding decode_loop
  decode_loop-Ends zero tokens stats h = ground arith
  decode_loop-Ends (suc fuel) tokens stats h =
      next_round fuel tokens (round cfg tokens stats) h (round-Grows tokens stats)
        (decode_loop-Ends fuel)

  -- Whatever the draft model and the verifier answer, decoding ends within one round for each token of the
  -- budget. A successful answer continues the prefix, is no longer than the budget or, if that is longer, the
  -- prefix, and reports its own length.
  pub decode-IsReply :
      (prefix : List ℕ)
      → (r : Result (List ℕ × DecodeStats)) × ((decode cfg prefix ≡ some r) × IsReply prefix r)
  unfolding decode
  decode-IsReply prefix =
      decode_loop-Ends (suc (cfg.max_total_tokens - length prefix)) prefix no_stats (omega arith)
