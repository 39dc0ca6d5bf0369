-- ===== src/Patterns/Speculative.antt =====
-- crates/atomr-accel-patterns/src/speculative.rs. The draft model and the verifier are parameters. Tokens are
-- numbers, and the statistics are taken to stay within `u32`.
pub mod Budget
use atomr_accel.Common.{
  ℕ, zero, suc, ◌+◌, ◌-◌, min, ◌==◌, ltb, leb, not, Option, none, some, List, [], ◌∷◌, ◌++◌, length,
  take, is_empty, if◌then◌else◌,
}
use atomr_accel.Gpu.Error.{GpuError, Result, ok, err}

pub record DecodeStats : Type 0 where
  pub iterations : ℕ
  pub draft_tokens : ℕ
  pub accepted_tokens : ℕ
  pub final_len : ℕ

pub record SpeculativeConfig : Type 0 where
  pub draft : List ℕ → ℕ → Result (List ℕ)
  -- How many candidates are accepted, and the token that replaces the first that is not.
  pub verify : List ℕ → List ℕ → Result (ℕ × Option ℕ)
  pub k : ℕ
  pub max_total_tokens : ℕ

-- How a round of the loop ends: `break`, an error reply with `return`, or the next round.
pub data Round : Type 0 where
  leaves : (tokens : List ℕ) (stats : DecodeStats) → Round
  fails : (e : GpuError) → Round
  goes_on : (tokens : List ℕ) (stats : DecodeStats) → Round

unfoldable pub no_stats : DecodeStats
no_stats = record { iterations = 0; draft_tokens = 0; accepted_tokens = 0; final_len = 0 }

module _ (cfg : SpeculativeConfig) where
  unfoldable pub end_round : List ℕ → DecodeStats → Round
  end_round tokens stats =
      if leb cfg.max_total_tokens (length tokens) then leaves tokens stats else goes_on tokens stats

  unfoldable pub accept : List ℕ → DecodeStats → List ℕ → ℕ × Option ℕ → Round
  unfolding end_round
  accept tokens stats candidates (accepted, replacement) =
      let acc = min accepted (length candidates) in
      let tokens' = tokens ++ take acc candidates in
      let stats' = record stats { accepted_tokens = stats.accepted_tokens + acc } in
      if ltb acc (length candidates)
      then elim replacement [
        | some t ↦
            end_round
              (if ltb (length tokens') cfg.max_total_tokens then tokens' ++ t ∷ [] else tokens')
              stats'
        | none ↦ leaves tokens' stats'
      ]
      else end_round tokens' stats'

  unfoldable pub verify_round : List ℕ → DecodeStats → List ℕ → Round
  unfolding accept
  verify_round tokens stats candidates =
      let stats' = record stats {
        iterations = stats.iterations + 1;
        draft_tokens = stats.draft_tokens + length candidates;
      } in
      elim (cfg.verify tokens candidates) [
        | err e ↦ fails e
        | ok v ↦ accept tokens stats' candidates v
      ]

  -- The loop's condition and its body.
  unfoldable pub round : List ℕ → DecodeStats → Round
  unfolding verify_round
  round tokens stats =
      let remaining = cfg.max_total_tokens - length tokens in
      if not (ltb (length tokens) cfg.max_total_tokens)
      then leaves tokens stats
      else if min cfg.k remaining == 0
      then leaves tokens stats
      else elim (cfg.draft tokens (min cfg.k remaining)) [
        | err e ↦ fails e
        | ok candidates ↦
            if is_empty candidates
            then leaves tokens stats
            else verify_round tokens stats (take (min (length candidates) remaining) candidates)
      ]

  -- `none` when the fuel is used up.
  unfoldable pub decode_loop :
      (fuel : ℕ) → List ℕ → DecodeStats → Option (Result (List ℕ × DecodeStats))
  unfolding round
  decode_loop zero tokens stats = none
  decode_loop (suc fuel) tokens stats = elim (round tokens stats) [
    | leaves tokens' stats' ↦ some (ok (tokens', record stats' { final_len = length tokens' }))
    | fails e ↦ some (err e)
    | goes_on tokens' stats' ↦ decode_loop fuel tokens' stats'
  ]

  -- One round for each token that may still be added, and one to leave.
  unfoldable pub decode : List ℕ → Option (Result (List ℕ × DecodeStats))
  unfolding decode_loop no_stats
  decode prefix = decode_loop (suc (cfg.max_total_tokens - length prefix)) prefix no_stats
