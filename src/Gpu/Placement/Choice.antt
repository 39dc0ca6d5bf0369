-- ===== src/Gpu/Placement/Choice.antt =====
-- placement/mod.rs: which device the two policies choose, and what the actor answers.
use mathlib.Core.Path.{subst, sym, ap}
use atomr_accel.Common.{
  append-nil, append_assoc, ℕ, ◌≤◌, ◌<◌, ◌≡◌, refl, true, false, ltb, Option, none, some, List, [],
  ◌∷◌, ◌++◌, All-append, ltb→lt, ltb→ge, ◌∙◌, if◌then◌else◌, arith, Bool-cases, inl, inr, All,
}
use atomr_accel.Gpu.Device.Messages.{DeviceLoad}
use atomr_accel.Gpu.Placement.{
  PlacementHints, choose_loop, choose_least_loaded, better, is_eligible, score,
}

-- The eligible candidates, in order.
unfoldable pub eligible : PlacementHints → List (ℕ × DeviceLoad) → List (ℕ × ℕ)
unfolding is_eligible score
eligible hints [] = []
eligible hints ((id, load) ∷ cs) =
    let rest = eligible hints cs in if is_eligible hints load then (id, score load) ∷ rest else rest

-- `x` is in the list, nothing scores less, and everything before it scores more.
unfoldable pub IsFirstLeast : List (ℕ × ℕ) → ℕ × ℕ → Type 0
IsFirstLeast xs x =
    (before : List (ℕ × ℕ)) × ((after : List (ℕ × ℕ)) × ((xs ≡ before ++ x ∷ after)
        × (All (λ y. x.1 < y.1) before × All (λ y. x.1 ≤ y.1) after)))

fold : Option (ℕ × ℕ) → List (ℕ × ℕ) → Option (ℕ × ℕ)
unfolding better
fold best [] = best
fold best ((id, s) ∷ xs) = fold (better best id s) xs

choose_loop-fold :
    (hints : PlacementHints) (best : Option (ℕ × ℕ)) (cs : List (ℕ × DeviceLoad))
    → choose_loop hints best cs ≡ fold best (eligible hints cs)
unfolding choose_loop fold eligible
choose_loop-fold hints best [] = refl
choose_loop-fold hints best ((id, load) ∷ cs) = elim (Bool-cases (is_eligible hints load)) [
  | inl h ↦ ground (arith, choose_loop-fold hints (better best id (score load)) cs)
  | inr h ↦ ground (arith, choose_loop-fold hints best cs)
]

-- What is known of the best of a list.
IsBest : List (ℕ × ℕ) → Option (ℕ × ℕ) → Type 0
unfolding IsFirstLeast
IsBest xs none = xs ≡ []
IsBest xs (some x) = IsFirstLeast xs x

All-lt : (a b : ℕ) (xs : List (ℕ × ℕ)) → a ≤ b → All (λ y. b < y.1) xs → All (λ y. a < y.1) xs
All-lt a b [] h l = tt
All-lt a b (x ∷ xs) h l = (ground (arith, l.0), All-lt a b xs h l.1)

All-le : (a b : ℕ) (xs : List (ℕ × ℕ)) → a < b → All (λ y. b ≤ y.1) xs → All (λ y. a < y.1) xs
All-le a b [] h l = tt
All-le a b (x ∷ xs) h l = (ground (arith, l.0), All-le a b xs h l.1)

better_less : (id' s' id s : ℕ) → ltb s s' ≡ true → some (id, s) ≡ better (some (id', s')) id s
unfolding better
better_less id' s' id s h = ground arith

better_keep : (id' s' id s : ℕ) → ltb s s' ≡ false → some (id', s') ≡ better (some (id', s')) id s
unfolding better
better_keep id' s' id s h = ground arith

All-before :
    (s id' s' : ℕ) (before after : List (ℕ × ℕ))
    → s < s'
    → All (λ y. s' < y.1) before
    → All (λ y. s' ≤ y.1) after
    → All (λ y. s < y.1) (before ++ (id', s') ∷ after)
All-before s id' s' before after h more least =
    All-append (λ y. s < y.1) before ((id', s') ∷ after) (All-lt s s' before (ground arith) more)
      (h, All-le s s' after h least)

better-IsBest :
    (seen : List (ℕ × ℕ)) (best : Option (ℕ × ℕ)) (id s : ℕ)
    → IsBest seen best
    → IsBest (seen ++ (id, s) ∷ []) (better best id s)
unfolding IsBest IsFirstLeast better
better-IsBest seen none id s h = ([], ([], (ap (λ l. l ++ (id, s) ∷ []) h, (tt, tt))))
better-IsBest seen (some (id', s')) id s (before, (after, (eq, (more, least)))) =
    elim (Bool-cases (ltb s s')) [
      | inl h ↦ subst (IsBest (seen ++ (id, s) ∷ [])) (better_less id' s' id s h) (
        seen,
        (
          [],
          (
            refl,
            (
              subst (All (λ y. s < y.1)) (sym eq)
                  (All-before s id' s' before after (ltb→lt s s' h) more least),
              tt,
            ),
          ),
        ),
      )
      | inr h ↦ subst (IsBest (seen ++ (id, s) ∷ [])) (better_keep id' s' id s h) (
        before,
        (
          after ++ (id, s) ∷ [],
          (
            ap (λ l. l ++ (id, s) ∷ []) eq ∙ append_assoc before ((id', s') ∷ after) ((id, s) ∷ []),
            (more, All-append (λ y. s' ≤ y.1) after ((id, s) ∷ []) least (ltb→ge s s' h, tt)),
          ),
        ),
      )
    ]

fold-IsBest :
    (seen : List (ℕ × ℕ)) (best : Option (ℕ × ℕ)) (xs : List (ℕ × ℕ))
    → IsBest seen best
    → IsBest (seen ++ xs) (fold best xs)
unfolding fold
fold-IsBest seen best [] h = subst (λ l. IsBest l best) (sym (append-nil seen)) h
fold-IsBest seen best ((id, s) ∷ xs) h =
    subst (λ l. IsBest l (fold best ((id, s) ∷ xs))) (append_assoc seen ((id, s) ∷ []) xs)
      (fold-IsBest (seen ++ (id, s) ∷ []) (better best id s) xs (better-IsBest seen best id s h))

chosen : Option (ℕ × ℕ) → Option ℕ
chosen none = none
chosen (some x) = some x.0

-- What the answer says of the eligible candidates.
unfoldable pub IsLeastLoaded : List (ℕ × ℕ) → Option ℕ → Type 0
unfolding IsFirstLeast
IsLeastLoaded xs none = xs ≡ []
IsLeastLoaded xs (some id) = (s : ℕ) × IsFirstLeast xs (id, s)

chosen-IsLeastLoaded :
    (xs : List (ℕ × ℕ)) (best : Option (ℕ × ℕ))
    → IsBest xs best
    → IsLeastLoaded xs (elim best [ none ↦ none | some x ↦ some (x.0) ])
unfolding IsBest IsLeastLoaded
chosen-IsLeastLoaded xs none h = h
chosen-IsLeastLoaded xs (some x) h = (x.1, h)

-- The least-loaded policy answers a device exactly as a search for the first of the least loads among the eligible
-- devices: none when no device is eligible, and else the first eligible one whose load is least.
pub choose_least_loaded_lem :
    (hints : PlacementHints) (cs : List (ℕ × DeviceLoad))
    → IsLeastLoaded (eligible hints cs) (choose_least_loaded hints cs)
unfolding choose_least_loaded IsBest
choose_least_loaded_lem hints cs =
    chosen-IsLeastLoaded (eligible hints cs) (choose_loop hints none cs) (
      subst (IsBest (eligible hints cs)) (sym (choose_loop-fold hints none cs))
        (fold-IsBest [] none (eligible hints cs) refl))
