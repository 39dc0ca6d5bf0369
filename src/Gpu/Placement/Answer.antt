-- ===== src/Gpu/Placement/Answer.antt =====
-- placement/mod.rs: what the actor answers to a pick.
use mathlib.Core.Path.{subst}
use atomr_accel.Common.{
  ℕ, suc, ◌≡◌, refl, sym, ap, ◌∙◌, true, false, ◌==◌, Option, none, some, List, [], ◌∷◌, ◌++◌, mem,
  IsDistinct, get_elem?, arith, Bool-cases, inl, inr, ◌⊎◌,
}
use atomr_accel.Gpu.Error.{unrecoverable, Result, ok, err}
use atomr_accel.Gpu.Device.Messages.{DeviceLoad}
use atomr_accel.Gpu.Placement.Choice.{eligible, IsLeastLoaded, choose_least_loaded_lem}
use atomr_accel.Gpu.Placement.{
  PlacementHints, DeviceChoice, PlacementActor, choose_least_loaded, is_eligible, least_loaded,
  choose, zip_loads, new, PlacementMsg, handle_pick, run, no_device, device_choice, position,
}
use atomr_accel.Gpu.Placement.Reported.{IsSized, run-IsSized, new-IsSized, new_policy, run-policy}

-- The device and the load of the answer stand at one place of the two tables, and the load is eligible.
unfoldable pub IsGood : PlacementHints → PlacementActor → DeviceChoice → Type 0
IsGood hints a c =
    (n : ℕ) × ((get_elem? a.devices n ≡ some (c.device_id, c.device))
      × ((get_elem? a.loads n ≡ some c.load) × (is_eligible hints c.load ≡ true)))

-- No panic, and what the answer says.
unfoldable pub IsAnswer : PlacementHints → PlacementActor → Option (Result DeviceChoice) → Type 0
unfolding IsGood
IsAnswer hints a none = ⊥
IsAnswer hints a (some (err e)) =
    (e ≡ unrecoverable no_device) × (eligible hints (zip_loads a.devices a.loads) ≡ [])
IsAnswer hints a (some (ok c)) = IsGood hints a c

unfoldable pub ids : List (ℕ × ℕ) → List ℕ
ids [] = []
ids (d ∷ ds) = d.0 ∷ ids ds

Has : ℕ → List (ℕ × ℕ) → Type 0
Has id [] = ⊥
Has id (y ∷ ys) = (y.0 ≡ id) ⊎ Has id ys

Has-middle : (id s : ℕ) (before after : List (ℕ × ℕ)) → Has id (before ++ (id, s) ∷ after)
unfolding Has
Has-middle id s [] after = inl refl
Has-middle id s (x ∷ before) after = inr (Has-middle id s before after)

Has-mem :
    (hints : PlacementHints) (id : ℕ) (ds : List (ℕ × ℕ)) (ls : List DeviceLoad)
    → Has id (eligible hints (zip_loads ds ls))
    → mem id (ids ds) ≡ true
unfolding Has eligible zip_loads ids
Has-mem hints id [] ls h = ground (arith, h)
Has-mem hints id (d ∷ ds) [] h = ground (arith, h)
Has-mem hints id (d ∷ ds) (l ∷ ls) h = ground (arith, h, Has-mem hints id ds ls)

-- Where a device that was chosen stands.
Stands : PlacementHints → ℕ → List (ℕ × ℕ) → List DeviceLoad → Type 0
Stands hints id ds ls =
    (n : ℕ) × ((d : ℕ × ℕ) × ((l : DeviceLoad) × ((position id ds ≡ some n)
          × ((get_elem? ds n ≡ some d)
              × ((get_elem? ls n ≡ some l) × ((d.0 ≡ id) × (is_eligible hints l ≡ true)))))))

here-is_eligible :
    (hints : PlacementHints) (id : ℕ) (d : ℕ × ℕ) (ds : List (ℕ × ℕ)) (l : DeviceLoad)
    (ls : List DeviceLoad)
    → mem (d.0) (ids ds) ≡ false
    → (d.0 == id) ≡ true
    → Has id (eligible hints (zip_loads (d ∷ ds) (l ∷ ls)))
    → is_eligible hints l ≡ true
unfolding Has eligible zip_loads ids
here-is_eligible hints id d ds l ls u e h = elim (Bool-cases (is_eligible hints l)) [
  | inl y ↦ y
  | inr n ↦ ground (arith, h, Has-mem hints id ds ls)
]

later-Has :
    (hints : PlacementHints) (id : ℕ) (d : ℕ × ℕ) (ds : List (ℕ × ℕ)) (l : DeviceLoad)
    (ls : List DeviceLoad)
    → (d.0 == id) ≡ false
    → Has id (eligible hints (zip_loads (d ∷ ds) (l ∷ ls)))
    → Has id (eligible hints (zip_loads ds ls))
unfolding Has eligible zip_loads
later-Has hints id d ds l ls e h = ground (arith, h)

Has-Stands :
    (hints : PlacementHints) (id : ℕ) (ds : List (ℕ × ℕ)) (ls : List DeviceLoad)
    → IsDistinct (ids ds)
    → Has id (eligible hints (zip_loads ds ls))
    → Stands hints id ds ls
unfolding Has eligible zip_loads ids position Stands
Has-Stands hints id [] ls u h = ground (arith, h)
Has-Stands hints id (d ∷ ds) [] u h = ground (arith, h)
Has-Stands hints id (d ∷ ds) (l ∷ ls) u h = elim (Bool-cases (d.0 == id)) [
  | inl e ↦ (
    0,
    (
      d,
      (
        l,
        (
          ground (arith, e),
          (refl, (refl, (ground (arith, e), here-is_eligible hints id d ds l ls u.0 e h))),
        ),
      ),
    ),
  )
  | inr e ↦
      let (n, (d', (l', (p, rest)))) =
        Has-Stands hints id ds ls u.1 (later-Has hints id d ds l ls e h) in
      (suc n, (d', (l', (ground (arith, e, p), rest))))
]

device_choice-found :
    (hints : PlacementHints) (a : PlacementActor) (id n : ℕ) (d : ℕ × ℕ) (l : DeviceLoad)
    → position id a.devices ≡ some n
    → get_elem? a.devices n ≡ some d
    → get_elem? a.loads n ≡ some l
    → device_choice a id ≡ some (record { device_id = id; device = d.1; load = l })
unfolding device_choice
device_choice-found hints a id n d l p hd hl = ground (arith, p, hd, hl)

device_choice-IsGood :
    (hints : PlacementHints) (a : PlacementActor) (id : ℕ)
    → Stands hints id a.devices a.loads
    → IsAnswer hints a (elim (device_choice a id) [ none ↦ none | some c ↦ some (ok c) ])
unfolding Stands IsAnswer IsGood
device_choice-IsGood hints a id (n, (d, (l, (p, (hd, (hl, (e, y))))))) =
    subst (λ c. IsAnswer hints a (elim c [ none ↦ none | some c ↦ some (ok c) ]))
      (sym (device_choice-found hints a id n d l p hd hl))
      (n, (hd ∙ ap (λ i. some (i, d.1)) e, (hl, y)))

outcome-IsAnswer :
    (hints : PlacementHints) (a : PlacementActor) (o : Option ℕ)
    → IsDistinct (ids a.devices)
    → IsLeastLoaded (eligible hints (zip_loads a.devices a.loads)) o
    → IsAnswer hints a (elim o [
      | none ↦ some (err (unrecoverable no_device))
      | some n ↦ elim (device_choice a n) [ none ↦ none | some c ↦ some (ok c) ]
    ])
unfolding IsLeastLoaded IsAnswer
outcome-IsAnswer hints a none u h = (refl, h)
outcome-IsAnswer hints a (some id) u (s, (before, (after, (eq, rest)))) =
    device_choice-IsGood hints a id (
      Has-Stands hints id a.devices a.loads u
        (subst (Has id) (sym eq) (Has-middle id s before after)))

handle_pick-IsAnswer :
    (hints : PlacementHints) (a : PlacementActor)
    → IsDistinct (ids a.devices)
    → a.policy ≡ least_loaded
    → IsAnswer hints a ((handle_pick a hints).1)
unfolding handle_pick choose
handle_pick-IsAnswer hints a u p =
    subst
      (λ q. IsAnswer hints a (elim ((choose q hints (zip_loads a.devices a.loads)).1) [
        | none ↦ some (err (unrecoverable no_device))
        | some n ↦ elim (device_choice a n) [ none ↦ none | some c ↦ some (ok c) ]
      ]))
      (sym p)
      (outcome-IsAnswer hints a (choose_least_loaded hints (zip_loads a.devices a.loads)) u
        (choose_least_loaded_lem hints (zip_loads a.devices a.loads)))

-- Devices with distinct ids under the least-loaded policy: after any messages, a pick is answered without a
-- panic. Either no device is eligible and the answer says so, or the answer's id, mailbox and load stand at
-- one place of the actor's tables and the load meets the hints.
pub handle_pick-run :
    (ds : List (ℕ × ℕ)) (ms : List PlacementMsg) (hints : PlacementHints)
    → IsDistinct (ids ds)
    → let a = run (new ds least_loaded) ms in IsAnswer hints a ((handle_pick a hints).1)
unfolding IsSized
handle_pick-run ds ms hints u =
    let a = run (new ds least_loaded) ms in
    let s = run-IsSized ds (new ds least_loaded) ms (new-IsSized ds) in
    handle_pick-IsAnswer hints a (subst (λ l. IsDistinct (ids l)) (sym s.0) u)
      (run-policy (new ds least_loaded) ms (new_policy ds))
