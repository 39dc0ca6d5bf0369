-- ===== src/Cutlass/Examples.antt =====
-- Concrete requests of crates/atomr-accel-cutlass, keyed and handled with the smallest cache there can be.
use atomr_accel.Common.{
  ℕ, ◌+◌, ◌*◌, ◌%◌, ◌≡◌, ◌⊎◌, inl, inr, refl, Bool, true, ◌&&◌, Option, none, some, [], ◌∷◌, Text,
  arith, ◌==◌, if◌then◌else◌, Bool-cases, sym,
}
use atomr_accel.Cutlass.Dtype.{f16, bf16, sm80, sm90a}
use atomr_accel.Cutlass.Gemm.{linear_relu, summary, max_of}
use atomr_accel.Cutlass.Key.{PlanKey}
use atomr_accel.Cutlass.Cancel.{fit, none_left}
use atomr_accel.Cutlass.Lanes
use atomr_accel.Cutlass.Lanes.All.{Fits}
use atomr_accel.Cutlass.Requests.{
  GemmRequest, GroupedGemmRequest, gemm, grouped_gemm, new_gemm, new_grouped, with_epilogue,
  plan_key,
}
use atomr_accel.Cutlass.Actor.{
  CachedPlan, LruCache, gemm_msg, grouped_msg, refit, replied_ok, message_of, handle, run,
  new_actor,
}
use atomr_accel.Cutlass.Actor.Again.{handle-again}
use atomr_accel.Cutlass.Actor.Rendered.{IsLru, no_messages, message, gemm_carries}
use atomr_accel.Cutlass.Actor.Served.{Served, handle-Served}

abbrev key_eq : PlanKey → PlanKey → Bool
key_eq j k =
    (j.template_id == k.template_id)
    && ((j.payload_0 == k.payload_0)
        && ((j.payload_1 == k.payload_1) && (j.payload_2 == k.payload_2)))

key_eq_refl : (k : PlanKey) → key_eq k k ≡ true
key_eq_refl k = ground arith

key_eq_sound : (j k : PlanKey) → key_eq j k ≡ true → j ≡ k
key_eq_sound j k e =
    let a : j.template_id ≡ k.template_id = ground arith in
    let b : j.payload_0 ≡ k.payload_0 = ground arith in
    let c : j.payload_1 ≡ k.payload_1 = ground arith in
    let d : j.payload_2 ≡ k.payload_2 = ground arith in
    λ i. record { template_id = a i; payload_0 = b i; payload_1 = c i; payload_2 = d i }

abbrev Slot : Type 0
Slot = Option (PlanKey × CachedPlan)

abbrev slot_get : Slot → PlanKey → Option CachedPlan
slot_get none k = none
slot_get (some (j, p)) k = if key_eq j k then some p else none

abbrev one_slot : LruCache Slot
one_slot = record {
  new_lru = λ n. none;
  get_lru = λ c k. (slot_get c k, c);
  put_lru = λ c k p. some (k, p);
  clear_lru = λ c. none;
  len_lru = λ c. elim c [ none ↦ 0 | some e ↦ 1 ];
}

one_slot-put :
    (c : Slot) (k : PlanKey) (p : CachedPlan) (j : PlanKey)
    → (slot_get (some (k, p)) j ≡ none)
      ⊎ (slot_get (some (k, p)) j ≡ slot_get c j)
      ⊎ ((j ≡ k) × (slot_get (some (k, p)) j ≡ some p))
one_slot-put c k p j = elim (Bool-cases (key_eq k j)) [
  | inl same ↦ inr (inr (sym (key_eq_sound k j same), rw same refl))
  | inr other ↦ inl (rw other refl)
]

abbrev one_slot-IsLru : IsLru one_slot
one_slot-IsLru = record {
  peek = slot_get;
  peek-new = λ n k. refl;
  get_value = λ c k. refl;
  get_keeps = λ c k j. refl;
  put_value = λ c k p. rw (key_eq_refl k) refl;
  put_others = one_slot-put;
}

-- A hash for the examples.
abbrev checksum : Text → ℕ
checksum [] = 7
checksum (b ∷ s) = (checksum s * 31 + b) % 1000003

abbrev half : GemmRequest
half =
    with_epilogue (new_gemm f16 (record { m = 128; n = 64; k = 32 }) sm90a)
      (linear_relu 0x3F800000 0x40000000)

abbrev groups : GroupedGemmRequest
groups =
    new_grouped bf16 (record { m = 64; n = 64; k = 64 } ∷ record { m = 128; n = 32; k = 64 } ∷ [])
      sm80

half-Fits : Fits (gemm half)
unfolding Fits new_gemm with_epilogue
half-Fits =
    fit (omega arith)
      (fit (omega arith) (fit (omega arith) (fit (omega arith) (fit (omega arith) none_left))))

groups-Fits : Fits (grouped_gemm groups)
unfolding Fits new_grouped summary max_of
groups-Fits =
    fit (omega arith) (fit (omega arith) (fit (omega arith) (fit (omega arith) none_left)))

gemm_hasher-injective_example : half ≡ half
unfolding Fits
gemm_hasher-injective_example = Lanes.Gemm.gemm_hasher-injective half half half-Fits half-Fits refl

handle-Served_example :
    Served one_slot one_slot-IsLru checksum (gemm_msg half ∷ []) (grouped_gemm groups) (
      (handle one_slot checksum
        (run one_slot checksum (new_actor one_slot 64 none) (gemm_msg half ∷ []))
        (grouped_msg groups)).0)
handle-Served_example =
    handle-Served one_slot one_slot-IsLru checksum 64 none (gemm_msg half ∷ [])
      (grouped_gemm groups) (message (gemm_carries half-Fits) no_messages) groups-Fits

handle-again_example :
    let s' = (handle one_slot checksum (new_actor one_slot 64 none) (message_of (gemm half))).0 in
    ((handle one_slot checksum s' (message_of (gemm half))).1 ≡ [])
    × ((handle one_slot checksum s' (refit (plan_key checksum (gemm half)) [])).1 ≡ replied_ok ∷ [])
handle-again_example =
    handle-again one_slot one_slot-IsLru checksum (new_actor one_slot 64 none) (gemm half) []
