-- ===== src/Cutlass/Actor.antt =====
-- crates/atomr-accel-cutlass/src/plan_cache.rs: `CachedPlan` and `PlanCache`; and actor.rs: `CutlassActor`.
-- The `lru` crate's cache is a record of its operations. No plan has a kernel handle, so that field is
-- left out. `dispatched` is taken to stay within its type.
pub mod Rendered
pub mod Served
pub mod Again
use atomr_accel.Common.{
  ℕ, ◌+◌, max, ◌≡◌, Option, none, some, List, [], ◌∷◌, ◌++◌, Text, Bool, true, false, is_some,
  if◌then◌else◌,
}
use atomr_accel.Cutlass.Key.{PlanKey}
use atomr_accel.Cutlass.Requests.{
  GemmRequest, GroupedGemmRequest, ConvRequest, Dispatch, gemm, grouped_gemm, conv, plan_key,
}
use atomr_accel.Cutlass.Gemm.{ConvKind}
use atomr_accel.Cutlass.Render.{render_cu}

pub record CachedPlan : Type 0 where
  pub key : PlanKey
  pub source : Text
  pub kernel_name : Text

-- What the crate does: a look also marks an entry as used, so it gives a new cache.
pub record LruCache (C : Type 0) : Type 0 where
  pub new_lru : ℕ → C
  pub get_lru : C → PlanKey → Option CachedPlan × C
  pub put_lru : C → PlanKey → CachedPlan → C
  pub clear_lru : C → C
  pub len_lru : C → ℕ

pub record PlanCache (C : Type 0) : Type 0 where
  pub inner : C
  pub capacity : ℕ

-- The sink takes a source and a name, and may fail with a text.
pub record CutlassInner (C : Type 0) : Type 0 where
  pub plan_cache : PlanCache C
  pub compile_sink : Option (Text → Text → Option Text)
  pub dispatched : ℕ

pub data CutlassMsg : Type 0 where
  gemm_msg : GemmRequest → CutlassMsg
  grouped_msg : GroupedGemmRequest → CutlassMsg
  conv_msg : ConvKind → ConvRequest → CutlassMsg
  refit : PlanKey → Text → CutlassMsg

-- The message with a request.
abbrev pub message_of : Dispatch → CutlassMsg
message_of (gemm r) = gemm_msg r
message_of (grouped_gemm r) = grouped_msg r
message_of (conv k r) = conv_msg k r

-- What is seen outside: calls of the sink, warnings, and answers to `Refit`.
pub data Effect : Type 0 where
  compiled : Text → Text → Effect
  warned : Text → Effect
  replied_ok : Effect
  replied_no_plan : PlanKey → Effect

-- The call of the sink, whose failure is a warning only for a single GEMM.
unfoldable pub compile : Option (Text → Text → Option Text) → Bool → Text → Text → List Effect
compile none warns src name = []
compile (some sink) warns src name =
    compiled src name
    ∷ elim (sink src name) [ none ↦ [] | some e ↦ if warns then warned e ∷ [] else [] ]

-- The plan that is made for a request.
unfoldable pub plan_of : (Text → ℕ) → Dispatch → CachedPlan
unfolding plan_key render_cu
plan_of sip d = record {
  key = plan_key sip d;
  source = (render_cu sip d).0;
  kernel_name = (render_cu sip d).1;
}

module _ {C : Type 0} (lru : LruCache C) where
  unfoldable pub new_cache : ℕ → PlanCache C
  new_cache capacity = record { inner = lru.new_lru (max capacity 1); capacity = max capacity 1 }

  unfoldable pub len : PlanCache C → ℕ
  len c = lru.len_lru c.inner

  unfoldable pub get : PlanCache C → PlanKey → Option CachedPlan × PlanCache C
  get c key = let got = lru.get_lru c.inner key in (got.0, record c { inner = got.1 })

  unfoldable pub insert : PlanCache C → CachedPlan → PlanCache C
  insert c plan = record c { inner = lru.put_lru c.inner plan.key plan }

  unfoldable pub clear : PlanCache C → PlanCache C
  clear c = record c { inner = lru.clear_lru c.inner }

  unfoldable pub new_actor : ℕ → Option (Text → Text → Option Text) → CutlassInner C
  unfolding new_cache
  new_actor capacity sink = record {
    plan_cache = new_cache capacity;
    compile_sink = sink;
    dispatched = 0;
  }

module _ {C : Type 0} (lru : LruCache C) (sip : Text → ℕ) where
  -- The arms for the three kinds of requests.
  unfoldable pub dispatch : CutlassInner C → Bool → Dispatch → CutlassInner C × List Effect
  unfolding get insert compile plan_of plan_key render_cu
  dispatch s warns d =
      let got = get lru s.plan_cache (plan_key sip d) in
      if is_some (got.0) then (record s { plan_cache = got.1 }, []) else (
        record s { plan_cache = insert lru (got.1) (plan_of sip d) },
        compile s.compile_sink warns ((render_cu sip d).0) ((render_cu sip d).1),
      )

  unfoldable pub handle_refit : CutlassInner C → PlanKey → CutlassInner C × List Effect
  unfolding get
  handle_refit s key =
      let got = get lru s.plan_cache key in
      (
        record s { plan_cache = got.1 },
        (if is_some (got.0) then replied_ok else replied_no_plan key) ∷ [],
      )

  unfoldable pub handle : CutlassInner C → CutlassMsg → CutlassInner C × List Effect
  unfolding dispatch handle_refit
  handle s (gemm_msg r) = dispatch (record s { dispatched = s.dispatched + 1 }) true (gemm r)
  handle s (grouped_msg r) =
      dispatch (record s { dispatched = s.dispatched + 1 }) false (grouped_gemm r)
  handle s (conv_msg k r) = dispatch (record s { dispatched = s.dispatched + 1 }) false (conv k r)
  handle s (refit key weights) = handle_refit (record s { dispatched = s.dispatched + 1 }) key

  -- A mailbox, message after message.
  abbrev pub run : CutlassInner C → List CutlassMsg → CutlassInner C
  run s [] = s
  run s (m ∷ ms) = run ((handle s m).0) ms
