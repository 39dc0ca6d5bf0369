-- ===== src/Cutlass/Lanes/All.antt =====
-- crates/atomr-accel-cutlass/src/plan_cache.rs: requests of any kind whose keys come from the same bytes.
use atomr_accel.Common.{ℕ, ◌≡◌, ap, List, Text, ◌++◌, arith, text}
use atomr_accel.Cutlass.Key.{finish}
use atomr_accel.Cutlass.Cancel.{Fit}
use atomr_accel.Cutlass.Lanes
use atomr_accel.Cutlass.Requests.{Dispatch, gemm, grouped_gemm, conv, hasher, plan_key}
use atomr_accel.Cutlass.Render.{source, kernel_name, render_cu, key_suffix}

-- The values that are `u32` in the source, and the bits of the factors of a single GEMM.
abbrev pub numbers : Dispatch → List ℕ
numbers (gemm r) = Lanes.Gemm.all_numbers r
numbers (grouped_gemm r) = Lanes.Grouped.all_numbers r
numbers (conv k r) = Lanes.Conv.numbers r.shape

unfoldable pub Fits : Dispatch → Type 0
Fits d = Fit (numbers d)

renders :
    (sip : Text → ℕ) (d e : Dispatch)
    → ((name : Text) → source d name ≡ source e name)
    → kernel_name sip d ≡ kernel_name sip e
    → render_cu sip d ≡ render_cu sip e
unfolding render_cu
renders sip d e s n = λ i. ((s (n i)) i, n i)

-- Two requests that have the same key, and wrote the same bytes for it, render the same.
pub render_cu-same :
    (sip : Text → ℕ) (d e : Dispatch)
    → Fits d
    → Fits e
    → plan_key sip d ≡ plan_key sip e
    → (hasher d).a ≡ (hasher e).a
    → render_cu sip d ≡ render_cu sip e
unfolding plan_key finish Fits kernel_name render_cu
render_cu-same sip (gemm r) (gemm q) hd he k h =
    ap (λ r. render_cu sip (gemm r)) (Lanes.Gemm.gemm_hasher-injective r q hd he h)
render_cu-same sip (gemm r) (grouped_gemm q) hd he k h =
    absurd (omega (arith, ap (λ k. k.template_id) k))
render_cu-same sip (gemm r) (conv l q) hd he k h = absurd (omega (arith, ap (λ k. k.template_id) k))
render_cu-same sip (grouped_gemm r) (gemm q) hd he k h =
    absurd (omega (arith, ap (λ k. k.template_id) k))
render_cu-same sip (grouped_gemm r) (grouped_gemm q) hd he k h =
    renders sip (grouped_gemm r) (grouped_gemm q) (Lanes.Grouped.grouped_source-same r q hd he h)
      (ap (λ k. text "atomr_cutlass_grouped_gemm_" ++ key_suffix sip k) k)
render_cu-same sip (grouped_gemm r) (conv l q) hd he k h =
    absurd (omega (arith, ap (λ k. k.template_id) k))
render_cu-same sip (conv l r) (gemm q) hd he k h = absurd (omega (arith, ap (λ k. k.template_id) k))
render_cu-same sip (conv l r) (grouped_gemm q) hd he k h =
    absurd (omega (arith, ap (λ k. k.template_id) k))
render_cu-same sip (conv l r) (conv m q) hd he k h =
    let s = Lanes.Conv.conv_hasher-injective l m r q hd he h in
    λ i. render_cu sip (conv ((s.0) i) ((s.1) i))
