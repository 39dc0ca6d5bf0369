-- ===== src/Cutlass/Lanes/Grouped.antt =====
-- crates/atomr-accel-cutlass/src/plan_cache.rs: what `PlanKey::grouped_gemm` writes.
use atomr_accel.Common.{
  ℕ, ◌%◌, ◌^◌, ◌≡◌, refl, sym, ap, ◌∙◌, List, [], ◌∷◌, ◌++◌, append_assoc, arith, Text, length,
}
use atomr_accel.Cutlass.Dtype.{dtype_name}
use atomr_accel.Cutlass.Gemm.{summary, epilogue_name, grouped_name}
use atomr_accel.Cutlass.Cancel.{
  Fit, fit, none_left, words, layouts_text, arch_text, types_text, words-same, layouts-same,
  types-same, arch-same, grouped-same,
}
use atomr_accel.Cutlass.Key.{
  new_hasher, add_u8, add_u32, add_str, add_types, add_layouts, grouped_hasher,
}
use atomr_accel.Cutlass.Lanes.{seed, seed-same}
use atomr_accel.Cutlass.Requests.{GroupedGemmRequest, grouped_gemm, hasher}
use atomr_accel.Cutlass.Render.{grouped_source}

abbrev pub numbers : GroupedGemmRequest → List ℕ
numbers r =
    (summary r.shape).max_m
    ∷ (summary r.shape).max_n
    ∷ (summary r.shape).max_k
    ∷ (summary r.shape).group_count % 2 ^ 32
    ∷ []

abbrev pub last : GroupedGemmRequest → Text
last r = arch_text r.arch r.persistent (epilogue_name r.epilogue)

abbrev pub types : GroupedGemmRequest → Text
types r = types_text r.accum_dtype r.output_dtype (last r)

abbrev pub element : GroupedGemmRequest → Text
element r = grouped_name r.grouped_layout ++ (dtype_name r.dtype ++ types r)

abbrev pub layouts : GroupedGemmRequest → Text
layouts r = layouts_text r.layout_a r.layout_b r.layout_c (element r)

pub lane :
    (r : GroupedGemmRequest) → (hasher (grouped_gemm r)).a ≡ seed ++ words (numbers r) (layouts r)
unfolding hasher grouped_hasher new_hasher add_u32 add_u8 add_str add_layouts add_types
lane r = simp (append_assoc)

-- The greatest sizes and the number of groups.
abbrev pub all_numbers : GroupedGemmRequest → List ℕ
all_numbers r =
    (summary r.shape).max_m
    ∷ (summary r.shape).max_n
    ∷ (summary r.shape).max_k
    ∷ length r.shape
    ∷ []

-- A count that fits is written whole.
counted :
    (r : GroupedGemmRequest)
    → Fit (all_numbers r)
    → (hasher (grouped_gemm r)).a ≡ seed ++ words (all_numbers r) (layouts r)
unfolding summary
counted r (fit m (fit n (fit k (fit c none_left)))) =
    lane r
    ∙ ap
        (λ v.
          seed
          ++ words
              ((summary r.shape).max_m ∷ (summary r.shape).max_n ∷ (summary r.shape).max_k ∷ v ∷ [])
              (layouts r))
        (omega arith)

-- The bytes give all that the source is made of.
pub grouped_source-same :
    (r q : GroupedGemmRequest)
    → Fit (all_numbers r)
    → Fit (all_numbers q)
    → (hasher (grouped_gemm r)).a ≡ (hasher (grouped_gemm q)).a
    → (name : Text) → grouped_source r name ≡ grouped_source q name
unfolding grouped_source
grouped_source-same r q hr hq e name =
    let w = words-same (all_numbers r) (all_numbers q) (layouts r) (layouts q) refl hr hq (
      seed-same (words (all_numbers r) (layouts r)) (words (all_numbers q) (layouts q))
        (sym (counted r hr) ∙ e ∙ counted q hq)) in
    let l =
      layouts-same r.layout_a r.layout_b r.layout_c q.layout_a q.layout_b q.layout_c (element r)
        (element q) (w.1) in
    let d =
      grouped-same r.grouped_layout q.grouped_layout r.dtype q.dtype (types r) (types q) (l.3) in
    let t =
      types-same r.accum_dtype r.output_dtype q.accum_dtype q.output_dtype (last r) (last q)
        (d.2) in
    let a =
      arch-same r.arch q.arch r.persistent q.persistent (epilogue_name r.epilogue)
        (epilogue_name q.epilogue) (t.2) in
    cc (w.0, l.0, l.1, l.2, d.0, d.1, t.0, t.1, a.0)
