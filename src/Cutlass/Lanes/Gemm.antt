-- ===== src/Cutlass/Lanes/Gemm.antt =====
-- crates/atomr-accel-cutlass/src/plan_cache.rs: what `PlanKey::gemm` writes.
use atomr_accel.Common.{ℕ, ◌≡◌, refl, sym, ◌∙◌, List, [], ◌∷◌, ◌++◌, append_assoc, Text}
use atomr_accel.Cutlass.Dtype.{dtype_name}
use atomr_accel.Cutlass.Gemm.{epilogue_name}
use atomr_accel.Cutlass.Cancel.{
  alpha, beta, Fit, fit, none_left, words, layouts_text, arch_text, types_text, words-same,
  layouts-same, types-same, dtype-same, arch-same, epilogue-same, nth,
}
use atomr_accel.Cutlass.Key.{
  le_bytes, new_hasher, add_u8, add_u32, add_str, add_types, add_layouts, gemm_hasher,
}
use atomr_accel.Cutlass.Lanes.{seed, seed-same, factors-lane}
use atomr_accel.Cutlass.Requests.{GemmRequest, gemm, hasher}

abbrev pub numbers : GemmRequest → List ℕ
numbers r = r.shape.m ∷ r.shape.n ∷ r.shape.k ∷ []

abbrev pub epilogue_text : GemmRequest → Text
epilogue_text r =
    epilogue_name r.epilogue ++ (le_bytes 4 (alpha r.epilogue) ++ le_bytes 4 (beta r.epilogue))

abbrev pub last : GemmRequest → Text
last r = arch_text r.arch r.persistent (epilogue_text r)

abbrev pub types : GemmRequest → Text
types r = types_text r.accum_dtype r.output_dtype (last r)

abbrev pub element : GemmRequest → Text
element r = dtype_name r.dtype ++ types r

abbrev pub layouts : GemmRequest → Text
layouts r = layouts_text r.layout_a r.layout_b r.layout_c (element r)

pub lane : (r : GemmRequest) → (hasher (gemm r)).a ≡ seed ++ words (numbers r) (layouts r)
unfolding hasher gemm_hasher new_hasher add_u32 add_u8 add_str add_layouts add_types
lane r = simp (factors-lane, append_assoc)

-- With the bits of the factors.
abbrev pub all_numbers : GemmRequest → List ℕ
all_numbers r = r.shape.m ∷ r.shape.n ∷ r.shape.k ∷ alpha r.epilogue ∷ beta r.epilogue ∷ []

-- Two single GEMM requests are the same in every field, the bits of alpha and beta included, if they write the
-- same bytes to the first of the three hashers, for sizes and bits below 2 ^ 32. Names are written one after
-- another without a separator.
pub gemm_hasher-injective :
    (r q : GemmRequest)
    → Fit (all_numbers r)
    → Fit (all_numbers q)
    → (hasher (gemm r)).a ≡ (hasher (gemm q)).a
    → r ≡ q
gemm_hasher-injective r q (fit rm (fit rn (fit rk (fit ra (fit rb none_left)))))
      (fit qm (fit qn (fit qk (fit qa (fit qb none_left))))) e =
    let w =
      words-same (numbers r) (numbers q) (layouts r) (layouts q) refl
        (fit rm (fit rn (fit rk none_left))) (fit qm (fit qn (fit qk none_left)))
        (seed-same (words (numbers r) (layouts r)) (words (numbers q) (layouts q))
          (sym (lane r) ∙ e ∙ lane q)) in
    let l =
      layouts-same r.layout_a r.layout_b r.layout_c q.layout_a q.layout_b q.layout_c (element r)
        (element q) (w.1) in
    let d = dtype-same r.dtype q.dtype (types r) (types q) (l.3) in
    let t =
      types-same r.accum_dtype r.output_dtype q.accum_dtype q.output_dtype (last r) (last q)
        (d.1) in
    let a =
      arch-same r.arch q.arch r.persistent q.persistent (epilogue_text r) (epilogue_text q) (t.2) in
    let f = epilogue-same r.epilogue q.epilogue ra rb qa qb (a.2) in
    λ i. record {
      dtype = (d.0) i;
      shape = record { m = nth ((w.0) i) 0; n = nth ((w.0) i) 1; k = nth ((w.0) i) 2 };
      layout_a = (l.0) i;
      layout_b = (l.1) i;
      layout_c = (l.2) i;
      epilogue = f i;
      accum_dtype = (t.0) i;
      output_dtype = (t.1) i;
      arch = (a.0) i;
      persistent = (a.1) i;
    }
