-- ===== src/Flash/Naming.antt =====
-- dispatch.rs: what a kernel's name says of its key.
mod Suffixes
mod Head
use mathlib.Core.List.{append-nil, append_assoc}
use atomr_accel.Common.{
  ℕ, ◌≤◌, ◌≡◌, refl, sym, ap, ◌∙◌, ◌↔◌, Bool, true, false, Option, none, some, List, [], ◌∷◌, ◌++◌,
  arith, Text, text, decimal, mem, mem-append, ltb, if◌then◌else◌, get_elem?,
}
use atomr_accel.Common.Decimal.{decimal-injective, mem-decimal, cut}
use atomr_accel.Flash.Key.{
  SmArch, sm80, sm89, sm90a, sm100, DType, f16, bf16, f8_e4m3, f8_e5m2, supports_fa3, DispatchKey,
  tag, kind, causal_tag, window_part, kernel_name,
}
use Suffixes.{
  suffixes, render, render-injective, tail, tail-render, has_varlen, has_alibi, has_paged,
  find_window, find_sink, find_gqa, suffixes-fields,
}
use Head.{base, base-cut}

kernel_name-base : (k : DispatchKey) → kernel_name k ≡ base k ++ tail k
unfolding kernel_name base tail
kernel_name-base k = simp append_assoc

kernel_name-arch :
    (k : DispatchKey) (a : SmArch)
    → supports_fa3 a ≡ supports_fa3 k.arch
    → kernel_name (record k { arch = a }) ≡ kernel_name k
unfolding kernel_name kind
kernel_name-arch k a h = rw h

-- Two keys with a positive grouping ratio have one kernel name exactly when they agree in every
-- field but the architecture, and there in the kernels' generation.
pub kernel_name_iff :
    (j k : DispatchKey)
    → 1 ≤ j.gqa_ratio
    → 1 ≤ k.gqa_ratio
    → (kernel_name j ≡ kernel_name k)
      ↔ ((j ≡ record k { arch = j.arch }) × (supports_fa3 j.arch ≡ supports_fa3 k.arch))
kernel_name_iff j k hj hk = (
  λ e.
      let (gen, dtype, dim, causal, tails) =
        base-cut j k (tail j) (tail k) (sym (kernel_name-base j) ∙ e ∙ kernel_name-base k) in
      let same =
        render-injective (suffixes j) (suffixes k) (sym (tail-render j) ∙ tails ∙ tail-render k) in
      ground (
        arith,
        suffixes-fields j hj,
        suffixes-fields k hk,
        ap has_varlen same,
        ap has_alibi same,
        ap has_paged same,
        ap find_window same,
        ap find_sink same,
        ap find_gqa same,
      ),
  λ h. ap kernel_name h.0 ∙ kernel_name-arch k j.arch h.1,
)
