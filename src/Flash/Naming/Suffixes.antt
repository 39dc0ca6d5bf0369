-- ===== src/Flash/Naming/Suffixes.antt =====
-- dispatch.rs: the optional pieces of a kernel's name, and what they say of the key.
use mathlib.Core.List.{append-nil, append_assoc}
use atomr_accel.Common.{
  ℕ, ◌≤◌, ◌≡◌, refl, sym, ap, ◌∙◌, Bool, true, false, Option, none, some, List, [], ◌∷◌, ◌++◌,
  arith, Text, text, decimal, mem, mem-append, ltb, if◌then◌else◌,
}
use atomr_accel.Common.Decimal.{decimal-injective, mem-decimal, cut}
use atomr_accel.Flash.Key.{DispatchKey, window_part}

-- The optional pieces of a name.
pub data Suffix : Type 0 where
  varlen : Suffix
  window : ℕ → Suffix
  alibi : Suffix
  sink : ℕ → Suffix
  paged : Suffix
  gqa : ℕ → Suffix

-- A piece, without the underscore that begins it.
body : Suffix → Text
unfolding text
body varlen = text "varlen"
body (window n) = text "sw" ++ decimal n
body alibi = text "alibi"
body (sink n) = text "sink" ++ decimal n
body paged = text "paged"
body (gqa n) = text "gqa" ++ decimal n

pub render : List Suffix → Text
render [] = []
render (s ∷ ss) = 95 ∷ (body s ++ render ss)

mem-body : (s : Suffix) → mem 95 (body s) ≡ false
unfolding body
mem-body varlen = refl
mem-body (window n) = mem-decimal 95 n (omega arith)
mem-body alibi = refl
mem-body (sink n) = mem-decimal 95 n (omega arith)
mem-body paged = refl
mem-body (gqa n) = mem-decimal 95 n (omega arith)

body-injective : (s t : Suffix) → body s ≡ body t → s ≡ t
unfolding body text
body-injective (window m) (window n) e = ground (arith, decimal-injective m n)
body-injective (sink m) (sink n) e = ground (arith, decimal-injective m n)
body-injective (gqa m) (gqa n) e = ground (arith, decimal-injective m n)
body-injective _ _ e = ground arith

-- A piece ends where the next underscore begins.
body-cut :
    (s t : Suffix) (ss ts : List Suffix)
    → body s ++ render ss ≡ body t ++ render ts
    → (body s ≡ body t) × (render ss ≡ render ts)
unfolding render
body-cut s t [] [] e = (sym (append-nil (body s)) ∙ e ∙ append-nil (body t), refl)
body-cut s t [] (x ∷ ts) e = ground (
  arith,
  mem-body s,
  append-nil (body s),
  mem-append 95 (body t) (render (x ∷ ts)),
  ap (mem 95) e,
)
body-cut s t (x ∷ ss) [] e = ground (
  arith,
  mem-body t,
  append-nil (body t),
  mem-append 95 (body s) (render (x ∷ ss)),
  ap (mem 95) e,
)
body-cut s t (x ∷ ss) (y ∷ ts) e =
    let (same, rest) = cut 95 (body s) (body t) _ _ (mem-body s) (mem-body t) e in
    (same, ap (◌∷◌ 95) rest)

pub render-injective : (ss ts : List Suffix) → render ss ≡ render ts → ss ≡ ts
unfolding render
render-injective [] [] e = refl
render-injective [] (t ∷ ts) e = ground arith
render-injective (s ∷ ss) [] e = ground arith
render-injective (s ∷ ss) (t ∷ ts) e =
    ground (arith, body-cut s t ss ts, body-injective s t, render-injective ss ts)

window_suffix : Option ℕ → List Suffix
window_suffix none = []
window_suffix (some n) = window n ∷ []

pub suffixes : DispatchKey → List Suffix
suffixes k =
    (if k.varlen then varlen ∷ [] else [])
    ++ (window_suffix k.sliding_window
        ++ ((if k.alibi then alibi ∷ [] else [])
            ++ ((if ltb 0 k.sink then sink k.sink ∷ [] else [])
                ++ ((if k.paged then paged ∷ [] else [])
                    ++ (if ltb 1 k.gqa_ratio then gqa k.gqa_ratio ∷ [] else [])))))

render-append : (ss ts : List Suffix) → render (ss ++ ts) ≡ render ss ++ render ts
unfolding render
render-append [] ts = refl
render-append (s ∷ ss) ts = simp (render-append ss ts, append_assoc)

-- The optional pieces as the code pushes them.
unfoldable pub tail : DispatchKey → Text
unfolding text
tail k =
    (if k.varlen then text "_varlen" else [])
    ++ (window_part k.sliding_window
        ++ ((if k.alibi then text "_alibi" else [])
            ++ ((if ltb 0 k.sink then text "_sink" ++ decimal k.sink else [])
                ++ ((if k.paged then text "_paged" else [])
                    ++ (if ltb 1 k.gqa_ratio then text "_gqa" ++ decimal k.gqa_ratio else [])))))

render-flag :
    (b : Bool) (s : Suffix) → render (if b then s ∷ [] else []) ≡ (if b then 95 ∷ body s else [])
unfolding render
render-flag true s = simp append-nil
render-flag false s = refl

render-window : (o : Option ℕ) → render (window_suffix o) ≡ window_part o
unfolding render window_suffix window_part body
render-window none = refl
render-window (some n) = simp append-nil

pub tail-render : (k : DispatchKey) → tail k ≡ render (suffixes k)
unfolding tail suffixes body
tail-render k = simp (render-append, render-flag, render-window)

-- What the pieces of a name say of the key.
pub has_varlen : List Suffix → Bool
has_varlen [] = false
has_varlen (varlen ∷ ss) = true
has_varlen (_ ∷ ss) = has_varlen ss

pub has_alibi : List Suffix → Bool
has_alibi [] = false
has_alibi (alibi ∷ ss) = true
has_alibi (_ ∷ ss) = has_alibi ss

pub has_paged : List Suffix → Bool
has_paged [] = false
has_paged (paged ∷ ss) = true
has_paged (_ ∷ ss) = has_paged ss

pub find_window : List Suffix → Option ℕ
find_window [] = none
find_window (window n ∷ ss) = some n
find_window (_ ∷ ss) = find_window ss

pub find_sink : List Suffix → ℕ
find_sink [] = 0
find_sink (sink n ∷ ss) = n
find_sink (_ ∷ ss) = find_sink ss

pub find_gqa : List Suffix → ℕ
find_gqa [] = 1
find_gqa (gqa n ∷ ss) = n
find_gqa (_ ∷ ss) = find_gqa ss

pub suffixes-fields :
    (k : DispatchKey)
    → 1 ≤ k.gqa_ratio
    → (has_varlen (suffixes k) ≡ k.varlen)
      × (find_window (suffixes k) ≡ k.sliding_window)
      × (has_alibi (suffixes k) ≡ k.alibi)
      × (find_sink (suffixes k) ≡ k.sink)
      × (has_paged (suffixes k) ≡ k.paged)
      × (find_gqa (suffixes k) ≡ k.gqa_ratio)
unfolding suffixes window_suffix has_varlen has_alibi has_paged find_window find_sink find_gqa
suffixes-fields k h = ground arith
