-- ===== src/Flash/Table/Faithful.antt =====
-- dispatch.rs: the table agrees with the names that keys compute to.
use atomr_accel.Common.{
  ℕ, ◌≡◌, refl, sym, ap, Bool, true, false, Option, none, some, List, [], ◌∷◌, arith, Text, ==_iff,
  and-true, All, Bool-cases, inl, inr,
}
use atomr_accel.Flash.Key.{
  SmArch, DType, DispatchKey, DispatchError, Result, ok, ◌>>◌, validate_fwd, kernel_name,
}
use atomr_accel.Flash.Table.{
  arch_number, dtype_number, bool_eq, window_eq, key_eq, Entries, get, insert, is_ok, register,
  for_each, plain, common_cells, fp8_cells, build, hit_or_name, lookup,
}

arch_number-injective : (a b : SmArch) → arch_number a ≡ arch_number b → a ≡ b
unfolding arch_number
arch_number-injective a b e = ground arith

dtype_number-injective : (a b : DType) → dtype_number a ≡ dtype_number b → a ≡ b
unfolding dtype_number
dtype_number-injective a b e = ground arith

bool_eq-true : (a b : Bool) → bool_eq a b ≡ true → a ≡ b
unfolding bool_eq
bool_eq-true a b e = ground arith

window_eq-true : (a b : Option ℕ) → window_eq a b ≡ true → a ≡ b
unfolding window_eq
window_eq-true a b e = ground arith

-- Keys that the map takes for one are one.
pub key_eq-true : (j k : DispatchKey) → key_eq j k ≡ true → j ≡ k
unfolding key_eq
key_eq-true j k h =
    let (arch, h1) = and-true _ _ h in
    let (dtype, h2) = and-true _ _ h1 in
    let (dim, h3) = and-true _ _ h2 in
    let (causal, h4) = and-true _ _ h3 in
    let (varlen, h5) = and-true _ _ h4 in
    let (window, h6) = and-true _ _ h5 in
    let (alibi, h7) = and-true _ _ h6 in
    let (sink, h8) = and-true _ _ h7 in
    let (paged, gqa) = and-true _ _ h8 in
    let same_arch = arch_number-injective j.arch k.arch ((==_iff _ _).0 arch) in
    let same_dtype = dtype_number-injective j.dtype k.dtype ((==_iff _ _).0 dtype) in
    let same_dim = (==_iff _ _).0 dim in
    let same_causal = bool_eq-true j.causal k.causal causal in
    let same_varlen = bool_eq-true j.varlen k.varlen varlen in
    let same_window = window_eq-true j.sliding_window k.sliding_window window in
    let same_alibi = bool_eq-true j.alibi k.alibi alibi in
    let same_sink = (==_iff _ _).0 sink in
    let same_paged = bool_eq-true j.paged k.paged paged in
    let same_gqa = (==_iff _ _).0 gqa in
    λ i. record {
      arch = same_arch i;
      dtype = same_dtype i;
      head_dim = same_dim i;
      causal = same_causal i;
      varlen = same_varlen i;
      sliding_window = same_window i;
      alibi = same_alibi i;
      sink = same_sink i;
      paged = same_paged i;
      gqa_ratio = same_gqa i;
    }

-- Every entry's key passes the validation, and its name is the computed one.
abbrev IsFaithful : Entries → Type 0
IsFaithful = All (λ e. (validate_fwd e.0 ≡ ok tt) × (e.1 ≡ kernel_name e.0))

for_each-IsFaithful :
    {A : Type 0} (xs : List A) (body : A → Entries → Entries)
    → ((x : A) (es : Entries) → IsFaithful es → IsFaithful (body x es))
    → (es : Entries) → IsFaithful es
    → IsFaithful (for_each xs body es)
unfolding for_each
for_each-IsFaithful [] body keep es h = h
for_each-IsFaithful (x ∷ xs) body keep es h =
    for_each-IsFaithful xs body keep (body x es) (keep x es h)

insert-IsFaithful :
    (k : DispatchKey) (es : Entries)
    → validate_fwd k ≡ ok tt
    → IsFaithful es
    → IsFaithful (insert k (kernel_name k) es)
unfolding insert
insert-IsFaithful k [] v h = ((v, refl), tt)
insert-IsFaithful k ((j, name) ∷ es) v h = elim (Bool-cases (key_eq j k)) [
  | inl same ↦ rw same ((h.0.0, ap kernel_name (sym (key_eq-true j k same))), h.1)
  | inr other ↦ rw other (h.0, insert-IsFaithful k es v h.1)
]

is_ok-true : (r : Result DispatchError (Unit {0})) → is_ok r ≡ true → r ≡ ok tt
is_ok-true r h = ground arith

register-IsFaithful : (k : DispatchKey) (es : Entries) → IsFaithful es → IsFaithful (register k es)
unfolding register
register-IsFaithful k es h = elim (Bool-cases (is_ok (validate_fwd k))) [
  | inl v ↦ rw v (insert-IsFaithful k es (is_ok-true _ v) h)
  | inr v ↦ rw v h
]

cells-IsFaithful :
    (es : Entries) → IsFaithful es → IsFaithful (common_cells es) × IsFaithful (fp8_cells es)
unfolding common_cells fp8_cells
cells-IsFaithful es h = (
  for_each-IsFaithful _ _
      (λ arch. for_each-IsFaithful _ _ λ dtype.
        for_each-IsFaithful _ _ λ dim.
          for_each-IsFaithful _ _ λ causal. register-IsFaithful (plain arch dtype dim causal))
      es h,
  for_each-IsFaithful _ _
      (λ dtype. for_each-IsFaithful _ _ λ dim.
        for_each-IsFaithful _ _ λ arch.
          for_each-IsFaithful _ _ λ causal. register-IsFaithful (plain arch dtype dim causal))
      es h,
)

build-IsFaithful : (fp8 : Bool) → IsFaithful (build fp8)
unfolding build
build-IsFaithful true = (cells-IsFaithful _ (cells-IsFaithful [] tt).0).1
build-IsFaithful false = (cells-IsFaithful [] tt).0

get-name :
    (k : DispatchKey) (es : Entries) (name : Text)
    → IsFaithful es
    → get k es ≡ some name
    → name ≡ kernel_name k
unfolding get
get-name k [] name h e = cc
get-name k ((j, other) ∷ es) name h e =
    ground (arith, get-name k es name h.1, key_eq-true j k, h.0.1)

hit_or_name-name :
    (k : DispatchKey) (o : Option Text)
    → ((name : Text) → o ≡ some name → name ≡ kernel_name k)
    → hit_or_name k o ≡ kernel_name k
unfolding hit_or_name
hit_or_name-name k none h = refl
hit_or_name-name k (some name) h = h name refl

-- The table, with or without its fp8 cells, is transparent: a look-up gives the key's computed name
-- exactly when the key passes the forward validation, and that validation's error otherwise.
pub lookup_lem :
    (fp8 : Bool) (k : DispatchKey) → lookup fp8 k ≡ (validate_fwd k >> ok (kernel_name k))
unfolding lookup
lookup_lem fp8 k = ap (λ name. validate_fwd k >> ok name) (hit_or_name-name k _ named)
  where
    named : (name : Text) → get k (build fp8) ≡ some name → name ≡ kernel_name k
    named name e = get-name k (build fp8) name (build-IsFaithful fp8) e
