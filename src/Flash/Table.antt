-- ===== src/Flash/Table.antt =====
-- dispatch.rs: the table of kernel names. The hash map is a list of entries, newest key last.
pub mod Faithful
use atomr_accel.Common.{
  ℕ, ◌≡◌, refl, ◌↔◌, Bool, true, false, not, ◌&&◌, Option, none, some, List, [], ◌∷◌, arith, Text,
  ◌==◌, if◌then◌else◌, All, length, Bool-cases, inl, inr,
}
use atomr_accel.Flash.Key.{
  SmArch, sm80, sm89, sm90a, sm100, DType, f16, bf16, f8_e4m3, f8_e5m2, DispatchKey, DispatchError,
  unknown_key, Result, ok, err, ◌>>=◌, ◌>>◌, validate_fwd, kernel_name,
}

arch_number : SmArch → ℕ
arch_number sm80 = 0
arch_number sm89 = 1
arch_number sm90a = 2
arch_number sm100 = 3

dtype_number : DType → ℕ
dtype_number f16 = 0
dtype_number bf16 = 1
dtype_number f8_e4m3 = 2
dtype_number f8_e5m2 = 3

bool_eq : Bool → Bool → Bool
bool_eq true b = b
bool_eq false b = not b

window_eq : Option ℕ → Option ℕ → Bool
window_eq none none = true
window_eq (some m) (some n) = m == n
window_eq _ _ = false

-- The derived `Eq` of a key.
unfoldable pub key_eq : DispatchKey → DispatchKey → Bool
unfolding arch_number dtype_number bool_eq window_eq
key_eq j k =
    arch_number j.arch == arch_number k.arch
    && (dtype_number j.dtype == dtype_number k.dtype
        && (j.head_dim == k.head_dim
            && (bool_eq j.causal k.causal
                && (bool_eq j.varlen k.varlen
                    && (window_eq j.sliding_window k.sliding_window
                        && (bool_eq j.alibi k.alibi
                            && (j.sink == k.sink
                                && (bool_eq j.paged k.paged && j.gqa_ratio == k.gqa_ratio))))))))

abbrev pub Entries : Type 0
Entries = List (DispatchKey × Text)

unfoldable pub get : DispatchKey → Entries → Option Text
get k [] = none
get k ((j, name) ∷ es) = if key_eq j k then some name else get k es

unfoldable pub insert : DispatchKey → Text → Entries → Entries
insert k name [] = (k, name) ∷ []
insert k name ((j, other) ∷ es) =
    if key_eq j k then (j, name) ∷ es else (j, other) ∷ insert k name es

abbrev is_ok : Result DispatchError (Unit {0}) → Bool
is_ok (ok u) = true
is_ok (err e) = false

-- The body of the loops of `build`.
unfoldable pub register : DispatchKey → Entries → Entries
unfolding insert
register k es = if is_ok (validate_fwd k) then insert k (kernel_name k) es else es

unfoldable pub plain : SmArch → DType → ℕ → Bool → DispatchKey
plain arch dtype head_dim causal = record {
  arch = arch;
  dtype = dtype;
  head_dim = head_dim;
  causal = causal;
  varlen = false;
  sliding_window = none;
  alibi = false;
  sink = 0;
  paged = false;
  gqa_ratio = 1;
}

-- `for x in xs { body }`.
unfoldable pub for_each : {A T : Type 0} → List A → (A → T → T) → T → T
for_each [] body t = t
for_each (x ∷ xs) body t = for_each xs body (body x t)

abbrev both : List Bool
both = false ∷ true ∷ []

unfoldable pub common_cells : Entries → Entries
common_cells = for_each (sm80 ∷ sm89 ∷ sm90a ∷ sm100 ∷ []) λ arch.
    for_each (f16 ∷ bf16 ∷ []) λ dtype.
      for_each (64 ∷ 80 ∷ 96 ∷ 128 ∷ 192 ∷ 256 ∷ [])
        λ head_dim. for_each both λ causal. register (plain arch dtype head_dim causal)

unfoldable pub fp8_cells : Entries → Entries
fp8_cells = for_each (f8_e4m3 ∷ f8_e5m2 ∷ []) λ dtype. for_each (64 ∷ 128 ∷ 256 ∷ []) λ head_dim.
    for_each (sm90a ∷ sm100 ∷ [])
      λ arch. for_each both λ causal. register (plain arch dtype head_dim causal)

-- `fp8` is the crate's feature of that name.
unfoldable pub build : Bool → Entries
build fp8 = if fp8 then fp8_cells (common_cells []) else common_cells []

hit_or_name : DispatchKey → Option Text → Text
hit_or_name k (some name) = name
hit_or_name k none = kernel_name k

unfoldable pub lookup : Bool → DispatchKey → Result DispatchError Text
unfolding hit_or_name
lookup fp8 k = do validate_fwd k; ok (hit_or_name k (get k (build fp8)))

or_unknown : DispatchKey → Option Text → Result DispatchError Text
or_unknown k (some name) = ok name
or_unknown k none = err (unknown_key k)

unfoldable pub strict_lookup : Bool → DispatchKey → Result DispatchError Text
unfolding or_unknown
strict_lookup fp8 k = or_unknown k (get k (build fp8))

unfoldable pub len : Bool → ℕ
len fp8 = length (build fp8)
