-- ===== src/Gpu/P2p/Linked.antt =====
-- p2p/mod.rs: walks over links in either direction, and the stack of linked devices.
use atomr_accel.Common.{
  ℕ, zero, suc, ◌+◌, ◌≤◌, ◌<◌, ◌≡◌, refl, ap, ◌∙◌, Bool, true, false, not, ◌&&◌, ◌||◌, leb, ltb,
  List, [], ◌∷◌, length, mem, set, ◌==◌, if◌then◌else◌, arith,
}
use atomr_accel.Gpu.P2p.{P2pGraph, flag, linked, push_linked, repeat}

pub record Adjacent (g : P2pGraph) (a b : ℕ) : Type 0 where
  pub first : a < g.device_count
  pub second : b < g.device_count
  pub link : linked g a b ≡ true

-- Some walk leads from `a` to `b`.
pub data Connected (g : P2pGraph) (a : ℕ) : ℕ → Type 0 where
  here : Connected g a a
  step : {b c : ℕ} → Connected g a b → Adjacent g b c → Connected g a c

linked_comm : (g : P2pGraph) (a b : ℕ) → linked g a b ≡ linked g b a
unfolding linked
linked_comm g a b = ground arith

pub Adjacent-sym : (g : P2pGraph) (a b : ℕ) → Adjacent g a b → Adjacent g b a
Adjacent-sym g a b h = record {
  first = h.second;
  second = h.first;
  link = linked_comm g b a ∙ h.link;
}

pub Connected-trans :
    (g : P2pGraph) (a b : ℕ) {c : ℕ} → Connected g a b → Connected g b c → Connected g a c
Connected-trans g a b p here = p
Connected-trans g a b p (step q e) = step (Connected-trans g a b p q) e

pub Connected-sym : (g : P2pGraph) (a : ℕ) {b : ℕ} → Connected g a b → Connected g b a
Connected-sym g a here = here
Connected-sym g a (step {b} {c} q e) =
    Connected-trans g c b (step here (Adjacent-sym g b c e)) (Connected-sym g a q)

pub flag-set :
    (bs : List Bool) (i v : ℕ) → i < length bs → flag (set bs i true) v ≡ (i == v || flag bs v)
flag-set [] i v h = let no : ⊥ = omega (arith, h) in elim no [ ]
flag-set (b ∷ bs) zero zero h = refl
flag-set (b ∷ bs) zero (suc v) h = ground arith
flag-set (b ∷ bs) (suc i) zero h = ground arith
flag-set (b ∷ bs) (suc i) (suc v) h = ground (arith, flag-set bs i v)

-- The flags that are still down.
abbrev pub unseen : List Bool → ℕ
unseen [] = 0
unseen (false ∷ bs) = suc (unseen bs)
unseen (true ∷ bs) = unseen bs

pub unseen-set :
    (bs : List Bool) (i : ℕ)
    → i < length bs
    → flag bs i ≡ false
    → unseen (set bs i true) + 1 ≡ unseen bs
unseen-set [] i h e = let no : ⊥ = omega (arith, h) in elim no [ ]
unseen-set (false ∷ bs) zero h e = omega arith
unseen-set (true ∷ bs) zero h e = cc
unseen-set (false ∷ bs) (suc i) h e = omega (arith, unseen-set bs i (omega (arith, h)) e)
unseen-set (true ∷ bs) (suc i) h e = unseen-set bs i (omega (arith, h)) e

pub flag-repeat : (n v : ℕ) → flag (repeat n) v ≡ false
unfolding repeat
flag-repeat zero v = refl
flag-repeat (suc n) zero = refl
flag-repeat (suc n) (suc v) = flag-repeat n v

pub length-repeat : (n : ℕ) → length (repeat n) ≡ n
unfolding repeat
length-repeat zero = refl
length-repeat (suc n) = ap suc (length-repeat n)

pub unseen-repeat : (n : ℕ) → unseen (repeat n) ≡ n
unfolding repeat
unseen-repeat zero = refl
unseen-repeat (suc n) = ap suc (unseen-repeat n)

pub mem-push_linked :
    (g : P2pGraph) (visited : List Bool) (j k m : ℕ) (stack : List ℕ) (v : ℕ)
    → mem v (push_linked g visited j k m stack)
      ≡ (mem v stack || leb k v && ltb v (k + m) && not (flag visited v) && linked g j v)
unfolding push_linked
mem-push_linked g visited j k zero stack v = ground arith
mem-push_linked g visited j k (suc m) stack v = ground (
  arith,
  mem-push_linked g visited j (k + 1) m
      (if not (flag visited k) && linked g j k then k ∷ stack else stack) v,
)

pub length-push_linked :
    (g : P2pGraph) (visited : List Bool) (j k m : ℕ) (stack : List ℕ)
    → length (push_linked g visited j k m stack) ≤ m + length stack
unfolding push_linked
length-push_linked g visited j k zero stack = omega arith
length-push_linked g visited j k (suc m) stack = ground (
  arith,
  length-push_linked g visited j (k + 1) m
      (if not (flag visited k) && linked g j k then k ∷ stack else stack),
)
