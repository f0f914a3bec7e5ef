-- ===== src/Base/Memory.antt =====
-- Bytes in memory, and `memcmp` on two areas of one length.
use Prim.Native.Nat.{ℕ, compare, Ordering}
use mathlib.Core.Path.{◌≡◌, refl}
use mathlib.Core.List.{List, [], ◌∷◌}
use mathlib.Core.Bool.{Bool, true, false}
use mathlib.Core.Logic.{◌↔◌, ◌≢◌, ◌⊎◌, inl, inr}
use native.Mathlib.Omega.{arith}
use dtndht.Base.Tests.{Bool-cases}

abbrev pub Bytes : Type 0
Bytes = List ℕ

-- Lexicographic, as `memcmp` is; the program compares areas of one length only, so that a shorter
-- area comes first matters to no call.
unfoldable pub memcmp : Bytes → Bytes → Ordering
memcmp [] [] = Ordering.eq
memcmp [] (y ∷ b) = Ordering.lt
memcmp (x ∷ a) [] = Ordering.gt
memcmp (x ∷ a) (y ∷ b) = elim (compare x y) [
  | Ordering.lt ↦ Ordering.lt
  | Ordering.eq ↦ memcmp a b
  | Ordering.gt ↦ Ordering.gt
]

abbrev pub is_lt : Ordering → Bool
is_lt Ordering.lt = true
is_lt Ordering.eq = false
is_lt Ordering.gt = false

abbrev pub is_eq : Ordering → Bool
is_eq Ordering.lt = false
is_eq Ordering.eq = true
is_eq Ordering.gt = false

pub memcmp_self : (a : Bytes) → memcmp a a ≡ Ordering.eq
unfolding memcmp
memcmp_self [] = refl
memcmp_self (x ∷ a) = ground (arith, memcmp_self a)

pub memcmp_eq : (a b : Bytes) → memcmp a b ≡ Ordering.eq → a ≡ b
unfolding memcmp
memcmp_eq [] [] h = refl
memcmp_eq [] (y ∷ b) h = cc
memcmp_eq (x ∷ a) [] h = cc
memcmp_eq (x ∷ a) (y ∷ b) h = ground (arith, memcmp_eq a b)

pub memcmp_swap : (a b : Bytes) → memcmp a b ≡ Ordering.lt → memcmp b a ≡ Ordering.gt
unfolding memcmp
memcmp_swap [] [] h = cc
memcmp_swap [] (y ∷ b) h = refl
memcmp_swap (x ∷ a) [] h = cc
memcmp_swap (x ∷ a) (y ∷ b) h = ground (arith, memcmp_swap a b)

pub memcmp_flip : (a b : Bytes) → memcmp a b ≡ Ordering.gt → memcmp b a ≡ Ordering.lt
unfolding memcmp
memcmp_flip [] [] h = cc
memcmp_flip [] (y ∷ b) h = cc
memcmp_flip (x ∷ a) [] h = refl
memcmp_flip (x ∷ a) (y ∷ b) h = ground (arith, memcmp_flip a b)

pub memcmp_trans :
    (a b c : Bytes) → memcmp a b ≡ Ordering.lt → memcmp b c ≡ Ordering.lt → memcmp a c ≡ Ordering.lt
unfolding memcmp
memcmp_trans [] [] c h k = cc
memcmp_trans [] (y ∷ b) [] h k = cc
memcmp_trans [] (y ∷ b) (z ∷ c) h k = refl
memcmp_trans (x ∷ a) [] c h k = cc
memcmp_trans (x ∷ a) (y ∷ b) [] h k = cc
memcmp_trans (x ∷ a) (y ∷ b) (z ∷ c) h k = ground (arith, memcmp_trans a b c)

-- `memcmp(a, b, n) == 0`
unfoldable pub same : Bytes → Bytes → Bool
unfolding memcmp
same a b = is_eq (memcmp a b)

pub same_self : (a : Bytes) → same a a ≡ true
unfolding same
same_self a = rw (memcmp_self a)

eq_of_is_eq : (o : Ordering) → is_eq o ≡ true → o ≡ Ordering.eq
eq_of_is_eq Ordering.lt h = cc
eq_of_is_eq Ordering.eq h = refl
eq_of_is_eq Ordering.gt h = cc

pub same_eq : (a b : Bytes) → same a b ≡ true → a ≡ b
same_eq a b h = memcmp_eq a b (eq_of_is_eq (memcmp a b) (unfold same in h))

pub same_iff : (a b : Bytes) → (same a b ≡ true) ↔ (a ≡ b)
same_iff a b = (same_eq a b, λ e. rw e (same_self b))

-- Of two identifiers that differ, `same` is false.
pub same_ne : (a b : Bytes) → a ≢ b → same a b ≡ false
same_ne a b h = elim (same_cases a b) [ inl e ↦ absurd (h e) | inr f ↦ f ]
  where
    same_cases : (a b : Bytes) → (a ≡ b) ⊎ (same a b ≡ false)
    same_cases a b = elim (Bool-cases (same a b)) [ inl p ↦ inl (same_eq a b p) | inr p ↦ inr p ]
