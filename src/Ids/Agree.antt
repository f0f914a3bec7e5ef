-- ===== src/Ids/Agree.antt =====
-- Identifiers that agree on their first bits.
use Prim.Native.Nat.{bit_or}
use dtndht.Base.{
  ℕ, zero, suc, ◌+◌, ◌-◌, ◌*◌, ◌/◌, ◌%◌, ◌^◌, ◌<◌, ◌≤◌, ◌≡◌, refl, ap, sym, arith, Bytes, memcmp,
  Ordering, false, [], ◌∷◌, some, get_or, length, All, Bool-cases, inl, inr, is_lt, ◌==◌,
}
use dtndht.Ids.{IsId, last_nonzero, lowbit}
use dtndht.Ids.Tables.{low_bit_of-bit_or, half_of, bit_or-add}
use dtndht.Ids.Middle.{IsBytes, Low, set_bit, get_or-IsBytes}

-- The first `8 * q + r` bits are the same.
abbrev pub Agree : ℕ → ℕ → Bytes → Bytes → Type 0
Agree q r [] b = Unit
Agree q r (x ∷ a) [] = ⊥
Agree zero r (x ∷ a) (y ∷ b) = x / 2 ^ (8 - r) ≡ y / 2 ^ (8 - r)
Agree (suc q) r (x ∷ a) (y ∷ b) = (x ≡ y) × Agree q r a b

-- Twenty bytes that agree are the same identifier.
pub Agree-all : (q r : ℕ) (a b : Bytes) → length a ≤ q → length a ≡ length b → Agree q r a b → a ≡ b
Agree-all q r [] [] h e g = refl
Agree-all q r [] (y ∷ b) h e g = absurd (omega arith)
Agree-all q r (x ∷ a) [] h e g = absurd (omega arith)
Agree-all zero r (x ∷ a) (y ∷ b) h e g = absurd (omega arith)
Agree-all (suc q) r (x ∷ a) (y ∷ b) h e g =
    cc (g.0, Agree-all q r a b (omega arith) (omega arith) g.1)

pub Agree-byte :
    (q : ℕ) (a b : Bytes)
    → IsBytes a
    → IsBytes b
    → length a ≡ length b
    → Agree q 8 a b
    → Agree (suc q) 0 a b
Agree-byte q [] b ha hb l g = tt
Agree-byte q (x ∷ a) [] ha hb l g = g
Agree-byte zero (x ∷ []) (y ∷ []) ha hb l g = (omega arith, tt)
Agree-byte zero (x ∷ []) (y ∷ z ∷ b) ha hb l g = absurd (omega arith)
Agree-byte zero (x ∷ w ∷ a) (y ∷ []) ha hb l g = absurd (omega arith)
Agree-byte zero (x ∷ w ∷ a) (y ∷ z ∷ b) ha hb l g = (omega arith, omega arith)
Agree-byte (suc q) (x ∷ a) (y ∷ b) ha hb l g = (g.0, Agree-byte q a b ha.1 hb.1 (omega arith) g.1)

not_below_zeroes :
    (f id : Bytes) → All (λ z. z ≡ 0) f → length f ≡ length id → memcmp id f ≡ Ordering.lt → ⊥
unfolding memcmp
not_below_zeroes [] [] z l h = cc
not_below_zeroes [] (y ∷ id) z l h = absurd (omega arith)
not_below_zeroes (x ∷ f) [] z l h = absurd (omega arith)
not_below_zeroes (x ∷ f) (y ∷ id) z l h = ground (arith, not_below_zeroes f id z.1 (omega arith))

-- On the low side of the middle, one bit more agrees with the bucket's first identifier.
pub Agree-Low :
    (q r : ℕ) (f id : Bytes)
    → IsBytes f
    → IsBytes id
    → length f ≡ length id
    → q < length f
    → r < 8
    → Low q r f
    → Agree q r f id
    → memcmp id (set_bit f q r) ≡ Ordering.lt
    → Agree q (r + 1) f id
unfolding memcmp
Agree-Low q r [] id bf bi l h k lo g c = tt
Agree-Low q r (x ∷ f) [] bf bi l h k lo g c = g
Agree-Low zero r (x ∷ f) (y ∷ id) bf bi l h k lo g c =
    let less : y < x + 2 ^ (7 - r) =
      ground (arith, bit_or-add x r bf.0 k lo.0, not_below_zeroes f id lo.1 (omega arith)) in
    let e : 8 - (r + 1) ≡ 7 - r = omega arith in
    rw e (sym ((half_of x y r bf.0 bi.0 k lo.0 g).0 less))
Agree-Low (suc q) r (x ∷ f) (y ∷ id) bf bi l h k lo g c =
    (g.0, Agree-Low q r f id bf.1 bi.1 (omega arith) (omega arith) k lo g.1 (ground (arith, g.0)))

-- On the high side, one bit more agrees with the middle.
pub Agree-high :
    (q r : ℕ) (f id : Bytes)
    → IsBytes f
    → IsBytes id
    → length f ≡ length id
    → q < length f
    → r < 8
    → Low q r f
    → Agree q r f id
    → is_lt (memcmp id (set_bit f q r)) ≡ false
    → Agree q (r + 1) (set_bit f q r) id
unfolding memcmp
Agree-high q r [] id bf bi l h k lo g c = tt
Agree-high q r (x ∷ f) [] bf bi l h k lo g c = absurd (omega arith)
Agree-high zero r (x ∷ f) (y ∷ id) bf bi l h k lo g c =
    let most : x + 2 ^ (7 - r) ≤ y = ground (arith, bit_or-add x r bf.0 k lo.0) in
    let e : 8 - (r + 1) ≡ 7 - r = omega arith in
    rw (e, bit_or-add x r bf.0 k lo.0) (sym ((half_of x y r bf.0 bi.0 k lo.0 g).1 most))
Agree-high (suc q) r (x ∷ f) (y ∷ id) bf bi l h k lo g c =
    (g.0, Agree-high q r f id bf.1 bi.1 (omega arith) (omega arith) k lo g.1 (ground (arith, g.0)))

last_nonzero_at :
    (n : ℕ) (id : Bytes) (q : ℕ)
    → q < n
    → 0 < get_or id q 0
    → ((j : ℕ) → q < j → get_or id j 0 ≡ 0)
    → last_nonzero n id ≡ some q
unfolding last_nonzero
last_nonzero_at zero id q h p z = absurd (omega arith)
last_nonzero_at (suc n) id q h p z = elim (Bool-cases (n == q)) [
  | inl e ↦ let f : n ≡ q = ground arith in rw f (ground arith)
  | inr e ↦ ground (arith, z n (ground arith), last_nonzero_at n id q (ground arith) p z)
]

set_bit-get_or :
    (q r : ℕ) (f : Bytes)
    → q < length f
    → get_or (set_bit f q r) q 0 ≡ bit_or (get_or f q 0) (0x80 / 2 ^ r)
set_bit-get_or q r [] h = absurd (omega arith)
set_bit-get_or zero r (x ∷ f) h = refl
set_bit-get_or (suc q) r (x ∷ f) h = set_bit-get_or q r f (omega arith)

All-zero-get_or : (f : Bytes) (j : ℕ) → All (λ z. z ≡ 0) f → get_or f j 0 ≡ 0
All-zero-get_or [] j z = refl
All-zero-get_or (x ∷ f) zero z = z.0
All-zero-get_or (x ∷ f) (suc j) z = All-zero-get_or f j z.1

set_bit_behind :
    (q r : ℕ) (f : Bytes) → Low q r f → (j : ℕ) → q < j → get_or (set_bit f q r) j 0 ≡ 0
set_bit_behind q r [] lo j h = refl
set_bit_behind zero r (x ∷ f) lo zero h = absurd (omega arith)
set_bit_behind zero r (x ∷ f) lo (suc j) h = All-zero-get_or f j lo.1
set_bit_behind (suc q) r (x ∷ f) lo zero h = absurd (omega arith)
set_bit_behind (suc q) r (x ∷ f) lo (suc j) h = set_bit_behind q r f lo j (omega arith)

Low-get_or : (q r : ℕ) (f : Bytes) → q < length f → Low q r f → get_or f q 0 % 2 ^ (8 - r) ≡ 0
Low-get_or q r [] h lo = absurd (omega arith)
Low-get_or zero r (x ∷ f) h lo = lo.0
Low-get_or (suc q) r (x ∷ f) h lo = Low-get_or q r f (omega arith) lo

-- The bit that makes the middle is its lowest 1 bit.
pub lowbit-set_bit :
    (q r : ℕ) (f : Bytes)
    → IsId f
    → q < 20
    → r < 8
    → Low q r f
    → lowbit (set_bit f q r) ≡ some (8 * q + r)
unfolding lowbit
lowbit-set_bit q r f v h k lo =
    let e = set_bit-get_or q r f (omega (arith, v.len)) in
    let b =
      low_bit_of-bit_or (get_or f q 0) r (get_or-IsBytes f q v.bytes) k
        (Low-get_or q r f (omega (arith, v.len)) lo) in
    let p : 0 < get_or (set_bit f q r) q 0 = rw e b.1 in
    rw (last_nonzero_at 20 (set_bit f q r) q h p (set_bit_behind q r f lo), lowbit)
      (ap (λ z. some (8 * q + z)) (rw e b.0))
