-- ===== src/Ids/Middle.antt =====
-- The middle of a bucket lies strictly inside its range.
use Prim.Native.Nat.{bit_or}
use dtndht.Base.{
  ℕ, zero, suc, ◌+◌, ◌-◌, ◌*◌, ◌/◌, ◌%◌, ◌^◌, ◌<◌, ◌≤◌, ◌≡◌, refl, ◌∙◌, arith, Bytes, memcmp,
  Ordering, [], ◌∷◌, Option, none, some, ltb, ◌==◌, get_or, set, length, All, length-set,
  Option-cases, Bool-cases, inl, inr,
}
use dtndht.Ids.{IsId, last_nonzero, low_bit_of, lowbit, next_bit, split_bit, bucket_middle}
use native.Mathlib.Nat.{pow-suc}
use dtndht.Ids.Tables.{low_bit_of-mod, bit_or-add, between_low, bit_or_byte}

abbrev pub IsBytes : Bytes → Type 0
IsBytes = All (λ x. x < 256)

two_pos : (n : ℕ) → 0 < 2 ^ n
two_pos zero = omega arith
two_pos (suc n) = simp pow-suc (omega (arith, two_pos n))

-- The bits of an identifier from bit `r` of byte `k` on are 0.
abbrev pub Low : ℕ → ℕ → Bytes → Type 0
Low k r [] = Unit
Low zero r (x ∷ id) = (x % 2 ^ (8 - r) ≡ 0) × All (λ z. z ≡ 0) id
Low (suc k) r (x ∷ id) = Low k r id

last_nonzero-none :
    (n : ℕ) (id : Bytes) → last_nonzero n id ≡ none → (j : ℕ) → j < n → get_or id j 0 ≡ 0
unfolding last_nonzero
last_nonzero-none zero id h j lt = absurd (omega arith)
last_nonzero-none (suc n) id h j lt = elim (Bool-cases (j == n)) [
  | inl e ↦ let p : j ≡ n = ground arith in rw p (ground arith)
  | inr e ↦ last_nonzero-none n id (ground arith) j (ground arith)
]

last_nonzero-after :
    (n : ℕ) (id : Bytes) (i : ℕ)
    → last_nonzero n id ≡ some i
    → (j : ℕ) → i < j
    → j < n
    → get_or id j 0 ≡ 0
unfolding last_nonzero
last_nonzero-after zero id i h j lt k = absurd (omega arith)
last_nonzero-after (suc n) id i h j lt k = elim (Bool-cases (get_or id n 0 == 0)) [
  | inl z ↦ elim (Bool-cases (j == n)) [
    | inl e ↦ let p : j ≡ n = ground arith in rw p (ground arith)
    | inr e ↦ last_nonzero-after n id i (ground arith) j lt (ground arith)
  ]
  | inr z ↦ absurd (ground arith)
]

pub get_or_beyond : (id : Bytes) (j : ℕ) → length id ≤ j → get_or id j 0 ≡ 0
get_or_beyond [] j h = refl
get_or_beyond (x ∷ id) zero h = absurd (omega arith)
get_or_beyond (x ∷ id) (suc j) h = get_or_beyond id j (omega arith)

All-zero : (id : Bytes) → ((j : ℕ) → get_or id j 0 ≡ 0) → All (λ z. z ≡ 0) id
All-zero [] h = tt
All-zero (x ∷ id) h = (h 0, All-zero id (λ j. h (suc j)))

Low-of_get_or :
    (k r : ℕ) (id : Bytes)
    → get_or id k 0 % 2 ^ (8 - r) ≡ 0
    → ((j : ℕ) → k < j → get_or id j 0 ≡ 0)
    → Low k r id
Low-of_get_or k r [] h z = tt
Low-of_get_or zero r (x ∷ id) h z = (h, All-zero id (λ j. z (suc j) (omega arith)))
Low-of_get_or (suc k) r (x ∷ id) h z = Low-of_get_or k r id h (λ j lt. z (suc j) (omega arith))

pub get_or-IsBytes : (id : Bytes) (j : ℕ) → IsBytes id → get_or id j 0 < 256
get_or-IsBytes [] j h = omega arith
get_or-IsBytes (x ∷ id) zero h = h.0
get_or-IsBytes (x ∷ id) (suc j) h = get_or-IsBytes id j h.1

zero_mod : (n : ℕ) → 0 % n ≡ 0
zero_mod n = grind arith

lowbit-some :
    (id : Bytes) (i : ℕ)
    → last_nonzero 20 id ≡ some i
    → lowbit id ≡ some (8 * i + low_bit_of 8 (get_or id i 0))
unfolding lowbit
lowbit-some id i e = rw (e, lowbit)

module _ (id : Bytes) (v : IsId id) where
  zero_beyond :
      (k : ℕ) → ((j : ℕ) → k < j → j < 20 → get_or id j 0 ≡ 0) → (j : ℕ) → k < j → get_or id j 0 ≡ 0
  zero_beyond k z j lt = elim (Bool-cases (ltb j 20)) [
    | inl p ↦ z j lt (ground arith)
    | inr p ↦ get_or_beyond id j (ground (arith, v.len))
  ]

  zero_anywhere : last_nonzero 20 id ≡ none → (j : ℕ) → get_or id j 0 ≡ 0
  zero_anywhere e j = elim (Bool-cases (ltb j 20)) [
    | inl p ↦ last_nonzero-none 20 id e j (ground arith)
    | inr p ↦ get_or_beyond id j (ground (arith, v.len))
  ]

  Low-none : (k r : ℕ) → last_nonzero 20 id ≡ none → Low k r id
  Low-none k r e =
      Low-of_get_or k r id (rw (zero_anywhere e k) (zero_mod _)) (λ j lt. zero_anywhere e j)

  Low-some :
      (i bit : ℕ)
      → last_nonzero 20 id ≡ some i
      → 8 * i + low_bit_of 8 (get_or id i 0) < bit
      → Low (bit / 8) (bit % 8) id
  Low-some i bit e h =
      Low-of_get_or (bit / 8) (bit % 8) id low
        (zero_beyond (bit / 8) (λ j lt. last_nonzero-after 20 id i e j (omega arith)))
    where
      low : get_or id (bit / 8) 0 % 2 ^ (8 - bit % 8) ≡ 0
      low = elim (Bool-cases (bit / 8 == i)) [
        | inl p ↦
            let q : bit / 8 ≡ i = ground arith in
            rw q (
              low_bit_of-mod (get_or id i 0) (bit % 8) (get_or-IsBytes id i v.bytes) (omega arith)
                (omega arith))
        | inr p ↦
            rw (zero_beyond i (last_nonzero-after 20 id i e) (bit / 8) (ground arith)) (zero_mod _)
      ]

  -- From `lowbit` to the bits that are 0.
  pub next_bit-Low : (bit : ℕ) → next_bit (lowbit id) ≤ bit → Low (bit / 8) (bit % 8) id
  unfolding next_bit
  next_bit-Low bit h = elim (Option-cases (last_nonzero 20 id)) [
    | inl e ↦ Low-none (bit / 8) (bit % 8) e
    | inr (i, e) ↦ let p = rw (lowbit-some id i e) at h in Low-some i bit e (omega arith)
  ]

-- To set the bit `r` of byte `k`.
abbrev pub set_bit : Bytes → ℕ → ℕ → Bytes
set_bit id k r = set id k (bit_or (get_or id k 0) (0x80 / 2 ^ r))

set_bit_above :
    (id : Bytes) (k r : ℕ)
    → IsBytes id
    → k < length id
    → r < 8
    → Low k r id
    → memcmp id (set_bit id k r) ≡ Ordering.lt
unfolding memcmp
set_bit_above [] k r b h q l = absurd (omega arith)
set_bit_above (x ∷ id) zero r b h q l = ground (arith, bit_or-add x r, two_pos (7 - r))
set_bit_above (x ∷ id) (suc k) r b h q l =
    ground (arith, set_bit_above id k r b.1 (omega arith) q l)

pub memcmp_zeros :
    (f n : Bytes)
    → All (λ z. z ≡ 0) f
    → All (λ z. z ≡ 0) n
    → length f ≡ length n
    → memcmp f n ≡ Ordering.eq
unfolding memcmp
memcmp_zeros [] [] zf zn h = refl
memcmp_zeros [] (y ∷ n) zf zn h = absurd (omega arith)
memcmp_zeros (x ∷ f) [] zf zn h = absurd (omega arith)
memcmp_zeros (x ∷ f) (y ∷ n) zf zn h = ground (arith, memcmp_zeros f n zf.1 zn.1 (omega arith))

below_of_Low :
    (f n : Bytes) (k r : ℕ)
    → IsBytes f
    → IsBytes n
    → length f ≡ length n
    → k < length f
    → r < 8
    → Low k r f
    → Low k r n
    → memcmp f n ≡ Ordering.lt
    → memcmp (set_bit f k r) n ≡ Ordering.lt
unfolding memcmp
below_of_Low [] n k r bf bn e h q lf ln c = absurd (omega arith)
below_of_Low (x ∷ f) [] k r bf bn e h q lf ln c = absurd (omega arith)
below_of_Low (x ∷ f) (y ∷ n) zero r bf bn e h q lf ln c =
    let g : x < y = ground (arith, memcmp_zeros f n lf.1 ln.1 (omega arith)) in
    ground (arith, bit_or-add x r, between_low x y r bf.0 bn.0 q g)
below_of_Low (x ∷ f) (y ∷ n) (suc k) r bf bn e h q lf ln c =
    ground (arith, below_of_Low f n k r bf.1 bn.1 (omega arith) (omega arith) q lf ln)

set-IsBytes : (id : Bytes) (k v : ℕ) → IsBytes id → v < 256 → IsBytes (set id k v)
set-IsBytes [] k v h lt = tt
set-IsBytes (x ∷ id) zero v h lt = (lt, h.1)
set-IsBytes (x ∷ id) (suc k) v h lt = (h.0, set-IsBytes id k v h.1 lt)

pub set_bit-IsId : (id : Bytes) (k r : ℕ) → IsId id → r < 8 → IsId (set_bit id k r)
set_bit-IsId id k r v h = record {
  len = length-set id k _ ∙ v.len;
  bytes =
      set-IsBytes id k _ v.bytes (bit_or_byte (get_or id k 0) r (get_or-IsBytes id k v.bytes) h);
}

-- What `bucket_middle` returns.
pub middle_bit :
    (first : Bytes) (next : Option Bytes) {m : Bytes}
    → bucket_middle first next ≡ some m
    → (split_bit first next < 160)
      × (m ≡ set_bit first (split_bit first next / 8) (split_bit first next % 8))
unfolding bucket_middle
middle_bit first next h = ground arith

pub split_bit_first :
    (first : Bytes) (next : Option Bytes) → next_bit (lowbit first) ≤ split_bit first next
unfolding split_bit
split_bit_first first none = ground arith
split_bit_first first (some n) = ground arith

pub split_bit_next : (first n : Bytes) → next_bit (lowbit n) ≤ split_bit first (some n)
unfolding split_bit
split_bit_next first n = ground arith

-- The middle of a bucket is an identifier behind the bucket's first one.
pub bucket_middle-above :
    (first : Bytes) (next : Option Bytes) {m : Bytes}
    → IsId first
    → bucket_middle first next ≡ some m
    → IsId m × (memcmp first m ≡ Ordering.lt)
bucket_middle-above first next {m} v h =
    let (lt, e) = middle_bit first next h in
    let bit = split_bit first next in
    rw e (
      set_bit-IsId first (bit / 8) (bit % 8) v (omega arith),
      set_bit_above first (bit / 8) (bit % 8) v.bytes (omega (arith, v.len)) (omega arith)
          (next_bit-Low first v bit (split_bit_first first next)),
    )

-- The middle of a bucket that another bucket follows lies strictly between their first
-- identifiers, so that no half of the bucket is empty of identifiers.
pub bucket_middle_between :
    (first n m : Bytes)
    → IsId first
    → IsId n
    → memcmp first n ≡ Ordering.lt
    → bucket_middle first (some n) ≡ some m
    → (memcmp first m ≡ Ordering.lt) × (memcmp m n ≡ Ordering.lt)
bucket_middle_between first n m v w c h =
    let (lt, e) = middle_bit first (some n) h in
    let bit = split_bit first (some n) in
    (
      (bucket_middle-above first (some n) v h).1,
      rw e (
          below_of_Low first n (bit / 8) (bit % 8) v.bytes w.bytes (omega (arith, v.len, w.len))
            (omega (arith, v.len)) (omega arith)
            (next_bit-Low first v bit (split_bit_first first (some n)))
            (next_bit-Low n w bit (split_bit_next first n)) c),
    )
