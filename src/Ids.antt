-- ===== src/Ids.antt =====
-- dtndht/dht.c: node identifiers, their order and their distance. An identifier is 20 bytes, and a
-- bit is numbered from the start.
pub mod Distance
pub mod Tables
pub mod Middle
pub mod Agree
use Prim.Native.Nat.{bit_and, bit_or, bit_xor}
use dtndht.Base.{
  ℕ, zero, suc, ◌+◌, ◌-◌, ◌*◌, ◌/◌, ◌%◌, ◌^◌, ◌<◌, ◌≡◌, Bytes, memcmp, Ordering, Bool, true, false,
  List, [], ◌∷◌, Option, none, some, if◌then◌else◌, ltb, leb, ◌==◌, get_or, set, length, All,
}

-- Twenty bytes.
pub record IsId (id : Bytes) : Type 0 where
  pub len : length id ≡ 20
  pub bytes : All (λ x. x < 256) id

abbrev pub id_cmp : Bytes → Bytes → Ordering
id_cmp a b = memcmp a b

-- The first loop of `lowbit`, from byte `i - 1` down: the last byte that is not 0.
unfoldable pub last_nonzero : ℕ → Bytes → Option ℕ
last_nonzero zero id = none
last_nonzero (suc i) id =
    let rest = last_nonzero i id in if get_or id i 0 == 0 then rest else some i

-- The second loop, from bit `j - 1` down; -1 is not reached for a byte that is not 0.
unfoldable pub low_bit_of : ℕ → ℕ → ℕ
low_bit_of zero x = 0
low_bit_of (suc j) x =
    let rest = low_bit_of j x in if bit_and x (0x80 / 2 ^ j) == 0 then rest else j

-- `none` stands for -1.
unfoldable pub lowbit : Bytes → Option ℕ
lowbit id = elim (last_nonzero 20 id) [
  | none ↦ none
  | some i ↦ some (8 * i + low_bit_of 8 (get_or id i 0))
]

-- The loop of `common_bits` over the byte `xor`, which is shifted left in 8 bits.
unfoldable pub leading_zeros : ℕ → ℕ → ℕ → ℕ
leading_zeros zero j x = j
leading_zeros (suc fuel) j x =
    let rest = leading_zeros fuel (j + 1) ((x * 2) % 256) in if bit_and x 0x80 == 0 then rest else j

unfoldable pub common_bits_from : ℕ → Bytes → Bytes → ℕ
unfolding leading_zeros
common_bits_from i (x ∷ id1) (y ∷ id2) =
    let rest = common_bits_from (i + 1) id1 id2 in
    if x == y then rest else 8 * i + leading_zeros 8 0 (bit_xor x y)
common_bits_from i _ _ = 8 * i

unfoldable pub common_bits : Bytes → Bytes → ℕ
unfolding common_bits_from
common_bits id1 id2 = common_bits_from 0 id1 id2

-- Which of `id1` and `id2` is closer to `ref`.
unfoldable pub xorcmp : Bytes → Bytes → Bytes → Ordering
xorcmp (x ∷ id1) (y ∷ id2) (r ∷ ref) =
    let rest = xorcmp id1 id2 ref in
    if x == y then rest else if ltb (bit_xor x r) (bit_xor y r) then Ordering.lt else Ordering.gt
xorcmp _ _ _ = Ordering.eq

-- The middle of a bucket of identifiers from `first` to that of the next bucket, if there is one.
unfoldable pub next_bit : Option ℕ → ℕ
next_bit none = 0
next_bit (some n) = n + 1

-- `MAX(bit1, bit2) + 1`
unfoldable pub split_bit : Bytes → Option Bytes → ℕ
unfolding next_bit
split_bit first next =
    let a = next_bit (lowbit first) in
    let b : ℕ = elim next [ none ↦ 0 | some second ↦ next_bit (lowbit second) ] in
    if leb b a then a else b

unfoldable pub bucket_middle : Bytes → Option Bytes → Option Bytes
unfolding split_bit
bucket_middle first next =
    let bit = split_bit first next in
    if leb 160 bit
    then none
    else some (set first (bit / 8) (bit_or (get_or first (bit / 8) 0) (0x80 / 2 ^ (bit % 8))))
