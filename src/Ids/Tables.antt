-- ===== src/Ids/Tables.antt =====
-- Facts about the bits of a byte, by evaluation at all its values.
use Prim.Native.Nat.{bit_or}
use dtndht.Base.{
  ℕ, zero, suc, ◌+◌, ◌-◌, ◌/◌, ◌%◌, ◌^◌, ◌<◌, ◌≤◌, ◌≡◌, refl, arith, if◌then◌else◌, Bool, true,
  false, ◌&&◌, ◌||◌, not, ◌==◌, ltb,
}
use dtndht.Ids.{low_bit_of}

-- The test holds at every number below the bound.
unfoldable pub every_below : ℕ → (ℕ → Bool) → Bool
every_below zero t = true
every_below (suc bound) t = let rest = every_below bound t in if t bound then rest else false

pub every_below_at :
    (bound : ℕ) (t : ℕ → Bool) (i : ℕ) → every_below bound t ≡ true → i < bound → t i ≡ true
unfolding every_below
every_below_at zero t i ok lt = absurd (omega arith)
every_below_at (suc bound) t i ok lt = ground (arith, every_below_at bound t i)

low_table :
    every_below 256 (λ x. every_below 8 (λ r. not (ltb (low_bit_of 8 x) r) || x % 2 ^ (8 - r) == 0))
    ≡ true
unfolding every_below low_bit_of
low_table = refl

-- All bits of a byte behind its lowest 1 bit are 0.
pub low_bit_of-mod : (x r : ℕ) → x < 256 → r < 8 → low_bit_of 8 x < r → x % 2 ^ (8 - r) ≡ 0
low_bit_of-mod x r h k l =
    ground (arith, every_below_at 8 _ r (every_below_at 256 _ x low_table h) k)

or_table :
    every_below 256 (λ x.
      every_below 8 (λ r. not (x % 2 ^ (8 - r) == 0) || bit_or x (0x80 / 2 ^ r) == x + 2 ^ (7 - r)))
    ≡ true
unfolding every_below
or_table = refl

-- To set a bit behind the lowest 1 bit is to add its value.
pub bit_or-add :
    (x r : ℕ) → x < 256 → r < 8 → x % 2 ^ (8 - r) ≡ 0 → bit_or x (0x80 / 2 ^ r) ≡ x + 2 ^ (7 - r)
bit_or-add x r h k l = ground (arith, every_below_at 8 _ r (every_below_at 256 _ x or_table h) k)

gap_table :
    every_below 256 (λ x. every_below 256 (λ y. every_below 8 (λ r.
      not (ltb x y)
      || not (x % 2 ^ (8 - r) == 0)
      || not (y % 2 ^ (8 - r) == 0)
      || ltb (x + 2 ^ (7 - r)) y)))
    ≡ true
unfolding every_below
gap_table = refl

-- Between two bytes whose last bits are 0 there is room for the first one with a last bit set.
pub between_low :
    (x y r : ℕ)
    → x < 256
    → y < 256
    → r < 8
    → x < y
    → x % 2 ^ (8 - r) ≡ 0
    → y % 2 ^ (8 - r) ≡ 0
    → x + 2 ^ (7 - r) < y
between_low x y r hx hy hr lt p q = ground (
  arith,
  every_below_at 8 _ r (every_below_at 256 _ y (every_below_at 256 _ x gap_table hx) hy) hr,
)

byte_table : every_below 256 (λ x. every_below 8 (λ r. ltb (bit_or x (0x80 / 2 ^ r)) 256)) ≡ true
unfolding every_below
byte_table = refl

pub bit_or_byte : (x r : ℕ) → x < 256 → r < 8 → bit_or x (0x80 / 2 ^ r) < 256
bit_or_byte x r h k = ground (arith, every_below_at 8 _ r (every_below_at 256 _ x byte_table h) k)

low_set_table :
    every_below 256 (λ x. every_below 8 (λ r.
      not (x % 2 ^ (8 - r) == 0)
      || (low_bit_of 8 (bit_or x (0x80 / 2 ^ r)) == r && ltb 0 (bit_or x (0x80 / 2 ^ r)))))
    ≡ true
unfolding every_below low_bit_of
low_set_table = refl

-- A bit that is set behind all others is the lowest.
pub low_bit_of-bit_or :
    (x r : ℕ)
    → x < 256
    → r < 8
    → x % 2 ^ (8 - r) ≡ 0
    → (low_bit_of 8 (bit_or x (0x80 / 2 ^ r)) ≡ r) × (0 < bit_or x (0x80 / 2 ^ r))
low_bit_of-bit_or x r h k l =
    ground (arith, every_below_at 8 _ r (every_below_at 256 _ x low_set_table h) k)

half_table :
    every_below 256 (λ x. every_below 256 (λ y. every_below 8 (λ r.
      not (x % 2 ^ (8 - r) == 0)
      || not (x / 2 ^ (8 - r) == y / 2 ^ (8 - r))
      || (if ltb y (x + 2 ^ (7 - r))
          then y / 2 ^ (7 - r) == x / 2 ^ (7 - r)
          else y / 2 ^ (7 - r) == (x + 2 ^ (7 - r)) / 2 ^ (7 - r)))))
    ≡ true
unfolding every_below
half_table = refl

-- A byte that agrees with `x` on its first `r` bits agrees, on one bit more, with `x` or with `x`
-- after bit `r` is set, whichever side of the latter it lies on.
pub half_of :
    (x y r : ℕ)
    → x < 256
    → y < 256
    → r < 8
    → x % 2 ^ (8 - r) ≡ 0
    → x / 2 ^ (8 - r) ≡ y / 2 ^ (8 - r)
    → (y < x + 2 ^ (7 - r) → y / 2 ^ (7 - r) ≡ x / 2 ^ (7 - r))
      × (x + 2 ^ (7 - r) ≤ y → y / 2 ^ (7 - r) ≡ (x + 2 ^ (7 - r)) / 2 ^ (7 - r))
half_of x y r hx hy hr p q =
    let t =
      every_below_at 8 _ r (every_below_at 256 _ y (every_below_at 256 _ x half_table hx) hy) hr in
    (λ lt. ground (arith, t), λ le. ground (arith, t))
