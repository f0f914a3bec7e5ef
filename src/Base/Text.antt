-- ===== src/Base/Text.antt =====
-- Text as bytes, numbers in decimal as `printf` writes and `strtol` reads them, and `memmem`.
use Prim.Native.Char.{code}
use Prim.Native.String.{String}
use Prim.Native.Nat.{ℕ, zero, suc, ◌+◌, ◌-◌, ◌*◌, ◌/◌, ◌%◌, ◌^◌, ◌≤◌, ◌<◌, min}
use mathlib.Core.Path.{◌≡◌, refl, sym, ap, ◌∙◌}
use mathlib.Core.Logic.{◌⊎◌, inl, inr}
use mathlib.Core.Bool.{Bool, true, false, ◌&&◌, ◌||◌}
use mathlib.Core.List.{[], ◌∷◌, ◌++◌}
use mathlib.Core.Option.{Option, none, some, get_or}
use native.Mathlib.Omega.{arith}
use dtndht.Base.Tests.{leb, ◌==◌, ==_iff, if◌then◌else◌, Bool-cases}
use dtndht.Base.Lists.{length, take}
use dtndht.Base.Int.{ℤ, pos, negsuc}
use dtndht.Base.Memory.{Bytes, same}

-- The bytes of an ASCII literal.
abbrev pub codes : String → Bytes
codes String.[] = []
codes (String.◌∷◌ c s) = code c ∷ codes s

abbrev pub is_digit : ℕ → Bool
is_digit c = leb 48 c && leb c 57

-- The digits of a number in front of others; as many rounds as the number is are enough.
unfoldable pub digits_from : ℕ → ℕ → Bytes → Bytes
digits_from zero n out = out
digits_from (suc rounds) n out = elim (n == 0) [
  | true ↦ out
  | false ↦ digits_from rounds (n / 10) ((48 + n % 10) ∷ out)
]

-- "%d" of a number that is not negative
unfoldable pub decimal : ℕ → Bytes
unfolding digits_from
decimal n = elim (n == 0) [ true ↦ 48 ∷ [] | false ↦ digits_from n n [] ]

abbrev pub long_max : ℕ
long_max = 2 ^ 63 - 1

-- The value of the digits in front, which stops at LONG_MAX, and what follows them.
unfoldable pub scan_digits : ℕ → Bytes → ℕ × Bytes
scan_digits n [] = (n, [])
scan_digits n (c ∷ s) =
    let rest = scan_digits (min long_max (n * 10 + (c - 48))) s in
    if is_digit c then rest else (n, c ∷ s)

abbrev pub is_space : ℕ → Bool
is_space c = c == 32 || (leb 9 c && leb c 13)

unfoldable pub skip_spaces : Bytes → Bytes
skip_spaces [] = []
skip_spaces (c ∷ s) = let rest = skip_spaces s in if is_space c then rest else c ∷ s

abbrev pub starts_digit : Bytes → Bool
starts_digit [] = false
starts_digit (c ∷ _) = is_digit c

-- Without a digit nothing is read, and the pointer is where it was.
abbrev number_or : Bytes → (ℕ → ℤ) → Bytes → ℤ × Bytes
number_or whole sign s =
    if starts_digit s then (sign (scan_digits 0 s).0, (scan_digits 0 s).1) else (pos 0, whole)

abbrev negate : ℕ → ℤ
negate zero = pos 0
negate (suc n) = negsuc n

-- A base of 10. A negative number stops one short of LONG_MIN, which no caller tells apart.
unfoldable pub strtol : Bytes → ℤ × Bytes
unfolding scan_digits skip_spaces
strtol s = elim (skip_spaces s) [
  | [] ↦ (pos 0, s)
  | c ∷ t ↦
      if c == 45
      then number_or s negate t
      else if c == 43
      then number_or s pos t
      else number_or s pos (c ∷ t)
]

-- The first place of a needle, as what stands from there on.
unfoldable pub memmem : Bytes → Bytes → Option Bytes
memmem needle [] = if length needle == 0 then some [] else none
memmem needle (c ∷ s) =
    let rest = memmem needle s in
    if same (take (length needle) (c ∷ s)) needle then some (c ∷ s) else rest

infixl 5 ◌>>=◌
abbrev pub ◌>>=◌ {ℓ κ} : {A : Type ℓ} {B : Type κ} → Option A → (A → Option B) → Option B
none >>= f = none
some a >>= f = f a

pub digits_from-append :
    (rounds n : ℕ) (out rest : Bytes)
    → digits_from rounds n out ++ rest ≡ digits_from rounds n (out ++ rest)
unfolding digits_from
digits_from-append zero n out rest = refl
digits_from-append (suc rounds) n out rest = elim (Bool-cases (n == 0)) [
  | inl h ↦ ground arith
  | inr h ↦ ground (arith, digits_from-append rounds (n / 10) ((48 + n % 10) ∷ out) rest)
]

scan_digits-digits_from :
    (rounds n : ℕ) (out : Bytes)
    → n ≤ rounds
    → n ≤ long_max
    → scan_digits 0 (digits_from rounds n out) ≡ scan_digits n out
unfolding scan_digits digits_from
scan_digits-digits_from zero n out h l =
    let z : 0 ≡ n = omega arith in ap (λ k. scan_digits k out) z
scan_digits-digits_from (suc rounds) n out h l = elim (Bool-cases (n == 0)) [
  | inl e ↦
      let z : 0 ≡ n = sym ((==_iff n 0).0 e) in rw (e, digits_from) (ap (λ k. scan_digits k out) z)
  | inr e ↦
      let d : is_digit (48 + n % 10) ≡ true = ground arith in
      let v : min long_max (n / 10 * 10 + (48 + n % 10 - 48)) ≡ n = omega arith in
      rw (e, digits_from)
        (scan_digits-digits_from rounds (n / 10) ((48 + n % 10) ∷ out) (ground arith) (omega arith)
          ∙ rw (d, scan_digits) (ap (λ k. scan_digits k out) v))
]

starts_digit-digits_from :
    (rounds n : ℕ) (out : Bytes)
    → n ≤ rounds
    → (starts_digit out ≡ true) ⊎ (0 < n)
    → starts_digit (digits_from rounds n out) ≡ true
unfolding digits_from
starts_digit-digits_from zero n out h (inl s) = s
starts_digit-digits_from zero n out h (inr s) = absurd (omega arith)
starts_digit-digits_from (suc rounds) n out h k = elim (Bool-cases (n == 0)) [
  | inl e ↦ ground arith
  | inr e ↦
      rw (e, digits_from)
        (starts_digit-digits_from rounds (n / 10) ((48 + n % 10) ∷ out) (ground arith)
          (inl (ground arith)))
]

strtol_of_digits :
    (s : Bytes) → starts_digit s ≡ true → strtol s ≡ (pos (scan_digits 0 s).0, (scan_digits 0 s).1)
unfolding strtol skip_spaces
strtol_of_digits [] h = absurd (cc)
strtol_of_digits (c ∷ s) h = ground arith

-- `strtol` reads what "%d" wrote, up to the byte behind it, if that is no digit.
pub strtol-decimal :
    (n : ℕ) (c : ℕ) (rest : Bytes)
    → n ≤ long_max
    → is_digit c ≡ false
    → strtol (decimal n ++ c ∷ rest) ≡ (pos n, c ∷ rest)
unfolding decimal scan_digits
strtol-decimal n c rest l d = elim (Bool-cases (n == 0)) [
  | inl e ↦
      let z : 0 ≡ n = sym ((==_iff n 0).0 e) in
      rw (e, decimal)
        (strtol_of_digits (48 ∷ c ∷ rest) refl
          ∙ rw (d, scan_digits) (ap (λ k. (pos k, c ∷ rest)) z))
  | inr e ↦
      let whole = digits_from-append n n [] (c ∷ rest) in
      let scanned : scan_digits 0 (digits_from n n (c ∷ rest)) ≡ (n, c ∷ rest) =
        scan_digits-digits_from n n (c ∷ rest) (omega arith) l ∙ rw (d, scan_digits) refl in
      rw (e, decimal, whole)
        (strtol_of_digits (digits_from n n (c ∷ rest))
            (starts_digit-digits_from n n (c ∷ rest) (omega arith) (inr (ground arith)))
          ∙ ap (λ z. (pos z.0, z.1)) scanned)
]

pub starts_digit-decimal : (n : ℕ) (rest : Bytes) → starts_digit (decimal n ++ rest) ≡ true
unfolding decimal
starts_digit-decimal n rest = elim (Bool-cases (n == 0)) [
  | inl e ↦ rw (e, decimal) refl
  | inr e ↦
      rw (e, decimal, digits_from-append n n [] rest)
        (starts_digit-digits_from n n rest (omega arith) (inr (ground arith)))
]

length-digits_from :
    (rounds n k : ℕ) (out : Bytes) → n < 10 ^ k → length (digits_from rounds n out) ≤ k + length out
unfolding digits_from
length-digits_from zero n k out h = omega arith
length-digits_from (suc rounds) n zero out h =
    let z : (n == 0) ≡ true = ground arith in rw (z, digits_from) (omega arith)
length-digits_from (suc rounds) n (suc k) out h = elim (Bool-cases (n == 0)) [
  | inl e ↦ rw (e, digits_from) (omega arith)
  | inr e ↦
      let smaller : n / 10 < 10 ^ k = grind arith in
      rw (e, digits_from)
        (omega (arith, length-digits_from rounds (n / 10) k ((48 + n % 10) ∷ out) smaller))
]

-- A number below 10 ^ k has at most k digits, and 0 has one.
pub length-decimal : (n k : ℕ) → n < 10 ^ suc k → length (decimal n) ≤ suc k
unfolding decimal
length-decimal n k h = elim (Bool-cases (n == 0)) [
  | inl e ↦ rw (e, decimal) (omega arith)
  | inr e ↦ rw (e, decimal) (omega (arith, length-digits_from n n (suc k) [] h))
]

pub some_eq {ℓ} : {A : Type ℓ} {a b : A} → some a ≡ some b → a ≡ b
some_eq {A} {a} e = ap (λ (o : Option A). get_or o a) e

-- A chain that gives a result has given one at each link.
pub bind_some {ℓ κ} :
    {A : Type ℓ} {B : Type κ} (m : Option A) (f : A → Option B) (b : B)
    → (m >>= f) ≡ some b
    → (a : A) × (m ≡ some a) × (f a ≡ some b)
bind_some none f b e = absurd (cc)
bind_some (some a) f b e = (a, refl, e)

decimal_test : decimal 1205 ≡ codes "1205"
unfolding decimal digits_from
decimal_test = refl

strtol_test : strtol (codes " -12:x") ≡ (negsuc 11, codes ":x")
unfolding strtol scan_digits skip_spaces
strtol_test = refl
