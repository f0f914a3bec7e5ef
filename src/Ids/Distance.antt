-- ===== src/Ids/Distance.antt =====
-- `xorcmp` orders identifiers by the bytes of their distance to the reference.
use Prim.Native.Nat.{bit_xor}
use dtndht.Base.{
  ℕ, ◌<◌, ◌≡◌, refl, ap, subst, ◌↔◌, arith, Bytes, memcmp, Ordering, true, [], ◌∷◌, ◌==◌, ==_iff,
  All, length, memcmp_flip, memcmp_trans,
}
use dtndht.Ids.{xorcmp, IsId}
use dtndht.Ids.Tables.{every_below, every_below_at}

xor_table : every_below 256 (λ x. every_below 256 (λ r. bit_xor (bit_xor x r) r == x)) ≡ true
unfolding every_below
xor_table = refl

bit_xor_twice : (x r : ℕ) → x < 256 → r < 256 → bit_xor (bit_xor x r) r ≡ x
bit_xor_twice x r h k =
    (==_iff _ x).0 (every_below_at 256 _ r (every_below_at 256 _ x xor_table h) k)

bit_xor_injective : (x y r : ℕ) → x < 256 → y < 256 → r < 256 → bit_xor x r ≡ bit_xor y r → x ≡ y
bit_xor_injective x y r hx hy hr e =
    cc (bit_xor_twice x r hx hr, bit_xor_twice y r hy hr, ap (λ z. bit_xor z r) e)

-- The distance to a reference, byte by byte.
pub distance : Bytes → Bytes → Bytes
distance (x ∷ id) (r ∷ ref) = bit_xor x r ∷ distance id ref
distance _ _ = []

abbrev IsBytes : Bytes → Type 0
IsBytes = All (λ x. x < 256)

xorcmp_bytes :
    (a b ref : Bytes)
    → length a ≡ length ref
    → length b ≡ length ref
    → IsBytes a
    → IsBytes b
    → IsBytes ref
    → xorcmp a b ref ≡ memcmp (distance a ref) (distance b ref)
unfolding xorcmp distance memcmp
xorcmp_bytes [] [] [] p q ha hb hr = refl
xorcmp_bytes (x ∷ a) (y ∷ b) (r ∷ ref) p q ha hb hr = ground (
  arith,
  bit_xor_injective x y r ha.0 hb.0 hr.0,
  xorcmp_bytes a b ref (omega arith) (omega arith) ha.1 hb.1 hr.1,
)
xorcmp_bytes _ _ _ p q ha hb hr = absurd (omega arith)

-- For identifiers, `xorcmp` compares the distances to the reference: their bytes are the
-- exclusive ors, and the first byte that differs decides.
pub xorcmp-distance :
    (a b ref : Bytes)
    → IsId a
    → IsId b
    → IsId ref
    → xorcmp a b ref ≡ memcmp (distance a ref) (distance b ref)
xorcmp-distance a b ref ha hb hr =
    xorcmp_bytes a b ref (omega arith) (omega arith) ha.bytes hb.bytes hr.bytes

xorcmp_zero :
    (a b ref : Bytes)
    → length a ≡ length ref
    → length b ≡ length ref
    → xorcmp a b ref ≡ Ordering.eq
    → a ≡ b
unfolding xorcmp
xorcmp_zero [] [] [] p q h = refl
xorcmp_zero (x ∷ a) (y ∷ b) (r ∷ ref) p q h =
    ground (arith, xorcmp_zero a b ref (omega arith) (omega arith))
xorcmp_zero _ _ _ p q h = absurd (omega arith)

xorcmp_same : (a ref : Bytes) → xorcmp a a ref ≡ Ordering.eq
unfolding xorcmp
xorcmp_same [] ref = refl
xorcmp_same (x ∷ a) [] = refl
xorcmp_same (x ∷ a) (r ∷ ref) = ground (arith, xorcmp_same a ref)

-- Only an identifier itself is at its own distance from a reference.
pub xorcmp_eq_iff :
    (a b ref : Bytes) → IsId a → IsId b → IsId ref → (xorcmp a b ref ≡ Ordering.eq) ↔ (a ≡ b)
xorcmp_eq_iff a b ref ha hb hr = (
  xorcmp_zero a b ref (omega arith) (omega arith),
  λ e. subst (λ c. xorcmp a c ref ≡ Ordering.eq) e (xorcmp_same a ref),
)

-- Being closer to a reference is transitive.
pub xorcmp_trans :
    (a b c ref : Bytes)
    → IsId a
    → IsId b
    → IsId c
    → IsId ref
    → xorcmp a b ref ≡ Ordering.lt
    → xorcmp b c ref ≡ Ordering.lt
    → xorcmp a c ref ≡ Ordering.lt
xorcmp_trans a b c ref ha hb hc hr p q = rw (xorcmp-distance a c ref ha hc hr) (
    memcmp_trans (distance a ref) (distance b ref) (distance c ref)
      (rw (xorcmp-distance a b ref ha hb hr) at p) (rw (xorcmp-distance b c ref hb hc hr) at q))

-- Of two identifiers, when the first is not closer and they differ, the second is closer.
pub xorcmp_flip :
    (a b ref : Bytes)
    → IsId a
    → IsId b
    → IsId ref
    → xorcmp a b ref ≡ Ordering.gt
    → xorcmp b a ref ≡ Ordering.lt
xorcmp_flip a b ref ha hb hr p =
    rw (xorcmp-distance b a ref hb ha hr)
      (memcmp_flip (distance a ref) (distance b ref) (rw (xorcmp-distance a b ref ha hb hr) at p))
