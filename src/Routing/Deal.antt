-- ===== src/Routing/Deal.antt =====
-- The two halves of a split bucket are well-formed, and hold the nodes of the bucket.
use dtndht.Base.{
  ◌+◌, ◌≤◌, Bytes, memcmp, same, same_iff, same_eq, is_lt, true, false, List, [], ◌∷◌, ◌≡◌, refl,
  arith, some, none, length, Bool-cases, inl, inr, Option, All,
}
use dtndht.Net.{Family}
use dtndht.Routing.{Node, Bucket, find_in}
use dtndht.Routing.Update.{push}
use dtndht.Routing.Find.{not_after_of_not_lt}
use dtndht.Routing.Invariant.{Apart, Distinct, IsPlaced, IsBucket}
use dtndht.Routing.Writes.{IsBucket-push}
use dtndht.Routing.Split.{deal, in_range_from, in_range-not_after}

-- The nodes still to be dealt have other identifiers than those already there.
abbrev pub Fresh : List Node → Bucket → Type 0
Fresh nodes b = All (λ (m : Node). Apart m.id b.nodes) nodes

same_flip : (a b : Bytes) → same a b ≡ false → same b a ≡ false
same_flip a b h = elim (Bool-cases (same b a)) [
  | inl p ↦ absurd (ground (arith, same_iff a b, same_iff b a))
  | inr p ↦ p
]

Fresh-push :
    (n : Node) (nodes : List Node) (b : Bucket)
    → Apart n.id nodes
    → Fresh nodes b
    → Fresh nodes (push n b)
Fresh-push n [] b a f = tt
Fresh-push n (m ∷ nodes) b a f = ((same_flip m.id n.id a.0, f.0), Fresh-push n nodes b a.1 f.1)

IsPlaced-low :
    (af : Family) (first middle : Bytes) (end : Option Bytes) (n : Node)
    → IsPlaced af first end n
    → is_lt (memcmp n.id middle) ≡ true
    → IsPlaced af first (some middle) n
IsPlaced-low af first middle end n p q = record {
  is_id = p.is_id;
  in_af = p.in_af;
  ranged = ground (arith, in_range-not_after first end n.id p.ranged);
}

IsPlaced-high :
    (af : Family) (first middle : Bytes) (end : Option Bytes) (n : Node)
    → IsPlaced af first end n
    → is_lt (memcmp n.id middle) ≡ false
    → IsPlaced af middle end n
IsPlaced-high af first middle end n p q = record {
  is_id = p.is_id;
  in_af = p.in_af;
  ranged = in_range_from first middle end n.id p.ranged (not_after_of_not_lt n.id middle q);
}

-- What dealing keeps, for the halves so far and the nodes that are left.
pub record IsDealt (af : Family) (end : Option Bytes) (nodes : List Node) (low high : Bucket)
    : Type 0 where
  pub is_low : IsBucket af low (some high.first)
  pub is_high : IsBucket af high end
  pub room : low.count + high.count + length nodes ≤ 8
  pub inside : All (IsPlaced af low.first end) nodes
  pub distinct : Distinct nodes
  pub fresh_low : Fresh nodes low
  pub fresh_high : Fresh nodes high

deal_low :
    (af : Family) (end : Option Bytes) (n : Node) (nodes : List Node) (low high : Bucket)
    → is_lt (memcmp n.id high.first) ≡ true
    → IsDealt af end (n ∷ nodes) low high
    → IsDealt af end nodes (push n low) high
deal_low af end n nodes low high q d = record {
  is_low =
      IsBucket-push af low (some high.first) n (omega (arith, d.room))
        (IsPlaced-low af low.first high.first end n d.inside.0 q) d.fresh_low.0 d.is_low;
  is_high = d.is_high;
  room = omega (arith, d.room);
  inside = d.inside.1;
  distinct = d.distinct.1;
  fresh_low = Fresh-push n nodes low d.distinct.0 d.fresh_low.1;
  fresh_high = d.fresh_high.1;
}

deal_high :
    (af : Family) (end : Option Bytes) (n : Node) (nodes : List Node) (low high : Bucket)
    → is_lt (memcmp n.id high.first) ≡ false
    → IsDealt af end (n ∷ nodes) low high
    → IsDealt af end nodes low (push n high)
deal_high af end n nodes low high q d = record {
  is_low = d.is_low;
  is_high =
      IsBucket-push af high end n (omega (arith, d.room))
        (IsPlaced-high af low.first high.first end n d.inside.0 q) d.fresh_high.0 d.is_high;
  room = omega (arith, d.room);
  inside = d.inside.1;
  distinct = d.distinct.1;
  fresh_low = d.fresh_low.1;
  fresh_high = Fresh-push n nodes high d.distinct.0 d.fresh_high.1;
}

pub record AreHalves (af : Family) (first middle : Bytes) (end : Option Bytes) (p : Bucket × Bucket)
    : Type 0 where
  pub is_low : IsBucket af p.0 (some middle)
  pub is_high : IsBucket af p.1 end
  pub low_first : p.0.first ≡ first
  pub high_first : p.1.first ≡ middle

pub deal-AreHalves :
    (af : Family) (end : Option Bytes) (nodes : List Node) (low high : Bucket)
    → IsDealt af end nodes low high
    → AreHalves af low.first high.first end (deal high.first nodes low high)
unfolding deal
deal-AreHalves af end [] low high d = record {
  is_low = d.is_low;
  is_high = d.is_high;
  low_first = refl;
  high_first = refl;
}
deal-AreHalves af end (n ∷ nodes) low high d = elim (Bool-cases (is_lt (memcmp n.id high.first))) [
  | inl q ↦
      rw (q, deal)
        (deal-AreHalves af end nodes (push n low) high (deal_low af end n nodes low high q d))
  | inr q ↦
      rw (q, deal)
        (deal-AreHalves af end nodes low (push n high) (deal_high af end n nodes low high q d))
]

-- A node found in what was dealt out, or in the half before.
abbrev pub or_else : Option Node → Option Node → Option Node
or_else none o = o
or_else (some n) o = some n

find_in-Apart : (id : Bytes) (l : List Node) → Apart id l → find_in id l ≡ none
unfolding find_in
find_in-Apart id [] a = refl
find_in-Apart id (n ∷ l) a = ground (arith, a.0, find_in-Apart id l a.1)

pub find_in-deal_low :
    (id middle : Bytes) (nodes : List Node) (low high : Bucket)
    → is_lt (memcmp id middle) ≡ true
    → Distinct nodes
    → find_in id (deal middle nodes low high).0.nodes
      ≡ or_else (find_in id nodes) (find_in id low.nodes)
unfolding deal find_in
find_in-deal_low id middle [] low high h d = refl
find_in-deal_low id middle (n ∷ nodes) low high h d = ground (
  arith,
  same_eq n.id id,
  find_in-Apart n.id nodes d.0,
  find_in-deal_low id middle nodes (push n low) high h d.1,
  find_in-deal_low id middle nodes low (push n high) h d.1,
)

pub find_in-deal_high :
    (id middle : Bytes) (nodes : List Node) (low high : Bucket)
    → is_lt (memcmp id middle) ≡ false
    → Distinct nodes
    → find_in id (deal middle nodes low high).1.nodes
      ≡ or_else (find_in id nodes) (find_in id high.nodes)
unfolding deal find_in
find_in-deal_high id middle [] low high h d = refl
find_in-deal_high id middle (n ∷ nodes) low high h d = ground (
  arith,
  same_eq n.id id,
  find_in-Apart n.id nodes d.0,
  find_in-deal_high id middle nodes (push n low) high h d.1,
  find_in-deal_high id middle nodes low (push n high) h d.1,
)
