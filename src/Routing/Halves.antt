-- ===== src/Routing/Halves.antt =====
-- `split_bucket` keeps the table well-formed and every node findable.
use dtndht.Base.{
  ℕ, zero, suc, Bytes, memcmp, Ordering, List, [], ◌∷◌, ◌++◌, ◌≡◌, ◌≢◌, refl, ap, sym, ◌∙◌, subst,
  arith, some, none, take, drop, Option, get_elem?, All,
}
use dtndht.Net.{Family}
use dtndht.Ids.{IsId, bucket_middle}
use dtndht.Ids.Middle.{bucket_middle-above, bucket_middle_between}
use dtndht.Routing.{Node, Bucket, Routing, Ping, table, set_table}
use dtndht.Routing.Update.{first_of, halves, send_cached_ping, split_at, split_bucket, insert_all}
use dtndht.Routing.Find.{Chain}
use dtndht.Routing.Invariant.{
  Apart, Before, IsPlaced, IsBucket, IsTable, IsTable-Chain, IsTable-tail, IsTable-replace,
  FromZero, IsRouting,
}
use dtndht.Routing.Split.{deal, insert_all-deal}
use dtndht.Routing.Deal.{Fresh, IsDealt, AreHalves, deal-AreHalves}

-- The middle lies before the first identifier of the next bucket.
middle-Before :
    (af : Family) (b : Bucket) (next : List Bucket) (middle : Bytes)
    → IsTable af (b ∷ next)
    → bucket_middle b.first (first_of next) ≡ some middle
    → Before middle (first_of next)
middle-Before af b [] middle h e = tt
middle-Before af b (c ∷ next) middle h e =
    (bucket_middle_between b.first c.first middle h.0.first_id h.1.0.first_id h.0.sorted e).1

halves-first :
    (b : Bucket) (middle : Bytes)
    → ((halves b middle).0.first ≡ b.first) × ((halves b middle).1.first ≡ middle)
unfolding halves send_cached_ping
halves-first b middle = (ground arith, refl)

Fresh-nil : (nodes : List Node) (b : Bucket) → b.nodes ≡ [] → Fresh nodes b
Fresh-nil [] b e = tt
Fresh-nil (n ∷ nodes) b e = (subst (Apart n.id) (sym e) tt, Fresh-nil nodes b e)

-- The halves as they are before any node is dealt.
halves-IsDealt :
    (af : Family) (b : Bucket) (next : List Bucket) (middle : Bytes)
    → IsTable af (b ∷ next)
    → bucket_middle b.first (first_of next) ≡ some middle
    → IsDealt af (first_of next) b.nodes (halves b middle).0 (halves b middle).1
unfolding halves
halves-IsDealt af b next middle h e = by_ping (send_cached_ping b).0 same_af same_first
  where
    same_af : (send_cached_ping b).0.af ≡ b.af
    same_af = unfold send_cached_ping in ground arith

    same_first : (send_cached_ping b).0.first ≡ b.first
    same_first = unfold send_cached_ping in ground arith

    above : IsId middle × (memcmp b.first middle ≡ Ordering.lt)
    above = bucket_middle-above b.first (first_of next) h.0.first_id e

    by_ping :
        (c : Bucket)
        → c.af ≡ b.af
        → c.first ≡ b.first
        → IsDealt af
            (first_of next)
            b.nodes
            (record c { nodes = []; count = 0 })
            (halves b middle).1
    by_ping c p q = record {
      is_low = record {
        family = p ∙ h.0.family;
        first_id = subst IsId (sym q) h.0.first_id;
        sorted = subst (λ f. memcmp f middle ≡ Ordering.lt) (sym q) above.1;
        counted = refl;
        capacity = omega arith;
        placed = tt;
        distinct = tt;
      };
      is_high = record {
        family = h.0.family;
        first_id = above.0;
        sorted = middle-Before af b next middle h e;
        counted = refl;
        capacity = omega arith;
        placed = tt;
        distinct = tt;
      };
      room = omega (arith, h.0.counted, h.0.capacity);
      inside = subst (λ f. All (IsPlaced af f (first_of next)) b.nodes) (sym q) h.0.placed;
      distinct = h.0.distinct;
      fresh_low = Fresh-nil b.nodes (record c { nodes = []; count = 0 }) refl;
      fresh_high = Fresh-nil b.nodes (halves b middle).1 refl;
    }

-- How a table is after a split.
pub record IsSplit (af : Family) (before : List Bucket) (b : Bucket) (next : List Bucket)
    (r r' : Routing) : Type 0 where
  pub middle : Bytes
  pub low : Bucket
  pub high : Bucket
  pub dealt : AreHalves af b.first middle (first_of next) (low, high)
  pub result : r' ≡ set_table af (before ++ low ∷ high ∷ next) r
  pub low_nodes : low.nodes ≡ (deal middle b.nodes (halves b middle).0 (halves b middle).1).0.nodes
  pub high_nodes :
      high.nodes ≡ (deal middle b.nodes (halves b middle).0 (halves b middle).1).1.nodes

Chain-halves :
    (af : Family) (before : List Bucket) (b : Bucket) (next : List Bucket) (low high : Bucket)
    → low.first ≡ b.first
    → IsTable af (before ++ b ∷ next)
    → IsTable af (low ∷ high ∷ next)
    → Chain (before ++ low ∷ high ∷ next)
Chain-halves af before b next low high e h k =
    IsTable-Chain af (before ++ low ∷ high ∷ next)
      (IsTable-replace af before b next low (high ∷ next) e h k)

split_at-some :
    (af : Family) (before : List Bucket) (b : Bucket) (next : List Bucket) (r r' : Routing)
    (pings : List Ping) (middle : Bytes)
    → bucket_middle b.first (first_of next) ≡ some middle
    → split_at af before (b ∷ next) r ≡ some (r', pings)
    → r'
      ≡ insert_all b.nodes
          (set_table af (before ++ (halves b middle).0 ∷ (halves b middle).1 ∷ next) r)
unfolding split_at
split_at-some af before b next r r' pings middle p e = ground arith

split_at-IsSplit :
    (af : Family) (before : List Bucket) (b : Bucket) (next : List Bucket) (r r' : Routing)
    (pings : List Ping)
    → IsTable af (before ++ b ∷ next)
    → split_at af before (b ∷ next) r ≡ some (r', pings)
    → IsSplit af before b next r r'
unfolding split_at halves
split_at-IsSplit af before b next r r' pings h e =
    by_middle (bucket_middle b.first (first_of next)) refl
  where
    tail : IsTable af (b ∷ next)
    tail = IsTable-tail af before (b ∷ next) h

    by_middle :
        (o : Option Bytes)
        → bucket_middle b.first (first_of next) ≡ o
        → IsSplit af before b next r r'
    by_middle none p = absurd (ground arith)
    by_middle (some middle) p =
        let low = (halves b middle).0 in
        let high = (halves b middle).1 in
        let d = halves-IsDealt af b next middle tail p in
        let f = halves-first b middle in
        let start : IsTable af (low ∷ high ∷ next) = (d.is_low, (d.is_high, tail.1)) in
        let all =
          insert_all-deal af before next r b.nodes low high
            (Chain-halves af before b next low high f.0 h start) d.is_low.sorted
            (IsTable-Chain af (high ∷ next) start.1) d.inside in
        record {
          middle = middle;
          low = (deal middle b.nodes low high).0;
          high = (deal middle b.nodes low high).1;
          dealt =
              subst (λ x. AreHalves af x middle (first_of next) (deal middle b.nodes low high)) f.0
                (deal-AreHalves af (first_of next) b.nodes low high d);
          result = split_at-some af before b next r r' pings middle p e ∙ all;
          low_nodes = refl;
          high_nodes = refl;
        }

IsTable-IsSplit :
    {af : Family} {before : List Bucket} {b : Bucket} {next : List Bucket} {r r' : Routing}
    → IsTable af (before ++ b ∷ next)
    → (s : IsSplit af before b next r r') → IsTable af (before ++ s.low ∷ s.high ∷ next)
IsTable-IsSplit {af} {before} {b} {next} h s =
    let tail = IsTable-tail af before (b ∷ next) h in
    IsTable-replace af before b next s.low (s.high ∷ next) s.dealt.low_first h (
      subst (λ x. IsBucket af s.low (some x)) (sym s.dealt.high_first) s.dealt.is_low,
      (s.dealt.is_high, tail.1),
    )

-- The bucket at a position, between those in front of it and those behind.
pub cut_at :
    (i : ℕ) (bs : List Bucket) (b : Bucket)
    → get_elem? bs i ≡ some b
    → (bs ≡ take i bs ++ b ∷ drop (suc i) bs) × (drop i bs ≡ b ∷ drop (suc i) bs)
cut_at i [] b e = cc
cut_at zero (x ∷ bs) b e = let p : x ≡ b = ground arith in (ap (λ y. y ∷ bs) p, ap (λ y. y ∷ bs) p)
cut_at (suc i) (x ∷ bs) b e = let (p, q) = cut_at i bs b e in (ap (◌∷◌ x) p, q)

pub split_bucket-IsSplit :
    (af : Family) (i : ℕ) (b : Bucket) (r r' : Routing) (pings : List Ping)
    → get_elem? (table af r) i ≡ some b
    → IsTable af (table af r)
    → split_bucket af i r ≡ some (r', pings)
    → IsSplit af (take i (table af r)) b (drop (suc i) (table af r)) r r'
unfolding split_bucket
split_bucket-IsSplit af i b r r' pings g h e =
    let (p, q) = cut_at i (table af r) b g in
    split_at-IsSplit af (take i (table af r)) b (drop (suc i) (table af r)) r r' pings
      (subst (IsTable af) p h)
      (subst (λ t. split_at af (take i (table af r)) t r ≡ some (r', pings)) q e)

-- A bucket of a known family's table; the other table is not touched.
pub set_table-IsRouting :
    (af : Family) (bs : List Bucket) (r : Routing)
    → af ≢ Family.unspec
    → IsTable af bs
    → FromZero bs
    → IsRouting r
    → IsRouting (set_table af bs r)
set_table-IsRouting Family.inet bs r k t z h = record {
  table4 = t;
  table6 = h.table6;
  zero4 = z;
  zero6 = h.zero6;
}
set_table-IsRouting Family.inet6 bs r k t z h = record {
  table4 = h.table4;
  table6 = t;
  zero4 = h.zero4;
  zero6 = z;
}
set_table-IsRouting Family.unspec bs r k t z h = absurd (k refl)

pub IsRouting-table :
    (af : Family) (r : Routing)
    → af ≢ Family.unspec
    → IsRouting r
    → IsTable af (table af r) × FromZero (table af r)
IsRouting-table Family.inet r k h = (h.table4, h.zero4)
IsRouting-table Family.inet6 r k h = (h.table6, h.zero6)
IsRouting-table Family.unspec r k h = absurd (k refl)

FromZero-replace :
    (before : List Bucket) (b : Bucket) (next : List Bucket) (c : Bucket) (rest : List Bucket)
    → c.first ≡ b.first
    → FromZero (before ++ b ∷ next)
    → FromZero (before ++ c ∷ rest)
FromZero-replace [] b next c rest e h = e ∙ h
FromZero-replace (x ∷ before) b next c rest e h = h

-- Splitting a bucket of a well-formed table gives a well-formed table: the buckets are sorted, no
-- bucket has more than eight nodes, its count is their number, each node lies in the range of its
-- bucket, and no bucket has an identifier twice.
pub split_bucket-IsRouting :
    (af : Family) (i : ℕ) (b : Bucket) (r r' : Routing) (pings : List Ping)
    → af ≢ Family.unspec
    → get_elem? (table af r) i ≡ some b
    → IsRouting r
    → split_bucket af i r ≡ some (r', pings)
    → IsRouting r'
split_bucket-IsRouting af i b r r' pings k g h e =
    let (t, z) = IsRouting-table af r k h in
    let (p, _) = cut_at i (table af r) b g in
    let s = split_bucket-IsSplit af i b r r' pings g t e in
    subst IsRouting (sym s.result) (
      set_table-IsRouting af _ r k (IsTable-IsSplit (subst (IsTable af) p t) s)
        (FromZero-replace (take i (table af r)) b _ s.low _ s.dealt.low_first (subst FromZero p z))
        h)
