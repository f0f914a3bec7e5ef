-- ===== src/Routing/Lookup.antt =====
-- `find_node` does not notice a split.
use dtndht.Base.{
  Bool-cases, inl, inr, ℕ, suc, Bytes, memcmp, memcmp_trans, is_lt, true, false, List, [], ◌∷◌,
  ◌++◌, ◌≡◌, ◌≢◌, refl, ap, sym, ◌∙◌, subst, arith, some, none, take, drop, if◌then◌else◌, Option,
  get_elem?,
}
use dtndht.Net.{Family}
use dtndht.Routing.{
  Node, Bucket, Routing, Ping, table, find_in, find_bucket, find_from, nodes_at, find_node,
}
use dtndht.Routing.Update.{first_of, halves, split_bucket}
use dtndht.Routing.Invariant.{Distinct, Before, IsBucket, IsTable, IsTable-tail, IsRouting}
use dtndht.Routing.Split.{table-set_table}
use dtndht.Routing.Deal.{find_in-deal_low, find_in-deal_high, or_else}
use dtndht.Routing.Halves.{IsSplit, cut_at, split_bucket-IsSplit, IsRouting-table}

-- `find_node` in one table.
look : Bytes → List Bucket → Option Node
look id bs = find_in id (nodes_at (find_bucket id bs) bs)

look-cons :
    (id : Bytes) (b c : Bucket) (next : List Bucket)
    → look id (b ∷ c ∷ next)
      ≡ (if is_lt (memcmp id c.first) then find_in id b.nodes else look id (c ∷ next))
unfolding look find_bucket find_from
look-cons id b c next = ground arith

look-one : (id : Bytes) (b : Bucket) → look id (b ∷ []) ≡ find_in id b.nodes
unfolding look find_bucket find_from
look-one id b = refl

or_else-none : (o : Option Node) → or_else o none ≡ o
or_else-none none = refl
or_else-none (some n) = refl

look_two :
    (id middle : Bytes) (low high b : Bucket) (next : List Bucket)
    → high.first ≡ middle
    → Before middle (first_of next)
    → (is_lt (memcmp id middle) ≡ true → find_in id low.nodes ≡ find_in id b.nodes)
    → (is_lt (memcmp id middle) ≡ false → find_in id high.nodes ≡ find_in id b.nodes)
    → look id (low ∷ high ∷ next) ≡ look id (b ∷ next)
look_two id middle low high b [] e o f g = elim (Bool-cases (is_lt (memcmp id middle))) [
  | inl p ↦ ground (arith, look-cons id low high [], look-one id high, look-one id b, f p)
  | inr p ↦ ground (arith, look-cons id low high [], look-one id high, look-one id b, g p)
]
look_two id middle low high b (c ∷ next) e o f g = elim (Bool-cases (is_lt (memcmp id middle))) [
  | inl p ↦ ground (
    arith,
    look-cons id low high (c ∷ next),
    look-cons id b c next,
    f p,
    memcmp_trans id middle c.first,
  )
  | inr p ↦ ground (
    arith,
    look-cons id low high (c ∷ next),
    look-cons id high c next,
    look-cons id b c next,
    g p,
  )
]

module _ (af : Family) (b : Bucket) (id : Bytes) where
  module _ (before next : List Bucket) (r r' : Routing) (s : IsSplit af before b next r r')
      (d : Distinct b.nodes) where
    found_low : is_lt (memcmp id s.middle) ≡ true → find_in id s.low.nodes ≡ find_in id b.nodes
    unfolding halves find_in
    found_low h =
        ap (find_in id) s.low_nodes
        ∙ find_in-deal_low id s.middle b.nodes (halves b s.middle).0 (halves b s.middle).1 h d
        ∙ or_else-none (find_in id b.nodes)

    found_high : is_lt (memcmp id s.middle) ≡ false → find_in id s.high.nodes ≡ find_in id b.nodes
    unfolding halves find_in
    found_high h =
        ap (find_in id) s.high_nodes
        ∙ find_in-deal_high id s.middle b.nodes (halves b s.middle).0 (halves b s.middle).1 h d
        ∙ or_else-none (find_in id b.nodes)

    Before-end :
        (n : List Bucket) → IsBucket af s.high (first_of n) → Before s.high.first (first_of n)
    Before-end n h = h.sorted

    look_halves : IsTable af (b ∷ next) → look id (s.low ∷ s.high ∷ next) ≡ look id (b ∷ next)
    look_halves t =
        look_two id s.middle s.low s.high b next s.dealt.high_first
          (subst (λ x. Before x (first_of next)) s.dealt.high_first
            (Before-end next s.dealt.is_high))
          found_low found_high

look-replace :
    (id : Bytes) (before : List Bucket) (b : Bucket) (next : List Bucket) (c : Bucket)
    (rest : List Bucket)
    → c.first ≡ b.first
    → look id (c ∷ rest) ≡ look id (b ∷ next)
    → look id (before ++ c ∷ rest) ≡ look id (before ++ b ∷ next)
look-replace id [] b next c rest e h = h
look-replace id (x ∷ []) b next c rest e h =
    ground (arith, look-cons id x c rest, look-cons id x b next)
look-replace id (x ∷ y ∷ before) b next c rest e h = ground (
  arith,
  look-cons id x y (before ++ c ∷ rest),
  look-cons id x y (before ++ b ∷ next),
  look-replace id (y ∷ before) b next c rest e h,
)

table-IsSplit :
    {af : Family} {before : List Bucket} {b : Bucket} {next : List Bucket} {r r' : Routing}
    → (s : IsSplit af before b next r r') → table af r' ≡ before ++ s.low ∷ s.high ∷ next
table-IsSplit {af} {before} {b} {next} {r} s = ap (table af) s.result ∙ table-set_table af _ r

-- After a bucket of a well-formed table has been split, `find_node` gives for every identifier
-- the node that it gave before, or none where it gave none.
pub find_node-split_bucket :
    (af : Family) (i : ℕ) (b : Bucket) (r r' : Routing) (pings : List Ping) (id : Bytes)
    → af ≢ Family.unspec
    → get_elem? (table af r) i ≡ some b
    → IsRouting r
    → split_bucket af i r ≡ some (r', pings)
    → find_node id af r' ≡ find_node id af r
unfolding find_node look
find_node-split_bucket af i b r r' pings id k g h e =
    let (t, _) = IsRouting-table af r k h in
    let (p, _) = cut_at i (table af r) b g in
    let s = split_bucket-IsSplit af i b r r' pings g t e in
    let tail =
      IsTable-tail af (take i (table af r)) (b ∷ drop (suc i) (table af r))
        (subst (IsTable af) p t) in
    ap (look id) (table-IsSplit s)
    ∙ look-replace id (take i (table af r)) b (drop (suc i) (table af r)) s.low _ s.dealt.low_first
        (look_halves af b id (take i (table af r)) (drop (suc i) (table af r)) r r' s
          tail.0.distinct tail)
    ∙ ap (look id) (sym p)
