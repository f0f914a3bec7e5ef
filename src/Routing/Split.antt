-- ===== src/Routing/Split.antt =====
-- What `split_bucket` makes of a table: two buckets in place of one, with its nodes dealt out.
use dtndht.Base.{
  ℕ, suc, Bytes, memcmp, Ordering, is_lt, true, false, List, [], ◌∷◌, ◌++◌, ◌≡◌, refl, ap, sym, ◌∙◌,
  subst, arith, some, none, length, drop, Bool-cases, inl, inr, if◌then◌else◌, Option, All,
  drop-length-append,
}
use dtndht.Net.{Family}
use dtndht.Ids.{id_cmp}
use dtndht.Routing.{Node, Bucket, Routing, table, set_table, in_bucket, not_after, find_bucket}
use dtndht.Routing.Update.{modify_at, push, first_of, insert_node, insert_all}
use dtndht.Routing.Find.{Chain, find_bucket_at, not_after_of_not_lt}
use dtndht.Routing.Invariant.{in_range, in_bucket-in_range, IsPlaced}

-- Dealing nodes out to the halves below and from `middle` on.
unfoldable pub deal : Bytes → List Node → Bucket → Bucket → Bucket × Bucket
deal middle [] low high = (low, high)
deal middle (n ∷ nodes) low high =
    if is_lt (id_cmp n.id middle)
    then deal middle nodes (push n low) high
    else deal middle nodes low (push n high)

pub table-set_table :
    (af : Family) (bs : List Bucket) (r : Routing) → table af (set_table af bs r) ≡ bs
table-set_table Family.inet bs r = refl
table-set_table Family.inet6 bs r = refl
table-set_table Family.unspec bs r = refl

pub set_table_twice :
    (af : Family) (bs cs : List Bucket) (r : Routing)
    → set_table af bs (set_table af cs r) ≡ set_table af bs r
set_table_twice Family.inet bs cs r = refl
set_table_twice Family.inet6 bs cs r = refl
set_table_twice Family.unspec bs cs r = refl

Chain-replace :
    (before : List Bucket) (b : Bucket) (next : List Bucket) (c : Bucket) (rest : List Bucket)
    → c.first ≡ b.first
    → Chain (before ++ b ∷ next)
    → Chain (c ∷ rest)
    → Chain (before ++ c ∷ rest)
Chain-replace [] b next c rest e h k = k
Chain-replace (x ∷ []) b next c rest e h k =
    (subst (λ f. memcmp x.first f ≡ Ordering.lt) (sym e) h.0, k)
Chain-replace (x ∷ y ∷ before) b next c rest e h k =
    (h.0, Chain-replace (y ∷ before) b next c rest e h.1 k)

modify_at-append :
    (f : Bucket → Bucket) (before : List Bucket) (b : Bucket) (next : List Bucket)
    → modify_at f (length before) (before ++ b ∷ next) ≡ before ++ f b ∷ next
modify_at-append f [] b next = refl
modify_at-append f (x ∷ before) b next = ap (◌∷◌ x) (modify_at-append f before b next)

modify_at-append_next :
    (f : Bucket → Bucket) (before : List Bucket) (b c : Bucket) (next : List Bucket)
    → modify_at f (suc (length before)) (before ++ b ∷ c ∷ next) ≡ before ++ b ∷ f c ∷ next
modify_at-append_next f [] b c next = refl
modify_at-append_next f (x ∷ before) b c next = ap (◌∷◌ x) (modify_at-append_next f before b c next)

drop-append_next :
    (before : List Bucket) (b : Bucket) (next : List Bucket)
    → drop (suc (length before)) (before ++ b ∷ next) ≡ next
drop-append_next [] b next = refl
drop-append_next (x ∷ before) b next = drop-append_next before b next

insert_node_at :
    (n : Node) (af : Family) (i : ℕ) (r : Routing)
    → n.ss.family ≡ af
    → find_bucket n.id (table af r) ≡ some i
    → insert_node n r ≡ set_table af (modify_at (push n) i (table af r)) r
unfolding insert_node
insert_node_at n af i r fam =
    subst
      (λ f.
        find_bucket n.id (table f r) ≡ some i
        → insert_node n r ≡ set_table f (modify_at (push n) i (table f r)) r)
      fam (λ e. rw (e, insert_node))

Chain-push :
    (n : Node) (b : Bucket) (next : List Bucket) → Chain (b ∷ next) → Chain (push n b ∷ next)
Chain-push n b [] h = h
Chain-push n b (c ∷ next) h = h

pub in_range-not_after :
    (first : Bytes) (end : Option Bytes) (id : Bytes)
    → in_range first end id ≡ true
    → not_after first id ≡ true
in_range-not_after first none id h = h
in_range-not_after first (some e) id h = ground arith

pub in_range_from :
    (first second : Bytes) (end : Option Bytes) (id : Bytes)
    → in_range first end id ≡ true
    → not_after second id ≡ true
    → in_range second end id ≡ true
in_range_from first second none id h k = k
in_range_from first second (some e) id h k = ground arith

module _ (af : Family) (before next : List Bucket) (r : Routing) where
  -- The table with the two halves, in front of the buckets behind.
  abbrev halved : Bucket → Bucket → Routing
  halved low high = set_table af (before ++ low ∷ high ∷ next) r

  insert_low :
      (n : Node) (low high : Bucket)
      → n.ss.family ≡ af
      → Chain (before ++ low ∷ high ∷ next)
      → in_bucket n.id (low ∷ high ∷ next) ≡ true
      → insert_node n (halved low high) ≡ halved (push n low) high
  insert_low n low high fam c h =
      insert_node_at n af (length before) (halved low high) fam (
        rw table-set_table
          (find_bucket_at n.id (length before) _ c (rw (drop-length-append before) h)))
      ∙ rw (table-set_table, modify_at-append) (set_table_twice af _ _ r)

  insert_high :
      (n : Node) (low high : Bucket)
      → n.ss.family ≡ af
      → Chain (before ++ low ∷ high ∷ next)
      → in_bucket n.id (high ∷ next) ≡ true
      → insert_node n (halved low high) ≡ halved low (push n high)
  insert_high n low high fam c h =
      insert_node_at n af (suc (length before)) (halved low high) fam (
        rw table-set_table
          (find_bucket_at n.id (suc (length before)) _ c (rw (drop-append_next before low) h)))
      ∙ rw (table-set_table, modify_at-append_next) (set_table_twice af _ _ r)

  below :
      (n : Node) (low high : Bucket)
      → IsPlaced af low.first (first_of next) n
      → is_lt (memcmp n.id high.first) ≡ true
      → in_bucket n.id (low ∷ high ∷ next) ≡ true
  unfolding in_bucket
  below n low high p q = ground (arith, in_range-not_after low.first (first_of next) n.id p.ranged)

  from :
      (n : Node) (low high : Bucket)
      → IsPlaced af low.first (first_of next) n
      → is_lt (memcmp n.id high.first) ≡ false
      → in_bucket n.id (high ∷ next) ≡ true
  from n low high p q = rw in_bucket-in_range (
      in_range_from low.first high.first (first_of next) n.id p.ranged
        (not_after_of_not_lt n.id high.first q))

  pub insert_all-deal :
      (nodes : List Node) (low high : Bucket)
      → Chain (before ++ low ∷ high ∷ next)
      → memcmp low.first high.first ≡ Ordering.lt
      → Chain (high ∷ next)
      → All (IsPlaced af low.first (first_of next)) nodes
      → insert_all nodes (halved low high)
        ≡ halved (deal high.first nodes low high).0 (deal high.first nodes low high).1
  unfolding insert_all deal
  insert_all-deal [] low high c l d p = refl
  insert_all-deal (n ∷ nodes) low high c l d p =
      elim (Bool-cases (is_lt (memcmp n.id high.first))) [
        | inl q ↦
            rw (q, deal)
              (ap (insert_all nodes) (insert_low n low high p.0.in_af c (below n low high p.0 q))
                ∙ insert_all-deal nodes (push n low) high
                    (Chain-replace before low (high ∷ next) (push n low) (high ∷ next) refl c
                      (l, d))
                    l d p.1)
        | inr q ↦
            rw (q, deal)
              (ap (insert_all nodes) (insert_high n low high p.0.in_af c (from n low high p.0 q))
                ∙ insert_all-deal nodes low (push n high)
                    (Chain-replace before low (high ∷ next) low (push n high ∷ next) refl c
                      (l, Chain-push n high next d))
                    l (Chain-push n high next d) p.1)
      ]
