-- ===== src/Routing/Keeps.antt =====
-- `new_node` keeps the routing table well-formed.
use dtndht.Base.{
  ℕ, zero, suc, Bytes, memcmp, same, Bool, true, false, ◌||◌, List, [], ◌∷◌, ◌≡◌, ◌≢◌, refl, ap,
  sym, ◌∙◌, subst, arith, some, length, drop, Bool-cases, Option-cases, inl, inr, if◌then◌else◌,
  if_both, Option, get_elem?, leb, replicate,
}
use dtndht.Net.{Family, SockAddr}
use dtndht.Ids.{IsId}
use dtndht.Routing.{
  Bucket, Routing, Ping, table, find_bucket, find_in, not_after, zeroes, is_martian,
}
use dtndht.Routing.Update.{
  modify_at, first_of, Confirm, push, is_reply, split_bucket, ping_dubious, wants_split, cache,
  grow, replace_bad, fresh_node, refresh_known,
}
use dtndht.Routing.Learn.{
  Outcome, set_nodes, write, split_outcome, crowded, learn_new, learn_in, learn, new_node,
}
use dtndht.Routing.Find.{find_bucket_iff}
use dtndht.Routing.Invariant.{
  Apart, in_range, in_bucket-in_range, IsPlaced, IsBucket, IsTable, IsTable-Chain, FromZero,
  IsRouting, modify_at-IsTable,
}
use dtndht.Routing.Writes.{
  Apart-of_find_in, IsBucket-time, IsBucket-push, IsBucket-cache, IsBucket-refresh_known,
  IsBucket-replace_bad, IsBucket-ping_dubious,
}
use dtndht.Routing.Split.{table-set_table}
use dtndht.Routing.Halves.{cut_at, set_table-IsRouting, IsRouting-table, split_bucket-IsRouting}

get_elem?-modify_at :
    (f : Bucket → Bucket) (i : ℕ) (bs : List Bucket) (b : Bucket)
    → get_elem? bs i ≡ some b
    → get_elem? (modify_at f i bs) i ≡ some (f b)
get_elem?-modify_at f i [] b e = cc
get_elem?-modify_at f zero (x ∷ bs) b e = let p : x ≡ b = ground arith in ap (λ y. some (f y)) p
get_elem?-modify_at f (suc i) (x ∷ bs) b e = get_elem?-modify_at f i bs b e

drop-modify_at :
    (f : Bucket → Bucket) (i : ℕ) (bs : List Bucket)
    → drop (suc i) (modify_at f i bs) ≡ drop (suc i) bs
drop-modify_at f i [] = refl
drop-modify_at f zero (x ∷ bs) = refl
drop-modify_at f (suc i) (x ∷ bs) = drop-modify_at f i bs

FromZero-modify_at :
    (f : Bucket → Bucket) (i : ℕ) (bs : List Bucket) (b : Bucket)
    → get_elem? bs i ≡ some b
    → (f b).first ≡ b.first
    → FromZero bs
    → FromZero (modify_at f i bs)
FromZero-modify_at f i [] b g e z = tt
FromZero-modify_at f zero (x ∷ bs) b g e z =
    let p : x ≡ b = ground arith in
    subst (λ y. (f y).first ≡ zeroes) (sym p) (e ∙ subst (λ y. y.first ≡ zeroes) p z)
FromZero-modify_at f (suc i) (x ∷ bs) b g e z = z

-- The table after a round, whether it ended or goes on.
abbrev pub routing_of : Outcome → Routing
routing_of (Outcome.finished r pings done) = r
routing_of (Outcome.again r pings) = r

table-grow : (now : ℕ) (af : Family) (r : Routing) → table af (grow now af r) ≡ table af r
table-grow now Family.inet r = refl
table-grow now Family.inet6 r = refl
table-grow now Family.unspec r = refl

grow-IsRouting : (now : ℕ) (af : Family) (r : Routing) → IsRouting r → IsRouting (grow now af r)
grow-IsRouting now Family.inet r h = record {
  table4 = h.table4;
  table6 = h.table6;
  zero4 = h.zero4;
  zero6 = h.zero6;
}
grow-IsRouting now Family.inet6 r h = record {
  table4 = h.table4;
  table6 = h.table6;
  zero4 = h.zero4;
  zero6 = h.zero6;
}
grow-IsRouting now Family.unspec r h = record {
  table4 = h.table4;
  table6 = h.table6;
  zero4 = h.zero4;
  zero6 = h.zero6;
}

zeroes_first : (n : ℕ) (id : Bytes) → length id ≡ n → not_after (replicate n 0) id ≡ true
unfolding memcmp
zeroes_first zero [] h = refl
zeroes_first zero (x ∷ id) h = absurd (omega arith)
zeroes_first (suc n) [] h = absurd (omega arith)
zeroes_first (suc n) (zero ∷ id) h = zeroes_first n id (omega arith)
zeroes_first (suc n) (suc x ∷ id) h = ground arith

-- The bucket that `find_bucket` gives has the identifier in its range.
found-in_range :
    (af : Family) (bs : List Bucket) (id : Bytes) (i : ℕ) (b : Bucket)
    → IsId id
    → IsTable af bs
    → FromZero bs
    → find_bucket id bs ≡ some i
    → get_elem? bs i ≡ some b
    → in_range b.first (first_of (drop (suc i) bs)) id ≡ true
found-in_range af [] id i b v t z f g = cc
found-in_range af (c ∷ next) id i b v t z f g =
    let start : not_after c.first id ≡ true = rw z (zeroes_first 20 id v.len) in
    let inside = (find_bucket_iff id c next (IsTable-Chain af (c ∷ next) t) start i).0 f in
    let (_, q) = cut_at i (c ∷ next) b g in
    rw (← in_bucket-in_range id b (drop (suc i) (c ∷ next))) (rw (← q) inside)

module _ (now : ℕ) (blocked : Bool) (id : Bytes) (sa : SockAddr) (salen : ℕ) (confirm : Confirm)
    (k : sa.family ≢ Family.unspec) (v : IsId id) where
  -- The identifier belongs to the bucket at a position of a well-formed table.
  record At (i : ℕ) (b : Bucket) (r : Routing) : Type 0 where
    here : get_elem? (table sa.family r) i ≡ some b
    ranged : in_range b.first (first_of (drop (suc i) (table sa.family r))) id ≡ true
    well : IsRouting r

  At-write :
      (f : Bucket → Bucket) (i : ℕ) (b : Bucket) (r : Routing)
      → (f b).first ≡ b.first
      → ((end : Option Bytes)
          → in_range b.first end id ≡ true
          → IsBucket sa.family b end
          → IsBucket sa.family (f b) end)
      → At i b r
      → At i (f b) (write sa.family f i r)
  At-write f i b r e keep a =
      let (t, z) = IsRouting-table sa.family r k a.well in
      record {
        here = rw table-set_table (get_elem?-modify_at f i _ b a.here);
        ranged = rw (table-set_table, drop-modify_at, e) a.ranged;
        well =
            set_table-IsRouting sa.family _ r k
              (modify_at-IsTable sa.family f i _ b a.here e (keep _ a.ranged) t)
              (FromZero-modify_at f i _ b a.here e z) a.well;
      }

  cache_first : (b : Bucket) → (cache now id sa salen confirm b).first ≡ b.first
  unfolding cache
  cache_first b = ground arith

  after_split :
      (i : ℕ) (pings : List Ping) (b : Bucket) (r : Routing)
      → get_elem? (table sa.family r) i ≡ some b
      → IsRouting r
      → IsRouting (routing_of (split_outcome pings r (split_bucket sa.family i r)))
  after_split i pings b r g w = elim (Option-cases (split_bucket sa.family i r)) [
    | inl e ↦ rw e w
    | inr (r', e) ↦ rw e (split_bucket-IsRouting sa.family i b r r'.0 r'.1 k g w e)
  ]

  crowded-IsRouting :
      (i : ℕ) (b : Bucket) (mine : Bool) (r : Routing)
      → At i b r
      → IsRouting (routing_of (crowded now blocked id sa salen confirm i b mine r))
  unfolding crowded
  crowded-IsRouting i b mine r a =
      let nodes = (ping_dubious now b.nodes).0 in
      let a' =
        At-write (set_nodes nodes) i b r refl (λ end _. IsBucket-ping_dubious now sa.family b end)
          a in
      let pinged = write sa.family (set_nodes nodes) i r in
      let pings = (ping_dubious now b.nodes).2 in
      if_both (λ o. IsRouting (routing_of o))
        (wants_split mine (ping_dubious now b.nodes).1 b pinged)
        (split_outcome pings pinged (split_bucket sa.family i pinged))
        (Outcome.finished (write sa.family (cache now id sa salen confirm) i pinged) pings false)
        (after_split i pings _ pinged a'.here a'.well)
        (At-write (cache now id sa salen confirm) i _ pinged (cache_first _)
          (λ end _. IsBucket-cache now id sa salen confirm sa.family _ end) a').well

  fresh-IsPlaced :
      (first : Bytes) (end : Option Bytes)
      → in_range first end id ≡ true
      → IsPlaced sa.family first end (fresh_node now id sa salen confirm)
  unfolding fresh_node
  fresh-IsPlaced first end h = record { is_id = v; in_af = refl; ranged = h }

  fresh_id : (fresh_node now id sa salen confirm).id ≡ id
  unfolding fresh_node
  fresh_id = refl

  learn_new-IsRouting :
      (i : ℕ) (b : Bucket) (mine : Bool) (r : Routing)
      → Apart id b.nodes
      → At i b r
      → IsRouting (routing_of (learn_new now blocked id sa salen confirm i b mine r))
  unfolding learn_new
  learn_new-IsRouting i b mine r d a =
      elim (Option-cases (replace_bad now id sa salen confirm b.nodes)) [
        | inl e ↦ elim (Bool-cases (leb 8 b.count)) [
          | inl p ↦ rw (e, p, learn_new) (crowded-IsRouting i b mine r a)
          | inr p ↦
              rw (e, p, learn_new)
                (At-write (push (fresh_node now id sa salen confirm)) i b r refl
                  (λ end h.
                    IsBucket-push sa.family b end _ (ground arith) (fresh-IsPlaced b.first end h)
                      (rw fresh_id d))
                  a).well
        ]
        | inr (nodes, e) ↦
            rw (e, learn_new)
              (At-write (set_nodes nodes) i b r refl
                (λ end h.
                  IsBucket-replace_bad now id sa salen confirm sa.family b end nodes refl v h d e)
                a).well
      ]

  At-grow :
      (i : ℕ) (b : Bucket) (r : Routing) (mine : Bool)
      → At i b r
      → At i b (if mine then grow now sa.family r else r)
  At-grow i b r false a = a
  At-grow i b r true a = record {
    here = rw table-grow a.here;
    ranged = rw table-grow a.ranged;
    well = grow-IsRouting now sa.family r a.well;
  }

  learn_in-IsRouting :
      (i : ℕ) (b : Bucket) (mine : Bool) (r : Routing)
      → At i b r
      → IsRouting (routing_of (learn_in now blocked id sa salen confirm i b mine r))
  unfolding learn_in
  learn_in-IsRouting i b mine r a = elim (Option-cases (find_in id b.nodes)) [
    | inl e ↦
        rw (e, learn_in)
          (learn_new-IsRouting i b mine _ (Apart-of_find_in id b.nodes e) (At-grow i b r mine a))
    | inr (n, e) ↦
        rw (e, learn_in)
          (At-write (set_nodes (refresh_known now id sa salen confirm b.nodes)) i b r refl
            (λ end _. IsBucket-refresh_known now id sa salen confirm sa.family b end refl) a).well
  ]

  -- One round of `new_node`, whatever is learnt of a node with a proper identifier and an IPv4 or
  -- IPv6 address, keeps the routing table well-formed: sorted buckets from the zero identifier on,
  -- at most eight nodes to a bucket, each counted, in range, of the table's family, none twice.
  pub learn-IsRouting :
      (r : Routing) → IsRouting r → IsRouting (routing_of (learn now blocked id sa salen confirm r))
  unfolding learn
  learn-IsRouting r w = elim (Option-cases (find_bucket id (table sa.family r))) [
    | inl e ↦ rw (e, learn) w
    | inr (i, e) ↦ elim (Option-cases (get_elem? (table sa.family r) i)) [
      | inl g ↦ rw (e, g, learn) w
      | inr (b, g) ↦ elim (Bool-cases (same id r.myid || is_martian sa || blocked)) [
        | inl p ↦ rw (e, g, p, learn) w
        | inr p ↦
            let (t, z) = IsRouting-table sa.family r k w in
            let a : At i b r = record {
              here = g;
              ranged = found-in_range sa.family _ id i b v t z e g;
              well = w;
            } in
            elim (Bool-cases (is_reply confirm)) [
              | inl q ↦
                  rw (e, g, p, q, learn)
                    (learn_in-IsRouting i _ _ _ (
                      At-write (λ b. record b { time = now }) i b r refl
                        (λ end _. IsBucket-time sa.family b end now) a))
              | inr q ↦ rw (e, g, p, q, learn) (learn_in-IsRouting i b _ r a)
            ]
      ]
    ]
  ]

-- Whatever is learnt of a node with a proper identifier and an IPv4 or IPv6 address, the routing
-- table stays well-formed: sorted buckets from the zero identifier on, at most eight nodes to a
-- bucket, each counted, in range, of the table's family, and none twice.
pub new_node-IsRouting :
    (now : ℕ) (blocked : Bool) (id : Bytes) (sa : SockAddr) (salen : ℕ) (confirm : Confirm)
    (fuel : ℕ) (r r' : Routing) (pings : List Ping) (done : Bool)
    → sa.family ≢ Family.unspec
    → IsId id
    → IsRouting r
    → new_node now blocked id sa salen confirm fuel r ≡ some (r', pings, done)
    → IsRouting r'
unfolding new_node
new_node-IsRouting now blocked id sa salen confirm zero r r' pings done k v w e = cc
new_node-IsRouting now blocked id sa salen confirm (suc fuel) r r' pings done k v w e =
    by_outcome (λ s ps d. new_node-IsRouting now blocked id sa salen confirm fuel s r' ps d k v)
      (learn now blocked id sa salen confirm r) refl
  where
    well : IsRouting (routing_of (learn now blocked id sa salen confirm r))
    well = learn-IsRouting now blocked id sa salen confirm k v r w

    by_outcome :
        ((s : Routing) (ps : List Ping) (d : Bool)
          → IsRouting s
          → new_node now blocked id sa salen confirm fuel s ≡ some (r', ps, d)
          → IsRouting r')
        → (o : Outcome) → learn now blocked id sa salen confirm r ≡ o
        → IsRouting r'
    by_outcome ih (Outcome.finished s ps d) p =
        let q : s ≡ r' = ground arith in
        subst IsRouting q (subst (λ o. IsRouting (routing_of o)) p well)
    by_outcome ih (Outcome.again s ps) p =
        elim (Option-cases (new_node now blocked id sa salen confirm fuel s)) [
          | inl q ↦ absurd (ground arith)
          | inr ((s', ps', d'), q) ↦
              let f : s' ≡ r' = ground arith in
              ih s ps' d' (subst (λ o. IsRouting (routing_of o)) p well)
                (rw q (ap (λ z. some (z, ps', d')) f))
        ]
