-- ===== src/Search/Keep.antt =====
-- What keeps the searches sorted: the steps and the start of a search.
use dtndht.Base.{
  ℕ, zero, suc, ◌+◌, ◌≤◌, Bytes, Bool, false, List, [], ◌∷◌, All, All-map, length, Option, none,
  some, ◌≡◌, refl, ap, subst, arith, leb, ◌==◌, Bool-cases, inl, inr,
}
use dtndht.Net.{Family, SockAddr}
use dtndht.Ids.{IsId}
use dtndht.Routing.{Node, Bucket, Routing}
use dtndht.Routing.Invariant.{IsPlaced, IsBucket, IsTable}
use dtndht.Search.{
  Search, SearchNode, insert_search_node, insert_search_nodes, insert_search_bucket, is_doubtful,
}
use dtndht.Search.Sorted.{Closer, Sorted, IsSearch, insert_search_node-IsSearch}
use dtndht.Search.Reuse.{passed, reuse_nodes-passed}
use dtndht.Search.Step.{
  all_replied, acknowledged, search_send_get_peers, ask_nodes, announce_nodes, search_step,
}
use dtndht.Search.Start.{reused, started, insert_at}
use dtndht.Wire.Send.{Local}

-- The same identifiers in the same order.
abbrev pub SameIds : List SearchNode → List SearchNode → Type 0
SameIds [] [] = Unit
SameIds (n ∷ nodes) (m ∷ others) = (n.id ≡ m.id) × SameIds nodes others
SameIds _ _ = ⊥

pub SameIds-refl : (nodes : List SearchNode) → SameIds nodes nodes
SameIds-refl [] = tt
SameIds-refl (n ∷ nodes) = (refl, SameIds-refl nodes)

SameIds-All :
    (P : Bytes → Type 0) (nodes others : List SearchNode)
    → SameIds nodes others
    → All (λ n. P n.id) nodes
    → All (λ n. P n.id) others
SameIds-All P [] [] e a = tt
SameIds-All P [] (m ∷ others) e a = absurd e
SameIds-All P (n ∷ nodes) [] e a = absurd e
SameIds-All P (n ∷ nodes) (m ∷ others) (e, es) (b, a) =
    (subst P e b, SameIds-All P nodes others es a)

SameIds-length :
    (nodes others : List SearchNode) → SameIds nodes others → length nodes ≡ length others
SameIds-length [] [] e = refl
SameIds-length [] (m ∷ others) e = absurd e
SameIds-length (n ∷ nodes) [] e = absurd e
SameIds-length (n ∷ nodes) (m ∷ others) (e, es) = ap suc (SameIds-length nodes others es)

SameIds-Sorted :
    (target : Bytes) (nodes others : List SearchNode)
    → SameIds nodes others
    → Sorted target nodes
    → Sorted target others
SameIds-Sorted target [] [] e a = tt
SameIds-Sorted target [] (m ∷ others) e a = absurd e
SameIds-Sorted target (n ∷ nodes) [] e a = absurd e
SameIds-Sorted target (n ∷ nodes) (m ∷ others) (e, es) (c, a) = (
  subst (λ i. Closer target i others) e (SameIds-All _ nodes others es c),
  SameIds-Sorted target nodes others es a,
)

-- A search with other nodes of the same identifiers is well-formed with the old one.
pub SameIds-IsSearch :
    (sr sr' : Search) → sr.id ≡ sr'.id → SameIds sr.nodes sr'.nodes → IsSearch sr → IsSearch sr'
SameIds-IsSearch sr sr' e es w = record {
  target = subst IsId e w.target;
  capacity = subst (λ n. n ≤ 14) (SameIds-length sr.nodes sr'.nodes es) w.capacity;
  ids = SameIds-All IsId sr.nodes sr'.nodes es w.ids;
  sorted = subst (λ t. Sorted t sr'.nodes) e (SameIds-Sorted sr.id sr.nodes sr'.nodes es w.sorted);
}

module _ (me : Local) (blocked : SockAddr → Bool) (now : ℕ) where
  pub ask_same :
      (sr : Search) (n : SearchNode) (r : Routing)
      → n.id ≡ (search_send_get_peers me blocked now sr n r).1.id
  unfolding search_send_get_peers
  ask_same sr n r = ground arith

  ask_nodes-SameIds :
      (nodes : List SearchNode) (j : ℕ) (sr : Search) (r : Routing)
      → SameIds nodes (ask_nodes me blocked now j sr nodes r).0
  unfolding ask_nodes
  ask_nodes-SameIds [] j sr r = tt
  ask_nodes-SameIds (n ∷ nodes) zero sr r = SameIds-refl (n ∷ nodes)
  ask_nodes-SameIds (n ∷ nodes) (suc j) sr r = (ask_same sr n r, ask_nodes-SameIds nodes _ sr _)

  announce_nodes-SameIds :
      (j : ℕ) (sr : Search) (nodes : List SearchNode) (r : Routing)
      → SameIds nodes (announce_nodes me blocked now j sr nodes r).1
  unfolding announce_nodes
  announce_nodes-SameIds zero sr nodes r = SameIds-refl nodes
  announce_nodes-SameIds (suc j) sr [] r = tt
  announce_nodes-SameIds (suc j) sr (n ∷ nodes) r = elim (Bool-cases (leb 3 n.pinged)) [
    | inl d ↦ rw (d, announce_nodes) (refl, announce_nodes-SameIds (suc j) sr nodes r)
    | inr d ↦ elim (Bool-cases (acknowledged n).acked) [
      | inl f ↦ rw (d, f, announce_nodes) (refl, announce_nodes-SameIds j sr nodes r)
      | inr f ↦ rw (d, f, announce_nodes) (refl, announce_nodes-SameIds j sr nodes _)
    ]
  ]

  pub search_step-IsSearch :
      (sr : Search) (r : Routing) → IsSearch sr → IsSearch (search_step me blocked now sr r).0
  unfolding search_step
  search_step-IsSearch sr r w =
      let kept = SameIds-refl sr.nodes in
      let announced = announce_nodes-SameIds 8 sr sr.nodes r in
      elim (Bool-cases (all_replied 8 sr.nodes)) [
        | inl k ↦ elim (Bool-cases (sr.port == 0)) [
          | inl p ↦ rw (k, p, search_step) (SameIds-IsSearch sr _ refl kept w)
          | inr p ↦ elim (Bool-cases (announce_nodes me blocked now 8 sr sr.nodes r).0) [
            | inl q ↦ rw (k, p, q, search_step) (SameIds-IsSearch sr _ refl announced w)
            | inr q ↦ rw (k, p, q, search_step) (SameIds-IsSearch sr _ refl announced w)
          ]
        ]
        | inr k ↦ elim (Bool-cases (leb now (sr.step_time + 15))) [
          | inl p ↦ rw (k, p, search_step) w
          | inr p ↦
              rw (k, p, search_step)
                (SameIds-IsSearch sr _ refl (ask_nodes-SameIds sr.nodes 3 sr r) w)
        ]
      ]

passed-All :
    (P : Bytes → Type 0) (now : ℕ) (l : List SearchNode)
    → All (λ n. P n.id) l
    → All (λ n. P n.id) (passed now l)
unfolding passed
passed-All P now [] a = tt
passed-All P now (n ∷ []) (b, a) = elim (Bool-cases (is_doubtful now n)) [
  | inl d ↦ rw (d, passed) tt
  | inr d ↦ rw (d, passed) (b, tt)
]
passed-All P now (n ∷ m ∷ l) (b, (c, a)) = elim (Bool-cases (is_doubtful now n)) [
  | inl d ↦ rw (d, passed) (c, passed-All P now l a)
  | inr d ↦ rw (d, passed) (b, passed-All P now (m ∷ l) (c, a))
]

passed-Sorted :
    (target : Bytes) (now : ℕ) (l : List SearchNode)
    → Sorted target l
    → Sorted target (passed now l)
unfolding passed
passed-Sorted target now [] a = tt
passed-Sorted target now (n ∷ []) a = elim (Bool-cases (is_doubtful now n)) [
  | inl d ↦ rw (d, passed) tt
  | inr d ↦ rw (d, passed) (tt, tt)
]
passed-Sorted target now (n ∷ m ∷ l) (b, (c, a)) = elim (Bool-cases (is_doubtful now n)) [
  | inl d ↦ rw (d, passed) (passed-All _ now l c, passed-Sorted target now l a)
  | inr d ↦ rw (d, passed) (passed-All _ now (m ∷ l) b, passed-Sorted target now (m ∷ l) (c, a))
]

length-passed : (now : ℕ) (l : List SearchNode) → length (passed now l) ≤ length l
unfolding passed
length-passed now [] = omega arith
length-passed now (n ∷ []) = elim (Bool-cases (is_doubtful now n)) [
  | inl d ↦ rw (d, passed) (omega arith)
  | inr d ↦ rw (d, passed) (omega arith)
]
length-passed now (n ∷ m ∷ l) = elim (Bool-cases (is_doubtful now n)) [
  | inl d ↦ rw (d, passed) (omega (arith, length-passed now l))
  | inr d ↦ rw (d, passed) (omega (arith, length-passed now (m ∷ l)))
]

pub reused-IsSearch : (now : ℕ) (sr : Search) → IsSearch sr → IsSearch (reused now sr)
reused-IsSearch now sr w = rw (reuse_nodes-passed now sr.nodes) (record {
  target = w.target;
  capacity = omega (arith, length-passed now sr.nodes, w.capacity);
  ids = passed-All IsId now sr.nodes w.ids;
  sorted = passed-Sorted sr.id now sr.nodes w.sorted;
})

pub started-IsSearch :
    (id : Bytes) (af : Family) (tid : ℕ) (sr : Search) → IsId id → IsSearch (started id af tid sr)
started-IsSearch id af tid sr h = record {
  target = h;
  capacity = omega arith;
  ids = tt;
  sorted = tt;
}

module _ (now : ℕ) where
  insert_search_nodes-IsSearch :
      (nodes : List Node) (sr : Search)
      → All (λ n. IsId n.id) nodes
      → IsSearch sr
      → IsSearch (insert_search_nodes now nodes sr)
  unfolding insert_search_nodes
  insert_search_nodes-IsSearch [] sr a w = w
  insert_search_nodes-IsSearch (n ∷ nodes) sr (b, a) w =
      insert_search_nodes-IsSearch nodes (insert_search_node now n.id n.ss n.sslen false none sr).0
        a (insert_search_node-IsSearch now n.id n.ss n.sslen false none sr b w)

  insert_search_bucket-IsSearch :
      (af : Family) (b : Bucket) (end : Option Bytes) (sr : Search)
      → IsBucket af b end
      → IsSearch sr
      → IsSearch (insert_search_bucket now b sr)
  unfolding insert_search_bucket
  insert_search_bucket-IsSearch af b end sr h w =
      insert_search_nodes-IsSearch b.nodes sr
        (All-map (λ n (p : IsPlaced af b.first end n). p.is_id) b.nodes h.placed) w

  pub insert_at-IsSearch :
      (af : Family) (o : Option ℕ) (bs : List Bucket) (sr : Search)
      → IsTable af bs
      → IsSearch sr
      → IsSearch (insert_at now o bs sr)
  insert_at-IsSearch af none bs sr t w = w
  insert_at-IsSearch af (some i) [] sr t w = w
  insert_at-IsSearch af (some zero) (b ∷ bs) sr (h, t) w =
      insert_search_bucket-IsSearch af b _ sr h w
  insert_at-IsSearch af (some (suc i)) (b ∷ bs) sr (h, t) w =
      insert_at-IsSearch af (some i) bs sr t w
