-- ===== src/Search/Sorted.antt =====
-- The nodes of a search stay sorted by their distance to its target.
use dtndht.Base.{
  ℕ, zero, suc, ◌≤◌, Bytes, same, same_iff, Ordering, is_lt, Bool, false, List, [], ◌∷◌, length,
  length-take, take, Option, ◌≡◌, refl, sym, subst, arith, All, Bool-cases, inl, inr,
}
use dtndht.Net.{SockAddr, same_family}
use dtndht.Ids.{IsId, xorcmp}
use dtndht.Ids.Distance.{xorcmp_eq_iff, xorcmp_trans, xorcmp_flip}
use dtndht.Search.{SearchNode, Search, blank_node, fill_node, insert_search_node}
use dtndht.Search.Place.{place, insert_search_node-place}

-- The node is closer to the target than all of the list.
abbrev pub Closer : Bytes → Bytes → List SearchNode → Type 0
Closer target id = All (λ m. xorcmp id m.id target ≡ Ordering.lt)

-- The first node is the closest one. (The comment above `insert_search_node` in dtndht/dht.c says
-- "decreasing distance", but its loop stops in front of the first node that is farther away.)
abbrev pub Sorted : Bytes → List SearchNode → Type 0
Sorted target [] = Unit
Sorted target (n ∷ nodes) = Closer target n.id nodes × Sorted target nodes

abbrev pub HaveIds : List SearchNode → Type 0
HaveIds = All (λ n. IsId n.id)

pub record IsSearch (sr : Search) : Type 0 where
  pub target : IsId sr.id
  pub capacity : length sr.nodes ≤ 14
  pub ids : HaveIds sr.nodes
  pub sorted : Sorted sr.id sr.nodes

take-All : (P : SearchNode → Type 0) (n : ℕ) (l : List SearchNode) → All P l → All P (take n l)
take-All P zero l h = tt
take-All P (suc n) [] h = tt
take-All P (suc n) (x ∷ l) h = (h.0, take-All P n l h.1)

take-Sorted :
    (target : Bytes) (n : ℕ) (l : List SearchNode) → Sorted target l → Sorted target (take n l)
take-Sorted target zero l h = tt
take-Sorted target (suc n) [] h = tt
take-Sorted target (suc n) (x ∷ l) h = (take-All _ n l h.0, take-Sorted target n l h.1)

module _ (f : SearchNode → SearchNode) (keeps : (n : SearchNode) → (f n).id ≡ n.id)
    (target id : Bytes) where
  place-All :
      (P : Bytes → Type 0) (l : List SearchNode)
      → P id
      → All (λ n. P n.id) l
      → All (λ n. P n.id) (place f target id l)
  unfolding place
  place-All P [] h k = (subst P (sym (keeps (blank_node id))) h, tt)
  place-All P (n ∷ l) h k = elim (Bool-cases (same id n.id)) [
    | inl s ↦ rw (s, place) (subst P (sym (keeps n)) k.0, k.1)
    | inr s ↦ elim (Bool-cases (is_lt (xorcmp id n.id target))) [
      | inl t ↦ rw (s, t, place) (subst P (sym (keeps (blank_node id))) h, k)
      | inr t ↦ rw (s, t, place) (k.0, place-All P l h k.1)
    ]
  ]

  all_farther :
      (n : SearchNode) (l : List SearchNode)
      → IsId target
      → IsId id
      → IsId n.id
      → HaveIds l
      → xorcmp id n.id target ≡ Ordering.lt
      → Closer target n.id l
      → Closer target id l
  all_farther n [] ht hi hn hl c k = tt
  all_farther n (m ∷ l) ht hi hn hl c k =
      (xorcmp_trans id n.id m.id target hi hn hl.0 ht c k.0, all_farther n l ht hi hn hl.1 c k.1)

  is_closer :
      (n : SearchNode)
      → IsId target
      → IsId id
      → IsId n.id
      → same id n.id ≡ false
      → is_lt (xorcmp id n.id target) ≡ false
      → xorcmp n.id id target ≡ Ordering.lt
  is_closer n ht hi hn s t = by_order (xorcmp id n.id target) refl
    where
      by_order : (o : Ordering) → xorcmp id n.id target ≡ o → xorcmp n.id id target ≡ Ordering.lt
      by_order Ordering.lt e = absurd (ground arith)
      by_order Ordering.eq e =
          absurd
            (ground (arith, (same_iff id n.id).1 ((xorcmp_eq_iff id n.id target hi hn ht).0 e)))
      by_order Ordering.gt e = xorcmp_flip id n.id target hi hn ht e

  place-Sorted :
      (l : List SearchNode)
      → IsId target
      → IsId id
      → HaveIds l
      → Sorted target l
      → Sorted target (place f target id l)
  unfolding place
  place-Sorted [] ht hi hl k = (tt, tt)
  place-Sorted (n ∷ l) ht hi hl k = elim (Bool-cases (same id n.id)) [
    | inl s ↦ rw (s, place) (subst (λ x. Closer target x l) (sym (keeps n)) k.0, k.1)
    | inr s ↦ elim (Bool-cases (is_lt (xorcmp id n.id target))) [
      | inl t ↦
          let c : xorcmp id n.id target ≡ Ordering.lt = ground arith in
          rw (s, t, place)
            (
              subst (λ x. Closer target x (n ∷ l)) (sym (keeps (blank_node id)))
                  (c, all_farther n l ht hi hl.0 hl.1 c k.0),
              k,
            )
      | inr t ↦
          rw (s, t, place)
            (
              place-All (λ x. xorcmp n.id x target ≡ Ordering.lt) l (is_closer n ht hi hl.0 s t)
                  k.0,
              place-Sorted l ht hi hl.1 k.1,
            )
    ]
  ]

fill_node_id :
    (now : ℕ) (sa : SockAddr) (salen : ℕ) (replied : Bool) (token : Option Bytes) (n : SearchNode)
    → (fill_node now sa salen replied token n).id ≡ n.id
unfolding fill_node
fill_node_id now sa salen replied token n = refl

insert_search_node_rest :
    (now : ℕ) (id : Bytes) (sa : SockAddr) (salen : ℕ) (replied : Bool) (token : Option Bytes)
    (sr : Search)
    → ((insert_search_node now id sa salen replied token sr).0.id ≡ sr.id)
      × (same_family sa.family sr.af ≡ false
          → (insert_search_node now id sa salen replied token sr).0.nodes ≡ sr.nodes)
unfolding insert_search_node
insert_search_node_rest now id sa salen replied token sr = (ground arith, λ h. ground arith)

-- Inserting a node with a proper identifier, whatever its family, keeps the nodes of a search
-- sorted by their distance to the target, each strictly closer than the next, and at most 14.
pub insert_search_node-IsSearch :
    (now : ℕ) (id : Bytes) (sa : SockAddr) (salen : ℕ) (replied : Bool) (token : Option Bytes)
    (sr : Search)
    → IsId id
    → IsSearch sr
    → IsSearch (insert_search_node now id sa salen replied token sr).0
insert_search_node-IsSearch now id sa salen replied token sr hi h =
    let fill = fill_node now sa salen replied token in
    let keeps = fill_node_id now sa salen replied token in
    let after = (insert_search_node now id sa salen replied token sr).0 in
    let (same_target, other) = insert_search_node_rest now id sa salen replied token sr in
    let from : (l : List SearchNode)
        → after.nodes ≡ l
        → length l ≤ 14
        → HaveIds l
        → Sorted sr.id l
        → IsSearch after =
      λ l e c i s. record {
        target = subst IsId (sym same_target) h.target;
        capacity = subst (λ x. length x ≤ 14) (sym e) c;
        ids = subst HaveIds (sym e) i;
        sorted =
            subst (λ x. Sorted x after.nodes) (sym same_target) (subst (Sorted sr.id) (sym e) s);
      } in
    elim (Bool-cases (same_family sa.family sr.af)) [
      | inl af ↦
          let placed = place fill sr.id id sr.nodes in
          from (take 14 placed)
            (insert_search_node-place now id sa salen replied token sr af h.capacity)
            (omega (arith, length-take 14 placed))
            (take-All _ 14 placed (place-All fill keeps sr.id id IsId sr.nodes hi h.ids))
            (take-Sorted sr.id 14 placed
              (place-Sorted fill keeps sr.id id sr.nodes h.target hi h.ids h.sorted))
      | inr af ↦ from sr.nodes (other af) h.capacity h.ids h.sorted
    ]
