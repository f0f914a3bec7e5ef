-- ===== src/Search/Place.antt =====
-- `insert_search_node` as the insertion into a list that is sorted by the distance to the target.
use dtndht.Base.{
  ℕ, zero, suc, ◌+◌, ◌≤◌, Bytes, same, is_lt, Bool, true, false, List, [], ◌∷◌, ◌++◌, length,
  length-append, length-take, length-drop, take, drop, Option, ◌≡◌, refl, sym, ap, ◌∙◌, arith,
  if◌then◌else◌, ltb, ◌==◌, ==_iff, Bool-cases, inl, inr,
}
use dtndht.Net.{SockAddr, same_family}
use dtndht.Ids.{xorcmp}
use dtndht.Search.{
  SearchNode, Search, Spot, next_spot, find_spot, blank_node, fill_node, modify_node, make_room,
  search_nodes, insert_search_node,
}

-- A known node is changed where it stands, a new one put in front of the first farther one.
unfoldable pub place : (SearchNode → SearchNode) → Bytes → Bytes → List SearchNode → List SearchNode
place f target id [] = f (blank_node id) ∷ []
place f target id (n ∷ nodes) =
    if same id n.id
    then f n ∷ nodes
    else if is_lt (xorcmp id n.id target)
    then f (blank_node id) ∷ n ∷ nodes
    else n ∷ place f target id nodes

PlaceAt :
    (f : SearchNode → SearchNode) (target id : Bytes) (nodes : List SearchNode) (s : Spot) → Type 0
PlaceAt f target id nodes (Spot.known i) =
    (place f target id nodes ≡ modify_node f i nodes) × (suc i ≤ length nodes)
PlaceAt f target id nodes (Spot.vacant i) =
    (place f target id nodes ≡ take i nodes ++ f (blank_node id) ∷ drop i nodes)
    × (i ≤ length nodes)

place-find_spot :
    (f : SearchNode → SearchNode) (target id : Bytes) (nodes : List SearchNode)
    → PlaceAt f target id nodes (find_spot target id nodes)
unfolding place find_spot PlaceAt
place-find_spot f target id [] = (refl, omega arith)
place-find_spot f target id (n ∷ nodes) = elim (Bool-cases (same id n.id)) [
  | inl h ↦ rw (h, find_spot) (rw (h, place) refl, omega arith)
  | inr h ↦ elim (Bool-cases (is_lt (xorcmp id n.id target))) [
    | inl k ↦ rw (h, k, find_spot) (rw (h, k, place) refl, omega arith)
    | inr k ↦
        rw (h, k, find_spot)
          (next (find_spot target id nodes) (place-find_spot f target id nodes) h k)
  ]
]
  where
    next :
        (s : Spot)
        → PlaceAt f target id nodes s
        → same id n.id ≡ false
        → is_lt (xorcmp id n.id target) ≡ false
        → PlaceAt f target id (n ∷ nodes) (next_spot s)
    next (Spot.known i) (e, l) h k = (rw (h, k, e, place) refl, omega arith)
    next (Spot.vacant i) (e, l) h k = (rw (h, k, e, place) refl, omega arith)

take_whole : (n : ℕ) (l : List SearchNode) → length l ≤ n → take n l ≡ l
take_whole zero [] h = refl
take_whole zero (x ∷ l) h = absurd (omega arith)
take_whole (suc n) [] h = refl
take_whole (suc n) (x ∷ l) h = ap (◌∷◌ x) (take_whole n l (omega arith))

length-modify_node :
    (f : SearchNode → SearchNode) (i : ℕ) (l : List SearchNode)
    → length (modify_node f i l) ≡ length l
length-modify_node f i [] = refl
length-modify_node f zero (n ∷ l) = refl
length-modify_node f (suc i) (n ∷ l) = ap suc (length-modify_node f i l)

take_before : (n : ℕ) (l r : List SearchNode) → length l ≡ n → take n (take n l ++ r) ≡ l
take_before zero [] r h = refl
take_before zero (x ∷ l) r h = absurd (omega arith)
take_before (suc n) [] r h = absurd (omega arith)
take_before (suc n) (x ∷ l) r h = ap (◌∷◌ x) (take_before n l r (omega arith))

make_room-take :
    (i : ℕ) (n : SearchNode) (l : List SearchNode)
    → length l ≤ 14
    → i ≤ length l
    → make_room i n l ≡ take 14 (take i l ++ n ∷ drop i l)
unfolding make_room
make_room-take i n l h k =
    let moved = take i l ++ n ∷ drop i l in
    let size : length moved ≡ length l + 1 =
      omega (arith, length-append (take i l) (n ∷ drop i l), length-take i l, length-drop i l) in
    elim (Bool-cases (ltb (length l) search_nodes)) [
      | inl m ↦
          rw (m, make_room)
            (take_whole (length l + 1) moved (omega arith)
              ∙ sym (take_whole 14 moved (ground arith)))
      | inr m ↦ let q : length l ≡ 14 = ground arith in rw (m, make_room) (ap (λ j. take j moved) q)
    ]

-- Inserting a node of the search's family into the at most 14 nodes of a search gives the first
-- 14 of the list in which a known node is changed where it stands, and a new one put in front of
-- the first node that is farther from the target.
pub insert_search_node-place :
    (now : ℕ) (id : Bytes) (sa : SockAddr) (salen : ℕ) (replied : Bool) (token : Option Bytes)
    (sr : Search)
    → same_family sa.family sr.af ≡ true
    → length sr.nodes ≤ 14
    → (insert_search_node now id sa salen replied token sr).0.nodes
      ≡ take 14 (place (fill_node now sa salen replied token) sr.id id sr.nodes)
unfolding insert_search_node PlaceAt make_room
insert_search_node-place now id sa salen replied token sr af h =
    by_spot (find_spot sr.id id sr.nodes) refl (place-find_spot fill sr.id id sr.nodes)
  where
    fill : SearchNode → SearchNode
    fill = fill_node now sa salen replied token

    by_spot :
        (s : Spot)
        → find_spot sr.id id sr.nodes ≡ s
        → PlaceAt fill sr.id id sr.nodes s
        → (insert_search_node now id sa salen replied token sr).0.nodes
          ≡ take 14 (place fill sr.id id sr.nodes)
    by_spot (Spot.known i) e (p, l) =
        rw (af, e, p, insert_search_node)
          (sym (take_whole 14 _ (omega (arith, length-modify_node fill i sr.nodes))))
    by_spot (Spot.vacant i) e (p, l) = elim (Bool-cases (i == search_nodes)) [
      | inl k ↦
          let q : i ≡ 14 = (==_iff i 14).0 k in
          rw (af, e, k, p, insert_search_node)
            (sym (
              ap (λ j. take 14 (take j sr.nodes ++ fill (blank_node id) ∷ drop j sr.nodes)) q
              ∙ take_before 14 sr.nodes _ (omega arith)))
      | inr k ↦
          rw (af, e, k, p, insert_search_node)
            (make_room-take i (fill (blank_node id)) sr.nodes h l)
    ]
