-- ===== src/Search/Reuse.antt =====
-- What `dht_search` keeps of the nodes of an old search.
use dtndht.Base.{
  ℕ, zero, suc, ◌≤◌, true, false, List, [], ◌∷◌, ◌++◌, append_assoc, append-nil, length,
  length-append, get_elem?, none, some, ◌≡◌, refl, sym, ap, ◌∙◌, arith, All, Bool-cases, inl, inr,
  map,
}
use dtndht.Search.{
  SearchNode, is_doubtful, reset_node, modify_node, flush_search_node, reuse_from, reuse_nodes,
}

get_elem?-append :
    (l : List SearchNode) (n : SearchNode) (r : List SearchNode)
    → get_elem? (l ++ n ∷ r) (length l) ≡ some n
get_elem?-append [] n r = refl
get_elem?-append (x ∷ l) n r = get_elem?-append l n r

get_elem?-beyond : (l : List SearchNode) → get_elem? l (length l) ≡ none
get_elem?-beyond [] = refl
get_elem?-beyond (x ∷ l) = get_elem?-beyond l

modify_node-append :
    (f : SearchNode → SearchNode) (l : List SearchNode) (n : SearchNode) (r : List SearchNode)
    → modify_node f (length l) (l ++ n ∷ r) ≡ l ++ f n ∷ r
modify_node-append f [] n r = refl
modify_node-append f (x ∷ l) n r = ap (◌∷◌ x) (modify_node-append f l n r)

flush_search_node-append :
    (l : List SearchNode) (n : SearchNode) (r : List SearchNode)
    → flush_search_node (length l) (l ++ n ∷ r) ≡ l ++ r
unfolding flush_search_node
flush_search_node-append [] n r = refl
flush_search_node-append (x ∷ l) n r = ap (◌∷◌ x) (flush_search_node-append l n r)

-- The nodes that are left: the one behind a discarded node passes unseen.
unfoldable pub passed : ℕ → List SearchNode → List SearchNode
passed now [] = []
passed now (n ∷ []) = elim (is_doubtful now n) [ true ↦ [] | false ↦ reset_node n ∷ [] ]
passed now (n ∷ m ∷ l) = elim (is_doubtful now n) [
  | true ↦ m ∷ passed now l
  | false ↦ reset_node n ∷ passed now (m ∷ l)
]

reuse_from_end :
    (rounds now : ℕ) (front : List SearchNode) → reuse_from rounds now (length front) front ≡ front
unfolding reuse_from
reuse_from_end zero now front = refl
reuse_from_end (suc rounds) now front = rw (get_elem?-beyond front, reuse_from) refl

reuse_from_past :
    (rounds now : ℕ) (front : List SearchNode)
    → reuse_from rounds now (suc (length front)) front ≡ front
unfolding reuse_from
reuse_from_past zero now front = refl
reuse_from_past (suc rounds) now front = rw (beyond front, reuse_from) refl
  where
    beyond : (l : List SearchNode) → get_elem? l (suc (length l)) ≡ none
    beyond [] = refl
    beyond (x ∷ l) = beyond l

step_doubtful :
    (rounds now : ℕ) (front : List SearchNode) (n : SearchNode) (l : List SearchNode)
    → is_doubtful now n ≡ true
    → reuse_from (suc rounds) now (length front) (front ++ n ∷ l)
      ≡ reuse_from rounds now (suc (length front)) (front ++ l)
unfolding reuse_from
step_doubtful rounds now front n l d =
    rw (get_elem?-append front n l, d, flush_search_node-append front n l, reuse_from) refl

step_good :
    (rounds now : ℕ) (front : List SearchNode) (n : SearchNode) (l : List SearchNode)
    → is_doubtful now n ≡ false
    → reuse_from (suc rounds) now (length front) (front ++ n ∷ l)
      ≡ reuse_from rounds now (suc (length front)) (front ++ reset_node n ∷ l)
unfolding reuse_from
step_good rounds now front n l d =
    rw (get_elem?-append front n l, d, modify_node-append reset_node front n l, reuse_from) refl

-- The round behind a node `m`, seen from the list with `m` in front.
shift :
    (rounds now : ℕ) (front : List SearchNode) (m : SearchNode) (l k : List SearchNode)
    → reuse_from rounds now (length (front ++ m ∷ [])) ((front ++ m ∷ []) ++ l)
      ≡ (front ++ m ∷ []) ++ k
    → reuse_from rounds now (suc (length front)) (front ++ m ∷ l) ≡ front ++ m ∷ k
shift rounds now front m l k e =
    let p : suc (length front) ≡ length (front ++ m ∷ []) =
      omega (arith, length-append front (m ∷ [])) in
    ap (λ i. reuse_from rounds now i (front ++ m ∷ l)) p
    ∙ ap (reuse_from rounds now (length (front ++ m ∷ []))) (sym (append_assoc front (m ∷ []) l))
    ∙ e
    ∙ append_assoc front (m ∷ []) k

reuse_from-passed :
    (rounds now : ℕ) (front l : List SearchNode)
    → length l ≤ rounds
    → reuse_from rounds now (length front) (front ++ l) ≡ front ++ passed now l
unfolding passed
reuse_from-passed rounds now front [] h = rw append-nil (reuse_from_end rounds now front)
reuse_from-passed zero now front (n ∷ l) h = absurd (omega arith)
reuse_from-passed (suc rounds) now front (n ∷ []) h = elim (Bool-cases (is_doubtful now n)) [
  | inl d ↦
      step_doubtful rounds now front n [] d
      ∙ rw (d, passed, append-nil) (reuse_from_past rounds now front)
  | inr d ↦
      step_good rounds now front n [] d
      ∙ shift rounds now front (reset_node n) [] []
          (reuse_from-passed rounds now (front ++ reset_node n ∷ []) [] (omega arith))
      ∙ rw (d, passed) refl
]
reuse_from-passed (suc rounds) now front (n ∷ m ∷ l) h = elim (Bool-cases (is_doubtful now n)) [
  | inl d ↦
      step_doubtful rounds now front n (m ∷ l) d
      ∙ shift rounds now front m l (passed now l)
          (reuse_from-passed rounds now (front ++ m ∷ []) l (omega arith))
      ∙ rw (d, passed) refl
  | inr d ↦
      step_good rounds now front n (m ∷ l) d
      ∙ shift rounds now front (reset_node n) (m ∷ l) (passed now (m ∷ l))
          (reuse_from-passed rounds now (front ++ reset_node n ∷ []) (m ∷ l) (omega arith))
      ∙ rw (d, passed) refl
]

pub reuse_nodes-passed : (now : ℕ) (l : List SearchNode) → reuse_nodes now l ≡ passed now l
unfolding reuse_nodes
reuse_nodes-passed now l = reuse_from-passed (length l) now [] l (omega arith)

passed_front :
    (now : ℕ) (front l : List SearchNode)
    → All (λ n. is_doubtful now n ≡ false) front
    → passed now (front ++ l) ≡ map reset_node front ++ passed now l
unfolding passed
passed_front now [] l h = refl
passed_front now (n ∷ []) [] h = rw (h.0, passed) refl
passed_front now (n ∷ []) (m ∷ l) h = rw (h.0, passed) refl
passed_front now (n ∷ m ∷ front) l h =
    let rest = passed_front now (m ∷ front) l h.1 in rw (h.0, passed) (ap (◌∷◌ (reset_node n)) rest)

-- When an old search is reused, the nodes in front of the first doubtful one are reset and that one
-- is discarded, but the node `m` behind it stays as it was, neither checked nor reset, even if it
-- is doubtful too; the loop goes on behind `m`.
pub reuse_nodes_skips :
    (now : ℕ) (front : List SearchNode) (n m : SearchNode) (l : List SearchNode)
    → All (λ k. is_doubtful now k ≡ false) front
    → is_doubtful now n ≡ true
    → reuse_nodes now (front ++ n ∷ m ∷ l) ≡ map reset_node front ++ m ∷ reuse_nodes now l
unfolding reuse_nodes passed
reuse_nodes_skips now front n m l h d =
    reuse_from-passed (length (front ++ n ∷ m ∷ l)) now [] (front ++ n ∷ m ∷ l) (omega arith)
    ∙ passed_front now front (n ∷ m ∷ l) h
    ∙ ap (λ k. map reset_node front ++ k) (rw (d, passed) refl)
    ∙ ap (λ k. map reset_node front ++ m ∷ k)
        (sym (reuse_from-passed (length l) now [] l (omega arith)))
