-- ===== src/Search/Pick.antt =====
-- dtndht/dht.c: `search_send_get_peers` for no given node.
use dtndht.Base.{
  ℕ, zero, suc, Bool, true, false, List, [], ◌∷◌, none, some, ◌≡◌, refl, sym, ◌∙◌, ap, arith,
  get_elem?, set, Bool-cases, inl, inr, ◌||◌, ◌⊎◌,
}
use dtndht.Net.{SockAddr}
use dtndht.Routing.{Routing}
use dtndht.Search.{Search, SearchNode}
use dtndht.Search.Sorted.{IsSearch}
use dtndht.Search.Step.{may_ask, last_to_ask, search_send_get_peers, search_send_get_peers_any}
use dtndht.Search.Keep.{SameIds, SameIds-refl, SameIds-IsSearch, ask_same}
use dtndht.Wire.Send.{Local}

set-SameIds :
    (nodes : List SearchNode) (i : ℕ) (n m : SearchNode)
    → get_elem? nodes i ≡ some n
    → n.id ≡ m.id
    → SameIds nodes (set nodes i m)
set-SameIds [] i n m h e = tt
set-SameIds (x ∷ nodes) zero n m h e =
    let q : x ≡ n = ground arith in (ap (λ (y : SearchNode). y.id) q ∙ e, SameIds-refl nodes)
set-SameIds (x ∷ nodes) (suc i) n m h e = (refl, set-SameIds nodes i n m h e)

module _ (me : Local) (blocked : SockAddr → Bool) (now : ℕ) where
  some_may_ask : List SearchNode → Bool
  some_may_ask [] = false
  some_may_ask (n ∷ nodes) = may_ask me blocked now n || some_may_ask nodes

  -- The node that the loop picks may be asked, and none is picked only if none may be.
  picked :
      (nodes : List SearchNode)
      → ((last_to_ask me blocked now nodes ≡ none) × (some_may_ask nodes ≡ false))
        ⊎ ((i : ℕ) × (n : SearchNode) × (last_to_ask me blocked now nodes ≡ some i)
            × (get_elem? nodes i ≡ some n)
            × (may_ask me blocked now n ≡ true)
            × (some_may_ask nodes ≡ true))
  unfolding last_to_ask some_may_ask
  picked [] = inl (refl, refl)
  picked (n ∷ nodes) = elim (picked nodes) [
    | inr (i, m, e, g, k, s) ↦ inr (suc i, m, rw (e, last_to_ask) refl, g, k, ground arith)
    | inl (e, s) ↦ elim (Bool-cases (may_ask me blocked now n)) [
      | inl k ↦ inr (0, n, rw (e, k, last_to_ask) refl, refl, k, rw k refl)
      | inr k ↦ inl (rw (e, k, last_to_ask) refl, rw (k, s) refl)
    ]
  ]

  -- A request is sent exactly if some node of the search may be asked, and the search stays sorted.
  search_send_get_peers_any-IsSearch :
      (sr : Search) (r : Routing)
      → IsSearch sr
      → ((search_send_get_peers_any me blocked now sr r).0 ≡ some_may_ask sr.nodes)
        × IsSearch (search_send_get_peers_any me blocked now sr r).1
  unfolding search_send_get_peers_any search_send_get_peers
  search_send_get_peers_any-IsSearch sr r w = elim (picked sr.nodes) [
    | inl (e, s) ↦ rw (e, search_send_get_peers_any) (sym s, w)
    | inr (i, n, e, g, k, s) ↦
        let same = ask_same me blocked now sr n r in
        rw (e, search_send_get_peers_any, g, search_send_get_peers_any)
          (rw k (sym s), SameIds-IsSearch sr _ refl (set-SameIds sr.nodes i n _ g same) w)
  ]
