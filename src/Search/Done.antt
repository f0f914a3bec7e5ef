-- ===== src/Search/Done.antt =====
-- Every search is done after a number of steps, even if no node answers.
use dtndht.Base.{
  ℕ, zero, suc, ◌+◌, ◌-◌, ◌*◌, ◌≤◌, ◌<◌, Bool, true, false, ◌||◌, List, [], ◌∷◌, All, length, ◌≡◌,
  refl, sym, ap, ◌∙◌, arith, leb, ◌==◌, Bool-cases, ◌⊎◌, inl, inr,
}
use dtndht.Net.{SockAddr}
use dtndht.Routing.{Routing}
use dtndht.Search.{Search, SearchNode}
use dtndht.Search.Step.{
  all_replied, may_ask, acknowledged, search_send_get_peers, ask_nodes, announce_nodes, search_step,
}
use dtndht.Wire.Send.{Local}

-- How many requests the nodes are still good for: three each.
abbrev pub remaining : List SearchNode → ℕ
remaining [] = 0
remaining (n ∷ nodes) = (3 - n.pinged) + remaining nodes

-- The last request to each node was at a time or before.
abbrev pub AskedBy : ℕ → List SearchNode → Type 0
AskedBy t = All (λ n. n.request_time ≤ t)

AskedBy-later : (t u : ℕ) (nodes : List SearchNode) → t ≤ u → AskedBy t nodes → AskedBy u nodes
AskedBy-later t u [] h a = tt
AskedBy-later t u (n ∷ nodes) h (b, a) = (omega arith, AskedBy-later t u nodes h a)

-- What a part of the nodes gives, with another node in front that is as it was, or that was asked.
as_before :
    (k x y : ℕ) (b : Bool)
    → (x ≤ y) × ((b ≡ true) ⊎ (x < y))
    → (k + x ≤ k + y) × ((b ≡ true) ⊎ (k + x < k + y))
as_before k x y b (h, inl e) = (omega arith, inl e)
as_before k x y b (h, inr l) = (omega arith, inr (omega arith))

one_less :
    (p x y : ℕ)
    → p < 3
    → x ≤ y
    → ((3 - (p + 1)) + x ≤ (3 - p) + y) × ((false ≡ true) ⊎ ((3 - (p + 1)) + x < (3 - p) + y))
one_less p x y h l = (omega arith, inr (omega arith))

module _ (me : Local) (blocked : SockAddr → Bool) (now : ℕ) where
  -- A node that is asked has a request less left, another one is as it was.
  ask_cases :
      (sr : Search) (n : SearchNode) (r : Routing)
      → ((may_ask me blocked now n ≡ true)
          × ((search_send_get_peers me blocked now sr n r).0 ≡ true)
          × ((search_send_get_peers me blocked now sr n r).1.pinged ≡ n.pinged + 1)
          × ((search_send_get_peers me blocked now sr n r).1.request_time ≡ now))
        ⊎ ((may_ask me blocked now n ≡ false)
            × ((search_send_get_peers me blocked now sr n r).0 ≡ false)
            × ((search_send_get_peers me blocked now sr n r).1 ≡ n))
  unfolding search_send_get_peers
  ask_cases sr n r = elim (Bool-cases (may_ask me blocked now n)) [
    | inl k ↦ inl (
      k,
      rw (k, search_send_get_peers) refl,
      rw (k, search_send_get_peers) refl,
      rw (k, search_send_get_peers) refl,
    )
    | inr k ↦ inr (k, rw (k, search_send_get_peers) refl, rw (k, search_send_get_peers) refl)
  ]

  ask_nodes-remaining :
      (j : ℕ) (sr : Search) (nodes : List SearchNode) (r : Routing)
      → remaining (ask_nodes me blocked now j sr nodes r).0 ≤ remaining nodes
  unfolding ask_nodes
  ask_nodes-remaining j sr [] r = omega arith
  ask_nodes-remaining zero sr (n ∷ nodes) r = omega arith
  ask_nodes-remaining (suc j) sr (n ∷ nodes) r =
      let r1 = (search_send_get_peers me blocked now sr n r).2 in
      elim (ask_cases sr n r) [
        | inl (m, k, p, q) ↦ rw k (omega (arith, p, ask_nodes-remaining j sr nodes r1))
        | inr (m, k, q) ↦ rw k (
            omega
              (arith, ap (λ (x : SearchNode). x.pinged) q, ask_nodes-remaining (suc j) sr nodes r1))
      ]

  ask_nodes-progress :
      (i j : ℕ) (sr : Search) (nodes : List SearchNode) (r : Routing) (t : ℕ)
      → AskedBy t nodes
      → t + 15 < now
      → all_replied i nodes ≡ false
      → remaining (ask_nodes me blocked now (suc j) sr nodes r).0 < remaining nodes
  unfolding ask_nodes all_replied
  ask_nodes-progress zero j sr nodes r t a h e = absurd (cc)
  ask_nodes-progress (suc i) j sr [] r t a h e = absurd (cc)
  ask_nodes-progress (suc i) j sr (n ∷ nodes) r t (b, a) h e =
      let r1 = (search_send_get_peers me blocked now sr n r).2 in
      elim (ask_cases sr n r) [
        | inl (m, k, p, q) ↦
            let live : n.pinged < 3 = ground arith in
            rw k (omega (arith, live, p, ask_nodes-remaining j sr nodes r1))
        | inr (m, k, q) ↦
            let same_pinged = ap (λ (x : SearchNode). x.pinged) q in
            elim (Bool-cases (leb 3 n.pinged)) [
              | inl d ↦
                  let rest : all_replied (suc i) nodes ≡ false =
                    sym (rw (d, all_replied) refl) ∙ e in
                  rw k (
                    omega (arith, same_pinged, ask_nodes-progress (suc i) j sr nodes r1 t a h rest))
              | inr d ↦ elim (Bool-cases n.replied) [
                | inr f ↦ absurd (ground arith)
                | inl f ↦
                    let rest : all_replied i nodes ≡ false =
                      sym (rw (d, f, all_replied) refl) ∙ e in
                    rw k (omega (arith, same_pinged, ask_nodes-progress i j sr nodes r1 t a h rest))
              ]
            ]
      ]

  ask_nodes-AskedBy :
      (j : ℕ) (sr : Search) (nodes : List SearchNode) (r : Routing)
      → AskedBy now nodes
      → AskedBy now (ask_nodes me blocked now j sr nodes r).0
  unfolding ask_nodes
  ask_nodes-AskedBy j sr [] r a = tt
  ask_nodes-AskedBy zero sr (n ∷ nodes) r a = a
  ask_nodes-AskedBy (suc j) sr (n ∷ nodes) r (b, a) =
      let r1 = (search_send_get_peers me blocked now sr n r).2 in
      elim (ask_cases sr n r) [
        | inl (m, k, p, q) ↦ rw k (omega (arith, q), ask_nodes-AskedBy j sr nodes r1 a)
        | inr (m, k, q) ↦ rw k (
          omega (arith, ap (λ (x : SearchNode). x.request_time) q),
          ask_nodes-AskedBy (suc j) sr nodes r1 a,
        )
      ]

  -- If not every node has acknowledged, one more has been asked.
  announce_nodes-progress :
      (j : ℕ) (sr : Search) (nodes : List SearchNode) (r : Routing)
      → (remaining (announce_nodes me blocked now j sr nodes r).1 ≤ remaining nodes)
        × (((announce_nodes me blocked now j sr nodes r).0 ≡ true)
            ⊎ (remaining (announce_nodes me blocked now j sr nodes r).1 < remaining nodes))
  unfolding announce_nodes
  announce_nodes-progress zero sr nodes r = (omega arith, inl refl)
  announce_nodes-progress (suc j) sr [] r = (omega arith, inl refl)
  announce_nodes-progress (suc j) sr (n ∷ nodes) r = elim (Bool-cases (leb 3 n.pinged)) [
    | inl d ↦
        rw (d, announce_nodes) (as_before _ _ _ _ (announce_nodes-progress (suc j) sr nodes r))
    | inr d ↦ elim (Bool-cases (acknowledged n).acked) [
      | inl f ↦ rw (d, f, announce_nodes) (as_before _ _ _ _ (announce_nodes-progress j sr nodes r))
      | inr f ↦
          rw (d, f, announce_nodes)
            (one_less n.pinged _ _ (ground arith) (announce_nodes-progress j sr nodes _).0)
    ]
  ]

  announce_nodes-AskedBy :
      (j : ℕ) (sr : Search) (nodes : List SearchNode) (r : Routing)
      → AskedBy now nodes
      → AskedBy now (announce_nodes me blocked now j sr nodes r).1
  unfolding announce_nodes
  announce_nodes-AskedBy zero sr nodes r a = a
  announce_nodes-AskedBy (suc j) sr [] r a = tt
  announce_nodes-AskedBy (suc j) sr (n ∷ nodes) r (b, a) = elim (Bool-cases (leb 3 n.pinged)) [
    | inl d ↦ rw (d, announce_nodes) (b, announce_nodes-AskedBy (suc j) sr nodes r a)
    | inr d ↦ elim (Bool-cases (acknowledged n).acked) [
      | inl f ↦ rw (d, f, announce_nodes) (b, announce_nodes-AskedBy j sr nodes r a)
      | inr f ↦ rw (d, f, announce_nodes) (omega arith, announce_nodes-AskedBy j sr nodes _ a)
    ]
  ]

  step-progress :
      (sr : Search) (r : Routing) (t : ℕ)
      → AskedBy t sr.nodes
      → sr.step_time ≤ t
      → t + 15 < now
      → (((search_step me blocked now sr r).3 ≡ true)
          ⊎ (remaining (search_step me blocked now sr r).0.nodes < remaining sr.nodes))
        × AskedBy now (search_step me blocked now sr r).0.nodes
        × ((search_step me blocked now sr r).0.step_time ≤ now)
  unfolding search_step
  step-progress sr r t a s h =
      let later = AskedBy-later t now sr.nodes (omega arith) a in
      elim (Bool-cases (all_replied 8 sr.nodes)) [
        | inl k ↦ elim (Bool-cases (sr.port == 0)) [
          | inl p ↦ rw (k, p, search_step) (inl refl, later, omega arith)
          | inr p ↦
              let announced = announce_nodes-AskedBy 8 sr sr.nodes r later in
              let fewer = (announce_nodes-progress 8 sr sr.nodes r).1 in
              elim (Bool-cases (announce_nodes me blocked now 8 sr sr.nodes r).0) [
                | inl q ↦ rw (k, p, q, search_step) (inl refl, announced, omega arith)
                | inr q ↦
                    rw (k, p, q, search_step)
                      (inr (elim fewer [ inl z ↦ absurd (cc) | inr z ↦ z ]), announced, omega arith)
              ]
        ]
        | inr k ↦
            let due : leb now (sr.step_time + 15) ≡ false = ground arith in
            rw (k, due, search_step)
              (
                inr (ask_nodes-progress 8 2 sr sr.nodes r t a h k),
                ask_nodes-AskedBy 3 sr sr.nodes r later,
                omega arith,
              )
      ]

-- Each time is more than 15 seconds after the one before it.
abbrev pub Spaced : ℕ → List ℕ → Type 0
Spaced t [] = Unit
Spaced t (u ∷ times) = (t + 15 < u) × Spaced u times

module _ (me : Local) (blocked : SockAddr → Bool) where
  -- Whether one of the steps at these times ends the search.
  unfoldable pub is_done_by : List ℕ → Search → Routing → Bool
  is_done_by [] sr r = false
  is_done_by (now ∷ times) sr r =
      let (sr', r', _, finished) = search_step me blocked now sr r in
      finished || is_done_by times sr' r'

  is_done_by-Spaced :
      (times : List ℕ) (t : ℕ) (sr : Search) (r : Routing)
      → Spaced t times
      → AskedBy t sr.nodes
      → sr.step_time ≤ t
      → remaining sr.nodes < length times
      → is_done_by times sr r ≡ true
  unfolding is_done_by
  is_done_by-Spaced [] t sr r w a s h = absurd (omega arith)
  is_done_by-Spaced (now ∷ times) t sr r (d, w) a s h =
      let (progress, asked, stepped) = step-progress me blocked now sr r t a s d in
      let sr' = (search_step me blocked now sr r).0 in
      let r' = (search_step me blocked now sr r).1 in
      elim progress [
        | inl f ↦ rw (f, is_done_by) refl
        | inr less ↦
            let rest = is_done_by-Spaced times now sr' r' w asked stepped (omega arith) in
            elim (Bool-cases (search_step me blocked now sr r).3) [
              | inl f ↦ rw (f, is_done_by) refl
              | inr f ↦ rw (f, is_done_by) rest
            ]
      ]

  remaining_bound : (nodes : List SearchNode) → remaining nodes ≤ 3 * length nodes
  remaining_bound [] = omega arith
  remaining_bound (n ∷ nodes) = omega (arith, remaining_bound nodes)

  -- Of any steps of a search that are more than 15 seconds apart, and more than three for each of its
  -- nodes, one ends the search and calls back, even if no node ever answers, if the requests and the
  -- step before them are more than 15 seconds old too.
  pub search_step-ends :
      (times : List ℕ) (t : ℕ) (sr : Search) (r : Routing)
      → Spaced t times
      → AskedBy t sr.nodes
      → sr.step_time ≤ t
      → 3 * length sr.nodes < length times
      → is_done_by times sr r ≡ true
  search_step-ends times t sr r w a s h =
      is_done_by-Spaced times t sr r w a s (omega (arith, remaining_bound sr.nodes))
