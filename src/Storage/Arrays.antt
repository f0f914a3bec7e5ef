-- ===== src/Storage/Arrays.antt =====
-- Storing a peer keeps the array of a key within its bounds and free of duplicates.
use dtndht.Base.{
  ℕ, suc, ◌+◌, ◌≤◌, ◌<◌, Bytes, same_iff, List, [], ◌∷◌, length, length-append, none, some, ◌≡◌,
  refl, arith, if◌then◌else◌, Bool-cases, Option-cases, inl, inr, ap, sym, ◌∙◌, leb, ◌==◌, ==_iff,
}
use dtndht.Storage.{Peer, Store, is_peer, refresh_peer, add_peer, expand, store_peer}
use dtndht.Storage.Peers.{amount, amount-append}

-- The array is large enough and not too large, and holds no peer twice.
pub record IsStore (st : Store) : Type 0 where
  pub fits : length st.peers ≤ st.maxpeers
  pub bounded : st.maxpeers ≤ 2048
  pub once : (port len : ℕ) (ip : Bytes) → amount (is_peer port len ip) st.peers ≤ 1

refresh_peer_keeps :
    (now port len : ℕ) (ip : Bytes) (a b : List Peer)
    → refresh_peer now port len ip a ≡ some b
    → (length b ≡ length a)
      × ((port' len' : ℕ) (ip' : Bytes)
          → amount (is_peer port' len' ip') b ≡ amount (is_peer port' len' ip') a)
unfolding refresh_peer
refresh_peer_keeps now port len ip [] b e = absurd (cc)
refresh_peer_keeps now port len ip (p ∷ a) b e = elim (Bool-cases (is_peer port len ip p)) [
  | inl h ↦
      let q : record p { time = now } ∷ a ≡ b = ground arith in
      (sym (ap length q), λ port' len' ip'. sym (ap (amount (is_peer port' len' ip')) q))
  | inr h ↦ elim (Option-cases (refresh_peer now port len ip a)) [
    | inl k ↦ absurd (ground arith)
    | inr (c, k) ↦
        let (l, m) = refresh_peer_keeps now port len ip a c k in
        let q : p ∷ c ≡ b = ground arith in
        (
          sym (ap length q) ∙ ap suc l,
          λ port' len' ip'.
              sym (ap (amount (is_peer port' len' ip')) q)
              ∙ ap (λ n. (if is_peer port' len' ip' p then 1 else 0) + n) (m port' len' ip'),
        )
  ]
]

pub refresh_peer-none :
    (now port len : ℕ) (ip : Bytes) (a : List Peer)
    → refresh_peer now port len ip a ≡ none
    → amount (is_peer port len ip) a ≡ 0
unfolding refresh_peer
refresh_peer-none now port len ip [] e = refl
refresh_peer-none now port len ip (p ∷ a) e = elim (Bool-cases (is_peer port len ip p)) [
  | inl h ↦ absurd (ground arith)
  | inr h ↦ elim (Option-cases (refresh_peer now port len ip a)) [
    | inl k ↦ ground (arith, refresh_peer-none now port len ip a k)
    | inr (c, k) ↦ absurd (ground arith)
  ]
]

add_peer_once :
    (now port len : ℕ) (ip : Bytes) (st : Store)
    → amount (is_peer port len ip) st.peers ≡ 0
    → ((port len : ℕ) (ip : Bytes) → amount (is_peer port len ip) st.peers ≤ 1)
    → (port' len' : ℕ) (ip' : Bytes)
    → amount (is_peer port' len' ip') (add_peer now port len ip st).peers ≤ 1
add_peer_once now port len ip st z once port' len' ip' =
    let new : Peer = record { time = now; ip = ip; len = len; port = port } in
    let sum = amount-append (is_peer port' len' ip') st.peers (new ∷ []) in
    elim (Bool-cases (is_peer port' len' ip' new)) [
      | inl h ↦
          let p : port ≡ port' = ground arith in
          let l : len ≡ len' = ground arith in
          let i : ip ≡ ip' = (same_iff ip ip').0 (ground arith) in
          let z' : amount (is_peer port' len' ip') st.peers ≡ 0 = rw (sym p, sym l, sym i) z in
          ground arith
      | inr h ↦ ground (arith, once port' len' ip')
    ]

expand_more :
    (maxpeers : ℕ) → maxpeers < 2048 → (maxpeers < expand maxpeers) × (expand maxpeers ≤ 2048)
expand_more maxpeers h = elim (Bool-cases (maxpeers == 0)) [
  | inl e ↦ rw e (omega (arith, (==_iff maxpeers 0).0 e), omega arith)
  | inr e ↦ ground arith
]

pub store_peer-IsStore :
    (now port len : ℕ) (ip : Bytes) (st : Store)
    → IsStore st
    → IsStore (store_peer now port len ip st).0
unfolding store_peer
store_peer-IsStore now port len ip st h =
    elim (Option-cases (refresh_peer now port len ip st.peers)) [
      | inr (b, e) ↦
          let (l, m) = refresh_peer_keeps now port len ip st.peers b e in
          rw (e, store_peer)
            (record {
              fits = omega (arith, l, h.fits);
              bounded = h.bounded;
              once = λ port' len' ip'. omega (arith, m port' len' ip', h.once port' len' ip');
            })
      | inl e ↦
          let once =
            add_peer_once now port len ip st (refresh_peer-none now port len ip st.peers e)
              h.once in
          let sum =
            length-append st.peers (record { time = now; ip = ip; len = len; port = port } ∷ []) in
          elim (Bool-cases (leb st.maxpeers (length st.peers))) [
            | inl k ↦ elim (Bool-cases (leb 2048 st.maxpeers)) [
              | inl m ↦ rw (e, k, m, store_peer) h
              | inr m ↦
                  let (more, most) = expand_more st.maxpeers (ground arith) in
                  rw (e, k, m, store_peer)
                    (record { fits = ground (arith, h.fits); bounded = most; once = once })
            ]
            | inr k ↦
                rw (e, k, store_peer)
                  (record { fits = ground arith; bounded = h.bounded; once = once })
          ]
    ]
