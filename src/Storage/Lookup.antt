-- ===== src/Storage/Lookup.antt =====
-- What is found in the storage after a peer has been stored.
use dtndht.Base.{
  ℕ, ◌+◌, ◌≤◌, Bytes, same, same_self, same_iff, same_ne, Bool, true, false, List, [], ◌∷◌, Option,
  none, some, ◌≡◌, ◌≢◌, refl, sym, ap, ◌∙◌, subst, arith, ◌&&◌, ◌==◌, leb, length, Bool-cases,
  Option-cases, inl, inr, pos,
}
use dtndht.Storage.Peers.{amount, amount-append}
use dtndht.Storage.Arrays.{refresh_peer-none}
use dtndht.Storage.Keep.{store_peer_id}
use dtndht.Net.{Family, SockAddr, addr_len}
use dtndht.Storage.{
  Peer, Store, Storage, find_storage, write_storage, ensure_storage, store_peer, store_in,
  storage_store, is_peer, refresh_peer, add_peer, expand,
}

-- The peers of a key; none if it is not stored.
abbrev pub peers_in : Option Store → List Peer
peers_in none = []
peers_in (some st) = st.peers

unfoldable pub peers_of : Bytes → Storage → List Peer
peers_of id s = peers_in (find_storage id s.stores)

find_other :
    (id other : Bytes) (new : Store) (l : List Store)
    → other ≢ id
    → new.id ≡ id
    → find_storage other (write_storage id new l) ≡ find_storage other l
unfolding find_storage write_storage
find_other id other new [] d e = refl
find_other id other new (st ∷ next) d e = elim (Bool-cases (same id st.id)) [
  | inl k ↦
      let q : st.id ≡ id = sym ((same_iff id st.id).0 k) in
      let a : same other new.id ≡ false = rw e (same_ne other id d) in
      let b : same other st.id ≡ false = rw q (same_ne other id d) in ground arith
  | inr k ↦ ground (arith, find_other id other new next d e)
]

find_written :
    (id : Bytes) (new st : Store) (l : List Store)
    → new.id ≡ id
    → find_storage id l ≡ some st
    → find_storage id (write_storage id new l) ≡ some new
unfolding find_storage write_storage
find_written id new st [] e h = absurd (cc)
find_written id new st (x ∷ next) e h = elim (Bool-cases (same id x.id)) [
  | inl k ↦ let a : same id new.id ≡ true = rw e (same_self id) in ground arith
  | inr k ↦ ground (arith, find_written id new st next e)
]

-- The store that is written has the key, and what is found before is what it held.
ensured :
    (id : Bytes) (s s' : Storage) (st : Store)
    → ensure_storage id s ≡ some (st, s')
    → (st.id ≡ id)
      × (find_storage id s'.stores ≡ some st)
      × (peers_of id s ≡ st.peers)
      × ((other : Bytes) → other ≢ id → find_storage other s'.stores ≡ find_storage other s.stores)
unfolding ensure_storage find_storage peers_of
ensured id s s' st e = by_find (find_storage id s.stores) refl
  where
    own : (l : List Store) (x : Store) → find_storage id l ≡ some x → x.id ≡ id
    own [] x h = absurd (cc)
    own (y ∷ l) x h = elim (Bool-cases (same id y.id)) [
      | inl k ↦
          let q : y ≡ x = ground arith in
          sym (ap (λ (z : Store). z.id) q) ∙ sym ((same_iff id y.id).0 k)
      | inr k ↦ own l x (ground arith)
    ]

    by_find :
        (o : Option Store)
        → find_storage id s.stores ≡ o
        → (st.id ≡ id)
          × (find_storage id s'.stores ≡ some st)
          × (peers_of id s ≡ st.peers)
          × ((other : Bytes)
              → other ≢ id
              → find_storage other s'.stores ≡ find_storage other s.stores)
    by_find (some x) k =
        let p : s ≡ s' = ground arith in
        let q : x ≡ st = ground arith in
        (
          own s.stores st (k ∙ ap some q),
          subst (λ (z : Storage). find_storage id z.stores ≡ some st) p (k ∙ ap some q),
          ap peers_in k ∙ ap (λ (z : Store). z.peers) q,
          λ other d. ap (find_storage other) (ap (λ (z : Storage). z.stores) (sym p)),
        )
    by_find none k = elim (Bool-cases (leb 16384 s.numstorage)) [
      | inl m ↦ absurd (ground arith)
      | inr m ↦
          let new : Store = record { id = id; maxpeers = 0; peers = [] } in
          let q : new ≡ st = ground arith in
          let p : record { stores = new ∷ s.stores; numstorage = s.numstorage + 1 } ≡ s' =
            ground arith in
          let found : find_storage id (new ∷ s.stores) ≡ some new = ground (arith, same_self id) in
          (
            sym (ap (λ (z : Store). z.id) q),
            subst (λ (z : Storage). find_storage id z.stores ≡ some st) p (found ∙ ap some q),
            ap peers_in k ∙ ap (λ (z : Store). z.peers) q,
            λ other d.
                subst (λ (z : Storage). find_storage other z.stores ≡ find_storage other s.stores) p
                  (ground (arith, same_ne other id d)),
          )
    ]

store_in_other :
    (now port len : ℕ) (ip id other : Bytes) (s : Storage)
    → other ≢ id
    → peers_of other (store_in now port len ip id s).0 ≡ peers_of other s
unfolding peers_of
store_in_other now port len ip id other s d = by_store (ensure_storage id s) refl
  where
    by_store :
        (o : Option (Store × Storage))
        → ensure_storage id s ≡ o
        → peers_of other (store_in now port len ip id s).0 ≡ peers_of other s
    by_store none e = rw (e, store_in) refl
    by_store (some (st, s')) e =
        let (i, f, b, g) = ensured id s s' st e in
        let new = (store_peer now port len ip st).0 in
        let h =
          find_other id other new s'.stores d (store_peer_id now port len ip st ∙ i) ∙ g other d in
        rw (e, store_in) (ap peers_in h)

-- Storing a peer for a key leaves the peers of every other key as they are.
pub storage_store_other :
    (now : ℕ) (id other : Bytes) (sa : SockAddr) (port : ℕ) (s : Storage)
    → other ≢ id
    → peers_of other (storage_store now id sa port s).0 ≡ peers_of other s
unfolding storage_store
storage_store_other now id other sa port s d = by_family sa.family
  where
    by_family :
        (af : Family)
        → peers_of other (storage_store now id (record sa { family = af }) port s).0
          ≡ peers_of other s
    by_family Family.inet = store_in_other now port 4 sa.addr id other s d
    by_family Family.inet6 = store_in_other now port 16 sa.addr id other s d
    by_family Family.unspec = refl

amount_and : (t u : Peer → Bool) (a : List Peer) → amount (λ p. t p && u p) a ≤ amount t a
amount_and t u [] = omega arith
amount_and t u (p ∷ a) = ground (arith, amount_and t u a)

add_peer_counts :
    (now port len : ℕ) (ip : Bytes) (st : Store)
    → amount (is_peer port len ip) st.peers ≡ 0
    → amount (λ p. is_peer port len ip p && p.time == now) (add_peer now port len ip st).peers ≡ 1
add_peer_counts now port len ip st z =
    let t : Peer → Bool = λ p. is_peer port len ip p && p.time == now in
    let new : Peer = record { time = now; ip = ip; len = len; port = port } in
    let one : t new ≡ true = ground (arith, same_self ip) in
    amount-append t st.peers (new ∷ [])
    ∙ ground (arith, one, amount_and (is_peer port len ip) (λ p. p.time == now) st.peers)

store_peer_added :
    (now port len : ℕ) (ip : Bytes) (st : Store)
    → (store_peer now port len ip st).1 ≡ pos 1
    → (amount (is_peer port len ip) st.peers ≡ 0)
      × (amount
            (λ p. is_peer port len ip p && p.time == now)
            (store_peer now port len ip st).0.peers
          ≡ 1)
unfolding store_peer
store_peer_added now port len ip st h =
    elim (Option-cases (refresh_peer now port len ip st.peers)) [
      | inr (b, e) ↦ absurd (ground arith)
      | inl e ↦
          let z = refresh_peer-none now port len ip st.peers e in
          elim (Bool-cases (leb st.maxpeers (length st.peers))) [
            | inl k ↦ elim (Bool-cases (leb 2048 st.maxpeers)) [
              | inl m ↦ absurd (ground arith)
              | inr m ↦ (
                z,
                rw (e, k, m, store_peer)
                    (add_peer_counts now port len ip (record st { maxpeers = expand st.maxpeers })
                      z),
              )
            ]
            | inr k ↦ (z, rw (e, k, store_peer) (add_peer_counts now port len ip st z))
          ]
    ]

-- How many of the peers of a key have the address and port and were last stored at the time.
abbrev pub stored_at : ℕ → ℕ → SockAddr → Bytes → Storage → ℕ
stored_at now port sa id s =
    amount (λ p. is_peer port (addr_len sa.family) sa.addr p && p.time == now) (peers_of id s)

store_in_added :
    (now port len : ℕ) (ip id : Bytes) (s : Storage)
    → (store_in now port len ip id s).1 ≡ pos 1
    → (amount (is_peer port len ip) (peers_of id s) ≡ 0)
      × (amount
            (λ p. is_peer port len ip p && p.time == now)
            (peers_of id (store_in now port len ip id s).0)
          ≡ 1)
unfolding peers_of
store_in_added now port len ip id s h = by_store (ensure_storage id s) refl
  where
    by_store :
        (o : Option (Store × Storage))
        → ensure_storage id s ≡ o
        → (amount (is_peer port len ip) (peers_of id s) ≡ 0)
          × (amount
                (λ p. is_peer port len ip p && p.time == now)
                (peers_of id (store_in now port len ip id s).0)
              ≡ 1)
    by_store none e = absurd (ground arith)
    by_store (some (st, s')) e =
        let (i, f, b, g) = ensured id s s' st e in
        let (z, o) = store_peer_added now port len ip st (ground arith) in
        let new = (store_peer now port len ip st).0 in
        let w = find_written id new st s'.stores (store_peer_id now port len ip st ∙ i) f in
        (
          ap (amount (is_peer port len ip)) b ∙ z,
          rw (e, store_in)
              (ap (λ q. amount (λ p. is_peer port len ip p && p.time == now) (peers_in q)) w ∙ o),
        )

-- When `storage_store` returns 1 for an IPv4 or IPv6 address, the key had no peer with that address
-- and port, and has one now, with the present time.
pub storage_store_added :
    (now : ℕ) (id : Bytes) (sa : SockAddr) (port : ℕ) (s : Storage)
    → (storage_store now id sa port s).1 ≡ pos 1
    → (amount (is_peer port (addr_len sa.family) sa.addr) (peers_of id s) ≡ 0)
      × (stored_at now port sa id (storage_store now id sa port s).0 ≡ 1)
unfolding storage_store
storage_store_added now id sa port s = by_family sa.family
  where
    by_family :
        (af : Family)
        → (storage_store now id (record sa { family = af }) port s).1 ≡ pos 1
        → (amount (is_peer port (addr_len af) sa.addr) (peers_of id s) ≡ 0)
          × (stored_at now port
                (record sa { family = af })
                id
                (storage_store now id (record sa { family = af }) port s).0
              ≡ 1)
    by_family Family.inet h = store_in_added now port 4 sa.addr id s h
    by_family Family.inet6 h = store_in_added now port 16 sa.addr id s h
    by_family Family.unspec h = absurd (ground arith)
