-- ===== src/Storage/Expire.antt =====
-- What the expiry leaves of the storage.
use dtndht.Base.{
  ℕ, ◌+◌, ◌-◌, ◌≤◌, ◌<◌, Bytes, same, same_eq, Bool, true, false, not, ◌&&◌, List, [], ◌∷◌, length,
  none, ◌≡◌, ◌⊎◌, refl, sym, ◌∙◌, arith, subst, All, Bool-cases, inl, inr,
}
use dtndht.Storage.{
  Peer, Store, Storage, is_peer, is_old, expire_peers, expire_stores, expire_storage, find_storage,
}
use dtndht.Storage.Peers.{amount, amount-all, amount-expire_peers}
use dtndht.Storage.Arrays.{IsStore}
use dtndht.Storage.Lookup.{peers_in, peers_of}
use dtndht.Storage.Keep.{Without, Separate, IsStorage}

amount_less :
    (now : ℕ) (t : Peer → Bool) (a : List Peer) → amount t (expire_peers now a) ≤ amount t a
amount_less now t a = omega (arith, amount-expire_peers now t a, fewer a)
  where
    fewer : (a : List Peer) → amount (λ p. t p && not (is_old now p)) a ≤ amount t a
    fewer [] = omega arith
    fewer (p ∷ a) = ground (arith, fewer a)

expire_peers-IsStore :
    (now : ℕ) (st : Store) → IsStore st → IsStore (record st { peers = expire_peers now st.peers })
expire_peers-IsStore now st h = record {
  fits = omega (
    arith,
    h.fits,
    amount-all st.peers,
    amount-all (expire_peers now st.peers),
    amount_less now (λ _. true) st.peers,
  );
  bounded = h.bounded;
  once = λ port len ip.
      omega (arith, h.once port len ip, amount_less now (is_peer port len ip) st.peers);
}

expire_stores-Without :
    (now n : ℕ) (id : Bytes) (l : List Store) → Without id l → Without id (expire_stores now l n).0
unfolding expire_stores
expire_stores-Without now n id [] h = tt
expire_stores-Without now n id (st ∷ next) h =
    by_peers (expire_peers now st.peers) refl (expire_stores-Without now n id next h.1)
      (expire_stores-Without now (n - 1) id next h.1)
  where
    by_peers :
        (a : List Peer)
        → expire_peers now st.peers ≡ a
        → Without id (expire_stores now next n).0
        → Without id (expire_stores now next (n - 1)).0
        → Without id (expire_stores now (st ∷ next) n).0
    by_peers [] e p q = rw (e, expire_stores) q
    by_peers (x ∷ a) e p q = rw (e, expire_stores) (h.0, p)

Expired : List Store × ℕ → ℕ → Type 0
Expired o more = (o.1 ≡ length o.0 + more) × (o.1 ≤ 16384) × All IsStore o.0 × Separate o.0

expire_stores-Expired :
    (now n more : ℕ) (l : List Store)
    → n ≡ length l + more
    → n ≤ 16384
    → All IsStore l
    → Separate l
    → Expired (expire_stores now l n) more
unfolding expire_stores Expired
expire_stores-Expired now n more [] c k h d = (c, k, tt, tt)
expire_stores-Expired now n more (st ∷ next) c k h d =
    by_peers (expire_peers now st.peers) refl
      (expire_stores-Expired now n (more + 1) next (omega arith) k h.1 d.1)
      (expire_stores-Expired now (n - 1) more next (omega arith) (omega arith) h.1 d.1)
  where
    by_peers :
        (a : List Peer)
        → expire_peers now st.peers ≡ a
        → Expired (expire_stores now next n) (more + 1)
        → Expired (expire_stores now next (n - 1)) more
        → Expired (expire_stores now (st ∷ next) n) more
    by_peers [] e p q = rw (e, expire_stores) q
    by_peers (x ∷ a) e (p, q, r, s) _ =
        rw (e, expire_stores)
          (
            omega arith,
            q,
            (subst (λ z. IsStore (record st { peers = z })) e (expire_peers-IsStore now st h.0), r),
            (expire_stores-Without now n st.id next d.0, s),
          )

-- The key has a peer.
abbrev pub HasPeer : Store → Type 0
HasPeer st = 0 < length st.peers

expire_stores-HasPeer : (now n : ℕ) (l : List Store) → All HasPeer (expire_stores now l n).0
unfolding expire_stores
expire_stores-HasPeer now n [] = tt
expire_stores-HasPeer now n (st ∷ next) =
    by_peers (expire_peers now st.peers) refl (expire_stores-HasPeer now n next)
      (expire_stores-HasPeer now (n - 1) next)
  where
    by_peers :
        (a : List Peer)
        → expire_peers now st.peers ≡ a
        → All HasPeer (expire_stores now next n).0
        → All HasPeer (expire_stores now next (n - 1)).0
        → All HasPeer (expire_stores now (st ∷ next) n).0
    by_peers [] e p q = rw (e, expire_stores) q
    by_peers (x ∷ a) e p q = rw (e, expire_stores) (omega arith, p)

find_storage-Without : (id : Bytes) (l : List Store) → Without id l → find_storage id l ≡ none
unfolding find_storage
find_storage-Without id [] h = refl
find_storage-Without id (st ∷ next) h = rw (h.0, find_storage) (find_storage-Without id next h.1)

-- How many peers of the key pass the test.
abbrev held : Bytes → (Peer → Bool) → List Store → ℕ
held id t l = amount t (peers_in (find_storage id l))

module _ (now : ℕ) (id : Bytes) (t : Peer → Bool) where
  abbrev fresh : Peer → Bool
  fresh p = t p && not (is_old now p)

  held-expire_stores :
      (n : ℕ) (l : List Store) → Separate l → held id t (expire_stores now l n).0 ≡ held id fresh l
  unfolding expire_stores find_storage
  held-expire_stores n [] d = refl
  held-expire_stores n (st ∷ next) d =
      by_peers (expire_peers now st.peers) refl (held-expire_stores n next d.1)
        (held-expire_stores (n - 1) next d.1) (Bool-cases (same id st.id))
    where
      by_peers :
          (a : List Peer)
          → expire_peers now st.peers ≡ a
          → held id t (expire_stores now next n).0 ≡ held id fresh next
          → held id t (expire_stores now next (n - 1)).0 ≡ held id fresh next
          → (same id st.id ≡ true) ⊎ (same id st.id ≡ false)
          → held id t (expire_stores now (st ∷ next) n).0 ≡ held id fresh (st ∷ next)
      by_peers [] e p q (inl k) =
          let none_left : held id fresh next ≡ 0 =
            rw
              (find_storage-Without id next
                (subst (λ i. Without i next) (sym (same_eq id st.id k)) d.0))
              refl in
          let all_old : amount t [] ≡ amount fresh st.peers =
            subst (λ z. amount t z ≡ amount fresh st.peers) e
              (amount-expire_peers now t st.peers) in
          rw (e, expire_stores, k) (q ∙ none_left ∙ all_old)
      by_peers [] e p q (inr k) = rw (e, expire_stores, k) q
      by_peers (x ∷ a) e p q (inl k) =
          rw (e, expire_stores, k)
            (subst (λ z. amount t z ≡ amount fresh st.peers) e (amount-expire_peers now t st.peers))
      by_peers (x ∷ a) e p q (inr k) = rw (e, expire_stores, k) p

-- The expiry keeps the storage well-formed: `numstorage` stays the number of keys, which are
-- distinct, each with an array of at most 2048 places that holds its peers, none of them twice.
-- Every key that is left has a peer, and each key has exactly the peers that it had and that
-- announced themselves in the last 32 minutes: for every test, as many peers of the key that pass
-- it are left as it had peers that pass it and are not old, none if the key is not stored.
pub expire_storage-IsStorage :
    (now : ℕ) (s : Storage)
    → IsStorage s
    → IsStorage (expire_storage now s)
      × All HasPeer (expire_storage now s).stores
      × ((id : Bytes) (t : Peer → Bool)
          → amount t (peers_of id (expire_storage now s))
            ≡ amount (λ p. t p && not (is_old now p)) (peers_of id s))
unfolding expire_storage Expired peers_of
expire_storage-IsStorage now s h =
    let (a, b, c, d) =
      expire_stores-Expired now s.numstorage 0 s.stores (omega (arith, h.counted)) h.bounded
        h.stores h.separate in
    (
      record { counted = omega arith; bounded = b; stores = c; separate = d },
      expire_stores-HasPeer now s.numstorage s.stores,
      λ id t. held-expire_stores now id t s.numstorage s.stores h.separate,
    )
