-- ===== src/Storage/Keep.antt =====
-- Storing and expiring peers keep the storage within its bounds.
use dtndht.Base.{
  ℕ, ◌+◌, ◌≤◌, Bytes, same, same_iff, false, List, [], ◌∷◌, length, Option, none, some, ◌≡◌, refl,
  arith, Bool-cases, Option-cases, inl, inr, if_both, subst, ap, sym, ◌∙◌, leb, All,
}
use dtndht.Net.{Family, SockAddr}
use dtndht.Storage.{
  Store, Storage, store_peer, find_storage, write_storage, ensure_storage, store_in, storage_store,
}
use dtndht.Storage.Arrays.{IsStore, store_peer-IsStore}

-- No store has the key.
abbrev pub Without : Bytes → List Store → Type 0
Without id = All (λ u. same id u.id ≡ false)

abbrev pub Separate : List Store → Type 0
Separate [] = Unit
Separate (st ∷ next) = Without st.id next × Separate next

pub record IsStorage (s : Storage) : Type 0 where
  pub counted : s.numstorage ≡ length s.stores
  pub bounded : s.numstorage ≤ 16384
  pub stores : All IsStore s.stores
  pub separate : Separate s.stores

pub store_peer_id :
    (now port len : ℕ) (ip : Bytes) (st : Store) → (store_peer now port len ip st).0.id ≡ st.id
unfolding store_peer
store_peer_id now port len ip st = ground arith

length-write_storage :
    (id : Bytes) (new : Store) (l : List Store) → length (write_storage id new l) ≡ length l
unfolding write_storage
length-write_storage id new [] = refl
length-write_storage id new (st ∷ next) = ground (arith, length-write_storage id new next)

write_storage-IsStore :
    (id : Bytes) (new : Store) (l : List Store)
    → IsStore new
    → All IsStore l
    → All IsStore (write_storage id new l)
unfolding write_storage
write_storage-IsStore id new [] h k = tt
write_storage-IsStore id new (st ∷ next) h k =
    if_both (All IsStore) (same id st.id) (new ∷ next) (st ∷ write_storage id new next) (h, k.1)
      (k.0, write_storage-IsStore id new next h k.1)

write_storage-Without :
    (id x : Bytes) (new : Store) (l : List Store)
    → new.id ≡ id
    → Without x l
    → Without x (write_storage id new l)
unfolding write_storage
write_storage-Without id x new [] e h = tt
write_storage-Without id x new (st ∷ next) e h = elim (Bool-cases (same id st.id)) [
  | inl k ↦
      let q : new.id ≡ st.id = e ∙ (same_iff id st.id).0 k in rw (k, write_storage) (rw q h.0, h.1)
  | inr k ↦ rw (k, write_storage) (h.0, write_storage-Without id x new next e h.1)
]

write_storage-Separate :
    (id : Bytes) (new : Store) (l : List Store)
    → new.id ≡ id
    → Separate l
    → Separate (write_storage id new l)
unfolding write_storage
write_storage-Separate id new [] e h = tt
write_storage-Separate id new (st ∷ next) e h = elim (Bool-cases (same id st.id)) [
  | inl k ↦
      let q : new.id ≡ st.id = e ∙ (same_iff id st.id).0 k in rw (k, write_storage) (rw q h.0, h.1)
  | inr k ↦
      rw (k, write_storage)
        (write_storage-Without id st.id new next e h.0, write_storage-Separate id new next e h.1)
]

find_storage-none : (id : Bytes) (l : List Store) → find_storage id l ≡ none → Without id l
unfolding find_storage
find_storage-none id [] e = tt
find_storage-none id (st ∷ next) e = elim (Bool-cases (same id st.id)) [
  | inl k ↦ absurd (ground arith)
  | inr k ↦ (k, find_storage-none id next (ground arith))
]

find_storage-some :
    (id : Bytes) (l : List Store) (st : Store)
    → find_storage id l ≡ some st
    → All IsStore l
    → (st.id ≡ id) × IsStore st
unfolding find_storage
find_storage-some id [] st e h = absurd (cc)
find_storage-some id (x ∷ next) st e h = elim (Bool-cases (same id x.id)) [
  | inl k ↦
      let q : x ≡ st = ground arith in
      subst (λ y. (y.id ≡ id) × IsStore y) q (sym ((same_iff id x.id).0 k), h.0)
  | inr k ↦ find_storage-some id next st (ground arith) h.1
]

ensure_storage-IsStorage :
    (id : Bytes) (s s' : Storage) (st : Store)
    → ensure_storage id s ≡ some (st, s')
    → IsStorage s
    → IsStorage s' × (st.id ≡ id) × IsStore st
unfolding ensure_storage
ensure_storage-IsStorage id s s' st e h = elim (Option-cases (find_storage id s.stores)) [
  | inr (x, k) ↦
      let p : s ≡ s' = ground arith in
      let q : x ≡ st = ground arith in
      let (i, f) = find_storage-some id s.stores st (k ∙ ap some q) h.stores in
      (subst IsStorage p h, i, f)
  | inl k ↦ elim (Bool-cases (leb 16384 s.numstorage)) [
    | inl m ↦ absurd (ground arith)
    | inr m ↦
        let new : Store = record { id = id; maxpeers = 0; peers = [] } in
        let q : new ≡ st = ground arith in
        let p : record { stores = new ∷ s.stores; numstorage = s.numstorage + 1 } ≡ s' =
          ground arith in
        let fresh : IsStore new = record {
          fits = omega arith;
          bounded = omega arith;
          once = λ a b c. omega arith;
        } in
        (
          subst IsStorage p (record {
            counted = omega (arith, h.counted);
            bounded = ground arith;
            stores = (fresh, h.stores);
            separate = (find_storage-none id s.stores k, h.separate);
          }),
          sym (ap (λ (y : Store). y.id) q),
          subst IsStore q fresh,
        )
  ]
]

store_in-IsStorage :
    (now port len : ℕ) (ip id : Bytes) (s : Storage)
    → IsStorage s
    → IsStorage (store_in now port len ip id s).0
store_in-IsStorage now port len ip id s h = by_store (ensure_storage id s) refl
  where
    by_store :
        (o : Option (Store × Storage))
        → ensure_storage id s ≡ o
        → IsStorage (store_in now port len ip id s).0
    by_store none e = rw (e, store_in) h
    by_store (some (st, s')) e =
        let (g, i, k) = ensure_storage-IsStorage id s s' st e h in
        let new = (store_peer now port len ip st).0 in
        let j = store_peer_id now port len ip st ∙ i in
        rw (e, store_in)
          (record {
            counted = g.counted ∙ sym (length-write_storage id new s'.stores);
            bounded = g.bounded;
            stores =
                write_storage-IsStore id new s'.stores (store_peer-IsStore now port len ip st k)
                  g.stores;
            separate = write_storage-Separate id new s'.stores j g.separate;
          })

-- Storing a peer, whatever its address, keeps the storage well-formed: `numstorage` is the number
-- of keys and at most 16384, no key is stored twice, and each key has an array of at most 2048
-- places that holds its peers, none of them twice.
pub storage_store-IsStorage :
    (now : ℕ) (id : Bytes) (sa : SockAddr) (port : ℕ) (s : Storage)
    → IsStorage s
    → IsStorage (storage_store now id sa port s).0
unfolding storage_store
storage_store-IsStorage now id sa port s h = by_family sa.family
  where
    by_family :
        (af : Family) → IsStorage (storage_store now id (record sa { family = af }) port s).0
    by_family Family.inet = store_in-IsStorage now port 4 sa.addr id s h
    by_family Family.inet6 = store_in-IsStorage now port 16 sa.addr id s h
    by_family Family.unspec = h
