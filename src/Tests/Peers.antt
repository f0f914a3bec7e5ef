-- ===== src/Tests/Peers.antt =====
-- Concrete states of the storage, and the theorems applied to them.
use dtndht.Base.{Bytes, Bool, All, true, ◌&&◌, not, [], ◌∷◌, ◌≡◌, ◌≢◌, refl, arith, pos}
use dtndht.Storage.{Peer, Storage, is_peer, is_old, storage_store, expire_peers, expire_storage}
use dtndht.Storage.Peers.{amount, amount-expire_peers}
use dtndht.Storage.Keep.{IsStorage, storage_store-IsStorage}
use dtndht.Storage.Expire.{HasPeer, expire_storage-IsStorage}
use dtndht.Storage.Lookup.{peers_of, stored_at, storage_store_added, storage_store_other}
use dtndht.Tests.{program, id_of, v4}

abbrev peer_a : Peer
peer_a = record { time = 5000; ip = 10 ∷ 1 ∷ 2 ∷ 3 ∷ []; len = 4; port = 9999 }

abbrev peer_b : Peer
peer_b = record peer_a { time = 10; port = 8888 }

abbrev storage : Storage
storage = record { stores = []; numstorage = 0 }

empty-IsStorage : IsStorage storage
empty-IsStorage = record { counted = refl; bounded = omega arith; stores = tt; separate = tt }

abbrev stored : Storage
stored = (storage_store 5000 (id_of 1) (v4 3) 9999 storage).0

storage_store-IsStorage_example : IsStorage stored
storage_store-IsStorage_example =
    storage_store-IsStorage 5000 (id_of 1) (v4 3) 9999 storage empty-IsStorage

expire_storage-IsStorage_example :
    IsStorage (expire_storage 9000 stored)
    × All HasPeer (expire_storage 9000 stored).stores
    × ((id : Bytes) (t : Peer → Bool)
        → amount t (peers_of id (expire_storage 9000 stored))
          ≡ amount (λ p. t p && not (is_old 9000 p)) (peers_of id stored))
expire_storage-IsStorage_example =
    expire_storage-IsStorage 9000 stored
      (storage_store-IsStorage 5000 (id_of 1) (v4 3) 9999 storage empty-IsStorage)

amount-expire_peers_example :
    amount (λ _. true) (expire_peers 6000 (peer_b ∷ peer_a ∷ []))
    ≡ amount (λ p. true && not (is_old 6000 p)) (peer_b ∷ peer_a ∷ [])
amount-expire_peers_example = amount-expire_peers 6000 (λ _. true) (peer_b ∷ peer_a ∷ [])

is_added : (storage_store 5000 (id_of 1) (v4 3) 9999 storage).1 ≡ pos 1
unfolding program
is_added = refl

storage_store_added_example :
    (amount (is_peer 9999 4 (v4 3).addr) (peers_of (id_of 1) storage) ≡ 0)
    × (stored_at 5000 9999 (v4 3) (id_of 1) stored ≡ 1)
storage_store_added_example = storage_store_added 5000 (id_of 1) (v4 3) 9999 storage is_added

storage_store_other_example : peers_of (id_of 2) stored ≡ peers_of (id_of 2) storage
storage_store_other_example =
    storage_store_other 5000 (id_of 1) (id_of 2) (v4 3) 9999 storage differ
  where
    differ : id_of 2 ≢ id_of 1
    differ = cc
