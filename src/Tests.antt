-- ===== src/Tests.antt =====
-- Concrete tables, addresses and identifiers, and the theorems applied to them.
pub mod Buckets
pub mod Peers
pub mod Candidates
pub mod Limits
pub mod Endpoints
pub mod Messages
pub mod Ratings
pub mod Services
pub mod Searches
use dtndht.Base.{
  if◌then◌else◌, ◌-◌, ◌*◌, ◌≤◌, ℕ, ◌+◌, ◌<◌, ◌^◌, ◌%◌, Bytes, length, memcmp, same, Ordering, Bool,
  true, false, ◌&&◌, ◌||◌, List, map, take, not, [], ◌∷◌, ◌++◌, none, some, ◌≡◌, ◌≢◌, ◌↔◌, refl,
  arith, ltb, All, replicate, drop, pos, negsuc,
}
use dtndht.Net.{Family, SockAddr}
use dtndht.Table.{Status, Entry, is_expired, clean_up_list}
use dtndht.Table.Cleanup.{
  cleanup_drops_front, cleanup_cuts_behind_last, cleanup-All, Kept, EndsExpired,
}
use dtndht.Blacklist.{init, blacklist_node, blacklisted, blacklist_size, id_blacklisted, free}
use dtndht.Blacklist.Nodes.{is_inet, blacklisted-blacklist_node}
use dtndht.Blacklist.Size.{run, distinct, blacklist_size-run, run-free}
use dtndht.Ids.{IsId, xorcmp, last_nonzero, low_bit_of, lowbit, split_bit, bucket_middle}
use dtndht.Ids.Distance.{distance, xorcmp-distance, xorcmp_eq_iff}
use dtndht.Ids.Middle.{bucket_middle-above, bucket_middle_between}
use dtndht.Routing.{Node, Bucket, Routing, zeroes, not_after, in_bucket, find_bucket, find_node}
use dtndht.Routing.Find.{find_bucket_iff}
use dtndht.Routing.Update.{
  Confirm, split_bucket, split_at, insert_all, insert_node, halves, send_cached_ping,
}
use dtndht.Routing.Learn.{learn}
use dtndht.Routing.Invariant.{IsRouting, IsBucket, IsPlaced}
use dtndht.Routing.Depth.{Aligned, full_bucket_splits}
use dtndht.Routing.Halves.{split_bucket-IsRouting}
use dtndht.Routing.Lookup.{find_node-split_bucket}
use dtndht.Routing.Keeps.{routing_of, learn-IsRouting}
use dtndht.Storage.{
  Peer, Storage, is_peer, is_old, refresh_peer, store_peer, find_storage, ensure_storage,
  storage_store, expire_peers, expire_storage,
}
use dtndht.Storage.Peers.{amount, amount-expire_peers}
use dtndht.Storage.Keep.{IsStorage, storage_store-IsStorage}
use dtndht.Storage.Expire.{expire_storage-IsStorage}
use dtndht.Storage.Lookup.{peers_of, stored_at, storage_store_added, storage_store_other}
use dtndht.Eids.{LookupType, Eids, listed, dht_add_dtn_eid, dht_remove_dtn_eid}
use dtndht.Eids.Known.{Unique, dht_remove_dtn_eid-listed, dht_add_dtn_eid-listed}
use dtndht.Guard.{Secrets, TokenBucket, make_token, token_match, rotate_secrets, dht_hash}
use dtndht.Guard.Token.{token_match-rotate_secrets}
use dtndht.Guard.Rate.{served, served_bound}
use dtndht.Search.{
  SearchNode, Search, blank_node, fill_node, insert_search_node, reset_node, reuse_nodes,
}
use dtndht.Search.Place.{place, insert_search_node-place}
use dtndht.Search.Sorted.{IsSearch, insert_search_node-IsSearch}
use dtndht.Search.Reuse.{reuse_nodes_skips}

program : Unit {0}
unfolding memcmp bucket_middle split_bit lowbit last_nonzero low_bit_of find_bucket split_bucket
    in_bucket insert_all insert_node split_at halves send_cached_ping xorcmp storage_store
    store_peer refresh_peer ensure_storage find_storage
program = tt

abbrev old : Entry
old = record { md = replicate 20 7; announce = false; status = Status.searching; updatetime = 0 }

abbrev announced : Entry
announced = record old { md = replicate 20 8; announce = true; updatetime = 90 }

old_expired : is_expired 100 (pos 50) old ≡ true
unfolding is_expired
old_expired = refl

cleanup_drops_front_example :
    clean_up_list 100 (pos 50) (announced ∷ old ∷ announced ∷ [])
    ≡ clean_up_list 100 (pos 50) (announced ∷ [])
cleanup_drops_front_example =
    cleanup_drops_front 100 (pos 50) (announced ∷ []) old (announced ∷ []) old_expired

cleanup_cuts_behind_last_example :
    (pre : List Entry) × (announced ∷ old ∷ announced ∷ []
      ≡ pre ++ clean_up_list 100 (pos 50) (announced ∷ old ∷ announced ∷ []))
    × Kept 100 (pos 50) (clean_up_list 100 (pos 50) (announced ∷ old ∷ announced ∷ []))
    × EndsExpired 100 (pos 50) pre
cleanup_cuts_behind_last_example =
    cleanup_cuts_behind_last 100 (pos 50) (announced ∷ old ∷ announced ∷ [])

cleanup-All_example : clean_up_list 100 (negsuc 0) (announced ∷ old ∷ []) ≡ []
cleanup-All_example = cleanup-All 100 0 (announced ∷ old ∷ []) (omega arith, (omega arith, tt))

abbrev v4 : ℕ → SockAddr
v4 n = record { family = Family.inet; addr = 10 ∷ 1 ∷ 2 ∷ n ∷ []; port = 9999 }

abbrev v6 : SockAddr
v6 = record { family = Family.inet6; addr = 32 ∷ replicate 15 1; port = 9999 }

blacklisted-blacklist_node_example : blacklisted (v4 3) (blacklist_node (v4 3) zeroes init) ≡ (
    (init.enabled && is_inet Family.inet && is_inet Family.inet && same (v4 3).addr (v4 3).addr)
    || blacklisted (v4 3) init)
blacklisted-blacklist_node_example = blacklisted-blacklist_node (v4 3) (v4 3) zeroes init refl refl

abbrev calls : List (SockAddr × Bytes)
calls = (v4 3, zeroes) ∷ (v6, zeroes) ∷ (v4 4, zeroes) ∷ (v4 3, zeroes) ∷ []

blacklist_size-run_example : blacklist_size (run calls init) ≡ (
  length (distinct Family.inet calls []),
  length (distinct Family.inet6 calls []),
  (length (distinct Family.inet calls []) + length (distinct Family.inet6 calls [])) % 2 ^ 32,
)
blacklist_size-run_example =
    blacklist_size-run calls (refl, (refl, (refl, (refl, tt)))) (omega arith)

run-free_example :
    (blacklisted (v4 3) (run calls (free (run calls init))) ≡ blacklisted (v4 3) (run calls init))
    × (id_blacklisted zeroes (run calls (free (run calls init))) ≡ false)
    × ((blacklist_size (run calls (free (run calls init)))).0
        ≡ (blacklist_size (run calls init)).0 + length (distinct Family.inet calls []))
    × ((blacklist_size (run calls (free (run calls init)))).1
        ≡ (blacklist_size (run calls init)).1 + length (distinct Family.inet6 calls []))
unfolding run blacklist_node
run-free_example =
    run-free (run calls init) calls (v4 3) zeroes refl refl (refl, (refl, (refl, (refl, tt))))
      (omega arith) (omega arith)

all_bytes : Bytes → Bool
all_bytes [] = true
all_bytes (x ∷ a) = ltb x 256 && all_bytes a

all_bytes-All : (a : Bytes) → all_bytes a ≡ true → All (λ x. x < 256) a
unfolding all_bytes
all_bytes-All [] h = tt
all_bytes-All (x ∷ a) h = (ground arith, all_bytes-All a (ground arith))

to_IsId : (id : Bytes) → length id ≡ 20 → all_bytes id ≡ true → IsId id
to_IsId id l h = record { len = l; bytes = all_bytes-All id h }

abbrev id_of : ℕ → Bytes
id_of n = n ∷ replicate 19 0

id_of-IsId : (n : ℕ) → n < 256 → IsId (id_of n)
unfolding all_bytes
id_of-IsId n h = to_IsId (id_of n) refl (ground arith)

xorcmp-distance_example :
    xorcmp (id_of 1) (id_of 2) (id_of 4)
    ≡ memcmp (distance (id_of 1) (id_of 4)) (distance (id_of 2) (id_of 4))
xorcmp-distance_example =
    xorcmp-distance (id_of 1) (id_of 2) (id_of 4) (id_of-IsId 1 (omega arith))
      (id_of-IsId 2 (omega arith)) (id_of-IsId 4 (omega arith))

xorcmp_eq_iff_example : (xorcmp (id_of 1) (id_of 2) (id_of 4) ≡ Ordering.eq) ↔ (id_of 1 ≡ id_of 2)
xorcmp_eq_iff_example =
    xorcmp_eq_iff (id_of 1) (id_of 2) (id_of 4) (id_of-IsId 1 (omega arith))
      (id_of-IsId 2 (omega arith)) (id_of-IsId 4 (omega arith))

middle_of_all : bucket_middle (id_of 0) none ≡ some (id_of 128)
unfolding program
middle_of_all = refl

middle_of_low : bucket_middle (id_of 0) (some (id_of 128)) ≡ some (id_of 64)
unfolding program
middle_of_low = refl

bucket_middle-above_example : IsId (id_of 128) × (memcmp (id_of 0) (id_of 128) ≡ Ordering.lt)
bucket_middle-above_example =
    bucket_middle-above (id_of 0) none (id_of-IsId 0 (omega arith)) middle_of_all

below_128 : memcmp (id_of 0) (id_of 128) ≡ Ordering.lt
unfolding program
below_128 = refl

bucket_middle_between_example :
    (memcmp (id_of 0) (id_of 64) ≡ Ordering.lt) × (memcmp (id_of 64) (id_of 128) ≡ Ordering.lt)
bucket_middle_between_example =
    bucket_middle_between (id_of 0) (id_of 128) (id_of 64) (id_of-IsId 0 (omega arith))
      (id_of-IsId 128 (omega arith)) below_128 middle_of_low
