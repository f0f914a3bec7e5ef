-- ===== src/Storage.antt =====
-- dtndht/dht.c: the peers that announced themselves for a key. An array of peers is the list of
-- its used elements, so that `numpeers` is its length.
pub mod Peers
pub mod Arrays
pub mod Keep
pub mod Expire
pub mod Lookup
use dtndht.Base.{
  ℕ, zero, suc, ◌+◌, ◌-◌, ◌*◌, min, Bytes, same, Bool, true, false, not, ◌&&◌, List, [], ◌∷◌, ◌++◌,
  length, Option, none, some, if◌then◌else◌, ltb, leb, ◌==◌, ℤ, pos, negsuc,
}
use dtndht.Net.{Family, SockAddr, addr_len}

pub record Peer : Type 0 where
  pub time : ℕ
  pub ip : Bytes
  pub len : ℕ
  pub port : ℕ

-- `struct storage`
pub record Store : Type 0 where
  pub id : Bytes
  pub maxpeers : ℕ
  pub peers : List Peer

-- The static variables `storage` and `numstorage`.
pub record Storage : Type 0 where
  pub stores : List Store
  pub numstorage : ℕ

unfoldable pub find_storage : Bytes → List Store → Option Store
find_storage id [] = none
find_storage id (st ∷ next) = if same id st.id then some st else find_storage id next

-- A write through the pointer that `find_storage` returns.
unfoldable pub write_storage : Bytes → Store → List Store → List Store
write_storage id new [] = []
write_storage id new (st ∷ next) =
    if same id st.id then new ∷ next else st ∷ write_storage id new next

abbrev pub is_peer : ℕ → ℕ → Bytes → Peer → Bool
is_peer port len ip p = p.port == port && p.len == len && same p.ip ip

-- "Already there, only need to refresh"
unfoldable pub refresh_peer : ℕ → ℕ → ℕ → Bytes → List Peer → Option (List Peer)
refresh_peer now port len ip [] = none
refresh_peer now port len ip (p ∷ next) =
    let rest = refresh_peer now port len ip next in
    if is_peer port len ip p
    then some (record p { time = now } ∷ next)
    else elim rest [ none ↦ none | some l ↦ some (p ∷ l) ]

abbrev pub add_peer : ℕ → ℕ → ℕ → Bytes → Store → Store
add_peer now port len ip st = record st {
  peers = st.peers ++ record { time = now; ip = ip; len = len; port = port } ∷ [];
}

-- The new size of the array.
abbrev pub expand : ℕ → ℕ
expand maxpeers = min (if maxpeers == 0 then 2 else 2 * maxpeers) 2048

unfoldable pub store_peer : ℕ → ℕ → ℕ → Bytes → Store → Store × ℤ
unfolding refresh_peer
store_peer now port len ip st = elim (refresh_peer now port len ip st.peers) [
  | some peers ↦ (record st { peers = peers }, pos 0)
  | none ↦
      if leb st.maxpeers (length st.peers)
      then if leb 2048 st.maxpeers
        then (st, pos 0)
        else (add_peer now port len ip (record st { maxpeers = expand st.maxpeers }), pos 1)
      else (add_peer now port len ip st, pos 1)
]

-- The store of a key, created if there is none; none if there are too many.
unfoldable pub ensure_storage : Bytes → Storage → Option (Store × Storage)
unfolding find_storage
ensure_storage id s = elim (find_storage id s.stores) [
  | some st ↦ some (st, s)
  | none ↦
      let st : Store = record { id = id; maxpeers = 0; peers = [] } in
      if leb 16384 s.numstorage
      then none
      else some (st, record { stores = st ∷ s.stores; numstorage = s.numstorage + 1 })
]

abbrev pub store_in : ℕ → ℕ → ℕ → Bytes → Bytes → Storage → Storage × ℤ
store_in now port len ip id s = elim (ensure_storage id s) [
  | none ↦ (s, negsuc 0)
  | some (st, s') ↦
      let (st', rc) = store_peer now port len ip st in
      (record s' { stores = write_storage id st' s'.stores }, rc)
]

unfoldable pub storage_store : ℕ → Bytes → SockAddr → ℕ → Storage → Storage × ℤ
storage_store now id sa port s = elim sa.family [
  | Family.inet ↦ store_in now port 4 sa.addr id s
  | Family.inet6 ↦ store_in now port 16 sa.addr id s
  | Family.unspec ↦ (s, negsuc 0)
]

-- The expiry time is 32 minutes.
abbrev pub is_old : ℕ → Peer → Bool
is_old now p = ltb p.time (now - 32 * 60)

-- `peers[i] = peers[numpeers - 1]; numpeers--`, where the peers behind `i` are given.
unfoldable pub last_first : List Peer → List Peer
last_first [] = []
last_first (p ∷ []) = p ∷ []
last_first (p ∷ q ∷ next) = elim (last_first (q ∷ next)) [ [] ↦ p ∷ [] | l ∷ front ↦ l ∷ p ∷ front ]

-- The inner loop of `expire_storage` from `i` on. A round either passes a peer or drops one, so that
-- it has as many rounds as there are peers left.
unfoldable pub expire_from : ℕ → ℕ → List Peer → List Peer
unfolding last_first
expire_from now zero peers = peers
expire_from now (suc rounds) [] = []
expire_from now (suc rounds) (p ∷ next) = elim (is_old now p) [
  | true ↦ expire_from now rounds (last_first next)
  | false ↦ p ∷ expire_from now rounds next
]

unfoldable pub expire_peers : ℕ → List Peer → List Peer
unfolding expire_from
expire_peers now peers = expire_from now (length peers) peers

unfoldable pub expire_stores : ℕ → List Store → ℕ → List Store × ℕ
unfolding expire_peers
expire_stores now [] numstorage = ([], numstorage)
expire_stores now (st ∷ next) numstorage = elim (expire_peers now st.peers) [
  | [] ↦ expire_stores now next (numstorage - 1)
  | p ∷ peers ↦
      let (stores, n) = expire_stores now next numstorage in
      (record st { peers = p ∷ peers } ∷ stores, n)
]

unfoldable pub expire_storage : ℕ → Storage → Storage
unfolding expire_stores
expire_storage now s =
    let (stores, n) = expire_stores now s.stores s.numstorage in
    record { stores = stores; numstorage = n }
