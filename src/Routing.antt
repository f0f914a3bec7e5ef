-- ===== src/Routing.antt =====
-- dtndht/dht.c: the routing table. A table is the sorted list of its buckets; a pointer to a
-- bucket is the list from that bucket on where it is read, and its position where it is written.
-- Times are seconds, and a time before 0 is later than none: `now - 900` stops at 0, which
-- changes no comparison with a time.
pub mod Find
pub mod Update
pub mod Learn
pub mod Invariant
pub mod Writes
pub mod Split
pub mod Deal
pub mod Halves
pub mod Lookup
pub mod Keeps
pub mod Depth
use Prim.Native.Nat.{bit_and}
use dtndht.Base.{
  ℕ, zero, suc, ◌+◌, ◌-◌, Bytes, memcmp, Ordering, is_lt, same, Bool, true, false, not, ◌&&◌, ◌||◌,
  List, [], ◌∷◌, ◌++◌, Option, none, some, if◌then◌else◌, ltb, leb, ◌==◌, take, drop, set,
  get_elem?, get_or, replicate,
}
use dtndht.Net.{Family, SockAddr, same_family}
use dtndht.Ids.{id_cmp, bucket_middle}

pub record Node : Type 0 where
  pub id : Bytes
  pub ss : SockAddr
  pub sslen : ℕ
  pub time : ℕ
  pub reply_time : ℕ
  pub pinged_time : ℕ
  pub pinged : ℕ

-- A cached address of no family marks an empty cache.
pub record Bucket : Type 0 where
  pub af : Family
  pub first : Bytes
  pub count : ℕ
  pub time : ℕ
  pub nodes : List Node
  pub cached : SockAddr
  pub cachedlen : ℕ

pub record Routing : Type 0 where
  pub myid : Bytes
  pub buckets : List Bucket
  pub buckets6 : List Bucket
  pub mybucket_grow_time : ℕ
  pub mybucket6_grow_time : ℕ

-- A ping that is handed to `send_ping`, with the length of its address.
pub record Ping : Type 0 where
  pub to : SockAddr
  pub tolen : ℕ

-- `af == AF_INET ? buckets : buckets6`
abbrev pub table : Family → Routing → List Bucket
table Family.inet r = r.buckets
table _ r = r.buckets6

abbrev pub set_table : Family → List Bucket → Routing → Routing
set_table Family.inet bs r = record r { buckets = bs }
set_table _ bs r = record r { buckets6 = bs }

abbrev pub zeroes : Bytes
zeroes = replicate 20 0

abbrev v4prefix : Bytes
v4prefix = replicate 10 0 ++ 0xFF ∷ 0xFF ∷ []

unfoldable pub is_martian : SockAddr → Bool
is_martian sa =
    let a = get_or sa.addr in
    elim sa.family [
      | Family.inet ↦ sa.port == 0 || a 0 0 == 0 || a 0 0 == 127 || bit_and (a 0 0) 0xE0 == 0xE0
      | Family.inet6 ↦
          sa.port == 0
          || a 0 0 == 0xFF
          || (a 0 0 == 0xFE && bit_and (a 1 0) 0xC0 == 0x80)
          || (same (take 15 sa.addr) (take 15 zeroes) && (a 15 0 == 0 || a 15 0 == 1))
          || same (take 12 sa.addr) v4prefix
      | Family.unspec ↦ false
    ]

abbrev pub not_after : Bytes → Bytes → Bool
not_after a b = elim (id_cmp a b) [ Ordering.gt ↦ false | _ ↦ true ]

-- A bucket ranges from its `first` up to that of the next bucket, which is not in it.
unfoldable pub in_bucket : Bytes → List Bucket → Bool
in_bucket id [] = false
in_bucket id (b ∷ []) = not_after b.first id
in_bucket id (b ∷ c ∷ next) = not_after b.first id && is_lt (id_cmp id c.first)

-- The loop of `find_bucket`: the position of the bucket.
unfoldable pub find_from : Bytes → List Bucket → ℕ
find_from id [] = 0
find_from id (b ∷ []) = 0
find_from id (b ∷ c ∷ next) = if is_lt (id_cmp id c.first) then 0 else suc (find_from id (c ∷ next))

unfoldable pub find_bucket : Bytes → List Bucket → Option ℕ
unfolding find_from
find_bucket id [] = none
find_bucket id (b ∷ next) = some (find_from id (b ∷ next))

-- The position before that of a bucket.
unfoldable pub previous_bucket : ℕ → Option ℕ
previous_bucket zero = none
previous_bucket (suc i) = some i

unfoldable pub find_in : Bytes → List Node → Option Node
find_in id [] = none
find_in id (n ∷ next) = if same n.id id then some n else find_in id next

abbrev pub nodes_at : Option ℕ → List Bucket → List Node
nodes_at none bs = []
nodes_at (some i) bs = elim (get_elem? bs i) [ none ↦ [] | some b ↦ b.nodes ]

unfoldable pub find_node : Bytes → Family → Routing → Option Node
unfolding find_bucket find_in
find_node id af r = find_in id (nodes_at (find_bucket id (table af r)) (table af r))

-- Our definition of a known-good node.
unfoldable pub node_good : ℕ → Node → Bool
node_good now n = leb n.pinged 2 && leb (now - 7200) n.reply_time && leb (now - 900) n.time
