-- ===== src/Routing/Update.antt =====
-- dtndht/dht.c: the operations that change the routing table. Pings that are sent on the way are
-- results, in order. Whether an address is blacklisted is an argument: it does not change meanwhile.
use dtndht.Base.{
  ℕ, zero, suc, ◌+◌, ◌-◌, ◌*◌, Bytes, same, Bool, true, false, not, ◌&&◌, ◌||◌, List, [], ◌∷◌, ◌++◌,
  Option, none, some, if◌then◌else◌, ltb, leb, take, drop,
}
use dtndht.Net.{Family, SockAddr, same_family}
use dtndht.Ids.{bucket_middle}
use dtndht.Routing.{Node, Bucket, Routing, Ping, table, set_table, find_bucket, node_good}

-- A write through a pointer to a bucket.
abbrev pub modify_at : (Bucket → Bucket) → ℕ → List Bucket → List Bucket
modify_at f i [] = []
modify_at f zero (b ∷ next) = f b ∷ next
modify_at f (suc i) (b ∷ next) = b ∷ modify_at f i next

abbrev pub push : Node → Bucket → Bucket
push n b = record b { nodes = n ∷ b.nodes; count = b.count + 1 }

unfoldable pub insert_node : Node → Routing → Routing
unfolding find_bucket
insert_node n r =
    let bs = table n.ss.family r in
    elim (find_bucket n.id bs) [
      | none ↦ r
      | some i ↦ set_table n.ss.family (modify_at (push n) i bs) r
    ]

-- `b->cached.ss_family` is 0 when no node is cached.
unfoldable pub send_cached_ping : Bucket → Bucket × List Ping
send_cached_ping b = if same_family b.cached.family Family.unspec then (b, []) else (
  record b { cached = record b.cached { family = Family.unspec }; cachedlen = 0 },
  record { to = b.cached; tolen = b.cachedlen } ∷ [],
)

-- The loop that inserts the nodes of the split bucket again, from its head on.
unfoldable pub insert_all : List Node → Routing → Routing
insert_all [] r = r
insert_all (n ∷ nodes) r = insert_all nodes (insert_node n r)

abbrev pub first_of : List Bucket → Option Bytes
first_of [] = none
first_of (b ∷ next) = some b.first

-- The two buckets that replace a bucket, still without its nodes.
unfoldable pub halves : Bucket → Bytes → Bucket × Bucket
unfolding send_cached_ping
halves b middle = (
  record (send_cached_ping b).0 { nodes = []; count = 0 },
  record {
    af = b.af;
    first = middle;
    count = 0;
    time = b.time;
    nodes = [];
    cached = record { family = Family.unspec; addr = []; port = 0 };
    cachedlen = 0;
  },
)

-- Splits the bucket that the list `rest`, behind the buckets `before`, begins with.
unfoldable pub split_at :
    Family → List Bucket → List Bucket → Routing → Option (Routing × List Ping)
split_at af before [] r = none
split_at af before (b ∷ next) r = elim (bucket_middle b.first (first_of next)) [
  | none ↦ none
  | some middle ↦
      let (low, high) = halves b middle in
      some (
        insert_all b.nodes (set_table af (before ++ (low ∷ high ∷ next)) r),
        (send_cached_ping b).1,
      )
]

unfoldable pub split_bucket : Family → ℕ → Routing → Option (Routing × List Ping)
unfolding split_at
split_bucket af i r = split_at af (take i (table af r)) (drop i (table af r)) r

-- What a message tells of its sender: nothing, that it lives, or that it replied to us.
pub data Confirm : Type 0 where
  hearsay request reply : Confirm

abbrev pub is_confirmed : Confirm → Bool
is_confirmed Confirm.hearsay = false
is_confirmed _ = true

abbrev pub is_reply : Confirm → Bool
is_reply Confirm.reply = true
is_reply _ = false

module _ (now : ℕ) (id : Bytes) (sa : SockAddr) (salen : ℕ) (confirm : Confirm) where
  -- "Known node. Update stuff."
  unfoldable pub refresh : Node → Node
  refresh n =
      if is_confirmed confirm || ltb n.time (now - 15 * 60)
      then record n {
        ss = sa;
        time = if is_confirmed confirm then now else n.time;
        reply_time = if is_reply confirm then now else n.reply_time;
        pinged = if is_reply confirm then 0 else n.pinged;
        pinged_time = if is_reply confirm then 0 else n.pinged_time;
      }
      else n

  -- The first loop: the known node, refreshed.
  unfoldable pub refresh_known : List Node → List Node
  unfolding refresh
  refresh_known [] = []
  refresh_known (n ∷ next) = if same n.id id then refresh n ∷ next else n ∷ refresh_known next

  unfoldable pub is_bad : Node → Bool
  is_bad n = leb 3 n.pinged && ltb n.pinged_time (now - 15)

  -- A known-bad node becomes the new one, and keeps its `sslen`.
  unfoldable pub renew : Node → Node
  renew n = record n {
    id = id;
    ss = sa;
    time = if is_confirmed confirm then now else 0;
    reply_time = if is_reply confirm then now else 0;
    pinged_time = 0;
    pinged = 0;
  }

  -- The second loop: the first known-bad node is replaced.
  unfoldable pub replace_bad : List Node → Option (List Node)
  unfolding is_bad renew
  replace_bad [] = none
  replace_bad (n ∷ next) =
      let rest = replace_bad next in
      if is_bad n then some (renew n ∷ next) else elim rest [ none ↦ none | some l ↦ some (n ∷ l) ]

  unfoldable pub fresh_node : Node
  fresh_node = record {
    id = id;
    ss = sa;
    sslen = salen;
    time = if is_confirmed confirm then now else 0;
    reply_time = if is_reply confirm then now else 0;
    pinged_time = 0;
    pinged = 0;
  }

  -- "No space for this node. Cache it away for later."
  unfoldable pub cache : Bucket → Bucket
  cache b =
      if is_confirmed confirm || same_family b.cached.family Family.unspec
      then record b { cached = sa; cachedlen = salen }
      else b

-- The third loop: whether a node is dubious, up to the first one that was not pinged in the last
-- 15 seconds, which is pinged.
unfoldable pub ping_dubious : ℕ → List Node → List Node × Bool × List Ping
ping_dubious now [] = ([], false, [])
ping_dubious now (n ∷ next) =
    let (next', dubious, pings) = ping_dubious now next in
    if node_good now n
    then (n ∷ next', dubious, pings)
    else if ltb n.pinged_time (now - 15)
    then (
      record n { pinged = n.pinged + 1; pinged_time = now } ∷ next,
      true,
      record { to = n.ss; tolen = n.sslen } ∷ [],
    )
    else (n ∷ next', true, pings)

-- Splits if the bucket is ours and no node is dubious, or if it is the only bucket.
unfoldable pub wants_split : Bool → Bool → Bucket → Routing → Bool
wants_split mybucket dubious b r =
    mybucket
    && (not dubious || elim b.af [
      | Family.inet ↦ elim r.buckets [ _ ∷ [] ↦ true | _ ↦ false ]
      | Family.inet6 ↦ elim r.buckets6 [ _ ∷ [] ↦ true | _ ↦ false ]
      | Family.unspec ↦ false
    ])

abbrev pub grow : ℕ → Family → Routing → Routing
grow now Family.inet r = record r { mybucket_grow_time = now }
grow now _ r = record r { mybucket6_grow_time = now }
