-- ===== src/Search.antt =====
-- dtndht/dht.c: the searches. The nodes of a search are the used elements of its array, so that
-- `numnodes` is their number; a token is its first `token_len` bytes.
pub mod Place
pub mod Sorted
pub mod Reuse
pub mod Step
pub mod Done
pub mod Start
pub mod Keep
pub mod Pick
pub mod Begin
use dtndht.Base.{
  ℕ, zero, suc, ◌+◌, ◌-◌, ◌*◌, Bytes, same, Ordering, is_lt, Bool, true, false, not, ◌&&◌, ◌||◌,
  List, [], ◌∷◌, ◌++◌, length, take, drop, get_elem?, Option, none, some, if◌then◌else◌, ltb, leb,
  ◌==◌,
}
use dtndht.Net.{Family, SockAddr, same_family}
use dtndht.Ids.{xorcmp}
use dtndht.Routing.{Node, Bucket}

pub record SearchNode : Type 0 where
  pub id : Bytes
  pub ss : SockAddr
  pub sslen : ℕ
  pub request_time : ℕ
  pub reply_time : ℕ
  pub pinged : ℕ
  pub token : Bytes
  pub replied : Bool
  pub acked : Bool

pub record Search : Type 0 where
  pub tid : ℕ
  pub af : Family
  pub step_time : ℕ
  pub id : Bytes
  pub port : ℕ
  pub done : Bool
  pub nodes : List SearchNode

abbrev pub search_nodes : ℕ
search_nodes = 14

unfoldable pub find_search : ℕ → Family → List Search → Option Search
find_search tid af [] = none
find_search tid af (sr ∷ next) =
    if sr.tid == tid && same_family sr.af af then some sr else find_search tid af next

-- Where the first loop of `insert_search_node` ends: at the node, or at a place for it.
pub data Spot : Type 0 where
  known vacant : ℕ → Spot

abbrev pub next_spot : Spot → Spot
next_spot (Spot.known i) = Spot.known (suc i)
next_spot (Spot.vacant i) = Spot.vacant (suc i)

unfoldable pub find_spot : Bytes → Bytes → List SearchNode → Spot
find_spot target id [] = Spot.vacant 0
find_spot target id (n ∷ nodes) =
    if same id n.id
    then Spot.known 0
    else if is_lt (xorcmp id n.id target)
    then Spot.vacant 0
    else next_spot (find_spot target id nodes)

abbrev pub blank_node : Bytes → SearchNode
blank_node id = record {
  id = id;
  ss = record { family = Family.unspec; addr = []; port = 0 };
  sslen = 0;
  request_time = 0;
  reply_time = 0;
  pinged = 0;
  token = [];
  replied = false;
  acked = false;
}

-- What follows `found:`. A token of 40 bytes or more is not taken.
unfoldable pub fill_node : ℕ → SockAddr → ℕ → Bool → Option Bytes → SearchNode → SearchNode
fill_node now sa salen replied token n = record n {
  ss = sa;
  sslen = salen;
  replied = replied || n.replied;
  reply_time = if replied then now else n.reply_time;
  request_time = if replied then 0 else n.request_time;
  pinged = if replied then 0 else n.pinged;
  token = elim token [ none ↦ n.token | some t ↦ if leb 40 (length t) then n.token else t ];
}

abbrev pub modify_node : (SearchNode → SearchNode) → ℕ → List SearchNode → List SearchNode
modify_node f i [] = []
modify_node f zero (n ∷ nodes) = f n ∷ nodes
modify_node f (suc i) (n ∷ nodes) = n ∷ modify_node f i nodes

-- The second loop, which moves the nodes from a place on by one and loses the last one of a full array.
unfoldable pub make_room : ℕ → SearchNode → List SearchNode → List SearchNode
make_room i n nodes =
    let numnodes = if ltb (length nodes) search_nodes then length nodes + 1 else length nodes in
    take numnodes (take i nodes ++ n ∷ drop i nodes)

unfoldable pub insert_search_node :
    ℕ → Bytes → SockAddr → ℕ → Bool → Option Bytes → Search → Search × Bool
unfolding find_spot fill_node make_room
insert_search_node now id sa salen replied token sr =
    let fill = fill_node now sa salen replied token in
    if same_family sa.family sr.af
    then elim (find_spot sr.id id sr.nodes) [
      | Spot.known i ↦ (record sr { nodes = modify_node fill i sr.nodes }, true)
      | Spot.vacant i ↦
          if i == search_nodes
          then (sr, false)
          else (record sr { nodes = make_room i (fill (blank_node id)) sr.nodes }, true)
    ]
    else (sr, false)

unfoldable pub insert_search_nodes : ℕ → List Node → Search → Search
unfolding insert_search_node
insert_search_nodes now [] sr = sr
insert_search_nodes now (n ∷ nodes) sr =
    insert_search_nodes now nodes (insert_search_node now n.id n.ss n.sslen false none sr).0

unfoldable pub insert_search_bucket : ℕ → Bucket → Search → Search
unfolding insert_search_nodes
insert_search_bucket now b sr = insert_search_nodes now b.nodes sr

unfoldable pub flush_search_node : ℕ → List SearchNode → List SearchNode
flush_search_node i nodes = take i nodes ++ drop (suc i) nodes

-- The doubtful nodes of an old search.
abbrev pub is_doubtful : ℕ → SearchNode → Bool
is_doubtful now n = leb 3 n.pinged || ltb n.reply_time (now - 7200)

abbrev pub reset_node : SearchNode → SearchNode
reset_node n = record n { pinged = 0; token = []; replied = false; acked = false }

-- The loop of `dht_search` over the nodes of an old search, from `i` on.
unfoldable pub reuse_from : ℕ → ℕ → ℕ → List SearchNode → List SearchNode
unfolding flush_search_node
reuse_from zero now i nodes = nodes
reuse_from (suc rounds) now i nodes = elim (get_elem? nodes i) [
  | none ↦ nodes
  | some n ↦ elim (is_doubtful now n) [
    | true ↦ reuse_from rounds now (suc i) (flush_search_node i nodes)
    | false ↦ reuse_from rounds now (suc i) (modify_node reset_node i nodes)
  ]
]

-- `numnodes` rounds are enough: `i` grows in each, and the nodes get no more.
unfoldable pub reuse_nodes : ℕ → List SearchNode → List SearchNode
unfolding reuse_from
reuse_nodes now nodes = reuse_from (length nodes) now 0 nodes

-- The searches that were stepped in the last 62 minutes, and their number.
unfoldable pub expire_searches : ℕ → List Search → ℕ → List Search × ℕ
expire_searches now [] numsearches = ([], numsearches)
expire_searches now (sr ∷ next) numsearches = elim (ltb sr.step_time (now - 62 * 60)) [
  | true ↦ expire_searches now next (numsearches - 1)
  | false ↦ let (l, n) = expire_searches now next numsearches in (sr ∷ l, n)
]
