-- ===== src/Search/Step.antt =====
-- dtndht/dht.c: the requests of a search, `search_send_get_peers` and `search_step`.
use dtndht.Base.{
  ℕ, zero, suc, ◌+◌, ◌-◌, ◌/◌, ◌%◌, Bytes, same, Bool, true, false, not, ◌||◌, List, [], ◌∷◌, ◌++◌,
  map, length, get_elem?, set, Option, none, some, if◌then◌else◌, leb, ◌==◌, codes,
}
use dtndht.Net.{Family, SockAddr}
use dtndht.Routing.{Node, Routing, Ping, table, set_table, find_bucket, find_node}
use dtndht.Routing.Update.{modify_at, send_cached_ping}
use dtndht.Search.{Search, SearchNode}
use dtndht.Wire.Send.{Local, Packet, send_get_peers, send_announce_peer}

-- What is sent: a request, none if it cannot be sent, or a ping to the cached node of a bucket.
pub data Outgoing : Type 0 where
  request : Option Packet → Outgoing
  cached_ping : Ping → Outgoing

-- The number in host order, with its low byte first.
abbrev pub make_tid : Bytes → ℕ → Bytes
make_tid prefix seqno = prefix ++ seqno % 256 ∷ seqno / 256 ∷ []

unfoldable pub ping_in : ℕ → Bytes → List Node → List Node
ping_in now id [] = []
ping_in now id (n ∷ next) =
    let rest = ping_in now id next in
    if same n.id id then record n { pinged = n.pinged + 1; pinged_time = now } ∷ next else n ∷ rest

-- The cached ping of the bucket at a place.
abbrev ping_cached : Family → ℕ → Routing → Routing × List Ping
ping_cached af i r = elim (get_elem? (table af r) i) [
  | none ↦ (r, [])
  | some b ↦
      let (b', pings) = send_cached_ping b in
      (set_table af (modify_at (λ _. b') i (table af r)) r, pings)
]

-- `node = find_node(..); if (node) pinged(node, NULL)`
unfoldable pub pinged_if_known : ℕ → Bytes → Family → Routing → Routing × List Ping
unfolding ping_in
pinged_if_known now id af r = elim (find_node id af r) [
  | none ↦ (r, [])
  | some n ↦ elim (find_bucket id (table af r)) [
    | none ↦ (r, [])
    | some i ↦
        let r1 =
          set_table af (modify_at (λ b. record b { nodes = ping_in now id b.nodes }) i (table af r))
            r in
        if leb 3 (n.pinged + 1) then ping_cached af i r1 else (r1, [])
  ]
]

-- The first `j` nodes that are live have all replied.
unfoldable pub all_replied : ℕ → List SearchNode → Bool
all_replied zero nodes = true
all_replied (suc j) [] = true
all_replied (suc j) (n ∷ nodes) = elim (leb 3 n.pinged) [
  | true ↦ all_replied (suc j) nodes
  | false ↦ elim n.replied [ false ↦ false | true ↦ all_replied j nodes ]
]

-- A node without a token counts as one that has acknowledged.
abbrev pub acknowledged : SearchNode → SearchNode
acknowledged n = record n { acked = length n.token == 0 || n.acked }

module _ (me : Local) (blocked : SockAddr → Bool) (now : ℕ) where
  -- A node that has been asked, and what the routing table makes of it.
  abbrev asked : SearchNode → SearchNode
  asked n = record n { pinged = n.pinged + 1; request_time = now }

  abbrev sent : Option Packet → SearchNode → Routing → Routing × List Outgoing
  sent p n r =
      let (r1, pings) = pinged_if_known now n.id n.ss.family r in
      (r1, Outgoing.request p ∷ map Outgoing.cached_ping pings)

  -- `!(pinged >= 3 || replied || request_time >= now - 15)`
  abbrev pub may_ask : SearchNode → Bool
  may_ask n = not (leb 3 n.pinged || n.replied || leb (now - 15) n.request_time)

  -- `search_send_get_peers` for a node: whether it is asked, the node and the routing table.
  unfoldable pub search_send_get_peers :
      Search → SearchNode → Routing → Bool × SearchNode × Routing × List Outgoing
  unfolding pinged_if_known
  search_send_get_peers sr n r =
      let p =
        send_get_peers me blocked n.ss n.sslen (make_tid (codes "gp") sr.tid) sr.id 0
          (leb (now - 15) n.reply_time) in
      let (r1, out) = sent p n r in
      if may_ask n then (true, asked n, r1, out) else (false, n, r, [])

  -- `search_send_get_peers` for NULL: the loop picks the last node that may be asked.
  unfoldable pub last_to_ask : List SearchNode → Option ℕ
  last_to_ask [] = none
  last_to_ask (n ∷ nodes) = elim (last_to_ask nodes) [
    | some i ↦ some (suc i)
    | none ↦ if may_ask n then some 0 else none
  ]

  unfoldable pub search_send_get_peers_any :
      Search → Routing → Bool × Search × Routing × List Outgoing
  unfolding last_to_ask search_send_get_peers
  search_send_get_peers_any sr r = elim (last_to_ask sr.nodes) [
    | none ↦ (false, sr, r, [])
    | some i ↦ elim (get_elem? sr.nodes i) [
      | none ↦ (false, sr, r, [])
      | some n ↦
          let (is_asked, n', r1, out) = search_send_get_peers sr n r in
          (is_asked, record sr { nodes = set sr.nodes i n' }, r1, out)
    ]
  ]

  -- The loop that asks up to `j` of the nodes.
  unfoldable pub ask_nodes :
      ℕ → Search → List SearchNode → Routing → List SearchNode × Routing × List Outgoing
  unfolding search_send_get_peers
  ask_nodes j sr [] r = ([], r, [])
  ask_nodes zero sr nodes r = (nodes, r, [])
  ask_nodes (suc j) sr (n ∷ nodes) r =
      let (is_asked, n', r1, out) = search_send_get_peers sr n r in
      let (nodes1, r2, more) = ask_nodes (if is_asked then j else suc j) sr nodes r1 in
      (n' ∷ nodes1, r2, out ++ more)

  -- The loop that announces to the first `j` live nodes, and tells whether all have acknowledged.
  unfoldable pub announce_nodes :
      ℕ → Search → List SearchNode → Routing → Bool × List SearchNode × Routing × List Outgoing
  unfolding pinged_if_known
  announce_nodes zero sr nodes r = (true, nodes, r, [])
  announce_nodes (suc j) sr [] r = (true, [], r, [])
  announce_nodes (suc j) sr (n ∷ nodes) r = elim (leb 3 n.pinged) [
    | true ↦
        let (acked, nodes', r1, out) = announce_nodes (suc j) sr nodes r in
        (acked, n ∷ nodes', r1, out)
    | false ↦
        let n1 = acknowledged n in
        elim n1.acked [
          | true ↦
              let (acked, nodes', r1, out) = announce_nodes j sr nodes r in
              (acked, n1 ∷ nodes', r1, out)
          | false ↦
              let p =
                send_announce_peer me blocked n1.ss 128 (make_tid (codes "ap") sr.tid) sr.id sr.port
                  n1.token (leb (now - 15) n1.reply_time) in
              let (r1, out) = sent p n1 r in
              let (_, nodes', r2, more) = announce_nodes j sr nodes r1 in
              (false, asked n1 ∷ nodes', r2, out ++ more)
        ]
  ]

  -- The search, the routing table, what is sent, and whether the call-back is called with SEARCH_DONE.
  unfoldable pub search_step : Search → Routing → Search × Routing × List Outgoing × Bool
  unfolding all_replied ask_nodes announce_nodes
  search_step sr r =
      let (acked, announced, r1, out1) = announce_nodes 8 sr sr.nodes r in
      let (nodes, r2, out2) = ask_nodes 3 sr sr.nodes r in
      if all_replied 8 sr.nodes
      then if sr.port == 0
        then (record sr { done = true; step_time = now }, r, [], true)
        else if acked
        then (record sr { nodes = announced; done = true; step_time = now }, r1, out1, true)
        else (record sr { nodes = announced; step_time = now }, r1, out1, false)
      else if leb now (sr.step_time + 15)
      then (sr, r, [], false)
      else (record sr { nodes = nodes; step_time = now }, r2, out2, false)
