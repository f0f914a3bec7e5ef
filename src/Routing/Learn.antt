-- ===== src/Routing/Learn.antt =====
-- dtndht/dht.c: `new_node`, what the table learns from a node's identifier and address.
use dtndht.Base.{
  ℕ, zero, suc, Bytes, same, Bool, true, false, ◌||◌, List, [], ◌++◌, Option, none, some,
  if◌then◌else◌, leb, drop, get_elem?,
}
use dtndht.Net.{Family, SockAddr}
use dtndht.Routing.{
  Node, Bucket, Routing, Ping, table, set_table, is_martian, in_bucket, find_bucket, find_in,
}
use dtndht.Routing.Update.{
  Confirm, is_reply, modify_at, push, split_bucket, refresh_known, replace_bad, fresh_node, cache,
  ping_dubious, wants_split, grow,
}

-- A round of `new_node` ends with the table, the pings sent and whether it returns a node, or
-- calls `new_node` again after it split a bucket.
pub data Outcome : Type 0 where
  finished : Routing → List Ping → Bool → Outcome
  again : Routing → List Ping → Outcome

abbrev pub set_nodes : List Node → Bucket → Bucket
set_nodes nodes b = record b { nodes = nodes }

abbrev pub is_known : Option Node → Bool
is_known none = false
is_known (some _) = true

-- A write to the bucket at a position of a table.
abbrev pub write : Family → (Bucket → Bucket) → ℕ → Routing → Routing
write af f i r = set_table af (modify_at f i (table af r)) r

-- `b = split_bucket(b)`, and `new_node` once more.
abbrev pub split_outcome : List Ping → Routing → Option (Routing × List Ping) → Outcome
split_outcome pings r none = Outcome.again r pings
split_outcome pings r (some (r', cached)) = Outcome.again r' (pings ++ cached)

module _ (now : ℕ) (blocked : Bool) (id : Bytes) (sa : SockAddr) (salen : ℕ)
    (confirm : Confirm) where
  -- "Bucket full. Ping a dubious node", then split or cache.
  unfoldable pub crowded : ℕ → Bucket → Bool → Routing → Outcome
  crowded i b mybucket r =
      let (nodes, dubious, pings) = ping_dubious now b.nodes in
      let pinged = write sa.family (set_nodes nodes) i r in
      if wants_split mybucket dubious b pinged
      then split_outcome pings pinged (split_bucket sa.family i pinged)
      else Outcome.finished (write sa.family (cache now id sa salen confirm) i pinged) pings false

  unfoldable pub learn_new : ℕ → Bucket → Bool → Routing → Outcome
  learn_new i b mybucket r = elim (replace_bad now id sa salen confirm b.nodes) [
    | some nodes ↦ Outcome.finished (write sa.family (set_nodes nodes) i r) [] true
    | none ↦
        if leb 8 b.count
        then crowded i b mybucket r
        else Outcome.finished (write sa.family (push (fresh_node now id sa salen confirm)) i r) []
            true
  ]

  unfoldable pub learn_in : ℕ → Bucket → Bool → Routing → Outcome
  learn_in i b mybucket r =
      if is_known (find_in id b.nodes)
      then Outcome.finished
          (write sa.family (set_nodes (refresh_known now id sa salen confirm b.nodes)) i r) [] true
      else learn_new i b mybucket (if mybucket then grow now sa.family r else r)

  -- One round of `new_node`.
  unfoldable pub learn : Routing → Outcome
  learn r =
      let bs = table sa.family r in
      elim (find_bucket id bs) [
        | none ↦ Outcome.finished r [] false
        | some i ↦ elim (get_elem? bs i) [
          | none ↦ Outcome.finished r [] false
          | some b ↦
              if same id r.myid || is_martian sa || blocked
              then Outcome.finished r [] false
              else if is_reply confirm
              then learn_in i (record b { time = now }) (in_bucket r.myid (drop i bs))
                  (write sa.family (λ b. record b { time = now }) i r)
              else learn_in i b (in_bucket r.myid (drop i bs)) r
        ]
      ]

  -- `none` if the recursion does not end within the fuel.
  unfoldable pub new_node : ℕ → Routing → Option (Routing × List Ping × Bool)
  new_node zero r = none
  new_node (suc fuel) r = elim (learn r) [
    | Outcome.finished r' pings done ↦ some (r', pings, done)
    | Outcome.again r' pings ↦ elim (new_node fuel r') [
      | none ↦ none
      | some (r'', later, done) ↦ some (r'', pings ++ later, done)
    ]
  ]
