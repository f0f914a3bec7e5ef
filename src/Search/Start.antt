-- ===== src/Search/Start.antt =====
-- dtndht/dht.c: the slot for a new search, `new_search`, and the start of a search, `dht_search`.
use dtndht.Base.{
  ℕ, zero, suc, ◌+◌, ◌-◌, ◌*◌, ◌%◌, ◌^◌, Bytes, same, Bool, true, false, ◌&&◌, List, [], ◌∷◌,
  length, get_elem?, Option, none, some, if◌then◌else◌, ltb,
}
use dtndht.Net.{Family, SockAddr, same_family}
use dtndht.Routing.{Bucket, Routing, table, find_bucket, previous_bucket}
use dtndht.Search.{Search, search_nodes, insert_search_bucket, reuse_nodes}
use dtndht.Search.Step.{Outgoing, search_step}
use dtndht.Wire.Send.{Local}

-- `searches`, `numsearches` and `search_id`.
pub record Searching : Type 0 where
  pub searches : List Search
  pub numsearches : ℕ
  pub search_id : ℕ
  pub search_time : ℕ

-- The place and the time of the search that is done and was stepped longest ago, from place `i` on;
-- `best` is the one found before.
unfoldable pub oldest_from : ℕ → Option (ℕ × ℕ) → List Search → Option (ℕ × ℕ)
oldest_from i best [] = best
oldest_from i best (sr ∷ next) =
    oldest_from (suc i)
      (if sr.done && elim best [ none ↦ true | some (_, t) ↦ ltb sr.step_time t ]
        then some (i, sr.step_time)
        else best)
      next

abbrev pub blank_search : Search
blank_search = record {
  tid = 0;
  af = Family.unspec;
  step_time = 0;
  id = [];
  port = 0;
  done = false;
  nodes = [];
}

-- A new slot at the head, or an old one; its place, and the searches with it.
unfoldable pub new_slot : Option ℕ → Searching → Option (ℕ × Searching)
new_slot oldest s =
    if ltb s.numsearches 1024
    then some
        (0, record s { searches = blank_search ∷ s.searches; numsearches = s.numsearches + 1 })
    else elim oldest [ none ↦ none | some i ↦ some (i, s) ]

unfoldable pub new_search : ℕ → Searching → Option (ℕ × Searching)
unfolding oldest_from new_slot
new_search now s = elim (oldest_from 0 none s.searches) [
  | none ↦ new_slot none s
  | some (i, t) ↦ if ltb t (now - 62 * 60) then some (i, s) else new_slot (some i) s
]

-- `sr->af == af && id_cmp(sr->id, id) == 0`
unfoldable pub search_for : Bytes → Family → ℕ → List Search → Option ℕ
search_for id af i [] = none
search_for id af i (sr ∷ next) =
    let rest = search_for id af (suc i) next in
    if same_family sr.af af && same sr.id id then some i else rest

abbrev pub modify_search : (Search → Search) → ℕ → List Search → List Search
modify_search f i [] = []
modify_search f zero (sr ∷ next) = f sr ∷ next
modify_search f (suc i) (sr ∷ next) = sr ∷ modify_search f i next

abbrev pub reused : ℕ → Search → Search
reused now sr = record sr { done = false; nodes = reuse_nodes now sr.nodes }

abbrev pub started : Bytes → Family → ℕ → Search → Search
started id af tid sr = record sr {
  af = af;
  tid = tid;
  step_time = 0;
  id = id;
  done = false;
  nodes = [];
}

-- The slot of the search: its place, and the searches.
unfoldable pub search_slot : ℕ → Bytes → Family → Searching → Option (ℕ × Searching)
unfolding new_search search_for
search_slot now id af s = elim (search_for id af 0 s.searches) [
  | some i ↦ some (i, record s { searches = modify_search (reused now) i s.searches })
  | none ↦ elim (new_search now s) [
    | none ↦ none
    | some (i, s1) ↦ some (
      i,
      record s1 {
        searches = modify_search (started id af s1.search_id) i s1.searches;
        search_id = (s1.search_id + 1) % 2 ^ 16;
      },
    )
  ]
]

abbrev pub insert_at : ℕ → Option ℕ → List Bucket → Search → Search
insert_at now none bs sr = sr
insert_at now (some i) bs sr = elim (get_elem? bs i) [
  | none ↦ sr
  | some b ↦ insert_search_bucket now b sr
]

-- The nodes of the bucket of the target, of its neighbours, and of the own bucket, as long as there is room.
unfoldable pub seed_search : ℕ → Bytes → ℕ → List Bucket → Search → Search
seed_search now myid i bs sr =
    let sr1 = insert_at now (some i) bs sr in
    let sr2 = insert_at now (previous_bucket i) bs (insert_at now (some (suc i)) bs sr1) in
    let sr3 = if ltb (length sr1.nodes) search_nodes then sr2 else sr1 in
    if ltb (length sr3.nodes) search_nodes then insert_at now (find_bucket myid bs) bs sr3 else sr3

-- None is -1. What is sent, and whether the call-back is called with SEARCH_DONE, stand behind the state.
unfoldable pub dht_search :
    Local
    → (SockAddr → Bool)
    → ℕ
    → Bytes
    → ℕ
    → Family
    → Searching
    → Routing
    → Option (Searching × Routing × List Outgoing × Bool)
unfolding search_slot seed_search search_step
dht_search me blocked now id port af s r = elim (find_bucket id (table af r)) [
  | none ↦ none
  | some b ↦ elim (search_slot now id af s) [
    | none ↦ none
    | some (i, s1) ↦ elim (get_elem? s1.searches i) [
      | none ↦ none
      | some sr ↦
          let seeded = seed_search now r.myid b (table af r) (record sr { port = port }) in
          let (sr', r', out, finished) = search_step me blocked now seeded r in
          some (
            record s1 { searches = modify_search (λ _. sr') i s1.searches; search_time = now },
            r',
            out,
            finished,
          )
    ]
  ]
]
