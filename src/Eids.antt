-- ===== src/Eids.antt =====
-- dtndht/dht.c: the endpoint identifiers (EIDs) that the node announces: its own, those of its
-- neighbours and those of its groups. An EID is the list of its `eidlen` bytes.
pub mod Known
use dtndht.Base.{
  ℕ, ◌+◌, Bytes, same, Bool, true, false, ◌&&◌, ◌||◌, List, [], ◌∷◌, ◌++◌, length, take, Option,
  none, some, if◌then◌else◌, ltb, ◌==◌,
}

-- `enum dtn_dht_lookup_type`
pub data LookupType : Type 0 where
  singleton neighbour group : LookupType

pub record Eids : Type 0 where
  pub dtn_my_eid : Bytes
  pub dtn_my_eid_changed : Bool
  pub myneighbours : List Bytes
  pub mygroups : List Bytes

-- An EID that is too long is cut.
unfoldable pub dht_set_dtn_eid : Bytes → Eids → Eids
dht_set_dtn_eid eid s = record s { dtn_my_eid = take 256 eid; dtn_my_eid_changed = true }

abbrev pub is_eid : Bytes → Bytes → Bool
is_eid eid e = length e == length eid && same eid e

-- The search loop of `dht_add_dtn_eid`.
unfoldable pub listed : Bytes → List Bytes → Bool
listed eid [] = false
listed eid (e ∷ next) = is_eid eid e || listed eid next

-- The state, and the number that is returned.
unfoldable pub dht_add_dtn_eid : Bytes → LookupType → Eids → Eids × ℕ
unfolding dht_set_dtn_eid listed
dht_add_dtn_eid eid LookupType.singleton s = (dht_set_dtn_eid eid s, 0)
dht_add_dtn_eid eid LookupType.group s =
    if listed eid s.mygroups then (s, 0) else (record s { mygroups = eid ∷ s.mygroups }, 1)
dht_add_dtn_eid eid LookupType.neighbour s =
    if listed eid s.myneighbours
    then (s, 0)
    else (record s { myneighbours = eid ∷ s.myneighbours }, 1)

-- The loop of `remove_dtn_neighbour` and `remove_dtn_group`. `before` are the elements up to `prev`.
unfoldable pub remove_from : Bytes → List Bytes → List Bytes → List Bytes × ℕ
remove_from eid before [] = (before, 0)
remove_from eid before (e ∷ next) =
    let rest = remove_from eid (before ++ e ∷ []) next in
    if is_eid eid e then (before ++ next, 1) else rest

unfoldable pub remove_dtn_neighbour : Bytes → Eids → Eids × ℕ
unfolding remove_from
remove_dtn_neighbour eid s =
    let (l, rc) = remove_from eid [] s.myneighbours in (record s { myneighbours = l }, rc)

unfoldable pub remove_dtn_group : Bytes → Eids → Eids × ℕ
unfolding remove_from
remove_dtn_group eid s =
    let (l, rc) = remove_from eid [] s.mygroups in (record s { mygroups = l }, rc)

unfoldable pub dht_remove_dtn_eid : Bytes → Eids → Eids × ℕ
unfolding remove_dtn_neighbour remove_dtn_group
dht_remove_dtn_eid eid s =
    let (s', rc) = remove_dtn_neighbour eid s in
    let (s'', rc') = remove_dtn_group eid s' in (s'', rc + rc')
