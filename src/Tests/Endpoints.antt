-- ===== src/Tests/Endpoints.antt =====
-- Concrete states of the endpoint identifiers, and the theorems applied to them.
use dtndht.Base.{if◌then◌else◌, ◌+◌, same, false, ◌&&◌, ◌||◌, not, [], ◌∷◌, ◌≡◌, refl}
use dtndht.Eids.{LookupType, Eids, listed, dht_add_dtn_eid, dht_remove_dtn_eid}
use dtndht.Eids.Known.{Unique, dht_remove_dtn_eid-listed, dht_add_dtn_eid-listed}
use dtndht.Tests.{program}

abbrev eids : Eids
eids = record {
  dtn_my_eid = [];
  dtn_my_eid_changed = false;
  myneighbours = (1 ∷ 2 ∷ []) ∷ (3 ∷ []) ∷ [];
  mygroups = (3 ∷ []) ∷ [];
}

neighbours-Unique : Unique eids.myneighbours
unfolding program same listed
neighbours-Unique = (refl, (refl, tt))

groups-Unique : Unique eids.mygroups
unfolding listed
groups-Unique = (refl, tt)

dht_remove_dtn_eid-listed_example :
    (listed (1 ∷ 2 ∷ []) (dht_remove_dtn_eid (3 ∷ []) eids).0.myneighbours
      ≡ (not (same (1 ∷ 2 ∷ []) (3 ∷ [])) && listed (1 ∷ 2 ∷ []) eids.myneighbours))
    × (listed (1 ∷ 2 ∷ []) (dht_remove_dtn_eid (3 ∷ []) eids).0.mygroups
        ≡ (not (same (1 ∷ 2 ∷ []) (3 ∷ [])) && listed (1 ∷ 2 ∷ []) eids.mygroups))
    × ((dht_remove_dtn_eid (3 ∷ []) eids).1
        ≡ (if listed (3 ∷ []) eids.myneighbours then 1 else 0)
          + (if listed (3 ∷ []) eids.mygroups then 1 else 0))
dht_remove_dtn_eid-listed_example =
    dht_remove_dtn_eid-listed (3 ∷ []) (1 ∷ 2 ∷ []) eids neighbours-Unique groups-Unique

dht_add_dtn_eid-listed_example :
    (listed (3 ∷ []) (dht_add_dtn_eid (4 ∷ []) LookupType.group eids).0.mygroups
      ≡ (same (3 ∷ []) (4 ∷ []) || listed (3 ∷ []) eids.mygroups))
    × Unique (dht_add_dtn_eid (4 ∷ []) LookupType.group eids).0.mygroups
    × ((dht_add_dtn_eid (4 ∷ []) LookupType.group eids).0.myneighbours ≡ eids.myneighbours)
    × ((dht_add_dtn_eid (4 ∷ []) LookupType.group eids).1
        ≡ (if listed (4 ∷ []) eids.mygroups then 0 else 1))
dht_add_dtn_eid-listed_example = dht_add_dtn_eid-listed (4 ∷ []) (3 ∷ []) eids groups-Unique
