-- ===== src/Tests/Searches.antt =====
-- A search whose node never answers, a search that is begun, and the theorems applied to them.
use dtndht.Base.{
  Bool, refl, List, Option, some, All, true, false, [], ◌∷◌, replicate, none, ◌≡◌, arith, pos,
  negsuc,
}
use dtndht.Net.{Family}
use dtndht.Routing.{Routing}
use dtndht.Search.{Search, SearchNode, blank_node}
use dtndht.Search.Done.{is_done_by, search_step-ends}
use dtndht.Wire.Send.{Local}
use dtndht.Search.Sorted.{IsSearch}
use dtndht.Search.Step.{Outgoing}
use dtndht.Search.Start.{
  Searching, dht_search, search_slot, search_for, new_search, oldest_from, new_slot,
}
use dtndht.Search.Begin.{dht_search-IsSearch}
use dtndht.Routing.{find_bucket}
use dtndht.Tests.{program, id_of, id_of-IsId, v4}
use dtndht.Tests.Buckets.{one, one-IsRouting}

abbrev silent : SearchNode
silent = record (blank_node (replicate 20 9)) { ss = v4 9; sslen = 16 }

abbrev hopeless : Search
hopeless = record {
  tid = 1;
  af = Family.inet;
  step_time = 0;
  id = replicate 20 7;
  port = 0;
  done = false;
  nodes = silent ∷ [];
}

abbrev no_table : Routing
no_table = record {
  myid = replicate 20 5;
  buckets = [];
  buckets6 = [];
  mybucket_grow_time = 0;
  mybucket6_grow_time = 0;
}

abbrev node : Local
node = record { myid = replicate 20 5; my_v = none; dht_socket = pos 3; dht_socket6 = negsuc 0 }

search_step-ends_example :
    is_done_by node (λ _. false) (20 ∷ 40 ∷ 60 ∷ 80 ∷ []) hopeless no_table ≡ true
search_step-ends_example =
    search_step-ends node (λ _. false) (20 ∷ 40 ∷ 60 ∷ 80 ∷ []) 0 hopeless no_table
      (omega arith, (omega arith, (omega arith, (omega arith, tt)))) (omega arith, tt) (omega arith)
      (omega arith)

abbrev idle : Searching
idle = record { searches = []; numsearches = 0; search_id = 65535; search_time = 0 }

abbrev or_idle :
    Option (Searching × Routing × List Outgoing × Bool) → Searching × Routing × List Outgoing × Bool
or_idle none = (idle, one, [], false)
or_idle (some result) = result

abbrev begun : Option (Searching × Routing × List Outgoing × Bool)
begun = dht_search node (λ _. false) 9000 (id_of 6) 0 Family.inet idle one

begun-some : begun ≡ some (or_idle begun)
unfolding dht_search search_slot search_for new_search oldest_from new_slot program find_bucket
begun-some = refl

dht_search-IsSearch_example : All IsSearch (or_idle begun).0.searches
dht_search-IsSearch_example =
    dht_search-IsSearch node (λ _. false) 9000 (id_of 6) 0 Family.inet idle one (or_idle begun)
      (id_of-IsId 6 (omega arith)) one-IsRouting tt begun-some
