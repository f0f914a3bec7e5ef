-- ===== src/Tests/Candidates.antt =====
-- Concrete states of the searches, and the theorems applied to them.
use dtndht.Base.{ℕ, true, false, map, take, [], ◌∷◌, ◌++◌, none, ◌≡◌, refl, arith}
use dtndht.Net.{Family}
use dtndht.Search.{
  SearchNode, Search, blank_node, fill_node, insert_search_node, reset_node, reuse_nodes,
}
use dtndht.Search.Place.{place, insert_search_node-place}
use dtndht.Search.Sorted.{IsSearch, insert_search_node-IsSearch}
use dtndht.Search.Reuse.{reuse_nodes_skips}
use dtndht.Tests.{program, id_of, id_of-IsId, v4}

abbrev found : ℕ → SearchNode
found n = record (blank_node (id_of n)) { reply_time = 9000 }

abbrev search : Search
search = record {
  tid = 1;
  af = Family.inet;
  step_time = 0;
  id = id_of 4;
  port = 0;
  done = false;
  nodes = found 4 ∷ found 1 ∷ found 2 ∷ [];
}

search-IsSearch : IsSearch search
unfolding program
search-IsSearch = record {
  target = id_of-IsId 4 (omega arith);
  capacity = omega arith;
  ids =
      (id_of-IsId 4 (omega arith), (id_of-IsId 1 (omega arith), (id_of-IsId 2 (omega arith), tt)));
  sorted = ((refl, (refl, tt)), ((refl, tt), (tt, tt)));
}

insert_search_node-IsSearch_example :
    IsSearch (insert_search_node 9000 (id_of 6) (v4 6) 16 true none search).0
insert_search_node-IsSearch_example =
    insert_search_node-IsSearch 9000 (id_of 6) (v4 6) 16 true none search
      (id_of-IsId 6 (omega arith)) search-IsSearch

insert_search_node-place_example :
    (insert_search_node 9000 (id_of 6) (v4 6) 16 true none search).0.nodes
    ≡ take 14 (place (fill_node 9000 (v4 6) 16 true none) (id_of 4) (id_of 6) search.nodes)
insert_search_node-place_example =
    insert_search_node-place 9000 (id_of 6) (v4 6) 16 true none search refl (omega arith)

abbrev silent : SearchNode
silent = record (found 1) { pinged = 3 }

reuse_nodes_skips_example :
    reuse_nodes 9000 (found 4 ∷ silent ∷ silent ∷ found 2 ∷ [])
    ≡ map reset_node (found 4 ∷ []) ++ silent ∷ reuse_nodes 9000 (found 2 ∷ [])
reuse_nodes_skips_example =
    reuse_nodes_skips 9000 (found 4 ∷ []) silent silent (found 2 ∷ []) (refl, tt) refl
