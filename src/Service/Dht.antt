-- ===== src/Service/Dht.antt =====
-- dtndht/dht.c: the calls of dht.h that the library makes, as far as they are modelled. What is left of
-- them, `dht_init`, `dht_periodic` and `dht_uninit`, are parameters.
use dtndht.Base.{
  ℕ, ◌+◌, Bytes, Bool, List, [], ◌∷◌, ◌++◌, All, none, some, if◌then◌else◌, ℤ, pos, negsuc, codes,
  Option-cases, inl, inr,
}
use dtndht.Ids.{IsId}
use dtndht.Net.{Family, SockAddr}
use dtndht.Routing.{Node, Bucket, Routing, table, node_good}
use dtndht.Routing.Invariant.{IsRouting}
use dtndht.Search.Sorted.{IsSearch}
use dtndht.Search.Step.{Outgoing, make_tid}
use dtndht.Search.Start.{Searching, dht_search}
use dtndht.Search.Begin.{dht_search-IsSearch}
use dtndht.Service.{Engine, Event}
use dtndht.Wire.Send.{Local, send_get_dtninfo}

-- The static variables of dht.c that the calls change, and all that has been sent.
pub record Core : Type 0 where
  pub searching : Searching
  pub routing : Routing
  pub outgoing : List Outgoing

-- `good` of `dht_nodes`
unfoldable pub good_in : ℕ → List Node → ℕ
good_in now [] = 0
good_in now (n ∷ nodes) = (if node_good now n then 1 else 0) + good_in now nodes

unfoldable pub good_nodes : ℕ → List Bucket → ℕ
unfolding good_in
good_nodes now [] = 0
good_nodes now (b ∷ buckets) = good_in now b.nodes + good_nodes now buckets

module _ (me : Local) (blocked : SockAddr → Bool) (now : ℕ) (dtn_my_eid : Bytes) where
  -- The events are those of IPv4 and IPv6 alike: the call-back treats them in the same way.
  unfoldable pub search_call : Bytes → ℕ → Family → Core → ℤ × List Event × Core
  search_call id port af e = elim (dht_search me blocked now id port af e.searching e.routing) [
    | none ↦ (negsuc 0, [], e)
    | some (s, r, out, finished) ↦ (
      pos 1,
      if finished then Event.search_done id ∷ [] else [],
      record { searching = s; routing = r; outgoing = e.outgoing ++ out },
    )
  ]

  unfoldable pub ping_call : SockAddr → ℕ → Core → Core
  ping_call sa salen e = record e {
    outgoing =
        e.outgoing
        ++ Outgoing.request
            (send_get_dtninfo me blocked sa salen (make_tid (codes "pn") 0) dtn_my_eid)
          ∷ [];
  }

  unfoldable pub core_engine :
      (ℤ → ℤ → Bytes → Core → ℤ × Core)
      → (Core → ℤ × List Event × Core)
      → (Core → ℤ × Core)
      → Engine Core
  core_engine dht_init dht_periodic dht_uninit = record {
    dht_init = dht_init;
    dht_search = search_call;
    dht_nodes = λ af e. good_nodes now (table af e.routing);
    dht_ping_dtn_node = ping_call;
    dht_periodic = dht_periodic;
    dht_uninit = dht_uninit;
  }

  -- A search that the library starts keeps the searches sorted, also if it is refused.
  search_call-IsSearch :
      (id : Bytes) (port : ℕ) (af : Family) (e : Core)
      → IsId id
      → IsRouting e.routing
      → All IsSearch e.searching.searches
      → All IsSearch (search_call id port af e).2.searching.searches
  unfolding search_call
  search_call-IsSearch id port af e h w a =
      elim (Option-cases (dht_search me blocked now id port af e.searching e.routing)) [
        | inl k ↦ rw (k, search_call) a
        | inr (result, k) ↦
            rw (k, search_call)
              (dht_search-IsSearch me blocked now id port af e.searching e.routing result h w a k)
      ]
