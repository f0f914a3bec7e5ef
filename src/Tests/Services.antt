-- ===== src/Tests/Services.antt =====
-- A table that answers every call at once, and the theorems on the library's calls applied to it.
use dtndht.Base.{
  ℕ, ◌+◌, ◌≤◌, ◌<◌, Bytes, same, memcmp, true, false, List, [], ◌∷◌, ◌++◌, replicate, some, ◌≡◌,
  ◌≢◌, refl, arith, pos, negsuc, if◌then◌else◌, codes,
}
use dtndht.Net.{Family, SockAddr}
use dtndht.Table.{Status, Entry, get_from_list}
use dtndht.Blacklist.{init}
use dtndht.Eids.{LookupType}
use dtndht.Guard.{dht_hash}
use dtndht.Saved.{bootstrapping_save_conf, bootstrapping_load_conf}
use dtndht.Saved.Find.{IsSaved, ends_zero}
use dtndht.Saved.RoundTrip.{bootstrapping_load_conf-save_conf}
use dtndht.Service.{BindType, Context, Engine, Event, State, deliver}
use dtndht.Service.Calls.{
  key_of, dtn_dht_ready_for_work, dtn_dht_lookup, dtn_dht_announce, dtn_dht_deannounce,
  dtn_dht_periodic,
}
use dtndht.Service.Waits.{calls_of}
use dtndht.Service.Lookup.{dtn_dht_lookup-repeats}
use dtndht.Table.Keys.{is_announced}
use dtndht.Service.Announce.{dtn_dht_announce-deannounce}
use dtndht.Tests.{v4}
use dtndht.Tests.Limits.{constant_hash}
use dtndht.Tests.Ratings.{list_bloom}

abbrev prompt : Engine ℕ
prompt = record {
  dht_init = λ v4 v6 id e. (pos 1, e);
  dht_search = λ id port af e. (pos 1, [], e + 1);
  dht_nodes = λ af e. 30;
  dht_ping_dtn_node = λ sa len e. e;
  dht_periodic = λ e. (pos 1, [], e);
  dht_uninit = λ e. (pos 1, e);
}

abbrev ctx : Context
ctx = record {
  ipv4socket = pos 3;
  ipv6socket = negsuc 0;
  id = replicate 20 5;
  port = 9999;
  type = BindType.ipv4only;
  minimum_rating = 0;
}

abbrev sought : Entry
sought = record {
  md = replicate 20 7;
  announce = false;
  status = Status.searching;
  updatetime = 10;
}

abbrev state : State ℕ (List Bytes)
state = record {
  announcetable = [];
  lookuptable = sought ∷ [];
  eids = record { dtn_my_eid = []; dtn_my_eid_changed = false; myneighbours = []; mygroups = [] };
  blacklist = init;
  ratings = [];
  minimum_rating = 0;
  dht_has_been_ready = true;
  operations_done = [];
  searches = [];
  engine = 0;
}

ready_now :
    0
    < (dtn_dht_ready_for_work prompt list_bloom
        (λ sa. sa.addr)
        (λ _. [])
        constant_hash
        20
        ctx
        state).0
unfolding dtn_dht_ready_for_work
ready_now = omega arith

sought_found :
    get_from_list (key_of constant_hash (codes "dtn://a")) state.lookuptable ≡ some sought
unfolding get_from_list same memcmp dht_hash
sought_found = refl

abbrev looked_up : State ℕ (List Bytes)
looked_up =
    (dtn_dht_lookup prompt list_bloom (λ sa. sa.addr) (λ _. []) constant_hash 20 ctx
      (codes "dtn://a") state).1

abbrev search_ended : State ℕ (List Bytes)
search_ended =
    deliver prompt list_bloom (λ sa. sa.addr) (λ _. []) 20
      (Event.search_done (key_of constant_hash (codes "dtn://a"))
        ∷ Event.search_done (replicate 20 8)
        ∷ [])
      looked_up

ready_later :
    2
    ≤ (dtn_dht_ready_for_work prompt list_bloom
        (λ sa. sa.addr)
        (λ _. [])
        constant_hash
        30
        ctx
        (record search_ended { minimum_rating = ctx.minimum_rating })).0
unfolding dtn_dht_ready_for_work
ready_later = omega arith

ipv4only≢bindnone : BindType.ipv4only ≢ BindType.bindnone
ipv4only≢bindnone e = cc

dtn_dht_lookup-repeats_example :
    ((dtn_dht_lookup prompt list_bloom
        (λ sa. sa.addr)
        (λ _. [])
        constant_hash
        20
        ctx
        (codes "dtn://a")
        state).0
      ≡ pos 1)
    × (looked_up.searches ≡ [])
    × (calls_of (key_of constant_hash (codes "dtn://a")) []
        < calls_of
            (key_of constant_hash (codes "dtn://a"))
            (dtn_dht_periodic prompt list_bloom
              (λ sa. sa.addr)
              (λ _. [])
              constant_hash
              30
              ctx
              search_ended).1.searches)
dtn_dht_lookup-repeats_example =
    dtn_dht_lookup-repeats prompt list_bloom (λ sa. sa.addr) (λ _. []) constant_hash 20 30 ctx
      (codes "dtn://a") (Event.search_done (replicate 20 8) ∷ []) state sought ipv4only≢bindnone
      ready_now sought_found tt ready_later

other_key : replicate 20 8 ≢ key_of constant_hash (codes "dtn://a")
unfolding dht_hash
other_key e = cc

dtn_dht_announce-deannounce_example :
    (is_announced
        (key_of constant_hash (codes "dtn://a"))
        (dtn_dht_announce prompt list_bloom
          (λ sa. sa.addr)
          (λ _. [])
          constant_hash
          20
          ctx
          (codes "dtn://a")
          LookupType.group
          state).1.announcetable
      ≡ true)
    × (is_announced
          (key_of constant_hash (codes "dtn://a"))
          (dtn_dht_deannounce prompt list_bloom
            (λ sa. sa.addr)
            (λ _. [])
            constant_hash
            20
            ctx
            (codes "dtn://a")
            state).announcetable
        ≡ false)
    × (get_from_list
          (replicate 20 8)
          (dtn_dht_announce prompt list_bloom
            (λ sa. sa.addr)
            (λ _. [])
            constant_hash
            20
            ctx
            (codes "dtn://a")
            LookupType.group
            state).1.announcetable
        ≡ get_from_list (replicate 20 8) [])
    × (get_from_list
          (replicate 20 8)
          (dtn_dht_deannounce prompt list_bloom
            (λ sa. sa.addr)
            (λ _. [])
            constant_hash
            20
            ctx
            (codes "dtn://a")
            state).announcetable
        ≡ get_from_list (replicate 20 8) [])
dtn_dht_announce-deannounce_example =
    dtn_dht_announce-deannounce prompt list_bloom (λ sa. sa.addr) (λ _. []) constant_hash 20 ctx
      (codes "dtn://a") LookupType.group state (replicate 20 8) other_key

abbrev host6 : SockAddr
host6 = record { family = Family.inet6; addr = replicate 16 3; port = 6881 }

bootstrapping_load_conf-save_conf_example :
    bootstrapping_load_conf (bootstrapping_save_conf (v4 3 ∷ v4 4 ∷ []) (host6 ∷ []))
    ≡ (if ends_zero (v4 3 ∷ v4 4 ∷ []) then [] else (v4 3 ∷ v4 4 ∷ []) ++ host6 ∷ [])
bootstrapping_load_conf-save_conf_example =
    bootstrapping_load_conf-save_conf (v4 3 ∷ v4 4 ∷ []) (host6 ∷ []) (omega arith) (omega arith)
      (saved 3, (saved 4, tt))
      (
        record {
          of_family = refl;
          addr_bytes = refl;
          has_port = omega arith;
          is_port = omega arith;
        },
        tt,
      )
  where
    saved : (n : ℕ) → IsSaved Family.inet 4 (v4 n)
    saved n = record {
      of_family = refl;
      addr_bytes = refl;
      has_port = omega arith;
      is_port = omega arith;
    }
