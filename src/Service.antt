-- ===== src/Service.antt =====
-- dtndht/dtndht.c, bootstrapping.c and list.c: the calls of the library, above the distributed hash table.
-- The table itself is used through the calls of dht.h that the record `Engine` names.
pub mod Calls
pub mod Waits
pub mod Repeat
pub mod Lookup
pub mod Announce
pub mod Dht
use dtndht.Base.{
  ℕ, zero, suc, ◌+◌, ◌-◌, ◌*◌, ◌/◌, ◌%◌, Bytes, Bool, true, false, not, ◌&&◌, ◌||◌, List, [], ◌∷◌,
  length, take, drop, get_or, Option, none, some, if◌then◌else◌, ltb, leb, ◌==◌, ℤ, pos, negsuc,
  is_neg,
}
use dtndht.Net.{Family, SockAddr}
use dtndht.Table.{Status, Entry, get_from_list, update_entry}
use dtndht.Blacklist.{Blacklist, blacklist_node, blacklist_id, id_blacklisted}
use dtndht.Eids.{Eids}
use dtndht.Rating.{Bloom, RatingEntry, get_rating}

-- `enum dtn_dht_bind_type`
pub data BindType : Type 0 where
  bindnone ipv4only ipv6only bindboth : BindType

-- `struct dtn_dht_context`, but for the interfaces to bind and the layers to announce.
pub record Context : Type 0 where
  pub ipv4socket : ℤ
  pub ipv6socket : ℤ
  pub id : Bytes
  pub port : ℕ
  pub type : BindType
  pub minimum_rating : ℕ

-- `none` of the random bytes is a failure, which leaves the identifier as it was.
unfoldable pub dtn_dht_initstruct : Option Bytes → Context → Context × Bool
dtn_dht_initstruct random ctx =
    let fresh : Context = record {
      ipv4socket = negsuc 0;
      ipv6socket = negsuc 0;
      id = ctx.id;
      port = 9999;
      type = BindType.bindboth;
      minimum_rating = 0;
    } in
    elim random [ none ↦ (fresh, false) | some b ↦ (record fresh { id = b }, true) ]

-- A call of the call-back function.
pub data Event : Type 0 where
  search_done : Bytes → Event
  values values6 : Bytes → Bytes → SockAddr → ℕ → Event

-- The calls of dht.h. The call-backs that a call makes are given with its result.
pub record Engine {ℓ} (E : Type ℓ) : Type ℓ where
  pub dht_init : ℤ → ℤ → Bytes → E → ℤ × E
  pub dht_search : Bytes → ℕ → Family → E → ℤ × List Event × E
  pub dht_nodes : Family → E → ℕ
  pub dht_ping_dtn_node : SockAddr → ℕ → E → E
  pub dht_periodic : E → ℤ × List Event × E
  pub dht_uninit : E → ℤ × E

-- The static variables. `operations_done` are the calls of `dtn_dht_operation_done`, which the user of
-- the library defines, and `searches` those of `dht_search`, the latest first.
pub record State {ℓ} (E B : Type ℓ) : Type ℓ where
  pub announcetable : List Entry
  pub lookuptable : List Entry
  pub eids : Eids
  pub blacklist : Blacklist
  pub ratings : List (RatingEntry B)
  pub minimum_rating : ℕ
  pub dht_has_been_ready : Bool
  pub operations_done : List Bytes
  pub searches : List (Bytes × ℕ × Family)
  pub engine : E

-- `ntohs` of the two bytes
abbrev port_of : Bytes → ℕ
port_of s = get_or s 0 0 * 256 + get_or s 1 0

-- `cpyvaluetosocketstorage`, for the values of a list.
unfoldable pub addresses : ℕ → Bytes → List SockAddr
addresses zero s = []
addresses (suc count) s =
    record { family = Family.inet; addr = take 4 s; port = port_of (drop 4 s) }
    ∷ addresses count (drop 6 s)

-- The same for IPv6. The family is set to AF_INET all the same, so that the address that is read back
-- is what stands in the place of `sin6_flowinfo`: `junk`, since it is not written.
unfoldable pub addresses6 : (ℕ → Bytes) → ℕ → Bytes → List SockAddr
addresses6 junk zero s = []
addresses6 junk (suc count) s =
    record { family = Family.inet; addr = junk count; port = port_of (drop 16 s) }
    ∷ addresses6 junk count (drop 18 s)

-- What SEARCH_DONE makes of a status.
unfoldable pub finish : Status → Status
finish Status.searching = Status.done
finish Status.repeat_search = Status.done_and_ready_for_repeat
finish Status.done = Status.done
finish Status.done_and_ready_for_repeat = Status.done_and_ready_for_repeat

module _ {ℓ} {E B : Type ℓ} (dht : Engine E) (bloom : Bloom B) (digest : SockAddr → Bytes)
    (junk : ℕ → Bytes) where
  -- The loop that rates: every round asks for the rating of the first address. Behind the numbers, the
  -- list of ratings.
  unfoldable pub rate_all :
      ℕ
      → Bytes
      → SockAddr
      → SockAddr
      → List SockAddr
      → List (RatingEntry B)
      → List ℕ × List (RatingEntry B)
  unfolding get_rating
  rate_all now info_hash first from [] list = ([], list)
  rate_all now info_hash first from (_ ∷ ss) list =
      let (n, list1) = get_rating bloom digest now info_hash first from list in
      let (ns, list2) = rate_all now info_hash first from ss list1 in (n ∷ ns, list2)

  -- The loop that pings.
  unfoldable pub ping_rated : ℕ → ℕ → List ℕ → List SockAddr → E → E
  ping_rated minimum fromlen (n ∷ ns) (sa ∷ ss) e =
      ping_rated minimum fromlen ns ss
        (if ltb 0 n && leb minimum n then dht.dht_ping_dtn_node sa fromlen e else e)
  ping_rated minimum fromlen _ _ e = e

  abbrev rated :
      ℕ → Bytes → SockAddr → List SockAddr → List (RatingEntry B) → List ℕ × List (RatingEntry B)
  rated now info_hash from [] list = ([], list)
  rated now info_hash from (first ∷ ss) list = rate_all now info_hash first from (first ∷ ss) list

  unfoldable pub found_values : ℕ → Bytes → SockAddr → ℕ → List SockAddr → State E B → State E B
  unfolding rate_all ping_rated
  found_values now info_hash from fromlen ss s =
      let trap = s.blacklist.enabled && id_blacklisted info_hash s.blacklist in
      let (ns, list) = rated now info_hash from ss s.ratings in
      if trap
      then record s { blacklist = blacklist_node from info_hash s.blacklist }
      else elim (get_from_list info_hash s.lookuptable) [
        | none ↦ s
        | some _ ↦ record s {
          ratings = list;
          engine = ping_rated s.minimum_rating fromlen ns ss s.engine;
        }
      ]

  unfoldable pub callback : ℕ → Event → State E B → State E B
  unfolding found_values finish update_entry addresses addresses6
  callback now (Event.search_done info_hash) s = record s {
    lookuptable = update_entry info_hash (λ e. record e { status = finish e.status }) s.lookuptable;
    operations_done = info_hash ∷ s.operations_done;
  }
  callback now (Event.values info_hash data' from fromlen) s =
      found_values now info_hash from fromlen (addresses (length data' / 6) data') s
  callback now (Event.values6 info_hash data' from fromlen) s =
      found_values now info_hash from fromlen (addresses6 junk (length data' / 18) data') s

  unfoldable pub deliver : ℕ → List Event → State E B → State E B
  unfolding callback
  deliver now [] s = s
  deliver now (ev ∷ evs) s = deliver now evs (callback now ev s)

  unfoldable pub dht_search_in : ℕ → Bytes → ℕ → Family → State E B → ℤ × State E B
  unfolding deliver
  dht_search_in now id port af s =
      let (rc, evs, e) = dht.dht_search id port af s.engine in
      (rc, deliver now evs (record s { engine = e; searches = (id, port, af) ∷ s.searches }))

  unfoldable pub dtn_dht_search : ℕ → Context → Bytes → ℕ → State E B → ℤ × State E B
  unfolding dht_search_in
  dtn_dht_search now ctx id port s = elim ctx.type [
    | BindType.bindboth ↦
        let (rc, s1) = dht_search_in now id port Family.inet s in
        if is_neg rc then (rc, s1) else dht_search_in now id port Family.inet6 s1
    | BindType.ipv4only ↦ dht_search_in now id port Family.inet s
    | BindType.ipv6only ↦ dht_search_in now id port Family.inet6 s
    | BindType.bindnone ↦ (pos 0, s)
  ]
