-- ===== src/Service/Calls.antt =====
-- dtndht/dtndht.c, bootstrapping.c and list.c: the calls of the library.
use dtndht.Base.{
  ℕ, zero, suc, ◌+◌, Bytes, Bool, true, false, not, ◌&&◌, ◌||◌, List, [], ◌∷◌, length, map,
  get_elem?, none, some, if◌then◌else◌, ltb, leb, ◌==◌, ℤ, pos, negsuc, is_neg,
}
use dtndht.Net.{Family, SockAddr}
use dtndht.Table.{
  Status, Entry, get_from_list, update_entry, add_to_list, deactivate_from_list, clean_up_list,
}
use dtndht.Blacklist.{enable, blacklist_id, free}
use dtndht.Eids.{LookupType, dht_add_dtn_eid, dht_remove_dtn_eid}
use dtndht.Guard.{dht_hash}
use dtndht.Rating.{Bloom, RatingEntry}
use dtndht.Service.{Context, Engine, State, deliver, dht_search_in, dtn_dht_search}

-- A write to the entry that a pointer into the table points to.
abbrev pub update_at : (Entry → Entry) → ℕ → List Entry → List Entry
update_at f i [] = []
update_at f zero (e ∷ next) = f e ∷ next
update_at f (suc i) (e ∷ next) = e ∷ update_at f i next

-- The hash of an EID.
abbrev pub key_of : (Bytes → Bytes) → Bytes → Bytes
key_of sha1 eid = dht_hash sha1 20 eid [] []

abbrev pub is_status : Status → Status → Bool
is_status Status.searching Status.searching = true
is_status Status.done Status.done = true
is_status Status.repeat_search Status.repeat_search = true
is_status Status.done_and_ready_for_repeat Status.done_and_ready_for_repeat = true
is_status _ _ = false

module _ {ℓ} {E B : Type ℓ} (dht : Engine E) (bloom : Bloom B) (digest : SockAddr → Bytes)
    (junk : ℕ → Bytes) (sha1 : Bytes → Bytes) (now : ℕ) (ctx : Context) where
  unfoldable pub dtn_dht_init : State E B → ℤ × State E B
  dtn_dht_init s =
      let (rc, e) = dht.dht_init ctx.ipv4socket ctx.ipv6socket ctx.id s.engine in
      (
        rc,
        record s {
          minimum_rating = ctx.minimum_rating;
          announcetable = [];
          lookuptable = [];
          engine = e;
        },
      )

  -- 8 and 30 are BOOTSTRAPPING_SEARCH_THRESHOLD and DHT_READY_THRESHOLD.
  unfoldable pub dtn_dht_ready_for_work : State E B → ℕ × State E B
  dtn_dht_ready_for_work s =
      let good : ℕ = if is_neg ctx.ipv4socket then 0 else dht.dht_nodes Family.inet s.engine in
      let good6 : ℕ = if is_neg ctx.ipv6socket then 0 else dht.dht_nodes Family.inet6 s.engine in
      if leb 30 good || leb 30 good6
      then (3, record s { dht_has_been_ready = true })
      else if leb 8 good || leb 8 good6
      then (2, s)
      else if s.dht_has_been_ready
      then (1, s)
      else (0, s)

  abbrev search : Bytes → ℕ → State E B → ℤ × State E B
  search id port s = dtn_dht_search dht bloom digest junk now ctx id port s

  -- The end of `dtn_dht_lookup`, from `announce = getFromList(..)` on.
  unfoldable pub start_lookup : Bytes → State E B → ℤ × State E B
  unfolding dtn_dht_search
  start_lookup key s = elim (get_from_list key s.announcetable) [
    | none ↦ search key 0 s
    | some a ↦ if a.announce then (pos 1, s) else search key 0 s
  ]

  -- The lookup, when the table is ready.
  unfoldable pub lookup_key : Bytes → State E B → ℤ × State E B
  unfolding start_lookup
  lookup_key key s0 =
      let s : State E B = record s0 { minimum_rating = ctx.minimum_rating } in
      elim (get_from_list key s.lookuptable) [
        | none ↦ start_lookup key (record s { lookuptable = add_to_list now key s.lookuptable })
        | some e ↦
            if is_status e.status Status.searching || is_status e.status Status.repeat_search
            then (
              pos 1,
              record s {
                lookuptable =
                    update_entry key (λ e. record e { status = Status.repeat_search })
                      s.lookuptable;
              },
            )
            else start_lookup key (record s {
              lookuptable =
                  update_entry key (λ e. record e { updatetime = now; status = Status.searching })
                    s.lookuptable;
            })
      ]

  unfoldable pub dtn_dht_lookup : Bytes → State E B → ℤ × State E B
  unfolding lookup_key dtn_dht_ready_for_work
  dtn_dht_lookup eid s =
      let (ready, s1) = dtn_dht_ready_for_work s in
      if ready == 0 then (pos 0, s1) else lookup_key (key_of sha1 eid) s1

  unfoldable pub dtn_dht_announce : Bytes → LookupType → State E B → ℤ × State E B
  unfolding dtn_dht_search dtn_dht_ready_for_work
  dtn_dht_announce eid type s0 =
      let s : State E B = record s0 {
        minimum_rating = ctx.minimum_rating;
        eids = (dht_add_dtn_eid eid type s0.eids).0;
      } in
      let key = key_of sha1 eid in
      elim (get_from_list key s.announcetable) [
        | none ↦
            let table : List Entry =
              update_entry key (λ e. record e { announce = true })
                (add_to_list now key s.announcetable) in
            let (ready, s1) = dtn_dht_ready_for_work (record s { announcetable = table }) in
            if ready == 0
            then (
              pos 0,
              record s1 {
                announcetable =
                    update_entry key (λ e. record e { updatetime = 0 }) s1.announcetable;
              },
            )
            else search key ctx.port s1
        | some _ ↦ (
          pos 0,
          record s {
            announcetable = update_entry key (λ e. record e { announce = true }) s.announcetable;
          },
        )
      ]

  unfoldable pub dtn_dht_deannounce : Bytes → State E B → State E B
  dtn_dht_deannounce eid s = record s {
    eids = (dht_remove_dtn_eid eid s.eids).0;
    announcetable = deactivate_from_list (key_of sha1 eid) s.announcetable;
  }

  -- A round of `reannounceList`: how often the search failed, and the state.
  unfoldable pub reannounce_entry : ℕ → ℕ → Entry → State E B → ℕ × State E B
  unfolding dtn_dht_search
  reannounce_entry threshold i e s =
      let (rc, s1) = search e.md ctx.port s in
      if not (e.announce && ltb (e.updatetime + threshold) now)
      then (0, s)
      else if is_neg rc
      then (1, s1)
      else (
        0,
        record s1 {
          announcetable = update_at (λ e. record e { updatetime = now }) i s1.announcetable;
        },
      )

  -- `reannounceList` from the entry at a place on. The number is how many searches failed, which the
  -- source returns negated. There is a round for each entry.
  unfoldable pub reannounce_from : ℕ → ℕ → ℕ → State E B → ℕ × State E B
  unfolding reannounce_entry
  reannounce_from zero threshold i s = (0, s)
  reannounce_from (suc rounds) threshold i s = elim (get_elem? s.announcetable i) [
    | none ↦ (0, s)
    | some e ↦
        let (m, s1) = reannounce_entry threshold i e s in
        let (n, s2) = reannounce_from rounds threshold (i + 1) s1 in (m + n, s2)
  ]

  -- A round of `relookupList`.
  unfoldable pub relookup_entry : ℕ → Entry → State E B → ℕ × State E B
  unfolding dtn_dht_search
  relookup_entry i e s =
      let (rc, s1) = search e.md 0 s in
      if not (is_status e.status Status.done_and_ready_for_repeat)
      then (0, s)
      else if is_neg rc
      then (1, s1)
      else (
        0,
        record s1 {
          lookuptable =
              update_at (λ e. record e { status = Status.searching; updatetime = now }) i
                s1.lookuptable;
        },
      )

  -- `relookupList`, in the same way.
  unfoldable pub relookup_from : ℕ → ℕ → State E B → ℕ × State E B
  unfolding relookup_entry
  relookup_from zero i s = (0, s)
  relookup_from (suc rounds) i s = elim (get_elem? s.lookuptable i) [
    | none ↦ (0, s)
    | some e ↦
        let (m, s1) = relookup_entry i e s in
        let (n, s2) = relookup_from rounds (i + 1) s1 in (m + n, s2)
  ]

  unfoldable pub reannounce_list : ℕ → State E B → ℕ × State E B
  unfolding reannounce_from
  reannounce_list threshold s = reannounce_from (length s.announcetable) threshold 0 s

  unfoldable pub relookup_list : State E B → ℕ × State E B
  unfolding relookup_from
  relookup_list s = relookup_from (length s.lookuptable) 0 s

  -- The end of `dtn_dht_periodic`; 1800 is LOOKUP_THRESHOLD.
  unfoldable pub clean_and_receive : State E B → ℤ × State E B
  unfolding deliver
  clean_and_receive s =
      let (rc, evs, e) = dht.dht_periodic s.engine in
      (
        rc,
        deliver dht bloom digest junk now evs (record s {
          lookuptable = clean_up_list now (pos 1800) s.lookuptable;
          announcetable = clean_up_list now (pos 1800) s.announcetable;
          engine = e;
        }),
      )

  -- 600 is REANNOUNCE_THRESHOLD.
  unfoldable pub dtn_dht_periodic : State E B → ℤ × State E B
  unfolding dtn_dht_ready_for_work reannounce_list relookup_list clean_and_receive
  dtn_dht_periodic s0 =
      let (ready, s1) =
        dtn_dht_ready_for_work (record s0 { minimum_rating = ctx.minimum_rating }) in
      let s2 = (reannounce_list 600 s1).1 in
      let s3 = (relookup_list s2).1 in clean_and_receive (if leb 2 ready then s3 else s1)

  -- `bootstrapping_start_random_lookup`, with the hash that `dht_random_bytes` makes.
  unfoldable pub dtn_dht_start_random_lookup : Bytes → State E B → State E B
  unfolding dht_search_in
  dtn_dht_start_random_lookup randomhash s0 =
      let s : State E B = record s0 {
        minimum_rating = ctx.minimum_rating;
        blacklist =
            if s0.blacklist.enabled then blacklist_id randomhash s0.blacklist else s0.blacklist;
      } in
      let s1 =
        if is_neg ctx.ipv4socket
        then s
        else (dht_search_in dht bloom digest junk now randomhash 0 Family.inet s).1 in
      if is_neg ctx.ipv6socket
      then s1
      else (dht_search_in dht bloom digest junk now randomhash 0 Family.inet6 s1).1

  unfoldable pub dtn_dht_blacklist : Bool → State E B → State E B
  dtn_dht_blacklist on s = record s { blacklist = enable on s.blacklist }

  -- `free_ratings` frees the ratings and leaves the pointer to them: `dangling` is what is read there later.
  unfoldable pub dtn_dht_uninit : List (RatingEntry B) → State E B → ℤ × State E B
  dtn_dht_uninit dangling s =
      let (rc, e) = dht.dht_uninit s.engine in
      (
        rc,
        record s {
          ratings = dangling;
          announcetable =
              clean_up_list now (negsuc 0)
                (map {A = Entry} (λ e. record e { announce = false }) s.announcetable);
          lookuptable = clean_up_list now (negsuc 0) s.lookuptable;
          blacklist = free s.blacklist;
          engine = e;
        },
      )
