-- ===== src/Service/Lookup.antt =====
-- A lookup that is asked for while its search runs is made again.
use dtndht.Base.{
  ℕ, suc, ◌≤◌, ◌<◌, Bytes, same, same_eq, true, false, ◌||◌, List, [], ◌∷◌, some, ◌≡◌, ◌≢◌, refl,
  sym, ap, ◌∙◌, subst, inl, inr, arith, ◌==◌, pos, Bool-cases,
}
use dtndht.Net.{SockAddr}
use dtndht.Table.{Status, Entry, get_from_list, update_entry}
use dtndht.Rating.{Bloom}
use dtndht.Service.{Context, BindType, Engine, Event, State, finish, callback, deliver}
use dtndht.Service.Calls.{
  is_status, dtn_dht_ready_for_work, dtn_dht_periodic, key_of, lookup_key, dtn_dht_lookup,
}
use dtndht.Service.Waits.{calls_of, Waits, deliver-Waits, deliver-searches, callback-searches}
use dtndht.Service.Repeat.{ready-same, dtn_dht_periodic-Waits}

abbrev asked_again : Entry → Entry
asked_again e = record e { status = Status.repeat_search }

abbrev finished : Entry → Entry
finished e = record e { status = finish e.status }

module _ (key : Bytes) where
  asked_finished-Waits :
      (table : List Entry) (e : Entry)
      → get_from_list key table ≡ some e
      → (i : ℕ) × Waits key i (update_entry key finished (update_entry key asked_again table))
  unfolding update_entry get_from_list finish
  asked_finished-Waits [] e h = absurd (cc)
  asked_finished-Waits (x ∷ table) e h = elim (Bool-cases (same key x.md)) [
    | inl k ↦
        rw (k, update_entry, k, update_entry)
          (
            0,
            record {
              entry = finished (asked_again x);
              stands = refl;
              has_key = sym (same_eq key x.md k);
              waiting = refl;
            },
          )
    | inr k ↦
        let (i, w) = asked_finished-Waits table e (sym (rw (k, get_from_list) refl) ∙ h) in
        rw (k, update_entry, k, update_entry)
          (
            suc i,
            record { entry = w.entry; stands = w.stands; has_key = w.has_key; waiting = w.waiting },
          )
  ]

-- Whether the search for a key runs.
abbrev pub Running : Status → Type 0
Running Status.searching = Unit
Running Status.repeat_search = Unit
Running _ = ⊥

module _ {ℓ} {E B : Type ℓ} (dht : Engine E) (bloom : Bloom B) (digest : SockAddr → Bytes)
    (junk : ℕ → Bytes) (sha1 : Bytes → Bytes) where
  is_status-Running :
      (t : Status)
      → Running t
      → (is_status t Status.searching || is_status t Status.repeat_search) ≡ true
  is_status-Running Status.searching r = refl
  is_status-Running Status.repeat_search r = refl
  is_status-Running Status.done r = absurd r
  is_status-Running Status.done_and_ready_for_repeat r = absurd r

  lookup_key-Running :
      (now : ℕ) (ctx : Context) (key : Bytes) (s : State E B) (e : Entry)
      → get_from_list key s.lookuptable ≡ some e
      → Running e.status
      → lookup_key dht bloom digest junk sha1 now ctx key s ≡ (
        pos 1,
        record s {
          minimum_rating = ctx.minimum_rating;
          lookuptable = update_entry key asked_again s.lookuptable;
        },
      )
  unfolding lookup_key
  lookup_key-Running now ctx key s e g run = rw (g, is_status-Running e.status run, lookup_key) refl

  -- The lookup of an EID whose search runs makes no search, and marks the entry.
  dtn_dht_lookup-Running :
      (now : ℕ) (ctx : Context) (eid : Bytes) (s : State E B) (e : Entry)
      → 0 < (dtn_dht_ready_for_work dht bloom digest junk sha1 now ctx s).0
      → get_from_list (key_of sha1 eid) s.lookuptable ≡ some e
      → Running e.status
      → ((dtn_dht_lookup dht bloom digest junk sha1 now ctx eid s).0 ≡ pos 1)
        × ((dtn_dht_lookup dht bloom digest junk sha1 now ctx eid s).1.searches ≡ s.searches)
        × ((dtn_dht_lookup dht bloom digest junk sha1 now ctx eid s).1.lookuptable
            ≡ update_entry (key_of sha1 eid) asked_again s.lookuptable)
  unfolding dtn_dht_lookup
  dtn_dht_lookup-Running now ctx eid s e r g run =
      let s1 = (dtn_dht_ready_for_work dht bloom digest junk sha1 now ctx s).1 in
      let (table, calls) = ready-same dht bloom digest junk sha1 now ctx s in
      let g1 = ap (get_from_list (key_of sha1 eid)) table ∙ g in
      let k : (dtn_dht_ready_for_work dht bloom digest junk sha1 now ctx s).0 == 0 ≡ false =
        ground arith in
      let q = lookup_key-Running now ctx (key_of sha1 eid) s1 e g1 run in
      rw (k, q, dtn_dht_lookup) (refl, calls, ap (update_entry (key_of sha1 eid) asked_again) table)

  -- A lookup of an EID whose search runs makes no search at once and returns 1; but when the search is done,
  -- after any other call-backs, the next `dtn_dht_periodic` with a ready table makes the search again.
  pub dtn_dht_lookup-repeats :
      (now later : ℕ) (ctx : Context) (eid : Bytes) (evs : List Event) (s : State E B) (e : Entry)
      → ctx.type ≢ BindType.bindnone
      → 0 < (dtn_dht_ready_for_work dht bloom digest junk sha1 now ctx s).0
      → get_from_list (key_of sha1 eid) s.lookuptable ≡ some e
      → Running e.status
      → 2
        ≤ (dtn_dht_ready_for_work dht bloom digest junk sha1 later ctx
            (record (deliver dht bloom digest junk now
              (Event.search_done (key_of sha1 eid) ∷ evs)
              (dtn_dht_lookup dht bloom digest junk sha1 now ctx eid s).1) {
                minimum_rating = ctx.minimum_rating;
              })).0
      → ((dtn_dht_lookup dht bloom digest junk sha1 now ctx eid s).0 ≡ pos 1)
        × ((dtn_dht_lookup dht bloom digest junk sha1 now ctx eid s).1.searches ≡ s.searches)
        × (calls_of (key_of sha1 eid) s.searches
            < calls_of
                (key_of sha1 eid)
                (dtn_dht_periodic dht bloom digest junk sha1 later ctx (
                  deliver dht bloom digest junk now
                    (Event.search_done (key_of sha1 eid) ∷ evs)
                    (dtn_dht_lookup dht bloom digest junk sha1 now ctx eid s).1)).1.searches)
  unfolding deliver callback
  dtn_dht_lookup-repeats now later ctx eid evs s e t r g run r2 =
      let (one, calls, table) = dtn_dht_lookup-Running now ctx eid s e r g run in
      let key = key_of sha1 eid in
      let s1 = (dtn_dht_lookup dht bloom digest junk sha1 now ctx eid s).1 in
      let done = callback dht bloom digest junk now (Event.search_done key) s1 in
      let (i, w) = asked_finished-Waits key s.lookuptable e g in
      let w1 : Waits key i done.lookuptable =
        subst (λ z. Waits key i (update_entry key finished z)) (sym table) w in
      let w2 = deliver-Waits dht bloom digest junk now evs key i done w1 in
      let s2 = deliver dht bloom digest junk now evs done in
      let more = dtn_dht_periodic-Waits dht bloom digest junk sha1 later ctx key i s2 t r2 w2 in
      let same_calls : calls_of key s2.searches ≡ calls_of key s.searches = ap (calls_of key) (
        deliver-searches dht bloom digest junk now evs done
        ∙ (callback-searches dht bloom digest junk now (Event.search_done key) s1 ∙ calls)) in
      (one, calls, omega arith)
