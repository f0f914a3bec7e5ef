-- ===== src/Service/Announce.antt =====
-- What announcing and deannouncing an EID makes of the table of announced keys.
use dtndht.Base.{
  ℕ, Bytes, true, false, List, [], ◌∷◌, some, ◌≡◌, ◌≢◌, refl, sym, ◌∙◌, subst, arith, ◌==◌,
  Bool-cases, Option-cases, inl, inr,
}
use dtndht.Net.{Family, SockAddr}
use dtndht.Table.{Entry, get_from_list, update_entry, deactivate_from_list}
use dtndht.Eids.{LookupType, dht_add_dtn_eid}
use dtndht.Rating.{Bloom}
use dtndht.Service.{
  Context, Engine, Event, State, found_values, callback, deliver, dht_search_in, dtn_dht_search,
}
use dtndht.Service.Waits.{dtn_dht_search_by}
use dtndht.Service.Calls.{dtn_dht_ready_for_work, key_of, dtn_dht_announce, dtn_dht_deannounce}
use dtndht.Table.Keys.{
  get_from_list-update_other, is_announced, announce, forget, new_table, is_announced-update_entry,
  is_announced-new_table, is_announced-forget, get_from_list-new_table,
  is_announced-deactivate_from_list,
}

module _ {ℓ} {E B : Type ℓ} (dht : Engine E) (bloom : Bloom B) (digest : SockAddr → Bytes)
    (junk : ℕ → Bytes) where
  callback-announcetable :
      (now : ℕ) (ev : Event) (s : State E B)
      → (callback dht bloom digest junk now ev s).announcetable ≡ s.announcetable
  unfolding callback found_values
  callback-announcetable now (Event.search_done info_hash) s = refl
  callback-announcetable now (Event.values info_hash data' from fromlen) s = ground arith
  callback-announcetable now (Event.values6 info_hash data' from fromlen) s = ground arith

  deliver-announcetable :
      (now : ℕ) (evs : List Event) (s : State E B)
      → (deliver dht bloom digest junk now evs s).announcetable ≡ s.announcetable
  unfolding deliver
  deliver-announcetable now [] s = refl
  deliver-announcetable now (ev ∷ evs) s =
      deliver-announcetable now evs (callback dht bloom digest junk now ev s)
      ∙ callback-announcetable now ev s

  dht_search_in-announcetable :
      (now : ℕ) (id : Bytes) (port : ℕ) (af : Family) (s : State E B)
      → (dht_search_in dht bloom digest junk now id port af s).1.announcetable ≡ s.announcetable
  unfolding dht_search_in
  dht_search_in-announcetable now id port af s =
      deliver-announcetable now (dht.dht_search id port af s.engine).1 _

  dtn_dht_search-announcetable :
      (now : ℕ) (ctx : Context) (id : Bytes) (port : ℕ) (s : State E B)
      → (dtn_dht_search dht bloom digest junk now ctx id port s).1.announcetable ≡ s.announcetable
  dtn_dht_search-announcetable now ctx id port s =
      dtn_dht_search_by dht bloom digest junk now ctx id port
        (λ t. t.announcetable ≡ s.announcetable) s
        (λ af. dht_search_in-announcetable now id port af s)
        (λ af t h. dht_search_in-announcetable now id port af t ∙ h) (λ _. refl)

  module _ (sha1 : Bytes → Bytes) (now : ℕ) (ctx : Context) where
    ready-announcetable :
        (s : State E B)
        → (dtn_dht_ready_for_work dht bloom digest junk sha1 now ctx s).1.announcetable
          ≡ s.announcetable
    unfolding dtn_dht_ready_for_work
    ready-announcetable s = ground arith

    -- The three tables that an announcement can lead to.
    dtn_dht_announce_by {κ} :
        (P : List Entry → Type κ) (eid : Bytes) (type : LookupType) (s : State E B)
        → ((e : Entry)
            → get_from_list (key_of sha1 eid) s.announcetable ≡ some e
            → P (update_entry (key_of sha1 eid) announce s.announcetable))
        → P (new_table now (key_of sha1 eid) s.announcetable)
        → P (
            update_entry (key_of sha1 eid) forget (new_table now (key_of sha1 eid) s.announcetable))
        → P (dtn_dht_announce dht bloom digest junk sha1 now ctx eid type s).1.announcetable
    unfolding dtn_dht_announce
    dtn_dht_announce_by P eid type s known new forgotten =
        elim (Option-cases (get_from_list (key_of sha1 eid) s.announcetable)) [
          | inr (e, k) ↦ rw (k, dtn_dht_announce) (known e k)
          | inl k ↦
              let t : State E B = record s {
                minimum_rating = ctx.minimum_rating;
                eids = (dht_add_dtn_eid eid type s.eids).0;
                announcetable = new_table now (key_of sha1 eid) s.announcetable;
              } in
              let r = ready-announcetable t in
              let s1 = (dtn_dht_ready_for_work dht bloom digest junk sha1 now ctx t).1 in
              elim (Bool-cases
                ((dtn_dht_ready_for_work dht bloom digest junk sha1 now ctx t).0 == 0)) [
                  | inl z ↦
                      rw (k, z, dtn_dht_announce)
                        (subst (λ x. P (update_entry (key_of sha1 eid) forget x)) (sym r) forgotten)
                  | inr z ↦
                      rw (k, z, dtn_dht_announce)
                        (subst P
                          (sym (
                            dtn_dht_search-announcetable now ctx (key_of sha1 eid) ctx.port s1 ∙ r))
                          new)
                ]
        ]

    -- After an announcement of an EID its key is announced, whatever the state of the table and of the
    -- node; after a deannouncement it is not; and neither changes the entry of another key.
    pub dtn_dht_announce-deannounce :
        (eid : Bytes) (type : LookupType) (s : State E B) (k : Bytes)
        → k ≢ key_of sha1 eid
        → (is_announced
              (key_of sha1 eid)
              (dtn_dht_announce dht bloom digest junk sha1 now ctx eid type s).1.announcetable
            ≡ true)
          × (is_announced
                (key_of sha1 eid)
                (dtn_dht_deannounce dht bloom digest junk sha1 now ctx eid s).announcetable
              ≡ false)
          × (get_from_list k
                (dtn_dht_announce dht bloom digest junk sha1 now ctx eid type s).1.announcetable
              ≡ get_from_list k s.announcetable)
          × (get_from_list k
                (dtn_dht_deannounce dht bloom digest junk sha1 now ctx eid s).announcetable
              ≡ get_from_list k s.announcetable)
    unfolding dtn_dht_deannounce deactivate_from_list
    dtn_dht_announce-deannounce eid type s k d =
        let key = key_of sha1 eid in
        let other = get_from_list-new_table k now key s.announcetable d in
        (
          dtn_dht_announce_by (λ t. is_announced key t ≡ true) eid type s
              (λ e g.
                is_announced-update_entry key announce s.announcetable e true (λ _. refl) g refl)
              (is_announced-new_table now key s.announcetable)
              (is_announced-forget key (new_table now key s.announcetable)
                ∙ is_announced-new_table now key s.announcetable),
          is_announced-deactivate_from_list key s.announcetable,
          dtn_dht_announce_by (λ t. get_from_list k t ≡ get_from_list k s.announcetable) eid type s
              (λ e g. get_from_list-update_other k key announce s.announcetable (λ _. refl) d) other
              (get_from_list-update_other k key forget (new_table now key s.announcetable)
                  (λ _. refl) d
                ∙ other),
          get_from_list-update_other k key (λ e. record e { announce = false }) s.announcetable
              (λ _. refl) d,
        )
