-- ===== src/Service/Repeat.antt =====
-- The lookups that wait are made again when the table is ready.
use dtndht.Base.{
  ℕ, zero, suc, ◌+◌, ◌≤◌, ◌<◌, Bytes, true, ◌&&◌, length, get_elem?, some_eq, ◌≡◌, ◌≢◌, refl, sym,
  ap, ◌∙◌, subst, inl, inr, arith, ltb, leb, ◌==◌, ==_iff, is_neg, Bool-cases, Option-cases,
}
use dtndht.Net.{SockAddr}
use dtndht.Table.{Status, Entry}
use dtndht.Rating.{Bloom}
use dtndht.Service.{Context, BindType, Engine, State, dtn_dht_search}
use dtndht.Service.Calls.{
  is_status, dtn_dht_ready_for_work, reannounce_entry, reannounce_from, reannounce_list,
  relookup_entry, relookup_from, relookup_list, clean_and_receive, dtn_dht_periodic,
}
use dtndht.Service.Waits.{
  calls_of, Waits, update_at-Waits, deliver-searches, dtn_dht_search-Waits, dtn_dht_search-calls_of,
  dtn_dht_search-called, get_elem?-none, get_elem?-length,
}

module _ {ℓ} {E B : Type ℓ} (dht : Engine E) (bloom : Bloom B) (digest : SockAddr → Bytes)
    (junk : ℕ → Bytes) (sha1 : Bytes → Bytes) (now : ℕ) (ctx : Context) where
  relookup_entry-calls_of :
      (key : Bytes) (i : ℕ) (e : Entry) (s : State E B)
      → calls_of key s.searches
        ≤ calls_of key (relookup_entry dht bloom digest junk sha1 now ctx i e s).1.searches
  unfolding relookup_entry
  relookup_entry-calls_of key i e s =
      ground (arith, dtn_dht_search-calls_of dht bloom digest junk now ctx e.md 0 key s)

  -- A round makes the search again for an entry that waits, and leaves the entries behind it waiting.
  relookup_entry-called :
      (i : ℕ) (e : Entry) (s : State E B)
      → ctx.type ≢ BindType.bindnone
      → e.status ≡ Status.done_and_ready_for_repeat
      → calls_of e.md s.searches
        < calls_of e.md (relookup_entry dht bloom digest junk sha1 now ctx i e s).1.searches
  unfolding relookup_entry
  relookup_entry-called i e s t h =
      let k : is_status e.status Status.done_and_ready_for_repeat ≡ true = rw h refl in
      ground (arith, k, dtn_dht_search-called dht bloom digest junk now ctx e.md 0 s t)

  relookup_entry-Waits :
      (key : Bytes) (j i : ℕ) (e : Entry) (s : State E B)
      → i < j
      → Waits key j s.lookuptable
      → Waits key j (relookup_entry dht bloom digest junk sha1 now ctx i e s).1.lookuptable
  unfolding relookup_entry
  relookup_entry-Waits key j i e s h w =
      let v = dtn_dht_search-Waits dht bloom digest junk now ctx e.md 0 key j s w in
      elim (Bool-cases (is_status e.status Status.done_and_ready_for_repeat)) [
        | inr k ↦ rw (k, relookup_entry) w
        | inl k ↦
            elim (Bool-cases (is_neg (dtn_dht_search dht bloom digest junk now ctx e.md 0 s).0)) [
              | inl n ↦ rw (k, n, relookup_entry) v
              | inr n ↦ rw (k, n, relookup_entry) (update_at-Waits _ i key j _ h v)
            ]
      ]

  relookup_from-calls_of :
      (key : Bytes) (rounds i : ℕ) (s : State E B)
      → calls_of key s.searches
        ≤ calls_of key (relookup_from dht bloom digest junk sha1 now ctx rounds i s).1.searches
  unfolding relookup_from
  relookup_from-calls_of key zero i s = omega arith
  relookup_from-calls_of key (suc rounds) i s = elim (Option-cases (get_elem? s.lookuptable i)) [
    | inl k ↦ rw (k, relookup_from) (omega arith)
    | inr (e, k) ↦
        rw (k, relookup_from)
          (omega (
            arith,
            relookup_entry-calls_of key i e s,
            relookup_from-calls_of key rounds (i + 1)
                (relookup_entry dht bloom digest junk sha1 now ctx i e s).1,
          ))
  ]

  relookup_from-Waits :
      (key : Bytes) (j rounds i : ℕ) (s : State E B)
      → ctx.type ≢ BindType.bindnone
      → i ≤ j
      → j < i + rounds
      → Waits key j s.lookuptable
      → calls_of key s.searches
        < calls_of key (relookup_from dht bloom digest junk sha1 now ctx rounds i s).1.searches
  unfolding relookup_from
  relookup_from-Waits key j zero i s t h l w = absurd (omega arith)
  relookup_from-Waits key j (suc rounds) i s t h l w =
      elim (Option-cases (get_elem? s.lookuptable i)) [
        | inl k ↦ absurd (ground (arith, get_elem?-none s.lookuptable i j h k, w.stands))
        | inr (e, k) ↦ elim (Bool-cases (i == j)) [
          | inl q ↦
              let z : i ≡ j = (==_iff i j).0 q in
              let same_entry : e ≡ w.entry =
                some_eq (sym k ∙ (ap (get_elem? s.lookuptable) z ∙ w.stands)) in
              let md : e.md ≡ key = ap (λ (x : Entry). x.md) same_entry ∙ w.has_key in
              let status : e.status ≡ Status.done_and_ready_for_repeat =
                ap (λ (x : Entry). x.status) same_entry ∙ w.waiting in
              let s1 = (relookup_entry dht bloom digest junk sha1 now ctx i e s).1 in
              let called =
                subst (λ z. calls_of z s.searches < calls_of z s1.searches) md
                  (relookup_entry-called i e s t status) in
              rw (k, relookup_from)
                (omega (arith, called, relookup_from-calls_of key rounds (i + 1) s1))
          | inr q ↦
              rw (k, relookup_from)
                (omega (
                  arith,
                  relookup_entry-calls_of key i e s,
                  relookup_from-Waits key j rounds (i + 1)
                      (relookup_entry dht bloom digest junk sha1 now ctx i e s).1 t (ground arith)
                      (omega arith) (relookup_entry-Waits key j i e s (ground arith) w),
                ))
        ]
      ]

  relookup_list-Waits :
      (key : Bytes) (j : ℕ) (s : State E B)
      → ctx.type ≢ BindType.bindnone
      → Waits key j s.lookuptable
      → calls_of key s.searches
        < calls_of key (relookup_list dht bloom digest junk sha1 now ctx s).1.searches
  unfolding relookup_list
  relookup_list-Waits key j s t w =
      relookup_from-Waits key j (length s.lookuptable) 0 s t (omega arith)
        (omega (arith, get_elem?-length s.lookuptable j w.entry w.stands)) w

  reannounce_entry-keeps :
      (key : Bytes) (j threshold i : ℕ) (e : Entry) (s : State E B)
      → Waits key j s.lookuptable
      → Waits key j
          (reannounce_entry dht bloom digest junk sha1 now ctx threshold i e s).1.lookuptable
        × (calls_of key s.searches
            ≤ calls_of key
                (reannounce_entry dht bloom digest junk sha1 now ctx threshold i e s).1.searches)
  unfolding reannounce_entry
  reannounce_entry-keeps key j threshold i e s w =
      let v = dtn_dht_search-Waits dht bloom digest junk now ctx e.md ctx.port key j s w in
      let c = dtn_dht_search-calls_of dht bloom digest junk now ctx e.md ctx.port key s in
      elim (Bool-cases (e.announce && ltb (e.updatetime + threshold) now)) [
        | inr k ↦ rw (k, reannounce_entry) (w, omega arith)
        | inl k ↦
            elim (Bool-cases
              (is_neg (dtn_dht_search dht bloom digest junk now ctx e.md ctx.port s).0)) [
                | inl n ↦ rw (k, n, reannounce_entry) (v, c)
                | inr n ↦ rw (k, n, reannounce_entry) (v, c)
              ]
      ]

  reannounce_from-keeps :
      (key : Bytes) (j rounds threshold i : ℕ) (s : State E B)
      → Waits key j s.lookuptable
      → Waits key j
          (reannounce_from dht bloom digest junk sha1 now ctx rounds threshold i s).1.lookuptable
        × (calls_of key s.searches
            ≤ calls_of key
                (reannounce_from dht bloom digest junk sha1 now ctx rounds threshold i
                  s).1.searches)
  unfolding reannounce_from
  reannounce_from-keeps key j zero threshold i s w = (w, omega arith)
  reannounce_from-keeps key j (suc rounds) threshold i s w =
      elim (Option-cases (get_elem? s.announcetable i)) [
        | inl k ↦ rw (k, reannounce_from) (w, omega arith)
        | inr (e, k) ↦
            let (v, c) = reannounce_entry-keeps key j threshold i e s w in
            let (v2, c2) =
              reannounce_from-keeps key j rounds threshold (i + 1)
                (reannounce_entry dht bloom digest junk sha1 now ctx threshold i e s).1 v in
            rw (k, reannounce_from) (v2, omega arith)
      ]

  pub ready-same :
      (s : State E B)
      → ((dtn_dht_ready_for_work dht bloom digest junk sha1 now ctx s).1.lookuptable
          ≡ s.lookuptable)
        × ((dtn_dht_ready_for_work dht bloom digest junk sha1 now ctx s).1.searches ≡ s.searches)
  unfolding dtn_dht_ready_for_work
  ready-same s = ground arith

  clean_and_receive-searches :
      (s : State E B)
      → (clean_and_receive dht bloom digest junk sha1 now ctx s).1.searches ≡ s.searches
  unfolding clean_and_receive
  clean_and_receive-searches s =
      deliver-searches dht bloom digest junk now (dht.dht_periodic s.engine).1 _

  -- If a lookup waits to be made again, the next `dtn_dht_periodic` with a ready table makes its search
  -- again, whatever the searches give and whatever call-backs they make.
  pub dtn_dht_periodic-Waits :
      (key : Bytes) (j : ℕ) (s : State E B)
      → ctx.type ≢ BindType.bindnone
      → 2
        ≤ (dtn_dht_ready_for_work dht bloom digest junk sha1 now ctx
            (record s { minimum_rating = ctx.minimum_rating })).0
      → Waits key j s.lookuptable
      → calls_of key s.searches
        < calls_of key (dtn_dht_periodic dht bloom digest junk sha1 now ctx s).1.searches
  unfolding dtn_dht_periodic reannounce_list
  dtn_dht_periodic-Waits key j s t r w =
      let s0 : State E B = record s { minimum_rating = ctx.minimum_rating } in
      let s1 = (dtn_dht_ready_for_work dht bloom digest junk sha1 now ctx s0).1 in
      let (table, calls) = ready-same s0 in
      let (v, c) =
        reannounce_from-keeps key j (length s1.announcetable) 600 0 s1
          (subst (Waits key j) (sym table) w) in
      let again =
        relookup_list-Waits key j (reannounce_list dht bloom digest junk sha1 now ctx 600 s1).1 t
          v in
      let same_calls = ap (calls_of key) calls in
      let k : leb 2 (dtn_dht_ready_for_work dht bloom digest junk sha1 now ctx s0).0 ≡ true =
        ground arith in
      let s3 =
        (relookup_list dht bloom digest junk sha1 now ctx
          (reannounce_list dht bloom digest junk sha1 now ctx 600 s1).1).1 in
      let more : calls_of key s.searches < calls_of key s3.searches = omega arith in
      rw (k, dtn_dht_periodic)
        (subst (λ z. calls_of key s.searches < calls_of key z) (sym (clean_and_receive-searches s3))
          more)
