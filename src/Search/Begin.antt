-- ===== src/Search/Begin.antt =====
-- `dht_search` keeps all searches sorted.
use dtndht.Base.{
  ℕ, zero, suc, ◌+◌, ◌-◌, ◌*◌, ◌%◌, ◌^◌, Bytes, Bool, List, [], ◌∷◌, All, length, get_elem?, Option,
  none, some, some_eq, ◌≡◌, refl, sym, ◌∙◌, subst, ltb, Bool-cases, Option-cases, ◌⊎◌, inl, inr,
}
use dtndht.Net.{Family, SockAddr}
use dtndht.Ids.{IsId}
use dtndht.Routing.{Bucket, Routing, table, find_bucket, previous_bucket}
use dtndht.Routing.Invariant.{IsTable, IsRouting}
use dtndht.Search.{Search, search_nodes}
use dtndht.Search.Sorted.{IsSearch}
use dtndht.Search.Keep.{search_step-IsSearch, reused-IsSearch, started-IsSearch, insert_at-IsSearch}
use dtndht.Search.Step.{Outgoing, search_step}
use dtndht.Search.Start.{
  Searching, blank_search, oldest_from, new_slot, new_search, search_for, modify_search, reused,
  started, search_slot, insert_at, seed_search, dht_search,
}
use dtndht.Wire.Send.{Local}

modify_search-All :
    (f : Search → Search) (i : ℕ) (l : List Search)
    → ((sr : Search) → IsSearch sr → IsSearch (f sr))
    → All IsSearch l
    → All IsSearch (modify_search f i l)
modify_search-All f i [] h a = tt
modify_search-All f zero (sr ∷ l) h (b, a) = (h sr b, a)
modify_search-All f (suc i) (sr ∷ l) h (b, a) = (b, modify_search-All f i l h a)

-- A slot is an old one, or a blank one in front.
abbrev IsSlot : Searching → ℕ × Searching → Type 0
IsSlot s (i, s1) =
    (s1.searches ≡ s.searches) ⊎ ((i ≡ 0) × (s1.searches ≡ blank_search ∷ s.searches))

new_slot-IsSlot :
    (o : Option ℕ) (s : Searching) (p : ℕ × Searching) → new_slot o s ≡ some p → IsSlot s p
unfolding new_slot
new_slot-IsSlot o s p e = elim (Bool-cases (ltb s.numsearches 1024)) [
  | inl k ↦
      let blank : ℕ × Searching =
        (0, record s { searches = blank_search ∷ s.searches; numsearches = s.numsearches + 1 }) in
      let q : some blank ≡ some p = sym (rw (k, new_slot) refl) ∙ e in
      subst (IsSlot s) (some_eq q) (inr (refl, refl))
  | inr k ↦ by_oldest o (sym (rw (k, new_slot) refl) ∙ e)
]
  where
    by_oldest : (o : Option ℕ) → elim o [ none ↦ none | some i ↦ some (i, s) ] ≡ some p → IsSlot s p
    by_oldest none k = absurd (cc)
    by_oldest (some i) k = subst (IsSlot s) (some_eq k) (inl refl)

new_search-IsSlot :
    (now : ℕ) (s : Searching) (p : ℕ × Searching) → new_search now s ≡ some p → IsSlot s p
unfolding new_search
new_search-IsSlot now s p e = elim (Option-cases (oldest_from 0 none s.searches)) [
  | inl k ↦ new_slot-IsSlot none s p (sym (rw (k, new_search) refl) ∙ e)
  | inr ((i, t), k) ↦ elim (Bool-cases (ltb t (now - 62 * 60))) [
    | inl q ↦
        let old : ℕ × Searching = (i, s) in
        let z : some old ≡ some p = sym (rw (k, q, new_search) refl) ∙ e in
        subst (IsSlot s) (some_eq z) (inl refl)
    | inr q ↦ new_slot-IsSlot (some i) s p (sym (rw (k, q, new_search) refl) ∙ e)
  ]
]

started_slot-All :
    (id : Bytes) (af : Family) (tid : ℕ) (s : Searching) (p : ℕ × Searching)
    → IsId id
    → IsSlot s p
    → All IsSearch s.searches
    → All IsSearch (modify_search (started id af tid) p.0 p.1.searches)
started_slot-All id af tid s (i, s1) h (inl e) a =
    modify_search-All (started id af tid) i s1.searches (λ sr _. started-IsSearch id af tid sr h)
      (subst (All IsSearch) (sym e) a)
started_slot-All id af tid s (i, s1) h (inr (z, e)) a =
    subst (λ l. All IsSearch (modify_search (started id af tid) i l)) (sym e)
      (subst (λ i. All IsSearch (modify_search (started id af tid) i (blank_search ∷ s.searches)))
        (sym z) (started-IsSearch id af tid blank_search h, a))

search_slot-All :
    (now : ℕ) (id : Bytes) (af : Family) (s : Searching) (p : ℕ × Searching)
    → IsId id
    → All IsSearch s.searches
    → search_slot now id af s ≡ some p
    → All IsSearch p.1.searches
unfolding search_slot
search_slot-All now id af s p h a e = elim (Option-cases (search_for id af 0 s.searches)) [
  | inr (i, k) ↦
      let old : ℕ × Searching =
        (i, record s { searches = modify_search (reused now) i s.searches }) in
      let z : some old ≡ some p = sym (rw (k, search_slot) refl) ∙ e in
      subst (λ (p : ℕ × Searching). All IsSearch p.1.searches) (some_eq z)
        (modify_search-All (reused now) i s.searches (reused-IsSearch now) a)
  | inl k ↦ elim (Option-cases (new_search now s)) [
    | inl q ↦ absurd (none≢some (sym (rw (k, q, search_slot) refl) ∙ e))
    | inr ((i, s1), q) ↦
        let new : ℕ × Searching = (
          i,
          record s1 {
            searches = modify_search (started id af s1.search_id) i s1.searches;
            search_id = (s1.search_id + 1) % 2 ^ 16;
          },
        ) in
        let z : some new ≡ some p = sym (rw (k, q, search_slot) refl) ∙ e in
        subst (λ (p : ℕ × Searching). All IsSearch p.1.searches) (some_eq z)
          (started_slot-All id af s1.search_id s (i, s1) h (new_search-IsSlot now s (i, s1) q) a)
  ]
]
  where
    none≢some : {x : ℕ × Searching} → none ≡ some x → ⊥
    none≢some k = cc

seed_search-IsSearch :
    (now : ℕ) (af : Family) (myid : Bytes) (i : ℕ) (bs : List Bucket) (sr : Search)
    → IsTable af bs
    → IsSearch sr
    → IsSearch (seed_search now myid i bs sr)
unfolding seed_search
seed_search-IsSearch now af myid i bs sr t w =
    let sr1 = insert_at now (some i) bs sr in
    let w1 = insert_at-IsSearch now af (some i) bs sr t w in
    let sr2 = insert_at now (previous_bucket i) bs (insert_at now (some (suc i)) bs sr1) in
    let w2 =
      insert_at-IsSearch now af (previous_bucket i) bs _ t
        (insert_at-IsSearch now af (some (suc i)) bs sr1 t w1) in
    elim (Bool-cases (ltb (length sr1.nodes) search_nodes)) [
      | inl k ↦ elim (Bool-cases (ltb (length sr2.nodes) search_nodes)) [
        | inl q ↦
            rw (k, q, seed_search) (insert_at-IsSearch now af (find_bucket myid bs) bs sr2 t w2)
        | inr q ↦ rw (k, q, seed_search) w2
      ]
      | inr k ↦ rw (k, k, seed_search) w1
    ]

get_elem?-All :
    (l : List Search) (i : ℕ) (sr : Search) → All IsSearch l → get_elem? l i ≡ some sr → IsSearch sr
get_elem?-All [] i sr a e = absurd (cc)
get_elem?-All (x ∷ l) zero sr (b, a) e = subst IsSearch (some_eq e) b
get_elem?-All (x ∷ l) (suc i) sr (b, a) e = get_elem?-All l i sr a e

table-IsTable :
    (af : Family) (r : Routing) → IsRouting r → (other : Family) × IsTable other (table af r)
table-IsTable Family.inet r w = (Family.inet, w.table4)
table-IsTable Family.inet6 r w = (Family.inet6, w.table6)
table-IsTable Family.unspec r w = (Family.inet6, w.table6)

-- `dht_search` for a proper identifier, with a well-formed routing table, keeps every search sorted by the
-- distance to its target and at most 14 nodes long, whether it reuses an old search, a slot or none.
pub dht_search-IsSearch :
    (me : Local) (blocked : SockAddr → Bool) (now : ℕ) (id : Bytes) (port : ℕ) (af : Family)
    (s : Searching) (r : Routing) (result : Searching × Routing × List Outgoing × Bool)
    → IsId id
    → IsRouting r
    → All IsSearch s.searches
    → dht_search me blocked now id port af s r ≡ some result
    → All IsSearch result.0.searches
unfolding dht_search
dht_search-IsSearch me blocked now id port af s r result h w a e =
    elim (Option-cases (find_bucket id (table af r))) [
      | inl k ↦ absurd (none≢result (sym (rw (k, dht_search) refl) ∙ e))
      | inr (b, k) ↦ elim (Option-cases (search_slot now id af s)) [
        | inl l ↦ absurd (none≢result (sym (rw (k, l, dht_search) refl) ∙ e))
        | inr ((i, s1), l) ↦
            let a1 = search_slot-All now id af s (i, s1) h a l in
            elim (Option-cases (get_elem? s1.searches i)) [
              | inl m ↦ absurd (none≢result (sym (rw (k, l, m, dht_search) refl) ∙ e))
              | inr (sr, m) ↦
                  let v = get_elem?-All s1.searches i sr a1 m in
                  let (other, t) = table-IsTable af r w in
                  let start : Search = record sr { port = port } in
                  let v1 : IsSearch start = record {
                    target = v.target;
                    capacity = v.capacity;
                    ids = v.ids;
                    sorted = v.sorted;
                  } in
                  let seeded = seed_search now r.myid b (table af r) start in
                  let v2 = seed_search-IsSearch now other r.myid b (table af r) start t v1 in
                  let step = search_step me blocked now seeded r in
                  let v3 = search_step-IsSearch me blocked now seeded r v2 in
                  let done : Searching × Routing × List Outgoing × Bool = (
                    record s1 {
                      searches = modify_search (λ _. step.0) i s1.searches;
                      search_time = now;
                    },
                    step.1,
                    step.2,
                    step.3,
                  ) in
                  let z : some done ≡ some result = sym (rw (k, l, m, dht_search) refl) ∙ e in
                  subst
                    (λ (x : Searching × Routing × List Outgoing × Bool). All IsSearch x.0.searches)
                    (some_eq z) (modify_search-All (λ _. step.0) i s1.searches (λ _ _. v3) a1)
            ]
      ]
    ]
  where
    none≢result : none ≡ some result → ⊥
    none≢result k = cc
