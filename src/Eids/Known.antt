-- ===== src/Eids/Known.antt =====
-- Which EIDs are listed after one has been added or removed.
use dtndht.Base.{
  ◌+◌, Bytes, same, same_iff, true, false, not, ◌&&◌, ◌||◌, List, [], ◌∷◌, ◌++◌, append_assoc,
  append-nil, length, ◌≡◌, refl, sym, ap, ◌∙◌, arith, if◌then◌else◌, ◌==◌, ==_iff, Bool-cases, inl,
  inr,
}
use dtndht.Eids.{
  LookupType, Eids, is_eid, listed, dht_add_dtn_eid, remove_from, remove_dtn_neighbour,
  remove_dtn_group, dht_remove_dtn_eid,
}

-- No EID stands in the list twice.
abbrev pub Unique : List Bytes → Type 0
Unique [] = Unit
Unique (e ∷ next) = (listed e next ≡ false) × Unique next

is_eid-same : (a b : Bytes) → is_eid a b ≡ same a b
is_eid-same a b = elim (Bool-cases (same a b)) [
  | inl h ↦
      let e : a ≡ b = (same_iff a b).0 h in
      let l : (length b == length a) ≡ true =
        (==_iff (length b) (length a)).1 (ap length (sym e)) in
      ground arith
  | inr h ↦ ground arith
]

-- The list without the first element that is the EID.
unfoldable without : Bytes → List Bytes → List Bytes
without eid [] = []
without eid (e ∷ next) = if is_eid eid e then next else e ∷ without eid next

remove_from-without :
    (eid : Bytes) (before l : List Bytes)
    → remove_from eid before l ≡ (before ++ without eid l, if listed eid l then 1 else 0)
unfolding remove_from without listed
remove_from-without eid before [] = ap (λ z. (z, 0)) (sym (append-nil before))
remove_from-without eid before (e ∷ next) = elim (Bool-cases (is_eid eid e)) [
  | inl h ↦ rw (h, remove_from, without, listed) refl
  | inr h ↦
      rw (h, remove_from, without, listed)
        (remove_from-without eid (before ++ e ∷ []) next
          ∙ ap (λ z. (z, if listed eid next then 1 else 0))
              (append_assoc before (e ∷ []) (without eid next)))
]

listed-without :
    (eid other : Bytes) (l : List Bytes)
    → Unique l
    → listed other (without eid l) ≡ (not (same other eid) && listed other l)
unfolding without listed
listed-without eid other [] u = elim (Bool-cases (same other eid)) [
  | inl h ↦ ground arith
  | inr h ↦ ground arith
]
listed-without eid other (e ∷ next) u = elim (Bool-cases (is_eid eid e)) [
  | inl h ↦
      let p : eid ≡ e = (same_iff eid e).0 (ground arith) in
      elim (Bool-cases (same other eid)) [
        | inl k ↦
            let q : other ≡ e = (same_iff other eid).0 k ∙ p in
            let n : listed other next ≡ false = ap (λ z. listed z next) q ∙ u.0 in
            rw (h, without) (ground arith)
        | inr k ↦
            let n : is_eid other e ≡ false = is_eid-same other e ∙ ap (same other) (sym p) ∙ k in
            rw (h, without) (ground arith)
      ]
  | inr h ↦
      let rest = listed-without eid other next u.1 in
      let n = is_eid-same other e in
      let d = is_eid-same eid e in
      elim (Bool-cases (same other eid)) [
        | inl k ↦
            let q : other ≡ eid = (same_iff other eid).0 k in
            let m : is_eid other e ≡ false = ap (λ z. is_eid z e) q ∙ h in
            rw (h, without, listed) (ground arith)
        | inr k ↦ rw (h, without, listed) (ground arith)
      ]
]

-- Removing an EID takes it from the neighbours and from the groups and leaves every other EID in
-- both, if no EID was in a list twice; the number of lists that held it is returned.
pub dht_remove_dtn_eid-listed :
    (eid other : Bytes) (s : Eids)
    → Unique s.myneighbours
    → Unique s.mygroups
    → (listed other (dht_remove_dtn_eid eid s).0.myneighbours
        ≡ (not (same other eid) && listed other s.myneighbours))
      × (listed other (dht_remove_dtn_eid eid s).0.mygroups
          ≡ (not (same other eid) && listed other s.mygroups))
      × ((dht_remove_dtn_eid eid s).1
          ≡ (if listed eid s.myneighbours then 1 else 0) + (if listed eid s.mygroups then 1 else 0))
unfolding dht_remove_dtn_eid remove_dtn_neighbour remove_dtn_group
dht_remove_dtn_eid-listed eid other s u v =
    let p = remove_from-without eid [] s.myneighbours in
    let q = remove_from-without eid [] s.mygroups in
    (
      ap (λ z. listed other z.0) p ∙ listed-without eid other s.myneighbours u,
      ap (λ z. listed other z.0) q ∙ listed-without eid other s.mygroups v,
      ap (λ z. z.1 + (remove_from eid [] s.mygroups).1) p
          ∙ ap (λ z. (if listed eid s.myneighbours then 1 else 0) + z.1) q,
    )

-- Adding an EID as a group lists it among the groups, keeps every other EID and the neighbours,
-- and puts no EID into the groups twice, if none was there twice; it returns 1 exactly if the EID
-- was new.
pub dht_add_dtn_eid-listed :
    (eid other : Bytes) (s : Eids)
    → Unique s.mygroups
    → (listed other (dht_add_dtn_eid eid LookupType.group s).0.mygroups
        ≡ (same other eid || listed other s.mygroups))
      × Unique (dht_add_dtn_eid eid LookupType.group s).0.mygroups
      × ((dht_add_dtn_eid eid LookupType.group s).0.myneighbours ≡ s.myneighbours)
      × ((dht_add_dtn_eid eid LookupType.group s).1 ≡ (if listed eid s.mygroups then 0 else 1))
unfolding dht_add_dtn_eid listed
dht_add_dtn_eid-listed eid other s u = elim (Bool-cases (listed eid s.mygroups)) [
  | inl h ↦
      let known : listed other s.mygroups ≡ (same other eid || listed other s.mygroups) =
        elim (Bool-cases (same other eid)) [
          | inl k ↦
              let q : other ≡ eid = (same_iff other eid).0 k in
              let n : listed other s.mygroups ≡ true = ap (λ z. listed z s.mygroups) q ∙ h in
              ground arith
          | inr k ↦ ground arith
        ] in
      rw (h, dht_add_dtn_eid) (known, u, refl, refl)
  | inr h ↦
      let n = is_eid-same other eid in
      rw (h, dht_add_dtn_eid, listed) (ap (λ z. z || listed other s.mygroups) n, (h, u), refl, refl)
]
