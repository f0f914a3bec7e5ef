-- ===== src/Table/Cleanup.antt =====
-- What `cleanUpList` leaves of a table.
use dtndht.Base.{
  ℕ, ℤ, Bool, true, false, List, [], ◌∷◌, ◌++◌, append_assoc, append-nil, ◌≡◌, refl, sym, ap, ◌∙◌,
  ◌⊎◌, inl, inr, ◌≢◌, negsuc, ◌≤◌, none, arith, All, Bool-cases,
}
use dtndht.Table.{Entry, is_expired, clean_loop, clean_up_list}

-- No entry of the list passes the test for deletion.
abbrev pub Kept : ℕ → ℤ → List Entry → Type 0
Kept now threshold = All (λ e. is_expired now threshold e ≡ false)

module _ (now : ℕ) (threshold : ℤ) where
  loop_at_expired :
      (l before : List Entry) (e : Entry) (r : List Entry) (b : Bool)
      → is_expired now threshold e ≡ true
      → (b' : Bool) × (clean_loop now threshold before none b (l ++ e ∷ r)
          ≡ clean_loop now threshold [] none b' r)
  unfolding clean_loop
  loop_at_expired [] before e r b h = (b, ground arith)
  loop_at_expired (x ∷ l) before e r b h = elim (Bool-cases (is_expired now threshold x)) [
    | inl p ↦ let (b', q) = loop_at_expired l [] e r b h in (b', ground arith)
    | inr p ↦ let (b', q) = loop_at_expired l (before ++ x ∷ []) e r false h in (b', ground arith)
  ]

  loop-Kept :
      (l before : List Entry) (b : Bool)
      → Kept now threshold l
      → (b ≡ true → before ≡ [])
      → clean_loop now threshold before none b l ≡ before ++ l
  unfolding clean_loop
  loop-Kept [] before true k h = rw append-nil (sym (h refl))
  loop-Kept [] before false k h = sym (append-nil before)
  loop-Kept (x ∷ l) before b k h = ground (
    arith,
    k.0,
    loop-Kept l (before ++ x ∷ []) false k.1 (λ e. absurd (cc)),
    append_assoc before (x ∷ []) l,
  )

  -- With nothing in front of `pos`, `isempty` makes no difference.
  loop_any_flag :
      (b : Bool) (r : List Entry)
      → clean_loop now threshold [] none b r ≡ clean_loop now threshold [] none true r
  unfolding clean_loop
  loop_any_flag true [] = refl
  loop_any_flag false [] = refl
  loop_any_flag b (x ∷ r) = ground (arith, loop_any_flag b r)

  -- If an entry is expired, the cleanup leaves of the table what it leaves of the entries behind
  -- that entry: every entry in front of it goes too, expired or not, announced or not.
  pub cleanup_drops_front :
      (front : List Entry) (e : Entry) (rest : List Entry)
      → is_expired now threshold e ≡ true
      → clean_up_list now threshold (front ++ e ∷ rest) ≡ clean_up_list now threshold rest
  unfolding clean_up_list
  cleanup_drops_front front e rest h =
      let (b, p) = loop_at_expired front [] e rest true h in p ∙ loop_any_flag b rest

  pub cleanup_of_Kept : (l : List Entry) → Kept now threshold l → clean_up_list now threshold l ≡ l
  unfolding clean_up_list
  cleanup_of_Kept l k = loop-Kept l [] true k (λ _. refl)

  -- Nothing, or a list that ends in an expired entry.
  abbrev pub EndsExpired : List Entry → Type 0
  EndsExpired pre =
      (pre ≡ [])
      ⊎ ((front : List Entry) × (e : Entry) × (pre ≡ front ++ e ∷ [])
          × (is_expired now threshold e ≡ true))

  EndsExpired-cons :
      (x : Entry) (pre : List Entry)
      → (is_expired now threshold x ≡ true) ⊎ (pre ≢ [])
      → EndsExpired pre
      → EndsExpired (x ∷ pre)
  EndsExpired-cons x pre (inl h) (inl p) = inr ([], x, ap (◌∷◌ x) p, h)
  EndsExpired-cons x pre (inr h) (inl p) = absurd (h p)
  EndsExpired-cons x pre _ (inr (front, e, p, h)) = inr (x ∷ front, e, ap (◌∷◌ x) p, h)

  -- A table is cut behind its last expired entry.
  last_expired :
      (l : List Entry)
      → (pre : List Entry) × (rest : List Entry) × (l ≡ pre ++ rest)
        × Kept now threshold rest
        × EndsExpired pre
  last_expired [] = ([], [], refl, tt, inl refl)
  last_expired (x ∷ l) = add (last_expired l)
    where
      add :
          ((pre : List Entry) × (rest : List Entry) × (l ≡ pre ++ rest)
            × Kept now threshold rest
            × EndsExpired pre)
          → (pre : List Entry) × (rest : List Entry) × (x ∷ l ≡ pre ++ rest)
            × Kept now threshold rest
            × EndsExpired pre
      add ([], rest, p, k, e) = elim (Bool-cases (is_expired now threshold x)) [
        | inl old ↦ (x ∷ [], rest, ap (◌∷◌ x) p, k, inr ([], x, refl, old))
        | inr new ↦ ([], x ∷ rest, ap (◌∷◌ x) p, (new, k), inl refl)
      ]
      add (y ∷ pre, rest, p, k, e) =
          (x ∷ y ∷ pre, rest, ap (◌∷◌ x) p, k, EndsExpired-cons x (y ∷ pre) (inr (cc)) e)

  cleanup_cut :
      (pre rest : List Entry)
      → Kept now threshold rest
      → EndsExpired pre
      → clean_up_list now threshold (pre ++ rest) ≡ rest
  cleanup_cut pre rest k (inl p) = rw p (cleanup_of_Kept rest k)
  cleanup_cut pre rest k (inr (front, e, p, h)) =
      rw (p, append_assoc) (cleanup_drops_front front e rest h ∙ cleanup_of_Kept rest k)

  -- What the cleanup leaves is a tail of the table that holds no expired entry, and what it takes
  -- away is nothing or ends in an expired entry: the table is cut behind its last expired entry.
  pub cleanup_cuts_behind_last :
      (l : List Entry)
      → (pre : List Entry) × (l ≡ pre ++ clean_up_list now threshold l)
        × Kept now threshold (clean_up_list now threshold l)
        × EndsExpired pre
  cleanup_cuts_behind_last l =
      let (pre, rest, p, k, e) = last_expired l in
      let q : clean_up_list now threshold l ≡ rest =
        ap (clean_up_list now threshold) p ∙ cleanup_cut pre rest k e in
      (pre, rw q p, rw q k, e)

-- A cleanup with a negative threshold empties a table whose entries are not stamped after the
-- present: it is what frees both tables at the shutdown.
pub cleanup-All :
    (now t : ℕ) (l : List Entry)
    → All (λ e. e.updatetime ≤ now) l
    → clean_up_list now (negsuc t) l ≡ []
cleanup-All now t [] h = unfold clean_up_list clean_loop in refl
cleanup-All now t (e ∷ l) h =
    cleanup_drops_front now (negsuc t) [] e l (expired h.0) ∙ cleanup-All now t l h.1
  where
    expired : e.updatetime ≤ now → is_expired now (negsuc t) e ≡ true
    expired p = unfold is_expired in ground arith
