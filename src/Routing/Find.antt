-- ===== src/Routing/Find.antt =====
-- `find_bucket` against the ranges of the buckets.
use dtndht.Base.{
  ℕ, zero, suc, Bytes, memcmp, memcmp_flip, memcmp_swap, memcmp_trans, memcmp_eq, memcmp_self,
  Ordering, is_lt, true, false, List, [], ◌∷◌, ◌≡◌, refl, ap, sym, ◌↔◌, arith, some, drop,
  Bool-cases, inl, inr,
}
use dtndht.Routing.{Bucket, not_after, in_bucket, find_from, find_bucket}

-- The buckets stand in the strict order of their first identifiers.
abbrev pub Chain : List Bucket → Type 0
Chain [] = Unit
Chain (b ∷ []) = Unit
Chain (b ∷ c ∷ next) = (memcmp b.first c.first ≡ Ordering.lt) × Chain (c ∷ next)

pub not_after_of_not_lt :
    (id first : Bytes) → is_lt (memcmp id first) ≡ false → not_after first id ≡ true
not_after_of_not_lt id first h = by_order (memcmp id first) refl
  where
    by_order : (o : Ordering) → memcmp id first ≡ o → not_after first id ≡ true
    by_order Ordering.lt e = absurd (cc)
    by_order Ordering.eq e = rw (memcmp_eq id first e) (ground (arith, memcmp_self first))
    by_order Ordering.gt e = ground (arith, memcmp_flip id first e)

pub not_lt_of_not_after :
    (id first : Bytes) → not_after first id ≡ true → is_lt (memcmp id first) ≡ false
not_lt_of_not_after id first h = by_order (memcmp id first) refl
  where
    by_order : (o : Ordering) → memcmp id first ≡ o → is_lt (memcmp id first) ≡ false
    by_order Ordering.lt e = absurd (ground (arith, memcmp_swap id first e))
    by_order Ordering.eq e = rw e
    by_order Ordering.gt e = rw e

pub not_after_trans :
    (a b c : Bytes) → memcmp a b ≡ Ordering.lt → not_after b c ≡ true → not_after a c ≡ true
not_after_trans a b c h k = by_order (memcmp b c) refl
  where
    by_order : (o : Ordering) → memcmp b c ≡ o → not_after a c ≡ true
    by_order Ordering.lt e = ground (arith, memcmp_trans a b c h e)
    by_order Ordering.eq e = rw (← memcmp_eq b c e) (ground arith)
    by_order Ordering.gt e = absurd (ground arith)

find_from-in_bucket :
    (id : Bytes) (b : Bucket) (next : List Bucket)
    → not_after b.first id ≡ true
    → in_bucket id (drop (find_from id (b ∷ next)) (b ∷ next)) ≡ true
unfolding find_from in_bucket
find_from-in_bucket id b [] h = h
find_from-in_bucket id b (c ∷ next) h = elim (Bool-cases (is_lt (memcmp id c.first))) [
  | inl p ↦ ground arith
  | inr p ↦ rw p (find_from-in_bucket id c next (not_after_of_not_lt id c.first p))
]

no_bucket : (id : Bytes) (j : ℕ) → in_bucket id (drop j []) ≡ true → ⊥
unfolding in_bucket
no_bucket id zero h = cc
no_bucket id (suc j) h = cc

in_bucket-not_after :
    (id : Bytes) (j : ℕ) (b : Bucket) (next : List Bucket)
    → Chain (b ∷ next)
    → in_bucket id (drop j (b ∷ next)) ≡ true
    → not_after b.first id ≡ true
unfolding in_bucket
in_bucket-not_after id zero b [] c h = h
in_bucket-not_after id zero b (d ∷ next) c h = ground arith
in_bucket-not_after id (suc j) b [] c h = absurd (no_bucket id j h)
in_bucket-not_after id (suc j) b (d ∷ next) c h =
    not_after_trans b.first d.first id c.0 (in_bucket-not_after id j d next c.1 h)

in_bucket_unique :
    (id : Bytes) (j : ℕ) (b : Bucket) (next : List Bucket)
    → Chain (b ∷ next)
    → in_bucket id (drop j (b ∷ next)) ≡ true
    → j ≡ find_from id (b ∷ next)
unfolding in_bucket find_from
in_bucket_unique id zero b [] c h = refl
in_bucket_unique id zero b (d ∷ next) c h = ground arith
in_bucket_unique id (suc j) b [] c h = absurd (no_bucket id j h)
in_bucket_unique id (suc j) b (d ∷ next) c h =
    rw (not_lt_of_not_after id d.first (in_bucket-not_after id j d next c.1 h))
      (ap suc (in_bucket_unique id j d next c.1 h))

pub find_bucket_at :
    (id : Bytes) (j : ℕ) (bs : List Bucket)
    → Chain bs
    → in_bucket id (drop j bs) ≡ true
    → find_bucket id bs ≡ some j
unfolding find_bucket
find_bucket_at id j [] c h = absurd (no_bucket id j h)
find_bucket_at id j (b ∷ next) c h = ap some (sym (in_bucket_unique id j b next c h))

-- In a table that is sorted and whose first bucket begins at or before the identifier,
-- `find_bucket` gives the one bucket whose range holds the identifier.
pub find_bucket_iff :
    (id : Bytes) (b : Bucket) (next : List Bucket)
    → Chain (b ∷ next)
    → not_after b.first id ≡ true
    → (i : ℕ) → (find_bucket id (b ∷ next) ≡ some i) ↔ (in_bucket id (drop i (b ∷ next)) ≡ true)
unfolding find_bucket
find_bucket_iff id b next c h i = (found, only)
  where
    found : some (find_from id (b ∷ next)) ≡ some i → in_bucket id (drop i (b ∷ next)) ≡ true
    found e =
        let p : find_from id (b ∷ next) ≡ i = ground arith in
        rw p at (find_from-in_bucket id b next h)

    only : in_bucket id (drop i (b ∷ next)) ≡ true → some (find_from id (b ∷ next)) ≡ some i
    only e = ap some (sym (in_bucket_unique id i b next c e))
