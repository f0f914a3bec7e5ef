-- ===== src/Routing/Writes.antt =====
-- The writes of `new_node` to one bucket keep the bucket well-formed.
use dtndht.Base.{
  ℕ, suc, ◌<◌, ◌-◌, ltb, Bytes, same, same_iff, true, false, List, [], ◌∷◌, ◌++◌, ◌≡◌, refl, ap,
  sym, ◌∙◌, subst, arith, some, none, length, Bool-cases, inl, inr, Option, All, map, if_both,
  Option-cases,
}
use dtndht.Net.{Family, SockAddr}
use dtndht.Ids.{IsId}
use dtndht.Routing.{Node, Bucket, find_in, node_good}
use dtndht.Routing.Update.{
  push, Confirm, refresh, refresh_known, is_bad, renew, replace_bad, cache, ping_dubious,
}
use dtndht.Routing.Learn.{set_nodes}
use dtndht.Routing.Invariant.{in_range, Apart, Distinct, IsPlaced, IsBucket}

abbrev ids : List Node → List Bytes
ids = map (λ (n : Node). n.id)

Apart-ids : (a : Bytes) (l k : List Node) → ids l ≡ ids k → Apart a l → Apart a k
Apart-ids a [] [] e h = tt
Apart-ids a [] (y ∷ k) e h = cc
Apart-ids a (x ∷ l) [] e h = cc
Apart-ids a (x ∷ l) (y ∷ k) e h =
    let p : x.id ≡ y.id = cc in (subst (λ z. same z a ≡ false) p h.0, Apart-ids a l k (cc) h.1)

Distinct-ids : (l k : List Node) → ids l ≡ ids k → Distinct l → Distinct k
Distinct-ids [] [] e h = tt
Distinct-ids [] (y ∷ k) e h = cc
Distinct-ids (x ∷ l) [] e h = cc
Distinct-ids (x ∷ l) (y ∷ k) e h =
    let p : x.id ≡ y.id = cc in
    (Apart-ids y.id l k (cc) (subst (λ z. Apart z l) p h.0), Distinct-ids l k (cc) h.1)

length-ids : (l k : List Node) → ids l ≡ ids k → length l ≡ length k
length-ids [] [] e = refl
length-ids [] (y ∷ k) e = cc
length-ids (x ∷ l) [] e = cc
length-ids (x ∷ l) (y ∷ k) e = ap suc (length-ids l k (cc))

-- No node is found with the identifier exactly if all nodes have another.
pub Apart-of_find_in : (id : Bytes) (l : List Node) → find_in id l ≡ none → Apart id l
unfolding find_in
Apart-of_find_in id [] h = tt
Apart-of_find_in id (n ∷ l) h = ground (arith, Apart-of_find_in id l)

module _ (af : Family) (b : Bucket) (end : Option Bytes) where
  -- New contents with the same identifiers.
  IsBucket-nodes :
      (nodes : List Node)
      → ids b.nodes ≡ ids nodes
      → All (IsPlaced af b.first end) nodes
      → IsBucket af b end
      → IsBucket af (set_nodes nodes b) end
  IsBucket-nodes nodes e p h = record {
    family = h.family;
    first_id = h.first_id;
    sorted = h.sorted;
    counted = h.counted ∙ length-ids b.nodes nodes e;
    capacity = h.capacity;
    placed = p;
    distinct = Distinct-ids b.nodes nodes e h.distinct;
  }

  pub IsBucket-time : (now : ℕ) → IsBucket af b end → IsBucket af (record b { time = now }) end
  IsBucket-time now h = record {
    family = h.family;
    first_id = h.first_id;
    sorted = h.sorted;
    counted = h.counted;
    capacity = h.capacity;
    placed = h.placed;
    distinct = h.distinct;
  }

  pub IsBucket-push :
      (n : Node)
      → b.count < 8
      → IsPlaced af b.first end n
      → Apart n.id b.nodes
      → IsBucket af b end
      → IsBucket af (push n b) end
  IsBucket-push n lt p a h = record {
    family = h.family;
    first_id = h.first_id;
    sorted = h.sorted;
    counted = omega (arith, h.counted);
    capacity = omega arith;
    placed = (p, h.placed);
    distinct = (a, h.distinct);
  }

All-swap {ℓ κ} :
    {A : Type ℓ} (P : A → Type κ) (front : List A) (x y : A) (back : List A)
    → P y
    → All P (front ++ x ∷ back)
    → All P (front ++ y ∷ back)
All-swap P [] x y back q h = (q, h.1)
All-swap P (z ∷ front) x y back q h = (h.0, All-swap P front x y back q h.1)

same_sym : (a b : Bytes) → same a b ≡ false → same b a ≡ false
same_sym a b h = elim (Bool-cases (same b a)) [
  | inl p ↦ absurd (ground (arith, same_iff a b, same_iff b a))
  | inr p ↦ p
]

Distinct-swap :
    (front : List Node) (x y : Node) (back : List Node)
    → Apart y.id (front ++ x ∷ back)
    → Distinct (front ++ x ∷ back)
    → Distinct (front ++ y ∷ back)
Distinct-swap [] x y back a h = (a.1, h.1)
Distinct-swap (z ∷ front) x y back a h = (
  All-swap (λ (m : Node). same m.id z.id ≡ false) front x y back (same_sym z.id y.id a.0) h.0,
  Distinct-swap front x y back a.1 h.1,
)

length-swap {ℓ} :
    {A : Type ℓ} (front : List A) (x y : A) (back : List A)
    → length (front ++ x ∷ back) ≡ length (front ++ y ∷ back)
length-swap [] x y back = refl
length-swap (z ∷ front) x y back = ap suc (length-swap front x y back)

module _ (now : ℕ) (id : Bytes) (sa : SockAddr) (salen : ℕ) (confirm : Confirm) where
  pub IsBucket-cache :
      (af : Family) (b : Bucket) (end : Option Bytes)
      → IsBucket af b end
      → IsBucket af (cache now id sa salen confirm b) end
  unfolding cache
  IsBucket-cache af b end h =
      if_both (λ c. IsBucket af c end) _ _ b
        (record {
          family = h.family;
          first_id = h.first_id;
          sorted = h.sorted;
          counted = h.counted;
          capacity = h.capacity;
          placed = h.placed;
          distinct = h.distinct;
        })
        h

  ids-refresh_known : (l : List Node) → ids l ≡ ids (refresh_known now id sa salen confirm l)
  unfolding refresh_known
  ids-refresh_known [] = refl
  ids-refresh_known (n ∷ l) = ground (arith, ids-refresh_known l)

  module _ (af : Family) (first : Bytes) (end : Option Bytes) (fam : sa.family ≡ af) where
    IsPlaced-refresh :
        (n : Node)
        → IsPlaced af first end n
        → IsPlaced af first end (refresh now id sa salen confirm n)
    unfolding refresh
    IsPlaced-refresh n h =
        if_both (IsPlaced af first end) _ _ n
          (record { is_id = h.is_id; in_af = fam; ranged = h.ranged }) h

    IsPlaced-refresh_known :
        (l : List Node)
        → All (IsPlaced af first end) l
        → All (IsPlaced af first end) (refresh_known now id sa salen confirm l)
    unfolding refresh_known
    IsPlaced-refresh_known [] h = tt
    IsPlaced-refresh_known (n ∷ l) h =
        if_both (All (IsPlaced af first end)) (same n.id id) _ _ (IsPlaced-refresh n h.0, h.1)
          (h.0, IsPlaced-refresh_known l h.1)

  pub IsBucket-refresh_known :
      (af : Family) (b : Bucket) (end : Option Bytes)
      → sa.family ≡ af
      → IsBucket af b end
      → IsBucket af (set_nodes (refresh_known now id sa salen confirm b.nodes) b) end
  IsBucket-refresh_known af b end fam h =
      IsBucket-nodes af b end _ (ids-refresh_known b.nodes)
        (IsPlaced-refresh_known af b.first end fam b.nodes h.placed) h

  -- Which node was replaced.
  pub replace_bad_at :
      (l k : List Node)
      → replace_bad now id sa salen confirm l ≡ some k
      → (front : List Node) × (n : Node) × (back : List Node) × (l ≡ front ++ n ∷ back)
        × (k ≡ front ++ renew now id sa salen confirm n ∷ back)
        × (is_bad now id sa salen confirm n ≡ true)
  unfolding replace_bad
  replace_bad_at [] k e = cc
  replace_bad_at (n ∷ l) k e = elim (Bool-cases (is_bad now id sa salen confirm n)) [
    | inl p ↦ ([], n, l, refl, ground arith, p)
    | inr p ↦ elim (Option-cases (replace_bad now id sa salen confirm l)) [
      | inl q ↦ absurd (ground arith)
      | inr (k', q) ↦
          let (front, m, back, a, b, c) = replace_bad_at l k' q in
          (n ∷ front, m, back, ap (◌∷◌ n) a, ground arith, c)
    ]
  ]

  IsPlaced-renew :
      (af : Family) (first : Bytes) (end : Option Bytes) (n : Node)
      → sa.family ≡ af
      → IsId id
      → in_range first end id ≡ true
      → IsPlaced af first end (renew now id sa salen confirm n)
  unfolding renew
  IsPlaced-renew af first end n fam v r = record { is_id = v; in_af = fam; ranged = r }

  id-renew : (n : Node) → (renew now id sa salen confirm n).id ≡ id
  unfolding renew
  id-renew n = refl

  pub IsBucket-replace_bad :
      (af : Family) (b : Bucket) (end : Option Bytes) (nodes : List Node)
      → sa.family ≡ af
      → IsId id
      → in_range b.first end id ≡ true
      → Apart id b.nodes
      → replace_bad now id sa salen confirm b.nodes ≡ some nodes
      → IsBucket af b end
      → IsBucket af (set_nodes nodes b) end
  IsBucket-replace_bad af b end nodes fam v r a e h =
      let (front, n, back, p, q, _) = replace_bad_at b.nodes nodes e in
      let m = renew now id sa salen confirm n in
      record {
        family = h.family;
        first_id = h.first_id;
        sorted = h.sorted;
        counted = h.counted ∙ ap length p ∙ length-swap front n m back ∙ ap length (sym q);
        capacity = h.capacity;
        placed = rw q (
            All-swap (IsPlaced af b.first end) front n m back
              (IsPlaced-renew af b.first end n fam v r)
              (subst (All (IsPlaced af b.first end)) p h.placed));
        distinct = rw q (
            Distinct-swap front n m back (rw (id-renew n) (subst (Apart id) p a))
              (subst Distinct p h.distinct));
      }

ids-ping_dubious : (now : ℕ) (l : List Node) → ids l ≡ ids (ping_dubious now l).0
unfolding ping_dubious
ids-ping_dubious now [] = refl
ids-ping_dubious now (n ∷ l) = ground (arith, ids-ping_dubious now l)

IsPlaced-ping_dubious :
    (now : ℕ) (af : Family) (first : Bytes) (end : Option Bytes) (l : List Node)
    → All (IsPlaced af first end) l
    → All (IsPlaced af first end) (ping_dubious now l).0
unfolding ping_dubious
IsPlaced-ping_dubious now af first end [] h = tt
IsPlaced-ping_dubious now af first end (n ∷ l) h =
    let rest = IsPlaced-ping_dubious now af first end l h.1 in
    elim (Bool-cases (node_good now n)) [
      | inl p ↦ rw (p, ping_dubious) (h.0, rest)
      | inr p ↦ elim (Bool-cases (ltb n.pinged_time (now - 15))) [
        | inl q ↦
            rw (p, q, ping_dubious)
              (record { is_id = h.0.is_id; in_af = h.0.in_af; ranged = h.0.ranged }, h.1)
        | inr q ↦ rw (p, q, ping_dubious) (h.0, rest)
      ]
    ]

pub IsBucket-ping_dubious :
    (now : ℕ) (af : Family) (b : Bucket) (end : Option Bytes)
    → IsBucket af b end
    → IsBucket af (set_nodes (ping_dubious now b.nodes).0 b) end
IsBucket-ping_dubious now af b end h =
    IsBucket-nodes af b end _ (ids-ping_dubious now b.nodes)
      (IsPlaced-ping_dubious now af b.first end b.nodes h.placed) h
