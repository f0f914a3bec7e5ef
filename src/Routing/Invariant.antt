-- ===== src/Routing/Invariant.antt =====
-- The well-formedness of a routing table, and writes that keep it.
use dtndht.Base.{
  ℕ, zero, suc, ◌≤◌, Bytes, memcmp, same, Ordering, is_lt, Bool, true, false, ◌&&◌, List, [], ◌∷◌,
  ◌++◌, ◌≡◌, refl, ap, sym, subst, arith, some, none, length, drop, Option, get_elem?, All,
}
use dtndht.Net.{Family}
use dtndht.Ids.{IsId}
use dtndht.Routing.{Node, Bucket, Routing, zeroes, not_after, in_bucket}
use dtndht.Routing.Update.{modify_at, first_of}
use dtndht.Routing.Find.{Chain}

-- The range of a bucket: from `first` to the first identifier of the next bucket, if there is one.
abbrev pub in_range : Bytes → Option Bytes → Bytes → Bool
in_range first none id = not_after first id
in_range first (some end) id = not_after first id && is_lt (memcmp id end)

pub in_bucket-in_range :
    (id : Bytes) (b : Bucket) (next : List Bucket)
    → in_bucket id (b ∷ next) ≡ in_range b.first (first_of next) id
unfolding in_bucket
in_bucket-in_range id b [] = refl
in_bucket-in_range id b (c ∷ next) = refl

-- No node of the list has the identifier.
abbrev pub Apart : Bytes → List Node → Type 0
Apart id = All (λ m. same m.id id ≡ false)

abbrev pub Distinct : List Node → Type 0
Distinct [] = Unit
Distinct (n ∷ next) = Apart n.id next × Distinct next

abbrev pub Before : Bytes → Option Bytes → Type 0
Before first none = Unit
Before first (some end) = memcmp first end ≡ Ordering.lt

pub record IsPlaced (af : Family) (first : Bytes) (end : Option Bytes) (n : Node) : Type 0 where
  pub is_id : IsId n.id
  pub in_af : n.ss.family ≡ af
  pub ranged : in_range first end n.id ≡ true

pub record IsBucket (af : Family) (b : Bucket) (end : Option Bytes) : Type 0 where
  pub family : b.af ≡ af
  pub first_id : IsId b.first
  pub sorted : Before b.first end
  pub counted : b.count ≡ length b.nodes
  pub capacity : b.count ≤ 8
  pub placed : All (IsPlaced af b.first end) b.nodes
  pub distinct : Distinct b.nodes

abbrev pub IsTable : Family → List Bucket → Type 0
IsTable af [] = Unit
IsTable af (b ∷ next) = IsBucket af b (first_of next) × IsTable af next

-- The first bucket begins at the identifier of zeroes.
abbrev pub FromZero : List Bucket → Type 0
FromZero [] = Unit
FromZero (b ∷ next) = b.first ≡ zeroes

pub record IsRouting (r : Routing) : Type 0 where
  pub table4 : IsTable Family.inet r.buckets
  pub table6 : IsTable Family.inet6 r.buckets6
  pub zero4 : FromZero r.buckets
  pub zero6 : FromZero r.buckets6

pub IsTable-Chain : (af : Family) (bs : List Bucket) → IsTable af bs → Chain bs
IsTable-Chain af [] h = tt
IsTable-Chain af (b ∷ []) h = tt
IsTable-Chain af (b ∷ c ∷ next) h = (h.0.sorted, IsTable-Chain af (c ∷ next) h.1)

pub IsTable-tail : (af : Family) (before t : List Bucket) → IsTable af (before ++ t) → IsTable af t
IsTable-tail af [] t h = h
IsTable-tail af (x ∷ before) t h = IsTable-tail af before t h.1

first_of-append :
    (before : List Bucket) (b : Bucket) (next : List Bucket) (c : Bucket) (rest : List Bucket)
    → c.first ≡ b.first
    → first_of (before ++ b ∷ next) ≡ first_of (before ++ c ∷ rest)
first_of-append [] b next c rest e = ap some (sym e)
first_of-append (x ∷ before) b next c rest e = refl

-- A bucket and all behind it may be replaced by buckets that begin at the same identifier.
pub IsTable-replace :
    (af : Family) (before : List Bucket) (b : Bucket) (next : List Bucket) (c : Bucket)
    (rest : List Bucket)
    → c.first ≡ b.first
    → IsTable af (before ++ b ∷ next)
    → IsTable af (c ∷ rest)
    → IsTable af (before ++ c ∷ rest)
IsTable-replace af [] b next c rest e h k = k
IsTable-replace af (x ∷ before) b next c rest e h k = (
  subst (IsBucket af x) (first_of-append before b next c rest e) h.0,
  IsTable-replace af before b next c rest e h.1 k,
)

first_of-modify_at :
    (f : Bucket → Bucket) (i : ℕ) (bs : List Bucket) (b : Bucket)
    → get_elem? bs i ≡ some b
    → (f b).first ≡ b.first
    → first_of bs ≡ first_of (modify_at f i bs)
first_of-modify_at f i [] b g e = refl
first_of-modify_at f zero (x ∷ bs) b g e = let p : x ≡ b = ground arith in rw p (ap some (sym e))
first_of-modify_at f (suc i) (x ∷ bs) b g e = refl

-- A write to one bucket keeps the table well-formed, if it keeps that bucket so.
pub modify_at-IsTable :
    (af : Family) (f : Bucket → Bucket) (i : ℕ) (bs : List Bucket) (b : Bucket)
    → get_elem? bs i ≡ some b
    → (f b).first ≡ b.first
    → (IsBucket af b (first_of (drop (suc i) bs)) → IsBucket af (f b) (first_of (drop (suc i) bs)))
    → IsTable af bs
    → IsTable af (modify_at f i bs)
modify_at-IsTable af f i [] b g e keep h = tt
modify_at-IsTable af f zero (x ∷ bs) b g e keep h =
    let p : x ≡ b = ground arith in
    (
      subst (λ y. IsBucket af (f y) (first_of bs)) (sym p)
          (keep (subst (λ y. IsBucket af y (first_of bs)) p h.0)),
      h.1,
    )
modify_at-IsTable af f (suc i) (x ∷ bs) b g e keep h = (
  subst (IsBucket af x) (first_of-modify_at f i bs b g e) h.0,
  modify_at-IsTable af f i bs b g e keep h.1,
)
