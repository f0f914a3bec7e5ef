-- ===== src/Routing/Depth.antt =====
-- The depth of a bucket: how many first bits its identifiers share. A split adds one.
use dtndht.Base.{
  ℕ, suc, ◌+◌, ◌/◌, ◌%◌, ◌<◌, ◌≤◌, ◌≡◌, refl, ap, sym, ◌∙◌, subst, arith, Bytes, memcmp,
  memcmp_trans, same_iff, Ordering, true, false, List, [], ◌∷◌, Option, none, some, length, All,
  Bool-cases, Option-cases, inl, inr, is_lt, ltb, ◌==◌,
}
use dtndht.Net.{Family}
use dtndht.Ids.{IsId, lowbit, next_bit, split_bit, bucket_middle}
use dtndht.Ids.Middle.{
  IsBytes, Low, set_bit, middle_bit, split_bit_first, next_bit-Low, bucket_middle-above,
  bucket_middle_between,
}
use dtndht.Ids.Agree.{Agree, Agree-all, Agree-byte, Agree-Low, Agree-high, lowbit-set_bit}
use dtndht.Routing.{Node, Bucket}
use dtndht.Routing.Find.{not_lt_of_not_after, not_after_trans}
use dtndht.Routing.Invariant.{Before, in_range, IsPlaced, IsBucket, Distinct}

-- All identifiers in the range agree with `first` on as many bits as `split_bit` tells.
abbrev pub Aligned : Bytes → Option Bytes → Type 0
Aligned first end =
    (id : Bytes)
    → IsId id
    → in_range first end id ≡ true
    → Agree (split_bit first end / 8) (split_bit first end % 8) first id

abbrev pub IsEnd : Option Bytes → Type 0
IsEnd none = Unit
IsEnd (some e) = IsId e

Agree-next :
    (k : ℕ) (a b : Bytes)
    → IsBytes a
    → IsBytes b
    → length a ≡ length b
    → Agree (k / 8) (k % 8 + 1) a b
    → Agree ((k + 1) / 8) ((k + 1) % 8) a b
Agree-next k a b ha hb l g = elim (Bool-cases (k % 8 == 7)) [
  | inl e ↦
      let r : k % 8 + 1 ≡ 8 = ground arith in
      let p : (k + 1) / 8 ≡ suc (k / 8) = ground arith in
      let q : (k + 1) % 8 ≡ 0 = ground arith in
      rw (p, q) (Agree-byte (k / 8) a b ha hb l (subst (λ z. Agree (k / 8) z a b) r g))
  | inr e ↦
      let p : (k + 1) / 8 ≡ k / 8 = ground arith in
      let q : (k + 1) % 8 ≡ k % 8 + 1 = ground arith in rw (p, q) g
]

in_range_below :
    (first middle : Bytes) (end : Option Bytes) (id : Bytes)
    → Before middle end
    → in_range first (some middle) id ≡ true
    → (in_range first end id ≡ true) × (memcmp id middle ≡ Ordering.lt)
in_range_below first middle none id o h = ground arith
in_range_below first middle (some e) id o h = ground (arith, memcmp_trans id middle e)

in_range_above :
    (first middle : Bytes) (end : Option Bytes) (id : Bytes)
    → memcmp first middle ≡ Ordering.lt
    → in_range middle end id ≡ true
    → (in_range first end id ≡ true) × (is_lt (memcmp id middle) ≡ false)
in_range_above first middle none id o h =
    (not_after_trans first middle id o h, not_lt_of_not_after id middle h)
in_range_above first middle (some e) id o h =
    ground (arith, not_after_trans first middle id o, not_lt_of_not_after id middle)

split_bit_second :
    (first second : Bytes) (n : ℕ)
    → next_bit (lowbit second) ≡ n
    → next_bit (lowbit first) < n
    → split_bit first (some second) ≡ n
unfolding split_bit
split_bit_second first second n e h = ground arith

split_bit_own :
    (first : Bytes) (end : Option Bytes) (other : Bytes) (n : ℕ)
    → next_bit (lowbit first) ≡ n
    → split_bit other end < n
    → split_bit first end ≡ n
unfolding split_bit
split_bit_own first none other n e h = ground arith
split_bit_own first (some second) other n e h = ground arith

module _ (first middle : Bytes) (end : Option Bytes) (v : IsId first) (w : IsEnd end)
    (m : bucket_middle first end ≡ some middle) (o : Before middle end)
    (al : Aligned first end) where
  abbrev bit : ℕ
  bit = split_bit first end

  is_set : (bit < 160) × (middle ≡ set_bit first (bit / 8) (bit % 8))
  is_set = middle_bit first end m

  Low-bits : Low (bit / 8) (bit % 8) first
  Low-bits = next_bit-Low first v (split_bit first end) (split_bit_first first end)

  lowbit_middle : lowbit middle ≡ some bit
  lowbit_middle =
      ap lowbit is_set.1
      ∙ lowbit-set_bit (bit / 8) (bit % 8) first v (omega (arith, is_set)) (omega arith) Low-bits
      ∙ ap some (omega arith)

  next_bit_middle : next_bit (lowbit middle) ≡ bit + 1
  next_bit_middle = rw lowbit_middle (unfold next_bit in refl)

  pub depth_low : split_bit first (some middle) ≡ split_bit first end + 1
  depth_low =
      split_bit_second first middle (bit + 1) next_bit_middle
        (omega (arith, split_bit_first first end))

  pub depth_high : split_bit middle end ≡ split_bit first end + 1
  depth_high = split_bit_own middle end first (bit + 1) next_bit_middle (omega arith)

  above : IsId middle × (memcmp first middle ≡ Ordering.lt)
  above = bucket_middle-above first end v m

  pub Aligned-low : Aligned first (some middle)
  Aligned-low id i h =
      let (inside, c) = in_range_below first middle end id o h in
      rw depth_low (
        Agree-next bit first id v.bytes i.bytes (v.len ∙ sym i.len) (
          Agree-Low (bit / 8) (bit % 8) first id v.bytes i.bytes (v.len ∙ sym i.len)
            (omega (arith, is_set, v.len)) (omega arith) Low-bits (al id i inside)
            (subst (λ z. memcmp id z ≡ Ordering.lt) is_set.1 c)))

  pub Aligned-high : Aligned middle end
  Aligned-high id i h =
      let (inside, c) = in_range_above first middle end id above.1 h in
      rw depth_high (
        Agree-next bit middle id above.0.bytes i.bytes (above.0.len ∙ sym i.len) (
          subst (λ z. Agree (bit / 8) (bit % 8 + 1) z id) (sym is_set.1)
            (Agree-high (bit / 8) (bit % 8) first id v.bytes i.bytes (v.len ∙ sym i.len)
              (omega (arith, is_set, v.len)) (omega arith) Low-bits (al id i inside)
              (subst (λ z. is_lt (memcmp id z) ≡ false) is_set.1 c))))

-- A bucket that cannot be split holds one node at most.
full_splits :
    (af : Family) (b : Bucket) (end : Option Bytes)
    → IsBucket af b end
    → Aligned b.first end
    → 8 ≤ b.count
    → split_bit b.first end < 160
full_splits af b end h al full = by_nodes b.nodes h.placed h.distinct (omega (arith, h.counted))
  where
    agree : (n : Node) → IsPlaced af b.first end n → 160 ≤ split_bit b.first end → b.first ≡ n.id
    agree n p deep =
        Agree-all _ _ b.first n.id (omega (arith, h.first_id.len))
          (h.first_id.len ∙ sym p.is_id.len) (al n.id p.is_id p.ranged)

    by_nodes :
        (l : List Node)
        → All (IsPlaced af b.first end) l
        → Distinct l
        → 8 ≤ length l
        → split_bit b.first end < 160
    by_nodes [] p d len = absurd (omega arith)
    by_nodes (n ∷ []) p d len = absurd (omega arith)
    by_nodes (n ∷ m ∷ l) p d len = elim (Bool-cases (ltb (split_bit b.first end) 160)) [
      | inl lt ↦ ground arith
      | inr ge ↦
          let e : m.id ≡ n.id = sym (agree m p.1.0 (ground arith)) ∙ agree n p.0 (ground arith) in
          absurd (ground (arith, (same_iff m.id n.id).1 e, d.0.0))
    ]

middle_below :
    (first : Bytes) (end : Option Bytes) (m : Bytes)
    → IsId first
    → IsEnd end
    → Before first end
    → bucket_middle first end ≡ some m
    → Before m end
middle_below first none m v w o h = tt
middle_below first (some e) m v w o h = (bucket_middle_between first e m v w o h).1

middle_exists :
    (first : Bytes) (end : Option Bytes)
    → split_bit first end < 160
    → (m : Bytes) × (bucket_middle first end ≡ some m)
unfolding bucket_middle
middle_exists first end h = elim (Option-cases (bucket_middle first end)) [
  | inl e ↦ absurd (ground arith)
  | inr (m, e) ↦ (m, e)
]

-- A full bucket can always be split: if all identifiers in its range agree with its first one on
-- as many bits as its depth is, and it has eight nodes or more, then it has a middle, and both halves are
-- of the same kind and one bit deeper.
pub full_bucket_splits :
    (af : Family) (b : Bucket) (end : Option Bytes)
    → IsBucket af b end
    → IsEnd end
    → Aligned b.first end
    → 8 ≤ b.count
    → (m : Bytes) × (bucket_middle b.first end ≡ some m)
      × Aligned b.first (some m)
      × Aligned m end
      × (split_bit b.first (some m) ≡ split_bit b.first end + 1)
      × (split_bit m end ≡ split_bit b.first end + 1)
full_bucket_splits af b end h w al full =
    let (m, e) = middle_exists b.first end (full_splits af b end h al full) in
    let o = middle_below b.first end m h.first_id w h.sorted e in
    (
      m,
      e,
      Aligned-low b.first m end h.first_id w e o al,
      Aligned-high b.first m end h.first_id w e o al,
      depth_low b.first m end h.first_id w e o al,
      depth_high b.first m end h.first_id w e o al,
    )
