-- ===== src/Parse/RoundTrip.antt =====
-- What is written is what is parsed: counted texts, lists of EIDs and the queries for a node.
use dtndht.Base.{
  ℕ, zero, suc, ◌+◌, ◌-◌, ◌≤◌, ◌<◌, Bytes, true, false, List, [], ◌∷◌, ◌++◌, append_assoc, All,
  length, length-append, take, drop, some, ◌≡◌, refl, ap, ◌∙◌, arith, ltb, ◌==◌, strtol-decimal,
  decimal, starts_digit, starts_digit-decimal, long_max, codes,
}
use dtndht.Parse.{at, checked, number_before}
use dtndht.Parse.Eids.{add_eid, parse_eids, parse_dtn_eid_list}
use dtndht.Wire.Bounds.{whole}
use dtndht.Wire.Send.{eid_pieces}

pub number_before-decimal :
    (n : ℕ) (rest : Bytes)
    → 0 < n
    → n ≤ long_max
    → number_before 58 (decimal n ++ 58 ∷ rest) ≡ some (n, rest)
unfolding number_before
number_before-decimal zero rest h l = absurd (omega arith)
number_before-decimal (suc n) rest h l = ap (checked 58) (strtol-decimal (suc n) 58 rest l refl)

pub at-starts_digit : (s : Bytes) → starts_digit s ≡ true → (at s == 101) ≡ false
at-starts_digit [] h = absurd (cc)
at-starts_digit (c ∷ s) h = ground arith

pub take_front : (s t : Bytes) → take (length s) (s ++ t) ≡ s
take_front [] t = refl
take_front (c ∷ s) t = ap (◌∷◌ c) (take_front s t)

pub drop_front : (s t : Bytes) → drop (length s) (s ++ t) ≡ t
drop_front [] t = refl
drop_front (c ∷ s) t = drop_front s t

-- A text whose length can be written in front of it and read back.
abbrev pub IsCounted : Bytes → Type 0
IsCounted s = (0 < length s) × (length s ≤ long_max)

parse_eids-counted :
    (rounds : ℕ) (s tail : Bytes)
    → IsCounted s
    → parse_eids (suc rounds) (decimal (length s) ++ 58 ∷ (s ++ tail))
      ≡ add_eid s (length (decimal (length s)) + 1 + length s) (parse_eids rounds tail)
unfolding parse_eids
parse_eids-counted rounds s tail (h, l) =
    let n = length-append s tail in
    let total = length-append (decimal (length s)) (58 ∷ (s ++ tail)) in
    let consumed : length (decimal (length s) ++ 58 ∷ (s ++ tail)) - length tail
        ≡ length (decimal (length s)) + 1 + length s =
      omega arith in
    let fits : ltb (length (s ++ tail)) (length s) ≡ false = ground arith in
    rw
      (
        at-starts_digit (decimal (length s) ++ 58 ∷ (s ++ tail))
            (starts_digit-decimal (length s) (58 ∷ (s ++ tail))),
        number_before-decimal (length s) (s ++ tail) h l,
        fits,
        take_front s tail,
        drop_front s tail,
        consumed,
        parse_eids,
      )
      refl

abbrev written : List Bytes → Bytes
written eids = whole (eid_pieces eids [])

written-cons :
    (s : Bytes) (eids : List Bytes) (rest : Bytes)
    → written (s ∷ eids) ++ rest ≡ decimal (length s) ++ 58 ∷ (s ++ (written eids ++ rest))
written-cons s eids rest =
    append_assoc (decimal (length s) ++ codes ":") (s ++ written eids) rest
    ∙ (append_assoc (decimal (length s)) (codes ":") ((s ++ written eids) ++ rest)
        ∙ ap (λ z. decimal (length s) ++ 58 ∷ z) (append_assoc s (written eids) rest))

parse_eids-written :
    (rounds : ℕ) (eids : List Bytes) (rest : Bytes)
    → length eids ≤ rounds
    → All IsCounted eids
    → parse_eids rounds (written eids ++ 101 ∷ rest) ≡ some (length (written eids), eids)
unfolding parse_eids
parse_eids-written zero [] rest h a = refl
parse_eids-written (suc rounds) [] rest h a = refl
parse_eids-written zero (s ∷ eids) rest h a = absurd (omega arith)
parse_eids-written (suc rounds) (s ∷ eids) rest h (e, a) =
    let l = length-append (decimal (length s) ++ codes ":") (s ++ written eids) in
    let l1 = length-append (decimal (length s)) (codes ":") in
    let l2 = length-append s (written eids) in
    let sum : length (written eids) + (length (decimal (length s)) + 1 + length s)
        ≡ length (written (s ∷ eids)) =
      omega arith in
    ap (parse_eids (suc rounds)) (written-cons s eids (101 ∷ rest))
    ∙ (parse_eids-counted rounds s (written eids ++ 101 ∷ rest) e
        ∙ (ap (add_eid s (length (decimal (length s)) + 1 + length s))
              (parse_eids-written rounds eids rest (omega arith) a)
            ∙ ap (λ k. some (k, s ∷ eids)) sum))

length-written : (eids : List Bytes) → All IsCounted eids → length eids ≤ length (written eids)
length-written [] a = omega arith
length-written (s ∷ eids) ((h, _), a) =
    let l = length-append (decimal (length s) ++ codes ":") (s ++ written eids) in
    let l2 = length-append s (written eids) in omega (arith, length-written eids a)

-- A list of EIDs that are not empty, as it is sent, is parsed in full and back to the same list, whatever
-- follows the end of the list.
pub parse_dtn_eid_list-whole :
    (eids : List Bytes) (rest : Bytes)
    → All IsCounted eids
    → parse_dtn_eid_list (whole (eid_pieces eids []) ++ (codes "e" ++ rest))
      ≡ some (length (whole (eid_pieces eids [])), eids)
unfolding parse_dtn_eid_list
parse_dtn_eid_list-whole eids rest a =
    let l = length-append (written eids) (101 ∷ rest) in
    parse_eids-written (length (written eids ++ 101 ∷ rest)) eids rest
      (omega (arith, length-written eids a)) a
