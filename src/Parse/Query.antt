-- ===== src/Parse/Query.antt =====
-- A query for a node is parsed back to what it was made of.
use dtndht.Base.{
  ℕ, zero, suc, ◌+◌, ◌≤◌, ◌<◌, Bytes, same, same_self, same_ne, memcmp, digits_from-append, Bool,
  true, false, [], ◌∷◌, ◌++◌, append_assoc, length, length-append, take, some, some_eq, ◌≡◌, refl,
  sym, ap, ◌∙◌, subst, arith, ltb, leb, ◌==◌, decimal, length-decimal, bind_some, is_digit, codes,
  memmem, digits_from, ◌/◌, ◌%◌, Bool-cases, Option-cases, inl, inr,
}
use dtndht.Parse.{Field, at, counted_field}
use dtndht.Parse.Dtn.{DtnMessage, counted_front, parse_dtn_message}
use dtndht.Parse.RoundTrip.{IsCounted, take_front, drop_front, number_before-decimal}
use dtndht.Wire.{Piece, write}
use dtndht.Wire.Bounds.{whole, write-whole}
use dtndht.Wire.Send.{Local, Packet, add_v, get_dtninfo_pieces, dht_send, send_get_dtninfo}
use dtndht.Net.{SockAddr}

take_longer : (k : ℕ) (s t : Bytes) → k ≤ length s → take k (s ++ t) ≡ take k s
take_longer zero s t h = refl
take_longer (suc k) [] t h = absurd (omega arith)
take_longer (suc k) (c ∷ s) t h = ap (◌∷◌ c) (take_longer k s t (omega arith))

-- The first place of a needle stays where it is as the text behind it grows.
memmem_longer :
    (needle s rest : Bytes)
    → 0 < length needle
    → memmem needle (s ++ needle) ≡ some needle
    → memmem needle (s ++ (needle ++ rest)) ≡ some (needle ++ rest)
unfolding memmem
memmem_longer [] s rest h e = absurd (omega arith)
memmem_longer (n ∷ needle) [] rest h e =
    rw (take_front (n ∷ needle) rest, same_self (n ∷ needle)) refl
memmem_longer (n ∷ needle) (c ∷ s) rest h e =
    let longer =
      take_longer (length (n ∷ needle)) (c ∷ (s ++ n ∷ needle)) rest
        (omega (arith, length-append s (n ∷ needle))) in
    let front : take (length (n ∷ needle)) (c ∷ (s ++ (n ∷ needle ++ rest)))
        ≡ take (length (n ∷ needle)) (c ∷ (s ++ n ∷ needle)) =
      ap (λ z. take (length (n ∷ needle)) (c ∷ z)) (sym (append_assoc s (n ∷ needle) rest))
      ∙ longer in
    elim (Bool-cases (same (take (length (n ∷ needle)) (c ∷ (s ++ n ∷ needle))) (n ∷ needle))) [
      | inl k ↦
          let q : c ∷ (s ++ n ∷ needle) ≡ n ∷ needle = some_eq (sym (rw (k, memmem) refl) ∙ e) in
          let l = ap length q in absurd (omega (arith, length-append s (n ∷ needle)))
      | inr k ↦
          rw (front, k, memmem)
            (memmem_longer (n ∷ needle) s rest h (sym (rw (k, memmem) refl) ∙ e))
    ]

abbrev label : Bytes
label = codes "e1:q3:dtn1:t"

memmem-digit : (c : ℕ) (s : Bytes) → is_digit c ≡ true → memmem label (c ∷ s) ≡ memmem label s
unfolding memmem
memmem-digit c s h =
    let other : same (take 12 (c ∷ s)) label ≡ false =
      same_ne (take 12 (c ∷ s)) label (λ e. let k : c ≡ 101 = ap (at) e in ground arith) in
    rw other refl

memmem-digits_from :
    (rounds n : ℕ) (s : Bytes) → memmem label (digits_from rounds n s) ≡ memmem label s
unfolding digits_from
memmem-digits_from zero n s = refl
memmem-digits_from (suc rounds) n s = elim (Bool-cases (n == 0)) [
  | inl e ↦ rw (e, digits_from) refl
  | inr e ↦
      rw (e, digits_from)
        (memmem-digits_from rounds (n / 10) ((48 + n % 10) ∷ s)
          ∙ memmem-digit (48 + n % 10) s (ground arith))
]

memmem-decimal : (n : ℕ) (s : Bytes) → memmem label (decimal n ++ s) ≡ memmem label s
unfolding decimal
memmem-decimal n s = elim (Bool-cases (n == 0)) [
  | inl e ↦ rw (e, decimal) (memmem-digit 48 s refl)
  | inr e ↦ rw (e, decimal, digits_from-append n n [] s) (memmem-digits_from n n s)
]

memmem-query_front : (s : Bytes) → memmem label (codes "d1:ad3:eid" ++ s) ≡ memmem label s
unfolding memmem same memcmp
memmem-query_front s = refl

memmem-colon : (s : Bytes) → memmem label (58 ∷ s) ≡ memmem label s
unfolding memmem same memcmp
memmem-colon s = refl

labelled_front : (l d r : Bytes) → (l ++ (d ++ codes ":")) ++ r ≡ l ++ (d ++ 58 ∷ r)
labelled_front l d r =
    append_assoc l (d ++ codes ":") r ∙ ap (λ z. l ++ z) (append_assoc d (codes ":") r)

counted_front-decimal :
    (s t : Bytes)
    → IsCounted s
    → counted_front 0 (decimal (length s) ++ 58 ∷ (s ++ t)) ≡ some (length s, s)
counted_front-decimal s t (h, l) =
    let n = length-append s t in
    let more : leb (length s) 0 ≡ false = ground arith in
    let fits : ltb (length (s ++ t)) (length s) ≡ false = ground arith in
    rw (number_before-decimal (length s) (s ++ t) h l, more, fits, take_front s t) refl

-- "label%d:" and the bytes, wherever the label stands first in the buffer.
counted_field-decimal :
    (name buf s t : Bytes) (room : ℕ)
    → memmem name buf ≡ some (name ++ (decimal (length s) ++ 58 ∷ (s ++ t)))
    → IsCounted s
    → length s < room
    → counted_field name room buf ≡ Field.found s
unfolding counted_field
counted_field-decimal name buf s t room k (h, l) r =
    let n = length-append s t in
    let roomy : ltb (length s) room ≡ true = ground arith in
    let fits : ltb (length (s ++ t)) (length s) ≡ false = ground arith in
    rw
      (
        k,
        drop_front name (decimal (length s) ++ 58 ∷ (s ++ t)),
        number_before-decimal (length s) (s ++ t) h l,
        roomy,
        fits,
        take_front s t,
        counted_field,
      )
      refl

module _ (tid eid : Bytes) (behind_tid : Bytes) where
  abbrev tid_text : Bytes
  tid_text = decimal (length tid) ++ 58 ∷ (tid ++ behind_tid)

  abbrev query_text : Bytes
  query_text = codes "d1:ad3:eid" ++ (decimal (length eid) ++ 58 ∷ (eid ++ (label ++ tid_text)))

  label_place :
      memmem label (eid ++ label) ≡ some label → memmem label query_text ≡ some (label ++ tid_text)
  label_place k =
      memmem-query_front (decimal (length eid) ++ 58 ∷ (eid ++ (label ++ tid_text)))
      ∙ (memmem-decimal (length eid) (58 ∷ (eid ++ (label ++ tid_text)))
          ∙ (memmem-colon (eid ++ (label ++ tid_text))
              ∙ memmem_longer label eid tid_text (omega arith) k))

  parse_query_text :
      (tid_len : ℕ) (ip : Bytes)
      → IsCounted eid
      → IsCounted tid
      → length tid < tid_len
      → memmem label (eid ++ label) ≡ some label
      → parse_dtn_message tid_len ip 0 query_text ≡ some (DtnMessage.query eid (Field.found tid))
  unfolding parse_dtn_message same memcmp
  parse_query_text tid_len ip h ht r k =
      let f = counted_field-decimal label query_text tid behind_tid tid_len (label_place k) ht r in
      rw (counted_front-decimal eid (label ++ tid_text) h, f, parse_dtn_message) refl

abbrev behind_query : Local → Bytes
behind_query me = whole (add_v me ++ Piece.text (codes "1:y1:qe") ∷ [])

get_dtninfo-query_text :
    (me : Local) (tid eid : Bytes)
    → whole (get_dtninfo_pieces me tid eid) ≡ query_text tid eid (behind_query me)
unfolding get_dtninfo_pieces
get_dtninfo-query_text me tid eid =
    labelled_front (codes "d1:ad3:eid") (decimal (length eid)) _
    ∙ ap (λ z. codes "d1:ad3:eid" ++ (decimal (length eid) ++ 58 ∷ (eid ++ z)))
        (labelled_front label (decimal (length tid)) (tid ++ behind_query me))

length-behind_query : (me : Local) → length (behind_query me) ≡ length (whole (add_v me)) + 7
length-behind_query me = elim (Option-cases me.my_v) [
  | inl k ↦ rw k refl
  | inr (v, k) ↦ rw k (omega (arith, length-append v (codes "1:y1:qe"), length-append v []))
]

length-query_text :
    (me : Local) (tid eid : Bytes)
    → length eid + length tid + length (whole (add_v me)) < 1000
    → length (query_text tid eid (behind_query me)) < 1076
length-query_text me tid eid h = omega (
  arith,
  length-behind_query me,
  length-decimal (length eid) 2 (omega arith),
  length-decimal (length tid) 2 (omega arith),
  length-append (codes "d1:ad3:eid")
      (decimal (length eid) ++ 58 ∷ (eid ++ (label ++ tid_text tid eid (behind_query me)))),
  length-append (decimal (length eid))
      (58 ∷ (eid ++ (label ++ tid_text tid eid (behind_query me)))),
  length-append eid (label ++ tid_text tid eid (behind_query me)),
  length-append label (tid_text tid eid (behind_query me)),
  length-append (decimal (length tid)) (58 ∷ (tid ++ behind_query me)),
  length-append tid (behind_query me),
)

dht_send-content :
    (me : Local) (blocked : SockAddr → Bool) (sa : SockAddr) (salen : ℕ) (confirm : Bool)
    (buf : Bytes) (p : Packet)
    → dht_send me blocked sa salen confirm buf ≡ some p
    → p.content ≡ buf
unfolding dht_send
dht_send-content me blocked sa salen confirm buf p e = ground arith

-- A query for a node that is sent is parsed by its receiver, back to the EID and the transaction
-- identifier it was made of, if both are not empty, with the version shorter than 1000 bytes in all, if
-- there is room for the identifier, and if the EID does not hold the label behind it.
pub parse_dtn_message-send_get_dtninfo :
    (me : Local) (blocked : SockAddr → Bool) (sa : SockAddr) (salen : ℕ) (tid eid : Bytes)
    (p : Packet) (tid_len : ℕ) (ip : Bytes)
    → send_get_dtninfo me blocked sa salen tid eid ≡ some p
    → 0 < length eid
    → 0 < length tid
    → length eid + length tid + length (whole (add_v me)) < 1000
    → length tid < tid_len
    → memmem (codes "e1:q3:dtn1:t") (eid ++ codes "e1:q3:dtn1:t") ≡ some (codes "e1:q3:dtn1:t")
    → parse_dtn_message tid_len ip 0 p.content ≡ some (DtnMessage.query eid (Field.found tid))
unfolding send_get_dtninfo
parse_dtn_message-send_get_dtninfo me blocked sa salen tid eid p tid_len ip e h ht short r k =
    let text = get_dtninfo-query_text me tid eid in
    let (out, w, s) = bind_some (write 1076 (get_dtninfo_pieces me tid eid)) _ p e in
    let fits = subst (λ z. length z < 1076) (sym text) (length-query_text me tid eid short) in
    let q : p.content ≡ query_text tid eid (behind_query me) =
      dht_send-content me blocked sa salen false out p s
      ∙ (some_eq (sym w ∙ write-whole 1076 (get_dtninfo_pieces me tid eid) fits) ∙ text) in
    ap (parse_dtn_message tid_len ip 0) q
    ∙ parse_query_text tid eid (behind_query me) tid_len ip (h, omega arith) (ht, omega arith) r k
