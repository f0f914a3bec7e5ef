-- ===== src/Parse/Room.antt =====
-- What `parse_message` writes stays within the room behind its pointers.
use dtndht.Base.{
  ℕ, zero, suc, ◌+◌, ◌≤◌, ◌<◌, Bytes, Bool, ◌&&◌, [], ◌++◌, length, length-append, length-take,
  take, drop, replicate, Option, none, some, some_eq, ◌≡◌, refl, sym, ap, ◌∙◌, subst, arith,
  if◌then◌else◌, ltb, leb, ◌==◌, Bool-cases, Option-cases, inl, inr, memmem, codes, bind_some,
}
use dtndht.Parse.{Field, number_before, counted_field, id_field, field_or, fixed}
use dtndht.Parse.Message.{
  Message, Room, read_values, values_field, kind_of, parse_message, not_overflow,
}

abbrev pub Below : ℕ → Field → Type 0
Below room (Field.found s) = length s < room
Below room _ = Unit

counted_field-Below :
    (label : Bytes) (room : ℕ) (buf : Bytes) → 0 < room → Below room (counted_field label room buf)
unfolding counted_field
counted_field-Below label room buf h = by_place (memmem label buf)
  where
    by_number :
        (o : Option (ℕ × Bytes))
        → Below room (elim o [
          | none ↦ Field.found []
          | some (l, s) ↦
              if ltb l room
              then if ltb (length s) l then Field.overflow else Field.found (take l s)
              else Field.found []
        ])
    by_number none = h
    by_number (some (l, s)) = elim (Bool-cases (ltb l room)) [
      | inl p ↦ elim (Bool-cases (ltb (length s) l)) [
        | inl q ↦ rw (p, q) tt
        | inr q ↦ rw (p, q) (ground (arith, length-take l s))
      ]
      | inr p ↦ rw p h
    ]

    by_place :
        (o : Option Bytes)
        → Below room (elim o [
          | none ↦ Field.missing
          | some p ↦ elim (number_before 58 (drop (length label) p)) [
            | none ↦ Field.found []
            | some (l, s) ↦
                if ltb l room
                then if ltb (length s) l then Field.overflow else Field.found (take l s)
                else Field.found []
          ]
        ])
    by_place none = tt
    by_place (some p) = by_number (number_before 58 (drop (length label) p))

abbrev nothing : Bytes
nothing = []

field_below :
    (label : Bytes) (room : ℕ) (buf s : Bytes)
    → 0 < room
    → field_or [] (counted_field label room buf) ≡ some s
    → length s < room
field_below label room buf s h e =
    by_field (counted_field label room buf) (counted_field-Below label room buf h) e
  where
    by_field : (f : Field) → Below room f → field_or [] f ≡ some s → length s < room
    by_field Field.missing b k =
        let q : nothing ≡ s = ground arith in subst (λ x. length x < room) q h
    by_field Field.overflow b k = absurd (cc)
    by_field (Field.found t) b k = let q : t ≡ s = ground arith in subst (λ x. length x < room) q b

length-fixed : (n : ℕ) (t s : Bytes) → field_or (replicate n 0) (fixed n t) ≡ some s → length s ≡ n
length-fixed n t s k = elim (Bool-cases (ltb (length t) n)) [
  | inl h ↦ absurd (ground arith)
  | inr h ↦
      let q : take n t ≡ s = ground arith in let l = ap length q in ground (arith, length-take n t)
]

length-replicate : (n : ℕ) → length {A = ℕ} (replicate n 0) ≡ n
length-replicate zero = refl
length-replicate (suc n) = ap suc (length-replicate n)

id_length :
    (label buf s : Bytes) → field_or (replicate 20 0) (id_field label buf) ≡ some s → length s ≡ 20
unfolding id_field
id_length label buf s e = elim (Option-cases (memmem label buf)) [
  | inl k ↦
      let q : some (replicate 20 0) ≡ some s = sym (rw (k, id_field) refl) ∙ e in
      sym (ap (λ (o : Option Bytes). length (field_or' o)) q) ∙ length-replicate 20
  | inr (p, k) ↦ length-fixed 20 (drop (length label) p) s (sym (rw (k, id_field) refl) ∙ e)
]
  where
    field_or' : Option Bytes → Bytes
    field_or' none = []
    field_or' (some s) = s

add_value :
    (l room : ℕ) (want : Bool) (v s : Bytes)
    → length v ≤ room
    → length (if want && leb (length v + l) room then v ++ take l s else v) ≤ room
add_value l room want v s h = elim (Bool-cases (want && leb (length v + l) room)) [
  | inl k ↦ rw k (ground (arith, length-append v (take l s), length-take l s))
  | inr k ↦ rw k h
]

read_values_room :
    (rounds : ℕ) (room : Room) (buf v v6 w w6 : Bytes)
    → length v ≤ room.values_len
    → length v6 ≤ room.values6_len
    → read_values rounds room buf v v6 ≡ some (w, w6)
    → (length w ≤ room.values_len) × (length w6 ≤ room.values6_len)
unfolding read_values
read_values_room zero room buf v v6 w w6 h h6 e =
    let p : v ≡ w = ground arith in
    let q : v6 ≡ w6 = ground arith in
    (subst (λ x. length x ≤ room.values_len) p h, subst (λ x. length x ≤ room.values6_len) q h6)
read_values_room (suc rounds) room buf v v6 w w6 h h6 e =
    elim (Option-cases (number_before 58 buf)) [
      | inl k ↦
          let p : v ≡ w = ground arith in
          let q : v6 ≡ w6 = ground arith in
          (
            subst (λ x. length x ≤ room.values_len) p h,
            subst (λ x. length x ≤ room.values6_len) q h6,
          )
      | inr ((l, s), k) ↦ elim (Bool-cases (ltb (length s) l)) [
        | inl m ↦ absurd (ground arith)
        | inr m ↦
            read_values_room rounds room (drop l s) _ _ w w6
              (add_value l room.values_len (l == 6) v s h)
              (add_value l room.values6_len (l == 18) v6 s h6)
              (sym (rw (k, m, read_values) refl) ∙ e)
      ]
    ]

values_field-room :
    (room : Room) (buf w w6 : Bytes)
    → values_field room buf ≡ some (w, w6)
    → (length w ≤ room.values_len) × (length w6 ≤ room.values6_len)
unfolding values_field
values_field-room room buf w w6 e = elim (Option-cases (memmem (codes "6:valuesl") buf)) [
  | inl k ↦
      read_values_room 0 room buf [] [] w w6 (omega arith) (omega arith)
        (sym (rw (k, values_field) refl) ∙ e)
  | inr (p, k) ↦
      read_values_room (length buf) room (drop 9 p) [] [] w w6 (omega arith) (omega arith)
        (sym (rw (k, values_field) refl) ∙ e)
]

not_overflow-Below :
    (room : ℕ) (f g : Field) → Below room f → not_overflow f ≡ some g → Below room g
not_overflow-Below room Field.missing g b e = subst (Below room) (some_eq e) b
not_overflow-Below room Field.overflow g b e = absurd (cc)
not_overflow-Below room (Field.found s) g b e = subst (Below room) (some_eq e) b

-- Each part of a message fits behind its pointer.
pub record Fits (room : Room) (m : Message) : Type 0 where
  pub tid_below : Below room.tid_len m.tid
  pub id_20 : length m.id ≡ 20
  pub info_hash_20 : length m.info_hash ≡ 20
  pub target_20 : length m.target ≡ 20
  pub token_below : length m.token < room.token_len
  pub nodes_below : length m.nodes < room.nodes_len
  pub nodes6_below : length m.nodes6 < room.nodes6_len
  pub values_in : length m.values ≤ room.values_len
  pub values6_in : length m.values6 ≤ room.values6_len

-- Of a message that is read, each part fits behind its pointer: identifiers have 20 bytes, texts one
-- byte less than the room at most, and the values no more than theirs.
pub parse_message-Fits :
    (room : Room) (end : ℕ) (buf : Bytes) (m : Message)
    → 0 < room.tid_len
    → 0 < room.token_len
    → 0 < room.nodes_len
    → 0 < room.nodes6_len
    → parse_message room end buf ≡ some m
    → Fits room m
unfolding parse_message
parse_message-Fits room end buf m ht hk hn h6 e =
    let (_, _, e0) = bind_some (if end == 0 then some end else none) _ m e in
    let (tid, k1, e1) =
      bind_some (not_overflow (counted_field (codes "1:t") room.tid_len buf)) _ m e0 in
    let (id, k2, e2) =
      bind_some (field_or (replicate 20 0) (id_field (codes "2:id20:") buf)) _ m e1 in
    let (info_hash, k3, e3) =
      bind_some (field_or (replicate 20 0) (id_field (codes "9:info_hash20:") buf)) _ m e2 in
    let (target, k4, e4) =
      bind_some (field_or (replicate 20 0) (id_field (codes "6:target20:") buf)) _ m e3 in
    let (token, k5, e5) =
      bind_some (field_or [] (counted_field (codes "5:token") room.token_len buf)) _ m e4 in
    let (nodes, k6, e6) =
      bind_some (field_or [] (counted_field (codes "5:nodes") room.nodes_len buf)) _ m e5 in
    let (nodes6, k7, e7) =
      bind_some (field_or [] (counted_field (codes "6:nodes6") room.nodes6_len buf)) _ m e6 in
    let ((values, values6), k8, e8) = bind_some (values_field room buf) _ m e7 in
    let (kind, _, e9) = bind_some (kind_of buf) _ m e8 in
    let (v, v6) = values_field-room room buf values values6 k8 in
    subst (Fits room) (some_eq e9) (record {
      tid_below =
          not_overflow-Below room.tid_len _ tid
            (counted_field-Below (codes "1:t") room.tid_len buf ht) k1;
      id_20 = id_length (codes "2:id20:") buf id k2;
      info_hash_20 = id_length (codes "9:info_hash20:") buf info_hash k3;
      target_20 = id_length (codes "6:target20:") buf target k4;
      token_below = field_below (codes "5:token") room.token_len buf token hk k5;
      nodes_below = field_below (codes "5:nodes") room.nodes_len buf nodes hn k6;
      nodes6_below = field_below (codes "6:nodes6") room.nodes6_len buf nodes6 h6 k7;
      values_in = v;
      values6_in = v6;
    })
