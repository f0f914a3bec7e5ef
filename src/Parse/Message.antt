-- ===== src/Parse/Message.antt =====
-- dtndht/dht.c: `parse_message`, the messages of the distributed hash table.
use dtndht.Base.{
  ℕ, zero, suc, ◌+◌, ◌-◌, Bytes, same, Bool, true, false, not, ◌&&◌, ◌||◌, [], ◌++◌, length, take,
  drop, replicate, Option, none, some, if◌then◌else◌, ltb, leb, ◌==◌, memmem, codes, ◌>>=◌,
}
use dtndht.Parse.{Field, at, number_before, counted_field, id_field, field_or}

pub data Kind : Type 0 where
  error reply ping find_node get_peers announce_peer : Kind

-- What `parse_message` writes through its pointers. The transaction identifier may be left unset.
pub record Message : Type 0 where
  pub kind : Kind
  pub tid : Field
  pub id : Bytes
  pub info_hash : Bytes
  pub target : Bytes
  pub port : ℕ
  pub token : Bytes
  pub nodes : Bytes
  pub nodes6 : Bytes
  pub values : Bytes
  pub values6 : Bytes
  pub want : Option ℕ

-- The room behind the pointers.
pub record Room : Type 0 where
  pub tid_len : ℕ
  pub token_len : ℕ
  pub nodes_len : ℕ
  pub nodes6_len : ℕ
  pub values_len : ℕ
  pub values6_len : ℕ

abbrev has : Bytes → Bytes → Bool
has label buf = elim (memmem label buf) [ none ↦ false | some _ ↦ true ]

unfoldable pub port_field : Bytes → ℕ
unfolding number_before
port_field buf = elim (memmem (codes "porti") buf) [
  | none ↦ 0
  | some p ↦ elim (number_before 101 (drop 5 p)) [
    | none ↦ 0
    | some (l, s) ↦ if ltb l 0x10000 then l else 0
  ]
]

-- The loop over the values: those of 6 bytes and those of 18, as far as there is room. Each round reads
-- a byte at least, so that as many rounds as there are bytes are enough.
unfoldable pub read_values : ℕ → Room → Bytes → Bytes → Bytes → Option (Bytes × Bytes)
read_values zero room buf v v6 = some (v, v6)
read_values (suc rounds) room buf v v6 = elim (number_before 58 buf) [
  | none ↦ some (v, v6)
  | some (l, s) ↦ elim (ltb (length s) l) [
    | true ↦ none
    | false ↦
        read_values rounds room (drop l s)
          (if l == 6 && leb (length v + l) room.values_len then v ++ take l s else v)
          (if l == 18 && leb (length v6 + l) room.values6_len then v6 ++ take l s else v6)
  ]
]

unfoldable pub values_field : Room → Bytes → Option (Bytes × Bytes)
unfolding read_values
values_field room buf = elim (memmem (codes "6:valuesl") buf) [
  | none ↦ some ([], [])
  | some p ↦ read_values (length buf) room (drop 9 p) [] []
]

-- WANT4 is 1 and WANT6 is 2, and `w4` and `w6` tell which of them are set. A flag of no such name is
-- passed.
unfoldable pub read_want : ℕ → Bytes → Bool → Bool → ℕ
read_want zero s w4 w6 = (if w4 then 1 else 0) + (if w6 then 2 else 0)
read_want (suc rounds) s w4 w6 =
    let n = at s - 48 in
    elim (ltb 48 (at s) && leb (at s) 57 && at (drop 1 s) == 58 && ltb (2 + n) (length s)) [
      | true ↦
          read_want rounds (drop (2 + n) s)
            (w4 || (n == 2 && same (take 2 (drop 2 s)) (codes "n4")))
            (w6 || (n == 2 && same (take 2 (drop 2 s)) (codes "n6")))
      | false ↦ (if w4 then 1 else 0) + (if w6 then 2 else 0)
    ]

unfoldable pub want_field : Bytes → Option ℕ
unfolding read_want
want_field buf =
    memmem (codes "4:wantl") buf >>= λ p. some (read_want (length buf) (drop 7 p) false false)

unfoldable pub kind_of : Bytes → Option Kind
unfolding memmem
kind_of buf =
    if has (codes "1:y1:r") buf
    then some Kind.reply
    else if has (codes "1:y1:e") buf
    then some Kind.error
    else if not (has (codes "1:y1:q") buf)
    then none
    else if has (codes "1:q4:ping") buf
    then some Kind.ping
    else if has (codes "1:q9:find_node") buf
    then some Kind.find_node
    else if has (codes "1:q9:get_peers") buf
    then some Kind.get_peers
    else if has (codes "1:q13:announce_peer") buf
    then some Kind.announce_peer
    else none

abbrev pub not_overflow : Field → Option Field
not_overflow Field.overflow = none
not_overflow f = some f

-- `end` is the byte behind the buffer.
unfoldable pub parse_message : Room → ℕ → Bytes → Option Message
unfolding counted_field id_field port_field values_field want_field kind_of
parse_message room end buf = do
  _ ← (if end == 0 then some end else none)
  tid ← not_overflow (counted_field (codes "1:t") room.tid_len buf)
  id ← field_or (replicate 20 0) (id_field (codes "2:id20:") buf)
  info_hash ← field_or (replicate 20 0) (id_field (codes "9:info_hash20:") buf)
  target ← field_or (replicate 20 0) (id_field (codes "6:target20:") buf)
  token ← field_or [] (counted_field (codes "5:token") room.token_len buf)
  nodes ← field_or [] (counted_field (codes "5:nodes") room.nodes_len buf)
  nodes6 ← field_or [] (counted_field (codes "6:nodes6") room.nodes6_len buf)
  (values, values6) ← values_field room buf
  kind ← kind_of buf
  some (record {
    kind = kind;
    tid = tid;
    id = id;
    info_hash = info_hash;
    target = target;
    port = port_field buf;
    token = token;
    nodes = nodes;
    nodes6 = nodes6;
    values = values;
    values6 = values6;
    want = want_field buf;
  })
