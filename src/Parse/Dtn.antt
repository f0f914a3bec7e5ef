-- ===== src/Parse/Dtn.antt =====
-- dtndht/dht.c: `parse_dtn_message`, the queries for and the answers with information on a node.
-- What `inet_ntop` writes for the sender's address is a parameter.
use dtndht.Base.{
  ℕ, zero, suc, ◌+◌, ◌-◌, Bytes, same, Bool, true, false, not, ◌||◌, List, [], ◌∷◌, length, take,
  drop, Option, none, some, if◌then◌else◌, ltb, leb, ◌==◌, memmem, codes, ◌>>=◌,
}
use dtndht.Parse.{Field, at, number_before, counted_field}
use dtndht.Parse.Eids.{parse_dtn_eid_list}
use dtndht.Wire.Send.{Layer}

-- `while (s[k] != c && k < limit) k++`
unfoldable pub index_until : ℕ → ℕ → Bytes → ℕ
index_until c zero s = 0
index_until c (suc limit) s =
    let k = suc (index_until c limit (drop 1 s)) in if at s == c then 0 else k

abbrev pub add_arg : Bytes × Bytes → Option (List (Bytes × Bytes)) → Option (List (Bytes × Bytes))
add_arg arg none = none
add_arg arg (some args) = some (arg ∷ args)

-- The arguments in the first `limit` bytes; each takes two of them at least, so that as many rounds are
-- enough, one more for the attempt on none at all.
unfoldable pub parse_args : ℕ → ℕ → Bytes → Option (List (Bytes × Bytes))
unfolding index_until
parse_args zero limit s = none
parse_args (suc rounds) limit s =
    let keylen = index_until 61 limit s in
    let s1 = drop (keylen + 1) s in
    let valuelen = index_until 59 (limit - (keylen + 1)) s1 in
    let arg : Bytes × Bytes = (take keylen s, take valuelen s1) in
    let result = keylen + valuelen + 2 in
    if not (at (drop keylen s) == 61)
    then none
    else if not (at (drop valuelen s1) == 59)
    then none
    else elim (ltb result limit) [
      | true ↦ add_arg arg (parse_args rounds (limit - result) (drop result s))
      | false ↦ some (arg ∷ [])
    ]

-- "tcp", "udp", or less of these.
abbrev pub has_ip : Bytes → Bool
has_ip name =
    same (take 3 name) (take (length name) (codes "tcp"))
    || same (take 3 name) (take (length name) (codes "udp"))

abbrev pub add_layer : ℕ → Layer → Option (ℕ × List Layer) → Option (ℕ × List Layer)
add_layer l layer none = none
add_layer l layer (some (n, layers)) = some (l + n, layer ∷ layers)

-- The layer in the first `l` bytes; `ip` is the sender's address as text.
unfoldable pub parse_layer : Bytes → ℕ → Bytes → Option Layer
unfolding parse_args index_until
parse_layer ip l s =
    if not (same (take 5 s) (codes "name="))
    then none
    else let s1 = drop 5 s in
      let namelen = index_until 59 (l - 6) s1 in
      let name = if at (drop namelen s1) == 59 then take namelen s1 else [] in
      let limit = l - namelen - 6 in
      elim (parse_args (limit + 1) limit (drop (namelen + 1) s1)) [
        | none ↦ none
        | some args ↦
            some (record {
              clname = name;
              args = if has_ip name then (codes "ip", ip) ∷ args else args;
            })
      ]

-- The returned number is the sum of the lengths `l`, without the digits and colons in front of them.
unfoldable pub parse_layers : ℕ → Bytes → Bytes → Option (ℕ × List Layer)
unfolding parse_layer
parse_layers zero ip buf = none
parse_layers (suc rounds) ip buf =
    if at buf == 101 then some (0, []) else elim (number_before 58 buf) [
      | none ↦ none
      | some (l, s) ↦ if ltb l 6 || ltb (length s) l then none else elim (parse_layer ip l s) [
        | none ↦ none
        | some layer ↦ add_layer l layer (parse_layers rounds ip (drop l s))
      ]
    ]

pub data DtnMessage : Type 0 where
  query : Bytes → Field → DtnMessage
  reply : List Layer → Bytes → List Bytes → List Bytes → Bytes → DtnMessage

-- "NN:bytes" at the front, of more than `over` bytes.
abbrev pub counted_front : ℕ → Bytes → Option (ℕ × Bytes)
counted_front over p = number_before 58 p >>= λ (l, s).
    if leb l over || ltb (length s) l then none else some (l, take l s)

abbrev pub behind : Bytes → Bytes → Option Bytes
behind label s = memmem label s >>= λ p. some (drop (length label) p)

-- `tid_len` is the room for the transaction identifier, of which one byte stays free, and `end` the byte
-- behind the buffer.
unfoldable pub parse_dtn_message : ℕ → Bytes → ℕ → Bytes → Option DtnMessage
unfolding parse_layers number_before parse_dtn_eid_list
parse_dtn_message tid_len ip end buf =
    if not (end == 0)
    then none
    else if same (take 10 buf) (codes "d1:ad3:eid")
    then (do
      (_, eid) ← counted_front 0 (drop 10 buf)
      elim (counted_field (codes "e1:q3:dtn1:t") tid_len buf) [
        | Field.overflow ↦ none
        | f ↦ some (DtnMessage.query eid f)
      ])
    else if same (take 10 buf) (codes "d1:rd2:cll")
    then (do
      (n, layers) ← parse_layers (length buf) ip (drop 10 buf)
      _ ← (if n == 0 then none else some n)
      p ← behind (codes "e3:eid") (drop (10 + n) buf)
      (l, eid) ← counted_front 5 p
      g ← behind (codes "2:grl") (drop l p)
      (ng, groups) ← parse_dtn_eid_list g
      b ← behind (codes "e2:nbl") (drop ng g)
      (nb, neighbours) ← parse_dtn_eid_list b
      t ← behind (codes "e1:t") (drop nb b)
      (lt, tid) ← counted_front 0 t
      if ltb lt tid_len then some (DtnMessage.reply layers eid groups neighbours tid) else none)
    else none
