-- ===== src/Parse/Eids.antt =====
-- dtndht/dht.c: `parse_dtn_eid_list`.
use dtndht.Base.{
  ℕ, zero, suc, ◌+◌, ◌-◌, Bytes, true, false, List, [], ◌∷◌, length, take, drop, Option, none, some,
  if◌then◌else◌, ltb, ◌==◌,
}
use dtndht.Parse.{at, number_before}

-- What the recursion gives, behind an EID of the given bytes: none, that is -1, if it fails.
abbrev pub add_eid : Bytes → ℕ → Option (ℕ × List Bytes) → Option (ℕ × List Bytes)
add_eid eid consumed none = none
add_eid eid consumed (some (n, eids)) = some (n + consumed, eid ∷ eids)

-- How many bytes were read and the EIDs. Each round reads a byte at least, so that as many rounds as
-- there are bytes are enough: no round is left only where the buffer ends, and there nothing is read.
unfoldable pub parse_eids : ℕ → Bytes → Option (ℕ × List Bytes)
parse_eids zero buf = some (0, [])
parse_eids (suc rounds) buf = if at buf == 101 then some (0, []) else elim (number_before 58 buf) [
  | none ↦ some (0, [])
  | some (l, s) ↦ elim (ltb (length s) l) [
    | true ↦ none
    | false ↦ add_eid (take l s) (length buf - length (drop l s)) (parse_eids rounds (drop l s))
  ]
]

unfoldable pub parse_dtn_eid_list : Bytes → Option (ℕ × List Bytes)
unfolding parse_eids
parse_dtn_eid_list buf = parse_eids (length buf) buf
