-- ===== src/Parse.antt =====
-- dtndht/dht.c: the parsers of messages. A pointer into the buffer is the list of the bytes from there to
-- its end, behind which a NUL stands; at the end of the list that NUL is read.
pub mod Message
pub mod Dtn
pub mod Eids
pub mod Room
pub mod RoundTrip
pub mod Query
pub mod Args
pub mod LayerText
pub mod Layers
use dtndht.Base.{
  ℕ, zero, suc, ◌+◌, ◌-◌, Bytes, same, Bool, true, false, not, ◌&&◌, List, [], ◌∷◌, length, take,
  drop, replicate, Option, none, some, if◌then◌else◌, ltb, leb, ◌==◌, ℤ, pos, negsuc, strtol,
  memmem, codes,
}

abbrev pub at : Bytes → ℕ
at [] = 0
at (c ∷ _) = c

-- What `l = strtol(p, &q, 10)` finds: `l` if `*q` is the mark and `l > 0`, and what follows the mark.
abbrev checked : ℕ → ℤ × Bytes → Option (ℕ × Bytes)
checked mark (pos (suc n), c ∷ s) = if c == mark then some (suc n, s) else none
checked mark _ = none

unfoldable pub number_before : ℕ → Bytes → Option (ℕ × Bytes)
number_before mark p = checked mark (strtol p)

-- What a field gives: nothing is written as its label is missing, the jump to `overflow`, or its bytes;
-- a field that is malformed or too long gives no bytes.
pub data Field : Type 0 where
  missing overflow : Field
  found : Bytes → Field

-- "label%d:" and fewer bytes than there is room for.
unfoldable pub counted_field : Bytes → ℕ → Bytes → Field
unfolding number_before
counted_field label room buf = elim (memmem label buf) [
  | none ↦ Field.missing
  | some p ↦ elim (number_before 58 (drop (length label) p)) [
    | none ↦ Field.found []
    | some (l, s) ↦
        if ltb l room
        then if ltb (length s) l then Field.overflow else Field.found (take l s)
        else Field.found []
  ]
]

-- The bytes of a fixed number, behind a label.
abbrev pub fixed : ℕ → Bytes → Field
fixed n s = if ltb (length s) n then Field.overflow else Field.found (take n s)

unfoldable pub id_field : Bytes → Bytes → Field
id_field label buf = elim (memmem label buf) [
  | none ↦ Field.missing
  | some p ↦ fixed 20 (drop (length label) p)
]

-- The bytes of a field, with others where it is missing; none on an overflow.
abbrev pub field_or : Bytes → Field → Option Bytes
field_or other Field.missing = some other
field_or other Field.overflow = none
field_or other (Field.found s) = some s
