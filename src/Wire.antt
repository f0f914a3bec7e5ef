-- ===== src/Wire.antt =====
-- dtndht/dht.c: the messages that are sent, as bencoded text. A message is written piece by piece into
-- a buffer; what stands there is the list of the bytes written.
pub mod Send
pub mod Bounds
use dtndht.Base.{
  ℕ, zero, suc, ◌+◌, Bytes, Bool, true, false, List, [], ◌∷◌, ◌++◌, length, Option, none, some,
  if◌then◌else◌, ltb, leb, ◌==◌, ◌>>=◌,
}

-- What a `snprintf` with `INC`, or a `COPY`, adds.
pub data Piece : Type 0 where
  text raw : Bytes → Piece

-- A text that just fills the buffer loses its last byte to the NUL that `snprintf` ends with.
unfoldable pub end_with_nul : Bytes → Bytes
end_with_nul [] = []
end_with_nul (c ∷ []) = 0 ∷ []
end_with_nul (c ∷ d ∷ s) = c ∷ end_with_nul (d ∷ s)

-- `none` is the jump to `fail`.
unfoldable pub add : ℕ → Bytes → Piece → Option Bytes
unfolding end_with_nul
add size buf (Piece.text s) =
    let i = length buf + length s in
    if ltb size i then none else some (buf ++ (if i == size then end_with_nul s else s))
add size buf (Piece.raw s) = if ltb size (length buf + length s) then none else some (buf ++ s)

unfoldable pub add_all : ℕ → Bytes → List Piece → Option Bytes
unfolding add
add_all size buf [] = some buf
add_all size buf (p ∷ pieces) = add size buf p >>= λ buf'. add_all size buf' pieces

-- What stands in the buffer of a size after all pieces have been written.
abbrev pub write : ℕ → List Piece → Option Bytes
write size pieces = add_all size [] pieces
