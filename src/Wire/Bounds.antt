-- ===== src/Wire/Bounds.antt =====
-- What the writing of a message leaves in its buffer.
use dtndht.Base.{
  ℕ, suc, ◌+◌, ◌≤◌, ◌<◌, Bytes, Bool, true, false, List, [], ◌∷◌, ◌++◌, append_assoc, append-nil,
  length, length-append, none, some, ◌≡◌, refl, sym, ap, ◌∙◌, arith, if◌then◌else◌, ltb, ◌==◌,
  Bool-cases, Option-cases, inl, inr, ◌>>=◌,
}
use dtndht.Wire.{Piece, end_with_nul, add, add_all, write}

abbrev pub bytes_of : Piece → Bytes
bytes_of (Piece.text s) = s
bytes_of (Piece.raw s) = s

-- The bytes of a message, as it is meant.
abbrev pub whole : List Piece → Bytes
whole [] = []
whole (p ∷ pieces) = bytes_of p ++ whole pieces

pub whole-append : (ps qs : List Piece) → whole (ps ++ qs) ≡ whole ps ++ whole qs
whole-append [] qs = refl
whole-append (p ∷ ps) qs =
    ap (λ z. bytes_of p ++ z) (whole-append ps qs)
    ∙ sym (append_assoc (bytes_of p) (whole ps) (whole qs))

length-end_with_nul : (s : Bytes) → length (end_with_nul s) ≡ length s
unfolding end_with_nul
length-end_with_nul [] = refl
length-end_with_nul (c ∷ []) = refl
length-end_with_nul (c ∷ d ∷ s) = ap suc (length-end_with_nul (d ∷ s))

add_fits :
    (size : ℕ) (buf : Bytes) (p : Piece)
    → length buf + length (bytes_of p) < size
    → add size buf p ≡ some (buf ++ bytes_of p)
unfolding add
add_fits size buf (Piece.text s) h = ground arith
add_fits size buf (Piece.raw s) h = ground arith

-- A message that is shorter than the buffer is written in full.
add_all_fits :
    (size : ℕ) (buf : Bytes) (pieces : List Piece)
    → length buf + length (whole pieces) < size
    → add_all size buf pieces ≡ some (buf ++ whole pieces)
unfolding add_all
add_all_fits size buf [] h = ap some (sym (append-nil buf))
add_all_fits size buf (p ∷ pieces) h =
    let l = length-append (bytes_of p) (whole pieces) in
    rw (add_fits size buf p (omega arith), add_all)
      (add_all_fits size (buf ++ bytes_of p) pieces (omega (arith, length-append buf (bytes_of p)))
        ∙ ap some (append_assoc buf (bytes_of p) (whole pieces)))

-- A piece that is written is as long as it is meant to be, and it is not written if it is too long.
length-add :
    (size : ℕ) (buf : Bytes) (p : Piece) (out : Bytes)
    → add size buf p ≡ some out
    → (length out ≡ length buf + length (bytes_of p)) × (length out ≤ size)
unfolding add
length-add size buf (Piece.text s) out e = elim (Bool-cases (ltb size (length buf + length s))) [
  | inl h ↦ absurd (ground arith)
  | inr h ↦ elim (Bool-cases (length buf + length s == size)) [
    | inl k ↦
        let q : buf ++ end_with_nul s ≡ out = ground arith in
        let l = length-append buf (end_with_nul s) in
        let m = ap length q in ground (arith, length-end_with_nul s)
    | inr k ↦
        let q : buf ++ s ≡ out = ground arith in
        let l = length-append buf s in let m = ap length q in ground arith
  ]
]
length-add size buf (Piece.raw s) out e = elim (Bool-cases (ltb size (length buf + length s))) [
  | inl h ↦ absurd (ground arith)
  | inr h ↦
      let q : buf ++ s ≡ out = ground arith in
      let l = length-append buf s in let m = ap length q in ground arith
]

length-add_all :
    (size : ℕ) (buf : Bytes) (pieces : List Piece) (out : Bytes)
    → add_all size buf pieces ≡ some out
    → length buf ≤ size
    → (length out ≡ length buf + length (whole pieces)) × (length out ≤ size)
unfolding add_all
length-add_all size buf [] out e h =
    let q : buf ≡ out = ground arith in let m = ap length q in (omega arith, omega arith)
length-add_all size buf (p ∷ pieces) out e h = elim (Option-cases (add size buf p)) [
  | inl k ↦ absurd (ground arith)
  | inr (buf', k) ↦
      let (l, m) = length-add size buf p buf' k in
      let (n, o) = length-add_all size buf' pieces out (sym (rw (k, add_all) refl) ∙ e) m in
      let sum = length-append (bytes_of p) (whole pieces) in (omega arith, o)
]

-- A message is never longer than its buffer, and as long as it is meant to be.
pub write_bounds :
    (size : ℕ) (pieces : List Piece) (out : Bytes)
    → write size pieces ≡ some out
    → (length out ≡ length (whole pieces)) × (length out ≤ size)
write_bounds size pieces out e =
    let h = length-add_all size [] pieces out e (omega arith) in (omega (arith, h.0), h.1)

-- A message that is shorter than the buffer is written as it is meant.
pub write-whole :
    (size : ℕ) (pieces : List Piece)
    → length (whole pieces) < size
    → write size pieces ≡ some (whole pieces)
write-whole size pieces h = add_all_fits size [] pieces (omega arith)

add_all_append :
    (size : ℕ) (buf : Bytes) (ps qs : List Piece)
    → add_all size buf (ps ++ qs) ≡ (add_all size buf ps >>= λ b. add_all size b qs)
unfolding add_all
add_all_append size buf [] qs = refl
add_all_append size buf (p ∷ ps) qs = elim (Option-cases (add size buf p)) [
  | inl k ↦ rw (k, add_all) refl
  | inr (b, k) ↦ rw (k, add_all) (add_all_append size b ps qs)
]

end_with_nul-append : (s : Bytes) (c : ℕ) → end_with_nul (s ++ c ∷ []) ≡ s ++ 0 ∷ []
unfolding end_with_nul
end_with_nul-append [] c = refl
end_with_nul-append (x ∷ []) c = refl
end_with_nul-append (x ∷ y ∷ s) c = ap (◌∷◌ x) (end_with_nul-append (y ∷ s) c)

-- A message that ends with a text and just fills its buffer is not refused, and stands there with
-- a NUL in place of its last byte.
pub write_full :
    (size : ℕ) (pieces : List Piece) (s : Bytes) (c : ℕ)
    → length (whole pieces) + length s + 1 ≡ size
    → write size (pieces ++ Piece.text (s ++ c ∷ []) ∷ []) ≡ some (whole pieces ++ (s ++ 0 ∷ []))
unfolding add_all add
write_full size pieces s c h =
    let l = length-append s (c ∷ []) in
    add_all_append size [] pieces (Piece.text (s ++ c ∷ []) ∷ [])
    ∙ rw (write-whole size pieces (omega arith), add_all, add)
        (by_tests (ltb size (length (whole pieces) + length (s ++ c ∷ [])))
          (length (whole pieces) + length (s ++ c ∷ []) == size) (ground arith) (ground arith))
  where
    by_tests :
        (t u : Bool)
        → t ≡ false
        → u ≡ true
        → ((if t
              then none
              else some (whole pieces ++ (if u then end_with_nul (s ++ c ∷ []) else s ++ c ∷ [])))
            >>= λ b. some b)
          ≡ some (whole pieces ++ (s ++ 0 ∷ []))
    by_tests t u p q = rw (p, q) (ap (λ z. some (whole pieces ++ z)) (end_with_nul-append s c))
