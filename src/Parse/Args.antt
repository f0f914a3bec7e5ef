-- ===== src/Parse/Args.antt =====
-- The arguments of a convergence layer, as they are sent and as they are parsed.
use dtndht.Base.{
  ℕ, zero, suc, ◌+◌, ◌-◌, ◌≤◌, ◌<◌, Bytes, true, false, List, [], ◌∷◌, ◌++◌, All, length, drop,
  drop-drop, some, ◌≡◌, refl, ap, ◌∙◌, arith, ltb, ◌==◌, Bool-cases, inl, inr,
}
use dtndht.Parse.Dtn.{index_until, add_arg, parse_args}
use dtndht.Parse.RoundTrip.{take_front, drop_front}
use dtndht.Wire.Send.{args_length}

-- A text without a byte.
abbrev pub Without : ℕ → Bytes → Type 0
Without c = All (λ x. (x == c) ≡ false)

pub index_until-Without :
    (c limit : ℕ) (s rest : Bytes)
    → Without c s
    → length s ≤ limit
    → index_until c limit (s ++ c ∷ rest) ≡ length s
unfolding index_until
index_until-Without c zero [] rest w h = refl
index_until-Without c zero (x ∷ s) rest w h = absurd (omega arith)
index_until-Without c (suc limit) [] rest w h = ground arith
index_until-Without c (suc limit) (x ∷ s) rest (d, w) h =
    rw (d, index_until) (ap suc (index_until-Without c limit s rest w (omega arith)))

-- An argument that can be told from what is written around it.
abbrev pub IsArg : Bytes × Bytes → Type 0
IsArg (key, value) = Without 61 key × Without 59 value

abbrev pub args_text : List (Bytes × Bytes) → Bytes → Bytes
args_text [] rest = rest
args_text ((key, value) ∷ args) rest = key ++ 61 ∷ (value ++ 59 ∷ args_text args rest)

drop-suc : (s : Bytes) (c : ℕ) (t : Bytes) → drop (suc (length s)) (s ++ c ∷ t) ≡ t
drop-suc [] c t = refl
drop-suc (x ∷ s) c t = drop-suc s c t

pub drop_behind : (s : Bytes) (c : ℕ) (t : Bytes) → drop (length s + 1) (s ++ c ∷ t) ≡ t
drop_behind s c t =
    let n : length s + 1 ≡ suc (length s) = omega arith in
    ap (λ n. drop n (s ++ c ∷ t)) n ∙ drop-suc s c t

parse_args-cons :
    (rounds limit : ℕ) (key value tail : Bytes)
    → IsArg (key, value)
    → length key + 1 + length value < limit
    → parse_args (suc rounds) limit (key ++ 61 ∷ (value ++ 59 ∷ tail))
      ≡ elim (ltb (length key + length value + 2) limit) [
        | true ↦
            add_arg (key, value) (parse_args rounds (limit - (length key + length value + 2)) tail)
        | false ↦ some ((key, value) ∷ [])
      ]
unfolding parse_args
parse_args-cons rounds limit key value tail (wk, wv) h =
    let k = index_until-Without 61 limit key (value ++ 59 ∷ tail) wk (omega arith) in
    let d = drop_behind key 61 (value ++ 59 ∷ tail) in
    let v = index_until-Without 59 (limit - (length key + 1)) value tail wv (omega arith) in
    let n : length key + length value + 2 ≡ length key + 1 + (length value + 1) = omega arith in
    let e : drop (length key + length value + 2) (key ++ 61 ∷ (value ++ 59 ∷ tail)) ≡ tail =
      ap (λ n. drop n (key ++ 61 ∷ (value ++ 59 ∷ tail))) n
      ∙ (drop-drop (length key + 1) (length value + 1) (key ++ 61 ∷ (value ++ 59 ∷ tail))
          ∙ (ap (drop (length value + 1)) d ∙ drop_behind value 59 tail)) in
    let f = drop_front key (61 ∷ (value ++ 59 ∷ tail)) in
    let g = drop_front value (59 ∷ tail) in
    let t = take_front key (61 ∷ (value ++ 59 ∷ tail)) in
    let u = take_front value (59 ∷ tail) in
    elim (Bool-cases (ltb (length key + length value + 2) limit)) [
      | inl m ↦ rw (k, d, v, f, g, m, k, d, v, t, u, e, parse_args) refl
      | inr m ↦ rw (k, d, v, f, g, m, k, d, v, t, u, parse_args) refl
    ]

parse_args-args_text :
    (rounds : ℕ) (arg : Bytes × Bytes) (args : List (Bytes × Bytes)) (rest : Bytes)
    → length args < rounds
    → All IsArg (arg ∷ args)
    → parse_args rounds (args_length (arg ∷ args)) (args_text (arg ∷ args) rest) ≡ some (arg ∷ args)
parse_args-args_text zero arg args rest h a = absurd (omega arith)
parse_args-args_text (suc rounds) (key, value) [] rest h (w, a) =
    let last : ltb (length key + length value + 2) (args_length ((key, value) ∷ [])) ≡ false =
      ground arith in
    parse_args-cons rounds (args_length ((key, value) ∷ [])) key value rest w (omega arith)
    ∙ rw last refl
parse_args-args_text (suc rounds) (key, value) (arg ∷ args) rest h (w, a) =
    let more : ltb (length key + length value + 2) (args_length ((key, value) ∷ arg ∷ args))
        ≡ true =
      ground arith in
    let left : args_length ((key, value) ∷ arg ∷ args) - (length key + length value + 2)
        ≡ args_length (arg ∷ args) =
      omega arith in
    parse_args-cons rounds (args_length ((key, value) ∷ arg ∷ args)) key value
      (args_text (arg ∷ args) rest) w (omega arith)
    ∙ rw (more, left)
        (ap (add_arg (key, value)) (parse_args-args_text rounds arg args rest (omega arith) a))

pub args_below : (args : List (Bytes × Bytes)) → length args ≤ args_length args
args_below [] = omega arith
args_below ((key, value) ∷ args) = omega (arith, args_below args)

pub parse_args-All :
    (args : List (Bytes × Bytes)) (rest : Bytes)
    → 0 < length args
    → All IsArg args
    → parse_args (args_length args + 1) (args_length args) (args_text args rest) ≡ some args
parse_args-All [] rest h a = absurd (omega arith)
parse_args-All (arg ∷ args) rest h a =
    parse_args-args_text (args_length (arg ∷ args) + 1) arg args rest
      (omega (arith, args_below (arg ∷ args))) a
