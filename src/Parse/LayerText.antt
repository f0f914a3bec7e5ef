-- ===== src/Parse/LayerText.antt =====
-- The text of the convergence layers, as they are sent.
use dtndht.Base.{
  ℕ, ◌+◌, ◌≤◌, Bytes, true, false, List, [], ◌∷◌, ◌++◌, append_assoc, length, length-append,
  drop-drop, drop, ◌≡◌, refl, sym, ap, ◌∙◌, subst, arith, ◌==◌, decimal, starts_digit,
  starts_digit-decimal, codes,
}
use dtndht.Parse.{at}
use dtndht.Parse.RoundTrip.{drop_front}
use dtndht.Wire.Bounds.{whole, whole-append}
use dtndht.Wire.Send.{Layer, arg_pieces, args_length, layer_pieces}
use dtndht.Parse.Args.{args_text, drop_behind}

pub args_text-whole :
    (args : List (Bytes × Bytes)) (rest : Bytes)
    → args_text args rest ≡ whole (arg_pieces args) ++ rest
args_text-whole [] rest = refl
args_text-whole ((key, value) ∷ args) rest =
    ap (λ z. key ++ 61 ∷ (value ++ 59 ∷ z)) (args_text-whole args rest)
    ∙ sym (
        append_assoc key (61 ∷ (value ++ 59 ∷ whole (arg_pieces args))) rest
        ∙ ap (λ z. key ++ 61 ∷ z) (append_assoc value (59 ∷ whole (arg_pieces args)) rest))

-- The sum of the lengths in front of the layers.
abbrev pub layers_length : List Layer → ℕ
layers_length [] = 0
layers_length (cl ∷ cls) = 6 + length cl.clname + args_length cl.args + layers_length cls

abbrev pub layer_text : Layer → Bytes → Bytes
layer_text cl rest =
    decimal (6 + length cl.clname + args_length cl.args)
    ++ 58 ∷ (codes "name=" ++ (cl.clname ++ 59 ∷ args_text cl.args rest))

pub layer_text-whole :
    (cl : Layer) (cls : List Layer) (rest : Bytes)
    → whole (layer_pieces (cl ∷ cls)) ++ rest ≡ layer_text cl (whole (layer_pieces cls) ++ rest)
layer_text-whole cl cls rest =
    let n = decimal (6 + length cl.clname + args_length cl.args) in
    let args = whole (arg_pieces cl.args) in
    let more = whole (layer_pieces cls) in
    let split : whole (arg_pieces cl.args ++ layer_pieces cls) ≡ args ++ more =
      whole-append (arg_pieces cl.args) (layer_pieces cls) in
    append_assoc (n ++ codes ":name=")
      (cl.clname ++ 59 ∷ whole (arg_pieces cl.args ++ layer_pieces cls)) rest
    ∙ (append_assoc n (codes ":name=") _
        ∙ ap (λ z. n ++ (codes ":name=" ++ z))
            (append_assoc cl.clname (59 ∷ whole (arg_pieces cl.args ++ layer_pieces cls)) rest
              ∙ ap (λ z. cl.clname ++ 59 ∷ z)
                  (ap (λ z. z ++ rest) split
                    ∙ (append_assoc args more rest
                        ∙ sym (args_text-whole cl.args (more ++ rest))))))

pub length-args_text :
    (args : List (Bytes × Bytes)) (rest : Bytes)
    → length (args_text args rest) ≡ args_length args + length rest
length-args_text [] rest = omega arith
length-args_text ((key, value) ∷ args) rest = omega (
  arith,
  length-append key (61 ∷ (value ++ 59 ∷ args_text args rest)),
  length-append value (59 ∷ args_text args rest),
  length-args_text args rest,
)

pub drop-args_text :
    (args : List (Bytes × Bytes)) (rest : Bytes)
    → drop (args_length args) (args_text args rest) ≡ rest
drop-args_text args rest =
    let l : length (whole (arg_pieces args)) ≡ args_length args = omega (
      arith,
      ap length (args_text-whole args rest),
      length-append (whole (arg_pieces args)) rest,
      length-args_text args rest,
    ) in
    ap (drop (args_length args)) (args_text-whole args rest)
    ∙ (ap (λ n. drop n (whole (arg_pieces args) ++ rest)) (sym l)
        ∙ drop_front (whole (arg_pieces args)) rest)

pub length-layer :
    (cl : Layer) (rest : Bytes)
    → length (codes "name=" ++ (cl.clname ++ 59 ∷ args_text cl.args rest))
      ≡ 6 + length cl.clname + args_length cl.args + length rest
length-layer cl rest =
    omega
      (arith, length-append cl.clname (59 ∷ args_text cl.args rest), length-args_text cl.args rest)

pub drop_layer :
    (cl : Layer) (rest : Bytes)
    → drop
        (6 + length cl.clname + args_length cl.args)
        (codes "name=" ++ (cl.clname ++ 59 ∷ args_text cl.args rest))
      ≡ rest
drop_layer cl rest =
    let n : 6 + length cl.clname + args_length cl.args
        ≡ 5 + (length cl.clname + 1 + args_length cl.args) =
      omega arith in
    let s = codes "name=" ++ (cl.clname ++ 59 ∷ args_text cl.args rest) in
    ap (λ n. drop n s) n
    ∙ (drop-drop 5 (length cl.clname + 1 + args_length cl.args) s
        ∙ (drop-drop (length cl.clname + 1) (args_length cl.args)
              (cl.clname ++ 59 ∷ args_text cl.args rest)
            ∙ (ap (drop (args_length cl.args)) (drop_behind cl.clname 59 (args_text cl.args rest))
                ∙ drop-args_text cl.args rest)))

pub layers_below : (cls : List Layer) → length cls ≤ length (whole (layer_pieces cls))
layers_below [] = omega arith
layers_below (cl ∷ cls) =
    let l =
      length-append (decimal (6 + length cl.clname + args_length cl.args) ++ codes ":name=")
        (cl.clname ++ 59 ∷ whole (arg_pieces cl.args ++ layer_pieces cls)) in
    let l1 =
      length-append (decimal (6 + length cl.clname + args_length cl.args)) (codes ":name=") in
    let l2 = length-append cl.clname (59 ∷ whole (arg_pieces cl.args ++ layer_pieces cls)) in
    let l3 = ap length (whole-append (arg_pieces cl.args) (layer_pieces cls)) in
    let l4 = length-append (whole (arg_pieces cl.args)) (whole (layer_pieces cls)) in
    omega (arith, layers_below cls)

pub at-layers :
    (cls : List Layer) (rest : Bytes) → (at (whole (layer_pieces cls) ++ 101 ∷ rest) == 61) ≡ false
at-layers [] rest = refl
at-layers (cl ∷ cls) rest =
    subst (λ s. (at s == 61) ≡ false) (sym (layer_text-whole cl cls (101 ∷ rest)))
      (by_digit (layer_text cl (whole (layer_pieces cls) ++ 101 ∷ rest)) (starts_digit-decimal _ _))
  where
    by_digit : (s : Bytes) → starts_digit s ≡ true → (at s == 61) ≡ false
    by_digit [] h = refl
    by_digit (c ∷ s) h = ground arith
