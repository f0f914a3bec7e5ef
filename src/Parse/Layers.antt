-- ===== src/Parse/Layers.antt =====
-- The convergence layers of a node, as they are sent and as they are parsed.
use dtndht.Base.{
  map, ℕ, zero, suc, ◌+◌, ◌-◌, ◌≤◌, ◌<◌, Bytes, same, memcmp, false, ◌||◌, List, [], ◌∷◌, ◌++◌, All,
  length, length-append, none, some, ◌≡◌, refl, ap, ◌∙◌, arith, if◌then◌else◌, ltb, ◌==◌,
  starts_digit-decimal, long_max, codes,
}
use dtndht.Parse.{at}
use dtndht.Parse.Dtn.{index_until, parse_args, has_ip, add_layer, parse_layer, parse_layers}
use dtndht.Parse.RoundTrip.{take_front, drop_front, at-starts_digit, number_before-decimal}
use dtndht.Wire.Bounds.{whole}
use dtndht.Wire.Send.{Layer, args_length, layer_pieces}
use dtndht.Parse.Args.{Without, index_until-Without, IsArg, args_text, drop_behind, parse_args-All}
use dtndht.Parse.LayerText.{
  layers_length, layer_text, layer_text-whole, length-layer, drop_layer, layers_below, at-layers,
}

-- A layer that is read back: its name and its arguments can be told apart, and it has an argument.
pub record IsLayer (cl : Layer) : Type 0 where
  pub name_without : Without 59 cl.clname
  pub args_apart : All IsArg cl.args
  pub has_args : 0 < length cl.args
  pub in_long : 6 + length cl.clname + args_length cl.args ≤ long_max

-- A layer as its receiver knows it, with the sender's address if that is called for.
abbrev pub with_ip : Bytes → Layer → Layer
with_ip ip cl = record {
  clname = cl.clname;
  args = if has_ip cl.clname then (codes "ip", ip) ∷ cl.args else cl.args;
}

parse_layer-args_text :
    (ip : Bytes) (cl : Layer) (rest : Bytes)
    → IsLayer cl
    → parse_layer ip
        (6 + length cl.clname + args_length cl.args)
        (codes "name=" ++ (cl.clname ++ 59 ∷ args_text cl.args rest))
      ≡ some (with_ip ip cl)
unfolding parse_layer same memcmp
parse_layer-args_text ip cl rest w =
    let n : 6 + length cl.clname + args_length cl.args - 6
        ≡ length cl.clname + args_length cl.args =
      omega arith in
    let k =
      index_until-Without 59 (length cl.clname + args_length cl.args) cl.clname
        (args_text cl.args rest) w.name_without (omega arith) in
    let m : 6 + length cl.clname + args_length cl.args - length cl.clname - 6
        ≡ args_length cl.args =
      omega arith in
    let f = drop_front cl.clname (59 ∷ args_text cl.args rest) in
    let t = take_front cl.clname (59 ∷ args_text cl.args rest) in
    let d = drop_behind cl.clname 59 (args_text cl.args rest) in
    rw (n, k, m, d, parse_args-All cl.args rest w.has_args w.args_apart, n, k, f, t, parse_layer)
      refl

parse_layers-cons :
    (rounds : ℕ) (ip : Bytes) (cl : Layer) (rest : Bytes)
    → IsLayer cl
    → parse_layers (suc rounds) ip (layer_text cl rest)
      ≡ add_layer
          (6 + length cl.clname + args_length cl.args)
          (with_ip ip cl)
          (parse_layers rounds ip rest)
unfolding parse_layers
parse_layers-cons rounds ip cl rest w =
    let l = 6 + length cl.clname + args_length cl.args in
    let s = codes "name=" ++ (cl.clname ++ 59 ∷ args_text cl.args rest) in
    let n = length-layer cl rest in
    let fits : (ltb l 6 || ltb (length s) l) ≡ false = ground arith in
    let text = at-starts_digit (layer_text cl rest) (starts_digit-decimal l (58 ∷ s)) in
    rw
      (
        text,
        number_before-decimal l s (omega arith) w.in_long,
        fits,
        parse_layer-args_text ip cl rest w,
        drop_layer cl rest,
        parse_layers,
      )
      refl

parse_layers-written :
    (rounds : ℕ) (ip : Bytes) (cls : List Layer) (rest : Bytes)
    → length cls < rounds
    → All IsLayer cls
    → parse_layers rounds ip (whole (layer_pieces cls) ++ 101 ∷ rest)
      ≡ some (layers_length cls, map (with_ip ip) cls)
unfolding parse_layers
parse_layers-written zero ip cls rest h a = absurd (omega arith)
parse_layers-written (suc rounds) ip [] rest h a = refl
parse_layers-written (suc rounds) ip (cl ∷ cls) rest h (w, a) =
    ap (parse_layers (suc rounds) ip) (layer_text-whole cl cls (101 ∷ rest))
    ∙ (parse_layers-cons rounds ip cl (whole (layer_pieces cls) ++ 101 ∷ rest) w
        ∙ ap (add_layer (6 + length cl.clname + args_length cl.args) (with_ip ip cl))
            (parse_layers-written rounds ip cls rest (omega arith) a))

-- A list of convergence layers that all have an argument, as it is sent, is parsed back to these layers,
-- each with the sender's address if its name asks for it, where no name or value holds a ';' and no key
-- a '='.
pub parse_layers-whole :
    (ip : Bytes) (cls : List Layer) (rest : Bytes)
    → All IsLayer cls
    → parse_layers
        (length (whole (layer_pieces cls) ++ (codes "e" ++ rest)))
        ip
        (whole (layer_pieces cls) ++ (codes "e" ++ rest))
      ≡ some (layers_length cls, map (with_ip ip) cls)
parse_layers-whole ip cls rest a =
    parse_layers-written (length (whole (layer_pieces cls) ++ 101 ∷ rest)) ip cls rest
      (omega (arith, length-append (whole (layer_pieces cls)) (101 ∷ rest), layers_below cls)) a

parse_layer-Without :
    (ip name rest : Bytes)
    → Without 59 name
    → (at rest == 61) ≡ false
    → parse_layer ip (6 + length name + 0) (codes "name=" ++ (name ++ 59 ∷ rest)) ≡ none
unfolding parse_layer same memcmp parse_args index_until
parse_layer-Without ip name rest w h =
    let n : 6 + length name + 0 - 6 ≡ length name = omega arith in
    let k = index_until-Without 59 (length name) name rest w (omega arith) in
    let m : 6 + length name + 0 - length name - 6 ≡ 0 = omega arith in
    rw (n, k, m, drop_behind name 59 rest, h, parse_layer) refl

refused :
    (rounds : ℕ) (ip name rest : Bytes)
    → Without 59 name
    → (at rest == 61) ≡ false
    → 6 + length name ≤ long_max
    → parse_layers rounds ip (layer_text (record { clname = name; args = [] }) rest) ≡ none
unfolding parse_layers
refused zero ip name rest w h l = refl
refused (suc rounds) ip name rest w h b =
    let cl : Layer = record { clname = name; args = [] } in
    let l = 6 + length name + 0 in
    let s = codes "name=" ++ (name ++ 59 ∷ rest) in
    let n = length-layer cl rest in
    let fits : (ltb l 6 || ltb (length s) l) ≡ false = ground arith in
    let text = at-starts_digit (layer_text cl rest) (starts_digit-decimal l (58 ∷ s)) in
    rw
      (
        text,
        number_before-decimal l s (omega arith) (omega arith),
        fits,
        parse_layer-Without ip name rest w h,
        parse_layers,
      )
      refl

-- A list of convergence layers is refused as a whole if its first layer has no arguments, though it is
-- sent as it should be.
pub parse_layers-no_args :
    (ip name : Bytes) (cls : List Layer) (rest : Bytes)
    → Without 59 name
    → 6 + length name ≤ long_max
    → parse_layers
        (length
          (whole (layer_pieces (record { clname = name; args = [] } ∷ cls)) ++ (codes "e" ++ rest)))
        ip
        (whole (layer_pieces (record { clname = name; args = [] } ∷ cls)) ++ (codes "e" ++ rest))
      ≡ none
parse_layers-no_args ip name cls rest w h =
    let cl : Layer = record { clname = name; args = [] } in
    let buf = whole (layer_pieces (cl ∷ cls)) ++ 101 ∷ rest in
    ap (parse_layers (length buf) ip) (layer_text-whole cl cls (101 ∷ rest))
    ∙ refused (length buf) ip name (whole (layer_pieces cls) ++ 101 ∷ rest) w (at-layers cls rest) h
