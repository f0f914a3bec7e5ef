-- ===== src/Saved/RoundTrip.antt =====
-- The nodes that are saved are those that are loaded.
use dtndht.Base.{
  ℕ, zero, suc, ◌+◌, ◌-◌, ◌*◌, ◌/◌, ◌%◌, ◌≤◌, Bytes, true, false, List, [], ◌∷◌, ◌++◌, append-nil,
  All, length, length-append, take, drop, take-length-append, drop-length-append, drop-drop, ◌≡◌,
  refl, sym, ap, ◌∙◌, arith, if◌then◌else◌, ◌==◌, ==_iff, Bool-cases, inl, inr,
}
use dtndht.Net.{Family, SockAddr}
use dtndht.Saved.{
  port_bytes, node_bytes, separator, bootstrapping_save_conf, read_nodes, load_nodes, load_input,
  bootstrapping_load_conf,
}
use dtndht.Saved.Find.{
  IsSaved, ends_zero, node_bytes-append, find_separator-here, find_separator-node_bytes,
  find_separator-early,
}

length-node_bytes :
    (family : Family) (len : ℕ) (nodes : List SockAddr)
    → All (IsSaved family len) nodes
    → length (node_bytes nodes) ≡ (len + 2) * length nodes
length-node_bytes family len [] w = omega arith
length-node_bytes family len (sa ∷ nodes) (v, w) = grind (
  arith,
  length-append sa.addr (port_bytes sa.port ++ node_bytes nodes),
  length-node_bytes family len nodes w,
  v.addr_bytes,
)

read_nodes-cons :
    (family : Family) (len count : ℕ) (sa : SockAddr) (rest : Bytes)
    → IsSaved family len sa
    → read_nodes family len (suc count) (sa.addr ++ (port_bytes sa.port ++ rest))
      ≡ sa ∷ read_nodes family len count rest
unfolding read_nodes
read_nodes-cons family len count sa rest w =
    let text = port_bytes sa.port ++ rest in
    let front : take len (sa.addr ++ text) ≡ sa.addr =
      ap (λ n. take n (sa.addr ++ text)) (sym w.addr_bytes) ∙ take-length-append sa.addr text in
    let behind : drop len (sa.addr ++ text) ≡ text =
      ap (λ n. drop n (sa.addr ++ text)) (sym w.addr_bytes) ∙ drop-length-append sa.addr text in
    let next : drop (len + 2) (sa.addr ++ text) ≡ rest =
      drop-drop len 2 (sa.addr ++ text) ∙ ap (drop 2) behind in
    let port : sa.port / 256 * 256 + sa.port % 256 ≡ sa.port = omega arith in
    rw (front, behind, next, port)
      (ap
        (λ f.
          record { family = f; addr = sa.addr; port = sa.port } ∷ read_nodes family len count rest)
        (sym w.of_family))

read_nodes-node_bytes :
    (family : Family) (len : ℕ) (nodes : List SockAddr) (rest : Bytes)
    → All (IsSaved family len) nodes
    → read_nodes family len (length nodes) (node_bytes nodes ++ rest) ≡ nodes
unfolding read_nodes
read_nodes-node_bytes family len [] rest w = refl
read_nodes-node_bytes family len (sa ∷ nodes) rest (v, w) =
    ap (read_nodes family len (suc (length nodes))) (node_bytes-append sa nodes rest)
    ∙ (read_nodes-cons family len (length nodes) sa (node_bytes nodes ++ rest) v
        ∙ ap (◌∷◌ sa) (read_nodes-node_bytes family len nodes rest w))

saved_length :
    (sins sins6 : List SockAddr)
    → All (IsSaved Family.inet 4) sins
    → All (IsSaved Family.inet6 16) sins6
    → length (bootstrapping_save_conf sins sins6) ≡ length sins * 6 + 20 + length sins6 * 18
unfolding bootstrapping_save_conf
saved_length sins sins6 w w6 = omega (
  arith,
  length-append (node_bytes sins) (separator ++ node_bytes sins6),
  length-node_bytes Family.inet 4 sins w,
  length-node_bytes Family.inet6 16 sins6 w6,
)

take_all : (n : ℕ) (s : Bytes) → length s ≤ n → take n s ≡ s
take_all zero [] h = refl
take_all zero (c ∷ s) h = absurd (omega arith)
take_all (suc n) [] h = refl
take_all (suc n) (c ∷ s) h = ap (◌∷◌ c) (take_all n s (omega arith))

drop-separator :
    (sins : List SockAddr) (rest : Bytes)
    → All (IsSaved Family.inet 4) sins
    → drop (20 + 6 * length sins) (node_bytes sins ++ (separator ++ rest)) ≡ rest
drop-separator sins rest w =
    let n : 20 + 6 * length sins ≡ length (node_bytes sins) + 20 =
      omega (arith, length-node_bytes Family.inet 4 sins w) in
    ap (λ n. drop n (node_bytes sins ++ (separator ++ rest))) n
    ∙ (drop-drop (length (node_bytes sins)) 20 (node_bytes sins ++ (separator ++ rest))
        ∙ ap (drop 20) (drop-length-append (node_bytes sins) (separator ++ rest)))

load_nodes-fits :
    (psep number number6 : ℕ) (input : Bytes)
    → psep / 6 ≡ number
    → (length input - (psep + 20)) / 18 ≡ number6
    → length input ≡ number * 6 + 20 + number6 * 18
    → load_nodes psep input
      ≡ read_nodes Family.inet 4 number input
        ++ read_nodes Family.inet6 16 number6 (drop (20 + 6 * number) input)
unfolding load_nodes
load_nodes-fits psep number number6 input n n6 l =
    let k : (length input == number * 6 + 20 + number6 * 18) ≡ true =
      (==_iff (length input) (number * 6 + 20 + number6 * 18)).1 l in
    rw (n, n6, k, load_nodes) refl

load_nodes-save_conf :
    (sins sins6 : List SockAddr)
    → All (IsSaved Family.inet 4) sins
    → All (IsSaved Family.inet6 16) sins6
    → load_nodes (6 * length sins) (node_bytes sins ++ (separator ++ node_bytes sins6))
      ≡ sins ++ sins6
load_nodes-save_conf sins sins6 w w6 =
    let input = node_bytes sins ++ (separator ++ node_bytes sins6) in
    let l : length input ≡ length sins * 6 + 20 + length sins6 * 18 =
      unfold bootstrapping_save_conf in saved_length sins sins6 w w6 in
    let all6 =
      ap (read_nodes Family.inet6 16 (length sins6))
        (drop-separator sins (node_bytes sins6) w ∙ sym (append-nil (node_bytes sins6))) in
    load_nodes-fits (6 * length sins) (length sins) (length sins6) input (omega arith) (omega arith)
      l
    ∙ (ap (λ z. z ++ read_nodes Family.inet6 16 (length sins6) (drop (20 + 6 * length sins) input))
          (read_nodes-node_bytes Family.inet 4 sins (separator ++ node_bytes sins6) w)
        ∙ ap (λ z. sins ++ z) (all6 ∙ read_nodes-node_bytes Family.inet6 16 sins6 [] w6))

load_nodes-early :
    (psep number number6 : ℕ) (input : Bytes)
    → psep ≡ 5 + 6 * number
    → length input ≡ (number + 1) * 6 + 20 + number6 * 18
    → load_nodes psep input ≡ []
unfolding load_nodes
load_nodes-early psep number number6 input p l =
    let n : psep / 6 ≡ number = omega arith in
    let n6 : (length input - (psep + 20)) / 18 ≡ number6 = omega arith in
    let k : (length input == number * 6 + 20 + number6 * 18) ≡ false = ground arith in
    rw (n, n6, k, load_nodes) refl

load_input-save_conf :
    (sins sins6 : List SockAddr)
    → All (IsSaved Family.inet 4) sins
    → All (IsSaved Family.inet6 16) sins6
    → load_input (bootstrapping_save_conf sins sins6)
      ≡ (if ends_zero sins then [] else sins ++ sins6)
unfolding load_input bootstrapping_save_conf
load_input-save_conf [] sins6 w w6 =
    rw (find_separator-here (node_bytes sins6), load_input) (load_nodes-save_conf [] sins6 w w6)
load_input-save_conf (sa ∷ sins) sins6 w w6 = elim (Bool-cases (ends_zero (sa ∷ sins))) [
  | inl z ↦
      let l = saved_length (sa ∷ sins) sins6 w w6 in
      rw (find_separator-early sa sins (node_bytes sins6) w z, z, load_input)
        (load_nodes-early (5 + 6 * length sins) (length sins) (length sins6) _ refl (omega arith))
  | inr z ↦
      rw (find_separator-node_bytes (sa ∷ sins) (node_bytes sins6) w z, z, load_input)
        (load_nodes-save_conf (sa ∷ sins) sins6 w w6)
]

-- What `bootstrapping_save_conf` writes makes `bootstrapping_load_conf` ping the same nodes in the same
-- order, if there are at most 300 of each kind and no port is 0; but it pings none at all if the last IPv4
-- port is a multiple of 256.
pub bootstrapping_load_conf-save_conf :
    (sins sins6 : List SockAddr)
    → length sins ≤ 300
    → length sins6 ≤ 300
    → All (IsSaved Family.inet 4) sins
    → All (IsSaved Family.inet6 16) sins6
    → bootstrapping_load_conf (bootstrapping_save_conf sins sins6)
      ≡ (if ends_zero sins then [] else sins ++ sins6)
unfolding bootstrapping_load_conf
bootstrapping_load_conf-save_conf sins sins6 h h6 w w6 =
    let l = saved_length sins sins6 w w6 in
    ap load_input
      (take_all (300 * 6 + 20 + 300 * 18) (bootstrapping_save_conf sins sins6) (omega arith))
    ∙ load_input-save_conf sins sins6 w w6
