-- ===== src/Saved.antt =====
-- dtndht/bootstrapping.c: the file of known nodes, as its bytes. Opening, reading and writing succeed.
pub mod Find
pub mod RoundTrip
use dtndht.Base.{
  ℕ, zero, suc, ◌+◌, ◌-◌, ◌*◌, ◌/◌, ◌%◌, Bytes, same, Bool, true, false, List, [], ◌∷◌, ◌++◌,
  length, take, drop, replicate, get_or, Option, none, some, if◌then◌else◌, ◌==◌,
}
use dtndht.Net.{Family, SockAddr}

-- `sin_port`, in network order
abbrev pub port_bytes : ℕ → Bytes
port_bytes port = port / 256 ∷ port % 256 ∷ []

abbrev pub node_bytes : List SockAddr → Bytes
node_bytes [] = []
node_bytes (sa ∷ nodes) = sa.addr ++ (port_bytes sa.port ++ node_bytes nodes)

-- 20 zero bytes
abbrev pub separator : Bytes
separator = replicate 20 0

-- `sins` and `sins6` are what `dht_get_nodes` gives, at most 300 each.
unfoldable pub bootstrapping_save_conf : List SockAddr → List SockAddr → Bytes
bootstrapping_save_conf sins sins6 = node_bytes sins ++ (separator ++ node_bytes sins6)

-- The first place of a needle of bytes, by its position. Behind the input there are no zeros.
unfoldable pub find_separator : Bytes → Bytes → Option ℕ
find_separator sep [] = none
find_separator sep (c ∷ s) =
    let rest = find_separator sep s in
    if same (take (length sep) (c ∷ s)) sep
    then some 0
    else elim rest [ none ↦ none | some pos' ↦ some (suc pos') ]

-- The addresses that are pinged, from the records of 4 or 16 bytes and a port.
unfoldable pub read_nodes : Family → ℕ → ℕ → Bytes → List SockAddr
read_nodes family len zero s = []
read_nodes family len (suc count) s =
    record {
      family = family;
      addr = take len s;
      port = get_or (drop len s) 0 0 * 256 + get_or (drop len s) 1 0;
    }
    ∷ read_nodes family len count (drop (len + 2) s)

-- What is done with an input, once the place of the separator is known.
unfoldable pub load_nodes : ℕ → Bytes → List SockAddr
unfolding read_nodes
load_nodes psep input =
    let number_of_ipv4 = psep / 6 in
    let number_of_ipv6 = (length input - (psep + 20)) / 18 in
    if length input == number_of_ipv4 * 6 + 20 + number_of_ipv6 * 18
    then read_nodes Family.inet 4 number_of_ipv4 input
      ++ read_nodes Family.inet6 16 number_of_ipv6 (drop (20 + 6 * number_of_ipv4) input)
    else []

unfoldable pub load_input : Bytes → List SockAddr
unfolding find_separator load_nodes
load_input input = elim (find_separator separator input) [
  | none ↦ []
  | some psep ↦ load_nodes psep input
]

-- The addresses that are pinged, in this order. The buffer has room for 300 nodes of each kind.
unfoldable pub bootstrapping_load_conf : Bytes → List SockAddr
unfolding load_input
bootstrapping_load_conf file = load_input (take (300 * 6 + 20 + 300 * 18) file)
