-- ===== src/Wire/Send.antt =====
-- dtndht/dht.c: the functions that send a message. What each hands to `sendto` is its result, and
-- `none` is -1, or the abort on a length of 0.
use Prim.Native.Nat.{bit_and}
use dtndht.Base.{
  ℕ, zero, suc, ◌+◌, ◌/◌, ◌%◌, Bytes, Bool, true, false, not, List, [], ◌∷◌, ◌++◌, length,
  get_elem?, Option, none, some, if◌then◌else◌, ltb, ◌==◌, ◌>>=◌, codes, decimal, ℤ, negsuc, is_neg,
}
use dtndht.Net.{Family, SockAddr}
use dtndht.Storage.{Peer, Store}
use dtndht.Wire.{Piece, write}

-- `myid`, `my_v` if `have_v` is set, and the sockets.
pub record Local : Type 0 where
  pub myid : Bytes
  pub my_v : Option Bytes
  pub dht_socket : ℤ
  pub dht_socket6 : ℤ

pub record Packet : Type 0 where
  pub socket : ℤ
  pub content : Bytes
  pub confirm : Bool
  pub to : SockAddr
  pub tolen : ℕ

pub record Layer : Type 0 where
  pub clname : Bytes
  pub args : List (Bytes × Bytes)

abbrev str : Bytes → Piece
str s = Piece.text s

-- "%d:" and what follows
abbrev pub counted : Bytes → List Piece → List Piece
counted s more = str (decimal (length s) ++ codes ":") ∷ Piece.raw s ∷ more

-- A text that ends with "%d:", with the length of what follows.
abbrev pub labelled : Bytes → Bytes → List Piece → List Piece
labelled label s more = str (label ++ (decimal (length s) ++ codes ":")) ∷ Piece.raw s ∷ more

abbrev pub add_v : Local → List Piece
add_v me = elim me.my_v [ none ↦ [] | some v ↦ Piece.raw v ∷ [] ]

-- `want & WANT4` and `want & WANT6`; 0 stands for every `want` that is not positive.
abbrev pub want_pieces : ℕ → List Piece
want_pieces want =
    if want == 0
    then []
    else str (
        codes "4:wantl"
        ++ ((if bit_and want 1 == 0 then [] else codes "2:n4")
            ++ ((if bit_and want 2 == 0 then [] else codes "2:n6") ++ codes "e")))
      ∷ []

unfoldable pub ping_pieces : Local → Bytes → List Piece
ping_pieces me tid =
    str (codes "d1:ad2:id20:")
    ∷ Piece.raw me.myid
    ∷ labelled (codes "e1:q4:ping1:t") tid (add_v me ++ str (codes "1:y1:qe") ∷ [])

-- `send_pong` and `send_peer_announced` write the same.
unfoldable pub pong_pieces : Local → Bytes → List Piece
pong_pieces me tid =
    str (codes "d1:rd2:id20:")
    ∷ Piece.raw me.myid
    ∷ labelled (codes "e1:t") tid (add_v me ++ str (codes "1:y1:re") ∷ [])

unfoldable pub find_node_pieces : Local → Bytes → Bytes → ℕ → List Piece
find_node_pieces me tid target want =
    str (codes "d1:ad2:id20:")
    ∷ Piece.raw me.myid
    ∷ str (codes "6:target20:")
    ∷ Piece.raw target
    ∷ (want_pieces want
        ++ labelled (codes "e1:q9:find_node1:t") tid (add_v me ++ str (codes "1:y1:qe") ∷ []))

unfoldable pub get_peers_pieces : Local → Bytes → Bytes → ℕ → List Piece
get_peers_pieces me tid infohash want =
    str (codes "d1:ad2:id20:")
    ∷ Piece.raw me.myid
    ∷ str (codes "9:info_hash20:")
    ∷ Piece.raw infohash
    ∷ (want_pieces want
        ++ labelled (codes "e1:q9:get_peers1:t") tid (add_v me ++ str (codes "1:y1:qe") ∷ []))

unfoldable pub announce_pieces : Local → Bytes → Bytes → ℕ → Bytes → List Piece
announce_pieces me tid infohash port token =
    str (codes "d1:ad2:id20:")
    ∷ Piece.raw me.myid
    ∷ str (codes "9:info_hash20:")
    ∷ Piece.raw infohash
    ∷ str (
        codes "4:porti"
        ++ (decimal port ++ (codes "e5:token" ++ (decimal (length token) ++ codes ":"))))
    ∷ Piece.raw token
    ∷ labelled (codes "e1:q13:announce_peer1:t") tid (add_v me ++ str (codes "1:y1:qe") ∷ [])

unfoldable pub error_pieces : Local → Bytes → ℕ → Bytes → List Piece
error_pieces me tid code message =
    str (codes "d1:eli" ++ (decimal code ++ (codes "e" ++ (decimal (length message) ++ codes ":"))))
    ∷ Piece.raw message
    ∷ labelled (codes "e1:t") tid (add_v me ++ str (codes "1:y1:ee") ∷ [])

unfoldable pub get_dtninfo_pieces : Local → Bytes → Bytes → List Piece
get_dtninfo_pieces me tid eid =
    labelled (codes "d1:ad3:eid") eid
      (labelled (codes "e1:q3:dtn1:t") tid (add_v me ++ str (codes "1:y1:qe") ∷ []))

abbrev pub arg_pieces : List (Bytes × Bytes) → List Piece
arg_pieces [] = []
arg_pieces ((key, value) ∷ args) =
    Piece.raw key
    ∷ Piece.raw (codes "=")
    ∷ Piece.raw value
    ∷ Piece.raw (codes ";")
    ∷ arg_pieces args

-- `n`
abbrev pub args_length : List (Bytes × Bytes) → ℕ
args_length [] = 0
args_length ((key, value) ∷ args) = length key + 1 + length value + 1 + args_length args

abbrev pub layer_pieces : List Layer → List Piece
layer_pieces [] = []
layer_pieces (cl ∷ cls) =
    str (decimal (6 + length cl.clname + args_length cl.args) ++ codes ":name=")
    ∷ Piece.raw cl.clname
    ∷ Piece.raw (codes ";")
    ∷ (arg_pieces cl.args ++ layer_pieces cls)

-- The loops over the groups and over the neighbours.
abbrev pub eid_pieces : List Bytes → List Piece → List Piece
eid_pieces [] more = more
eid_pieces (eid ∷ eids) more = counted eid (eid_pieces eids more)

unfoldable pub dtninfo_pieces : Bytes → Bytes → List Layer → List Bytes → List Bytes → List Piece
dtninfo_pieces tid eid cls nbs grs =
    str (codes "d1:rd2:cll")
    ∷ (layer_pieces cls
        ++ labelled (codes "e3:eid") eid (
            str (codes "2:grl")
            ∷ eid_pieces grs (
                str (codes "e2:nbl")
                ∷ eid_pieces nbs (labelled (codes "ee1:t") tid (str (codes "1:y1:re") ∷ [])))))

-- At most 50 of the peers of the family's length, from a place on and around the array. `rounds` is the
-- number of peers, after which `j` is `j0` again.
unfoldable pub value_pieces : ℕ → ℕ → ℕ → ℕ → List Peer → List Piece
value_pieces zero len j k peers = []
value_pieces (suc rounds) len j k peers = elim (get_elem? peers j) [
  | none ↦ []
  | some p ↦
      let next = (j + 1) % length peers in
      elim (ltb k 50) [
        | false ↦ []
        | true ↦ elim (p.len == len) [
          | true ↦
              str (decimal (len + 2) ++ codes ":")
              ∷ Piece.raw p.ip
              ∷ Piece.raw (p.port / 256 ∷ p.port % 256 ∷ [])
              ∷ value_pieces rounds len next (k + 1) peers
          | false ↦ value_pieces rounds len next k peers
        ]
      ]
]

abbrev optional : Bytes → Bytes → List Piece
optional label s = if length s == 0 then [] else labelled label s []

-- `dice` is what `random()` gives.
unfoldable pub nodes_peers_pieces :
    Local → Bytes → Bytes → Bytes → Family → ℕ → Option Store → Bytes → List Piece
unfolding value_pieces
nodes_peers_pieces me tid nodes nodes6 af dice st token =
    let len : ℕ = elim af [ Family.inet ↦ 4 | _ ↦ 16 ] in
    let values : List Piece = elim st [
      | none ↦ []
      | some st ↦
          let n = length st.peers in
          if n == 0
          then []
          else str (codes "6:valuesl")
            ∷ (value_pieces n len (dice % n) 0 st.peers ++ str (codes "e") ∷ [])
    ] in
    str (codes "d1:rd2:id20:")
    ∷ Piece.raw me.myid
    ∷ (optional (codes "5:nodes") nodes
        ++ (optional (codes "6:nodes6") nodes6
            ++ (optional (codes "5:token") token
                ++ (values
                    ++ labelled (codes "e1:t") tid (add_v me ++ str (codes "1:y1:re") ∷ [])))))

module _ (me : Local) (blocked : SockAddr → Bool) (sa : SockAddr) (salen : ℕ) where
  unfoldable pub dht_send : Bool → Bytes → Option Packet
  dht_send confirm buf =
      let s : ℤ = elim sa.family [
        | Family.inet ↦ me.dht_socket
        | Family.inet6 ↦ me.dht_socket6
        | Family.unspec ↦ negsuc 0
      ] in
      if salen == 0
      then none
      else if blocked sa
      then none
      else if is_neg s
      then none
      else some (record { socket = s; content = buf; confirm = confirm; to = sa; tolen = salen })

  abbrev send : ℕ → Bool → List Piece → Option Packet
  send size confirm pieces = write size pieces >>= dht_send confirm

  unfoldable pub send_ping : Bytes → Option Packet
  unfolding ping_pieces dht_send
  send_ping tid = send 512 false (ping_pieces me tid)

  unfoldable pub send_pong : Bytes → Option Packet
  unfolding pong_pieces dht_send
  send_pong tid = send 512 false (pong_pieces me tid)

  unfoldable pub send_find_node : Bytes → Bytes → ℕ → Bool → Option Packet
  unfolding find_node_pieces dht_send
  send_find_node tid target want confirm = send 512 confirm (find_node_pieces me tid target want)

  unfoldable pub send_nodes_peers :
      Bytes → Bytes → Bytes → Family → ℕ → Option Store → Bytes → Option Packet
  unfolding nodes_peers_pieces dht_send
  send_nodes_peers tid nodes nodes6 af dice st token =
      send 2048 false (nodes_peers_pieces me tid nodes nodes6 af dice st token)

  unfoldable pub send_get_peers : Bytes → Bytes → ℕ → Bool → Option Packet
  unfolding get_peers_pieces dht_send
  send_get_peers tid infohash want confirm =
      send 512 confirm (get_peers_pieces me tid infohash want)

  -- `confirm ? 0 : MSG_CONFIRM`, the other way round than elsewhere.
  unfoldable pub send_announce_peer : Bytes → Bytes → ℕ → Bytes → Bool → Option Packet
  unfolding announce_pieces dht_send
  send_announce_peer tid infohash port token confirm =
      send 512 (not confirm) (announce_pieces me tid infohash port token)

  unfoldable pub send_peer_announced : Bytes → Option Packet
  unfolding pong_pieces dht_send
  send_peer_announced tid = send 512 false (pong_pieces me tid)

  unfoldable pub send_error : Bytes → ℕ → Bytes → Option Packet
  unfolding error_pieces dht_send
  send_error tid code message = send 512 false (error_pieces me tid code message)

  unfoldable pub send_get_dtninfo : Bytes → Bytes → Option Packet
  unfolding get_dtninfo_pieces dht_send
  send_get_dtninfo tid eid = send 1076 false (get_dtninfo_pieces me tid eid)

  unfoldable pub send_dtninfo : Bytes → Bytes → List Layer → List Bytes → List Bytes → Option Packet
  unfolding dtninfo_pieces dht_send
  send_dtninfo tid eid cls nbs grs = send 4096 false (dtninfo_pieces tid eid cls nbs grs)
