-- ===== src/Tests/Messages.antt =====
-- Concrete messages, and the theorems on them applied.
use dtndht.Base.{
  Bytes, same, memcmp, false, List, [], ◌∷◌, ◌++◌, length, map, replicate, none, some, ◌≡◌, refl,
  arith, pos, negsuc, codes, memmem, strtol, scan_digits, skip_spaces, decimal, digits_from,
}
use dtndht.Wire.{Piece, add, add_all, end_with_nul, write}
use dtndht.Wire.Bounds.{whole, write_full}
use dtndht.Wire.Send.{
  Local, Layer, Packet, dht_send, get_dtninfo_pieces, send_get_dtninfo, eid_pieces, layer_pieces,
}
use dtndht.Parse.{Field, number_before, counted_field, id_field}
use dtndht.Parse.Message.{
  Kind, Message, Room, parse_message, port_field, values_field, read_values, want_field, read_want,
  kind_of,
}
use dtndht.Parse.Room.{Fits, parse_message-Fits}
use dtndht.Parse.Dtn.{DtnMessage, parse_dtn_message, parse_layers}
use dtndht.Parse.Eids.{parse_dtn_eid_list}
use dtndht.Parse.RoundTrip.{parse_dtn_eid_list-whole}
use dtndht.Parse.Query.{parse_dtn_message-send_get_dtninfo}
use dtndht.Parse.LayerText.{layers_length}
use dtndht.Parse.Layers.{IsLayer, with_ip, parse_layers-whole, parse_layers-no_args}
use dtndht.Tests.{v4}

-- The message "hi" and 'e' into three bytes.
write_full_example :
    write 3 (Piece.raw (codes "h") ∷ Piece.text (codes "i" ++ 101 ∷ []) ∷ [])
    ≡ some (codes "hi" ++ 0 ∷ [])
write_full_example = write_full 3 (Piece.raw (codes "h") ∷ []) (codes "i") 101 refl

abbrev room : Room
room = record {
  tid_len = 16;
  token_len = 128;
  nodes_len = 416;
  nodes6_len = 608;
  values_len = 2048;
  values6_len = 2048;
}

abbrev ping : Bytes
ping = codes "d1:ad2:id20:abcdefghij0123456789e1:q4:ping1:t2:aa1:y1:qe"

abbrev ping_message : Message
ping_message = record {
  kind = Kind.ping;
  tid = Field.found (codes "aa");
  id = codes "abcdefghij0123456789";
  info_hash = replicate 20 0;
  target = replicate 20 0;
  port = 0;
  token = [];
  nodes = [];
  nodes6 = [];
  values = [];
  values6 = [];
  want = none;
}

ping_parsed : parse_message room 0 ping ≡ some ping_message
unfolding parse_message counted_field id_field port_field values_field read_values want_field
    read_want kind_of number_before memmem same memcmp strtol scan_digits skip_spaces
ping_parsed = refl

parse_message-Fits_example : Fits room ping_message
parse_message-Fits_example =
    parse_message-Fits room 0 ping ping_message (omega arith) (omega arith) (omega arith)
      (omega arith) ping_parsed

abbrev eids : List Bytes
eids = codes "dtn://a" ∷ codes "dtn://bc" ∷ []

parse_dtn_eid_list-whole_example :
    parse_dtn_eid_list (whole (eid_pieces eids []) ++ (codes "e" ++ codes "2:nbl"))
    ≡ some (length (whole (eid_pieces eids [])), eids)
parse_dtn_eid_list-whole_example =
    parse_dtn_eid_list-whole eids (codes "2:nbl")
      ((omega arith, omega arith), ((omega arith, omega arith), tt))

abbrev me : Local
me = record { myid = replicate 20 5; my_v = none; dht_socket = pos 3; dht_socket6 = negsuc 0 }

abbrev query_packet : Packet
query_packet = record {
  socket = pos 3;
  content = codes "d1:ad3:eid7:dtn://ae1:q3:dtn1:t2:xy1:y1:qe";
  confirm = false;
  to = v4 3;
  tolen = 16;
}

query_sent :
    send_get_dtninfo me (λ _. false) (v4 3) 16 (codes "xy") (codes "dtn://a") ≡ some query_packet
unfolding send_get_dtninfo get_dtninfo_pieces dht_send add_all add end_with_nul decimal digits_from
query_sent = refl

label_once :
    memmem (codes "e1:q3:dtn1:t") (codes "dtn://a" ++ codes "e1:q3:dtn1:t")
    ≡ some (codes "e1:q3:dtn1:t")
unfolding memmem same memcmp
label_once = refl

parse_dtn_message-send_get_dtninfo_example :
    parse_dtn_message 16 (codes "10.0.0.1") 0 query_packet.content
    ≡ some (DtnMessage.query (codes "dtn://a") (Field.found (codes "xy")))
parse_dtn_message-send_get_dtninfo_example =
    parse_dtn_message-send_get_dtninfo me (λ _. false) (v4 3) 16 (codes "xy") (codes "dtn://a")
      query_packet 16 (codes "10.0.0.1") query_sent (omega arith) (omega arith) (omega arith)
      (omega arith) label_once

abbrev tcp : Layer
tcp = record { clname = codes "tcp"; args = (codes "port", codes "4556") ∷ [] }

tcp-IsLayer : IsLayer tcp
tcp-IsLayer = record {
  name_without = (refl, (refl, (refl, tt)));
  args_apart = (((refl, (refl, (refl, (refl, tt)))), (refl, (refl, (refl, (refl, tt))))), tt);
  has_args = omega arith;
  in_long = omega arith;
}

parse_layers-whole_example :
    parse_layers
      (length (whole (layer_pieces (tcp ∷ [])) ++ (codes "e" ++ codes "3:eid")))
      (codes "10.0.0.1")
      (whole (layer_pieces (tcp ∷ [])) ++ (codes "e" ++ codes "3:eid"))
    ≡ some (layers_length (tcp ∷ []), map (with_ip (codes "10.0.0.1")) (tcp ∷ []))
parse_layers-whole_example =
    parse_layers-whole (codes "10.0.0.1") (tcp ∷ []) (codes "3:eid") (tcp-IsLayer, tt)

parse_layers-no_args_example :
    parse_layers
      (length (
        whole (layer_pieces (record { clname = codes "mail"; args = [] } ∷ tcp ∷ []))
        ++ (codes "e" ++ codes "3:eid")))
      (codes "10.0.0.1")
      (whole (layer_pieces (record { clname = codes "mail"; args = [] } ∷ tcp ∷ []))
        ++ (codes "e" ++ codes "3:eid"))
    ≡ none
parse_layers-no_args_example =
    parse_layers-no_args (codes "10.0.0.1") (codes "mail") (tcp ∷ []) (codes "3:eid")
      (refl, (refl, (refl, (refl, tt)))) (omega arith)
