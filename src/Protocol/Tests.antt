-- ===== src/Protocol/Tests.antt =====
-- The wire format and the replay window at concrete packets.
use link_forge.Prelude.{
  length, take, drop, replicate, length-append, take-append, ok, err, ℕ, ◌-◌, ◌≤◌, ◌≡◌, refl, ap,
  ◌↔◌, true, false, none, some, [], ◌∷◌, ◌++◌, arith,
}
use link_forge.Prelude.Bits.{test_bit, set_bit}
use link_forge.Protocol.Aead.{Aead, seal, open_packet, packet_nonce_injective, open_packet-seal}
use link_forge.Protocol.Bytes.{Bytes, slice, byte_at, bytes_eq, put_uint, get_uint}
use link_forge.Protocol.Header.{
  version, tag_size, max_datagram, type_ping, client_to_server, Header, IsHeader, marshal_binary,
  parse_header,
}
use link_forge.Protocol.Header.RoundTrip.{parse_header-marshal_binary, marshal_binary-parse_header}
use link_forge.Protocol.Ip.{Addr, v4, ip_version, source_ip, destination_ip}
use link_forge.Protocol.Ip.Datagrams.{Datagram, source_ip-destination_ip}
use link_forge.Protocol.Payload.{
  marshal_plain, plain_payload, marshal_data, parse_data, plain_payload-marshal_plain,
  parse_data-marshal_data,
}
use link_forge.Protocol.Replay.{empty_window, shift_window, accept, accept_all}
use link_forge.Protocol.Replay.Once.{after, accept_once}
use link_forge.Protocol.Replay.Refinement.{admit_all, accept_all-admit_all}

abbrev ping_header : Header
ping_header = record {
  packet_type = type_ping;
  flags = 0;
  session_id = 0x0102030405060708;
  path_id = 7;
  sequence = 300;
}

ping_header-IsHeader : IsHeader ping_header
ping_header-IsHeader = omega arith

parse_header-marshal_binary_example :
    parse_header (marshal_binary ping_header ++ 1 ∷ 2 ∷ []) ≡ ok ping_header
parse_header-marshal_binary_example =
    parse_header-marshal_binary ping_header (1 ∷ 2 ∷ []) ping_header-IsHeader

abbrev ping_packet : Bytes
ping_packet =
    0x4c ∷ 0x46 ∷ 0x4d ∷ 0x50 ∷ 1 ∷ 4 ∷ 0 ∷ 0 ∷ 1 ∷ 2 ∷ 3 ∷ 4 ∷ 5 ∷ 6 ∷ 7 ∷ 8 ∷ 0 ∷ 0 ∷ 0 ∷ 7 ∷ 0
    ∷ 0 ∷ 0 ∷ 0 ∷ 0 ∷ 0 ∷ 1 ∷ 44 ∷ 9 ∷ []

ping_packet_parses : parse_header ping_packet ≡ ok ping_header
unfolding parse_header slice byte_at bytes_eq get_uint
ping_packet_parses = refl

marshal_binary-parse_header_example : marshal_binary ping_header ≡ slice 0 28 ping_packet
marshal_binary-parse_header_example =
    marshal_binary-parse_header ping_packet (omega arith) ping_packet_parses

wrong_version : parse_header (0x4c ∷ 0x46 ∷ 0x4d ∷ 0x50 ∷ 2 ∷ replicate 23 0) ≡ err version
unfolding parse_header slice byte_at bytes_eq
wrong_version = refl

plain_payload-marshal_plain_example :
    (parse_header (marshal_binary ping_header ++ 5 ∷ []) ≡ ok ping_header)
    × (plain_payload (marshal_binary ping_header ++ 5 ∷ []) ≡ ok (5 ∷ []))
    × (length (marshal_binary ping_header ++ 5 ∷ []) ≤ max_datagram)
unfolding marshal_plain
plain_payload-marshal_plain_example =
    plain_payload-marshal_plain ping_header (5 ∷ []) (marshal_binary ping_header ++ 5 ∷ [])
      ping_header-IsHeader refl

parse_data-marshal_data_example : parse_data (put_uint 8 5 ++ 69 ∷ 0 ∷ []) ≡ ok (5, 69 ∷ 0 ∷ [])
unfolding marshal_data
parse_data-marshal_data_example =
    parse_data-marshal_data 5 (69 ∷ 0 ∷ []) (put_uint 8 5 ++ 69 ∷ 0 ∷ []) (omega arith) refl

abbrev ip_packet : Bytes
ip_packet = 0x45 ∷ 0 ∷ 0 ∷ 20 ∷ replicate 8 0 ++ 10 ∷ 77 ∷ 0 ∷ 2 ∷ 10 ∷ 77 ∷ 0 ∷ 1 ∷ []

abbrev ip_source : Addr
ip_source = v4 (10 ∷ 77 ∷ 0 ∷ 2 ∷ [])

abbrev ip_destination : Addr
ip_destination = v4 (10 ∷ 77 ∷ 0 ∷ 1 ∷ [])

ip_packet_source : source_ip ip_packet ≡ some ip_source
unfolding source_ip ip_version slice byte_at get_uint
ip_packet_source = refl

-- A packet that is shorter than its header says.
cut_packet : destination_ip (0x45 ∷ 0 ∷ 0 ∷ 21 ∷ drop 4 ip_packet) ≡ none
unfolding destination_ip ip_version slice byte_at get_uint
cut_packet = refl

source_ip-destination_ip_example :
    ((source_ip ip_packet ≡ some ip_source) ↔ ((to : Addr) × Datagram ip_packet ip_source to))
    × ((destination_ip ip_packet ≡ some ip_destination)
        ↔ ((from : Addr) × Datagram ip_packet from ip_destination))
source_ip-destination_ip_example = source_ip-destination_ip ip_packet ip_source ip_destination

packet_nonce_injective_example :
    (◌≡◌ {A = ℕ} 1 1) × (◌≡◌ {A = ℕ} 5 5) × (client_to_server ≡ client_to_server)
packet_nonce_injective_example =
    packet_nonce_injective 1 1 5 5 client_to_server client_to_server (omega arith) (omega arith)
      (omega arith) (omega arith) refl

-- A cipher that hides nothing and appends a tag of zeros, to show that the laws can hold.
abbrev strip_tag : Bytes → Bytes
strip_tag c = take (length c - tag_size) c

strip_tag-append : (p : Bytes) → strip_tag (p ++ replicate tag_size 0) ≡ p
strip_tag-append p =
    take-append _ p (replicate tag_size 0) (omega (arith, length-append p (replicate tag_size 0)))

abbrev plain_aead : Aead
plain_aead = record {
  seal_bytes = λ nonce plaintext aad. plaintext ++ replicate tag_size 0;
  open_bytes = λ nonce ciphertext aad. some (strip_tag ciphertext);
  open-seal = λ nonce plaintext aad. ap some (strip_tag-append plaintext);
  length-seal = λ nonce plaintext aad. length-append plaintext (replicate tag_size 0);
}

abbrev sealed_ping : Bytes
sealed_ping = marshal_binary ping_header ++ (1 ∷ 2 ∷ [] ++ replicate tag_size 0)

open_packet-seal_example :
    (parse_header sealed_ping ≡ ok ping_header)
    × (open_packet plain_aead ping_header client_to_server sealed_ping ≡ ok (1 ∷ 2 ∷ []))
    × (length sealed_ping ≤ max_datagram)
unfolding seal
open_packet-seal_example =
    open_packet-seal plain_aead ping_header client_to_server (1 ∷ 2 ∷ []) sealed_ping
      ping_header-IsHeader refl

accept_all-admit_all_example :
    accept_all empty_window (5 ∷ 5 ∷ 70 ∷ 5 ∷ 69 ∷ []) ≡ admit_all [] (5 ∷ 5 ∷ 70 ∷ 5 ∷ 69 ∷ [])
accept_all-admit_all_example = accept_all-admit_all (5 ∷ 5 ∷ 70 ∷ 5 ∷ 69 ∷ [])

window_answers :
    accept_all empty_window (5 ∷ 5 ∷ 70 ∷ 5 ∷ 69 ∷ 69 ∷ [])
    ≡ true ∷ false ∷ true ∷ false ∷ true ∷ false ∷ []
unfolding accept_all accept shift_window test_bit set_bit
window_answers = refl

accept_once_example :
    (accept (after (accept (after empty_window (3 ∷ [])) 9).0 (80 ∷ 10 ∷ [])) 9).1 ≡ false
accept_once_example = accept_once (3 ∷ []) (80 ∷ 10 ∷ []) 9
