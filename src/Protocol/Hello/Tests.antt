-- ===== src/Protocol/Hello/Tests.antt =====
-- The handshake messages under a keyed function of 32 bytes.
use link_forge.Prelude.{
  length, replicate, err, ok, ◌-◌, ◌≡◌, refl, ◌≢◌, false, [], ◌∷◌, ◌++◌, arith,
}
use link_forge.Prelude.Int.{pos, ◌-ℤ◌}
use link_forge.Protocol.Bytes.{
  Bytes, slice, slice_from, bytes_eq, put_uint, get_uint, length-put_uint,
}
use link_forge.Protocol.Header.{clock_skew}
use link_forge.Protocol.Hello.{
  is_skewed, Hello, Hmac, hello_label, sign, hello_fixed, marshal_hello, parse_hello,
}
use link_forge.Protocol.Hello.Authentic.{parse_hello-Authentic}
use link_forge.Protocol.Hello.Layout.{IsHello}
use link_forge.Protocol.Hello.RoundTrip.{parse_hello-marshal_hello}

abbrev toy : Hmac
toy = record {
  sum = λ key message. put_uint 32 (get_uint (key ++ message));
  length-sum = λ key message. length-put_uint 32 (get_uint (key ++ message));
}

-- A hello of the path "lte" at 3.5 seconds.
abbrev sent : Hello
sent = record {
  client_id = replicate 16 1;
  instance_nonce = replicate 16 2;
  nonce = replicate 16 3;
  time = pos 3500000000;
  path_name = b'l' ∷ b't' ∷ b'e' ∷ [];
  weight = 150;
  wire_version = 2;
}

sent-IsHello : IsHello sent
sent-IsHello = omega arith

abbrev sent_packet : Bytes
sent_packet =
    (hello_fixed sent ++ sent.path_name)
    ++ sign toy (9 ∷ []) (hello_label 2) (hello_fixed sent ++ sent.path_name)

parse_hello-marshal_hello_example :
    parse_hello toy sent_packet (9 ∷ []) (pos 4000000000)
    ≡ ok (record sent { time = pos 3000000000 })
unfolding is_skewed ◌-ℤ◌ marshal_hello bytes_eq
parse_hello-marshal_hello_example =
    parse_hello-marshal_hello toy (9 ∷ []) sent sent_packet 3500000000 (pos 4000000000) sent-IsHello
      refl (omega arith) refl

sent_accepted :
    parse_hello toy sent_packet (9 ∷ []) (pos 4000000000)
    ≡ ok (record sent { time = pos 3000000000 })
unfolding is_skewed ◌-ℤ◌ marshal_hello bytes_eq
sent_accepted =
    parse_hello-marshal_hello toy (9 ∷ []) sent sent_packet 3500000000 (pos 4000000000) sent-IsHello
      refl (omega arith) refl

parse_hello-Authentic_example :
    (slice_from (length sent_packet - 32) sent_packet
      ≡ sign toy (9 ∷ []) (hello_label 2) (slice 0 (length sent_packet - 32) sent_packet))
    × (sent.client_id ≡ slice 0 16 sent_packet)
    × (sent.weight ≢ 0)
    × (is_skewed (pos 4000000000) (pos 3000000000) ≡ false)
parse_hello-Authentic_example =
    parse_hello-Authentic toy (9 ∷ []) sent_packet (pos 4000000000)
      (record sent { time = pos 3000000000 }) sent_accepted

-- An old hello is refused.
late_hello : parse_hello toy sent_packet (9 ∷ []) (pos 124000000000) ≡ err clock_skew
unfolding is_skewed ◌-ℤ◌ marshal_hello bytes_eq
late_hello =
    parse_hello-marshal_hello toy (9 ∷ []) sent sent_packet 3500000000 (pos 124000000000)
      sent-IsHello refl (omega arith) refl
