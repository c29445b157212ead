-- ===== src/Protocol/Welcome/Tests.antt =====
-- The welcome at a concrete message.
use link_forge.Prelude.{Result, length, replicate, ok, ◌≡◌, refl, false, [], ◌∷◌, ◌++◌, arith}
use link_forge.Prelude.Int.{ℤ, pos, ◌-ℤ◌}
use link_forge.Protocol.Bytes.{slice, slice_from, put_uint, get_uint, length-put_uint}
use link_forge.Protocol.Header.{Error, type_welcome, Header}
use link_forge.Protocol.Hello.{is_skewed, Hmac}
use link_forge.Protocol.Welcome.{
  Welcome, welcome_tag, marshal_welcome, parse_welcome, IsWelcome, parse_welcome-marshal_welcome,
  parse_welcome-Authentic,
}

-- A tag is any keyed function of 32 bytes.
abbrev keyed : Hmac
keyed = record {
  sum = λ key message. put_uint 32 (get_uint (key ++ message));
  length-sum = λ key message. length-put_uint 32 (get_uint (key ++ message));
}

abbrev answer : Welcome
answer = record {
  client_nonce = replicate 16 4;
  server_nonce = replicate 16 5;
  time = pos 3500000000;
}

answer-IsWelcome : IsWelcome answer
answer-IsWelcome = omega arith

abbrev welcome_header : Header
welcome_header = record {
  packet_type = type_welcome;
  flags = 0;
  session_id = 9;
  path_id = 1;
  sequence = 0;
}

abbrev answered : ℤ → Result Error Welcome
answered now =
    parse_welcome keyed (marshal_welcome keyed (9 ∷ []) answer welcome_header) (9 ∷ [])
      welcome_header (replicate 16 4) now

answer_accepted : answered (pos 4000000000) ≡ ok (record answer { time = pos 3000000000 })
unfolding is_skewed ◌-ℤ◌
answer_accepted =
    parse_welcome-marshal_welcome keyed (9 ∷ []) answer welcome_header 3500000000 (pos 4000000000)
      answer-IsWelcome refl (omega arith)

parse_welcome-marshal_welcome_example :
    answered (pos 4000000000) ≡ ok (record answer { time = pos 3000000000 })
unfolding is_skewed ◌-ℤ◌
parse_welcome-marshal_welcome_example =
    parse_welcome-marshal_welcome keyed (9 ∷ []) answer welcome_header 3500000000 (pos 4000000000)
      answer-IsWelcome refl (omega arith)

parse_welcome-Authentic_example :
    let b = marshal_welcome keyed (9 ∷ []) answer welcome_header in
    (length b ≡ 72)
    × (slice_from 40 b ≡ welcome_tag keyed (9 ∷ []) welcome_header (slice 0 40 b))
    × (answer.client_nonce ≡ replicate 16 4)
    × (is_skewed (pos 4000000000) (pos 3000000000) ≡ false)
parse_welcome-Authentic_example =
    parse_welcome-Authentic keyed (9 ∷ []) (marshal_welcome keyed (9 ∷ []) answer welcome_header)
      (replicate 16 4) welcome_header (pos 4000000000) (record answer { time = pos 3000000000 })
      answer_accepted
