-- ===== src/Protocol/Hello/RoundTrip.antt =====
-- A hello is read back from what Marshal wrote.
use link_forge.Prelude.{
  leb, ◌==◌, if◌then◌else◌, length, err, ok, ℕ, ◌+◌, ◌*◌, ◌/◌, ◌^◌, ◌≤◌, ◌<◌, ◌≡◌, refl, true,
  false, ◌&&◌, ◌++◌, arith,
}
use link_forge.Prelude.Int.{ℤ, pos}
use link_forge.Protocol.Bytes.{Bytes, byte_at, bytes_eq}
use link_forge.Protocol.Header.{bad_packet, clock_skew}
use link_forge.Protocol.Hello.{
  second, hello_v2_fixed_size, is_skewed, Hello, Hmac, hello_label, zero_nonce, sign, hello_fixed,
  marshal_hello, hello_v2, is_signed, parse_hello_v2, parse_hello,
}
use link_forge.Protocol.Hello.Layout.{
  IsHello, transmitted, packet, length-packet, name_length-packet, hello_v2-packet,
  is_signed-packet,
}

marshal_hello_inv :
    (hmac : Hmac) (key : Bytes) (h : Hello) (p : Bytes)
    → marshal_hello hmac key h ≡ ok p
    → (length h.path_name ≤ 63)
      × (bytes_eq h.instance_nonce zero_nonce ≡ false)
      × (p
          ≡ (hello_fixed h ++ h.path_name)
            ++ sign hmac key (hello_label 2) (hello_fixed h ++ h.path_name))
unfolding marshal_hello
marshal_hello_inv hmac key h p e = ground arith

-- ParseHello on a packet whose length, tag and fields are those of version 2.
parse_hello_fields :
    (hmac : Hmac) (key b : Bytes) (now : ℤ) (h : Hello)
    → length b ≡ 91 + byte_at 58 b
    → is_signed hmac key (hello_label 2) b ≡ true
    → hello_v2 b ≡ h
    → bytes_eq h.instance_nonce zero_nonce ≡ false
    → parse_hello hmac b key now ≡ (
        if h.weight == 0
        then err bad_packet
        else if is_skewed now h.time
        then err clock_skew
        else ok h)
unfolding parse_hello parse_hello_v2
parse_hello_fields hmac key b now h long tag same nonce =
    let sized : (leb hello_v2_fixed_size (length b)
          && (length b == hello_v2_fixed_size + byte_at 58 b))
        ≡ true =
      ground arith in
    rw (same, sized, tag, nonce)

-- Of a hello within its widths and of a time from 1970 on that Marshal accepts, ParseHello under the
-- same key answers: where its weight is 0, a bad packet; else the hello as of version 2 and with its
-- time cut to seconds, or, for that time alone, a clock skew.
pub parse_hello-marshal_hello :
    (hmac : Hmac) (key : Bytes) (h : Hello) (packet : Bytes) (n : ℕ) (now : ℤ)
    → IsHello h
    → h.time ≡ pos n
    → n / second < 2 ^ 63
    → marshal_hello hmac key h ≡ ok packet
    → parse_hello hmac packet key now ≡ (
        if h.weight == 0
        then err bad_packet
        else if is_skewed now (pos (n / second * second))
        then err clock_skew
        else ok (transmitted h (n / second)))
parse_hello-marshal_hello hmac key h packet n now v t early e =
    let (short, nonce, same) = marshal_hello_inv hmac key h packet e in
    let mac = sign hmac key (hello_label 2) (hello_fixed h ++ h.path_name) in
    let mac_fits : length mac ≡ 32 = unfold sign in hmac.length-sum key _ in
    rw same (
      parse_hello_fields hmac key _ now (transmitted h (n / second))
        (omega (arith, length-packet h v mac mac_fits, name_length-packet h v mac mac_fits))
        (is_signed-packet h v mac mac_fits hmac key (hello_label 2) refl)
        (hello_v2-packet h v mac mac_fits n t early) nonce)
