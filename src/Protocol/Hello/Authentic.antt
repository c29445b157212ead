-- ===== src/Protocol/Hello/Authentic.antt =====
-- What ParseHello has checked of a hello that it accepts.
use link_forge.Prelude.{
  leb, ◌==◌, Bool-cases, length, ok, ◌+◌, ◌-◌, ◌≡◌, refl, sym, ◌∙◌, ◌≢◌, inl, inr, true, false,
  ◌&&◌, arith,
}
use link_forge.Prelude.Int.{ℤ}
use link_forge.Protocol.Bytes.{Bytes, slice, slice_from, byte_at, bytes_eq→eq}
use link_forge.Protocol.Hello.{
  hello_v2_fixed_size, is_skewed, Hello, Hmac, hello_label, sign, hello_v2, hello_v1, is_signed,
  parse_hello_v2, parse_hello_v1, parse_hello,
}

signed_tag :
    (hmac : Hmac) (key label b : Bytes)
    → is_signed hmac key label b ≡ true
    → slice_from (length b - 32) b ≡ sign hmac key label (slice 0 (length b - 32) b)
unfolding is_signed
signed_tag hmac key label b h = sym (bytes_eq→eq _ _ h)

parse_hello_v2_inv :
    (hmac : Hmac) (key b : Bytes) (now : ℤ) (h : Hello)
    → parse_hello_v2 hmac b key now ≡ ok h
    → (is_signed hmac key (hello_label 2) b ≡ true)
      × (hello_v2 b ≡ h)
      × ((hello_v2 b).weight ≢ 0)
      × (is_skewed now (hello_v2 b).time ≡ false)
unfolding parse_hello_v2
parse_hello_v2_inv hmac key b now h e = ground arith

parse_hello_v1_inv :
    (hmac : Hmac) (key b : Bytes) (now : ℤ) (h : Hello)
    → parse_hello_v1 hmac b key now ≡ ok h
    → (is_signed hmac key (hello_label 1) b ≡ true)
      × (hello_v1 b ≡ h)
      × ((hello_v1 b).weight ≢ 0)
      × (is_skewed now (hello_v1 b).time ≡ false)
unfolding parse_hello_v1
parse_hello_v1_inv hmac key b now h e = ground arith

-- A hello that parse_hello accepts ends with the tag of all bytes before it, under the key and the
-- label of its version; it names a weight, and its time is within the skew.
pub parse_hello-Authentic :
    (hmac : Hmac) (key b : Bytes) (now : ℤ) (h : Hello)
    → parse_hello hmac b key now ≡ ok h
    → (slice_from (length b - 32) b
        ≡ sign hmac key (hello_label h.wire_version) (slice 0 (length b - 32) b))
      × (h.client_id ≡ slice 0 16 b)
      × (h.weight ≢ 0)
      × (is_skewed now h.time ≡ false)
unfolding parse_hello hello_v1 hello_v2
parse_hello-Authentic hmac key b now h e =
    elim (Bool-cases
      (leb hello_v2_fixed_size (length b) && (length b == hello_v2_fixed_size + byte_at 58 b))) [
        | inl v2 ↦
            let (tag, same, weight, time) =
              parse_hello_v2_inv hmac key b now h (sym (rw (v2, parse_hello)) ∙ e) in
            rw (← same) (signed_tag hmac key (hello_label 2) b tag, refl, weight, time)
        | inr v1 ↦
            let (tag, same, weight, time) =
              parse_hello_v1_inv hmac key b now h (sym (rw (v1, parse_hello)) ∙ e) in
            rw (← same) (signed_tag hmac key (hello_label 1) b tag, refl, weight, time)
      ]
