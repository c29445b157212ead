-- ===== src/Protocol/Welcome.antt =====
-- The welcome of internal/protocol/protocol.go: Welcome, Marshal, ParseWelcome.
mod Tests
use native.Mathlib.Nat.{add-sub_cancel_left}
use link_forge.Prelude.{
  Result, ◌==◌, if◌then◌else◌, length, length-append, drop-append, err, ok, ℕ, ◌+◌, ◌*◌, ◌/◌, ◌^◌,
  ◌≤◌, ◌<◌, ◌≡◌, sym, ap, ◌∙◌, true, false, not, [], ◌∷◌, ◌++◌, arith,
}
use link_forge.Prelude.Int.{ℤ, pos}
use link_forge.Protocol.Bytes.{
  Bytes, slice, slice_from, bytes_eq, bytes_eq→eq, bytes_eq_refl, eq→bytes_eq, slice-append,
  put_uint, get_uint, length-put_uint,
}
use link_forge.Protocol.Header.{Error, bad_packet, auth, clock_skew, Header, marshal_binary}
use link_forge.Protocol.Hello.{second, unix_word, unix_time, is_skewed, Hmac, sign}
use link_forge.Protocol.Bytes.Slices.{slice_front, slice_left, slice_all}
use link_forge.Protocol.Hello.Layout.{unix_time-put_uint}

-- welcomeSize
abbrev pub welcome_size : ℕ
welcome_size = 16 + 16 + 8 + 32

-- "linkforge/welcome/v1"
abbrev pub welcome_label : Bytes
welcome_label =
    0x6c ∷ 0x69 ∷ 0x6e ∷ 0x6b ∷ 0x66 ∷ 0x6f ∷ 0x72 ∷ 0x67 ∷ 0x65 ∷ 0x2f ∷ 0x77 ∷ 0x65 ∷ 0x6c ∷ 0x63
    ∷ 0x6f ∷ 0x6d ∷ 0x65 ∷ 0x2f ∷ 0x76 ∷ 0x31 ∷ []

pub record Welcome : Type 0 where
  pub client_nonce : Bytes  -- [16]byte
  pub server_nonce : Bytes  -- [16]byte
  pub time : ℤ

unfoldable pub welcome_fixed : Welcome → Bytes
welcome_fixed w = w.client_nonce ++ (w.server_nonce ++ put_uint 8 (unix_word w.time))

-- The tag of a welcome covers the packet header in front of it.
unfoldable pub welcome_tag : Hmac → Bytes → Header → Bytes → Bytes
welcome_tag hmac key header fixed = sign hmac key welcome_label (marshal_binary header ++ fixed)

-- Welcome.Marshal
unfoldable pub marshal_welcome : Hmac → Bytes → Welcome → Header → Bytes
marshal_welcome hmac key w header = welcome_fixed w ++ welcome_tag hmac key header (welcome_fixed w)

unfoldable pub read_welcome : Bytes → Welcome
read_welcome b = record {
  client_nonce = slice 0 16 b;
  server_nonce = slice 16 32 b;
  time = unix_time (get_uint (slice 32 40 b));
}

-- ParseWelcome
unfoldable pub parse_welcome : Hmac → Bytes → Bytes → Header → Bytes → ℤ → Result Error Welcome
parse_welcome hmac b key header expected_nonce now =
    let w = read_welcome b in
    if not (length b == welcome_size)
    then err bad_packet
    else if not (bytes_eq (welcome_tag hmac key header (slice 0 40 b)) (slice_from 40 b))
    then err auth
    else if not (bytes_eq w.client_nonce expected_nonce)
    then err auth
    else if is_skewed now w.time
    then err clock_skew
    else ok w

-- The nonces fit their arrays.
pub record IsWelcome (w : Welcome) : Type 0 where
  pub client_nonce_fits : length w.client_nonce ≡ 16
  pub server_nonce_fits : length w.server_nonce ≡ 16

module _ (w : Welcome) (v : IsWelcome w) (mac : Bytes) where
  length-welcome_fixed : length (welcome_fixed w) ≡ 40
  unfolding welcome_fixed
  length-welcome_fixed = simp length-append (
      omega (arith, v.client_nonce_fits, v.server_nonce_fits, length-put_uint 8 (unix_word w.time)))

  fixed_part : slice 0 40 (welcome_fixed w ++ mac) ≡ welcome_fixed w
  fixed_part = slice_front 40 _ mac length-welcome_fixed

  tag_part : slice_from 40 (welcome_fixed w ++ mac) ≡ mac
  unfolding slice_from
  tag_part = drop-append 40 _ mac length-welcome_fixed

  front :
      (lo m : ℕ)
      → lo + m ≤ 40
      → slice lo (lo + m) (welcome_fixed w ++ mac) ≡ slice lo (lo + m) (welcome_fixed w)
  unfolding slice
  front lo m short =
      let fixed : lo + m ≤ length (welcome_fixed w) = omega (arith, length-welcome_fixed) in
      rw add-sub_cancel_left (slice_left lo m (welcome_fixed w) mac fixed)

  read_welcome-fixed :
      (n : ℕ)
      → w.time ≡ pos n
      → n / second < 2 ^ 63
      → read_welcome (welcome_fixed w ++ mac) ≡ record w { time = pos (n / second * second) }
  unfolding read_welcome
  read_welcome-fixed n t early = λ i. record {
    client_nonce = (front 0 16 (omega arith) ∙ client) i;
    server_nonce = (front 16 16 (omega arith) ∙ server) i;
    time = (ap (λ b. unix_time (get_uint b)) (front 32 8 (omega arith)) ∙ time_read) i;
  }
    where
      client : slice 0 16 (welcome_fixed w) ≡ w.client_nonce
      client = unfold welcome_fixed in slice_front 16 _ _ v.client_nonce_fits

      server : slice 16 32 (welcome_fixed w) ≡ w.server_nonce
      server =
          unfold welcome_fixed in
          slice-append 16 0 16 w.client_nonce _ v.client_nonce_fits
          ∙ slice_front 16 _ _ v.server_nonce_fits

      word : slice 32 40 (welcome_fixed w) ≡ put_uint 8 (unix_word w.time)
      word =
          unfold welcome_fixed in
          slice-append 16 16 24 w.client_nonce _ v.client_nonce_fits
          ∙ slice-append 16 0 8 w.server_nonce _ v.server_nonce_fits
          ∙ slice_all 8 _ (length-put_uint 8 _)

      time_read : unix_time (get_uint (slice 32 40 (welcome_fixed w))) ≡ pos (n / second * second)
      time_read = rw (word, t) (unix_time-put_uint n early)

-- ParseWelcome on a packet of the right length, tag and fields.
parse_welcome_fields :
    (hmac : Hmac) (key b : Bytes) (w : Welcome) (header : Header) (now : ℤ)
    → length b ≡ welcome_size
    → welcome_tag hmac key header (slice 0 40 b) ≡ slice_from 40 b
    → read_welcome b ≡ w
    → parse_welcome hmac b key header w.client_nonce now
      ≡ (if is_skewed now w.time then err clock_skew else ok w)
unfolding parse_welcome
parse_welcome_fields hmac key b w header now size tag same =
    let sized : (length b == welcome_size) ≡ true = ground arith in
    rw (sized, eq→bytes_eq _ _ tag, same, bytes_eq_refl w.client_nonce)

parse_welcome_inv :
    (hmac : Hmac) (key b nonce : Bytes) (header : Header) (now : ℤ) (w : Welcome)
    → parse_welcome hmac b key header nonce now ≡ ok w
    → (length b ≡ 72)
      × (bytes_eq (welcome_tag hmac key header (slice 0 40 b)) (slice_from 40 b) ≡ true)
      × (bytes_eq (read_welcome b).client_nonce nonce ≡ true)
      × (is_skewed now (read_welcome b).time ≡ false)
      × (read_welcome b ≡ w)
unfolding parse_welcome
parse_welcome_inv hmac key b nonce header now w e = ground arith

-- A welcome within its widths and of a time from 1970 on is read back by a client that knows the
-- key, the packet header and its own nonce, with its time cut to seconds, or refused for that time
-- alone.
pub parse_welcome-marshal_welcome :
    (hmac : Hmac) (key : Bytes) (w : Welcome) (header : Header) (n : ℕ) (now : ℤ)
    → IsWelcome w
    → w.time ≡ pos n
    → n / second < 2 ^ 63
    → parse_welcome hmac (marshal_welcome hmac key w header) key header w.client_nonce now ≡ (
        if is_skewed now (pos (n / second * second))
        then err clock_skew
        else ok (record w { time = pos (n / second * second) }))
unfolding marshal_welcome
parse_welcome-marshal_welcome hmac key w header n now v t early =
    let fixed = welcome_fixed w in
    let mac = welcome_tag hmac key header fixed in
    let mac_fits : length mac ≡ 32 = unfold welcome_tag sign in hmac.length-sum key _ in
    let sent = record w { time = pos (n / second * second) } in
    parse_welcome_fields hmac key (fixed ++ mac) sent header now
      (omega (arith, length-append fixed mac, length-welcome_fixed w v mac))
      (ap (welcome_tag hmac key header) (fixed_part w v mac) ∙ sym (tag_part w v mac))
      (read_welcome-fixed w v mac n t early)

-- A welcome that parse_welcome accepts is 72 bytes long and carries the tag under the key of the
-- given packet header and of its own first 40 bytes; it answers the expected nonce, and its time is
-- within the skew.
pub parse_welcome-Authentic :
    (hmac : Hmac) (key b nonce : Bytes) (header : Header) (now : ℤ) (w : Welcome)
    → parse_welcome hmac b key header nonce now ≡ ok w
    → (length b ≡ 72)
      × (slice_from 40 b ≡ welcome_tag hmac key header (slice 0 40 b))
      × (w.client_nonce ≡ nonce)
      × (is_skewed now w.time ≡ false)
parse_welcome-Authentic hmac key b nonce header now w e =
    let (size, tag, reply, time, same) = parse_welcome_inv hmac key b nonce header now w e in
    rw (← same) (size, sym (bytes_eq→eq _ _ tag), bytes_eq→eq _ _ reply, time)
