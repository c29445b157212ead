-- ===== src/Protocol/Hello.antt =====
-- The hello of internal/protocol/protocol.go: Hello, Marshal, ParseHello, and sign.
pub mod Layout
pub mod RoundTrip
pub mod Authentic
mod Tests
use link_forge.Prelude.{
  Result, ltb, leb, ◌==◌, if◌then◌else◌, length, replicate, err, ok, ℕ, ◌+◌, ◌-◌, ◌*◌, ◌/◌, ◌%◌,
  ◌^◌, ◌≡◌, Bool, not, ◌&&◌, ◌||◌, [], ◌∷◌, ◌++◌,
}
use link_forge.Prelude.Int.{ℤ, pos, negsuc, ◌-ℤ◌, ltb_ℤ}
use link_forge.Protocol.Bytes.{Bytes, slice, slice_from, byte_at, bytes_eq, put_uint, get_uint}
use link_forge.Protocol.Header.{Error, bad_packet, auth, clock_skew, other}

-- A time.Time is its nanoseconds since 1970; its Unix() rounds down to seconds.
abbrev pub second : ℕ
second = 10 ^ 9

-- HandshakeSkew
abbrev pub handshake_skew : ℕ
handshake_skew = 2 * 60 * second

-- helloV1FixedSize and helloV2FixedSize
abbrev pub hello_v1_fixed_size : ℕ
hello_v1_fixed_size = 16 + 16 + 8 + 2 + 1 + 32

abbrev pub hello_v2_fixed_size : ℕ
hello_v2_fixed_size = 16 + 16 + 16 + 8 + 2 + 1 + 32

-- `uint64(t.Unix())`
unfoldable pub unix_word : ℤ → ℕ
unix_word (pos n) = n / second % 2 ^ 64
unix_word (negsuc n) = (2 ^ 64 - 1 - n / second % 2 ^ 64) % 2 ^ 64

-- `time.Unix(int64(u), 0)`
unfoldable pub unix_time : ℕ → ℤ
unix_time u = if ltb u (2 ^ 63) then pos (u * second) else negsuc ((2 ^ 64 - u) * second - 1)

-- `delta > HandshakeSkew || delta < -HandshakeSkew` for `delta := now.Sub(sent)`; Sub stops at the
-- ends of int64, far beyond the bound.
unfoldable pub is_skewed : ℤ → ℤ → Bool
is_skewed now sent =
    ltb_ℤ (pos handshake_skew) (now -ℤ sent) || ltb_ℤ (pos handshake_skew) (sent -ℤ now)

pub record Hello : Type 0 where
  pub client_id : Bytes  -- [16]byte
  pub instance_nonce : Bytes  -- [16]byte
  pub nonce : Bytes  -- [16]byte
  pub time : ℤ
  pub path_name : Bytes
  pub weight : ℕ  -- uint16
  pub wire_version : ℕ  -- uint8

-- crypto/hmac's HMAC with SHA-256: a key and a message to 32 bytes.
pub record Hmac : Type 0 where
  pub sum : Bytes → Bytes → Bytes
  pub length-sum : (key message : Bytes) → length (sum key message) ≡ 32

-- "linkforge/hello/v1", "linkforge/hello/v2"
abbrev pub hello_label : ℕ → Bytes
hello_label n =
    0x6c
    ∷ 0x69
    ∷ 0x6e
    ∷ 0x6b
    ∷ 0x66
    ∷ 0x6f
    ∷ 0x72
    ∷ 0x67
    ∷ 0x65
    ∷ 0x2f
    ∷ 0x68
    ∷ 0x65
    ∷ 0x6c
    ∷ 0x6c
    ∷ 0x6f
    ∷ 0x2f
    ∷ 0x76
    ∷ (0x30 + n)
    ∷ []

abbrev pub zero_nonce : Bytes
zero_nonce = replicate 16 0

-- sign
unfoldable pub sign : Hmac → Bytes → Bytes → Bytes → Bytes
sign hmac key label signed = hmac.sum key (label ++ signed)

-- The fields of a hello up to the length of the name.
unfoldable pub hello_fixed : Hello → Bytes
hello_fixed h =
    h.client_id
    ++ (h.instance_nonce
        ++ (h.nonce
            ++ (put_uint 8 (unix_word h.time)
                ++ (put_uint 2 h.weight ++ (length h.path_name % 256 ∷ [])))))

-- Hello.Marshal
unfoldable pub marshal_hello : Hmac → Bytes → Hello → Result Error Bytes
marshal_hello hmac key h =
    let signed = hello_fixed h ++ h.path_name in
    if ltb 63 (length h.path_name)
    then err other
    else if bytes_eq h.instance_nonce zero_nonce
    then err other
    else ok (signed ++ sign hmac key (hello_label 2) signed)

-- The fields of a hello of version 2, before any check.
unfoldable pub hello_v2 : Bytes → Hello
hello_v2 b = record {
  client_id = slice 0 16 b;
  instance_nonce = slice 16 32 b;
  nonce = slice 32 48 b;
  time = unix_time (get_uint (slice 48 56 b));
  path_name = slice 59 (length b - 32) b;
  weight = get_uint (slice 56 58 b);
  wire_version = 2;
}

unfoldable pub hello_v1 : Bytes → Hello
hello_v1 b = record {
  client_id = slice 0 16 b;
  instance_nonce = zero_nonce;
  nonce = slice 16 32 b;
  time = unix_time (get_uint (slice 32 40 b));
  path_name = slice 43 (length b - 32) b;
  weight = get_uint (slice 40 42 b);
  wire_version = 1;
}

-- The tag of a hello, over all that stands before it.
unfoldable pub is_signed : Hmac → Bytes → Bytes → Bytes → Bool
is_signed hmac key label b =
    let mac_at = length b - 32 in
    bytes_eq (sign hmac key label (slice 0 mac_at b)) (slice_from mac_at b)

unfoldable pub parse_hello_v2 : Hmac → Bytes → Bytes → ℤ → Result Error Hello
parse_hello_v2 hmac b key now =
    let h = hello_v2 b in
    if not (is_signed hmac key (hello_label 2) b)
    then err auth
    else if bytes_eq h.instance_nonce zero_nonce || h.weight == 0
    then err bad_packet
    else if is_skewed now h.time
    then err clock_skew
    else ok h

unfoldable pub parse_hello_v1 : Hmac → Bytes → Bytes → ℤ → Result Error Hello
parse_hello_v1 hmac b key now =
    let h = hello_v1 b in
    if ltb (length b) hello_v1_fixed_size
    then err bad_packet
    else if not (length b == hello_v1_fixed_size + byte_at 42 b)
    then err bad_packet
    else if not (is_signed hmac key (hello_label 1) b)
    then err auth
    else if h.weight == 0
    then err bad_packet
    else if is_skewed now h.time
    then err clock_skew
    else ok h

-- ParseHello
unfoldable pub parse_hello : Hmac → Bytes → Bytes → ℤ → Result Error Hello
parse_hello hmac b key now =
    if leb hello_v2_fixed_size (length b) && (length b == hello_v2_fixed_size + byte_at 58 b)
    then parse_hello_v2 hmac b key now
    else parse_hello_v1 hmac b key now
