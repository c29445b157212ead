-- ===== src/Protocol/Header.antt =====
-- The packet header of internal/protocol/protocol.go: Header, MarshalBinary, ParseHeader.
pub mod RoundTrip
use link_forge.Prelude.{
  ltb, ◌==◌, if◌then◌else◌, length, Result, ok, err, ℕ, ◌-◌, ◌*◌, ◌^◌, ◌<◌, ◌≡◌, refl, Bool, not,
  ◌||◌, [], ◌∷◌, ◌++◌,
}
use link_forge.Protocol.Bytes.{Bytes, slice, byte_at, bytes_eq, put_uint, get_uint}

-- The sentinel errors, and `other` for the errors that carry only a text.
pub data Error : Type 0 where
  bad_packet auth replay clock_skew version payload_too_big other : Error

abbrev pub header_size : ℕ
header_size = 28

abbrev pub tag_size : ℕ
tag_size = 16

abbrev pub max_datagram : ℕ
max_datagram = 64 * 1024

abbrev pub max_payload : ℕ
max_payload = max_datagram - header_size - tag_size

abbrev pub max_data_payload : ℕ
max_data_payload = max_payload - 8

abbrev pub wire_version : ℕ
wire_version = 1

-- "LFMP"
abbrev pub magic : Bytes
magic = 0x4c ∷ 0x46 ∷ 0x4d ∷ 0x50 ∷ []

-- The packet types; the field of a header is any uint8.
abbrev pub type_hello : ℕ
type_hello = 1

abbrev pub type_welcome : ℕ
type_welcome = 2

abbrev pub type_data : ℕ
type_data = 3

abbrev pub type_ping : ℕ
type_ping = 4

abbrev pub type_pong : ℕ
type_pong = 5

abbrev pub type_probe : ℕ
type_probe = 6

abbrev pub type_probe_reply : ℕ
type_probe_reply = 7

abbrev pub type_close : ℕ
type_close = 8

pub data Direction : Type 0 where
  client_to_server server_to_client : Direction

pub record Header : Type 0 where
  pub packet_type : ℕ  -- uint8
  pub flags : ℕ  -- uint16
  pub session_id : ℕ  -- uint64
  pub path_id : ℕ  -- uint32
  pub sequence : ℕ  -- uint64

-- Each field fits its width.
pub record IsHeader (h : Header) : Type 0 where
  pub packet_type_fits : h.packet_type < 256 ^ 1
  pub flags_fit : h.flags < 256 ^ 2
  pub session_id_fits : h.session_id < 256 ^ 8
  pub path_id_fits : h.path_id < 256 ^ 4
  pub sequence_fits : h.sequence < 256 ^ 8

unfoldable pub marshal_binary : Header → Bytes
marshal_binary h =
    magic
    ++ (wire_version
        ∷ h.packet_type
        ∷ (put_uint 2 h.flags
            ++ (put_uint 8 h.session_id ++ (put_uint 4 h.path_id ++ put_uint 8 h.sequence))))

unfoldable pub parse_header : Bytes → Result Error Header
parse_header packet =
    if ltb (length packet) header_size || not (bytes_eq (slice 0 4 packet) magic)
    then err bad_packet
    else if not (byte_at 4 packet == wire_version)
    then err version
    else ok (record {
      packet_type = byte_at 5 packet;
      flags = get_uint (slice 6 8 packet);
      session_id = get_uint (slice 8 16 packet);
      path_id = get_uint (slice 16 20 packet);
      sequence = get_uint (slice 20 28 packet);
    })

unfoldable pub is_handshake : ℕ → Bool
is_handshake t = t == type_hello || t == type_welcome

pub length-marshal_binary : (h : Header) → length (marshal_binary h) ≡ header_size
unfolding marshal_binary put_uint
length-marshal_binary h = refl
