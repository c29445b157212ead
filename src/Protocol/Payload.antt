-- ===== src/Protocol/Payload.antt =====
-- The payloads of internal/protocol/protocol.go: MarshalPlain, PlainPayload, MarshalData, ParseData.

-- A handshake packet is a header with its payload in the clear.
use link_forge.Prelude.{
  ltb, ◌==◌, if◌then◌else◌, length, length-append, take-append, drop-append, Result, ok, err, ℕ,
  ◌^◌, ◌≤◌, ◌<◌, ◌≡◌, ◌||◌, ◌++◌, arith,
}
use link_forge.Protocol.Bytes.{
  Bytes, slice, slice_from, put_uint, get_uint, get_uint-put_uint, length-put_uint,
}
use link_forge.Protocol.Header.{
  Error, bad_packet, payload_too_big, header_size, max_datagram, max_payload, max_data_payload,
  Header, IsHeader, marshal_binary, parse_header, length-marshal_binary,
}
use link_forge.Protocol.Header.RoundTrip.{parse_header-marshal_binary}

unfoldable pub marshal_plain : Header → Bytes → Result Error Bytes
marshal_plain header payload =
    if ltb max_payload (length payload)
    then err payload_too_big
    else ok (marshal_binary header ++ payload)

unfoldable pub plain_payload : Bytes → Result Error Bytes
plain_payload packet =
    if ltb (length packet) header_size then err bad_packet else ok (slice_from header_size packet)

-- The plaintext of a data packet: the global sequence number and the IP packet.
unfoldable pub marshal_data : ℕ → Bytes → Result Error Bytes
marshal_data sequence ip_packet =
    if ltb max_data_payload (length ip_packet)
    then err payload_too_big
    else ok (put_uint 8 sequence ++ ip_packet)

unfoldable pub parse_data : Bytes → Result Error (ℕ × Bytes)
parse_data payload =
    let sequence = get_uint (slice 0 8 payload) in
    if ltb (length payload) 9
    then err bad_packet
    else if sequence == 0
    then err bad_packet
    else ok (sequence, slice_from 8 payload)

slice_from-marshal :
    (h : Header) (payload : Bytes) → slice_from 28 (marshal_binary h ++ payload) ≡ payload
unfolding slice_from
slice_from-marshal h payload = drop-append 28 (marshal_binary h) payload (length-marshal_binary h)

-- A packet that MarshalPlain built has its header and its payload read back, and fits a datagram.
pub plain_payload-marshal_plain :
    (h : Header) (payload packet : Bytes)
    → IsHeader h
    → marshal_plain h payload ≡ ok packet
    → (parse_header packet ≡ ok h)
      × (plain_payload packet ≡ ok payload)
      × (length packet ≤ max_datagram)
unfolding marshal_plain plain_payload
plain_payload-marshal_plain h payload packet v e =
    let same : packet ≡ marshal_binary h ++ payload = ground arith in
    let short : length payload ≤ max_payload = ground arith in
    rw same (
      parse_header-marshal_binary h payload v,
      ground (
        arith,
        length-append (marshal_binary h) payload,
        length-marshal_binary h,
        slice_from-marshal h payload,
      ),
      omega (arith, length-append (marshal_binary h) payload, length-marshal_binary h),
    )

get_uint-slice :
    (n : ℕ) (rest : Bytes) → n < 2 ^ 64 → get_uint (slice 0 8 (put_uint 8 n ++ rest)) ≡ n
unfolding slice
get_uint-slice n rest h =
    rw (take-append 8 (put_uint 8 n) rest (length-put_uint 8 n)) (get_uint-put_uint 8 n h)

slice_from-put_uint : (n : ℕ) (rest : Bytes) → slice_from 8 (put_uint 8 n ++ rest) ≡ rest
unfolding slice_from
slice_from-put_uint n rest = drop-append 8 (put_uint 8 n) rest (length-put_uint 8 n)

-- ParseData refuses the payload that MarshalData built for a 64-bit sequence number where the
-- number is 0 or the packet is empty, and otherwise returns both.
pub parse_data-marshal_data :
    (sequence : ℕ) (ip payload : Bytes)
    → sequence < 2 ^ 64
    → marshal_data sequence ip ≡ ok payload
    → parse_data payload
      ≡ (if sequence == 0 || length ip == 0 then err bad_packet else ok (sequence, ip))
unfolding marshal_data parse_data
parse_data-marshal_data sequence ip payload v e =
    let same : payload ≡ put_uint 8 sequence ++ ip = ground arith in
    rw same (
      ground (
        arith,
        get_uint-slice sequence ip v,
        slice_from-put_uint sequence ip,
        length-append (put_uint 8 sequence) ip,
        length-put_uint 8 sequence,
      ))
