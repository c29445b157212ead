-- ===== src/Protocol/Aead.antt =====
-- Seal, Open and packetNonce of internal/protocol/protocol.go, over any AEAD cipher.

-- crypto/cipher's AEAD: `seal` is what Seal appends to its destination, `open` is `none` for the
-- authentication error. Opening with the same nonce and data gives the plaintext back, and the
-- ciphertext is 16 bytes longer than the plaintext.
use link_forge.Prelude.{
  ltb, if◌then◌else◌, le→ltb, length, take, drop, length-append, take-append, drop-append, Result,
  ok, err, ℕ, ◌+◌, ◌%◌, ◌^◌, ◌≤◌, ◌<◌, ◌≡◌, sym, ap, ◌∙◌, Option, none, some, ◌++◌, arith,
}
use link_forge.Protocol.Bytes.{
  Bytes, slice, slice_from, put_uint, get_uint, get_uint-put_uint, length-put_uint,
}
use link_forge.Protocol.Header.{
  Error, bad_packet, auth, payload_too_big, header_size, tag_size, max_datagram, max_payload,
  Direction, client_to_server, server_to_client, Header, IsHeader, marshal_binary, parse_header,
  length-marshal_binary,
}
use link_forge.Protocol.Header.RoundTrip.{parse_header-marshal_binary}

pub record Aead : Type 0 where
  pub seal_bytes : Bytes → Bytes → Bytes → Bytes
  pub open_bytes : Bytes → Bytes → Bytes → Option Bytes
  pub open-seal :
      (nonce plaintext aad : Bytes)
      → open_bytes nonce (seal_bytes nonce plaintext aad) aad ≡ some plaintext
  pub length-seal :
      (nonce plaintext aad : Bytes)
      → length (seal_bytes nonce plaintext aad) ≡ length plaintext + tag_size

-- The top bit of the path id, set by `|= 1 << 31` for the server and cleared by `&^= 1 << 31` for
-- the client, tells the two directions of a path apart.
unfoldable pub direction_id : ℕ → Direction → ℕ
direction_id path_id server_to_client = path_id % 2 ^ 31 + 2 ^ 31
direction_id path_id client_to_server = path_id % 2 ^ 31

unfoldable pub packet_nonce : ℕ → ℕ → Direction → Bytes
packet_nonce path_id sequence direction =
    put_uint 4 (direction_id path_id direction) ++ put_uint 8 sequence

unfoldable pub seal : Aead → Header → Direction → Bytes → Result Error Bytes
seal aead header direction plaintext =
    let aad = marshal_binary header in
    if ltb max_payload (length plaintext)
    then err payload_too_big
    else ok (
        aad
        ++ aead.seal_bytes (packet_nonce header.path_id header.sequence direction) plaintext aad)

unfoldable pub open_packet : Aead → Header → Direction → Bytes → Result Error Bytes
open_packet aead header direction packet =
    if ltb (length packet) (header_size + tag_size)
    then err bad_packet
    else elim (aead.open_bytes (packet_nonce header.path_id header.sequence direction)
        (slice_from header_size packet) (slice 0 header_size packet)) [
          | none ↦ err auth
          | some plaintext ↦ ok plaintext
        ]

direction_id-lt : (path_id : ℕ) (d : Direction) → direction_id path_id d < 256 ^ 4
unfolding direction_id
direction_id-lt path_id server_to_client = omega arith
direction_id-lt path_id client_to_server = omega arith

direction_id_injective :
    (p q : ℕ) (d e : Direction)
    → p < 2 ^ 31
    → q < 2 ^ 31
    → direction_id p d ≡ direction_id q e
    → (p ≡ q) × (d ≡ e)
unfolding direction_id
direction_id_injective p q d e hp hq h = ground arith

packet_nonce_path :
    (p s : ℕ) (d : Direction) → take 4 (packet_nonce p s d) ≡ put_uint 4 (direction_id p d)
unfolding packet_nonce
packet_nonce_path p s d = take-append 4 _ _ (length-put_uint 4 _)

packet_nonce_sequence : (p s : ℕ) (d : Direction) → drop 4 (packet_nonce p s d) ≡ put_uint 8 s
unfolding packet_nonce
packet_nonce_sequence p s d = drop-append 4 _ _ (length-put_uint 4 _)

put_uint_injective : (k m n : ℕ) → m < 256 ^ k → n < 256 ^ k → put_uint k m ≡ put_uint k n → m ≡ n
put_uint_injective k m n hm hn e =
    sym (get_uint-put_uint k m hm) ∙ ap get_uint e ∙ get_uint-put_uint k n hn

-- Two packets with path ids below 2^31 and sequence numbers below 2^64 have the same nonce only
-- if their path ids, their sequence numbers and their directions are the same.
pub packet_nonce_injective :
    (p q s t : ℕ) (d e : Direction)
    → p < 2 ^ 31
    → q < 2 ^ 31
    → s < 2 ^ 64
    → t < 2 ^ 64
    → packet_nonce p s d ≡ packet_nonce q t e
    → (p ≡ q) × (s ≡ t) × (d ≡ e)
packet_nonce_injective p q s t d e hp hq hs ht same =
    let ids : direction_id p d ≡ direction_id q e =
      put_uint_injective 4 _ _ (direction_id-lt p d) (direction_id-lt q e)
        (sym (packet_nonce_path p s d) ∙ ap (take 4) same ∙ packet_nonce_path q t e) in
    let both = direction_id_injective p q d e hp hq ids in
    (
      both.0,
      put_uint_injective 8 s t hs ht
          (sym (packet_nonce_sequence p s d) ∙ ap (drop 4) same ∙ packet_nonce_sequence q t e),
      both.1,
    )

slice-marshal :
    (h : Header) (rest : Bytes) → slice 0 28 (marshal_binary h ++ rest) ≡ marshal_binary h
unfolding slice
slice-marshal h rest = take-append 28 (marshal_binary h) rest (length-marshal_binary h)

slice_from-marshal : (h : Header) (rest : Bytes) → slice_from 28 (marshal_binary h ++ rest) ≡ rest
unfolding slice_from
slice_from-marshal h rest = drop-append 28 (marshal_binary h) rest (length-marshal_binary h)

-- What Seal returns, and the bound that it has checked.
seal_inv :
    (aead : Aead) (h : Header) (d : Direction) (plaintext packet : Bytes)
    → seal aead h d plaintext ≡ ok packet
    → (packet
        ≡ marshal_binary h
          ++ aead.seal_bytes (packet_nonce h.path_id h.sequence d) plaintext (marshal_binary h))
      × (length plaintext ≤ max_payload)
unfolding seal
seal_inv aead h d plaintext packet e = (ground arith, ground arith)

open_packet_sealed :
    (aead : Aead) (h : Header) (d : Direction) (plaintext : Bytes)
    → let nonce = packet_nonce h.path_id h.sequence d in
      let sealed = marshal_binary h ++ aead.seal_bytes nonce plaintext (marshal_binary h) in
      (open_packet aead h d sealed ≡ ok plaintext) × (length sealed ≡ length plaintext + 44)
unfolding open_packet
open_packet_sealed aead h d plaintext =
    let nonce = packet_nonce h.path_id h.sequence d in
    let aad = marshal_binary h in
    let body = aead.seal_bytes nonce plaintext aad in
    let long : length (aad ++ body) ≡ length plaintext + 44 = omega (
      arith,
      length-append aad body,
      length-marshal_binary h,
      aead.length-seal nonce plaintext aad,
    ) in
    (
      rw (slice-marshal h body, slice_from-marshal h body, aead.open-seal nonce plaintext aad)
          (rw (le→ltb (length (aad ++ body)) 44 (omega arith))),
      long,
    )

-- Where Seal succeeds on a header within its widths, the packet has that header read back, opens to
-- the plaintext under it and the same direction, and is at most max_datagram long.
pub open_packet-seal :
    (aead : Aead) (h : Header) (d : Direction) (plaintext packet : Bytes)
    → IsHeader h
    → seal aead h d plaintext ≡ ok packet
    → (parse_header packet ≡ ok h)
      × (open_packet aead h d packet ≡ ok plaintext)
      × (length packet ≤ max_datagram)
open_packet-seal aead h d plaintext packet v e =
    let (same, short) = seal_inv aead h d plaintext packet e in
    let (opened, long) = open_packet_sealed aead h d plaintext in
    rw same (parse_header-marshal_binary h _ v, opened, omega arith)
