-- ===== src/Protocol/Ip/Datagrams.antt =====
-- The packets that SourceIP and DestinationIP accept, described by their parts.
use link_forge.Prelude.{
  ◌==◌, Bool-cases, length, take, drop, length-append, length-take, length-drop, take-append-drop,
  ℕ, ◌+◌, ◌-◌, ◌/◌, ◌≤◌, ◌≡◌, refl, sym, ap, subst, ◌∙◌, ◌↔◌, inl, inr, some, ◌++◌, arith,
}
use link_forge.Protocol.Bytes.{Bytes, slice, slice-append, byte_at, get_uint}
use link_forge.Protocol.Bytes.Slices.{slice_front, byte_at_left, slice_left, drop_cut}
use link_forge.Protocol.Ip.{Addr, v4, v6, ip_version, source_ip, destination_ip}

-- A packet from the one address to the other: 12 bytes of an IPv4 header, which begins with the
-- version and whose third and fourth byte give a total length that the packet has, or 8 bytes of an
-- IPv6 header; then the two addresses and the rest.
pub data Datagram (packet : Bytes) (source destination : Addr) : Type 0 where
  ipv4 :
      (head from to rest : Bytes)
      → packet ≡ head ++ (from ++ (to ++ rest))
      → length head ≡ 12
      → length from ≡ 4
      → length to ≡ 4
      → byte_at 0 head / 16 ≡ 4
      → get_uint (slice 2 4 head) ≤ length packet
      → source ≡ v4 from
      → destination ≡ v4 to
      → Datagram packet source destination
  ipv6 :
      (head from to rest : Bytes)
      → packet ≡ head ++ (from ++ (to ++ rest))
      → length head ≡ 8
      → length from ≡ 16
      → length to ≡ 16
      → byte_at 0 head / 16 ≡ 6
      → source ≡ v6 from
      → destination ≡ v6 to
      → Datagram packet source destination

length-slice : (lo hi : ℕ) (b : Bytes) → lo ≤ hi → hi ≤ length b → length (slice lo hi b) ≡ hi - lo
unfolding slice
length-slice lo hi b h k = omega (arith, length-take (hi - lo) (drop lo b), length-drop lo b)

-- A packet is its first `h` bytes, two parts of `w` bytes, and the rest.
in_parts :
    (h w : ℕ) (packet : Bytes)
    → packet
      ≡ take h packet
        ++ (slice h (h + w) packet ++ (slice (h + w) (h + w + w) packet ++ drop (h + w + w) packet))
in_parts h w packet =
    sym (take-append-drop h packet)
    ∙ ap (λ y. take h packet ++ y)
        (drop_cut h w packet ∙ ap (λ y. slice h (h + w) packet ++ y) (drop_cut (h + w) w packet))

module _ (h w : ℕ) (head from to rest : Bytes) (head_fits : length head ≡ h)
    (from_fits : length from ≡ w) (to_fits : length to ≡ w) where
  from_read : slice (h + 0) (h + w) (head ++ (from ++ (to ++ rest))) ≡ from
  from_read = slice-append h 0 w head _ head_fits ∙ slice_front w from _ from_fits

  to_read : slice (h + (w + 0)) (h + (w + w)) (head ++ (from ++ (to ++ rest))) ≡ to
  to_read =
      slice-append h (w + 0) (w + w) head _ head_fits
      ∙ slice-append w 0 w from _ from_fits
      ∙ slice_front w to _ to_fits

module _ (packet head behind : Bytes) (split : packet ≡ head ++ behind) (n : ℕ)
    (head_fits : length head ≡ n) (long : 4 ≤ n) where
  version_read : byte_at 0 packet ≡ byte_at 0 head
  version_read = ap (byte_at 0) split ∙ byte_at_left 0 head behind (omega arith)

  total_read : slice 2 4 packet ≡ slice 2 4 head
  unfolding slice
  total_read = ap (λ p. take 2 (drop 2 p)) split ∙ slice_left 2 2 head behind (omega arith)

addresses_4 :
    (packet : Bytes)
    → 20 ≤ length packet
    → byte_at 0 packet / 16 ≡ 4
    → get_uint (slice 2 4 packet) ≤ length packet
    → Datagram packet (v4 (slice 12 16 packet)) (v4 (slice 16 20 packet))
addresses_4 packet long version total =
    let split = in_parts 12 4 packet in
    let head_fits : length (take 12 packet) ≡ 12 = omega (arith, length-take 12 packet) in
    ipv4 (take 12 packet) (slice 12 16 packet) (slice 16 20 packet) (drop 20 packet) split head_fits
      (length-slice 12 16 packet (omega arith) (omega arith))
      (length-slice 16 20 packet (omega arith) (omega arith))
      (ap (λ x. x / 16) (sym (version_read packet _ _ split 12 head_fits (omega arith))) ∙ version)
      (subst (λ x. get_uint x ≤ length packet)
        (total_read packet _ _ split 12 head_fits (omega arith)) total)
      refl refl

addresses_6 :
    (packet : Bytes)
    → 40 ≤ length packet
    → byte_at 0 packet / 16 ≡ 6
    → Datagram packet (v6 (slice 8 24 packet)) (v6 (slice 24 40 packet))
addresses_6 packet long version =
    let split = in_parts 8 16 packet in
    let head_fits : length (take 8 packet) ≡ 8 = omega (arith, length-take 8 packet) in
    ipv6 (take 8 packet) (slice 8 24 packet) (slice 24 40 packet) (drop 40 packet) split head_fits
      (length-slice 8 24 packet (omega arith) (omega arith))
      (length-slice 24 40 packet (omega arith) (omega arith))
      (ap (λ x. x / 16) (sym (version_read packet _ _ split 8 head_fits (omega arith))) ∙ version)
      refl refl

module _ (packet head from to rest : Bytes) (split : packet ≡ head ++ (from ++ (to ++ rest))) where
  total_fits :
      (h w : ℕ)
      → length head ≡ h
      → length from ≡ w
      → length to ≡ w
      → length packet ≡ h + w + w + length rest
  total_fits h w head_fits from_fits to_fits = omega (
    arith,
    ap length split,
    length-append head (from ++ (to ++ rest)),
    length-append from (to ++ rest),
    length-append to rest,
  )

  read_4 :
      length head ≡ 12
      → length from ≡ 4
      → length to ≡ 4
      → byte_at 0 head / 16 ≡ 4
      → get_uint (slice 2 4 head) ≤ length packet
      → (source_ip packet ≡ some (v4 from)) × (destination_ip packet ≡ some (v4 to))
  unfolding source_ip destination_ip ip_version
  read_4 head_fits from_fits to_fits version total =
      let long = total_fits 12 4 head_fits from_fits to_fits in
      let first = version_read packet head _ split 12 head_fits (omega arith) in
      let size = ap get_uint (total_read packet head _ split 12 head_fits (omega arith)) in
      let source : slice 12 16 packet ≡ from =
        ap (slice 12 16) split ∙ from_read 12 4 head from to rest head_fits from_fits to_fits in
      let destination : slice 16 20 packet ≡ to =
        ap (slice 16 20) split ∙ to_read 12 4 head from to rest head_fits from_fits to_fits in
      ground arith

  read_6 :
      length head ≡ 8
      → length from ≡ 16
      → length to ≡ 16
      → byte_at 0 head / 16 ≡ 6
      → (source_ip packet ≡ some (v6 from)) × (destination_ip packet ≡ some (v6 to))
  unfolding source_ip destination_ip ip_version
  read_6 head_fits from_fits to_fits version =
      let long = total_fits 8 16 head_fits from_fits to_fits in
      let first = version_read packet head _ split 8 head_fits (omega arith) in
      let source : slice 8 24 packet ≡ from =
        ap (slice 8 24) split ∙ from_read 8 16 head from to rest head_fits from_fits to_fits in
      let destination : slice 24 40 packet ≡ to =
        ap (slice 24 40) split ∙ to_read 8 16 head from to rest head_fits from_fits to_fits in
      ground arith

module _ (packet : Bytes) where
  source_ip_inv : (a : Addr) → source_ip packet ≡ some a → (b : Addr) × Datagram packet a b
  unfolding source_ip ip_version
  source_ip_inv a h = elim (Bool-cases (ip_version packet == 4)) [
    | inl four ↦
        let e : a ≡ v4 (slice 12 16 packet) = ground arith in
        (
          v4 (slice 16 20 packet),
          subst (λ x. Datagram packet x (v4 (slice 16 20 packet))) (sym e)
              (addresses_4 packet (ground arith) (ground arith) (ground arith)),
        )
    | inr other ↦
        let e : a ≡ v6 (slice 8 24 packet) = ground arith in
        (
          v6 (slice 24 40 packet),
          subst (λ x. Datagram packet x (v6 (slice 24 40 packet))) (sym e)
              (addresses_6 packet (ground arith) (ground arith)),
        )
  ]

  destination_ip_inv :
      (b : Addr) → destination_ip packet ≡ some b → (a : Addr) × Datagram packet a b
  unfolding destination_ip ip_version
  destination_ip_inv b h = elim (Bool-cases (ip_version packet == 4)) [
    | inl four ↦
        let e : b ≡ v4 (slice 16 20 packet) = ground arith in
        (
          v4 (slice 12 16 packet),
          subst (Datagram packet (v4 (slice 12 16 packet))) (sym e)
              (addresses_4 packet (ground arith) (ground arith) (ground arith)),
        )
    | inr other ↦
        let e : b ≡ v6 (slice 24 40 packet) = ground arith in
        (
          v6 (slice 8 24 packet),
          subst (Datagram packet (v6 (slice 8 24 packet))) (sym e)
              (addresses_6 packet (ground arith) (ground arith)),
        )
  ]

Datagram-addresses :
    (packet : Bytes) (a b : Addr)
    → Datagram packet a b
    → (source_ip packet ≡ some a) × (destination_ip packet ≡ some b)
Datagram-addresses packet a b (ipv4 head from to rest split hf ff tf version total source end) =
    let (r, s) = read_4 packet head from to rest split hf ff tf version total in
    (r ∙ ap some (sym source), s ∙ ap some (sym end))
Datagram-addresses packet a b (ipv6 head from to rest split hf ff tf version source end) =
    let (r, s) = read_6 packet head from to rest split hf ff tf version in
    (r ∙ ap some (sym source), s ∙ ap some (sym end))

-- SourceIP answers with an address exactly where the packet is a datagram from it, and DestinationIP
-- exactly where it is a datagram to it; so both accept the same packets.
pub source_ip-destination_ip :
    (packet : Bytes) (a b : Addr)
    → ((source_ip packet ≡ some a) ↔ ((to : Addr) × Datagram packet a to))
      × ((destination_ip packet ≡ some b) ↔ ((from : Addr) × Datagram packet from b))
source_ip-destination_ip packet a b = (
  (source_ip_inv packet a, λ d. (Datagram-addresses packet a d.0 d.1).0),
  (destination_ip_inv packet b, λ d. (Datagram-addresses packet d.0 b d.1).1),
)
