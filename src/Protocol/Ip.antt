-- ===== src/Protocol/Ip.antt =====
-- internal/protocol/ip.go: the addresses of an IP packet. An address is netip's, by its family.
pub mod Datagrams
use link_forge.Prelude.{
  ltb, ◌==◌, if◌then◌else◌, length, ◌/◌, ◌≡◌, ap, Bool, true, false, ◌||◌, Option, none, some, ℕ,
  ℕ_discrete,
}
use link_forge.Protocol.Bytes.{
  Bytes, slice, byte_at, bytes_eq, bytes_eq→eq, bytes_eq_refl, get_uint,
}

-- What netip.AddrFrom4 and netip.AddrFrom16 give.
pub data Addr : Type 0 where
  v4 : Bytes → Addr
  v6 : Bytes → Addr

-- Addr.Is4
abbrev pub is_v4 : Addr → Bool
is_v4 (v4 b) = true
is_v4 (v6 b) = false

unfoldable pub Addr-discrete : Discrete Addr
Addr-discrete = hlevel ℕ_discrete

-- `==` on netip.Addr
unfoldable pub addr_eq : Addr → Addr → Bool
addr_eq (v4 a) (v4 b) = bytes_eq a b
addr_eq (v6 a) (v6 b) = bytes_eq a b
addr_eq (v4 a) (v6 b) = false
addr_eq (v6 a) (v4 b) = false

pub addr_eq→eq : (a b : Addr) → addr_eq a b ≡ true → a ≡ b
unfolding addr_eq
addr_eq→eq (v4 a) (v4 b) h = ap v4 (bytes_eq→eq a b h)
addr_eq→eq (v6 a) (v6 b) h = ap v6 (bytes_eq→eq a b h)
addr_eq→eq (v4 a) (v6 b) h = cc
addr_eq→eq (v6 a) (v4 b) h = cc

pub addr_eq_refl : (a : Addr) → addr_eq a a ≡ true
unfolding addr_eq
addr_eq_refl (v4 a) = bytes_eq_refl a
addr_eq_refl (v6 a) = bytes_eq_refl a

pub eq→addr_eq : (a b : Addr) → a ≡ b → addr_eq a b ≡ true
eq→addr_eq a b e = rw e (addr_eq_refl b)

unfoldable pub ip_version : Bytes → ℕ
ip_version packet = if length packet == 0 then 0 else byte_at 0 packet / 16

unfoldable pub source_ip : Bytes → Option Addr
source_ip packet =
    if ip_version packet == 4
    then (if ltb (length packet) 20 || ltb (length packet) (get_uint (slice 2 4 packet))
        then none
        else some (v4 (slice 12 16 packet)))
    else if ip_version packet == 6
    then (if ltb (length packet) 40 then none else some (v6 (slice 8 24 packet)))
    else none

unfoldable pub destination_ip : Bytes → Option Addr
destination_ip packet =
    if ip_version packet == 4
    then (if ltb (length packet) 20 || ltb (length packet) (get_uint (slice 2 4 packet))
        then none
        else some (v4 (slice 16 20 packet)))
    else if ip_version packet == 6
    then (if ltb (length packet) 40 then none else some (v6 (slice 24 40 packet)))
    else none
