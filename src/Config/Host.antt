-- ===== src/Config/Host.antt =====
-- What the settings are checked against: the environment, and the texts that Go's net, netip and
-- encoding packages read.
use link_forge.Prelude.{
  leb, ◌==◌, if◌then◌else◌, length, ℕ, ◌+◌, ◌-◌, ◌*◌, Bool, ◌&&◌, Option, none, some, [], ◌∷◌,
}
use link_forge.Prelude.Text.{trim_space, remove_all}
use link_forge.Protocol.Bytes.{Bytes}
use link_forge.Protocol.Ip.{Addr}

-- A netip.Prefix: Addr, Bits, Contains and the address of Masked.
pub record Prefix : Type 0 where
  pub address : Addr
  pub bits : ℕ
  pub contains : Addr → Bool
  pub network : Addr

pub record Host : Type 0 where
  pub parse_prefix : Bytes → Option Prefix  -- netip.ParsePrefix
  pub is_ip : Bytes → Bool  -- net.ParseIP gives an address
  pub is_loopback_ip : Bytes → Bool  -- and IsLoopback holds of it
  pub split_host : Bytes → Option Bytes  -- the host of net.SplitHostPort
  pub resolves : Bytes → Bool  -- net.ResolveUDPAddr gives no error
  pub decode_base64 : Bytes → Option Bytes  -- base64.StdEncoding.DecodeString
  pub getenv : Bytes → Bytes  -- os.Getenv

hex_value : ℕ → Option ℕ
hex_value c =
    if leb b'0' c && leb c b'9'
    then some (c - b'0')
    else if leb b'a' c && leb c b'f'
    then some (c - b'a' + 10)
    else if leb b'A' c && leb c b'F'
    then some (c - b'A' + 10)
    else none

-- hex.DecodeString
unfoldable pub decode_hex : Bytes → Option Bytes
unfolding hex_value
decode_hex [] = some []
decode_hex (a ∷ []) = none
decode_hex (a ∷ b ∷ s) =
    let rest = decode_hex s in
    elim (hex_value a) [
      | none ↦ none
      | some x ↦ elim (hex_value b) [
        | none ↦ none
        | some y ↦ elim rest [ none ↦ none | some bytes ↦ some ((16 * x + y) ∷ bytes) ]
      ]
    ]

-- A decoded text that has the given length.
abbrev pub of_length : ℕ → Option Bytes → Option Bytes
of_length n none = none
of_length n (some b) = if length b == n then some b else none

-- protocol.ParseClientID
unfoldable pub parse_client_id : Bytes → Option Bytes
parse_client_id value = of_length 16 (decode_hex (remove_all b'-' (trim_space value)))

-- The first where it gives a value, and else the fallback.
abbrev pub or_else : Option Bytes → Option Bytes → Option Bytes
or_else none fallback = fallback
or_else (some a) fallback = some a

-- protocol.ParseKey
unfoldable pub parse_key : Host → Bytes → Option Bytes
parse_key host value =
    let text = trim_space value in
    if length text == 0
    then none
    else or_else (of_length 32 (host.decode_base64 text)) (of_length 32 (decode_hex text))
