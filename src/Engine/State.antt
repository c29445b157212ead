-- ===== src/Engine/State.antt =====
-- The relay's state. A session object is a reference into `heap`, so that the three indexes can
-- share it and a comparison of pointers is one of references. Instants are nanoseconds.
use link_forge.Prelude.{ltb, if◌then◌else◌, ℕ, ◌+◌, ◌-◌, ◌/◌, ◌%◌, Bool, Option, [], ◌∷◌}
use link_forge.Prelude.Int.{ℤ}
use link_forge.Prelude.Map.{Map}
use link_forge.Protocol.Aead.{Aead}
use link_forge.Protocol.Bytes.{Bytes}
use link_forge.Protocol.Ip.{Addr}
use link_forge.Protocol.Replay.{ReplayWindow}
use link_forge.Reorder.{Buffer}

pub record Credential : Type 0 where
  pub name : Bytes
  pub client_id : Bytes  -- [16]byte
  pub key : Bytes
  pub tunnel_ip : Addr

pub record ServerPath : Type 0 where
  pub id : ℕ  -- uint32
  pub session_id : ℕ  -- uint64
  pub name : Bytes
  pub client_nonce : Bytes
  pub server_nonce : Bytes
  pub welcome_packet : Bytes
  pub aead : Aead
  pub sequence : ℕ  -- uint64
  pub weight : ℕ  -- in hundredths, as the hello has it
  pub remote : Option Bytes  -- a net.UDPAddr
  pub replay : ReplayWindow
  pub last_seen : ℤ
  pub healthy : Bool
  pub health_timeout : ℤ

pub record Session : Type 0 where
  pub id : ℕ  -- uint64
  pub credential : Credential
  pub instance_nonce : Bytes
  pub legacy : Bool
  pub created_at : ℤ
  pub last_seen : ℤ
  pub next_path_id : ℕ  -- uint32
  pub reorder : Buffer Bytes
  pub closing : Bool
  pub paths : Map ℕ ServerPath

-- A netip.Prefix: Contains and Addr.
pub record Subnet : Type 0 where
  pub holds : Addr → Bool
  pub own : Addr

pub record Server : Type 0 where
  pub subnet : Option Subnet  -- config.TunnelAddress; none where it does not parse
  pub reorder_window : ℤ
  pub reorder_delay : ℤ  -- ReorderDelay.Value(80ms)
  pub credentials : Map Bytes Credential
  pub heap : Map ℕ Session
  pub next_ref : ℕ
  pub sessions : Map ℕ ℕ
  pub session_by_client : Map Bytes ℕ
  pub session_by_ip : Map Addr ℕ
  pub active_sessions : ℤ

-- encoding/hex's digits.
abbrev hex_digit : ℕ → ℕ
hex_digit n = if ltb n 10 then b'0' + n else b'a' + n - 10

-- protocol.ClientIDString
unfoldable pub client_id_string : Bytes → Bytes
client_id_string [] = []
client_id_string (b ∷ bs) = hex_digit (b / 16) ∷ hex_digit (b % 16) ∷ client_id_string bs

-- The key of a session's client in the maps.
abbrev pub id_text : Session → Bytes
id_text session = client_id_string session.credential.client_id

abbrev pub tunnel_ip_of : Session → Addr
tunnel_ip_of session = session.credential.tunnel_ip
