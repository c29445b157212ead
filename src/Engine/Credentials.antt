-- ===== src/Engine/Credentials.antt =====
-- AuthorizeClient and RevokeClient of internal/engine/server.go.
pub mod Revocation
pub mod Authorization
use link_forge.Engine.Registry.{terminate_client_session}
use link_forge.Engine.State.{Credential, Subnet, Server, client_id_string, id_text}
use link_forge.Prelude.{if◌then◌else◌, Bool, false, not, ◌&&◌, ◌||◌, Option, none, some, [], ◌∷◌}
use link_forge.Prelude.Map.{Map, lookup, put, delete}
use link_forge.Protocol.Bytes.{Bytes, Bytes-discrete, bytes_eq}
use link_forge.Protocol.Ip.{Addr, is_v4, addr_eq}

-- config.ClientCredential with its fields parsed: none where ParseClientID, Key or ParsePrefix fails.
pub record Configured : Type 0 where
  pub configured_name : Bytes
  pub parsed_id : Option Bytes
  pub parsed_key : Option Bytes
  pub parsed_address : Option Addr

pub data AuthorizeError : Type 0 where
  bad_id bad_key bad_address bad_subnet outside_subnet ip_assigned key_assigned : AuthorizeError

-- The scan of the other clients' credentials.
unfoldable pub conflict : Bytes → Credential → Map Bytes Credential → Option AuthorizeError
conflict id_text credential [] = none
conflict id_text credential ((other_id, existing) ∷ rest) =
    if not (bytes_eq other_id id_text) && addr_eq existing.tunnel_ip credential.tunnel_ip
    then some ip_assigned
    else if not (bytes_eq other_id id_text) && bytes_eq existing.key credential.key
    then some key_assigned
    else conflict id_text credential rest

-- The credential differs from the one that it replaces in a way that ends the session.
abbrev pub is_replaced : Option Credential → Credential → Bool
is_replaced none credential = false
is_replaced (some previous) credential =
    not (bytes_eq previous.key credential.key)
    || not (addr_eq previous.tunnel_ip credential.tunnel_ip)

-- The part of AuthorizeClient behind the parsing.
unfoldable pub install_credential : Server → Credential → Server × Option AuthorizeError
install_credential s credential =
    let text = client_id_string credential.client_id in
    let previous = lookup Bytes-discrete text s.credentials in
    let installed = record s { credentials = put Bytes-discrete text credential s.credentials } in
    elim (conflict text credential s.credentials) [
      | some e ↦ (s, some e)
      | none ↦ (
        if is_replaced previous credential
            then terminate_client_session installed text
            else installed,
        none,
      )
    ]

-- The address must be IPv4, inside the relay's own prefix and not the relay's own.
unfoldable pub authorize_address :
    Server → Credential → Option Subnet → Server × Option AuthorizeError
authorize_address s credential none =
    (s, some (if is_v4 credential.tunnel_ip then bad_subnet else bad_address))
authorize_address s credential (some subnet) =
    if not (is_v4 credential.tunnel_ip)
    then (s, some bad_address)
    else if not (subnet.holds credential.tunnel_ip) || addr_eq credential.tunnel_ip subnet.own
    then (s, some outside_subnet)
    else install_credential s credential

unfoldable pub authorize_parsed :
    Server → Bytes → Option Bytes → Option Bytes → Option Addr → Server × Option AuthorizeError
authorize_parsed s name none key address = (s, some bad_id)
authorize_parsed s name (some id) none address = (s, some bad_key)
authorize_parsed s name (some id) (some key) none = (s, some bad_address)
authorize_parsed s name (some id) (some key) (some address) =
    authorize_address s (record { name = name; client_id = id; key = key; tunnel_ip = address })
      s.subnet

unfoldable pub authorize_client : Server → Configured → Server × Option AuthorizeError
authorize_client s c =
    authorize_parsed s c.configured_name c.parsed_id c.parsed_key c.parsed_address

-- RevokeClient, for the result of ParseClientID.
unfoldable pub revoke_client : Server → Option Bytes → Server
revoke_client s none = s
revoke_client s (some id) =
    let text = client_id_string id in
    terminate_client_session (record s { credentials = delete Bytes-discrete text s.credentials })
      text
