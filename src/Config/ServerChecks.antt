-- ===== src/Config/ServerChecks.antt =====
-- Server.Validate and Management.Validate.
pub mod Distinct
use link_forge.Config.{ClientCredential, Management, ServerConfig}
use link_forge.Config.Checks.{
  ConfigError, bad_client_id, bad_psk, bad_tunnel_address, tunnel_not_v4, bad_listen_address,
  no_clients, duplicate_id, duplicate_key, duplicate_ip, unusable_ip, not_loopback, no_database,
  no_relay, bad_pool, foreign_pool, pool_range, no_variables, short_token, empty_master,
  millisecond, or_error, validate_tunnel, validate_duration, is_one_of, validate_logging,
  resolve_key, validate_window,
}
use link_forge.Config.Host.{Prefix, Host, parse_client_id, parse_key}
use link_forge.Engine.State.{client_id_string, id_text}
use link_forge.Prelude.{
  Result, ltb, ◌==◌, is_some, length, ok, ◌>>◌, ◌>>=◌, reject, ◌*◌, Bool, true, false, not, ◌&&◌,
  ◌||◌, Option, none, some, List, [], ◌∷◌,
}
use link_forge.Prelude.Text.{codes, trim_space}
use link_forge.Protocol.Bytes.{Bytes, bytes_eq}
use link_forge.Protocol.Ip.{Addr, is_v4, addr_eq}

-- The client ids, keys and addresses of the clients before.
pub record Seen : Type 0 where
  pub ids : List Bytes
  pub keys : List Bytes
  pub ips : List Addr

abbrev pub is_seen : Addr → List Addr → Bool
is_seen ip [] = false
is_seen ip (taken ∷ ips) = elim (addr_eq ip taken) [ true ↦ true | false ↦ is_seen ip ips ]

-- A client that has passed its own checks, and those against the clients before.
unfoldable pub validate_parsed : Prefix → Seen → Bytes → Bytes → Prefix → Result ConfigError Seen
validate_parsed server seen id_text key prefix =
    reject (not (is_v4 prefix.address)) tunnel_not_v4
    >> reject (not (server.contains prefix.address) || addr_eq prefix.address server.address)
        unusable_ip
    >> reject (is_seen prefix.address seen.ips) duplicate_ip
    >> ok (record {
      ids = id_text ∷ seen.ids;
      keys = key ∷ seen.keys;
      ips = prefix.address ∷ seen.ips;
    })

-- One round of the loop over the clients.
unfoldable pub validate_credential :
    Host → Prefix → Seen → ClientCredential → Result ConfigError Seen
validate_credential host server seen c =
    or_error bad_client_id (parse_client_id c.client_id) >>= λ id.
    reject (is_one_of (client_id_string id) seen.ids) duplicate_id
    >> (resolve_key host c.psk c.psk_env >>= λ key.
        reject (is_one_of key seen.keys) duplicate_key
        >> (or_error bad_tunnel_address (host.parse_prefix c.tunnel_address) >>= λ prefix.
            validate_parsed server seen (client_id_string id) key prefix))

unfoldable pub validate_clients :
    Host → Prefix → Seen → List ClientCredential → Result ConfigError Seen
validate_clients host server seen [] = ok seen
validate_clients host server seen (c ∷ cs) =
    validate_credential host server seen c >>= λ seen'. validate_clients host server seen' cs

abbrev pub same_subnet : Prefix → Prefix → Bool
same_subnet p q = addr_eq p.network q.network && p.bits == q.bits

-- Management.Validate
unfoldable pub validate_management : Host → Prefix → Management → Result ConfigError Unit
validate_management host server m =
    (or_error bad_listen_address (host.split_host m.listen) >>= λ name.
    reject (not (bytes_eq name (codes "localhost")) && not (host.is_loopback_ip name)) not_loopback)
    >> reject (length (trim_space m.database_path) == 0) no_database
    >> reject (length (trim_space m.public_relay) == 0) no_relay
    >> reject (not (host.resolves m.public_relay)) no_relay
    >> (or_error bad_pool (host.parse_prefix m.tunnel_pool) >>= λ pool.
        reject (not (is_v4 pool.address)) bad_pool
        >> reject (not (same_subnet pool server)) foreign_pool
        >> reject (ltb 30 pool.bits || ltb pool.bits 16) pool_range)
    >> reject
        (length (trim_space m.admin_token_env) == 0 || length (trim_space m.master_key_env) == 0)
        no_variables
    >> validate_duration m.activation_ttl (60000 * millisecond) (86400000 * millisecond)

abbrev pub validate_optional_management :
    Host → Prefix → Option Management → Result ConfigError Unit
validate_optional_management host server none = ok tt
validate_optional_management host server (some m) = validate_management host server m

abbrev pub no_one : Seen
no_one = record { ids = []; keys = []; ips = [] }

-- The checks of Server.Validate before the clients.
unfoldable pub validate_settings : Host → ServerConfig → Result ConfigError Unit
validate_settings host s =
    reject (not (host.resolves s.listen)) bad_listen_address
    >> validate_tunnel host s.tunnel_address s.mtu
    >> reject (length s.clients == 0 && not (is_some s.management)) no_clients
    >> validate_window s.reorder_window
    >> validate_duration s.reorder_delay millisecond (2000 * millisecond)
    >> validate_duration s.session_timeout (10000 * millisecond) (86400000 * millisecond)
    >> validate_duration s.stats_interval (1000 * millisecond) (86400000 * millisecond)

-- The clients and the management; the prefix is read again once it is known to parse.
unfoldable pub validate_members : Host → ServerConfig → Result ConfigError Unit
validate_members host s =
    or_error bad_tunnel_address (host.parse_prefix s.tunnel_address) >>= λ server.
    validate_clients host server no_one s.clients
    >> validate_optional_management host server s.management

-- Server.Validate
unfoldable pub validate_server : Host → ServerConfig → Result ConfigError Unit
validate_server host s =
    validate_settings host s >> validate_members host s >> validate_logging s.logging

-- Management.Secrets
unfoldable pub secrets : Host → Management → Result ConfigError (Bytes × Bytes)
secrets host m =
    let token = host.getenv m.admin_token_env in
    let master = host.getenv m.master_key_env in
    reject (ltb (length token) 32) short_token
    >> reject (length master == 0) empty_master
    >> (or_error bad_psk (parse_key host master) >>= λ key. ok (token, key))
