-- ===== src/Engine/Startup.antt =====
-- NewServer of internal/engine/server.go: the relay of a configuration.
pub mod Validated
use link_forge.Config.{ClientCredential, ServerConfig, value_or}
use link_forge.Config.Checks.{resolve_key}
use link_forge.Config.Host.{Prefix, Host, parse_client_id}
use link_forge.Engine.Credentials.{Configured, AuthorizeError, authorize_client}
use link_forge.Engine.State.{Subnet, Server}
use link_forge.Prelude.{
  Result, err, ok, ◌*◌, ◌^◌, Bool, true, false, Option, none, some, List, [], ◌∷◌,
}
use link_forge.Prelude.Int.{pos}
use link_forge.Protocol.Ip.{Addr}

abbrev pub result_value : {E A : Type 0} → Result E A → Option A
result_value (err e) = none
result_value (ok a) = some a

abbrev pub prefix_address : Option Prefix → Option Addr
prefix_address none = none
prefix_address (some p) = some p.address

abbrev pub subnet_of : Option Prefix → Option Subnet
subnet_of none = none
subnet_of (some p) = some (record { holds = p.contains; own = p.address })

-- The fields that AuthorizeClient parses first.
unfoldable pub configured_of : Host → ClientCredential → Configured
configured_of host c = record {
  configured_name = c.name;
  parsed_id = parse_client_id c.client_id;
  parsed_key = result_value (resolve_key host c.psk c.psk_env);
  parsed_address = prefix_address (host.parse_prefix c.tunnel_address);
}

abbrev pub empty_server : Host → ServerConfig → Server
empty_server host config = record {
  subnet = subnet_of (host.parse_prefix config.tunnel_address);
  reorder_window = config.reorder_window;
  reorder_delay = value_or config.reorder_delay (pos (80 * 10 ^ 6));
  credentials = [];
  heap = [];
  next_ref = 0;
  sessions = [];
  session_by_client = [];
  session_by_ip = [];
  active_sessions = pos 0;
}

abbrev pub continue_with :
    (Server → Result AuthorizeError Server)
    → Server × Option AuthorizeError
    → Result AuthorizeError Server
continue_with next (s, some e) = err e
continue_with next (s, none) = next s

-- The loop over the configured clients.
unfoldable pub authorize_all : Host → List ClientCredential → Server → Result AuthorizeError Server
authorize_all host [] s = ok s
authorize_all host (c ∷ cs) s =
    continue_with (authorize_all host cs) (authorize_client s (configured_of host c))

pub data StartError : Type 0 where
  no_device : StartError
  not_authorized : AuthorizeError → StartError

-- With a TUN device, or without one.
unfoldable pub new_server : Host → (has_device : Bool) → ServerConfig → Result StartError Server
new_server host false config = err no_device
new_server host true config = elim (authorize_all host config.clients (empty_server host config)) [
  | err e ↦ err (not_authorized e)
  | ok s ↦ ok s
]
