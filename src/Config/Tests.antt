-- ===== src/Config/Tests.antt =====
-- A relay with two clients, and a client with one path.
use link_forge.Config.{Logging, ClientConfig, ClientCredential, ServerConfig, effective_routes}
use link_forge.Config.Bounds.{
  Within, Duration, UsablePath, validate_server_bounds, Unrepeated, validate_client_bounds,
}
use link_forge.Config.Checks.{
  duplicate_key, millisecond, validate_path, validate_tunnel, validate_duration, validate_logging,
  resolve_key, validate_window,
}
use link_forge.Config.ClientChecks.{validate_paths, validate_routes, validate_client}
use link_forge.Config.Host.{Prefix, Host, decode_hex, parse_client_id, parse_key}
use link_forge.Config.ServerChecks.{
  validate_parsed, validate_credential, validate_clients, validate_settings, validate_members,
  validate_server,
}
use link_forge.Engine.Registry.Invariant.{IsRelay}
use link_forge.Engine.Startup.{new_server}
use link_forge.Engine.Startup.Validated.{new_server-validated}
use link_forge.Engine.State.{Server, client_id_string}
use link_forge.Prelude.{
  length, All, err, ok, ℕ, ◌*◌, ◌≡◌, refl, ◌≢◌, true, false, none, some, [], ◌∷◌,
}
use link_forge.Prelude.Int.{pos}
use link_forge.Prelude.Text.{codes, trim_space, to_lower, remove_all}
use link_forge.Protocol.Bytes.{Bytes, bytes_eq}
use link_forge.Protocol.Ip.{v4, addr_eq}

abbrev subnet_prefix : ℕ → Prefix
subnet_prefix n = record {
  address = v4 (10 ∷ 0 ∷ 0 ∷ n ∷ []);
  bits = 24;
  contains = λ a. true;
  network = v4 (10 ∷ 0 ∷ 0 ∷ 0 ∷ []);
}

-- A host that knows three addresses, each written as its last byte.
abbrev toy_host : Host
toy_host = record {
  parse_prefix = λ s. elim s [ [] ↦ none | n ∷ _ ↦ some (subnet_prefix n) ];
  is_ip = λ s. true;
  is_loopback_ip = λ s. true;
  split_host = λ s. some s;
  resolves = λ s. true;
  decode_base64 = λ s. none;
  getenv = λ s. [];
}

abbrev first_key : Bytes
first_key = codes "000102030405060708090a0b0c0d0e0f000102030405060708090a0b0c0d0e0f"

abbrev second_key : Bytes
second_key = codes "ff0102030405060708090a0b0c0d0e0f000102030405060708090a0b0c0d0e0f"

abbrev toy_client : Bytes → Bytes → ℕ → ClientCredential
toy_client id key n = record {
  name = codes "c";
  client_id = id;
  psk = key;
  psk_env = [];
  tunnel_address = n ∷ [];
}

abbrev plain_logging : Logging
plain_logging = record { level = codes "INFO"; format = codes "json" }

abbrev toy_server : ServerConfig
toy_server = record {
  listen = codes ":4430";
  tunnel_name = codes "linkforge0";
  tunnel_address = 1 ∷ [];
  mtu = pos 1280;
  clients =
      toy_client (codes "000102030405060708090a0b0c0d0e0f") first_key 2
      ∷ toy_client (codes "00010203-0405-0607-0809-0a0b0c0d0eff") second_key 3
      ∷ [];
  configure_interface = true;
  session_timeout = pos 0;
  reorder_delay = pos (80 * millisecond);
  reorder_window = pos 512;
  stats_interval = pos 0;
  logging = plain_logging;
  metrics_listen = [];
  management = none;
}

toy_server_accepted : validate_server toy_host toy_server ≡ ok tt
unfolding validate_server validate_settings validate_members validate_clients validate_credential
    validate_parsed validate_tunnel validate_window validate_duration validate_logging resolve_key
    parse_key parse_client_id trim_space decode_hex remove_all to_lower bytes_eq client_id_string
    addr_eq
toy_server_accepted = refl

validate_server_bounds_example :
    Within 16 65536 (pos 512)
    × Within 576 9000 (pos 1280)
    × Duration millisecond (2000 * millisecond) (pos (80 * millisecond))
    × Duration (10000 * millisecond) (86400000 * millisecond) (pos 0)
    × Duration (1000 * millisecond) (86400000 * millisecond) (pos 0)
validate_server_bounds_example = validate_server_bounds toy_host toy_server toy_server_accepted

-- The same key for two clients is refused.
reused_key :
    validate_server toy_host (record toy_server {
      clients =
          toy_client (codes "000102030405060708090a0b0c0d0e0f") first_key 2
          ∷ toy_client (codes "000102030405060708090a0b0c0d0eff") first_key 3
          ∷ [];
    })
    ≡ err duplicate_key
unfolding validate_server validate_settings validate_members validate_clients validate_credential
    validate_parsed validate_tunnel validate_window validate_duration validate_logging resolve_key
    parse_key parse_client_id trim_space decode_hex remove_all to_lower bytes_eq client_id_string
    addr_eq
reused_key = refl

abbrev one_path : ClientConfig
one_path = record {
  server = codes "relay:4430";
  client_id = codes "000102030405060708090a0b0c0d0e0f";
  psk = first_key;
  psk_env = [];
  tunnel_name = codes "linkforge0";
  tunnel_address = 2 ∷ [];
  mtu = pos 1280;
  paths =
      record {
        name = codes "lte";
        local_address = [];
        interface = [];
        weight = pos 100;
        enabled = none;
      }
      ∷ [];
  auto_discover_paths = false;
  routes = [];
  traffic_mode = codes "all";
  configure_interface = true;
  health_interval = pos 0;
  stats_interval = pos 0;
  handshake_timeout = pos 0;
  reorder_delay = pos 0;
  reorder_window = pos 16;
  logging = plain_logging;
  metrics_listen = [];
}

one_path_accepted : validate_client toy_host one_path ≡ ok tt
unfolding validate_client validate_paths validate_path validate_routes validate_tunnel
    validate_window validate_duration validate_logging resolve_key parse_key parse_client_id
    trim_space decode_hex remove_all to_lower bytes_eq
one_path_accepted = refl

validate_client_bounds_example :
    Within 16 65536 one_path.reorder_window
    × Within 576 9000 one_path.mtu
    × Duration (250 * millisecond) (5000 * millisecond) one_path.health_interval
    × Duration (1000 * millisecond) (120000 * millisecond) one_path.handshake_timeout
    × Duration millisecond (2000 * millisecond) one_path.reorder_delay
    × Duration (1000 * millisecond) (86400000 * millisecond) one_path.stats_interval
    × (one_path.auto_discover_paths ≡ false → one_path.paths ≢ [])
    × Unrepeated [] one_path.paths
    × All UsablePath one_path.paths
validate_client_bounds_example = validate_client_bounds toy_host one_path one_path_accepted

-- A whole tunnel is two routes.
all_traffic : length (effective_routes one_path) ≡ 2
unfolding effective_routes bytes_eq
all_traffic = refl

new_server-validated_example :
    (s : Server) × (new_server toy_host true toy_server ≡ ok s)
    × IsRelay s
    × (s.sessions ≡ [])
    × (length s.credentials ≡ 2)
new_server-validated_example = new_server-validated toy_host toy_server toy_server_accepted
