-- ===== src/Config.antt =====
-- The settings of internal/config/config.go and their defaults. A duration is its nanoseconds, and
-- a weight its hundredths, the precision that the wire format keeps.
pub mod Host
pub mod Bounds
pub mod Checks
pub mod ClientChecks
pub mod ServerChecks
mod Tests
use link_forge.Prelude.{if◌then◌else◌, ◌*◌, ◌^◌, Bool, true, Option, none, some, List, [], ◌∷◌, map}
use link_forge.Prelude.Int.{ℤ, pos, leb_ℤ, eq_ℤ}
use link_forge.Prelude.Text.{codes}
use link_forge.Protocol.Bytes.{Bytes, bytes_eq}

pub record Logging : Type 0 where
  pub level : Bytes
  pub format : Bytes

pub record PathConfig : Type 0 where
  pub name : Bytes
  pub local_address : Bytes
  pub interface : Bytes
  pub weight : ℤ
  pub enabled : Option Bool

pub record ClientConfig : Type 0 where
  pub server : Bytes
  pub client_id : Bytes
  pub psk : Bytes
  pub psk_env : Bytes
  pub tunnel_name : Bytes
  pub tunnel_address : Bytes
  pub mtu : ℤ
  pub paths : List PathConfig
  pub auto_discover_paths : Bool
  pub routes : List Bytes
  pub traffic_mode : Bytes
  pub configure_interface : Bool
  pub health_interval : ℤ
  pub stats_interval : ℤ
  pub handshake_timeout : ℤ
  pub reorder_delay : ℤ
  pub reorder_window : ℤ
  pub logging : Logging
  pub metrics_listen : Bytes

pub record ClientCredential : Type 0 where
  pub name : Bytes
  pub client_id : Bytes
  pub psk : Bytes
  pub psk_env : Bytes
  pub tunnel_address : Bytes

pub record Management : Type 0 where
  pub listen : Bytes
  pub database_path : Bytes
  pub public_relay : Bytes
  pub tunnel_pool : Bytes
  pub admin_token_env : Bytes
  pub master_key_env : Bytes
  pub activation_ttl : ℤ

pub record ServerConfig : Type 0 where
  pub listen : Bytes
  pub tunnel_name : Bytes
  pub tunnel_address : Bytes
  pub mtu : ℤ
  pub clients : List ClientCredential
  pub configure_interface : Bool
  pub session_timeout : ℤ
  pub reorder_delay : ℤ
  pub reorder_window : ℤ
  pub stats_interval : ℤ
  pub logging : Logging
  pub metrics_listen : Bytes
  pub management : Option Management

-- Path.IsEnabled
abbrev pub is_enabled : PathConfig → Bool
is_enabled p = elim p.enabled [ none ↦ true | some e ↦ e ]

-- enabledPaths
unfoldable pub enabled_paths : List PathConfig → List PathConfig
enabled_paths [] = []
enabled_paths (p ∷ ps) = if is_enabled p then p ∷ enabled_paths ps else enabled_paths ps

-- Duration.Value
abbrev pub value_or : ℤ → ℤ → ℤ
value_or d fallback = if leb_ℤ d (pos 0) then fallback else d

-- `if text == "" { text = fallback }`
abbrev pub or_text : Bytes → Bytes → Bytes
or_text [] fallback = fallback
or_text (c ∷ s) fallback = c ∷ s

-- `if number == 0 { number = fallback }`
abbrev pub or_number : ℤ → ℤ → ℤ
or_number n fallback = if eq_ℤ n (pos 0) then fallback else n

abbrev pub default_mtu : ℤ
default_mtu = pos 1280

abbrev pub default_health_interval : ℤ
default_health_interval = pos (2 * 10 ^ 9)

unfoldable pub default_logging : Logging → Logging
default_logging l = record {
  level = or_text l.level (codes "info");
  format = or_text l.format (codes "json");
}

abbrev pub default_path : PathConfig → PathConfig
default_path p = record p { weight = or_number p.weight (pos 100) }

-- Client.defaults
unfoldable pub client_defaults : ClientConfig → ClientConfig
client_defaults c = record c {
  tunnel_name = or_text c.tunnel_name (codes "linkforge0");
  mtu = or_number c.mtu default_mtu;
  logging = default_logging c.logging;
  traffic_mode = or_text c.traffic_mode (codes "manual");
  reorder_window = or_number c.reorder_window (pos 512);
  paths = map default_path c.paths;
}

-- The management part of Server.defaults. `masked` is the server's subnet as a text.
unfoldable pub management_defaults : Option Bytes → Management → Management
management_defaults masked m = record m {
  listen = or_text m.listen (codes "127.0.0.1:8443");
  database_path = or_text m.database_path (codes "/var/lib/linkforge/control.db");
  tunnel_pool = or_text m.tunnel_pool (elim masked [ none ↦ [] | some subnet ↦ subnet ]);
  admin_token_env = or_text m.admin_token_env (codes "LINKFORGE_ADMIN_TOKEN");
  master_key_env = or_text m.master_key_env (codes "LINKFORGE_CONTROL_MASTER_KEY");
  activation_ttl = or_number m.activation_ttl (pos (15 * 60 * 10 ^ 9));
}

-- Server.defaults
unfoldable pub server_defaults : Option Bytes → ServerConfig → ServerConfig
server_defaults masked s = record s {
  listen = or_text s.listen (codes ":4430");
  tunnel_name = or_text s.tunnel_name (codes "linkforge0");
  mtu = or_number s.mtu default_mtu;
  logging = default_logging s.logging;
  reorder_window = or_number s.reorder_window (pos 512);
  management = elim s.management [ none ↦ none | some m ↦ some (management_defaults masked m) ];
}

-- Client.EffectiveRoutes
unfoldable pub effective_routes : ClientConfig → List Bytes
effective_routes c =
    if bytes_eq c.traffic_mode (codes "all")
    then codes "0.0.0.0/1" ∷ codes "128.0.0.0/1" ∷ []
    else c.routes
