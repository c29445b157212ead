-- ===== src/Config/ClientChecks.antt =====
-- Client.Validate.
use link_forge.Config.{PathConfig, ClientConfig}
use link_forge.Config.Checks.{
  ConfigError, duplicate_path, no_paths, bad_server_address, bad_client_id, bad_traffic_mode,
  bad_route, route_not_v4, millisecond, validate_path, or_error, validate_tunnel, validate_duration,
  is_one_of, validate_logging, resolve_key, validate_window,
}
use link_forge.Config.Host.{Host, parse_client_id}
use link_forge.Prelude.{
  Result, ◌==◌, length, ok, ◌>>◌, ◌>>=◌, reject, ◌*◌, not, ◌&&◌, List, [], ◌∷◌,
}
use link_forge.Prelude.Text.{codes}
use link_forge.Protocol.Bytes.{Bytes}
use link_forge.Protocol.Ip.{is_v4}

-- The paths, with the names that were seen before them.
unfoldable pub validate_paths : Host → List Bytes → List PathConfig → Result ConfigError Unit
validate_paths host seen [] = ok tt
validate_paths host seen (p ∷ ps) =
    validate_path host p
    >> reject (is_one_of p.name seen) duplicate_path
    >> validate_paths host (p.name ∷ seen) ps

unfoldable pub validate_routes : Host → List Bytes → Result ConfigError Unit
validate_routes host [] = ok tt
validate_routes host (r ∷ rs) =
    (or_error bad_route (host.parse_prefix r) >>= λ prefix.
    reject (not (is_v4 prefix.address)) route_not_v4)
    >> validate_routes host rs

unfoldable pub validate_client : Host → ClientConfig → Result ConfigError Unit
validate_client host c =
    reject (not (host.resolves c.server)) bad_server_address
    >> or_error bad_client_id (parse_client_id c.client_id)
    >> resolve_key host c.psk c.psk_env
    >> validate_tunnel host c.tunnel_address c.mtu
    >> reject (not c.auto_discover_paths && length c.paths == 0) no_paths
    >> reject (not (is_one_of c.traffic_mode (codes "manual" ∷ codes "all" ∷ []))) bad_traffic_mode
    >> validate_paths host [] c.paths
    >> validate_routes host c.routes
    >> validate_window c.reorder_window
    >> validate_duration c.health_interval (250 * millisecond) (5000 * millisecond)
    >> validate_duration c.handshake_timeout (1000 * millisecond) (120000 * millisecond)
    >> validate_duration c.reorder_delay millisecond (2000 * millisecond)
    >> validate_duration c.stats_interval (1000 * millisecond) (86400000 * millisecond)
    >> validate_logging c.logging
