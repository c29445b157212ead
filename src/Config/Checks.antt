-- ===== src/Config/Checks.antt =====
-- The checks that the client's and the relay's settings share.
use link_forge.Config.{Logging, PathConfig}
use link_forge.Config.Host.{Host, parse_key}
use link_forge.Prelude.{
  Result, ltb, ◌==◌, if◌then◌else◌, length, err, ok, ◌>>◌, ◌>>=◌, reject, ℕ, ◌^◌, Bool, true, false,
  not, ◌&&◌, ◌||◌, Option, none, some, List, [], ◌∷◌,
}
use link_forge.Prelude.Int.{ℤ, pos, ltb_ℤ, eq_ℤ}
use link_forge.Prelude.Text.{codes, trim_space, to_lower}
use link_forge.Protocol.Bytes.{Bytes, bytes_eq}
use link_forge.Protocol.Header.{max_data_payload}
use link_forge.Protocol.Ip.{is_v4}
use link_forge.Protocol.Replay.Refinement.{maximum}

-- The errors that the checks return, each with the field that it names.
pub data ConfigError : Type 0 where
  bad_path_name bad_path_weight bad_local_address duplicate_path no_paths : ConfigError
  bad_server_address bad_client_id both_keys empty_variable bad_psk : ConfigError
  bad_tunnel_address tunnel_not_v4 bad_mtu bad_traffic_mode bad_route route_not_v4 : ConfigError
  bad_reorder_window bad_duration bad_logging_level bad_logging_format : ConfigError
  bad_listen_address no_clients duplicate_id duplicate_key duplicate_ip unusable_ip : ConfigError
  not_loopback no_database no_relay bad_pool foreign_pool pool_range no_variables : ConfigError
  short_token empty_master : ConfigError

abbrev pub millisecond : ℕ
millisecond = 10 ^ 6

-- Path.Validate
unfoldable pub validate_path : Host → PathConfig → Result ConfigError Unit
validate_path host p =
    reject (length (trim_space p.name) == 0) bad_path_name
    >> reject (ltb 63 (length p.name)) bad_path_name
    >> reject (ltb_ℤ p.weight (pos 0)) bad_path_weight
    >> reject (ltb_ℤ (pos 65535) p.weight) bad_path_weight
    >> reject (not (length p.local_address == 0) && not (host.is_ip p.local_address))
        bad_local_address

abbrev pub or_error : {A : Type 0} → ConfigError → Option A → Result ConfigError A
or_error e none = err e
or_error e (some a) = ok a

-- validateTunnel
unfoldable pub validate_tunnel : Host → Bytes → ℤ → Result ConfigError Unit
validate_tunnel host address mtu =
    or_error bad_tunnel_address (host.parse_prefix address) >>= λ prefix.
    reject (not (is_v4 prefix.address)) tunnel_not_v4
    >> reject (ltb_ℤ mtu (pos 576) || ltb_ℤ (pos 9000) mtu || ltb_ℤ (pos max_data_payload) mtu)
        bad_mtu

-- validateDuration
unfoldable pub validate_duration : ℤ → ℕ → ℕ → Result ConfigError Unit
validate_duration value minimum maximum =
    reject (not (eq_ℤ value (pos 0)) && (ltb_ℤ value (pos minimum) || ltb_ℤ (pos maximum) value))
      bad_duration

abbrev pub is_one_of : Bytes → List Bytes → Bool
is_one_of text [] = false
is_one_of text (word ∷ words) = elim (bytes_eq text word) [
  | true ↦ true
  | false ↦ is_one_of text words
]

-- validateLogging
unfoldable pub validate_logging : Logging → Result ConfigError Unit
validate_logging l =
    reject
      (not (
        is_one_of (to_lower l.level)
          (codes "debug" ∷ codes "info" ∷ codes "warn" ∷ codes "error" ∷ [])))
      bad_logging_level
    >> reject (not (is_one_of (to_lower l.format) (codes "json" ∷ codes "text" ∷ [])))
        bad_logging_format

-- resolveKey
unfoldable pub resolve_key : Host → Bytes → Bytes → Result ConfigError Bytes
resolve_key host value env_name =
    let from_env = host.getenv env_name in
    reject (not (length value == 0) && not (length env_name == 0)) both_keys
    >> (if length env_name == 0
        then or_error bad_psk (parse_key host value)
        else reject (length from_env == 0) empty_variable
          >> or_error bad_psk (parse_key host from_env))

-- The checks of one window and of one delay, the same in both settings.
unfoldable pub validate_window : ℤ → Result ConfigError Unit
validate_window window =
    reject (ltb_ℤ window (pos 16) || ltb_ℤ (pos 65536) window) bad_reorder_window
