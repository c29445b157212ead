-- ===== src/Config/Bounds.antt =====
-- The ranges of the settings that the checks accept.
use link_forge.Config.{PathConfig, ClientConfig, ServerConfig}
use link_forge.Config.Checks.{
  millisecond, validate_path, validate_tunnel, validate_duration, is_one_of, validate_window,
}
use link_forge.Config.ClientChecks.{validate_paths, validate_client}
use link_forge.Config.Host.{Host}
use link_forge.Config.ServerChecks.{validate_settings, validate_server}
use link_forge.Prelude.{
  ◌==◌, Bool-cases, length, All, ok, ℕ, ◌*◌, ◌≤◌, ◌≡◌, ap, ◌≢◌, ◌⊎◌, inl, inr, false, not, ◌&&◌,
  List, [], ◌∷◌, arith,
}
use link_forge.Prelude.Int.{ℤ, pos, pos_part, neg_part, eq_ℤ}
use link_forge.Prelude.Text.{trim_space}
use link_forge.Protocol.Bytes.{Bytes}

-- A number in the range.
abbrev pub Within : ℕ → ℕ → ℤ → Type 0
Within low high n = (neg_part n ≡ 0) × (low ≤ pos_part n) × (pos_part n ≤ high)

-- A duration in the range, or 0 for the default.
abbrev pub Duration : ℕ → ℕ → ℤ → Type 0
Duration low high d = (d ≡ pos 0) ⊎ Within low high d

validate_duration-Duration :
    (d : ℤ) (low high : ℕ) → validate_duration d low high ≡ ok tt → Duration low high d
unfolding validate_duration
validate_duration-Duration d low high h = elim (Bool-cases (eq_ℤ d (pos 0))) [
  | inl zero_time ↦ inl (ground arith)
  | inr set ↦ inr (ground arith)
]

validate_window-Within : (n : ℤ) → validate_window n ≡ ok tt → Within 16 65536 n
unfolding validate_window
validate_window-Within n h = ground arith

validate_tunnel-Within :
    (host : Host) (address : Bytes) (mtu : ℤ)
    → validate_tunnel host address mtu ≡ ok tt
    → Within 576 9000 mtu
unfolding validate_tunnel
validate_tunnel-Within host address mtu h = ground arith

-- A path of the client: its name fits a hello.
abbrev pub UsablePath : PathConfig → Type 0
UsablePath p = (trim_space p.name ≢ []) × (length p.name ≤ 63) × (pos_part p.weight ≤ 65535)

validate_path-UsablePath :
    (host : Host) (p : PathConfig) → validate_path host p ≡ ok tt → UsablePath p
unfolding validate_path
validate_path-UsablePath host p h = ground arith

-- The ranges of an accepted configuration of the relay: window, mtu and the three durations.
pub validate_server_bounds :
    (host : Host) (s : ServerConfig)
    → validate_server host s ≡ ok tt
    → Within 16 65536 s.reorder_window
      × Within 576 9000 s.mtu
      × Duration millisecond (2000 * millisecond) s.reorder_delay
      × Duration (10000 * millisecond) (86400000 * millisecond) s.session_timeout
      × Duration (1000 * millisecond) (86400000 * millisecond) s.stats_interval
unfolding validate_server validate_settings
validate_server_bounds host s h = (
  validate_window-Within s.reorder_window (ground arith),
  validate_tunnel-Within host s.tunnel_address s.mtu (ground arith),
  validate_duration-Duration _ _ _ (ground arith),
  validate_duration-Duration _ _ _ (ground arith),
  validate_duration-Duration _ _ _ (ground arith),
)

-- No name stands twice.
abbrev pub Unrepeated : List Bytes → List PathConfig → Type 0
Unrepeated seen [] = Unit
Unrepeated seen (p ∷ ps) = (is_one_of p.name seen ≡ false) × Unrepeated (p.name ∷ seen) ps

validate_paths-Unrepeated :
    (host : Host) (seen : List Bytes) (ps : List PathConfig)
    → validate_paths host seen ps ≡ ok tt
    → Unrepeated seen ps × All UsablePath ps
unfolding validate_paths
validate_paths-Unrepeated host seen [] h = (tt, tt)
validate_paths-Unrepeated host seen (p ∷ ps) h =
    let this : validate_path host p ≡ ok tt = ground arith in
    let (distinct, usable) = validate_paths-Unrepeated host (p.name ∷ seen) ps (ground arith) in
    ((ground arith, distinct), (validate_path-UsablePath host p this, usable))

-- An accepted configuration of a client has a path, unless paths are discovered; each path is named,
-- once only and within the 63 bytes of a hello, and its weight is at most 655.35; the window, the mtu
-- and the four durations are in their ranges, where a duration may also be 0, for the default.
pub validate_client_bounds :
    (host : Host) (c : ClientConfig)
    → validate_client host c ≡ ok tt
    → Within 16 65536 c.reorder_window
      × Within 576 9000 c.mtu
      × Duration (250 * millisecond) (5000 * millisecond) c.health_interval
      × Duration (1000 * millisecond) (120000 * millisecond) c.handshake_timeout
      × Duration millisecond (2000 * millisecond) c.reorder_delay
      × Duration (1000 * millisecond) (86400000 * millisecond) c.stats_interval
      × (c.auto_discover_paths ≡ false → c.paths ≢ [])
      × Unrepeated [] c.paths
      × All UsablePath c.paths
unfolding validate_client
validate_client_bounds host c h =
    let paths = validate_paths-Unrepeated host [] c.paths (ground arith) in
    let counted : (not c.auto_discover_paths && length c.paths == 0) ≡ false = ground arith in
    let no_path : c.auto_discover_paths ≡ false → length c.paths ≡ 0 → ⊥ =
      λ manual nil. ground arith in
    (
      validate_window-Within c.reorder_window (ground arith),
      validate_tunnel-Within host c.tunnel_address c.mtu (ground arith),
      validate_duration-Duration _ _ _ (ground arith),
      validate_duration-Duration _ _ _ (ground arith),
      validate_duration-Duration _ _ _ (ground arith),
      validate_duration-Duration _ _ _ (ground arith),
      λ manual nil. no_path manual (ap length nil),
      paths.0,
      paths.1,
    )
