-- ===== src/Engine/Paths.antt =====
-- The paths of a session in internal/engine/server.go, and the loop of the janitor.
pub mod Expiry
pub mod Silence
use link_forge.Engine.Registry.{deref}
use link_forge.Engine.State.{ServerPath, Session, Server, id_text, tunnel_ip_of}
use link_forge.Prelude.{
  if◌then◌else◌, ℕ, ◌*◌, ◌^◌, Bool, true, false, Option, none, some, List, [], ◌∷◌, map, ℕ_discrete,
}
use link_forge.Prelude.Int.{ℤ, pos, ◌-ℤ◌, ltb_ℤ}
use link_forge.Prelude.Map.{Map, lookup, put, delete}
use link_forge.Protocol.Bytes.{Bytes-discrete}
use link_forge.Protocol.Ip.{Addr-discrete}

-- time.Minute
abbrev pub minute : ℕ
minute = 60 * 10 ^ 9

-- `now.Sub(seen) > limit`
abbrev pub is_older : ℤ → ℤ → ℤ → Bool
is_older limit now seen = ltb_ℤ limit (now -ℤ seen)

-- serverSession.addPath
unfoldable pub add_path : Session → ServerPath → Session × Bool
add_path session path =
    if session.closing
    then (session, false)
    else (record session { paths = put ℕ_discrete path.id path session.paths }, true)

-- The body of the loop of expirePaths, which no entry outlives that was silent for a minute.
unfoldable pub expire_path : ℤ → ServerPath → Option ServerPath
expire_path now path =
    let path' =
      if is_older path.health_timeout now path.last_seen
      then record path { healthy = false }
      else path in
    if is_older (pos minute) now path.last_seen then none else some path'

unfoldable pub expire_all : ℤ → Map ℕ ServerPath → Map ℕ ServerPath
expire_all now [] = []
expire_all now ((id, path) ∷ rest) = elim (expire_path now path) [
  | none ↦ expire_all now rest
  | some path' ↦ (id, path') ∷ expire_all now rest
]

-- serverSession.expirePaths
unfoldable pub expire_paths : ℤ → Session → Session
expire_paths now session = record session { paths = expire_all now session.paths }

-- The end of a session that was silent for too long: the janitor does not mark it closing.
unfoldable pub drop_session : Server → ℕ → Session → Server
drop_session s id session = record s {
  sessions = delete ℕ_discrete id s.sessions;
  session_by_client = delete Bytes-discrete (id_text session) s.session_by_client;
  session_by_ip = delete Addr-discrete (tunnel_ip_of session) s.session_by_ip;
  active_sessions = s.active_sessions -ℤ pos 1;
}

-- One round of the janitor's range over the sessions.
unfoldable pub expire_session : ℤ → ℤ → Server → ℕ → Server
expire_session timeout now s id = elim (deref s (lookup ℕ_discrete id s.sessions)) [
  | none ↦ s
  | some (ref, session) ↦
      let s' = record s { heap = put ℕ_discrete ref (expire_paths now session) s.heap } in
      if is_older timeout now session.last_seen then drop_session s' id session else s'
]

unfoldable pub expire_sessions : ℤ → ℤ → Server → List ℕ → Server
expire_sessions timeout now s [] = s
expire_sessions timeout now s (id ∷ ids) =
    expire_sessions timeout now (expire_session timeout now s id) ids

-- A tick of janitorLoop: the range visits each id that is in the map when it begins and has not
-- gone since.
unfoldable pub janitor_tick : ℤ → ℤ → Server → Server
janitor_tick timeout now s = expire_sessions timeout now s (map (λ entry. entry.0) s.sessions)
