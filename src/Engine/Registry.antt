-- ===== src/Engine/Registry.antt =====
-- The session table of internal/engine/server.go: authorization, creation and removal.
pub mod Invariant
pub mod Removal
pub mod Termination
pub mod Creation
pub mod Update
pub mod Closing
pub mod Joining
pub mod Joined
use link_forge.Engine.State.{Credential, Session, Server, client_id_string, id_text, tunnel_ip_of}
use link_forge.Prelude.{
  Result, ltb, ◌==◌, if◌then◌else◌, is_some, err, ok, ℕ, ◌+◌, Bool, true, false, not, ◌&&◌, ◌||◌,
  Option, none, some, List, [], ◌∷◌, map, ℕ_discrete,
}
use link_forge.Prelude.Int.{ℤ, pos, ◌+ℤ◌, ◌-ℤ◌}
use link_forge.Prelude.Map.{Map, lookup, put, delete}
use link_forge.Protocol.Bytes.{Bytes, Bytes-discrete, bytes_eq}
use link_forge.Protocol.Header.{wire_version}
use link_forge.Protocol.Hello.{Hello}
use link_forge.Protocol.Ip.{Addr-discrete, addr_eq}
use link_forge.Reorder.{new}

-- serverSession.accepts
unfoldable pub accepts : Session → Hello → Bool
accepts session hello =
    if session.closing
    then false
    else if session.legacy || ltb hello.wire_version 2
    then session.legacy && ltb hello.wire_version 2
    else bytes_eq session.instance_nonce hello.instance_nonce

-- serverSession.markClosing, whose paths are then marked unhealthy.
unfoldable pub mark_closing : Session → Session
mark_closing session = record session {
  closing = true;
  paths = map (λ entry. (entry.0, record (entry.1) { healthy = false })) session.paths;
}

abbrev pub refers : Option ℕ → ℕ → Bool
refers none ref = false
refers (some held) ref = held == ref

-- detachSessionLocked
unfoldable pub detach_session : Server → ℕ → Session → Server
detach_session s ref session =
    let text = id_text session in
    let ip = tunnel_ip_of session in
    let by_client =
      if refers (lookup Bytes-discrete text s.session_by_client) ref
      then delete Bytes-discrete text s.session_by_client
      else s.session_by_client in
    let by_ip =
      if refers (lookup Addr-discrete ip s.session_by_ip) ref
      then delete Addr-discrete ip s.session_by_ip
      else s.session_by_ip in
    if not (refers (lookup ℕ_discrete session.id s.sessions) ref) then s else record s {
      sessions = delete ℕ_discrete session.id s.sessions;
      session_by_client = by_client;
      session_by_ip = by_ip;
      active_sessions = s.active_sessions -ℤ pos 1;
    }

-- Closes the session at `ref` and takes it out of every index.
unfoldable pub close_session : Server → ℕ → Session → Server
close_session s ref session =
    detach_session (record s { heap = put ℕ_discrete ref (mark_closing session) s.heap }) ref
      session

abbrev pub found_at : ℕ → Option Session → Option (ℕ × Session)
found_at ref none = none
found_at ref (some session) = some (ref, session)

abbrev pub deref : Server → Option ℕ → Option (ℕ × Session)
deref s none = none
deref s (some ref) = found_at ref (lookup ℕ_discrete ref s.heap)

-- terminateClientSession
unfoldable pub terminate_client_session : Server → Bytes → Server
terminate_client_session s client_id =
    elim (deref s (lookup Bytes-discrete client_id s.session_by_client)) [
      | none ↦ s
      | some (ref, session) ↦ close_session s ref session
    ]

-- terminateSessionIfCurrent
unfoldable pub terminate_session_if_current : Server → ℕ → Session → Server
terminate_session_if_current s ref session =
    if refers (lookup ℕ_discrete session.id s.sessions) ref then close_session s ref session else s

pub data SessionError : Type 0 where
  credential_changed random_failed out_of_draws : SessionError

-- The loop that draws session ids until one is neither 0 nor in use; `none` is a failed draw, and
-- `out_of_draws` that the given draws did not end the loop.
unfoldable pub draw_id : Map ℕ ℕ → List (Option ℕ) → Result SessionError ℕ
draw_id sessions [] = err out_of_draws
draw_id sessions (none ∷ draws) = err random_failed
draw_id sessions (some id ∷ draws) =
    if id == 0 || is_some (lookup ℕ_discrete id sessions) then draw_id sessions draws else ok id

-- The credential is still the one that the handshake was checked against.
unfoldable pub still_authorized : Server → Credential → Bool
still_authorized s credential =
    elim (lookup Bytes-discrete (client_id_string credential.client_id) s.credentials) [
      | none ↦ false
      | some current ↦
          bytes_eq current.key credential.key && addr_eq current.tunnel_ip credential.tunnel_ip
    ]

unfoldable pub new_session : Server → Credential → Hello → ℕ → ℤ → Session
new_session s credential hello id now = record {
  id = id;
  credential = credential;
  instance_nonce = hello.instance_nonce;
  legacy = ltb hello.wire_version 2;
  created_at = now;
  last_seen = now;
  next_path_id = 0;
  reorder = new s.reorder_window s.reorder_delay;
  closing = false;
  paths = [];
}

unfoldable pub add_session : Server → Session → Server
add_session s session = record s {
  heap = put ℕ_discrete s.next_ref session s.heap;
  next_ref = s.next_ref + 1;
  sessions = put ℕ_discrete session.id s.next_ref s.sessions;
  session_by_client = put Bytes-discrete (id_text session) s.next_ref s.session_by_client;
  session_by_ip = put Addr-discrete (tunnel_ip_of session) s.next_ref s.session_by_ip;
  active_sessions = s.active_sessions +ℤ pos 1;
}

abbrev pub close_existing : Server → Option (ℕ × Session) → Server
close_existing s none = s
close_existing s (some (ref, session)) = close_session s ref session

abbrev pub accepted_ref : Option (ℕ × Session) → Hello → Option ℕ
accepted_ref none hello = none
accepted_ref (some (ref, session)) hello = if accepts session hello then some ref else none

-- getOrCreateSession: the reference of the session that the hello joins.
unfoldable pub get_or_create_session :
    Server → Credential → Hello → List (Option ℕ) → ℤ → Server × Result SessionError ℕ
get_or_create_session s credential hello draws now =
    let existing =
      deref s (lookup Bytes-discrete (client_id_string credential.client_id) s.session_by_client) in
    let create =
      λ (id : ℕ). add_session (close_existing s existing) (new_session s credential hello id now) in
    if not (still_authorized s credential)
    then (s, err credential_changed)
    else elim (accepted_ref existing hello) [
      | some ref ↦ (s, ok ref)
      | none ↦ elim (draw_id s.sessions draws) [
        | err e ↦ (s, err e)
        | ok id ↦ (create id, ok s.next_ref)
      ]
    ]
