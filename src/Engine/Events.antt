-- ===== src/Engine/Events.antt =====
-- What drives the relay of internal/engine/server.go, one event at a time: datagrams of receiveLoop,
-- ticks of reorderLoop and janitorLoop, and the calls of the control plane.
pub mod Kept
pub mod Genuine
use link_forge.Engine.Credentials.{Configured, authorize_client, revoke_client}
use link_forge.Engine.Handshake.{World, handle_hello}
use link_forge.Engine.Packets.{Output, to_tun, handle_encrypted}
use link_forge.Engine.Paths.{janitor_tick}
use link_forge.Engine.Registry.{deref}
use link_forge.Engine.Registry.Update.{store}
use link_forge.Engine.State.{Server}
use link_forge.Prelude.{
  ◌==◌, if◌then◌else◌, err, ok, ℕ, Option, none, some, List, [], ◌∷◌, ◌++◌, map, ℕ_discrete,
}
use link_forge.Prelude.Int.{ℤ}
use link_forge.Prelude.Map.{lookup}
use link_forge.Protocol.Bytes.{Bytes}
use link_forge.Protocol.Header.{type_hello, parse_header}
use link_forge.Protocol.Hello.Layout.{packet}
use link_forge.Reorder.{flush_expired}

-- The body of the loop of receiveLoop.
unfoldable pub receive_datagram : World → Server → (remote packet : Bytes) → Server × List Output
receive_datagram w s remote packet = elim (parse_header packet) [
  | err e ↦ (s, [])
  | ok header ↦
      if header.packet_type == type_hello
      then handle_hello w s remote packet
      else handle_encrypted w.writes w.now s remote header packet
]

-- The session of an id, flushed in a tick of reorderLoop.
unfoldable pub flush_session : (now : ℤ) → Server → (id : ℕ) → Server × List Output
flush_session now s id = elim (deref s (lookup ℕ_discrete id s.sessions)) [
  | none ↦ (s, [])
  | some (ref, session) ↦
      let (buffer, result) = flush_expired session.reorder now now in
      (store s ref (record session { reorder = buffer }), map to_tun result.packets)
]

unfoldable pub flush_sessions : (now : ℤ) → Server → List ℕ → Server × List Output
flush_sessions now s [] = (s, [])
flush_sessions now s (id ∷ ids) =
    let (s', written) = flush_session now s id in
    let (s'', later) = flush_sessions now s' ids in (s'', written ++ later)

pub data RelayEvent : Type 0 where
  datagram : World → (remote packet : Bytes) → RelayEvent
  reorder_tick : (now : ℤ) → RelayEvent
  janitor : (timeout now : ℤ) → RelayEvent
  authorization : Configured → RelayEvent
  revocation : Option Bytes → RelayEvent

unfoldable pub run_event : Server → RelayEvent → Server × List Output
run_event s (datagram w remote packet) = receive_datagram w s remote packet
run_event s (reorder_tick now) = flush_sessions now s (map (λ e. e.0) s.sessions)
run_event s (janitor timeout now) = (janitor_tick timeout now s, [])
run_event s (authorization configured) = ((authorize_client s configured).0, [])
run_event s (revocation parsed) = (revoke_client s parsed, [])

unfoldable pub run_events : Server → List RelayEvent → Server × List Output
run_events s [] = (s, [])
run_events s (e ∷ es) =
    let (s', written) = run_event s e in
    let (s'', later) = run_events s' es in (s'', written ++ later)
