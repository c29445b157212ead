-- ===== src/Engine/Events/Kept.antt =====
-- The session table through whole runs of the relay.
use link_forge.Engine.Credentials.Authorization.{authorize_client-IsRelay}
use link_forge.Engine.Credentials.Revocation.{revoke_client-IsRelay}
use link_forge.Engine.Events.{
  receive_datagram, flush_session, flush_sessions, RelayEvent, datagram, reorder_tick, janitor,
  authorization, revocation, run_event, run_events,
}
use link_forge.Engine.Handshake.{World, handle_hello}
use link_forge.Engine.Handshake.Kept.{handle_hello-IsRelay}
use link_forge.Engine.Packets.{to_tun, handle_encrypted}
use link_forge.Engine.Packets.Handled.{deref_inv, handle_encrypted-IsRelay}
use link_forge.Engine.Paths.Expiry.{janitor_tick-IsRelay}
use link_forge.Engine.Registry.{deref}
use link_forge.Engine.Registry.Invariant.{IsRelay}
use link_forge.Engine.Registry.Update.{store, store-IsRelay}
use link_forge.Engine.State.{Server}
use link_forge.Prelude.{
  ◌==◌, Bool-cases, Option-cases, Result-cases, ℕ, ◌≡◌, refl, sym, subst, inl, inr, List, [], ◌∷◌,
  map, arith, ℕ_discrete,
}
use link_forge.Prelude.Int.{ℤ}
use link_forge.Prelude.Map.{lookup}
use link_forge.Protocol.Bytes.{Bytes}
use link_forge.Protocol.Header.{type_hello, parse_header}
use link_forge.Protocol.Hello.Layout.{packet}
use link_forge.Reorder.{flush_expired}

flush_session-IsRelay :
    (now : ℤ) (s : Server) (id : ℕ) → IsRelay s → IsRelay (flush_session now s id).0
unfolding flush_session
flush_session-IsRelay now s id r = elim (Option-cases (deref s (lookup ℕ_discrete id s.sessions))) [
  | inl gone ↦
      let same : flush_session now s id ≡ (s, []) = ground arith in
      subst (λ y. IsRelay y.0) (sym same) r
  | inr ((ref, session), found) ↦
      let b = flush_expired session.reorder now now in
      let same : flush_session now s id
          ≡ (store s ref (record session { reorder = b.0 }), map to_tun b.1.packets) =
        ground arith in
      subst (λ y. IsRelay y.0) (sym same)
        (store-IsRelay s r ref session (record session { reorder = b.0 })
          (deref_inv s (lookup ℕ_discrete id s.sessions) found) refl refl)
]

flush_sessions-IsRelay :
    (now : ℤ) (s : Server) (ids : List ℕ) → IsRelay s → IsRelay (flush_sessions now s ids).0
unfolding flush_sessions
flush_sessions-IsRelay now s [] r = r
flush_sessions-IsRelay now s (id ∷ ids) r =
    flush_sessions-IsRelay now (flush_session now s id).0 ids (flush_session-IsRelay now s id r)

receive_datagram-IsRelay :
    (w : World) (s : Server) (remote packet : Bytes)
    → IsRelay s
    → IsRelay (receive_datagram w s remote packet).0
unfolding receive_datagram
receive_datagram-IsRelay w s remote packet r = elim (Result-cases (parse_header packet)) [
  | inl (e, bad) ↦
      let same : receive_datagram w s remote packet ≡ (s, []) = ground arith in
      subst (λ y. IsRelay y.0) (sym same) r
  | inr (header, read) ↦ elim (Bool-cases (header.packet_type == type_hello)) [
    | inl greets ↦
        let same : receive_datagram w s remote packet ≡ handle_hello w s remote packet =
          ground arith in
        subst (λ y. IsRelay y.0) (sym same) (handle_hello-IsRelay w s remote packet r)
    | inr sealed ↦
        let same : receive_datagram w s remote packet
            ≡ handle_encrypted w.writes w.now s remote header packet =
          ground arith in
        subst (λ y. IsRelay y.0) (sym same)
          (handle_encrypted-IsRelay w.writes w.now s remote header packet r)
  ]
]

run_event-IsRelay : (s : Server) (e : RelayEvent) → IsRelay s → IsRelay (run_event s e).0
unfolding run_event
run_event-IsRelay s (datagram w remote packet) r = receive_datagram-IsRelay w s remote packet r
run_event-IsRelay s (reorder_tick now) r =
    flush_sessions-IsRelay now s (map (λ e. e.0) s.sessions) r
run_event-IsRelay s (janitor timeout now) r = janitor_tick-IsRelay timeout now s r
run_event-IsRelay s (authorization configured) r = authorize_client-IsRelay s configured r
run_event-IsRelay s (revocation parsed) r = revoke_client-IsRelay s parsed r

-- From a consistent table on, whatever datagrams, ticks, authorizations and revocations come, in
-- any order, the indexes stay consistent with one another and every listed session is backed by the
-- current credential of its client.
pub run_events-IsRelay :
    (s : Server) (es : List RelayEvent) → IsRelay s → IsRelay (run_events s es).0
unfolding run_events
run_events-IsRelay s [] r = r
run_events-IsRelay s (e ∷ es) r = run_events-IsRelay (run_event s e).0 es (run_event-IsRelay s e r)
