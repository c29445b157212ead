-- ===== src/Engine/Events/Genuine.antt =====
-- The packets that wait in the buffers of sessions, through whole runs of the relay.
use mathlib.Core.Path.{subst₂}
use link_forge.Engine.Credentials.{
  Configured, AuthorizeError, conflict, is_replaced, install_credential, authorize_address,
  authorize_parsed, authorize_client, revoke_client,
}
use link_forge.Engine.Events.{
  receive_datagram, flush_session, flush_sessions, RelayEvent, datagram, reorder_tick, janitor,
  authorization, revocation, run_event, run_events,
}
use link_forge.Engine.Handshake.{World, handle_hello}
use link_forge.Engine.Handshake.Kept.{IsStill, IsStable, handle_hello-kept}
use link_forge.Engine.Packets.{handle_encrypted}
use link_forge.Engine.Packets.Genuine.{
  IsFromAddress, IsGenuine, AllGenuine, store-AllGenuine, close_session-AllGenuine,
  close_path-AllGenuine, OnlyOwn, handle_encrypted-OnlyOwn,
}
use link_forge.Engine.Packets.Handled.{deref_inv}
use link_forge.Engine.Paths.{
  is_older, expire_paths, drop_session, expire_session, expire_sessions, janitor_tick,
}
use link_forge.Engine.Registry.{
  close_session, deref, terminate_client_session, draw_id, still_authorized, new_session,
  add_session, close_existing, accepted_ref, get_or_create_session,
}
use link_forge.Engine.Registry.Update.{store}
use link_forge.Engine.State.{Credential, Session, Subnet, Server, client_id_string, tunnel_ip_of}
use link_forge.Prelude.{
  ◌==◌, if◌then◌else◌, Bool-cases, Option-cases, Result-cases, ℕ, ◌≡◌, refl, sym, subst, inl, inr,
  Bool, true, false, not, ◌||◌, Option, none, some, List, [], ◌∷◌, map, arith, ℕ_discrete,
}
use link_forge.Prelude.Int.{ℤ}
use link_forge.Prelude.Map.{lookup, put, delete}
use link_forge.Protocol.Bytes.{Bytes, Bytes-discrete}
use link_forge.Protocol.Header.{type_hello, Header, parse_header}
use link_forge.Protocol.Hello.{Hello}
use link_forge.Protocol.Ip.{Addr, is_v4, addr_eq}
use link_forge.Reorder.{new, flush_expired}
use link_forge.Reorder.Contents.{Holds, flush_expired-Gives}

terminate_client_session-AllGenuine :
    (s : Server) (client_id : Bytes)
    → AllGenuine s
    → AllGenuine (terminate_client_session s client_id)
unfolding terminate_client_session
terminate_client_session-AllGenuine s client_id all =
    let at = lookup Bytes-discrete client_id s.session_by_client in
    elim (Option-cases (deref s at)) [
      | inl gone ↦
          let same : terminate_client_session s client_id ≡ s = ground arith in
          subst AllGenuine (sym same) all
      | inr ((ref, session), found) ↦
          let same : terminate_client_session s client_id ≡ close_session s ref session =
            ground arith in
          subst AllGenuine (sym same)
            (close_session-AllGenuine s ref session all (all ref session (deref_inv s at found)))
    ]

install_credential-AllGenuine :
    (s : Server) (credential : Credential)
    → AllGenuine s
    → AllGenuine (install_credential s credential).0
unfolding install_credential
install_credential-AllGenuine s credential all =
    let text = client_id_string credential.client_id in
    let installed = record s { credentials = put Bytes-discrete text credential s.credentials } in
    elim (Option-cases (conflict text credential s.credentials)) [
      | inr (e, taken) ↦
          let same : (install_credential s credential).0 ≡ s = ground arith in
          subst AllGenuine (sym same) all
      | inl free ↦
          elim (Bool-cases (is_replaced (lookup Bytes-discrete text s.credentials) credential)) [
            | inl replaced ↦
                let same : (install_credential s credential).0
                    ≡ terminate_client_session installed text =
                  ground arith in
                subst AllGenuine (sym same) (terminate_client_session-AllGenuine installed text all)
            | inr stays ↦
                let same : (install_credential s credential).0 ≡ installed = ground arith in
                subst AllGenuine (sym same) all
          ]
    ]

AllGenuine-if :
    (c : Bool) (x y : Server × Option AuthorizeError)
    → AllGenuine x.0
    → AllGenuine y.0
    → AllGenuine (if c then x else y).0
AllGenuine-if true x y f g = f
AllGenuine-if false x y f g = g

authorize_client-AllGenuine :
    (s : Server) (c : Configured) → AllGenuine s → AllGenuine (authorize_client s c).0
unfolding authorize_client authorize_address authorize_parsed
authorize_client-AllGenuine s c all =
    parsed c.configured_name c.parsed_id c.parsed_key c.parsed_address
  where
    addressed :
        (credential : Credential) (subnet : Option Subnet)
        → AllGenuine (authorize_address s credential subnet).0
    addressed credential none = all
    addressed credential (some subnet) = AllGenuine-if (not (is_v4 credential.tunnel_ip)) _ _ all (
        AllGenuine-if
          (not (subnet.holds credential.tunnel_ip) || addr_eq credential.tunnel_ip subnet.own) _ _
          all (install_credential-AllGenuine s credential all))

    parsed :
        (name : Bytes) (id key : Option Bytes) (address : Option Addr)
        → AllGenuine (authorize_parsed s name id key address).0
    parsed name none key address = all
    parsed name (some id) none address = all
    parsed name (some id) (some key) none = all
    parsed name (some id) (some key) (some address) = addressed _ s.subnet

revoke_client-AllGenuine :
    (s : Server) (parsed : Option Bytes) → AllGenuine s → AllGenuine (revoke_client s parsed)
unfolding revoke_client
revoke_client-AllGenuine s none all = all
revoke_client-AllGenuine s (some id) all =
    terminate_client_session-AllGenuine
      (record s { credentials = delete Bytes-discrete (client_id_string id) s.credentials })
      (client_id_string id) all

add_session-AllGenuine :
    (s : Server) (session : Session)
    → AllGenuine s
    → IsGenuine session
    → AllGenuine (add_session s session)
unfolding add_session
add_session-AllGenuine s session all g ref x h = store-AllGenuine s s.next_ref session all g ref x h

new_session-IsGenuine :
    (s : Server) (credential : Credential) (hello : Hello) (id : ℕ) (now : ℤ)
    → IsGenuine (new_session s credential hello id now)
unfolding new_session new
new_session-IsGenuine s credential hello id now = tt

get_or_create_session-AllGenuine :
    (s : Server) (credential : Credential) (hello : Hello) (draws : List (Option ℕ)) (now : ℤ)
    → AllGenuine s
    → AllGenuine (get_or_create_session s credential hello draws now).0
unfolding get_or_create_session
get_or_create_session-AllGenuine s credential hello draws now all =
    let at = lookup Bytes-discrete (client_id_string credential.client_id) s.session_by_client in
    let existing = deref s at in
    elim (Bool-cases (not (still_authorized s credential))) [
      | inl changed ↦
          let same : (get_or_create_session s credential hello draws now).0 ≡ s = ground arith in
          subst AllGenuine (sym same) all
      | inr current ↦ elim (Option-cases (accepted_ref existing hello)) [
        | inr (ref, takes) ↦
            let same : (get_or_create_session s credential hello draws now).0 ≡ s = ground arith in
            subst AllGenuine (sym same) all
        | inl anew ↦ elim (Result-cases (draw_id s.sessions draws)) [
          | inl (e, failed) ↦
              let same : (get_or_create_session s credential hello draws now).0 ≡ s =
                ground arith in
              subst AllGenuine (sym same) all
          | inr (id, drawn) ↦
              let same : (get_or_create_session s credential hello draws now).0
                  ≡ add_session (close_existing s existing)
                      (new_session s credential hello id now) =
                ground arith in
              subst AllGenuine (sym same) (
                add_session-AllGenuine (close_existing s existing)
                  (new_session s credential hello id now)
                  (closed existing (λ ref x e. all ref x (deref_inv s at e)))
                  (new_session-IsGenuine s credential hello id now))
        ]
      ]
    ]
  where
    closed :
        (existing : Option (ℕ × Session))
        → ((ref : ℕ) (x : Session) → existing ≡ some (ref, x) → IsGenuine x)
        → AllGenuine (close_existing s existing)
    closed none g = all
    closed (some (ref, x)) g = close_session-AllGenuine s ref x all (g ref x refl)

expire_session-AllGenuine :
    (timeout now : ℤ) (s : Server) (id : ℕ)
    → AllGenuine s
    → AllGenuine (expire_session timeout now s id)
unfolding expire_session expire_paths drop_session
expire_session-AllGenuine timeout now s id all =
    let at = lookup ℕ_discrete id s.sessions in
    elim (Option-cases (deref s at)) [
      | inl gone ↦
          let same : expire_session timeout now s id ≡ s = ground arith in
          subst AllGenuine (sym same) all
      | inr ((ref, session), found) ↦
          let own = all ref session (deref_inv s at found) in
          let kept = store-AllGenuine s ref (expire_paths now session) all own in
          let s' = store s ref (expire_paths now session) in
          elim (Bool-cases (is_older timeout now session.last_seen)) [
            | inl old ↦
                let same : expire_session timeout now s id ≡ drop_session s' id session =
                  ground arith in
                subst AllGenuine (sym same) kept
            | inr fresh ↦
                let same : expire_session timeout now s id ≡ s' = ground arith in
                subst AllGenuine (sym same) kept
          ]
    ]

expire_sessions-AllGenuine :
    (timeout now : ℤ) (s : Server) (ids : List ℕ)
    → AllGenuine s
    → AllGenuine (expire_sessions timeout now s ids)
unfolding expire_sessions
expire_sessions-AllGenuine timeout now s [] all = all
expire_sessions-AllGenuine timeout now s (id ∷ ids) all =
    expire_sessions-AllGenuine timeout now (expire_session timeout now s id) ids
      (expire_session-AllGenuine timeout now s id all)

flush_session-AllGenuine :
    (now : ℤ) (s : Server) (id : ℕ) → AllGenuine s → AllGenuine (flush_session now s id).0
unfolding flush_session
flush_session-AllGenuine now s id all =
    let at = lookup ℕ_discrete id s.sessions in
    elim (Option-cases (deref s at)) [
      | inl gone ↦
          let same : flush_session now s id ≡ (s, []) = ground arith in
          subst (λ y. AllGenuine y.0) (sym same) all
      | inr ((ref, session), found) ↦
          let own = all ref session (deref_inv s at found) in
          let b = flush_expired session.reorder now now in
          let left : Session = record session { reorder = b.0 } in
          let same : (flush_session now s id).0 ≡ store s ref left = ground arith in
          let given =
            flush_expired-Gives (IsFromAddress (tunnel_ip_of session)) session.reorder now now
              own in
          subst AllGenuine (sym same) (store-AllGenuine s ref left all given.0)
    ]

flush_sessions-AllGenuine :
    (now : ℤ) (s : Server) (ids : List ℕ) → AllGenuine s → AllGenuine (flush_sessions now s ids).0
unfolding flush_sessions
flush_sessions-AllGenuine now s [] all = all
flush_sessions-AllGenuine now s (id ∷ ids) all =
    flush_sessions-AllGenuine now (flush_session now s id).0 ids
      (flush_session-AllGenuine now s id all)

AllGenuine-IsStable : IsStable AllGenuine
AllGenuine-IsStable = record {
  stores = λ s ref session changed all held same.
      store-AllGenuine s ref changed all (still session changed same (all ref session held));
  closes = λ s ref session changed path all held same.
      close_path-AllGenuine s ref changed path all
        (still session changed same (all ref session held));
  joins = get_or_create_session-AllGenuine;
}
  where
    still :
        (session changed : Session)
        → IsStill changed session
        → IsGenuine session
        → IsGenuine changed
    still session changed same g =
        subst₂ (λ c r. Holds (IsFromAddress c.tunnel_ip) r) (sym same.1) (sym same.2) g

receive_datagram-AllGenuine :
    (w : World) (s : Server) (remote bytes : Bytes)
    → AllGenuine s
    → AllGenuine (receive_datagram w s remote bytes).0
unfolding receive_datagram
receive_datagram-AllGenuine w s remote bytes all = elim (Result-cases (parse_header bytes)) [
  | inl (e, bad) ↦
      let same : receive_datagram w s remote bytes ≡ (s, []) = ground arith in
      subst (λ y. AllGenuine y.0) (sym same) all
  | inr (header, read) ↦ elim (Bool-cases (header.packet_type == type_hello)) [
    | inl greets ↦
        let same : receive_datagram w s remote bytes ≡ handle_hello w s remote bytes =
          ground arith in
        subst (λ y. AllGenuine y.0) (sym same)
          (handle_hello-kept AllGenuine-IsStable w s remote bytes all)
    | inr sealed ↦
        let same : receive_datagram w s remote bytes
            ≡ handle_encrypted w.writes w.now s remote header bytes =
          ground arith in
        subst (λ y. AllGenuine y.0) (sym same)
          (handle_encrypted-OnlyOwn w.writes w.now s remote header bytes all).0
  ]
]

run_event-AllGenuine : (s : Server) (e : RelayEvent) → AllGenuine s → AllGenuine (run_event s e).0
unfolding run_event janitor_tick
run_event-AllGenuine s (datagram w remote bytes) all =
    receive_datagram-AllGenuine w s remote bytes all
run_event-AllGenuine s (reorder_tick now) all =
    flush_sessions-AllGenuine now s (map (λ e. e.0) s.sessions) all
run_event-AllGenuine s (janitor timeout now) all =
    expire_sessions-AllGenuine timeout now s (map (λ e. e.0) s.sessions) all
run_event-AllGenuine s (authorization configured) all = authorize_client-AllGenuine s configured all
run_event-AllGenuine s (revocation parsed) all = revoke_client-AllGenuine s parsed all

run_events-AllGenuine :
    (s : Server) (es : List RelayEvent) → AllGenuine s → AllGenuine (run_events s es).0
unfolding run_events
run_events-AllGenuine s [] all = all
run_events-AllGenuine s (e ∷ es) all =
    run_events-AllGenuine (run_event s e).0 es (run_event-AllGenuine s e all)

-- After whatever events, if at first only packets from its tunnel address waited in each session,
-- this still holds, and what handle_encrypted writes to the TUN for a further packet is from the
-- tunnel address of the session on whose path that packet is authentic and new.
pub run_events-OnlyOwn :
    (s : Server) (es : List RelayEvent) (writes : Bytes → Bytes → Bool) (now : ℤ) (remote : Bytes)
    (header : Header) (bytes : Bytes)
    → AllGenuine s
    → OnlyOwn writes now
        (run_events s es).0
        remote
        header
        bytes
        (handle_encrypted writes now (run_events s es).0 remote header bytes)
run_events-OnlyOwn s es writes now remote header bytes all =
    handle_encrypted-OnlyOwn writes now (run_events s es).0 remote header bytes
      (run_events-AllGenuine s es all)
