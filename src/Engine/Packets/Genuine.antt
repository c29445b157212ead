-- ===== src/Engine/Packets/Genuine.antt =====
-- The source addresses of the packets that wait in sessions and that the TUN device is given.
use link_forge.Engine.Packets.{
  Output, to_udp, to_tun, send_packet, answer_packet, remove_path, refresh, receive_data,
  receive_request, receive_payload, close_path, receive_opened, handle_encrypted,
}
use link_forge.Engine.Packets.Handled.{deref_inv, IsTaken, taken_result, handle_encrypted_inv}
use link_forge.Engine.Registry.{
  mark_closing, refers, detach_session, close_session, terminate_session_if_current,
}
use link_forge.Engine.Registry.Update.{store}
use link_forge.Engine.State.{ServerPath, Session, Server, tunnel_ip_of}
use link_forge.Prelude.{
  ◌==◌, if◌then◌else◌, Bool-cases, Option-cases, length, All, Result-cases, ℕ, ◌+◌, ◌%◌, ◌^◌, ◌≡◌,
  refl, sym, ap, subst, ◌∙◌, ◌⊎◌, inl, inr, Bool, true, false, not, ◌&&◌, some, List, [], ◌∷◌, map,
  arith, ℕ_discrete,
}
use link_forge.Prelude.Int.{ℤ}
use link_forge.Prelude.Map.{lookup, put, lookup-put_inv}
use link_forge.Protocol.Aead.{seal}
use link_forge.Protocol.Bytes.{Bytes}
use link_forge.Protocol.Header.{
  type_data, type_ping, type_pong, type_probe, type_probe_reply, type_close, server_to_client,
  Header,
}
use link_forge.Protocol.Hello.Layout.{packet}
use link_forge.Protocol.Ip.{Addr, addr_eq, addr_eq→eq, source_ip}
use link_forge.Protocol.Payload.{parse_data}
use link_forge.Protocol.Replay.{accept}
use link_forge.Reorder.{push}
use link_forge.Reorder.Contents.{Holds, push-Gives}

abbrev pub IsFromAddress : Addr → Bytes → Type 0
IsFromAddress ip packet = source_ip packet ≡ some ip

-- What is written to the TUN is from the address.
abbrev pub IsFrom : Addr → Output → Type 0
IsFrom ip (to_udp _ _) = Unit
IsFrom ip (to_tun bytes) = IsFromAddress ip bytes

-- The packets that wait in a session's buffer are from its tunnel address.
abbrev pub IsGenuine : Session → Type 0
IsGenuine session = Holds (IsFromAddress (tunnel_ip_of session)) session.reorder

abbrev pub AllGenuine : Server → Type 0
AllGenuine s =
    (ref : ℕ) (session : Session) → lookup ℕ_discrete ref s.heap ≡ some session → IsGenuine session

-- A step of a session.
abbrev pub Keeps : Session → Session × List Output → Type 0
Keeps session y =
    (tunnel_ip_of y.0 ≡ tunnel_ip_of session)
    × Holds (IsFromAddress (tunnel_ip_of session)) y.0.reorder
    × All (IsFrom (tunnel_ip_of session)) y.1

to_tun-All :
    (ip : Addr) (packets : List Bytes)
    → All (IsFromAddress ip) packets
    → All (IsFrom ip) (map to_tun packets)
to_tun-All ip [] h = tt
to_tun-All ip (p ∷ packets) h = (h.0, to_tun-All ip packets h.1)

receive_data-Keeps :
    (now : ℤ) (session : Session) (payload : Bytes)
    → IsGenuine session
    → Keeps session (receive_data now session payload)
unfolding receive_data
receive_data-Keeps now session payload g = elim (Result-cases (parse_data payload)) [
  | inl (e, bad) ↦
      let same : receive_data now session payload ≡ (session, []) = ground arith in
      subst (Keeps session) (sym same) (refl, g, tt)
  | inr ((sequence, packet), parsed) ↦ elim (Option-cases (source_ip packet)) [
    | inl no_source ↦
        let same : receive_data now session payload ≡ (session, []) = ground arith in
        subst (Keeps session) (sym same) (refl, g, tt)
    | inr (source, sent) ↦ elim (Bool-cases (addr_eq source (tunnel_ip_of session))) [
      | inr spoofed ↦
          let same : receive_data now session payload ≡ (session, []) = ground arith in
          subst (Keeps session) (sym same) (refl, g, tt)
      | inl own ↦
          let r = push session.reorder sequence packet now now in
          let ip = tunnel_ip_of session in
          let same : receive_data now session payload
              ≡ (record session { reorder = r.0 }, map to_tun r.1.packets) =
            ground arith in
          let from : IsFromAddress ip packet = sent ∙ ap some (addr_eq→eq source ip own) in
          let given =
            push-Gives (IsFromAddress ip) session.reorder sequence packet now now from g in
          subst (Keeps session) (sym same) (refl, given.0, to_tun-All ip r.1.packets given.1)
    ]
  ]
]

send_packet-All :
    (ip : Addr) (writes : Bytes → Bytes → Bool) (path : ServerPath) (packet_type : ℕ)
    (payload : Bytes)
    → All (IsFrom ip) (send_packet writes path packet_type payload).1
unfolding send_packet
send_packet-All ip writes path packet_type payload =
    let sequence = (path.sequence + 1) % 2 ^ 64 in
    let header : Header = record {
      packet_type = packet_type;
      flags = 0;
      session_id = path.session_id;
      path_id = path.id;
      sequence = sequence;
    } in
    elim (Result-cases (seal path.aead header server_to_client payload)) [
      | inl (e, bad) ↦ ground arith
      | inr (sealed, done) ↦ elim (Option-cases path.remote) [
        | inl nowhere ↦ ground arith
        | inr (remote, known) ↦ elim (Bool-cases (writes remote sealed)) [
          | inl fine ↦ ground arith
          | inr broken ↦ ground arith
        ]
      ]
    ]

receive_request-Keeps :
    (writes : Bytes → Bytes → Bool) (session : Session) (path_id answer_type : ℕ) (payload : Bytes)
    → IsGenuine session
    → Keeps session (receive_request writes session path_id answer_type payload)
unfolding receive_request answer_packet
receive_request-Keeps writes session path_id answer_type payload g =
    elim (Option-cases (lookup ℕ_discrete path_id session.paths)) [
      | inl none_here ↦
          let same : receive_request writes session path_id answer_type payload ≡ (session, []) =
            ground arith in
          subst (Keeps session) (sym same) (refl, g, tt)
      | inr (path, found) ↦
          let r = answer_packet writes path answer_type payload in
          let same : receive_request writes session path_id answer_type payload
              ≡ (record session { paths = put ℕ_discrete path_id r.0 session.paths }, r.1) =
            ground arith in
          subst (Keeps session) (sym same)
            (refl, g, send_packet-All (tunnel_ip_of session) writes path answer_type payload)
    ]

Keeps-if :
    (session : Session) (c : Bool) (x y : Session × List Output)
    → Keeps session x
    → Keeps session y
    → Keeps session (if c then x else y)
Keeps-if session true x y f g = f
Keeps-if session false x y f g = g

receive_payload-Keeps :
    (writes : Bytes → Bytes → Bool) (now : ℤ) (session : Session) (header : Header)
    (payload : Bytes)
    → IsGenuine session
    → Keeps session (receive_payload writes now session header payload)
unfolding receive_payload
receive_payload-Keeps writes now session header payload g =
    Keeps-if session (header.packet_type == type_data) _ _
      (receive_data-Keeps now session payload g)
      (Keeps-if session (header.packet_type == type_ping && length payload == 8) _ _
        (receive_request-Keeps writes session header.path_id type_pong payload g)
        (Keeps-if session (header.packet_type == type_probe) _ _
          (receive_request-Keeps writes session header.path_id type_probe_reply payload g)
          (refl, g, tt)))

-- A session that is stored again.
pub store-AllGenuine :
    (s : Server) (ref : ℕ) (session : Session)
    → AllGenuine s
    → IsGenuine session
    → AllGenuine (store s ref session)
store-AllGenuine s ref session all g ref' session' h =
    elim (lookup-put_inv ℕ_discrete ref ref' session session' s.heap h) [
      | inl hit ↦ subst IsGenuine hit.1 g
      | inr miss ↦ all ref' session' miss.1
    ]

detach_session-heap :
    (s : Server) (ref : ℕ) (session : Session) → (detach_session s ref session).heap ≡ s.heap
unfolding detach_session
detach_session-heap s ref session =
    elim (Bool-cases (not (refers (lookup ℕ_discrete session.id s.sessions) ref))) [
      | inl foreign ↦ ground arith
      | inr own ↦ ground arith
    ]

pub close_session-AllGenuine :
    (s : Server) (ref : ℕ) (session : Session)
    → AllGenuine s
    → IsGenuine session
    → AllGenuine (close_session s ref session)
unfolding close_session mark_closing
close_session-AllGenuine s ref session all g ref' session' h =
    let closed = mark_closing session in
    let heap = detach_session-heap (store s ref closed) ref session in
    store-AllGenuine s ref closed all g ref' session' (ap (lookup ℕ_discrete ref') (sym heap) ∙ h)

terminate_session_if_current-AllGenuine :
    (s : Server) (ref : ℕ) (session : Session)
    → AllGenuine s
    → IsGenuine session
    → AllGenuine (terminate_session_if_current s ref session)
unfolding terminate_session_if_current
terminate_session_if_current-AllGenuine s ref session all g =
    elim (Bool-cases (refers (lookup ℕ_discrete session.id s.sessions) ref)) [
      | inl current ↦
          let same : terminate_session_if_current s ref session ≡ close_session s ref session =
            ground arith in
          subst AllGenuine (sym same) (close_session-AllGenuine s ref session all g)
      | inr old ↦
          let same : terminate_session_if_current s ref session ≡ s = ground arith in
          subst AllGenuine (sym same) all
    ]

pub close_path-AllGenuine :
    (s : Server) (ref : ℕ) (session : Session) (path : ServerPath)
    → AllGenuine s
    → IsGenuine session
    → AllGenuine (close_path s ref session path)
unfolding close_path remove_path
close_path-AllGenuine s ref session path all g =
    let left = (remove_path session path).0 in
    let kept : AllGenuine (store s ref left) = store-AllGenuine s ref left all g in
    AllGenuine-if (remove_path session path).1 _ _
      (terminate_session_if_current-AllGenuine (store s ref left) ref left kept g) kept
  where
    AllGenuine-if :
        (c : Bool) (x y : Server) → AllGenuine x → AllGenuine y → AllGenuine (if c then x else y)
    AllGenuine-if true x y f g = f
    AllGenuine-if false x y f g = g

module _ (writes : Bytes → Bytes → Bool) (now : ℤ) (s : Server) (remote : Bytes) (header : Header)
    (bytes : Bytes) where
  -- What a packet may bring about.
  abbrev pub OnlyOwn : Server × List Output → Type 0
  OnlyOwn y =
      AllGenuine y.0
      × ((y.1 ≡ []) ⊎ ((t : IsTaken s header bytes) × All (IsFrom (tunnel_ip_of t.session)) y.1))

  taken_result-OnlyOwn :
      (t : IsTaken s header bytes)
      → AllGenuine s
      → OnlyOwn (taken_result writes now s remote header bytes t)
  unfolding receive_opened refresh
  taken_result-OnlyOwn t all =
      let held = deref_inv s (lookup ℕ_discrete header.session_id s.sessions) t.listed in
      let there = refresh remote now (accept t.path.replay header.sequence).0 t.session t.path in
      let own : IsGenuine there = all t.ref t.session held in
      let step = receive_payload-Keeps writes now there header t.payload own in
      let next = (receive_payload writes now there header t.payload).0 in
      let next_own : IsGenuine next =
        subst (λ ip. Holds (IsFromAddress ip) next.reorder) (sym step.0) step.1 in
      elim (Bool-cases (header.packet_type == type_close)) [
        | inl closes ↦
            let same : taken_result writes now s remote header bytes t
                ≡ (close_path s t.ref there t.path, []) =
              ground arith in
            subst OnlyOwn (sym same) (close_path-AllGenuine s t.ref there t.path all own, inl refl)
        | inr stays ↦
            let same : taken_result writes now s remote header bytes t
                ≡ (store s t.ref next, (receive_payload writes now there header t.payload).1) =
              ground arith in
            subst OnlyOwn (sym same) (store-AllGenuine s t.ref next all next_own, inr (t, step.2))
      ]

  -- If in every session only packets from its tunnel address wait, this stays so whatever packet
  -- comes; and what handle_encrypted then writes to the TUN is from the tunnel address of the
  -- session on whose path the packet is authentic and new.
  pub handle_encrypted-OnlyOwn :
      AllGenuine s → OnlyOwn (handle_encrypted writes now s remote header bytes)
  handle_encrypted-OnlyOwn all = elim (handle_encrypted_inv writes now s remote header bytes) [
    | inl same ↦ subst OnlyOwn (sym same) (all, inl refl)
    | inr (t, same) ↦ subst OnlyOwn (sym same) (taken_result-OnlyOwn t all)
  ]
