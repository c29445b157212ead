-- ===== src/Engine/Packets.antt =====
-- The packets that the relay takes from its UDP socket (internal/engine/server.go). What the socket
-- and the TUN device are given is returned, in order; metrics and logs are left out. Whether a write
-- to an address fails is an argument; the readings of the clock for one packet are one.
pub mod Handled
pub mod Genuine
use link_forge.Engine.Registry.{deref, terminate_session_if_current}
use link_forge.Engine.Registry.Update.{store}
use link_forge.Engine.State.{ServerPath, Session, Server, tunnel_ip_of}
use link_forge.Prelude.{
  ◌==◌, if◌then◌else◌, length, err, ok, ℕ, ◌+◌, ◌%◌, ◌^◌, Bool, true, false, ◌&&◌, ◌||◌, Option,
  none, some, List, [], ◌∷◌, map, ℕ_discrete,
}
use link_forge.Prelude.Int.{ℤ}
use link_forge.Prelude.Map.{Map, lookup, put, delete}
use link_forge.Protocol.Aead.{seal, open_packet}
use link_forge.Protocol.Bytes.{Bytes, bytes_eq}
use link_forge.Protocol.Header.{
  replay, type_data, type_ping, type_pong, type_probe, type_probe_reply, type_close,
  client_to_server, server_to_client, Header,
}
use link_forge.Protocol.Hello.Layout.{packet}
use link_forge.Protocol.Ip.{addr_eq, source_ip}
use link_forge.Protocol.Payload.{parse_data}
use link_forge.Protocol.Replay.{ReplayWindow, accept}
use link_forge.Reorder.{push}

-- What a handler writes.
pub data Output : Type 0 where
  to_udp : (destination packet : Bytes) → Output
  to_tun : (packet : Bytes) → Output

-- serverPath.send: the path behind it, what is written, and whether all went well.
unfoldable pub send_packet :
    (writes : Bytes → Bytes → Bool)
    → ServerPath
    → (packet_type : ℕ) → (payload : Bytes) → ServerPath × List Output × Bool
send_packet writes path packet_type payload =
    let sequence = (path.sequence + 1) % 2 ^ 64 in
    let path' = record path { sequence = sequence } in
    let header : Header = record {
      packet_type = packet_type;
      flags = 0;
      session_id = path.session_id;
      path_id = path.id;
      sequence = sequence;
    } in
    elim (seal path.aead header server_to_client payload) [
      | err e ↦ (path', [], false)
      | ok packet ↦ elim path.remote [
        | none ↦ (path', [], false)
        | some remote ↦
            if writes remote packet
            then (path', to_udp remote packet ∷ [], true)
            else (path', [], false)
      ]
    ]

-- An answer on the path; recordWriteError marks a path unhealthy on which it fails.
unfoldable pub answer_packet :
    (writes : Bytes → Bytes → Bool)
    → ServerPath
    → (packet_type : ℕ) → (payload : Bytes) → ServerPath × List Output
answer_packet writes path packet_type payload =
    let (path', written, fine) = send_packet writes path packet_type payload in
    (if fine then path' else record path' { healthy = false }, written)

-- serverSession.pathForNonce
unfoldable pub path_for_nonce : Bytes → Map ℕ ServerPath → Option ServerPath
path_for_nonce nonce [] = none
path_for_nonce nonce ((id, path) ∷ rest) =
    let later = path_for_nonce nonce rest in
    if bytes_eq path.client_nonce nonce then some path else later

-- serverSession.removePath, of a path that the map holds: the session, and whether it has no path.
unfoldable pub remove_path : Session → ServerPath → Session × Bool
remove_path session path =
    let left = delete ℕ_discrete path.id session.paths in
    let empty = length left == 0 in
    (record session { paths = left; closing = session.closing || empty }, empty)

-- What has been authenticated: the address of the path, the times and the replay window.
unfoldable pub refresh :
    (remote : Bytes) → (now : ℤ) → ReplayWindow → Session → ServerPath → Session
refresh remote now window session path =
    let path' = record path {
      replay = window;
      remote = some remote;
      last_seen = now;
      healthy = true;
    } in
    record session { last_seen = now; paths = put ℕ_discrete path.id path' session.paths }

-- The packet of a data payload goes through the reorder buffer, if it is from the tunnel address.
unfoldable pub receive_data : (now : ℤ) → Session → Bytes → Session × List Output
receive_data now session payload = elim (parse_data payload) [
  | err e ↦ (session, [])
  | ok (sequence, packet) ↦ elim (source_ip packet) [
    | none ↦ (session, [])
    | some source ↦
        let (buffer, result) = push session.reorder sequence packet now now in
        if addr_eq source (tunnel_ip_of session)
        then (record session { reorder = buffer }, map to_tun result.packets)
        else (session, [])
  ]
]

-- The answer to a ping or a probe.
unfoldable pub receive_request :
    (writes : Bytes → Bytes → Bool)
    → Session
    → (path_id answer_type : ℕ) → Bytes
    → Session × List Output
receive_request writes session path_id answer_type payload =
    elim (lookup ℕ_discrete path_id session.paths) [
      | none ↦ (session, [])
      | some path ↦
          let (path', written) = answer_packet writes path answer_type payload in
          (record session { paths = put ℕ_discrete path_id path' session.paths }, written)
    ]

-- The session behind an opened payload that is not type_close.
unfoldable pub receive_payload :
    (writes : Bytes → Bytes → Bool) → (now : ℤ) → Session → Header → Bytes → Session × List Output
receive_payload writes now session header payload =
    if header.packet_type == type_data
    then receive_data now session payload
    else if header.packet_type == type_ping && length payload == 8
    then receive_request writes session header.path_id type_pong payload
    else if header.packet_type == type_probe
    then receive_request writes session header.path_id type_probe_reply payload
    else (session, [])

-- The end of a path, and of its session with the last one.
unfoldable pub close_path : Server → (ref : ℕ) → Session → ServerPath → Server
close_path s ref session path =
    let (session', empty) = remove_path session path in
    let s' = store s ref session' in
    if empty then terminate_session_if_current s' ref session' else s'

-- Behind a payload that has been opened and whose number was new.
unfoldable pub receive_opened :
    (writes : Bytes → Bytes → Bool)
    → (now : ℤ) → Server
    → (ref : ℕ) → Session
    → ServerPath
    → Header
    → Bytes
    → Server × List Output
receive_opened writes now s ref session path header payload =
    let (session', written) = receive_payload writes now session header payload in
    if header.packet_type == type_close
    then (close_path s ref session path, [])
    else (store s ref session', written)

-- handleEncrypted
unfoldable pub handle_encrypted :
    (writes : Bytes → Bytes → Bool)
    → (now : ℤ) → Server
    → (remote : Bytes) → Header
    → (packet : Bytes) → Server × List Output
handle_encrypted writes now s remote header packet =
    elim (deref s (lookup ℕ_discrete header.session_id s.sessions)) [
      | none ↦ (s, [])
      | some (ref, session) ↦ elim (lookup ℕ_discrete header.path_id session.paths) [
        | none ↦ (s, [])
        | some path ↦ elim (open_packet path.aead header client_to_server packet) [
          | err e ↦ (s, [])
          | ok payload ↦
              let (window, is_new) = accept path.replay header.sequence in
              if is_new
              then receive_opened writes now s ref (refresh remote now window session path) path
                  header payload
              else (s, [])
        ]
      ]
    ]
