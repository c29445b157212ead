-- ===== src/Engine/Handshake.antt =====
-- handleHello of internal/engine/server.go: a path joins a session. What is drawn, the clock and
-- whether a write to an address fails are arguments; metrics and logs are left out.
pub mod Kept
use link_forge.Engine.Packets.{Output, to_udp, path_for_nonce, close_path}
use link_forge.Engine.Paths.{add_path}
use link_forge.Engine.Registry.{get_or_create_session}
use link_forge.Engine.Registry.Update.{store}
use link_forge.Engine.State.{Credential, ServerPath, Session, Server, client_id_string}
use link_forge.Prelude.{
  ltb, leb, ◌==◌, if◌then◌else◌, length, take, err, ok, ℕ, ◌+◌, ◌*◌, ◌%◌, ◌^◌, Bool, true, false,
  not, ◌||◌, Option, none, some, List, [], ◌∷◌, ℕ_discrete,
}
use link_forge.Prelude.Int.{ℤ, pos}
use link_forge.Prelude.Map.{lookup, put}
use link_forge.Protocol.Aead.{Aead}
use link_forge.Protocol.Bytes.{Bytes, Bytes-discrete, bytes_eq}
use link_forge.Protocol.Header.{replay, type_welcome, Header}
use link_forge.Protocol.Hello.{Hello, Hmac, parse_hello}
use link_forge.Protocol.Hello.Layout.{packet}
use link_forge.Protocol.Keys.{new_aead}
use link_forge.Protocol.Payload.{marshal_plain, plain_payload}
use link_forge.Protocol.Replay.{empty_window}
use link_forge.Protocol.Welcome.{Welcome, marshal_welcome}

-- What the handler is given from outside: HMAC, AES-GCM, the socket, the drawn session ids and the
-- server's nonce, and the clock.
pub record World : Type 0 where
  pub hmac : Hmac
  pub gcm : Bytes → Aead
  pub writes : Bytes → Bytes → Bool
  pub id_draws : List (Option ℕ)
  pub nonce_draw : Option Bytes
  pub now : ℤ

abbrev pub is_remote : Option Bytes → Bytes → Bool
is_remote none remote = false
is_remote (some known) remote = bytes_eq known remote

-- The hello of a path that is known: the welcome is sent again to the path's own address.
unfoldable pub greet_again :
    World → Server → (ref : ℕ) → Session → ServerPath → (remote : Bytes) → Server × List Output
greet_again w s ref session path remote =
    let fine = w.writes remote path.welcome_packet in
    let path' = record path { healthy = fine } in
    let s' = store s ref (record session { paths = put ℕ_discrete path.id path' session.paths }) in
    if not (is_remote path.remote remote)
    then (s, [])
    else (s', if fine then to_udp remote path.welcome_packet ∷ [] else [])

-- The path that a hello asks for, with its welcome.
unfoldable pub new_path :
    World
    → Credential
    → Session
    → Hello
    → (path_id : ℕ) → (server_nonce welcome_packet remote : Bytes) → ServerPath
new_path w credential session hello path_id server_nonce welcome_packet remote = record {
  id = path_id;
  session_id = session.id;
  name = hello.path_name;
  client_nonce = hello.nonce;
  server_nonce = server_nonce;
  welcome_packet = welcome_packet;
  aead = new_aead w.hmac w.gcm credential.key hello.nonce server_nonce session.id path_id;
  sequence = 0;
  weight = hello.weight;
  remote = some remote;
  replay = empty_window;
  last_seen = w.now;
  healthy = true;
  health_timeout = pos (10 * 10 ^ 9);
}

-- The welcome packet; MarshalPlain does not fail on its length.
unfoldable pub welcome_packet_of :
    World → Credential → Session → Hello → (path_id : ℕ) → (server_nonce : Bytes) → Bytes
welcome_packet_of w credential session hello path_id server_nonce =
    let header : Header = record {
      packet_type = type_welcome;
      flags = 0;
      session_id = session.id;
      path_id = path_id;
      sequence = 0;
    } in
    let welcome : Welcome = record {
      client_nonce = hello.nonce;
      server_nonce = server_nonce;
      time = w.now;
    } in
    elim (marshal_plain header (marshal_welcome w.hmac credential.key welcome header)) [
      | err e ↦ []
      | ok packet ↦ packet
    ]

-- A path is added to its session, and taken out again where its welcome cannot be sent.
unfoldable pub join_path :
    World → Server → (ref : ℕ) → Session → ServerPath → (remote : Bytes) → Server × List Output
join_path w s ref session path remote =
    let (joined, added) = add_path session path in
    let touched = record joined { last_seen = w.now } in
    if not added
    then (s, [])
    else if w.writes remote path.welcome_packet
    then (store s ref touched, to_udp remote path.welcome_packet ∷ [])
    else (close_path s ref touched path, [])

-- Behind a session that takes the hello.
unfoldable pub greet :
    World
    → Credential
    → Server
    → (ref : ℕ) → Session
    → Hello
    → (remote : Bytes) → Server × List Output
greet w credential s ref session hello remote = elim (path_for_nonce hello.nonce session.paths) [
  | some existing ↦ greet_again w s ref session existing remote
  | none ↦
      let path_id = (session.next_path_id + 1) % 2 ^ 32 in
      let numbered = record session { next_path_id = path_id } in
      let s' = store s ref numbered in
      if path_id == 0 || leb (2 ^ 31) path_id then (s', []) else elim w.nonce_draw [
        | none ↦ (s', [])
        | some server_nonce ↦
            let welcome_packet =
              welcome_packet_of w credential numbered hello path_id server_nonce in
            join_path w s' ref numbered
              (new_path w credential numbered hello path_id server_nonce welcome_packet remote)
              remote
      ]
]

-- Behind a hello that is authentic.
unfoldable pub greet_client :
    World → Server → Credential → Hello → (remote : Bytes) → Server × List Output
greet_client w s credential hello remote =
    let (s', joined) = get_or_create_session s credential hello w.id_draws w.now in
    elim joined [
      | err e ↦ (s', [])
      | ok ref ↦ elim (lookup ℕ_discrete ref s'.heap) [
        | none ↦ (s', [])
        | some session ↦ greet w credential s' ref session hello remote
      ]
    ]

-- handleHello
unfoldable pub handle_hello : World → Server → (remote packet : Bytes) → Server × List Output
handle_hello w s remote packet = elim (plain_payload packet) [
  | err e ↦ (s, [])
  | ok payload ↦ elim (lookup Bytes-discrete (client_id_string (take 16 payload)) s.credentials) [
    | none ↦ (s, [])
    | some credential ↦ elim (parse_hello w.hmac payload credential.key w.now) [
      | err e ↦ (s, [])
      | ok hello ↦
          if ltb (length payload) 16 then (s, []) else greet_client w s credential hello remote
    ]
  ]
]
