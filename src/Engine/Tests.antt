-- ===== src/Engine/Tests.antt =====
-- Two clients of the relay, of which the second is connected.
use link_forge.Engine.Credentials.{Configured, authorize_client, revoke_client}
use link_forge.Engine.Credentials.Authorization.{authorize_client-IsRelay}
use link_forge.Engine.Credentials.Revocation.{revoke_client-ends}
use link_forge.Engine.Events.{
  RelayEvent, datagram, reorder_tick, janitor, authorization, revocation, run_events,
}
use link_forge.Engine.Events.Genuine.{run_events-OnlyOwn}
use link_forge.Engine.Events.Kept.{run_events-IsRelay}
use link_forge.Engine.Handshake.{World}
use link_forge.Engine.Packets.{handle_encrypted}
use link_forge.Engine.Packets.Genuine.{IsGenuine, AllGenuine, OnlyOwn}
use link_forge.Engine.Paths.{
  is_older, expire_all, expire_paths, expire_session, expire_sessions, janitor_tick,
}
use link_forge.Engine.Paths.Expiry.{janitor_tick-IsRelay}
use link_forge.Engine.Paths.Silence.{janitor_tick-fresh}
use link_forge.Engine.Registry.{
  terminate_client_session, draw_id, still_authorized, new_session, add_session,
  get_or_create_session,
}
use link_forge.Engine.Registry.Invariant.{IsConsistent, IsAuthorized, IsRelay}
use link_forge.Engine.Registry.Joined.{Joined, get_or_create_session-joins}
use link_forge.Engine.Registry.Joining.{get_or_create_session-IsRelay}
use link_forge.Engine.Registry.Update.{store, store-IsRelay}
use link_forge.Engine.State.{
  Credential, ServerPath, Session, Subnet, Server, client_id_string, id_text,
}
use link_forge.Prelude.{
  drop, replicate, drop-append, ◌≡◌, refl, sym, ap, subst, ◌∙◌, ◌≢◌, ◌⊎◌, inl, inr, true, false,
  none, some, List, [], ◌∷◌, ◌++◌, arith, ℕ_discrete,
}
use link_forge.Prelude.Int.{pos, ◌-ℤ◌}
use link_forge.Prelude.Map.{lookup, put, delete, lookup-put_inv}
use link_forge.Protocol.Aead.{Aead}
use link_forge.Protocol.Bytes.{Bytes, Bytes-discrete, bytes_eq}
use link_forge.Protocol.Header.{tag_size, type_data, Header, marshal_binary}
use link_forge.Protocol.Hello.{Hello}
use link_forge.Protocol.Ip.{v4, Addr-discrete, addr_eq}
use link_forge.Protocol.Replay.{empty_window}
use link_forge.Reorder.{new}

abbrev subnet_10 : Subnet
subnet_10 = record { holds = λ a. true; own = v4 (10 ∷ 0 ∷ 0 ∷ 1 ∷ []) }

abbrev anna : Credential
anna = record { name = []; client_id = 1 ∷ []; key = 7 ∷ []; tunnel_ip = v4 (2 ∷ []) }

abbrev bert : Credential
bert = record { name = []; client_id = 2 ∷ []; key = 8 ∷ []; tunnel_ip = v4 (3 ∷ []) }

abbrev hello : Hello
hello = record {
  client_id = 2 ∷ [];
  instance_nonce = 5 ∷ [];
  nonce = [];
  time = pos 0;
  path_name = [];
  weight = 1;
  wire_version = 2;
}

-- Both clients are known, and none is connected.
abbrev idle : Server
idle = record {
  subnet = some subnet_10;
  reorder_window = pos 64;
  reorder_delay = pos 80;
  credentials =
      put Bytes-discrete (client_id_string (1 ∷ [])) anna
        (put Bytes-discrete (client_id_string (2 ∷ [])) bert []);
  heap = [];
  next_ref = 0;
  sessions = [];
  session_by_client = [];
  session_by_ip = [];
  active_sessions = pos 0;
}

no_value : {A : Type 0} {x : A} → none ≡ some x → ⊥
no_value p = ground arith

idle-IsConsistent : IsConsistent idle
unfolding lookup
idle-IsConsistent = record {
  live = λ id ref h. absurd (no_value h);
  client = λ text ref h. absurd (no_value h);
  address = λ ip ref h. absurd (no_value h);
  below = λ ref session h. absurd (no_value h);
}

-- What the table of credentials holds.
held :
    (t : Bytes) (c : Credential)
    → lookup Bytes-discrete t idle.credentials ≡ some c
    → ((t ≡ client_id_string (1 ∷ [])) × (c ≡ anna))
      ⊎ ((t ≡ client_id_string (2 ∷ [])) × (c ≡ bert))
unfolding lookup
held t c h = elim (lookup-put_inv Bytes-discrete _ t anna c _ h) [
  | inl new ↦ inl (sym new.0, sym new.1)
  | inr (_, rest) ↦ elim (lookup-put_inv Bytes-discrete _ t bert c _ rest) [
    | inl new ↦ inr (sym new.0, sym new.1)
    | inr (_, gone) ↦ absurd (no_value gone)
  ]
]

idle-IsAuthorized : IsAuthorized idle
unfolding lookup
idle-IsAuthorized = record {
  backed = λ id ref session h k. absurd (no_value h);
  own_address = λ t u c d p q e. elim (held t c p) [
    | inl a ↦ elim (held u d q) [
      | inl b ↦ a.0 ∙ sym b.0
      | inr b ↦ absurd (apart (ap (λ x. x.tunnel_ip) (sym a.1) ∙ e ∙ ap (λ x. x.tunnel_ip) b.1))
    ]
    | inr a ↦ elim (held u d q) [
      | inl b ↦
          absurd (apart (sym (ap (λ x. x.tunnel_ip) (sym a.1) ∙ e ∙ ap (λ x. x.tunnel_ip) b.1)))
      | inr b ↦ a.0 ∙ sym b.0
    ]
  ];
}
  where
    apart : v4 (2 ∷ []) ≢ v4 (3 ∷ [])
    apart e = ground arith

idle-IsRelay : IsRelay idle
idle-IsRelay = record { consistent = idle-IsConsistent; authorized = idle-IsAuthorized }

-- Bert has joined.
abbrev joined : Server
joined = (get_or_create_session idle bert hello (some 0 ∷ some 9 ∷ []) (pos 4)).0

joined-IsRelay : IsRelay joined
joined-IsRelay =
    get_or_create_session-IsRelay idle bert hello (some 0 ∷ some 9 ∷ []) (pos 4) idle-IsRelay

get_or_create_session-IsRelay_example : IsRelay joined
get_or_create_session-IsRelay_example =
    get_or_create_session-IsRelay idle bert hello (some 0 ∷ some 9 ∷ []) (pos 4) idle-IsRelay

get_or_create_session-joins_example : Joined joined bert hello 0
unfolding get_or_create_session still_authorized lookup put Bytes-discrete client_id_string bytes_eq
    addr_eq draw_id add_session new_session ℕ_discrete Addr-discrete
get_or_create_session-joins_example =
    get_or_create_session-joins idle bert hello (some 0 ∷ some 9 ∷ []) (pos 4) 0 idle-IsRelay refl

-- Anna is revoked, and the session left is not hers.
revoke_client-ends_example :
    id_text (new_session idle bert hello 9 (pos 4)) ≢ client_id_string (1 ∷ [])
unfolding get_or_create_session still_authorized lookup put Bytes-discrete client_id_string bytes_eq
    addr_eq draw_id add_session new_session ℕ_discrete Addr-discrete revoke_client
    terminate_client_session delete
revoke_client-ends_example =
    revoke_client-ends joined (1 ∷ []) 9 0 (new_session idle bert hello 9 (pos 4)) joined-IsRelay
      refl refl

-- Bert's address changes, which ends his session.
abbrev moved : Configured
moved = record {
  configured_name = [];
  parsed_id = some (2 ∷ []);
  parsed_key = some (8 ∷ []);
  parsed_address = some (v4 (4 ∷ []));
}

authorize_client-IsRelay_example : IsRelay (authorize_client joined moved).0
authorize_client-IsRelay_example = authorize_client-IsRelay joined moved joined-IsRelay

-- Two minutes later bert's session has gone.
janitor_tick-IsRelay_example : IsRelay (janitor_tick (pos 120000000000) (pos 120000000005) joined)
janitor_tick-IsRelay_example =
    janitor_tick-IsRelay (pos 120000000000) (pos 120000000005) joined joined-IsRelay

-- A second after it was seen, the session is still there.
janitor_tick-fresh_example : is_older (pos 120000000000) (pos 1000000004) (pos 4) ≡ false
unfolding get_or_create_session still_authorized lookup put Bytes-discrete client_id_string bytes_eq
    addr_eq draw_id add_session new_session ℕ_discrete Addr-discrete janitor_tick expire_sessions
    expire_session expire_paths expire_all ◌-ℤ◌
janitor_tick-fresh_example =
    janitor_tick-fresh (pos 120000000000) (pos 1000000004) joined 9 0
      (new_session idle bert hello 9 (pos 4)) joined-IsRelay refl refl

-- The tag is sixteen zeros in front.
abbrev zero_aead : Aead
zero_aead = record {
  seal_bytes = λ nonce plaintext aad. replicate tag_size 0 ++ plaintext;
  open_bytes = λ nonce ciphertext aad. some (drop tag_size ciphertext);
  open-seal =
      λ nonce plaintext aad. ap some (drop-append tag_size (replicate tag_size 0) plaintext refl);
  length-seal = λ nonce plaintext aad. omega arith;
}

abbrev bert_path : ServerPath
bert_path = record {
  id = 1;
  session_id = 9;
  name = [];
  client_nonce = [];
  server_nonce = [];
  welcome_packet = [];
  aead = zero_aead;
  sequence = 0;
  weight = 1;
  remote = none;
  replay = empty_window;
  last_seen = pos 4;
  healthy = true;
  health_timeout = pos 10;
}

abbrev bert_session : Session
bert_session = new_session idle bert hello 9 (pos 4)

abbrev bert_ready : Session
bert_ready = record bert_session { paths = (1, bert_path) ∷ [] }

-- Bert has a path.
abbrev connected : Server
connected = store joined 0 bert_ready

joined-held : lookup ℕ_discrete 0 joined.heap ≡ some bert_session
unfolding get_or_create_session still_authorized lookup put Bytes-discrete client_id_string bytes_eq
    addr_eq draw_id add_session new_session ℕ_discrete Addr-discrete
joined-held = refl

connected-IsRelay : IsRelay connected
connected-IsRelay =
    store-IsRelay joined joined-IsRelay 0 bert_session bert_ready joined-held refl refl

connected-AllGenuine : AllGenuine connected
unfolding get_or_create_session still_authorized lookup put Bytes-discrete client_id_string bytes_eq
    addr_eq draw_id add_session new_session ℕ_discrete Addr-discrete new
connected-AllGenuine ref session h =
    elim (lookup-put_inv ℕ_discrete 0 ref bert_ready session joined.heap h) [
      | inl hit ↦ subst IsGenuine hit.1 tt
      | inr miss ↦ elim (lookup-put_inv ℕ_discrete 0 ref bert_session session [] miss.1) [
        | inl hit ↦ subst IsGenuine hit.1 tt
        | inr gone ↦ absurd (no_value gone.1)
      ]
    ]

abbrev data_header : Header
data_header = record {
  packet_type = type_data;
  flags = 0;
  session_id = 9;
  path_id = 1;
  sequence = 1;
}

-- The first packet of bert's session, whose payload begins with its number.
abbrev data_packet : Bytes
data_packet =
    marshal_binary data_header
    ++ replicate tag_size 0
    ++ (0 ∷ 0 ∷ 0 ∷ 0 ∷ 0 ∷ 0 ∷ 0 ∷ 1 ∷ 0x45 ∷ [])

abbrev plain_world : World
plain_world = record {
  hmac = record { sum = λ key message. replicate 32 0; length-sum = λ key message. refl };
  gcm = λ key. zero_aead;
  writes = λ remote packet. true;
  id_draws = some 4 ∷ [];
  nonce_draw = some (replicate 16 1);
  now = pos 6;
}

abbrev some_events : List RelayEvent
some_events =
    datagram plain_world (1 ∷ []) data_packet
    ∷ reorder_tick (pos 7)
    ∷ authorization moved
    ∷ janitor (pos 120000000000) (pos 8)
    ∷ revocation (some (1 ∷ []))
    ∷ []

run_events-IsRelay_example : IsRelay (run_events connected some_events).0
run_events-IsRelay_example = run_events-IsRelay connected some_events connected-IsRelay

-- Events after which bert's session is still there.
abbrev quiet_events : List RelayEvent
quiet_events = reorder_tick (pos 7) ∷ janitor (pos 120000000000) (pos 8) ∷ []

run_events-OnlyOwn_example :
    OnlyOwn
      (λ a p. true)
      (pos 9)
      (run_events connected quiet_events).0
      (1 ∷ [])
      data_header
      data_packet
      (handle_encrypted
        (λ a p. true)
        (pos 9)
        (run_events connected quiet_events).0
        (1 ∷ [])
        data_header
        data_packet)
run_events-OnlyOwn_example =
    run_events-OnlyOwn connected quiet_events (λ a p. true) (pos 9) (1 ∷ []) data_header data_packet
      connected-AllGenuine
