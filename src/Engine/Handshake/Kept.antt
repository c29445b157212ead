-- ===== src/Engine/Handshake/Kept.antt =====
-- The session table through handleHello of internal/engine/server.go.
use link_forge.Engine.Handshake.{
  World, is_remote, greet_again, new_path, welcome_packet_of, join_path, greet, greet_client,
  handle_hello,
}
use link_forge.Engine.Packets.{Output, to_udp, path_for_nonce, close_path}
use link_forge.Engine.Packets.Handled.{close_path-IsRelay}
use link_forge.Engine.Paths.{add_path}
use link_forge.Engine.Registry.{get_or_create_session}
use link_forge.Engine.Registry.Invariant.{IsRelay}
use link_forge.Engine.Registry.Joining.{get_or_create_session-IsRelay}
use link_forge.Engine.Registry.Update.{store, store-IsRelay}
use link_forge.Engine.State.{Credential, ServerPath, Session, Server, client_id_string}
use link_forge.Prelude.{
  ltb, leb, ◌==◌, if◌then◌else◌, Bool-cases, Option-cases, length, take, Result-cases, ℕ, ◌+◌, ◌%◌,
  ◌^◌, ◌≡◌, refl, sym, subst, inl, inr, Bool, true, false, not, ◌||◌, Option, some, List, [], ◌∷◌,
  arith, ℕ_discrete,
}
use link_forge.Prelude.Int.{ℤ}
use link_forge.Prelude.Map.{lookup, put, lookup-put_self}
use link_forge.Protocol.Bytes.{Bytes, Bytes-discrete}
use link_forge.Protocol.Hello.{Hello, parse_hello}
use link_forge.Protocol.Hello.Layout.{packet}
use link_forge.Protocol.Payload.{plain_payload}

-- A session object of the same session with the same waiting packets.
abbrev pub IsStill : Session → Session → Type 0
IsStill x y = (x.id ≡ y.id) × (x.credential ≡ y.credential) × (x.reorder ≡ y.reorder)

-- A property of the relay that the changes of a handshake keep.
pub record IsStable (I : Server → Type 0) : Type 0 where
  pub stores :
      (s : Server) (ref : ℕ) (session changed : Session)
      → I s
      → lookup ℕ_discrete ref s.heap ≡ some session
      → IsStill changed session
      → I (store s ref changed)
  pub closes :
      (s : Server) (ref : ℕ) (session changed : Session) (path : ServerPath)
      → I s
      → lookup ℕ_discrete ref s.heap ≡ some session
      → IsStill changed session
      → I (close_path s ref changed path)
  pub joins :
      (s : Server) (credential : Credential) (hello : Hello) (draws : List (Option ℕ)) (now : ℤ)
      → I s
      → I (get_or_create_session s credential hello draws now).0

module _ {I : Server → Type 0} (v : IsStable I) (w : World) (s : Server) (r : I s) (ref : ℕ)
    (session : Session) (held : lookup ℕ_discrete ref s.heap ≡ some session) where
  -- A branch of a handler.
  if-kept : (c : Bool) (x y : Server × List Output) → I x.0 → I y.0 → I (if c then x else y).0
  if-kept true x y f g = f
  if-kept false x y f g = g

  -- The session object, changed.
  kept : (changed : Session) → IsStill changed session → I (store s ref changed)
  kept changed same = v.stores s ref session changed r held same

  greet_again-kept :
      (path : ServerPath) (remote : Bytes) → I (greet_again w s ref session path remote).0
  unfolding greet_again
  greet_again-kept path remote =
      if-kept (not (is_remote path.remote remote)) _ _ r (kept _ (refl, refl, refl))

  join_path-kept :
      (path : ServerPath) (remote : Bytes) → I (join_path w s ref session path remote).0
  unfolding join_path add_path
  join_path-kept path remote = elim (Bool-cases session.closing) [
    | inl closing ↦
        let same : join_path w s ref session path remote ≡ (s, []) = ground arith in
        subst (λ y. I y.0) (sym same) r
    | inr alive ↦
        let touched = record session {
          paths = put ℕ_discrete path.id path session.paths;
          last_seen = w.now;
        } in
        let same : join_path w s ref session path remote ≡ (
            if w.writes remote path.welcome_packet
            then (store s ref touched, to_udp remote path.welcome_packet ∷ [])
            else (close_path s ref touched path, [])) =
          ground arith in
        subst (λ y. I y.0) (sym same)
          (if-kept (w.writes remote path.welcome_packet) _ _ (kept touched (refl, refl, refl))
            (v.closes s ref session touched path r held (refl, refl, refl)))
  ]

greet-kept :
    {I : Server → Type 0} (v : IsStable I) (w : World) (credential : Credential) (s : Server)
    (ref : ℕ) (session : Session) (hello : Hello) (remote : Bytes)
    → I s
    → lookup ℕ_discrete ref s.heap ≡ some session
    → I (greet w credential s ref session hello remote).0
unfolding greet
greet-kept {I = I} v w credential s ref session hello remote r held =
    let path_id = (session.next_path_id + 1) % 2 ^ 32 in
    let numbered = record session { next_path_id = path_id } in
    let s' = store s ref numbered in
    let r' : I s' = kept v w s r ref session held numbered (refl, refl, refl) in
    elim (Option-cases (path_for_nonce hello.nonce session.paths)) [
      | inr (existing, known) ↦
          let same : greet w credential s ref session hello remote
              ≡ greet_again w s ref session existing remote =
            ground arith in
          subst (λ y. I y.0) (sym same) (greet_again-kept v w s r ref session held existing remote)
      | inl unknown ↦ elim (Bool-cases (path_id == 0 || leb (2 ^ 31) path_id)) [
        | inl exhausted ↦
            let same : greet w credential s ref session hello remote ≡ (s', []) = ground arith in
            subst (λ y. I y.0) (sym same) r'
        | inr fits ↦ elim (Option-cases w.nonce_draw) [
          | inl no_nonce ↦
              let same : greet w credential s ref session hello remote ≡ (s', []) = ground arith in
              subst (λ y. I y.0) (sym same) r'
          | inr (nonce, drawn) ↦
              let packet = welcome_packet_of w credential numbered hello path_id nonce in
              let path = new_path w credential numbered hello path_id nonce packet remote in
              let same : greet w credential s ref session hello remote
                  ≡ join_path w s' ref numbered path remote =
                ground arith in
              subst (λ y. I y.0) (sym same)
                (join_path-kept v w s' r' ref numbered
                  (lookup-put_self ℕ_discrete ref numbered s.heap) path remote)
        ]
      ]
    ]

greet_client-kept :
    {I : Server → Type 0} (v : IsStable I) (w : World) (s : Server) (credential : Credential)
    (hello : Hello) (remote : Bytes)
    → I s
    → I (greet_client w s credential hello remote).0
unfolding greet_client
greet_client-kept {I = I} v w s credential hello remote r =
    let s' = (get_or_create_session s credential hello w.id_draws w.now).0 in
    let r' : I s' = v.joins s credential hello w.id_draws w.now r in
    elim (Result-cases (get_or_create_session s credential hello w.id_draws w.now).1) [
      | inl (e, failed) ↦
          let same : greet_client w s credential hello remote ≡ (s', []) = ground arith in
          subst (λ y. I y.0) (sym same) r'
      | inr (ref, joined) ↦ elim (Option-cases (lookup ℕ_discrete ref s'.heap)) [
        | inl gone ↦
            let same : greet_client w s credential hello remote ≡ (s', []) = ground arith in
            subst (λ y. I y.0) (sym same) r'
        | inr (session, held) ↦
            let same : greet_client w s credential hello remote
                ≡ greet w credential s' ref session hello remote =
              ground arith in
            subst (λ y. I y.0) (sym same)
              (greet-kept v w credential s' ref session hello remote r' held)
      ]
    ]

-- Whatever packet is taken for a hello, handle_hello keeps what the table's changes keep.
pub handle_hello-kept :
    {I : Server → Type 0} (v : IsStable I) (w : World) (s : Server) (remote packet : Bytes)
    → I s
    → I (handle_hello w s remote packet).0
unfolding handle_hello
handle_hello-kept {I = I} v w s remote packet r = elim (Result-cases (plain_payload packet)) [
  | inl (e, bad) ↦
      let same : handle_hello w s remote packet ≡ (s, []) = ground arith in
      subst (λ y. I y.0) (sym same) r
  | inr (payload, plain) ↦
      elim (Option-cases
        (lookup Bytes-discrete (client_id_string (take 16 payload)) s.credentials)) [
          | inl unknown ↦
              let same : handle_hello w s remote packet ≡ (s, []) = ground arith in
              subst (λ y. I y.0) (sym same) r
          | inr (credential, known) ↦
              elim (Result-cases (parse_hello w.hmac payload credential.key w.now)) [
                | inl (e, forged) ↦
                    let same : handle_hello w s remote packet ≡ (s, []) = ground arith in
                    subst (λ y. I y.0) (sym same) r
                | inr (hello, authentic) ↦
                    let same : handle_hello w s remote packet ≡ (
                        if ltb (length payload) 16
                        then (s, [])
                        else greet_client w s credential hello remote) =
                      ground arith in
                    subst (λ y. I y.0) (sym same)
                      (elim (Bool-cases (ltb (length payload) 16)) [
                        | inl short ↦
                            subst
                              (λ c.
                                I
                                  (if c
                                    then (s, [])
                                    else greet_client w s credential hello remote).0)
                              (sym short) r
                        | inr full ↦
                            subst
                              (λ c.
                                I
                                  (if c
                                    then (s, [])
                                    else greet_client w s credential hello remote).0)
                              (sym full) (greet_client-kept v w s credential hello remote r)
                      ])
              ]
        ]
]

-- Whatever packet is taken for a hello, handle_hello keeps the indexes consistent with one another
-- and every listed session backed by the current credential of its client.
pub handle_hello-IsRelay :
    (w : World) (s : Server) (remote packet : Bytes)
    → IsRelay s
    → IsRelay (handle_hello w s remote packet).0
handle_hello-IsRelay = handle_hello-kept {I = IsRelay} (record {
  stores =
      λ s ref session changed r held same. store-IsRelay s r ref session changed held same.0 same.1;
  closes = λ s ref session changed path r held same.
      close_path-IsRelay s r ref session held changed path (same.0, same.1);
  joins = λ s credential hello draws now r.
      get_or_create_session-IsRelay s credential hello draws now r;
})
