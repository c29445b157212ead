-- ===== src/Engine/Packets/Handled.antt =====
-- The session table through handleEncrypted of internal/engine/server.go, and what reaches the TUN.
use link_forge.Engine.Packets.{
  Output, remove_path, refresh, receive_data, receive_request, receive_payload, close_path,
  receive_opened, handle_encrypted,
}
use link_forge.Engine.Registry.{deref, terminate_session_if_current}
use link_forge.Engine.Registry.Closing.{terminate_session_if_current-IsRelay}
use link_forge.Engine.Registry.Invariant.{IsRelay}
use link_forge.Engine.Registry.Update.{store, store-IsRelay}
use link_forge.Engine.State.{ServerPath, Session, Server}
use link_forge.Prelude.{
  ◌==◌, if◌then◌else◌, Bool-cases, Option-cases, ok, Result-cases, ℕ, ◌≡◌, refl, sym, ap, subst,
  ◌∙◌, ◌⊎◌, inl, inr, Bool, true, Option, none, some, List, [], arith, ℕ_discrete,
}
use link_forge.Prelude.Int.{ℤ}
use link_forge.Prelude.Map.{lookup, lookup-put_self}
use link_forge.Protocol.Aead.{open_packet}
use link_forge.Protocol.Bytes.{Bytes}
use link_forge.Protocol.Header.{type_pong, type_probe_reply, type_close, client_to_server, Header}
use link_forge.Protocol.Replay.{accept}

-- A session object of the same session.
abbrev pub IsSame : Session → Session → Type 0
IsSame x y = (x.id ≡ y.id) × (x.credential ≡ y.credential)

receive_data-IsSame :
    (now : ℤ) (session : Session) (payload : Bytes)
    → IsSame (receive_data now session payload).0 session
unfolding receive_data
receive_data-IsSame now session payload = (ground arith, ground arith)

receive_request-IsSame :
    (writes : Bytes → Bytes → Bool) (session : Session) (path_id answer_type : ℕ) (payload : Bytes)
    → IsSame (receive_request writes session path_id answer_type payload).0 session
unfolding receive_request
receive_request-IsSame writes session path_id answer_type payload = (ground arith, ground arith)

receive_payload-IsSame :
    (writes : Bytes → Bytes → Bool) (now : ℤ) (session : Session) (header : Header)
    (payload : Bytes)
    → IsSame (receive_payload writes now session header payload).0 session
unfolding receive_payload
receive_payload-IsSame writes now session header payload =
    let data_same = receive_data-IsSame now session payload in
    let pong = receive_request-IsSame writes session header.path_id type_pong payload in
    let probe = receive_request-IsSame writes session header.path_id type_probe_reply payload in
    (ground arith, ground arith)

pub deref_inv :
    (s : Server) (found : Option ℕ) {ref : ℕ} {session : Session}
    → deref s found ≡ some (ref, session)
    → lookup ℕ_discrete ref s.heap ≡ some session
deref_inv s none h = ground arith
deref_inv s (some r) {ref} {session} h = elim (Option-cases (lookup ℕ_discrete r s.heap)) [
  | inl gone ↦ ground arith
  | inr (x, held) ↦
      let same : ◌≡◌ {A = Option (ℕ × Session)} (some (r, x)) (some (ref, session)) =
        ground arith in
      let pair : ◌≡◌ {A = ℕ × Session} (r, x) (ref, session) = cc in
      ap (λ p. lookup ℕ_discrete p s.heap) (sym (ap (λ p. p.0) pair))
      ∙ held
      ∙ ap (λ p. some p.1) pair
]

module _ (s : Server) (r : IsRelay s) (ref : ℕ) (session : Session)
    (held : lookup ℕ_discrete ref s.heap ≡ some session) where
  pub close_path-IsRelay :
      (now_there : Session) (path : ServerPath)
      → IsSame now_there session
      → IsRelay (close_path s ref now_there path)
  unfolding close_path remove_path
  close_path-IsRelay now_there path same =
      let left = (remove_path now_there path).0 in
      let kept : IsRelay (store s ref left) =
        store-IsRelay s r ref session left held same.0 same.1 in
      let ended =
        terminate_session_if_current-IsRelay (store s ref left) ref left kept
          (lookup-put_self ℕ_discrete ref left s.heap) in
      elim (Bool-cases (remove_path now_there path).1) [
        | inl empty ↦
            subst
              (λ c. IsRelay (
                if c
                then terminate_session_if_current (store s ref left) ref left
                else store s ref left))
              (sym empty) ended.0
        | inr more ↦
            subst
              (λ c. IsRelay (
                if c
                then terminate_session_if_current (store s ref left) ref left
                else store s ref left))
              (sym more) kept
      ]

  receive_opened-IsRelay :
      (writes : Bytes → Bytes → Bool) (now : ℤ) (now_there : Session) (path : ServerPath)
      (header : Header) (payload : Bytes)
      → IsSame now_there session
      → IsRelay (receive_opened writes now s ref now_there path header payload).0
  unfolding receive_opened
  receive_opened-IsRelay writes now now_there path header payload same =
      let step = receive_payload-IsSame writes now now_there header payload in
      let next = (receive_payload writes now now_there header payload).0 in
      elim (Bool-cases (header.packet_type == type_close)) [
        | inl closes ↦ rw closes (close_path-IsRelay now_there path same)
        | inr stays ↦
            rw stays (store-IsRelay s r ref session next held (step.0 ∙ same.0) (step.1 ∙ same.1))
      ]

-- A packet that is taken: it opens under the key of a path of a listed session, with a new number.
pub record IsTaken (s : Server) (header : Header) (bytes : Bytes) : Type 0 where
  pub ref : ℕ
  pub session : Session
  pub path : ServerPath
  pub payload : Bytes
  pub listed : deref s (lookup ℕ_discrete header.session_id s.sessions) ≡ some (ref, session)
  pub on_path : lookup ℕ_discrete header.path_id session.paths ≡ some path
  pub authentic : open_packet path.aead header client_to_server bytes ≡ ok payload
  pub is_new : (accept path.replay header.sequence).1 ≡ true

module _ (writes : Bytes → Bytes → Bool) (now : ℤ) (s : Server) (remote : Bytes) (header : Header)
    (bytes : Bytes) where
  -- What a packet that is taken leads to.
  abbrev pub taken_result : IsTaken s header bytes → Server × List Output
  taken_result t =
      receive_opened writes now s t.ref
        (refresh remote now (accept t.path.replay header.sequence).0 t.session t.path) t.path header
        t.payload

  pub handle_encrypted_inv :
      (handle_encrypted writes now s remote header bytes ≡ (s, []))
      ⊎ ((t : IsTaken s header bytes) × (handle_encrypted writes now s remote header bytes
            ≡ taken_result t))
  unfolding handle_encrypted
  handle_encrypted_inv =
      elim (Option-cases (deref s (lookup ℕ_discrete header.session_id s.sessions))) [
        | inl unknown ↦ inl (ground arith)
        | inr ((ref, session), found) ↦
            elim (Option-cases (lookup ℕ_discrete header.path_id session.paths)) [
              | inl no_path ↦ inl (ground arith)
              | inr (path, on_path) ↦
                  elim (Result-cases (open_packet path.aead header client_to_server bytes)) [
                    | inl (e, forged) ↦ inl (ground arith)
                    | inr (payload, authentic) ↦
                        elim (Bool-cases (accept path.replay header.sequence).1) [
                          | inr replayed ↦ inl (ground arith)
                          | inl is_new ↦ inr (
                            record {
                              ref = ref;
                              session = session;
                              path = path;
                              payload = payload;
                              listed = found;
                              on_path = on_path;
                              authentic = authentic;
                              is_new = is_new;
                            },
                            ground arith,
                          )
                        ]
                  ]
            ]
      ]

  -- Whatever packet comes, handle_encrypted keeps the indexes consistent with one another and every
  -- listed session backed by the current credential of its client.
  pub handle_encrypted-IsRelay :
      IsRelay s → IsRelay (handle_encrypted writes now s remote header bytes).0
  unfolding refresh
  handle_encrypted-IsRelay r = elim handle_encrypted_inv [
    | inl same ↦ subst (λ y. IsRelay y.0) (sym same) r
    | inr (t, same) ↦
        subst (λ y. IsRelay y.0) (sym same)
          (receive_opened-IsRelay s r t.ref t.session
            (deref_inv s (lookup ℕ_discrete header.session_id s.sessions) t.listed) writes now
            (refresh remote now (accept t.path.replay header.sequence).0 t.session t.path) t.path
            header t.payload (refl, refl))
  ]
