-- ===== src/Engine/Registry/Joined.antt =====
-- The session with which getOrCreateSession answers.
use link_forge.Engine.Registry.{
  accepts, found_at, deref, SessionError, draw_id, still_authorized, new_session, add_session,
  close_existing, accepted_ref, get_or_create_session,
}
use link_forge.Engine.Registry.Invariant.{IsListed, IsRelay}
use link_forge.Engine.Registry.Joining.{
  draw_id_inv, existing_session, close_existing-terminate, created_found,
}
use link_forge.Engine.Registry.Termination.{client-IsListed}
use link_forge.Engine.State.{Credential, Session, Server, client_id_string, id_text}
use link_forge.Prelude.{
  Result, if◌then◌else◌, Bool-cases, Option-cases, err, ok, ℕ, ◌≡◌, refl, sym, ap, ◌∙◌, inl, inr,
  Bool, true, Option, none, some, List, arith, ℕ_discrete,
}
use link_forge.Prelude.Int.{ℤ}
use link_forge.Prelude.Map.{lookup}
use link_forge.Protocol.Bytes.{Bytes-discrete, bytes_eq_refl}
use link_forge.Protocol.Hello.{Hello}

-- The object at `ref` is a listed session of the credential's client, and takes the hello.
abbrev pub Joined : Server → Credential → Hello → ℕ → Type 0
Joined s credential hello ref =
    (session : Session) × IsListed s session.id ref session
    × (lookup ℕ_discrete session.id s.sessions ≡ some ref)
    × (id_text session ≡ client_id_string credential.client_id)
    × (accepts session hello ≡ true)

new_session-accepts :
    (s : Server) (credential : Credential) (hello : Hello) (id : ℕ) (now : ℤ)
    → accepts (new_session s credential hello id now) hello ≡ true
unfolding accepts new_session
new_session-accepts s credential hello id now =
    let own = bytes_eq_refl hello.instance_nonce in ground arith

accepted-Joined :
    (s : Server) (credential : Credential) (hello : Hello) (ref : ℕ) (r : IsRelay s)
    → accepted_ref (existing_session s credential hello r) hello ≡ some ref
    → Joined s credential hello ref
accepted-Joined s credential hello ref r e =
    let text = client_id_string credential.client_id in
    elim (Option-cases (lookup Bytes-discrete text s.session_by_client)) [
      | inl gone ↦ absurd (no_ref (sym (ap (λ x. accepted_ref (deref s x) hello) gone) ∙ e))
      | inr (held, found) ↦
          let (session, listed, k, t) = client-IsListed s text held r.consistent found in
          let there : existing_session s credential hello r ≡ some (held, session) =
            ap (deref s) found ∙ ap (found_at held) listed.stored in
          let taken : (if accepts session hello then some held else none) ≡ some ref =
            sym (ap (λ x. accepted_ref x hello) there) ∙ e in
          let (same, ok_hello) = taken_ref (accepts session hello) taken in
          rw (← same) (session, listed, k, t, ok_hello)
    ]
  where
    no_ref : {n : ℕ} → none ≡ some n → ⊥
    no_ref p = ground arith

    taken_ref : {a b : ℕ} (t : Bool) → (if t then some a else none) ≡ some b → (a ≡ b) × (t ≡ true)
    taken_ref t p = ground arith

answer_inj : {a b : ℕ} → ◌≡◌ {A = Result SessionError ℕ} (ok a) (ok b) → a ≡ b
answer_inj p = cc

no_answer : {b : ℕ} {e : SessionError} → ◌≡◌ {A = Result SessionError ℕ} (err e) (ok b) → ⊥
no_answer p = ground arith

-- The session that get_or_create_session answers with is stored, listed under its own id, belongs
-- to the credential's client and takes the hello.
pub get_or_create_session-joins :
    (s : Server) (credential : Credential) (hello : Hello) (draws : List (Option ℕ)) (now : ℤ)
    (ref : ℕ)
    → IsRelay s
    → (get_or_create_session s credential hello draws now).1 ≡ ok ref
    → Joined (get_or_create_session s credential hello draws now).0 credential hello ref
unfolding get_or_create_session new_session
get_or_create_session-joins s credential hello draws now ref r =
    elim (Bool-cases (still_authorized s credential)) [
      | inr refused ↦ rw (refused, get_or_create_session) (λ e. absurd (no_answer e))
      | inl allowed ↦
          elim (Option-cases (accepted_ref (existing_session s credential hello r) hello)) [
            | inr (held, accepted) ↦
                rw (allowed, get_or_create_session, accepted)
                  (λ e. rw (← answer_inj e) (accepted-Joined s credential hello held r accepted))
            | inl none_accepted ↦
                rw (allowed, get_or_create_session, none_accepted)
                  (drawn allowed (draw_id s.sessions draws) refl)
          ]
    ]
  where
    drawn :
        still_authorized s credential ≡ true
        → (answer : Result SessionError ℕ) → draw_id s.sessions draws ≡ answer
        → let made = elim answer as (λ x. Server × Result SessionError ℕ) [
          | err e ↦ (s, err e)
          | ok id ↦ (
            add_session
                (close_existing s (existing_session s credential hello r))
                (new_session s credential hello id now),
            ok s.next_ref,
          )
        ] in
          made.1 ≡ ok ref → Joined made.0 credential hello ref
    drawn allowed (err x) h = λ e. absurd (no_answer e)
    drawn allowed (ok id) h = λ e.
        let (listed, found) =
          created_found s credential hello r id now allowed (draw_id_inv s.sessions draws h).0 in
        rw (← answer_inj e) (
          rw (close_existing-terminate s credential hello r) (
            new_session s credential hello id now,
            listed,
            found,
            refl,
            new_session-accepts s credential hello id now,
          ))
