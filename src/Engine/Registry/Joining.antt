-- ===== src/Engine/Registry/Joining.antt =====
-- getOrCreateSession keeps the table consistent and gives the hello a session of its own client.
use link_forge.Engine.Credentials.Revocation.{terminated-IsAuthorized}
use link_forge.Engine.Registry.{
  deref, terminate_client_session, SessionError, random_failed, out_of_draws, draw_id,
  still_authorized, new_session, add_session, close_existing, accepted_ref, get_or_create_session,
}
use link_forge.Engine.Registry.Creation.{
  new-IsListed, new_found, add_session-IsConsistent, add_session-IsAuthorized,
}
use link_forge.Engine.Registry.Invariant.{Authorized, IsListed, IsConsistent, IsAuthorized, IsRelay}
use link_forge.Engine.Registry.Termination.{
  terminate-IsConsistent, terminate-none, terminate-credentials, unlisted, terminate_fresh,
  terminate-next_ref,
}
use link_forge.Engine.State.{Credential, Session, Server, client_id_string, id_text, tunnel_ip_of}
use link_forge.Prelude.{
  Result, ◌==◌, Bool-cases, Option-cases, is_some, err, ok, ℕ, ◌≡◌, refl, sym, ap, subst, ◌∙◌, ◌≢◌,
  inl, inr, true, false, ◌&&◌, ◌||◌, Option, none, some, List, [], ◌∷◌, arith, ℕ_discrete,
}
use link_forge.Prelude.Int.{ℤ}
use link_forge.Prelude.Map.{Map, lookup}
use link_forge.Protocol.Bytes.{Bytes, Bytes-discrete, bytes_eq, bytes_eq→eq}
use link_forge.Protocol.Hello.{Hello}
use link_forge.Protocol.Ip.{Addr-discrete, addr_eq, addr_eq→eq}

pub draw_id_inv :
    (sessions : Map ℕ ℕ) (draws : List (Option ℕ)) {id : ℕ}
    → draw_id sessions draws ≡ ok id
    → (lookup ℕ_discrete id sessions ≡ none) × (id ≢ 0)
unfolding draw_id
draw_id_inv sessions [] e = (cc, λ z. absurd (never e))
  where
    never : {id : ℕ} → err out_of_draws ≡ ok id → ⊥
    never p = ground arith
draw_id_inv sessions (none ∷ draws) e = (cc, λ z. absurd (never e))
  where
    never : {id : ℕ} → err random_failed ≡ ok id → ⊥
    never p = ground arith
draw_id_inv sessions (some n ∷ draws) {id} e =
    elim (Bool-cases (n == 0 || is_some (lookup ℕ_discrete n sessions))) [
      | inl again ↦ draw_id_inv sessions draws (sym (rw (again, draw_id)) ∙ e)
      | inr taken ↦
          let same : ok n ≡ ok id = sym (rw (taken, draw_id)) ∙ e in
          let n_id : n ≡ id = ok_inj same in rw (← n_id) (free n taken)
    ]
  where
    ok_inj : {a b : ℕ} → ◌≡◌ {A = Result SessionError ℕ} (ok a) (ok b) → a ≡ b
    ok_inj p = cc

    free :
        (k : ℕ)
        → (k == 0 || is_some (lookup ℕ_discrete k sessions)) ≡ false
        → (lookup ℕ_discrete k sessions ≡ none) × (k ≢ 0)
    free k t = elim (Option-cases (lookup ℕ_discrete k sessions)) [
      | inl gone ↦ (gone, ground arith)
      | inr (r, found) ↦ absurd (ground arith)
    ]

module _ (s : Server) (credential : Credential) (hello : Hello) (r : IsRelay s) where
  abbrev text : Bytes
  text = client_id_string credential.client_id

  abbrev pub existing_session : Option (ℕ × Session)
  existing_session = deref s (lookup Bytes-discrete text s.session_by_client)

  pub close_existing-terminate : close_existing s existing_session ≡ terminate_client_session s text
  unfolding terminate_client_session
  close_existing-terminate = ground arith

  by_credential :
      (held : Option Credential)
      → lookup Bytes-discrete text s.credentials ≡ held
      → still_authorized s credential ≡ (elim held [
        | none ↦ false
        | some current ↦
            bytes_eq current.key credential.key && addr_eq current.tunnel_ip credential.tunnel_ip
      ])
  unfolding still_authorized
  by_credential held e =
      ap
        (λ h. elim h [
          | none ↦ false
          | some current ↦
              bytes_eq current.key credential.key && addr_eq current.tunnel_ip credential.tunnel_ip
        ])
        e

  still_authorized-Authorized :
      (id : ℕ) (now : ℤ)
      → still_authorized s credential ≡ true
      → Authorized s (new_session s credential hello id now)
  unfolding still_authorized new_session
  still_authorized-Authorized id now h =
      elim (Option-cases (lookup Bytes-discrete text s.credentials)) [
        | inl gone ↦ let refused : false ≡ true = sym (by_credential none gone) ∙ h in cc
        | inr (c, found) ↦
            let both : (bytes_eq c.key credential.key && addr_eq c.tunnel_ip credential.tunnel_ip)
                ≡ true =
              sym (by_credential (some c) found) ∙ h in
            (
              c,
              found,
              bytes_eq→eq c.key credential.key (ground arith),
              addr_eq→eq c.tunnel_ip credential.tunnel_ip (ground arith),
            )
      ]

  abbrev closed : Server
  closed = terminate_client_session s text

  closed-IsConsistent : IsConsistent closed
  closed-IsConsistent = terminate-IsConsistent s text r.consistent

  closed-IsAuthorized : IsAuthorized closed
  closed-IsAuthorized =
      terminated-IsAuthorized s text s.credentials r.consistent r.authorized (λ t c n found. found)
        r.authorized.own_address

  closed_credentials : closed.credentials ≡ s.credentials
  closed_credentials = terminate-credentials s text r.consistent

  module _ (id : ℕ) (now : ℤ) (allowed : still_authorized s credential ≡ true) where
    abbrev session : Session
    session = new_session s credential hello id now

    session-Authorized : Authorized closed session
    unfolding new_session
    session-Authorized =
        subst
          (λ m.
            (c : Credential) × (lookup Bytes-discrete text m ≡ some c)
            × (c.key ≡ credential.key)
            × (c.tunnel_ip ≡ credential.tunnel_ip))
          (sym closed_credentials) (still_authorized-Authorized id now allowed)

    free_address : lookup Addr-discrete (tunnel_ip_of session) closed.session_by_ip ≡ none
    unfolding new_session
    free_address =
        elim (Option-cases (lookup Addr-discrete (tunnel_ip_of session) closed.session_by_ip)) [
          | inl gone ↦ gone
          | inr (ref, found) ↦
              let (other_one, stored, ip, listed) = closed-IsConsistent.address _ ref found in
              let (c, held, _, at) =
                closed-IsAuthorized.backed other_one.id ref other_one listed stored in
              let (d, mine, _, here) = session-Authorized in
              absurd (
                unlisted closed text closed-IsConsistent (terminate-none s text r.consistent)
                  other_one.id ref other_one listed stored
                  (closed-IsAuthorized.own_address (id_text other_one) text c d held mine
                    (at ∙ ip ∙ sym here)))
        ]

    pub created_found :
        lookup ℕ_discrete id s.sessions ≡ none
        → IsListed (add_session closed session) id s.next_ref session
          × (lookup ℕ_discrete id (add_session closed session).sessions ≡ some s.next_ref)
    unfolding new_session
    created_found fresh =
        subst
          (λ ref.
            IsListed (add_session closed session) id ref session
            × (lookup ℕ_discrete id (add_session closed session).sessions ≡ some ref))
          (terminate-next_ref s text r.consistent)
          (
            new-IsListed closed closed-IsConsistent session
                (terminate_fresh s text id r.consistent fresh) (terminate-none s text r.consistent)
                free_address,
            new_found closed closed-IsConsistent session
                (terminate_fresh s text id r.consistent fresh) (terminate-none s text r.consistent)
                free_address,
          )

    created-IsRelay : lookup ℕ_discrete id s.sessions ≡ none → IsRelay (add_session closed session)
    unfolding new_session
    created-IsRelay fresh = record {
      consistent =
          add_session-IsConsistent closed closed-IsConsistent session
            (terminate_fresh s text id r.consistent fresh) (terminate-none s text r.consistent)
            free_address;
      authorized =
          add_session-IsAuthorized closed closed-IsConsistent session
            (terminate_fresh s text id r.consistent fresh) (terminate-none s text r.consistent)
            free_address closed-IsAuthorized session-Authorized;
    }

-- Whatever it answers, get_or_create_session keeps the indexes consistent with one another and
-- every session backed by a credential.
pub get_or_create_session-IsRelay :
    (s : Server) (credential : Credential) (hello : Hello) (draws : List (Option ℕ)) (now : ℤ)
    → IsRelay s
    → IsRelay (get_or_create_session s credential hello draws now).0
unfolding get_or_create_session
get_or_create_session-IsRelay s credential hello draws now r =
    elim (Bool-cases (still_authorized s credential)) [
      | inr refused ↦ rw (refused, get_or_create_session) r
      | inl allowed ↦
          elim (Option-cases (accepted_ref (existing_session s credential hello r) hello)) [
            | inr (ref, accepted) ↦ rw (allowed, get_or_create_session, accepted) r
            | inl none_accepted ↦
                rw (allowed, get_or_create_session, none_accepted)
                  (drawn allowed (draw_id s.sessions draws) refl)
          ]
    ]
  where
    drawn :
        still_authorized s credential ≡ true
        → (answer : Result SessionError ℕ) → draw_id s.sessions draws ≡ answer
        → IsRelay
            (elim answer as (λ x. Server × Result SessionError ℕ) [
              | err e ↦ (s, err e)
              | ok id ↦ (
                add_session
                    (close_existing s (existing_session s credential hello r))
                    (new_session s credential hello id now),
                ok s.next_ref,
              )
            ]).0
    drawn allowed (err e) h = r
    drawn allowed (ok id) h =
        rw (close_existing-terminate s credential hello r)
          (created-IsRelay s credential hello r id now allowed (draw_id_inv s.sessions draws h).0)
