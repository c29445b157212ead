-- ===== src/Engine/Registry/Termination.antt =====
-- terminateClientSession leaves a consistent table without the client.
use link_forge.Engine.Registry.{mark_closing, terminate_client_session}
use link_forge.Engine.Registry.Invariant.{IsListed, IsConsistent, removed, close_session_lem}
use link_forge.Engine.Registry.Removal.{other_ref, removed-IsConsistent}
use link_forge.Engine.State.{Session, Server, id_text}
use link_forge.Prelude.{
  Option-cases, ℕ, ◌≡◌, sym, ap, subst, ◌∙◌, ◌≢◌, ◌⊎◌, inl, inr, none, some, arith, ℕ_discrete,
}
use link_forge.Prelude.Map.{
  lookup, lookup-delete_ne, lookup-put_ne, lookup-delete_self, lookup-delete_inv,
}
use link_forge.Protocol.Bytes.{Bytes, Bytes-discrete}

-- The client has no session, or one that is listed everywhere and is taken out.
-- The session that the client index names is listed.
pub client-IsListed :
    (s : Server) (text : Bytes) (ref : ℕ)
    → IsConsistent s
    → lookup Bytes-discrete text s.session_by_client ≡ some ref
    → (session : Session) × IsListed s session.id ref session
      × (lookup ℕ_discrete session.id s.sessions ≡ some ref)
      × (id_text session ≡ text)
client-IsListed s text ref v found =
    let (session, stored, t, k) = v.client text ref found in
    let (session', l) = v.live session.id ref k in
    let same : some session ≡ some session' = sym stored ∙ l.stored in
    let listed : IsListed s session.id ref session =
      subst (IsListed s session.id ref) (let e : session' ≡ session = cc in e) l in
    (session, listed, k, t)

pub terminate_cases :
    (s : Server) (text : Bytes)
    → IsConsistent s
    → ((lookup Bytes-discrete text s.session_by_client ≡ none)
        × (terminate_client_session s text ≡ s))
      ⊎ ((ref : ℕ) × (session : Session) × IsListed s session.id ref session
          × (lookup ℕ_discrete session.id s.sessions ≡ some ref)
          × (id_text session ≡ text)
          × (terminate_client_session s text ≡ removed s ref session))
unfolding terminate_client_session
terminate_cases s text v = elim (Option-cases (lookup Bytes-discrete text s.session_by_client)) [
  | inl none_there ↦ inl (none_there, ground arith)
  | inr (ref, found) ↦
      let (session, listed, k, t) = client-IsListed s text ref v found in
      inr (
        ref,
        session,
        listed,
        k,
        t,
        rw (found, terminate_client_session, listed.stored)
            (close_session_lem s session.id ref session listed k),
      )
]

pub terminate-IsConsistent :
    (s : Server) (text : Bytes) → IsConsistent s → IsConsistent (terminate_client_session s text)
terminate-IsConsistent s text v = elim (terminate_cases s text v) [
  | inl (_, e) ↦ rw e v
  | inr (ref, session, l, k, _, e) ↦
      rw e (removed-IsConsistent s v session.id ref session l k (mark_closing session))
]

-- The client index no longer has the client.
pub terminate-none :
    (s : Server) (text : Bytes)
    → IsConsistent s
    → lookup Bytes-discrete text (terminate_client_session s text).session_by_client ≡ none
terminate-none s text v = elim (terminate_cases s text v) [
  | inl (gone, e) ↦ rw e gone
  | inr (ref, session, l, k, t, e) ↦
      rw e (rw t (lookup-delete_self Bytes-discrete text s.session_by_client))
]

-- Other sessions stay, as the objects that they were, and the credentials are not touched.
pub terminate-kept :
    (s : Server) (text : Bytes)
    → IsConsistent s
    → (id ref : ℕ) (session : Session)
    → lookup ℕ_discrete id (terminate_client_session s text).sessions ≡ some ref
    → lookup ℕ_discrete ref (terminate_client_session s text).heap ≡ some session
    → (lookup ℕ_discrete id s.sessions ≡ some ref) × (lookup ℕ_discrete ref s.heap ≡ some session)
terminate-kept s text v id ref session h k = elim (terminate_cases s text v) [
  | inl (_, e) ↦ (rw e at h, rw e at k)
  | inr (gone_ref, gone, l, listed, t, e) ↦
      kept_behind gone_ref gone l listed (rw e at h) (rw e at k)
]
  where
    kept_behind :
        (gone_ref : ℕ) (gone : Session)
        → IsListed s gone.id gone_ref gone
        → lookup ℕ_discrete gone.id s.sessions ≡ some gone_ref
        → lookup ℕ_discrete id (removed s gone_ref gone).sessions ≡ some ref
        → lookup ℕ_discrete ref (removed s gone_ref gone).heap ≡ some session
        → (lookup ℕ_discrete id s.sessions ≡ some ref)
          × (lookup ℕ_discrete ref s.heap ≡ some session)
    kept_behind gone_ref gone l listed h' k' =
        let (n, old) = lookup-delete_inv ℕ_discrete gone.id id s.sessions ref h' in
        let (session', l') = v.live id ref old in
        let apart =
          other_ref s v gone.id gone_ref gone l listed (mark_closing gone) id ref session' n l' in
        (old, sym (lookup-put_ne ℕ_discrete gone_ref ref (mark_closing gone) s.heap apart) ∙ k')

pub terminate-credentials :
    (s : Server) (text : Bytes)
    → IsConsistent s
    → (terminate_client_session s text).credentials ≡ s.credentials
terminate-credentials s text v = elim (terminate_cases s text v) [
  | inl (_, e) ↦ rw e
  | inr (ref, session, l, k, t, e) ↦ rw e
]

-- In a consistent table a client that the client index lacks has no session.
pub unlisted :
    (s : Server) (text : Bytes)
    → IsConsistent s
    → lookup Bytes-discrete text s.session_by_client ≡ none
    → (id ref : ℕ) (session : Session) → lookup ℕ_discrete id s.sessions ≡ some ref
    → lookup ℕ_discrete ref s.heap ≡ some session
    → id_text session ≢ text
unlisted s text v gone id ref session h k t =
    let (session', l) = v.live id ref h in
    let same : some session ≡ some session' = sym k ∙ l.stored in
    let e : session' ≡ session = cc in
    let listed : lookup Bytes-discrete text s.session_by_client ≡ some ref =
      ap (λ x. lookup Bytes-discrete x s.session_by_client) (sym (ap id_text e ∙ t))
      ∙ l.by_client in
    cc

-- An id that is not in use stays so.
pub terminate_fresh :
    (s : Server) (text : Bytes) (id : ℕ)
    → IsConsistent s
    → lookup ℕ_discrete id s.sessions ≡ none
    → lookup ℕ_discrete id (terminate_client_session s text).sessions ≡ none
terminate_fresh s text id v h = elim (terminate_cases s text v) [
  | inl (_, e) ↦ rw e h
  | inr (ref, gone, l, k, t, e) ↦ rw e (elim (ℕ_discrete gone.id id) [
    | yes same ↦ rw same (lookup-delete_self ℕ_discrete id s.sessions)
    | no apart ↦ lookup-delete_ne ℕ_discrete gone.id id s.sessions apart ∙ h
  ])
]

pub terminate-next_ref :
    (s : Server) (text : Bytes)
    → IsConsistent s
    → (terminate_client_session s text).next_ref ≡ s.next_ref
terminate-next_ref s text v = elim (terminate_cases s text v) [
  | inl (_, e) ↦ rw e
  | inr (ref, session, l, k, t, e) ↦ rw e
]
