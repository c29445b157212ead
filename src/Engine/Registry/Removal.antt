-- ===== src/Engine/Registry/Removal.antt =====
-- Taking a session out of the indexes.
use link_forge.Engine.Registry.Invariant.{IsListed, IsConsistent, IsAuthorized, removed_as}
use link_forge.Engine.State.{Session, Server, id_text, tunnel_ip_of}
use link_forge.Prelude.{ℕ, ◌≡◌, sym, ap, ◌∙◌, ◌≢◌, inl, inr, some, ℕ_discrete}
use link_forge.Prelude.Map.{
  lookup, lookup-delete_ne, lookup-put_ne, lookup-delete_inv, lookup-put_inv,
}
use link_forge.Protocol.Bytes.{Bytes-discrete}
use link_forge.Protocol.Ip.{Addr-discrete}

module _ (s : Server) (v : IsConsistent s) (id ref : ℕ) (session : Session)
    (l : IsListed s id ref session) (h : lookup ℕ_discrete id s.sessions ≡ some ref)
    (left : Session) where
  -- A session at another id is another object of another client at another address.
  same_session :
      (session' : Session) → lookup ℕ_discrete ref s.heap ≡ some session' → session ≡ session'
  same_session session' e = let both : some session ≡ some session' = sym l.stored ∙ e in cc

  pub other_ref :
      (id' ref' : ℕ) (session' : Session)
      → session.id ≢ id'
      → IsListed s id' ref' session'
      → ref ≢ ref'
  other_ref id' ref' session' n l' e = n (
      ap (λ x. x.id) (same_session session' (ap (λ r. lookup ℕ_discrete r s.heap) e ∙ l'.stored))
      ∙ l'.named)

  removed-stored :
      (ref' : ℕ) (session' : Session)
      → ref ≢ ref'
      → lookup ℕ_discrete ref' s.heap ≡ some session'
      → lookup ℕ_discrete ref' (removed_as s ref session left).heap ≡ some session'
  removed-stored ref' session' n e = lookup-put_ne ℕ_discrete ref ref' left s.heap n ∙ e

  removed-live :
      (id' ref' : ℕ)
      → lookup ℕ_discrete id' (removed_as s ref session left).sessions ≡ some ref'
      → (session' : Session) × IsListed (removed_as s ref session left) id' ref' session'
  removed-live id' ref' e =
      let (n, e') = lookup-delete_inv ℕ_discrete session.id id' s.sessions ref' e in
      let (session', l') = v.live id' ref' e' in
      let apart = other_ref id' ref' session' n l' in
      (
        session',
        record {
          stored = removed-stored ref' session' apart l'.stored;
          named = l'.named;
          by_client =
              lookup-delete_ne Bytes-discrete (id_text session) (id_text session')
                s.session_by_client
                (λ t. apart (
                  same_ref (
                    sym l.by_client
                    ∙ ap (λ x. lookup Bytes-discrete x s.session_by_client) t
                    ∙ l'.by_client)))
              ∙ l'.by_client;
          by_ip =
              lookup-delete_ne Addr-discrete (tunnel_ip_of session) (tunnel_ip_of session')
                s.session_by_ip
                (λ t. apart (
                  same_ref
                    (sym l.by_ip ∙ ap (λ x. lookup Addr-discrete x s.session_by_ip) t ∙ l'.by_ip)))
              ∙ l'.by_ip;
        },
      )
    where
      same_ref : {a b : ℕ} → some a ≡ some b → a ≡ b
      same_ref p = cc

  -- A reference in another index whose session is still listed.
  kept_session :
      (ref' : ℕ) (session' : Session)
      → session.id ≢ session'.id
      → lookup ℕ_discrete ref' s.heap ≡ some session'
      → lookup ℕ_discrete session'.id s.sessions ≡ some ref'
      → (lookup ℕ_discrete ref' (removed_as s ref session left).heap ≡ some session')
        × (lookup ℕ_discrete session'.id (removed_as s ref session left).sessions ≡ some ref')
  kept_session ref' session' n e k = (
    removed-stored ref' session'
        (λ r.
          n (ap (λ x. x.id) (same_session session' (ap (λ x. lookup ℕ_discrete x s.heap) r ∙ e))))
        e,
    lookup-delete_ne ℕ_discrete session.id session'.id s.sessions n ∙ k,
  )

  listed_id : lookup ℕ_discrete session.id s.sessions ≡ some ref
  listed_id = ap (λ i. lookup ℕ_discrete i s.sessions) l.named ∙ h

  same_object :
      (ref' : ℕ) (session' : Session)
      → lookup ℕ_discrete ref' s.heap ≡ some session'
      → lookup ℕ_discrete session'.id s.sessions ≡ some ref'
      → session.id ≡ session'.id
      → session ≡ session'
  same_object ref' session' e k i =
      let refs : some ref ≡ some ref' =
        sym listed_id ∙ ap (λ x. lookup ℕ_discrete x s.sessions) i ∙ k in
      let r : ref ≡ ref' = cc in same_session session' (ap (λ x. lookup ℕ_discrete x s.heap) r ∙ e)

  pub removed-IsConsistent : IsConsistent (removed_as s ref session left)
  removed-IsConsistent = record {
    live = removed-live;
    client = λ text ref' e.
        let (n, e') =
          lookup-delete_inv Bytes-discrete (id_text session) text s.session_by_client ref' e in
        let (session', stored, t, k) = v.client text ref' e' in
        let kept =
          kept_session ref' session'
            (λ i. n (ap id_text (same_object ref' session' stored k i) ∙ t)) stored k in
        (session', kept.0, t, kept.1);
    address = λ ip ref' e.
        let (n, e') =
          lookup-delete_inv Addr-discrete (tunnel_ip_of session) ip s.session_by_ip ref' e in
        let (session', stored, t, k) = v.address ip ref' e' in
        let kept =
          kept_session ref' session'
            (λ i. n (ap tunnel_ip_of (same_object ref' session' stored k i) ∙ t)) stored k in
        (session', kept.0, t, kept.1);
    below = λ ref' session' e. elim (lookup-put_inv ℕ_discrete ref ref' left session' s.heap e) [
      | inl hit ↦ rw (← hit.0) (v.below ref session l.stored)
      | inr miss ↦ v.below ref' session' miss.1
    ];
  }

  pub removed-IsAuthorized : IsAuthorized s → IsAuthorized (removed_as s ref session left)
  removed-IsAuthorized a = record {
    backed = λ id' ref' session' e k.
        let (n, old) = lookup-delete_inv ℕ_discrete session.id id' s.sessions ref' e in
        let (session'', l') = v.live id' ref' old in
        let apart = other_ref id' ref' session'' n l' in
        a.backed id' ref' session' old
          (sym (lookup-put_ne ℕ_discrete ref ref' left s.heap apart) ∙ k);
    own_address = a.own_address;
  }
