-- ===== src/Engine/Registry/Update.antt =====
-- A session object changes, but neither its id nor its credential.
use link_forge.Engine.Registry.Invariant.{Authorized, IsConsistent, IsAuthorized, IsRelay}
use link_forge.Engine.State.{Session, Server, client_id_string, id_text, tunnel_ip_of}
use link_forge.Prelude.{ℕ, ◌≡◌, refl, sym, ap, subst, ◌∙◌, inl, inr, some, ℕ_discrete}
use link_forge.Prelude.Map.{lookup, put, lookup-put_ne, lookup-put_self, lookup-put_inv}
use link_forge.Protocol.Bytes.{Bytes-discrete}
use link_forge.Protocol.Ip.{Addr-discrete}

abbrev pub store : Server → ℕ → Session → Server
store s ref session = record s { heap = put ℕ_discrete ref session s.heap }

module _ (s : Server) (r : IsRelay s) (ref : ℕ) (session changed : Session)
    (held : lookup ℕ_discrete ref s.heap ≡ some session) (same_id : changed.id ≡ session.id)
    (same_credential : changed.credential ≡ session.credential) where
  same_text : id_text changed ≡ id_text session
  same_text = ap (λ c. client_id_string c.client_id) same_credential

  same_ip : tunnel_ip_of changed ≡ tunnel_ip_of session
  same_ip = ap (λ c. c.tunnel_ip) same_credential

  -- What stood at a reference stands there with the same id and credential.
  stored :
      (ref' : ℕ) (session' : Session)
      → lookup ℕ_discrete ref' s.heap ≡ some session'
      → (now_there : Session) × (lookup ℕ_discrete ref' (store s ref changed).heap ≡ some now_there)
        × (now_there.id ≡ session'.id)
        × (now_there.credential ≡ session'.credential)
  stored ref' session' e = elim (ℕ_discrete ref ref') [
    | yes hit ↦
        let both : some session ≡ some session' =
          sym held ∙ ap (λ x. lookup ℕ_discrete x s.heap) hit ∙ e in
        let one : session ≡ session' = cc in
        (
          changed,
          ap (λ x. lookup ℕ_discrete x (store s ref changed).heap) (sym hit)
              ∙ lookup-put_self ℕ_discrete ref changed s.heap,
          same_id ∙ ap (λ x. x.id) one,
          same_credential ∙ ap (λ x. x.credential) one,
        )
    | no miss ↦ (session', lookup-put_ne ℕ_discrete ref ref' changed s.heap miss ∙ e, refl, refl)
  ]

  store-IsConsistent : IsConsistent (store s ref changed)
  store-IsConsistent = record {
    live = λ id ref' h.
        let (session', l) = v.live id ref' h in
        let (now, there, i, c) = stored ref' session' l.stored in
        (
          now,
          record {
            stored = there;
            named = i ∙ l.named;
            by_client =
                ap (λ x. lookup Bytes-discrete (client_id_string x.client_id) s.session_by_client) c
                ∙ l.by_client;
            by_ip = ap (λ x. lookup Addr-discrete x.tunnel_ip s.session_by_ip) c ∙ l.by_ip;
          },
        );
    client = λ text ref' h.
        let (session', e, t, k) = v.client text ref' h in
        let (now, there, i, c) = stored ref' session' e in
        (
          now,
          there,
          ap (λ x. client_id_string x.client_id) c ∙ t,
          ap (λ x. lookup ℕ_discrete x s.sessions) i ∙ k,
        );
    address = λ ip ref' h.
        let (session', e, t, k) = v.address ip ref' h in
        let (now, there, i, c) = stored ref' session' e in
        (now, there, ap (λ x. x.tunnel_ip) c ∙ t, ap (λ x. lookup ℕ_discrete x s.sessions) i ∙ k);
    below = λ ref' session' e. elim (lookup-put_inv ℕ_discrete ref ref' changed session' s.heap e) [
      | inl hit ↦ rw (← hit.0) (v.below ref session held)
      | inr miss ↦ v.below ref' session' miss.1
    ];
  }
    where
      v : IsConsistent s
      v = r.consistent

  store-IsAuthorized : IsAuthorized (store s ref changed)
  store-IsAuthorized = record {
    backed = λ id ref' session' h k.
        elim (lookup-put_inv ℕ_discrete ref ref' changed session' s.heap k) [
          | inl hit ↦
              let (c, found, key, ip) =
                r.authorized.backed id ref session (h ∙ ap some (sym hit.0)) held in
              subst (Authorized s) hit.1 (
                c,
                ap (λ t. lookup Bytes-discrete t s.credentials) same_text ∙ found,
                key ∙ ap (λ x. x.key) (sym same_credential),
                ip ∙ sym same_ip,
              )
          | inr miss ↦ r.authorized.backed id ref' session' h miss.1
        ];
    own_address = r.authorized.own_address;
  }

  pub store-IsRelay : IsRelay (store s ref changed)
  store-IsRelay = record { consistent = store-IsConsistent; authorized = store-IsAuthorized }
