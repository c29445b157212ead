-- ===== src/Engine/Registry/Creation.antt =====
-- A new session joins the three indexes.
use link_forge.Engine.Registry.{add_session}
use link_forge.Engine.Registry.Invariant.{Authorized, IsListed, IsConsistent, IsAuthorized}
use link_forge.Engine.State.{Session, Server, id_text, tunnel_ip_of}
use link_forge.Prelude.{ℕ, ◌≡◌, refl, sym, ap, subst, ◌∙◌, inl, inr, none, some, arith, ℕ_discrete}
use link_forge.Prelude.Map.{lookup, put, lookup-put_ne, lookup-put_self, lookup-put_inv}
use link_forge.Protocol.Bytes.{Bytes-discrete}
use link_forge.Protocol.Ip.{Addr-discrete}
use link_forge.Reorder.{new}

module _ (s : Server) (v : IsConsistent s) (session : Session)
    (fresh : lookup ℕ_discrete session.id s.sessions ≡ none)
    (no_client : lookup Bytes-discrete (id_text session) s.session_by_client ≡ none)
    (no_ip : lookup Addr-discrete (tunnel_ip_of session) s.session_by_ip ≡ none) where
  kept_stored :
      (ref : ℕ) (session' : Session)
      → lookup ℕ_discrete ref s.heap ≡ some session'
      → lookup ℕ_discrete ref (add_session s session).heap ≡ some session'
  unfolding add_session
  kept_stored ref session' e =
      lookup-put_ne ℕ_discrete s.next_ref ref session s.heap (omega (arith, v.below ref session' e))
      ∙ e

  kept_listed :
      (ref : ℕ) (session' : Session)
      → lookup ℕ_discrete session'.id s.sessions ≡ some ref
      → lookup ℕ_discrete session'.id (add_session s session).sessions ≡ some ref
  unfolding add_session
  kept_listed ref session' e =
      lookup-put_ne ℕ_discrete session.id session'.id s.next_ref s.sessions
        (λ i. clash (sym fresh ∙ ap (λ x. lookup ℕ_discrete x s.sessions) i ∙ e))
      ∙ e
    where
      clash : none ≡ some ref → ⊥
      clash p = ground arith

  pub new-IsListed : IsListed (add_session s session) session.id s.next_ref session
  unfolding add_session
  new-IsListed = record {
    stored = lookup-put_self ℕ_discrete s.next_ref session s.heap;
    named = refl;
    by_client = lookup-put_self Bytes-discrete (id_text session) s.next_ref s.session_by_client;
    by_ip = lookup-put_self Addr-discrete (tunnel_ip_of session) s.next_ref s.session_by_ip;
  }

  pub new_found : lookup ℕ_discrete session.id (add_session s session).sessions ≡ some s.next_ref
  unfolding add_session
  new_found = lookup-put_self ℕ_discrete session.id s.next_ref s.sessions

  old-IsListed :
      (id ref : ℕ) (session' : Session)
      → IsListed s id ref session'
      → IsListed (add_session s session) id ref session'
  unfolding add_session
  old-IsListed id ref session' l = record {
    stored = unfold add_session in kept_stored ref session' l.stored;
    named = l.named;
    by_client =
        lookup-put_ne Bytes-discrete (id_text session) (id_text session') s.next_ref
          s.session_by_client
          (λ t.
            clash (
              sym no_client
              ∙ ap (λ x. lookup Bytes-discrete x s.session_by_client) t
              ∙ l.by_client))
        ∙ l.by_client;
    by_ip =
        lookup-put_ne Addr-discrete (tunnel_ip_of session) (tunnel_ip_of session') s.next_ref
          s.session_by_ip
          (λ t. clash (sym no_ip ∙ ap (λ x. lookup Addr-discrete x s.session_by_ip) t ∙ l.by_ip))
        ∙ l.by_ip;
  }
    where
      clash : none ≡ some ref → ⊥
      clash p = ground arith

  pub add_session-IsConsistent : IsConsistent (add_session s session)
  unfolding add_session
  add_session-IsConsistent = record {
    live = λ id ref h. elim (lookup-put_inv ℕ_discrete session.id id s.next_ref ref s.sessions h) [
      | inl new ↦ rw (← new.0, ← new.1) (session, new-IsListed)
      | inr old ↦
          let (session', l) = v.live id ref old.1 in (session', old-IsListed id ref session' l)
    ];
    client = λ text ref h.
        elim (lookup-put_inv Bytes-discrete (id_text session) text s.next_ref ref
          s.session_by_client h) [
            | inl new ↦ rw (← new.1) (session, new-IsListed.stored, new.0, new_found)
            | inr old ↦
                let (session', stored, t, k) = v.client text ref old.1 in
                (session', kept_stored ref session' stored, t, kept_listed ref session' k)
          ];
    address = λ ip ref h.
        elim (lookup-put_inv Addr-discrete (tunnel_ip_of session) ip s.next_ref ref s.session_by_ip
          h) [
            | inl new ↦ rw (← new.1) (session, new-IsListed.stored, new.0, new_found)
            | inr old ↦
                let (session', stored, t, k) = v.address ip ref old.1 in
                (session', kept_stored ref session' stored, t, kept_listed ref session' k)
          ];
    below = λ ref session' h.
        elim (lookup-put_inv ℕ_discrete s.next_ref ref session session' s.heap h) [
          | inl new ↦ omega arith
          | inr old ↦ omega (arith, v.below ref session' old.1)
        ];
  }

  pub add_session-IsAuthorized :
      IsAuthorized s → Authorized s session → IsAuthorized (add_session s session)
  unfolding add_session
  add_session-IsAuthorized a own = record {
    backed = λ id ref session' h k.
        elim (lookup-put_inv ℕ_discrete session.id id s.next_ref ref s.sessions h) [
          | inl new ↦
              let here : some session ≡ some session' =
                sym (lookup-put_self ℕ_discrete s.next_ref session s.heap)
                ∙ ap (λ r. lookup ℕ_discrete r (put ℕ_discrete s.next_ref session s.heap)) new.1
                ∙ k in
              subst (Authorized s) (let e : session ≡ session' = cc in e) own
          | inr old ↦
              let (session'', l) = v.live id ref old.1 in
              let before : lookup ℕ_discrete ref s.heap ≡ some session' =
                sym (
                  lookup-put_ne ℕ_discrete s.next_ref ref session s.heap
                    (omega (arith, v.below ref session'' l.stored)))
                ∙ k in
              a.backed id ref session' old.1 before
        ];
    own_address = a.own_address;
  }
