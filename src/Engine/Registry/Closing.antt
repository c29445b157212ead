-- ===== src/Engine/Registry/Closing.antt =====
-- terminateSessionIfCurrent.
use link_forge.Engine.Registry.{mark_closing, refers, terminate_session_if_current}
use link_forge.Engine.Registry.Invariant.{IsListed, IsRelay, removed, close_session_lem}
use link_forge.Engine.Registry.Removal.{removed-IsConsistent, removed-IsAuthorized}
use link_forge.Engine.State.{Session, Server}
use link_forge.Prelude.{
  ◌==◌, Option-cases, ℕ, ◌≡◌, sym, ap, subst, ◌∙◌, ◌≢◌, inl, inr, true, false, none, some, arith,
  ℕ_discrete,
}
use link_forge.Prelude.Map.{lookup, lookup-delete_self}

-- In a consistent table, ending a stored session if it is still current keeps the indexes
-- consistent with one another and every session backed by a credential, and its id is then not
-- listed for that session.
pub terminate_session_if_current-IsRelay :
    (s : Server) (ref : ℕ) (session : Session)
    → IsRelay s
    → lookup ℕ_discrete ref s.heap ≡ some session
    → IsRelay (terminate_session_if_current s ref session)
      × (lookup ℕ_discrete session.id (terminate_session_if_current s ref session).sessions
          ≢ some ref)
unfolding terminate_session_if_current
terminate_session_if_current-IsRelay s ref session r held =
    elim (Option-cases (lookup ℕ_discrete session.id s.sessions)) [
      | inl gone ↦ rw (gone, terminate_session_if_current) (r, λ e. clash (sym gone ∙ e))
      | inr (current, found) ↦ elim (ℕ_discrete current ref) [
        | yes same ↦
            let here : lookup ℕ_discrete session.id s.sessions ≡ some ref = found ∙ ap some same in
            let (session', l) = r.consistent.live session.id ref here in
            let one : some session' ≡ some session = sym l.stored ∙ held in
            let listed : IsListed s session.id ref session =
              subst (IsListed s session.id ref) (let e : session' ≡ session = cc in e) l in
            let own : refers (lookup ℕ_discrete session.id s.sessions) ref ≡ true =
              ap (λ x. refers x ref) here ∙ own_ref ref in
            rw (own, terminate_session_if_current)
              (rw (close_session_lem s session.id ref session listed here) (ended here listed))
        | no apart ↦
            let foreign : refers (lookup ℕ_discrete session.id s.sessions) ref ≡ false =
              ap (λ x. refers x ref) found ∙ foreign_ref current apart in
            rw (foreign, terminate_session_if_current) (r, λ e. apart (same_ref (sym found ∙ e)))
      ]
    ]
  where
    clash : {n : ℕ} → none ≡ some n → ⊥
    clash p = ground arith

    same_ref : {a b : ℕ} → some a ≡ some b → a ≡ b
    same_ref p = cc

    own_ref : (n : ℕ) → (n == n) ≡ true
    own_ref n = ground arith

    foreign_ref : (n : ℕ) → n ≢ ref → (n == ref) ≡ false
    foreign_ref n p = ground arith

    ended :
        lookup ℕ_discrete session.id s.sessions ≡ some ref
        → IsListed s session.id ref session
        → IsRelay (removed s ref session)
          × (lookup ℕ_discrete session.id (removed s ref session).sessions ≢ some ref)
    ended here l = (
      record {
        consistent =
            removed-IsConsistent s r.consistent session.id ref session l here
              (mark_closing session);
        authorized =
            removed-IsAuthorized s r.consistent session.id ref session l here (mark_closing session)
              r.authorized;
      },
      λ e. clash (sym (lookup-delete_self ℕ_discrete session.id s.sessions) ∙ e),
    )
