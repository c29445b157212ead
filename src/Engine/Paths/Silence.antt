-- ===== src/Engine/Paths/Silence.antt =====
-- After a tick of the janitor no session in the table has been silent for too long.
use link_forge.Engine.Paths.{
  is_older, expire_paths, drop_session, expire_session, expire_sessions, janitor_tick,
}
use link_forge.Engine.Paths.Expiry.{expire_session-IsRelay}
use link_forge.Engine.Registry.Invariant.{IsListed, IsRelay, removed_as}
use link_forge.Engine.Registry.Removal.{other_ref}
use link_forge.Engine.Registry.Update.{store}
use link_forge.Engine.State.{Session, Server}
use link_forge.Prelude.{
  if◌then◌else◌, Bool-cases, Option-cases, All, ℕ, ◌≡◌, refl, sym, ap, subst, ◌∙◌, inl, inr, false,
  none, some, List, [], ◌∷◌, map, arith, ℕ_discrete,
}
use link_forge.Prelude.Int.{ℤ}
use link_forge.Prelude.Map.{
  lookup, lookup-put_ne, lookup-delete_inv, lookup-put_inv, All_keys-lookup,
}
use link_forge.Protocol.Replay.Once.{after}

-- A session of that id is not older than the timeout.
abbrev Fresh : ℤ → ℤ → Server → ℕ → Type 0
Fresh timeout now s id =
    (ref : ℕ) (session : Session)
    → lookup ℕ_discrete id s.sessions ≡ some ref
    → lookup ℕ_discrete ref s.heap ≡ some session
    → is_older timeout now session.last_seen ≡ false

-- The session was there before, and had been silent for as long.
abbrev Before : Server → ℕ → ℕ → Session → Type 0
Before s id ref session =
    (session' : Session) × (lookup ℕ_discrete id s.sessions ≡ some ref)
    × (lookup ℕ_discrete ref s.heap ≡ some session')
    × (session'.last_seen ≡ session.last_seen)

module _ (timeout now : ℤ) where
  -- What is left of the table after one session was looked at.
  abbrev Left : Server → ℕ → Server → Type 0
  Left s id after =
      (id' ref' : ℕ) (session' : Session)
      → lookup ℕ_discrete id' after.sessions ≡ some ref'
      → lookup ℕ_discrete ref' after.heap ≡ some session'
      → Before s id' ref' session' × (id ≡ id' → is_older timeout now session'.last_seen ≡ false)

  dropped-Left :
      (s : Server) (id ref : ℕ) (session left : Session)
      → IsRelay s
      → IsListed s id ref session
      → lookup ℕ_discrete id s.sessions ≡ some ref
      → Left s id (removed_as s ref session left)
  dropped-Left s id ref session left r l found id' ref' session' h k =
      let (n, old) = lookup-delete_inv ℕ_discrete session.id id' s.sessions ref' h in
      let (session'', l') = r.consistent.live id' ref' old in
      let apart = other_ref s r.consistent id ref session l found left id' ref' session'' n l' in
      (
        (session', old, sym (lookup-put_ne ℕ_discrete ref ref' left s.heap apart) ∙ k, refl),
        λ e. absurd (n (l.named ∙ e)),
      )

  stored-Left :
      (s : Server) (id ref : ℕ) (session : Session)
      → lookup ℕ_discrete ref s.heap ≡ some session
      → lookup ℕ_discrete id s.sessions ≡ some ref
      → is_older timeout now session.last_seen ≡ false
      → Left s id (store s ref (expire_paths now session))
  unfolding expire_paths
  stored-Left s id ref session held found young id' ref' session' h k =
      elim (lookup-put_inv ℕ_discrete ref ref' (expire_paths now session) session' s.heap k) [
        | inl hit ↦
            let same : session.last_seen ≡ session'.last_seen = ap (λ x. x.last_seen) hit.1 in
            (
              (session, h, ap (λ x. lookup ℕ_discrete x s.heap) (sym hit.0) ∙ held, same),
              λ e. ap (is_older timeout now) (sym same) ∙ young,
            )
        | inr miss ↦ (
          (session', h, miss.1, refl),
          λ e.
              absurd
                (miss.0 (same_ref (sym found ∙ ap (λ x. lookup ℕ_discrete x s.sessions) e ∙ h))),
        )
      ]
    where
      same_ref : {a b : ℕ} → some a ≡ some b → a ≡ b
      same_ref p = cc

  expire_session-Left :
      (s : Server) (id : ℕ) → IsRelay s → Left s id (expire_session timeout now s id)
  unfolding expire_session
  expire_session-Left s id r = elim (Option-cases (lookup ℕ_discrete id s.sessions)) [
    | inl gone ↦ rw (gone, expire_session) (untouched gone)
    | inr (ref, found) ↦
        let (session, l) = r.consistent.live id ref found in
        rw (found, expire_session, l.stored) (looked_at ref session found l)
  ]
    where
      untouched : lookup ℕ_discrete id s.sessions ≡ none → Left s id s
      untouched gone id' ref' session' h k = (
        (session', h, k, refl),
        λ e. absurd (clash (sym gone ∙ ap (λ x. lookup ℕ_discrete x s.sessions) e ∙ h)),
      )
        where
          clash : none ≡ some ref' → ⊥
          clash p = ground arith

      looked_at :
          (ref : ℕ) (session : Session)
          → lookup ℕ_discrete id s.sessions ≡ some ref
          → IsListed s id ref session
          → Left s id (
              if is_older timeout now session.last_seen
              then drop_session (store s ref (expire_paths now session)) id session
              else store s ref (expire_paths now session))
      looked_at ref session found l = elim (Bool-cases (is_older timeout now session.last_seen)) [
        | inl old ↦ rw old (
            rw (← l.named) (
              unfold drop_session in
              dropped-Left s session.id ref session (expire_paths now session) r
                (subst (λ x. IsListed s x ref session) (sym l.named) l)
                (ap (λ x. lookup ℕ_discrete x s.sessions) l.named ∙ found)))
        | inr young ↦ rw young (stored-Left s id ref session l.stored found young)
      ]

  -- What is listed in the end was listed before, and stays fresh where it was.
  expire_sessions-Before :
      (s : Server) (ids : List ℕ) (id ref : ℕ) (session : Session)
      → IsRelay s
      → lookup ℕ_discrete id (expire_sessions timeout now s ids).sessions ≡ some ref
      → lookup ℕ_discrete ref (expire_sessions timeout now s ids).heap ≡ some session
      → Before s id ref session
  unfolding expire_sessions
  expire_sessions-Before s [] id ref session r h k = (session, h, k, refl)
  expire_sessions-Before s (first ∷ ids) id ref session r h k =
      let (session', h', k', same) =
        expire_sessions-Before (expire_session timeout now s first) ids id ref session
          (expire_session-IsRelay timeout now s first r) h k in
      let ((session'', h'', k'', same'), _) = expire_session-Left s first r id ref session' h' k' in
      (session'', h'', k'', same' ∙ same)

  expire_sessions-Fresh :
      (s : Server) (ids : List ℕ)
      → IsRelay s
      → All (Fresh timeout now (expire_sessions timeout now s ids)) ids
  unfolding expire_sessions
  expire_sessions-Fresh s [] r = tt
  expire_sessions-Fresh s (first ∷ ids) r =
      let next = expire_session timeout now s first in
      let r' = expire_session-IsRelay timeout now s first r in
      (
        λ ref session h k.
            let (session', h', k', same) =
              expire_sessions-Before next ids first ref session r' h k in
            ap (is_older timeout now) (sym same)
            ∙ (expire_session-Left s first r first ref session' h' k').1 refl,
        expire_sessions-Fresh next ids r',
      )

-- In a consistent table, a session that is listed after a tick of the janitor was last seen no
-- longer ago than the timeout.
pub janitor_tick-fresh :
    (timeout now : ℤ) (s : Server) (id ref : ℕ) (session : Session)
    → IsRelay s
    → lookup ℕ_discrete id (janitor_tick timeout now s).sessions ≡ some ref
    → lookup ℕ_discrete ref (janitor_tick timeout now s).heap ≡ some session
    → is_older timeout now session.last_seen ≡ false
unfolding janitor_tick
janitor_tick-fresh timeout now s id ref session r h k =
    let ids = map (λ entry. entry.0) s.sessions in
    let (_, listed, _, _) = expire_sessions-Before timeout now s ids id ref session r h k in
    All_keys-lookup ℕ_discrete (Fresh timeout now (expire_sessions timeout now s ids)) id s.sessions
      listed (expire_sessions-Fresh timeout now s ids r) ref session h k
