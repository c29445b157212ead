-- ===== src/Engine/Paths/Expiry.antt =====
-- The janitor keeps the session table consistent.
use link_forge.Engine.Paths.{
  is_older, expire_paths, drop_session, expire_session, expire_sessions, janitor_tick,
}
use link_forge.Engine.Registry.Invariant.{IsListed, IsRelay}
use link_forge.Engine.Registry.Removal.{removed-IsConsistent, removed-IsAuthorized}
use link_forge.Engine.Registry.Update.{store, store-IsRelay}
use link_forge.Engine.State.{Session, Server}
use link_forge.Prelude.{
  if◌then◌else◌, Bool-cases, Option-cases, ℕ, ◌≡◌, refl, inl, inr, some, List, [], ◌∷◌, ℕ_discrete,
}
use link_forge.Prelude.Int.{ℤ}
use link_forge.Prelude.Map.{lookup}

pub expire_session-IsRelay :
    (timeout now : ℤ) (s : Server) (id : ℕ) → IsRelay s → IsRelay (expire_session timeout now s id)
unfolding expire_session
expire_session-IsRelay timeout now s id r = elim (Option-cases (lookup ℕ_discrete id s.sessions)) [
  | inl gone ↦ rw (gone, expire_session) r
  | inr (ref, found) ↦
      let (session, l) = r.consistent.live id ref found in
      rw (found, expire_session, l.stored) (ended ref session found l)
]
  where
    ended :
        (ref : ℕ) (session : Session)
        → lookup ℕ_discrete id s.sessions ≡ some ref
        → IsListed s id ref session
        → IsRelay (
            if is_older timeout now session.last_seen
            then drop_session (store s ref (expire_paths now session)) id session
            else store s ref (expire_paths now session))
    ended ref session found l =
        let aged = expire_paths now session in
        elim (Bool-cases (is_older timeout now session.last_seen)) [
          | inl old ↦ rw old (
              rw (← l.named) (
                unfold drop_session in
                record {
                  consistent = removed-IsConsistent s r.consistent id ref session l found aged;
                  authorized =
                      removed-IsAuthorized s r.consistent id ref session l found aged r.authorized;
                }))
          | inr young ↦ rw young (
              store-IsRelay s r ref session aged l.stored (unfold expire_paths in refl)
                (unfold expire_paths in refl))
        ]

expire_sessions-IsRelay :
    (timeout now : ℤ) (s : Server) (ids : List ℕ)
    → IsRelay s
    → IsRelay (expire_sessions timeout now s ids)
unfolding expire_sessions
expire_sessions-IsRelay timeout now s [] r = r
expire_sessions-IsRelay timeout now s (id ∷ ids) r =
    expire_sessions-IsRelay timeout now (expire_session timeout now s id) ids
      (expire_session-IsRelay timeout now s id r)

-- A tick of the janitor keeps the indexes consistent with one another and every session backed by
-- a credential.
pub janitor_tick-IsRelay :
    (timeout now : ℤ) (s : Server) → IsRelay s → IsRelay (janitor_tick timeout now s)
unfolding janitor_tick
janitor_tick-IsRelay timeout now s r = expire_sessions-IsRelay timeout now s _ r
