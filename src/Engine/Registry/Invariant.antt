-- ===== src/Engine/Registry/Invariant.antt =====
-- The three indexes agree with one another and with the credentials.
use link_forge.Engine.Registry.{mark_closing, detach_session, close_session}
use link_forge.Engine.State.{Credential, Session, Server, id_text, tunnel_ip_of}
use link_forge.Prelude.{ℕ, ◌<◌, ◌≡◌, ap, ◌∙◌, some, arith, ℕ_discrete}
use link_forge.Prelude.Int.{pos, ◌-ℤ◌}
use link_forge.Prelude.Map.{lookup, put, delete}
use link_forge.Protocol.Bytes.{Bytes, Bytes-discrete}
use link_forge.Protocol.Ip.{Addr, Addr-discrete}

-- The session's client is authorized, with the session's own key and address.
abbrev pub Authorized : Server → Session → Type 0
Authorized s session =
    (c : Credential) × (lookup Bytes-discrete (id_text session) s.credentials ≡ some c)
    × (c.key ≡ session.credential.key)
    × (c.tunnel_ip ≡ tunnel_ip_of session)

-- A session in the id index stands in the other two as well.
pub record IsListed (s : Server) (id ref : ℕ) (session : Session) : Type 0 where
  pub stored : lookup ℕ_discrete ref s.heap ≡ some session
  pub named : session.id ≡ id
  pub by_client : lookup Bytes-discrete (id_text session) s.session_by_client ≡ some ref
  pub by_ip : lookup Addr-discrete (tunnel_ip_of session) s.session_by_ip ≡ some ref

pub record IsConsistent (s : Server) : Type 0 where
  pub live :
      (id ref : ℕ)
      → lookup ℕ_discrete id s.sessions ≡ some ref
      → (session : Session) × IsListed s id ref session
  pub client :
      (text : Bytes) (ref : ℕ)
      → lookup Bytes-discrete text s.session_by_client ≡ some ref
      → (session : Session) × (lookup ℕ_discrete ref s.heap ≡ some session)
        × (id_text session ≡ text)
        × (lookup ℕ_discrete session.id s.sessions ≡ some ref)
  pub address :
      (ip : Addr) (ref : ℕ)
      → lookup Addr-discrete ip s.session_by_ip ≡ some ref
      → (session : Session) × (lookup ℕ_discrete ref s.heap ≡ some session)
        × (tunnel_ip_of session ≡ ip)
        × (lookup ℕ_discrete session.id s.sessions ≡ some ref)
  pub below :
      (ref : ℕ) (session : Session) → lookup ℕ_discrete ref s.heap ≡ some session → ref < s.next_ref

-- Every session in use belongs to a client that is authorized now, and no two clients share an
-- address.
pub record IsAuthorized (s : Server) : Type 0 where
  pub backed :
      (id ref : ℕ) (session : Session)
      → lookup ℕ_discrete id s.sessions ≡ some ref
      → lookup ℕ_discrete ref s.heap ≡ some session
      → Authorized s session
  pub own_address :
      (t u : Bytes) (c d : Credential)
      → lookup Bytes-discrete t s.credentials ≡ some c
      → lookup Bytes-discrete u s.credentials ≡ some d
      → c.tunnel_ip ≡ d.tunnel_ip
      → t ≡ u

-- The whole invariant of the relay's table.
pub record IsRelay (s : Server) : Type 0 where
  pub consistent : IsConsistent s
  pub authorized : IsAuthorized s

-- The state without a session in any index, the object left as it is given.
abbrev pub removed_as : Server → ℕ → Session → Session → Server
removed_as s ref session left = record s {
  heap = put ℕ_discrete ref left s.heap;
  sessions = delete ℕ_discrete session.id s.sessions;
  session_by_client = delete Bytes-discrete (id_text session) s.session_by_client;
  session_by_ip = delete Addr-discrete (tunnel_ip_of session) s.session_by_ip;
  active_sessions = s.active_sessions -ℤ pos 1;
}

abbrev pub removed : Server → ℕ → Session → Server
removed s ref session = removed_as s ref session (mark_closing session)

-- Of a listed session the three tests of detachSessionLocked succeed.
pub close_session_lem :
    (s : Server) (id ref : ℕ) (session : Session)
    → IsListed s id ref session
    → lookup ℕ_discrete id s.sessions ≡ some ref
    → close_session s ref session ≡ removed s ref session
unfolding close_session detach_session
close_session_lem s id ref session l h =
    let found : lookup ℕ_discrete session.id s.sessions ≡ some ref =
      ap (λ i. lookup ℕ_discrete i s.sessions) l.named ∙ h in
    ground arith
