-- ===== src/Engine/Credentials/Revocation.antt =====
-- Revoking and replacing credentials keeps the session table backed by them.
use link_forge.Engine.Credentials.{revoke_client}
use link_forge.Engine.Registry.{terminate_client_session}
use link_forge.Engine.Registry.Invariant.{IsConsistent, IsAuthorized, IsRelay}
use link_forge.Engine.Registry.Termination.{
  terminate-IsConsistent, terminate-none, terminate-kept, terminate-credentials, unlisted,
}
use link_forge.Engine.State.{Credential, Session, Server, client_id_string, id_text}
use link_forge.Prelude.{ℕ, ◌≡◌, sym, subst, ◌∙◌, ◌≢◌, Option, none, some, ℕ_discrete}
use link_forge.Prelude.Map.{Map, lookup, delete, lookup-delete_ne, lookup-delete_inv}
use link_forge.Protocol.Bytes.{Bytes, Bytes-discrete}

abbrev pub with_credentials : Server → Map Bytes Credential → Server
with_credentials s credentials = record s { credentials = credentials }

pub with_credentials-IsConsistent :
    (s : Server) (credentials : Map Bytes Credential)
    → IsConsistent s
    → IsConsistent (with_credentials s credentials)
with_credentials-IsConsistent s credentials v = record {
  live = λ id ref h.
      let (session, l) = v.live id ref h in
      (
        session,
        record { stored = l.stored; named = l.named; by_client = l.by_client; by_ip = l.by_ip },
      );
  client = v.client;
  address = v.address;
  below = v.below;
}

-- After new credentials and the end of one client's session, the rest must still be authorized.
pub terminated-IsAuthorized :
    (s : Server) (text : Bytes) (credentials : Map Bytes Credential)
    → IsConsistent s
    → IsAuthorized s
    → ((t : Bytes) (c : Credential)
        → t ≢ text
        → lookup Bytes-discrete t s.credentials ≡ some c
        → lookup Bytes-discrete t credentials ≡ some c)
    → ((t u : Bytes) (c d : Credential)
        → lookup Bytes-discrete t credentials ≡ some c
        → lookup Bytes-discrete u credentials ≡ some d
        → c.tunnel_ip ≡ d.tunnel_ip
        → t ≡ u)
    → IsAuthorized (terminate_client_session (with_credentials s credentials) text)
terminated-IsAuthorized s text credentials v a others distinct = record {
  backed = λ id ref session h k.
      let (h', k') = terminate-kept s' text v' id ref session h k in
      let (c, found, key, ip) = a.backed id ref session h' k' in
      let apart : id_text session ≢ text =
        unlisted (terminate_client_session s' text) text (terminate-IsConsistent s' text v')
          (terminate-none s' text v') id ref session h k in
      (
        c,
        subst (λ m. lookup Bytes-discrete (id_text session) m ≡ some c) (sym same)
            (others (id_text session) c apart found),
        key,
        ip,
      );
  own_address = λ t u c d p q e.
      distinct t u c d (subst (λ m. lookup Bytes-discrete t m ≡ some c) same p)
        (subst (λ m. lookup Bytes-discrete u m ≡ some d) same q) e;
}
  where
    s' : Server
    s' = with_credentials s credentials

    v' : IsConsistent s'
    v' = with_credentials-IsConsistent s credentials v

    same : (terminate_client_session s' text).credentials ≡ credentials
    same = terminate-credentials s' text v'

-- Revoking a client keeps the indexes consistent with one another and every session backed by a
-- credential.
pub revoke_client-IsRelay :
    (s : Server) (id : Option Bytes) → IsRelay s → IsRelay (revoke_client s id)
unfolding revoke_client
revoke_client-IsRelay s none r = r
revoke_client-IsRelay s (some id) r =
    let text = client_id_string id in
    let left = delete Bytes-discrete text s.credentials in
    record {
      consistent =
          terminate-IsConsistent _ text (with_credentials-IsConsistent s left r.consistent);
      authorized =
          terminated-IsAuthorized s text left r.consistent r.authorized
            (λ t c n h. lookup-delete_ne Bytes-discrete text t s.credentials (λ e. n (sym e)) ∙ h)
            (λ t u c d p q.
              r.authorized.own_address t u c d
                (lookup-delete_inv Bytes-discrete text t s.credentials c p).1
                (lookup-delete_inv Bytes-discrete text u s.credentials d q).1);
    }

-- After a revocation no session in the id index belongs to the revoked client.
pub revoke_client-ends :
    (s : Server) (client_id : Bytes) (id ref : ℕ) (session : Session)
    → IsRelay s
    → lookup ℕ_discrete id (revoke_client s (some client_id)).sessions ≡ some ref
    → lookup ℕ_discrete ref (revoke_client s (some client_id)).heap ≡ some session
    → id_text session ≢ client_id_string client_id
unfolding revoke_client
revoke_client-ends s client_id id ref session r h k =
    let text = client_id_string client_id in
    let v =
      with_credentials-IsConsistent s (delete Bytes-discrete text s.credentials) r.consistent in
    unlisted _ text (terminate-IsConsistent _ text v) (terminate-none _ text v) id ref session h k
