-- ===== src/Engine/Credentials/Authorization.antt =====
-- AuthorizeClient keeps every session backed by a credential.
use link_forge.Engine.Credentials.{
  Configured, conflict, is_replaced, install_credential, authorize_address, authorize_parsed,
  authorize_client,
}
use link_forge.Engine.Credentials.Revocation.{
  with_credentials, with_credentials-IsConsistent, terminated-IsAuthorized,
}
use link_forge.Engine.Registry.Invariant.{IsAuthorized, IsRelay}
use link_forge.Engine.Registry.Termination.{terminate-IsConsistent}
use link_forge.Engine.State.{Credential, Subnet, Server, client_id_string, id_text}
use link_forge.Prelude.{
  Bool-cases, Option-cases, ◌≡◌, sym, ap, ◌∙◌, ◌≢◌, inl, inr, true, false, not, ◌||◌, Option, none,
  some, [], ◌∷◌, arith,
}
use link_forge.Prelude.Map.{Map, lookup, put, lookup-put_ne, lookup-put_self, lookup-put_inv}
use link_forge.Protocol.Bytes.{Bytes, Bytes-discrete, bytes_eq, bytes_eq→eq, ne→bytes_eq}
use link_forge.Protocol.Ip.{Addr, is_v4, addr_eq, addr_eq→eq, eq→addr_eq}
use link_forge.Reorder.{new}

-- No other client has the address, if the scan found no conflict.
conflict-none :
    (text u : Bytes) (c d : Credential) (m : Map Bytes Credential)
    → conflict text c m ≡ none
    → lookup Bytes-discrete u m ≡ some d
    → u ≢ text
    → d.tunnel_ip ≢ c.tunnel_ip
unfolding conflict lookup
conflict-none text u c d [] e h n = λ _. not_found h
  where
    not_found : none ≡ some d → ⊥
    not_found p = ground arith
conflict-none text u c d ((t, x) ∷ m) e h n = elim (Bytes-discrete t u) [
  | yes here ↦ λ same.
      let other : bytes_eq t text ≡ false = ne→bytes_eq t text (λ p. n (sym here ∙ p)) in
      let entry : x ≡ d = ground arith in
      let clash : addr_eq x.tunnel_ip c.tunnel_ip ≡ true =
        eq→addr_eq _ _ (ap (λ y. y.tunnel_ip) entry ∙ same) in
      ground arith
  | no further ↦ conflict-none text u c d m (ground arith) (ground arith) n
]

module _ (s : Server) (c : Credential) (r : IsRelay s) where
  text : Bytes
  text = client_id_string c.client_id

  grown : Map Bytes Credential
  grown = put Bytes-discrete text c s.credentials

  grown_others :
      (t : Bytes) (x : Credential)
      → t ≢ text
      → lookup Bytes-discrete t s.credentials ≡ some x
      → lookup Bytes-discrete t grown ≡ some x
  unfolding grown
  grown_others t x n h = lookup-put_ne Bytes-discrete text t c s.credentials (λ e. n (sym e)) ∙ h

  grown_distinct :
      conflict text c s.credentials ≡ none
      → (t u : Bytes) (x y : Credential) → lookup Bytes-discrete t grown ≡ some x
      → lookup Bytes-discrete u grown ≡ some y
      → x.tunnel_ip ≡ y.tunnel_ip
      → t ≡ u
  unfolding grown
  grown_distinct free t u x y p q e =
      elim (lookup-put_inv Bytes-discrete text t c x s.credentials p) [
        | inl new ↦ elim (lookup-put_inv Bytes-discrete text u c y s.credentials q) [
          | inl new' ↦ sym new.0 ∙ new'.0
          | inr old' ↦ absurd (
              conflict-none text u c y s.credentials free old'.1 (λ z. old'.0 (sym z))
                (sym e ∙ ap (λ z. z.tunnel_ip) (sym new.1)))
        ]
        | inr old ↦ elim (lookup-put_inv Bytes-discrete text u c y s.credentials q) [
          | inl new' ↦ absurd (
              conflict-none text t c x s.credentials free old.1 (λ z. old.0 (sym z))
                (e ∙ ap (λ z. z.tunnel_ip) (sym new'.1)))
          | inr old' ↦ r.authorized.own_address t u x y old.1 old'.1 e
        ]
      ]

  -- The session of a client whose key and address do not change stays backed.
  same_IsAuthorized :
      conflict text c s.credentials ≡ none
      → is_replaced (lookup Bytes-discrete text s.credentials) c ≡ false
      → IsAuthorized (with_credentials s grown)
  unfolding grown
  same_IsAuthorized free same = record {
    backed = λ id ref session h k.
        let (x, found, key, ip) = r.authorized.backed id ref session h k in
        elim (Bytes-discrete text (id_text session)) [
          | yes e ↦
              let before : lookup Bytes-discrete text s.credentials ≡ some x =
                ap (λ z. lookup Bytes-discrete z s.credentials) e ∙ found in
              let unchanged : is_replaced (some x) c ≡ false =
                ap (λ z. is_replaced z c) (sym before) ∙ same in
              let keys : x.key ≡ c.key = bytes_eq→eq _ _ (ground arith) in
              let ips : x.tunnel_ip ≡ c.tunnel_ip = addr_eq→eq _ _ (ground arith) in
              (
                c,
                ap (λ z. lookup Bytes-discrete z (put Bytes-discrete text c s.credentials)) (sym e)
                    ∙ lookup-put_self Bytes-discrete text c s.credentials,
                sym keys ∙ key,
                sym ips ∙ ip,
              )
          | no n ↦ (
            x,
            lookup-put_ne Bytes-discrete text (id_text session) c s.credentials n ∙ found,
            key,
            ip,
          )
        ];
    own_address = grown_distinct free;
  }

  install_credential-IsRelay : IsRelay (install_credential s c).0
  unfolding text grown install_credential
  install_credential-IsRelay = elim (Option-cases (conflict text c s.credentials)) [
    | inr (e, clash) ↦ rw (clash, install_credential) r
    | inl free ↦ elim (Bool-cases (is_replaced (lookup Bytes-discrete text s.credentials) c)) [
      | inl changed ↦
          rw (free, changed, install_credential)
            (record {
              consistent =
                  terminate-IsConsistent _ text
                    (with_credentials-IsConsistent s grown r.consistent);
              authorized =
                  terminated-IsAuthorized s text grown r.consistent r.authorized grown_others
                    (grown_distinct free);
            })
      | inr same ↦
          rw (free, same, install_credential)
            (record {
              consistent = with_credentials-IsConsistent s grown r.consistent;
              authorized = same_IsAuthorized free same;
            })
    ]
  ]

authorize_address-IsRelay :
    (s : Server) (c : Credential) (subnet : Option Subnet)
    → IsRelay s
    → IsRelay (authorize_address s c subnet).0
unfolding authorize_address
authorize_address-IsRelay s c none r = r
authorize_address-IsRelay s c (some subnet) r = elim (Bool-cases (is_v4 c.tunnel_ip)) [
  | inr v6_only ↦ rw (v6_only, authorize_address) r
  | inl v4_only ↦
      elim (Bool-cases (not (subnet.holds c.tunnel_ip) || addr_eq c.tunnel_ip subnet.own)) [
        | inl outside ↦ rw (v4_only, outside, authorize_address) r
        | inr inside ↦ rw (v4_only, inside, authorize_address) (install_credential-IsRelay s c r)
      ]
]

authorize_parsed-IsRelay :
    (s : Server) (name : Bytes) (id key : Option Bytes) (address : Option Addr)
    → IsRelay s
    → IsRelay (authorize_parsed s name id key address).0
unfolding authorize_parsed
authorize_parsed-IsRelay s name none key address r = r
authorize_parsed-IsRelay s name (some id) none address r = r
authorize_parsed-IsRelay s name (some id) (some key) none r = r
authorize_parsed-IsRelay s name (some id) (some key) (some address) r =
    authorize_address-IsRelay s _ s.subnet r

-- AuthorizeClient, whether it succeeds or not, keeps the indexes consistent with one another, every
-- session backed by its client's current key and address, and the addresses of clients distinct.
pub authorize_client-IsRelay :
    (s : Server) (c : Configured) → IsRelay s → IsRelay (authorize_client s c).0
unfolding authorize_client
authorize_client-IsRelay s c r = authorize_parsed-IsRelay s _ _ _ _ r
