-- ===== src/Engine/Startup/Validated.antt =====
-- A relay starts with every configuration that Server.Validate accepts.
use native.Mathlib.Nat.{zero-add, add-zero}
use link_forge.Config.{ClientCredential, ServerConfig}
use link_forge.Config.Checks.{is_one_of}
use link_forge.Config.Host.{Prefix, Host}
use link_forge.Config.ServerChecks.{
  Seen, is_seen, validate_clients, no_one, validate_members, validate_server,
}
use link_forge.Config.ServerChecks.Distinct.{
  IsAccepted, or_error_inv, validate_credential-IsAccepted,
}
use link_forge.Engine.Credentials.{
  AuthorizeError, conflict, install_credential, authorize_address, authorize_parsed,
  authorize_client,
}
use link_forge.Engine.Credentials.Authorization.{authorize_client-IsRelay}
use link_forge.Engine.Registry.Invariant.{IsRelay}
use link_forge.Engine.Startup.{
  result_value, prefix_address, subnet_of, configured_of, empty_server, continue_with,
  authorize_all, new_server,
}
use link_forge.Engine.State.{Credential, Subnet, Server, client_id_string}
use link_forge.Prelude.{
  Result, Bool-cases, length, All, All-map, ok, >>_inv, >>=_inv, ℕ, suc, ◌+◌, ◌≡◌, refl, sym, ap,
  subst, ◌∙◌, ◌≢◌, inl, inr, ite, if_neg, true, false, Option, none, some, List, [], ◌∷◌, arith,
}
use link_forge.Prelude.Map.{Map, lookup, put, length-put_absent}
use link_forge.Protocol.Bytes.{Bytes, Bytes-discrete, bytes_eq, bytes_eq→eq, bytes_eq_refl}
use link_forge.Protocol.Ip.{Addr, is_v4, addr_eq, addr_eq→eq, addr_eq_refl}

-- A credential's id, key and address were seen.
abbrev WasSeen : Seen → Bytes × Credential → Type 0
WasSeen seen entry =
    (is_one_of entry.0 seen.ids ≡ true)
    × (is_one_of entry.1.key seen.keys ≡ true)
    × (is_seen entry.1.tunnel_ip seen.ips ≡ true)

is_one_of-apart :
    (a b : Bytes) (words : List Bytes)
    → is_one_of a words ≡ true
    → is_one_of b words ≡ false
    → bytes_eq a b ≡ false
is_one_of-apart a b words h k = elim (Bool-cases (bytes_eq a b)) [
  | inl same ↦
      let both : is_one_of a words ≡ is_one_of b words =
        ap (λ x. is_one_of x words) (bytes_eq→eq a b same) in
      let clash : true ≡ false = sym h ∙ both ∙ k in cc
  | inr apart ↦ apart
]

is_seen-apart :
    (a b : Addr) (ips : List Addr)
    → is_seen a ips ≡ true
    → is_seen b ips ≡ false
    → addr_eq a b ≡ false
is_seen-apart a b ips h k = elim (Bool-cases (addr_eq a b)) [
  | inl same ↦
      let both : is_seen a ips ≡ is_seen b ips = ap (λ x. is_seen x ips) (addr_eq→eq a b same) in
      let clash : true ≡ false = sym h ∙ both ∙ k in cc
  | inr apart ↦ apart
]

module _ (seen : Seen) (text : Bytes) (credential : Credential)
    (new_id : is_one_of text seen.ids ≡ false)
    (new_key : is_one_of credential.key seen.keys ≡ false)
    (new_ip : is_seen credential.tunnel_ip seen.ips ≡ false) where
  -- Nothing seen conflicts with a credential that is new in all three parts.
  no_conflict :
      (m : Map Bytes Credential) → All (WasSeen seen) m → conflict text credential m ≡ none
  unfolding conflict
  no_conflict [] a = refl
  no_conflict ((t, c) ∷ m) a =
      rw
        (
          is_seen-apart c.tunnel_ip credential.tunnel_ip seen.ips a.0.2 new_ip,
          is_one_of-apart c.key credential.key seen.keys a.0.1 new_key,
        )
        (ground (arith, no_conflict m a.1))

  apart_from : (t : Bytes) → is_one_of t seen.ids ≡ true → t ≢ text
  apart_from t h e =
      let clash : true ≡ false = sym h ∙ ap (λ x. is_one_of x seen.ids) e ∙ new_id in cc

  absent : (m : Map Bytes Credential) → All (WasSeen seen) m → lookup Bytes-discrete text m ≡ none
  unfolding lookup
  absent [] a = refl
  absent ((t, c) ∷ m) a =
      if_neg (Bytes-discrete t text) (apart_from t a.0.0) (some c) (lookup Bytes-discrete text m)
      ∙ absent m a.1

  abbrev seen_with : Seen
  seen_with = record {
    ids = text ∷ seen.ids;
    keys = credential.key ∷ seen.keys;
    ips = credential.tunnel_ip ∷ seen.ips;
  }

  own-WasSeen : WasSeen seen_with (text, credential)
  own-WasSeen = (
    rw (bytes_eq_refl text, is_one_of),
    rw (bytes_eq_refl credential.key, is_one_of),
    rw (addr_eq_refl credential.tunnel_ip, is_seen),
  )

  WasSeen-weaken : (entry : Bytes × Credential) → WasSeen seen entry → WasSeen seen_with entry
  WasSeen-weaken (t, c) w = (ground (arith, w.0), ground (arith, w.1), ground (arith, w.2))

  put-WasSeen :
      (m : Map Bytes Credential)
      → All (WasSeen seen) m
      → All (WasSeen seen_with) (put Bytes-discrete text credential m)
  unfolding put
  put-WasSeen [] a = (own-WasSeen, tt)
  put-WasSeen ((t, c) ∷ m) a =
      let rest = put-WasSeen m a.1 in
      let kept = WasSeen-weaken (t, c) a.0 in
      elim (Bytes-discrete t text)
        as (λ d.
          All (WasSeen seen_with)
            (ite d ((text, credential) ∷ m) ((t, c) ∷ put Bytes-discrete text credential m))) [
              | yes _ ↦
                  (own-WasSeen, All-map (WasSeen seen) (WasSeen seen_with) m WasSeen-weaken a.1)
              | no _ ↦ (kept, rest)
            ]

-- Between two rounds: nobody is connected, and each credential is one of the clients before.
record IsStarting (server : Prefix) (seen : Seen) (n : ℕ) (s : Server) : Type 0 where
  relay : IsRelay s
  subnet_known : s.subnet ≡ subnet_of (some server)
  no_sessions : s.sessions ≡ []
  all_seen : All (WasSeen seen) s.credentials
  counted : length s.credentials ≡ n

install_new :
    (s : Server) (c : Credential)
    → conflict (client_id_string c.client_id) c s.credentials ≡ none
    → lookup Bytes-discrete (client_id_string c.client_id) s.credentials ≡ none
    → install_credential s c ≡ (
      record s { credentials = put Bytes-discrete (client_id_string c.client_id) c s.credentials },
      none,
    )
unfolding install_credential
install_new s c free unknown = ground arith

usable_address :
    (s : Server) (c : Credential) (subnet : Subnet)
    → is_v4 c.tunnel_ip ≡ true
    → subnet.holds c.tunnel_ip ≡ true
    → addr_eq c.tunnel_ip subnet.own ≡ false
    → authorize_address s c (some subnet) ≡ install_credential s c
unfolding authorize_address
usable_address s c subnet h k l = rw (h, k, l)

authorize_known :
    (s : Server) (name id key : Bytes) (address : Addr)
    → authorize_client s (record {
      configured_name = name;
      parsed_id = some id;
      parsed_key = some key;
      parsed_address = some address;
    })
      ≡ authorize_address s
          (record { name = name; client_id = id; key = key; tunnel_ip = address })
          s.subnet
unfolding authorize_client authorize_parsed
authorize_known s name id key address = refl

-- A client that has passed its checks is authorized.
authorize_client-accepted :
    (host : Host) (server : Prefix) (seen seen' : Seen) (c : ClientCredential) (n : ℕ) (s : Server)
    → IsAccepted host server seen c seen'
    → IsStarting server seen n s
    → ((authorize_client s (configured_of host c)).1 ≡ none)
      × IsStarting server seen' (suc n) (authorize_client s (configured_of host c)).0
authorize_client-accepted host server seen seen' c n s a v = rw done (
  refl,
  record {
    relay = after_relay;
    subnet_known = v.subnet_known;
    no_sessions = v.no_sessions;
    all_seen =
        rw a.seen_after
          (put-WasSeen seen text installed a.new_id a.new_key a.new_ip s.credentials v.all_seen);
    counted =
        length-put_absent Bytes-discrete text installed s.credentials unknown ∙ ap suc v.counted;
  },
)
  where
    installed : Credential
    installed = record {
      name = c.name;
      client_id = a.id;
      key = a.key;
      tunnel_ip = a.prefix.address;
    }

    text : Bytes
    text = client_id_string a.id

    parsed : configured_of host c ≡ record {
      configured_name = c.name;
      parsed_id = some a.id;
      parsed_key = some a.key;
      parsed_address = some a.prefix.address;
    }
    parsed =
        unfold configured_of in
        λ i. record {
          configured_name = c.name;
          parsed_id = a.id_parses i;
          parsed_key = result_value (a.key_resolves i);
          parsed_address = prefix_address (a.prefix_parses i);
        }

    unknown : lookup Bytes-discrete text s.credentials ≡ none
    unknown = absent seen text installed a.new_id a.new_key a.new_ip s.credentials v.all_seen

    free : conflict text installed s.credentials ≡ none
    free = no_conflict seen text installed a.new_id a.new_key a.new_ip s.credentials v.all_seen

    after : Server
    after = record s { credentials = put Bytes-discrete text installed s.credentials }

    install : install_credential s installed ≡ (after, none)
    install = install_new s installed free unknown

    done : authorize_client s (configured_of host c) ≡ (after, none)
    done =
        ap (authorize_client s) parsed
        ∙ authorize_known s c.name a.id a.key a.prefix.address
        ∙ ap (authorize_address s installed) v.subnet_known
        ∙ usable_address s installed _ a.has_v4 a.within a.not_own
        ∙ install

    after_relay : IsRelay after
    after_relay =
        subst (λ r. IsRelay r.0) done (authorize_client-IsRelay s (configured_of host c) v.relay)

continue_none :
    (next : Server → Result AuthorizeError Server) (r : Server × Option AuthorizeError)
    → r.1 ≡ none
    → continue_with next r ≡ next r.0
continue_none next (s, none) h = refl
continue_none next (s, some e) h = cc

authorize_all-accepted :
    (host : Host) (server : Prefix) (cs : List ClientCredential) (seen seen' : Seen) (n : ℕ)
    (s : Server)
    → validate_clients host server seen cs ≡ ok seen'
    → IsStarting server seen n s
    → (s' : Server) × (authorize_all host cs s ≡ ok s') × IsStarting server seen' (length cs + n) s'
unfolding validate_clients authorize_all
authorize_all-accepted host server [] seen seen' n s h v =
    let same : seen ≡ seen' = cc in
    (
      s,
      refl,
      subst (λ m. IsStarting server seen' m s) (sym (zero-add n))
          (subst (λ x. IsStarting server x n s) same v),
    )
authorize_all-accepted host server (c ∷ cs) seen seen' n s h v =
    let (next, first, rest) = >>=_inv _ _ h in
    let (fine, kept) =
      authorize_client-accepted host server seen next c n s
        (validate_credential-IsAccepted host server seen next c first) v in
    let (s', e, v') = authorize_all-accepted host server cs next seen' (suc n) _ rest kept in
    (
      s',
      continue_none (authorize_all host cs) _ fine ∙ e,
      subst (λ m. IsStarting server seen' m s') (omega arith) v',
    )

empty_server-IsRelay : (host : Host) (config : ServerConfig) → IsRelay (empty_server host config)
unfolding lookup
empty_server-IsRelay host config = record {
  consistent = record {
    live = λ id ref h. absurd (no_value h);
    client = λ text ref h. absurd (no_value h);
    address = λ ip ref h. absurd (no_value h);
    below = λ ref session h. absurd (no_value h);
  };
  authorized = record {
    backed = λ id ref session h k. absurd (no_value h);
    own_address = λ t u c d p q e. absurd (no_value p);
  };
}
  where
    no_value : {A : Type 0} {x : A} → none ≡ some x → ⊥
    no_value p = ground arith

validate_members_inv :
    (host : Host) (config : ServerConfig)
    → validate_members host config ≡ ok tt
    → (server : Prefix) × (seen : Seen) × (host.parse_prefix config.tunnel_address ≡ some server)
      × (validate_clients host server no_one config.clients ≡ ok seen)
unfolding validate_members
validate_members_inv host config h =
    let (server, prefix, checks) = >>=_inv _ _ h in
    let ((seen, clients), _) = >>_inv _ _ checks in (server, seen, or_error_inv _ _ prefix, clients)

validate_server_inv :
    (host : Host) (config : ServerConfig)
    → validate_server host config ≡ ok tt
    → validate_members host config ≡ ok tt
unfolding validate_server
validate_server_inv host config h = ground arith

new_server-authorize_all :
    (host : Host) (config : ServerConfig) (s : Server)
    → authorize_all host config.clients (empty_server host config) ≡ ok s
    → new_server host true config ≡ ok s
unfolding new_server
new_server-authorize_all host config s h = ground arith

-- A relay with a TUN device starts with every configuration that validate_server accepts: its table
-- of sessions is consistent and empty, and it knows as many credentials as clients were configured.
pub new_server-validated :
    (host : Host) (config : ServerConfig)
    → validate_server host config ≡ ok tt
    → (s : Server) × (new_server host true config ≡ ok s)
      × IsRelay s
      × (s.sessions ≡ [])
      × (length s.credentials ≡ length config.clients)
new_server-validated host config h =
    let (server, seen, prefix, clients) =
      validate_members_inv host config (validate_server_inv host config h) in
    let (s, e, v) =
      authorize_all-accepted host server config.clients no_one seen 0 (empty_server host config)
        clients
        (record {
          relay = empty_server-IsRelay host config;
          subnet_known = ap subnet_of prefix;
          no_sessions = refl;
          all_seen = tt;
          counted = refl;
        }) in
    (s, new_server-authorize_all host config s e, v.relay, v.no_sessions, v.counted ∙ add-zero _)
