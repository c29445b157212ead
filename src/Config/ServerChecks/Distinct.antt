-- ===== src/Config/ServerChecks/Distinct.antt =====
-- What a client of the relay's settings has passed in Server.Validate.
use link_forge.Config.{ClientCredential}
use link_forge.Config.Checks.{ConfigError, or_error, is_one_of, resolve_key}
use link_forge.Config.Host.{Prefix, Host, parse_client_id}
use link_forge.Config.ServerChecks.{Seen, is_seen, validate_parsed, validate_credential}
use link_forge.Engine.State.{client_id_string, id_text}
use link_forge.Prelude.{
  ok, >>_inv, >>=_inv, reject_inv, ◌≡◌, refl, sym, Bool, true, false, not, ◌||◌, Option, none, some,
  ◌∷◌, arith,
}
use link_forge.Protocol.Bytes.{Bytes}
use link_forge.Protocol.Ip.{is_v4, addr_eq}

pub record IsAccepted (host : Host) (server : Prefix) (seen : Seen) (c : ClientCredential)
    (seen' : Seen) : Type 0 where
  pub id : Bytes
  pub key : Bytes
  pub prefix : Prefix
  pub id_parses : parse_client_id c.client_id ≡ some id
  pub key_resolves : resolve_key host c.psk c.psk_env ≡ ok key
  pub prefix_parses : host.parse_prefix c.tunnel_address ≡ some prefix
  pub new_id : is_one_of (client_id_string id) seen.ids ≡ false
  pub new_key : is_one_of key seen.keys ≡ false
  pub new_ip : is_seen prefix.address seen.ips ≡ false
  pub has_v4 : is_v4 prefix.address ≡ true
  pub within : server.contains prefix.address ≡ true
  pub not_own : addr_eq prefix.address server.address ≡ false
  pub seen_after : seen' ≡ record {
    ids = client_id_string id ∷ seen.ids;
    keys = key ∷ seen.keys;
    ips = prefix.address ∷ seen.ips;
  }

pub or_error_inv :
    {A : Type 0} (e : ConfigError) (o : Option A) {a : A} → or_error e o ≡ ok a → o ≡ some a
or_error_inv e none h = cc
or_error_inv e (some b) h = cc

not_inv : (b : Bool) → not b ≡ false → b ≡ true
not_inv true h = refl
not_inv false h = sym h

validate_parsed_inv :
    (server : Prefix) (seen seen' : Seen) (id_text key : Bytes) (prefix : Prefix)
    → validate_parsed server seen id_text key prefix ≡ ok seen'
    → (not (is_v4 prefix.address) ≡ false)
      × ((not (server.contains prefix.address) || addr_eq prefix.address server.address) ≡ false)
      × (is_seen prefix.address seen.ips ≡ false)
      × (record {
        ids = id_text ∷ seen.ids;
        keys = key ∷ seen.keys;
        ips = prefix.address ∷ seen.ips;
      }
          ≡ seen')
unfolding validate_parsed
validate_parsed_inv server seen seen' id_text key prefix h =
    let ((_, v4_ok), h1) = >>_inv _ _ h in
    let ((_, usable), h2) = >>_inv _ _ h1 in
    let ((_, fresh), h3) = >>_inv _ _ h2 in
    (reject_inv _ _ v4_ok, reject_inv _ _ usable, reject_inv _ _ fresh, cc)

pub validate_credential-IsAccepted :
    (host : Host) (server : Prefix) (seen seen' : Seen) (c : ClientCredential)
    → validate_credential host server seen c ≡ ok seen'
    → IsAccepted host server seen c seen'
unfolding validate_credential
validate_credential-IsAccepted host server seen seen' c h =
    let (id, id_ok, h1) = >>=_inv _ _ h in
    let ((_, id_new), h2) = >>_inv _ _ h1 in
    let (key, key_ok, h3) = >>=_inv _ _ h2 in
    let ((_, key_new), h4) = >>_inv _ _ h3 in
    let (prefix, prefix_ok, h5) = >>=_inv _ _ h4 in
    let (v4_ok, usable, ip_new, same) = validate_parsed_inv server seen seen' _ key prefix h5 in
    let inside : server.contains prefix.address ≡ true = ground arith in
    let foreign : addr_eq prefix.address server.address ≡ false = ground arith in
    record {
      id = id;
      key = key;
      prefix = prefix;
      id_parses = or_error_inv _ _ id_ok;
      key_resolves = key_ok;
      prefix_parses = or_error_inv _ _ prefix_ok;
      new_id = reject_inv _ _ id_new;
      new_key = reject_inv _ _ key_new;
      new_ip = ip_new;
      has_v4 = not_inv _ v4_ok;
      within = inside;
      not_own = foreign;
      seen_after = sym same;
    }
