-- ===== src/Control/Store.antt =====
-- The records and transactions of internal/controlplane/store.go. A transaction that fails is
-- rolled back, so an operation gives its error or the buckets it commits. Instants are nanoseconds
-- since the epoch; the bytes that rand.Read fills are arguments. A bucket holds the records whose
-- JSON the source stores.
pub mod Users
pub mod Opening
pub mod Active
pub mod Once
pub mod Invariant
pub mod Rotated
pub mod Commands
pub mod Enrolled
pub mod Addresses
pub mod Devices
use link_forge.Config.{ClientCredential}
use link_forge.Control.Bucket.{Bolt}
use link_forge.Control.Pool.{Pool, size, allocate}
use link_forge.Control.Secret.{
  Codec, StoreError, device_not_found, pool_exhausted, bad_device_address, is_revoked, bad_schema,
  bad_master_key, bad_tunnel_pool, generate_key, encrypt_psk, decrypt_psk,
}
use link_forge.Engine.Startup.{prefix_address}
use link_forge.Prelude.{
  Result, ltb, ◌==◌, if◌then◌else◌, length, err, ok, ◌>>◌, ◌>>=◌, reject, ℕ, ◌*◌, ◌/◌, ◌≡◌, refl,
  ap, Bool, not, ◌||◌, Option, none, some, List, [], ◌∷◌, map,
}
use link_forge.Prelude.Int.{ℤ, ltb_ℤ}
use link_forge.Prelude.Text.{codes}
use link_forge.Protocol.Aead.{Aead}
use link_forge.Protocol.Bytes.{Bytes, bytes_eq, put_uint}

pub record Activation : Type 0 where
  pub user_id : Bytes
  pub device_name : Bytes
  pub created_at : ℤ
  pub expires_at : ℤ
  pub used_at : Option ℤ
  pub used_by : Bytes

-- Its field EncryptedPSK, which JSON leaves out, is never set.
pub record Device : Type 0 where
  pub client_id : Bytes
  pub user_id : Bytes
  pub name : Bytes
  pub platform : Bytes
  pub tunnel_address : Bytes
  pub created_at : ℤ
  pub updated_at : ℤ
  pub last_seen_at : Option ℤ
  pub revoked_at : Option ℤ

pub record StoredDevice : Type 0 where
  pub device : Device
  pub encrypted_psk : Bytes

pub record AuditEvent : Type 0 where
  pub event : Bytes
  pub subject_id : Bytes
  pub user_id : Bytes
  pub timestamp : ℤ

-- The reserved addresses are those of IPv4: no other one can be in the pool.
pub record Store : Type 0 where
  pub codec : Codec
  pub aead : Aead
  pub pool : Pool
  pub reserved : List ℕ

-- The version in the meta bucket, and the other buckets.
pub record Tables (b : Bolt) : Type 0 where
  pub schema : Option Bytes
  pub activations : b.Bucket Activation
  pub devices : b.Bucket StoredDevice
  pub audit : b.Bucket AuditEvent

abbrev pub schema_version : Bytes
schema_version = codes "1"

-- `if value == nil { return e }`
abbrev pub or_fail : {A : Type 0} → StoreError → Option A → Result StoreError A
or_fail e none = err e
or_fail e (some a) = ok a

-- With the prefix masked.
abbrev pub opened_store : Codec → Aead → Pool → List ℕ → Store
opened_store c aead p reserved = record {
  codec = c;
  aead = aead;
  pool = record p { base = p.base / size p * size p };
  reserved = reserved;
}

-- The prefix that OpenStore is given, before it is masked.
unfoldable pub open_store : Codec → Aead → Bytes → Bool → Pool → List ℕ → Result StoreError Store
open_store c aead master_key is_v4_pool p reserved =
    reject (not (length master_key == 32)) bad_master_key
    >> reject (not is_v4_pool || ltb p.bits 16 || ltb 30 p.bits) bad_tunnel_pool
    >> ok (opened_store c aead p reserved)

abbrev pub finished_at : Activation → ℤ
finished_at a = elim a.used_at [ none ↦ a.expires_at | some used ↦ used ]

unfoldable pub used_addresses :
    Codec → List (Bytes × StoredDevice) → List ℕ → Result StoreError (List ℕ)
used_addresses c [] used = ok used
used_addresses c ((k, s) ∷ es) used =
    or_fail bad_device_address (c.prefix_address s.device.tunnel_address) >>= λ a.
    used_addresses c es (a ∷ used)

-- credentialFor of service.go, which ActiveCredentials writes out
abbrev pub credential_for : Device → Bytes → ClientCredential
credential_for d psk = record {
  name = d.name;
  client_id = d.client_id;
  psk = psk;
  psk_env = [];
  tunnel_address = d.tunnel_address;
}

unfoldable pub credentials_of :
    Store → List (Bytes × StoredDevice) → Result StoreError (List ClientCredential)
credentials_of s [] = ok []
credentials_of s ((k, d) ∷ es) =
    let rest = credentials_of s es in
    elim d.device.revoked_at [
      | some at ↦ rest
      | none ↦ decrypt_psk s.codec s.aead d.device.client_id d.encrypted_psk >>= λ psk.
          rest >>= λ credentials. ok (credential_for d.device psk ∷ credentials)
    ]

module _ (b : Bolt) where
  unfoldable pub prune_entries :
      List (Bytes × Activation) → ℤ → b.Bucket Activation → b.Bucket Activation
  prune_entries [] cutoff t = t
  prune_entries ((k, a) ∷ es) cutoff t =
      let left = if ltb_ℤ (finished_at a) cutoff then b.remove t k else t in
      prune_entries es cutoff left

  unfoldable pub prune_activations : b.Bucket Activation → ℤ → b.Bucket Activation
  prune_activations t cutoff = prune_entries (b.entries t) cutoff t

module _ {b : Bolt} where
  unfoldable pub initialize : Tables b → Result StoreError (Tables b)
  initialize t = elim t.schema [
    | none ↦ ok (record t { schema = some schema_version })
    | some found ↦ reject (not (bytes_eq found schema_version)) bad_schema >> ok t
  ]

  unfoldable pub append_audit : AuditEvent → Tables b → Tables b
  append_audit e t =
      let (sequence, audit) = b.next_sequence t.audit in
      record t { audit = b.put_entry audit (put_uint 8 sequence) e }

  unfoldable pub load_device : Tables b → Bytes → Result StoreError StoredDevice
  load_device t client_id = or_fail device_not_found (b.get t.devices client_id)

  unfoldable pub put_device : StoredDevice → Tables b → Tables b
  put_device s t = record t { devices = b.put_entry t.devices s.device.client_id s }

  unfoldable pub allocate_address : Store → Tables b → Result StoreError ℕ
  allocate_address s t = used_addresses s.codec (b.entries t.devices) s.reserved >>= λ used.
      or_fail pool_exhausted (allocate s.pool used)

  -- What Revoke writes and gives for a device that is not revoked yet.
  abbrev pub revoked_device : (client_id : Bytes) → ℤ → Tables b → StoredDevice → Device × Tables b
  revoked_device client_id now t stored =
      let device = record stored.device { revoked_at = some now; updated_at = now } in
      (
        device,
        append_audit
            (record {
              event = codes "device.revoked";
              subject_id = client_id;
              user_id = device.user_id;
              timestamp = now;
            })
            (put_device (record stored { device = device }) t),
      )

  unfoldable pub revoke : Bytes → ℤ → Tables b → Result StoreError (Device × Tables b)
  revoke client_id now t = load_device t client_id >>= λ stored. elim stored.device.revoked_at [
    | some at ↦ ok (stored.device, t)
    | none ↦ ok (revoked_device client_id now t stored)
  ]

  -- What Rotate writes and gives behind its checks and draws.
  abbrev pub rotated_device :
      (client_id : Bytes)
      → ℤ
      → Tables b
      → StoredDevice
      → (psk encrypted : Bytes) → Device × Bytes × Tables b
  rotated_device client_id now t stored psk encrypted =
      let device = record stored.device { updated_at = now } in
      (
        device,
        psk,
        append_audit
            (record {
              event = codes "device.key_rotated";
              subject_id = client_id;
              user_id = device.user_id;
              timestamp = now;
            })
            (put_device (record { device = device; encrypted_psk = encrypted }) t),
      )

  unfoldable pub rotate :
      Store
      → (key nonce : Option Bytes) → Bytes
      → ℤ
      → Tables b
      → Result StoreError (Device × Bytes × Tables b)
  rotate s key nonce client_id now t = load_device t client_id >>= λ stored.
      elim stored.device.revoked_at [
        | some at ↦ err is_revoked
        | none ↦ generate_key s.codec key >>= λ psk.
            encrypt_psk s.codec s.aead nonce client_id psk >>= λ encrypted_psk.
            ok (rotated_device client_id now t stored psk encrypted_psk)
      ]

  unfoldable pub touch : Bytes → ℤ → Tables b → Tables b
  touch client_id now t = elim (load_device t client_id) [
    | err e ↦ t
    | ok stored ↦
        put_device (record stored { device = record stored.device { last_seen_at = some now } }) t
  ]

  unfoldable pub active_credentials : Store → Tables b → Result StoreError (List ClientCredential)
  active_credentials s t = credentials_of s (b.entries t.devices)

  unfoldable pub list_devices : Tables b → List Device
  list_devices t = map (λ e. e.1.device) (b.entries t.devices)

pub or_fail_inv :
    {A : Type 0} (e : StoreError) (found : Option A) {a : A}
    → or_fail e found ≡ ok a
    → found ≡ some a
or_fail_inv e none h = cc
or_fail_inv e (some x) {a} h = let same : x ≡ a = cc in ap some same

pub or_fail-error :
    {A : Type 0} (e : StoreError) (found : Option A) {f : StoreError}
    → or_fail e found ≡ err f
    → (found ≡ none) × (f ≡ e)
or_fail-error e none {f} h = let same : f ≡ e = cc in (refl, same)
or_fail-error e (some a) h = cc
