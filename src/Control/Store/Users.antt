-- ===== src/Control/Store/Users.antt =====
-- CreateActivation and Enroll of internal/controlplane/store.go.
use Prim.Native.Char.{code}
use link_forge.Config.{or_text}
use link_forge.Control.Bucket.{Bolt}
use link_forge.Control.Secret.{
  StoreError, invalid_activation, bad_user, bad_device_name, bad_ttl, bad_platform,
  activation_collision, read_random, generate_key, generate_client_id, encrypt_psk,
}
use link_forge.Control.Store.{
  Activation, Device, StoredDevice, Store, Tables, or_fail, prune_activations, append_audit,
  allocate_address,
}
use link_forge.Prelude.{
  Result, ltb, ◌==◌, length, err, ok, ◌>>◌, ◌>>=◌, reject, ℕ, ◌*◌, ◌^◌, not, ◌||◌, Option, none,
  some, [], ◌++◌,
}
use link_forge.Prelude.Int.{ℤ, pos, ◌+ℤ◌, ◌-ℤ◌, ltb_ℤ}
use link_forge.Prelude.Text.{codes, trim_space, to_lower, has_prefix}
use link_forge.Protocol.Bytes.{Bytes}

-- The first bytes of every activation code.
abbrev pub code_prefix : Bytes
code_prefix = codes "lf_"

module _ {b : Bolt} where
  -- The activations that CreateActivation keeps.
  abbrev pub kept_activations : ℤ → Tables b → b.Bucket Activation
  kept_activations now t = prune_activations b t.activations (now -ℤ pos (24 * 3600 * 10 ^ 9))

  -- What CreateActivation writes and gives for a code that is new.
  abbrev pub created_activation :
      Store
      → (text user_id device_name : Bytes) → (ttl now : ℤ) → Tables b
      → Bytes × Activation × Tables b
  created_activation s text user_id device_name ttl now t =
      let activation : Activation = record {
        user_id = user_id;
        device_name = device_name;
        created_at = now;
        expires_at = now +ℤ ttl;
        used_at = none;
        used_by = [];
      } in
      (
        text,
        activation,
        append_audit
            (record {
              event = codes "activation.created";
              subject_id = [];
              user_id = user_id;
              timestamp = now;
            })
            (record t {
              activations = b.put_entry (kept_activations now t) (s.codec.sha256 text) activation;
            }),
      )

  -- The transaction of CreateActivation, for the code made of the drawn bytes.
  unfoldable pub store_activation :
      Store
      → (raw user_id device_name : Bytes) → (ttl now : ℤ) → Tables b
      → Result StoreError (Bytes × Activation × Tables b)
  store_activation s raw user_id device_name ttl now t =
      let text = code_prefix ++ s.codec.raw_url raw in
      elim (b.get (kept_activations now t) (s.codec.sha256 text)) [
        | some taken ↦ err activation_collision
        | none ↦ ok (created_activation s text user_id device_name ttl now t)
      ]

  unfoldable pub create_activation :
      Store
      → Option Bytes
      → (user_id device_name : Bytes) → (ttl now : ℤ) → Tables b
      → Result StoreError (Bytes × Activation × Tables b)
  create_activation s drawn user_id device_name ttl now t =
      let user = trim_space user_id in
      let name = trim_space device_name in
      reject (length user == 0 || ltb 128 (length user)) bad_user
      >> reject (length name == 0 || ltb 128 (length name)) bad_device_name
      >> reject (ltb_ℤ ttl (pos (60 * 10 ^ 9)) || ltb_ℤ (pos (24 * 3600 * 10 ^ 9)) ttl) bad_ttl
      >> (read_random drawn >>= λ raw. store_activation s raw user name ttl now t)

  -- The activation of a code that can still be used.
  unfoldable pub valid_activation : Bytes → ℤ → Tables b → Result StoreError Activation
  valid_activation hash now t =
      or_fail invalid_activation (b.get t.activations hash) >>= λ activation.
      elim activation.used_at [
        | some used ↦ err invalid_activation
        | none ↦ reject (not (ltb_ℤ now activation.expires_at)) invalid_activation >> ok activation
      ]

  -- The records that Enroll writes behind its checks and draws.
  unfoldable pub record_device :
      (hash : Bytes) → Activation → StoredDevice → ℤ → Tables b → Tables b
  record_device hash activation stored now t =
      let client_id = stored.device.client_id in
      append_audit
        (record {
          event = codes "device.enrolled";
          subject_id = client_id;
          user_id = activation.user_id;
          timestamp = now;
        })
        (record t {
          devices = b.put_entry t.devices client_id stored;
          activations =
              b.put_entry t.activations hash
                (record activation { used_at = some now; used_by = client_id });
        })

  abbrev pub enrolled_device :
      Store
      → (hash name platform : Bytes) → ℤ
      → Tables b
      → Activation
      → (client_id psk : Bytes) → ℕ
      → Bytes
      → Device × Bytes × Tables b
  enrolled_device s hash name platform now t activation client_id psk address encrypted =
      let device : Device = record {
        client_id = client_id;
        user_id = activation.user_id;
        name = or_text name activation.device_name;
        platform = platform;
        tunnel_address = s.codec.print_prefix address s.pool.bits;
        created_at = now;
        updated_at = now;
        last_seen_at = none;
        revoked_at = none;
      } in
      (
        device,
        psk,
        record_device hash activation (record { device = device; encrypted_psk = encrypted }) now t,
      )

  -- The transaction of Enroll. The drawn bytes are the id, the key and the nonce.
  unfoldable pub enroll_device :
      Store
      → (id key nonce : Option Bytes) → (hash name platform : Bytes) → ℤ
      → Tables b
      → Result StoreError (Device × Bytes × Tables b)
  enroll_device s id key nonce hash name platform now t =
      valid_activation hash now t >>= λ activation. generate_client_id id >>= λ client_id.
      generate_key s.codec key >>= λ psk. allocate_address s t >>= λ address.
      encrypt_psk s.codec s.aead nonce client_id psk >>= λ encrypted_psk.
      ok (enrolled_device s hash name platform now t activation client_id psk address encrypted_psk)

  unfoldable pub enroll :
      Store
      → (id key nonce : Option Bytes) → (code requested_name platform : Bytes) → ℤ
      → Tables b
      → Result StoreError (Device × Bytes × Tables b)
  enroll s id key nonce code requested_name platform now t =
      let name = trim_space requested_name in
      let system = to_lower (trim_space platform) in
      reject (not (has_prefix code code_prefix) || ltb (length code) 20) invalid_activation
      >> reject (ltb 128 (length name)) bad_device_name
      >> reject (length system == 0 || ltb 32 (length system)) bad_platform
      >> enroll_device s id key nonce (s.codec.sha256 code) name system now t
