-- ===== src/Control/Store/Rotated.antt =====
-- What Rotate and Revoke of internal/controlplane/store.go have done where they succeed.
use link_forge.Control.Bucket.{Bolt}
use link_forge.Control.Secret.{StoreError, device_not_found, is_revoked, generate_key, encrypt_psk}
use link_forge.Control.Store.{
  Device, StoredDevice, Store, Tables, or_fail, append_audit, load_device, put_device,
  revoked_device, revoke, rotated_device, rotate, or_fail_inv,
}
use link_forge.Prelude.{
  Result, Option-cases, err, ok, ◌>>=◌, >>=_inv, ◌≡◌, refl, subst, ◌⊎◌, inl, inr, Option, none,
  some, arith,
}
use link_forge.Prelude.Int.{ℤ}
use link_forge.Protocol.Bytes.{Bytes}

rotation_inv :
    {R : Type 0} (first : Result StoreError Bytes) (third : Bytes → Result StoreError Bytes)
    (f : Bytes → Bytes → R) {r : R}
    → (first >>= λ k. third k >>= λ e. ok (f k e)) ≡ ok r
    → (k e : Bytes) × (first ≡ ok k) × (third k ≡ ok e) × (f k e ≡ r)
rotation_inv (ok k) third f {r} h =
    let (e, last, done) = >>=_inv (third k) (λ e. ok (f k e)) {b = r} h in
    let same : f k e ≡ r = cc in (k, e, refl, last, same)
rotation_inv (err e) third f h = cc

module _ {b : Bolt} (s : Store) (key nonce : Option Bytes) (device_id : Bytes) (now : ℤ)
    (t : Tables b) where
  -- The steps of a rotation that succeeds.
  pub record Rotated (r : Device × Bytes × Tables b) : Type 0 where
    pub stored : StoredDevice
    pub encrypted : Bytes
    pub found : b.get t.devices device_id ≡ some stored
    pub active : stored.device.revoked_at ≡ none
    pub keyed : generate_key s.codec key ≡ ok r.1
    pub sealed : encrypt_psk s.codec s.aead nonce device_id r.1 ≡ ok encrypted
    pub given : r.0 ≡ record stored.device { updated_at = now }
    pub activations_same : r.2.activations ≡ t.activations
    pub written :
        r.2.devices
        ≡ b.put_entry t.devices stored.device.client_id
            (record { device = r.0; encrypted_psk = encrypted })

  pub rotate_inv :
      {r : Device × Bytes × Tables b} → rotate s key nonce device_id now t ≡ ok r → Rotated r
  unfolding rotate load_device put_device append_audit
  rotate_inv {r} h =
      let (stored, loaded, rest) =
        >>=_inv (or_fail device_not_found (b.get t.devices device_id))
          (λ stored. elim stored.device.revoked_at [
            | some at ↦ err is_revoked
            | none ↦ generate_key s.codec key >>= λ psk.
                encrypt_psk s.codec s.aead nonce device_id psk >>= λ encrypted.
                ok (rotated_device device_id now t stored psk encrypted)
          ])
          {b = r} h in
      elim (Option-cases stored.device.revoked_at) [
        | inr (at, gone) ↦ ground arith
        | inl active ↦
            let (psk, encrypted, keyed, sealed, same) =
              rotation_inv (generate_key s.codec key) (encrypt_psk s.codec s.aead nonce device_id)
                (rotated_device device_id now t stored) {r = r} (ground arith) in
            subst Rotated same (record {
              stored = stored;
              encrypted = encrypted;
              found = or_fail_inv device_not_found (b.get t.devices device_id) loaded;
              active = active;
              keyed = keyed;
              sealed = sealed;
              given = refl;
              activations_same = refl;
              written = refl;
            })
      ]

module _ {b : Bolt} (device_id : Bytes) (now : ℤ) (t : Tables b) where
  -- A revocation that succeeds found the device, and changes it where it was active.
  pub revoke_inv :
      {r : Device × Tables b}
      → revoke device_id now t ≡ ok r
      → (stored : StoredDevice) × (b.get t.devices device_id ≡ some stored)
        × (((at : ℤ) × (stored.device.revoked_at ≡ some at) × ((stored.device, t) ≡ r))
            ⊎ ((stored.device.revoked_at ≡ none) × (revoked_device device_id now t stored ≡ r)))
  unfolding revoke load_device
  revoke_inv {r} h =
      let (stored, loaded, rest) =
        >>=_inv (or_fail device_not_found (b.get t.devices device_id))
          (λ stored. elim stored.device.revoked_at [
            | some at ↦ ok (stored.device, t)
            | none ↦ ok (revoked_device device_id now t stored)
          ])
          {b = r} h in
      (
        stored,
        or_fail_inv device_not_found (b.get t.devices device_id) loaded,
        elim (Option-cases stored.device.revoked_at) [
          | inr (at, gone) ↦ inl (at, gone, ground arith)
          | inl active ↦ inr (active, ground arith)
        ],
      )
