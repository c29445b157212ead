-- ===== src/Control/Store/Devices.antt =====
-- What holds of the stored devices, through the writes of one device.
use mathlib.Core.Path.{subst₂}
use link_forge.Control.Bucket.{Bolt, get-put_inv}
use link_forge.Control.Pool.{is_used, Usable}
use link_forge.Control.Secret.{decrypt_psk}
use link_forge.Control.Store.{StoredDevice, Store}
use link_forge.Prelude.{ok, ℕ, ◌≡◌, sym, ap, subst, ◌∙◌, inl, inr, false, some}
use link_forge.Protocol.Bytes.{Bytes}

abbrev pub HasAddress : Store → Bytes → Type 0
HasAddress s text =
    (a : ℕ) × (text ≡ s.codec.print_prefix a s.pool.bits)
    × Usable s.pool a
    × (is_used s.reserved a ≡ false)

abbrev pub HasKey : Store → Bytes → Bytes → Type 0
HasKey s client_id encrypted =
    (psk : Bytes) × (decrypt_psk s.codec s.aead client_id encrypted ≡ ok psk)

-- Every stored device stands under its own id, has an address of the pool that is neither reserved
-- nor another device's, and a key that is opened with its id.
pub record IsDevices (b : Bolt) (s : Store) (t : b.Bucket StoredDevice) : Type 0 where
  pub named : (k : Bytes) (d : StoredDevice) → b.get t k ≡ some d → d.device.client_id ≡ k
  pub addressed :
      (k : Bytes) (d : StoredDevice) → b.get t k ≡ some d → HasAddress s d.device.tunnel_address
  pub distinct :
      (j k : Bytes) (d e : StoredDevice)
      → b.get t j ≡ some d
      → b.get t k ≡ some e
      → d.device.tunnel_address ≡ e.device.tunnel_address
      → j ≡ k
  pub sealed : (k : Bytes) (d : StoredDevice) → b.get t k ≡ some d → HasKey s k d.encrypted_psk

module _ (b : Bolt) (s : Store) where
  -- Writing a device with an address of its own.
  pub put_entry-IsDevices :
      (t : b.Bucket StoredDevice) (d : StoredDevice)
      → IsDevices b s t
      → HasAddress s d.device.tunnel_address
      → ((k : Bytes) (e : StoredDevice)
          → b.get t k ≡ some e
          → d.device.tunnel_address ≡ e.device.tunnel_address
          → d.device.client_id ≡ k)
      → HasKey s d.device.client_id d.encrypted_psk
      → IsDevices b s (b.put_entry t d.device.client_id d)
  put_entry-IsDevices t d v a own key = record {
    named = λ k e h. elim (get-put_inv b t d.device.client_id k d e h) [
      | inl (p, q) ↦ ap (λ x. x.device.client_id) (sym q) ∙ p
      | inr (p, q) ↦ v.named k e q
    ];
    addressed = λ k e h. elim (get-put_inv b t d.device.client_id k d e h) [
      | inl (p, q) ↦ subst (λ x. HasAddress s x.device.tunnel_address) q a
      | inr (p, q) ↦ v.addressed k e q
    ];
    distinct = λ j k e f h g same. elim (get-put_inv b t d.device.client_id j d e h) [
      | inl (p, q) ↦ elim (get-put_inv b t d.device.client_id k d f g) [
        | inl (p', q') ↦ sym p ∙ p'
        | inr (p', q') ↦ sym p ∙ own k f q' (ap (λ x. x.device.tunnel_address) q ∙ same)
      ]
      | inr (p, q) ↦ elim (get-put_inv b t d.device.client_id k d f g) [
        | inl (p', q') ↦ sym (own j e q (ap (λ x. x.device.tunnel_address) q' ∙ sym same)) ∙ p'
        | inr (p', q') ↦ v.distinct j k e f q q' same
      ]
    ];
    sealed = λ k e h. elim (get-put_inv b t d.device.client_id k d e h) [
      | inl (p, q) ↦ subst₂ (λ x y. HasKey s x y.encrypted_psk) p q key
      | inr (p, q) ↦ v.sealed k e q
    ];
  }

  -- Writing a device again with the id and address it has.
  pub put_entry-IsDevices_same :
      (t : b.Bucket StoredDevice) (k : Bytes) (old d : StoredDevice)
      → IsDevices b s t
      → b.get t k ≡ some old
      → d.device.client_id ≡ old.device.client_id
      → d.device.tunnel_address ≡ old.device.tunnel_address
      → HasKey s k d.encrypted_psk
      → IsDevices b s (b.put_entry t d.device.client_id d)
  put_entry-IsDevices_same t k old d v h id address key =
      let here : d.device.client_id ≡ k = id ∙ v.named k old h in
      put_entry-IsDevices t d v (subst (HasAddress s) (sym address) (v.addressed k old h))
        (λ j e g same. here ∙ v.distinct k j old e h g (sym address ∙ same))
        (subst (λ x. HasKey s x d.encrypted_psk) (sym here) key)
