-- ===== src/Control/Store/Active.antt =====
-- ActiveCredentials of internal/controlplane/store.go.
use link_forge.Config.{ClientCredential}
use link_forge.Control.Bucket.{IsEntry, Bolt}
use link_forge.Control.Secret.{StoreError, decrypt_psk}
use link_forge.Control.Store.{
  Device, StoredDevice, Store, Tables, credential_for, credentials_of, append_audit, put_device,
  revoked_device, revoke, rotate, active_credentials,
}
use link_forge.Control.Store.Commands.{IsDraw}
use link_forge.Control.Store.Devices.{HasKey, IsDevices}
use link_forge.Control.Store.Enrolled.{generated-HasKey}
use link_forge.Control.Store.Invariant.{rotate-IsDevices, revoke-IsDevices}
use link_forge.Control.Store.Rotated.{rotate_inv, revoke_inv}
use link_forge.Prelude.{
  Result, Option-cases, ok, ◌≡◌, refl, sym, ap, subst, ◌∙◌, ◌≢◌, inl, inr, Option, none, some, List,
  [], ◌∷◌, arith,
}
use link_forge.Prelude.Int.{ℤ}
use link_forge.Protocol.Bytes.{Bytes}

none-some : {at : ℤ} → none ≡ some at → ⊥
none-some h = cc

pub ok_inv : {x y : Bytes} → ◌≡◌ {A = Result StoreError Bytes} (ok x) (ok y) → x ≡ y
ok_inv h = cc

module _ (s : Store) where
  -- A credential is that of a stored device which is not revoked.
  abbrev pub IsOf : Bytes × StoredDevice → ClientCredential → Type 0
  IsOf (k, d) c =
      (d.device.revoked_at ≡ none)
      × (decrypt_psk s.codec s.aead d.device.client_id d.encrypted_psk ≡ ok c.psk)
      × (c ≡ credential_for d.device c.psk)

  -- The credentials are those of the entries that are not revoked.
  abbrev pub Lists : List (Bytes × StoredDevice) → List ClientCredential → Type 0
  Lists es cs =
      ((e : Bytes × StoredDevice)
        → IsEntry e es
        → e.1.device.revoked_at ≡ none
        → (c : ClientCredential) × IsEntry c cs × IsOf e c)
      × ((c : ClientCredential)
          → IsEntry c cs
          → (e : Bytes × StoredDevice) × IsEntry e es × IsOf e c)

  credentials_of-Lists :
      (es : List (Bytes × StoredDevice))
      → ((e : Bytes × StoredDevice)
          → IsEntry e es
          → HasKey s e.1.device.client_id e.1.encrypted_psk)
      → (cs : List ClientCredential) × (credentials_of s es ≡ ok cs) × Lists es cs
  unfolding credentials_of
  credentials_of-Lists [] h = ([], refl, ((λ e i. absurd i), λ c i. absurd i))
  credentials_of-Lists ((k, d) ∷ es) h =
      let (cs, rest, (listed, backed)) = credentials_of-Lists es (λ e i. h e (inr i)) in
      let (psk, key) = h (k, d) (inl refl) in
      let back : (c : ClientCredential)
          → IsEntry c cs
          → (e : Bytes × StoredDevice) × IsEntry e ((k, d) ∷ es) × IsOf e c =
        λ c i. let (e, j, own) = backed c i in (e, inr j, own) in
      elim (Option-cases d.device.revoked_at) [
        | inr (at, gone) ↦ (
          cs,
          ground arith,
          (
            (λ e i active. elim i [
              | inl same ↦
                  absurd
                    (none-some (sym active ∙ ap (λ x. x.1.device.revoked_at) (sym same) ∙ gone))
              | inr later ↦ listed e later active
            ]),
            back,
          ),
        )
        | inl active ↦
            let c = credential_for d.device psk in
            (
              c ∷ cs,
              ground arith,
              (
                (λ e i live. elim i [
                  | inl same ↦ (c, inl refl, subst (λ x. IsOf x c) same (active, key, refl))
                  | inr later ↦ let (c', j, own) = listed e later live in (c', inr j, own)
                ]),
                λ c' i. elim i [
                  | inl same ↦ ((k, d), inl refl, subst (IsOf (k, d)) same (active, key, refl))
                  | inr later ↦ back c' later
                ],
              ),
            )
      ]

module _ {b : Bolt} (s : Store) (t : Tables b) (v : IsDevices b s t.devices) where
  -- For valid devices ActiveCredentials does not fail, and lists exactly the credentials, with their
  -- opened keys, of the stored devices that are not revoked.
  pub active_credentials-Lists :
      (cs : List ClientCredential) × (active_credentials s t ≡ ok cs)
      × ((k : Bytes) (d : StoredDevice)
          → b.get t.devices k ≡ some d
          → d.device.revoked_at ≡ none
          → (c : ClientCredential) × IsEntry c cs × IsOf s (k, d) c)
      × ((c : ClientCredential)
          → IsEntry c cs
          → (d : StoredDevice) × (b.get t.devices c.client_id ≡ some d) × IsOf s (c.client_id, d) c)
  unfolding active_credentials
  active_credentials-Lists =
      let (cs, done, (listed, backed)) = credentials_of-Lists s (b.entries t.devices) (λ e i.
        let found = b.get-entries t.devices e.0 e.1 i in
        subst (λ x. HasKey s x e.1.encrypted_psk) (sym (v.named e.0 e.1 found))
          (v.sealed e.0 e.1 found)) in
      (
        cs,
        done,
        (λ k d found. listed (k, d) (b.entries-get t.devices k d found)),
        λ c i.
            let (e, j, own) = backed c i in
            let found = b.get-entries t.devices e.0 e.1 j in
            let names : e.0 ≡ c.client_id =
              sym (v.named e.0 e.1 found) ∙ ap (λ x. x.client_id) (sym own.2) in
            (e.1, subst (λ x. b.get t.devices x ≡ some e.1) names found, own),
      )

module _ {b : Bolt} (s : Store) (t : Tables b) (v : IsDevices b s t.devices) where
  revoke-revoked_at :
      (id : Bytes) (now : ℤ) (r : Device × Tables b)
      → revoke id now t ≡ ok r
      → (d : StoredDevice) × (b.get r.1.devices id ≡ some d)
        × ((at : ℤ) × (d.device.revoked_at ≡ some at))
  unfolding put_device append_audit
  revoke-revoked_at id now r h =
      let (stored, found, branch) = revoke_inv id now t {r = r} h in
      elim branch [
        | inl (at, gone, same) ↦
            (stored, ap (λ x. b.get x.1.devices id) (sym same) ∙ found, (at, gone))
        | inr (active, same) ↦
            let d : StoredDevice = record stored { device = (revoked_device id now t stored).0 } in
            (
              d,
              ap (λ x. b.get x.1.devices id) (sym same)
                  ∙ ap (b.get (b.put_entry t.devices stored.device.client_id d))
                      (sym (v.named id stored found))
                  ∙ b.get-put_self t.devices stored.device.client_id d,
              (now, refl),
            )
      ]

  -- Behind a revocation of valid devices that succeeds, ActiveCredentials does not fail and has no
  -- credential of the device.
  pub revoke-inactive :
      (id : Bytes) (now : ℤ) (r : Device × Tables b)
      → revoke id now t ≡ ok r
      → (cs : List ClientCredential) × (active_credentials s r.1 ≡ ok cs)
        × ((c : ClientCredential) → IsEntry c cs → c.client_id ≢ id)
  revoke-inactive id now r h =
      let (d, there, (at, gone)) = revoke-revoked_at id now r h in
      let (cs, done, listed, backed) =
        active_credentials-Lists s r.1 (revoke-IsDevices s id now t r v h) in
      (
        cs,
        done,
        λ c i same.
            let (e, found, own) = backed c i in
            let one : some e ≡ some d = sym found ∙ ap (b.get r.1.devices) same ∙ there in
            let entry : e ≡ d = cc in
            none-some (sym own.0 ∙ ap (λ x. x.device.revoked_at) entry ∙ gone),
      )

  -- Behind a rotation of valid devices that succeeds, with a key and a nonce of their lengths,
  -- ActiveCredentials does not fail, and the credential it has for the device holds the key that
  -- the rotation gave.
  pub rotate-active :
      (key fresh : Option Bytes) (id : Bytes) (now : ℤ) (r : Device × Bytes × Tables b)
      → IsDraw key fresh
      → rotate s key fresh id now t ≡ ok r
      → (cs : List ClientCredential) × (active_credentials s r.2 ≡ ok cs)
        × IsEntry (credential_for r.0 r.1) cs
        × ((c : ClientCredential) → IsEntry c cs → c.client_id ≡ id → c.psk ≡ r.1)
  rotate-active key fresh id now r drawn h =
      let e = rotate_inv s key fresh id now t {r = r} h in
      let d : StoredDevice = record { device = r.0; encrypted_psk = e.encrypted } in
      let key_of : decrypt_psk s.codec s.aead id e.encrypted ≡ ok r.1 =
        generated-HasKey s key fresh id drawn e.keyed e.sealed in
      let there : b.get r.2.devices id ≡ some d =
        ap (λ x. b.get x id) e.written
        ∙ ap (b.get (b.put_entry t.devices e.stored.device.client_id d))
            (sym (v.named id e.stored e.found))
        ∙ b.get-put_self t.devices e.stored.device.client_id d in
      let names : r.0.client_id ≡ id =
        ap (λ x. x.client_id) e.given ∙ v.named id e.stored e.found in
      let (cs, done, listed, backed) =
        active_credentials-Lists s r.2 (rotate-IsDevices s key fresh id now t r drawn v h) in
      let of_id : (c : ClientCredential)
          → decrypt_psk s.codec s.aead r.0.client_id e.encrypted ≡ ok c.psk
          → c.psk ≡ r.1 =
        λ c own. ok_inv (
          sym own
          ∙ subst (λ x. decrypt_psk s.codec s.aead x e.encrypted ≡ ok r.1) (sym names) key_of) in
      let (c, i, own) = listed id d there (ap (λ x. x.revoked_at) e.given ∙ e.active) in
      let shown : c ≡ credential_for r.0 r.1 = own.2 ∙ ap (credential_for r.0) (of_id c own.1) in
      (
        cs,
        done,
        subst (λ x. IsEntry x cs) shown i,
        λ c' j same.
            let (f, found, own') = backed c' j in
            let one : some f ≡ some d = sym found ∙ ap (b.get r.2.devices) same ∙ there in
            let entry : f ≡ d = cc in
            of_id c' (
              subst (λ x. decrypt_psk s.codec s.aead x.device.client_id x.encrypted_psk ≡ ok c'.psk)
                entry own'.1),
      )
