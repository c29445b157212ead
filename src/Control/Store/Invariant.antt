-- ===== src/Control/Store/Invariant.antt =====
-- The store's operations keep its devices valid.
use link_forge.Control.Bucket.{Bolt}
use link_forge.Control.Pool.{IsPool}
use link_forge.Control.Store.{
  Device, StoredDevice, Store, Tables, append_audit, load_device, put_device, revoked_device,
  revoke, rotate, touch,
}
use link_forge.Control.Store.Addresses.{allocate_address_inv}
use link_forge.Control.Store.Commands.{
  Command, to_create, to_enroll, to_revoke, to_rotate, to_touch, IsDraw, IsDrawn, run_command,
  run_commands,
}
use link_forge.Control.Store.Devices.{
  HasAddress, IsDevices, put_entry-IsDevices, put_entry-IsDevices_same,
}
use link_forge.Control.Store.Enrolled.{generated-HasKey, enroll_inv, create_activation_inv}
use link_forge.Control.Store.Rotated.{rotate_inv, revoke_inv}
use link_forge.Control.Store.Users.{create_activation, record_device, enroll}
use link_forge.Prelude.{
  Result, Option-cases, All, err, ok, ◌≡◌, refl, sym, ap, subst, ◌∙◌, inl, inr, Option, some, List,
  [], ◌∷◌, arith,
}
use link_forge.Prelude.Int.{ℤ}
use link_forge.Protocol.Bytes.{Bytes}

-- What holds before a transaction and behind one that succeeds holds behind it.
pub committed :
    {E A T : Type 0} (P : T → Type 0) (done : Result E A) (f : A → T) (t : T)
    → P t
    → ((x : A) → done ≡ ok x → P (f x))
    → P (elim done [ err e ↦ t | ok x ↦ f x ])
committed P (err e) f t before behind = before
committed P (ok x) f t before behind = behind x refl

module _ {b : Bolt} (s : Store) where
  pub enroll-IsDevices :
      (id key nonce : Option Bytes) (entered name platform : Bytes) (now : ℤ) (t : Tables b)
      (r : Device × Bytes × Tables b)
      → IsPool s.pool
      → IsDraw key nonce
      → IsDevices b s t.devices
      → enroll s id key nonce entered name platform now t ≡ ok r
      → IsDevices b s r.2.devices
  unfolding record_device append_audit
  enroll-IsDevices id key nonce entered name platform now t r p drawn v h =
      let e = enroll_inv s id key nonce now t entered name platform {r = r} h in
      let (own, apart) = allocate_address_inv b s t p v {a = e.address} e.allocated in
      let stored : StoredDevice = record { device = r.0; encrypted_psk = e.encrypted } in
      subst (λ x. IsDevices b s x.devices) (sym e.written)
        (put_entry-IsDevices b s t.devices stored v (subst (HasAddress s) (sym e.tunnel) own)
          (λ k d g same. absurd (apart k d g (sym e.tunnel ∙ same)))
          (r.1, generated-HasKey s key nonce r.0.client_id drawn e.keyed e.sealed))

  pub rotate-IsDevices :
      (key nonce : Option Bytes) (id : Bytes) (now : ℤ) (t : Tables b)
      (r : Device × Bytes × Tables b)
      → IsDraw key nonce
      → IsDevices b s t.devices
      → rotate s key nonce id now t ≡ ok r
      → IsDevices b s r.2.devices
  rotate-IsDevices key nonce id now t r drawn v h =
      let e = rotate_inv s key nonce id now t {r = r} h in
      let stored : StoredDevice = record { device = r.0; encrypted_psk = e.encrypted } in
      let names : r.0.client_id ≡ e.stored.device.client_id = ap (λ d. d.client_id) e.given in
      subst (IsDevices b s) (ap (λ k. b.put_entry t.devices k stored) names ∙ sym e.written) (
        put_entry-IsDevices_same b s t.devices id e.stored stored v e.found names
          (ap (λ d. d.tunnel_address) e.given)
          (r.1, generated-HasKey s key nonce id drawn e.keyed e.sealed))

  pub revoke-IsDevices :
      (id : Bytes) (now : ℤ) (t : Tables b) (r : Device × Tables b)
      → IsDevices b s t.devices
      → revoke id now t ≡ ok r
      → IsDevices b s r.1.devices
  unfolding put_device append_audit
  revoke-IsDevices id now t r v h =
      let (stored, found, branch) = revoke_inv id now t {r = r} h in
      elim branch [
        | inl (at, gone, same) ↦ subst (λ x. IsDevices b s x.1.devices) same v
        | inr (active, same) ↦
            subst (λ x. IsDevices b s x.1.devices) same
              (put_entry-IsDevices_same b s t.devices id stored
                (record stored { device = (revoked_device id now t stored).0 }) v found refl refl
                (v.sealed id stored found))
      ]

  touch-IsDevices :
      (id : Bytes) (now : ℤ) (t : Tables b)
      → IsDevices b s t.devices
      → IsDevices b s (touch id now t).devices
  unfolding touch load_device put_device
  touch-IsDevices id now t v = elim (Option-cases (b.get t.devices id)) [
    | inl absent ↦
        let same : touch id now t ≡ t = ground arith in
        subst (λ x. IsDevices b s x.devices) (sym same) v
    | inr (stored, found) ↦
        let seen : StoredDevice = record stored {
          device = record stored.device { last_seen_at = some now };
        } in
        let same : touch id now t ≡ put_device seen t = ground arith in
        subst (λ x. IsDevices b s x.devices) (sym same)
          (put_entry-IsDevices_same b s t.devices id stored seen v found refl refl
            (v.sealed id stored found))
  ]

  run_command-IsDevices :
      (c : Command) (t : Tables b)
      → IsPool s.pool
      → IsDrawn c
      → IsDevices b s t.devices
      → IsDevices b s (run_command s c t).devices
  unfolding run_command
  run_command-IsDevices (to_create drawn user name ttl now) t p d v =
      committed (λ x. IsDevices b s x.devices) (create_activation s drawn user name ttl now t)
        (λ r. r.2) t v
        (λ r h.
          subst (IsDevices b s)
            (sym (create_activation_inv s drawn user name ttl now t {r = r} h).devices_same) v)
  run_command-IsDevices (to_enroll id key nonce entered name platform now) t p d v =
      committed (λ x. IsDevices b s x.devices) (enroll s id key nonce entered name platform now t)
        (λ r. r.2) t v (λ r h. enroll-IsDevices id key nonce entered name platform now t r p d v h)
  run_command-IsDevices (to_revoke id now) t p d v =
      committed (λ x. IsDevices b s x.devices) (revoke id now t) (λ r. r.1) t v
        (λ r h. revoke-IsDevices id now t r v h)
  run_command-IsDevices (to_rotate key nonce id now) t p d v =
      committed (λ x. IsDevices b s x.devices) (rotate s key nonce id now t) (λ r. r.2) t v
        (λ r h. rotate-IsDevices key nonce id now t r d v h)
  run_command-IsDevices (to_touch id now) t p d v = touch-IsDevices id now t v

  -- In an accepted pool, whatever commands are run over valid devices, with keys and nonces of their
  -- lengths, the devices stay valid: each has an own usable address and a key that can be opened.
  pub run_commands-IsDevices :
      (cs : List Command) (t : Tables b)
      → IsPool s.pool
      → All IsDrawn cs
      → IsDevices b s t.devices
      → IsDevices b s (run_commands s cs t).devices
  unfolding run_commands
  run_commands-IsDevices [] t p d v = v
  run_commands-IsDevices (c ∷ cs) t p d v =
      run_commands-IsDevices cs (run_command s c t) p d.1 (run_command-IsDevices c t p d.0 v)
