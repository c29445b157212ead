-- ===== src/Control/Service/Enrollment.antt =====
-- What an enrollment request leaves behind in the store and in the relay.
use Prim.Native.String.{String}
use link_forge.Config.{ClientCredential}
use link_forge.Control.Bucket.{IsEntry, Bolt, get-put_inv}
use link_forge.Control.Limiter.{RateWindow, allow}
use link_forge.Control.Pool.{IsPool}
use link_forge.Control.Secret.{StoreError}
use link_forge.Control.Service.{
  Service, State, profile_of, Answer, fail, Request, EnrollmentRequest, Draws, profile_for,
  enroll_failure, authorize_enrolled, enroll_input, handle_enroll,
}
use link_forge.Control.Store.{
  Device, StoredDevice, Store, Tables, credential_for, append_audit, load_device, put_device,
  revoked_device, revoke, active_credentials,
}
use link_forge.Control.Store.Active.{ok_inv, active_credentials-Lists}
use link_forge.Control.Store.Commands.{IsDraw}
use link_forge.Control.Store.Devices.{IsDevices}
use link_forge.Control.Store.Enrolled.{generated-HasKey, enroll_inv}
use link_forge.Control.Store.Invariant.{enroll-IsDevices}
use link_forge.Control.Store.Users.{record_device, enroll}
use link_forge.Prelude.{
  if◌then◌else◌, Option-cases, ok, Result-cases, ℕ, ◌*◌, ◌^◌, ◌≡◌, refl, sym, ap, subst, ◌∙◌, ◌≢◌,
  ◌⊎◌, inl, inr, Bool, true, false, not, Option, none, some, List, arith,
}
use link_forge.Prelude.Int.{ℤ, pos}
use link_forge.Prelude.Map.{Map}
use link_forge.Prelude.Text.{codes}
use link_forge.Protocol.Bytes.{Bytes, bytes_eq}

none-some : {at : ℤ} → none ≡ some at → ⊥
none-some h = cc

module _ {b : Bolt} where
  -- A device that is active behind was stored, as it is, before.
  abbrev pub AddsNone : Tables b → Tables b → Type 0
  AddsNone t u =
      (k : Bytes) (d : StoredDevice)
      → b.get u.devices k ≡ some d
      → d.device.revoked_at ≡ none
      → b.get t.devices k ≡ some d

  -- An enrolled device that is revoked at once.
  revoke-enroll :
      (s : Store) (id key fresh : Option Bytes) (entered name platform : Bytes) (now later : ℤ)
      (t : Tables b) (r : Device × Bytes × Tables b)
      → enroll s id key fresh entered name platform now t ≡ ok r
      → (x : Device × Tables b) × (revoke r.0.client_id later r.2 ≡ ok x) × AddsNone t x.1
  unfolding record_device append_audit revoke load_device put_device
  revoke-enroll s id key fresh entered name platform now later t r h =
      let e = enroll_inv s id key fresh now t entered name platform {r = r} h in
      let stored : StoredDevice = record { device = r.0; encrypted_psk = e.encrypted } in
      let there : b.get r.2.devices r.0.client_id ≡ some stored =
        ap (λ x. b.get x.devices r.0.client_id) e.written
        ∙ b.get-put_self t.devices r.0.client_id stored in
      let active = e.active in
      let x = revoked_device r.0.client_id later r.2 stored in
      let done : revoke r.0.client_id later r.2 ≡ ok x = ground arith in
      (
        x,
        done,
        λ k d found live.
            elim (get-put_inv b r.2.devices r.0.client_id k (record stored { device = x.0 }) d
              found) [
                | inl (same, entry) ↦
                    absurd (none-some (sym live ∙ ap (λ y. y.device.revoked_at) (sym entry)))
                | inr (n, before) ↦
                    elim (get-put_inv b t.devices r.0.client_id k stored d
                      (ap (λ y. b.get y.devices k) (sym e.written) ∙ before)) [
                        | inl (same, entry) ↦ absurd (n same)
                        | inr (m, old) ↦ old
                      ]
              ],
      )

  enroll-active :
      (s : Store) (id key fresh : Option Bytes) (entered name platform : Bytes) (now : ℤ)
      (t : Tables b) (r : Device × Bytes × Tables b)
      → IsPool s.pool
      → IsDraw key fresh
      → IsDevices b s t.devices
      → enroll s id key fresh entered name platform now t ≡ ok r
      → (cs : List ClientCredential) × (active_credentials s r.2 ≡ ok cs)
        × IsEntry (credential_for r.0 r.1) cs
  unfolding record_device append_audit
  enroll-active s id key fresh entered name platform now t r p drawn v h =
      let e = enroll_inv s id key fresh now t entered name platform {r = r} h in
      let stored : StoredDevice = record { device = r.0; encrypted_psk = e.encrypted } in
      let there : b.get r.2.devices r.0.client_id ≡ some stored =
        ap (λ x. b.get x.devices r.0.client_id) e.written
        ∙ b.get-put_self t.devices r.0.client_id stored in
      let (cs, done, listed, backed) =
        active_credentials-Lists s r.2
          (enroll-IsDevices s id key fresh entered name platform now t r p drawn v h) in
      let (c, i, own) = listed r.0.client_id stored there e.active in
      let same : c.psk ≡ r.1 =
        ok_inv (sym own.1 ∙ generated-HasKey s key fresh r.0.client_id drawn e.keyed e.sealed) in
      (cs, done, subst (λ x. IsEntry x cs) (own.2 ∙ ap (credential_for r.0) same) i)

module _ {b : Bolt} {R : Type 0} (v : Service R) (x : State b R) where
  -- Admitted: the profile is answered, the relay has taken the credential, and the store lists it.
  abbrev pub IsAdmitted : Answer × State b R → Type 0
  IsAdmitted (a, y) =
      (a.status ≡ 201)
      × ((d : Device) × (psk : Bytes) × (a.body ≡ profile_of (profile_for v.settings d psk))
          × (v.hooks.authorize (credential_for d psk) x.relay ≡ some y.relay)
          × ((cs : List ClientCredential) × (active_credentials v.store y.tables ≡ ok cs)
              × IsEntry (credential_for d psk) cs))

  -- Turned away: the relay is as before, and no active device has been added.
  abbrev pub IsTurnedAway : Answer × State b R → Type 0
  IsTurnedAway (a, y) = (a.status ≢ 201) × (y.relay ≡ x.relay) × AddsNone x.tables y.tables

  abbrev pub Outcome : Answer × State b R → Type 0
  Outcome y = IsAdmitted y ⊎ IsTurnedAway y

  authorize_enrolled-Outcome :
      (id key fresh : Option Bytes) (entered name platform : Bytes) (now later : ℤ)
      (windows : Map Bytes RateWindow) (r : Device × Bytes × Tables b)
      → IsPool v.store.pool
      → IsDraw key fresh
      → IsDevices b v.store x.tables.devices
      → enroll v.store id key fresh entered name platform now x.tables ≡ ok r
      → let y = authorize_enrolled v later r.0 r.1 (record x { tables = r.2; windows = windows }) in
        Outcome y
  unfolding authorize_enrolled
  authorize_enrolled-Outcome id key fresh entered name platform now later windows r p drawn valid
        h =
      elim (Option-cases (v.hooks.authorize (credential_for r.0 r.1) x.relay)) [
        | inl refused ↦
            let (z, done, none_added) =
              revoke-enroll v.store id key fresh entered name platform now later x.tables r h in
            let y = record x { tables = r.2; windows = windows } in
            let same : authorize_enrolled v later r.0 r.1 y
                ≡ (fail 500 "device authorization failed", record y { tables = z.1 }) =
              ground arith in
            subst Outcome (sym same) (inr ((λ e. omega (arith, e)), refl, none_added))
        | inr (relay, taken) ↦
            let active =
              enroll-active v.store id key fresh entered name platform now x.tables r p drawn valid
                h in
            let y = record x { tables = r.2; windows = windows } in
            let same : authorize_enrolled v later r.0 r.1 y ≡ (
              record { status = 201; body = profile_of (profile_for v.settings r.0 r.1) },
              record y { relay = relay },
            ) =
              ground arith in
            subst Outcome (sym same) (inl (refl, (r.0, r.1, refl, taken, active)))
      ]

  -- An answer that leaves the store and the relay as they were.
  turned_away :
      (status : ℕ) (text : String) (windows : Map Bytes RateWindow)
      → status ≢ 201
      → Outcome (fail status text, record x { windows = windows })
  turned_away status text windows n = inr (n, refl, λ k d found live. found)

  Outcome-if :
      (c : Bool) (y z : Answer × State b R) → Outcome y → Outcome z → Outcome (if c then y else z)
  Outcome-if true y z f g = f
  Outcome-if false y z f g = g

  enroll_failure-Outcome :
      (e : StoreError) (windows : Map Bytes RateWindow)
      → Outcome (enroll_failure e, record x { windows = windows })
  enroll_failure-Outcome e windows = inr (not_created e, refl, λ k d found live. found)
    where
      not_created : (e : StoreError) → (enroll_failure e).status ≢ 201
      not_created e h = ground arith

  enroll_input-Outcome :
      (w : Draws) (later : ℤ) (input : Option EnrollmentRequest) (windows : Map Bytes RateWindow)
      → IsPool v.store.pool
      → IsDraw w.key w.fresh
      → IsDevices b v.store x.tables.devices
      → Outcome (enroll_input v w later input (record x { windows = windows }))
  unfolding enroll_input enroll profile_for active_credentials
  enroll_input-Outcome w later none windows p drawn valid =
      turned_away 400 "invalid JSON" windows (λ e. omega (arith, e))
  enroll_input-Outcome w later (some i) windows p drawn valid =
      elim (Result-cases
        (enroll v.store w.id w.key w.fresh i.entered i.device_name i.platform w.now x.tables)) [
          | inl (e, failed) ↦ rw failed (enroll_failure-Outcome e windows)
          | inr (r, done) ↦ rw done (
              authorize_enrolled-Outcome w.id w.key w.fresh i.entered i.device_name i.platform w.now
                later windows r p drawn valid done)
        ]

  -- Over valid devices and an accepted pool, with keys and nonces of their lengths, an enrollment
  -- request is answered with a profile exactly where the relay has taken the credential and the
  -- store lists it as active; any other answer leaves the relay as it was and adds no active device.
  pub handle_enroll-Outcome :
      (address : Bytes) (w : Draws) (later : ℤ) (q : Request) (input : Option EnrollmentRequest)
      → IsPool v.store.pool
      → IsDraw w.key w.fresh
      → IsDevices b v.store x.tables.devices
      → Outcome (handle_enroll v address w later q input x)
  unfolding handle_enroll
  handle_enroll-Outcome address w later q input p drawn valid =
      let windows = (allow address 20 (pos (60 * 10 ^ 9)) w.now x.windows).1 in
      Outcome-if (not (bytes_eq q.method (codes "POST"))) _ _
        (turned_away 405 "method not allowed" x.windows (λ e. omega (arith, e)))
        (Outcome-if (not (allow address 20 (pos (60 * 10 ^ 9)) w.now x.windows).0) _ _
          (turned_away 429 "too many enrollment attempts" windows (λ e. omega (arith, e)))
          (enroll_input-Outcome w later input windows p drawn valid))
