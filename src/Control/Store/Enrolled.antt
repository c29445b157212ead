-- ===== src/Control/Store/Enrolled.antt =====
-- What Enroll and Rotate of internal/controlplane/store.go have done where they succeed.
use link_forge.Config.Host.{parse_key}
use link_forge.Control.Bucket.{Bolt}
use link_forge.Control.Secret.{
  StoreError, read_random, generate_key, generate_client_id, encrypt_psk, decrypt_psk,
  parse_key-std, decrypt_psk-sealed,
}
use link_forge.Control.Store.{Activation, Device, Store, Tables, append_audit, allocate_address}
use link_forge.Control.Store.Commands.{IsDraw}
use link_forge.Control.Store.Users.{
  code_prefix, kept_activations, created_activation, store_activation, create_activation,
  valid_activation, record_device, enrolled_device, enroll_device, enroll,
}
use link_forge.Prelude.{
  Result, Option-cases, err, ok, ◌>>=◌, >>=_inv, ℕ, ◌≡◌, refl, subst, inl, inr, Option, none, some,
  ◌++◌, arith,
}
use link_forge.Prelude.Int.{ℤ}
use link_forge.Prelude.Text.{trim_space, to_lower}
use link_forge.Protocol.Bytes.{Bytes}
use link_forge.Protocol.Hello.{second}

-- What a drawn key is, sealed for a client.
pub generated-HasKey :
    (s : Store) (key nonce : Option Bytes) (client_id : Bytes) {psk encrypted : Bytes}
    → IsDraw key nonce
    → generate_key s.codec key ≡ ok psk
    → encrypt_psk s.codec s.aead nonce client_id psk ≡ ok encrypted
    → decrypt_psk s.codec s.aead client_id encrypted ≡ ok psk
unfolding generate_key encrypt_psk
generated-HasKey s none _ client_id (d, e) h k = cc
generated-HasKey s (some key) none client_id (d, e) h k = cc
generated-HasKey s (some key) (some nonce) client_id {psk} {encrypted} (d, e) h k =
    let drawn : s.codec.std key ≡ psk = cc in
    let sealed : s.codec.raw_std (nonce ++ s.aead.seal_bytes nonce psk client_id) ≡ encrypted =
      cc in
    subst (λ x. decrypt_psk s.codec s.aead client_id x ≡ ok psk) sealed
      (decrypt_psk-sealed s.codec s.aead nonce client_id psk key (e nonce refl) (
        subst (λ x. parse_key s.codec.host x ≡ some key) drawn
          (parse_key-std s.codec key (d key refl))))

-- The results of the calls of Enroll, where it succeeds.
calls_inv :
    {R : Type 0} (first : Result StoreError Activation) (second third : Result StoreError Bytes)
    (fourth : Result StoreError ℕ) (fifth : Bytes → Bytes → Result StoreError Bytes)
    (f : Activation → Bytes → Bytes → ℕ → Bytes → R) {r : R}
    → (first >>= λ a.
        second >>= λ i. third >>= λ k. fourth >>= λ n. fifth i k >>= λ e. ok (f a i k n e))
      ≡ ok r
    → (a : Activation) × (i k : Bytes) × (n : ℕ) × (e : Bytes) × (first ≡ ok a)
      × (second ≡ ok i)
      × (third ≡ ok k)
      × (fourth ≡ ok n)
      × (fifth i k ≡ ok e)
      × (f a i k n e ≡ r)
calls_inv (ok a) (ok i) (ok k) (ok n) fifth f {r} h =
    let (e, last, done) = >>=_inv (fifth i k) (λ e. ok (f a i k n e)) {b = r} h in
    let same : f a i k n e ≡ r = cc in (a, i, k, n, e, refl, refl, refl, refl, last, same)
calls_inv (err e) second third fourth fifth f h = cc
calls_inv (ok a) (err e) third fourth fifth f h = cc
calls_inv (ok a) (ok i) (err e) fourth fifth f h = cc
calls_inv (ok a) (ok i) (ok k) (err e) fifth f h = cc

module _ {b : Bolt} (s : Store) (id key nonce : Option Bytes) (now : ℤ) (t : Tables b) where
  -- The steps of an enrollment that succeeds.
  pub record Enrolled (hash name platform : Bytes) (r : Device × Bytes × Tables b) : Type 0 where
    pub activation : Activation
    pub address : ℕ
    pub encrypted : Bytes
    pub usable : valid_activation hash now t ≡ ok activation
    pub allocated : allocate_address s t ≡ ok address
    pub drawn : generate_client_id id ≡ ok r.0.client_id
    pub keyed : generate_key s.codec key ≡ ok r.1
    pub sealed : encrypt_psk s.codec s.aead nonce r.0.client_id r.1 ≡ ok encrypted
    pub tunnel : r.0.tunnel_address ≡ s.codec.print_prefix address s.pool.bits
    pub active : r.0.revoked_at ≡ none
    pub written :
        r.2
        ≡ record_device hash activation (record { device = r.0; encrypted_psk = encrypted }) now t

  enroll_device_inv :
      (hash name platform : Bytes) {r : Device × Bytes × Tables b}
      → enroll_device s id key nonce hash name platform now t ≡ ok r
      → Enrolled hash name platform r
  unfolding enroll_device
  enroll_device_inv hash name platform {r} h =
      let (
        activation, client_id, psk, address, encrypted, usable, drawn, keyed, allocated, sealed,
        same,
      ) =
        calls_inv (valid_activation hash now t) (generate_client_id id) (generate_key s.codec key)
          (allocate_address s t) (encrypt_psk s.codec s.aead nonce)
          (enrolled_device s hash name platform now t) {r = r} h in
      subst (Enrolled hash name platform) same (record {
        activation = activation;
        address = address;
        encrypted = encrypted;
        usable = usable;
        allocated = allocated;
        drawn = drawn;
        keyed = keyed;
        sealed = sealed;
        tunnel = refl;
        active = refl;
        written = refl;
      })

  pub enroll_inv :
      (entered requested_name platform : Bytes) {r : Device × Bytes × Tables b}
      → enroll s id key nonce entered requested_name platform now t ≡ ok r
      → Enrolled
          (s.codec.sha256 entered)
          (trim_space requested_name)
          (to_lower (trim_space platform))
          r
  unfolding enroll
  enroll_inv entered requested_name platform {r} h =
      enroll_device_inv (s.codec.sha256 entered) (trim_space requested_name)
        (to_lower (trim_space platform)) {r = r} (ground arith)

module _ {b : Bolt} (s : Store) (drawn : Option Bytes) (user name : Bytes) (ttl now : ℤ)
    (t : Tables b) where
  -- What CreateActivation has done where it succeeds.
  pub record Created (r : Bytes × Activation × Tables b) : Type 0 where
    pub raw : Bytes
    pub read : drawn ≡ some raw
    pub named : code_prefix ++ s.codec.raw_url raw ≡ r.0
    pub vacant : b.get (kept_activations now t) (s.codec.sha256 r.0) ≡ none
    pub unused : r.1.used_at ≡ none
    pub devices_same : r.2.devices ≡ t.devices
    pub written : r.2.activations ≡ b.put_entry (kept_activations now t) (s.codec.sha256 r.0) r.1

  store_activation_inv :
      (raw user_id device_name : Bytes) {r : Bytes × Activation × Tables b}
      → drawn ≡ some raw
      → store_activation s raw user_id device_name ttl now t ≡ ok r
      → Created r
  unfolding store_activation append_audit
  store_activation_inv raw user_id device_name {r} e h =
      let text : Bytes = code_prefix ++ s.codec.raw_url raw in
      elim (Option-cases (b.get (kept_activations now t) (s.codec.sha256 text))) [
        | inr (taken, found) ↦ ground arith
        | inl vacant ↦
            let same : created_activation s text user_id device_name ttl now t ≡ r = ground arith in
            subst Created same (record {
              raw = raw;
              read = e;
              named = refl;
              vacant = vacant;
              unused = refl;
              devices_same = refl;
              written = refl;
            })
      ]

  pub create_activation_inv :
      {r : Bytes × Activation × Tables b}
      → create_activation s drawn user name ttl now t ≡ ok r
      → Created r
  unfolding create_activation
  create_activation_inv {r} h =
      let (raw, read, rest) =
        >>=_inv (read_random drawn)
          (λ raw. store_activation s raw (trim_space user) (trim_space name) ttl now t) {b = r}
          (ground arith) in
      store_activation_inv raw (trim_space user) (trim_space name) (ground arith) rest
