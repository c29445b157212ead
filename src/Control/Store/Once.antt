-- ===== src/Control/Store/Once.antt =====
-- An activation code enrolls one device.
use link_forge.Control.Bucket.{Bolt, get-put_inv}
use link_forge.Control.Secret.{StoreError, invalid_activation, bad_device_name, bad_platform}
use link_forge.Control.Store.{
  Activation, Device, StoredDevice, Store, Tables, finished_at, prune_entries, prune_activations,
  append_audit, load_device, put_device, revoke, rotate, touch,
}
use link_forge.Control.Store.Commands.{
  Command, to_create, to_enroll, to_revoke, to_rotate, to_touch, run_command, run_commands,
}
use link_forge.Control.Store.Enrolled.{Enrolled, enroll_inv, create_activation_inv}
use link_forge.Control.Store.Invariant.{committed}
use link_forge.Control.Store.Rotated.{rotate_inv, revoke_inv}
use link_forge.Control.Store.Users.{
  code_prefix, kept_activations, create_activation, valid_activation, record_device, enroll_device,
  enroll,
}
use link_forge.Prelude.{
  Result, ltb, ◌==◌, if◌then◌else◌, Bool-cases, Option-cases, length, All, err, ok, ◌*◌, ◌^◌, ◌≡◌,
  refl, sym, ap, subst, ◌∙◌, ◌⊎◌, inl, inr, not, ◌||◌, Option, none, some, List, [], ◌∷◌, ◌++◌,
  arith,
}
use link_forge.Prelude.Int.{ℤ, pos, ◌-ℤ◌, ltb_ℤ}
use link_forge.Prelude.Text.{trim_space, to_lower, has_prefix}
use link_forge.Protocol.Bytes.{Bytes, Bytes-discrete}
use link_forge.Reorder.{new}

none-some : {x : Activation} → none ≡ some x → ⊥
none-some h = cc

-- The answers to a request with a spent code.
pub data IsRefused {A : Type 0} (r : Result StoreError A) : Type 0 where
  is_invalid : r ≡ err invalid_activation → IsRefused r
  is_bad_name : r ≡ err bad_device_name → IsRefused r
  is_bad_platform : r ≡ err bad_platform → IsRefused r

-- A creation whose drawn code has the hash.
abbrev pub Recreates : Store → Bytes → Command → Type 0
Recreates s hash (to_create drawn user name ttl now) =
    (raw : Bytes) × (drawn ≡ some raw)
    × (s.codec.sha256 (code_prefix ++ s.codec.raw_url raw) ≡ hash)
Recreates s hash (to_enroll id key fresh entered name platform now) = ⊥
Recreates s hash (to_revoke id now) = ⊥
Recreates s hash (to_rotate key fresh id now) = ⊥
Recreates s hash (to_touch id now) = ⊥

module _ (b : Bolt) where
  get-remove_inv :
      (t : b.Bucket Activation) (j k : Bytes) (a : Activation)
      → b.get (b.remove t j) k ≡ some a
      → b.get t k ≡ some a
  get-remove_inv t j k a h = elim (Bytes-discrete j k) [
    | no n ↦ sym (b.get-remove_ne t j k n) ∙ h
    | yes e ↦ absurd (none-some (sym (b.get-remove_self t j) ∙ ap (b.get (b.remove t j)) e ∙ h))
  ]

  get-prune_inv :
      (es : List (Bytes × Activation)) (cutoff : ℤ) (t : b.Bucket Activation) (k : Bytes)
      (a : Activation)
      → b.get (prune_entries b es cutoff t) k ≡ some a
      → b.get t k ≡ some a
  unfolding prune_entries
  get-prune_inv [] cutoff t k a h = h
  get-prune_inv ((j, c) ∷ es) cutoff t k a h =
      let before = get-prune_inv es cutoff _ k a h in
      elim (Bool-cases (ltb_ℤ (finished_at c) cutoff)) [
        | inr kept ↦ subst (λ x. b.get (if x then b.remove t j else t) k ≡ some a) kept before
        | inl old ↦
            get-remove_inv t j k a
              (subst (λ x. b.get (if x then b.remove t j else t) k ≡ some a) old before)
      ]

module _ {b : Bolt} where
  -- The activation is gone or has been used.
  pub data IsSpent (hash : Bytes) (t : Tables b) : Type 0 where
    is_gone : b.get t.activations hash ≡ none → IsSpent hash t
    is_used_up :
        (a : Activation) (at : ℤ)
        → b.get t.activations hash ≡ some a
        → a.used_at ≡ some at
        → IsSpent hash t

  valid_activation-IsSpent :
      (hash : Bytes) (now : ℤ) (t : Tables b)
      → IsSpent hash t
      → valid_activation hash now t ≡ err invalid_activation
  unfolding valid_activation
  valid_activation-IsSpent hash now t (is_gone e) = ground arith
  valid_activation-IsSpent hash now t (is_used_up a at e f) = ground arith

  -- A spent activation stays so where its entry stays, is used, or goes.
  IsSpent-keep :
      (hash : Bytes) (t u : Tables b)
      → ((a : Activation)
          → b.get u.activations hash ≡ some a
          → (b.get t.activations hash ≡ some a) ⊎ ((at : ℤ) × (a.used_at ≡ some at)))
      → IsSpent hash t
      → IsSpent hash u
  IsSpent-keep hash t u f old = elim (Option-cases (b.get u.activations hash)) [
    | inl gone ↦ is_gone gone
    | inr (a, found) ↦ elim (f a found) [
      | inr (at, used) ↦ is_used_up a at found used
      | inl before ↦ elim old [
        | is_gone none_here ↦ absurd (none-some (sym none_here ∙ before))
        | is_used_up c at there used ↦
            let same : c ≡ a = some_inv (sym there ∙ before) in
            is_used_up a at found (subst (λ x. x.used_at ≡ some at) same used)
      ]
    ]
  ]
    where
      some_inv : {x y : Activation} → some x ≡ some y → x ≡ y
      some_inv h = cc

  IsSpent-same :
      (hash : Bytes) (t u : Tables b)
      → u.activations ≡ t.activations
      → IsSpent hash t
      → IsSpent hash u
  IsSpent-same hash t u same =
      IsSpent-keep hash t u (λ a h. inl (ap (λ x. b.get x hash) (sym same) ∙ h))

  touch-activations :
      (id : Bytes) (now : ℤ) (t : Tables b) → (touch id now t).activations ≡ t.activations
  unfolding touch load_device put_device
  touch-activations id now t = elim (Option-cases (b.get t.devices id)) [
    | inl absent ↦ let same : touch id now t ≡ t = ground arith in ap (λ x. x.activations) same
    | inr (stored, found) ↦
        let seen : StoredDevice = record stored {
          device = record stored.device { last_seen_at = some now };
        } in
        let same : touch id now t ≡ put_device seen t = ground arith in ap (λ x. x.activations) same
  ]

  enroll_device-IsSpent :
      (s : Store) (id key fresh : Option Bytes) (hash name platform : Bytes) (now : ℤ)
      (t : Tables b)
      → IsSpent hash t
      → enroll_device s id key fresh hash name platform now t ≡ err invalid_activation
  unfolding enroll_device
  enroll_device-IsSpent s id key fresh hash name platform now t spent =
      let refused = valid_activation-IsSpent hash now t spent in ground arith

  enroll-IsSpent :
      (s : Store) (id key fresh : Option Bytes) (entered name platform : Bytes) (now : ℤ)
      (t : Tables b)
      → IsSpent (s.codec.sha256 entered) t
      → IsRefused (enroll s id key fresh entered name platform now t)
  unfolding enroll
  enroll-IsSpent s id key fresh entered name platform now t spent =
      let system = to_lower (trim_space platform) in
      let refused =
        enroll_device-IsSpent s id key fresh (s.codec.sha256 entered) (trim_space name) system now t
          spent in
      elim (Bool-cases (not (has_prefix entered code_prefix) || ltb (length entered) 20)) [
        | inl bad ↦ is_invalid (ground arith)
        | inr fine ↦ elim (Bool-cases (ltb 128 (length (trim_space name)))) [
          | inl long ↦ is_bad_name (ground arith)
          | inr short ↦ elim (Bool-cases (length system == 0 || ltb 32 (length system))) [
            | inl wrong ↦ is_bad_platform (ground arith)
            | inr right ↦ is_invalid (ground arith)
          ]
        ]
      ]

  -- Where the entry of an activation stands behind an enrollment.
  enroll-activations :
      (s : Store) (id key fresh : Option Bytes) (now : ℤ) (t : Tables b)
      {hash name platform : Bytes} {r : Device × Bytes × Tables b}
      (e : Enrolled s id key fresh now t hash name platform r)
      → r.2.activations
        ≡ b.put_entry t.activations hash
            (record e.activation { used_at = some now; used_by = r.0.client_id })
  unfolding record_device append_audit
  enroll-activations s id key fresh now t e = ap (λ x. x.activations) e.written

  enroll_once-IsSpent :
      (s : Store) (id key fresh : Option Bytes) (now : ℤ) (t : Tables b)
      (entered name platform : Bytes) (r : Device × Bytes × Tables b)
      → enroll s id key fresh entered name platform now t ≡ ok r
      → IsSpent (s.codec.sha256 entered) r.2
  enroll_once-IsSpent s id key fresh now t entered name platform r h =
      let e = enroll_inv s id key fresh now t entered name platform {r = r} h in
      let hash = s.codec.sha256 entered in
      let used : Activation = record e.activation { used_at = some now; used_by = r.0.client_id } in
      is_used_up used now
        (ap (λ x. b.get x hash) (enroll-activations s id key fresh now t e)
          ∙ b.get-put_self t.activations hash used)
        refl

  revoke-activations :
      (id : Bytes) (now : ℤ) (t : Tables b) (r : Device × Tables b)
      → revoke id now t ≡ ok r
      → r.1.activations ≡ t.activations
  unfolding put_device append_audit
  revoke-activations id now t r h =
      let (stored, found, branch) = revoke_inv id now t {r = r} h in
      elim branch [
        | inl (at, gone, same) ↦ ap (λ x. x.1.activations) (sym same)
        | inr (active, same) ↦ ap (λ x. x.1.activations) (sym same)
      ]

  prune_lem :
      (t : Tables b) (now : ℤ)
      → kept_activations now t
        ≡ prune_entries b (b.entries t.activations) (now -ℤ pos (24 * 3600 * 10 ^ 9)) t.activations
  unfolding prune_activations
  prune_lem t now = refl

  run_command-IsSpent :
      (s : Store) (hash : Bytes) (c : Command) (t : Tables b)
      → (Recreates s hash c → ⊥)
      → IsSpent hash t
      → IsSpent hash (run_command s c t)
  unfolding run_command
  run_command-IsSpent s hash (to_create drawn user name ttl now) t no_code spent =
      committed (IsSpent hash) (create_activation s drawn user name ttl now t) (λ r. r.2) t spent
        (λ r h.
          let e = create_activation_inv s drawn user name ttl now t {r = r} h in
          IsSpent-keep hash t r.2
            (λ a found.
              elim (get-put_inv b (kept_activations now t) (s.codec.sha256 r.0) hash r.1 a
                (ap (λ x. b.get x hash) (sym e.written) ∙ found)) [
                  | inl (same, new) ↦
                      absurd (no_code (e.raw, e.read, ap s.codec.sha256 e.named ∙ same))
                  | inr (apart, before) ↦ inl (
                      get-prune_inv b (b.entries t.activations) (now -ℤ pos (24 * 3600 * 10 ^ 9))
                        t.activations hash a
                        (subst (λ x. b.get x hash ≡ some a) (prune_lem t now) before))
                ])
            spent)
  run_command-IsSpent s hash (to_enroll id key fresh entered name platform now) t no_code spent =
      committed (IsSpent hash) (enroll s id key fresh entered name platform now t) (λ r. r.2) t
        spent
        (λ r h.
          let e = enroll_inv s id key fresh now t entered name platform {r = r} h in
          IsSpent-keep hash t r.2
            (λ a found.
              elim (get-put_inv b t.activations (s.codec.sha256 entered) hash
                (record e.activation { used_at = some now; used_by = r.0.client_id }) a
                (ap (λ x. b.get x hash) (sym (enroll-activations s id key fresh now t e))
                  ∙ found)) [
                    | inl (same, new) ↦ inr (now, ap (λ x. x.used_at) (sym new))
                    | inr (apart, before) ↦ inl before
                  ])
            spent)
  run_command-IsSpent s hash (to_revoke id now) t no_code spent =
      committed (IsSpent hash) (revoke id now t) (λ r. r.1) t spent
        (λ r h. IsSpent-same hash t r.1 (revoke-activations id now t r h) spent)
  run_command-IsSpent s hash (to_rotate key fresh id now) t no_code spent =
      committed (IsSpent hash) (rotate s key fresh id now t) (λ r. r.2) t spent
        (λ r h.
          IsSpent-same hash t r.2 (rotate_inv s key fresh id now t {r = r} h).activations_same
            spent)
  run_command-IsSpent s hash (to_touch id now) t no_code spent =
      IsSpent-same hash t (touch id now t) (touch-activations id now t) spent

  run_commands-IsSpent :
      (s : Store) (hash : Bytes) (cs : List Command) (t : Tables b)
      → All (λ c. Recreates s hash c → ⊥) cs
      → IsSpent hash t
      → IsSpent hash (run_commands s cs t)
  unfolding run_commands
  run_commands-IsSpent s hash [] t h spent = spent
  run_commands-IsSpent s hash (c ∷ cs) t h spent =
      run_commands-IsSpent s hash cs (run_command s c t) h.1
        (run_command-IsSpent s hash c t h.0 spent)

  -- A code that has enrolled a device is refused from then on, whatever is run in between, unless
  -- an activation is created whose code has the same hash.
  pub enroll_once :
      (s : Store) (id key fresh : Option Bytes) (entered name platform : Bytes) (now : ℤ)
      (t : Tables b) (r : Device × Bytes × Tables b) (cs : List Command)
      (id' key' fresh' : Option Bytes) (name' platform' : Bytes) (later : ℤ)
      → enroll s id key fresh entered name platform now t ≡ ok r
      → All (λ c. Recreates s (s.codec.sha256 entered) c → ⊥) cs
      → IsRefused (enroll s id' key' fresh' entered name' platform' later (run_commands s cs r.2))
  enroll_once s id key fresh entered name platform now t r cs id' key' fresh' name' platform' later
        h other_codes =
      enroll-IsSpent s id' key' fresh' entered name' platform' later (run_commands s cs r.2) (
        run_commands-IsSpent s (s.codec.sha256 entered) cs r.2 other_codes
          (enroll_once-IsSpent s id key fresh now t entered name platform r h))
