-- ===== src/Control/Store/Addresses.antt =====
-- allocateAddress of internal/controlplane/store.go against the stored devices.
use link_forge.Control.Bucket.{IsEntry, Bolt}
use link_forge.Control.Pool.{size, is_used, allocate, IsPool, first_free-some, allocate-least}
use link_forge.Control.Secret.{Codec, StoreError, pool_exhausted, bad_device_address}
use link_forge.Control.Store.{
  StoredDevice, Store, Tables, or_fail, used_addresses, allocate_address, or_fail_inv,
  or_fail-error,
}
use link_forge.Control.Store.Devices.{HasAddress, IsDevices}
use link_forge.Prelude.{
  err, ok, ◌>>=◌, >>=_inv, ℕ, ◌+◌, ◌<◌, ◌≡◌, refl, sym, ap, subst, ◌∙◌, ◌≢◌, ◌⊎◌, inl, inr, Bool,
  true, false, none, some, List, [], ◌∷◌, arith, ℕ_discrete,
}
use link_forge.Protocol.Bytes.{Bytes}

true-false : true ≡ false → ⊥
true-false h = ground arith

used_addresses-is_used :
    (c : Codec) (es : List (Bytes × StoredDevice)) (used us : List ℕ) (a : ℕ)
    → used_addresses c es used ≡ ok us
    → is_used used a ≡ true
    → is_used us a ≡ true
unfolding used_addresses is_used
used_addresses-is_used c [] used us a h u =
    let same : used ≡ us = cc in subst (λ x. is_used x a ≡ true) same u
used_addresses-is_used c ((k, s) ∷ es) used us a h u =
    let (x, read, rest) =
      >>=_inv (or_fail bad_device_address (c.prefix_address s.device.tunnel_address))
        (λ x. used_addresses c es (x ∷ used)) h in
    used_addresses-is_used c es (x ∷ used) us a rest (ground arith)

-- What used_addresses adds to the reserved addresses are addresses of devices.
used_addresses-is_used_inv :
    (c : Codec) (es : List (Bytes × StoredDevice)) (used us : List ℕ) (a : ℕ)
    → used_addresses c es used ≡ ok us
    → is_used us a ≡ true
    → (is_used used a ≡ true)
      ⊎ ((k : Bytes) × (d : StoredDevice) × IsEntry (k, d) es
          × (c.prefix_address d.device.tunnel_address ≡ some a))
unfolding used_addresses is_used
used_addresses-is_used_inv c [] used us a h u =
    let same : us ≡ used = cc in inl (subst (λ x. is_used x a ≡ true) same u)
used_addresses-is_used_inv c ((k, s) ∷ es) used us a h u =
    let (x, read, rest) =
      >>=_inv (or_fail bad_device_address (c.prefix_address s.device.tunnel_address))
        (λ x. used_addresses c es (x ∷ used)) h in
    elim (used_addresses-is_used_inv c es (x ∷ used) us a rest u) [
      | inr (j, d, e, p) ↦ inr (j, d, inr e, p)
      | inl taken ↦ elim (ℕ_discrete x a) [
        | yes same ↦ inr (
          k,
          s,
          inl refl,
          or_fail_inv bad_device_address (c.prefix_address s.device.tunnel_address) read
              ∙ ap some same,
        )
        | no other ↦ inl (ground arith)
      ]
    ]

is_used-IsEntry : (us : List ℕ) (a : ℕ) → is_used us a ≡ true → IsEntry a us
unfolding is_used
is_used-IsEntry [] a h = absurd (true-false (sym h))
is_used-IsEntry (u ∷ us) a h = elim (ℕ_discrete u a) [
  | yes same ↦ inl same
  | no other ↦ inr (is_used-IsEntry us a (ground arith))
]

used_addresses-entry :
    (c : Codec) (es : List (Bytes × StoredDevice)) (used us : List ℕ) (a : ℕ) (k : Bytes)
    (d : StoredDevice)
    → used_addresses c es used ≡ ok us
    → IsEntry (k, d) es
    → c.prefix_address d.device.tunnel_address ≡ some a
    → is_used us a ≡ true
unfolding used_addresses is_used
used_addresses-entry c [] used us a k d h e p = absurd e
used_addresses-entry c ((j, s) ∷ es) used us a k d h e p =
    let (x, read, rest) =
      >>=_inv (or_fail bad_device_address (c.prefix_address s.device.tunnel_address))
        (λ x. used_addresses c es (x ∷ used)) h in
    elim e [
      | inl same ↦
          let text : s.device.tunnel_address ≡ d.device.tunnel_address =
            ap (λ y. y.1.device.tunnel_address) same in
          let both : some x ≡ some a =
            sym (or_fail_inv bad_device_address (c.prefix_address s.device.tunnel_address) read)
            ∙ ap c.prefix_address text
            ∙ p in
          let number : x ≡ a = cc in used_addresses-is_used c es (x ∷ used) us a rest (ground arith)
      | inr later ↦ used_addresses-entry c es (x ∷ used) us a k d rest later p
    ]

used_addresses-ok :
    (c : Codec) (es : List (Bytes × StoredDevice)) (used : List ℕ)
    → ((k : Bytes) (d : StoredDevice)
        → IsEntry (k, d) es
        → (a : ℕ) × (c.prefix_address d.device.tunnel_address ≡ some a))
    → (us : List ℕ) × (used_addresses c es used ≡ ok us)
unfolding used_addresses
used_addresses-ok c [] used h = (used, refl)
used_addresses-ok c ((k, s) ∷ es) used h =
    let (a, read) = h k s (inl refl) in
    let (us, rest) = used_addresses-ok c es (a ∷ used) (λ j d e. h j d (inr e)) in
    (us, rw read rest)

-- The address of a device is read back from its text.
pub prefix_address-HasAddress :
    (s : Store) (text : Bytes)
    → IsPool s.pool
    → (found : HasAddress s text) → s.codec.prefix_address text ≡ some found.0
prefix_address-HasAddress s text p (a, shown, usable, free) =
    let fits = p.fits in
    let narrow = p.narrow in
    ap s.codec.prefix_address shown
    ∙ s.codec.prefix_address-print a s.pool.bits (omega (arith, usable.1)) (omega arith)

not_used : {x y : Bool} → (x ≡ true → y ≡ true) → y ≡ false → x ≡ false
not_used {x = true} {y} f h = sym (f refl) ∙ h
not_used {x = false} f h = refl

some-none : {a : ℕ} → some a ≡ none → ⊥
some-none h = ground arith

module _ (b : Bolt) (s : Store) (t : Tables b) (p : IsPool s.pool)
    (v : IsDevices b s t.devices) where
  -- Over valid devices, the address that is allocated can be used by a device, is not reserved and
  -- is no other device's; an error says that every address is taken.
  pub allocate_address_inv :
      {a : ℕ}
      → allocate_address s t ≡ ok a
      → HasAddress s (s.codec.print_prefix a s.pool.bits)
        × ((k : Bytes) (d : StoredDevice)
            → b.get t.devices k ≡ some d
            → s.codec.print_prefix a s.pool.bits ≢ d.device.tunnel_address)
  unfolding allocate_address allocate
  allocate_address_inv {a} h =
      let (us, listed, found) =
        >>=_inv (used_addresses s.codec (b.entries t.devices) s.reserved)
          (λ used. or_fail pool_exhausted (allocate s.pool used)) h in
      let (low, last, free, least) =
        first_free-some (size s.pool) s.pool us (s.pool.base + 1) {x = a}
          (or_fail_inv pool_exhausted (allocate s.pool us) found) in
      let own : HasAddress s (s.codec.print_prefix a s.pool.bits) = (
        a,
        refl,
        (omega arith, last),
        not_used (used_addresses-is_used s.codec (b.entries t.devices) s.reserved us a listed) free,
      ) in
      (
        own,
        λ k d g same. true-false (
            sym (
              used_addresses-entry s.codec (b.entries t.devices) s.reserved us a k d listed
                (b.entries-get t.devices k d g)
                (ap s.codec.prefix_address (sym same)
                  ∙ prefix_address-HasAddress s (s.codec.print_prefix a s.pool.bits) p own))
            ∙ free),
      )

  -- Over valid devices allocate_address fails only where the pool is exhausted: every address that
  -- a device could have is a reserved one or the address of a stored device.
  pub allocate_address-error :
      {e : StoreError}
      → allocate_address s t ≡ err e
      → (e ≡ pool_exhausted)
        × ((x : ℕ)
            → s.pool.base < x
            → x + 1 < s.pool.base + size s.pool
            → IsEntry x s.reserved
              ⊎ ((k : Bytes) × (d : StoredDevice) × (b.get t.devices k ≡ some d)
                  × (d.device.tunnel_address ≡ s.codec.print_prefix x s.pool.bits)))
  unfolding allocate_address
  allocate_address-error {e} h =
      let (us, listed) = used_addresses-ok s.codec (b.entries t.devices) s.reserved (λ k d e.
        let has = v.addressed k d (b.get-entries t.devices k d e) in
        (has.0, prefix_address-HasAddress s d.device.tunnel_address p has)) in
      let failed : or_fail pool_exhausted (allocate s.pool us) ≡ err e =
        ap (λ used. used >>= λ x. or_fail pool_exhausted (allocate s.pool x)) (sym listed) ∙ h in
      let (gone, same) = or_fail-error pool_exhausted (allocate s.pool us) failed in
      elim (allocate-least s.pool us p) [
        | inl (a, found, usable, free, least) ↦ absurd (some-none (sym found ∙ gone))
        | inr (none_left, all) ↦ (same, λ x low last. whose us listed x (all x low last))
      ]
    where
      printed :
          (k : Bytes) (d : StoredDevice) (x : ℕ)
          → b.get t.devices k ≡ some d
          → s.codec.prefix_address d.device.tunnel_address ≡ some x
          → d.device.tunnel_address ≡ s.codec.print_prefix x s.pool.bits
      printed k d x g read =
          let has = v.addressed k d g in
          let both : some has.0 ≡ some x =
            sym (prefix_address-HasAddress s d.device.tunnel_address p has) ∙ read in
          let same : has.0 ≡ x = cc in has.1 ∙ ap (λ y. s.codec.print_prefix y s.pool.bits) same

      whose :
          (us : List ℕ)
          → used_addresses s.codec (b.entries t.devices) s.reserved ≡ ok us
          → (x : ℕ) → is_used us x ≡ true
          → IsEntry x s.reserved
            ⊎ ((k : Bytes) × (d : StoredDevice) × (b.get t.devices k ≡ some d)
                × (d.device.tunnel_address ≡ s.codec.print_prefix x s.pool.bits))
      whose us listed x u =
          elim (used_addresses-is_used_inv s.codec (b.entries t.devices) s.reserved us x listed u) [
            | inl kept ↦ inl (is_used-IsEntry s.reserved x kept)
            | inr (k, d, e, read) ↦
                let g = b.get-entries t.devices k d e in inr (k, d, g, printed k d x g read)
          ]
