-- ===== src/Control/Tests/Addresses.antt =====
-- The allocation of addresses, also where the pool is exhausted.
use link_forge.Control.Bucket.{IsEntry}
use link_forge.Control.Pool.{
  size, in_pool, is_used, first_free, allocate, IsPool, Usable, allocate-least,
}
use link_forge.Control.Secret.{pool_exhausted, generate_key, generate_client_id, encrypt_psk}
use link_forge.Control.Store.{
  Device, StoredDevice, Store, Tables, used_addresses, append_audit, allocate_address,
}
use link_forge.Control.Store.Addresses.{allocate_address-error}
use link_forge.Control.Store.Devices.{IsDevices}
use link_forge.Control.Store.Invariant.{enroll-IsDevices}
use link_forge.Control.Store.Users.{
  valid_activation, record_device, enrolled_device, enroll_device, enroll,
}
use link_forge.Control.Tests.Data.{
  used_code, one_activation, first_tables, plain_store-IsPool, drawn_key, drawn_nonce,
  IsDraw-example,
}
use link_forge.Control.Tests.ListBolt.{list_bolt}
use link_forge.Control.Tests.Plain.{plain_store}
use link_forge.Engine.State.{client_id_string}
use link_forge.Prelude.{
  replicate, err, ok, ℕ, ◌+◌, ◌*◌, ◌^◌, ◌<◌, ◌≡◌, refl, ◌⊎◌, true, false, none, some, [], ◌∷◌, ◌++◌,
  map, arith,
}
use link_forge.Prelude.Int.{pos}
use link_forge.Prelude.Map.{lookup, put}
use link_forge.Prelude.Text.{codes, trim_space, to_lower}
use link_forge.Protocol.Bytes.{Bytes, Bytes-discrete, bytes_eq}
use link_forge.Protocol.Header.{tag_size}

allocate-least_example :
    ((a : ℕ) × (allocate plain_store.pool plain_store.reserved ≡ some a)
      × Usable plain_store.pool a
      × (is_used plain_store.reserved a ≡ false)
      × ((b : ℕ) → 10 * 2 ^ 24 < b → b < a → is_used plain_store.reserved b ≡ true))
    ⊎ ((allocate plain_store.pool plain_store.reserved ≡ none)
        × ((b : ℕ)
            → 10 * 2 ^ 24 < b
            → b + 1 < 10 * 2 ^ 24 + size plain_store.pool
            → is_used plain_store.reserved b ≡ true))
allocate-least_example = allocate-least plain_store.pool plain_store.reserved plain_store-IsPool

-- A pool with two usable addresses, one of them reserved.
abbrev small_store : Store
small_store = record plain_store {
  pool = record { base = 10 * 2 ^ 24; bits = 30 };
  reserved = (10 * 2 ^ 24 + 1) ∷ [];
}

small_store-IsPool : IsPool small_store.pool
unfolding size
small_store-IsPool = record { wide = omega arith; narrow = omega arith; fits = omega arith }

first_tables-IsDevices_small : IsDevices list_bolt small_store first_tables.devices
unfolding lookup
first_tables-IsDevices_small = record {
  named = λ k d h. absurd (no_device h);
  addressed = λ k d h. absurd (no_device h);
  distinct = λ j k d e h g same. absurd (no_device h);
  sealed = λ k d h. absurd (no_device h);
}
  where
    no_device : {d : StoredDevice} → none ≡ some d → ⊥
    no_device h = ground arith

-- The device that takes the other one.
abbrev enrolled_last : Device × Bytes × Tables list_bolt
enrolled_last =
    enrolled_device small_store used_code [] (codes "linux") (pos 10) first_tables one_activation
      (codes "01") (map (λ x. x + 33) drawn_key) (10 * 2 ^ 24 + 2)
      (drawn_nonce ++ replicate tag_size 0 ++ map (λ x. x + 33) drawn_key)

enroll-last :
    enroll small_store
      (some (1 ∷ []))
      (some drawn_key)
      (some drawn_nonce)
      used_code
      []
      (codes "Linux")
      (pos 10)
      first_tables
    ≡ ok enrolled_last
unfolding enroll enroll_device valid_activation generate_client_id client_id_string generate_key
    encrypt_psk allocate_address used_addresses allocate first_free in_pool size is_used trim_space
    to_lower lookup bytes_eq Bytes-discrete link_forge.Prelude.ℕ_discrete
enroll-last = refl

abbrev full_tables : Tables list_bolt
full_tables = enrolled_last.2

full_tables-IsDevices : IsDevices list_bolt small_store full_tables.devices
full_tables-IsDevices =
    enroll-IsDevices small_store (some (1 ∷ [])) (some drawn_key) (some drawn_nonce) used_code []
      (codes "Linux") (pos 10) first_tables enrolled_last small_store-IsPool IsDraw-example
      first_tables-IsDevices_small enroll-last

allocate_address-full : allocate_address small_store full_tables ≡ err pool_exhausted
unfolding allocate_address used_addresses allocate first_free in_pool size is_used record_device
    append_audit put lookup Bytes-discrete link_forge.Prelude.ℕ_discrete
allocate_address-full = refl

allocate_address-error_example :
    (pool_exhausted ≡ pool_exhausted)
    × ((x : ℕ)
        → small_store.pool.base < x
        → x + 1 < small_store.pool.base + size small_store.pool
        → IsEntry x small_store.reserved
          ⊎ ((k : Bytes) × (d : StoredDevice) × (list_bolt.get full_tables.devices k ≡ some d)
              × (d.device.tunnel_address ≡ small_store.codec.print_prefix x small_store.pool.bits)))
allocate_address-error_example =
    allocate_address-error list_bolt small_store full_tables small_store-IsPool
      full_tables-IsDevices {e = pool_exhausted} allocate_address-full
