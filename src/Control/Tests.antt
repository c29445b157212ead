-- ===== src/Control/Tests.antt =====
-- Runs of the control plane's store on a list of entries and on plain codecs.
mod ListBolt
mod Plain
mod Data
mod Addresses
use link_forge.Control.Tests.Data.{
  used_code, one_activation, first_tables, plain_store-IsPool, drawn_key, drawn_nonce,
  IsDraw-example,
}
use link_forge.Control.Tests.ListBolt.{list_bolt}
use link_forge.Control.Tests.Plain.{plain_codec, plain_aead, plain_store}
use link_forge.Config.{ClientCredential, Management}
use link_forge.Control.Bucket.{IsEntry}
use link_forge.Control.Limiter.{RateWindow, admitted}
use link_forge.Control.Limiter.Bounded.{IsWithin, admitted_bounds}
use link_forge.Control.Pool.{size, in_pool, is_used, first_free, allocate}
use link_forge.Control.Secret.{
  generate_key, generate_client_id, encrypt_psk, decrypt_psk, decrypt_psk-encrypt_psk,
}
use link_forge.Control.Service.{
  Service, State, fail, Request, EnrollmentRequest, Draws, handle_enroll, handle_list,
  require_admin,
}
use link_forge.Control.Service.Admin.{require_admin-token}
use link_forge.Control.Service.Enrollment.{Outcome, handle_enroll-Outcome}
use link_forge.Control.Store.{
  Device, StoredDevice, Tables, used_addresses, credential_for, append_audit, load_device,
  allocate_address, revoked_device, revoke, rotated_device, rotate, active_credentials,
}
use link_forge.Control.Store.Active.{IsOf, active_credentials-Lists, revoke-inactive, rotate-active}
use link_forge.Control.Store.Commands.{
  Command, to_create, to_enroll, to_revoke, to_touch, IsDraw, run_commands,
}
use link_forge.Control.Store.Devices.{IsDevices}
use link_forge.Control.Store.Invariant.{enroll-IsDevices, run_commands-IsDevices}
use link_forge.Control.Store.Once.{IsRefused, enroll_once}
use link_forge.Control.Store.Users.{
  valid_activation, record_device, enrolled_device, enroll_device, enroll,
}
use link_forge.Engine.Credentials.{revoke_client}
use link_forge.Engine.Events.{authorization}
use link_forge.Engine.Registry.Update.{store}
use link_forge.Engine.State.{client_id_string}
use link_forge.Prelude.{
  length, replicate, ok, ◌>>=◌, ℕ, suc, ◌+◌, ◌*◌, ◌^◌, ◌≤◌, ◌≡◌, refl, sym, ap, ◌≢◌, Option, none,
  some, List, [], ◌∷◌, ◌++◌, map, arith,
}
use link_forge.Prelude.Int.{ℤ, pos, ◌-ℤ◌}
use link_forge.Prelude.Map.{Map, lookup, put}
use link_forge.Prelude.Text.{codes, trim_space, to_lower}
use link_forge.Protocol.Bytes.{Bytes, Bytes-discrete, bytes_eq}
use link_forge.Protocol.Header.{tag_size}

first_tables-IsDevices : IsDevices list_bolt plain_store first_tables.devices
unfolding lookup
first_tables-IsDevices = record {
  named = λ k d h. absurd (no_device h);
  addressed = λ k d h. absurd (no_device h);
  distinct = λ j k d e h g same. absurd (no_device h);
  sealed = λ k d h. absurd (no_device h);
}
  where
    no_device : {d : StoredDevice} → none ≡ some d → ⊥
    no_device h = ground arith

abbrev some_commands : List Command
some_commands =
    to_enroll (some (1 ∷ [])) (some drawn_key) (some drawn_nonce) used_code [] (codes "Linux")
      (pos 10)
    ∷ to_touch (codes "01") (pos 11)
    ∷ to_revoke (codes "01") (pos 12)
    ∷ to_create (some (replicate 24 65)) (codes "bob") (codes "laptop") (pos (60 * 10 ^ 9)) (pos 13)
    ∷ []

run_commands-IsDevices_example :
    IsDevices list_bolt plain_store (run_commands plain_store some_commands first_tables).devices
run_commands-IsDevices_example =
    run_commands-IsDevices plain_store some_commands first_tables plain_store-IsPool
      (IsDraw-example, (tt, (tt, (tt, tt)))) first_tables-IsDevices

-- The answer to the first of these commands.
abbrev enrolled_first : Device × Bytes × Tables list_bolt
enrolled_first =
    enrolled_device plain_store used_code [] (codes "linux") (pos 10) first_tables one_activation
      (codes "01") (map (λ x. x + 33) drawn_key) (10 * 2 ^ 24 + 2)
      (drawn_nonce ++ replicate tag_size 0 ++ map (λ x. x + 33) drawn_key)

enroll-first :
    enroll plain_store
      (some (1 ∷ []))
      (some drawn_key)
      (some drawn_nonce)
      used_code
      []
      (codes "Linux")
      (pos 10)
      first_tables
    ≡ ok enrolled_first
unfolding enroll enroll_device valid_activation generate_client_id client_id_string generate_key
    encrypt_psk allocate_address used_addresses allocate first_free in_pool size is_used trim_space
    to_lower lookup bytes_eq Bytes-discrete link_forge.Prelude.ℕ_discrete
enroll-first = refl

enroll_once_example : IsRefused (
    enroll plain_store
      (some (2 ∷ []))
      (some drawn_key)
      (some drawn_nonce)
      used_code
      []
      (codes "linux")
      (pos 20)
      (run_commands plain_store some_commands enrolled_first.2))
enroll_once_example =
    enroll_once {b = list_bolt} plain_store (some (1 ∷ [])) (some drawn_key) (some drawn_nonce)
      used_code [] (codes "Linux") (pos 10) first_tables enrolled_first some_commands
      (some (2 ∷ [])) (some drawn_key) (some drawn_nonce) [] (codes "linux") (pos 20) enroll-first
      ((λ h. h), ((λ h. h), ((λ h. h), ((λ h. not_drawn h.1 h.2), tt))))
  where
    some_inv : {x y : Bytes} → some x ≡ some y → x ≡ y
    some_inv h = cc

    drawn_length : {raw : Bytes} → replicate 24 65 ≡ raw → suc (suc (suc (length raw))) ≡ 20 → ⊥
    drawn_length h e = omega (arith, ap length h, e)

    not_drawn :
        {raw : Bytes} → some (replicate 24 65) ≡ some raw → codes "lf_" ++ raw ≡ used_code → ⊥
    not_drawn h e = drawn_length (some_inv h) (ap length e)

abbrev enrolled_tables : Tables list_bolt
enrolled_tables = enrolled_first.2

enrolled_tables-IsDevices : IsDevices list_bolt plain_store enrolled_tables.devices
enrolled_tables-IsDevices =
    enroll-IsDevices plain_store (some (1 ∷ [])) (some drawn_key) (some drawn_nonce) used_code []
      (codes "Linux") (pos 10) first_tables enrolled_first plain_store-IsPool IsDraw-example
      first_tables-IsDevices enroll-first

active_credentials-Lists_example :
    (cs : List ClientCredential) × (active_credentials plain_store enrolled_tables ≡ ok cs)
    × ((k : Bytes) (d : StoredDevice)
        → list_bolt.get enrolled_tables.devices k ≡ some d
        → d.device.revoked_at ≡ none
        → (c : ClientCredential) × IsEntry c cs × IsOf plain_store (k, d) c)
    × ((c : ClientCredential)
        → IsEntry c cs
        → (d : StoredDevice) × (list_bolt.get enrolled_tables.devices c.client_id ≡ some d)
          × IsOf plain_store (c.client_id, d) c)
active_credentials-Lists_example =
    active_credentials-Lists {b = list_bolt} plain_store enrolled_tables enrolled_tables-IsDevices

abbrev enrolled_entry : StoredDevice
enrolled_entry = record {
  device = enrolled_first.0;
  encrypted_psk = drawn_nonce ++ replicate tag_size 0 ++ map (λ x. x + 33) drawn_key;
}

revoke-first :
    revoke (codes "01") (pos 12) enrolled_tables
    ≡ ok (revoked_device (codes "01") (pos 12) enrolled_tables enrolled_entry)
unfolding revoke load_device lookup record_device append_audit put Bytes-discrete
    link_forge.Prelude.ℕ_discrete
revoke-first = refl

revoke-inactive_example :
    (cs : List ClientCredential) × (active_credentials plain_store
        (revoked_device (codes "01") (pos 12) enrolled_tables enrolled_entry).1
      ≡ ok cs)
    × ((c : ClientCredential) → IsEntry c cs → c.client_id ≢ codes "01")
revoke-inactive_example =
    revoke-inactive {b = list_bolt} plain_store enrolled_tables enrolled_tables-IsDevices
      (codes "01") (pos 12) (revoked_device (codes "01") (pos 12) enrolled_tables enrolled_entry)
      revoke-first

abbrev next_key : Bytes
next_key = replicate 32 9

abbrev rotated_first : Device × Bytes × Tables list_bolt
rotated_first =
    rotated_device (codes "01") (pos 15) enrolled_tables enrolled_entry (map (λ x. x + 33) next_key)
      (drawn_nonce ++ replicate tag_size 0 ++ map (λ x. x + 33) next_key)

rotate-first :
    rotate plain_store (some next_key) (some drawn_nonce) (codes "01") (pos 15) enrolled_tables
    ≡ ok rotated_first
unfolding rotate load_device lookup record_device append_audit put generate_key encrypt_psk
    Bytes-discrete link_forge.Prelude.ℕ_discrete
rotate-first = refl

IsDraw-next : IsDraw (some next_key) (some drawn_nonce)
IsDraw-next = ((λ k e. ap length (sym (some_inv e))), IsDraw-example.1)
  where
    some_inv : {x y : Bytes} → some x ≡ some y → x ≡ y
    some_inv h = cc

rotate-active_example :
    (cs : List ClientCredential) × (active_credentials plain_store rotated_first.2 ≡ ok cs)
    × IsEntry (credential_for rotated_first.0 (map (λ x. x + 33) next_key)) cs
    × ((c : ClientCredential)
        → IsEntry c cs
        → c.client_id ≡ codes "01"
        → c.psk ≡ map (λ x. x + 33) next_key)
rotate-active_example =
    rotate-active {b = list_bolt} plain_store enrolled_tables enrolled_tables-IsDevices
      (some next_key) (some drawn_nonce) (codes "01") (pos 15) rotated_first IsDraw-next
      rotate-first

decrypt_psk-encrypt_psk_example :
    (generate_key plain_codec (some drawn_key) >>= λ psk.
    encrypt_psk plain_codec plain_aead (some drawn_nonce) (codes "01") psk
    >>= decrypt_psk plain_codec plain_aead (codes "01"))
    ≡ generate_key plain_codec (some drawn_key)
decrypt_psk-encrypt_psk_example =
    decrypt_psk-encrypt_psk plain_codec plain_aead drawn_nonce (codes "01") drawn_key refl refl

abbrev three_attempts : List (Bytes × ℤ)
three_attempts = (codes "a", pos 5) ∷ (codes "b", pos 6) ∷ (codes "a", pos 7) ∷ []

-- A client is in the middle of a window.
abbrev some_windows : Map Bytes RateWindow
some_windows = (codes "a", record { start = pos 1; count = 1 }) ∷ []

admitted_bounds_example :
    (admitted (codes "a") 2 (pos 5) three_attempts some_windows ≤ 2 * 2)
    × (lookup Bytes-discrete (codes "a") some_windows ≡ none
        → admitted (codes "a") 2 (pos 5) three_attempts some_windows ≤ 2)
unfolding link_forge.Prelude.Int.◌-ℤ◌
admitted_bounds_example =
    admitted_bounds 2 (pos 5) (pos 5) (codes "a") (omega arith) refl three_attempts some_windows
      (IsWithin-example, (IsWithin-next, (IsWithin-last, tt)))
  where
    IsWithin-example : IsWithin (pos 5) (pos 5) (pos 5)
    IsWithin-example = (refl, refl)

    IsWithin-next : IsWithin (pos 5) (pos 5) (pos 6)
    IsWithin-next = (refl, refl)

    IsWithin-last : IsWithin (pos 5) (pos 5) (pos 7)
    IsWithin-last = (refl, refl)

abbrev plain_settings : Management
plain_settings = record {
  listen = [];
  database_path = [];
  public_relay = codes "relay:4430";
  tunnel_pool = [];
  admin_token_env = [];
  master_key_env = [];
  activation_ttl = pos 0;
}

-- A relay that counts its credentials.
abbrev plain_service : Service ℕ
plain_service = record {
  settings = plain_settings;
  store = plain_store;
  admin_token = replicate 32 65;
  hooks = record { authorize = λ c n. some (n + 1); revoke_client = λ id n. n };
}

abbrev plain_state : State list_bolt ℕ
plain_state = record { tables = first_tables; windows = []; relay = 0 }

abbrev enroll_draws : Draws
enroll_draws = record {
  id = some (1 ∷ []);
  key = some drawn_key;
  fresh = some drawn_nonce;
  now = pos 10;
}

abbrev enroll_request : Request
enroll_request = record {
  method = codes "POST";
  path = codes "/v1/enroll";
  remote_address = [];
  authorization = [];
  forwarded_for = [];
}

abbrev enroll_body : Option EnrollmentRequest
enroll_body = some (record { entered = used_code; device_name = []; platform = codes "linux" })

handle_enroll-Outcome_example : Outcome plain_service plain_state (
    handle_enroll plain_service
      (codes "c")
      enroll_draws
      (pos 11)
      enroll_request
      enroll_body
      plain_state)
handle_enroll-Outcome_example =
    handle_enroll-Outcome {b = list_bolt} {R = ℕ} plain_service plain_state (codes "c") enroll_draws
      (pos 11) enroll_request enroll_body plain_store-IsPool IsDraw-example first_tables-IsDevices

require_admin-token_example :
    (enroll_request.authorization ≡ codes "Bearer " ++ plain_service.admin_token
      → require_admin plain_service handle_list enroll_request plain_state
        ≡ handle_list enroll_request plain_state)
    × (enroll_request.authorization ≢ codes "Bearer " ++ plain_service.admin_token
        → require_admin plain_service handle_list enroll_request plain_state
          ≡ (fail 401 "admin authorization required", plain_state))
require_admin-token_example =
    require_admin-token {b = list_bolt} {R = ℕ} plain_service handle_list enroll_request plain_state
