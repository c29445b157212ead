-- ===== src/Control/Service.antt =====
-- The handlers of internal/controlplane/service.go, as functions on the store's buckets, the rate
-- windows and the state of the relay, which the hooks change. A body that decodeJSON refuses is none;
-- of the headers, Cache-Control, Allow, Retry-After and WWW-Authenticate are fixed with the answer.
pub mod Enrollment
pub mod Admin
use Prim.Native.String.{String}
use link_forge.Config.{
  ClientConfig, ClientCredential, Management, value_or, default_mtu, default_health_interval,
}
use link_forge.Config.Host.{Host}
use link_forge.Control.Bucket.{Bolt}
use link_forge.Control.Limiter.{RateWindow, allow}
use link_forge.Control.Secret.{StoreError, invalid_activation, device_not_found}
use link_forge.Control.Store.{
  Device, Store, Tables, credential_for, revoke, rotate, active_credentials, list_devices,
}
use link_forge.Control.Store.Users.{create_activation, enroll}
use link_forge.Prelude.{
  ltb, ◌==◌, if◌then◌else◌, length, err, ok, ℕ, ◌*◌, ◌^◌, Bool, true, not, ◌&&◌, Option, none, some,
  List, [], ◌∷◌,
}
use link_forge.Prelude.Int.{ℤ, pos}
use link_forge.Prelude.Map.{Map}
use link_forge.Prelude.Text.{codes, trim_space, has_prefix, trim_prefix, trim_byte, split}
use link_forge.Protocol.Bytes.{Bytes, bytes_eq}
use link_forge.Protocol.Replay.Refinement.{admits}

pub record Hooks (R : Type 0) : Type 0 where
  pub authorize : ClientCredential → R → Option R
  pub revoke_client : Bytes → R → R

pub record Service (R : Type 0) : Type 0 where
  pub settings : Management
  pub store : Store
  pub admin_token : Bytes
  pub hooks : Hooks R

pub record State (b : Bolt) (R : Type 0) : Type 0 where
  pub tables : Tables b
  pub windows : Map Bytes RateWindow
  pub relay : R

pub data Body : Type 0 where
  failure : Bytes → Body
  store_failure : StoreError → Body  -- the text of the store's error
  activation_made : (made_code : Bytes) (until : ℤ) → Body
  profile_of : ClientConfig → Body
  devices_of : List Device → Body
  device_gone : Body

pub record Answer : Type 0 where
  pub status : ℕ
  pub body : Body

abbrev pub fail : ℕ → String → Answer
fail status text = record { status = status; body = failure (codes text) }

pub record Request : Type 0 where
  pub method : Bytes
  pub path : Bytes
  pub remote_address : Bytes
  pub authorization : Bytes
  pub forwarded_for : Bytes

pub record EnrollmentRequest : Type 0 where
  pub entered : Bytes
  pub device_name : Bytes
  pub platform : Bytes

-- What is drawn and read of the clock for a request.
pub record Draws : Type 0 where
  pub id : Option Bytes
  pub key : Option Bytes
  pub fresh : Option Bytes
  pub now : ℤ

-- Service.profileFor
unfoldable pub profile_for : Management → Device → Bytes → ClientConfig
profile_for m d psk = record {
  server = m.public_relay;
  client_id = d.client_id;
  psk = psk;
  psk_env = [];
  tunnel_name = codes "LinkForge";
  tunnel_address = d.tunnel_address;
  mtu = default_mtu;
  paths = [];
  auto_discover_paths = true;
  routes = [];
  traffic_mode = codes "all";
  configure_interface = true;
  health_interval = default_health_interval;
  stats_interval = pos (15 * 10 ^ 9);
  handshake_timeout = pos (8 * 10 ^ 9);
  reorder_delay = pos (80 * 10 ^ 6);
  reorder_window = pos 512;
  logging = record { level = codes "info"; format = codes "json" };
  metrics_listen = codes "127.0.0.1:9090";
}

-- The address of the first text of X-Forwarded-For, as ParseIP writes it, where there is one.
abbrev pub forwarded_ip : (Bytes → Option Bytes) → Request → Option Bytes
forwarded_ip canonical q = elim (split b',' q.forwarded_for) [
  | [] ↦ none
  | first ∷ _ ↦ canonical (trim_space first)
]

-- clientAddress
unfoldable pub client_address : Host → (Bytes → Option Bytes) → Request → Bytes
client_address host canonical q = elim (host.split_host q.remote_address) [
  | none ↦ q.remote_address
  | some remote ↦
      if host.is_ip remote && host.is_loopback_ip remote
      then elim (forwarded_ip canonical q) [ none ↦ remote | some ip ↦ ip ]
      else remote
]

-- NewService
unfoldable pub new_service :
    {R : Type 0} → Management → Store → (admin_token : Bytes) → Hooks R → Option (Service R)
new_service m s admin_token hooks =
    if ltb (length admin_token) 32
    then none
    else some (record { settings = m; store = s; admin_token = admin_token; hooks = hooks })

-- The loop of LoadCredentials.
unfoldable pub authorize_stored : {R : Type 0} → Hooks R → List ClientCredential → R → Option R
authorize_stored hooks [] r = some r
authorize_stored hooks (c ∷ cs) r = elim (hooks.authorize c r) [
  | none ↦ none
  | some next ↦ authorize_stored hooks cs next
]

abbrev pub enroll_failure : StoreError → Answer
enroll_failure invalid_activation = fail 401 "invalid or expired activation code"
enroll_failure _ = fail 500 "enrollment failed"

abbrev pub rotate_failure : StoreError → Answer
rotate_failure device_not_found = fail 404 "device not found"
rotate_failure e = record { status = 400; body = store_failure e }

-- The condition of requireAdmin. ConstantTimeCompare compares the two texts.
unfoldable pub has_token : (front token header : Bytes) → Bool
has_token front token header = has_prefix header front && bytes_eq (trim_prefix header front) token

module _ {b : Bolt} {R : Type 0} where
  -- LoadCredentials
  unfoldable pub load_credentials : Service R → State b R → Option (State b R)
  load_credentials v x = elim (active_credentials v.store x.tables) [
    | err e ↦ none
    | ok cs ↦ elim (authorize_stored v.hooks cs x.relay) [
      | none ↦ none
      | some r ↦ some (record x { relay = r })
    ]
  ]

  -- Behind a device that the store has enrolled.
  unfoldable pub authorize_enrolled :
      Service R → (later : ℤ) → Device → Bytes → State b R → Answer × State b R
  authorize_enrolled v later device psk x =
      elim (v.hooks.authorize (credential_for device psk) x.relay) [
        | none ↦ (
          fail 500 "device authorization failed",
          record x {
            tables = elim (revoke device.client_id later x.tables) [
              | err e ↦ x.tables
              | ok r ↦ r.1
            ];
          },
        )
        | some relay ↦ (
          record { status = 201; body = profile_of (profile_for v.settings device psk) },
          record x { relay = relay },
        )
      ]

  -- Behind the limiter of Service.enroll.
  unfoldable pub enroll_input :
      Service R → Draws → (later : ℤ) → Option EnrollmentRequest → State b R → Answer × State b R
  enroll_input v w later none y = (fail 400 "invalid JSON", y)
  enroll_input v w later (some i) y =
      elim (enroll v.store w.id w.key w.fresh i.entered i.device_name i.platform w.now y.tables) [
        | err e ↦ (enroll_failure e, y)
        | ok r ↦ authorize_enrolled v later r.0 r.1 (record y { tables = r.2 })
      ]

  -- Service.enroll. The windows are those of the client's address; `later` is the time of a
  -- revocation.
  unfoldable pub handle_enroll :
      Service R
      → (address : Bytes) → Draws
      → (later : ℤ) → Request
      → Option EnrollmentRequest
      → State b R
      → Answer × State b R
  handle_enroll v address w later q input x =
      let (admits, windows) = allow address 20 (pos (60 * 10 ^ 9)) w.now x.windows in
      if not (bytes_eq q.method (codes "POST"))
      then (fail 405 "method not allowed", x)
      else if not admits
      then (fail 429 "too many enrollment attempts", record x { windows = windows })
      else enroll_input v w later input (record x { windows = windows })

  -- Service.createActivation, with the ttl that the body names, none where it is no duration.
  unfoldable pub handle_create :
      Service R
      → Draws
      → Request
      → Option (Bytes × Bytes × Option (Option ℤ))
      → State b R
      → Answer × State b R
  handle_create v w q input x =
      if not (bytes_eq q.method (codes "POST"))
      then (fail 405 "method not allowed", x)
      else elim input [
        | none ↦ (fail 400 "invalid JSON", x)
        | some (user, name, expires_in) ↦
            let default_ttl = value_or v.settings.activation_ttl (pos (15 * 60 * 10 ^ 9)) in
            let asked : Option ℤ = elim expires_in [
              | none ↦ some default_ttl
              | some parsed ↦ parsed
            ] in
            elim asked [
              | none ↦ (fail 400 "expires_in must be a duration such as 15m", x)
              | some ttl ↦ elim (create_activation v.store w.id user name ttl w.now x.tables) [
                | err e ↦ (record { status = 400; body = store_failure e }, x)
                | ok r ↦ (
                  record { status = 201; body = activation_made r.0 r.1.expires_at },
                  record x { tables = r.2 },
                )
              ]
            ]
      ]

  -- Service.listDevices, before the devices are sorted by their creation.
  unfoldable pub handle_list : Request → State b R → Answer × State b R
  handle_list q x =
      if not (bytes_eq q.method (codes "GET"))
      then (fail 405 "method not allowed", x)
      else (record { status = 200; body = devices_of (list_devices x.tables) }, x)

  abbrev pub handle_revoke : Service R → Bytes → ℤ → State b R → Answer × State b R
  handle_revoke v client_id now x = elim (revoke client_id now x.tables) [
    | err e ↦ (
      elim e [
        | device_not_found ↦ fail 404 "device not found"
        | _ ↦ fail 500 "could not revoke device"
      ],
      x,
    )
    | ok r ↦ (
      record { status = 200; body = device_gone },
      record x { tables = r.1; relay = v.hooks.revoke_client client_id x.relay },
    )
  ]

  abbrev pub handle_rotate : Service R → Bytes → Draws → State b R → Answer × State b R
  handle_rotate v client_id w x = elim (rotate v.store w.key w.fresh client_id w.now x.tables) [
    | err e ↦ (rotate_failure e, x)
    | ok r ↦ elim (v.hooks.authorize (credential_for r.0 r.1) x.relay) [
      | none ↦ (fail 500 "could not activate rotated key", record x { tables = r.2 })
      | some relay ↦ (
        record { status = 200; body = profile_of (profile_for v.settings r.0 r.1) },
        record x { tables = r.2; relay = relay },
      )
    ]
  ]

  -- Service.deviceAction
  unfoldable pub handle_device : Service R → Draws → Request → State b R → Answer × State b R
  handle_device v w q x =
      let suffix = trim_prefix q.path (codes "/v1/admin/devices/") in
      elim (split b'/' (trim_byte b'/' suffix)) [
        | [] ↦ (fail 404 "device not found", x)
        | client_id ∷ rest ↦
            if length client_id == 0 then (fail 404 "device not found", x) else elim rest [
              | [] ↦
                  if bytes_eq q.method (codes "DELETE")
                  then handle_revoke v client_id w.now x
                  else (fail 405 "method not allowed", x)
              | action ∷ [] ↦
                  if bytes_eq action (codes "rotate-key") && bytes_eq q.method (codes "POST")
                  then handle_rotate v client_id w x
                  else (fail 405 "method not allowed", x)
              | _ ∷ _ ∷ _ ↦ (fail 405 "method not allowed", x)
            ]
      ]

  -- requireAdmin
  unfoldable pub require_admin :
      Service R
      → (Request → State b R → Answer × State b R)
      → Request
      → State b R
      → Answer × State b R
  require_admin v next q x =
      if not (has_token (codes "Bearer ") v.admin_token q.authorization)
      then (fail 401 "admin authorization required", x)
      else next q x
