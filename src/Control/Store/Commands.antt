-- ===== src/Control/Store/Commands.antt =====
-- The operations of the store as commands, what an operation that succeeds has written, and what a
-- series of commands keeps. A command that fails leaves the buckets as they were.
use link_forge.Control.Bucket.{Bolt}
use link_forge.Control.Secret.{nonce_size}
use link_forge.Control.Store.{Store, Tables, revoke, rotate, touch}
use link_forge.Control.Store.Users.{create_activation, enroll}
use link_forge.Prelude.{length, err, ok, ◌≡◌, Option, some, List, [], ◌∷◌}
use link_forge.Prelude.Int.{ℤ}
use link_forge.Protocol.Bytes.{Bytes}

pub data Command : Type 0 where
  to_create : (drawn : Option Bytes) (user_id device_name : Bytes) (ttl now : ℤ) → Command
  to_enroll : (id key nonce : Option Bytes) (entered name platform : Bytes) (now : ℤ) → Command
  to_revoke : (device_id : Bytes) (now : ℤ) → Command
  to_rotate : (key nonce : Option Bytes) (device_id : Bytes) (now : ℤ) → Command
  to_touch : (device_id : Bytes) (now : ℤ) → Command

-- What rand.Read fills: a key of 32 bytes and a nonce of the cipher's length.
abbrev pub IsDraw : (key nonce : Option Bytes) → Type 0
IsDraw key nonce =
    ((k : Bytes) → key ≡ some k → length k ≡ 32)
    × ((n : Bytes) → nonce ≡ some n → length n ≡ nonce_size)

abbrev pub IsDrawn : Command → Type 0
IsDrawn (to_create drawn user name ttl now) = Unit
IsDrawn (to_enroll id key nonce entered name platform now) = IsDraw key nonce
IsDrawn (to_revoke id now) = Unit
IsDrawn (to_rotate key nonce id now) = IsDraw key nonce
IsDrawn (to_touch id now) = Unit

module _ {b : Bolt} where
  unfoldable pub run_command : Store → Command → Tables b → Tables b
  run_command s (to_create drawn user name ttl now) t =
      elim (create_activation s drawn user name ttl now t) [ err e ↦ t | ok r ↦ r.2 ]
  run_command s (to_enroll id key nonce entered name platform now) t =
      elim (enroll s id key nonce entered name platform now t) [ err e ↦ t | ok r ↦ r.2 ]
  run_command s (to_revoke id now) t = elim (revoke id now t) [ err e ↦ t | ok r ↦ r.1 ]
  run_command s (to_rotate key nonce id now) t = elim (rotate s key nonce id now t) [
    | err e ↦ t
    | ok r ↦ r.2
  ]
  run_command s (to_touch id now) t = touch id now t

  unfoldable pub run_commands : Store → List Command → Tables b → Tables b
  run_commands s [] t = t
  run_commands s (c ∷ cs) t = run_commands s cs (run_command s c t)
