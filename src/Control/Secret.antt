-- ===== src/Control/Secret.antt =====
-- The keys and identifiers that the control plane draws (protocol.GenerateKey and GenerateClientID),
-- and the encryption of stored keys in internal/controlplane/store.go.
use mathlib.Core.Path.{ap₂}
use link_forge.Config.Host.{Host, parse_key}
use link_forge.Engine.State.{client_id_string}
use link_forge.Prelude.{
  Result, ltb, if◌then◌else◌, length, take, drop, length-append, take-append, drop-append, All, err,
  ok, ◌>>=◌, ℕ, zero, suc, ◌+◌, ◌%◌, ◌^◌, ◌≤◌, ◌<◌, ◌≡◌, ◌∙◌, Option, none, some, [], ◌∷◌, ◌++◌,
  arith,
}
use link_forge.Prelude.Text.{trim_space-printable}
use link_forge.Protocol.Aead.{Aead}
use link_forge.Protocol.Bytes.{Bytes}

-- The texts of Go's encoding, crypto and netip packages, with what is documented of them.
pub record Codec : Type 0 where
  pub host : Host
  pub sha256 : Bytes → Bytes
  pub raw_url : Bytes → Bytes  -- base64.RawURLEncoding.EncodeToString
  pub std : Bytes → Bytes  -- base64.StdEncoding.EncodeToString
  pub raw_std : Bytes → Bytes  -- base64.RawStdEncoding.EncodeToString
  pub decode_raw_std : Bytes → Option Bytes
  pub print_prefix : ℕ → ℕ → Bytes  -- an IPv4 address and a length, as "%s/%d"
  pub prefix_address : Bytes → Option ℕ  -- the address of netip.ParsePrefix
  pub decode-std : (b : Bytes) → host.decode_base64 (std b) ≡ some b
  pub length-std : (b : Bytes) → length b ≤ length (std b)
  pub std-printable : (b : Bytes) → All (λ x. 32 < x) (std b)
  pub decode-raw_std : (b : Bytes) → decode_raw_std (raw_std b) ≡ some b
  pub prefix_address-print :
      (a bits : ℕ) → a < 2 ^ 32 → bits ≤ 32 → prefix_address (print_prefix a bits) ≡ some a

pub data StoreError : Type 0 where
  invalid_activation : StoreError
  device_not_found : StoreError
  pool_exhausted : StoreError
  bad_user : StoreError
  bad_device_name : StoreError
  bad_ttl : StoreError
  bad_platform : StoreError
  no_randomness : StoreError
  activation_collision : StoreError
  bad_device_address : StoreError
  bad_secret : StoreError
  is_revoked : StoreError
  bad_schema : StoreError
  bad_master_key : StoreError
  bad_tunnel_pool : StoreError

-- rand.Read, which fails or fills its bytes.
abbrev pub read_random : Option Bytes → Result StoreError Bytes
read_random none = err no_randomness
read_random (some drawn) = ok drawn

-- protocol.GenerateKey
unfoldable pub generate_key : Codec → Option Bytes → Result StoreError Bytes
generate_key c drawn = read_random drawn >>= λ b. ok (c.std b)

-- One byte of a text, if it is that long, through a function.
abbrev pub change_at : ℕ → (ℕ → ℕ) → Bytes → Bytes
change_at n f [] = []
change_at zero f (x ∷ b) = f x ∷ b
change_at (suc n) f (x ∷ b) = x ∷ change_at n f b

-- protocol.GenerateClientID
unfoldable pub generate_client_id : Option Bytes → Result StoreError Bytes
generate_client_id drawn = read_random drawn >>= λ id.
    ok (client_id_string (change_at 8 (λ x. x % 64 + 128) (change_at 6 (λ x. x % 16 + 64) id)))

-- The NonceSize of GCM.
abbrev pub nonce_size : ℕ
nonce_size = 12

unfoldable pub encrypt_psk : Codec → Aead → Option Bytes → Bytes → Bytes → Result StoreError Bytes
encrypt_psk c aead drawn client_id psk =
    read_random drawn >>= λ nonce. ok (c.raw_std (nonce ++ aead.seal_bytes nonce psk client_id))

unfoldable pub decrypt_psk : Codec → Aead → Bytes → Bytes → Result StoreError Bytes
decrypt_psk c aead client_id encrypted = elim (c.decode_raw_std encrypted) [
  | none ↦ err bad_secret
  | some sealed ↦
      if ltb (length sealed) nonce_size
      then err bad_secret
      else elim (aead.open_bytes (take nonce_size sealed) (drop nonce_size sealed) client_id) [
        | none ↦ err bad_secret
        | some plaintext ↦ elim (parse_key c.host plaintext) [
          | none ↦ err bad_secret
          | some key ↦ ok plaintext
        ]
      ]
]

parse_printable :
    (host : Host) (text b : Bytes)
    → All (λ x. 32 < x) text
    → 0 < length text
    → host.decode_base64 text ≡ some b
    → length b ≡ 32
    → parse_key host text ≡ some b
unfolding parse_key
parse_printable host text b p long read h = rw (trim_space-printable text p, read, h) (ground arith)

-- A key that GenerateKey gives for 32 random bytes is a key.
pub parse_key-std : (c : Codec) (b : Bytes) → length b ≡ 32 → parse_key c.host (c.std b) ≡ some b
unfolding parse_key
parse_key-std c b h =
    parse_printable c.host (c.std b) b (c.std-printable b) (omega (arith, c.length-std b))
      (c.decode-std b) h

pub decrypt_psk-sealed :
    (c : Codec) (aead : Aead) (nonce client_id psk b : Bytes)
    → length nonce ≡ nonce_size
    → parse_key c.host psk ≡ some b
    → decrypt_psk c aead client_id (c.raw_std (nonce ++ aead.seal_bytes nonce psk client_id))
      ≡ ok psk
unfolding decrypt_psk
decrypt_psk-sealed c aead nonce client_id psk b n p =
    let sealed = aead.seal_bytes nonce psk client_id in
    let decoded = c.decode-raw_std (nonce ++ sealed) in
    let front : take nonce_size (nonce ++ sealed) ≡ nonce = take-append nonce_size nonce sealed n in
    let back : drop nonce_size (nonce ++ sealed) ≡ sealed = drop-append nonce_size nonce sealed n in
    let opened : aead.open_bytes (take nonce_size (nonce ++ sealed))
          (drop nonce_size (nonce ++ sealed)) client_id
        ≡ some psk =
      ap₂ (λ x y. aead.open_bytes x y client_id) front back ∙ aead.open-seal nonce psk client_id in
    let long : nonce_size ≤ length (nonce ++ sealed) = omega (arith, length-append nonce sealed) in
    ground arith

-- A generated key is read back from what encryptPSK stores for a client, under the same client id.
pub decrypt_psk-encrypt_psk :
    (c : Codec) (aead : Aead) (nonce client_id b : Bytes)
    → length nonce ≡ nonce_size
    → length b ≡ 32
    → (generate_key c (some b) >>= λ psk.
        encrypt_psk c aead (some nonce) client_id psk >>= decrypt_psk c aead client_id)
      ≡ generate_key c (some b)
unfolding encrypt_psk generate_key
decrypt_psk-encrypt_psk c aead nonce client_id b n h =
    decrypt_psk-sealed c aead nonce client_id (c.std b) b n (parse_key-std c b h)
