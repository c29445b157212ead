-- ===== src/Control/Tests/Plain.antt =====
-- Encodings and a cipher that leave their bytes readable, and a store on them.
use mathlib.Core.Path.{ap₂}
use link_forge.Config.Host.{Host}
use link_forge.Control.Secret.{Codec}
use link_forge.Control.Store.{Store}
use link_forge.Prelude.{
  length, drop, replicate, drop-append, All, ℕ, ◌+◌, ◌-◌, ◌*◌, ◌^◌, ◌≤◌, ◌<◌, ◌≡◌, refl, ap, false,
  none, some, [], ◌∷◌, ◌++◌, map, arith,
}
use link_forge.Protocol.Aead.{Aead}
use link_forge.Protocol.Bytes.{Bytes}
use link_forge.Protocol.Header.{tag_size}

abbrev pub plain_host : Host
plain_host = record {
  parse_prefix = λ s. none;
  is_ip = λ s. false;
  is_loopback_ip = λ s. false;
  split_host = λ s. none;
  resolves = λ s. false;
  decode_base64 = λ s. some (map (λ x. x - 33) s);
  getenv = λ s. [];
}

pub shift-back : (b : Bytes) → map (λ x. x - 33) (map (λ x. x + 33) b) ≡ b
shift-back [] = refl
shift-back (x ∷ b) = ap₂ (λ y s. y ∷ s) (cut x) (shift-back b)
  where
    cut : (n : ℕ) → n + 33 - 33 ≡ n
    cut n = omega arith

pub shift-printable : (b : Bytes) → All (λ x. 32 < x) (map (λ x. x + 33) b)
shift-printable [] = tt
shift-printable (x ∷ b) = (omega arith, shift-printable b)

pub length-shift : (b : Bytes) → length b ≤ length (map (λ x. x + 33) b)
length-shift [] = omega arith
length-shift (x ∷ b) = omega (arith, length-shift b)

abbrev pub plain_codec : Codec
plain_codec = record {
  host = plain_host;
  sha256 = λ s. s;
  raw_url = λ s. s;
  std = map (λ x. x + 33);
  raw_std = λ s. s;
  decode_raw_std = λ s. some s;
  print_prefix = λ a bits. a ∷ bits ∷ [];
  prefix_address = λ s. elim s [ [] ↦ none | a ∷ _ ↦ some a ];
  decode-std = λ b. ap some (shift-back b);
  length-std = length-shift;
  std-printable = shift-printable;
  decode-raw_std = λ b. refl;
  prefix_address-print = λ a bits h k. refl;
}

abbrev pub plain_aead : Aead
plain_aead = record {
  seal_bytes = λ nonce plaintext aad. replicate tag_size 0 ++ plaintext;
  open_bytes = λ nonce ciphertext aad. some (drop tag_size ciphertext);
  open-seal =
      λ nonce plaintext aad. ap some (drop-append tag_size (replicate tag_size 0) plaintext refl);
  length-seal = λ nonce plaintext aad. omega arith;
}

-- 10.0.0.0/24, of which the relay's address is reserved.
abbrev pub plain_store : Store
plain_store = record {
  codec = plain_codec;
  aead = plain_aead;
  pool = record { base = 10 * 2 ^ 24; bits = 24 };
  reserved = (10 * 2 ^ 24 + 1) ∷ [];
}
