-- ===== src/Protocol/Keys.antt =====
-- The key of a path: hkdfSHA256 and NewAEAD of internal/protocol/protocol.go, over an HMAC and over
-- AES-GCM, which takes a key of 32 bytes to a cipher.
use link_forge.Control.Pool.{size}
use link_forge.Prelude.{
  ltb, if◌then◌else◌, length, take, replicate, length-append, length-take, ℕ, zero, suc, ◌+◌, ◌-◌,
  ◌%◌, ◌≤◌, ◌<◌, ◌≡◌, [], ◌∷◌, ◌++◌, arith,
}
use link_forge.Prelude.Text.{codes}
use link_forge.Protocol.Aead.{Aead}
use link_forge.Protocol.Bytes.{Bytes, put_uint}
use link_forge.Protocol.Hello.{Hmac}

-- The loop of hkdfSHA256, with the counter's byte; each round adds the 32 bytes of a sum.
unfoldable pub expand : Hmac → ℕ → (prk info previous result : Bytes) → (counter size : ℕ) → Bytes
expand hmac zero prk info previous result counter size = result
expand hmac (suc fuel) prk info previous result counter size =
    let next = hmac.sum prk (previous ++ info ++ (counter ∷ [])) in
    let rest = expand hmac fuel prk info next (result ++ next) ((counter + 1) % 256) size in
    if ltb (length result) size then rest else result

-- hkdfSHA256. A round for each byte is more than enough.
unfoldable pub hkdf : Hmac → (secret salt info : Bytes) → (size : ℕ) → Bytes
hkdf hmac secret salt info size =
    take size (expand hmac (size + 1) (hmac.sum salt secret) info [] [] 1 size)

-- The label and what is bound to the path, in 36 bytes.
unfoldable pub path_info : (session_id path_id : ℕ) → Bytes
path_info session_id path_id =
    let label = codes "linkforge/path-key/v1" in
    label ++ replicate (24 - length label) 0 ++ put_uint 8 session_id ++ put_uint 4 path_id

-- NewAEAD
unfoldable pub new_aead :
    Hmac
    → (gcm : Bytes → Aead) → (psk client_nonce server_nonce : Bytes) → (session_id path_id : ℕ)
    → Aead
new_aead hmac gcm psk client_nonce server_nonce session_id path_id =
    gcm (hkdf hmac psk (client_nonce ++ server_nonce) (path_info session_id path_id) 32)

-- Each round gives 32 bytes more, so the loop ends with at least the bytes that are asked for.
length-expand :
    (hmac : Hmac) (fuel : ℕ) (prk info previous result : Bytes) (counter size : ℕ)
    → size < length result + fuel
    → size ≤ length (expand hmac fuel prk info previous result counter size)
unfolding expand
length-expand hmac zero prk info previous result counter size h = omega arith
length-expand hmac (suc fuel) prk info previous result counter size h =
    let next = hmac.sum prk (previous ++ info ++ (counter ∷ [])) in
    let sum = hmac.length-sum prk (previous ++ info ++ (counter ∷ [])) in
    let more = length-append result next in
    let rest =
      length-expand hmac fuel prk info next (result ++ next) ((counter + 1) % 256) size
        (omega arith) in
    ground (arith, rest)

-- A derived key has the length that is asked for.
pub length-hkdf :
    (hmac : Hmac) (secret salt info : Bytes) (size : ℕ)
    → length (hkdf hmac secret salt info size) ≡ size
unfolding hkdf
length-hkdf hmac secret salt info size =
    let grown = expand hmac (size + 1) (hmac.sum salt secret) info [] [] 1 size in
    let enough =
      length-expand hmac (size + 1) (hmac.sum salt secret) info [] [] 1 size (omega arith) in
    omega (arith, length-take size grown, enough)
