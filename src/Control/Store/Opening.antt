-- ===== src/Control/Store/Opening.antt =====
-- OpenStore of internal/controlplane/store.go against the pools that allocateAddress expects.
use native.Mathlib.Nat.{
  pow-suc, add-suc, mul_assoc, one-le-pow, mul-one, div-lt_iff_lt-mul, mul-le-mul_right, suc-mul,
}
use link_forge.Control.Pool.{Pool, size, IsPool}
use link_forge.Control.Secret.{Codec, StoreError}
use link_forge.Control.Store.{Store, opened_store, open_store}
use link_forge.Prelude.{
  Result, length, ok, ℕ, zero, suc, ◌+◌, ◌-◌, ◌*◌, ◌/◌, ◌^◌, ◌≤◌, ◌<◌, ◌≡◌, refl, sym, ap, subst,
  ◌∙◌, Bool, true, List, arith,
}
use link_forge.Protocol.Aead.{Aead}
use link_forge.Protocol.Bytes.{Bytes}

pow_split : (k m : ℕ) → 2 ^ (k + m) ≡ 2 ^ k * 2 ^ m
pow_split k zero = ap (λ x. 2 ^ x) add_none ∙ sym (mul-one (2 ^ k))
  where
    add_none : k + 0 ≡ k
    add_none = omega arith
pow_split k (suc m) =
    ap (λ x. 2 ^ x) (add-suc k m)
    ∙ pow-suc 2 (k + m)
    ∙ ap (λ x. x * 2) (pow_split k m)
    ∙ mul_assoc (2 ^ k) (2 ^ m) 2
    ∙ ap (λ x. 2 ^ k * x) (sym (pow-suc 2 m))

next_fits : (q one m : ℕ) {n : ℕ} → q < m → m * one ≡ n → q * one + one ≤ n
next_fits q one m lt same =
    subst (λ x. q * one + one ≤ x) same
      (subst (λ x. x ≤ m * one) (suc-mul q one) (mul-le-mul_right one lt))

-- A masked prefix ends within the addresses.
masked-fits :
    (base bits : ℕ)
    → base < 2 ^ 32
    → bits ≤ 32
    → base / 2 ^ (32 - bits) * 2 ^ (32 - bits) + 2 ^ (32 - bits) ≤ 2 ^ 32
masked-fits base bits h le =
    let one = 2 ^ (32 - bits) in
    let exponent : bits + (32 - bits) ≡ 32 = omega arith in
    let whole : 2 ^ bits * one ≡ 2 ^ 32 =
      sym (pow_split bits (32 - bits)) ∙ ap (λ x. 2 ^ x) exponent in
    let few : base / one < 2 ^ bits =
      (div-lt_iff_lt-mul (one-le-pow (32 - bits) 2 (omega arith))).1
        (subst (λ x. base < x) (sym whole) h) in
    next_fits (base / one) one (2 ^ bits) few whole

-- The store that OpenStore opens for an address of IPv4 has an accepted pool, which ends within the
-- addresses, and a key of 32 bytes was given.
pub open_store-IsPool :
    (c : Codec) (aead : Aead) (master_key : Bytes) (v4_pool : Bool) (p : Pool) (reserved : List ℕ)
    {s : Store}
    → p.base < 2 ^ 32
    → open_store c aead master_key v4_pool p reserved ≡ ok s
    → IsPool s.pool × (length master_key ≡ 32) × (v4_pool ≡ true) × (s.pool.bits ≡ p.bits)
unfolding open_store size
open_store-IsPool c aead master_key v4_pool p reserved {s} low h =
    let given : length master_key ≡ 32 = ground arith in
    let v4_given : v4_pool ≡ true = ground arith in
    let wide : 16 ≤ p.bits = ground arith in
    let narrow : p.bits ≤ 30 = ground arith in
    let opened : ◌≡◌ {A = Result StoreError Store} (ok (opened_store c aead p reserved)) (ok s) =
      ground arith in
    let same : opened_store c aead p reserved ≡ s = cc in
    subst
      (λ x. IsPool x.pool × (length master_key ≡ 32) × (v4_pool ≡ true) × (x.pool.bits ≡ p.bits))
      same
      (
        record { wide = wide; narrow = narrow; fits = masked-fits p.base p.bits low (omega arith) },
        given,
        v4_given,
        refl,
      )
