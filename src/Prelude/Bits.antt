-- ===== src/Prelude/Bits.antt =====
-- Single bits of an unsigned word, with the laws of shifting and truncating.
use native.Mathlib.Nat.{
  pow-suc, zero-add, suc-add, mod-lt, mod-eq_of_lt, mul-add-mod_self_right, div-add-mod,
}
use link_forge.Prelude.{
  ◌==◌, if◌then◌else◌, ℕ, zero, suc, ◌+◌, ◌*◌, ◌/◌, ◌%◌, ◌^◌, ◌<◌, ◌≡◌, refl, sym, ap, ◌∙◌, Bool,
  true, false, arith,
}

-- `b & (1 << d) != 0`
unfoldable pub test_bit : ℕ → ℕ → Bool
test_bit zero b = b % 2 == 1
test_bit (suc d) b = test_bit d (b / 2)

-- `b | 1 << d`
unfoldable pub set_bit : ℕ → ℕ → ℕ
set_bit zero b = b / 2 * 2 + 1
set_bit (suc d) b = set_bit d (b / 2) * 2 + b % 2

low_half : (b : ℕ) → (b / 2 * 2 + 1) / 2 ≡ b / 2
low_half b = omega arith

pub test_bit-set_bit :
    (d e b : ℕ) → test_bit e (set_bit d b) ≡ (if d == e then true else test_bit e b)
unfolding test_bit set_bit
test_bit-set_bit zero zero b = ground arith
test_bit-set_bit zero (suc e) b = ap (test_bit e) (low_half b) ∙ ground arith
test_bit-set_bit (suc d) zero b = ground arith
test_bit-set_bit (suc d) (suc e) b =
    ap (test_bit e) halved ∙ test_bit-set_bit d e (b / 2) ∙ ground arith
  where
    halved : (set_bit d (b / 2) * 2 + b % 2) / 2 ≡ set_bit d (b / 2)
    halved = omega arith

half_shift : (s b : ℕ) → b * 2 ^ suc s / 2 ≡ b * 2 ^ s
half_shift s b = rw (pow-suc 2 s) (omega arith)

pub test_bit-shift : (s d b : ℕ) → test_bit (s + d) (b * 2 ^ s) ≡ test_bit d b
unfolding test_bit
test_bit-shift zero d b = rw (zero-add d) (ap (test_bit d) (omega arith))
test_bit-shift (suc s) d b =
    rw (suc-add s d) (ap (test_bit (s + d)) (half_shift s b) ∙ test_bit-shift s d b)

pub test_bit-shift_low : (d s b : ℕ) → d < s → test_bit d (b * 2 ^ s) ≡ false
unfolding test_bit
test_bit-shift_low d zero b h = absurd (omega arith)
test_bit-shift_low zero (suc s) b h = rw (pow-suc 2 s) (ground arith)
test_bit-shift_low (suc d) (suc s) b h =
    ap (test_bit d) (half_shift s b) ∙ test_bit-shift_low d s b (omega arith)

half_mod : (b p : ℕ) → 0 < p → b % (p * 2) / 2 ≡ b / 2 % p
half_mod b p h =
    let r = b % (p * 2) in
    let q = b / (p * 2) in
    let split : p * 2 * q + r ≡ b = div-add-mod b (p * 2) in
    let halves : b / 2 ≡ q * p + r / 2 = omega arith in
    let small : r / 2 < p = omega (arith, mod-lt b {m = p * 2}) in
    sym (ap (λ x. x % p) halves ∙ mul-add-mod_self_right q p (r / 2) ∙ mod-eq_of_lt small)

mod_low : (b p : ℕ) → b % (p * 2) % 2 ≡ b % 2
mod_low b p =
    let split : p * 2 * (b / (p * 2)) + b % (p * 2) ≡ b = div-add-mod b (p * 2) in omega arith

two_pow_pos : (w : ℕ) → 0 < 2 ^ w
two_pow_pos zero = omega arith
two_pow_pos (suc w) = omega (arith, pow-suc 2 w, two_pow_pos w)

-- Bits below the width survive the truncation of a word.
pub test_bit-mod : (d w b : ℕ) → d < w → test_bit d (b % 2 ^ w) ≡ test_bit d b
unfolding test_bit
test_bit-mod d zero b h = absurd (omega arith)
test_bit-mod zero (suc w) b h = rw (pow-suc 2 w, mod_low b (2 ^ w))
test_bit-mod (suc d) (suc w) b h =
    rw (pow-suc 2 w) (
      ap (test_bit d) (half_mod b (2 ^ w) (two_pow_pos w)) ∙ test_bit-mod d w (b / 2) (omega arith))

pub test_bit-zero : (d : ℕ) → test_bit d 0 ≡ false
unfolding test_bit
test_bit-zero zero = refl
test_bit-zero (suc d) = test_bit-zero d

pub test_bit-one : (d : ℕ) → test_bit d 1 ≡ (d == 0)
unfolding test_bit
test_bit-one zero = refl
test_bit-one (suc d) = test_bit-zero d ∙ ground arith
