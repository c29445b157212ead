-- ===== src/Protocol/Bytes.antt =====
-- Byte strings and the big-endian words of encoding/binary, as internal/protocol uses them.
pub mod Slices
use mathlib.Core.List.{append-nil}
use native.Mathlib.Nat.{pow-suc, zero-add, add-zero, suc-add, add-suc, suc-sub-suc}
use link_forge.Prelude.{
  ◌==◌, Bool-cases, length, take, drop, get_or, All, ℕ, zero, suc, ◌+◌, ◌-◌, ◌*◌, ◌/◌, ◌%◌, ◌^◌,
  ◌<◌, ◌≡◌, refl, ap, ◌∙◌, ◌≢◌, inl, inr, Bool, true, false, ◌&&◌, List, [], ◌∷◌, ◌++◌, arith,
  ℕ_discrete,
}

abbrev pub Bytes : Type 0
Bytes = List ℕ

-- Every element is a byte.
abbrev pub AreBytes : Bytes → Type 0
AreBytes b = All (λ x. x < 256) b

unfoldable pub Bytes-discrete : Discrete Bytes
Bytes-discrete = hlevel link_forge.Prelude.ℕ_discrete

-- The slice expression `b[lo:hi]`, within the bounds that the source has checked.
unfoldable pub slice : ℕ → ℕ → Bytes → Bytes
slice lo hi b = take (hi - lo) (drop lo b)

-- `b[lo:]`
unfoldable pub slice_from : ℕ → Bytes → Bytes
slice_from lo b = drop lo b

-- `b[i]`, within the bounds that the source has checked.
unfoldable pub byte_at : ℕ → Bytes → ℕ
byte_at i b = get_or b i 0

-- bytes.Equal, hmac.Equal and a result 1 of subtle.ConstantTimeCompare.
unfoldable pub bytes_eq : Bytes → Bytes → Bool
bytes_eq [] [] = true
bytes_eq [] (y ∷ ys) = false
bytes_eq (x ∷ xs) [] = false
bytes_eq (x ∷ xs) (y ∷ ys) = x == y && bytes_eq xs ys

pub bytes_eq→eq : (a b : Bytes) → bytes_eq a b ≡ true → a ≡ b
unfolding bytes_eq
bytes_eq→eq [] [] h = refl
bytes_eq→eq [] (y ∷ b) h = cc
bytes_eq→eq (x ∷ a) [] h = cc
bytes_eq→eq (x ∷ a) (y ∷ b) h = ground (arith, bytes_eq→eq a b)

pub bytes_eq_refl : (a : Bytes) → bytes_eq a a ≡ true
unfolding bytes_eq
bytes_eq_refl [] = refl
bytes_eq_refl (x ∷ a) = ground (arith, bytes_eq_refl a)

pub eq→bytes_eq : (a b : Bytes) → a ≡ b → bytes_eq a b ≡ true
eq→bytes_eq a b e = rw e (bytes_eq_refl b)

pub ne→bytes_eq : (a b : Bytes) → a ≢ b → bytes_eq a b ≡ false
ne→bytes_eq a b n = elim (Bool-cases (bytes_eq a b)) [
  | inl h ↦ absurd (n (bytes_eq→eq a b h))
  | inr h ↦ h
]

-- A cut behind a first part of known length falls into the second part.
pub slice-append :
    (k lo hi : ℕ) (xs ys : Bytes)
    → length xs ≡ k
    → slice (k + lo) (k + hi) (xs ++ ys) ≡ slice lo hi ys
unfolding slice
slice-append zero lo hi [] ys h = rw (zero-add lo, zero-add hi)
slice-append zero lo hi (x ∷ xs) ys h = absurd (omega arith)
slice-append (suc k) lo hi [] ys h = absurd (omega arith)
slice-append (suc k) lo hi (x ∷ xs) ys h =
    rw (suc-add k lo, suc-add k hi, suc-sub-suc)
      (unfold slice in slice-append k lo hi xs ys (omega arith))

-- The `k` low bytes of `n`, highest first, in front of `tail`.
put_onto : ℕ → ℕ → Bytes → Bytes
put_onto zero n tail = tail
put_onto (suc k) n tail = put_onto k (n / 256) ((n % 256) ∷ tail)

-- binary.BigEndian.PutUint16, PutUint32 and PutUint64 for k = 2, 4 and 8.
unfoldable pub put_uint : ℕ → ℕ → Bytes
unfolding put_onto
put_uint k n = put_onto k n []

get_from : ℕ → Bytes → ℕ
get_from acc [] = acc
get_from acc (b ∷ bs) = get_from (acc * 256 + b) bs

-- binary.BigEndian.Uint16, Uint32 and Uint64, by the length of the slice.
unfoldable pub get_uint : Bytes → ℕ
unfolding get_from
get_uint b = get_from 0 b

get_from-put_onto :
    (k acc n : ℕ) (tail : Bytes)
    → n < 256 ^ k
    → get_from acc (put_onto k n tail) ≡ get_from (acc * 256 ^ k + n) tail
unfolding get_from put_onto
get_from-put_onto zero acc n tail h = ap (λ a. get_from a tail) (omega arith)
get_from-put_onto (suc k) acc n tail h =
    get_from-put_onto k acc (n / 256) _ (omega (arith, pow-suc 256 k))
    ∙ ap (λ a. get_from a tail) (rw pow-suc (omega arith))

-- Reading a word that was written gives it back.
pub get_uint-put_uint : (k n : ℕ) → n < 256 ^ k → get_uint (put_uint k n) ≡ n
unfolding get_uint put_uint
get_uint-put_uint k n h = get_from-put_onto k 0 n [] h ∙ omega arith

put_onto-AreBytes : (k n : ℕ) (tail : Bytes) → AreBytes tail → AreBytes (put_onto k n tail)
unfolding put_onto
put_onto-AreBytes zero n tail h = h
put_onto-AreBytes (suc k) n tail h = put_onto-AreBytes k (n / 256) _ (omega arith, h)

pub put_uint-AreBytes : (k n : ℕ) → AreBytes (put_uint k n)
unfolding put_uint
put_uint-AreBytes k n = put_onto-AreBytes k n [] tt

length-put_onto : (k n : ℕ) (tail : Bytes) → length (put_onto k n tail) ≡ k + length tail
unfolding put_onto
length-put_onto zero n tail = omega arith
length-put_onto (suc k) n tail = omega (arith, length-put_onto k (n / 256) ((n % 256) ∷ tail))

pub length-put_uint : (k n : ℕ) → length (put_uint k n) ≡ k
unfolding put_uint
length-put_uint k n = omega (arith, length-put_onto k n [])

put_onto-get_from :
    (b : Bytes) (k acc : ℕ) (tail : Bytes)
    → AreBytes b
    → put_onto (length b + k) (get_from acc b) tail ≡ put_onto k acc (b ++ tail)
unfolding get_from put_onto
put_onto-get_from [] k acc tail h = rw zero-add
put_onto-get_from (x ∷ b) k acc tail h =
    rw (suc-add, ← add-suc) (put_onto-get_from b (suc k) (acc * 256 + x) tail h.1 ∙ same)
  where
    low : (acc * 256 + x) % 256 ≡ x
    low = omega arith

    high : (acc * 256 + x) / 256 ≡ acc
    high = omega arith

    same :
        put_onto k ((acc * 256 + x) / 256) ((acc * 256 + x) % 256 ∷ (b ++ tail))
        ≡ put_onto k acc (x ∷ (b ++ tail))
    same = rw (low, high)

-- Writing a word that was read gives its bytes back.
pub put_uint-get_uint :
    (k : ℕ) (b : Bytes) → length b ≡ k → AreBytes b → put_uint k (get_uint b) ≡ b
unfolding get_uint put_uint put_onto
put_uint-get_uint k b e h =
    rw (← e) (rw (← add-zero (length b)) (put_onto-get_from b 0 0 [] h ∙ append-nil b))
