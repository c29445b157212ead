-- ===== src/Protocol/Bytes/Slices.antt =====
-- The slice expressions of internal/protocol on bytes that are appended.
use native.Mathlib.Nat.{zero-add, suc-add, sub-zero, add-sub_cancel_left}
use link_forge.Prelude.{
  length, take, drop, take-append, take-append-drop, drop-drop, take_all, ℕ, zero, suc, ◌+◌, ◌≤◌,
  ◌<◌, ◌≡◌, refl, sym, ap, ◌∙◌, [], ◌∷◌, ◌++◌, arith,
}
use link_forge.Protocol.Bytes.{Bytes, slice, byte_at}

pub slice_front : (k : ℕ) (xs ys : Bytes) → length xs ≡ k → slice 0 k (xs ++ ys) ≡ xs
unfolding slice
slice_front k xs ys e = rw sub-zero (take-append k xs ys e)

pub byte_at-append :
    (k i : ℕ) (xs ys : Bytes) → length xs ≡ k → byte_at (k + i) (xs ++ ys) ≡ byte_at i ys
unfolding byte_at
byte_at-append zero i [] ys h = rw zero-add
byte_at-append zero i (x ∷ xs) ys h = absurd (omega arith)
byte_at-append (suc k) i [] ys h = absurd (omega arith)
byte_at-append (suc k) i (x ∷ xs) ys h =
    rw suc-add (unfold byte_at in byte_at-append k i xs ys (omega arith))

pub byte_at_left : (i : ℕ) (xs ys : Bytes) → i < length xs → byte_at i (xs ++ ys) ≡ byte_at i xs
unfolding byte_at
byte_at_left i [] ys h = absurd (omega arith)
byte_at_left zero (x ∷ xs) ys h = refl
byte_at_left (suc i) (x ∷ xs) ys h = unfold byte_at in byte_at_left i xs ys (omega arith)

-- A cut within the first part.
pub slice_left :
    (lo m : ℕ) (xs ys : Bytes)
    → lo + m ≤ length xs
    → take m (drop lo (xs ++ ys)) ≡ take m (drop lo xs)
slice_left zero zero xs ys h = refl
slice_left zero (suc m) [] ys h = absurd (omega arith)
slice_left zero (suc m) (x ∷ xs) ys h = ap (λ t. x ∷ t) (slice_left zero m xs ys (omega arith))
slice_left (suc lo) m [] ys h = absurd (omega arith)
slice_left (suc lo) m (x ∷ xs) ys h = slice_left lo m xs ys (omega arith)

pub slice_all : (k : ℕ) (xs : Bytes) → length xs ≡ k → slice 0 k xs ≡ xs
unfolding slice
slice_all k xs e = rw sub-zero (take_all k xs (omega arith))

-- What stands from `k` on, cut again.
pub drop_cut : (k n : ℕ) (xs : Bytes) → drop k xs ≡ slice k (k + n) xs ++ drop (k + n) xs
unfolding slice
drop_cut k n xs =
    rw add-sub_cancel_left
      (sym (take-append-drop n (drop k xs)) ∙ ap (λ y. take n (drop k xs) ++ y) (drop-drop k n xs))
