-- ===== src/Reorder/Lowest.antt =====
-- The scan for the least waiting number.
use link_forge.Prelude.{
  ltb, if◌then◌else◌, is_some, length, All, ℕ, ◌^◌, ◌≤◌, ◌<◌, ◌≡◌, refl, subst, ◌⊎◌, inl, inr, true,
  [], ◌∷◌, arith, ℕ_discrete,
}
use link_forge.Prelude.Map.{Map, lookup}
use link_forge.Reorder.{largest, lowest_key}
use link_forge.Reorder.Drain.{From}

module _ {A : Type 0} where
  abbrev pub Fits : Map ℕ A → Type 0
  Fits m = All (λ kv. kv.0 < 2 ^ 64) m

  pub lowest_key-le : (lo : ℕ) (m : Map ℕ A) → lowest_key lo m ≤ lo
  unfolding lowest_key
  lowest_key-le lo [] = omega arith
  lowest_key-le lo ((k, v) ∷ m) = ground (arith, lowest_key-le k m, lowest_key-le lo m)

  -- Every key lies at or above it.
  pub lowest_key-From : (lo : ℕ) (m : Map ℕ A) → Fits m → From (lowest_key lo m) m
  unfolding lowest_key
  lowest_key-From lo [] f = tt
  lowest_key-From lo ((k, v) ∷ m) f = (
    (ground (arith, lowest_key-le k m, lowest_key-le lo m), f.0),
    lowest_key-From (if ltb k lo then k else lo) m f.1,
  )

  -- It is the starting value or a key.
  pub lowest_key-hit :
      (lo : ℕ) (m : Map ℕ A)
      → (lowest_key lo m ≡ lo) ⊎ (is_some (lookup ℕ_discrete (lowest_key lo m) m) ≡ true)
  unfolding lowest_key lookup
  lowest_key-hit lo [] = inl refl
  lowest_key-hit lo ((k, v) ∷ m) =
      ground (arith, lowest_key-hit k m, lowest_key-hit lo m, lowest_key-le k m)

  -- In a map that is not empty it is a key: the start is the largest number.
  pub lowest_key-is_some :
      (m : Map ℕ A)
      → Fits m
      → 0 < length m
      → is_some (lookup ℕ_discrete (lowest_key largest m) m) ≡ true
  lowest_key-is_some [] f h = absurd (omega arith)
  lowest_key-is_some ((k, v) ∷ m) f h = elim (lowest_key-hit largest ((k, v) ∷ m)) [
    | inr hit ↦ hit
    | inl e ↦
        let low = subst (λ n. From n ((k, v) ∷ m)) e (lowest_key-From largest ((k, v) ∷ m) f) in
        let key : k ≡ largest = omega arith in rw (e, ← key) (unfold lookup in ground arith)
  ]
