-- ===== src/Prelude/Map.antt =====
-- Go's maps as association lists with one entry a key; `range` walks the entries in list order.
use Prim.Native.Nat.{◌≤◌, ◌<◌}
use mathlib.Core.List.{List, [], ◌∷◌}
use mathlib.Core.Logic.{ite}
use mathlib.Core.Option.{Option, none, some}
use mathlib.Core.Path.{subst₂, ◌≡◌, refl}
use native.Mathlib.Omega.{arith}
use link_forge.Prelude.{
  length, All, suc, ◌+◌, ◌≤◌, ◌<◌, ◌≡◌, refl, sym, ap, subst, ◌∙◌, ◌≢◌, ◌⊎◌, inl, inr, ite, if_pos,
  if_neg, Option, none, some, List, [], ◌∷◌, map, arith,
}

abbrev pub Map {ℓ} : Type ℓ → Type ℓ → Type ℓ
Map K V = List (K × V)

module _ {ℓ} {K V : Type ℓ} (d : Discrete K) where
  -- `v, ok := m[k]`
  unfoldable pub lookup : K → Map K V → Option V
  lookup k [] = none
  lookup k ((j, v) ∷ m) = ite (d j k) (some v) (lookup k m)

  -- `m[k] = v`
  unfoldable pub put : K → V → Map K V → Map K V
  put k v [] = (k, v) ∷ []
  put k v ((j, w) ∷ m) = ite (d j k) ((k, v) ∷ m) ((j, w) ∷ put k v m)

  -- `delete(m, k)`
  unfoldable pub delete : K → Map K V → Map K V
  delete k [] = []
  delete k ((j, w) ∷ m) = ite (d j k) (delete k m) ((j, w) ∷ delete k m)

  pub lookup-put :
      (k j : K) (v : V) (m : Map K V) → lookup j (put k v m) ≡ ite (d k j) (some v) (lookup j m)
  unfolding lookup put
  lookup-put k j v [] = refl
  lookup-put k j v ((i, w) ∷ m) = ground (arith, lookup-put k j v m)

  pub lookup-delete :
      (k j : K) (m : Map K V) → lookup j (delete k m) ≡ ite (d k j) none (lookup j m)
  unfolding lookup delete
  lookup-delete k j [] = ground arith
  lookup-delete k j ((i, w) ∷ m) = ground (arith, lookup-delete k j m)

  pub length-delete : (k : K) (m : Map K V) → length (delete k m) ≤ length m
  unfolding delete
  length-delete k [] = omega arith
  length-delete k ((i, w) ∷ m) = ground (arith, length-delete k m)

  -- Deleting a present key makes the map smaller.
  pub length-delete_lt :
      (k : K) (m : Map K V) (v : V) → lookup k m ≡ some v → length (delete k m) < length m
  unfolding lookup delete
  length-delete_lt k [] v h = cc
  length-delete_lt k ((i, w) ∷ m) v h = ground (arith, length-delete k m, length-delete_lt k m v)

  -- A property of every entry, through the operations.
  pub All-put {κ} :
      (P : K × V → Type κ) (k : K) (v : V) (m : Map K V) → P (k, v) → All P m → All P (put k v m)
  unfolding put
  All-put P k v [] p h = (p, tt)
  All-put P k v ((i, w) ∷ m) p h = elim (d i k) [
    | yes e ↦ rw (if_pos _ e) (p, h.1)
    | no n ↦ rw (if_neg _ n) (h.0, All-put P k v m p h.1)
  ]

  pub All-delete {κ} :
      (P Q : K × V → Type κ) (k : K) (m : Map K V)
      → ((j : K) (w : V) → j ≢ k → P (j, w) → Q (j, w))
      → All P m
      → All Q (delete k m)
  unfolding delete
  All-delete P Q k [] f h = tt
  All-delete P Q k ((i, w) ∷ m) f h = elim (d i k) [
    | yes e ↦ rw (if_pos _ e) (All-delete P Q k m f h.1)
    | no n ↦ rw (if_neg _ n) (f i w n h.0, All-delete P Q k m f h.1)
  ]

  pub All-lookup {κ} :
      (P : K × V → Type κ) (k : K) (m : Map K V) {v : V} → lookup k m ≡ some v → All P m → P (k, v)
  unfolding lookup
  All-lookup P k [] e h = cc
  All-lookup P k ((i, w) ∷ m) {v} e h = elim (d i k) [
    | yes p ↦
        let same : some w ≡ some v = sym (if_pos (d i k) p (some w) (lookup k m)) ∙ e in
        let values : w ≡ v = cc same in subst₂ (λ a b. P (a, b)) p values h.0
    | no n ↦ All-lookup P k m (sym (if_neg (d i k) n (some w) (lookup k m)) ∙ e) h.1
  ]

  pub length-put : (k : K) (v : V) (m : Map K V) → length (put k v m) ≤ length m + 1
  unfolding put
  length-put k v [] = omega arith
  length-put k v ((i, w) ∷ m) = ground (arith, length-put k v m)

  pub lookup-delete_ne : (k j : K) (m : Map K V) → k ≢ j → lookup j (delete k m) ≡ lookup j m
  lookup-delete_ne k j m h = lookup-delete k j m ∙ if_neg (d k j) h none (lookup j m)

  pub lookup-put_ne : (k j : K) (v : V) (m : Map K V) → k ≢ j → lookup j (put k v m) ≡ lookup j m
  lookup-put_ne k j v m h = lookup-put k j v m ∙ if_neg (d k j) h (some v) (lookup j m)

  pub lookup-put_self : (k : K) (v : V) (m : Map K V) → lookup k (put k v m) ≡ some v
  lookup-put_self k v m = lookup-put k k v m ∙ if_pos (d k k) refl (some v) (lookup k m)

  pub lookup-delete_self : (k : K) (m : Map K V) → lookup k (delete k m) ≡ none
  lookup-delete_self k m = lookup-delete k k m ∙ if_pos (d k k) refl none (lookup k m)

  pub length-put_pos : (k : K) (v : V) (m : Map K V) → 0 < length (put k v m)
  unfolding put
  length-put_pos k v [] = omega arith
  length-put_pos k v ((i, w) ∷ m) = ground arith

  -- What a lookup behind an update says of the map before.
  pub lookup-delete_inv :
      (k j : K) (m : Map K V) (v : V)
      → lookup j (delete k m) ≡ some v
      → (k ≢ j) × (lookup j m ≡ some v)
  lookup-delete_inv k j m v h = elim (d k j) [
    | yes e ↦
        let gone : none ≡ some v =
          sym (lookup-delete k j m ∙ if_pos (d k j) e none (lookup j m)) ∙ h in
        cc
    | no n ↦ (n, sym (lookup-delete_ne k j m n) ∙ h)
  ]

  pub lookup-put_inv :
      (k j : K) (v w : V) (m : Map K V)
      → lookup j (put k v m) ≡ some w
      → ((k ≡ j) × (v ≡ w)) ⊎ ((k ≢ j) × (lookup j m ≡ some w))
  lookup-put_inv k j v w m h = elim (d k j) [
    | yes e ↦
        let same : some v ≡ some w =
          sym (lookup-put k j v m ∙ if_pos (d k j) e (some v) (lookup j m)) ∙ h in
        inl (e, cc)
    | no n ↦ inr (n, sym (lookup-put_ne k j v m n) ∙ h)
  ]

  -- What holds of every key holds of a key that is found.
  pub All_keys-lookup :
      (P : K → Type 0) (k : K) (m : Map K V) {v : V}
      → lookup k m ≡ some v
      → All P (map (λ entry. entry.0) m)
      → P k
  unfolding lookup
  All_keys-lookup P k [] h a = absurd (no_value h)
    where
      no_value : {v : V} → none ≡ some v → ⊥
      no_value p = ground arith
  All_keys-lookup P k ((j, w) ∷ m) h a = elim (d j k) [
    | yes e ↦ subst P e a.0
    | no n ↦ All_keys-lookup P k m (sym (if_neg (d j k) n (some w) (lookup k m)) ∙ h) a.1
  ]

  -- A new key takes a new place.
  pub length-put_absent :
      (k : K) (v : V) (m : Map K V) → lookup k m ≡ none → length (put k v m) ≡ suc (length m)
  unfolding lookup put
  length-put_absent k v [] h = refl
  length-put_absent k v ((j, w) ∷ m) h = elim (d j k) [
    | yes e ↦ absurd (taken (sym (if_pos (d j k) e (some w) (lookup k m)) ∙ h))
    | no n ↦
        ap length (if_neg (d j k) n ((k, v) ∷ m) ((j, w) ∷ put k v m))
        ∙ ap suc (length-put_absent k v m (sym (if_neg (d j k) n (some w) (lookup k m)) ∙ h))
  ]
    where
      taken : some w ≡ none → ⊥
      taken p = ground arith
