-- ===== src/Control/Bucket.antt =====
-- The buckets of go.etcd.io/bbolt, as far as the store relies on them: values are read back as they
-- were put, ForEach visits exactly what Get finds, and a sequence number does not touch the entries.
use link_forge.Prelude.{ℕ, ◌≡◌, sym, ap, ◌∙◌, ◌≢◌, ◌⊎◌, inl, inr, Option, none, some, List, [], ◌∷◌}
use link_forge.Protocol.Bytes.{Bytes, Bytes-discrete}

-- The entry is one of the list.
abbrev pub IsEntry : {A : Type 0} → A → List A → Type 0
IsEntry e [] = ⊥
IsEntry e (x ∷ xs) = (x ≡ e) ⊎ IsEntry e xs

pub record Bolt : Type 1 where
  pub Bucket : Type 0 → Type 0
  pub get : {V : Type 0} → Bucket V → Bytes → Option V
  pub put_entry : {V : Type 0} → Bucket V → Bytes → V → Bucket V
  pub remove : {V : Type 0} → Bucket V → Bytes → Bucket V
  pub entries : {V : Type 0} → Bucket V → List (Bytes × V)
  pub next_sequence : {V : Type 0} → Bucket V → ℕ × Bucket V
  pub get-put_self :
      {V : Type 0} (t : Bucket V) (k : Bytes) (v : V) → get (put_entry t k v) k ≡ some v
  pub get-put_ne :
      {V : Type 0} (t : Bucket V) (k j : Bytes) (v : V) → k ≢ j → get (put_entry t k v) j ≡ get t j
  pub get-remove_self : {V : Type 0} (t : Bucket V) (k : Bytes) → get (remove t k) k ≡ none
  pub get-remove_ne :
      {V : Type 0} (t : Bucket V) (k j : Bytes) → k ≢ j → get (remove t k) j ≡ get t j
  pub entries-get :
      {V : Type 0} (t : Bucket V) (k : Bytes) (v : V)
      → get t k ≡ some v
      → IsEntry (k, v) (entries t)
  pub get-entries :
      {V : Type 0} (t : Bucket V) (k : Bytes) (v : V)
      → IsEntry (k, v) (entries t)
      → get t k ≡ some v

module _ (b : Bolt) {V : Type 0} where
  -- What a bucket holds after a put is the new value or was there before.
  pub get-put_inv :
      (t : b.Bucket V) (k j : Bytes) (v w : V)
      → b.get (b.put_entry t k v) j ≡ some w
      → ((k ≡ j) × (v ≡ w)) ⊎ ((k ≢ j) × (b.get t j ≡ some w))
  get-put_inv t k j v w h = elim (Bytes-discrete k j) [
    | yes e ↦
        let here : some v ≡ some w =
          sym (b.get-put_self t k v) ∙ ap (b.get (b.put_entry t k v)) e ∙ h in
        inl (e, cc)
    | no n ↦ inr (n, sym (b.get-put_ne t k j v n) ∙ h)
  ]
