-- ===== src/Control/Tests/ListBolt.antt =====
-- A database whose buckets are lists of entries.
-- The values that a list holds under the keys.
use link_forge.Control.Bucket.{IsEntry, Bolt}
use link_forge.Prelude.{
  Option-cases, length, suc, ◌≡◌, sym, ap, subst, ◌∙◌, inl, inr, if_neg, none, some, List, [], ◌∷◌,
  map, arith,
}
use link_forge.Prelude.Map.{
  Map, lookup, put, delete, lookup-delete_ne, lookup-put_ne, lookup-put_self, lookup-delete_self,
}
use link_forge.Protocol.Bytes.{Bytes, Bytes-discrete}

abbrev pub values_at : {V : Type 0} → Map Bytes V → List Bytes → List (Bytes × V)
values_at t [] = []
values_at t (k ∷ ks) = elim (lookup Bytes-discrete k t) [
  | none ↦ values_at t ks
  | some v ↦ (k, v) ∷ values_at t ks
]

values_at-none :
    {V : Type 0} (t : Map Bytes V) (j : Bytes) (ks : List Bytes)
    → lookup Bytes-discrete j t ≡ none
    → values_at t (j ∷ ks) ≡ values_at t ks
values_at-none t j ks e = ground arith

values_at-some :
    {V : Type 0} (t : Map Bytes V) (j : Bytes) (ks : List Bytes) (w : V)
    → lookup Bytes-discrete j t ≡ some w
    → values_at t (j ∷ ks) ≡ (j, w) ∷ values_at t ks
values_at-some t j ks w e = ground arith

pub get-values_at :
    {V : Type 0} (t : Map Bytes V) (ks : List Bytes) (k : Bytes) (v : V)
    → IsEntry (k, v) (values_at t ks)
    → lookup Bytes-discrete k t ≡ some v
get-values_at t [] k v h = absurd h
get-values_at {V} t (j ∷ ks) k v h = elim (Option-cases (lookup Bytes-discrete j t)) [
  | inl absent ↦ get-values_at t ks k v (subst (IsEntry (k, v)) (values_at-none t j ks absent) h)
  | inr (w, present) ↦ elim (subst (IsEntry (k, v)) (values_at-some t j ks w present) h) [
    | inl same ↦
        ap (λ x. lookup Bytes-discrete x t) (sym (ap (λ e. e.0) same))
        ∙ present
        ∙ ap (λ e. some e.1) same
    | inr later ↦ get-values_at t ks k v later
  ]
]

pub values_at-get :
    {V : Type 0} (t : Map Bytes V) (ks : List Bytes) (k : Bytes) (v : V)
    → lookup Bytes-discrete k t ≡ some v
    → IsEntry k ks
    → IsEntry (k, v) (values_at t ks)
values_at-get t [] k v h i = absurd i
values_at-get {V} t (j ∷ ks) k v h i = elim i [
  | inl same ↦
      let there : lookup Bytes-discrete j t ≡ some v =
        ap (λ x. lookup Bytes-discrete x t) same ∙ h in
      subst (IsEntry (k, v)) (sym (values_at-some t j ks v there)) (inl (ap (λ x. (x, v)) same))
  | inr later ↦ elim (Option-cases (lookup Bytes-discrete j t)) [
    | inl absent ↦
        subst (IsEntry (k, v)) (sym (values_at-none t j ks absent)) (values_at-get t ks k v h later)
    | inr (w, there) ↦
        subst (IsEntry (k, v)) (sym (values_at-some t j ks w there))
          (inr (values_at-get t ks k v h later))
  ]
]

pub key-lookup :
    {V : Type 0} (t : Map Bytes V) (k : Bytes) (v : V)
    → lookup Bytes-discrete k t ≡ some v
    → IsEntry k (map (λ e. e.0) t)
unfolding lookup
key-lookup {V} [] k v h = absurd (no_value h)
  where
    no_value : none ≡ some v → ⊥
    no_value p = ground arith
key-lookup {V} ((j, w) ∷ t) k v h = elim (Bytes-discrete j k) [
  | yes e ↦ inl e
  | no n ↦ inr (
      key-lookup t k v
        (sym (if_neg (Bytes-discrete j k) n (some w) (lookup Bytes-discrete k t)) ∙ h))
]

abbrev pub list_bolt : Bolt
list_bolt = record {
  Bucket = λ V. Map Bytes V;
  get = λ t k. lookup Bytes-discrete k t;
  put_entry = λ t k v. put Bytes-discrete k v t;
  remove = λ t k. delete Bytes-discrete k t;
  entries = λ t. values_at t (map (λ e. e.0) t);
  next_sequence = λ t. (suc (length t), t);
  get-put_self = λ t k v. lookup-put_self Bytes-discrete k v t;
  get-put_ne = λ t k j v n. lookup-put_ne Bytes-discrete k j v t n;
  get-remove_self = λ t k. lookup-delete_self Bytes-discrete k t;
  get-remove_ne = λ t k j n. lookup-delete_ne Bytes-discrete k j t n;
  entries-get = λ t k v h. values_at-get t (map (λ e. e.0) t) k v h (key-lookup t k v h);
  get-entries = λ t k v h. get-values_at t (map (λ e. e.0) t) k v h;
}
