-- ===== src/Reorder/Drain.antt =====
-- The draining loop: what it delivers, what it leaves, and that its fuel is enough.
use native.Mathlib.Nat.{mod-eq_of_lt}
use link_forge.Prelude.{
  Option-cases, is_some, length, get_elem?, All, ℕ, zero, suc, ◌+◌, ◌^◌, ◌≤◌, ◌<◌, ◌≡◌, refl, sym,
  ap, subst, ◌∙◌, inl, inr, true, none, some, List, [], ◌∷◌, arith, dec_lt, ℕ_discrete,
}
use link_forge.Prelude.Map.{Map, lookup, delete, length-delete_lt, All-delete, lookup-delete_ne}
use link_forge.Reorder.{u64, drain_loop}

module _ {A : Type 0} where
  -- Keys from `lo` on, of 64 bits.
  abbrev pub From : ℕ → Map ℕ A → Type 0
  From lo pending = All (λ kv. (lo ≤ kv.0) × (kv.0 < 2 ^ 64)) pending

  -- What a drain from `e` over `m` is to return.
  pub record Drained (e : ℕ) (m : Map ℕ A) (r : List A × ℕ × Map ℕ A) : Type 0 where
    -- The packets are those waiting at `e`, `e + 1` and so on.
    pub in_order : (i : ℕ) → i < length r.0 → lookup ℕ_discrete (e + i) m ≡ get_elem? r.0 i
    -- The next number is the one behind them, and nothing waits for it.
    pub counted : r.1 ≡ u64 (e + length r.0)
    pub done : lookup ℕ_discrete r.1 r.2 ≡ none
    -- The rest keeps waiting.
    pub kept : (k : ℕ) → e + length r.0 ≤ k → lookup ℕ_discrete k r.2 ≡ lookup ℕ_discrete k m
    pub above : From (r.1 + 1) r.2
    pub smaller : length r.2 + length r.0 ≤ length m

  From-miss : (e : ℕ) (m : Map ℕ A) → lookup ℕ_discrete e m ≡ none → From e m → From (e + 1) m
  unfolding lookup
  From-miss e [] h f = tt
  From-miss e ((k, v) ∷ m) h f = (ground arith, From-miss e m (ground arith) f.1)

  pub From-full : (e : ℕ) (m : Map ℕ A) → 2 ^ 64 ≤ e → From e m → m ≡ []
  From-full e [] h f = refl
  From-full e (x ∷ m) h f = absurd (omega arith)

  From-delete : (e : ℕ) (m : Map ℕ A) → From e m → From (e + 1) (delete ℕ_discrete e m)
  From-delete e m f = All-delete ℕ_discrete _ _ e m (λ j w n p. omega arith) f

  drain_loop-nil : (fuel e : ℕ) → drain_loop {A = A} fuel e [] ≡ ([], e, [])
  unfolding drain_loop lookup
  drain_loop-nil zero e = refl
  drain_loop-nil (suc fuel) e = refl

  -- Nothing waits for the next number.
  stop-Drained :
      (e : ℕ) (m : Map ℕ A)
      → e < 2 ^ 64
      → From e m
      → lookup ℕ_discrete e m ≡ none
      → Drained e m ([], e, m)
  stop-Drained e m b f h = record {
    in_order = λ i k. elim k [ ];
    counted = omega arith;
    done = h;
    kept = λ k _. refl;
    above = From-miss e m h f;
    smaller = omega arith;
  }

  -- The packet waiting at `e` goes first, the rest is drained from the next number.
  more-Drained :
      (e : ℕ) (m : Map ℕ A) (p : A) (r : List A × ℕ × Map ℕ A)
      → e + 1 < 2 ^ 64
      → lookup ℕ_discrete e m ≡ some p
      → Drained (e + 1) (delete ℕ_discrete e m) r
      → Drained e m (p ∷ r.0, r.1, r.2)
  more-Drained e m p r b h rest = record {
    in_order = in_order_more;
    counted = omega (arith, rest.counted);
    done = rest.done;
    kept = λ k le. rest.kept k (omega arith) ∙ lookup-delete_ne ℕ_discrete e k m (omega arith);
    above = rest.above;
    smaller = omega (arith, rest.smaller, length-delete_lt ℕ_discrete e m p h);
  }
    where
      in_order_more :
          (i : ℕ) → i < suc (length r.0) → lookup ℕ_discrete (e + i) m ≡ get_elem? (p ∷ r.0) i
      in_order_more zero k = ap (λ j. lookup ℕ_discrete j m) (omega arith) ∙ h
      in_order_more (suc i) k =
          ap (λ j. lookup ℕ_discrete j m) (omega arith)
          ∙ sym (lookup-delete_ne ℕ_discrete e (e + 1 + i) m (omega arith))
          ∙ rest.in_order i (omega arith)

  -- The packet waiting at the largest number is the last one.
  last-Drained :
      (e : ℕ) (m : Map ℕ A) (p : A)
      → e + 1 ≡ 2 ^ 64
      → lookup ℕ_discrete e m ≡ some p
      → From e m
      → Drained e m (p ∷ [], 0, [])
  last-Drained e m p b h f = record {
    in_order = in_order_last;
    counted = omega arith;
    done = unfold lookup in refl;
    kept = λ k le.
        ap (lookup ℕ_discrete k) (sym empty) ∙ lookup-delete_ne ℕ_discrete e k m (omega arith);
    above = tt;
    smaller = omega (arith, length-delete_lt ℕ_discrete e m p h);
  }
    where
      empty : delete ℕ_discrete e m ≡ []
      empty = From-full (e + 1) _ (omega arith) (From-delete e m f)

      in_order_last : (i : ℕ) → i < 1 → lookup ℕ_discrete (e + i) m ≡ get_elem? (p ∷ []) i
      in_order_last zero k = ap (λ j. lookup ℕ_discrete j m) (omega arith) ∙ h
      in_order_last (suc i) k = absurd (omega arith)

  -- From a number of 64 bits on, with all waiting packets at or above it, the loop ends within its
  -- fuel, and delivers the packets that wait at consecutive numbers, up to the first gap.
  pub drain_loop-Drained :
      (fuel e : ℕ) (m : Map ℕ A)
      → length m ≤ fuel
      → e < 2 ^ 64
      → From e m
      → Drained e m (drain_loop fuel e m)
  unfolding drain_loop
  drain_loop-Drained zero e [] h b f = stop-Drained e [] b f (unfold lookup in refl)
  drain_loop-Drained zero e (x ∷ m) h b f = absurd (omega arith)
  drain_loop-Drained (suc fuel) e m h b f = elim (Option-cases (lookup ℕ_discrete e m)) [
    | inl miss ↦ rw (miss, drain_loop) (stop-Drained e m b f miss)
    | inr (p, hit) ↦ elim (dec_lt (e + 1) (2 ^ 64)) [
      | yes room ↦
          rw (hit, drain_loop, mod-eq_of_lt room)
            (more-Drained e m p _ room hit (
              drain_loop-Drained fuel (e + 1) (delete ℕ_discrete e m)
                (omega (arith, length-delete_lt ℕ_discrete e m p hit)) room (From-delete e m f)))
      | no full ↦
          let last : e + 1 ≡ 2 ^ 64 = omega arith in
          let empty : delete ℕ_discrete e m ≡ [] =
            From-full (e + 1) _ (omega arith) (From-delete e m f) in
          rw (hit, drain_loop, empty, drain_loop-nil fuel (u64 (e + 1)), last)
            (last-Drained e m p last hit f)
    ]
  ]

  -- A packet that waits at the start is delivered.
  pub Drained-progress :
      (e : ℕ) (m : Map ℕ A) (r : List A × ℕ × Map ℕ A)
      → e < 2 ^ 64
      → Drained e m r
      → is_some (lookup ℕ_discrete e m) ≡ true
      → 0 < length r.0
  Drained-progress e m r b d h = elim (dec_lt 0 (length r.0)) [
    | yes p ↦ p
    | no n ↦
        let same : r.1 ≡ e = omega (arith, d.counted) in
        let gone : lookup ℕ_discrete e m ≡ none =
          sym (d.kept e (omega arith)) ∙ subst (λ k. lookup ℕ_discrete k r.2 ≡ none) same d.done in
        cc (ap is_some gone)
  ]
