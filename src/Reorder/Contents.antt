-- ===== src/Reorder/Contents.antt =====
-- A reorder buffer gives out only packets that it was given.
use link_forge.Prelude.{
  ltb, leb, ◌==◌, if◌then◌else◌, Bool-cases, Option-cases, is_some, length, All, ℕ, zero, suc, ◌+◌,
  ◌≡◌, sym, subst, inl, inr, Bool, true, false, not, ◌||◌, some, List, [], ◌∷◌, arith, ℕ_discrete,
}
use link_forge.Prelude.Int.{ℤ}
use link_forge.Prelude.Map.{Map, lookup, put, delete, All-put, All-delete, All-lookup}
use link_forge.Protocol.Hello.Layout.{packet}
use link_forge.Reorder.{
  Result, Buffer, u64, largest, opened, nothing, drain_loop, drain, lowest_key, force_drain,
  is_overdue, push, flush_expired,
}

module _ {A : Type 0} (P : A → Type 0) where
  -- The packets that wait.
  abbrev pub Holds : Buffer A → Type 0
  Holds b = All (λ e. P e.1) b.pending

  -- What a call leaves waiting, and what it delivers.
  abbrev pub Gives : Buffer A × Result A → Type 0
  Gives r = Holds r.0 × All P r.1.packets

  abbrev pub Drains : List A × ℕ × Map ℕ A → Type 0
  Drains r = All P r.0 × All (λ e. P e.1) r.2

  drain_loop-All : (fuel e : ℕ) (m : Map ℕ A) → All (λ e. P e.1) m → Drains (drain_loop fuel e m)
  unfolding drain_loop
  drain_loop-All zero e m h = (tt, h)
  drain_loop-All (suc fuel) e m h = elim (Option-cases (lookup ℕ_discrete e m)) [
    | inl gone ↦
        let same : drain_loop (suc fuel) e m ≡ ([], e, m) = ground arith in
        subst Drains (sym same) (tt, h)
    | inr (packet, found) ↦
        let first = All-lookup ℕ_discrete (λ e. P e.1) e m found h in
        let rest =
          drain_loop-All fuel (u64 (e + 1)) (delete ℕ_discrete e m)
            (All-delete ℕ_discrete (λ e. P e.1) (λ e. P e.1) e m (λ j w n p. p) h) in
        let r = drain_loop fuel (u64 (e + 1)) (delete ℕ_discrete e m) in
        let same : drain_loop (suc fuel) e m ≡ (packet ∷ r.0, r.1, r.2) = ground arith in
        subst Drains (sym same) ((first, rest.0), rest.1)
  ]

  drain-All :
      (b : Buffer A) (clock : ℤ) → Holds b → Holds (drain b clock).0 × All P (drain b clock).1
  unfolding drain
  drain-All b clock h =
      let r = drain_loop-All (length b.pending) b.expected b.pending h in (r.1, r.0)

  Gives-if : (c : Bool) (x y : Buffer A × Result A) → Gives x → Gives y → Gives (if c then x else y)
  Gives-if true x y f g = f
  Gives-if false x y f g = g

  force_drain-Gives : (b : Buffer A) (clock : ℤ) → Holds b → Gives (force_drain b clock)
  unfolding force_drain
  force_drain-Gives b clock h =
      let low = record b { expected = lowest_key largest b.pending } in
      let r = drain-All low clock h in Gives-if (length b.pending == 0) _ _ (h, tt) r

  -- If a property holds of all packets that wait and of the new one, it holds of those that wait
  -- behind a push and of those that it delivers.
  pub push-Gives :
      (b : Buffer A) (sequence : ℕ) (packet : A) (now clock : ℤ)
      → P packet
      → Holds b
      → Gives (push b sequence packet now clock)
  unfolding push
  push-Gives b sequence packet now clock p h =
      let waiting = record b {
        pending = put ℕ_discrete sequence packet b.pending;
        gap_since = some (opened b.gap_since now);
      } in
      let held = All-put ℕ_discrete (λ e. P e.1) sequence packet b.pending p h in
      let next = drain-All (record b { expected = u64 (b.expected + 1) }) clock h in
      Gives-if (ltb sequence b.expected) _ _ (h, tt)
        (Gives-if (sequence == b.expected) _ _ (next.0, (p, next.1))
          (Gives-if (is_some (lookup ℕ_discrete sequence b.pending)) _ _ (h, tt)
            (Gives-if
              (leb b.max_packets (length waiting.pending)
                || is_overdue b (opened b.gap_since now) now)
              _ _ (force_drain-Gives waiting clock held) (held, tt))))

  pub flush_expired-Gives :
      (b : Buffer A) (now clock : ℤ) → Holds b → Gives (flush_expired b now clock)
  unfolding flush_expired
  flush_expired-Gives b now clock h = elim (Option-cases b.gap_since) [
    | inl no_gap ↦
        let same : flush_expired b now clock ≡ (b, nothing) = ground arith in
        subst Gives (sym same) (h, tt)
    | inr (gap, since) ↦ elim (Bool-cases (length b.pending == 0 || not (is_overdue b gap now))) [
      | inl waits ↦
          let same : flush_expired b now clock ≡ (b, nothing) = ground arith in
          subst Gives (sym same) (h, tt)
      | inr overdue ↦
          let same : flush_expired b now clock ≡ force_drain b clock = ground arith in
          subst Gives (sym same) (force_drain-Gives b clock h)
    ]
  ]
