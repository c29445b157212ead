-- ===== src/Reorder/Calls.antt =====
-- The calls of a buffer keep its invariant and deliver in order.
use native.Mathlib.Nat.{mod-eq_of_lt}
use link_forge.Prelude.{
  ltb, leb, ◌==◌, if◌then◌else◌, ==_iff, Bool-cases, Option-cases, is_some, length, get_elem?,
  get_elem?-some, ℕ, zero, suc, ◌+◌, ◌^◌, ◌≤◌, ◌<◌, ◌≡◌, refl, sym, ap, subst, ◌∙◌, ◌⊎◌, inl, inr,
  true, false, not, ◌||◌, none, some, List, [], ◌∷◌, arith, dec_lt, ℕ_discrete,
}
use link_forge.Prelude.Int.{ℤ}
use link_forge.Prelude.Map.{
  Map, lookup, put, All-put, All-lookup, length-put, lookup-put_ne, lookup-put_self, length-put_pos,
}
use link_forge.Reorder.{
  Result, Buffer, u64, opened, nothing, drain, force_drain, is_overdue, push, flush_expired,
}
use link_forge.Reorder.Drain.{From, From-full}
use link_forge.Reorder.Invariant.{IsBuffer, Delivered, drain-Delivered, force_drain-Delivered}

module _ {A : Type 0} where
  -- What waits or has just arrived: a late packet and a duplicate are dropped.
  abbrev pub arrived : Buffer A → ℕ → A → Map ℕ A
  arrived b sequence packet =
      if ltb sequence b.expected || is_some (lookup ℕ_discrete sequence b.pending)
      then b.pending
      else put ℕ_discrete sequence packet b.pending

  nothing-Delivered : (b : Buffer A) → IsBuffer b → Delivered b b.pending b nothing
  nothing-Delivered b v = record {
    valid = v;
    in_order = λ i h. elim h [ ];
    skips = λ _. refl;
    counted = omega (arith, v.expected_fits);
    kept = λ k h. refl;
  }

  packets_of-Delivered :
      (b b' : Buffer A) (r : Result A) → Delivered b [] b' r → length r.packets ≡ 0
  unfolding lookup
  packets_of-Delivered b b' r d = elim (dec_lt 0 (length r.packets)) [
    | no n ↦ omega arith
    | yes p ↦
        let (a, found) = get_elem?-some r.packets 0 p in
        let missing : none ≡ get_elem? r.packets 0 = d.in_order 0 p in cc
  ]

  -- Only the next number of the buffer counts.
  Delivered-start :
      (b c : Buffer A) {m : Map ℕ A} {b' : Buffer A} {r : Result A}
      → b.expected ≡ c.expected
      → Delivered b m b' r
      → Delivered c m b' r
  Delivered-start b c {m} {b'} {r} e d = record {
    valid = d.valid;
    in_order = λ i h. ap (λ n. lookup ℕ_discrete (n + r.skipped + i) m) (sym e) ∙ d.in_order i h;
    skips = d.skips;
    counted = d.counted ∙ ap (λ n. u64 (n + r.skipped + length r.packets)) e;
    kept = λ k h. d.kept k (omega arith);
  }

  module _ (b : Buffer A) (v : IsBuffer b) (sequence : ℕ) (packet : A) where
    fresh : sequence ≤ b.expected → lookup ℕ_discrete sequence b.pending ≡ none
    fresh h = elim (Option-cases (lookup ℕ_discrete sequence b.pending)) [
      | inl miss ↦ miss
      | inr (w, hit) ↦
          let key =
            All-lookup ℕ_discrete (λ kv. (b.expected + 1 ≤ kv.0) × (kv.0 < 2 ^ 64)) sequence
              b.pending hit v.above in
          absurd (omega (arith, key))
    ]

    -- The next packet goes out with those that waited for it.
    join_next :
        (b' : Buffer A) (ps : List A)
        → sequence ≡ b.expected
        → (b.expected + 1 < 2 ^ 64) ⊎ (length ps ≡ 0)
        → Delivered
            (record b { expected = u64 (b.expected + 1) })
            b.pending
            b'
            (record { packets = ps; skipped = 0 })
        → Delivered b
            (put ℕ_discrete sequence packet b.pending)
            b'
            (record { packets = packet ∷ ps; skipped = 0 })
    join_next b' ps e room d = record {
      valid = d.valid;
      in_order = in_order_next;
      skips = λ _. refl;
      counted = d.counted ∙ omega arith;
      kept = λ k h.
          kept_behind k h
          ∙ sym (lookup-put_ne ℕ_discrete sequence k packet b.pending (omega arith));
    }
      where
        kept_behind :
            (k : ℕ)
            → b.expected + 0 + suc (length ps) ≤ k
            → lookup ℕ_discrete k b'.pending ≡ lookup ℕ_discrete k b.pending
        kept_behind k h = d.kept k (omega arith)

        in_order_next :
            (i : ℕ)
            → i < suc (length ps)
            → lookup ℕ_discrete (b.expected + 0 + i) (put ℕ_discrete sequence packet b.pending)
              ≡ get_elem? (packet ∷ ps) i
        in_order_next zero h =
            ap (λ n. lookup ℕ_discrete n (put ℕ_discrete sequence packet b.pending)) (omega arith)
            ∙ lookup-put_self ℕ_discrete sequence packet b.pending
        in_order_next (suc i) h =
            lookup-put_ne ℕ_discrete sequence _ packet b.pending (omega arith)
            ∙ ap (λ n. lookup ℕ_discrete n b.pending) (omega arith)
            ∙ d.in_order i (omega arith)

    next-Delivered :
        (clock : ℤ)
        → sequence ≡ b.expected
        → let r = drain (record b { expected = u64 (b.expected + 1) }) clock in
          Delivered b
            (put ℕ_discrete sequence packet b.pending)
            r.0
            (record { packets = packet ∷ r.1; skipped = 0 })
    next-Delivered clock e = elim (dec_lt (b.expected + 1) (2 ^ 64)) [
      | yes room ↦ join_next _ _ e (inl room) (
          drain-Delivered (record b { expected = u64 (b.expected + 1) }) clock (omega arith)
            (rw (mod-eq_of_lt room) v.above) v.capacity (omega (arith, v.bounded)))
      | no full ↦
          let after_one : Buffer A = record b { expected = u64 (b.expected + 1) } in
          let none_left : b.pending ≡ [] = From-full _ b.pending (omega arith) v.above in
          let d =
            drain-Delivered (record b { expected = u64 (b.expected + 1) }) clock (omega arith)
              (rw none_left tt) v.capacity (omega (arith, v.bounded)) in
          join_next _ _ e
            (inr (
              packets_of-Delivered _ _ _ (
                subst
                  (λ m.
                    Delivered after_one m (drain after_one clock).0
                      (record { packets = (drain after_one clock).1; skipped = 0 }))
                  none_left d)))
            d
    ]

    waiting : ℤ → Buffer A
    waiting now = record b {
      pending = put ℕ_discrete sequence packet b.pending;
      gap_since = some (opened b.gap_since now);
    }

  module _ (b : Buffer A) (v : IsBuffer b) (sequence : ℕ) (packet : A) (now clock : ℤ)
      (fits : sequence < 2 ^ 64) where
    Outcome : Buffer A × Result A → Type 0
    Outcome r = Delivered b (arrived b sequence packet) r.0 r.1

    waiting_above :
        b.expected < sequence → From (b.expected + 1) (put ℕ_discrete sequence packet b.pending)
    waiting_above h = All-put ℕ_discrete _ sequence packet b.pending (omega (arith, fits)) v.above

    waiting-Outcome :
        b.expected < sequence
        → lookup ℕ_discrete sequence b.pending ≡ none
        → leb b.max_packets (length (put ℕ_discrete sequence packet b.pending)) ≡ false
        → Delivered b
            (put ℕ_discrete sequence packet b.pending)
            (waiting b v sequence packet now)
            nothing
    unfolding waiting
    waiting-Outcome h e k = record {
      valid = record {
        expected_fits = v.expected_fits;
        above = waiting_above h;
        gap = ground (arith, length-put_pos ℕ_discrete sequence packet b.pending);
        bounded = ground arith;
        capacity = v.capacity;
      };
      in_order = λ i l. elim l [ ];
      skips = λ _. refl;
      counted = omega (arith, v.expected_fits);
      kept = λ j l. refl;
    }

    forced-Outcome :
        b.expected < sequence
        → Delivered b
            (put ℕ_discrete sequence packet b.pending)
            (force_drain (waiting b v sequence packet now) clock).0
            (force_drain (waiting b v sequence packet now) clock).1
    unfolding waiting
    forced-Outcome h =
        Delivered-start (waiting b v sequence packet now) b refl
          (force_drain-Delivered (waiting b v sequence packet now) clock v.expected_fits
            (waiting_above h) v.capacity
            (omega (arith, v.bounded, length-put ℕ_discrete sequence packet b.pending))
            (length-put_pos ℕ_discrete sequence packet b.pending)).0

    -- Each branch of Push.
    push-Outcome : Outcome (push b sequence packet now clock)
    unfolding Outcome waiting push
    push-Outcome = elim (Bool-cases (ltb sequence b.expected)) [
      | inl late ↦ rw (late, push) (nothing-Delivered b v)
      | inr due ↦ elim (Bool-cases (sequence == b.expected)) [
        | inl next ↦
            let e : sequence ≡ b.expected = (==_iff _ _).0 next in
            rw (due, fresh b v sequence packet (omega arith), next, push)
              (next-Delivered b v sequence packet clock e)
        | inr early ↦ elim (Option-cases (lookup ℕ_discrete sequence b.pending)) [
          | inr (w, twice) ↦ rw (due, twice, early, push) (nothing-Delivered b v)
          | inl first ↦
              elim (Bool-cases (
                leb b.max_packets (length (put ℕ_discrete sequence packet b.pending))
                || is_overdue b (opened b.gap_since now) now)) [
                  | inl force ↦ rw (due, first, early, force, push) (forced-Outcome (ground arith))
                  | inr wait ↦
                      rw (due, first, early, wait, push)
                        (waiting-Outcome (ground arith) first (ground arith))
                ]
        ]
      ]
    ]

  -- Push, on every branch: a late or repeated packet changes nothing; the packets that are
  -- delivered are those at the numbers from the next expected one on, behind the ones counted as
  -- skipped; the rest keeps waiting, fewer than `max_packets` of them, and the next number is the
  -- one behind the last delivered packet, modulo 2^64.
  pub push-Delivered :
      (b : Buffer A) (sequence : ℕ) (packet : A) (now clock : ℤ)
      → IsBuffer b
      → sequence < 2 ^ 64
      → Delivered b
          (arrived b sequence packet)
          (push b sequence packet now clock).0
          (push b sequence packet now clock).1
  unfolding Outcome
  push-Delivered b sequence packet now clock v s = push-Outcome b v sequence packet now clock s

  flush_quiet :
      (b : Buffer A) (now clock : ℤ) (gap : ℤ)
      → b.gap_since ≡ some gap
      → (length b.pending == 0 || not (is_overdue b gap now)) ≡ true
      → flush_expired b now clock ≡ (b, nothing)
  unfolding flush_expired
  flush_quiet b now clock gap e h = ground arith

  flush_forced :
      (b : Buffer A) (now clock : ℤ) (gap : ℤ)
      → b.gap_since ≡ some gap
      → (length b.pending == 0 || not (is_overdue b gap now)) ≡ false
      → flush_expired b now clock ≡ force_drain b clock
  unfolding flush_expired
  flush_forced b now clock gap e h = ground arith

  flush_closed :
      (b : Buffer A) (now clock : ℤ) → b.gap_since ≡ none → flush_expired b now clock ≡ (b, nothing)
  unfolding flush_expired
  flush_closed b now clock e = ground arith

  -- FlushExpired keeps the buffer's invariant, delivers in order and counts what it skips.
  pub flush_expired-Delivered :
      (b : Buffer A) (now clock : ℤ)
      → IsBuffer b
      → Delivered b b.pending (flush_expired b now clock).0 (flush_expired b now clock).1
  flush_expired-Delivered b now clock v = elim (Option-cases b.gap_since) [
    | inl closed ↦ rw (flush_closed b now clock closed) (nothing-Delivered b v)
    | inr (gap, e) ↦ elim (Bool-cases (length b.pending == 0 || not (is_overdue b gap now))) [
      | inl hold ↦ rw (flush_quiet b now clock gap e hold) (nothing-Delivered b v)
      | inr force ↦
          rw (flush_forced b now clock gap e force)
            (force_drain-Delivered b clock v.expected_fits v.above v.capacity
              (omega (arith, v.bounded)) (ground arith)).0
    ]
  ]

  -- Where a gap has been open for `max_delay`, FlushExpired delivers at least one packet: a lost
  -- packet holds the others up for no longer.
  pub flush_expired-progress :
      (b : Buffer A) (now clock gap : ℤ)
      → IsBuffer b
      → b.gap_since ≡ some gap
      → is_overdue b gap now ≡ true
      → 0 < length (flush_expired b now clock).1.packets
  flush_expired-progress b now clock gap v e o =
      let g : is_some b.gap_since ≡ not (length b.pending == 0) = v.gap in
      let waits : (length b.pending == 0) ≡ false = ground arith in
      rw (flush_forced b now clock gap e (ground arith))
        (force_drain-Delivered b clock v.expected_fits v.above v.capacity (omega (arith, v.bounded))
          (ground arith)).1
