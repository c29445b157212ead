-- ===== src/Reorder/Invariant.antt =====
-- What holds of a buffer between two calls, and what each call delivers.
use link_forge.Prelude.{
  ◌==◌, Option-cases, is_some, length, get_elem?, All-map, ℕ, ◌+◌, ◌-◌, ◌^◌, ◌≤◌, ◌<◌, ◌≡◌, refl,
  ap, ◌∙◌, inl, inr, true, not, List, arith, ℕ_discrete,
}
use link_forge.Prelude.Int.{ℤ}
use link_forge.Prelude.Map.{Map, lookup, All-lookup}
use link_forge.Reorder.{Result, Buffer, u64, largest, new, reset, drain, lowest_key, force_drain}
use link_forge.Reorder.Drain.{From, drain_loop-Drained, Drained-progress}
use link_forge.Reorder.Lowest.{lowest_key-From, lowest_key-is_some}

module _ {A : Type 0} where
  pub record IsBuffer (b : Buffer A) : Type 0 where
    pub expected_fits : b.expected < 2 ^ 64
    pub above : From (b.expected + 1) b.pending
    pub gap : is_some b.gap_since ≡ not (length b.pending == 0)
    pub bounded : length b.pending < b.max_packets
    pub capacity : 16 ≤ b.max_packets

  -- What a call returns, when `offered` is what has arrived and was not delivered before: no
  -- number is delivered out of turn, the skipped ones are counted, the rest keeps waiting.
  pub record Delivered (b : Buffer A) (offered : Map ℕ A) (b' : Buffer A) (r : Result A)
      : Type 0 where
    pub valid : IsBuffer b'
    pub in_order :
        (i : ℕ)
        → i < length r.packets
        → lookup ℕ_discrete (b.expected + r.skipped + i) offered ≡ get_elem? r.packets i
    -- Nothing is skipped without a packet behind it.
    pub skips : length r.packets ≡ 0 → r.skipped ≡ 0
    pub counted : b'.expected ≡ u64 (b.expected + r.skipped + length r.packets)
    pub kept :
        (k : ℕ)
        → b.expected + r.skipped + length r.packets ≤ k
        → lookup ℕ_discrete k b'.pending ≡ lookup ℕ_discrete k offered

  pub new-IsBuffer : (max_packets max_delay : ℤ) → IsBuffer (new max_packets max_delay)
  unfolding new
  new-IsBuffer max_packets max_delay = ground arith

  pub reset-IsBuffer : (b : Buffer A) → IsBuffer b → IsBuffer (reset b)
  unfolding reset
  reset-IsBuffer b v = ground (arith, v)

  -- A drain from `b.expected` over packets that wait there or later.
  pub drain-Delivered :
      (b : Buffer A) (clock : ℤ)
      → b.expected < 2 ^ 64
      → From b.expected b.pending
      → 16 ≤ b.max_packets
      → length b.pending < b.max_packets + length (drain b clock).1
      → Delivered b b.pending
          (drain b clock).0
          (record { packets = (drain b clock).1; skipped = 0 })
  unfolding drain
  drain-Delivered b clock e f c l =
      let d = drain_loop-Drained (length b.pending) b.expected b.pending (omega arith) e f in
      record {
        valid = record {
          expected_fits = omega (arith, d.counted);
          above = d.above;
          gap = ground arith;
          bounded = omega (arith, d.smaller);
          capacity = c;
        };
        in_order = λ i h. ap (λ n. lookup ℕ_discrete n b.pending) (omega arith) ∙ d.in_order i h;
        skips = λ _. refl;
        counted = d.counted ∙ ap u64 (omega arith);
        kept = λ k h. d.kept k (omega arith);
      }

  -- The buffer that a forced drain starts from.
  abbrev jumped : Buffer A → Buffer A
  jumped b = record b { expected = lowest_key largest b.pending }

  force_drain_lem :
      (b : Buffer A) (clock : ℤ)
      → 0 < length b.pending
      → force_drain b clock ≡ (
        (drain (jumped b) clock).0,
        record {
          packets = (drain (jumped b) clock).1;
          skipped = u64 (lowest_key largest b.pending + 2 ^ 64 - b.expected);
        },
      )
  unfolding force_drain
  force_drain_lem b clock h = ground arith

  drain-progress :
      (b : Buffer A) (clock : ℤ)
      → b.expected < 2 ^ 64
      → From b.expected b.pending
      → is_some (lookup ℕ_discrete b.expected b.pending) ≡ true
      → 0 < length (drain b clock).1
  unfolding drain
  drain-progress b clock e f h =
      Drained-progress b.expected b.pending _ e
        (drain_loop-Drained (length b.pending) b.expected b.pending (omega arith) e f) h

  -- A forced drain starts at the least waiting number, and delivers at least its packet.
  pub force_drain-Delivered :
      (b : Buffer A) (clock : ℤ)
      → b.expected < 2 ^ 64
      → From (b.expected + 1) b.pending
      → 16 ≤ b.max_packets
      → length b.pending ≤ b.max_packets
      → 0 < length b.pending
      → Delivered b b.pending (force_drain b clock).0 (force_drain b clock).1
        × (0 < length (force_drain b clock).1.packets)
  force_drain-Delivered b clock e f c l h =
      let fits = All-map _ (λ kv. kv.0 < 2 ^ 64) b.pending (λ kv p. p.1) f in
      let low = lowest_key largest b.pending in
      let found = lowest_key-is_some b.pending fits h in
      let range : (b.expected + 1 ≤ low) × (low < 2 ^ 64) = key_in low found in
      let from : From low b.pending = lowest_key-From largest b.pending fits in
      let more = drain-progress (jumped b) clock range.1 from found in
      let d = drain-Delivered (jumped b) clock range.1 from c (omega arith) in
      rw (force_drain_lem b clock h) (jump low range more d, more)
    where
      key_in :
          (k : ℕ)
          → is_some (lookup ℕ_discrete k b.pending) ≡ true
          → (b.expected + 1 ≤ k) × (k < 2 ^ 64)
      key_in k h = elim (Option-cases (lookup ℕ_discrete k b.pending)) [
        | inl miss ↦ cc (ap is_some miss)
        | inr (v, hit) ↦
            All-lookup ℕ_discrete (λ kv. (b.expected + 1 ≤ kv.0) × (kv.0 < 2 ^ 64)) k b.pending hit
              f
      ]

      jump :
          (low : ℕ)
          → (b.expected + 1 ≤ low) × (low < 2 ^ 64)
          → {b' : Buffer A} {ps : List A} → 0 < length ps
          → Delivered
              (record b { expected = low })
              b.pending
              b'
              (record { packets = ps; skipped = 0 })
          → Delivered b b.pending b'
              (record { packets = ps; skipped = u64 (low + 2 ^ 64 - b.expected) })
      jump low range more d = record {
        valid = d.valid;
        skips = λ h. absurd (omega arith);
        in_order = λ i h. ap (λ n. lookup ℕ_discrete n b.pending) (omega arith) ∙ d.in_order i h;
        counted = d.counted ∙ ap u64 (omega arith);
        kept = λ k h. d.kept k (omega arith);
      }
