-- ===== src/Reorder/Trace.antt =====
-- Whole runs of a buffer, where each packet is its own sequence number.
use link_forge.Prelude.{
  length, get_elem?, length-append, All, get_elem?-some, ℕ, suc, ◌+◌, ◌-◌, ◌^◌, ◌≤◌, ◌<◌, ◌≡◌, sym,
  ap, ◌∙◌, some, List, [], ◌∷◌, ◌++◌, arith, dec_lt, ℕ_discrete,
}
use link_forge.Prelude.Int.{ℤ}
use link_forge.Prelude.Map.{Map, lookup, lookup-put, All-lookup}
use link_forge.Reorder.{Result, Buffer, largest, new, push, flush_expired}
use link_forge.Reorder.Calls.{arrived, push-Delivered, flush_expired-Delivered}
use link_forge.Reorder.Invariant.{IsBuffer, Delivered, new-IsBuffer}

pub data Event : Type 0 where
  arrives : ℕ → ℤ → ℤ → Event
  ticks : ℤ → ℤ → Event

unfoldable pub step : Buffer ℕ → Event → Buffer ℕ × Result ℕ
step b (arrives sequence now clock) = push b sequence sequence now clock
step b (ticks now clock) = flush_expired b now clock

-- The final buffer, all that was delivered, and the sum of the skips.
pub record Run : Type 0 where
  pub buffer : Buffer ℕ
  pub delivered : List ℕ
  pub skipped : ℕ

unfoldable pub run : Buffer ℕ → List Event → Run
run b [] = record { buffer = b; delivered = []; skipped = 0 }
run b (e ∷ es) =
    let (b', r) = step b e in
    let rest = run b' es in
    record rest { delivered = r.packets ++ rest.delivered; skipped = r.skipped + rest.skipped }

-- Strictly rising numbers from `lo` on, below `hi`.
abbrev pub Rising : ℕ → List ℕ → ℕ → Type 0
Rising lo [] hi = lo ≤ hi
Rising lo (x ∷ xs) hi = (lo ≤ x) × Rising (x + 1) xs hi

-- The numbers stay below the largest one, so that the counter does not wrap.
abbrev pub InRange : Event → Type 0
InRange (arrives sequence now clock) = sequence < largest
InRange (ticks now clock) = Unit

Rising-append :
    (lo mid hi : ℕ) (xs ys : List ℕ) → Rising lo xs mid → Rising mid ys hi → Rising lo (xs ++ ys) hi
Rising-append lo mid hi [] [] h k = omega arith
Rising-append lo mid hi [] (y ∷ ys) h k = (omega arith, k.1)
Rising-append lo mid hi (x ∷ xs) ys h k = (h.0, Rising-append (x + 1) mid hi xs ys h.1 k)

Rising-from : (lo lo' hi : ℕ) (xs : List ℕ) → lo ≤ lo' → Rising lo' xs hi → Rising lo xs hi
Rising-from lo lo' hi [] h r = omega arith
Rising-from lo lo' hi (x ∷ xs) h r = (omega arith, r.1)

-- Consecutive numbers rise.
consecutive :
    (lo hi : ℕ) (xs : List ℕ)
    → lo + length xs ≤ hi
    → ((i : ℕ) → i < length xs → get_elem? xs i ≡ some (lo + i))
    → Rising lo xs hi
consecutive lo hi [] h f = omega arith
consecutive lo hi (x ∷ xs) h f =
    let first : some x ≡ some (lo + 0) = f 0 (omega arith) in
    let same : x ≡ lo = ground arith in
    (
      omega arith,
      rw same (
          consecutive (lo + 1) hi xs (omega arith)
            (λ i k. f (suc i) (omega arith) ∙ ap some (omega arith))),
    )

-- Each waiting packet is its number.
record IsTagged (b : Buffer ℕ) : Type 0 where
  valid : IsBuffer b
  top : b.expected ≤ largest
  tagged : (k v : ℕ) → lookup ℕ_discrete k b.pending ≡ some v → (k ≡ v) × (k < largest)

module _ {b : Buffer ℕ} {m : Map ℕ ℕ} {b' : Buffer ℕ} {r : Result ℕ} (d : Delivered b m b' r)
    (low : b.expected ≤ largest)
    (tags : (k v : ℕ) → lookup ℕ_discrete k m ≡ some v → (k ≡ v) × (k < largest)) where
  delivered_tag :
      (i : ℕ)
      → i < length r.packets
      → (get_elem? r.packets i ≡ some (b.expected + r.skipped + i))
        × (b.expected + r.skipped + i < largest)
  delivered_tag i h =
      let (v, found) = get_elem?-some r.packets i h in
      let (same, room) = tags _ v (d.in_order i h ∙ found) in (found ∙ ap some (sym same), room)

  -- The counter does not wrap.
  counted_exactly :
      (b'.expected ≡ b.expected + r.skipped + length r.packets) × (b'.expected ≤ largest)
  counted_exactly = elim (dec_lt 0 (length r.packets)) [
    | no n ↦ omega (arith, d.counted, d.skips (omega arith))
    | yes p ↦
        let room = (delivered_tag (length r.packets - 1) (omega arith)).1 in
        omega (arith, d.counted)
  ]

  delivered_Rising : Rising b.expected r.packets b'.expected
  delivered_Rising =
      Rising-from b.expected (b.expected + r.skipped) _ r.packets (omega arith)
        (consecutive _ _ r.packets (omega (arith, counted_exactly)) (λ i h. (delivered_tag i h).0))

  still_IsTagged : IsTagged b'
  still_IsTagged = record {
    valid = d.valid;
    top = counted_exactly.1;
    tagged = λ k v h.
        let key =
          All-lookup ℕ_discrete (λ kv. (b'.expected + 1 ≤ kv.0) × (kv.0 < 2 ^ 64)) k b'.pending h
            d.valid.above in
        tags k v (sym (d.kept k (omega (arith, counted_exactly, key))) ∙ h);
  }

-- One call delivers rising numbers from the expected one on and accounts for all it passes.
record Advances (b : Buffer ℕ) (b' : Buffer ℕ) (r : Result ℕ) : Type 0 where
  tagged : IsTagged b'
  rising : Rising b.expected r.packets b'.expected
  accounted : b'.expected ≡ b.expected + r.skipped + length r.packets

advance :
    {b : Buffer ℕ} {m : Map ℕ ℕ} {b' : Buffer ℕ} {r : Result ℕ}
    → Delivered b m b' r
    → b.expected ≤ largest
    → ((k v : ℕ) → lookup ℕ_discrete k m ≡ some v → (k ≡ v) × (k < largest))
    → Advances b b' r
advance d low tags = record {
  tagged = still_IsTagged d low tags;
  rising = delivered_Rising d low tags;
  accounted = (counted_exactly d low tags).0;
}

arrived_tags :
    (b : Buffer ℕ) (s : ℕ)
    → IsTagged b
    → s < largest
    → (k v : ℕ) → lookup ℕ_discrete k (arrived b s s) ≡ some v
    → (k ≡ v) × (k < largest)
arrived_tags b s t h k v e = ground (arith, lookup-put ℕ_discrete s k s b.pending, t.tagged k v)

step-Advances :
    (b : Buffer ℕ) (e : Event) → IsTagged b → InRange e → Advances b (step b e).0 (step b e).1
unfolding step
step-Advances b (arrives s now clock) t h =
    advance (push-Delivered b s s now clock t.valid (omega arith)) t.top (arrived_tags b s t h)
step-Advances b (ticks now clock) t h =
    advance (flush_expired-Delivered b now clock t.valid) t.top t.tagged

run-Advances :
    (b : Buffer ℕ) (es : List Event)
    → IsTagged b
    → All InRange es
    → let r = run b es in
      Rising b.expected r.delivered r.buffer.expected
      × (b.expected + length r.delivered + r.skipped ≡ r.buffer.expected)
unfolding run
run-Advances b [] t h = omega arith
run-Advances b (e ∷ es) t h =
    let a = step-Advances b e t h.0 in
    let (rising, accounted) = run-Advances (step b e).0 es a.tagged h.1 in
    (
      Rising-append _ _ _ (step b e).1.packets _ a.rising rising,
      omega
          (arith, a.accounted, length-append (step b e).1.packets (run (step b e).0 es).delivered),
    )

new-IsTagged : (max_packets max_delay : ℤ) → IsTagged (new max_packets max_delay)
unfolding new lookup
new-IsTagged max_packets max_delay = record {
  valid = unfold new in new-IsBuffer max_packets max_delay;
  top = omega arith;
  tagged = λ k v e. cc;
}

-- From a new buffer on, for any arrivals below the largest number and any clock, what is delivered
-- rises strictly, so that nothing is delivered twice or out of order, and the expected number
-- accounts for every number before it: each was delivered or counted as skipped.
pub run_in_order :
    (max_packets max_delay : ℤ) (es : List Event)
    → All InRange es
    → let r = run (new max_packets max_delay) es in
      Rising 1 r.delivered r.buffer.expected
      × (1 + length r.delivered + r.skipped ≡ r.buffer.expected)
unfolding new
run_in_order max_packets max_delay es h = run-Advances _ es (new-IsTagged max_packets max_delay) h
