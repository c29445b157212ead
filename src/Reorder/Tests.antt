-- ===== src/Reorder/Tests.antt =====
-- The reorder buffer on a short history.
use link_forge.Prelude.{length, ℕ, ◌+◌, ◌<◌, ◌≡◌, refl, some, List, [], ◌∷◌, arith, ℕ_discrete}
use link_forge.Prelude.Int.{pos, ◌-ℤ◌}
use link_forge.Prelude.Map.{lookup, delete}
use link_forge.Reorder.{
  Buffer, new, drain_loop, drain, lowest_key, force_drain, is_overdue, push, flush_expired,
}
use link_forge.Reorder.Calls.{
  arrived, push-Delivered, flush_expired-Delivered, flush_expired-progress,
}
use link_forge.Reorder.Drain.{Drained, drain_loop-Drained}
use link_forge.Reorder.Invariant.{IsBuffer, Delivered}
use link_forge.Reorder.Trace.{Event, arrives, ticks, run, Rising, run_in_order}

abbrev gapped : Buffer ℕ
gapped = record {
  expected = 1;
  pending = (3, 3) ∷ (4, 4) ∷ [];
  gap_since = some (pos 0);
  max_packets = 16;
  max_delay = 80;
}

gapped-IsBuffer : IsBuffer gapped
gapped-IsBuffer = record {
  expected_fits = omega arith;
  above = omega arith;
  gap = refl;
  bounded = omega arith;
  capacity = omega arith;
}

push-Delivered_example :
    Delivered gapped
      (arrived gapped 1 1)
      (push gapped 1 1 (pos 5) (pos 5)).0
      (push gapped 1 1 (pos 5) (pos 5)).1
push-Delivered_example = push-Delivered gapped 1 1 (pos 5) (pos 5) gapped-IsBuffer (omega arith)

flush_expired-Delivered_example :
    Delivered gapped gapped.pending
      (flush_expired gapped (pos 90) (pos 90)).0
      (flush_expired gapped (pos 90) (pos 90)).1
flush_expired-Delivered_example = flush_expired-Delivered gapped (pos 90) (pos 90) gapped-IsBuffer

flush_expired-progress_example : 0 < length (flush_expired gapped (pos 90) (pos 90)).1.packets
unfolding is_overdue ◌-ℤ◌
flush_expired-progress_example =
    flush_expired-progress gapped (pos 90) (pos 90) (pos 0) gapped-IsBuffer refl refl

flushed : (flush_expired gapped (pos 90) (pos 90)).1 ≡ record { packets = 3 ∷ 4 ∷ []; skipped = 2 }
unfolding flush_expired is_overdue ◌-ℤ◌ force_drain drain drain_loop lowest_key lookup delete
    ℕ_discrete
flushed = refl

drain_loop-Drained_example :
    Drained {A = ℕ} 3 ((3, 3) ∷ (4, 4) ∷ []) (drain_loop 2 3 ((3, 3) ∷ (4, 4) ∷ []))
drain_loop-Drained_example =
    drain_loop-Drained 2 3 ((3, 3) ∷ (4, 4) ∷ []) (omega arith) (omega arith) (omega arith)

abbrev history : List Event
history =
    arrives 1 (pos 0) (pos 0)
    ∷ arrives 4 (pos 1) (pos 1)
    ∷ arrives 3 (pos 2) (pos 2)
    ∷ ticks (pos 90) (pos 90)
    ∷ arrives 2 (pos 91) (pos 91)
    ∷ []

run_in_order_example :
    let r = run (new (pos 32) (pos 80)) history in
    Rising 1 r.delivered r.buffer.expected
    × (1 + length r.delivered + r.skipped ≡ r.buffer.expected)
run_in_order_example = run_in_order (pos 32) (pos 80) history (omega arith)
