-- ===== src/Reorder.antt =====
-- internal/reorder/reorder.go: packets striped over several paths are put back into their order.
-- A packet is any value; instants are nanoseconds, and each reading of the clock is an argument.
pub mod Drain
pub mod Lowest
pub mod Invariant
pub mod Calls
pub mod Trace
pub mod Contents
mod Tests
use link_forge.Prelude.{
  ltb, leb, ◌==◌, if◌then◌else◌, is_some, length, ℕ, zero, suc, ◌+◌, ◌-◌, ◌*◌, ◌%◌, ◌^◌, Bool, not,
  ◌||◌, Option, none, some, List, [], ◌∷◌, ℕ_discrete,
}
use link_forge.Prelude.Int.{ℤ, pos, pos_part, ◌-ℤ◌, ltb_ℤ, leb_ℤ}
use link_forge.Prelude.Map.{Map, lookup, put, delete}

pub record Result (A : Type 0) : Type 0 where
  pub packets : List A
  pub skipped : ℕ  -- uint64

pub record Buffer (A : Type 0) : Type 0 where
  pub expected : ℕ  -- uint64
  pub pending : Map ℕ A
  pub gap_since : Option ℤ  -- `none` for the zero time
  pub max_packets : ℕ
  pub max_delay : ℕ

abbrev pub u64 : ℕ → ℕ
u64 n = n % 2 ^ 64

abbrev pub largest : ℕ
largest = 2 ^ 64 - 1

-- `gapSince`, set to `now` where it is zero.
abbrev pub opened : Option ℤ → ℤ → ℤ
opened none now = now
opened (some gap) now = gap

module _ {A : Type 0} where
  abbrev pub nothing : Result A
  nothing = record { packets = []; skipped = 0 }

  unfoldable pub new : ℤ → ℤ → Buffer A
  new max_packets max_delay = record {
    expected = 1;
    pending = [];
    gap_since = none;
    max_packets = if ltb_ℤ max_packets (pos 16) then 16 else pos_part max_packets;
    max_delay = if leb_ℤ max_delay (pos 0) then 80 * 10 ^ 6 else pos_part max_delay;
  }

  unfoldable pub reset : Buffer A → Buffer A
  reset b = record b { expected = 1; pending = []; gap_since = none }

  -- The loop of drain, from the next sequence number on.
  unfoldable pub drain_loop : ℕ → ℕ → Map ℕ A → List A × ℕ × Map ℕ A
  drain_loop zero expected pending = ([], expected, pending)
  drain_loop (suc fuel) expected pending = elim (lookup ℕ_discrete expected pending) [
    | none ↦ ([], expected, pending)
    | some packet ↦
        let rest = drain_loop fuel (u64 (expected + 1)) (delete ℕ_discrete expected pending) in
        (packet ∷ rest.0, rest.1, rest.2)
  ]

  -- Each round takes an entry out of the map, so its length is fuel enough.
  unfoldable pub drain : Buffer A → ℤ → Buffer A × List A
  drain b clock =
      let (packets, expected, pending) = drain_loop (length b.pending) b.expected b.pending in
      (
        record b {
          expected = expected;
          pending = pending;
          gap_since = if length pending == 0 then none else some clock;
        },
        packets,
      )

  -- The least key, from the largest uint64 down.
  unfoldable pub lowest_key : ℕ → Map ℕ A → ℕ
  lowest_key lowest [] = lowest
  lowest_key lowest ((sequence, packet) ∷ pending) =
      lowest_key (if ltb sequence lowest then sequence else lowest) pending

  unfoldable pub force_drain : Buffer A → ℤ → Buffer A × Result A
  force_drain b clock =
      let lowest = lowest_key largest b.pending in
      let (b', packets) = drain (record b { expected = lowest }) clock in
      if length b.pending == 0
      then (b, nothing)
      else (b', record { packets = packets; skipped = u64 (lowest + 2 ^ 64 - b.expected) })

  -- `now.Sub(b.gapSince) >= b.maxDelay`
  unfoldable pub is_overdue : Buffer A → ℤ → ℤ → Bool
  is_overdue b gap now = leb_ℤ (pos b.max_delay) (now -ℤ gap)

  unfoldable pub push : Buffer A → ℕ → A → ℤ → ℤ → Buffer A × Result A
  push b sequence packet now clock =
      let (next, packets) = drain (record b { expected = u64 (b.expected + 1) }) clock in
      let gap = opened b.gap_since now in
      let waiting = record b {
        pending = put ℕ_discrete sequence packet b.pending;
        gap_since = some gap;
      } in
      if ltb sequence b.expected
      then (b, nothing)
      else if sequence == b.expected
      then (next, record { packets = packet ∷ packets; skipped = 0 })
      else if is_some (lookup ℕ_discrete sequence b.pending)
      then (b, nothing)
      else if leb b.max_packets (length waiting.pending) || is_overdue b gap now
      then force_drain waiting clock
      else (waiting, nothing)

  unfoldable pub flush_expired : Buffer A → ℤ → ℤ → Buffer A × Result A
  flush_expired b now clock = elim b.gap_since [
    | none ↦ (b, nothing)
    | some gap ↦
        if length b.pending == 0 || not (is_overdue b gap now)
        then (b, nothing)
        else force_drain b clock
  ]
