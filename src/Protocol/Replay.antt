-- ===== src/Protocol/Replay.antt =====
-- ReplayWindow of internal/protocol/protocol.go: a 64-packet sliding window, a bit for each of the
-- sequence numbers `highest`, `highest - 1`, ... in an uint64.
pub mod Refinement
pub mod Once
use link_forge.Prelude.{
  ltb, leb, if◌then◌else◌, ℕ, ◌-◌, ◌*◌, ◌%◌, ◌^◌, Bool, true, false, not, ◌||◌, List, [], ◌∷◌,
}
use link_forge.Prelude.Bits.{test_bit, set_bit}

pub record ReplayWindow : Type 0 where
  pub highest : ℕ  -- uint64
  pub bitmap : ℕ  -- uint64
  pub started : Bool

-- The zero value, which a path starts with.
abbrev pub empty_window : ReplayWindow
empty_window = record { highest = 0; bitmap = 0; started = false }

-- `bitmap <<= shift`, or 0 where the whole window is passed.
unfoldable pub shift_window : ℕ → ℕ → ℕ
shift_window shift bitmap = if leb 64 shift then 0 else bitmap * 2 ^ shift % 2 ^ 64

unfoldable pub accept : ReplayWindow → ℕ → ReplayWindow × Bool
accept w sequence =
    let delta = w.highest - sequence in
    if not w.started
    then (record { highest = sequence; bitmap = 1; started = true }, true)
    else if ltb w.highest sequence
    then (
      record w {
        highest = sequence;
        bitmap = set_bit 0 (shift_window (sequence - w.highest) w.bitmap);
      },
      true,
    )
    else if leb 64 delta || test_bit delta w.bitmap
    then (w, false)
    else (record w { bitmap = set_bit delta w.bitmap }, true)

-- The answers to a series of authenticated packets.
unfoldable pub accept_all : ReplayWindow → List ℕ → List Bool
accept_all w [] = []
accept_all w (s ∷ ss) = let (w', r) = accept w s in r ∷ accept_all w' ss
