-- ===== src/Protocol/Replay/Once.antt =====
-- No packet passes the replay window twice.
use link_forge.Prelude.{
  Bool-cases, ℕ, ◌-◌, ◌≤◌, ◌≡◌, refl, ◌∙◌, ◌⊎◌, inl, inr, true, false, List, [], ◌∷◌, arith,
}
use link_forge.Protocol.Replay.{ReplayWindow, empty_window, accept}
use link_forge.Protocol.Replay.Refinement.{
  mem, maximum, is_empty, admits, Tracks, accept-answer, accept-Tracks, grow, empty_window-Tracks,
}

-- The window after a series of packets.
unfoldable pub after : ReplayWindow → List ℕ → ReplayWindow
after w [] = w
after w (s ∷ ss) = after (accept w s).0 ss

-- The number is accepted already or has left the window.
record IsSpent (s : ℕ) (seen : List ℕ) : Type 0 where
  begun : is_empty seen ≡ false
  passed : s ≤ maximum seen
  gone : (mem s seen ≡ true) ⊎ (64 ≤ maximum seen - s)

grow-IsSpent : (s x : ℕ) (seen : List ℕ) → IsSpent s seen → IsSpent s (grow seen x)
unfolding mem maximum
grow-IsSpent s x seen h = elim (Bool-cases (admits seen x)) [
  | inl new ↦ rw new (record { begun = refl; passed = ground arith; gone = ground arith })
  | inr old ↦ rw old h
]

admits-IsSpent : (s : ℕ) (seen : List ℕ) → IsSpent s (grow seen s)
unfolding admits mem maximum
admits-IsSpent s [] = record { begun = refl; passed = ground arith; gone = inl (ground arith) }
admits-IsSpent s (x ∷ seen) = record {
  begun = ground arith;
  passed = ground arith;
  gone = ground arith;
}

IsSpent-refused : (s : ℕ) (seen : List ℕ) → IsSpent s seen → admits seen s ≡ false
unfolding admits
IsSpent-refused s seen h = ground arith

after-refuses :
    (w : ReplayWindow) (seen ss : List ℕ) (s : ℕ)
    → Tracks w seen
    → IsSpent s seen
    → (accept (after w ss) s).1 ≡ false
unfolding after
after-refuses w seen [] s t h = accept-answer w seen s t ∙ IsSpent-refused s seen h
after-refuses w seen (x ∷ ss) s t h =
    after-refuses (accept w x).0 (grow seen x) ss s (accept-Tracks w seen x t)
      (grow-IsSpent s x seen h)

reached :
    (w : ReplayWindow) (seen ss : List ℕ) → Tracks w seen → (now : List ℕ) × Tracks (after w ss) now
unfolding after
reached w seen [] t = (seen, t)
reached w seen (s ∷ ss) t = reached (accept w s).0 (grow seen s) ss (accept-Tracks w seen s t)

-- Once a sequence number was presented to a path's window, it is refused after any further
-- packets: no packet is accepted twice.
pub accept_once :
    (before later : List ℕ) (s : ℕ)
    → (accept (after (accept (after empty_window before) s).0 later) s).1 ≡ false
accept_once before later s =
    let (seen, t) = reached empty_window [] before empty_window-Tracks in
    after-refuses _ (grow seen s) later s (accept-Tracks _ seen s t) (admits-IsSpent s seen)
