-- ===== src/Protocol/Replay/Refinement.antt =====
-- The window's answers are those of a history of all accepted numbers.
use link_forge.Prelude.{
  ltb, leb, ◌==◌, if◌then◌else◌, ltb→lt, Bool-cases, ℕ, ◌-◌, ◌*◌, ◌^◌, ◌≤◌, ◌<◌, ◌≡◌, refl, ap, ◌∙◌,
  inl, inr, Bool, true, false, not, ◌&&◌, ◌||◌, List, [], ◌∷◌, arith,
}
use link_forge.Prelude.Bits.{
  test_bit, set_bit, test_bit-set_bit, test_bit-shift, test_bit-shift_low, test_bit-mod,
  test_bit-zero, test_bit-one,
}
use link_forge.Protocol.Replay.{ReplayWindow, empty_window, shift_window, accept, accept_all}

unfoldable pub mem : ℕ → List ℕ → Bool
mem s [] = false
mem s (x ∷ xs) = x == s || mem s xs

unfoldable pub maximum : List ℕ → ℕ
maximum [] = 0
maximum (x ∷ xs) = if ltb (maximum xs) x then x else maximum xs

abbrev pub is_empty : List ℕ → Bool
is_empty [] = true
is_empty (x ∷ xs) = false

-- What the window promises: a number above all accepted ones is new; one less than 64 below the
-- highest is accepted once; an older one is refused.
unfoldable pub admits : List ℕ → ℕ → Bool
admits seen s =
    is_empty seen || ltb (maximum seen) s || (ltb (maximum seen - s) 64 && not (mem s seen))

unfoldable pub admit_all : List ℕ → List ℕ → List Bool
admit_all seen [] = []
admit_all seen (s ∷ ss) = admits seen s ∷ admit_all (if admits seen s then s ∷ seen else seen) ss

mem_empty : (s : ℕ) (seen : List ℕ) → is_empty seen ≡ true → mem s seen ≡ false
unfolding mem
mem_empty s [] e = refl
mem_empty s (x ∷ seen) e = cc

maximum_empty : (seen : List ℕ) → is_empty seen ≡ true → maximum seen ≡ 0
unfolding maximum
maximum_empty [] e = refl
maximum_empty (x ∷ seen) e = cc

-- The window holds a history.
pub record Tracks (w : ReplayWindow) (seen : List ℕ) : Type 0 where
  pub live : w.started ≡ not (is_empty seen)
  pub top : w.started ≡ true → w.highest ≡ maximum seen
  pub bits :
      w.started ≡ true
      → (d : ℕ) → d < 64
      → d ≤ w.highest
      → test_bit d w.bitmap ≡ mem (w.highest - d) seen

mem_above : (s : ℕ) (seen : List ℕ) → maximum seen < s → mem s seen ≡ false
unfolding mem maximum
mem_above s [] h = refl
mem_above s (x ∷ seen) h = ground (arith, mem_above s seen)

shifted : (d k b : ℕ) → k ≤ d → test_bit d (b * 2 ^ k) ≡ test_bit (d - k) b
shifted d k b h = ap (λ x. test_bit x (b * 2 ^ k)) (omega arith) ∙ test_bit-shift k (d - k) b

-- The bits behind a shift.
shift_window-test_bit :
    (d k b : ℕ)
    → d < 64
    → test_bit d (shift_window k b) ≡ (if ltb d k then false else test_bit (d - k) b)
unfolding shift_window
shift_window-test_bit d k b h = ground (
  arith,
  test_bit-zero d,
  test_bit-mod d 64 (b * 2 ^ k) h,
  test_bit-shift_low d k b,
  shifted d k b,
)

module _ (w : ReplayWindow) (seen : List ℕ) (s : ℕ) (t : Tracks w seen) where
  bit_of :
      w.started ≡ true
      → s ≤ w.highest
      → w.highest - s < 64
      → test_bit (w.highest - s) w.bitmap ≡ mem s seen
  bit_of l h k = t.bits l (w.highest - s) k (omega arith) ∙ ap (λ x. mem x seen) (omega arith)

  pub accept-answer : (accept w s).1 ≡ admits seen s
  unfolding accept admits
  accept-answer = ground (arith, t, bit_of)

  shifted_bits :
      (d : ℕ)
      → w.started ≡ true
      → w.highest < s
      → d < 64
      → d ≤ s
      → test_bit d (set_bit 0 (shift_window (s - w.highest) w.bitmap)) ≡ mem (s - d) (s ∷ seen)
  unfolding mem
  shifted_bits d l h k m = ground (
    arith,
    test_bit-set_bit 0 d (shift_window (s - w.highest) w.bitmap),
    shift_window-test_bit d (s - w.highest) w.bitmap k,
    t.bits l (d - (s - w.highest)),
    t.top l,
    mem_above (s - d) seen,
  )

  first_Tracks :
      is_empty seen ≡ true → Tracks (record { highest = s; bitmap = 1; started = true }) (s ∷ seen)
  unfolding mem maximum
  first_Tracks e = record {
    live = refl;
    top = λ _. ground (arith, maximum_empty seen e);
    bits = λ _ d k m. ground (arith, test_bit-one d, mem_empty (s - d) seen e);
  }

  above_Tracks :
      w.started ≡ true
      → w.highest < s
      → Tracks
          (record w { highest = s; bitmap = set_bit 0 (shift_window (s - w.highest) w.bitmap) })
          (s ∷ seen)
  unfolding maximum
  above_Tracks l h = record {
    live = ground arith;
    top = λ _. ground (arith, t.top l);
    bits = λ _ d. shifted_bits d l h;
  }

  inside_Tracks :
      w.started ≡ true
      → s ≤ w.highest
      → w.highest - s < 64
      → Tracks (record w { bitmap = set_bit (w.highest - s) w.bitmap }) (s ∷ seen)
  unfolding maximum mem
  inside_Tracks l h k = record {
    live = ground arith;
    top = λ _. ground (arith, t.top l);
    bits = λ _ d m n. ground (arith, test_bit-set_bit (w.highest - s) d w.bitmap, t.bits l d m n);
  }

  -- The new window and the answer fit a history that grows by the accepted numbers.
  abbrev Follows : ReplayWindow × Bool → Type 0
  Follows r = Tracks r.0 (if r.1 then s ∷ seen else seen)

  accept-Follows : Follows (accept w s)
  unfolding accept
  accept-Follows = elim (Bool-cases w.started) [
    | inr off ↦ rw (off, accept) (first_Tracks (ground (arith, t.live)))
    | inl on ↦ elim (Bool-cases (ltb w.highest s)) [
      | inl above ↦ rw (on, above, accept) (rw on at (above_Tracks on (ltb→lt _ _ above)))
      | inr below ↦
          elim (Bool-cases (leb 64 (w.highest - s) || test_bit (w.highest - s) w.bitmap)) [
            | inl old ↦ rw (on, below, old, accept) (rw on at t)
            | inr new ↦
                rw (on, below, new, accept)
                  (rw on at (inside_Tracks on (ground arith) (ground arith)))
          ]
    ]
  ]

  pub accept-Tracks : Tracks (accept w s).0 (if admits seen s then s ∷ seen else seen)
  accept-Tracks = rw (← accept-answer) accept-Follows

abbrev pub grow : List ℕ → ℕ → List ℕ
grow seen s = if admits seen s then s ∷ seen else seen

accept_all-Tracks :
    (w : ReplayWindow) (seen ss : List ℕ) → Tracks w seen → accept_all w ss ≡ admit_all seen ss
unfolding accept_all admit_all
accept_all-Tracks w seen [] t = refl
accept_all-Tracks w seen (s ∷ ss) t = λ i.
    accept-answer w seen s t i
    ∷ accept_all-Tracks (accept w s).0 (grow seen s) ss (accept-Tracks w seen s t) i

pub empty_window-Tracks : Tracks empty_window []
empty_window-Tracks = record { live = refl; top = λ e. cc; bits = λ e. cc }

-- From its zero value on, and for any series of sequence numbers, the window answers each as the
-- full history of accepted numbers does: the 64 bits and their shifts lose nothing that the
-- specification reads.
pub accept_all-admit_all : (ss : List ℕ) → accept_all empty_window ss ≡ admit_all [] ss
accept_all-admit_all ss = accept_all-Tracks empty_window [] ss empty_window-Tracks
