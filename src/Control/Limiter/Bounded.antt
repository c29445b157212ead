-- ===== src/Control/Limiter/Bounded.antt =====
-- How many attempts the rate limiter admits, and how many windows it keeps.
use link_forge.Control.Limiter.{
  RateWindow, zero_time, or_zero, max_windows, is_over, drop_if_over, drop_over, without_over,
  next_window, count_attempt, has_room, allow, one_if, admitted,
}
use link_forge.Prelude.{
  ltb, leb, if◌then◌else◌, Bool-cases, Option-cases, length, All, ℕ, ◌+◌, ◌-◌, ◌*◌, ◌≤◌, ◌<◌, ◌≡◌,
  sym, ap, subst, ◌∙◌, ◌≢◌, inl, inr, if_pos, if_neg, Bool, true, false, ◌||◌, Option, none, some,
  List, [], ◌∷◌, map, arith,
}
use link_forge.Prelude.Int.{ℤ, ◌-ℤ◌, ltb_ℤ, leb_ℤ, eq_ℤ}
use link_forge.Prelude.Map.{
  Map, lookup, delete, lookup-delete_ne, lookup-put_ne, lookup-put_self, lookup-delete_self,
}
use link_forge.Protocol.Bytes.{Bytes, Bytes-discrete}

-- At most how many attempts a client can still be admitted within a span from `from` on.
abbrev pub budget : ℕ → ℤ → Option RateWindow → ℕ
budget limit from none = limit
budget limit from (some w) =
    if leb_ℤ from w.start then limit - w.count else limit + (limit - w.count)

-- A time of the span.
abbrev pub IsWithin : (from duration now : ℤ) → Type 0
IsWithin from duration now = (leb_ℤ from now ≡ true) × (leb_ℤ duration (now -ℤ from) ≡ false)

-- A window that is over began before the span.
is_over-before :
    (from duration now : ℤ) (w : RateWindow)
    → IsWithin from duration now
    → is_over duration now w ≡ true
    → leb_ℤ from w.start ≡ false
unfolding is_over ◌-ℤ◌
is_over-before from duration now w (low, high) h = ground arith

zero-before :
    (from start : ℤ)
    → eq_ℤ start zero_time ≡ true
    → ltb_ℤ zero_time from ≡ true
    → leb_ℤ from start ≡ false
zero-before from start h late = ground arith

only_right : {a b : Bool} → a ≡ false → a || b ≡ true → b ≡ true
only_right {a = true} h k = ground arith
only_right {a = false} h k = k

some_inv : {v w : RateWindow} → some v ≡ some w → v ≡ w
some_inv h = cc

budget-next_window :
    (limit : ℕ) (from duration now : ℤ) (o : Option RateWindow) {w : RateWindow}
    → 0 < limit
    → ltb_ℤ zero_time from ≡ true
    → IsWithin from duration now
    → next_window limit duration now (or_zero o) ≡ some w
    → 1 + budget limit from (some w) ≤ budget limit from o
unfolding next_window
budget-next_window limit from duration now none {w} room late (low, high) h =
    let new : record { start = now; count = 1 } ≡ w = some_inv h in
    subst (λ x. 1 + budget limit from (some x) ≤ limit) new (rw low (omega arith))
budget-next_window limit from duration now (some v) {w} room late (low, high) h =
    elim (Bool-cases (eq_ℤ v.start zero_time || is_over duration now v)) [
      | inl fresh ↦
          let new : record { start = now; count = 1 } ≡ w = some_inv (ground arith) in
          let old : leb_ℤ from v.start ≡ false = elim (Bool-cases (eq_ℤ v.start zero_time)) [
            | inl zero_start ↦ zero-before from v.start zero_start late
            | inr begun ↦ is_over-before from duration now v (low, high) (only_right begun fresh)
          ] in
          subst (λ x. 1 + budget limit from (some x) ≤ budget limit from (some v)) new
            (rw (low, old) (omega arith))
      | inr going ↦ elim (Bool-cases (leb limit v.count)) [
        | inl full ↦ ground arith
        | inr more ↦
            let new : record v { count = v.count + 1 } ≡ w = some_inv (ground arith) in
            subst (λ x. 1 + budget limit from (some x) ≤ budget limit from (some v)) new
              (ground arith)
      ]
    ]

budget-count_attempt :
    (limit : ℕ) (from duration now : ℤ) (key : Bytes) (m : Map Bytes RateWindow)
    → 0 < limit
    → ltb_ℤ zero_time from ≡ true
    → IsWithin from duration now
    → one_if (count_attempt key limit duration now m).0
        + budget limit from (lookup Bytes-discrete key (count_attempt key limit duration now m).1)
      ≤ budget limit from (lookup Bytes-discrete key m)
unfolding count_attempt
budget-count_attempt limit from duration now key m room late span =
    elim (Option-cases (next_window limit duration now (or_zero (lookup Bytes-discrete key m)))) [
      | inl refused ↦ ground arith
      | inr (w, next) ↦
          let less =
            budget-next_window limit from duration now (lookup Bytes-discrete key m) {w = w} room
              late span next in
          ground (arith, lookup-put_self Bytes-discrete key w m)
    ]

module _ (limit : ℕ) (from duration now : ℤ) (key : Bytes) (room : 0 < limit)
    (late : ltb_ℤ zero_time from ≡ true) (span : IsWithin from duration now) where
  -- What a map leaves to the client.
  abbrev left_in : Map Bytes RateWindow → ℕ
  left_in m = budget limit from (lookup Bytes-discrete key m)

  left_in-drop_if_over :
      (k : Bytes) (m : Map Bytes RateWindow) → left_in (drop_if_over duration now k m) ≤ left_in m
  unfolding drop_if_over
  left_in-drop_if_over k m = elim (Option-cases (lookup Bytes-discrete k m)) [
    | inl absent ↦ ground arith
    | inr (w, present) ↦ elim (Bool-cases (is_over duration now w)) [
      | inr going ↦ ground arith
      | inl over ↦
          let old = is_over-before from duration now w span over in
          elim (Bytes-discrete k key) [
            | no n ↦ let same = lookup-delete_ne Bytes-discrete k key m n in ground arith
            | yes e ↦
                let dropped : drop_if_over duration now k m ≡ delete Bytes-discrete k m =
                  ground arith in
                let gone : lookup Bytes-discrete key (delete Bytes-discrete k m) ≡ none =
                  ap (λ x. lookup Bytes-discrete x (delete Bytes-discrete k m)) (sym e)
                  ∙ lookup-delete_self Bytes-discrete k m in
                let here : lookup Bytes-discrete key m ≡ some w =
                  ap (λ x. lookup Bytes-discrete x m) (sym e) ∙ present in
                subst (λ x. left_in x ≤ left_in m) (sym dropped)
                  (rw (gone, here, old) (omega arith))
          ]
    ]
  ]

  left_in-drop_over :
      (ks : List Bytes) (m : Map Bytes RateWindow)
      → left_in (drop_over duration now ks m) ≤ left_in m
  unfolding drop_over
  left_in-drop_over [] m = omega arith
  left_in-drop_over (k ∷ ks) m =
      omega (arith, left_in-drop_over ks (drop_if_over duration now k m), left_in-drop_if_over k m)

  left_in-count_attempt_ne :
      (k : Bytes) (m : Map Bytes RateWindow)
      → k ≢ key
      → left_in (count_attempt k limit duration now m).1 ≤ left_in m
  unfolding count_attempt
  left_in-count_attempt_ne k m n =
      elim (Option-cases (next_window limit duration now (or_zero (lookup Bytes-discrete k m)))) [
        | inl refused ↦ ground arith
        | inr (w, next) ↦ let same = lookup-put_ne Bytes-discrete k key w m n in ground arith
      ]

  left_in-allow_self :
      (m : Map Bytes RateWindow)
      → one_if (allow key limit duration now m).0 + left_in (allow key limit duration now m).1
        ≤ left_in m
  unfolding allow
  left_in-allow_self m =
      let here = budget-count_attempt limit from duration now key m room late span in
      let there =
        budget-count_attempt limit from duration now key (without_over duration now m) room late
          span in
      let cleaned = left_in-drop_over (map (λ e. e.0) m) m in
      elim (Bool-cases (ltb (length m) max_windows)) [
        | inl few ↦ rw few here
        | inr many ↦ elim (Bool-cases (has_room key (without_over duration now m))) [
          | inl fits ↦ rw (many, fits) (omega (arith, there, cleaned))
          | inr full ↦ rw (many, full) (omega (arith, cleaned))
        ]
      ]

  left_in-allow_ne :
      (k : Bytes) (m : Map Bytes RateWindow)
      → k ≢ key
      → left_in (allow k limit duration now m).1 ≤ left_in m
  unfolding allow
  left_in-allow_ne k m n =
      let here = left_in-count_attempt_ne k m n in
      let there = left_in-count_attempt_ne k (without_over duration now m) n in
      let cleaned = left_in-drop_over (map (λ e. e.0) m) m in
      elim (Bool-cases (ltb (length m) max_windows)) [
        | inl few ↦ rw few here
        | inr many ↦ elim (Bool-cases (has_room k (without_over duration now m))) [
          | inl fits ↦ rw (many, fits) (omega (arith, there, cleaned))
          | inr full ↦ rw (many, full) cleaned
        ]
      ]

module _ (limit : ℕ) (from duration : ℤ) (key : Bytes) (room : 0 < limit)
    (late : ltb_ℤ zero_time from ≡ true) where
  left_in-admitted :
      (attempts : List (Bytes × ℤ)) (m : Map Bytes RateWindow)
      → All (λ a. IsWithin from duration a.1) attempts
      → admitted key limit duration attempts m ≤ budget limit from (lookup Bytes-discrete key m)
  unfolding admitted
  left_in-admitted [] m h = omega arith
  left_in-admitted ((k, now) ∷ attempts) m h =
      let m' = (allow k limit duration now m).1 in
      let later = left_in-admitted attempts m' h.1 in
      elim (Bytes-discrete k key) [
        | yes e ↦
            let here : one_if (allow k limit duration now m).0
                  + budget limit from (lookup Bytes-discrete key m')
                ≤ budget limit from (lookup Bytes-discrete key m) =
              subst
                (λ x.
                  one_if (allow x limit duration now m).0
                    + budget limit from (lookup Bytes-discrete key (allow x limit duration now m).1)
                  ≤ budget limit from (lookup Bytes-discrete key m))
                (sym e) (left_in-allow_self limit from duration now key room late h.0 m) in
            rw (if_pos (Bytes-discrete k key) e (one_if (allow k limit duration now m).0) 0)
              (omega (arith, here, later))
        | no n ↦
            let here = left_in-allow_ne limit from duration now key room late h.0 k m n in
            rw (if_neg (Bytes-discrete k key) n (one_if (allow k limit duration now m).0) 0)
              (omega (arith, here, later))
      ]

  budget-le : (o : Option RateWindow) → budget limit from o ≤ 2 * limit
  budget-le none = omega arith
  budget-le (some w) = ground arith

  -- Whatever attempts of any clients come within less than the duration, at times after the zero
  -- time, at most twice the limit of one client's are admitted, and at most the limit where the client
  -- has no window before.
  pub admitted_bounds :
      (attempts : List (Bytes × ℤ)) (m : Map Bytes RateWindow)
      → All (λ a. IsWithin from duration a.1) attempts
      → (admitted key limit duration attempts m ≤ 2 * limit)
        × (lookup Bytes-discrete key m ≡ none → admitted key limit duration attempts m ≤ limit)
  admitted_bounds attempts m h =
      let spent = left_in-admitted attempts m h in
      (
        omega (arith, spent, budget-le (lookup Bytes-discrete key m)),
        λ absent.
            subst (λ x. admitted key limit duration attempts m ≤ budget limit from x) absent spent,
      )
