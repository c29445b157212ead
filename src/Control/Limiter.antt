-- ===== src/Control/Limiter.antt =====
-- The rateLimiter of internal/controlplane/service.go. Instants are nanoseconds since the epoch;
-- their differences are those of Go's Sub within its 292 years.
pub mod Bounded
use link_forge.Prelude.{
  ltb, leb, if◌then◌else◌, length, ℕ, ◌+◌, ◌-◌, ◌*◌, ◌^◌, ite, Bool, true, false, ◌||◌, Option,
  none, some, List, [], ◌∷◌, map,
}
use link_forge.Prelude.Int.{ℤ, negsuc, ◌-ℤ◌, leb_ℤ, eq_ℤ}
use link_forge.Prelude.Map.{Map, lookup, put, delete}
use link_forge.Protocol.Bytes.{Bytes, Bytes-discrete}
use link_forge.Protocol.Replay.Refinement.{admits}

pub record RateWindow : Type 0 where
  pub start : ℤ
  pub count : ℕ

-- The zero time.Time, at the start of year 1.
abbrev pub zero_time : ℤ
zero_time = negsuc (62135596800 * 10 ^ 9 - 1)

-- What a map of windows gives for a missing key.
abbrev pub or_zero : Option RateWindow → RateWindow
or_zero none = record { start = zero_time; count = 0 }
or_zero (some w) = w

abbrev pub max_windows : ℕ
max_windows = 4096

-- The window is over.
unfoldable pub is_over : (duration now : ℤ) → RateWindow → Bool
is_over duration now w = leb_ℤ duration (now -ℤ w.start)

-- `delete` where the window of the key is over
unfoldable pub drop_if_over :
    (duration now : ℤ) → Bytes → Map Bytes RateWindow → Map Bytes RateWindow
drop_if_over duration now k m = elim (lookup Bytes-discrete k m) [
  | none ↦ m
  | some w ↦ if is_over duration now w then delete Bytes-discrete k m else m
]

-- The loop over the keys of the windows.
unfoldable pub drop_over :
    (duration now : ℤ) → List Bytes → Map Bytes RateWindow → Map Bytes RateWindow
drop_over duration now [] m = m
drop_over duration now (k ∷ ks) m = drop_over duration now ks (drop_if_over duration now k m)

-- The windows that are left when those that are over are deleted.
abbrev pub without_over : (duration now : ℤ) → Map Bytes RateWindow → Map Bytes RateWindow
without_over duration now m = drop_over duration now (map (λ e. e.0) m) m

-- What an attempt makes of its window, none where it is refused.
unfoldable pub next_window : (limit : ℕ) → (duration now : ℤ) → RateWindow → Option RateWindow
next_window limit duration now w =
    if eq_ℤ w.start zero_time || is_over duration now w
    then some (record { start = now; count = 1 })
    else if leb limit w.count
    then none
    else some (record w { count = w.count + 1 })

-- Behind the cleaning: the answer and the new windows.
unfoldable pub count_attempt :
    Bytes → (limit : ℕ) → (duration now : ℤ) → Map Bytes RateWindow → Bool × Map Bytes RateWindow
count_attempt key limit duration now m =
    elim (next_window limit duration now (or_zero (lookup Bytes-discrete key m))) [
      | none ↦ (false, m)
      | some w ↦ (true, put Bytes-discrete key w m)
    ]

-- The windows are not full, or have one for the key.
abbrev pub has_room : Bytes → Map Bytes RateWindow → Bool
has_room key m = elim (lookup Bytes-discrete key m) [
  | none ↦ ltb (length m) max_windows
  | some w ↦ true
]

-- rateLimiter.Allow
unfoldable pub allow :
    Bytes → (limit : ℕ) → (duration now : ℤ) → Map Bytes RateWindow → Bool × Map Bytes RateWindow
allow key limit duration now m =
    if ltb (length m) max_windows
    then count_attempt key limit duration now m
    else if has_room key (without_over duration now m)
    then count_attempt key limit duration now (without_over duration now m)
    else (false, without_over duration now m)

abbrev pub one_if : Bool → ℕ
one_if true = 1
one_if false = 0

-- How many attempts of one client are admitted, of a series of attempts by clients at times.
unfoldable pub admitted :
    Bytes → (limit : ℕ) → (duration : ℤ) → List (Bytes × ℤ) → Map Bytes RateWindow → ℕ
admitted key limit duration [] m = 0
admitted key limit duration ((k, now) ∷ attempts) m =
    let (admits, left) = allow k limit duration now m in
    ite (Bytes-discrete k key) (one_if admits) 0 + admitted key limit duration attempts left
