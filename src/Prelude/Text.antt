-- ===== src/Prelude/Text.antt =====
-- Texts are lists of bytes. Trimming and lower case are those of ASCII.
use Prim.Native.Char.{code}
use Prim.Native.String.{String}
use mathlib.Core.List.{reverse, reverse_aux, reverse-reverse}
use mathlib.Core.Path.{ap₂}
use link_forge.Prelude.{
  leb, ◌==◌, if◌then◌else◌, length, drop, All, ℕ, ◌+◌, ◌<◌, ◌≡◌, refl, Bool, true, false, ◌&&◌,
  ◌||◌, List, [], ◌∷◌, ◌++◌, map, arith,
}

-- The bytes of a literal.
abbrev pub codes : String → List ℕ
codes String.[] = []
codes (String.◌∷◌ c s) = code c ∷ codes s

-- A tab, a newline, a vertical tab, a form feed, a carriage return or a space.
is_space : ℕ → Bool
is_space c = c == 32 || (leb 9 c && leb c 13)

trim_left : List ℕ → List ℕ
unfolding is_space
trim_left [] = []
trim_left (c ∷ s) = if is_space c then trim_left s else c ∷ s

-- strings.TrimSpace
unfoldable pub trim_space : List ℕ → List ℕ
unfolding trim_left
trim_space s = reverse (trim_left (reverse (trim_left s)))

-- strings.ToLower
unfoldable pub to_lower : List ℕ → List ℕ
to_lower s = map (λ c. if leb b'A' c && leb c b'Z' then c + 32 else c) s

-- strings.ReplaceAll of a byte by the empty text
unfoldable pub remove_all : ℕ → List ℕ → List ℕ
remove_all c [] = []
remove_all c (x ∷ s) = if x == c then remove_all c s else x ∷ remove_all c s

trim_left-printable : (s : List ℕ) → All (λ x. 32 < x) s → trim_left s ≡ s
unfolding trim_left is_space
trim_left-printable [] h = refl
trim_left-printable (c ∷ s) h = let big = h.0 in ground arith

All-reverse_aux :
    (P : ℕ → Type 0) (xs ys : List ℕ) → All P xs → All P ys → All P (reverse_aux xs ys)
All-reverse_aux P [] ys h k = k
All-reverse_aux P (x ∷ xs) ys h k = All-reverse_aux P xs (x ∷ ys) h.1 (h.0, k)

-- A text without spaces and control characters is its own trimmed form.
pub trim_space-printable : (s : List ℕ) → All (λ x. 32 < x) s → trim_space s ≡ s
unfolding trim_space
trim_space-printable s h =
    rw
      (
        trim_left-printable s h,
        trim_left-printable (reverse s) (All-reverse_aux (λ x. 32 < x) s [] h tt),
      )
      (reverse-reverse s)

-- strings.HasPrefix
abbrev pub has_prefix : List ℕ → List ℕ → Bool
has_prefix text [] = true
has_prefix [] (c ∷ front) = false
has_prefix (d ∷ text) (c ∷ front) = d == c && has_prefix text front

-- strings.TrimPrefix
abbrev pub trim_prefix : List ℕ → List ℕ → List ℕ
trim_prefix text front = if has_prefix text front then drop (length front) text else text

trim_front : ℕ → List ℕ → List ℕ
trim_front c [] = []
trim_front c (d ∷ s) = if d == c then trim_front c s else d ∷ s

-- strings.Trim of one byte
unfoldable pub trim_byte : ℕ → List ℕ → List ℕ
unfolding trim_front
trim_byte c s = reverse (trim_front c (reverse (trim_front c s)))

-- A first part of a text, put before the parts that follow.
abbrev pub extend_first : ℕ → List (List ℕ) → List (List ℕ)
extend_first c [] = (c ∷ []) ∷ []
extend_first c (part ∷ parts) = (c ∷ part) ∷ parts

-- strings.Split at one byte
unfoldable pub split : ℕ → List ℕ → List (List ℕ)
split c [] = [] ∷ []
split c (d ∷ s) = let rest = split c s in if d == c then [] ∷ rest else extend_first d rest

pub has_prefix-append : (front s : List ℕ) → has_prefix (front ++ s) front ≡ true
has_prefix-append [] s = refl
has_prefix-append (c ∷ front) s = let rest = has_prefix-append front s in ground (arith, rest)

pub has_prefix_inv :
    (text front : List ℕ) → has_prefix text front ≡ true → text ≡ front ++ drop (length front) text
has_prefix_inv text [] h = refl
has_prefix_inv [] (c ∷ front) h = ground arith
has_prefix_inv (d ∷ text) (c ∷ front) h =
    let same : d ≡ c = ground arith in
    let rest : has_prefix text front ≡ true = ground arith in
    ap₂ (λ x s. x ∷ s) same (has_prefix_inv text front rest)
