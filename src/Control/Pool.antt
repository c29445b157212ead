-- ===== src/Control/Pool.antt =====
-- The allocation of tunnel addresses in internal/controlplane/store.go. An IPv4 address is its 32
-- bits as a number.
use link_forge.Prelude.{
  ltb, leb, ◌==◌, if◌then◌else◌, Bool-cases, Option-cases, ℕ, zero, suc, ◌+◌, ◌-◌, ◌^◌, ◌≤◌, ◌<◌,
  ◌≡◌, sym, ap, ◌∙◌, ◌≢◌, ◌⊎◌, inl, inr, Bool, true, false, not, ◌&&◌, ◌||◌, Option, none, some,
  List, [], ◌∷◌, arith, ℕ_discrete,
}

-- A masked netip.Prefix: it contains the addresses from its own on.
pub record Pool : Type 0 where
  pub base : ℕ
  pub bits : ℕ

unfoldable pub size : Pool → ℕ
size p = 2 ^ (32 - p.bits)

-- Addr.Next gives a valid address, which Prefix.Contains has.
unfoldable pub in_pool : Pool → ℕ → Bool
in_pool p a = ltb a (2 ^ 32) && leb p.base a && ltb a (p.base + size p)

unfoldable pub is_used : List ℕ → ℕ → Bool
is_used [] a = false
is_used (u ∷ us) a = u == a || is_used us a

-- The loop of allocateAddress, from `a` on; it stops before the broadcast address.
unfoldable pub first_free : ℕ → Pool → List ℕ → ℕ → Option ℕ
first_free zero p used a = none
first_free (suc fuel) p used a =
    let rest = first_free fuel p used (a + 1) in
    if not (in_pool p a)
    then none
    else if not (in_pool p (a + 1))
    then none
    else if not (is_used used a)
    then some a
    else rest

-- The pool has fewer addresses than rounds.
unfoldable pub allocate : Pool → List ℕ → Option ℕ
allocate p used = first_free (size p) p used (p.base + 1)

-- The prefixes that OpenStore accepts: masked, of IPv4, between /16 and /30.
pub record IsPool (p : Pool) : Type 0 where
  pub wide : 16 ≤ p.bits
  pub narrow : p.bits ≤ 30
  pub fits : p.base + size p ≤ 2 ^ 32

-- An address for a device: neither the network's nor the broadcast address.
abbrev pub Usable : Pool → ℕ → Type 0
Usable p a = (p.base < a) × (a + 1 < p.base + size p)

first_free-none :
    (fuel : ℕ) (p : Pool) (used : List ℕ) (a : ℕ)
    → IsPool p
    → p.base < a
    → p.base + size p ≤ a + fuel
    → first_free fuel p used a ≡ none
    → (x : ℕ) → a ≤ x
    → x + 1 < p.base + size p
    → is_used used x ≡ true
unfolding first_free in_pool
first_free-none zero p used a v low enough h x le lt = absurd (omega arith)
first_free-none (suc fuel) p used a v low enough h x le lt =
    let fits = v.fits in
    let here : a ≢ x → suc a ≤ x = λ n. omega arith in
    elim (ℕ_discrete a x) [
      | yes e ↦ ground arith
      | no n ↦
          first_free-none fuel p used (a + 1) v (omega arith) (omega arith) (ground arith) x
            (omega (arith, here n)) lt
    ]

pub first_free-some :
    (fuel : ℕ) (p : Pool) (used : List ℕ) (a : ℕ) {x : ℕ}
    → first_free fuel p used a ≡ some x
    → (a ≤ x)
      × (x + 1 < p.base + size p)
      × (is_used used x ≡ false)
      × ((y : ℕ) → a ≤ y → y < x → is_used used y ≡ true)
unfolding first_free in_pool
first_free-some zero p used a h = cc
first_free-some (suc fuel) p used a {x} h = elim (Bool-cases (is_used used a)) [
  | inr free ↦
      let found : a ≡ x = ground arith in
      let last : x + 1 < p.base + size p = ground arith in
      (omega arith, last, ground arith, λ y le lt. absurd (omega arith))
  | inl taken ↦
      let (low, last, free, least) = first_free-some fuel p used (a + 1) {x = x} (ground arith) in
      (
        omega arith,
        last,
        free,
        λ y le lt. elim (ℕ_discrete a y) [
          | yes e ↦ ap (is_used used) (sym e) ∙ taken
          | no n ↦ least y (after a y n le) lt
        ],
      )
]
  where
    after : (i j : ℕ) → i ≢ j → i ≤ j → i + 1 ≤ j
    after i j n le = ground arith

-- In an accepted pool, allocate gives the least usable address that is not taken, and none only if
-- all usable addresses are taken.
pub allocate-least :
    (p : Pool) (used : List ℕ)
    → IsPool p
    → ((a : ℕ) × (allocate p used ≡ some a)
        × Usable p a
        × (is_used used a ≡ false)
        × ((b : ℕ) → p.base < b → b < a → is_used used b ≡ true))
      ⊎ ((allocate p used ≡ none)
          × ((b : ℕ) → p.base < b → b + 1 < p.base + size p → is_used used b ≡ true))
unfolding allocate
allocate-least p used v = elim (Option-cases (first_free (size p) p used (p.base + 1))) [
  | inl gone ↦ inr (
    gone,
    λ b low last.
        first_free-none (size p) p used (p.base + 1) v (omega arith) (omega arith) gone b
          (omega arith) last,
  )
  | inr (a, found) ↦
      let (low, last, free, least) = first_free-some (size p) p used (p.base + 1) {x = a} found in
      inl (a, found, (omega arith, last), free, λ b above below. least b (omega arith) below)
]
