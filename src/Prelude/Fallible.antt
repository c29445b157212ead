-- ===== src/Prelude/Fallible.antt =====
-- Go's pair of a value and an error, of which a call returns one.
use mathlib.Core.Bool.{Bool, true, false}
use mathlib.Core.Path.{◌≡◌, refl}
use mathlib.Core.Logic.{◌⊎◌, inl, inr}

pub data Result {ℓ} (E A : Type ℓ) : Type ℓ where
  err : E → Result E A
  ok : A → Result E A

-- `if err := first; err != nil { return err }`
infixr 6 ◌>>◌
abbrev pub ◌>>◌ {ℓ} : {E A B : Type ℓ} → Result E A → Result E B → Result E B
err e >> next = err e
ok a >> next = next

-- `v, err := first; if err != nil { return err }`
infixr 6 ◌>>=◌
abbrev pub ◌>>=◌ {ℓ} : {E A B : Type ℓ} → Result E A → (A → Result E B) → Result E B
err e >>= next = err e
ok a >>= next = next a

-- `if bad { return e }`
abbrev pub reject : {E : Type 0} → Bool → E → Result E Unit
reject true e = err e
reject false e = ok tt

-- What a call without an error has passed.
pub >>_inv :
    {E A B : Type 0} (first : Result E A) (next : Result E B) {b : B}
    → (first >> next) ≡ ok b
    → ((a : A) × (first ≡ ok a)) × (next ≡ ok b)
>>_inv (err e) next h = cc
>>_inv (ok a) next h = ((a, refl), h)

pub >>=_inv :
    {E A B : Type 0} (first : Result E A) (next : A → Result E B) {b : B}
    → (first >>= next) ≡ ok b
    → (a : A) × (first ≡ ok a) × (next a ≡ ok b)
>>=_inv (err e) next h = cc
>>=_inv (ok a) next h = (a, refl, h)

pub reject_inv : {E : Type 0} (bad : Bool) (e : E) {u : Unit} → reject bad e ≡ ok u → bad ≡ false
reject_inv true e h = cc
reject_inv false e h = refl

pub Result-cases :
    {E A : Type 0} (r : Result E A) → ((e : E) × (r ≡ err e)) ⊎ ((a : A) × (r ≡ ok a))
Result-cases (err e) = inl (e, refl)
Result-cases (ok a) = inr (a, refl)
