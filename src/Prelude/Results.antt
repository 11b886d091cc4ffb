-- ===== src/Prelude/Results.antt =====
-- A call that may raise: a value, or the exception. Where the exception can follow a write, the
-- state comes back beside it, since what was written stays written.
use mathlib.Core.Path.{◌≡◌, refl}
use mathlib.Core.Logic.{◌⊎◌, inl, inr}
use mathlib.Core.Bool.{Bool, true, false}

pub data Result {ℓ} (E : Type ℓ) (A : Type ℓ) : Type ℓ where
  ok : A → Result E A
  err : E → Result E A

-- The value of a call that returned, for a call whose failure leaves the state alone.
abbrev pub after {ℓ} : {E S A : Type ℓ} → S → Result E (A × S) → S
after s (ok (a, s')) = s'
after s (err e) = s

-- `if bad: raise e`
abbrev pub raise_if {ℓ} : {E : Type ℓ} → Bool → E → Result E Unit
raise_if true e = err e
raise_if false e = ok tt

infixl 5 ◌>>=◌ ◌>>◌
abbrev pub ◌>>=◌ {ℓ} : {E A B : Type ℓ} → Result E A → (A → Result E B) → Result E B
err raised >>= next = err raised
ok value >>= next = next value

abbrev pub ◌>>◌ {ℓ} : {E B : Type ℓ} → Result E Unit → Result E B → Result E B
err raised >> next = err raised
ok _ >> next = next

pub Result-cases {ℓ} :
    {E A : Type ℓ} (r : Result E A) → ((a : A) × (r ≡ ok a)) ⊎ ((e : E) × (r ≡ err e))
Result-cases (ok a) = inl (a, refl)
Result-cases (err e) = inr (e, refl)

-- A guard that let the call through.
pub passed {ℓ} :
    {E A : Type ℓ} (bad : Bool) (e : E) (next : Result E A) {a : A}
    → (raise_if bad e >> next) ≡ ok a
    → (bad ≡ false) × (next ≡ ok a)
passed false e next h = (refl, h)
passed true e next h = cc

pub passes {ℓ} :
    {E A : Type ℓ} (bad : Bool) (e : E) (next : Result E A)
    → bad ≡ false
    → (raise_if bad e >> next) ≡ next
passes false e next h = refl
passes true e next h = cc

-- A call that returned, as did the call before it.
pub returned {ℓ} :
    {E B C : Type ℓ} (call : Result E B) (next : B → Result E C) {c : C}
    → (call >>= next) ≡ ok c
    → (b : B) × (call ≡ ok b) × (next b ≡ ok c)
returned (err e) next h = cc
returned (ok b) next h = (b, refl, h)

-- A check that passed, as did what came after it.
pub followed {ℓ} :
    {E B : Type ℓ} (check : Result E Unit) (next : Result E B) {b : B}
    → (check >> next) ≡ ok b
    → (check ≡ ok tt) × (next ≡ ok b)
followed (err e) next h = cc
followed (ok _) next h = (refl, h)
