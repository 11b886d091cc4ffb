-- ===== src/Prelude/Classes.antt =====
-- Equality as the program tests it, one operator for every type of keys.
use Prim.Native.Nat.{ℕ}
use Prim.Native.String.{String}
use mathlib.Core.Path.{◌≡◌, ap, refl}
use mathlib.Core.Logic.{◌↔◌}
use mathlib.Core.Bool.{Bool, true, false, ◌&&◌}
use mathlib.Core.Option.{Option, none, some}
use native.Mathlib.Omega.{arith}
use text.Mathlib.Text.{◌==◌ as str_eq}
use text.Mathlib.TextEquality.{eq_iff}
use simplicio_fast.Prelude.Tests.{nat_beq, nat_beq_iff}

pub record Equality {ℓ} (A : Type ℓ) : Type ℓ where
  pub same : A → A → Bool
  pub same_iff : (x y : A) → (same x y ≡ true) ↔ (x ≡ y)

module _ {ℓ} {A : Type ℓ} ⦃e : Equality A⦄ where
  infix 50 ◌==◌
  abbrev pub ◌==◌ : A → A → Bool
  x == y = e.same x y

  pub beq_self : (x : A) → (x == x) ≡ true
  beq_self x = (e.same_iff x x).1 refl

  pub beq_of : {x y : A} → x ≡ y → (x == y) ≡ true
  beq_of {x} {y} h = (e.same_iff x y).1 h

module _ {ℓ κ} {A : Type ℓ} {B : Type κ} ⦃ea : Equality A⦄ ⦃eb : Equality B⦄ where
  abbrev pub same_pair : A × B → A × B → Bool
  same_pair p q = (p.0 == q.0) && (p.1 == q.1)

  pub same_pair_iff : (p q : A × B) → (same_pair p q ≡ true) ↔ (p ≡ q)
  same_pair_iff p q = (
    λ h. ground (arith, ea.same_iff p.0 q.0, eb.same_iff p.1 q.1),
    λ h. ground (arith, ea.same_iff p.0 q.0, eb.same_iff p.1 q.1),
  )

  instance abbrev pub pairs_equate : Equality (A × B)
  pairs_equate = record { same = same_pair; same_iff = same_pair_iff }

module _ {ℓ} {A : Type ℓ} ⦃e : Equality A⦄ where
  abbrev pub same_option : Option A → Option A → Bool
  same_option none none = true
  same_option (some a) (some b) = a == b
  same_option _ _ = false

  pub same_option_iff : (p q : Option A) → (same_option p q ≡ true) ↔ (p ≡ q)
  same_option_iff none none = (λ h. refl, λ h. refl)
  same_option_iff (some a) (some b) =
      (λ h. ap some ((e.same_iff a b).0 h), λ h. ground (arith, e.same_iff a b))
  same_option_iff none (some b) = (λ h. cc, λ h. cc)
  same_option_iff (some a) none = (λ h. cc, λ h. cc)

  instance abbrev pub options_equate : Equality (Option A)
  options_equate = record { same = same_option; same_iff = same_option_iff }

-- The two types of keys that are no pairs: numbers, then strings.
instance abbrev pub numbers_equate : Equality ℕ
numbers_equate = record { same = nat_beq; same_iff = nat_beq_iff }

instance abbrev pub strings_equate : Equality String
strings_equate = record { same = str_eq; same_iff = eq_iff }
