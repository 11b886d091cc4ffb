-- ===== src/Prelude/Sorting.antt =====
-- `sorted(...)` and `set(...)` of Python as the program applies them to texts, and to records by a
-- text.
use Prim.Native.String.{String}
use mathlib.Core.Path.{◌≡◌, refl}
use mathlib.Core.Bool.{Bool}
use mathlib.Core.List.{List, [], ◌∷◌, map}
use simplicio_fast.Prelude.Tests.{if◌then◌else◌, Bool-cases}
use simplicio_fast.Prelude.Classes.{Equality}
use simplicio_fast.Prelude.Lists.{contains}
use simplicio_fast.Prelude.Json.{codes}
use simplicio_fast.Prelude.Json.Encode.{lt_codes}
use mathlib.Core.Logic.{inl, inr}

abbrev pub str_ltb : String → String → Bool
str_ltb a b = lt_codes (codes a) (codes b)

module _ {ℓ} {A : Type ℓ} (key : A → String) where
  abbrev pub insert_by : A → List A → List A
  insert_by x [] = x ∷ []
  insert_by x (y ∷ ys) = if str_ltb (key y) (key x) then y ∷ insert_by x ys else x ∷ y ∷ ys

  -- `sorted(xs, key=key)`, which keeps the order of equal keys
  unfoldable pub sort_by : List A → List A
  sort_by [] = []
  sort_by (x ∷ xs) = insert_by x (sort_by xs)

-- `set(xs)`, as the list of its members
abbrev pub members {ℓ} : {A : Type ℓ} ⦃e : Equality A⦄ → List A → List A
members [] = []
members (x ∷ xs) = let rest = members xs in if contains x xs then rest else x ∷ rest

-- A key that a view of the record determines: sorting and viewing commute.
module _ {ℓ κ} {A : Type ℓ} {B : Type κ} (view : A → B) (key : B → String) where
  map-insert_by :
      (x : A) (xs : List A)
      → map view (insert_by (λ a. key (view a)) x xs) ≡ insert_by key (view x) (map view xs)
  map-insert_by x [] = refl
  map-insert_by x (y ∷ ys) = elim (Bool-cases (str_ltb (key (view y)) (key (view x)))) [
    | inl h ↦ rw (h, map-insert_by x ys)
    | inr h ↦ rw h
  ]

  pub map-sort_by :
      (xs : List A) → map view (sort_by (λ a. key (view a)) xs) ≡ sort_by key (map view xs)
  unfolding sort_by
  map-sort_by [] = refl
  map-sort_by (x ∷ xs) = rw (map-insert_by x (sort_by (λ a. key (view a)) xs), map-sort_by xs)
