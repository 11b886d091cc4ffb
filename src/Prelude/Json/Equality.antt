-- ===== src/Prelude/Json/Equality.antt =====
-- Python's `==` on documents.
use Prim.Native.Nat.{ℕ, suc}
use Prim.Native.String.{String}
use mathlib.Core.Path.{◌≡◌, refl}
use native.Mathlib.Omega.{arith}
use text.Mathlib.TextEquality.{eq_iff}
use mathlib.Core.Bool.{Bool, true, false, ◌&&◌}
use mathlib.Core.Option.{Option, none, some}
use simplicio_fast.Prelude.Tests.{nat_beq, if◌then◌else◌}
use simplicio_fast.Prelude.Classes.{◌==◌, strings_equate}
use simplicio_fast.Prelude.Int.{ℤ, pos, negsuc}
use simplicio_fast.Prelude.Json.{
  Json, null, bool, num, str, arr, obj, Items, nil, item, Fields, end, field,
}

-- `a == b` of two documents: an object whatever the order of its keys, and a bool as the number
-- that it is in Python.
as_num : Bool → ℤ
as_num true = pos 1
as_num false = pos 0

int_beq : ℤ → ℤ → Bool
int_beq (pos a) (pos b) = nat_beq a b
int_beq (negsuc a) (negsuc b) = nat_beq a b
int_beq _ _ = false

unfoldable pub json_get : String → Fields → Option Json
json_get k end = none
json_get k (field j v fs) = if k == j then some v else json_get k fs

unfoldable pub json_count : Fields → ℕ
json_count end = 0
json_count (field j v fs) = suc (json_count fs)

unfoldable mutual
  unfolding as_num int_beq json_get json_count

  pub json_beq : Json → Json → Bool
  json_beq null null = true
  json_beq (bool a) (bool b) = int_beq (as_num a) (as_num b)
  json_beq (bool a) (num b) = int_beq (as_num a) b
  json_beq (num a) (bool b) = int_beq a (as_num b)
  json_beq (num a) (num b) = int_beq a b
  json_beq (str s) (str t) = s == t
  json_beq (arr xs) (arr ys) = items_beq xs ys
  json_beq (obj fs) (obj gs) = nat_beq (json_count fs) (json_count gs) && fields_within fs gs
  json_beq _ _ = false

  pub items_beq : Items → Items → Bool
  items_beq nil nil = true
  items_beq (item x xs) (item y ys) = json_beq x y && items_beq xs ys
  items_beq _ _ = false

  pub fields_within : Fields → Fields → Bool
  fields_within end gs = true
  fields_within (field k v fs) gs =
      elim (json_get k gs) [ none ↦ false | some w ↦ json_beq v w ] && fields_within fs gs

-- A document whose objects name each key once, as a Python dict does.
abbrev mutual
  pub IsDict : Json → Type 0
  IsDict (arr xs) = AllDicts xs
  IsDict (obj fs) = IsDictFields fs
  IsDict _ = Unit

  pub AllDicts : Items → Type 0
  AllDicts nil = Unit
  AllDicts (item x xs) = IsDict x × AllDicts xs

  pub IsDictFields : Fields → Type 0
  IsDictFields end = Unit
  IsDictFields (field k v fs) = (json_get k fs ≡ none) × IsDict v × IsDictFields fs

int_beq_refl : (n : ℤ) → int_beq n n ≡ true
unfolding int_beq
int_beq_refl (pos n) = ground arith
int_beq_refl (negsuc n) = ground arith

-- every field of the first object stands in the second
abbrev Within : Fields → Fields → Type 0
Within end gs = Unit
Within (field k v fs) gs = (json_get k gs ≡ some v) × Within fs gs

Within-field :
    (k : String) (v : Json) (fs gs : Fields)
    → json_get k fs ≡ none
    → Within fs gs
    → Within fs (field k v gs)
unfolding json_get
Within-field k v end gs n h = tt
Within-field k v (field j w fs) gs n h =
    (ground (arith, eq_iff k j, eq_iff j k), Within-field k v fs gs (ground arith) h.1)

Within-refl : (fs : Fields) → IsDictFields fs → Within fs fs
unfolding json_get
Within-refl end h = tt
Within-refl (field k v fs) h =
    (ground (arith, eq_iff k k), Within-field k v fs fs h.0 (Within-refl fs h.2))

mutual
  unfolding json_beq

  json_refl : (v : Json) → IsDict v → json_beq v v ≡ true
  json_refl null d = refl
  json_refl (bool b) d = int_beq_refl (as_num b)
  json_refl (num n) d = int_beq_refl n
  json_refl (str s) d = ground (arith, eq_iff s s)
  json_refl (arr xs) d = items_refl xs d
  json_refl (obj fs) d = ground (arith, fields_refl fs d fs (Within-refl fs d))

  items_refl : (xs : Items) → AllDicts xs → items_beq xs xs ≡ true
  items_refl nil d = refl
  items_refl (item x xs) d = ground (arith, json_refl x d.0, items_refl xs d.1)

  fields_refl :
      (fs : Fields) → IsDictFields fs → (gs : Fields) → Within fs gs → fields_within fs gs ≡ true
  fields_refl end d gs h = refl
  fields_refl (field k v fs) d gs h = ground (arith, json_refl v d.1, fields_refl fs d.2 gs h.1)

pub json_beq_refl : (v : Json) → IsDict v → json_beq v v ≡ true
json_beq_refl v d = json_refl v d
