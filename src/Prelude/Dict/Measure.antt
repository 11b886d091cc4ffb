-- ===== src/Prelude/Dict/Measure.antt =====
-- Sizes of a dict under each update: the number of entries, and a sum over the values.
use Prim.Native.Nat.{ℕ, suc, ◌+◌}
use mathlib.Core.Path.{◌≡◌}
use mathlib.Core.List.{[], ◌∷◌}
use mathlib.Core.Option.{none, some}
use native.Mathlib.Omega.{arith}
use simplicio_fast.Prelude.Classes.{Equality}
use simplicio_fast.Prelude.Dict.{Dict, lookup, insert, erase, erase_absent, sum, count, Distinct}

module _ {ℓ κ} {K : Type ℓ} {V : Type κ} ⦃e : Equality K⦄ where
  pub sum-insert_new :
      (f : V → ℕ) (k : K) (v : V) (d : Dict K V)
      → lookup k d ≡ none
      → sum f (insert k v d) ≡ sum f d + f v
  sum-insert_new f k v [] h = omega arith
  sum-insert_new f k v ((j, w) ∷ d) h = ground (arith, sum-insert_new f k v d)

  pub sum-insert :
      (f : V → ℕ) (k : K) (v old : V) (d : Dict K V)
      → lookup k d ≡ some old
      → sum f (insert k v d) + f old ≡ sum f d + f v
  sum-insert f k v old [] h = absurd (ground arith)
  sum-insert f k v old ((j, w) ∷ d) h = ground (arith, sum-insert f k v old d)

  pub sum-erase :
      (f : V → ℕ) (k : K) (old : V) (d : Dict K V)
      → Distinct d
      → lookup k d ≡ some old
      → sum f (erase k d) + f old ≡ sum f d
  sum-erase f k old [] u h = absurd (ground arith)
  sum-erase f k old ((j, w) ∷ d) u h =
      ground (arith, e.same_iff j k, sum-erase f k old d u.1, erase_absent k d)

  pub count-insert_new :
      (k : K) (v : V) (d : Dict K V) → lookup k d ≡ none → count (insert k v d) ≡ suc (count d)
  count-insert_new k v [] h = omega arith
  count-insert_new k v ((j, w) ∷ d) h = ground (arith, count-insert_new k v d)

  pub count-insert :
      (k : K) (v old : V) (d : Dict K V) → lookup k d ≡ some old → count (insert k v d) ≡ count d
  count-insert k v old [] h = absurd (ground arith)
  count-insert k v old ((j, w) ∷ d) h = ground (arith, count-insert k v old d)

  pub count-erase :
      (k : K) (old : V) (d : Dict K V)
      → Distinct d
      → lookup k d ≡ some old
      → suc (count (erase k d)) ≡ count d
  count-erase k old [] u h = absurd (ground arith)
  count-erase k old ((j, w) ∷ d) u h =
      ground (arith, e.same_iff j k, count-erase k old d u.1, erase_absent k d)
