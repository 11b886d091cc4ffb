-- ===== src/Streaming/Slices.antt =====
-- Slices of byte strings, as `read_range` of src/simplicio_fast/streaming.py takes them from its blocks.
use mathlib.Core.List.{append-nil}
use simplicio_fast.Prelude.{
  ℕ, zero, suc, ◌-◌, ◌+◌, ◌≤◌, ◌≡◌, refl, ap, ◌∙◌, inl, inr, Bool-cases, List, [], ◌∷◌, ◌++◌, arith,
  leb, leb→le, length, take, drop,
}
use simplicio_fast.Prelude.Bytes.{length-take, length-drop}

-- `content[from:to]`
abbrev pub slice : ℕ → ℕ → List ℕ → List ℕ
slice from to content = drop from (take to content)

minus_zero : (n : ℕ) → n - 0 ≡ n
minus_zero n = omega arith

zero_minus : (n : ℕ) → 0 - n ≡ 0
zero_minus n = omega arith

minus_suc : (n m : ℕ) → suc n - suc m ≡ n - m
minus_suc n m = omega arith

pub drop_nil : (n : ℕ) → drop {A = ℕ} n [] ≡ []
drop_nil zero = refl
drop_nil (suc n) = refl

take_split : (n : ℕ) (xs ys : List ℕ) → take n (xs ++ ys) ≡ take n xs ++ take (n - length xs) ys
take_split zero [] ys = refl
take_split (suc n) [] ys = rw (minus_zero (suc n)) refl
take_split zero (x ∷ xs) ys = rw (zero_minus (suc (length xs))) refl
take_split (suc n) (x ∷ xs) ys = rw (minus_suc n (length xs)) (ap (λ t. x ∷ t) (take_split n xs ys))

drop_split : (n : ℕ) (xs ys : List ℕ) → drop n (xs ++ ys) ≡ drop n xs ++ drop (n - length xs) ys
drop_split zero [] ys = refl
drop_split (suc n) [] ys = rw (minus_zero (suc n)) refl
drop_split zero (x ∷ xs) ys = rw (zero_minus (suc (length xs))) refl
drop_split (suc n) (x ∷ xs) ys = rw (minus_suc n (length xs)) (drop_split n xs ys)

pub drop_past : (n : ℕ) (xs : List ℕ) → length xs ≤ n → drop n xs ≡ []
drop_past zero [] h = refl
drop_past zero (x ∷ xs) h = absurd (omega arith)
drop_past (suc n) [] h = refl
drop_past (suc n) (x ∷ xs) h = drop_past n xs (omega arith)

pub take_past : (n : ℕ) (xs : List ℕ) → length xs ≤ n → take n xs ≡ xs
take_past zero [] h = refl
take_past zero (x ∷ xs) h = absurd (omega arith)
take_past (suc n) [] h = refl
take_past (suc n) (x ∷ xs) h = ap (λ t. x ∷ t) (take_past n xs (omega arith))

length-take_shorter : (n : ℕ) (xs : List ℕ) → length (take n xs) ≤ length xs
length-take_shorter zero xs = omega arith
length-take_shorter (suc n) [] = omega arith
length-take_shorter (suc n) (x ∷ xs) = omega (arith, length-take_shorter n xs)

pub slice_split :
    (from to : ℕ) (xs ys : List ℕ)
    → slice from to (xs ++ ys) ≡ slice from to xs ++ slice (from - length xs) (to - length xs) ys
slice_split from to xs ys = rw (take_split to xs ys) (
    drop_split from (take to xs) (take (to - length xs) ys)
    ∙ elim (Bool-cases (leb (length xs) to)) [
      | inl h ↦ rw (take_past to xs (leb→le _ _ h)) refl
      | inr h ↦
          let gone : to - length xs ≡ 0 = ground arith in
          rw (gone, drop_nil (from - length xs), drop_nil (from - length (take to xs))) refl
    ])

pub length-slice :
    (from to : ℕ) (xs : List ℕ) → from ≤ to → to ≤ length xs → length (slice from to xs) + from ≡ to
length-slice from to xs h k =
    let taken = length-take to xs k in
    omega (arith, length-drop from (take to xs) (omega (arith, taken)))

-- a part that starts at or after the end of the bytes is empty
pub slice_past : (from to : ℕ) (xs : List ℕ) → length xs ≤ from → slice from to xs ≡ []
slice_past from to xs h = drop_past from (take to xs) (omega (arith, length-take_shorter to xs))

-- nothing of what follows `to` matters
pub slice_reached :
    (from to : ℕ) (xs ys : List ℕ) → to ≤ length xs → slice from to (xs ++ ys) ≡ slice from to xs
slice_reached from to xs ys h =
    let gone : to - length xs ≡ 0 = omega arith in
    slice_split from to xs ys
    ∙ ap (λ t. slice from to xs ++ t) (rw gone (drop_nil (from - length xs)))
    ∙ append-nil (slice from to xs)

take_nil : (n : ℕ) → take {A = ℕ} n [] ≡ []
take_nil zero = refl
take_nil (suc n) = refl

pub slice_nil : (from to : ℕ) → slice from to [] ≡ []
slice_nil from to = rw (take_nil to) (drop_nil from)

nil_of_length : (xs : List ℕ) → length xs ≡ 0 → xs ≡ []
nil_of_length [] h = refl
nil_of_length (x ∷ xs) h = absurd (omega arith)

pub slice_empty : (from to : ℕ) (xs : List ℕ) → from ≡ to → to ≤ length xs → slice from to xs ≡ []
slice_empty from to xs e h =
    nil_of_length (slice from to xs) (omega (arith, length-slice from to xs (omega arith) h))
