-- ===== src/Prelude/Bytes.antt =====
-- Byte strings as lists of numbers: big-endian words as `struct` packs them, equality, and slices.
use Prim.Native.Nat.{ℕ, zero, suc, ◌+◌, ◌*◌, ◌/◌, ◌%◌, ◌≤◌, ◌<◌}
use mathlib.Core.Path.{◌≡◌, refl, ap}
use mathlib.Core.Logic.{◌↔◌}
use mathlib.Core.Bool.{Bool, true, false, ◌&&◌}
use mathlib.Core.List.{List, [], ◌∷◌, ◌++◌}
use native.Mathlib.Omega.{arith}
use simplicio_fast.Prelude.Classes.{Equality, ◌==◌}
use simplicio_fast.Prelude.Lists.{length, take, drop, get_or}

-- `struct.pack(">I", n)` of a number below 2 ^ 32
abbrev pub pack_u32 : ℕ → List ℕ
pack_u32 n = n / 16777216 % 256 ∷ n / 65536 % 256 ∷ n / 256 % 256 ∷ n % 256 ∷ []

-- `struct.unpack(">I", bs)` of the first four bytes
abbrev pub unpack_u32 : List ℕ → ℕ
unpack_u32 bs =
    get_or bs 0 0 * 16777216 + get_or bs 1 0 * 65536 + get_or bs 2 0 * 256 + get_or bs 3 0

pub unpack-pack_u32 : (n : ℕ) (bs : List ℕ) → n < 4294967296 → unpack_u32 (pack_u32 n ++ bs) ≡ n
unpack-pack_u32 n bs h = omega (arith, h)

module _ {ℓ} {A : Type ℓ} ⦃e : Equality A⦄ where
  abbrev pub same_list : List A → List A → Bool
  same_list [] [] = true
  same_list (x ∷ xs) (y ∷ ys) = x == y && same_list xs ys
  same_list _ _ = false

  pub same_list_iff : (xs ys : List A) → (same_list xs ys ≡ true) ↔ (xs ≡ ys)
  same_list_iff [] [] = (λ h. refl, λ h. refl)
  same_list_iff (x ∷ xs) (y ∷ ys) = (
    λ h. ground (arith, e.same_iff x y, same_list_iff xs ys),
    λ h. ground (arith, e.same_iff x y, same_list_iff xs ys),
  )
  same_list_iff [] (y ∷ ys) = (λ h. cc, λ h. cc)
  same_list_iff (x ∷ xs) [] = (λ h. cc, λ h. cc)

  instance abbrev pub lists_equate : Equality (List A)
  lists_equate = record { same = same_list; same_iff = same_list_iff }

suc_plus : (i j : ℕ) → suc i + j ≡ suc (i + j)
suc_plus i j = omega arith

plus_zero : (i : ℕ) → suc i + 0 ≡ suc i
plus_zero i = omega arith

module _ {ℓ} {A : Type ℓ} where
  pub take-append : (n : ℕ) (xs ys : List A) → n ≤ length xs → take n (xs ++ ys) ≡ take n xs
  take-append zero xs ys h = refl
  take-append (suc n) [] ys h = absurd (omega (arith, h))
  take-append (suc n) (x ∷ xs) ys h = ap (λ t. x ∷ t) (take-append n xs ys (omega (arith, h)))

  pub drop-append : (n : ℕ) (xs ys : List A) → n ≤ length xs → drop n (xs ++ ys) ≡ drop n xs ++ ys
  drop-append zero xs ys h = refl
  drop-append (suc n) [] ys h = absurd (omega (arith, h))
  drop-append (suc n) (x ∷ xs) ys h = drop-append n xs ys (omega (arith, h))

  pub take_all : (n : ℕ) (xs : List A) → n ≡ length xs → take n xs ≡ xs
  take_all zero [] h = refl
  take_all zero (x ∷ xs) h = absurd (omega (arith, h))
  take_all (suc n) [] h = refl
  take_all (suc n) (x ∷ xs) h = ap (λ t. x ∷ t) (take_all n xs (omega (arith, h)))

  pub drop_all : (n : ℕ) (xs : List A) → n ≡ length xs → drop n xs ≡ []
  drop_all zero [] h = refl
  drop_all zero (x ∷ xs) h = absurd (omega (arith, h))
  drop_all (suc n) [] h = refl
  drop_all (suc n) (x ∷ xs) h = drop_all n xs (omega (arith, h))

  pub length-drop : (n : ℕ) (xs : List A) → n ≤ length xs → length (drop n xs) + n ≡ length xs
  length-drop zero xs h = omega arith
  length-drop (suc n) [] h = absurd (omega (arith, h))
  length-drop (suc n) (x ∷ xs) h = omega (arith, length-drop n xs (omega (arith, h)))

  pub length-take : (n : ℕ) (xs : List A) → n ≤ length xs → length (take n xs) ≡ n
  length-take zero xs h = refl
  length-take (suc n) [] h = absurd (omega (arith, h))
  length-take (suc n) (x ∷ xs) h = omega (arith, length-take n xs (omega (arith, h)))

  pub drop_add : (i j : ℕ) (xs : List A) → drop (i + j) xs ≡ drop j (drop i xs)
  drop_add zero j xs = ap (λ n. drop n xs) (omega arith)
  drop_add (suc i) zero [] = rw (plus_zero i) refl
  drop_add (suc i) (suc j) [] = rw (suc_plus i (suc j)) refl
  drop_add (suc i) j (x ∷ xs) = rw (suc_plus i j) (drop_add i j xs)
