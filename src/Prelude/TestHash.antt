-- ===== src/Prelude/TestHash.antt =====
-- A cheap hash with 64 hexadecimal digits that stands in for SHA-256 where a test runs the code.
use Prim.Native.Nat.{ℕ, zero, suc, ◌+◌, ◌*◌, ◌/◌, ◌%◌}
use Prim.Native.Char.{Char}
use Prim.Native.String.{String}
use mathlib.Core.List.{List, [], ◌∷◌}
use mathlib.Core.Path.{◌≡◌, refl}
use mathlib.Core.Bool.{true}
use simplicio_fast.Prelude.Lists.{get_or}
use simplicio_fast.Prelude.Digests.{is_sha256}

abbrev hex_digits : List Char
hex_digits =
    "0" ∷ "1" ∷ "2" ∷ "3" ∷ "4" ∷ "5" ∷ "6" ∷ "7" ∷ "8" ∷ "9" ∷ "a" ∷ "b" ∷ "c" ∷ "d" ∷ "e" ∷ "f"
    ∷ []

hex_text : ℕ → ℕ → String
hex_text zero n = ""
hex_text (suc f) n = String.◌∷◌ (get_or hex_digits (n % 16) "0") (hex_text f (n / 16))

mix : ℕ → List ℕ → ℕ
mix acc [] = acc
mix acc (b ∷ bs) = mix ((acc * 257 + b + 1) % 2305843009213693951) bs

unfoldable pub test_hash : List ℕ → String
unfolding hex_text mix
test_hash bs = hex_text 64 (mix 7 bs)

test_hash-is_sha256 : is_sha256 (test_hash (1 ∷ 2 ∷ [])) ≡ true
unfolding is_sha256 test_hash
test_hash-is_sha256 = refl
