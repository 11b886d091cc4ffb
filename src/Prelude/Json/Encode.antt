-- ===== src/Prelude/Json/Encode.antt =====
-- `json.dumps(value, sort_keys=True, separators=(",", ":"), ensure_ascii=…)` of the standard
-- library and `str.encode("utf-8")`, as the program calls them before it hashes.
pub mod Lines
use Prim.Native.Nat.{ℕ, zero, suc, ◌+◌, ◌-◌, ◌/◌, ◌%◌}
use Prim.Native.String.{String}
use mathlib.Core.Path.{◌≡◌, refl}
use mathlib.Core.Bool.{Bool, true, false, ◌&&◌, ◌||◌}
use mathlib.Core.List.{List, [], ◌∷◌, ◌++◌}
use simplicio_fast.Prelude.Tests.{ltb, nat_beq, if◌then◌else◌}
use simplicio_fast.Prelude.Classes.{strings_equate}
use simplicio_fast.Prelude.Int.{ℤ, pos, negsuc}
use simplicio_fast.Prelude.Json.{
  Json, null, bool, num, str, arr, obj, Items, nil, item, Fields, end, field, codes,
}

-- The order in which Python compares texts.
abbrev pub lt_codes : List ℕ → List ℕ → Bool
lt_codes _ [] = false
lt_codes [] (b ∷ bs) = true
lt_codes (a ∷ as') (b ∷ bs) = ltb a b || (nat_beq a b && lt_codes as' bs)

-- decimal digits, on fuel above the number of digits
digits : ℕ → ℕ → List ℕ → List ℕ
digits zero n out = out
digits (suc f) n out =
    let rest = digits f (n / 10) ((48 + n % 10) ∷ out) in if ltb n 10 then (48 + n) ∷ out else rest

print_nat : ℕ → List ℕ
unfolding digits
print_nat n = digits (suc n) n []

print_int : ℤ → List ℕ
unfolding print_nat
print_int (pos n) = print_nat n
print_int (negsuc n) = b'-' ∷ print_nat (suc n)

hex : ℕ → ℕ
hex d = if ltb d 10 then 48 + d else 87 + d

-- `\uXXXX`
unicode_escape : ℕ → List ℕ
unfolding hex
unicode_escape c =
    b'\\' ∷ b'u' ∷ hex (c / 4096 % 16) ∷ hex (c / 256 % 16) ∷ hex (c / 16 % 16) ∷ hex (c % 16) ∷ []

escape_wide : ℕ → List ℕ
unfolding unicode_escape
escape_wide c =
    if ltb c 65536
    then unicode_escape c
    else unicode_escape (55296 + (c - 65536) / 1024 % 1024)
      ++ unicode_escape (56320 + (c - 65536) % 1024)

escape_plain : Bool → ℕ → List ℕ
escape_plain ensure_ascii c =
    if ltb c 32
    then unicode_escape c
    else if ensure_ascii && ltb 126 c
    then escape_wide c
    else c ∷ []

escape_char : Bool → ℕ → List ℕ
escape_char ensure_ascii c =
    if nat_beq c 34
    then 92 ∷ 34 ∷ []
    else if nat_beq c 92
    then 92 ∷ 92 ∷ []
    else if nat_beq c 10
    then 92 ∷ b'n' ∷ []
    else if nat_beq c 13
    then 92 ∷ b'r' ∷ []
    else if nat_beq c 9
    then 92 ∷ b't' ∷ []
    else if nat_beq c 12
    then 92 ∷ b'f' ∷ []
    else if nat_beq c 8
    then 92 ∷ b'b' ∷ []
    else escape_plain ensure_ascii c

escape : Bool → List ℕ → List ℕ
unfolding escape_char escape_plain escape_wide unicode_escape
escape ensure_ascii [] = []
escape ensure_ascii (c ∷ cs) = escape_char ensure_ascii c ++ escape ensure_ascii cs

print_str : Bool → String → List ℕ
unfolding escape
print_str ensure_ascii s = 34 ∷ (escape ensure_ascii (codes s) ++ 34 ∷ [])

-- The printed values of an object, before they are put in the order of their keys.
abbrev Printed : Type 0
Printed = List (String × List ℕ)

insert_printed : String → List ℕ → Printed → Printed
insert_printed k v [] = (k, v) ∷ []
insert_printed k v ((j, w) ∷ ps) =
    if lt_codes (codes k) (codes j) then (k, v) ∷ (j, w) ∷ ps else (j, w) ∷ insert_printed k v ps

print_entries : Bool → Printed → List ℕ
unfolding print_str
print_entries a [] = []
print_entries a ((k, v) ∷ []) = print_str a k ++ (58 ∷ v)
print_entries a ((k, v) ∷ p ∷ ps) = print_str a k ++ (58 ∷ (v ++ (44 ∷ print_entries a (p ∷ ps))))

unfoldable mutual
  unfolding print_str print_int print_entries insert_printed

  pub dumps : Bool → Json → List ℕ
  dumps a null = codes "null"
  dumps a (bool true) = codes "true"
  dumps a (bool false) = codes "false"
  dumps a (num n) = print_int n
  dumps a (str s) = print_str a s
  dumps a (arr xs) = b'[' ∷ (dump_items a xs ++ b']' ∷ [])
  dumps a (obj fs) = b'{' ∷ (print_entries a (dump_fields a fs) ++ b'}' ∷ [])

  pub dump_items : Bool → Items → List ℕ
  dump_items a nil = []
  dump_items a (item x nil) = dumps a x
  dump_items a (item x (item y ys)) = dumps a x ++ (44 ∷ dump_items a (item y ys))

  pub dump_fields : Bool → Fields → List (String × List ℕ)
  dump_fields a end = []
  dump_fields a (field k v fs) = insert_printed k (dumps a v) (dump_fields a fs)

utf8_char : ℕ → List ℕ
utf8_char c =
    if ltb c 128
    then c ∷ []
    else if ltb c 2048
    then (192 + c / 64) ∷ (128 + c % 64) ∷ []
    else if ltb c 65536
    then (224 + c / 4096) ∷ (128 + c / 64 % 64) ∷ (128 + c % 64) ∷ []
    else (240 + c / 262144) ∷ (128 + c / 4096 % 64) ∷ (128 + c / 64 % 64) ∷ (128 + c % 64) ∷ []

-- `text.encode("utf-8")`
unfoldable pub utf8 : List ℕ → List ℕ
unfolding utf8_char
utf8 [] = []
utf8 (c ∷ cs) = utf8_char c ++ utf8 cs

-- `s.encode("utf-8")`
abbrev pub encode : String → List ℕ
encode s = utf8 (codes s)

-- the canonical bytes of a document
unfoldable pub canonical : Bool → Json → List ℕ
unfolding dumps utf8
canonical ensure_ascii v = utf8 (dumps ensure_ascii v)

dumps_sorts :
    dumps true
      (obj (field "b" (num (pos 12)) (field "a" (arr (item null (item (str "x\"é") nil))) end)))
    ≡ codes "{\"a\":[null,\"x\\\"\\u00e9\"],\"b\":12}"
unfolding dumps
dumps_sorts = refl
