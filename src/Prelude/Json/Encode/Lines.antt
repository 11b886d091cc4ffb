-- ===== src/Prelude/Json/Encode/Lines.antt =====
-- What `json.dumps` prints stands on one line: no code of it is below 32.
use Prim.Native.Nat.{ℕ, zero, suc, ◌+◌, ◌-◌, ◌/◌, ◌%◌}
use Prim.Native.String.{String}
use mathlib.Core.Path.{◌≡◌, refl}
use mathlib.Core.Bool.{Bool, true, false, ◌&&◌}
use mathlib.Core.List.{List, [], ◌∷◌, ◌++◌}
use native.Mathlib.Omega.{arith}
use simplicio_fast.Prelude.Tests.{leb}
use simplicio_fast.Prelude.Lists.{all}
use simplicio_fast.Prelude.Int.{ℤ, pos, negsuc}
use simplicio_fast.Prelude.Json.{
  Json, null, bool, num, str, arr, obj, Items, nil, item, Fields, end, field, codes,
}
use simplicio_fast.Prelude.Json.Encode.{
  digits, print_nat, print_int, hex, unicode_escape, escape_wide, escape_plain, escape_char, escape,
  print_str, Printed, insert_printed, print_entries, dumps, dump_items, dump_fields, utf8_char,
  utf8, canonical,
}

abbrev pub printable : List ℕ → Bool
printable = all (λ c. leb 32 c)

pub printable-append : (xs ys : List ℕ) → printable (xs ++ ys) ≡ (printable xs && printable ys)
printable-append [] ys = refl
printable-append (x ∷ xs) ys = ground (arith, printable-append xs ys)

printable-digits :
    (f n : ℕ) (out : List ℕ) → printable out ≡ true → printable (digits f n out) ≡ true
unfolding digits
printable-digits zero n out h = h
printable-digits (suc f) n out h = ground (arith, printable-digits f (n / 10) ((48 + n % 10) ∷ out))

printable-print_int : (n : ℤ) → printable (print_int n) ≡ true
unfolding print_int print_nat
printable-print_int (pos n) = printable-digits (suc n) n [] refl
printable-print_int (negsuc n) = printable-digits (suc (suc n)) (suc n) [] refl

hex_printable : (d : ℕ) → leb 32 (hex d) ≡ true
unfolding hex
hex_printable d = ground arith

printable-unicode_escape : (c : ℕ) → printable (unicode_escape c) ≡ true
unfolding unicode_escape
printable-unicode_escape c = ground (
  arith,
  hex_printable (c / 4096 % 16),
  hex_printable (c / 256 % 16),
  hex_printable (c / 16 % 16),
  hex_printable (c % 16),
)

printable-escape_wide : (c : ℕ) → printable (escape_wide c) ≡ true
unfolding escape_wide
printable-escape_wide c =
    let high = unicode_escape (55296 + (c - 65536) / 1024 % 1024) in
    let low = unicode_escape (56320 + (c - 65536) % 1024) in
    ground (
      arith,
      printable-unicode_escape c,
      printable-append high low,
      printable-unicode_escape (55296 + (c - 65536) / 1024 % 1024),
      printable-unicode_escape (56320 + (c - 65536) % 1024),
    )

printable-escape_plain : (a : Bool) (c : ℕ) → printable (escape_plain a c) ≡ true
unfolding escape_plain
printable-escape_plain a c = ground (arith, printable-unicode_escape c, printable-escape_wide c)

printable-escape_char : (a : Bool) (c : ℕ) → printable (escape_char a c) ≡ true
unfolding escape_char
printable-escape_char a c = ground (arith, printable-escape_plain a c)

printable-escape : (a : Bool) (cs : List ℕ) → printable (escape a cs) ≡ true
unfolding escape
printable-escape a [] = refl
printable-escape a (c ∷ cs) = ground (
  arith,
  printable-append (escape_char a c) (escape a cs),
  printable-escape_char a c,
  printable-escape a cs,
)

printable-print_str : (a : Bool) (s : String) → printable (print_str a s) ≡ true
unfolding print_str
printable-print_str a s =
    ground (arith, printable-append (escape a (codes s)) (34 ∷ []), printable-escape a (codes s))

-- every printed value is
abbrev all_printable : Printed → Bool
all_printable [] = true
all_printable ((k, v) ∷ ps) = printable v && all_printable ps

insert_printed-printable :
    (k : String) (v : List ℕ) (ps : Printed)
    → printable v ≡ true
    → all_printable ps ≡ true
    → all_printable (insert_printed k v ps) ≡ true
unfolding insert_printed
insert_printed-printable k v [] h g = ground arith
insert_printed-printable k v ((j, w) ∷ ps) h g = ground (arith, insert_printed-printable k v ps h)

printable-print_entries :
    (a : Bool) (ps : Printed) → all_printable ps ≡ true → printable (print_entries a ps) ≡ true
unfolding print_entries
printable-print_entries a [] h = refl
printable-print_entries a ((k, v) ∷ []) h =
    ground (arith, printable-append (print_str a k) (58 ∷ v), printable-print_str a k)
printable-print_entries a ((k, v) ∷ p ∷ ps) h =
    let rest = print_entries a (p ∷ ps) in
    ground (
      arith,
      printable-append (print_str a k) (58 ∷ (v ++ (44 ∷ rest))),
      printable-append v (44 ∷ rest),
      printable-print_str a k,
      printable-print_entries a (p ∷ ps),
    )

mutual
  unfolding dumps dump_items dump_fields

  printable_json : (a : Bool) (v : Json) → printable (dumps a v) ≡ true
  printable_json a null = refl
  printable_json a (bool true) = refl
  printable_json a (bool false) = refl
  printable_json a (num n) = printable-print_int n
  printable_json a (str s) = printable-print_str a s
  printable_json a (arr xs) =
      ground (arith, printable-append (dump_items a xs) (b']' ∷ []), printable_items a xs)
  printable_json a (obj fs) =
      let entries = print_entries a (dump_fields a fs) in
      ground (
        arith,
        printable-append entries (b'}' ∷ []),
        printable-print_entries a (dump_fields a fs) (printable_fields a fs),
      )

  printable_items : (a : Bool) (xs : Items) → printable (dump_items a xs) ≡ true
  printable_items a nil = refl
  printable_items a (item x nil) = printable_json a x
  printable_items a (item x (item y ys)) = ground (
    arith,
    printable-append (dumps a x) (44 ∷ dump_items a (item y ys)),
    printable_json a x,
    printable_items a (item y ys),
  )

  printable_fields : (a : Bool) (fs : Fields) → all_printable (dump_fields a fs) ≡ true
  printable_fields a end = refl
  printable_fields a (field k v fs) =
      insert_printed-printable k (dumps a v) (dump_fields a fs) (printable_json a v)
        (printable_fields a fs)

printable-utf8_char : (c : ℕ) → leb 32 c ≡ true → printable (utf8_char c) ≡ true
unfolding utf8_char
printable-utf8_char c h = ground arith

printable-utf8 : (cs : List ℕ) → printable cs ≡ true → printable (utf8 cs) ≡ true
unfolding utf8
printable-utf8 [] h = refl
printable-utf8 (c ∷ cs) h =
    ground
      (arith, printable-append (utf8_char c) (utf8 cs), printable-utf8_char c, printable-utf8 cs)

-- the bytes of a printed document
pub printable-canonical : (a : Bool) (v : Json) → printable (canonical a v) ≡ true
unfolding canonical
printable-canonical a v = printable-utf8 (dumps a v) (printable_json a v)
