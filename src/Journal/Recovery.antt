-- ===== src/Journal/Recovery.antt =====
-- `recover` of src/simplicio_fast/journal.py after `append` stopped while it wrote its line.
use mathlib.Core.List.{append-nil}
use simplicio_fast.Prelude.{
  ℕ, String, zero, suc, ◌+◌, ◌≡◌, refl, ap, ◌∙◌, Bool, true, false, not, ◌&&◌, if◌then◌else◌, some,
  List, [], ◌∷◌, ◌++◌, ltb, ◌≤◌, arith, Result, ok, err, take, length, followed,
}
use simplicio_fast.Prelude.Bytes.{length-take}
use simplicio_fast.Prelude.Json.Encode.{canonical}
use simplicio_fast.Prelude.Json.Encode.Lines.{printable, printable-canonical}
use simplicio_fast.Journal.{
  Error, truncated_tail, Event, Loaded, line_of, as_dict, ends_line, split_lines, read_from,
  read_lines, read, recover, recovered_file, report_of, check_header,
}
use simplicio_fast.Journal.Appends.{read_from-append}
use simplicio_fast.Journal.Lines.{
  split_lines_torn, split_lines-append, whole_lines-append, ends_line-append, ends_line_torn,
}

-- what was written of a line that is not all there
printable-take :
    (xs : List ℕ) (n : ℕ)
    → printable xs ≡ true
    → ltb n (length (xs ++ 10 ∷ [])) ≡ true
    → printable (take n (xs ++ 10 ∷ [])) ≡ true
printable-take xs zero h k = refl
printable-take [] (suc n) h k = ground arith
printable-take (x ∷ xs) (suc n) h k = ground (arith, printable-take xs n)

bound : (n k : ℕ) → ltb n k ≡ true → n ≤ k
bound n k h = ground arith

positive : (n : ℕ) → ltb 0 (suc n) ≡ true
positive n = ground arith

-- what `read` gives for a torn tail of `n` bytes
abbrev pub with_tail : Bool → ℕ → List Event → Result Error (List Event)
with_tail recover n es = if not recover && ltb 0 n then err truncated_tail else ok es

module _ (sha256 : List ℕ → String) (loads : List ℕ → Loaded) where
  read_from_torn :
      (r : Bool) (n : ℕ) (tail : List ℕ) (es : List Event)
      → printable tail ≡ true
      → read_from sha256 loads r n es (split_lines tail) ≡ with_tail r (length tail) es
  unfolding read_from split_lines
  read_from_torn false n [] es p = refl
  read_from_torn true n [] es p = refl
  read_from_torn false n (x ∷ xs) es p =
      rw (split_lines_torn x xs p, read_from, ends_line_torn x xs p, positive (length xs)) refl
  read_from_torn true n (x ∷ xs) es p =
      rw (split_lines_torn x xs p, read_from, ends_line_torn x xs p) refl

  read_torn :
      (r : Bool) (raw tail : List ℕ) (es : List Event)
      → ends_line raw ≡ true
      → read sha256 loads false (some raw) ≡ ok es
      → printable tail ≡ true
      → read sha256 loads r (some (raw ++ tail)) ≡ with_tail r (length tail) es
  unfolding read
  read_torn r raw tail es ends h p =
      ap (read_lines sha256 loads r) (split_lines-append raw tail ends)
      ∙ accepted (split_lines raw) h
    where
      accepted :
          (ls : List (List ℕ))
          → read_lines sha256 loads false ls ≡ ok es
          → read_lines sha256 loads r (ls ++ split_lines tail) ≡ with_tail r (length tail) es
      accepted [] k = cc
      accepted (l ∷ ls) k =
          let (headed, rest) = followed (check_header (loads l)) _ k in
          rw headed (
            read_from-append sha256 loads r 1 [] es ls (split_lines tail) rest
            ∙ read_from_torn r (1 + length ls) tail es p)

  recovered_torn :
      (raw tail : List ℕ) (es : List Event)
      → ends_line raw ≡ true
      → printable tail ≡ true
      → recovered_file (some (raw ++ tail)) es ≡ (ok (report_of (ltb 0 (length tail)) es), some raw)
  recovered_torn [] tail es ends p = cc
  recovered_torn (c ∷ cs) [] es ends p = rw (append-nil cs, ends) refl
  recovered_torn (c ∷ cs) (x ∷ xs) es ends p =
      let torn : ends_line (c ∷ cs ++ x ∷ xs) ≡ false =
        ends_line-append (c ∷ cs) x xs ∙ ends_line_torn x xs p in
      rw (torn, whole_lines-append (c ∷ cs) (x ∷ xs) ends p, positive (length xs)) refl

  -- Take a journal file that ends in a line feed and that `read` accepts with the events `es`, and let only
  -- the first `n` bytes of an event's line be written behind it, fewer than the line has. When `n` is not
  -- zero, `read` without recovery refuses the file with `truncated_tail`. In any case `recover` cuts the file
  -- back to the bytes it had before, and reports the count of the events `es`, the hash of the last of them,
  -- and that it recovered exactly when `n` is not zero.
  pub recover-take :
      (raw : List ℕ) (es : List Event) (e : Event) (n : ℕ)
      → ends_line raw ≡ true
      → read sha256 loads false (some raw) ≡ ok es
      → ltb n (length (line_of e)) ≡ true
      → (read sha256 loads false (some (raw ++ take n (line_of e))) ≡ with_tail false n es)
        × (recover sha256 loads (some (raw ++ take n (line_of e)))
            ≡ (ok (report_of (ltb 0 n) es), some raw))
  unfolding recover
  recover-take raw es e n ends h short =
      let p =
        printable-take (canonical true (as_dict e)) n (printable-canonical true (as_dict e))
          short in
      let size = length-take n (line_of e) (bound n _ short) in
      (
        read_torn false raw (take n (line_of e)) es ends h p ∙ ap (λ k. with_tail false k es) size,
        rw (recover, read_torn true raw (take n (line_of e)) es ends h p)
            (recovered_torn raw (take n (line_of e)) es ends p
              ∙ ap (λ k. (ok (report_of (ltb 0 k) es), some raw)) size),
      )
