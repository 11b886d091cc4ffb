-- ===== src/Journal/Lines.antt =====
-- The lines of a journal file of src/simplicio_fast/journal.py: files that end in a line feed, and a torn line
-- after them.
use simplicio_fast.Prelude.{
  ℕ, ◌≡◌, refl, sym, ap, ◌∙◌, inl, inr, true, false, Bool-cases, List, [], ◌∷◌, ◌++◌, arith, leb,
  nat_beq, get_last?,
}
use simplicio_fast.Prelude.Json.Encode.Lines.{printable}
use simplicio_fast.Journal.{split_lines, whole_lines, ends_line, is_feed, grow, carriage, next_line}

-- a line, and what follows it
pub split_lines-line :
    (xs rest : List ℕ)
    → printable xs ≡ true
    → split_lines (xs ++ 10 ∷ rest) ≡ (xs ++ 10 ∷ []) ∷ split_lines rest
unfolding split_lines
split_lines-line [] rest h = refl
split_lines-line (x ∷ xs) rest h =
    let ih = split_lines-line xs rest (ground arith) in
    let low : leb 32 x ≡ true = ground arith in
    let feed : nat_beq x 10 ≡ false = ground arith in
    let return' : nat_beq x 13 ≡ false = ground arith in rw (ih, feed, return') refl

-- a torn line
pub split_lines_torn :
    (x : ℕ) (xs : List ℕ) → printable (x ∷ xs) ≡ true → split_lines (x ∷ xs) ≡ (x ∷ xs) ∷ []
unfolding split_lines
split_lines_torn x [] h = ground arith
split_lines_torn x (y ∷ ys) h =
    let ih = split_lines_torn y ys (ground arith) in
    let feed : nat_beq x 10 ≡ false = ground arith in
    let return' : nat_beq x 13 ≡ false = ground arith in rw (ih, feed, return') refl

grow_some :
    (c : ℕ) (rest : List (List ℕ)) → (l : List ℕ) × (ls : List (List ℕ)) × (grow c rest ≡ l ∷ ls)
grow_some c [] = (c ∷ [], [], refl)
grow_some c (l ∷ ls) = (c ∷ l, ls, refl)

carriage_some :
    (cs : List ℕ) (rest : List (List ℕ))
    → (l : List ℕ) × (ls : List (List ℕ)) × (carriage cs rest ≡ l ∷ ls)
carriage_some [] rest = (13 ∷ [], rest, refl)
carriage_some (d ∷ ds) rest = elim (Bool-cases (nat_beq d 10)) [
  | inl feed ↦ rw feed (grow_some 13 rest)
  | inr other ↦ (13 ∷ [], rest, rw other refl)
]

next_line_some :
    (c : ℕ) (cs : List ℕ) (rest : List (List ℕ))
    → (l : List ℕ) × (ls : List (List ℕ)) × (next_line c cs rest ≡ l ∷ ls)
next_line_some c cs rest = elim (Bool-cases (nat_beq c 10)) [
  | inl feed ↦ (10 ∷ [], rest, rw feed refl)
  | inr other ↦ elim (Bool-cases (nat_beq c 13)) [
    | inl return' ↦ rw (other, return') (carriage_some cs rest)
    | inr plain ↦ rw (other, plain) (grow_some c rest)
  ]
]

next_line-append :
    (c d : ℕ) (ds l : List ℕ) (ls rest : List (List ℕ))
    → next_line c (d ∷ ds) (l ∷ (ls ++ rest)) ≡ next_line c (d ∷ ds) (l ∷ ls) ++ rest
next_line-append c d ds l ls rest = ground arith

-- a file that ends in a line feed, and what is written after it
pub split_lines-append :
    (f g : List ℕ) → ends_line f ≡ true → split_lines (f ++ g) ≡ split_lines f ++ split_lines g
unfolding split_lines
split_lines-append [] g h = cc
split_lines-append (c ∷ []) g h = ground arith
split_lines-append (c ∷ d ∷ cs) g h =
    let ih = split_lines-append (d ∷ cs) g h in
    let (l, ls, some_line) = next_line_some d cs (split_lines cs) in
    ap (next_line c (d ∷ (cs ++ g))) (ih ∙ ap (λ t. t ++ split_lines g) some_line)
    ∙ next_line-append c d (cs ++ g) l ls (split_lines g)
    ∙ ap (λ t. next_line c (d ∷ cs) t ++ split_lines g) (sym some_line)

whole_lines_torn : (xs : List ℕ) → printable xs ≡ true → whole_lines xs ≡ []
unfolding whole_lines
whole_lines_torn [] h = refl
whole_lines_torn (x ∷ xs) h = ground (arith, whole_lines_torn xs)

pub whole_lines-append :
    (f tail : List ℕ) → ends_line f ≡ true → printable tail ≡ true → whole_lines (f ++ tail) ≡ f
unfolding whole_lines
whole_lines-append [] tail h k = cc
whole_lines-append (c ∷ []) tail h k = ground (arith, whole_lines_torn tail)
whole_lines-append (c ∷ d ∷ cs) tail h k = ground (arith, whole_lines-append (d ∷ cs) tail h k)

get_last?-append_more :
    (xs : List ℕ) (y : ℕ) (ys : List ℕ) → get_last? (xs ++ y ∷ ys) ≡ get_last? (y ∷ ys)
get_last?-append_more [] y ys = refl
get_last?-append_more (x ∷ []) y ys = refl
get_last?-append_more (x ∷ x' ∷ xs) y ys = get_last?-append_more (x' ∷ xs) y ys

pub ends_line-append :
    (xs : List ℕ) (y : ℕ) (ys : List ℕ) → ends_line (xs ++ y ∷ ys) ≡ ends_line (y ∷ ys)
ends_line-append xs y ys = ap is_feed (get_last?-append_more xs y ys)

pub ends_line_torn : (x : ℕ) (xs : List ℕ) → printable (x ∷ xs) ≡ true → ends_line (x ∷ xs) ≡ false
ends_line_torn x [] h = ground arith
ends_line_torn x (y ∷ ys) h = ends_line_torn y ys (ground arith)
