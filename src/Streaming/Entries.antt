-- ===== src/Streaming/Entries.antt =====
-- The entries that `build` of src/simplicio_fast/streaming.py writes for the blocks of a source, and what the
-- checks of the program make of them.
use native.Mathlib.Nat.{add-div_left, add-mod_left, mod-eq_of_lt, div-eq_of_lt, zero-div, zero-mod}
use mathlib.Core.List.{append_assoc, append-nil}
use simplicio_fast.Prelude.{
  ℕ, suc, ◌+◌, ◌≤◌, String, ◌≡◌, refl, ap, ◌∙◌, Option, some, List, [], ◌∷◌, ◌++◌, arith, ok,
  length, length-append, take, drop, strings_equate,
}
use simplicio_fast.Prelude.Bytes.{take-append, drop-append, take_all, drop_all}
use simplicio_fast.Prelude.Int.{ℤ, pos, ◌+ℤ◌}
use simplicio_fast.Prelude.Json.{Json, num, str}
use simplicio_fast.Prelude.Json.Equality.{json_get, json_beq_refl}
use simplicio_fast.Streaming.{
  entry, compare_block, validate_block, validate_from, validate_existing, sum_lengths, block_count,
  list_of, items_of, is_equal, checkpoint_bounds, bounded, Error, item_at, int_of, get_key,
}
use simplicio_fast.Streaming.Blocks.{joined, Sized}

pub list_of-items_of : (bs : List Json) → list_of (items_of bs) ≡ bs
list_of-items_of [] = refl
list_of-items_of (b ∷ bs) = ap (λ t. b ∷ t) (list_of-items_of bs)

pub take_block_at :
    (pre x rest : List ℕ) → take (length x) (drop (length pre) (pre ++ x ++ rest)) ≡ x
take_block_at pre x rest = rw (append_assoc pre x rest) (
    ap (take (length x)) (
      drop-append (length pre) pre (x ++ rest) (omega arith)
      ∙ ap (λ t. t ++ (x ++ rest)) (drop_all (length pre) pre refl))
    ∙ take-append (length x) x rest (omega arith)
    ∙ take_all (length x) x refl)

-- a block that is not empty and lies within the content
pub bounded_block :
    (e : Error) (n cursor size : ℕ)
    → 1 ≤ n
    → cursor + n ≤ size
    → bounded e (pos n) cursor size ≡ ok n
unfolding bounded
bounded_block e n cursor size h k = ground arith

pub Sized-head :
    (size : ℕ) (b : List ℕ) (bs : List (List ℕ)) → 1 ≤ size → Sized size (b ∷ bs) → 1 ≤ length b
Sized-head size b [] h s = s.0
Sized-head size b (c ∷ bs) h s = omega (arith, s.0)

pub Sized-tail : (size : ℕ) (b : List ℕ) (bs : List (List ℕ)) → Sized size (b ∷ bs) → Sized size bs
Sized-tail size b [] s = tt
Sized-tail size b (c ∷ bs) s = s.1

pub Sized-prefix :
    (size : ℕ) (xs ys : List (List ℕ)) → 1 ≤ size → Sized size (xs ++ ys) → Sized size xs
Sized-prefix size [] ys h s = tt
Sized-prefix size (x ∷ []) [] h s = s
Sized-prefix size (x ∷ []) (y ∷ ys) h s = omega (arith, s.0)
Sized-prefix size (x ∷ x' ∷ xs) ys h s = (s.0, Sized-prefix size (x' ∷ xs) ys h s.1)

module _ (sha256 : List ℕ → String) (parse_int : String → Option ℤ) where
  -- the entries of blocks from index `i`
  abbrev pub entries : ℕ → List (List ℕ) → List Json
  entries i [] = []
  entries i (b ∷ bs) = entry sha256 parse_int i b ∷ entries (suc i) bs

  pub entries-append :
      (i : ℕ) (xs ys : List (List ℕ))
      → entries i (xs ++ ys) ≡ entries i xs ++ entries (i + length xs) ys
  entries-append i [] ys = ap (λ t. entries t ys) (omega arith)
  entries-append i (x ∷ xs) ys =
      ap (λ t. entry sha256 parse_int i x ∷ t)
        (entries-append (suc i) xs ys ∙ ap (λ t. entries (suc i) xs ++ entries t ys) (omega arith))

  pub length-entries : (i : ℕ) (xs : List (List ℕ)) → length (entries i xs) ≡ length xs
  length-entries i [] = refl
  length-entries i (x ∷ xs) = ap suc (length-entries (suc i) xs)

  pub compare-entry :
      (i : ℕ) (b : List ℕ) → compare_block sha256 parse_int (entry sha256 parse_int i b) b ≡ ok tt
  unfolding compare_block json_get
  compare-entry i b =
      rw (json_beq_refl (num (pos (length b))) tt, json_beq_refl (str (sha256 b)) tt)

  pub validate-entry :
      (i : ℕ) (pre b rest : List ℕ)
      → 1 ≤ length b
      → validate_block sha256 parse_int i
          (length pre)
          (pre ++ b ++ rest)
          (entry sha256 parse_int i b)
        ≡ ok (length pre + length b)
  unfolding get_key item_at int_of is_equal validate_block json_get
  validate-entry i pre b rest h =
      let inside =
        bounded_block checkpoint_bounds (length b) (length pre) (length (pre ++ b ++ rest)) h
          (omega (arith, length-append pre b, length-append (pre ++ b) rest)) in
      rw (
        json_beq_refl (num (pos i)) tt,
        inside,
        take_block_at pre b rest,
        json_beq_refl (str (sha256 b)) tt,
      )

  pub validate-entries :
      (size i : ℕ) (pre : List ℕ) (bs : List (List ℕ))
      → 1 ≤ size
      → Sized size bs
      → validate_from sha256 parse_int i (length pre) (pre ++ joined bs) (entries i bs)
        ≡ ok (length (pre ++ joined bs))
  unfolding validate_from
  validate-entries size i pre [] h s = rw append-nil refl
  validate-entries size i pre (b ∷ bs) h s = rw (← append_assoc pre b (joined bs)) (
      rw (validate-entry i pre b (joined bs) (Sized-head size b bs h s), ← length-append pre b)
        (validate-entries size (suc i) (pre ++ b) bs h (Sized-tail size b bs s)))

  pub validate_existing-entries :
      (size : ℕ) (bs : List (List ℕ))
      → 1 ≤ size
      → Sized size bs
      → validate_existing sha256 parse_int (some (joined bs)) (entries 0 bs) ≡ ok tt
  unfolding validate_existing
  validate_existing-entries size bs h s = rw (validate-entries size 0 [] bs h s) (ground arith)

  pub sum_lengths-entries :
      (i : ℕ) (bs : List (List ℕ))
      → sum_lengths sha256 parse_int (entries i bs) ≡ ok (pos (length (joined bs)))
  unfolding sum_lengths json_get ◌+ℤ◌
  sum_lengths-entries i [] = refl
  sum_lengths-entries i (b ∷ bs) =
      rw (sum_lengths-entries (suc i) bs) (ground (arith, length-append b (joined bs)))

block_count_step : (n size : ℕ) → 1 ≤ size → block_count (size + n) size ≡ suc (block_count n size)
block_count_step n size h = rw (add-div_left n h, add-mod_left size n) (omega arith)

block_count_last : (n size : ℕ) → 1 ≤ n → n ≤ size → block_count n size ≡ 1
block_count_last n size h k = ground (
  arith,
  div-eq_of_lt {n = n} {m = size},
  mod-eq_of_lt {n = n} {m = size},
  add-div_left 0 {k = size},
  add-mod_left size 0,
)

-- the count of blocks that `build` expects of the source is the count of its blocks
pub block_count-Sized :
    (size : ℕ) (bs : List (List ℕ))
    → 1 ≤ size
    → Sized size bs
    → block_count (length (joined bs)) size ≡ length bs
block_count-Sized size [] h s = rw (zero-div size, zero-mod size)
block_count-Sized size (b ∷ []) h s = rw append-nil (block_count_last (length b) size s.0 s.1)
block_count-Sized size (b ∷ c ∷ bs) h s =
    rw (length-append b (joined (c ∷ bs)), s.0)
      (block_count_step (length (joined (c ∷ bs))) size h
        ∙ ap suc (block_count-Sized size (c ∷ bs) h s.1))
