-- ===== src/Ipc/Heads.antt =====
-- What `feed` of src/simplicio_fast/ipc.py sees at the head of its buffer, and that it sees the same
-- when more bytes have arrived.
use simplicio_fast.Prelude.{
  ℕ, ◌+◌, ◌≤◌, ◌≡◌, refl, sym, ◌∙◌, ◌≢◌, inl, inr, List, [], ◌∷◌, ◌++◌, Result, ok, err, arith,
  numbers_equate, ltb, length, length-append, drop, Bool-cases,
}
use simplicio_fast.Prelude.Bytes.{lists_equate, unpack_u32, take-append, drop-append, length-drop}
use simplicio_fast.Ipc.{Error, Limits, header_size}
use simplicio_fast.Ipc.Stream.{
  incomplete, invalid, whole, check_header, frame_length, judge, head_of,
}

pub no_head : {e : Error} → incomplete ≢ invalid e
no_head h = cc

pub no_head' : {n : ℕ} {e : Error} → whole n ≢ invalid e
no_head' h = cc

no_head'' : {n : ℕ} → incomplete ≢ whole n
no_head'' h = cc

whole_inj : {n k : ℕ} → whole n ≡ whole k → n ≡ k
whole_inj h = cc

unpack-append : (xs ys : List ℕ) → 4 ≤ length xs → unpack_u32 (xs ++ ys) ≡ unpack_u32 xs
unpack-append (a ∷ b ∷ c ∷ d ∷ xs) ys h = refl
unpack-append [] ys h = absurd (omega (arith, h))
unpack-append (a ∷ []) ys h = absurd (omega (arith, h))
unpack-append (a ∷ b ∷ []) ys h = absurd (omega (arith, h))
unpack-append (a ∷ b ∷ c ∷ []) ys h = absurd (omega (arith, h))

word-append :
    (n : ℕ) (a b : List ℕ) → n + 4 ≤ length a → unpack_u32 (drop n (a ++ b)) ≡ unpack_u32 (drop n a)
word-append n a b h =
    rw (drop-append n a b (omega (arith, h)))
      (unpack-append (drop n a) b (omega (arith, length-drop n a (omega (arith, h)), h)))

check_header-append :
    (a b : List ℕ) (m : Limits)
    → header_size ≤ length a
    → check_header (a ++ b) m ≡ check_header a m
unfolding check_header
check_header-append a b m h =
    rw
      (
        take-append 8 a b (omega (arith, h)),
        word-append 8 a b (omega (arith, h)),
        word-append 12 a b (omega (arith, h)),
      )
      refl

judge_invalid :
    (r : Result Error Unit) (has has' n : ℕ) (e : Error)
    → judge r has n ≡ invalid e
    → judge r has' n ≡ invalid e
judge_invalid (err x) has has' n e h = h
judge_invalid (ok x) has has' n e h = elim (Bool-cases (ltb has n)) [
  | inl few ↦ absurd (no_head (rw few at h))
  | inr all ↦ absurd (no_head' (rw all at h))
]

judge_whole :
    (r : Result Error Unit) (has has' n k : ℕ)
    → has ≤ has'
    → judge r has n ≡ whole k
    → (k ≡ n) × (k ≤ has) × (judge r has' n ≡ whole k)
judge_whole (err x) has has' n k le h = cc
judge_whole (ok x) has has' n k le h = elim (Bool-cases (ltb has n)) [
  | inl few ↦ absurd (no_head'' (rw few at h))
  | inr all ↦ let same : n ≡ k = whole_inj (rw all at h) in ground (arith, all, le, same)
]

pub full_head :
    (a : List ℕ) (m : Limits)
    → header_size ≤ length a
    → head_of a m ≡ judge (check_header a m) (length a) (frame_length a)
unfolding head_of
full_head a m h = elim (Bool-cases (ltb (length a) header_size)) [
  | inl few ↦ absurd (ground (arith, few, h))
  | inr all ↦ rw all refl
]

more_head :
    (a b : List ℕ) (m : Limits)
    → header_size ≤ length a
    → head_of (a ++ b) m ≡ judge (check_header a m) (length (a ++ b)) (frame_length a)
more_head a b m h =
    full_head (a ++ b) m (rw (length-append a b) (omega (arith, h)))
    ∙ rw
        (
          check_header-append a b m h,
          word-append 8 a b (omega (arith, h)),
          word-append 12 a b (omega (arith, h)),
        )
        refl

-- The loop goes on only where the whole header has come.
has_header : (a : List ℕ) (m : Limits) → head_of a m ≢ incomplete → header_size ≤ length a
unfolding head_of
has_header a m h = elim (Bool-cases (ltb (length a) header_size)) [
  | inl few ↦ absurd (h (rw few refl))
  | inr all ↦ ground (arith, all)
]

-- What the loop has seen at the head of the buffer stays so when more bytes arrive.
pub head_of-append_invalid :
    (a b : List ℕ) (m : Limits) (e : Error)
    → head_of a m ≡ invalid e
    → head_of (a ++ b) m ≡ invalid e
head_of-append_invalid a b m e h =
    let le = has_header a m (λ stop. no_head (sym stop ∙ h)) in
    more_head a b m le
    ∙ judge_invalid (check_header a m) (length a) (length (a ++ b)) (frame_length a) e
        (sym (full_head a m le) ∙ h)

pub head_of-append_whole :
    (a b : List ℕ) (m : Limits) (n : ℕ)
    → head_of a m ≡ whole n
    → (header_size ≤ n) × (n ≤ length a) × (head_of (a ++ b) m ≡ whole n)
head_of-append_whole a b m n h =
    let le = has_header a m (λ stop. no_head'' (sym stop ∙ h)) in
    let j =
      judge_whole (check_header a m) (length a) (length (a ++ b)) (frame_length a) n
        (rw (length-append a b) (omega arith)) (sym (full_head a m le) ∙ h) in
    (omega (arith, j.0), j.1, more_head a b m le ∙ j.2)
