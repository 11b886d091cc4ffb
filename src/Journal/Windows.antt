-- ===== src/Journal/Windows.antt =====
-- The windows of `events_since` of src/simplicio_fast/journal.py: the numbers of the events that `read` accepted.
use mathlib.Core.Path.{subst}
use simplicio_fast.Prelude.{
  ℕ, zero, suc, ◌+◌, String, ◌≡◌, refl, ap, ◌∙◌, inl, inr, Bool, true, false, not, ◌&&◌, ◌||◌,
  Option, none, some, List, [], ◌∷◌, ◌++◌, ltb, ◌≤◌, arith, Result, ok, err, ◌>>=◌, ◌>>◌,
  Result-cases, raise_if, followed, if◌then◌else◌, length, keep, drop,
}
use simplicio_fast.Prelude.Int.{ℤ, pos, negsuc}
use simplicio_fast.Prelude.Json.{Json, null, bool, num, str, arr, obj}
use simplicio_fast.Prelude.Json.Equality.{json_beq}
use simplicio_fast.Journal.{
  Error, chain_mismatch, record_hash_mismatch, event_window_overflow, Event, Loaded, File, is_after,
  is_of, overflows, verify_event, read_from, read_lines, read, window, events_since, split_lines,
  check_header,
}
use simplicio_fast.Journal.Appends.{read_from_cons, same_events}

-- a number that was compared with an expected one counts as that number
is_after-beq :
    (k n : ℕ) (v : Json) → json_beq (num (pos (suc k))) v ≡ true → is_after n v ≡ ltb n (suc k)
unfolding json_beq
is_after-beq k n null h = cc
is_after-beq k n (bool true) h = ground arith
is_after-beq k n (bool false) h = ground arith
is_after-beq k n (num (pos m)) h = ground arith
is_after-beq k n (num (negsuc m)) h = cc
is_after-beq k n (str t) h = cc
is_after-beq k n (arr xs) h = cc
is_after-beq k n (obj fs) h = cc

first_passed :
    (a b c : Bool) (x y : Error) → (raise_if (not a || b) x >> raise_if c y) ≡ ok tt → a ≡ true
first_passed a b c x y h = ground arith

abbrev Numbered : ℕ → List Event → Type 0
Numbered k [] = Unit
Numbered k (e ∷ es) = ((n : ℕ) → is_after n e.sequence ≡ ltb n (suc k)) × Numbered (suc k) es

Numbered-append :
    (k : ℕ) (es : List Event) (e : Event)
    → Numbered k es
    → ((n : ℕ) → is_after n e.sequence ≡ ltb n (suc (k + length es)))
    → Numbered k (es ++ e ∷ [])
Numbered-append k [] e h next = (λ n. next n ∙ ap (λ m. ltb n (suc m)) (omega arith), tt)
Numbered-append k (x ∷ es) e h next =
    (h.0, Numbered-append (suc k) es e h.1 (λ n. next n ∙ ap (λ m. ltb n (suc m)) (omega arith)))

module _ (sha256 : List ℕ → String) (loads : List ℕ → Loaded) where
  verify_event-number :
      (e : Event) (previous : List Event)
      → verify_event sha256 loads e previous ≡ ok tt
      → (n : ℕ) → is_after n e.sequence ≡ ltb n (suc (length previous))
  unfolding verify_event
  verify_event-number e previous h n =
      let same = first_passed _ _ _ chain_mismatch record_hash_mismatch h in
      is_after-beq (length previous) n e.sequence
        (ap (λ k. json_beq (num (pos k)) e.sequence) (omega arith) ∙ same)

  read_from-Numbered :
      (idx : ℕ) (acc es : List Event) (ls : List (List ℕ))
      → Numbered 0 acc
      → read_from sha256 loads false idx acc ls ≡ ok es
      → Numbered 0 es
  unfolding read_from
  read_from-Numbered idx acc es [] a h = subst (Numbered 0) (same_events acc es h) a
  read_from-Numbered idx acc es (l ∷ ls) a h =
      let (e, whole, parsed, good, after) = read_from_cons sha256 loads idx acc es l ls h in
      read_from-Numbered (suc idx) (acc ++ e ∷ []) es ls
        (Numbered-append 0 acc e a
          (λ n. verify_event-number e acc good n ∙ ap (λ m. ltb n (suc m)) (omega arith)))
        after

  read-Numbered : (f : File) (es : List Event) → read sha256 loads false f ≡ ok es → Numbered 0 es
  unfolding read
  read-Numbered none es h = subst (Numbered 0) (same_events [] es h) tt
  read-Numbered (some raw) es h = in_lines (split_lines raw) h
    where
      in_lines : (ls : List (List ℕ)) → read_lines sha256 loads false ls ≡ ok es → Numbered 0 es
      in_lines [] k = cc
      in_lines (l ∷ ls) k =
          read_from-Numbered 1 [] es ls tt (followed (check_header (loads l)) _ k).1

-- the events of a generation after number `n`
abbrev in_window : ℕ → Option String → Event → Bool
in_window n g e = is_after n e.sequence && is_of g e.generation

abbrev pub in_generation : Option String → Event → Bool
in_generation g e = is_of g e.generation

keep_late :
    (n k : ℕ) (g : Option String) (es : List Event)
    → n ≤ k
    → Numbered k es
    → keep (in_window n g) es ≡ keep (in_generation g) es
keep_late n k g [] le h = refl
keep_late n k g (e ∷ es) le h =
    let late : ltb n (suc k) ≡ true = ground arith in
    rw (h.0 n, late)
      (ap (λ t. if is_of g e.generation then e ∷ t else t)
        (keep_late n (suc k) g es (omega arith) h.1))

keep-Numbered :
    (n k : ℕ) (g : Option String) (es : List Event)
    → Numbered k es
    → keep (in_window (n + k) g) es ≡ keep (in_generation g) (drop n es)
keep-Numbered zero k g es h = keep_late (0 + k) k g es (omega arith) h
keep-Numbered (suc n) k g [] h = refl
keep-Numbered (suc n) k g (e ∷ es) h =
    let early : ltb (suc n + k) (suc k) ≡ false = ground arith in
    rw (h.0 (suc n + k), early)
      (ap (λ m. keep (in_window m g) es) (omega arith) ∙ keep-Numbered n (suc k) g es h.1)

-- what is left of a window that may be too large
abbrev pub limited : Option ℕ → List Event → Result Error (List Event)
limited max es = if overflows max es then err event_window_overflow else ok es

module _ (sha256 : List ℕ → String) (loads : List ℕ → Loaded) where
  -- Let `read` accept the file with the events `es`. Then `events_since` raises what it raises for its
  -- arguments, and else drops as many of the first events as the number that it was given, keeps those of the
  -- generation, if one was given, and raises when these are more than the limit, if one was given.
  pub events_since-read :
      (sequence : ℤ) (generation : Option String) (max : Option ℤ) (f : File) (es : List Event)
      → read sha256 loads false f ≡ ok es
      → events_since sha256 loads sequence generation max f ≡ (
          window sequence max >>= λ limits.
          limited limits.1 (keep (in_generation generation) (drop limits.0 es)))
  unfolding events_since
  events_since-read sequence generation max f es h = elim (Result-cases (window sequence max)) [
    | inr (x, refused) ↦ rw (events_since, refused) refl
    | inl (limits, passed) ↦
        let kept : keep (in_window limits.0 generation) es
            ≡ keep (in_generation generation) (drop limits.0 es) =
          ap (λ m. keep (in_window m generation) es) (omega arith)
          ∙ keep-Numbered limits.0 0 generation es (read-Numbered sha256 loads f es h) in
        rw (events_since, passed, h, kept) (limiting limits.1 _)
  ]
    where
      limiting :
          (m : Option ℕ) (xs : List Event)
          → (raise_if (overflows m xs) event_window_overflow >> ok xs) ≡ limited m xs
      limiting m xs = ground arith
