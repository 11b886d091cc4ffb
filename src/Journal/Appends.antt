-- ===== src/Journal/Appends.antt =====
-- Events that `append` of src/simplicio_fast/journal.py writes, and what `read` makes of them.
use mathlib.Core.Path.{subst}
use text.Mathlib.TextEquality.{eq_iff}
use simplicio_fast.Prelude.{
  ℕ, suc, ◌+◌, String, ◌≡◌, refl, sym, ap, ◌∙◌, inl, inr, Bool, true, false, Bool-cases, not, none,
  some, List, [], ◌∷◌, ◌++◌, arith, Result, ok, ◌>>◌, raise_if, returned, followed, length, All,
  All-append,
}
use simplicio_fast.Prelude.Digests.{zero_hash}
use simplicio_fast.Prelude.Int.{pos}
use simplicio_fast.Prelude.Json.{Json, null, bool, num, str, arr, obj}
use simplicio_fast.Prelude.Json.Encode.{canonical}
use simplicio_fast.Prelude.Json.Encode.Lines.{printable-canonical}
use simplicio_fast.Prelude.Json.Equality.{json_get, json_count, json_beq, json_beq_refl, IsDict}
use simplicio_fast.Journal.{
  Error, chain_mismatch, record_hash_mismatch, Event, Request, Arguments, Loaded, document, File,
  header, header_line, line_of, as_dict, event_of, split_lines, ends_line, parse_line, verify_event,
  read_from, read_lines, read, record_hash_of, unsealed, sealed, last_hash, check_header,
}
use simplicio_fast.Journal.Lines.{split_lines-line, split_lines-append, ends_line-append}

event_of-as_dict : (e : Event) → event_of (as_dict e) ≡ some e
unfolding event_of json_get json_count
event_of-as_dict e = refl

header-IsDict : IsDict header
unfolding json_get
header-IsDict = (refl, tt, (refl, tt, tt))

-- a hash that was compared with a text
str_beq : (s : String) (v : Json) → json_beq (str s) v ≡ true → v ≡ str s
unfolding json_beq
str_beq s null h = cc
str_beq s (bool b) h = cc
str_beq s (num n) h = cc
str_beq s (str t) h = ap str (sym ((eq_iff s t).0 h))
str_beq s (arr xs) h = cc
str_beq s (obj fs) h = cc

pub same_events :
    (xs ys : List Event) → ◌≡◌ {A = Result Error (List Event)} (ok xs) (ok ys) → xs ≡ ys
same_events xs ys h = cc

second_passed : (a b : Bool) (x y : Error) → (raise_if a x >> raise_if b y) ≡ ok tt → b ≡ false
second_passed a b x y h = ground arith

same_text : (s : String) (e : Error) → raise_if (not (json_beq (str s) (str s))) e ≡ ok tt
same_text s e = rw (json_beq_refl (str s) tt) refl

not-false : (b : Bool) → not b ≡ false → b ≡ true
not-false true h = refl
not-false false h = cc

abbrev pub IsSealed : Event → Type 0
IsSealed e = (s : String) × (e.record_hash ≡ str s)

last_hash_text : (es : List Event) → All IsSealed es → (s : String) × (last_hash es ≡ str s)
last_hash_text [] h = (zero_hash, refl)
last_hash_text (e ∷ []) h = h.0
last_hash_text (e ∷ e' ∷ es) h = last_hash_text (e' ∷ es) h.1

module _ (sha256 : List ℕ → String) (loads : List ℕ → Loaded) where
  verify_event-IsSealed :
      (e : Event) (previous : List Event)
      → verify_event sha256 loads e previous ≡ ok tt
      → IsSealed e
  unfolding verify_event
  verify_event-IsSealed e previous h =
      let fits = second_passed _ _ chain_mismatch record_hash_mismatch h in
      (record_hash_of sha256 loads e, str_beq _ e.record_hash (not-false _ fits))

  -- a line that `read` accepted
  pub read_from_cons :
      (idx : ℕ) (acc es : List Event) (l : List ℕ) (ls : List (List ℕ))
      → read_from sha256 loads false idx acc (l ∷ ls) ≡ ok es
      → (e : Event) × (ends_line l ≡ true)
        × (parse_line idx (loads l) ≡ ok e)
        × (verify_event sha256 loads e acc ≡ ok tt)
        × (read_from sha256 loads false (suc idx) (acc ++ e ∷ []) ls ≡ ok es)
  unfolding read_from
  read_from_cons idx acc es l ls h = elim (Bool-cases (ends_line l)) [
    | inr torn ↦ cc (rw (read_from, torn) at h)
    | inl whole ↦
        let (e, parsed, rest) =
          returned (parse_line idx (loads l)) _ (rw (read_from, whole) at h) in
        let (good, after) = followed _ _ rest in (e, whole, parsed, good, after)
  ]

  -- what `read` gives of lines that it accepted and of others after them
  pub read_from-append :
      (r : Bool) (idx : ℕ) (acc es : List Event) (ls more : List (List ℕ))
      → read_from sha256 loads false idx acc ls ≡ ok es
      → read_from sha256 loads r idx acc (ls ++ more)
        ≡ read_from sha256 loads r (idx + length ls) es more
  unfolding read_from
  read_from-append r idx acc es [] more h =
      ap (λ t. read_from sha256 loads r idx t more) (same_events acc es h)
      ∙ ap (λ n. read_from sha256 loads r n es more) (omega arith)
  read_from-append r idx acc es (l ∷ ls) more h =
      let (e, whole, parsed, good, after) = read_from_cons idx acc es l ls h in
      rw (read_from, whole, parsed, good)
        (read_from-append r (suc idx) (acc ++ e ∷ []) es ls more after
          ∙ ap (λ n. read_from sha256 loads r n es more) (omega arith))

  pub read_from-IsSealed :
      (idx : ℕ) (acc es : List Event) (ls : List (List ℕ))
      → All IsSealed acc
      → read_from sha256 loads false idx acc ls ≡ ok es
      → All IsSealed es
  unfolding read_from
  read_from-IsSealed idx acc es [] a h = subst (All IsSealed) (same_events acc es h) a
  read_from-IsSealed idx acc es (l ∷ ls) a h =
      let (e, whole, parsed, good, after) = read_from_cons idx acc es l ls h in
      read_from-IsSealed (suc idx) (acc ++ e ∷ []) es ls
        (All-append IsSealed acc (e ∷ []) a (verify_event-IsSealed e acc good, tt)) after

  -- the line of an event that fits the events before it
  pub read_from-line :
      (r : Bool) (idx : ℕ) (es : List Event) (e : Event)
      → loads (line_of e) ≡ document (as_dict e)
      → verify_event sha256 loads e es ≡ ok tt
      → read_from sha256 loads r idx es (line_of e ∷ []) ≡ ok (es ++ e ∷ [])
  unfolding read_from
  read_from-line r idx es e reads fits =
      rw
        (
          read_from,
          ends_line-append (canonical true (as_dict e)) 10 [],
          reads,
          event_of-as_dict e,
          fits,
        )
        refl

  pub verify_event-sealed :
      (q : Request) (args : Arguments) (es : List Event)
      → All IsSealed es
      → verify_event sha256 loads (sealed sha256 loads (unsealed sha256 loads q args es)) es ≡ ok tt
  unfolding verify_event record_hash_of
  verify_event-sealed q args es h =
      let (s, text) = last_hash_text es h in
      rw (text, json_beq_refl (num (pos (length es + 1))) tt, json_beq_refl (str s) tt)
        (same_text _ record_hash_mismatch)

  -- a file that `read` accepts and that ends in a line feed, with one more line
  pub read-line :
      (raw : List ℕ) (es : List Event) (e : Event)
      → ends_line raw ≡ true
      → read sha256 loads false (some raw) ≡ ok es
      → loads (line_of e) ≡ document (as_dict e)
      → verify_event sha256 loads e es ≡ ok tt
      → read sha256 loads false (some (raw ++ line_of e)) ≡ ok (es ++ e ∷ [])
  unfolding read split_lines
  read-line raw es e ends h reads fits =
      ap (read_lines sha256 loads false) (
        split_lines-append raw (line_of e) ends
        ∙ ap (λ t. split_lines raw ++ t)
            (split_lines-line (canonical true (as_dict e)) []
              (printable-canonical true (as_dict e))))
      ∙ accepted (split_lines raw) h
    where
      accepted :
          (ls : List (List ℕ))
          → read_lines sha256 loads false ls ≡ ok es
          → read_lines sha256 loads false (ls ++ line_of e ∷ []) ≡ ok (es ++ e ∷ [])
      accepted [] k = cc
      accepted (l ∷ ls) k =
          let (headed, rest) = followed (check_header (loads l)) _ k in
          rw headed (
            read_from-append false 1 [] es ls (line_of e ∷ []) rest
            ∙ read_from-line false (1 + length ls) es e reads fits)

  pub read-IsSealed :
      (f : File) (es : List Event) → read sha256 loads false f ≡ ok es → All IsSealed es
  unfolding read
  read-IsSealed none es h = subst (All IsSealed) (same_events [] es h) tt
  read-IsSealed (some raw) es h = in_lines (split_lines raw) h
    where
      in_lines : (ls : List (List ℕ)) → read_lines sha256 loads false ls ≡ ok es → All IsSealed es
      in_lines [] k = cc
      in_lines (l ∷ ls) k =
          read_from-IsSealed 1 [] es ls tt (followed (check_header (loads l)) _ k).1

  -- a new file with its first line
  pub read-header :
      (e : Event)
      → loads header_line ≡ document header
      → loads (line_of e) ≡ document (as_dict e)
      → verify_event sha256 loads e [] ≡ ok tt
      → read sha256 loads false (some (header_line ++ line_of e)) ≡ ok (e ∷ [])
  unfolding read split_lines
  read-header e headed reads fits =
      ap (read_lines sha256 loads false) (
        split_lines-append header_line (line_of e) (ends_line-append (canonical true header) 10 [])
        ∙ ap (λ t. t ++ split_lines (line_of e))
            (split_lines-line (canonical true header) [] (printable-canonical true header))
        ∙ ap (λ t. header_line ∷ t)
            (split_lines-line (canonical true (as_dict e)) []
              (printable-canonical true (as_dict e))))
      ∙ rw (headed, json_beq_refl header header-IsDict) (read_from-line false 1 [] e reads fits)
