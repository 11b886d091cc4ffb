-- ===== src/Journal/History.antt =====
-- Sequences of calls of `append` of src/simplicio_fast/journal.py, against a journal that is a list of events.
use mathlib.Core.List.{append_assoc}
use simplicio_fast.Prelude.{
  ℕ, String, ◌≡◌, refl, sym, ap, ◌∙◌, inl, inr, Bool, true, false, none, some, List, [], ◌∷◌, ◌++◌,
  Result, ok, err, ◌>>=◌, Result-cases, All,
}
use simplicio_fast.Prelude.Json.Encode.{canonical}
use simplicio_fast.Journal.{
  Error, Event, Request, Loaded, document, File, header, header_line, line_of, as_dict, ends_line,
  read, unsealed, sealed, check_arguments, next_event, append, written, verify_event,
}
use simplicio_fast.Journal.Appends.{read-line, read-header, verify_event-sealed, read-IsSealed}
use simplicio_fast.Journal.Lines.{ends_line-append}

-- a file that is missing or ends in a line feed
abbrev pub is_whole : File → Bool
is_whole none = true
is_whole (some raw) = ends_line raw

ends_line-line : (raw : List ℕ) (e : Event) → ends_line (raw ++ line_of e) ≡ true
ends_line-line raw e =
    ap ends_line (sym (append_assoc raw (canonical true (as_dict e)) (10 ∷ [])))
    ∙ ends_line-append (raw ++ canonical true (as_dict e)) 10 []

module _ (sha256 : List ℕ → String) (loads : List ℕ → Loaded) where
  -- the calls of `append` with the requests of a list, each after the one before
  unfoldable pub append_all : List Request → File → List (Result Error Event) × File
  append_all [] f = ([], f)
  append_all (q ∷ qs) f =
      let step = append sha256 loads q f in
      let rest = append_all qs step.1 in (step.0 ∷ rest.0, rest.1)

  abbrev add_event : List Event → Result Error Event → Result Error Event × List Event
  add_event es (err x) = (err x, es)
  add_event es (ok e) = (ok e, es ++ e ∷ [])

  -- what `append` promises of the events of a journal
  abbrev pub record_event : Request → List Event → Result Error Event × List Event
  record_event q es =
      add_event es
        (check_arguments q >>= λ args. ok (sealed sha256 loads (unsealed sha256 loads q args es)))

  unfoldable pub record_all : List Request → List Event → List (Result Error Event) × List Event
  record_all [] es = ([], es)
  record_all (q ∷ qs) es =
      let step = record_event q es in let rest = record_all qs step.1 in (step.0 ∷ rest.0, rest.1)

  -- `json.loads` gives back what `json.dumps` wrote of an event
  abbrev pub ReadsBack : Result Error Event → Type 0
  ReadsBack (err x) = Unit
  ReadsBack (ok e) = loads (line_of e) ≡ document (as_dict e)

  abbrev Holds : File → List Event → Type 0
  Holds f es = (read sha256 loads false f ≡ ok es) × (is_whole f ≡ true)

  added :
      (f : File) (es : List Event) (e : Event)
      → Holds f es
      → loads header_line ≡ document header
      → loads (line_of e) ≡ document (as_dict e)
      → verify_event sha256 loads e es ≡ ok tt
      → Holds (written f (ok e)).1 (es ++ e ∷ [])
  unfolding read
  added none es e h headed reads fits =
      let new : es ≡ [] = cc (h.0) in
      rw new
        (read-header sha256 loads e headed reads (rw new at fits), ends_line-line header_line e)
  added (some raw) es e h headed reads fits =
      (read-line sha256 loads raw es e h.1 h.0 reads fits, ends_line-line raw e)

  Holds-append :
      (q : Request) (f : File) (es : List Event)
      → Holds f es
      → loads header_line ≡ document header
      → ReadsBack (record_event q es).0
      → ((append sha256 loads q f).0 ≡ (record_event q es).0)
        × Holds (append sha256 loads q f).1 (record_event q es).1
  unfolding append next_event
  Holds-append q f es h headed reads = elim (Result-cases (check_arguments q)) [
    | inr (x, refused) ↦ rw (append, next_event, refused) (refl, h)
    | inl (args, passed) ↦
        let e = sealed sha256 loads (unsealed sha256 loads q args es) in
        let written_back : loads (line_of e) ≡ document (as_dict e) = rw passed at reads in
        rw (append, next_event, passed, h.0)
          (
            refl,
            added f es e h headed written_back
                (verify_event-sealed sha256 loads q args es (read-IsSealed sha256 loads f es h.0)),
          )
  ]

  -- Take a journal file that is missing or ends in a line feed, and that `read` accepts with the events `es`.
  -- Let `json.loads` give back the header and each event that the calls write. Then the calls of `append`
  -- with the requests `qs`, one after the other, return what the list of events says: a request whose
  -- arguments are refused raises that error and adds nothing, and any other adds its event, with the next
  -- number and the hash of the event before. The file then ends in a line feed again or is still missing,
  -- and `read` accepts it with exactly the events of that list, in their order.
  pub append_all-record_all :
      (qs : List Request) (f : File) (es : List Event)
      → read sha256 loads false f ≡ ok es
      → is_whole f ≡ true
      → loads header_line ≡ document header
      → All ReadsBack (record_all qs es).0
      → ((append_all qs f).0 ≡ (record_all qs es).0)
        × (read sha256 loads false (append_all qs f).1 ≡ ok (record_all qs es).1)
        × (is_whole (append_all qs f).1 ≡ true)
  unfolding append_all record_all
  append_all-record_all [] f es h whole headed reads = (refl, h, whole)
  append_all-record_all (q ∷ qs) f es h whole headed reads =
      let (same, holds) = Holds-append q f es (h, whole) headed reads.0 in
      let (later, read_back, ends) =
        append_all-record_all qs (append sha256 loads q f).1 (record_event q es).1 holds.0 holds.1
          headed reads.1 in
      (cc, read_back, ends)
