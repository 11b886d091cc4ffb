-- ===== src/Journal.antt =====
-- src/simplicio_fast/journal.py: `ChangeJournal`. The state is the file: `none` where there is none, and
-- otherwise its bytes. A method gives the file back beside its result. `json.loads` is the parameter
-- `loads`.
mod Records
pub mod Lines
pub mod Appends
pub mod History
pub mod Windows
pub mod Recovery
mod Tests
unfoldable pub use Records.*
use simplicio_fast.Prelude.{
  ℕ, zero, suc, ◌+◌, String, Bool, true, false, not, ◌&&◌, ◌||◌, Option, none, some, List, [], ◌∷◌,
  ◌++◌, Result, ok, err, ◌>>=◌, ◌>>◌, raise_if, ltb, if◌then◌else◌, length, get_last?, keep, ◌==◌,
  strings_equate, contains,
}
use simplicio_fast.Prelude.Digests.{zero_hash}
use simplicio_fast.Prelude.Int.{ℤ, pos, negsuc}
use simplicio_fast.Prelude.Json.{Json, bool, num, str, opt_str}
use simplicio_fast.Prelude.Json.Encode.{canonical, encode}
use simplicio_fast.Prelude.Json.Equality.{json_beq}

-- what `json.loads` makes of a line
pub data Loaded : Type 0 where
  document : Json → Loaded
  not_json : Loaded
  not_text : Loaded

pub record Request : Type 0 where
  pub event_type : String
  pub path : String
  pub generation : String
  pub commit : Option String
  pub before_sha256 : Option String
  pub after_sha256 : Option String

abbrev pub File : Type 0
File = Option (List ℕ)

abbrev pub header_line : List ℕ
header_line = canonical true header ++ 10 ∷ []

-- `event.to_json() + "\n"`
abbrev pub line_of : Event → List ℕ
line_of e = canonical true (as_dict e) ++ 10 ∷ []

-- `events[-1].record_hash if events else ZERO_HASH`
abbrev pub last_hash : List Event → Json
last_hash es = elim (get_last? es) [ none ↦ str zero_hash | some e ↦ e.record_hash ]

-- the text that a hash is, where it is compared with one before
abbrev pub text_of : Json → String
text_of (str s) = s
text_of _ = ""

abbrev pub check_header : Loaded → Result Error Unit
check_header (document v) = raise_if (not (json_beq v header)) schema_mismatch
check_header not_json = err header_invalid
check_header not_text = err unicode_error

abbrev pub event_or : ℕ → Option Event → Result Error Event
event_or index none = err (record_invalid index)
event_or index (some e) = ok e

-- the parsing of a line in `read`
abbrev pub parse_line : ℕ → Loaded → Result Error Event
parse_line index (document v) = event_or index (event_of v)
parse_line index _ = err (record_invalid index)

-- `_ensure_header`, and what the file holds then
abbrev pub with_header : File → List ℕ
with_header none = header_line
with_header (some raw) = raw

abbrev pub is_empty : List (List ℕ) → Bool
is_empty [] = true
is_empty (l ∷ ls) = false

-- `path`, `before_sha256` and `after_sha256` as `append` has them once it checked its arguments
pub record Arguments : Type 0 where
  pub path : String
  pub before_sha256 : Option String
  pub after_sha256 : Option String

unfoldable pub check_arguments : Request → Result Error Arguments
check_arguments q = do
  raise_if (not (contains q.event_type event_types)) event_type_invalid
  path ← check_path q.path
  before ← check_sha q.before_sha256
  after ← check_sha q.after_sha256
  ok (record { path = path; before_sha256 = before; after_sha256 = after })

-- what `recover` reports
pub record Report : Type 0 where
  pub recovered : Bool
  pub events : ℕ
  pub last_hash : Json

-- the arguments of `events_since`
abbrev pub window : ℤ → Option ℤ → Result Error (ℕ × Option ℕ)
window (negsuc n) max = err sequence_invalid
window (pos n) none = ok (n, none)
window (pos n) (some (pos max)) = if ltb max 1 then err max_events_invalid else ok (n, some max)
window (pos n) (some (negsuc max)) = err max_events_invalid

abbrev pub is_after : ℕ → Json → Bool
is_after n (num (pos k)) = ltb n k
is_after n (bool true) = ltb n 1
is_after n _ = false

abbrev pub is_of : Option String → Json → Bool
is_of none v = true
is_of (some g) v = json_beq (str g) v

abbrev pub overflows : Option ℕ → List Event → Bool
overflows none es = false
overflows (some max) es = ltb max (length es)

abbrev pub report_of : Bool → List Event → Report
report_of torn events = record {
  recovered = torn;
  events = length events;
  last_hash = last_hash events;
}

-- the end of `recover`: a file that does not end in a line feed loses its last line
abbrev pub repaired : List Event → List ℕ → Report × List ℕ
repaired events [] = (report_of false events, [])
repaired events (c ∷ cs) =
    if ends_line (c ∷ cs)
    then (report_of false events, c ∷ cs)
    else (report_of true events, whole_lines (c ∷ cs))

abbrev pub kept : Report × List ℕ → Result Error Report × File
kept (r, raw) = (ok r, some raw)

abbrev pub recovered_file : File → List Event → Result Error Report × File
recovered_file none events = (ok (report_of false events), none)
recovered_file (some raw) events = kept (repaired events raw)

abbrev pub written : File → Result Error Event → Result Error Event × File
written f (err e) = (err e, f)
written f (ok e) = (ok e, some (with_header f ++ line_of e))

module _ (sha256 : List ℕ → String) (loads : List ℕ → Loaded) where
  unfoldable pub record_hash_of : Event → String
  record_hash_of e = sha256 (encode (text_of e.prev_hash) ++ canonical true (material e))

  -- `_verify_event`
  unfoldable pub verify_event : Event → List Event → Result Error Unit
  verify_event e previous = do
    raise_if
        (not (json_beq (num (pos (length previous + 1))) e.sequence)
          || not (json_beq (last_hash previous) e.prev_hash))
        chain_mismatch
    raise_if (not (json_beq (str (record_hash_of e)) e.record_hash)) record_hash_mismatch

  -- the loop of `read` from line `index`
  unfoldable pub read_from : Bool → ℕ → List Event → List (List ℕ) → Result Error (List Event)
  read_from recover index events [] = ok events
  read_from recover index events (l ∷ ls) =
      let tail = if recover && is_empty ls then ok events else err truncated_tail in
      let next =
        (parse_line index (loads l) >>= λ e.
        verify_event e events >> read_from recover (suc index) (events ++ e ∷ []) ls) in
      if ends_line l then next else tail

  abbrev pub read_lines : Bool → List (List ℕ) → Result Error (List Event)
  read_lines recover [] = err header_missing
  read_lines recover (h ∷ ls) = check_header (loads h) >> read_from recover 1 [] ls

  unfoldable pub read : Bool → File → Result Error (List Event)
  read recover none = ok []
  read recover (some raw) = read_lines recover (split_lines raw)

  -- the event before its hash
  abbrev pub unsealed : Request → Arguments → List Event → Event
  unsealed q args events = record {
    sequence = num (pos (length events + 1));
    event_type = str q.event_type;
    path = str args.path;
    generation = str q.generation;
    commit = opt_str q.commit;
    before_sha256 = opt_str args.before_sha256;
    after_sha256 = opt_str args.after_sha256;
    prev_hash = last_hash events;
    record_hash = str "";
  }

  abbrev pub sealed : Event → Event
  sealed e = record e { record_hash = str (record_hash_of e) }

  -- the event that `append` writes
  unfoldable pub next_event : Request → File → Result Error Event
  next_event q f = do
    args ← check_arguments q
    events ← read false f
    ok (sealed (unsealed q args events))

  unfoldable pub append : Request → File → Result Error Event × File
  append q f = written f (next_event q f)

  unfoldable pub events_since : ℤ → Option String → Option ℤ → File → Result Error (List Event)
  events_since sequence generation max f = do
    limits ← window sequence max
    events ← read false f
    let chosen = keep (λ e. is_after limits.0 e.sequence && is_of generation e.generation) events
    raise_if (overflows limits.1 chosen) event_window_overflow
    ok chosen

  unfoldable pub recover : File → Result Error Report × File
  recover f = elim (read true f) [ err e ↦ (err e, f) | ok events ↦ recovered_file f events ]
