-- ===== src/Journal/Records.antt =====
-- src/simplicio_fast/journal.py: `ChangeEvent`, the checks of the arguments of `append`, and the lines of a file.
use Prim.Native.Char.{Char, code}
use simplicio_fast.Prelude.{
  ℕ, String, Bool, true, false, not, ◌&&◌, ◌||◌, Option, none, some, List, [], ◌∷◌, Result, ok, err,
  nat_beq, if◌then◌else◌, length, all, get_last?, ◌==◌, strings_equate, numbers_equate, contains,
}
use simplicio_fast.Prelude.Bytes.{lists_equate}
use simplicio_fast.Prelude.Digests.{is_hex_digit}
use simplicio_fast.Prelude.Int.{pos}
use simplicio_fast.Prelude.Json.{Json, null, num, str, obj, Fields, end, field, codes}
use simplicio_fast.Prelude.Json.Equality.{json_get, json_count}

abbrev pub header : Json
header =
    obj
      (field "schema" (str "simplicio.fast.change-journal/v1") (field "version" (num (pos 1)) end))

abbrev pub event_types : List String
event_types = "create" ∷ "update" ∷ "rename" ∷ "delete" ∷ "config" ∷ "schema" ∷ []

-- `record_invalid` has the number of the line. `unicode_error` is that of `json.loads`.
pub data Error : Type 0 where
  event_type_invalid : Error
  path_outside_repository : Error
  sha256_invalid : Error
  header_missing : Error
  header_invalid : Error
  schema_mismatch : Error
  truncated_tail : Error
  record_invalid : ℕ → Error
  chain_mismatch : Error
  record_hash_mismatch : Error
  sequence_invalid : Error
  max_events_invalid : Error
  event_window_overflow : Error
  unicode_error : Error

-- A `ChangeEvent` that was read holds what the line has in its fields, of whatever type.
pub record Event : Type 0 where
  pub sequence : Json
  pub event_type : Json
  pub path : Json
  pub generation : Json
  pub commit : Json
  pub before_sha256 : Json
  pub after_sha256 : Json
  pub prev_hash : Json
  pub record_hash : Json

-- the fields between the keys `path` and `sequence`, which `record_hash` may stand among
abbrev fields_with : Event → Fields → Fields
fields_with e rest = field "after_sha256" e.after_sha256 (
    field "before_sha256" e.before_sha256 (
      field "commit" e.commit (
        field "event_type" e.event_type (
          field "generation" e.generation
            (field "path" e.path (field "prev_hash" e.prev_hash rest))))))

-- `asdict`, in the order of the keys, as `json.dumps` sorts them
abbrev pub as_dict : Event → Json
as_dict e =
    obj (fields_with e (field "record_hash" e.record_hash (field "sequence" e.sequence end)))

abbrev pub material : Event → Json
material e = obj (fields_with e (field "sequence" e.sequence end))

abbrev pub get_or_null : String → Fields → Json
get_or_null k fs = elim (json_get k fs) [ none ↦ null | some v ↦ v ]

abbrev keys : List String
keys =
    "sequence" ∷ "event_type" ∷ "path" ∷ "generation" ∷ "commit" ∷ "before_sha256" ∷ "after_sha256"
    ∷ "prev_hash" ∷ "record_hash" ∷ []

abbrev has_key : Fields → String → Bool
has_key fs k = elim (json_get k fs) [ none ↦ false | some v ↦ true ]

-- `ChangeEvent(**value)`, which a missing key and one too many make a `TypeError`
unfoldable pub event_of : Json → Option Event
event_of (obj fs) =
    if nat_beq (json_count fs) 9 && all (has_key fs) keys
    then some (record {
      sequence = get_or_null "sequence" fs;
      event_type = get_or_null "event_type" fs;
      path = get_or_null "path" fs;
      generation = get_or_null "generation" fs;
      commit = get_or_null "commit" fs;
      before_sha256 = get_or_null "before_sha256" fs;
      after_sha256 = get_or_null "after_sha256" fs;
      prev_hash = get_or_null "prev_hash" fs;
      record_hash = get_or_null "record_hash" fs;
    })
    else none
event_of _ = none

-- `value.lower()` of a text whose other letters are refused
abbrev lower_char : Char → Char
lower_char c =
    if nat_beq (code c) 65
    then "a"
    else if nat_beq (code c) 66
    then "b"
    else if nat_beq (code c) 67
    then "c"
    else if nat_beq (code c) 68
    then "d"
    else if nat_beq (code c) 69
    then "e"
    else if nat_beq (code c) 70
    then "f"
    else c

abbrev map_chars : (Char → Char) → String → String
map_chars f String.[] = String.[]
map_chars f (String.◌∷◌ c s) = String.◌∷◌ (f c) (map_chars f s)

-- `_sha`
unfoldable pub check_sha : Option String → Result Error (Option String)
check_sha none = ok none
check_sha (some s) =
    let lower = map_chars lower_char s in
    if not (nat_beq (length (codes s)) 64) || not (all is_hex_digit (codes lower))
    then err sha256_invalid
    else ok (some lower)

-- the parts of a path between its slashes
abbrev pub grow {ℓ} : {A : Type ℓ} → A → List (List A) → List (List A)
grow c [] = (c ∷ []) ∷ []
grow c (l ∷ ls) = (c ∷ l) ∷ ls

abbrev pub parts : List ℕ → List (List ℕ)
parts [] = [] ∷ []
parts (c ∷ cs) = let rest = parts cs in if nat_beq c 47 then [] ∷ rest else grow c rest

abbrev is_absolute : List ℕ → Bool
is_absolute [] = false
is_absolute (c ∷ cs) = nat_beq c 47

abbrev to_slash : Char → Char
to_slash c = if nat_beq (code c) 92 then "/" else c

-- `_path` on a system whose separator is the slash
unfoldable pub check_path : String → Result Error String
check_path s =
    if s == "" || is_absolute (codes s) || contains (46 ∷ 46 ∷ []) (parts (codes s))
    then err path_outside_repository
    else ok (map_chars to_slash s)

-- a carriage return, which ends a line unless a line feed follows
abbrev pub carriage : List ℕ → List (List ℕ) → List (List ℕ)
carriage [] rest = (13 ∷ []) ∷ rest
carriage (d ∷ ds) rest = if nat_beq d 10 then grow 13 rest else (13 ∷ []) ∷ rest

-- the lines of `c ∷ cs`, from those of `cs`
abbrev pub next_line : ℕ → List ℕ → List (List ℕ) → List (List ℕ)
next_line c cs rest =
    if nat_beq c 10
    then (10 ∷ []) ∷ rest
    else if nat_beq c 13
    then carriage cs rest
    else grow c rest

-- `raw.splitlines(keepends=True)` of bytes
unfoldable pub split_lines : List ℕ → List (List ℕ)
split_lines [] = []
split_lines (c ∷ cs) = next_line c cs (split_lines cs)

-- `line.endswith(b"\n")`
abbrev pub is_feed : Option ℕ → Bool
is_feed none = false
is_feed (some c) = nat_beq c 10

abbrev pub ends_line : List ℕ → Bool
ends_line bs = is_feed (get_last? bs)

-- `raw[: raw.rfind(b"\n") + 1]`
abbrev is_nil {ℓ} : {A : Type ℓ} → List A → Bool
is_nil [] = true
is_nil (x ∷ xs) = false

unfoldable pub whole_lines : List ℕ → List ℕ
whole_lines [] = []
whole_lines (c ∷ cs) =
    let rest = whole_lines cs in
    if is_nil rest then (if nat_beq c 10 then c ∷ [] else []) else c ∷ rest
