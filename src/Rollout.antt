-- ===== src/Rollout.antt =====
-- src/simplicio_fast/rollout.py: `RolloutController`. The state is the file at `state_path`: `none` where
-- there is none, and otherwise what reading and parsing it gives. The write to a temporary file and its
-- replacement is one step.
pub mod History
mod Tests
use simplicio_fast.Prelude.{
  ℕ, nat_beq, leb, String, Bool, true, false, not, ◌&&◌, ◌||◌, Option, none, some, List, [], ◌∷◌,
  Result, ok, err, ◌>>=◌, ◌>>◌, raise_if, ◌==◌, strings_equate, if◌then◌else◌, contains, all,
}
use simplicio_fast.Prelude.Json.{Json, str, null, arr, obj, Fields, end, field, opt_str, codes}
use simplicio_fast.Prelude.Json.Equality.{json_get}

abbrev pub modes : List String
modes = "shadow" ∷ "canary" ∷ "integrated" ∷ "fallback" ∷ "rollback" ∷ []

pub data Error : Type 0 where
  rollout_mode_invalid : Error
  rollout_generation_invalid : Error
  rollout_reason_required : Error
  rollout_state_invalid : Error
  type_error : Error

-- the receipt, which is also the content of the file
pub record Receipt : Type 0 where
  pub mode : String
  pub status : String
  pub generation : Option String
  pub reason : Option String
  pub previous_mode : Option String

abbrev pub schema : String
schema = "simplicio.fast.rollout-receipt/v1"

-- `asdict(receipt)`
unfoldable pub as_dict : Receipt → Fields
as_dict r = field "schema" (str schema) (
    field "mode" (str r.mode) (
      field "status" (str r.status) (
        field "generation" (opt_str r.generation) (
          field "reason" (opt_str r.reason)
            (field "previous_mode" (opt_str r.previous_mode) end)))))

-- the state file: missing, not to be read or parsed, or a document
pub data File : Type 0 where
  missing : File
  unreadable : File
  document : Json → File

-- `str.strip` leaves nothing: the characters that Python counts as white space
abbrev pub is_space : ℕ → Bool
is_space c =
    (leb 9 c && leb c 13)
    || (leb 28 c && leb c 32)
    || nat_beq c 133
    || nat_beq c 160
    || nat_beq c 5760
    || (leb 8192 c && leb c 8202)
    || nat_beq c 8232
    || nat_beq c 8233
    || nat_beq c 8239
    || nat_beq c 8287
    || nat_beq c 12288

-- `generation is not None and not generation.strip()`
abbrev pub is_blank : Option String → Bool
is_blank none = false
is_blank (some g) = all is_space (codes g)

-- `not reason`
abbrev pub lacks_reason : Option String → Bool
lacks_reason none = true
lacks_reason (some r) = r == ""

unfoldable pub check_request : String → Option String → Option String → Result Error Unit
check_request mode generation reason = do
  raise_if (not (contains mode modes)) rollout_mode_invalid
  raise_if (is_blank generation) rollout_generation_invalid
  raise_if (mode == "rollback" && lacks_reason reason) rollout_reason_required

-- `"mode" in value and value["mode"] not in _ROLLOUT_MODES`: a list or a dict is not hashable, and
-- the test raises a `TypeError`
abbrev pub check_mode : Option Json → Result Error Unit
check_mode none = ok tt
check_mode (some (str m)) = raise_if (not (contains m modes)) rollout_state_invalid
check_mode (some (arr xs)) = err type_error
check_mode (some (obj fs)) = err type_error
check_mode (some _) = err rollout_state_invalid

abbrev pub read_document : Json → Result Error Fields
read_document (obj fs) = check_mode (json_get "mode" fs) >> ok fs
read_document _ = err rollout_state_invalid

-- `_read`
unfoldable pub read : File → Result Error Fields
read missing = ok end
read unreadable = err rollout_state_invalid
read (document v) = read_document v

-- `previous if previous in {…} else None`
abbrev pub known_mode : Option Json → Option String
known_mode (some (str m)) = if contains m modes then some m else none
known_mode _ = none

abbrev pub status_of : String → String
status_of mode = if mode == "rollback" then "rolled-back" else "accepted"

unfoldable pub receipt_of : String → Option String → Option String → Fields → Receipt
receipt_of mode generation reason state = record {
  mode = mode;
  status = status_of mode;
  generation = generation;
  reason = reason;
  previous_mode = known_mode (json_get "mode" state);
}

unfoldable pub transition :
    String → Option String → Option String → File → Result Error Receipt × File
unfolding check_request read receipt_of as_dict
transition mode generation reason file = elim (check_request mode generation reason >> read file) [
  | err e ↦ (err e, file)
  | ok state ↦ let r = receipt_of mode generation reason state in (ok r, document (obj (as_dict r)))
]
