-- ===== src/Streaming/Records.antt =====
-- src/simplicio_fast/streaming.py: the files of a streaming store, and how its methods read a JSON value.
use simplicio_fast.Prelude.{
  ℕ, ◌+◌, String, Bool, false, not, ◌&&◌, ◌||◌, Option, none, some, List, [], ◌∷◌, Result, ok, err,
  ltb, nat_beq, if◌then◌else◌, all, ◌==◌, strings_equate,
}
use simplicio_fast.Prelude.Dict.{Dict}
use simplicio_fast.Prelude.Int.{ℤ, pos, negsuc}
use simplicio_fast.Prelude.Json.{
  Json, bool, num, str, obj, Items, nil, item, Fields, end, field, codes,
}
use simplicio_fast.Prelude.Json.Equality.{json_get, json_beq}

abbrev pub schema : String
schema = "simplicio.fast.streaming-store/v1"

abbrev pub segment_name : String
segment_name = "segment-000000.bin"

abbrev pub max_block_bytes : ℕ
max_block_bytes = 16777216

abbrev pub max_range_bytes : ℕ
max_range_bytes = 67108864

-- the reason codes of `StreamingStoreError`, then the other exceptions
pub data Error : Type 0 where
  invalid_checkpoint : Error
  missing_segment : Error
  checkpoint_sequence : Error
  checkpoint_bounds : Error
  checkpoint_digest : Error
  segment_tail : Error
  invalid_generation : Error
  invalid_block_size : Error
  checkpoint_mismatch : Error
  resume_source_mismatch : Error
  checkpoint_ahead : Error
  checkpoint_length : Error
  invalid_range : Error
  missing_manifest : Error
  invalid_manifest : Error
  segment_bounds : Error
  block_digest : Error
  manifest_digest : Error
  source_unavailable : Error
  injected_stream_failure : Error
  attribute_error : Error
  key_error : Error
  type_error : Error
  value_error : Error

-- a JSON file: missing, not to be parsed, or its value
pub data JsonFile : Type 0 where
  absent : JsonFile
  malformed : JsonFile
  holds : Json → JsonFile

-- the directory of a generation
pub record Work : Type 0 where
  pub checkpoint : JsonFile
  pub segments : Dict String (List ℕ)
  pub manifest : JsonFile

pub record Store : Type 0 where
  pub works : Dict String Work
  pub current : JsonFile

abbrev pub new_work : Work
new_work = record { checkpoint = absent; segments = []; manifest = absent }

-- `Path(name).name == name` of a text that is not empty
unfoldable pub is_simple : String → Bool
is_simple name = not (name == ".") && all (λ c. not (nat_beq c b'/')) (codes name)

abbrev pub list_of : Items → List Json
list_of nil = []
list_of (item x xs) = x ∷ list_of xs

abbrev pub items_of : List Json → Items
items_of [] = nil
items_of (x ∷ xs) = item x (items_of xs)

-- `value[key] = v`
unfoldable pub json_set : String → Json → Fields → Fields
json_set k v end = field k v end
json_set k v (field j w fs) = if k == j then field j v fs else field j w (json_set k v fs)

-- `value.get(key) == v`, from what `get` gives
unfoldable pub is_equal : Json → Option Json → Bool
is_equal v none = false
is_equal v (some w) = json_beq v w

-- `value.get(key)`
unfoldable pub get_key : String → Json → Result Error (Option Json)
get_key k (obj fs) = ok (json_get k fs)
get_key k _ = err attribute_error

-- `value[key]`
unfoldable pub item_at : String → Json → Result Error Json
item_at k (obj fs) = elim (json_get k fs) [ none ↦ err key_error | some v ↦ ok v ]
item_at k _ = err type_error

-- `int(value)`, with `parse_int` for a text
unfoldable pub int_of : (String → Option ℤ) → Json → Result Error ℤ
int_of parse_int (num n) = ok n
int_of parse_int (bool b) = ok (pos (if b then 1 else 0))
int_of parse_int (str s) = elim (parse_int s) [ none ↦ err value_error | some n ↦ ok n ]
int_of parse_int _ = err type_error

-- a block of `n` bytes after `cursor` that ends within `size`
unfoldable pub bounded : Error → ℤ → ℕ → ℕ → Result Error ℕ
bounded e (pos n) cursor size = if ltb n 1 || ltb size (cursor + n) then err e else ok n
bounded e (negsuc n) cursor size = err e
