-- ===== src/Ipc.antt =====
-- src/simplicio_fast/ipc.py: `IpcFrame`, its `encode`, and `decode_frame`. `loads` stands for
-- `json.loads` of the decoded bytes; it gives `none` where that raises.
pub mod Stream
pub mod RoundTrip
mod Heads
pub mod Chunks
pub mod Transport
mod Tests
use simplicio_fast.Prelude.{
  ℕ, zero, suc, ◌+◌, ◌≤◌, String, Bool, true, false, not, ◌&&◌, ◌||◌, Option, none, some, List, [],
  ◌∷◌, ◌++◌, Result, ok, err, ◌>>=◌, ◌>>◌, raise_if, ◌==◌, numbers_equate, strings_equate, nat_beq,
  ltb, if◌then◌else◌, length, take, drop, any,
}
use simplicio_fast.Prelude.Bytes.{pack_u32, unpack_u32, lists_equate}
use simplicio_fast.Prelude.Json.{Json, str, obj, arr, num, bool, null, Fields, end, field, codes}
use simplicio_fast.Prelude.Json.Encode.{canonical, encode}

abbrev pub schema : String
schema = "simplicio.fast.ipc/v1"

-- `b"SFASTIPC"`
abbrev pub magic : List ℕ
magic = 83 ∷ 70 ∷ 65 ∷ 83 ∷ 84 ∷ 73 ∷ 80 ∷ 67 ∷ []

-- `struct.Struct(">8sII").size`
abbrev pub header_size : ℕ
header_size = 16

pub data Error : Type 0 where
  limits_not_positive : Error
  invalid_metadata : Error
  payload_too_large : Error
  header_too_large : Error
  frame_too_large : Error
  pack_overflow : Error
  truncated_frame : Error
  invalid_magic : Error
  trailing_bytes : Error
  invalid_header : Error
  unsupported_schema : Error
  payload_digest_mismatch : Error
  not_ascii : Error

pub record Limits : Type 0 where
  pub max_header_bytes : ℕ
  pub max_payload_bytes : ℕ
  pub max_frame_bytes : ℕ

abbrev pub default_limits : Limits
default_limits = record {
  max_header_bytes = 4096;
  max_payload_bytes = 1048576;
  max_frame_bytes = 1052688;
}

unfoldable pub positive_limits : Limits → Result Error Unit
positive_limits m =
    raise_if (ltb m.max_header_bytes 1 || ltb m.max_payload_bytes 1 || ltb m.max_frame_bytes 1)
      limits_not_positive

-- `_text` of a text
unfoldable pub text : String → ℕ → Result Error String
text value limit =
    if value == "" || ltb limit (length (encode value)) then err invalid_metadata else ok value

pub record IpcFrame : Type 0 where
  pub request_id : String
  pub operation : String
  pub generation : String
  pub payload : List ℕ

-- the constructor with `__post_init__`
unfoldable pub make_frame : String → String → String → List ℕ → Result Error IpcFrame
unfolding text
make_frame request operation generation payload = do
  r ← text request 128
  o ← text operation 128
  g ← text generation 128
  ok (record { request_id = r; operation = o; generation = g; payload = payload })

-- `HEADER.pack(MAGIC, header_length, payload_length)`, which raises on a number of 33 bits
unfoldable pub pack_header : ℕ → ℕ → Result Error (List ℕ)
pack_header h p =
    if ltb 4294967295 h || ltb 4294967295 p
    then err pack_overflow
    else ok (magic ++ (pack_u32 h ++ pack_u32 p))

-- `HEADER.unpack_from(data)`, of at least `header_size` bytes
abbrev pub header_length : List ℕ → ℕ
header_length bs = unpack_u32 (drop 8 bs)

abbrev pub payload_length : List ℕ → ℕ
payload_length bs = unpack_u32 (drop 12 bs)

-- `metadata.get(key)`
abbrev pub get : String → Fields → Option Json
get k end = none
get k (field j v fs) = let rest = get k fs in if j == k then some v else rest

abbrev count_fields : Fields → ℕ
count_fields end = 0
count_fields (field j v fs) = suc (count_fields fs)

abbrev has_field : String → Fields → Bool
has_field k fs = elim (get k fs) [ none ↦ false | some _ ↦ true ]

-- `set(metadata) == _METADATA_KEYS`: a decoded object has no key twice.
abbrev pub has_metadata_keys : Fields → Bool
has_metadata_keys fs =
    nat_beq (count_fields fs) 5
    && has_field "schema" fs
    && has_field "request_id" fs
    && has_field "operation" fs
    && has_field "generation" fs
    && has_field "payload_sha256" fs

abbrev pub is_text : Option Json → String → Bool
is_text (some (str s)) t = s == t
is_text _ t = false

-- the test of the digest: `hmac.compare_digest` raises a `TypeError` on a text that is not ASCII
unfoldable pub check_digest : Option Json → String → Result Error Unit
check_digest (some (str s)) digest =
    if any (λ c. ltb 127 c) (codes s)
    then err not_ascii
    else raise_if (not (s == digest)) payload_digest_mismatch
check_digest _ digest = err payload_digest_mismatch

-- `_text(metadata.get(key), key, 128)`
unfoldable pub text_field : Option Json → Result Error String
unfolding text
text_field (some (str s)) = text s 128
text_field _ = err invalid_metadata

-- the checks of the frame's shape, before the metadata is read
unfoldable pub check_frame : List ℕ → Limits → Result Error Unit
unfolding positive_limits
check_frame bs m = do
  positive_limits m
  raise_if (ltb m.max_frame_bytes (length bs)) frame_too_large
  raise_if (ltb (length bs) header_size) truncated_frame
  raise_if (not (take 8 bs == magic)) invalid_magic
  raise_if (ltb m.max_header_bytes (header_length bs)) header_too_large
  raise_if (ltb m.max_payload_bytes (payload_length bs)) payload_too_large
  raise_if (ltb (length bs) (header_size + header_length bs + payload_length bs)) truncated_frame
  raise_if (ltb (header_size + header_length bs + payload_length bs) (length bs)) trailing_bytes

module _ (sha256 : List ℕ → String) where
  abbrev pub metadata : IpcFrame → Fields
  metadata f = field "generation" (str f.generation) (
      field "operation" (str f.operation) (
        field "payload_sha256" (str (sha256 f.payload))
          (field "request_id" (str f.request_id) (field "schema" (str schema) end))))

  abbrev pub header_bytes : IpcFrame → List ℕ
  header_bytes f = canonical false (obj (metadata f))

  unfoldable pub encode_frame : IpcFrame → Limits → Result Error (List ℕ)
  unfolding positive_limits pack_header
  encode_frame f m = do
    positive_limits m
    raise_if (ltb m.max_payload_bytes (length f.payload)) payload_too_large
    raise_if (ltb m.max_header_bytes (length (header_bytes f))) header_too_large
    raise_if (ltb m.max_frame_bytes (header_size + length (header_bytes f) + length f.payload))
        frame_too_large
    packed ← pack_header (length (header_bytes f)) (length f.payload)
    ok (packed ++ (header_bytes f ++ f.payload))

  -- the checks of the metadata and the payload of a frame
  unfoldable pub decode_fields : Fields → List ℕ → Result Error IpcFrame
  unfolding make_frame text_field check_digest
  decode_fields fs payload = do
    raise_if (not (has_metadata_keys fs)) invalid_metadata
    raise_if (not (is_text (get "schema" fs) schema)) unsupported_schema
    check_digest (get "payload_sha256" fs) (sha256 payload)
    r ← text_field (get "request_id" fs)
    o ← text_field (get "operation" fs)
    g ← text_field (get "generation" fs)
    make_frame r o g payload

  unfoldable pub decode_metadata : Option Json → List ℕ → Result Error IpcFrame
  unfolding decode_fields
  decode_metadata none payload = err invalid_header
  decode_metadata (some (obj fs)) payload = decode_fields fs payload
  decode_metadata (some _) payload = err invalid_metadata

  unfoldable pub decode_frame : (List ℕ → Option Json) → List ℕ → Limits → Result Error IpcFrame
  unfolding check_frame decode_metadata
  decode_frame loads bs m =
      check_frame bs m
      >> decode_metadata (loads (take (header_length bs) (drop header_size bs)))
          (take (payload_length bs) (drop (header_size + header_length bs) bs))
