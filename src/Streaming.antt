-- ===== src/Streaming.antt =====
-- src/simplicio_fast/streaming.py: `StreamingBlockStore`. The store's files are the state, and a method
-- gives it back beside its result, also after a raise. An atomic replacement is one step, and `fsync`
-- none. `parse_int` is `int` of a text.
mod Records
pub mod Build
pub mod Ranges
pub mod Blocks
pub mod Entries
pub mod Loop
pub mod Publish
pub mod Slices
pub mod Reading
pub mod Resume
mod Tests
unfoldable pub use Records.*
use simplicio_fast.Prelude.{
  ℕ, zero, suc, ◌+◌, ◌/◌, ◌%◌, String, Bool, true, false, not, ◌||◌, Option, none, some, List, [],
  ◌∷◌, ◌++◌, Result, ok, err, ◌>>=◌, ◌>>◌, raise_if, ltb, leb, nat_beq, if◌then◌else◌, length, take,
  drop, get_elem?, ◌==◌, strings_equate,
}
use simplicio_fast.Prelude.Dict.{lookup, insert}
use simplicio_fast.Prelude.Int.{ℤ, pos, negsuc, ◌+ℤ◌}
use simplicio_fast.Prelude.Json.{Json, num, str, arr, obj, Fields, end, field}
use simplicio_fast.Prelude.Json.Equality.{json_get, json_beq}

abbrev yielded : List ℕ → List (List ℕ) × List ℕ → List (List ℕ) × List ℕ
yielded block (out, left) = (block ∷ out, left)

-- the `while` loop of `_blocks`: the blocks that `pending` yields, and what is left of it
unfoldable pub split : ℕ → ℕ → List ℕ → List (List ℕ) × List ℕ
split zero size pending = ([], pending)
split (suc fuel) size pending = elim (leb size (length pending)) [
  | true ↦ yielded (take size pending) (split fuel size (drop size pending))
  | false ↦ ([], pending)
]

unfoldable pub blocks_from : ℕ → List ℕ → List (List ℕ) → List (List ℕ)
blocks_from size [] [] = []
blocks_from size pending [] = pending ∷ []
blocks_from size pending (c ∷ cs) =
    let (out, left) = split (length (pending ++ c)) size (pending ++ c) in
    out ++ blocks_from size left cs

-- `_blocks`
abbrev pub blocks : ℕ → List (List ℕ) → List (List ℕ)
blocks size chunks = blocks_from size [] chunks

-- `checkpoint["blocks"]` of a checkpoint that was loaded
abbrev pub blocks_of : Fields → List Json
blocks_of fs = elim (json_get "blocks" fs) [ some (arr xs) ↦ list_of xs | _ ↦ [] ]

abbrev pub has_list : Option Json → Bool
has_list (some (arr xs)) = true
has_list _ = false

-- `_load_checkpoint`
unfoldable pub load_checkpoint : JsonFile → Result Error Fields
load_checkpoint absent = err invalid_checkpoint
load_checkpoint malformed = err invalid_checkpoint
load_checkpoint (holds (obj fs)) = do
  raise_if
      (not (is_equal (str schema) (json_get "schema" fs)) || not (has_list (json_get "blocks" fs)))
      invalid_checkpoint
  ok fs
load_checkpoint (holds _) = err attribute_error

abbrev pub fresh_checkpoint : String → ℕ → Fields
fresh_checkpoint generation size = field "schema" (str schema) (
    field "generation" (str generation) (
      field "block_bytes" (num (pos size))
        (field "input_bytes" (num (pos 0)) (field "blocks" (arr (items_of [])) end))))

-- the loop of `build` between two blocks. `source` is what `source_digest` was given.
pub record Progress : Type 0 where
  pub index : ℕ
  pub blocks : List Json
  pub source : List ℕ
  pub input_bytes : ℕ
  pub appended : ℕ
  pub work : Work

abbrev pub segment_of : Work → List ℕ
segment_of w = elim (lookup segment_name w.segments) [ none ↦ [] | some bs ↦ bs ]

-- `checkpoint` with the blocks and the count of bytes of now
abbrev pub checkpoint_of : Fields → List Json → ℕ → Json
checkpoint_of fs blocks n =
    obj (json_set "input_bytes" (num (pos n)) (json_set "blocks" (arr (items_of blocks)) fs))

abbrev pub is_reached : Option ℕ → ℕ → Bool
is_reached none appended = false
is_reached (some n) appended = leb n appended

-- `len(existing) > input_bytes // block_bytes + (1 if input_bytes % block_bytes else 0)`
abbrev pub block_count : ℕ → ℕ → ℕ
block_count n size = n / size + (if nat_beq (n % size) 0 then 0 else 1)

-- what a manifest says, before the fields `rest`
abbrev pub manifest_fields : String → ℕ → ℕ → String → List Json → Fields → Fields
manifest_fields generation size n digest blocks rest = field "schema" (str schema) (
    field "generation" (str generation) (
      field "block_bytes" (num (pos size)) (
        field "input_bytes" (num (pos n)) (
          field "source_sha256" (str digest)
            (field "blocks" (arr (items_of blocks)) (field "segment" (str segment_name) rest))))))

abbrev pub published_fields : ℕ → Fields
published_fields appended =
    field "status" (str "published") (field "appended_blocks" (num (pos appended)) end)

abbrev pub progress : Fields → Work → Progress
progress fs w = record {
  index = 0;
  blocks = blocks_of fs;
  source = [];
  input_bytes = 0;
  appended = 0;
  work = w;
}

abbrev pub counted : List ℕ → Progress → Progress
counted payload p = record p {
  source = p.source ++ payload;
  input_bytes = p.input_bytes + length payload;
}

abbrev pub proceed :
    (Progress → Result Error Unit × Progress)
    → Result Error Unit × Progress
    → Result Error Unit × Progress
proceed next (ok _, p) = next p
proceed next (err e, p) = (err e, p)

module _ (sha256 : List ℕ → String) (parse_int : String → Option ℤ) where
  -- a turn of the loop of `_validate_existing`: the cursor after the block
  unfoldable pub validate_block : ℕ → ℕ → List ℕ → Json → Result Error ℕ
  unfolding get_key item_at int_of bounded is_equal
  validate_block index cursor content block = do
    i ← get_key "index" block
    raise_if (not (is_equal (num (pos index)) i)) checkpoint_sequence
    raw ← item_at "length" block
    n ← int_of parse_int raw
    size ← bounded checkpoint_bounds n cursor (length content)
    h ← get_key "sha256" block
    raise_if (not (is_equal (str (sha256 (take size (drop cursor content)))) h)) checkpoint_digest
    ok (cursor + size)

  unfoldable pub validate_from : ℕ → ℕ → List ℕ → List Json → Result Error ℕ
  validate_from index cursor content [] = ok cursor
  validate_from index cursor content (b ∷ bs) =
      validate_block index cursor content b >>= λ after. validate_from (suc index) after content bs

  -- `_validate_existing`
  unfoldable pub validate_existing : Option (List ℕ) → List Json → Result Error Unit
  validate_existing none bs = err missing_segment
  validate_existing (some content) bs = do
    cursor ← validate_from 0 0 content bs
    raise_if (not (nat_beq cursor (length content))) segment_tail

  -- what `build` does to the directory before it reads the source
  unfoldable pub start : Bool → String → ℕ → Work → Result Error Fields × Work
  start false generation size w = (
    ok (fresh_checkpoint generation size),
    record w {
      checkpoint = holds (obj (fresh_checkpoint generation size));
      segments = insert segment_name [] w.segments;
    },
  )
  start true generation size w = (
    (do
      fs ← load_checkpoint w.checkpoint
      raise_if
          (not (is_equal (str generation) (json_get "generation" fs))
            || not (is_equal (num (pos size)) (json_get "block_bytes" fs)))
          checkpoint_mismatch
      validate_existing (lookup segment_name w.segments) (blocks_of fs)
      ok fs),
    w,
  )

  -- a block of the source that the checkpoint has
  unfoldable pub compare_block : Json → List ℕ → Result Error Unit
  unfolding item_at
  compare_block expected payload = do
    n ← item_at "length" expected
    raise_if (not (json_beq (num (pos (length payload))) n)) resume_source_mismatch
    h ← item_at "sha256" expected
    raise_if (not (json_beq (str (sha256 payload)) h)) resume_source_mismatch

  abbrev pub entry : ℕ → List ℕ → Json
  entry index payload = obj (
      field "index" (num (pos index))
        (field "length" (num (pos (length payload))) (field "sha256" (str (sha256 payload)) end)))

  -- the write of a new block to the segment and of the checkpoint
  unfoldable pub append_block : Fields → List ℕ → Progress → Progress
  append_block fs payload p =
      let bs = p.blocks ++ entry p.index payload ∷ [] in
      record p {
        index = suc p.index;
        blocks = bs;
        appended = suc p.appended;
        work = record p.work {
          checkpoint = holds (checkpoint_of fs bs p.input_bytes);
          segments = insert segment_name (segment_of p.work ++ payload) p.work.segments;
        };
      }

  abbrev pub take_known : List ℕ → Progress → Json → Result Error Unit × Progress
  take_known payload p expected = (compare_block expected payload, record p { index = suc p.index })

  abbrev pub take_new : Fields → Option ℕ → List ℕ → Progress → Result Error Unit × Progress
  take_new fs fail payload p =
      let after = append_block fs payload p in
      (raise_if (is_reached fail after.appended) injected_stream_failure, after)

  -- a turn of the loop of `build`
  unfoldable pub take_block : Fields → Option ℕ → List ℕ → Progress → Result Error Unit × Progress
  take_block fs fail payload p = elim (get_elem? p.blocks p.index) [
    | some expected ↦ take_known payload (counted payload p) expected
    | none ↦ take_new fs fail payload (counted payload p)
  ]

  unfoldable pub consume :
      Fields → Option ℕ → List (List ℕ) → Progress → Result Error Unit × Progress
  consume fs fail [] p = (ok tt, p)
  consume fs fail (b ∷ bs) p = proceed (consume fs fail bs) (take_block fs fail b p)

  -- `sum(int(item["length"]) for item in blocks)`
  unfoldable pub sum_lengths : List Json → Result Error ℤ
  unfolding item_at int_of
  sum_lengths [] = ok (pos 0)
  sum_lengths (b ∷ bs) = do
    raw ← item_at "length" b
    n ← int_of parse_int raw
    rest ← sum_lengths bs
    ok (n +ℤ rest)

  -- the checks after the loop
  unfoldable pub check_end : ℕ → Progress → Result Error Unit
  check_end size p = do
    raise_if (ltb (block_count p.input_bytes size) (length p.blocks)) checkpoint_ahead
    n ← sum_lengths p.blocks
    raise_if (not (is_equal (num (pos p.input_bytes)) (some (num n)))) checkpoint_length

  abbrev pub manifest_of : String → ℕ → Progress → Fields → Json
  manifest_of generation size p rest =
      obj (manifest_fields generation size p.input_bytes (sha256 p.source) p.blocks rest)

  -- the directory, its manifest and the receipt after the loop
  unfoldable pub publish : String → ℕ → Progress → JsonFile → Result Error Json × Work × JsonFile
  publish generation size p current = elim (check_end size p) [
    | err e ↦ (err e, p.work, current)
    | ok _ ↦ (
      ok (manifest_of generation size p (published_fields p.appended)),
      record p.work { checkpoint = absent; manifest = holds (manifest_of generation size p end) },
      holds (manifest_of generation size p end),
    )
  ]
