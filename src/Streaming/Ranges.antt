-- ===== src/Streaming/Ranges.antt =====
-- src/simplicio_fast/streaming.py: `read_range` and `read_all` of `StreamingBlockStore`.
use simplicio_fast.Prelude.{
  ℕ, ◌+◌, ◌-◌, String, true, false, not, ◌&&◌, ◌||◌, Option, none, some, List, [], ◌∷◌, ◌++◌,
  Result, ok, err, ◌>>=◌, ◌>>◌, raise_if, ltb, leb, nat_beq, if◌then◌else◌, length, take, drop,
  strings_equate,
}
use simplicio_fast.Prelude.Dict.{lookup}
use simplicio_fast.Prelude.Int.{ℤ, pos, negsuc}
use simplicio_fast.Prelude.Json.{Json, num, str, arr, obj, Fields}
use simplicio_fast.Prelude.Json.Equality.{json_get, json_beq}
use simplicio_fast.Streaming.{
  Error, invalid_range, missing_manifest, invalid_manifest, segment_bounds, missing_segment,
  block_digest, manifest_digest, type_error, absent, malformed, holds, Work, Store, schema,
  max_range_bytes, is_simple, is_equal, item_at, int_of, bounded, list_of, get_key,
}

-- an argument of `read_range`
abbrev pub natural : ℤ → Result Error ℕ
natural (pos n) = ok n
natural (negsuc n) = err invalid_range

unfoldable pub load_manifest : Option Work → Result Error Fields
load_manifest none = err missing_manifest
load_manifest (some w) = elim w.manifest [
  | holds (obj fs) ↦
      raise_if (not (is_equal (str schema) (json_get "schema" fs))) invalid_manifest >> ok fs
  | holds _ ↦ err invalid_manifest
  | absent ↦ err missing_manifest
  | malformed ↦ err missing_manifest
]

-- what `read_range` takes from a manifest
pub record Plan : Type 0 where
  pub total : ℕ
  pub blocks : List Json
  pub segment : String

unfoldable pub plan_of : Option Json → Option Json → Option Json → Result Error Plan
plan_of (some (num (pos n))) (some (arr xs)) (some (str name)) = do
  raise_if (not (is_simple name)) invalid_range
  ok (record { total = n; blocks = list_of xs; segment = name })
plan_of _ _ _ = err invalid_range

module _ (sha256 : List ℕ → String) (parse_int : String → Option ℤ) where
  -- `int(block["length"])`, with its exceptions caught
  unfoldable pub block_length : Json → Result Error ℤ
  unfolding item_at int_of
  block_length (obj fs) = elim (item_at "length" (obj fs) >>= int_of parse_int) [
    | ok n ↦ ok n
    | err _ ↦ err invalid_manifest
  ]
  block_length _ = err invalid_manifest

  -- `payload[left:right]` of a block after its checks
  unfoldable pub read_block : ℕ → ℕ → List ℕ → ℕ → ℕ → Json → Result Error (List ℕ)
  unfolding get_key is_equal
  read_block from to content cursor size block =
      let payload = take size (drop cursor content) in
      let right = if ltb to (cursor + size) then to - cursor else size in
      if ltb cursor to && ltb from (cursor + size)
      then (do
        raise_if (not (nat_beq (length payload) size)) segment_bounds
        h ← get_key "sha256" block
        raise_if (not (is_equal (str (sha256 payload)) h)) block_digest
        ok (drop (from - cursor) (take right payload)))
      else ok []

  -- the loop of `read_range`: the cursor at its end, and the bytes after `out`
  unfoldable pub read_from : ℕ → ℕ → ℕ → List ℕ → ℕ → List ℕ → List Json → Result Error (ℕ × List ℕ)
  unfolding bounded
  read_from total from to content cursor out [] = ok (cursor, out)
  read_from total from to content cursor out (b ∷ bs) = do
    n ← block_length b
    size ← bounded invalid_manifest n cursor total
    part ← read_block from to content cursor size b
    elim (leb to (cursor + size)) [
      | true ↦ ok (cursor + size, out ++ part)
      | false ↦ read_from total from to content (cursor + size) (out ++ part) bs
    ]

  abbrev pub checked : ℕ → ℕ → ℕ × List ℕ → Result Error (List ℕ)
  checked to n (cursor, out) =
      raise_if (ltb cursor to || not (nat_beq (length out) n)) segment_bounds >> ok out

  -- the reads of the segment
  abbrev pub read_segment : ℕ → ℕ → Plan → Option (List ℕ) → Result Error (List ℕ)
  read_segment from n p none = err missing_segment
  read_segment from n p (some content) =
      read_from p.total from (from + n) content 0 [] p.blocks >>= checked (from + n) n

  -- nothing is opened for a range of no bytes
  abbrev pub read_some : ℕ → ℕ → Plan → Option (List ℕ) → Result Error (List ℕ)
  read_some from n p file = if nat_beq n 0 then ok [] else read_segment from n p file

  unfoldable pub read_work : ℕ → ℕ → Option Work → Fields → Result Error (List ℕ)
  read_work from n w fs = do
    p ← plan_of (json_get "input_bytes" fs) (json_get "blocks" fs) (json_get "segment" fs)
    raise_if (ltb p.total (from + n)) invalid_range
    read_some from n p (elim w [ none ↦ none | some w ↦ lookup p.segment w.segments ])

  unfoldable pub read_range : String → ℤ → ℤ → Store → Result Error (List ℕ)
  read_range generation from n s = do
    i ← natural from
    k ← natural n
    raise_if (ltb max_range_bytes k) invalid_range
    fs ← load_manifest (lookup generation s.works)
    read_work i k (lookup generation s.works) fs

  abbrev pub check_all : Fields → List ℕ → Result Error (List ℕ)
  check_all fs content = do
    n ← item_at "input_bytes" (obj fs)
    raise_if (not (json_beq (num (pos (length content))) n)) manifest_digest
    h ← item_at "source_sha256" (obj fs)
    raise_if (not (json_beq (str (sha256 content)) h)) manifest_digest
    ok content

  -- the file that the manifest names
  abbrev pub segment_at : Work → Option Json → Result Error (List ℕ)
  segment_at w none = err missing_manifest
  segment_at w (some (str name)) = elim (lookup name w.segments) [
    | none ↦ err missing_manifest
    | some content ↦ ok content
  ]
  segment_at w (some _) = err type_error

  unfoldable pub read_all : String → Store → Result Error (List ℕ)
  read_all generation s = elim (lookup generation s.works) [
    | none ↦ err missing_manifest
    | some w ↦ elim w.manifest [
      | absent ↦ err missing_manifest
      | malformed ↦ err missing_manifest
      | holds (obj fs) ↦ segment_at w (json_get "segment" fs) >>= check_all fs
      | holds _ ↦ err type_error
    ]
  ]
