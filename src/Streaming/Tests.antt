-- ===== src/Streaming/Tests.antt =====
-- Builds and reads of `StreamingBlockStore` of src/simplicio_fast/streaming.py, and the theorems at concrete
-- inputs.
use simplicio_fast.Prelude.{
  ℕ, ◌+◌, String, ◌≡◌, refl, true, false, Option, none, some, List, [], ◌∷◌, arith, ok, err,
}
use simplicio_fast.Prelude.TestHash.{test_hash}
use simplicio_fast.Prelude.Int.{ℤ, pos}
use simplicio_fast.Prelude.Json.{Json}
use simplicio_fast.Prelude.Json.Equality.{json_get}
use simplicio_fast.Streaming.{
  absent, Store, injected_stream_failure, is_simple, split, blocks, blocks_from, start, consume,
  take_block, append_block,
}
use simplicio_fast.Streaming.Build.{build, build_work, check_request}
use simplicio_fast.Streaming.Ranges.{read_range, read_all}
use simplicio_fast.Streaming.Slices.{slice}
use simplicio_fast.Streaming.Reading.{build-read}
use simplicio_fast.Streaming.Resume.{resume-build, visible}

abbrev no_text : String → Option ℤ
no_text s = none

abbrev empty_store : Store
empty_store = record { works = []; current = absent }

abbrev chunks : List (List ℕ)
chunks = (1 ∷ 2 ∷ 3 ∷ []) ∷ [] ∷ (4 ∷ 5 ∷ []) ∷ []

blocks_of_two : blocks 2 chunks ≡ (1 ∷ 2 ∷ []) ∷ (3 ∷ 4 ∷ []) ∷ (5 ∷ []) ∷ []
unfolding split blocks_from
blocks_of_two = refl

request_passes : check_request "g1" 2 ≡ ok tt
unfolding check_request is_simple
request_passes = refl

-- A generation that names the parent directory passes the check of its name.
parent_passes : check_request ".." 2 ≡ ok tt
unfolding check_request is_simple
parent_passes = refl

stops :
    (build test_hash no_text chunks "g1" 2 false (some 2) empty_store).0
    ≡ err injected_stream_failure
unfolding build build_work check_request is_simple start consume take_block append_block split
    blocks_from json_get
stops = refl

build-read_example :
    let after = (build test_hash no_text chunks "g1" 2 false none empty_store).1 in
    (read_range test_hash no_text "g1" (pos 1) (pos 3) after
      ≡ ok (slice 1 (1 + 3) (1 ∷ 2 ∷ 3 ∷ 4 ∷ 5 ∷ [])))
    × (read_all test_hash no_text "g1" after ≡ ok (1 ∷ 2 ∷ 3 ∷ 4 ∷ 5 ∷ []))
build-read_example =
    build-read test_hash no_text chunks "g1" 2 1 3 empty_store request_passes (omega arith)
      (omega arith)

resume-build_example :
    let stopped = (build test_hash no_text chunks "g1" 2 false (some 2) empty_store).1 in
    let resumed = build test_hash no_text chunks "g1" 2 true none stopped in
    let direct = (build test_hash no_text chunks "g1" 2 false none empty_store).1 in
    (receipt : Json) × (resumed.0 ≡ ok receipt)
    × (visible "g1" resumed.1 ≡ visible "g1" direct)
    × (resumed.1.current ≡ direct.current)
resume-build_example =
    resume-build test_hash no_text chunks "g1" 2 2 empty_store request_passes stops
