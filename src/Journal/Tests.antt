-- ===== src/Journal/Tests.antt =====
-- Journals of src/simplicio_fast/journal.py that are written, torn and recovered, and the theorems at concrete
-- inputs.
use simplicio_fast.Prelude.{
  ℕ, ◌≡◌, refl, true, false, none, some, List, [], ◌∷◌, ◌++◌, ok, err, if◌then◌else◌, ◌==◌,
  numbers_equate, take,
}
use simplicio_fast.Prelude.Bytes.{lists_equate}
use simplicio_fast.Prelude.TestHash.{test_hash}
use simplicio_fast.Prelude.Json.Encode.{canonical}
use simplicio_fast.Prelude.Json.Equality.{json_beq}
use simplicio_fast.Journal.{
  path_outside_repository, truncated_tail, Event, Request, Loaded, document, not_json, header,
  header_line, line_of, as_dict, check_path, check_sha, check_arguments, read, read_from, event_of,
  verify_event, recover, events_since, report_of, unsealed, sealed, split_lines, whole_lines,
  record_hash_of,
}
use simplicio_fast.Journal.History.{is_whole, append_all, record_all, append_all-record_all}
use simplicio_fast.Journal.Windows.{events_since-read}
use simplicio_fast.Prelude.Int.{pos}
use simplicio_fast.Journal.Recovery.{recover-take}

abbrev created : Request
created = record {
  event_type = "create";
  path = "a.py";
  generation = "g1";
  commit = none;
  before_sha256 = none;
  after_sha256 = none;
}

abbrev refused : Request
refused = record created { path = "../a.py" }

abbrev updated : Request
updated = record created { event_type = "update" }

abbrev blind : List ℕ → Loaded
blind bs = not_json

abbrev first : Event
first = sealed test_hash blind (
    unsealed test_hash blind created
      (record { path = "a.py"; before_sha256 = none; after_sha256 = none }) [])

abbrev second : Event
second = sealed test_hash blind (
    unsealed test_hash blind updated
      (record { path = "a.py"; before_sha256 = none; after_sha256 = none }) (first ∷ []))

abbrev test_loads : List ℕ → Loaded
test_loads bs =
    if bs == header_line
    then document header
    else if bs == (line_of first)
    then document (as_dict first)
    else if bs == (line_of second)
    then document (as_dict second)
    else not_json

-- A backslash is a separator only once the path was checked.
backslashes : check_path "..\\x" ≡ ok "../x"
unfolding check_path
backslashes = refl

abbrev header_only : List ℕ → Loaded
header_only bs = document header

-- A header without its line feed is lost.
lost_header :
    recover test_hash header_only (some (canonical true header)) ≡ (ok (report_of true []), some [])
unfolding recover read read_from split_lines whole_lines canonical json_beq
lost_header = refl

append_all-record_all_example :
    ((append_all test_hash test_loads (created ∷ refused ∷ updated ∷ []) none).0
      ≡ (ok first ∷ err path_outside_repository ∷ ok second ∷ []))
    × (read test_hash test_loads false
          (append_all test_hash test_loads (created ∷ refused ∷ updated ∷ []) none).1
        ≡ ok (first ∷ second ∷ []))
    × (is_whole (append_all test_hash test_loads (created ∷ refused ∷ updated ∷ []) none).1 ≡ true)
unfolding record_all check_arguments canonical test_hash read record_hash_of check_path check_sha
append_all-record_all_example =
    append_all-record_all test_hash test_loads (created ∷ refused ∷ updated ∷ []) none [] refl refl
      refl (refl, (tt, (refl, tt)))

recover-take_example :
    (read test_hash test_loads false
        (some ((header_line ++ line_of first) ++ take 7 (line_of second)))
      ≡ err truncated_tail)
    × (recover test_hash test_loads
          (some ((header_line ++ line_of first) ++ take 7 (line_of second)))
        ≡ (ok (report_of true (first ∷ [])), some (header_line ++ line_of first)))
unfolding canonical test_hash read read_from event_of verify_event record_hash_of split_lines
    json_beq
recover-take_example =
    recover-take test_hash test_loads (header_line ++ line_of first) (first ∷ []) second 7 refl refl
      refl

events_since-read_example :
    events_since test_hash test_loads
      (pos 1)
      (some "g1")
      (some (pos 1))
      (some (header_line ++ line_of first ++ line_of second))
    ≡ ok (second ∷ [])
unfolding canonical test_hash read read_from event_of verify_event record_hash_of split_lines
    json_beq
events_since-read_example =
    events_since-read test_hash test_loads (pos 1) (some "g1") (some (pos 1))
      (some (header_line ++ line_of first ++ line_of second)) (first ∷ second ∷ []) refl
