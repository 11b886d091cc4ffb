-- ===== src/Temporal/Tests.antt =====
-- Runs of `BitemporalOverlay` of src/simplicio_fast/temporal.py, and its theorems at concrete inputs.
use simplicio_fast.Prelude.{
  String, ◌≡◌, refl, true, false, none, some, List, [], ◌∷◌, arith, strings_equate, if◌then◌else◌,
  leb, length, get_last?, Option, All,
}
use simplicio_fast.Prelude.Dict.{lookup}
use simplicio_fast.Prelude.Digests.{is_sha256, zero_hash}
use simplicio_fast.Prelude.Sorting.{sort_by}
use simplicio_fast.Prelude.TestHash.{test_hash}
use simplicio_fast.Prelude.Json.Encode.{canonical}
use simplicio_fast.Temporal.{Request, request, digest, Versions, Overlay, init, commit}
use simplicio_fast.Temporal.Query.{verify, is_candidate, candidates}
use simplicio_fast.Temporal.Calls.{Call, appends, tombstones, invalidates, renames, Proper, run}
use simplicio_fast.Temporal.Verified.{run-verify}
use simplicio_fast.Temporal.Past.{view, view_of}
use simplicio_fast.Temporal.Intervals.{starts, run-candidates, commit_revives}

abbrev a_id : String
a_id = "aaaaaaaaaaaaaaaaaaaaaaaaaaaaaaaaaaaaaaaaaaaaaaaaaaaaaaaaaaaaaaaa"

abbrev b_id : String
b_id = "bbbbbbbbbbbbbbbbbbbbbbbbbbbbbbbbbbbbbbbbbbbbbbbbbbbbbbbbbbbbbbbb"

abbrev fresh : Overlay
fresh = record {
  repository = "repo";
  base_generation = "g1";
  overlay_generation = none;
  facts = [];
  world_sequence = 0;
  observed_sequence = 0;
}

abbrev first : Request
first = request a_id "c1" zero_hash zero_hash

abbrev dependent : Request
dependent = record (request b_id "c1" zero_hash zero_hash) { dependencies = a_id ∷ [] }

abbrev history : List Call
history =
    appends first
    ∷ appends dependent
    ∷ tombstones a_id "c2" zero_hash "deleted" none none
    ∷ invalidates (a_id ∷ []) "c2" zero_hash "dependency_changed" none
    ∷ appends first
    ∷ []

abbrev played : Overlay
played = run test_hash history fresh

history_counts :
    (played.world_sequence ≡ 5)
    × ((verify test_hash played).facts ≡ 5)
    × ((verify test_hash played).active ≡ 1)
unfolding run verify digest canonical test_hash is_sha256 sort_by
history_counts = (refl, refl, refl)

-- A rename to the same identity leaves a version that ends where it starts, which `verify` reports.
rename_to_itself :
    (verify test_hash
      (run test_hash (appends first ∷ renames a_id a_id "c2" zero_hash zero_hash ∷ []) fresh)).valid
    ≡ false
unfolding run verify digest canonical test_hash is_sha256 sort_by
rename_to_itself = refl

history-Proper : All Proper history
history-Proper = (refl, (refl, (tt, (tt, (refl, tt)))))

-- The theorems at inputs where their hypotheses hold.
run-verify_example :
    ((verify test_hash played).valid ≡ true) × ((verify test_hash played).invalid_digests ≡ [])
unfolding init
run-verify_example = run-verify test_hash "repo" "g1" none {o = fresh} history refl history-Proper

-- The versions that a lookup finds, or those of an overlay's only fact.
abbrev nothing : Versions
nothing = record { older = []; latest = (commit test_hash first 1 fresh).0 }

abbrev found_or : Versions → Option Versions → Versions
found_or v none = v
found_or v (some u) = u

abbrev a_versions : Versions
a_versions = found_or nothing (lookup a_id played.facts)

a_found : lookup a_id played.facts ≡ some a_versions
unfolding run digest canonical test_hash is_sha256 sort_by
a_found = refl

run-candidates_example :
    length (candidates 2 true a_versions)
    ≡ (if leb (starts a_versions.older a_versions.latest) 2 then 1 else 0)
unfolding init
run-candidates_example =
    run-candidates test_hash "repo" "g1" none {o = fresh} history a_id a_versions 2 refl
      history-Proper a_found

abbrev deletion : List Call
deletion = appends first ∷ tombstones a_id "c2" zero_hash "deleted" none none ∷ []

abbrev deleted : Overlay
deleted = run test_hash deletion fresh

abbrev d_versions : Versions
d_versions = found_or nothing (lookup a_id deleted.facts)

d_found : lookup a_id deleted.facts ≡ some d_versions
unfolding run digest canonical test_hash is_sha256
d_found = refl

commit_revives_example :
    (is_candidate 2 false d_versions.latest ≡ false)
    × ((u : Versions) × (lookup a_id (commit test_hash first 3 deleted).1.facts ≡ some u)
        × (view_of (get_last? (candidates 2 false u)) ≡ some (view d_versions.latest)))
unfolding run digest canonical test_hash is_sha256
commit_revives_example =
    commit_revives test_hash first 3 deleted d_versions 2 d_found refl refl refl (ground arith)
      (ground arith)
