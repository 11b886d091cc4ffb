-- ===== src/Temporal/Invalidation.antt =====
-- `BitemporalOverlay.invalidate_dependencies` of src/simplicio_fast/temporal.py. It appends a fact
-- for each identity in turn, so a raise leaves the facts appended before it.
use simplicio_fast.Prelude.{
  ℕ, String, Bool, false, not, ◌&&◌, Option, none, some, List, [], ◌∷◌, Result, ok, err, ◌==◌,
  strings_equate, if◌then◌else◌, any, contains, keep,
}
use simplicio_fast.Prelude.Dict.{Dict}
use simplicio_fast.Prelude.Json.{end}
use simplicio_fast.Prelude.Sorting.{sort_by, members}
use simplicio_fast.Temporal.{Error, Fact, Request, Versions, Overlay, Method, current, append}

-- `tuple(sorted({item for item in changed_ids if isinstance(item, str) and item}))`
unfoldable pub changed_set : List String → List String
changed_set ids = sort_by (λ d. d) (members (keep (λ d. not (d == "")) ids))

-- an active fact with a changed dependency
abbrev pub is_affected : List String → Fact → Bool
is_affected changed f = f.state == "active" && any (λ d. contains d changed) f.dependencies

abbrev pub push_affected : List String → Option Fact → List Fact → List Fact
push_affected changed none fs = fs
push_affected changed (some f) fs = if is_affected changed f then f ∷ fs else fs

-- `_current` is asked for the identity that the last version carries.
unfoldable pub affected : List String → Overlay → Dict String Versions → List Fact
affected changed o [] = []
affected changed o ((id, v) ∷ d) =
    push_affected changed (current v.latest.canonical_id o) (affected changed o d)

abbrev pub holding : String → String → String → Option ℕ → Fact → Request
holding source_commit source_sha256 reason valid_from f = record {
  canonical_id = f.canonical_id;
  source_commit = source_commit;
  source_sha256 = source_sha256;
  artifact_digest = f.artifact_digest;
  valid_from = valid_from;
  state = "held";
  reason_code = some reason;
  predecessor = none;
  allow_same_world = false;
  dependencies = [];
  provenance = end;
}

module _ (sha256 : List ℕ → String) where
  -- a turn of the loop, and the turns after it: a raise stops them
  unfoldable pub carry_on :
      String
      → Result Error Fact × Overlay
      → Result Error (List String) × Overlay
      → Result Error (List String) × Overlay
  carry_on id (err e, o) rest = (err e, o)
  carry_on id (ok f, o) (err e, o') = (err e, o')
  carry_on id (ok f, o) (ok ids, o') = (ok (id ∷ ids), o')

  -- The loop: only its first turn takes the caller's `valid_from`. The result is the affected
  -- identities.
  unfoldable pub hold_all : String → String → String → Option ℕ → List Fact → Method (List String)
  unfolding append carry_on
  hold_all source_commit source_sha256 reason next_world [] o = (ok [], o)
  hold_all source_commit source_sha256 reason next_world (f ∷ fs) o =
      let turn = append sha256 (holding source_commit source_sha256 reason next_world f) o in
      carry_on f.canonical_id turn (hold_all source_commit source_sha256 reason none fs turn.1)

  unfoldable pub invalidate_dependencies :
      List String → String → String → String → Option ℕ → Method (List String)
  unfolding changed_set affected hold_all
  invalidate_dependencies ids source_commit source_sha256 reason valid_from o =
      hold_all source_commit source_sha256 reason valid_from
        (sort_by (λ f. f.canonical_id) (affected (changed_set ids) o o.facts)) o
