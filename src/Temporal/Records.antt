-- ===== src/Temporal/Records.antt =====
-- `BitemporalFact` of src/simplicio_fast/temporal.py, the request of `BitemporalOverlay.append`, and
-- the exceptions, one name for each message or reason code.
use simplicio_fast.Prelude.{ℕ, String, Bool, true, false, Option, none, some, List, [], ◌∷◌}
use simplicio_fast.Prelude.Int.{pos}
use simplicio_fast.Prelude.Json.{Json, null, num, str, arr, obj, Fields, end, field, opt_str, strs}
use simplicio_fast.Prelude.Json.Encode.{canonical}

abbrev pub schema : String
schema = "simplicio.fast.bitemporal-fact/v1"

abbrev pub states : List String
states = "active" ∷ "superseded" ∷ "tombstoned" ∷ "held" ∷ []

pub data Error : Type 0 where
  scope_required : Error
  invalid_digest : Error
  source_commit_required : Error
  unsupported_state : Error
  world_time_out_of_order : Error
  fact_not_active : Error
  invalid_as_of : Error
  stale_generation : Error

pub record Fact : Type 0 where
  pub canonical_id : String
  pub repository : String
  pub base_generation : String
  pub overlay_generation : Option String
  pub source_commit : String
  pub source_sha256 : String
  pub artifact_digest : String
  pub valid_from : ℕ
  pub valid_to : Option ℕ
  pub observed_at : ℕ
  pub invalidated_at : Option ℕ
  pub state : String
  pub reason_code : Option String
  pub predecessor : Option String
  pub successor : Option String
  pub dependencies : List String
  pub provenance : Fields

opt_num : Option ℕ → Json
opt_num none = null
opt_num (some n) = num (pos n)

unfoldable pub unsigned_record : Fact → Json
unfolding opt_num
unsigned_record f = obj (
    field "schema" (str schema) (
      field "canonical_id" (str f.canonical_id) (
        field "repository" (str f.repository) (
          field "base_generation" (str f.base_generation) (
            field "overlay_generation" (opt_str f.overlay_generation) (
              field "source_commit" (str f.source_commit) (
                field "source_sha256" (str f.source_sha256) (
                  field "artifact_digest" (str f.artifact_digest) (
                    field "valid_from" (num (pos f.valid_from)) (
                      field "valid_to" (opt_num f.valid_to) (
                        field "observed_at" (num (pos f.observed_at)) (
                          field "invalidated_at" (opt_num f.invalidated_at) (
                            field "state" (str f.state) (
                              field "reason_code" (opt_str f.reason_code) (
                                field "predecessor" (opt_str f.predecessor) (
                                  field "dependencies" (arr (strs f.dependencies))
                                    (field "provenance" (obj f.provenance) end)))))))))))))))))

-- The property `digest`. The link to the successor is not part of it.
unfoldable pub digest : (List ℕ → String) → Fact → String
unfolding unsigned_record
digest sha256 f = sha256 (canonical true (unsigned_record f))

-- The arguments of `append`.
pub record Request : Type 0 where
  pub canonical_id : String
  pub source_commit : String
  pub source_sha256 : String
  pub artifact_digest : String
  pub valid_from : Option ℕ
  pub state : String
  pub reason_code : Option String
  pub predecessor : Option String
  pub allow_same_world : Bool
  pub dependencies : List String
  pub provenance : Fields

-- A call that leaves the keyword arguments at their defaults.
abbrev pub request : String → String → String → String → Request
request id commit source artifact = record {
  canonical_id = id;
  source_commit = commit;
  source_sha256 = source;
  artifact_digest = artifact;
  valid_from = none;
  state = "active";
  reason_code = none;
  predecessor = none;
  allow_same_world = false;
  dependencies = [];
  provenance = end;
}
