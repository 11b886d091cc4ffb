-- ===== src/Ledger/Records.antt =====
-- The event types, `LedgerEvent` with its `material`, and the arguments of `append_event`, of
-- src/simplicio_fast/ledger.py.
use simplicio_fast.Prelude.{ℕ, String, Option, none, List, [], ◌∷◌, strings_equate, pairs_equate}
use simplicio_fast.Prelude.Int.{pos}
use simplicio_fast.Prelude.Json.{Json, num, str, arr, obj, Fields, end, field, opt_str, strs}

abbrev pub schema : String
schema = "simplicio.fast.delivery-ledger/v1"

abbrev pub event_types : List String
event_types =
    "TASK_ACCEPTED" ∷ "ENGINE_SELECTED" ∷ "MAPPER_CONTEXT_PINNED" ∷ "FAST_CONTEXT_RESOLVED"
    ∷ "UNDERSTANDING_COMPILED" ∷ "PLAN_COMPILED" ∷ "CHANGESET_ACCEPTED" ∷ "EFFECT_AUTHORIZED"
    ∷ "LOCAL_GUARD_ACCEPTED" ∷ "EDIT_APPLIED" ∷ "TEST_EVIDENCE" ∷ "INVALIDATION_APPLIED"
    ∷ "SNAPSHOT_REFRESHED" ∷ "CANDIDATE_REJECTED" ∷ "WINNER_PROMOTED" ∷ "DELIVERY_SEALED" ∷ "HELD"
    ∷ "ROLLBACK" ∷ []

-- the `reason_code` of a `LedgerError`, or the `ValueError` for a missing field
pub data Error : Type 0 where
  fields_required unknown_event_type secret_redaction invalid_digest : Error
  idempotency_conflict winner_fence winner_required index_error : Error

pub record Event : Type 0 where
  pub sequence : ℕ
  pub event_type : String
  pub event_id : String
  pub task_id : String
  pub attempt_id : String
  pub candidate_id : Option String
  pub repository : String
  pub source_commit : Option String
  pub base_generation : Option String
  pub overlay_generation : Option String
  pub producer : String
  pub artifact_handles : List String
  pub artifact_digests : List String
  pub payload_digest : Option String
  pub prev_event_hash : String
  pub event_hash : String
  pub metadata : Fields

unfoldable pub material : Event → Json
material e = obj (
    field "schema" (str schema) (
      field "sequence" (num (pos e.sequence)) (
        field "event_type" (str e.event_type) (
          field "event_id" (str e.event_id) (
            field "task_id" (str e.task_id) (
              field "attempt_id" (str e.attempt_id) (
                field "candidate_id" (opt_str e.candidate_id) (
                  field "repository" (str e.repository) (
                    field "source_commit" (opt_str e.source_commit) (
                      field "base_generation" (opt_str e.base_generation) (
                        field "overlay_generation" (opt_str e.overlay_generation) (
                          field "producer" (str e.producer) (
                            field "artifact_handles" (arr (strs e.artifact_handles)) (
                              field "artifact_digests" (arr (strs e.artifact_digests)) (
                                field "payload_digest" (opt_str e.payload_digest) (
                                  field "prev_event_hash" (str e.prev_event_hash)
                                    (field "metadata" (obj e.metadata) end)))))))))))))))))

-- The arguments of `append_event`.
pub record Request : Type 0 where
  pub event_type : String
  pub task_id : String
  pub attempt_id : String
  pub producer : String
  pub candidate_id : Option String
  pub source_commit : Option String
  pub base_generation : Option String
  pub overlay_generation : Option String
  pub artifact_handles : List String
  pub artifact_digests : List String
  pub payload_digest : Option String
  pub metadata : Fields

-- `append_event` with its defaults
abbrev pub request : String → String → String → Option String → String → Request
request event_type task_id attempt_id candidate_id producer = record {
  event_type = event_type;
  task_id = task_id;
  attempt_id = attempt_id;
  producer = producer;
  candidate_id = candidate_id;
  source_commit = none;
  base_generation = none;
  overlay_generation = none;
  artifact_handles = [];
  artifact_digests = [];
  payload_digest = none;
  metadata = end;
}
