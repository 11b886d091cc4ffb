-- ===== src/Ledger.antt =====
-- src/simplicio_fast/ledger.py: `LedgerEvent` and `DeliveryLedger`. Each method runs under the
-- ledger's lock, so a history is a sequence of calls. A method takes the ledger and gives it back
-- beside its result, also after a raise.
mod Secrets
mod Records
pub mod Chain
pub mod History
pub mod Retry
pub mod Winner
mod Cases
mod Tests
pub use Records.{
  Error, fields_required, unknown_event_type, secret_redaction, invalid_digest,
  idempotency_conflict, winner_fence, winner_required, index_error, Event, Request, request,
}
unfoldable pub use Records.{material}
use Records.{schema, event_types}
use Secrets.{has_secret}
use simplicio_fast.Prelude.{
  ℕ, zero, suc, ◌+◌, ◌-◌, String, ◌≡◌, Bool, true, false, not, ◌&&◌, ◌||◌, Option, none, some, List,
  [], ◌∷◌, ◌++◌, Result, ok, err, ◌>>=◌, ◌>>◌, raise_if, ◌==◌, strings_equate, pairs_equate,
  nat_beq, if◌then◌else◌, length, get_elem?, get_last?, keep, contains,
}
use simplicio_fast.Prelude.Dict.{Dict, lookup, insert, has}
use simplicio_fast.Prelude.Digests.{zero_hash, is_sha256}
use simplicio_fast.Prelude.Int.{pos}
use simplicio_fast.Prelude.Json.{
  Json, null, bool, num, str, arr, obj, Items, nil, item, Fields, end, field, opt_str, strs,
}
use simplicio_fast.Prelude.Json.Encode.{canonical, encode}
use simplicio_fast.Prelude.Json.Equality.{json_beq}

pub record Ledger : Type 0 where
  pub repository : String
  pub events : List Event
  pub by_id : Dict String Event
  pub winner : Dict (String × String) String

pub init : String → Result Error Ledger
init repository =
    if repository == ""
    then err fields_required
    else ok (record { repository = repository; events = []; by_id = []; winner = [] })

abbrev pub Method : Type 0 → Type 0
Method A = Ledger → Result Error A × Ledger

pub check_digests : List String → Result Error Unit
check_digests [] = ok tt
check_digests (d ∷ ds) = raise_if (not (is_sha256 d)) invalid_digest >> check_digests ds

check_payload : Option String → Result Error Unit
check_payload none = ok tt
check_payload (some d) = raise_if (not (is_sha256 d)) invalid_digest

-- what `append_event` checks before it takes the lock
pub check_request : Request → Result Error Unit
unfolding check_digests check_payload
check_request r = do
  raise_if (not (contains r.event_type event_types)) unknown_event_type
  raise_if (r.task_id == "" || r.attempt_id == "" || r.producer == "") fields_required
  raise_if (has_secret r.metadata) secret_redaction
  check_digests r.artifact_digests
  check_payload r.payload_digest

-- `winner is not None and winner != candidate_id`
pub promoted_other : Option String → String → Bool
promoted_other none candidate = false
promoted_other (some w) candidate = not (w == candidate)

-- `self._events[-1].event_hash if self._events else ZERO_HASH`
pub head_hash : List Event → String
head_hash es = elim (get_last? es) [ none ↦ zero_hash | some e ↦ e.event_hash ]

-- what `verify_all` reports
pub record Report : Type 0 where
  pub valid : Bool
  pub events : ℕ
  pub invalid_sequences : List ℕ
  pub head : String

module _ (sha256 : List ℕ → String) where
  pub event_id : Request → String
  event_id r = sha256 (
      canonical false (
        obj (
          field "schema" (str schema) (
            field "event_type" (str r.event_type) (
              field "task_id" (str r.task_id) (
                field "attempt_id" (str r.attempt_id) (
                  field "candidate_id" (opt_str r.candidate_id)
                    (field "metadata" (obj r.metadata) end))))))))

  -- `b"simplicio.fast.delivery-ledger:event:v1\0" + canonical(material)`
  pub event_hash : Json → String
  event_hash m =
      sha256 (encode "simplicio.fast.delivery-ledger:event:v1" ++ (0 ∷ canonical false m))

  unsealed : Request → Ledger → Event
  unsealed r l = record {
    sequence = length l.events;
    event_type = r.event_type;
    event_id = event_id r;
    task_id = r.task_id;
    attempt_id = r.attempt_id;
    candidate_id = r.candidate_id;
    repository = l.repository;
    source_commit = r.source_commit;
    base_generation = r.base_generation;
    overlay_generation = r.overlay_generation;
    producer = r.producer;
    artifact_handles = r.artifact_handles;
    artifact_digests = r.artifact_digests;
    payload_digest = r.payload_digest;
    prev_event_hash = head_hash l.events;
    event_hash = "";
    metadata = r.metadata;
  }

  pub new_event : Request → Ledger → Event
  unfolding unsealed
  new_event r l = let e = unsealed r l in record e { event_hash = event_hash (material e) }

  pub admit : Request → Method Event
  unfolding new_event
  admit r l = (
    ok (new_event r l),
    record l {
      events = l.events ++ new_event r l ∷ [];
      by_id = insert (event_id r) (new_event r l) l.by_id;
    },
  )

  reuse : Request → Event → Method Event
  reuse r existing l =
      if not (existing.event_type == r.event_type)
        || not (json_beq (obj existing.metadata) (obj r.metadata))
      then (err idempotency_conflict, l)
      else (ok existing, l)

  -- the part of `append_event` under the lock
  enter : Request → Method Event
  unfolding admit reuse
  enter r l = elim (lookup (event_id r) l.by_id) [
    | none ↦ admit r l
    | some existing ↦ reuse r existing l
  ]

  pub append_event : Request → Method Event
  append_event r l = elim (check_request r) [ err e ↦ (err e, l) | ok _ ↦ enter r l ]

  pub promote_winner : String → String → String → String → Method Event
  promote_winner task attempt candidate producer l =
      if promoted_other (lookup (task, attempt) l.winner) candidate
      then (err winner_fence, l)
      else append_event (request "WINNER_PROMOTED" task attempt (some candidate) producer)
          (record l { winner = insert (task, attempt) candidate l.winner })

  pub seal_delivery : String → String → String → Method Event
  seal_delivery task attempt producer l = elim (lookup (task, attempt) l.winner) [
    | none ↦ (err winner_required, l)
    | some w ↦ append_event (request "DELIVERY_SEALED" task attempt (some w) producer) l
  ]

  -- `verify_incremental`: whether the event, or the last one, hangs on the event before it. The
  -- report's other fields are the number of events and the sequence plus one.
  expected_previous : Event → List Event → Result Error String
  expected_previous target es =
      if nat_beq target.sequence 0
      then ok zero_hash
      else elim (get_elem? es (target.sequence - 1)) [
        | none ↦ err index_error
        | some e ↦ ok e.event_hash
      ]

  pub verify_event : Event → List Event → Result Error Bool
  unfolding expected_previous
  verify_event target es = do
    previous ← expected_previous target es
    ok (target.prev_event_hash == previous && target.event_hash == event_hash (material target))

  pub verify_incremental : Option Event → Ledger → Result Error Bool
  verify_incremental (some target) l = verify_event target l.events
  verify_incremental none l = elim (get_last? l.events) [
    | none ↦ ok true
    | some target ↦ verify_event target l.events
  ]

  pub is_linked : ℕ → String → Event → Bool
  is_linked n previous e =
      nat_beq e.sequence n
      && e.prev_event_hash == previous
      && e.event_hash == event_hash (material e)

  -- the loop of `verify_all` from sequence `n`: the invalid sequences, and the last hash
  pub verify_from : ℕ → String → List Event → List ℕ × String
  verify_from n previous [] = ([], previous)
  verify_from n previous (e ∷ es) =
      let (invalid, head) = verify_from (suc n) e.event_hash es in
      if is_linked n previous e then (invalid, head) else (n ∷ invalid, head)

  pub verify_all : Ledger → Report
  verify_all l =
      let (invalid, head) = verify_from 0 zero_hash l.events in
      record {
        valid = nat_beq (length invalid) 0;
        events = length l.events;
        invalid_sequences = invalid;
        head = head;
      }

-- `lookup_attempt`
pub lookup_attempt : String → String → Ledger → List Event
lookup_attempt task attempt l = keep (λ e. e.task_id == task && e.attempt_id == attempt) l.events

pub data Call : Type 0 where
  appends : Request → Call
  promotes : (task attempt candidate producer : String) → Call
  seals : (task attempt producer : String) → Call

module _ (sha256 : List ℕ → String) where
  pub step : Call → Ledger → Ledger
  step (appends r) l = (append_event sha256 r l).1
  step (promotes t a c p) l = (promote_winner sha256 t a c p l).1
  step (seals t a p) l = (seal_delivery sha256 t a p l).1

  pub run : List Call → Ledger → Ledger
  run [] l = l
  run (c ∷ cs) l = run cs (step c l)
