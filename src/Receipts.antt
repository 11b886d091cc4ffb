-- ===== src/Receipts.antt =====
-- src/simplicio_fast/generation_receipts.py: `seal_receipt`, `verify_receipt`, `verify_chain` and
-- `ReceiptJournal`. A receipt is a dict of JSON, as its users hand it on.
pub mod Chain
pub mod Seal
pub mod Journal
mod Tests
use simplicio_fast.Prelude.{
  ℕ, String, Bool, true, false, not, ◌&&◌, ◌||◌, Option, none, some, List, [], ◌∷◌, ◌++◌, Result,
  ok, err, ◌>>=◌, ◌>>◌, raise_if, ◌==◌, strings_equate, if◌then◌else◌, contains,
}
use simplicio_fast.Prelude.Dict.{Dict, lookup, insert}
use simplicio_fast.Prelude.Json.{Json, null, bool, num, str, arr, obj, Fields, end, field, opt_str}
use simplicio_fast.Prelude.Json.Encode.{canonical}
use simplicio_fast.Prelude.Json.Equality.{json_beq, json_get}

abbrev pub schema : String
schema = "simplicio.fast-generation-receipt/v1"

abbrev pub kinds : List String
kinds = "build" ∷ "query" ∷ "context" ∷ "refresh" ∷ "overlay" ∷ "rollout" ∷ []

pub data Error : Type 0 where
  receipt_kind_invalid : Error
  backend_invalid : Error
  native_artifact_unbound : Error
  python_artifact_invalid : Error
  receipt_binding_missing : Error
  receipt_schema_invalid : Error
  receipt_corrupt : Error
  receipt_repo_mismatch : Error
  receipt_commit_stale : Error
  receipt_generation_stale : Error
  receipt_ancestor_mismatch : Error
  receipt_source_stale : Error
  idempotency_collision : Error
  key_error : Error

-- the arguments of `seal_receipt`
pub record Request : Type 0 where
  pub kind : String
  pub repo : String
  pub commit : String
  pub snapshot_digest : String
  pub generation : String
  pub source_hashes : Fields
  pub backend : String
  pub backend_artifact_hash : Option String
  pub fallback_reason : Option String
  pub ancestor_receipt_hash : Option String
  pub ancestor_context_packet_hash : Option String
  pub downstream_changeset_hash : Option String

-- `d[k] = v`
abbrev pub put : String → Json → Fields → Fields
put k v end = field k v end
put k v (field j w fs) = if k == j then field j v fs else field j w (put k v fs)

-- `d.pop(k, …)`, the dict that is left
abbrev pub remove : String → Fields → Fields
remove k end = end
remove k (field j w fs) = if k == j then remove k fs else field j w (remove k fs)

abbrev is_empty : Fields → Bool
is_empty end = true
is_empty (field k v fs) = false

-- `not value`
abbrev is_falsy : Option String → Bool
is_falsy none = true
is_falsy (some s) = s == ""

abbrev is_some : Option String → Bool
is_some none = false
is_some (some s) = true

unfoldable pub check_request : Request → Result Error Unit
check_request r = do
  raise_if (not (contains r.kind kinds)) receipt_kind_invalid
  raise_if (not (r.backend == "python" || r.backend == "rust")) backend_invalid
  raise_if (r.backend == "rust" && is_falsy r.backend_artifact_hash) native_artifact_unbound
  raise_if (r.backend == "python" && is_some r.backend_artifact_hash) python_artifact_invalid
  raise_if
      (r.repo == ""
        || r.commit == ""
        || r.snapshot_digest == ""
        || r.generation == ""
        || is_empty r.source_hashes)
      receipt_binding_missing

unfoldable pub body : Request → Fields
body r = field "schema" (str schema) (
    field "kind" (str r.kind) (
      field "repo" (str r.repo) (
        field "commit" (str r.commit) (
          field "snapshot_digest" (str r.snapshot_digest) (
            field "generation" (str r.generation) (
              field "source_hashes" (obj r.source_hashes) (
                field "backend" (str r.backend) (
                  field "backend_artifact_hash" (opt_str r.backend_artifact_hash) (
                    field "fallback_reason" (opt_str r.fallback_reason) (
                      field "ancestor_receipt_hash" (opt_str r.ancestor_receipt_hash) (
                        field "ancestor_context_packet_hash"
                          (opt_str r.ancestor_context_packet_hash)
                          (field "downstream_changeset_hash" (opt_str r.downstream_changeset_hash) (
                            field "public_offsets" null (
                              field "public_offsets_null_reason"
                                (str "FAST_INTERNAL_OFFSETS_NOT_PUBLIC") end))))))))))))))

-- what the idempotency key is a digest of
unfoldable pub identity : Request → Fields
identity r = field "kind" (str r.kind) (
    field "repo" (str r.repo) (
      field "commit" (str r.commit) (
        field "snapshot_digest" (str r.snapshot_digest) (
          field "generation" (str r.generation) (
            field "source_hashes" (obj r.source_hashes) (
              field "ancestor_receipt_hash" (opt_str r.ancestor_receipt_hash) (
                field "ancestor_context_packet_hash" (opt_str r.ancestor_context_packet_hash) (
                  field "downstream_changeset_hash" (opt_str r.downstream_changeset_hash)
                    end))))))))

-- the expectations of `verify_receipt`
pub record Expected : Type 0 where
  pub repo : Option String
  pub commit : Option String
  pub generation : Option String
  pub source_hashes : Option Fields
  pub ancestor_hash : Option String

abbrev pub expect_ancestor : Option String → Expected
expect_ancestor a = record {
  repo = none;
  commit = none;
  generation = none;
  source_hashes = none;
  ancestor_hash = a;
}

-- `value == text`
abbrev pub is_text : Option Json → String → Bool
is_text (some (str s)) t = s == t
is_text _ t = false

-- `expected is not None and expected != actual`
abbrev pub mismatches : Option String → Option Json → Bool
mismatches none actual = false
mismatches (some e) actual = not (is_text actual e)

abbrev pub sources_differ : Option Fields → Option Json → Bool
sources_differ none actual = false
sources_differ (some e) none = true
sources_differ (some e) (some a) = not (json_beq (obj e) a)

-- `unsigned.pop("receipt_hash", "")`, the value
abbrev pub supplied : Option Json → Json
supplied none = str ""
supplied (some v) = v

-- the text under a key that the program indexes
abbrev pub text_at : Option Json → Result Error String
text_at (some (str s)) = ok s
text_at _ = err key_error

module _ (sha256 : List ℕ → String) where
  unfoldable pub digest : Fields → String
  digest fs = sha256 (canonical true (obj fs))

  abbrev pub keyed : Request → Fields
  keyed r = put "idempotency_key" (str (digest (identity r))) (body r)

  unfoldable pub seal_receipt : Request → Result Error Fields
  unfolding check_request body identity digest
  seal_receipt r = do check_request r; ok (put "receipt_hash" (str (digest (keyed r))) (keyed r))

  unfoldable pub verify_receipt : Fields → Expected → Result Error Fields
  unfolding digest
  verify_receipt r e = do
    raise_if (not (is_text (json_get "schema" r) schema)) receipt_schema_invalid
    raise_if
        (not (
          is_text (some (supplied (json_get "receipt_hash" r))) (digest (remove "receipt_hash" r))))
        receipt_corrupt
    raise_if (mismatches e.repo (json_get "repo" r)) receipt_repo_mismatch
    raise_if (mismatches e.commit (json_get "commit" r)) receipt_commit_stale
    raise_if (mismatches e.generation (json_get "generation" r)) receipt_generation_stale
    raise_if (mismatches e.ancestor_hash (json_get "ancestor_receipt_hash" r))
        receipt_ancestor_mismatch
    raise_if (sources_differ e.source_hashes (json_get "source_hashes" r)) receipt_source_stale
    ok r

  -- the loop of `verify_chain`, after the receipt with the hash `previous`
  unfoldable pub verify_from : Option String → List Fields → Result Error (List Fields)
  unfolding verify_receipt
  verify_from previous [] = ok []
  verify_from previous (r ∷ rs) = do
    item ← verify_receipt r (expect_ancestor previous)
    h ← text_at (json_get "receipt_hash" item)
    rest ← verify_from (some h) rs
    ok (item ∷ rest)

  unfoldable pub verify_chain : List Fields → Result Error (List Fields)
  unfolding verify_from
  verify_chain rs = verify_from none rs

  -- `ReceiptJournal.append`: the receipt on record, and whether it was there before. Keys are texts.
  unfoldable pub record_receipt :
      String → Fields → Dict String Fields → Result Error (Fields × Bool) × Dict String Fields
  record_receipt key item receipts = elim (lookup key receipts) [
    | none ↦ (ok (item, false), insert key item receipts)
    | some existing ↦
        if not (json_beq (obj existing) (obj item))
        then (err idempotency_collision, receipts)
        else (ok (existing, true), receipts)
  ]

  -- what `append` does before it takes the lock: the idempotency key
  unfoldable pub verified_key : Fields → Result Error String
  unfolding verify_receipt
  verified_key r =
      verify_receipt r (expect_ancestor none) >>= λ item. text_at (json_get "idempotency_key" item)

  unfoldable pub append :
      Fields → Dict String Fields → Result Error (Fields × Bool) × Dict String Fields
  unfolding record_receipt verified_key
  append r receipts = elim (verified_key r) [
    | err e ↦ (err e, receipts)
    | ok key ↦ record_receipt key r receipts
  ]
