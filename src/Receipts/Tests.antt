-- ===== src/Receipts/Tests.antt =====
-- Receipts of src/simplicio_fast/generation_receipts.py, sealed, chained and recorded, and the theorems
-- at concrete inputs.
use simplicio_fast.Prelude.{◌≡◌, refl, none, some, [], ◌∷◌, ok, err}
use simplicio_fast.Prelude.TestHash.{test_hash}
use simplicio_fast.Prelude.Json.{str, Fields, end, field}
use simplicio_fast.Prelude.Json.Encode.{canonical}
use simplicio_fast.Prelude.Json.Equality.{json_get}
use simplicio_fast.Receipts.{
  Request, receipt_corrupt, put, keyed, body, identity, digest, check_request, seal_receipt,
  verify_receipt, verify_chain,
}
use simplicio_fast.Receipts.Seal.{expecting, seal-verify}

abbrev built : Request
built = record {
  kind = "build";
  repo = "repo";
  commit = "c1";
  snapshot_digest = "d1";
  generation = "g1";
  source_hashes = field "a.py" (str "h1") end;
  backend = "python";
  backend_artifact_hash = none;
  fallback_reason = none;
  ancestor_receipt_hash = none;
  ancestor_context_packet_hash = none;
  downstream_changeset_hash = none;
}

abbrev sealed_as : Request → Fields
sealed_as q = put "receipt_hash" (str (digest test_hash (keyed test_hash q))) (keyed test_hash q)

abbrev first : Fields
first = sealed_as built

abbrev queried : Request
queried = record built {
  kind = "query";
  ancestor_receipt_hash = some (digest test_hash (keyed test_hash built));
}

abbrev second : Fields
second = sealed_as queried

-- A receipt that was changed after it was sealed is refused.
tampered :
    verify_receipt test_hash (put "commit" (str "c2") first) (expecting built) ≡ err receipt_corrupt
unfolding verify_receipt body identity digest canonical test_hash json_get
tampered = refl

-- The theorems at inputs where their hypotheses hold.
seal-verify_example : verify_receipt test_hash first (expecting built) ≡ ok first
unfolding seal_receipt check_request json_get
seal-verify_example = seal-verify test_hash built first (refl, tt, tt) refl

chain_accepted : verify_chain test_hash (first ∷ second ∷ []) ≡ ok (first ∷ second ∷ [])
unfolding verify_chain body identity digest canonical test_hash json_get
chain_accepted = refl
