-- ===== src/Ledger/Tests.antt =====
-- Runs of the ledger of src/simplicio_fast/ledger.py, and its theorems at concrete inputs.
use mathlib.Core.Bool.{false≢true}
use text.Mathlib.TextEquality.{eq_iff}
use simplicio_fast.Prelude.{
  String, ◌≡◌, refl, ◌≢◌, ◌⊎◌, true, none, some, List, [], ◌∷◌, ◌++◌, arith, ok, err,
  numbers_equate, strings_equate, pairs_equate, map,
}
use simplicio_fast.Prelude.Int.{pos}
use simplicio_fast.Prelude.Dict.{lookup}
use simplicio_fast.Prelude.Digests.{is_sha256}
use mathlib.Core.Logic.{◌↔◌}
use simplicio_fast.Prelude.Digests.{zero_hash}
use simplicio_fast.Prelude.TestHash.{test_hash}
use simplicio_fast.Prelude.Json.{end, field, num}
use simplicio_fast.Prelude.Json.Encode.{canonical}
use simplicio_fast.Prelude.Json.Equality.{json_beq, json_get}
use simplicio_fast.Ledger.{
  Event, winner_fence, Request, request, Ledger, init, material, head_hash, event_id, event_hash,
  new_event, enter, append_event, check_request, promote_winner, seal_delivery, verify_all, Call,
  appends, promotes, seals, step, run, promoted_other,
}
use simplicio_fast.Ledger.Secrets.{has_secret}
use simplicio_fast.Ledger.Chain.{Chained, verify_all_iff}
use simplicio_fast.Ledger.History.{run-verify_all, run-Extends}
use simplicio_fast.Ledger.Retry.{append_event_retry}
use simplicio_fast.Ledger.Winner.{run-winner, promote_winner_fenced, seal_delivery_winner}

abbrev empty : Ledger
empty = record { repository = "repo"; events = []; by_id = []; winner = [] }

abbrev tested : Request
tested = record (request "TEST_EVIDENCE" "t1" "a1" none "loop") {
  metadata = field "passed" (num (pos 3)) end;
}

abbrev history : List Call
history =
    appends (request "TASK_ACCEPTED" "t1" "a1" none "loop")
    ∷ promotes "t1" "a1" "c1" "loop"
    ∷ promotes "t1" "a1" "c2" "loop"
    ∷ appends tested
    ∷ appends tested
    ∷ seals "t1" "a1" "loop"
    ∷ []

-- The second candidate and the repeated evidence add nothing.
history_events :
    map (λ e. e.event_type) (run test_hash history empty).events
    ≡ "TASK_ACCEPTED" ∷ "WINNER_PROMOTED" ∷ "TEST_EVIDENCE" ∷ "DELIVERY_SEALED" ∷ []
unfolding run step append_event enter check_request promote_winner seal_delivery promoted_other
    has_secret event_id event_hash material canonical test_hash json_beq head_hash is_sha256
history_events = refl

-- The theorems at inputs where their hypotheses hold.
abbrev played : Ledger
played = run test_hash history empty

run-verify_all_example :
    ((verify_all test_hash played).valid ≡ true)
    × ((verify_all test_hash played).invalid_sequences ≡ [])
    × ((verify_all test_hash played).head ≡ head_hash played.events)
unfolding init
run-verify_all_example = run-verify_all test_hash "repo" {l = empty} history refl

abbrev promoted : Ledger
promoted = record empty { winner = (("t1", "a1"), "c1") ∷ [] }

run-winner_example : lookup ("t1", "a1") (run test_hash history promoted).winner ≡ some "c1"
run-winner_example = run-winner test_hash history promoted "t1" "a1" "c1" refl

c1_not_c2 : ◌≢◌ {A = String} "c1" "c2"
c1_not_c2 = ground (arith, eq_iff "c1" "c2")

promote_winner_fenced_example :
    promote_winner test_hash "t1" "a1" "c2" "loop" promoted ≡ (err winner_fence, promoted)
promote_winner_fenced_example =
    promote_winner_fenced test_hash promoted "t1" "a1" "c1" "c2" "loop" refl c1_not_c2

abbrev sealed : Event
sealed = new_event test_hash (request "DELIVERY_SEALED" "t1" "a1" (some "c1") "loop") promoted

seal_delivery_ok : (seal_delivery test_hash "t1" "a1" "loop" promoted).0 ≡ ok sealed
unfolding seal_delivery append_event enter check_request has_secret
seal_delivery_ok = refl

seal_delivery_winner_example :
    (w : String) × (lookup ("t1", "a1") promoted.winner ≡ some w)
    × (((sealed.candidate_id ≡ some w)
          × (sealed.event_type ≡ "DELIVERY_SEALED")
          × ((seal_delivery test_hash "t1" "a1" "loop" promoted).1.events
              ≡ promoted.events ++ sealed ∷ []))
        ⊎ (((seal_delivery test_hash "t1" "a1" "loop" promoted).1 ≡ promoted)
            × (lookup
                  (event_id test_hash (request "DELIVERY_SEALED" "t1" "a1" (some w) "loop"))
                  promoted.by_id
                ≡ some sealed)))
seal_delivery_winner_example =
    seal_delivery_winner test_hash promoted "t1" "a1" "loop" {e = sealed} seal_delivery_ok

append_tested : (append_event test_hash tested empty).0 ≡ ok (new_event test_hash tested empty)
unfolding append_event enter check_request has_secret
append_tested = refl

append_event_retry_example :
    append_event test_hash tested (run test_hash history (append_event test_hash tested empty).1)
    ≡ (
      ok (new_event test_hash tested empty),
      run test_hash history (append_event test_hash tested empty).1,
    )
unfolding json_get
append_event_retry_example =
    append_event_retry test_hash tested empty history {e = new_event test_hash tested empty}
      (refl, tt, tt) refl append_tested

abbrev forged : Event
forged = record sealed { sequence = 0; producer = "other"; event_hash = "" }

-- No hash of `test_hash` is the empty text.
forged_hash : forged.event_hash ≢ event_hash test_hash (material forged)
unfolding event_hash test_hash material canonical new_event event_id head_hash
forged_hash h = false≢true ((eq_iff "" (event_hash test_hash (material forged))).1 h)

verify_all_iff_example :
    ((verify_all test_hash played).valid ≡ true) ↔ Chained test_hash 0 zero_hash played.events
verify_all_iff_example = verify_all_iff test_hash played

run-Extends_example :
    (added : List Event) × ((run test_hash history played).events ≡ played.events ++ added)
run-Extends_example = run-Extends test_hash history played
