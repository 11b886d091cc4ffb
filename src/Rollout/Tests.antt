-- ===== src/Rollout/Tests.antt =====
-- Transitions of `RolloutController` of src/simplicio_fast/rollout.py, and the theorem at a concrete
-- input.
use simplicio_fast.Prelude.{String, ◌≡◌, refl, none, some, Option, List, [], ◌∷◌, err}
use simplicio_fast.Prelude.Json.{obj, arr, nil, end, field}
use simplicio_fast.Prelude.Json.Equality.{json_get}
use simplicio_fast.Rollout.{type_error, missing, document, check_request, read, transition}
use simplicio_fast.Rollout.History.{Request, run, last_mode, outcome, run-transition}

abbrev request : String → Option String → Request
request mode reason = record { mode = mode; generation = some "g1"; reason = reason }

abbrev history : List Request
history =
    request "shadow" none
    ∷ request "canary" none
    ∷ request "rollback" none
    ∷ request "off" none
    ∷ []

-- The rejected requests leave no trace.
history_mode : last_mode none history ≡ some "canary"
unfolding check_request
history_mode = refl

-- A stored mode that is a list raises a `TypeError`, not the error of an invalid state.
listed_mode : read (document (obj (field "mode" (arr nil) end))) ≡ err type_error
unfolding read json_get
listed_mode = refl

-- The theorem at an input that runs the code.
run-transition_example :
    transition "integrated" (some "g1") none (run history missing)
    ≡ outcome
        (request "integrated" none)
        (last_mode none history)
        (run history missing)
        (check_request "integrated" (some "g1") none)
run-transition_example = run-transition history (request "integrated" none)
