-- ===== src/Rollout/History.antt =====
-- Sequences of transitions of `RolloutController` in src/simplicio_fast/rollout.py, against a fold over
-- the requests.
use simplicio_fast.Prelude.{
  String, ◌≡◌, refl, inl, inr, true, not, Option, none, some, List, [], ◌∷◌, Result, ok, err,
  passed, Result-cases, strings_equate, contains, arith,
}
use simplicio_fast.Prelude.Json.{obj, Fields, end}
use simplicio_fast.Prelude.Json.Equality.{json_get}
use simplicio_fast.Rollout.{
  Error, modes, Receipt, as_dict, File, missing, document, check_request, read, known_mode,
  status_of, receipt_of, transition, rollout_mode_invalid,
}

pub record Request : Type 0 where
  pub mode : String
  pub generation : Option String
  pub reason : Option String

unfoldable pub run : List Request → File → File
unfolding transition
run [] f = f
run (q ∷ qs) f = run qs (transition q.mode q.generation q.reason f).1

abbrev pub accepted : Result Error Unit → String → Option String → Option String
accepted (ok u) mode previous = some mode
accepted (err e) mode previous = previous

-- the mode of the last request that passes the checks
abbrev pub last_mode : Option String → List Request → Option String
last_mode previous [] = previous
last_mode previous (q ∷ qs) =
    last_mode (accepted (check_request q.mode q.generation q.reason) q.mode previous) qs

-- the receipt that a request should get after the mode `previous`
abbrev pub expected : Request → Option String → Receipt
expected q previous = record {
  mode = q.mode;
  status = status_of q.mode;
  generation = q.generation;
  reason = q.reason;
  previous_mode = previous;
}

-- The file holds the receipt of a transition to this known mode, or is missing.
abbrev Holds : Option String → File → Type 0
Holds none f = f ≡ missing
Holds (some m) f =
    (contains m modes ≡ true) × ((r : Receipt) × (r.mode ≡ m) × (f ≡ document (obj (as_dict r))))

check_request_mode :
    (mode : String) (generation reason : Option String)
    → check_request mode generation reason ≡ ok tt
    → contains mode modes ≡ true
unfolding check_request
check_request_mode mode generation reason h =
    let p = passed (not (contains mode modes)) rollout_mode_invalid _ h in ground (arith, p.0)

-- what the file holds is read back as the previous mode
read-Holds :
    (m : Option String) (f : File)
    → Holds m f
    → (fs : Fields) × (read f ≡ ok fs) × (known_mode (json_get "mode" fs) ≡ m)
unfolding read as_dict json_get
read-Holds none f h = (end, rw h refl, refl)
read-Holds (some m) f (known, (r, named, file)) =
    (as_dict r, rw (file, named, known) refl, rw (named, known) refl)

-- the outcome of a transition, given that of the checks
abbrev pub outcome :
    Request → Option String → File → Result Error Unit → Result Error Receipt × File
outcome q previous f (err e) = (err e, f)
outcome q previous f (ok u) =
    (ok (expected q previous), document (obj (as_dict (expected q previous))))

transition-Holds :
    (q : Request) (m : Option String) (f : File)
    → Holds m f
    → transition q.mode q.generation q.reason f
      ≡ outcome q m f (check_request q.mode q.generation q.reason)
unfolding transition receipt_of
transition-Holds q m f h =
    let (fs, got, known) = read-Holds m f h in
    elim (Result-cases (check_request q.mode q.generation q.reason)) [
      | inr (e, bad) ↦ rw (transition, bad) refl
      | inl (u, good) ↦ rw (transition, good, got, known) refl
    ]

step-Holds :
    (q : Request) (m : Option String) (f : File)
    → Holds m f
    → Holds
        (accepted (check_request q.mode q.generation q.reason) q.mode m)
        (transition q.mode q.generation q.reason f).1
step-Holds q m f h = elim (Result-cases (check_request q.mode q.generation q.reason)) [
  | inr (e, bad) ↦ rw (transition-Holds q m f h, bad) h
  | inl (u, good) ↦
      rw (transition-Holds q m f h, good)
        (check_request_mode q.mode q.generation q.reason good, (expected q m, refl, refl))
]

run-Holds :
    (qs : List Request) (m : Option String) (f : File)
    → Holds m f
    → Holds (last_mode m qs) (run qs f)
unfolding run
run-Holds [] m f h = h
run-Holds (q ∷ qs) m f h =
    run-Holds qs (accepted (check_request q.mode q.generation q.reason) q.mode m)
      (transition q.mode q.generation q.reason f).1 (step-Holds q m f h)

-- Where no state file was there at first and nothing else writes it, a transition after any sequence of
-- transitions fails exactly with what is wrong with its arguments, and then leaves the file alone;
-- otherwise its receipt names as previous mode the mode of the last transition that was accepted, or
-- none, and the file holds the receipt.
pub run-transition :
    (qs : List Request) (q : Request)
    → transition q.mode q.generation q.reason (run qs missing)
      ≡ outcome q (last_mode none qs) (run qs missing) (check_request q.mode q.generation q.reason)
run-transition qs q =
    transition-Holds q (last_mode none qs) (run qs missing) (run-Holds qs none missing refl)
