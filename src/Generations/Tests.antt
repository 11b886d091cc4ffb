-- ===== src/Generations/Tests.antt =====
-- Runs of `GenerationStore` of src/simplicio_fast/generation_store.py, and its theorems at concrete
-- inputs.
use text.Mathlib.TextEquality.{eq_iff}
use simplicio_fast.Prelude.{
  String, if◌then◌else◌, ◌&&◌, ◌==◌, some, ◌≡◌, refl, true, false, some, [], ◌∷◌, arith, ok, err,
  strings_equate, pairs_equate,
}
use simplicio_fast.Prelude.Dict.{lookup}
use simplicio_fast.Prelude.Sorting.{sort_by}
use simplicio_fast.Prelude.TestHash.{test_hash}
use simplicio_fast.Prelude.Json.Encode.{canonical}
use simplicio_fast.Generations.{
  fence_stale, key_error, Files, Store, init, Generation, key, candidate, pin, write, read, gc,
  escapes, generation_id,
}
use simplicio_fast.Generations.Reads.{write-read}
use simplicio_fast.Generations.Fences.{creates, pins, collects, run, run-pin}
use simplicio_fast.Generations.Collect.{gc-read, gc-over}

abbrev base : Files
base = ("a.py", 1 ∷ []) ∷ ("b.py", 2 ∷ []) ∷ []

abbrev a_path : String
a_path = "a.py"

abbrev g1 : Generation
g1 = candidate test_hash "repo" "c1" "cfg" "p1" base

abbrev opened : Store
opened = run test_hash (creates "repo" "c1" "cfg" "p1" base ∷ pins 10 g1.id "1" "f" 60 ∷ []) init

escape_tests :
    (escapes "/etc" ≡ true)
    × (escapes "a/../b" ≡ true)
    × (escapes ".." ≡ true)
    × (escapes "a/..b" ≡ false)
    × (escapes "a.py" ≡ false)
unfolding escapes
escape_tests = (refl, refl, refl, refl, refl)

-- The pin is over after its time to live, and a collection then takes the generation.
collected : (gc 69 true opened).0 ≡ []
unfolding run gc canonical test_hash sort_by generation_id
collected = refl

collected_later : (gc 71 true opened).0 ≡ g1.id ∷ []
unfolding run gc canonical test_hash sort_by generation_id
collected_later = refl

-- The theorems at inputs where their hypotheses hold.
abbrev edited : Store
edited = (write 11 g1.id "s1" "f" "a.py" (some (9 ∷ [])) opened).1

write-read_example : read g1.id "s2" "f" "a.py" edited ≡ (
    if key g1.id "s1" "f" == key g1.id "s2" "f" && a_path == a_path
    then ok (some (9 ∷ []))
    else read g1.id "s2" "f" "a.py" opened)
unfolding run write canonical test_hash generation_id
write-read_example =
    write-read 11 g1.id "s1" "f" "a.py" (some (9 ∷ [])) opened edited g1 g1.id "s2" "f" "a.py" refl
      refl

run-pin_example :
    (lookup
        (g1.id, "1")
        (run test_hash (collects 20 false ∷ pins 21 g1.id "1" "old" 5 ∷ []) opened).fences
      ≡ some "f")
    × (pin 22 g1.id "1" "old" 60
          (run test_hash (collects 20 false ∷ pins 21 g1.id "1" "old" 5 ∷ []) opened)
        ≡ (
          err fence_stale,
          run test_hash (collects 20 false ∷ pins 21 g1.id "1" "old" 5 ∷ []) opened,
        ))
unfolding run canonical test_hash generation_id sort_by
run-pin_example =
    run-pin test_hash (collects 20 false ∷ pins 21 g1.id "1" "old" 5 ∷ []) opened g1.id "1" "f"
      "old" 22 60 (ground (arith, eq_iff "f" "")) (ground (arith, eq_iff "f" "old")) refl

gc-read_example :
    read g1.id "s1" "f" "a.py" (gc 20 false edited).1 ≡ read g1.id "s1" "f" "a.py" edited
unfolding run write canonical test_hash generation_id
gc-read_example = gc-read 20 g1.id "s1" "f" "a.py" "1" "f" 70 edited refl (ground arith)

gc-over_example : read g1.id "s1" "f" "a.py" (gc 80 false edited).1 ≡ err key_error
unfolding run write canonical test_hash generation_id
gc-over_example = gc-over 80 g1.id "s1" "f" "a.py" edited (λ e. ground arith, tt)
