-- ===== src/Validation/Tests.antt =====
-- Caches of src/simplicio_fast/validation_cache.py, and the theorems at concrete inputs.
use simplicio_fast.Prelude.{
  ℕ, String, ◌≡◌, refl, inl, true, false, none, some, List, [], ◌∷◌, ok, ltb, length, if◌then◌else◌,
  strings_equate, contains, Option, ◌==◌, numbers_equate,
}
use simplicio_fast.Prelude.Dict.{lookup}
use simplicio_fast.Prelude.Int.{pos}
use simplicio_fast.Prelude.Json.{Json, str}
use simplicio_fast.Prelude.Json.Encode.{canonical}
use simplicio_fast.Prelude.Sorting.{sort_by}
use simplicio_fast.Validation.{
  ValidationKey, ValidationResult, ValidationCache, Put, new_cache, put, acquire_lease,
  release_lease, plain, partial, gc, get, key_dict, digest, make_result, check_put, key_digest_of,
  is_nil,
}
use simplicio_fast.Validation.Leases.{
  Call, put_call, acquire_call, release_call, gc_call, step, run,
}
use simplicio_fast.Validation.Pinned.{run-gc}
use simplicio_fast.Validation.Reuse.{run-get_reuse}
use simplicio_fast.Prelude.Bytes.{lists_equate}
use simplicio_fast.Validation.Files.{save, load, document_of}
use simplicio_fast.Validation.Saving.{load-save}
use simplicio_fast.Validation.Selection.{affected, is_wanted, affected-contains}
use simplicio_fast.Validation.Conflicts.{put-again}

abbrev unit_tests : ValidationKey
unit_tests = record {
  source_merkle = "m1";
  lockfiles_digest = "l1";
  toolchain = "py";
  command = "pytest" ∷ [];
  environment = ("B", "2") ∷ ("A", "1") ∷ [];
  platform = "linux";
  config_digest = "";
  fixture_digest = "";
  generation = "g1";
  producer_schema = "v1";
  freshness_class = "normal";
}

abbrev green : Put
green = record {
  status = "pass";
  result = str "green";
  command = none;
  fresh = true;
  evidence = [];
  verified = true;
  provenance = "ci" ∷ [];
}

abbrev red : Put
red = record green { status = "fail"; result = str "red" }

abbrev calls : List Call
calls =
    put_call unit_tests green
    ∷ acquire_call unit_tests "job"
    ∷ gc_call [] (pos 8) false
    ∷ release_call unit_tests "other"
    ∷ []

-- a hash that tells short texts from long ones
abbrev short_hash : List ℕ → String
short_hash bs = if ltb (length bs) 6 then "short" else "long"

abbrev kd : String
kd = "sha256:long"

abbrev green_entry : ValidationResult
green_entry = plain unit_tests green kd "sha256:long" ("pytest" ∷ [])

abbrev red_entry : ValidationResult
red_entry = plain unit_tests red kd "sha256:short" ("pytest" ∷ [])

abbrev mixed_entry : ValidationResult
mixed_entry = partial unit_tests red kd "sha256:short" ("pytest" ∷ []) (some green_entry)

abbrev played : ValidationCache
played = run short_hash calls new_cache

abbrev once : ValidationCache
once = (put short_hash unit_tests red played).1

run-gc_example :
    (r : ValidationResult) × (lookup kd played.entries ≡ some r)
    × (lookup kd (gc short_hash [] (pos 8) false played).1.entries ≡ some r)
unfolding run step put check_put acquire_lease release_lease gc key_dict digest make_result
    canonical sort_by
run-gc_example = run-gc short_hash calls [] (pos 8) false kd (inl refl)

run-get_reuse_example :
    (key_digest_of short_hash unit_tests ≡ ok kd)
    × (green_entry.verified ≡ true)
    × (is_nil green_entry.provenance ≡ false)
    × (green_entry.fresh ≡ true)
    × (green_entry.nondeterministic ≡ false)
unfolding run step put check_put acquire_lease release_lease gc get key_dict digest make_result
    canonical sort_by
run-get_reuse_example = run-get_reuse short_hash calls unit_tests true true green_entry refl

put-again_example :
    (get short_hash unit_tests false false true once ≡ ok none)
    × (red_entry.nondeterministic ≡ false)
    × (get short_hash unit_tests false false true (put short_hash unit_tests red once).1
        ≡ ok (some red_entry))
unfolding run step put check_put acquire_lease release_lease gc get key_dict digest make_result
    canonical sort_by
put-again_example =
    put-again short_hash unit_tests red played mixed_entry red_entry false false refl refl refl refl
      refl

-- `json.loads` of the file that `played` is saved to
abbrev test_loads : List ℕ → Option Json
test_loads bs =
    if bs == (save short_hash played).1 then some (document_of short_hash played) else none

load-save_example :
    (c : ValidationCache) × (load short_hash test_loads (some (save short_hash played).1) ≡ ok c)
    × ((j : String) → lookup j c.entries ≡ lookup j played.entries)
    × (c.leases ≡ [])
unfolding run step put check_put acquire_lease release_lease gc key_dict digest make_result
    canonical sort_by save
load-save_example = load-save short_hash test_loads calls refl

affected-contains_example :
    contains {A = String} "t2" ("t1" ∷ "t2" ∷ [])
    ≡ is_wanted "t2" ("h1" ∷ []) (("h1", "t2" ∷ "t1" ∷ []) ∷ ("h2", "t3" ∷ []) ∷ [])
unfolding affected sort_by
affected-contains_example =
    affected-contains ("h1" ∷ []) (("h1", "t2" ∷ "t1" ∷ []) ∷ ("h2", "t3" ∷ []) ∷ []) (pos 2)
      (record {
        tests = "t1" ∷ "t2" ∷ [];
        changed_handles = "h1" ∷ [];
        reason_paths = ("h1", "t1" ∷ "t2" ∷ []) ∷ [];
        complete = true;
      })
      "t2" refl refl
