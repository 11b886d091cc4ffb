-- ===== src/QueryPlanner/Tests.antt =====
-- Plans of src/simplicio_fast/query_planner.py over small snapshots, and the theorems at concrete inputs.
use simplicio_fast.Prelude.{
  String, ◌≡◌, refl, true, Option, none, some, List, [], ◌∷◌, ok, ◌≤◌, ◌+◌,
}
use simplicio_fast.Prelude.Dict.{count}
use simplicio_fast.Prelude.TestHash.{test_hash}
use simplicio_fast.QueryPlanner.{
  Snapshot, Request, QueryPlanCache, new_cache, select, intersection, plan_of, causal_prefetch,
}
use simplicio_fast.QueryPlanner.Transparency.{Action, ask, forget, run, run-transparent}
use simplicio_fast.QueryPlanner.Capacity.{run_within_capacity, valid_questions}

abbrev fold : String → String
fold s = s

abbrev snapshot : Snapshot
snapshot = record {
  generation = "g1";
  format_version = 2;
  symbol_count = 3;
  relation_count = 3;
  symbols = "a.run" ∷ "a.stop" ∷ "b.run" ∷ [];
  relations =
      record { origin = "a.run"; destination = "c"; confidence = 1 }
      ∷ record { origin = "b.run"; destination = "d"; confidence = 2 }
      ∷ record { origin = "a.stop"; destination = "e"; confidence = 3 }
      ∷ [];
  indexes = record {
    exact = ("a.run", 0 ∷ []) ∷ ("a.stop", 1 ∷ []) ∷ ("b.run", 2 ∷ []) ∷ [];
    names = ("run", 2 ∷ 0 ∷ []) ∷ ("stop", 1 ∷ []) ∷ [];
    paths = ("a.py", 0 ∷ 1 ∷ []) ∷ ("b.py", 2 ∷ []) ∷ [];
    kinds = ("function", 0 ∷ 1 ∷ 2 ∷ []) ∷ [];
  };
}

abbrev request : Option String → Request
request path = record {
  term = "run";
  operation = "query";
  prefix = true;
  path = path;
  kind = some "function";
  max_results = 5;
  max_bytes = 100;
  max_tokens = 10;
}

-- A prefix, a path and a kind: their intersection, and what it calls first.
plan_bytes :
    (plan_of test_hash fold snapshot
      (request none)
      (select test_hash fold snapshot (request none))).prefetch
    ≡ "d" ∷ "c" ∷ []
unfolding plan_of select intersection causal_prefetch
plan_bytes = refl

selects : (select test_hash fold snapshot (request (some "a.py"))).candidates ≡ 0 ∷ []
unfolding select intersection
selects = refl

selected_name :
    (select test_hash fold snapshot (request (some "a.py"))).selected ≡ "name-prefix+path+kind"
unfolding select intersection
selected_name = refl

abbrev calls : List Action
calls = ask snapshot (request none) ∷ ask snapshot (request none) ∷ forget "g1" ∷ []

abbrev cache : QueryPlanCache
cache = record { max_entries = 1; entries = []; hits = 0; misses = 0 }

cache_new : new_cache 1 ≡ ok cache
unfolding new_cache
cache_new = refl

run-transparent_example :
    (run test_hash fold calls (some cache)).0 ≡ (run test_hash fold calls none).0
run-transparent_example =
    run-transparent test_hash fold calls 1 cache cache_new
      ((λ e. refl, (λ e. refl, tt)), ((λ e. refl, (λ e. refl, tt)), tt))

run_within_capacity_example :
    (last : QueryPlanCache) × ((run test_hash fold calls (some cache)).1 ≡ some last)
    × (last.max_entries ≡ 1)
    × (count last.entries ≤ last.max_entries)
    × (last.hits + last.misses ≡ valid_questions calls)
run_within_capacity_example = run_within_capacity test_hash fold calls 1 cache cache_new
