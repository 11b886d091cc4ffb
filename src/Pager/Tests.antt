-- ===== src/Pager/Tests.antt =====
-- Runs of the pager of src/simplicio_fast/pager.py, and its theorems at concrete inputs.
use simplicio_fast.Prelude.{
  ℕ, ◌≤◌, String, ◌≡◌, refl, true, false, none, some, List, [], ◌∷◌, arith, numbers_equate,
  strings_equate, pairs_equate, options_equate, ok,
}
use simplicio_fast.Prelude.Dict.{sum, count, lookup}
use simplicio_fast.Pager.{
  PageKey, key_eq, Page, Pager, init, check_key, over, unleased, earlier, min_page, drop_victim,
  evict_loop, evict, mismatched, cold, enter, loads, store, end_flight, finish, get, find_page,
  stored, admit_loaded, complete, enters, finishes, pins, run, evict_round,
}
use simplicio_fast.Prelude.TestHash.{test_hash}
use simplicio_fast.Pager.Inv.{size, Inv}
use simplicio_fast.Pager.Eviction.{evict-leased}
use simplicio_fast.Pager.Lru.{evict-oldest}
use simplicio_fast.Pager.Budget.{run_within_budget}

abbrev key_of : String → PageKey
key_of segment = record {
  repository = "repo";
  generation = "g1";
  overlay = none;
  segment = segment;
  logical_range = "0-1";
  schema_name = "simplicio.fast.semantic-pager/v1";
}

abbrev empty : Pager
empty = record {
  repository = "repo";
  generation = "g1";
  max_bytes = 10;
  max_pages = 2;
  pages = [];
  flights = [];
  clock = 0;
  bytes = 0;
  metrics = record {
    hits = 0;
    misses = 0;
    waits = 0;
    evictions = 0;
    invalidations = 0;
    bytes_mapped = 0;
    bytes_touched = 0;
    bytes_copied = 0;
    prefetch_useful = 0;
    prefetch_wasted = 0;
  };
}

init-empty : init "repo" "g1" 10 2 ≡ ok empty
unfolding init
init-empty = refl

abbrev page_of : String → List ℕ → ℕ → ℕ → Page
page_of segment content touched held = record {
  key = key_of segment;
  content = content;
  digest = "d";
  last_touch = touched;
  leases = held;
  invalidated = false;
}

-- page `a` is leased, `b` is the older of the others
abbrev full : Pager
full = record empty {
  pages = (key_of "a", page_of "a" (1 ∷ 2 ∷ []) 1 1) ∷ (key_of "b", page_of "b" (3 ∷ []) 2 0) ∷ [];
  clock = 2;
  bytes = 3;
}

full-Inv : Inv full
full-Inv = record {
  distinct = (refl, (refl, tt));
  keyed = (refl, (refl, tt));
  counted = omega arith;
  within_bytes = omega arith;
  within_pages = omega arith;
}

-- The table is full: the load of `c` drops `b`, the only page that nobody leases.
load_drops : (get test_hash (key_of "c") (some (loads (4 ∷ 5 ∷ []))) none true full).1.bytes ≡ 4
unfolding get complete finish enter check_key find_page cold admit_loaded mismatched stored evict
    evict_loop evict_round over unleased min_page drop_victim store end_flight
load_drops = refl

run_within_budget_example :
    let s' =
      run test_hash
        (enters (key_of "a") true none
          ∷ finishes (key_of "a") (loads (1 ∷ [])) none true
          ∷ pins (key_of "a")
          ∷ [])
        empty in
    (sum size s'.pages ≤ s'.bytes) × (s'.bytes ≤ 10) × (count s'.pages ≤ 2)
run_within_budget_example =
    run_within_budget test_hash "repo" "g1" 10 2 {s = empty}
      (enters (key_of "a") true none
        ∷ finishes (key_of "a") (loads (1 ∷ [])) none true
        ∷ pins (key_of "a")
        ∷ [])
      init-empty

evict-leased_example :
    lookup (key_of "a") (evict 2 true full).1.pages ≡ some (page_of "a" (1 ∷ 2 ∷ []) 1 1)
evict-leased_example =
    evict-leased 2 true full (key_of "a") {p = page_of "a" (1 ∷ 2 ∷ []) 1 1} full-Inv refl
      (omega arith)

abbrev unheld : Pager
unheld = record full {
  pages = (key_of "a", page_of "a" (1 ∷ 2 ∷ []) 1 0) ∷ (key_of "b", page_of "b" (3 ∷ []) 2 0) ∷ [];
}

unheld-Inv : Inv unheld
unheld-Inv = record {
  distinct = (refl, (refl, tt));
  keyed = (refl, (refl, tt));
  counted = omega arith;
  within_bytes = omega arith;
  within_pages = omega arith;
}

evict_a_gone : lookup (key_of "a") (evict 2 true unheld).1.pages ≡ none
unfolding evict evict_loop evict_round over unleased min_page earlier drop_victim
evict_a_gone = refl

evict_b_there : lookup (key_of "b") (evict 2 true unheld).1.pages ≡ some (page_of "b" (3 ∷ []) 2 0)
unfolding evict evict_loop evict_round over unleased min_page earlier drop_victim
evict_b_there = refl

evict-oldest_example : 1 ≤ (page_of "b" (3 ∷ []) 2 0).last_touch
evict-oldest_example =
    evict-oldest 2 true unheld (key_of "a") (key_of "b") {p = page_of "a" (1 ∷ 2 ∷ []) 1 0}
      {q = page_of "b" (3 ∷ []) 2 0} unheld-Inv refl refl evict_a_gone evict_b_there

abbrev stale_page : Page
stale_page = record (page_of "a" (1 ∷ 2 ∷ []) 1 1) { invalidated = true }

abbrev stale : Pager
stale = record empty { pages = (key_of "a", stale_page) ∷ []; clock = 1; bytes = 2 }
