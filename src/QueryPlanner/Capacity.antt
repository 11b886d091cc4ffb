-- ===== src/QueryPlanner/Capacity.antt =====
-- The size of the plan cache of src/simplicio_fast/query_planner.py, and what its counters count.
use simplicio_fast.Prelude.{
  ℕ, suc, ◌+◌, ◌≤◌, String, ◌≡◌, refl, ap, inl, inr, Option-cases, some, List, [], ◌∷◌, ◌++◌, arith,
  Result, ok, err, Result-cases, strings_equate, pairs_equate,
}
use simplicio_fast.Prelude.Dict.{Dict, lookup, erase, count}
use simplicio_fast.QueryPlanner.{
  Error, QueryPlan, Key, QueryPlanCache, key_of, to_end, get, evict, put, without,
  invalidate_generation, Snapshot, Request, check_request, request_digest, plan_of, select,
  answered, plan_query, new_cache,
}
use simplicio_fast.QueryPlanner.Transparency.{Action, ask, forget, run}

abbrev pub counting : Result Error Unit → ℕ → ℕ
counting (ok _) n = suc n
counting (err _) n = n

-- the questions whose arguments pass the checks
abbrev pub valid_questions : List Action → ℕ
valid_questions [] = 0
valid_questions (ask s r ∷ acts) = counting (check_request r) (valid_questions acts)
valid_questions (forget g ∷ acts) = valid_questions acts

count-evict : (max : ℕ) (d : Dict Key QueryPlan) → count (evict max d) ≤ max
unfolding evict
count-evict max [] = omega arith
count-evict max (e ∷ d) = ground (arith, count-evict max d)

count-without : (g : String) (d : Dict Key QueryPlan) → count (without g d) ≤ count d
count-without g [] = omega arith
count-without g ((k, plan) ∷ d) = ground (arith, count-without g d)

count-erase : (k : Key) (d : Dict Key QueryPlan) → count (erase k d) ≤ count d
count-erase k [] = omega arith
count-erase k ((j, plan) ∷ d) = ground (arith, count-erase k d)

count-erase_found :
    (k : Key) (old : QueryPlan) (d : Dict Key QueryPlan)
    → lookup k d ≡ some old
    → suc (count (erase k d)) ≤ count d
count-erase_found k old [] h = cc
count-erase_found k old ((j, p) ∷ d) h = ground (arith, count-erase k d, count-erase_found k old d)

count_snoc : (d : Dict Key QueryPlan) (e : Key × QueryPlan) → count (d ++ e ∷ []) ≡ suc (count d)
count_snoc [] e = refl
count_snoc ((k, p) ∷ d) e = ap suc (count_snoc d e)

-- what holds of a cache of a capacity after a number of questions
record IsBounded (max asked : ℕ) (c : QueryPlanCache) : Type 0 where
  capacity : c.max_entries ≡ max
  fits : count c.entries ≤ max
  counted : c.hits + c.misses ≡ asked

module _ (sha256 : List ℕ → String) (casefold : String → String) where
  ask-IsBounded :
      (s : Snapshot) (r : Request) (max n : ℕ) (c : QueryPlanCache)
      → IsBounded max n c
      → IsBounded max
          (suc n)
          (answered sha256 casefold s r (get s.generation (request_digest sha256 casefold r) c)).1
  unfolding get put
  ask-IsBounded s r max n c b =
      let k : Key = (s.generation, request_digest sha256 casefold r) in
      let plan = plan_of sha256 casefold s r (select sha256 casefold s r) in
      elim (Option-cases (lookup k c.entries)) [
        | inl miss ↦
            rw (get, miss)
              (record {
                capacity = b.capacity;
                fits = rw b.capacity (count-evict max (to_end (key_of plan) plan c.entries));
                counted = omega (arith, b.counted);
              })
        | inr (old, hit) ↦
            rw (get, hit)
              (record {
                capacity = b.capacity;
                fits = omega (
                  arith,
                  b.fits,
                  count_snoc (erase k c.entries) (k, old),
                  count-erase_found k old c.entries hit,
                );
                counted = omega (arith, b.counted);
              })
      ]

  run-IsBounded :
      (acts : List Action) (max n : ℕ) (c : QueryPlanCache)
      → IsBounded max n c
      → (c' : QueryPlanCache) × ((run sha256 casefold acts (some c)).1 ≡ some c')
        × IsBounded max (n + valid_questions acts) c'
  unfolding run plan_query invalidate_generation
  run-IsBounded [] max n c b =
      (c, refl, record { capacity = b.capacity; fits = b.fits; counted = omega (arith, b.counted) })
  run-IsBounded (forget g ∷ acts) max n c b =
      run-IsBounded acts max n (invalidate_generation g c).1 (record {
        capacity = b.capacity;
        fits = omega (arith, b.fits, count-without g c.entries);
        counted = b.counted;
      })
  run-IsBounded (ask s r ∷ acts) max n c b = elim (Result-cases (check_request r)) [
    | inr (e, bad) ↦
        let same : valid_questions (ask s r ∷ acts) ≡ valid_questions acts = rw bad refl in
        rw (run, plan_query, same, bad) (run-IsBounded acts max n c b)
    | inl (u, good) ↦
        let after =
          (answered sha256 casefold s r
            (get s.generation (request_digest sha256 casefold r) c)).1 in
        let (last, ends, b') = run-IsBounded acts max (suc n) after (ask-IsBounded s r max n c b) in
        let more : valid_questions (ask s r ∷ acts) ≡ suc (valid_questions acts) = rw good refl in
        rw (run, plan_query, more, good)
          (
            last,
            ends,
            record { capacity = b'.capacity; fits = b'.fits; counted = omega (arith, b'.counted) },
          )
  ]

-- After any sequence of calls of `plan_query` and `invalidate_generation` on a new cache, the cache holds
-- no more plans than its capacity, which stays what it was, and its hits and misses add up to the
-- questions whose arguments passed the checks.
pub run_within_capacity :
    (sha256 : List ℕ → String) (casefold : String → String) (acts : List Action) (max : ℕ)
    (c : QueryPlanCache)
    → new_cache max ≡ ok c
    → (last : QueryPlanCache) × ((run sha256 casefold acts (some c)).1 ≡ some last)
      × (last.max_entries ≡ max)
      × (count last.entries ≤ last.max_entries)
      × (last.hits + last.misses ≡ valid_questions acts)
unfolding new_cache
run_within_capacity sha256 casefold acts max c h =
    let start : IsBounded max 0 c = ground arith in
    let (last, ends, b) = run-IsBounded sha256 casefold acts max 0 c start in
    (last, ends, b.capacity, rw b.capacity b.fits, omega (arith, b.counted))
