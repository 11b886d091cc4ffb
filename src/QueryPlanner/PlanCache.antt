-- ===== src/QueryPlanner/PlanCache.antt =====
-- src/simplicio_fast/query_planner.py: `QueryPlan` and `QueryPlanCache`. The entries are an `OrderedDict`, the
-- least recently used one first.
use simplicio_fast.Prelude.{
  ℕ, suc, ◌+◌, String, Option, none, some, List, [], ◌∷◌, ◌++◌, Result, ok, err, ltb, if◌then◌else◌,
  ◌==◌, strings_equate, pairs_equate,
}
use simplicio_fast.Prelude.Dict.{Dict, lookup, erase, count}

abbrev pub plan_schema : String
plan_schema = "simplicio.fast.query-plan/v1"

pub record QueryPlan : Type 0 where
  pub schema : String
  pub generation : String
  pub operation : String
  pub term : String
  pub selected_index : String
  pub candidate_records : ℕ
  pub estimated_bytes : ℕ
  pub max_results : ℕ
  pub max_bytes : ℕ
  pub max_tokens : ℕ
  pub prefetch : List String
  pub reason : String
  pub request_digest : String

pub data Error : Type 0 where
  capacity_invalid : Error
  operation_unsupported : Error
  budget_invalid : Error

abbrev pub Key : Type 0
Key = String × String

abbrev pub key_of : QueryPlan → Key
key_of plan = (plan.generation, plan.request_digest)

pub record QueryPlanCache : Type 0 where
  pub max_entries : ℕ
  pub entries : Dict Key QueryPlan
  pub hits : ℕ
  pub misses : ℕ

unfoldable pub new_cache : ℕ → Result Error QueryPlanCache
new_cache max =
    if ltb max 1
    then err capacity_invalid
    else ok (record { max_entries = max; entries = []; hits = 0; misses = 0 })

-- `entries[key] = plan` and then `entries.move_to_end(key)`
abbrev pub to_end : Key → QueryPlan → Dict Key QueryPlan → Dict Key QueryPlan
to_end k plan d = erase k d ++ (k, plan) ∷ []

abbrev pub found : Key → QueryPlanCache → Option QueryPlan → Option QueryPlan × QueryPlanCache
found k c none = (none, record c { misses = suc c.misses })
found k c (some plan) =
    (some plan, record c { hits = suc c.hits; entries = to_end k plan c.entries })

unfoldable pub get : String → String → QueryPlanCache → Option QueryPlan × QueryPlanCache
get generation digest c = found (generation, digest) c (lookup (generation, digest) c.entries)

-- `while len(entries) > max_entries: entries.popitem(last=False)`
unfoldable pub evict : ℕ → Dict Key QueryPlan → Dict Key QueryPlan
evict max [] = []
evict max (e ∷ d) = let rest = evict max d in if ltb max (count (e ∷ d)) then rest else e ∷ d

unfoldable pub put : QueryPlan → QueryPlanCache → QueryPlan × QueryPlanCache
put plan c =
    (plan, record c { entries = evict c.max_entries (to_end (key_of plan) plan c.entries) })

abbrev pub without : String → Dict Key QueryPlan → Dict Key QueryPlan
without generation [] = []
without generation ((k, plan) ∷ d) =
    let rest = without generation d in if k.0 == generation then rest else (k, plan) ∷ rest

abbrev pub of_generation : String → Dict Key QueryPlan → ℕ
of_generation generation [] = 0
of_generation generation ((k, plan) ∷ d) =
    (if k.0 == generation then 1 else 0) + of_generation generation d

unfoldable pub invalidate_generation : String → QueryPlanCache → ℕ × QueryPlanCache
invalidate_generation generation c =
    (of_generation generation c.entries, record c { entries = without generation c.entries })
