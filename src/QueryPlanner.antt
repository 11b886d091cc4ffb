-- ===== src/QueryPlanner.antt =====
-- src/simplicio_fast/query_planner.py: `plan_query` over a validated snapshot. A snapshot is what the planner
-- reads of it. `casefold` is `str.casefold`, and a relation's confidence is its place in the order
-- of the confidences.
mod PlanCache
pub mod Transparency
pub mod Capacity
mod Tests
unfoldable pub use PlanCache.*
use simplicio_fast.Prelude.{
  ℕ, zero, suc, ◌+◌, ◌*◌, String, Bool, true, false, not, ◌&&◌, ◌||◌, Option, none, some, List, [],
  ◌∷◌, ◌++◌, map, Result, ok, err, ◌>>=◌, ◌>>◌, raise_if, ltb, leb, nat_beq, if◌then◌else◌, ◌==◌,
  strings_equate, numbers_equate, length, take, keep, all, contains, get_elem?,
}
use simplicio_fast.Prelude.Dict.{Dict, lookup}
use simplicio_fast.Prelude.Int.{pos}
use simplicio_fast.Prelude.Sorting.{members, str_ltb}
use simplicio_fast.Prelude.Json.{Json, bool, num, str, obj, end, field, opt_str, codes}
use simplicio_fast.Prelude.Json.Encode.{canonical}

pub record Relation : Type 0 where
  pub origin : String
  pub destination : String
  pub confidence : ℕ

pub record Indexes : Type 0 where
  pub exact : Dict String (List ℕ)
  pub names : Dict String (List ℕ)
  pub paths : Dict String (List ℕ)
  pub kinds : Dict String (List ℕ)

pub record Snapshot : Type 0 where
  pub generation : String
  pub format_version : ℕ
  pub symbol_count : ℕ
  pub relation_count : ℕ
  pub symbols : List String
  pub relations : List Relation
  pub indexes : Indexes

pub record Request : Type 0 where
  pub term : String
  pub operation : String
  pub prefix : Bool
  pub path : Option String
  pub kind : Option String
  pub max_results : ℕ
  pub max_bytes : ℕ
  pub max_tokens : ℕ

abbrev pub operations : List String
operations = "query" ∷ "search" ∷ "context" ∷ "impact" ∷ []

-- the size of a `SYMBOL_RECORD`
abbrev pub symbol_record_size : ℕ
symbol_record_size = 72

unfoldable pub check_request : Request → Result Error Unit
check_request r = do
  raise_if (not (contains r.operation operations)) operation_unsupported
  raise_if (ltb r.max_results 1 || ltb r.max_bytes 1 || ltb r.max_tokens 1) budget_invalid

-- `name.startswith(term)` and `term in name`, on code points
abbrev pub starts_with : List ℕ → List ℕ → Bool
starts_with [] name = true
starts_with (c ∷ cs) [] = false
starts_with (c ∷ cs) (d ∷ ds) = nat_beq c d && starts_with cs ds

abbrev pub occurs_in : List ℕ → List ℕ → Bool
occurs_in term [] = starts_with term []
occurs_in term (d ∷ ds) = starts_with term (d ∷ ds) || occurs_in term ds

-- the indices of the names that pass a test
abbrev pub indices_of : (String → Bool) → Dict String (List ℕ) → List ℕ
indices_of test [] = []
indices_of test ((name, values) ∷ d) =
    let rest = indices_of test d in if test name then values ++ rest else rest

abbrev pub get_or_empty : String → Dict String (List ℕ) → List ℕ
get_or_empty k d = elim (lookup k d) [ none ↦ [] | some values ↦ values ]

-- `sorted` of a set of numbers
abbrev pub insert_number : ℕ → List ℕ → List ℕ
insert_number n [] = n ∷ []
insert_number n (m ∷ ms) = if leb n m then n ∷ m ∷ ms else m ∷ insert_number n ms

abbrev pub sort_numbers : List ℕ → List ℕ
sort_numbers [] = []
sort_numbers (n ∷ ns) = insert_number n (sort_numbers ns)

-- `_intersection`
unfoldable pub intersection : List (List ℕ) → List ℕ
intersection [] = []
intersection (values ∷ others) = sort_numbers (members (keep (λ n. all (contains n) others) values))

-- the names of the symbols at some indices
abbrev pub origins_of : List String → List ℕ → List String
origins_of symbols [] = []
origins_of symbols (i ∷ is) = elim (get_elem? symbols i) [
  | none ↦ origins_of symbols is
  | some name ↦ name ∷ origins_of symbols is
]

-- the order of the key `(-confidence, destination)`
abbrev pub ranks_before : Relation → Relation → Bool
ranks_before a b =
    ltb b.confidence a.confidence
    || (nat_beq a.confidence b.confidence && str_ltb a.destination b.destination)

abbrev pub insert_ranked : Relation → List Relation → List Relation
insert_ranked x [] = x ∷ []
insert_ranked x (y ∷ ys) = if ranks_before y x then y ∷ insert_ranked x ys else x ∷ y ∷ ys

abbrev pub ranked : List Relation → List Relation
ranked [] = []
ranked (x ∷ xs) = insert_ranked x (ranked xs)

-- the loop that takes the first destinations that it has not seen
abbrev pub take_distinct : ℕ → List String → List Relation → List String
take_distinct zero seen rs = []
take_distinct (suc n) seen [] = []
take_distinct (suc n) seen (r ∷ rs) =
    let new = r.destination ∷ take_distinct n (r.destination ∷ seen) rs in
    let old = take_distinct (suc n) seen rs in if contains r.destination seen then old else new

-- `_causal_prefetch`
unfoldable pub causal_prefetch : Snapshot → List ℕ → ℕ → List String
causal_prefetch s [] max = []
causal_prefetch s (i ∷ is) max =
    let origins = origins_of s.symbols (i ∷ is) in
    take_distinct max []
      (ranked (keep (λ r. contains r.origin origins && not (r.destination == "")) s.relations))

-- the index that the planner takes, the candidates' indices, their number and the reason
pub record Selection : Type 0 where
  pub selected : String
  pub candidates : List ℕ
  pub records : ℕ
  pub reason : String

abbrev pub scanning : String → ℕ → String → Selection
scanning selected records reason = record {
  selected = selected;
  candidates = [];
  records = records;
  reason = reason;
}

abbrev pub path_filter : Option String → Dict String (List ℕ) → List (List ℕ)
path_filter none d = []
path_filter (some p) d = get_or_empty p d ∷ []

abbrev pub is_some : Option String → Bool
is_some none = false
is_some (some p) = true

abbrev pub is_list : Option (List ℕ) → Bool
is_list (some (i ∷ is)) = true
is_list _ = false

abbrev pub append_text : String → String → String
append_text String.[] t = t
append_text (String.◌∷◌ c s) t = String.◌∷◌ c (append_text s t)

-- `selected += mark` where the filter is asked for
abbrev pub marked : Bool → String → String → String
marked true mark selected = append_text selected mark
marked false mark selected = selected

module _ (sha256 : List ℕ → String) (casefold : String → String) where
  -- `_request_digest`
  unfoldable pub request_digest : Request → String
  request_digest r = sha256 (
      canonical false (
        obj (
          field "schema" (str plan_schema) (
            field "term" (str r.term) (
              field "operation" (str r.operation) (
                field "prefix" (bool r.prefix) (
                  field "path" (opt_str r.path) (
                    field "kind" (opt_str r.kind) (
                      field "max_results" (num (pos r.max_results)) (
                        field "max_bytes" (num (pos r.max_bytes))
                          (field "max_tokens" (num (pos r.max_tokens)) end)))))))))))

  -- the filters on the name, with the index and the reason
  abbrev pub name_filters : Request → Indexes → String × List (List ℕ) × String
  name_filters r x =
      let term = codes (casefold r.term) in
      let within = λ (name : String). occurs_in term (codes name) in
      if is_list (lookup (casefold r.term) x.exact) && not r.prefix
      then ("exact", get_or_empty (casefold r.term) x.exact ∷ [], "exact_index_hit")
      else if r.prefix
      then (
        "name-prefix",
        indices_of (λ name. starts_with term (codes name)) x.names ∷ [],
        "prefix_index_scan",
      )
      else (
        "name-substring",
        indices_of within x.names ∷ indices_of within x.exact ∷ [],
        "bounded_name_indexes",
      )

  abbrev pub indexed : Request → Indexes → String × List (List ℕ) × String → Selection
  indexed r x (selected, filters, reason) =
      let found =
        intersection (filters ++ path_filter r.path x.paths ++ path_filter r.kind x.kinds) in
      record {
        selected = marked (is_some r.kind) "+kind" (marked (is_some r.path) "+path" selected);
        candidates = found;
        records = length found;
        reason = reason;
      }

  unfoldable pub select : Snapshot → Request → Selection
  select s r =
      if nat_beq s.format_version 1
      then scanning "legacy-linear-scan"
          (if not (r.operation == "impact") then s.symbol_count else s.relation_count)
          "legacy_snapshot_has_no_direct_indexes"
      else if r.operation == "impact"
      then scanning "relation-scan" s.relation_count "impact_requires_typed_relation_filter"
      else indexed r s.indexes (name_filters r s.indexes)

  abbrev pub smaller : ℕ → ℕ → ℕ
  smaller a b = if ltb b a then b else a

  unfoldable pub plan_of : Snapshot → Request → Selection → QueryPlan
  plan_of s r chosen = record {
    schema = plan_schema;
    generation = s.generation;
    operation = r.operation;
    term = r.term;
    selected_index = chosen.selected;
    candidate_records = chosen.records;
    estimated_bytes = smaller r.max_bytes (chosen.records * symbol_record_size);
    max_results = r.max_results;
    max_bytes = r.max_bytes;
    max_tokens = r.max_tokens;
    prefetch =
        if r.operation == "impact"
        then []
        else causal_prefetch s chosen.candidates (smaller r.max_results 8);
    reason = chosen.reason;
    request_digest = request_digest r;
  }

  -- what `plan_query` does with a cache after it has looked there
  abbrev pub answered :
      Snapshot → Request → Option QueryPlan × QueryPlanCache → QueryPlan × QueryPlanCache
  answered s r (some plan, c) = (plan, c)
  answered s r (none, c) = put (plan_of s r (select s r)) c

  abbrev pub kept : QueryPlan × QueryPlanCache → Result Error QueryPlan × Option QueryPlanCache
  kept (plan, c) = (ok plan, some c)

  abbrev pub planned :
      Snapshot → Request → Option QueryPlanCache → Result Error QueryPlan × Option QueryPlanCache
  planned s r none = (ok (plan_of s r (select s r)), none)
  planned s r (some c) = kept (answered s r (get s.generation (request_digest r) c))

  unfoldable pub plan_query :
      Snapshot → Request → Option QueryPlanCache → Result Error QueryPlan × Option QueryPlanCache
  plan_query s r cache = elim (check_request r) [
    | err e ↦ (err e, cache)
    | ok _ ↦ planned s r cache
  ]
