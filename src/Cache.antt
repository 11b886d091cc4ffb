-- ===== src/Cache.antt =====
-- src/simplicio_fast/content_cache.py: `ContentCache`. A call of `get` and its task run in turns between
-- their awaits, and each turn is a step: `get` up to its first await, `store` at the end of the task's
-- computation, and `land` at the end of the call that started it, which also follows a failed task.
pub mod Steps
mod Tests
use simplicio_fast.Prelude.{
  ℕ, suc, ◌+◌, String, Bool, true, false, Option, none, some, List, [], ◌∷◌, Result, ok, err, ◌==◌,
  strings_equate, if◌then◌else◌, length, any, contains,
}
use simplicio_fast.Prelude.Dict.{Dict, lookup, insert, erase}
use simplicio_fast.Prelude.Sorting.{sort_by}

pub data Error : Type 0 where
  cache_corrupt : Error

-- the counters of `metrics`
pub record Metrics : Type 0 where
  pub hit : ℕ
  pub coalesced : ℕ
  pub miss : ℕ
  pub stale : ℕ

-- `flights` has the dependencies of the running task of a key.
pub record Cache : Type 0 where
  pub values : Dict String (List ℕ × String)
  pub deps : Dict String (List String)
  pub flights : Dict String (List String)
  pub metrics : Metrics

abbrev pub init : Cache
init = record {
  values = [];
  deps = [];
  flights = [];
  metrics = record { hit = 0; coalesced = 0; miss = 0; stale = 0 };
}

-- what a `get` does up to its first await: it returns, waits for a task, or starts one
pub data Answer : Type 0 where
  returns : List ℕ → Answer
  joins : Answer
  starts : Answer

-- `k in self.flights`, or else a new task
abbrev pub fly : String → List String → Option (List String) → Cache → Answer × Cache
fly k deps (some running) c =
    (joins, record c { metrics = record c.metrics { coalesced = suc c.metrics.coalesced } })
fly k deps none c = (starts, record c { flights = insert k deps c.flights })

-- `self.deps` without the doomed keys, or `self.values`
abbrev pub drop_all : {V : Type 0} → List String → Dict String V → Dict String V
drop_all [] d = d
drop_all (k ∷ ks) d = drop_all ks (erase k d)

abbrev pub intersects : List String → List String → Bool
intersects changed deps = any (λ x. contains x changed) deps

abbrev pub doomed : List String → Dict String (List String) → List String
doomed changed [] = []
doomed changed ((k, deps) ∷ d) =
    if intersects changed deps then k ∷ doomed changed d else doomed changed d

unfoldable pub invalidate : List String → Cache → List String × Cache
invalidate changed c =
    let gone = doomed changed c.deps in
    (
      sort_by (λ k. k) gone,
      record c {
        values = drop_all gone c.values;
        deps = drop_all gone c.deps;
        metrics = record c.metrics { stale = c.metrics.stale + length gone };
      },
    )

-- the `finally` of the call that started the task
unfoldable pub land : String → Cache → Cache
land k c = record c { flights = erase k c.flights }

module _ (sha256 : List ℕ → String) where
  abbrev pub hit : List ℕ × String → Cache → Result Error Answer × Cache
  hit (value, digest) c =
      if sha256 value == digest
      then (ok (returns value), record c { metrics = record c.metrics { hit = suc c.metrics.hit } })
      else (err cache_corrupt, c)

  abbrev miss : Answer × Cache → Result Error Answer × Cache
  miss (a, c) = (ok a, c)

  unfoldable pub get : String → List String → Cache → Result Error Answer × Cache
  get k deps c = elim (lookup k c.values) [
    | some entry ↦ hit entry c
    | none ↦ miss (fly k deps (lookup k c.flights) c)
  ]

  abbrev pub stored : String → List ℕ → List String → Cache → Cache
  stored k value deps c = record c {
    values = insert k (value, sha256 value) c.values;
    deps = insert k deps c.deps;
    metrics = record c.metrics { miss = suc c.metrics.miss };
  }

  -- the end of the task of a key, where one runs
  unfoldable pub store : String → List ℕ → Cache → Cache
  store k value c = elim (lookup k c.flights) [ none ↦ c | some deps ↦ stored k value deps c ]
