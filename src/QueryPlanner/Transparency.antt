-- ===== src/QueryPlanner/Transparency.antt =====
-- Sequences of calls of `plan_query` and `invalidate_generation` of src/simplicio_fast/query_planner.py on one
-- cache, against the planner without a cache.
use simplicio_fast.Prelude.{
  ℕ, String, ◌≡◌, refl, sym, ap, ◌∙◌, ◌⊎◌, inl, inr, Bool-cases, Option-cases, Option, none, some,
  List, [], ◌∷◌, arith, Result, ok, err, Result-cases, ltb, ◌==◌, strings_equate, pairs_equate, All,
  All-append,
}
use mathlib.Core.Path.{subst}
use simplicio_fast.Prelude.Dict.{Dict, lookup, erase, count}
use simplicio_fast.QueryPlanner.{
  Error, QueryPlan, Key, QueryPlanCache, to_end, get, evict, put, without, invalidate_generation,
  Snapshot, Request, check_request, request_digest, plan_of, select, answered, plan_query,
  new_cache,
}

pub data Action : Type 0 where
  ask : Snapshot → Request → Action
  forget : String → Action

-- the questions among the actions
abbrev pub asked : List Action → List (Snapshot × Request)
asked [] = []
asked (ask s r ∷ acts) = (s, r) ∷ asked acts
asked (forget g ∷ acts) = asked acts

abbrev Among : Snapshot × Request → List (Snapshot × Request) → Type 0
Among q [] = ⊥
Among q (x ∷ xs) = (q ≡ x) ⊎ Among q xs

module _ (sha256 : List ℕ → String) (casefold : String → String) where
  -- the key under which the cache keeps the plan of a question
  abbrev pub question_key : Snapshot × Request → Key
  question_key q = (q.0.generation, request_digest sha256 casefold q.1)

  -- no two questions share a key
  abbrev pub NoClash : List (Snapshot × Request) → Type 0
  NoClash qs = All (λ q. All (λ q'. question_key q ≡ question_key q' → q ≡ q') qs) qs

  abbrev fresh_plan : Snapshot × Request → QueryPlan
  fresh_plan q = plan_of sha256 casefold q.0 q.1 (select sha256 casefold q.0 q.1)

  -- the answers of a sequence of calls on one cache, and the cache after them
  unfoldable pub run :
      List Action → Option QueryPlanCache → List (Result Error QueryPlan) × Option QueryPlanCache
  run [] c = ([], c)
  run (ask s r ∷ acts) c =
      let (answer, c') = plan_query sha256 casefold s r c in
      let (answers, last) = run acts c' in (answer ∷ answers, last)
  run (forget g ∷ acts) none = run acts none
  run (forget g ∷ acts) (some c) = run acts (some (invalidate_generation g c).1)

  -- the entry is the plan of one of the questions
  abbrev IsPlanOf : List (Snapshot × Request) → Key × QueryPlan → Type 0
  IsPlanOf qs (k, plan) =
      (q : Snapshot × Request) × Among q qs × (k ≡ question_key q) × (plan ≡ fresh_plan q)

  abbrev Faithful : List (Snapshot × Request) → QueryPlanCache → Type 0
  Faithful qs c = All (IsPlanOf qs) c.entries

  erase-All :
      (P : Key × QueryPlan → Type 0) (k : Key) (d : Dict Key QueryPlan)
      → All P d
      → All P (erase k d)
  erase-All P k [] h = tt
  erase-All P k ((j, plan) ∷ d) h = elim (Bool-cases (j == k)) [
    | inl e ↦ rw e (erase-All P k d h.1)
    | inr e ↦ rw e (h.0, erase-All P k d h.1)
  ]

  evict-All :
      (P : Key × QueryPlan → Type 0) (max : ℕ) (d : Dict Key QueryPlan)
      → All P d
      → All P (evict max d)
  unfolding evict
  evict-All P max [] h = tt
  evict-All P max (e ∷ d) h = elim (Bool-cases (ltb max (count (e ∷ d)))) [
    | inl t ↦ rw (evict, t) (evict-All P max d h.1)
    | inr t ↦ rw (evict, t) h
  ]

  without-All :
      (P : Key × QueryPlan → Type 0) (g : String) (d : Dict Key QueryPlan)
      → All P d
      → All P (without g d)
  without-All P g [] h = tt
  without-All P g ((k, plan) ∷ d) h = elim (Bool-cases (k.0 == g)) [
    | inl e ↦ rw e (without-All P g d h.1)
    | inr e ↦ rw e (h.0, without-All P g d h.1)
  ]

  lookup-All :
      (P : Key × QueryPlan → Type 0) (k : Key) (d : Dict Key QueryPlan) (plan : QueryPlan)
      → All P d
      → lookup k d ≡ some plan
      → P (k, plan)
  lookup-All P k [] plan h e = cc
  lookup-All P k ((j, plan') ∷ d) plan h e = elim (Bool-cases (j == k)) [
    | inl t ↦
        let same : j ≡ k = ((pairs_equate {A = String} {B = String}).same_iff j k).0 t in
        let value : some plan' ≡ some plan = rw t at e in
        let entry : ◌≡◌ {A = Key × QueryPlan} (j, plan') (k, plan) = ground arith in
        subst P entry h.0
    | inr t ↦ lookup-All P k d plan h.1 (rw t at e)
  ]

  All_at :
      (P : Snapshot × Request → Type 0) (xs : List (Snapshot × Request)) (a : Snapshot × Request)
      → All P xs
      → Among a xs
      → P a
  All_at P [] a h m = absurd m
  All_at P (x ∷ xs) a h (inl e) = subst P (sym e) h.0
  All_at P (x ∷ xs) a h (inr m) = All_at P xs a h.1 m

  Among-more :
      (xs : List (Snapshot × Request)) (x : Snapshot × Request) (ys : List (Snapshot × Request))
      → All (λ q. Among q ys) xs
      → All (λ q. Among q (x ∷ ys)) xs
  Among-more [] x ys h = tt
  Among-more (z ∷ xs) x ys h = (inr h.0, Among-more xs x ys h.1)

  Among-self : (xs : List (Snapshot × Request)) → All (λ q. Among q xs) xs
  Among-self [] = tt
  Among-self (x ∷ xs) = (inl refl, Among-more xs x xs (Among-self xs))

  module _ (qs : List (Snapshot × Request)) (clear : NoClash qs) where
    put-Faithful :
        (plan : QueryPlan) (k : Key) (d : Dict Key QueryPlan)
        → All (IsPlanOf qs) d
        → IsPlanOf qs (k, plan)
        → All (IsPlanOf qs) (to_end k plan d)
    put-Faithful plan k d h p =
        All-append (IsPlanOf qs) (erase k d) ((k, plan) ∷ []) (erase-All (IsPlanOf qs) k d h)
          (p, tt)

    -- a question to the cache
    ask_step :
        (q : Snapshot × Request) (c : QueryPlanCache)
        → Among q qs
        → Faithful qs c
        → let r =
            answered sha256 casefold q.0 q.1
              (get q.0.generation (request_digest sha256 casefold q.1) c) in
          (r.0 ≡ fresh_plan q) × Faithful qs r.1
    unfolding get put plan_of
    ask_step q c m h = elim (Option-cases (lookup (question_key q) c.entries)) [
      | inl miss ↦
          rw (get, miss)
            (
              refl,
              evict-All (IsPlanOf qs) c.max_entries
                  (to_end (question_key q) (fresh_plan q) c.entries)
                  (put-Faithful (fresh_plan q) (question_key q) c.entries h (q, m, refl, refl)),
            )
      | inr (plan, hit) ↦
          let (q', m', key, same) =
            lookup-All (IsPlanOf qs) (question_key q) c.entries plan h hit in
          let one =
            All_at _ qs q'
              (All_at (λ x. All (λ y. question_key x ≡ question_key y → x ≡ y) qs) qs q clear m) m'
              key in
          let exact : plan ≡ fresh_plan q = same ∙ ap fresh_plan (sym one) in
          rw (get, hit, exact)
            (refl, put-Faithful (fresh_plan q) (question_key q) c.entries h (q, m, refl, refl))
    ]

    run-Faithful :
        (acts : List Action) (c : QueryPlanCache)
        → All (λ q. Among q qs) (asked acts)
        → Faithful qs c
        → (run acts (some c)).0 ≡ (run acts none).0
    unfolding run plan_query invalidate_generation
    run-Faithful [] c m h = refl
    run-Faithful (forget g ∷ acts) c m h =
        run-Faithful acts (invalidate_generation g c).1 m (without-All (IsPlanOf qs) g c.entries h)
    run-Faithful (ask s r ∷ acts) c m h = elim (Result-cases (check_request r)) [
      | inr (e, bad) ↦ rw (run, plan_query, bad) (ap (λ t. err e ∷ t) (run-Faithful acts c m.1 h))
      | inl (u, good) ↦
          let (exact, faithful) = ask_step (s, r) c m.0 h in
          let after =
            (answered sha256 casefold s r
              (get s.generation (request_digest sha256 casefold r) c)).1 in
          rw (run, plan_query, good, exact)
            (ap (λ t. ok (fresh_plan (s, r)) ∷ t) (run-Faithful acts after m.1 faithful))
    ]

-- On a new cache of any capacity, a sequence of calls of `plan_query` on any snapshots, with the plans
-- of generations dropped in between, gives the answers, errors included, that the same calls give
-- without a cache, where no two of the questions agree in the generation and in the request's digest
-- but differ in the snapshot or in the request.
pub run-transparent :
    (sha256 : List ℕ → String) (casefold : String → String) (acts : List Action) (max : ℕ)
    (c : QueryPlanCache)
    → new_cache max ≡ ok c
    → NoClash sha256 casefold (asked acts)
    → (run sha256 casefold acts (some c)).0 ≡ (run sha256 casefold acts none).0
unfolding new_cache
run-transparent sha256 casefold acts max c h clear =
    let empty : c.entries ≡ [] = ground arith in
    run-Faithful sha256 casefold (asked acts) clear acts c (Among-self sha256 casefold (asked acts))
      (rw empty tt)
