-- ===== src/Cache/Steps.antt =====
-- The turns of `ContentCache` in src/simplicio_fast/content_cache.py: what a call finds, what an
-- invalidation takes, and what it misses.
use simplicio_fast.Prelude.{
  ℕ, String, ◌≡◌, ◌≢◌, refl, sym, ◌∙◌, inl, inr, false, Option, none, some, List, [], ◌∷◌, ok, err,
  ◌==◌, beq_self, beq_of, strings_equate, if◌then◌else◌, Bool-cases, Option-cases, arith, contains,
}
use mathlib.Core.Path.{subst}
use text.Mathlib.TextEquality.{eq_iff}
use simplicio_fast.Prelude.Dict.{
  Dict, lookup, insert, erase, lookup-insert_self, lookup-erase, Distinct,
}
use simplicio_fast.Cache.{
  cache_corrupt, Cache, init, returns, drop_all, intersects, doomed, invalidate, land, hit, get,
  store,
}

pub data Turn : Type 0 where
  gets : String → List String → Turn
  stores : String → List ℕ → Turn
  lands : String → Turn
  invalidates : List String → Turn

module _ (sha256 : List ℕ → String) where
  unfoldable pub step : Turn → Cache → Cache
  unfolding get store land invalidate
  step (gets k deps) c = (get sha256 k deps c).1
  step (stores k value) c = store sha256 k value c
  step (lands k) c = land k c
  step (invalidates changed) c = (invalidate changed c).1

  unfoldable pub run : List Turn → Cache → Cache
  unfolding step
  run [] c = c
  run (t ∷ ts) c = run ts (step t c)

  -- each stored digest is that of its value
  abbrev Hashed : Dict String (List ℕ × String) → Type 0
  Hashed [] = Unit
  Hashed ((k, (value, digest)) ∷ d) = (sha256 value ≡ digest) × Hashed d

  insert-Hashed :
      (k : String) (value : List ℕ) (d : Dict String (List ℕ × String))
      → Hashed d
      → Hashed (insert k (value, sha256 value) d)
  insert-Hashed k value [] h = (refl, tt)
  insert-Hashed k value ((j, (v, g)) ∷ d) h = elim (Bool-cases (j == k)) [
    | inl same ↦ rw same (refl, h.1)
    | inr differ ↦ rw differ (h.0, insert-Hashed k value d h.1)
  ]

  erase-Hashed : (k : String) (d : Dict String (List ℕ × String)) → Hashed d → Hashed (erase k d)
  erase-Hashed k [] h = tt
  erase-Hashed k ((j, (v, g)) ∷ d) h = elim (Bool-cases (j == k)) [
    | inl same ↦ rw same (erase-Hashed k d h.1)
    | inr differ ↦ rw differ (h.0, erase-Hashed k d h.1)
  ]

  drop_all-Hashed :
      (ks : List String) (d : Dict String (List ℕ × String)) → Hashed d → Hashed (drop_all ks d)
  drop_all-Hashed [] d h = h
  drop_all-Hashed (k ∷ ks) d h = drop_all-Hashed ks (erase k d) (erase-Hashed k d h)

  lookup-Hashed :
      (k : String) (entry : List ℕ × String) (d : Dict String (List ℕ × String))
      → Hashed d
      → lookup k d ≡ some entry
      → sha256 entry.0 ≡ entry.1
  lookup-Hashed k entry [] h e = absurd (ground arith)
  lookup-Hashed k entry ((j, (v, g)) ∷ d) h e = elim (Bool-cases (j == k)) [
    | inl same ↦
        let here : ◌≡◌ {A = Option (List ℕ × String)} (some (v, g)) (some entry) = rw same at e in
        let both : ◌≡◌ {A = List ℕ × String} (v, g) entry = cc in
        subst (λ p. sha256 p.0 ≡ p.1) both h.0
    | inr differ ↦ lookup-Hashed k entry d h.1 (rw differ at e)
  ]

  -- a call on a cache with sound digests returns what is stored, and keeps the stored values
  get-Hashed :
      (k : String) (deps : List String) (c : Cache)
      → Hashed c.values
      → ((get sha256 k deps c).0 ≢ err cache_corrupt) × ((get sha256 k deps c).1.values ≡ c.values)
  unfolding get
  get-Hashed k deps c h = elim (Option-cases (lookup k c.values)) [
    | inl absent ↦ elim (Option-cases (lookup k c.flights)) [
      | inl idle ↦ rw (get, absent, idle) ((λ e. cc), refl)
      | inr (running, found) ↦ rw (get, absent, found) ((λ e. cc), refl)
    ]
    | inr (entry, found) ↦
        let good = beq_of (lookup-Hashed k entry c.values h found) in
        rw (get, found, good) ((λ e. cc), refl)
  ]

  step-Hashed : (t : Turn) (c : Cache) → Hashed c.values → Hashed (step t c).values
  unfolding step store land invalidate
  step-Hashed (gets k deps) c h = subst Hashed (sym (get-Hashed k deps c h).1) h
  step-Hashed (stores k value) c h = elim (Option-cases (lookup k c.flights)) [
    | inl idle ↦ rw (store, idle) h
    | inr (deps, running) ↦ rw (store, running) (insert-Hashed k value c.values h)
  ]
  step-Hashed (lands k) c h = h
  step-Hashed (invalidates changed) c h = drop_all-Hashed (doomed changed c.deps) c.values h

  run-Hashed : (ts : List Turn) (c : Cache) → Hashed c.values → Hashed (run ts c).values
  unfolding run
  run-Hashed [] c h = h
  run-Hashed (t ∷ ts) c h = run-Hashed ts (step t c) (step-Hashed t c h)

  -- In every interleaving of calls, tasks and invalidations from an empty cache, no call finds a
  -- corrupt entry.
  pub run-get :
      (ts : List Turn) (k : String) (deps : List String)
      → (get sha256 k deps (run ts init)).0 ≢ err cache_corrupt
  run-get ts k deps = (get-Hashed k deps (run ts init) (run-Hashed ts init tt)).0

lookup-drop_all :
    {V : Type 0} (k : String) (ks : List String) (d : Dict String V)
    → lookup k (drop_all ks d) ≡ (if contains k ks then none else lookup k d)
lookup-drop_all k [] d = refl
lookup-drop_all k (j ∷ ks) d =
    lookup-drop_all k ks (erase j d) ∙ ground (arith, lookup-erase j k d, eq_iff j k, eq_iff k j)

doomed_absent :
    (changed : List String) (k : String) (d : Dict String (List String))
    → lookup k d ≡ none
    → contains k (doomed changed d) ≡ false
doomed_absent changed k [] h = refl
doomed_absent changed k ((j, deps) ∷ d) h =
    ground (arith, eq_iff j k, eq_iff k j, doomed_absent changed k d)

doomed_present :
    (changed : List String) (k : String) (deps : List String) (d : Dict String (List String))
    → Distinct d
    → lookup k d ≡ some deps
    → contains k (doomed changed d) ≡ intersects changed deps
doomed_present changed k deps [] u h = cc
doomed_present changed k deps ((j, ds) ∷ d) u h = elim (Bool-cases (j == k)) [
  | inl same ↦
      let at_k : j ≡ k = (eq_iff j k).0 same in
      let here : ◌≡◌ {A = Option (List String)} (some ds) (some deps) = rw same at h in
      let at_deps : ds ≡ deps = cc in
      let gone = doomed_absent changed k d (rw at_k at u.0) in
      rw (at_k, at_deps)
        (elim (Bool-cases (intersects changed deps)) [
          | inl hit ↦ rw hit (ground (arith, beq_self k))
          | inr missed ↦ rw missed gone
        ])
  | inr differ ↦
      ground (arith, eq_iff j k, eq_iff k j, doomed_present changed k deps d u.1 (rw differ at h))
]

-- An invalidation takes the value of a key with a changed dependency, and leaves that of a key with
-- none, where no key has two sets of dependencies.
invalidate-lookup :
    (changed : List String) (k : String) (deps : List String) (c : Cache)
    → Distinct c.deps
    → lookup k c.deps ≡ some deps
    → lookup k (invalidate changed c).1.values
      ≡ (if intersects changed deps then none else lookup k c.values)
unfolding invalidate
invalidate-lookup changed k deps c u h =
    lookup-drop_all k (doomed changed c.deps) c.values
    ∙ rw (doomed_present changed k deps c.deps u h) refl

-- An invalidation does not reach a task that runs: whatever has changed, the task stores the value that
-- it computes from what it read before, and the next call returns that value.
pub get-stale :
    (sha256 : List ℕ → String) (changed : List String) (k : String) (deps : List String) (c : Cache)
    → (value : List ℕ) → lookup k c.flights ≡ some deps
    → (get sha256 k deps (store sha256 k value (invalidate changed c).1)).0 ≡ ok (returns value)
unfolding invalidate store get
get-stale sha256 changed k deps c value running =
    rw
      (
        store,
        running,
        get,
        lookup-insert_self k (value, sha256 value) (drop_all (doomed changed c.deps) c.values),
        beq_self (sha256 value),
      )
      refl
