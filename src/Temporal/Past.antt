-- ===== src/Temporal/Past.antt =====
-- `as_of` of `BitemporalOverlay` in src/simplicio_fast/temporal.py: what later calls leave of its
-- answers about the past.
use simplicio_fast.Prelude.{
  ℕ, suc, ◌<◌, String, ◌≡◌, refl, ap, ◌∙◌, inl, inr, Bool, true, false, ◌&&◌, Option, none, some,
  List, [], ◌∷◌, ◌++◌, map, Result, ok, err, arith, ◌==◌, strings_equate, options_equate, leb,
  Bool-cases, Option-cases, keep, get_last?, get_last?-append,
}
use simplicio_fast.Prelude.Dict.{Dict, lookup, insert}
use simplicio_fast.Prelude.Json.{Fields}
use simplicio_fast.Temporal.{
  Error, Fact, Request, Versions, versions, Overlay, is_open, closed, new_fact, push_fact, open_new,
  supersede, commit,
}
use simplicio_fast.Temporal.Query.{is_candidate, candidates, push, collect, lasts}

-- What a fact says of the world: all of it but the marks that its end leaves on it, which are
-- `valid_to`, `invalidated_at`, `state`, `reason_code` and `successor`.
pub record View : Type 0 where
  pub canonical_id : String
  pub repository : String
  pub base_generation : String
  pub overlay_generation : Option String
  pub source_commit : String
  pub source_sha256 : String
  pub artifact_digest : String
  pub valid_from : ℕ
  pub observed_at : ℕ
  pub predecessor : Option String
  pub dependencies : List String
  pub provenance : Fields

abbrev pub view : Fact → View
view f = record {
  canonical_id = f.canonical_id;
  repository = f.repository;
  base_generation = f.base_generation;
  overlay_generation = f.overlay_generation;
  source_commit = f.source_commit;
  source_sha256 = f.source_sha256;
  artifact_digest = f.artifact_digest;
  valid_from = f.valid_from;
  observed_at = f.observed_at;
  predecessor = f.predecessor;
  dependencies = f.dependencies;
  provenance = f.provenance;
}

abbrev pub views : Result Error (List Fact) → Result Error (List View)
views (err e) = err e
views (ok fs) = ok (map view fs)

abbrev pub view_of : Option Fact → Option View
view_of none = none
view_of (some f) = some (view f)

-- the view that `as_of` shows of the versions under an identity, tombstones included
abbrev pub seen : ℕ → Option Versions → Option View
seen w none = none
seen w (some v) = view_of (get_last? (candidates w true v))

push_seen :
    (a b : Option Fact) (fs gs : List Fact)
    → view_of a ≡ view_of b
    → map view fs ≡ map view gs
    → map view (push a fs) ≡ map view (push b gs)
push_seen none none fs gs h k = k
push_seen (some f) (some g) fs gs h k = cc
push_seen none (some g) fs gs h k = cc
push_seen (some f) none fs gs h k = cc

collect-insert :
    (w : ℕ) (id : String) (v : Versions) (d : Dict String Versions)
    → seen w (some v) ≡ seen w (lookup id d)
    → map view (collect w true (insert id v d)) ≡ map view (collect w true d)
unfolding collect
collect-insert w id v [] h = push_seen (get_last? (candidates w true v)) none [] [] h refl
collect-insert w id v ((j, u) ∷ d) h = elim (Bool-cases (j == id)) [
  | inl same ↦ rw same (
      push_seen (get_last? (candidates w true v)) (get_last? (candidates w true u))
        (collect w true d) (collect w true d) (rw same at h) refl)
  | inr differ ↦ rw differ (
      push_seen (get_last? (candidates w true u)) (get_last? (candidates w true u))
        (collect w true (insert id v d)) (collect w true d) refl
        (collect-insert w id v d (rw differ at h)))
]

pub keep-push :
    (p : Fact → Bool) (fs : List Fact) (f : Fact) → p f ≡ false → keep p (fs ++ f ∷ []) ≡ keep p fs
keep-push p [] f h = rw h refl
keep-push p (x ∷ fs) f h = elim (Bool-cases (p x)) [
  | inl kept ↦ rw (kept, keep-push p fs f h) refl
  | inr dropped ↦ rw (dropped, keep-push p fs f h) refl
]

pub keep-push_kept :
    (p : Fact → Bool) (fs : List Fact) (f : Fact)
    → p f ≡ true
    → keep p (fs ++ f ∷ []) ≡ keep p fs ++ f ∷ []
keep-push_kept p [] f h = rw h refl
keep-push_kept p (x ∷ fs) f h = elim (Bool-cases (p x)) [
  | inl kept ↦ rw (kept, keep-push_kept p fs f h) refl
  | inr dropped ↦ rw (dropped, keep-push_kept p fs f h) refl
]

pub not_yet :
    (w : ℕ) (tombstones : Bool) (f : Fact) → w < f.valid_from → is_candidate w tombstones f ≡ false
unfolding is_candidate
not_yet w tombstones f h = ground arith

lasts_still :
    (w world : ℕ) (to : Option ℕ)
    → w < world
    → (elim to as (λ _. Bool) [ none ↦ true | some _ ↦ false ]) ≡ true
    → lasts (some world) w ≡ lasts to w
lasts_still w world none lt h = ground arith
lasts_still w world (some t) lt h = cc

-- Closing the last version in a later world leaves it a candidate, or not, as it was.
still :
    (w world observed : ℕ) (state : String) (d : Option String) (f : Fact)
    → w < world
    → is_open f ≡ true
    → is_candidate w true (record (closed state world observed f) { successor = d })
      ≡ is_candidate w true f
unfolding is_candidate closed
still w world observed state d f lt h =
    ap (λ b. leb f.valid_from w && b && true) (lasts_still w world f.valid_to lt h)

last_replaced :
    (p : Fact → Bool) (fs : List Fact) (l l' : Fact)
    → p l' ≡ p l
    → view l' ≡ view l
    → view_of (get_last? (keep p (fs ++ l' ∷ []))) ≡ view_of (get_last? (keep p (fs ++ l ∷ [])))
last_replaced p fs l l' h k = elim (Bool-cases (p l)) [
  | inl kept ↦
      rw
        (
          keep-push_kept p fs l kept,
          keep-push_kept p fs l' (h ∙ kept),
          get_last?-append (keep p fs) l,
          get_last?-append (keep p fs) l',
        )
        (ap some k)
  | inr dropped ↦ rw (keep-push p fs l dropped, keep-push p fs l' (h ∙ dropped)) refl
]

superseded_seen :
    (w : ℕ) (v : Versions) (l' f : Fact)
    → is_candidate w true l' ≡ is_candidate w true v.latest
    → view l' ≡ view v.latest
    → w < f.valid_from
    → seen w (some (record { older = v.older ++ l' ∷ []; latest = f })) ≡ seen w (some v)
superseded_seen w v l' f h k lt =
    rw (keep-push (is_candidate w true) (v.older ++ l' ∷ []) f (not_yet w true f lt))
      (last_replaced (is_candidate w true) v.older v.latest l' h k)

module _ (sha256 : List ℕ → String) where
  seen-push_fact :
      (w : ℕ) (u : Option Versions) (f : Fact)
      → w < f.valid_from
      → seen w (some (push_fact u f)) ≡ seen w u
  unfolding push_fact
  seen-push_fact w none f lt = rw (not_yet w true f lt) refl
  seen-push_fact w (some v) f lt =
      rw (keep-push (is_candidate w true) (versions v) f (not_yet w true f lt)) refl

  open_new_past :
      (w : ℕ) (r : Request) (world : ℕ) (o : Overlay)
      → w < world
      → map view (collect w true (open_new sha256 r world o).1.facts)
        ≡ map view (collect w true o.facts)
  unfolding open_new new_fact
  open_new_past w r world o lt =
      collect-insert w r.canonical_id _ o.facts
        (seen-push_fact w (lookup r.canonical_id o.facts) _ lt)

  supersede_past :
      (w : ℕ) (r : Request) (world : ℕ) (v : Versions) (o : Overlay)
      → w < world
      → lookup r.canonical_id o.facts ≡ some v
      → is_open v.latest ≡ true
      → map view (collect w true (supersede sha256 r world v o).1.facts)
        ≡ map view (collect w true o.facts)
  unfolding supersede new_fact closed
  supersede_past w r world v o lt found opened = collect-insert w r.canonical_id _ o.facts (
      rw found (
        superseded_seen w v _ _
          (still w world (suc o.observed_sequence) r.state _ v.latest lt opened) refl lt))

  -- A commit in a later world changes nothing that a query of an earlier world shows.
  pub commit_past :
      (w : ℕ) (r : Request) (world : ℕ) (o : Overlay)
      → w < world
      → map view (collect w true (commit sha256 r world o).1.facts)
        ≡ map view (collect w true o.facts)
  unfolding commit
  commit_past w r world o lt = elim (Option-cases (lookup r.canonical_id o.facts)) [
    | inl absent ↦ rw (commit, absent) (open_new_past w r world o lt)
    | inr (u, found) ↦ elim (Bool-cases (is_open u.latest)) [
      | inl opened ↦ rw (commit, found, opened) (supersede_past w r world u o lt found opened)
      | inr shut ↦ rw (commit, found, shut) (open_new_past w r world o lt)
    ]
  ]
