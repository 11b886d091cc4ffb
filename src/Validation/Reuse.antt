-- ===== src/Validation/Reuse.antt =====
-- What `get` of src/simplicio_fast/validation_cache.py hands out for reuse.

use mathlib.Core.Path.{subst}
use text.Mathlib.TextEquality.{eq_iff}
use simplicio_fast.Prelude.{
  ℕ, String, ◌≡◌, refl, sym, ap, ◌∙◌, inl, inr, Bool, true, false, Bool-cases, not, ◌&&◌, ◌||◌,
  Option, none, some, List, [], ◌∷◌, arith, Result, ok, err, ◌>>◌, raise_if, returned,
  if◌then◌else◌, ◌==◌, strings_equate,
}
use simplicio_fast.Prelude.Dict.{Dict, lookup, insert, erase, lookup-insert, lookup-erase}
use simplicio_fast.Prelude.Int.{ℤ}
use simplicio_fast.Validation.{
  Error, ValidationKey, ValidationResult, ValidationCache, Put, new_cache, put, acquire_lease,
  release_lease, gc, get, stored, leased, released, is_nil, is_missing, lease_id_invalid, digest,
  key_digest_of, check_put, check_lease, putting, collected, candidates_of, erase_all, accepted,
  make_result, entry_for,
}
use simplicio_fast.Validation.Made.{entry_for-made, digest-present, check_put-present}
use simplicio_fast.Validation.Leases.{
  Call, put_call, acquire_call, release_call, gc_call, step, run, gc-keeps, after-keeps,
}

-- an entry that may stand under a key
abbrev pub Sound : String → ValidationResult → Type 0
Sound kd r =
    (r.key_digest ≡ kd)
    × ((r.verified && is_nil r.provenance) ≡ false)
    × (make_result r ≡ ok r)
    × (is_missing r.result_digest ≡ false)
    × (is_missing kd ≡ false)

abbrev pub AllSound : Dict String ValidationResult → Type 0
AllSound d = (kd : String) (r : ValidationResult) → lookup kd d ≡ some r → Sound kd r

insert-AllSound :
    (kd : String) (r : ValidationResult) (d : Dict String ValidationResult)
    → Sound kd r
    → AllSound d
    → AllSound (insert kd r d)
insert-AllSound kd r d s h j v found = elim (Bool-cases (kd == j)) [
  | inl same ↦
      let here : r ≡ v = ground (arith, lookup-insert kd j r d) in
      subst (λ t. Sound t v) ((eq_iff kd j).0 same) (subst (λ t. Sound kd t) here s)
  | inr other ↦ h j v (ground (arith, lookup-insert kd j r d))
]

erase-AllSound :
    (kd : String) (d : Dict String ValidationResult) → AllSound d → AllSound (erase kd d)
erase-AllSound kd d h j v found = h j v (ground (arith, lookup-erase kd j d))

erase_all-AllSound :
    (ks : List String) (d : Dict String ValidationResult) → AllSound d → AllSound (erase_all ks d)
erase_all-AllSound [] d h = h
erase_all-AllSound (k ∷ ks) d h = erase_all-AllSound ks (erase k d) (erase-AllSound k d h)

let_through :
    (a b v f n : Bool) (x y : ValidationResult)
    → (if a || b || (not v || not f || n) then none else some x) ≡ some y
    → (x ≡ y) × (v ≡ true) × (f ≡ true) × (n ≡ false)
let_through a b v f n x y h = ground arith

module _ (sha256 : List ℕ → String) where
  put-AllSound :
      (k : ValidationKey) (q : Put) (c : ValidationCache)
      → AllSound c.entries
      → AllSound (put sha256 k q c).1.entries
  unfolding put
  put-AllSound k q c h =
      after-keeps (λ c'. AllSound c'.entries) c (check_put sha256 k q) (putting sha256 k q c) h
        (λ checked passes. storing checked.0 _ (made_sound checked passes))
    where
      storing :
          (kd : String) (m : Result Error ValidationResult)
          → ((r : ValidationResult) → m ≡ ok r → Sound kd r)
          → AllSound (stored c kd m).1.entries
      storing kd (err e) sound = h
      storing kd (ok r) sound = insert-AllSound kd r c.entries (sound r refl) h

      made_sound :
          (checked : String × List String)
          → check_put sha256 k q ≡ ok checked
          → (r : ValidationResult)
          → entry_for k q checked.0 (digest sha256 q.result) checked.1 (lookup checked.0 c.entries)
            ≡ ok r
          → Sound checked.0 r
      made_sound checked passes r made =
          let (key, proved, made_again, result) =
            entry_for-made k q checked.0 (digest sha256 q.result) checked.1
              (lookup checked.0 c.entries) r made in
          (
            key,
            proved,
            made_again,
            ap is_missing result ∙ digest-present sha256 q.result,
            check_put-present sha256 k q checked passes,
          )

  acquire_lease-entries :
      (k : ValidationKey) (id : String) (c : ValidationCache)
      → (acquire_lease sha256 k id c).1.entries ≡ c.entries
  unfolding acquire_lease
  acquire_lease-entries k id c =
      after-keeps (λ c'. c'.entries ≡ c.entries) c (check_lease sha256 k id) (λ kd. leased c kd id)
        refl (λ kd _. ground arith)

  release_lease-entries :
      (k : ValidationKey) (id : String) (c : ValidationCache)
      → (release_lease sha256 k id c).1.entries ≡ c.entries
  unfolding release_lease
  release_lease-entries k id c =
      after-keeps (λ c'. c'.entries ≡ c.entries) c
        (raise_if (is_missing id) lease_id_invalid >> key_digest_of sha256 k)
        (λ kd. released c kd id) refl (λ kd _. refl)

  gc-AllSound :
      (kept : List String) (max : ℤ) (dry : Bool) (c : ValidationCache)
      → AllSound c.entries
      → AllSound (gc sha256 kept max dry c).1.entries
  gc-AllSound kept max dry c h =
      gc-keeps sha256 (λ c'. AllSound c'.entries) kept max dry c h
        (λ n. swept n dry (candidates_of c kept n))
    where
      swept : (n : ℕ) (b : Bool) (ks : List String) → AllSound (collected c kept n b ks).1.entries
      swept n true ks = h
      swept n false ks = erase_all-AllSound ks c.entries h

  step-AllSound :
      (call : Call) (c : ValidationCache)
      → AllSound c.entries
      → AllSound (step sha256 call c).entries
  unfolding step
  step-AllSound (put_call k q) c h = put-AllSound k q c h
  step-AllSound (acquire_call k id) c h = subst AllSound (sym (acquire_lease-entries k id c)) h
  step-AllSound (release_call k id) c h = subst AllSound (sym (release_lease-entries k id c)) h
  step-AllSound (gc_call kept max dry) c h = gc-AllSound kept max dry c h

  pub run-AllSound :
      (calls : List Call) (c : ValidationCache)
      → AllSound c.entries
      → AllSound (run sha256 calls c).entries
  unfolding run
  run-AllSound [] c h = h
  run-AllSound (call ∷ calls) c h = run-AllSound calls (step sha256 call c) (step-AllSound call c h)

  pub new-AllSound : AllSound new_cache.entries
  new-AllSound kd r h = cc

  accepted-reusable :
      (fresh verified : Bool) (found : Option ValidationResult) (r : ValidationResult)
      → accepted fresh verified true found ≡ some r
      → (found ≡ some r) × (r.verified ≡ true) × (r.fresh ≡ true) × (r.nondeterministic ≡ false)
  accepted-reusable fresh verified none r h = cc
  accepted-reusable fresh verified (some r') r h =
      let (same, proved, recent, steady) =
        let_through (fresh && not r'.fresh) (verified && not r'.verified) r'.verified r'.fresh
          r'.nondeterministic r' r h in
      (
        ap some same,
        ap (λ t. t.verified) (sym same) ∙ proved,
        ap (λ t. t.fresh) (sym same) ∙ recent,
        ap (λ t. t.nondeterministic) (sym same) ∙ steady,
      )

  -- After any calls on a new cache, what `get` hands out for reuse, with whatever other demands, is the result of
  -- that key: it carries the key's digest, is verified and names a provenance, is fresh, and is not marked as
  -- nondeterministic.
  pub run-get_reuse :
      (calls : List Call) (k : ValidationKey) (require_fresh require_verified : Bool)
      (r : ValidationResult)
      → get sha256 k require_fresh require_verified true (run sha256 calls new_cache) ≡ ok (some r)
      → (key_digest_of sha256 k ≡ ok r.key_digest)
        × (r.verified ≡ true)
        × (is_nil r.provenance ≡ false)
        × (r.fresh ≡ true)
        × (r.nondeterministic ≡ false)
  unfolding get
  run-get_reuse calls k require_fresh require_verified r h =
      let (kd, digested, answered) = returned (key_digest_of sha256 k) _ h in
      let (found, proved, fresh, steady) =
        accepted-reusable require_fresh require_verified _ r (some_answer _ _ answered) in
      let (key, named, made, result, present) =
        run-AllSound calls new_cache new-AllSound kd r found in
      (digested ∙ ap ok (sym key), proved, ground arith, fresh, steady)
    where
      some_answer :
          (x y : Option ValidationResult)
          → ◌≡◌ {A = Result Error (Option ValidationResult)} (ok x) (ok y)
          → x ≡ y
      some_answer x y e = cc
