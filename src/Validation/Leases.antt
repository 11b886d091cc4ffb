-- ===== src/Validation/Leases.antt =====
-- What the leases of src/simplicio_fast/validation_cache.py hold: calls on a cache, in any order.
use simplicio_fast.Prelude.{
  ℕ, zero, suc, String, ◌≡◌, refl, ◌∙◌, ◌≢◌, ◌⊎◌, inl, inr, Bool, true, false, Bool-cases, not,
  ◌&&◌, none, some, List, [], ◌∷◌, arith, Result, ok, err, take, strings_equate, contains, All,
  All-imp,
}
use text.Mathlib.TextEquality.{eq_iff}
use simplicio_fast.Prelude.Dict.{Dict, lookup, erase, lookup-erase_ne, Distinct, erase-Distinct}
use simplicio_fast.Prelude.Int.{ℤ}
use simplicio_fast.Prelude.Sorting.{sort_by, insert_by, str_ltb}
use simplicio_fast.Validation.{
  Error, ValidationKey, ValidationResult, ValidationCache, Put, put, acquire_lease, release_lease,
  gc, after, is_leased, collectable, collected, check_gc, candidates_of, erase_all, itself, sorted,
}

-- a call that changes the cache
pub data Call : Type 0 where
  put_call : ValidationKey → Put → Call
  acquire_call : ValidationKey → String → Call
  release_call : ValidationKey → String → Call
  gc_call : List String → ℤ → Bool → Call

-- a key whose entry may go: its generation is not kept, and it is not leased
abbrev Doomed :
    List String → Dict String (List String) → Dict String ValidationResult → String → Type 0
Doomed kept leases d kd =
    (r : ValidationResult) × (lookup kd d ≡ some r)
    × (contains r.generation kept ≡ false)
    × (is_leased kd leases ≡ false)

lookup-cons :
    (j kd : String) (v r : ValidationResult) (d : Dict String ValidationResult)
    → lookup j d ≡ none
    → lookup kd d ≡ some r
    → lookup kd ((j, v) ∷ d) ≡ some r
lookup-cons j kd v r d absent found = ground (arith, eq_iff j kd)

Doomed-cons :
    (kept : List String) (leases : Dict String (List String)) (j : String) (v : ValidationResult)
    (d : Dict String ValidationResult)
    → lookup j d ≡ none
    → (kd : String) → Doomed kept leases d kd
    → Doomed kept leases ((j, v) ∷ d) kd
Doomed-cons kept leases j v d absent kd (r, found, old, free) =
    (r, lookup-cons j kd v r d absent found, old, free)

lookup_head :
    (kd : String) (r : ValidationResult) (d : Dict String ValidationResult)
    → lookup kd ((kd, r) ∷ d) ≡ some r
lookup_head kd r d = ground (arith, eq_iff kd kd)

both_free : (a b : Bool) → (not a && not b) ≡ true → (a ≡ false) × (b ≡ false)
both_free a b h = ground arith

collectable-Doomed :
    (kept : List String) (leases : Dict String (List String)) (d : Dict String ValidationResult)
    → Distinct d
    → All (Doomed kept leases d) (collectable kept leases d)
collectable-Doomed kept leases [] h = tt
collectable-Doomed kept leases ((kd, r) ∷ d) h =
    let rest =
      All-imp (Doomed kept leases d) (Doomed kept leases ((kd, r) ∷ d)) (collectable kept leases d)
        (Doomed-cons kept leases kd r d h.0) (collectable-Doomed kept leases d h.1) in
    elim (Bool-cases (not (contains r.generation kept) && not (is_leased kd leases))) [
      | inl goes ↦
          let (old, free) = both_free _ _ goes in rw goes ((r, lookup_head kd r d, old, free), rest)
      | inr stays ↦ rw stays rest
    ]

insert_by-All {κ} :
    (P : String → Type κ) (key : String → String) (x : String) (xs : List String)
    → P x
    → All P xs
    → All P (insert_by key x xs)
insert_by-All P key x [] h hs = (h, tt)
insert_by-All P key x (y ∷ ys) h hs = elim (Bool-cases (str_ltb (key y) (key x))) [
  | inl e ↦ rw e (hs.0, insert_by-All P key x ys h hs.1)
  | inr e ↦ rw e (h, hs)
]

sorted-All {κ} : (P : String → Type κ) (xs : List String) → All P xs → All P (sorted xs)
unfolding sort_by
sorted-All P [] h = tt
sorted-All P (x ∷ xs) h = insert_by-All P itself x (sorted xs) h.0 (sorted-All P xs h.1)

take-All {κ} : (P : String → Type κ) (n : ℕ) (xs : List String) → All P xs → All P (take n xs)
take-All P zero xs h = tt
take-All P (suc n) [] h = tt
take-All P (suc n) (x ∷ xs) h = (h.0, take-All P n xs h.1)

-- an entry that a collection must leave
abbrev pub Spared : List String → Dict String (List String) → String → ValidationResult → Type 0
Spared kept leases kd r = (contains r.generation kept ≡ true) ⊎ (is_leased kd leases ≡ true)

Spared-Doomed :
    (kept : List String) (leases : Dict String (List String)) (d : Dict String ValidationResult)
    (kd k : String) (r : ValidationResult)
    → lookup kd d ≡ some r
    → Spared kept leases kd r
    → Doomed kept leases d k
    → k ≢ kd
Spared-Doomed kept leases d kd k r found (inl kept') (r', found', old, free) same = cc
Spared-Doomed kept leases d kd k r found (inr held) (r', found', old, free) same = cc

erase_all-lookup :
    (ks : List String) (d : Dict String ValidationResult) (kd : String)
    → All (λ k. k ≢ kd) ks
    → lookup kd (erase_all ks d) ≡ lookup kd d
erase_all-lookup [] d kd h = refl
erase_all-lookup (k ∷ ks) d kd h =
    erase_all-lookup ks (erase k d) kd h.1 ∙ lookup-erase_ne k kd d h.0

pub erase_all-Distinct :
    (ks : List String) (d : Dict String ValidationResult) → Distinct d → Distinct (erase_all ks d)
erase_all-Distinct [] d h = h
erase_all-Distinct (k ∷ ks) d h = erase_all-Distinct ks (erase k d) (erase-Distinct k d h)

-- a property of the cache that a call keeps
pub after-keeps {κ} :
    {A B : Type 0} (P : ValidationCache → Type κ) (c : ValidationCache) (first : Result Error A)
    (next : A → Result Error B × ValidationCache)
    → P c
    → ((a : A) → first ≡ ok a → P (next a).1)
    → P (after c first next).1
after-keeps P c (err e) next h k = h
after-keeps P c (ok a) next h k = k a refl

module _ (sha256 : List ℕ → String) where
  pub gc-keeps {κ} :
      (P : ValidationCache → Type κ) (kept : List String) (max : ℤ) (dry : Bool)
      (c : ValidationCache)
      → P c
      → ((n : ℕ) → P (collected c kept n dry (candidates_of c kept n)).1)
      → P (gc sha256 kept max dry c).1
  unfolding gc
  gc-keeps P kept max dry c h swept =
      after-keeps P c (check_gc kept max) (λ n. collected c kept n dry (candidates_of c kept n)) h
        (λ n _. swept n)

  pub gc-lookup :
      (kept : List String) (max : ℤ) (dry : Bool) (c : ValidationCache) (kd : String)
      (r : ValidationResult)
      → Distinct c.entries
      → lookup kd c.entries ≡ some r
      → Spared kept c.leases kd r
      → lookup kd (gc sha256 kept max dry c).1.entries ≡ some r
  gc-lookup kept max dry c kd r distinct found spared =
      gc-keeps (λ c'. lookup kd c'.entries ≡ some r) kept max dry c found (λ n. swept n dry)
    where
      swept :
          (n : ℕ) (b : Bool)
          → lookup kd (collected c kept n b (candidates_of c kept n)).1.entries ≡ some r
      swept n true = found
      swept n false =
          erase_all-lookup _ c.entries kd (
            All-imp (Doomed kept c.leases c.entries) (λ k. k ≢ kd) _
              (λ k. Spared-Doomed kept c.leases c.entries kd k r found spared)
              (take-All _ n _
                (sorted-All _ _ (collectable-Doomed kept c.leases c.entries distinct))))
          ∙ found

  unfoldable pub step : Call → ValidationCache → ValidationCache
  step (put_call k q) c = (put sha256 k q c).1
  step (acquire_call k id) c = (acquire_lease sha256 k id c).1
  step (release_call k id) c = (release_lease sha256 k id c).1
  step (gc_call kept max dry) c = (gc sha256 kept max dry c).1

  -- the calls of a list, each after the one before
  unfoldable pub run : List Call → ValidationCache → ValidationCache
  run [] c = c
  run (call ∷ calls) c = run calls (step call c)
