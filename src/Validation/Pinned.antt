-- ===== src/Validation/Pinned.antt =====
-- Leases of src/simplicio_fast/validation_cache.py after any calls: each is of an entry, and pins it.
use text.Mathlib.TextEquality.{eq_iff}
use simplicio_fast.Prelude.{
  ℕ, String, ◌≡◌, refl, sym, ap, ◌∙◌, ◌⊎◌, contains, inl, inr, Bool, true, false, Bool-cases, not,
  Option, none, some, List, [], ◌∷◌, arith, Result, ok, err, ◌>>◌, raise_if, keep, ◌==◌,
  strings_equate,
}
use simplicio_fast.Prelude.Dict.{
  Dict, lookup, has, insert, lookup-insert, lookup-erase, has-insert, Distinct, insert-Distinct,
}
use simplicio_fast.Prelude.Int.{ℤ}
use simplicio_fast.Validation.{
  Error, ValidationKey, ValidationResult, ValidationCache, Put, new_cache, put, acquire_lease,
  release_lease, gc, stored, leased, released, with_leases, leases_of, is_leased, is_nil,
  is_missing, lease_id_invalid, key_digest_of, check_put, check_lease, putting, add, collected,
  candidates_of,
}
use simplicio_fast.Validation.Leases.{
  Call, put_call, acquire_call, release_call, gc_call, step, run, gc-keeps, gc-lookup, after-keeps,
  erase_all-Distinct,
}

-- a key that a collection must leave
abbrev pub Held : List String → ValidationCache → String → Type 0
Held kept c kd =
    (is_leased kd c.leases ≡ true)
    ⊎ ((r : ValidationResult) × (lookup kd c.entries ≡ some r)
        × (contains r.generation kept ≡ true))

pub record Pinned (c : ValidationCache) : Type 0 where
  pub distinct : Distinct c.entries
  pub held : (kd : String) → is_leased kd c.leases ≡ true → has kd c.entries ≡ true

nil-keep : (p : String → Bool) (xs : List String) → is_nil (keep p xs) ≡ false → is_nil xs ≡ false
nil-keep p [] h = h
nil-keep p (x ∷ xs) h = refl

-- a key that is leased after a lease was given back
leased-with_leases :
    (kd j : String) (ids : List String) (leases : Dict String (List String))
    → (is_nil ids ≡ false → is_leased kd leases ≡ true)
    → is_leased j (with_leases kd ids leases) ≡ true
    → is_leased j leases ≡ true
leased-with_leases kd j [] leases was h = ground (arith, lookup-erase kd j leases)
leased-with_leases kd j (id ∷ ids) leases was h =
    ground (arith, lookup-insert kd j (id ∷ ids) leases, eq_iff kd j, was refl)

leased-insert :
    (kd j : String) (ids : List String) (leases : Dict String (List String))
    (entries : Dict String ValidationResult)
    → has kd entries ≡ true
    → (is_leased j leases ≡ true → has j entries ≡ true)
    → is_leased j (insert kd ids leases) ≡ true
    → has j entries ≡ true
leased-insert kd j ids leases entries present was h = elim (Bool-cases (kd == j)) [
  | inl same ↦ ap (λ k. has k entries) (sym ((eq_iff kd j).0 same)) ∙ present
  | inr other ↦ was (ground (arith, lookup-insert kd j ids leases))
]

pub some_entry :
    (found : Option ValidationResult)
    → elim found [ none ↦ false | some r ↦ true ] ≡ true
    → (r : ValidationResult) × (found ≡ some r)
some_entry none h = cc
some_entry (some r) h = (r, refl)

has_entry :
    (kd : String) (r : ValidationResult) (d : Dict String ValidationResult)
    → lookup kd d ≡ some r
    → has kd d ≡ true
has_entry kd r d h = rw (has, h) refl

module _ (sha256 : List ℕ → String) where
  put-Pinned :
      (k : ValidationKey) (q : Put) (c : ValidationCache) → Pinned c → Pinned (put sha256 k q c).1
  unfolding put
  put-Pinned k q c p =
      after-keeps Pinned c (check_put sha256 k q) (putting sha256 k q c) p
        (λ checked _. storing checked.0 _)
    where
      storing : (kd : String) (r : Result Error ValidationResult) → Pinned (stored c kd r).1
      storing kd (err e) = p
      storing kd (ok r) = record {
        distinct = insert-Distinct kd r c.entries p.distinct;
        held = λ j h. has-insert j kd r c.entries (p.held j h);
      }

  acquire_lease-Pinned :
      (k : ValidationKey) (id : String) (c : ValidationCache)
      → Pinned c
      → Pinned (acquire_lease sha256 k id c).1
  unfolding acquire_lease
  acquire_lease-Pinned k id c p =
      after-keeps Pinned c (check_lease sha256 k id) (λ kd. leased c kd id) p (λ kd _. leasing kd)
    where
      leasing : (kd : String) → Pinned (leased c kd id).1
      leasing kd = elim (Bool-cases (has kd c.entries)) [
        | inr missing ↦ rw missing p
        | inl present ↦ rw present record {
          distinct = p.distinct;
          held = λ j.
              leased-insert kd j (add id (leases_of kd c.leases)) c.leases c.entries present
                (p.held j);
        }
      ]

  release_lease-Pinned :
      (k : ValidationKey) (id : String) (c : ValidationCache)
      → Pinned c
      → Pinned (release_lease sha256 k id c).1
  unfolding release_lease
  release_lease-Pinned k id c p =
      after-keeps Pinned c (raise_if (is_missing id) lease_id_invalid >> key_digest_of sha256 k)
        (λ kd. released c kd id) p
        (λ kd _. record {
          distinct = p.distinct;
          held = λ j h. p.held j (
              leased-with_leases kd j _ c.leases
                (λ some_left. ap not (nil-keep _ (leases_of kd c.leases) some_left)) h);
        })

  gc-Distinct :
      (kept : List String) (max : ℤ) (dry : Bool) (c : ValidationCache)
      → Distinct c.entries
      → Distinct (gc sha256 kept max dry c).1.entries
  gc-Distinct kept max dry c h =
      gc-keeps sha256 (λ c'. Distinct c'.entries) kept max dry c h
        (λ n. swept n dry (candidates_of c kept n))
    where
      swept : (n : ℕ) (b : Bool) (ks : List String) → Distinct (collected c kept n b ks).1.entries
      swept n true ks = h
      swept n false ks = erase_all-Distinct ks c.entries h

  gc-leases :
      (kept : List String) (max : ℤ) (dry : Bool) (c : ValidationCache)
      → (gc sha256 kept max dry c).1.leases ≡ c.leases
  gc-leases kept max dry c =
      gc-keeps sha256 (λ c'. c'.leases ≡ c.leases) kept max dry c refl
        (λ n. swept n dry (candidates_of c kept n))
    where
      swept : (n : ℕ) (b : Bool) (ks : List String) → (collected c kept n b ks).1.leases ≡ c.leases
      swept n true ks = refl
      swept n false ks = refl

  gc-Pinned :
      (kept : List String) (max : ℤ) (dry : Bool) (c : ValidationCache)
      → Pinned c
      → Pinned (gc sha256 kept max dry c).1
  gc-Pinned kept max dry c p = record {
    distinct = gc-Distinct kept max dry c p.distinct;
    held = λ j h.
        let was : is_leased j c.leases ≡ true =
          ap (is_leased j) (sym (gc-leases kept max dry c)) ∙ h in
        let (r, found) = some_entry _ (p.held j was) in
        has_entry j r _ (gc-lookup sha256 kept max dry c j r p.distinct found (inr was));
  }

  step-Pinned : (call : Call) (c : ValidationCache) → Pinned c → Pinned (step sha256 call c)
  unfolding step
  step-Pinned (put_call k q) c p = put-Pinned k q c p
  step-Pinned (acquire_call k id) c p = acquire_lease-Pinned k id c p
  step-Pinned (release_call k id) c p = release_lease-Pinned k id c p
  step-Pinned (gc_call kept max dry) c p = gc-Pinned kept max dry c p

  run_from-Pinned :
      (calls : List Call) (c : ValidationCache) → Pinned c → Pinned (run sha256 calls c)
  unfolding run
  run_from-Pinned [] c p = p
  run_from-Pinned (call ∷ calls) c p =
      run_from-Pinned calls (step sha256 call c) (step-Pinned call c p)

  pub run-Pinned : (calls : List Call) → Pinned (run sha256 calls new_cache)
  run-Pinned calls = run_from-Pinned calls new_cache (record { distinct = tt; held = λ kd h. cc })

  -- After any calls on a new cache, those that raise included, let a key be leased, or have an entry whose
  -- generation is one to keep. Then the key has an entry, and `gc` leaves that entry as it is, with any other
  -- arguments.
  pub run-gc :
      (calls : List Call) (kept : List String) (max : ℤ) (dry : Bool) (kd : String)
      → Held kept (run sha256 calls new_cache) kd
      → (r : ValidationResult) × (lookup kd (run sha256 calls new_cache).entries ≡ some r)
        × (lookup kd (gc sha256 kept max dry (run sha256 calls new_cache)).1.entries ≡ some r)
  run-gc calls kept max dry kd (inl leased) =
      let p = run-Pinned calls in
      let (r, found) = some_entry _ (p.held kd leased) in
      (
        r,
        found,
        gc-lookup sha256 kept max dry (run sha256 calls new_cache) kd r p.distinct found
            (inr leased),
      )
  run-gc calls kept max dry kd (inr (r, found, recent)) = (
    r,
    found,
    gc-lookup sha256 kept max dry (run sha256 calls new_cache) kd r (run-Pinned calls).distinct
        found (inl recent),
  )
