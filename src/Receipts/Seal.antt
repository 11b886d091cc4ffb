-- ===== src/Receipts/Seal.antt =====
-- `seal_receipt` of src/simplicio_fast/generation_receipts.py: what it seals, `verify_receipt` accepts.
use simplicio_fast.Prelude.{
  ℕ, String, ◌≡◌, refl, false, Option, none, some, List, Result, ok, err, ◌>>◌, arith, beq_self,
  strings_equate,
}
use mathlib.Core.Path.{subst}
use text.Mathlib.TextEquality.{eq_iff}
use simplicio_fast.Prelude.Json.{Json, str, obj, Fields, end, field, opt_str}
use simplicio_fast.Prelude.Json.Equality.{json_get, json_beq_refl, IsDictFields}
use simplicio_fast.Receipts.{
  Error, Request, Expected, put, remove, body, keyed, digest, check_request, seal_receipt,
  verify_receipt, mismatches,
}

fields_eq : {a b : Fields} → ◌≡◌ {A = Result Error Fields} (ok a) (ok b) → a ≡ b
fields_eq h = cc

followed :
    (m : Result Error Unit) (k : Result Error Fields) {r : Fields} → (m >> k) ≡ ok r → k ≡ ok r
followed (err e) k h = cc
followed (ok u) k h = h

remove-put :
    (k : String) (v : Json) (fs : Fields) → json_get k fs ≡ none → remove k (put k v fs) ≡ fs
unfolding json_get
remove-put k v end h = ground (arith, eq_iff k k)
remove-put k v (field j w fs) h = ground (arith, eq_iff k j, remove-put k v fs)

get-put_self : (k : String) (v : Json) (fs : Fields) → json_get k (put k v fs) ≡ some v
unfolding json_get
get-put_self k v end = ground (arith, eq_iff k k)
get-put_self k v (field j w fs) = ground (arith, eq_iff k j, eq_iff k k, get-put_self k v fs)

-- the expectations of one who asked for the receipt
abbrev pub expecting : Request → Expected
expecting q = record {
  repo = some q.repo;
  commit = some q.commit;
  generation = some q.generation;
  source_hashes = some q.source_hashes;
  ancestor_hash = q.ancestor_receipt_hash;
}

own_ancestor : (a : Option String) → mismatches a (some (opt_str a)) ≡ false
own_ancestor none = refl
own_ancestor (some a) = rw (beq_self a) refl

module _ (sha256 : List ℕ → String) where
  abbrev sealed : Request → Fields
  sealed q = put "receipt_hash" (str (digest sha256 (keyed sha256 q))) (keyed sha256 q)

  sealed_rest : (q : Request) → remove "receipt_hash" (sealed q) ≡ keyed sha256 q
  unfolding body json_get
  sealed_rest q =
      remove-put "receipt_hash" (str (digest sha256 (keyed sha256 q))) (keyed sha256 q) refl

  sealed_verifies :
      (q : Request)
      → IsDictFields q.source_hashes
      → verify_receipt sha256 (sealed q) (expecting q) ≡ ok (sealed q)
  unfolding verify_receipt body json_get
  sealed_verifies q d =
      rw
        (
          sealed_rest q,
          beq_self (digest sha256 (keyed sha256 q)),
          beq_self q.repo,
          beq_self q.commit,
          beq_self q.generation,
          own_ancestor q.ancestor_receipt_hash,
          json_beq_refl (obj q.source_hashes) d,
        )
        refl

  -- A receipt that `seal_receipt` returned passes `verify_receipt` against the repository, commit,
  -- generation, source hashes and ancestor that it was sealed for, and is returned unchanged, where
  -- the source hashes name no file twice.
  pub seal-verify :
      (q : Request) (r : Fields)
      → IsDictFields q.source_hashes
      → seal_receipt sha256 q ≡ ok r
      → verify_receipt sha256 r (expecting q) ≡ ok r
  unfolding seal_receipt
  seal-verify q r d h =
      let same : ok (sealed q) ≡ ok r = followed (check_request q) (ok (sealed q)) h in
      subst (λ x. verify_receipt sha256 x (expecting q) ≡ ok x) (fields_eq same)
        (sealed_verifies q d)
