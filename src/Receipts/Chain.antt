-- ===== src/Receipts/Chain.antt =====
-- `verify_chain` of src/simplicio_fast/generation_receipts.py against the chain that it looks for.
use simplicio_fast.Prelude.{
  ℕ, String, ◌≡◌, ◌↔◌, refl, sym, ap, ◌∙◌, true, false, not, Option, none, some, List, [], ◌∷◌,
  Result, ok, passed, returned, arith, strings_equate,
}
use mathlib.Core.Path.{subst}
use text.Mathlib.TextEquality.{eq_iff}
use simplicio_fast.Prelude.Json.{Json, str, Fields}
use simplicio_fast.Prelude.Json.Equality.{json_get}
use simplicio_fast.Receipts.{
  Error, receipt_schema_invalid, receipt_corrupt, receipt_ancestor_mismatch, schema, remove,
  is_text, mismatches, supplied, text_at, digest, expect_ancestor, verify_receipt, verify_from,
  verify_chain,
}

-- the receipt before, if any, is the one that this receipt names as its ancestor
abbrev pub Follows : Option String → Option Json → Type 0
Follows none actual = Unit
Follows (some h) actual = actual ≡ some (str h)

pub is_text_iff : (v : Option Json) (t : String) → (is_text v t ≡ true) ↔ (v ≡ some (str t))
is_text_iff none t = (λ h. cc, λ h. cc)
is_text_iff (some (str s)) t = (λ h. ground (arith, eq_iff s t), λ h. ground (arith, eq_iff s t))
is_text_iff (some v) t = (λ h. cc, λ h. cc)

result_eq : {a b : List Fields} → ◌≡◌ {A = Result Error (List Fields)} (ok a) (ok b) → a ≡ b
result_eq h = cc

some_eq : {v w : Json} → ◌≡◌ {A = Option Json} (some v) (some w) → v ≡ w
some_eq h = cc

mismatches_iff :
    (h : Option String) (actual : Option Json) → (mismatches h actual ≡ false) ↔ Follows h actual
mismatches_iff none actual = (λ h. tt, λ h. refl)
mismatches_iff (some h) actual =
    (λ m. ground (arith, is_text_iff actual h, m), λ f. ground (arith, is_text_iff actual h, f))

module _ (sha256 : List ℕ → String) where
  -- The receipt has the schema, and carries the digest of the rest of it.
  abbrev pub Intact : Fields → Type 0
  Intact r =
      (json_get "schema" r ≡ some (str schema))
      × (json_get "receipt_hash" r ≡ some (str (digest sha256 (remove "receipt_hash" r))))

  abbrev pub Linked : Option String → List Fields → Type 0
  Linked previous [] = Unit
  Linked previous (r ∷ rs) =
      Intact r
      × Follows previous (json_get "ancestor_receipt_hash" r)
      × Linked (some (digest sha256 (remove "receipt_hash" r))) rs

  -- what `verify_receipt` has checked when it returns, where only an ancestor is expected
  verify_receipt_ok :
      (r item : Fields) (a : Option String)
      → verify_receipt sha256 r (expect_ancestor a) ≡ ok item
      → (json_get "schema" r ≡ some (str schema))
        × (supplied (json_get "receipt_hash" r) ≡ str (digest sha256 (remove "receipt_hash" r)))
        × Follows a (json_get "ancestor_receipt_hash" r)
        × (item ≡ r)
  unfolding verify_receipt
  verify_receipt_ok r item a h =
      let s = passed (not (is_text (json_get "schema" r) schema)) receipt_schema_invalid _ h in
      let d =
        passed
          (not (
            is_text (some (supplied (json_get "receipt_hash" r)))
              (digest sha256 (remove "receipt_hash" r))))
          receipt_corrupt _ s.1 in
      let l =
        passed (mismatches a (json_get "ancestor_receipt_hash" r)) receipt_ancestor_mismatch _
          d.1 in
      (
        (is_text_iff (json_get "schema" r) schema).0 (ground (arith, s.0)),
        some_eq (
            (is_text_iff (some (supplied (json_get "receipt_hash" r)))
                (digest sha256 (remove "receipt_hash" r))).0
              (ground (arith, d.0))),
        (mismatches_iff a (json_get "ancestor_receipt_hash" r)).0 l.0,
        cc,
      )

  hash_at :
      (v : Option Json) (h d : String)
      → text_at v ≡ ok h
      → supplied v ≡ str d
      → (h ≡ d) × (v ≡ some (str d))
  hash_at none h d t s = cc
  hash_at (some (str x)) h d t s = (cc, cc)
  hash_at (some v) h d t s = cc

  verify_from-Linked :
      (p : Option String) (rs out : List Fields)
      → verify_from sha256 p rs ≡ ok out
      → Linked p rs × (out ≡ rs)
  unfolding verify_from
  verify_from-Linked p [] out h = (tt, cc)
  verify_from-Linked p (r ∷ rs) out h =
      let (item, checked, more) = returned (verify_receipt sha256 r (expect_ancestor p)) _ h in
      let (s, d, f, same) = verify_receipt_ok r item p checked in
      let (k, found, rest) = returned (text_at (json_get "receipt_hash" item)) _ more in
      let (tail, verified, done) = returned (verify_from sha256 (some k) rs) _ rest in
      let found : text_at (json_get "receipt_hash" r) ≡ ok k = rw same at found in
      let (at_digest, held) =
        hash_at (json_get "receipt_hash" r) k (digest sha256 (remove "receipt_hash" r)) found d in
      let (linked, all) = verify_from-Linked (some k) rs tail verified in
      (
        ((s, held), f, subst (λ x. Linked (some x) rs) at_digest linked),
        result_eq (sym done) ∙ (ap (λ i. i ∷ tail) same ∙ ap (λ t. r ∷ t) all),
      )

  -- A chain that `verify_chain` accepts is returned unchanged.
  pub verify_chain_same : (rs out : List Fields) → verify_chain sha256 rs ≡ ok out → out ≡ rs
  unfolding verify_chain
  verify_chain_same rs out h = (verify_from-Linked none rs out h).1
