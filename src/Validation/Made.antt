-- ===== src/Validation/Made.antt =====
-- The entries that `put` of src/simplicio_fast/validation_cache.py makes, and their digests.
use Prim.Native.Char.{Char}
use Prim.Native.String.append
use text.Mathlib.TextEquality.{eq_iff}
use simplicio_fast.Prelude.{
  ℕ, String, ◌≡◌, refl, sym, ap, ◌∙◌, inl, inr, Bool, true, false, Bool-cases, not, ◌&&◌, Option,
  List, [], ◌∷◌, Result, ok, ◌>>◌, raise_if, followed, returned, strings_equate, contains, any,
}
use simplicio_fast.Prelude.Json.{Json}
use simplicio_fast.Prelude.Json.Encode.{canonical}
use simplicio_fast.Validation.{
  Error, ValidationKey, ValidationResult, Put, is_nil, is_missing, digest, key_digest_of, check_put,
  make_result, command_of, check_strings, key_dict, partial, plain, plain_entry, entry_for,
  conflicts, result_provenance_required, result_status_invalid, result_command_invalid,
  result_evidence_invalid, result_provenance_invalid,
}

same_ok :
    (r r' : ValidationResult) → ◌≡◌ {A = Result Error ValidationResult} (ok r) (ok r') → r ≡ r'
same_ok r r' h = cc

last_guard :
    (a b c d e f : Bool) (u v w x y z : Error) (r r' : ValidationResult)
    → (raise_if a u
        >> (raise_if b v
            >> (raise_if c w >> (raise_if d x >> (raise_if e y >> (raise_if f z >> ok r))))))
      ≡ ok r'
    → (r ≡ r') × (f ≡ false)
last_guard true b c d e f u v w x y z r r' h = cc
last_guard false true c d e f u v w x y z r r' h = cc
last_guard false false true d e f u v w x y z r r' h = cc
last_guard false false false true e f u v w x y z r r' h = cc
last_guard false false false false true f u v w x y z r r' h = cc
last_guard false false false false false true u v w x y z r r' h = cc
last_guard false false false false false false u v w x y z r r' h = (same_ok r r' h, refl)

pub make_result-same :
    (r r' : ValidationResult)
    → make_result r ≡ ok r'
    → (r ≡ r') × ((r.verified && is_nil r.provenance) ≡ false)
unfolding make_result
make_result-same r r' h =
    last_guard (not (contains r.status ("pass" ∷ "fail" ∷ "partial" ∷ [])))
      (any is_missing r.command) (is_nil r.command) (any is_missing r.evidence)
      (any is_missing r.provenance) (r.verified && is_nil r.provenance) result_status_invalid
      result_command_invalid result_command_invalid result_evidence_invalid
      result_provenance_invalid result_provenance_required r r' h

pub entry_for-made :
    (k : ValidationKey) (q : Put) (kd rd : String) (command : List String)
    (previous : Option ValidationResult) (r : ValidationResult)
    → entry_for k q kd rd command previous ≡ ok r
    → (r.key_digest ≡ kd)
      × ((r.verified && is_nil r.provenance) ≡ false)
      × (make_result r ≡ ok r)
      × (r.result_digest ≡ rd)
entry_for-made k q kd rd command previous r h = elim (Bool-cases (conflicts rd previous)) [
  | inl other ↦ of_made (partial k q kd rd command previous) refl refl (rw (entry_for, other) at h)
  | inr same ↦
      let plain_made : plain_entry k q kd rd command ≡ ok r = rw (entry_for, same) at h in
      of_made (plain k q kd rd command) refl refl (followed _ _ plain_made).1
]
  where
    of_made :
        (m : ValidationResult)
        → m.key_digest ≡ kd
        → m.result_digest ≡ rd
        → make_result m ≡ ok r
        → (r.key_digest ≡ kd)
          × ((r.verified && is_nil r.provenance) ≡ false)
          × (make_result r ≡ ok r)
          × (r.result_digest ≡ rd)
    of_made m key result made =
        let (same, proved) = make_result-same m r made in
        (
          ap (λ t. t.key_digest) (sym same) ∙ key,
          ap (λ t. t.verified && is_nil t.provenance) (sym same) ∙ proved,
          ap make_result (sym same) ∙ made,
          ap (λ t. t.result_digest) (sym same) ∙ result,
        )

not_empty : {A : Type 0} (c : Char) (s : String) → String.◌∷◌ c s ≡ "" → A
not_empty c s h = cc

same_text : (x y : String) → ◌≡◌ {A = Result Error String} (ok x) (ok y) → x ≡ y
same_text x y h = cc

pub same_digest :
    (x y : String) (c d : List String)
    → ◌≡◌ {A = Result Error (String × List String)} (ok (x, c)) (ok (y, d))
    → x ≡ y
same_digest x y c d h = cc

module _ (sha256 : List ℕ → String) where
  pub digest-present : (v : Json) → is_missing (digest sha256 v) ≡ false
  unfolding digest
  digest-present v = elim (Bool-cases (is_missing (digest sha256 v))) [
    | inl empty ↦ not_empty _ _ (
        sym (append.cons "s" "ha256:" (sha256 (canonical true v)))
        ∙ (eq_iff (digest sha256 v) "").0 empty)
    | inr some_text ↦ some_text
  ]

  pub check_put-digest :
      (k : ValidationKey) (q : Put) (checked : String × List String)
      → check_put sha256 k q ≡ ok checked
      → key_digest_of sha256 k ≡ ok checked.0
  unfolding check_put
  check_put-digest k q (kd, command) h =
      let (kd', digested, rest) = returned (key_digest_of sha256 k) _ h in
      let (command', named, rest2) = returned (command_of k q.command) _ rest in
      let (good, rest3) = followed (check_strings q.evidence result_evidence_invalid) _ rest2 in
      let (good2, last) = followed (check_strings q.provenance result_provenance_invalid) _ rest3 in
      digested ∙ ap ok (same_digest kd' kd command' command last)

  pub check_put-present :
      (k : ValidationKey) (q : Put) (checked : String × List String)
      → check_put sha256 k q ≡ ok checked
      → is_missing checked.0 ≡ false
  check_put-present k q checked h =
      let (v, listed, digested) = returned (key_dict k) _ (check_put-digest k q checked h) in
      ap is_missing (sym (same_text (digest sha256 v) checked.0 digested)) ∙ digest-present v
