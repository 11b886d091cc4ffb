-- ===== src/Receipts/Journal.antt =====
-- `ReceiptJournal.append` of src/simplicio_fast/generation_receipts.py: a retry gets the receipt on
-- record, and no receipt on record is replaced.
use simplicio_fast.Prelude.{
  ℕ, String, ◌≡◌, ◌≢◌, refl, sym, ap, ◌∙◌, inl, inr, Bool, true, false, some, List, [], ◌∷◌, Result,
  ok, err, strings_equate, arith, Bool-cases, Option-cases, Result-cases,
}
use text.Mathlib.TextEquality.{eq_iff}
use simplicio_fast.Prelude.Dict.{Dict, lookup, lookup-insert, lookup-insert_self}
use simplicio_fast.Prelude.Json.{obj, Fields}
use simplicio_fast.Prelude.Json.Equality.{json_beq, json_beq_refl, IsDictFields}
use simplicio_fast.Receipts.{Error, verified_key, record_receipt, append}

reused : {a b : Fields} → ◌≢◌ {A = Result Error (Fields × Bool)} (ok (a, true)) (ok (b, false))
reused h = cc

collides : {e : Error} {p : Fields × Bool} → ◌≢◌ {A = Result Error (Fields × Bool)} (err e) (ok p)
collides h = cc

module _ (sha256 : List ℕ → String) where
  unfoldable pub append_all : List Fields → Dict String Fields → Dict String Fields
  unfolding append
  append_all [] j = j
  append_all (r ∷ rs) j = append_all rs (append sha256 r j).1

  record_receipt-keeps :
      (key other : String) (item held : Fields) (j : Dict String Fields)
      → lookup other j ≡ some held
      → lookup other (record_receipt sha256 key item j).1 ≡ some held
  unfolding record_receipt
  record_receipt-keeps key other item held j h = elim (Option-cases (lookup key j)) [
    | inl absent ↦
        rw (record_receipt, absent)
          (ground (arith, eq_iff key other, lookup-insert key other item j))
    | inr (existing, found) ↦ elim (Bool-cases (json_beq (obj existing) (obj item))) [
      | inl same ↦ rw (record_receipt, found, same) h
      | inr differ ↦ rw (record_receipt, found, differ) h
    ]
  ]

  append-keeps :
      (r : Fields) (other : String) (held : Fields) (j : Dict String Fields)
      → lookup other j ≡ some held
      → lookup other (append sha256 r j).1 ≡ some held
  unfolding append
  append-keeps r other held j h = elim (Result-cases (verified_key sha256 r)) [
    | inl (key, good) ↦ rw (append, good) (record_receipt-keeps key other r held j h)
    | inr (e, bad) ↦ rw (append, bad) h
  ]

  append_all-keeps :
      (rs : List Fields) (other : String) (held : Fields) (j : Dict String Fields)
      → lookup other j ≡ some held
      → lookup other (append_all rs j) ≡ some held
  unfolding append_all
  append_all-keeps [] other held j h = h
  append_all-keeps (r ∷ rs) other held j h =
      append_all-keeps rs other held (append sha256 r j).1 (append-keeps r other held j h)

  record_receipt_new :
      (key : String) (r : Fields) (j : Dict String Fields)
      → (record_receipt sha256 key r j).0 ≡ ok (r, false)
      → lookup key (record_receipt sha256 key r j).1 ≡ some r
  unfolding record_receipt
  record_receipt_new key r j h = elim (Option-cases (lookup key j)) [
    | inl absent ↦ rw (record_receipt, absent) (lookup-insert_self key r j)
    | inr (existing, found) ↦ elim (Bool-cases (json_beq (obj existing) (obj r))) [
      | inl same ↦ absurd (reused (rw (record_receipt, found, same) at h))
      | inr differ ↦ absurd (collides (rw (record_receipt, found, differ) at h))
    ]
  ]

  record_receipt_again :
      (key : String) (r : Fields) (j : Dict String Fields)
      → IsDictFields r
      → lookup key j ≡ some r
      → record_receipt sha256 key r j ≡ (ok (r, true), j)
  unfolding record_receipt
  record_receipt_again key r j d h = rw (record_receipt, h, json_beq_refl (obj r) d) refl

  append_verified :
      (r : Fields) (key : String) (j : Dict String Fields)
      → verified_key sha256 r ≡ ok key
      → append sha256 r j ≡ record_receipt sha256 key r j
  unfolding append
  append_verified r key j good = rw (append, good) refl

  append_refused :
      (r : Fields) (e : Error) (j : Dict String Fields)
      → verified_key sha256 r ≡ err e
      → append sha256 r j ≡ (err e, j)
  unfolding append
  append_refused r e j bad = rw (append, bad) refl

  -- A receipt that was recorded is still the one on record after any sequence of appends, those that
  -- raise included, and appending it again then returns it with the mark of a reuse and leaves the
  -- journal as it is; the receipt is a dict that names no key twice.
  append_retry :
      (r : Fields) (j : Dict String Fields) (rs : List Fields)
      → IsDictFields r
      → (append sha256 r j).0 ≡ ok (r, false)
      → append sha256 r (append_all rs (append sha256 r j).1)
        ≡ (ok (r, true), append_all rs (append sha256 r j).1)
  append_retry r j rs d h = elim (Result-cases (verified_key sha256 r)) [
    | inr (e, bad) ↦ absurd (collides (sym (ap (λ p. p.0) (append_refused r e j bad)) ∙ h))
    | inl (key, good) ↦
        let done = append_verified r key j good in
        let new = record_receipt_new key r j (sym (ap (λ p. p.0) done) ∙ h) in
        let held : lookup key (append sha256 r j).1 ≡ some r = rw done new in
        append_verified r key (append_all rs (append sha256 r j).1) good
        ∙ record_receipt_again key r (append_all rs (append sha256 r j).1) d
            (append_all-keeps rs key r (append sha256 r j).1 held)
  ]
