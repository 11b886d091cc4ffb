-- ===== src/Validation/Conflicts.antt =====
-- Results of one key that differ, in src/simplicio_fast/validation_cache.py: what `put` makes of them.
use text.Mathlib.TextEquality.{eq_iff}
use simplicio_fast.Prelude.{
  ℕ, String, ◌≡◌, refl, sym, ap, ◌∙◌, inl, inr, Bool, true, false, Bool-cases, not, ◌&&◌, ◌||◌,
  Option, none, some, List, arith, Result, ok, err, Result-cases, followed, ◌⊎◌, if◌then◌else◌,
  strings_equate,
}
use simplicio_fast.Prelude.Dict.{lookup, insert, lookup-insert_self}
use simplicio_fast.Validation.{
  Error, ValidationKey, ValidationResult, ValidationCache, Put, put, get, stored, digest,
  key_digest_of, check_put, putting, accepted, partial, plain, plain_entry, entry_for, conflicts,
}
use simplicio_fast.Validation.Made.{make_result-same, entry_for-made, same_digest, check_put-digest}

same_result :
    (v r : ValidationResult) → ◌≡◌ {A = Result Error ValidationResult} (ok v) (ok r) → v ≡ r
same_result v r h = cc

stored-ok :
    (c : ValidationCache) (kd : String) (m : Result Error ValidationResult) (r : ValidationResult)
    → (stored c kd m).0 ≡ ok r
    → (m ≡ ok r) × ((stored c kd m).1.entries ≡ insert kd r c.entries)
stored-ok c kd (err x) r h = cc
stored-ok c kd (ok v) r h = (h, ap (λ t. insert kd t c.entries) (same_result v r h))

refused_again :
    (a b v f n : Bool) (x : ValidationResult)
    → n ≡ true
    → (if a || b || (not v || not f || n) then none else some x) ≡ none
refused_again a b v f n x h = ground arith

let_again :
    (a b v f n : Bool) (x : ValidationResult)
    → v ≡ true
    → f ≡ true
    → n ≡ false
    → (if (a && not f) || (b && not v) || (not v || not f || n) then none else some x) ≡ some x
let_again a b v f n x hv hf hn = ground arith

-- what an entry says of the results that it was made from
pub entry_for-cases :
    (k : ValidationKey) (q : Put) (kd rd : String) (command : List String)
    (previous : Option ValidationResult) (r : ValidationResult)
    → entry_for k q kd rd command previous ≡ ok r
    → ((conflicts rd previous ≡ true) × (r ≡ partial k q kd rd command previous))
      ⊎ ((conflicts rd previous ≡ false) × (r ≡ plain k q kd rd command))
entry_for-cases k q kd rd command previous r h = elim (Bool-cases (conflicts rd previous)) [
  | inl other ↦ inl (
    other,
    sym (make_result-same (partial k q kd rd command previous) r (rw (entry_for, other) at h)).0,
  )
  | inr same ↦
      let plain_made : plain_entry k q kd rd command ≡ ok r = rw (entry_for, same) at h in
      inr (same, sym (make_result-same (plain k q kd rd command) r (followed _ _ plain_made).1).0)
]

same_checked :
    (x : Result Error (String × List String)) (a b : String) (c d : List String)
    → x ≡ ok (a, c)
    → x ≡ ok (b, d)
    → a ≡ b
same_checked x a b c d h k = same_digest a b c d (sym h ∙ k)

-- with the same result before, a put is no conflict
no_conflict :
    (rd : String) (r : ValidationResult) → r.result_digest ≡ rd → conflicts rd (some r) ≡ false
no_conflict rd r h = ground (arith, eq_iff r.result_digest rd)

module _ (sha256 : List ℕ → String) where
  put-stored :
      (k : ValidationKey) (q : Put) (c : ValidationCache) (kd : String) (command : List String)
      → check_put sha256 k q ≡ ok (kd, command)
      → put sha256 k q c ≡ putting sha256 k q c (kd, command)
  unfolding put
  put-stored k q c kd command h = rw (put, h) refl

  refused-put :
      (k : ValidationKey) (q : Put) (c : ValidationCache) (r : ValidationResult) (x : Error)
      → check_put sha256 k q ≡ err x
      → (put sha256 k q c).0 ≡ err x
  unfolding put
  refused-put k q c r x h = rw (put, h) refl

  -- a call of `put` that returned
  put-returned :
      (k : ValidationKey) (q : Put) (c : ValidationCache) (r : ValidationResult)
      → (put sha256 k q c).0 ≡ ok r
      → (kd : String) × (command : List String) × (check_put sha256 k q ≡ ok (kd, command))
        × (entry_for k q kd (digest sha256 q.result) command (lookup kd c.entries) ≡ ok r)
        × ((put sha256 k q c).1.entries ≡ insert kd r c.entries)
  put-returned k q c r h = elim (Result-cases (check_put sha256 k q)) [
    | inr (x, refused) ↦ cc (refused-put k q c r x refused, h)
    | inl ((kd, command), checked) ↦
        let whole = put-stored k q c kd command checked in
        let entry = entry_for k q kd (digest sha256 q.result) command (lookup kd c.entries) in
        let (made, kept) = stored-ok c kd entry r (ap (λ t. t.0) (sym whole) ∙ h) in
        (kd, command, checked, made, ap (λ t. t.1.entries) whole ∙ kept)
  ]

  get-entry :
      (k : ValidationKey) (c : ValidationCache) (kd : String) (r : ValidationResult)
      (fresh verified : Bool)
      → key_digest_of sha256 k ≡ ok kd
      → lookup kd c.entries ≡ some r
      → get sha256 k fresh verified true c ≡ ok (accepted fresh verified true (some r))
  unfolding get
  get-entry k c kd r fresh verified digested found = rw (get, digested, found) refl

  -- Let a call of `put` return an entry that is marked as nondeterministic, since the key had another result
  -- before: `get` then has nothing of that key for reuse. The same call once more forgets it: if it says that
  -- the result is verified and fresh, the entry that it returns is not marked, and `get` hands it out for reuse.
  pub put-again :
      (k : ValidationKey) (q : Put) (c : ValidationCache) (r r' : ValidationResult)
      (fresh verified : Bool)
      → (put sha256 k q c).0 ≡ ok r
      → r.nondeterministic ≡ true
      → q.verified ≡ true
      → q.fresh ≡ true
      → (put sha256 k q (put sha256 k q c).1).0 ≡ ok r'
      → (get sha256 k fresh verified true (put sha256 k q c).1 ≡ ok none)
        × (r'.nondeterministic ≡ false)
        × (get sha256 k fresh verified true (put sha256 k q (put sha256 k q c).1).1 ≡ ok (some r'))
  put-again k q c r r' fresh verified first marked sure recent second =
      let (kd, command, checked, made, entries) = put-returned k q c r first in
      let (kd', command', checked', made', entries') =
        put-returned k q (put sha256 k q c).1 r' second in
      let digested = check_put-digest sha256 k q (kd, command) checked in
      let digested' = check_put-digest sha256 k q (kd', command') checked' in
      let found : lookup kd (put sha256 k q c).1.entries ≡ some r =
        ap (lookup kd) entries ∙ lookup-insert_self kd r c.entries in
      let found' : lookup kd' (put sha256 k q (put sha256 k q c).1).1.entries ≡ some r' =
        ap (lookup kd') entries' ∙ lookup-insert_self kd' r' (put sha256 k q c).1.entries in
      let at_first : lookup kd' (put sha256 k q c).1.entries ≡ some r =
        ap (λ t. lookup t (put sha256 k q c).1.entries)
          (same_checked _ kd' kd command' command checked' checked)
        ∙ found in
      let result =
        (entry_for-made k q kd (digest sha256 q.result) command (lookup kd c.entries) r made).3 in
      let calm : conflicts (digest sha256 q.result) (lookup kd' (put sha256 k q c).1.entries)
          ≡ false =
        ap (conflicts (digest sha256 q.result)) at_first
        ∙ no_conflict (digest sha256 q.result) r result in
      let same : r' ≡ plain k q kd' (digest sha256 q.result) command' =
        elim (entry_for-cases k q kd' (digest sha256 q.result) command'
          (lookup kd' (put sha256 k q c).1.entries) r' made') [
            | inl (other, made) ↦ cc (other, calm)
            | inr (quiet, plainly) ↦ plainly
          ] in
      (
        get-entry k (put sha256 k q c).1 kd r fresh verified digested found
            ∙ ap ok (
                refused_again (fresh && not r.fresh) (verified && not r.verified) r.verified r.fresh
                  r.nondeterministic r marked),
        ap (λ t. t.nondeterministic) same,
        get-entry k (put sha256 k q (put sha256 k q c).1).1 kd' r' fresh verified digested' found'
            ∙ ap ok (
                let_again fresh verified r'.verified r'.fresh r'.nondeterministic r'
                  (ap (λ t. t.verified) same ∙ sure) (ap (λ t. t.fresh) same ∙ recent)
                  (ap (λ t. t.nondeterministic) same)),
      )
