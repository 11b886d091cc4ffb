-- ===== src/Validation/Saving.antt =====
-- `save` and `load` of src/simplicio_fast/validation_cache.py, one after the other.
use text.Mathlib.TextEquality.{eq_iff}
use simplicio_fast.Prelude.{
  ℕ, String, ◌≡◌, refl, sym, ap, ◌∙◌, inl, inr, Bool, true, false, Bool-cases, not, ◌||◌, Option,
  none, some, List, [], ◌∷◌, arith, Result, ok, ◌>>◌, raise_if, if◌then◌else◌, ◌==◌, strings_equate,
  contains, All,
}
use simplicio_fast.Prelude.Dict.{
  Dict, lookup, has, insert, keys, lookup-insert, lookup-insert_self, Distinct,
}
use simplicio_fast.Prelude.Json.{Json, obj, Items, item, Fields, strs}
use simplicio_fast.Prelude.Json.Equality.{json_get, json_beq}
use simplicio_fast.Prelude.Sorting.{sort_by, insert_by, str_ltb}
use simplicio_fast.Validation.{
  Error, cache_digest_mismatch, ValidationResult, ValidationCache, new_cache, digest, make_result,
  is_missing, itself, sorted,
}
use simplicio_fast.Validation.Files.{
  result_fields, entry_items, body_of, item_texts, entry_of, load_items, with_entries, document_of,
  save, load,
}
use simplicio_fast.Validation.Leases.{Call, run}
use simplicio_fast.Validation.Pinned.{some_entry, run-Pinned}
use simplicio_fast.Validation.Reuse.{Sound, AllSound, run-AllSound, new-AllSound}

item_texts-strs : (ss : List String) → item_texts (strs ss) ≡ ok ss
item_texts-strs [] = refl
item_texts-strs (s ∷ ss) = rw (item_texts-strs ss) refl

entry_of-result_fields :
    (r : ValidationResult)
    → make_result r ≡ ok r
    → is_missing r.key_digest ≡ false
    → is_missing r.result_digest ≡ false
    → entry_of (result_fields r) ≡ ok r
unfolding entry_of json_get
entry_of-result_fields r made key result =
    rw
      (
        entry_of,
        item_texts-strs r.command,
        item_texts-strs r.evidence,
        item_texts-strs r.provenance,
        key,
        result,
        made,
      )
      refl

-- no text stands twice
abbrev NoTwice : List String → Type 0
NoTwice [] = Unit
NoTwice (k ∷ ks) = (contains k ks ≡ false) × NoTwice ks

contains-insert_by :
    (j x : String) (xs : List String)
    → contains j (insert_by itself x xs) ≡ (j == x || contains j xs)
contains-insert_by j x [] = refl
contains-insert_by j x (y ∷ ys) = elim (Bool-cases (str_ltb y x)) [
  | inl e ↦ rw (e, contains-insert_by j x ys) (ground arith)
  | inr e ↦ rw e refl
]

insert_by-NoTwice :
    (x : String) (xs : List String)
    → contains x xs ≡ false
    → NoTwice xs
    → NoTwice (insert_by itself x xs)
insert_by-NoTwice x [] h hs = (refl, tt)
insert_by-NoTwice x (y ∷ ys) h hs = elim (Bool-cases (str_ltb y x)) [
  | inl e ↦ rw e (
    contains-insert_by y x ys ∙ ground (arith, eq_iff x y, eq_iff y x),
    insert_by-NoTwice x ys (ground arith) hs.1,
  )
  | inr e ↦ rw e (h, hs)
]

pub contains-sorted : (j : String) (xs : List String) → contains j (sorted xs) ≡ contains j xs
unfolding sort_by
contains-sorted j [] = refl
contains-sorted j (x ∷ xs) =
    contains-insert_by j x (sorted xs) ∙ ap (λ b. j == x || b) (contains-sorted j xs)

sorted-NoTwice : (xs : List String) → NoTwice xs → NoTwice (sorted xs)
unfolding sort_by
sorted-NoTwice [] h = tt
sorted-NoTwice (x ∷ xs) h =
    insert_by-NoTwice x (sorted xs) (contains-sorted x xs ∙ h.0) (sorted-NoTwice xs h.1)

contains-keys : (j : String) (d : Dict String ValidationResult) → contains j (keys d) ≡ has j d
contains-keys j [] = refl
contains-keys j ((k, r) ∷ d) = ground (arith, eq_iff j k, eq_iff k j, contains-keys j d)

keys-NoTwice : (d : Dict String ValidationResult) → Distinct d → NoTwice (keys d)
keys-NoTwice [] h = tt
keys-NoTwice ((k, r) ∷ d) h = (contains-keys k d ∙ ground arith, keys-NoTwice d h.1)

abbrev Stored : Dict String ValidationResult → String → Type 0
Stored d k = (r : ValidationResult) × (lookup k d ≡ some r) × Sound k r

Stored-keys :
    (d : Dict String ValidationResult) (ks : List String)
    → AllSound d
    → ((k : String) → contains k ks ≡ true → has k d ≡ true)
    → All (Stored d) ks
Stored-keys d [] sound h = tt
Stored-keys d (k ∷ ks) sound h =
    let (r, found) = some_entry (lookup k d) (h k (ground (arith, eq_iff k k))) in
    ((r, found, sound k r found), Stored-keys d ks sound (λ j inside. h j (ground arith)))

load_next :
    (fs : Fields) (xs : Items) (r : ValidationResult) (acc out : Dict String ValidationResult)
    → entry_of fs ≡ ok r
    → lookup r.key_digest acc ≡ none
    → load_items xs (insert r.key_digest r acc) ≡ ok out
    → load_items (item (obj fs) xs) acc ≡ ok out
unfolding load_items
load_next fs xs r acc out entry fresh rest = rw (load_items, entry, has, fresh) rest

fresh_after :
    (k : String) (r : ValidationResult) (acc : Dict String ValidationResult) (ks : List String)
    → contains k ks ≡ false
    → All (λ j. lookup j acc ≡ none) ks
    → All (λ j. lookup j (insert k r acc) ≡ none) ks
fresh_after k r acc [] h a = tt
fresh_after k r acc (j ∷ ks) h a =
    (ground (arith, lookup-insert k j r acc), fresh_after k r acc ks (ground arith) a.1)

merged :
    (j k : String) (r : ValidationResult) (d acc : Dict String ValidationResult) (inside : Bool)
    → lookup k d ≡ some r
    → (if inside then lookup j d else lookup j (insert k r acc))
      ≡ (if (j == k || inside) then lookup j d else lookup j acc)
merged j k r d acc inside found = elim (Bool-cases (j == k)) [
  | inl same ↦
      let here : j ≡ k = (eq_iff j k).0 same in
      rw (same, here, found, lookup-insert_self k r acc) (ground arith)
  | inr other ↦ ground (arith, lookup-insert k j r acc, eq_iff j k, eq_iff k j)
]

load_items-entry_items :
    (ks : List String) (d acc : Dict String ValidationResult)
    → All (Stored d) ks
    → NoTwice ks
    → All (λ k. lookup k acc ≡ none) ks
    → (out : Dict String ValidationResult) × (load_items (entry_items ks d) acc ≡ ok out)
      × ((j : String) → lookup j out ≡ (if contains j ks then lookup j d else lookup j acc))
unfolding load_items
load_items-entry_items [] d acc h once fresh = (acc, refl, λ j. refl)
load_items-entry_items (k ∷ ks) d acc h once fresh =
    let (r, found, (key, proved, made, result, present)) = h.0 in
    let (out, whole, looks) =
      load_items-entry_items ks d (insert k r acc) h.1 once.1
        (fresh_after k r acc ks once.0 fresh.1) in
    let entry = entry_of-result_fields r made (ap is_missing key ∙ present) result in
    (
      out,
      rw (entry_items, found)
          (load_next (result_fields r) (entry_items ks d) r acc out entry
            (ap (λ t. lookup t acc) key ∙ fresh.0)
            (ap (λ t. load_items (entry_items ks d) (insert t r acc)) key ∙ whole)),
      λ j. looks j ∙ merged j k r d acc (contains j ks) found,
    )

all_empty : (ks : List String) → All (λ k. lookup {V = ValidationResult} k [] ≡ none) ks
all_empty [] = tt
all_empty (k ∷ ks) = (refl, all_empty ks)

same_option :
    (found : Option ValidationResult)
    → (if elim found [ none ↦ false | some r ↦ true ] then found else none) ≡ found
same_option none = refl
same_option (some r) = refl

checked_sum :
    (s : String) (m : Result Error ValidationCache)
    → (raise_if (not (s == s)) cache_digest_mismatch >> m) ≡ m
checked_sum s m = ground (arith, eq_iff s s)

same_lookup :
    (j : String) (d : Dict String ValidationResult)
    → (if has j d then lookup j d else none) ≡ lookup j d
same_lookup j d = same_option (lookup j d)

module _ (sha256 : List ℕ → String) where
  -- Take a cache after any calls on a new one. If `json.loads` gives back the document that `save` wrote, `load`
  -- accepts the file: the cache that it returns has the same entry as the saved one under every key, and no
  -- leases. In particular no entry that a call stored is refused.
  pub load-save :
      (loads : List ℕ → Option Json) (calls : List Call)
      → loads (save sha256 (run sha256 calls new_cache)).1
        ≡ some (document_of sha256 (run sha256 calls new_cache))
      → (c : ValidationCache) × (load sha256 loads
            (some (save sha256 (run sha256 calls new_cache)).1)
          ≡ ok c)
        × ((kd : String) → lookup kd c.entries ≡ lookup kd (run sha256 calls new_cache).entries)
        × (c.leases ≡ [])
  unfolding load json_get json_beq
  load-save loads calls back =
      let c = run sha256 calls new_cache in
      let d = c.entries in
      let once = keys-NoTwice d (run-Pinned sha256 calls).distinct in
      let (out, whole, looks) =
        load_items-entry_items (sorted (keys d)) d []
          (Stored-keys d (sorted (keys d))
            (run-AllSound sha256 calls new_cache (new-AllSound sha256))
            (λ k inside. sym (contains-keys k d) ∙ sym (contains-sorted k (keys d)) ∙ inside))
          (sorted-NoTwice (keys d) once) (all_empty (sorted (keys d))) in
      (
        record { entries = out; leases = [] },
        rw (load, back)
            (checked_sum (digest sha256 (body_of d))
                (with_entries (load_items (entry_items (sorted (keys d)) d) []))
              ∙ ap with_entries whole),
        λ kd.
            looks kd
            ∙ ap (λ b. if b then lookup kd d else none)
                (contains-sorted kd (keys d) ∙ contains-keys kd d)
            ∙ same_lookup kd d,
        refl,
      )
