-- ===== src/Validation/Files.antt =====
-- src/simplicio_fast/validation_cache.py: `save` and `load`. The file is replaced in one step; `json.loads` of its
-- bytes is the parameter `loads`, `none` where it raises.
use simplicio_fast.Prelude.{
  ℕ, String, Bool, true, false, not, ◌||◌, Option, none, some, List, [], ◌∷◌, ◌++◌, Result, ok, err,
  ◌>>=◌, ◌>>◌, raise_if, length, strings_equate,
}
use simplicio_fast.Prelude.Dict.{Dict, lookup, has, insert, keys}
use simplicio_fast.Prelude.Json.{
  Json, bool, str, arr, obj, Items, nil, item, Fields, end, field, strs,
}
use simplicio_fast.Prelude.Json.Encode.{canonical}
use simplicio_fast.Prelude.Json.Equality.{json_get, json_beq}
use simplicio_fast.Validation.{
  Error, cache_document_invalid, cache_schema_unsupported, cache_digest_mismatch,
  cache_entries_invalid, cache_entry_invalid, cache_duplicate_entry, ValidationResult,
  ValidationCache, new_cache, digest, make_result, is_missing, sorted,
}

-- `ValidationResult.to_dict`
abbrev pub result_fields : ValidationResult → Fields
result_fields r = field "schema" (str "simplicio.fast.validation-result/v1") (
    field "key_digest" (str r.key_digest) (
      field "status" (str r.status) (
        field "result_digest" (str r.result_digest) (
          field "command" (arr (strs r.command)) (
            field "fresh" (bool r.fresh) (
              field "evidence" (arr (strs r.evidence)) (
                field "verified" (bool r.verified) (
                  field "provenance" (arr (strs r.provenance)) (
                    field "nondeterministic" (bool r.nondeterministic)
                      (field "generation" (str r.generation) end))))))))))

-- `[self._entries[key].to_dict() for key in …]`
abbrev pub entry_items : List String → Dict String ValidationResult → Items
entry_items [] d = nil
entry_items (k ∷ ks) d =
    let rest = entry_items ks d in
    elim (lookup k d) [ none ↦ rest | some r ↦ item (obj (result_fields r)) rest ]

abbrev pub body_of : Dict String ValidationResult → Json
body_of d = obj (
    field "schema" (str "simplicio.fast.validation-cache/v1")
      (field "entries" (arr (entry_items (sorted (keys d)) d)) end))

pub record Saved : Type 0 where
  pub entries : ℕ
  pub cache_sha256 : String

abbrev pub text_of : Option Json → Result Error String
text_of (some (str s)) = ok s
text_of _ = err cache_entry_invalid

abbrev pub flag_of : Option Json → Result Error Bool
flag_of (some (bool b)) = ok b
flag_of _ = err cache_entry_invalid

abbrev pub prepend : String → Result Error (List String) → Result Error (List String)
prepend s (ok ss) = ok (s ∷ ss)
prepend s (err e) = err e

-- `_validate_string_sequence` refuses an item that is no text
abbrev pub item_texts : Items → Result Error (List String)
item_texts nil = ok []
item_texts (item (str s) xs) = prepend s (item_texts xs)
item_texts (item _ xs) = err cache_entry_invalid

abbrev pub texts_of : Option Json → Result Error (List String)
texts_of (some (arr xs)) = item_texts xs
texts_of _ = err cache_entry_invalid

-- `raw.get(key, default)`
abbrev pub default : Json → Option Json → Option Json
default v none = some v
default v (some w) = some w

-- each error in an entry is raised again as `cache_entry_invalid`
abbrev pub again : Result Error ValidationResult → Result Error ValidationResult
again (ok r) = ok r
again (err e) = err cache_entry_invalid

unfoldable pub entry_of : Fields → Result Error ValidationResult
entry_of fs = do
  command ← texts_of (json_get "command" fs)
  evidence ← texts_of (default (arr nil) (json_get "evidence" fs))
  provenance ← texts_of (default (arr nil) (json_get "provenance" fs))
  key ← text_of (json_get "key_digest" fs)
  status ← text_of (json_get "status" fs)
  result ← text_of (json_get "result_digest" fs)
  fresh ← flag_of (json_get "fresh" fs)
  verified ← flag_of (default (bool false) (json_get "verified" fs))
  nondeterministic ← flag_of (default (bool false) (json_get "nondeterministic" fs))
  generation ← text_of (default (str "") (json_get "generation" fs))
  raise_if (is_missing key || is_missing result) cache_entry_invalid
  again (
      make_result (record {
        key_digest = key;
        status = status;
        result_digest = result;
        command = command;
        fresh = fresh;
        evidence = evidence;
        verified = verified;
        provenance = provenance;
        nondeterministic = nondeterministic;
        generation = generation;
      }))

-- The loop of `load`. The digests that it saw are the keys of the entries that it has.
unfoldable pub load_items :
    Items → Dict String ValidationResult → Result Error (Dict String ValidationResult)
load_items nil d = ok d
load_items (item (obj fs) xs) d = do
  r ← entry_of fs
  raise_if (has r.key_digest d) cache_duplicate_entry
  load_items xs (insert r.key_digest r d)
load_items (item _ xs) d = err cache_entries_invalid

abbrev pub with_entries : Result Error (Dict String ValidationResult) → Result Error ValidationCache
with_entries (err e) = err e
with_entries (ok d) = ok (record new_cache { entries = d })

abbrev pub load_entries : Option Json → Result Error ValidationCache
load_entries (some (arr xs)) = with_entries (load_items xs [])
load_entries _ = err cache_entries_invalid

-- `value == expected` of what `dict.get` gives and a text
abbrev pub is_text : String → Option Json → Bool
is_text s none = false
is_text s (some v) = json_beq (str s) v

module _ (sha256 : List ℕ → String) where
  abbrev pub document_of : ValidationCache → Json
  document_of c = obj (
      field "body" (body_of c.entries)
        (field "cache_sha256" (str (digest sha256 (body_of c.entries))) end))

  -- the receipt of `save`, and the bytes of the file
  unfoldable pub save : ValidationCache → Saved × List ℕ
  save c = (
    record { entries = length (keys c.entries); cache_sha256 = digest sha256 (body_of c.entries) },
    canonical true (document_of c) ++ 10 ∷ [],
  )

  abbrev pub load_body : Option Json → Option Json → Result Error ValidationCache
  load_body (some (obj fs)) sum = do
    raise_if (not (is_text "simplicio.fast.validation-cache/v1" (json_get "schema" fs)))
        cache_schema_unsupported
    raise_if (not (is_text (digest sha256 (obj fs)) sum)) cache_digest_mismatch
    load_entries (json_get "entries" fs)
  load_body _ sum = err cache_schema_unsupported

  abbrev pub load_document : Option Json → Result Error ValidationCache
  load_document (some (obj fs)) = load_body (json_get "body" fs) (json_get "cache_sha256" fs)
  load_document _ = err cache_document_invalid

  unfoldable pub load : (List ℕ → Option Json) → Option (List ℕ) → Result Error ValidationCache
  load loads none = err cache_document_invalid
  load loads (some raw) = load_document (loads raw)
