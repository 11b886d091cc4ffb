-- ===== src/Validation/Records.antt =====
-- src/simplicio_fast/validation_cache.py: `ValidationKey` and `ValidationResult`. A key's and a result's fields
-- have the types that their annotations say; a result that is stored is any document.
use Prim.Native.String.{◌++◌}
use simplicio_fast.Prelude.{
  ℕ, String, Bool, true, false, not, ◌&&◌, ◌||◌, List, [], ◌∷◌, Result, ok, ◌>>=◌, ◌>>◌, raise_if,
  if◌then◌else◌, all, any, ◌==◌, strings_equate, contains,
}
use simplicio_fast.Prelude.Json.{
  Json, str, arr, obj, Items, nil, item, Fields, end, field, codes, strs,
}
use simplicio_fast.Prelude.Json.Encode.{canonical}
use simplicio_fast.Prelude.Sorting.{str_ltb}
use simplicio_fast.Rollout.{is_space}

pub data Error : Type 0 where
  cache_key_required_missing : Error
  cache_environment_invalid : Error
  result_status_invalid : Error
  result_command_invalid : Error
  result_evidence_invalid : Error
  result_provenance_invalid : Error
  result_provenance_required : Error
  lease_id_invalid : Error
  cache_entry_missing : Error
  gc_budget_invalid : Error
  gc_generations_invalid : Error
  cache_document_invalid : Error
  cache_schema_unsupported : Error
  cache_digest_mismatch : Error
  cache_entries_invalid : Error
  cache_entry_invalid : Error
  cache_duplicate_entry : Error
  selection_budget_invalid : Error
  changed_handles_invalid : Error
  test_mapping_invalid : Error
  test_values_invalid : Error

pub record ValidationKey : Type 0 where
  pub source_merkle : String
  pub lockfiles_digest : String
  pub toolchain : String
  pub command : List String
  pub environment : List (String × String)
  pub platform : String
  pub config_digest : String
  pub fixture_digest : String
  pub generation : String
  pub producer_schema : String
  pub freshness_class : String

pub record ValidationResult : Type 0 where
  pub key_digest : String
  pub status : String
  pub result_digest : String
  pub command : List String
  pub fresh : Bool
  pub evidence : List String
  pub verified : Bool
  pub provenance : List String
  pub nondeterministic : Bool
  pub generation : String

abbrev pub is_nil {ℓ} : {A : Type ℓ} → List A → Bool
is_nil [] = true
is_nil (x ∷ xs) = false

-- `not item`
abbrev pub is_missing : String → Bool
is_missing s = s == ""

-- `not value.strip()`
abbrev is_blank : String → Bool
is_blank s = all is_space (codes s)

-- `_validate_string_sequence` of texts
abbrev pub check_strings : List String → Error → Result Error Unit
check_strings xs reason = raise_if (any is_missing xs) reason

abbrev pair_ltb : String × String → String × String → Bool
pair_ltb (a, b) (c, d) = if a == c then str_ltb b d else str_ltb a c

abbrev insert_pair : String × String → List (String × String) → List (String × String)
insert_pair x [] = x ∷ []
insert_pair x (y ∷ ys) = if pair_ltb y x then y ∷ insert_pair x ys else x ∷ y ∷ ys

-- `sorted(self.environment)`
abbrev sort_pairs : List (String × String) → List (String × String)
sort_pairs [] = []
sort_pairs (x ∷ xs) = insert_pair x (sort_pairs xs)

abbrev pair_items : List (String × String) → Items
pair_items [] = nil
pair_items ((a, b) ∷ ps) = item (arr (strs (a ∷ b ∷ []))) (pair_items ps)

abbrev is_unnamed : List (String × String) → Bool
is_unnamed [] = false
is_unnamed ((a, b) ∷ ps) = is_missing a || is_unnamed ps

abbrev key_fields : ValidationKey → Fields
key_fields k = field "schema" (str "simplicio.fast.validation-cache-key/v1") (
    field "source_merkle" (str k.source_merkle) (
      field "lockfiles_digest" (str k.lockfiles_digest) (
        field "toolchain" (str k.toolchain) (
          field "command" (arr (strs k.command)) (
            field "environment" (arr (pair_items (sort_pairs k.environment))) (
              field "platform" (str k.platform) (
                field "config_digest" (str k.config_digest) (
                  field "fixture_digest" (str k.fixture_digest) (
                    field "generation" (str k.generation) (
                      field "producer_schema" (str k.producer_schema)
                        (field "freshness_class" (str k.freshness_class) end)))))))))))

-- `ValidationKey.to_dict`
unfoldable pub key_dict : ValidationKey → Result Error Json
key_dict k = do
  raise_if
      (any is_blank (
          k.source_merkle ∷ k.lockfiles_digest ∷ k.toolchain ∷ k.platform ∷ k.producer_schema
          ∷ k.freshness_class ∷ [])
        || is_nil k.command
        || any is_missing k.command)
      cache_key_required_missing
  raise_if (is_unnamed k.environment) cache_environment_invalid
  ok (obj (key_fields k))

-- `ValidationResult.__post_init__`. A digest is not empty, since it has a prefix.
unfoldable pub make_result : ValidationResult → Result Error ValidationResult
make_result r = do
  raise_if (not (contains r.status ("pass" ∷ "fail" ∷ "partial" ∷ []))) result_status_invalid
  check_strings r.command result_command_invalid
  raise_if (is_nil r.command) result_command_invalid
  check_strings r.evidence result_evidence_invalid
  check_strings r.provenance result_provenance_invalid
  raise_if (r.verified && is_nil r.provenance) result_provenance_required
  ok r

module _ (sha256 : List ℕ → String) where
  -- `_digest`
  unfoldable pub digest : Json → String
  digest v = "sha256:" ++ sha256 (canonical true v)

  -- `ValidationKey.digest`
  abbrev pub key_digest_of : ValidationKey → Result Error String
  key_digest_of k = key_dict k >>= λ v. ok (digest v)
