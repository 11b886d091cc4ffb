-- ===== src/Validation.antt =====
-- src/simplicio_fast/validation_cache.py: `ValidationCache`. A method gives the cache back beside its result;
-- its lock makes each of them one step.
mod Records
mod State
pub mod Leases
pub mod Pinned
pub mod Made
pub mod Reuse
pub mod Conflicts
pub mod Files
pub mod Saving
pub mod Selection
mod Tests
unfoldable pub use Records.*
unfoldable pub use State.*
use simplicio_fast.Prelude.{
  ℕ, String, Bool, true, false, not, ◌&&◌, ◌||◌, Option, none, some, List, [], ◌∷◌, ◌++◌, Result,
  ok, err, ◌>>=◌, ◌>>◌, raise_if, ltb, nat_beq, if◌then◌else◌, length, take, keep, any, ◌==◌,
  strings_equate, contains,
}
use simplicio_fast.Prelude.Dict.{Dict, lookup, has, insert, erase, keys}
use simplicio_fast.Prelude.Int.{ℤ, pos, negsuc}
use simplicio_fast.Prelude.Json.{Json, codes}
use simplicio_fast.Prelude.Sorting.{sort_by, members}

module _ (sha256 : List ℕ → String) where
  -- what `put` computes before it takes the lock
  unfoldable pub check_put : ValidationKey → Put → Result Error (String × List String)
  check_put k q = do
    kd ← key_digest_of sha256 k
    command ← command_of k q.command
    check_strings q.evidence result_evidence_invalid
    check_strings q.provenance result_provenance_invalid
    ok (kd, command)

  -- what `put` does under the lock
  abbrev pub putting :
      ValidationKey
      → Put
      → ValidationCache
      → String × List String
      → Result Error ValidationResult × ValidationCache
  putting k q c (kd, command) =
      stored c kd (entry_for k q kd (digest sha256 q.result) command (lookup kd c.entries))

  unfoldable pub put :
      ValidationKey → Put → ValidationCache → Result Error ValidationResult × ValidationCache
  put k q c = after c (check_put k q) (putting k q c)

  abbrev pub check_lease : ValidationKey → String → Result Error String
  check_lease k id =
      raise_if (is_missing id || any is_reserved (codes id)) lease_id_invalid
      >> key_digest_of sha256 k

  unfoldable pub acquire_lease :
      ValidationKey → String → ValidationCache → Result Error Unit × ValidationCache
  acquire_lease k id c = after c (check_lease k id) (λ kd. leased c kd id)

  unfoldable pub release_lease :
      ValidationKey → String → ValidationCache → Result Error Unit × ValidationCache
  release_lease k id c =
      after c (raise_if (is_missing id) lease_id_invalid >> key_digest_of sha256 k)
        (λ kd. released c kd id)

  unfoldable pub gc :
      List String → ℤ → Bool → ValidationCache → Result Error GcReport × ValidationCache
  gc kept max dry c =
      after c (check_gc kept max)
        (λ budget. collected c kept budget dry (candidates_of c kept budget))

  unfoldable pub get :
      ValidationKey → Bool → Bool → Bool → ValidationCache → Result Error (Option ValidationResult)
  get k require_fresh require_verified reusable c = key_digest_of sha256 k >>= λ kd.
      ok (accepted require_fresh require_verified reusable (lookup kd c.entries))
