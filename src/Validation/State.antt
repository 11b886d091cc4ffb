-- ===== src/Validation/State.antt =====
-- src/simplicio_fast/validation_cache.py: the state of a `ValidationCache`, and what its methods do under the lock.
use simplicio_fast.Prelude.{
  ℕ, String, Bool, true, false, not, ◌&&◌, ◌||◌, Option, none, some, List, [], ◌∷◌, ◌++◌, Result,
  ok, err, ◌>>=◌, ◌>>◌, raise_if, ltb, nat_beq, if◌then◌else◌, length, take, keep, ◌==◌,
  strings_equate, contains,
}
use simplicio_fast.Prelude.Dict.{Dict, lookup, has, insert, erase}
use simplicio_fast.Prelude.Int.{ℤ, pos, negsuc}
use simplicio_fast.Prelude.Json.{Json}
use simplicio_fast.Prelude.Sorting.{sort_by, members}
use simplicio_fast.Validation.Records.{
  Error, cache_entry_missing, gc_budget_invalid, gc_generations_invalid, result_command_invalid,
  result_provenance_required, ValidationKey, ValidationResult, is_nil, check_strings, make_result,
}

pub record ValidationCache : Type 0 where
  pub entries : Dict String ValidationResult
  pub leases : Dict String (List String)

abbrev pub new_cache : ValidationCache
new_cache = record { entries = []; leases = [] }

-- the arguments of `put` beside the key
pub record Put : Type 0 where
  pub status : String
  pub result : Json
  pub command : Option (List String)
  pub fresh : Bool
  pub evidence : List String
  pub verified : Bool
  pub provenance : List String

abbrev pub itself : String → String
itself s = s

-- `sorted(xs)`
abbrev pub sorted : List String → List String
sorted xs = sort_by itself xs

abbrev pub command_of : ValidationKey → Option (List String) → Result Error (List String)
command_of k none = ok k.command
command_of k (some command) = check_strings command result_command_invalid >> ok command

-- `previous is not None and previous.result_digest != result_digest`
abbrev pub conflicts : String → Option ValidationResult → Bool
conflicts rd none = false
conflicts rd (some previous) = not (previous.result_digest == rd)

abbrev pub evidence_of : Option ValidationResult → List String
evidence_of none = []
evidence_of (some previous) = previous.evidence

-- the entry when the previous one has another result
abbrev pub partial :
    ValidationKey → Put → String → String → List String → Option ValidationResult → ValidationResult
partial k q kd rd command previous = record {
  key_digest = kd;
  status = "partial";
  result_digest = rd;
  command = command;
  fresh = false;
  evidence = sorted (members (q.evidence ++ (evidence_of previous ++ "nondeterministic" ∷ [])));
  verified = false;
  provenance = [];
  nondeterministic = true;
  generation = k.generation;
}

abbrev pub plain : ValidationKey → Put → String → String → List String → ValidationResult
plain k q kd rd command = record {
  key_digest = kd;
  status = q.status;
  result_digest = rd;
  command = command;
  fresh = q.fresh;
  evidence = q.evidence;
  verified = q.verified;
  provenance = q.provenance;
  nondeterministic = false;
  generation = k.generation;
}

abbrev pub plain_entry :
    ValidationKey → Put → String → String → List String → Result Error ValidationResult
plain_entry k q kd rd command =
    raise_if (q.verified && is_nil q.provenance) result_provenance_required
    >> make_result (plain k q kd rd command)

abbrev pub entry_for :
    ValidationKey
    → Put
    → String
    → String
    → List String
    → Option ValidationResult
    → Result Error ValidationResult
entry_for k q kd rd command previous =
    if conflicts rd previous
    then make_result (partial k q kd rd command previous)
    else plain_entry k q kd rd command

abbrev pub stored :
    ValidationCache
    → String
    → Result Error ValidationResult
    → Result Error ValidationResult × ValidationCache
stored c kd (err e) = (err e, c)
stored c kd (ok r) = (ok r, record c { entries = insert kd r c.entries })

-- the leases of a key
abbrev pub leases_of : String → Dict String (List String) → List String
leases_of kd leases = elim (lookup kd leases) [ none ↦ [] | some ids ↦ ids ]

abbrev pub is_leased : String → Dict String (List String) → Bool
is_leased kd leases = not (is_nil (leases_of kd leases))

-- `set.add`
abbrev pub add : String → List String → List String
add x xs = if contains x xs then xs else xs ++ x ∷ []

-- one of the characters "\\", "/" and NUL
abbrev pub is_reserved : ℕ → Bool
is_reserved c = nat_beq c 92 || nat_beq c 47 || nat_beq c 0

abbrev pub leased : ValidationCache → String → String → Result Error Unit × ValidationCache
leased c kd id =
    if has kd c.entries
    then (ok tt, record c { leases = insert kd (add id (leases_of kd c.leases)) c.leases })
    else (err cache_entry_missing, c)

abbrev pub with_leases :
    String → List String → Dict String (List String) → Dict String (List String)
with_leases kd [] leases = erase kd leases
with_leases kd (id ∷ ids) leases = insert kd (id ∷ ids) leases

abbrev pub released : ValidationCache → String → String → Result Error Unit × ValidationCache
released c kd id = (
  ok tt,
  record c { leases = with_leases kd (keep (λ x. not (x == id)) (leases_of kd c.leases)) c.leases },
)

-- the arguments of `gc`
abbrev pub budget_of : ℤ → Result Error ℕ
budget_of (negsuc n) = err gc_budget_invalid
budget_of (pos n) = if ltb n 1 then err gc_budget_invalid else ok n

pub record GcReport : Type 0 where
  pub dry_run : Bool
  pub removed : List String
  pub candidates : List String
  pub retained_generations : List String
  pub leased_entries : List String
  pub truncated : Bool

-- the keys of the entries that may go
abbrev pub collectable :
    List String → Dict String (List String) → Dict String ValidationResult → List String
collectable kept leases [] = []
collectable kept leases ((kd, r) ∷ d) =
    let rest = collectable kept leases d in
    if not (contains r.generation kept) && not (is_leased kd leases) then kd ∷ rest else rest

abbrev pub check_gc : List String → ℤ → Result Error ℕ
check_gc kept max = do budget ← budget_of max; check_strings kept gc_generations_invalid; ok budget

abbrev pub candidates_of : ValidationCache → List String → ℕ → List String
candidates_of c kept budget = take budget (sorted (collectable kept c.leases c.entries))

abbrev pub leased_keys : Dict String (List String) → List String
leased_keys [] = []
leased_keys ((kd, ids) ∷ d) = if is_nil ids then leased_keys d else kd ∷ leased_keys d

abbrev pub erase_all : List String → Dict String ValidationResult → Dict String ValidationResult
erase_all [] d = d
erase_all (kd ∷ kds) d = erase_all kds (erase kd d)

abbrev pub collected :
    ValidationCache → List String → ℕ → Bool → List String → Result Error GcReport × ValidationCache
collected c kept max dry candidates = (
  ok (record {
    dry_run = dry;
    removed = if dry then [] else candidates;
    candidates = candidates;
    retained_generations = sorted (members kept);
    leased_entries = sorted (leased_keys c.leases);
    truncated = nat_beq (length candidates) max;
  }),
  if dry then c else record c { entries = erase_all candidates c.entries },
)

abbrev pub is_refused : Bool → Bool → Bool → ValidationResult → Bool
is_refused require_fresh require_verified reusable r =
    (require_fresh && not r.fresh)
    || (require_verified && not r.verified)
    || (reusable && (not r.verified || not r.fresh || r.nondeterministic))

abbrev pub accepted : Bool → Bool → Bool → Option ValidationResult → Option ValidationResult
accepted require_fresh require_verified reusable none = none
accepted require_fresh require_verified reusable (some r) =
    if is_refused require_fresh require_verified reusable r then none else some r

-- a result and the cache after it, of a call whose first part may raise
abbrev pub after :
    {A B : Type 0}
    → ValidationCache
    → Result Error A
    → (A → Result Error B × ValidationCache)
    → Result Error B × ValidationCache
after c (err e) next = (err e, c)
after c (ok a) next = next a
