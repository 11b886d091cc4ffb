-- ===== src/Temporal.antt =====
-- src/simplicio_fast/temporal.py: `BitemporalOverlay`, the facts of a repository in world time and
-- in the order of their observation. Each method takes the overlay and gives it back beside its
-- result, also after a raise.
mod Records
pub mod Query
pub mod Inv
pub mod Preserve
pub mod Calls
pub mod Reach
pub mod Verified
pub mod Past
pub mod AsOf
pub mod Intervals
mod Tests
pub mod Invalidation
pub use Records.{
  Error, scope_required, invalid_digest, source_commit_required, unsupported_state,
  world_time_out_of_order, fact_not_active, invalid_as_of, stale_generation, Fact, Request, request,
}
unfoldable pub use Records.{digest}
use Records.{states}
use simplicio_fast.Prelude.{
  ℕ, zero, suc, ◌+◌, String, Bool, true, false, not, ◌&&◌, ◌||◌, Option, none, some, List, [], ◌∷◌,
  ◌++◌, map, Result, ok, err, ◌>>=◌, ◌>>◌, raise_if, ◌==◌, numbers_equate, strings_equate,
  options_equate, nat_beq, ltb, leb, if◌then◌else◌, length, get_last?, keep, any, contains,
}
use simplicio_fast.Prelude.Dict.{Dict, values, lookup, insert}
use simplicio_fast.Prelude.Digests.{is_sha256}
use simplicio_fast.Prelude.Json.{Fields, str, end, field}
use simplicio_fast.Prelude.Sorting.{sort_by, members}

-- The list under an identity, which `append` makes with its first fact: what stands before the
-- last fact, and the last fact.
pub record Versions : Type 0 where
  pub older : List Fact
  pub latest : Fact

abbrev pub versions : Versions → List Fact
versions v = v.older ++ v.latest ∷ []

pub record Overlay : Type 0 where
  pub repository : String
  pub base_generation : String
  pub overlay_generation : Option String
  pub facts : Dict String Versions
  pub world_sequence : ℕ
  pub observed_sequence : ℕ

pub init : String → String → Option String → Result Error Overlay
init repository base overlay =
    if repository == "" || base == ""
    then err scope_required
    else ok (record {
      repository = repository;
      base_generation = base;
      overlay_generation = overlay;
      facts = [];
      world_sequence = 0;
      observed_sequence = 0;
    })

abbrev pub Method : Type 0 → Type 0
Method A = Overlay → Result Error A × Overlay

abbrev pub is_open : Fact → Bool
is_open f = elim f.valid_to [ none ↦ true | some _ ↦ false ]

abbrev pub open_fact : Option Versions → Option Fact
open_fact none = none
open_fact (some v) = if is_open v.latest then some v.latest else none

-- `_current`
abbrev pub current : String → Overlay → Option Fact
current id o = open_fact (lookup id o.facts)

-- the arguments' checks at the head of `append`
pub check_request : Request → Result Error Unit
check_request r = do
  raise_if (not (is_sha256 r.canonical_id)) invalid_digest
  raise_if (not (is_sha256 r.source_sha256)) invalid_digest
  raise_if (not (is_sha256 r.artifact_digest)) invalid_digest
  raise_if (r.source_commit == "") source_commit_required
  raise_if (not (contains r.state states)) unsupported_state

pub world_of : Option ℕ → ℕ → ℕ
world_of none clock = suc clock
world_of (some valid_from) clock = valid_from

pub is_out_of_order : Bool → ℕ → ℕ → Bool
is_out_of_order allow_same_world world clock =
    ltb world clock || (nat_beq world clock && not allow_same_world)

-- the fact that a later one closes, before its `successor` is set
pub closed : String → ℕ → ℕ → Fact → Fact
closed state world observed p = record p {
  valid_to = some world;
  invalidated_at = some observed;
  state = if state == "active" then "superseded" else p.state;
  reason_code = if state == "active" then some "superseded" else p.reason_code;
}

pub new_fact : Request → Option String → ℕ → ℕ → Overlay → Fact
new_fact r predecessor world observed o = record {
  canonical_id = r.canonical_id;
  repository = o.repository;
  base_generation = o.base_generation;
  overlay_generation = o.overlay_generation;
  source_commit = r.source_commit;
  source_sha256 = r.source_sha256;
  artifact_digest = r.artifact_digest;
  valid_from = world;
  valid_to = none;
  observed_at = observed;
  invalidated_at = none;
  state = r.state;
  reason_code = r.reason_code;
  predecessor = predecessor;
  successor = none;
  dependencies = r.dependencies;
  provenance = r.provenance;
}

-- `{"successor": successor} if successor else {}`
pub successor_provenance : Option String → Fields
successor_provenance none = end
successor_provenance (some d) = if d == "" then end else field "successor" (str d) end

-- `self._facts.setdefault(canonical_id, []).append(fact)` where no open fact stands
pub push_fact : Option Versions → Fact → Versions
push_fact none f = record { older = []; latest = f }
push_fact (some v) f = record { older = versions v; latest = f }

module _ (sha256 : List ℕ → String) where
  -- `append` from the clock's advance on: where no open fact stands under the identity
  unfoldable pub open_new : Request → ℕ → Overlay → Fact × Overlay
  unfolding new_fact push_fact
  open_new r world o =
      let observed = suc o.observed_sequence in
      let f = new_fact r r.predecessor world observed o in
      (
        f,
        record o {
          facts = insert r.canonical_id (push_fact (lookup r.canonical_id o.facts) f) o.facts;
          world_sequence = world;
          observed_sequence = observed;
        },
      )

  -- and where one stands: it is closed, hashed, and linked to the new fact
  unfoldable pub supersede : Request → ℕ → Versions → Overlay → Fact × Overlay
  unfolding new_fact closed
  supersede r world v o =
      let observed = suc o.observed_sequence in
      let previous = closed r.state world observed v.latest in
      let f = new_fact r (some (digest sha256 previous)) world observed o in
      let linked = record previous { successor = some (digest sha256 f) } in
      (
        f,
        record o {
          facts =
              insert r.canonical_id (record { older = v.older ++ linked ∷ []; latest = f }) o.facts;
          world_sequence = world;
          observed_sequence = observed;
        },
      )

  unfoldable pub commit : Request → ℕ → Overlay → Fact × Overlay
  unfolding open_new supersede
  commit r world o = elim (lookup r.canonical_id o.facts) [
    | none ↦ open_new r world o
    | some v ↦ if is_open v.latest then supersede r world v o else open_new r world o
  ]

  unfoldable pub advance : Request → ℕ → Method Fact
  unfolding is_out_of_order commit
  advance r world o =
      if is_out_of_order r.allow_same_world world o.world_sequence
      then (err world_time_out_of_order, o)
      else let (f, o') = commit r world o in (ok f, o')

  unfoldable pub append : Request → Method Fact
  unfolding check_request world_of advance
  append r o = elim (check_request r) [
    | err e ↦ (err e, o)
    | ok _ ↦ advance r (world_of r.valid_from o.world_sequence) o
  ]

  abbrev pub burial :
      String → String → String → String → Option String → Option ℕ → Bool → Fact → Request
  burial id source_commit source_sha256 reason successor valid_from allow f = record {
    canonical_id = id;
    source_commit = source_commit;
    source_sha256 = source_sha256;
    artifact_digest = f.artifact_digest;
    valid_from = valid_from;
    state = "tombstoned";
    reason_code = some reason;
    predecessor = none;
    allow_same_world = allow;
    dependencies = [];
    provenance = successor_provenance successor;
  }

  -- the open fact under an identity, if it is active
  unfoldable pub active_fact : String → Overlay → Option Fact
  active_fact id o = elim (current id o) [
    | none ↦ none
    | some f ↦ if f.state == "active" then some f else none
  ]

  unfoldable pub tombstone :
      String → String → String → String → Option String → Option ℕ → Bool → Method Fact
  unfolding append active_fact successor_provenance
  tombstone id source_commit source_sha256 reason successor valid_from allow o =
      elim (active_fact id o) [
        | none ↦ (err fact_not_active, o)
        | some f ↦
            append (burial id source_commit source_sha256 reason successor valid_from allow f) o
      ]

  -- the second half of `rename`, after the replacement is appended
  unfoldable pub bury_renamed : String → String → String → Fact → Method Fact
  unfolding tombstone
  bury_renamed old source_commit source_sha256 replacement o =
      let (r, o') =
        tombstone old source_commit source_sha256 "renamed" (some (digest sha256 replacement))
          (some o.world_sequence) true o in
      elim r [ err e ↦ (err e, o') | ok _ ↦ (ok replacement, o') ]

  unfoldable pub finish_rename :
      String → String → String → Result Error Fact × Overlay → Result Error Fact × Overlay
  unfolding bury_renamed
  finish_rename old source_commit source_sha256 (err e, o) = (err e, o)
  finish_rename old source_commit source_sha256 (ok replacement, o) =
      bury_renamed old source_commit source_sha256 replacement o

  abbrev pub replacing : String → String → String → String → Fact → Request
  replacing new source_commit source_sha256 artifact f =
      record (request new source_commit source_sha256 artifact) {
        predecessor = some (digest sha256 f);
      }

  unfoldable pub rename : (old new source_commit source_sha256 artifact : String) → Method Fact
  unfolding append finish_rename active_fact
  rename old new source_commit source_sha256 artifact o = elim (active_fact old o) [
    | none ↦ (err fact_not_active, o)
    | some f ↦
        finish_rename old source_commit source_sha256
          (append (replacing new source_commit source_sha256 artifact f) o)
  ]
