-- ===== src/Generations.antt =====
-- src/simplicio_fast/generation_store.py: `GenerationStore`. The clock `time.monotonic()` is the
-- argument `now`, in whole seconds; attempts, slots and fences, which the program only compares, are
-- texts, and `none` is the tombstone's `None`.
pub mod Reads
pub mod Collect
pub mod Fences
mod Tests
use simplicio_fast.Prelude.{
  ℕ, zero, suc, ◌+◌, ◌≤◌, String, Bool, true, false, not, ◌&&◌, ◌||◌, Option, none, some, List, [],
  ◌∷◌, ◌++◌, Result, ok, err, ◌==◌, numbers_equate, strings_equate, pairs_equate, options_equate,
  nat_beq, ltb, if◌then◌else◌, length, any, contains, keep,
}
use simplicio_fast.Prelude.Dict.{Dict, keys, lookup, insert, erase, count}
use simplicio_fast.Prelude.Bytes.{lists_equate}
use simplicio_fast.Prelude.Json.{Json, obj, str, Fields, end, field, codes}
use simplicio_fast.Prelude.Json.Encode.{canonical}
use simplicio_fast.Prelude.Sorting.{sort_by}

abbrev pub schema : String
schema = "simplicio.fast-generation/v1"

pub data Error : Type 0 where
  generation_corrupt : Error
  generation_missing : Error
  fence_stale : Error
  pin_stale : Error
  overlay_escape : Error
  key_error : Error

abbrev pub Files : Type 0
Files = Dict String (List ℕ)

pub record Generation : Type 0 where
  pub id : String
  pub repo : String
  pub commit : String
  pub config_hash : String
  pub parser_hash : String
  pub base : Files

-- the key of an overlay (generation, slot, fence) or of a pin (generation, attempt, fence)
abbrev pub Key : Type 0
Key = String × (String × String)

abbrev pub key : String → String → String → Key
key gid slot fence = (gid, (slot, fence))

abbrev pub Overlay : Type 0
Overlay = Dict String (Option (List ℕ))

pub record Store : Type 0 where
  pub generations : Dict String Generation
  pub overlays : Dict Key Overlay
  pub pins : Dict Key ℕ
  pub fences : Dict (String × String) String

abbrev pub init : Store
init = record { generations = []; overlays = []; pins = []; fences = [] }

abbrev pub Method : Type 0 → Type 0
Method A = Store → Result Error A × Store

-- `==` of two dicts: as many entries, and each of the first in the second
abbrev covers : Files → Files → Bool
covers [] b = true
covers ((k, v) ∷ a) b = lookup k b == some v && covers a b

unfoldable pub same_files : Files → Files → Bool
same_files a b = nat_beq (count a) (count b) && covers a b

-- `existing == candidate` of two `Generation`s
unfoldable pub same_generation : Generation → Generation → Bool
unfolding same_files
same_generation a b =
    a.id == b.id
    && a.repo == b.repo
    && a.commit == b.commit
    && a.config_hash == b.config_hash
    && a.parser_hash == b.parser_hash
    && same_files a.base b.base

-- `if existing and existing != candidate`
unfoldable pub is_corrupt : Option Generation → Generation → Bool
unfolding same_generation
is_corrupt none candidate = false
is_corrupt (some existing) candidate = not (same_generation existing candidate)

module _ (sha256 : List ℕ → String) where
  abbrev pub manifest : Files → Fields
  manifest [] = end
  manifest ((k, v) ∷ files) = field k (str (sha256 v)) (manifest files)

  -- the digest that names a generation; the printer puts the keys in order
  unfoldable pub generation_id : String → String → String → String → Files → String
  generation_id repo commit config parser files = sha256 (
      canonical true (
        obj (
          field "schema" (str schema) (
            field "repo" (str repo) (
              field "commit" (str commit) (
                field "config" (str config)
                  (field "parser" (str parser) (field "manifest" (obj (manifest files)) end))))))))

  abbrev pub candidate : String → String → String → String → Files → Generation
  candidate repo commit config parser files = record {
    id = generation_id repo commit config parser files;
    repo = repo;
    commit = commit;
    config_hash = config;
    parser_hash = parser;
    base = files;
  }

  unfoldable pub create : String → String → String → String → Files → Method Generation
  unfolding is_corrupt
  create repo commit config parser files s =
      let c = candidate repo commit config parser files in
      if is_corrupt (lookup c.id s.generations) c
      then (err generation_corrupt, s)
      else (ok c, record s { generations = insert c.id c s.generations })

-- `if current and current != fence`: an empty fence holds nobody off
unfoldable pub is_fenced : Option String → String → Bool
is_fenced none fence = false
is_fenced (some current) fence = not (current == "") && not (current == fence)

abbrev pub min : ℕ → ℕ → ℕ
min a b = if ltb a b then a else b

unfoldable pub pin : ℕ → String → String → String → ℕ → Method Unit
unfolding is_fenced
pin now gid attempt fence ttl s = elim (lookup gid s.generations) [
  | none ↦ (err generation_missing, s)
  | some g ↦ if is_fenced (lookup (gid, attempt) s.fences) fence then (err fence_stale, s) else (
    ok tt,
    record s {
      fences = insert (gid, attempt) fence s.fences;
      pins = insert (key gid attempt fence) (now + min ttl 3600) s.pins;
    },
  )
]

-- whether some pin of the generation with this fence is not over
unfoldable pub has_pin : ℕ → String → String → Dict Key ℕ → Bool
has_pin now gid fence [] = false
has_pin now gid fence ((k, until) ∷ pins) =
    (k.0 == gid && k.1.1 == fence && ltb now until) || has_pin now gid fence pins

abbrev pub starts_with_slash : List ℕ → Bool
starts_with_slash [] = false
starts_with_slash (c ∷ cs) = nat_beq c b'/'

-- `".." in Path(path).parts`, read with the dots seen since the last slash: `some n` for a part of
-- `n` dots so far, `none` for one with another character
abbrev pub has_parent_part : Option ℕ → List ℕ → Bool
has_parent_part dots [] = dots == some 2
has_parent_part dots (c ∷ cs) =
    if nat_beq c b'/'
    then dots == some 2 || has_parent_part (some 0) cs
    else has_parent_part
        (elim dots [ none ↦ none | some n ↦ if nat_beq c b'.' then some (suc n) else none ]) cs

unfoldable pub escapes : String → Bool
escapes path = starts_with_slash (codes path) || has_parent_part (some 0) (codes path)

abbrev pub overlay_of : Option Overlay → Overlay
overlay_of none = []
overlay_of (some o) = o

unfoldable pub write : ℕ → String → String → String → String → Option (List ℕ) → Method Unit
unfolding has_pin escapes
write now gid slot fence path bytes s =
    if not (has_pin now gid fence s.pins)
    then (err pin_stale, s)
    else if escapes path
    then (err overlay_escape, s)
    else (
      ok tt,
      record s {
        overlays =
            insert (key gid slot fence)
              (insert path bytes (overlay_of (lookup (key gid slot fence) s.overlays))) s.overlays;
      },
    )

unfoldable pub tombstone : ℕ → String → String → String → String → Method Unit
unfolding write
tombstone now gid slot fence path s = write now gid slot fence path none s

-- a path in the overlay, or else in the base
abbrev pub resolve : Option (Option (List ℕ)) → Option (List ℕ) → Option (List ℕ)
resolve none base = base
resolve (some bytes) base = bytes

unfoldable pub read : String → String → String → String → Store → Result Error (Option (List ℕ))
read gid slot fence path s = elim (lookup gid s.generations) [
  | none ↦ err key_error
  | some g ↦ ok (
      resolve (lookup path (overlay_of (lookup (key gid slot fence) s.overlays)))
        (lookup path g.base))
]

-- whether some pin of the generation is not over
unfoldable pub is_protected : ℕ → Dict Key ℕ → String → Bool
is_protected now [] gid = false
is_protected now ((k, until) ∷ pins) gid =
    (k.0 == gid && ltb now until) || is_protected now pins gid

unfoldable pub removable : ℕ → Store → List String
unfolding is_protected
removable now s =
    sort_by (λ gid. gid) (keep (λ gid. not (is_protected now s.pins gid)) (keys s.generations))

-- the overlays of other generations
abbrev pub without : String → Dict Key Overlay → Dict Key Overlay
without gid [] = []
without gid ((k, o) ∷ d) = if k.0 == gid then without gid d else (k, o) ∷ without gid d

unfoldable pub remove_all : List String → Store → Store
remove_all [] s = s
remove_all (gid ∷ gids) s =
    remove_all gids
      (record s { generations = erase gid s.generations; overlays = without gid s.overlays })

unfoldable pub gc : ℕ → Bool → Store → List String × Store
unfolding removable remove_all
gc now dry_run s = let gone = removable now s in (gone, if dry_run then s else remove_all gone s)
