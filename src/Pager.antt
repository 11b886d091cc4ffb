-- ===== src/Pager.antt =====
-- `SemanticPager` of src/simplicio_fast/pager.py. `get` holds the lock twice, around the load: the two
-- parts are `enter` and `finish`, which other calls may come between. `lease` holds it once more.
mod Records
mod Table
pub mod Inv
pub mod Eviction
pub mod Lru
pub mod Limits
pub mod Prefetch
pub mod Budget
pub mod Leases
mod Tests
pub use Records.{
  PageKey, same_key_iff, Error, limits_invalid, cross_repo_page, stale_generation, schema_mismatch,
  budget_exhausted, page_digest_mismatch, page_not_resident, lease_mismatch, not_bytes,
  loader_failed, key_error, out_of_fuel, Page, Metrics, Pager,
}
unfoldable pub use Records.{key_eq}
unfoldable pub use Table.{
  init, check_key, touch, over, unleased, earlier, min_page, drop_victim, evict_round, evict_loop,
  evict,
}
use simplicio_fast.Prelude.{
  ℕ, zero, suc, ◌+◌, ◌-◌, String, Bool, true, false, not, ◌&&◌, ◌||◌, Option, none, some, List, [],
  ◌∷◌, Result, ok, err, ◌>>=◌, ◌>>◌, raise_if, ◌==◌, strings_equate, nat_beq, ltb, leb,
  if◌then◌else◌, length, keep, contains,
}
use simplicio_fast.Prelude.Dict.{Dict, lookup, insert, erase, values, count}
use simplicio_fast.Prelude.Json.{codes}
use simplicio_fast.Prelude.Json.Encode.{lt_codes}

-- What the first part of `get` comes to: the resident bytes, an exception, or a load that this call
-- makes itself (`owner`) or waits for (`waiter`) before it starts again.
pub data Entry : Type 0 where
  hit : List ℕ → Entry
  raised : Error → Entry
  owner waiter : Entry

pub mismatched : Option String → String → Bool
mismatched none digest = false
mismatched (some expected) digest = not (digest == expected)

pub resident : PageKey → Page → Option String → Pager → Entry × Pager
resident key page expected s =
    if mismatched expected page.digest
    then (
      raised page_digest_mismatch,
      record s {
        pages = insert key (record page { invalidated = true }) s.pages;
        metrics = record (s.metrics) { invalidations = suc s.metrics.invalidations };
      },
    )
    else (
      hit page.content,
      touch key page (record s { metrics = record (s.metrics) { hits = suc s.metrics.hits } }),
    )

pub cold : PageKey → Bool → Pager → Entry × Pager
cold key has_loader s =
    if not has_loader
    then (raised page_not_resident, s)
    else if contains key s.flights
    then (waiter, record s { metrics = record (s.metrics) { waits = suc s.metrics.waits } })
    else (
      owner,
      record s {
        flights = key ∷ s.flights;
        metrics = record (s.metrics) { misses = suc s.metrics.misses };
      },
    )

pub find_page : PageKey → Bool → Option String → Option Page → Pager → Entry × Pager
unfolding resident cold
find_page key has_loader expected none s = cold key has_loader s
find_page key has_loader expected (some page) s =
    if page.invalidated then cold key has_loader s else resident key page expected s

pub enter : PageKey → Bool → Option String → Pager → Entry × Pager
unfolding find_page
enter key has_loader expected s = elim (check_key key s) [
  | err e ↦ (raised e, s)
  | ok _ ↦ find_page key has_loader expected (lookup key s.pages) s
]

-- What the loader does: it returns bytes, or something else, or it raises.
pub data Loaded : Type 0 where
  loads : List ℕ → Loaded
  no_bytes fails : Loaded

-- the page goes into the table
pub store : PageKey → List ℕ → String → Pager → Pager
store key content digest s = record s {
  clock = suc s.clock;
  pages =
      insert key
        (record {
          key = key;
          content = content;
          digest = digest;
          last_touch = suc s.clock;
          leases = 0;
          invalidated = false;
        })
        s.pages;
  bytes = s.bytes + length content;
  metrics = record (s.metrics) {
    bytes_mapped = s.metrics.bytes_mapped + length content;
    bytes_copied = s.metrics.bytes_copied + length content;
  };
}

pub end_flight : PageKey → Pager → Pager
end_flight key s = record s { flights = keep (λ k. not (k == key)) s.flights }

pub stored : PageKey → List ℕ → String → Result Error Unit × Pager → Result Error (List ℕ) × Pager
unfolding store
stored key content digest (err e, s) = (err e, s)
stored key content digest (ok _, s) = (ok content, store key content digest s)

module _ (sha256 : List ℕ → String) where
  pub admit_loaded : PageKey → Loaded → Option String → Bool → Pager → Result Error (List ℕ) × Pager
  unfolding stored
  admit_loaded key no_bytes expected allow s = (err not_bytes, s)
  admit_loaded key fails expected allow s = (err loader_failed, s)
  admit_loaded key (loads content) expected allow s =
      if mismatched expected (sha256 content)
      then (err page_digest_mismatch, s)
      else stored key content (sha256 content) (evict (length content) allow s)

  -- the owner's part after the load, with the `finally`
  pub finish : PageKey → Loaded → Option String → Bool → Pager → Result Error (List ℕ) × Pager
  unfolding admit_loaded
  finish key loaded expected allow s =
      let (r, s') = admit_loaded key loaded expected allow s in (r, end_flight key s')

  pub complete :
      PageKey
      → Loaded
      → Option String
      → Bool
      → Entry × Pager
      → Option (Result Error (List ℕ)) × Pager
  complete key loaded expected allow (hit content, s) = (some (ok content), s)
  complete key loaded expected allow (raised e, s) = (some (err e), s)
  complete key loaded expected allow (waiter, s) = (none, s)
  complete key loaded expected allow (owner, s) =
      let (r, s') = finish key loaded expected allow s in (some r, s')

  -- `get` with no other call in between; `none` is a call that waits for another's load
  pub get :
      PageKey
      → Option Loaded
      → Option String
      → Bool
      → Pager
      → Option (Result Error (List ℕ)) × Pager
  unfolding complete
  get key none expected allow s = complete key fails expected allow (enter key false expected s)
  get key (some loaded) expected allow s =
      complete key loaded expected allow (enter key true expected s)

-- `lease` after its `get`: the count of leases goes up
pub pin : PageKey → Pager → Result Error Unit × Pager
pin key s = elim (lookup key s.pages) [
  | none ↦ (err key_error, s)
  | some page ↦
      (ok tt, record s { pages = insert key (record page { leases = suc page.leases }) s.pages })
]

drop_page : PageKey → Page → Pager → Pager
drop_page key page s = record s { pages = erase key s.pages; bytes = s.bytes - length page.content }

pub unpin : PageKey → Page → Pager → Pager
unfolding drop_page
unpin key page s =
    if page.invalidated && nat_beq page.leases 1
    then drop_page key page s
    else record s { pages = insert key (record page { leases = page.leases - 1 }) s.pages }

pub release : PageKey → Pager → Result Error Unit × Pager
unfolding unpin
release key s = elim (lookup key s.pages) [
  | none ↦ (err lease_mismatch, s)
  | some page ↦ if ltb page.leases 1 then (err lease_mismatch, s) else (ok tt, unpin key page s)
]

-- one round of `invalidate`; the counts of removed and of held pages
pub invalidate_page : PageKey → Page → ℕ × ℕ → Pager → (ℕ × ℕ) × Pager
unfolding drop_page
invalidate_page key page (removed, held) s =
    let counted : Pager = record s {
      metrics = record (s.metrics) { invalidations = suc s.metrics.invalidations };
    } in
    if nat_beq page.leases 0 then ((suc removed, held), drop_page key page counted) else (
      (removed, suc held),
      record counted { pages = insert key (record page { invalidated = true }) s.pages },
    )

pub invalidate_one : PageKey → ℕ × ℕ → Pager → Result Error (ℕ × ℕ) × Pager
unfolding invalidate_page
invalidate_one key counts s = elim (check_key key s) [
  | err e ↦ (err e, s)
  | ok _ ↦ elim (lookup key s.pages) [
    | none ↦ (ok counts, s)
    | some page ↦ let (c, s') = invalidate_page key page counts s in (ok c, s')
  ]
]

pub invalidate_from : List PageKey → ℕ × ℕ → Pager → Result Error (ℕ × ℕ) × Pager
invalidate_from [] counts s = (ok counts, s)
invalidate_from (key ∷ keys) counts s =
    let (r, s') = invalidate_one key counts s in
    elim r [ err e ↦ (err e, s') | ok c ↦ invalidate_from keys c s' ]

pub invalidate : List PageKey → Pager → Result Error (ℕ × ℕ) × Pager
invalidate keys = invalidate_from keys (0, 0)

-- What a thread does while it holds the lock. `get` is `enters` and, for an owner, `finishes`; `lease`
-- is `get` and `pins`; `prefetch` is a `get` for each key.
pub data Step : Type 0 where
  enters : PageKey → Bool → Option String → Step
  finishes : PageKey → Loaded → Option String → Bool → Step
  pins releases : PageKey → Step
  invalidates : List PageKey → Step

module _ (sha256 : List ℕ → String) where
  pub step : Step → Pager → Pager
  step (enters key has_loader expected) s = (enter key has_loader expected s).1
  step (finishes key loaded expected allow) s = (finish sha256 key loaded expected allow s).1
  step (pins key) s = (pin key s).1
  step (releases key) s = (release key s).1
  step (invalidates ks) s = (invalidate ks s).1

  pub run : List Step → Pager → Pager
  run [] s = s
  run (t ∷ ts) s = run ts (step t s)
