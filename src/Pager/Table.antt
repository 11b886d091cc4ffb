-- ===== src/Pager/Table.antt =====
-- The table of pages of `SemanticPager` (src/simplicio_fast/pager.py): its key check, the touch of a
-- page, and the eviction loop.
use simplicio_fast.Prelude.{
  ℕ, zero, suc, ◌+◌, ◌-◌, String, Bool, true, false, not, ◌&&◌, ◌||◌, List, [], ◌∷◌, Result, ok,
  err, ◌>>◌, raise_if, ◌==◌, strings_equate, nat_beq, ltb, leb, if◌then◌else◌, length, keep,
}
use simplicio_fast.Prelude.Dict.{insert, erase, values, count}
use simplicio_fast.Prelude.Json.{codes}
use simplicio_fast.Prelude.Json.Encode.{lt_codes}
use simplicio_fast.Pager.Records.{
  PageKey, key_eq, Error, limits_invalid, cross_repo_page, stale_generation, schema_mismatch,
  budget_exhausted, out_of_fuel, Page, Metrics, Pager, schema,
}

abbrev no_metrics : Metrics
no_metrics = record {
  hits = 0;
  misses = 0;
  waits = 0;
  evictions = 0;
  invalidations = 0;
  bytes_mapped = 0;
  bytes_touched = 0;
  bytes_copied = 0;
  prefetch_useful = 0;
  prefetch_wasted = 0;
}

unfoldable pub init : String → String → ℕ → ℕ → Result Error Pager
init repository generation max_bytes max_pages =
    if ltb max_bytes 1 || ltb max_pages 1
    then err limits_invalid
    else ok (record {
      repository = repository;
      generation = generation;
      max_bytes = max_bytes;
      max_pages = max_pages;
      pages = [];
      flights = [];
      clock = 0;
      bytes = 0;
      metrics = no_metrics;
    })

unfoldable pub check_key : PageKey → Pager → Result Error Unit
check_key key s = do
  raise_if (not (key.repository == s.repository)) cross_repo_page
  raise_if (not (key.generation == s.generation)) stale_generation
  raise_if (not (key.schema_name == schema)) schema_mismatch

-- `_touch`, on the page that stands under `key`
unfoldable pub touch : PageKey → Page → Pager → Pager
touch key page s = record s {
  clock = suc s.clock;
  pages = insert key (record page { last_touch = suc s.clock }) s.pages;
  metrics = record (s.metrics) { bytes_touched = s.metrics.bytes_touched + length page.content };
}

unfoldable pub over : ℕ → Pager → Bool
over required s = ltb s.max_bytes (s.bytes + required) || leb s.max_pages (count s.pages)

unfoldable pub unleased : Page → Bool
unleased p = nat_beq p.leases 0

-- the order of the key of `min`
unfoldable pub earlier : Page → Page → Bool
earlier a b =
    ltb a.last_touch b.last_touch
    || (nat_beq a.last_touch b.last_touch
        && (lt_codes (codes a.key.segment) (codes b.key.segment)
            || (a.key.segment == b.key.segment
                && lt_codes (codes a.key.logical_range) (codes b.key.logical_range))))

-- `min`, which gives the first of equals
unfoldable pub min_page : Page → List Page → Page
min_page best [] = best
min_page best (p ∷ ps) = min_page (if earlier p best then p else best) ps

unfoldable pub drop_victim : Page → Pager → Pager
drop_victim v s = record s {
  pages = erase v.key s.pages;
  bytes = s.bytes - length v.content;
  metrics = record (s.metrics) { evictions = suc s.metrics.evictions };
}

-- The body of the loop of `_evict`, with `again` for the rounds that follow.
unfoldable pub evict_round :
    Bool
    → Bool
    → List Page
    → (Pager → Result Error Unit × Pager)
    → Pager
    → Result Error Unit × Pager
evict_round false allow free again s = (ok tt, s)
evict_round true false free again s = (err budget_exhausted, s)
evict_round true true [] again s = (err budget_exhausted, s)
evict_round true true (p ∷ ps) again s = again (drop_victim (min_page p ps) s)

-- `_evict`, a round for each unit of fuel. What was evicted before a raise stays evicted.
unfoldable pub evict_loop : ℕ → ℕ → Bool → Pager → Result Error Unit × Pager
unfolding evict_round
evict_loop zero required allow s = (err out_of_fuel, s)
evict_loop (suc fuel) required allow s =
    evict_round (over required s) allow (keep unleased (values s.pages))
      (λ s'. evict_loop fuel required allow s') s

-- A round drops a page, so the number of pages and one more is fuel enough.
unfoldable pub evict : ℕ → Bool → Pager → Result Error Unit × Pager
unfolding evict_loop
evict required allow s = evict_loop (suc (count s.pages)) required allow s
