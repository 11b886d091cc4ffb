-- ===== src/Pager/Prefetch.antt =====
-- `SemanticPager.lease` and `prefetch` of src/simplicio_fast/pager.py, with no other call in between:
-- `none` is a call that waits for a load of another thread.
use mathlib.Core.Option
use simplicio_fast.Prelude.{
  ℕ, suc, ◌+◌, String, ◌≡◌, inl, inr, Bool, true, false, not, Option, none, some, List, [], ◌∷◌,
  arith, if◌then◌else◌, Bool-cases, numbers_equate, strings_equate, pairs_equate, options_equate,
  length, Result, ok, err, ◌>>=◌,
}
use simplicio_fast.Prelude.Dict.{has-insert, lookup, has}
use simplicio_fast.Pager.{
  PageKey, key_eq, Error, not_bytes, loader_failed, key_error, out_of_fuel, Page, Pager, check_key,
  touch, evict_loop, evict, Entry, hit, raised, owner, waiter, mismatched, resident, cold, enter,
  Loaded, loads, no_bytes, fails, store, end_flight, finish, get, pin, find_page, stored,
  admit_loaded, complete, evict_round,
}

-- `key in self._pages and not self._pages[key].invalidated`
is_resident : PageKey → Pager → Bool
is_resident key s = elim (lookup key s.pages) [ none ↦ false | some p ↦ not p.invalidated ]

-- what `except PagerError` catches
is_pager_error : Error → Bool
is_pager_error not_bytes = false
is_pager_error loader_failed = false
is_pager_error key_error = false
is_pager_error out_of_fuel = false
is_pager_error _ = true

-- one more key that was useful or wasted, or the exception that ends the loop
tally : Bool → ℕ × ℕ → Result Error (List ℕ) → Result Error (ℕ × ℕ)
unfolding is_pager_error
tally was_resident (useful, wasted) (ok _) =
    ok (if was_resident then (useful, suc wasted) else (suc useful, wasted))
tally was_resident (useful, wasted) (err e) =
    if is_pager_error e then ok (useful, suc wasted) else err e

module _ (sha256 : List ℕ → String) where
  -- the page is counted once more after `get`, and the bytes are handed over
  leased : PageKey → Option (Result Error (List ℕ)) × Pager → Option (Result Error (List ℕ)) × Pager
  leased key (some (ok content), s) = let (r, s') = pin key s in (some (r >>= λ _. ok content), s')
  leased key (r, s) = (r, s)

  pub lease :
      PageKey → Option Loaded → Option String → Pager → Option (Result Error (List ℕ)) × Pager
  unfolding leased
  lease key loaded expected s = leased key (get sha256 key loaded expected true s)

  pub prefetch_from :
      (PageKey → Loaded) → List PageKey → ℕ × ℕ → Pager → Option (Result Error (ℕ × ℕ)) × Pager
  unfolding is_resident tally
  prefetch_from loader [] (useful, wasted) s = (
    some (ok (useful, wasted)),
    record s {
      metrics = record (s.metrics) {
        prefetch_useful = s.metrics.prefetch_useful + useful;
        prefetch_wasted = s.metrics.prefetch_wasted + wasted;
      };
    },
  )
  prefetch_from loader (key ∷ ks) counts s =
      let (r, s') = get sha256 key (some (loader key)) none false s in
      elim (Option.map (tally (is_resident key s) counts) r) [
        | none ↦ (none, s')
        | some (err e) ↦ (some (err e), s')
        | some (ok c) ↦ prefetch_from loader ks c s'
      ]

  pub prefetch : (PageKey → Loaded) → List PageKey → Pager → Option (Result Error (ℕ × ℕ)) × Pager
  unfolding prefetch_from
  prefetch loader ks s = prefetch_from loader ks (0, 0) s

abbrev Kept : PageKey → Pager → Type 0
Kept k s = has k s.pages ≡ true

cold-pages : (key : PageKey) (l : Bool) (s : Pager) → (cold key l s).1.pages ≡ s.pages
unfolding cold
cold-pages key l s = ground arith

resident-Kept :
    (k key : PageKey) (p : Page) (expected : Option String) (s : Pager)
    → Kept k s
    → Kept k (resident key p expected s).1
unfolding resident touch
resident-Kept k key p expected s h = elim (Bool-cases (mismatched expected p.digest)) [
  | inl e ↦ rw (e, resident) (has-insert k key _ s.pages h)
  | inr e ↦ rw (e, resident) (has-insert k key _ s.pages h)
]

enter-Kept :
    (k key : PageKey) (l : Bool) (expected : Option String) (s : Pager)
    → Kept k s
    → Kept k (enter key l expected s).1
unfolding enter
enter-Kept k key l expected s h = checked (check_key key s) (lookup key s.pages)
  where
    found : (o : Option Page) → Kept k (find_page key l expected o s).1
    found none = rw cold-pages h
    found (some p) =
        elim p.invalidated
          as (λ b. Kept k (if b then cold key l s else resident key p expected s).1) [
            | true ↦ rw cold-pages h
            | false ↦ resident-Kept k key p expected s h
          ]

    checked :
        (r : Result Error Unit) (o : Option Page)
        → Kept k
            (elim r as (λ _. Entry × Pager) [
              | err e ↦ (raised e, s)
              | ok _ ↦ find_page key l expected o s
            ]).1
    checked (err x) o = h
    checked (ok _) o = found o

evict_none : (required : ℕ) (s : Pager) → (evict required false s).1 ≡ s
unfolding evict evict_loop evict_round
evict_none required s = ground arith

module _ (sha256 : List ℕ → String) where
  stored-Kept :
      (k key : PageKey) (c : List ℕ) (d : String) (r : Result Error Unit × Pager)
      → Kept k r.1
      → Kept k (stored key c d r).1
  unfolding stored store
  stored-Kept k key c d (err e, s) h = h
  stored-Kept k key c d (ok _, s) h = has-insert k key _ s.pages h

  finish-Kept :
      (k key : PageKey) (loaded : Loaded) (expected : Option String) (s : Pager)
      → Kept k s
      → Kept k (finish sha256 key loaded expected false s).1
  unfolding finish end_flight admit_loaded
  finish-Kept k key no_bytes expected s h = h
  finish-Kept k key fails expected s h = h
  finish-Kept k key (loads c) expected s h = elim (Bool-cases (mismatched expected (sha256 c))) [
    | inl e ↦ rw (e, admit_loaded) h
    | inr e ↦
        rw (e, admit_loaded)
          (stored-Kept k key c (sha256 c) (evict (length c) false s)
            (rw (evict_none (length c) s) h))
  ]

  complete-Kept :
      (k key : PageKey) (loaded : Loaded) (expected : Option String) (r : Entry × Pager)
      → Kept k r.1
      → Kept k (complete sha256 key loaded expected false r).1
  unfolding complete
  complete-Kept k key loaded expected (hit c, s) h = h
  complete-Kept k key loaded expected (raised e, s) h = h
  complete-Kept k key loaded expected (waiter, s) h = h
  complete-Kept k key loaded expected (owner, s) h = finish-Kept k key loaded expected s h

  prefetch_from-Kept :
      (k : PageKey) (loader : PageKey → Loaded) (ks : List PageKey) (counts : ℕ × ℕ) (s : Pager)
      → Kept k s
      → Kept k (prefetch_from sha256 loader ks counts s).1
  unfolding prefetch_from get
  prefetch_from-Kept k loader [] (u, w) s h = h
  prefetch_from-Kept k loader (key ∷ ks) counts s h =
      let (r, s') = get sha256 key (some (loader key)) none false s in
      let kept =
        complete-Kept k key (loader key) none (enter key true none s)
          (enter-Kept k key true none s h) in
      go (Option.map (tally (is_resident key s) counts) r) s' kept
        (λ c. prefetch_from-Kept k loader ks c s' kept)
    where
      go :
          (r : Option (Result Error (ℕ × ℕ))) (s' : Pager)
          → Kept k s'
          → ((c : ℕ × ℕ) → Kept k (prefetch_from sha256 loader ks c s').1)
          → Kept k
              (elim r as (λ _. Option (Result Error (ℕ × ℕ)) × Pager) [
                | none ↦ (none, s')
                | some (err e) ↦ (some (err e), s')
                | some (ok c) ↦ prefetch_from sha256 loader ks c s'
              ]).1
      go none s' kept more = kept
      go (some (err e)) s' kept more = kept
      go (some (ok c)) s' kept more = more c

  -- Prefetching is polite: a key that has a page before `prefetch` has one afterwards, whatever is
  -- loaded and whether or not the loop ends by an exception.
  prefetch-keeps :
      (k : PageKey) (loader : PageKey → Loaded) (ks : List PageKey) (s : Pager)
      → has k s.pages ≡ true
      → has k (prefetch sha256 loader ks s).1.pages ≡ true
  unfolding prefetch
  prefetch-keeps k loader ks s h = prefetch_from-Kept k loader ks (0, 0) s h
