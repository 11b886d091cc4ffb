-- ===== src/Pager/Budget.antt =====
-- Every operation of `SemanticPager` (src/simplicio_fast/pager.py) keeps to the budget.
use simplicio_fast.Prelude.{
  ℕ, ◌+◌, ◌-◌, ◌≤◌, ◌<◌, String, ◌≡◌, refl, ap, ◌∙◌, inl, inr, Bool, true, false, not, ◌&&◌, Option,
  none, some, List, [], ◌∷◌, arith, ltb, nat_beq, if◌then◌else◌, Bool-cases, Option-cases,
  numbers_equate, strings_equate, pairs_equate, options_equate, length, contains, Result, ok, err,
}
use simplicio_fast.Prelude.Dict.{sum, count, lookup, insert, erase, insert-Distinct, erase-Distinct}
use simplicio_fast.Prelude.Dict.Measure.{
  sum-insert_new, sum-insert, sum-erase, count-insert_new, count-insert, count-erase,
}
use simplicio_fast.Pager.{
  PageKey, key_eq, Error, Page, Metrics, Pager, init, check_key, touch, evict, Entry, raised,
  mismatched, resident, cold, find_page, enter, Loaded, loads, no_bytes, fails, store, stored,
  admit_loaded, end_flight, finish, pin, unpin, release, invalidate_page, invalidate_one,
  invalidate_from, invalidate, Step, enters, finishes, pins, releases, invalidates, step, run,
}
use simplicio_fast.Pager.Inv.{size, Inv, lookup-Keyed, insert-Keyed, erase-Keyed}
use simplicio_fast.Pager.Limits.{run-SameLimits}
use simplicio_fast.Pager.Eviction.{evict-Inv, Evicted, evict_terminates}

-- a write that keeps the key and the content of a page keeps the invariant
rewrite-Inv :
    (k : PageKey) (p p' : Page) (s s' : Pager)
    → lookup k s.pages ≡ some p
    → p'.key ≡ p.key
    → p'.content ≡ p.content
    → s'.pages ≡ insert k p' s.pages
    → s'.bytes ≡ s.bytes
    → s'.max_bytes ≡ s.max_bytes
    → s'.max_pages ≡ s.max_pages
    → Inv s
    → Inv s'
rewrite-Inv k p p' s s' found same_key same pages bytes max_bytes max_pages v = record {
  distinct = rw pages (insert-Distinct k p' s.pages v.distinct);
  keyed =
      rw pages
        (insert-Keyed k p' s.pages (same_key ∙ lookup-Keyed k p s.pages v.keyed found) v.keyed);
  counted =
      rw (pages, bytes)
        (omega (arith, sum-insert size k p' p s.pages found, ap length same, v.counted));
  within_bytes = omega (arith, bytes, max_bytes, v.within_bytes);
  within_pages =
      rw pages (omega (arith, count-insert k p' p s.pages found, max_pages, v.within_pages));
}

erase-Inv :
    (k : PageKey) (p : Page) (s s' : Pager)
    → lookup k s.pages ≡ some p
    → s'.pages ≡ erase k s.pages
    → s'.bytes ≡ s.bytes - size p
    → s'.max_bytes ≡ s.max_bytes
    → s'.max_pages ≡ s.max_pages
    → Inv s
    → Inv s'
erase-Inv k p s s' found pages bytes max_bytes max_pages v = record {
  distinct = rw pages (erase-Distinct k s.pages v.distinct);
  keyed = rw pages (erase-Keyed k s.pages v.keyed);
  counted =
      rw (pages, bytes) (omega (arith, sum-erase size k p s.pages v.distinct found, v.counted));
  within_bytes = omega (arith, bytes, max_bytes, v.within_bytes);
  within_pages =
      rw pages (omega (arith, count-erase k p s.pages v.distinct found, max_pages, v.within_pages));
}

-- a page of a key that was absent, or in the place of another
store-counted :
    (k : PageKey) (p : Page) (s : Pager)
    → Inv s
    → count s.pages < s.max_pages
    → (sum size (insert k p s.pages) ≤ s.bytes + size p)
      × (count (insert k p s.pages) ≤ s.max_pages)
store-counted k p s v room = elim (Option-cases (lookup k s.pages)) [
  | inl new ↦ (
    omega (arith, sum-insert_new size k p s.pages new, v.counted),
    omega (arith, count-insert_new k p s.pages new),
  )
  | inr (old, found) ↦ (
    omega (arith, sum-insert size k p old s.pages found, v.counted),
    omega (arith, count-insert k p old s.pages found),
  )
]

store-Inv :
    (key : PageKey) (content : List ℕ) (digest : String) (s : Pager)
    → Inv s
    → s.bytes + length content ≤ s.max_bytes
    → count s.pages < s.max_pages
    → Inv (store key content digest s)
unfolding store
store-Inv key content digest s v fits room = record {
  distinct = insert-Distinct key _ s.pages v.distinct;
  keyed = insert-Keyed key _ s.pages refl v.keyed;
  counted = (store-counted key _ s v room).0;
  within_bytes = fits;
  within_pages = (store-counted key _ s v room).1;
}

-- flights and metrics do not count
reframe-Inv :
    (fs : List PageKey) (m : Metrics) (s : Pager)
    → Inv s
    → Inv (record s { flights = fs; metrics = m })
reframe-Inv fs m s v = record {
  distinct = v.distinct;
  keyed = v.keyed;
  counted = v.counted;
  within_bytes = v.within_bytes;
  within_pages = v.within_pages;
}

cold-Inv : (key : PageKey) (has_loader : Bool) (s : Pager) → Inv s → Inv (cold key has_loader s).1
unfolding cold
cold-Inv key has_loader s v = elim (Bool-cases (not has_loader)) [
  | inl e ↦ rw (e, cold) v
  | inr e ↦ elim (Bool-cases (contains key s.flights)) [
    | inl f ↦ rw (e, f, cold) (reframe-Inv _ _ s v)
    | inr f ↦ rw (e, f, cold) (reframe-Inv _ _ s v)
  ]
]

resident-Inv :
    (key : PageKey) (page : Page) (expected : Option String) (s : Pager)
    → lookup key s.pages ≡ some page
    → Inv s
    → Inv (resident key page expected s).1
unfolding resident touch
resident-Inv key page expected s found v = elim (Bool-cases (mismatched expected page.digest)) [
  | inl e ↦ rw (e, resident) (rewrite-Inv key page _ s _ found refl refl refl refl refl refl v)
  | inr e ↦ rw (e, resident) (rewrite-Inv key page _ s _ found refl refl refl refl refl refl v)
]

pub enter-Inv :
    (key : PageKey) (has_loader : Bool) (expected : Option String) (s : Pager)
    → Inv s
    → Inv (enter key has_loader expected s).1
unfolding enter
enter-Inv key has_loader expected s v = checked (check_key key s) (lookup key s.pages) refl
  where
    found :
        (o : Option Page) → lookup key s.pages ≡ o → Inv (find_page key has_loader expected o s).1
    found none e = cold-Inv key has_loader s v
    found (some p) e =
        elim p.invalidated
          as (λ b. Inv (if b then cold key has_loader s else resident key p expected s).1) [
            | true ↦ cold-Inv key has_loader s v
            | false ↦ resident-Inv key p expected s e v
          ]

    checked :
        (r : Result Error Unit) (o : Option Page)
        → lookup key s.pages ≡ o
        → Inv
            (elim r as (λ _. Entry × Pager) [
              | err e ↦ (raised e, s)
              | ok _ ↦ find_page key has_loader expected o s
            ]).1
    checked (err x) o e = v
    checked (ok _) o e = found o e

stored-Inv :
    (key : PageKey) (content : List ℕ) (digest : String) (r : Result Error Unit × Pager)
    → Inv r.1
    → Evicted (length content) r
    → Inv (stored key content digest r).1
unfolding stored
stored-Inv key content digest (err e, s) v done = v
stored-Inv key content digest (ok _, s) v done = store-Inv key content digest s v done.0 done.1

module _ (sha256 : List ℕ → String) where
  admit_loaded-Inv :
      (key : PageKey) (loaded : Loaded) (expected : Option String) (allow : Bool) (s : Pager)
      → Inv s
      → Inv (admit_loaded sha256 key loaded expected allow s).1
  unfolding admit_loaded
  admit_loaded-Inv key no_bytes expected allow s v = v
  admit_loaded-Inv key fails expected allow s v = v
  admit_loaded-Inv key (loads content) expected allow s v =
      elim (Bool-cases (mismatched expected (sha256 content))) [
        | inl e ↦ rw (e, admit_loaded) v
        | inr e ↦
            rw (e, admit_loaded)
              (stored-Inv key content (sha256 content) (evict (length content) allow s)
                (evict-Inv (λ _. Unit {0}) (λ _ _ _ _ _ _. tt) (length content) allow s v tt).0
                (evict_terminates (length content) allow s v))
      ]

  pub finish-Inv :
      (key : PageKey) (loaded : Loaded) (expected : Option String) (allow : Bool) (s : Pager)
      → Inv s
      → Inv (finish sha256 key loaded expected allow s).1
  unfolding finish end_flight
  finish-Inv key loaded expected allow s v =
      reframe-Inv _ _ _ (admit_loaded-Inv key loaded expected allow s v)

pub pin-Inv : (key : PageKey) (s : Pager) → Inv s → Inv (pin key s).1
unfolding pin
pin-Inv key s v = elim (Option-cases (lookup key s.pages)) [
  | inl e ↦ rw (e, pin) v
  | inr (p, e) ↦ rw (e, pin) (rewrite-Inv key p _ s _ e refl refl refl refl refl refl v)
]

unpin-Inv :
    (key : PageKey) (p : Page) (s : Pager)
    → lookup key s.pages ≡ some p
    → Inv s
    → Inv (unpin key p s)
unfolding unpin
unpin-Inv key p s e v = elim (Bool-cases (p.invalidated && nat_beq p.leases 1)) [
  | inl last ↦ rw (last, unpin) (erase-Inv key p s _ e refl refl refl refl v)
  | inr held ↦ rw (held, unpin) (rewrite-Inv key p _ s _ e refl refl refl refl refl refl v)
]

pub release-Inv : (key : PageKey) (s : Pager) → Inv s → Inv (release key s).1
unfolding release
release-Inv key s v = elim (Option-cases (lookup key s.pages)) [
  | inl e ↦ rw (e, release) v
  | inr (p, e) ↦ elim (Bool-cases (ltb p.leases 1)) [
    | inl free ↦ rw (e, free, release) v
    | inr held ↦ rw (e, held, release) (unpin-Inv key p s e v)
  ]
]

invalidate_page-Inv :
    (key : PageKey) (p : Page) (counts : ℕ × ℕ) (s : Pager)
    → lookup key s.pages ≡ some p
    → Inv s
    → Inv (invalidate_page key p counts s).1
unfolding invalidate_page
invalidate_page-Inv key p (removed, held) s e v = elim (Bool-cases (nat_beq p.leases 0)) [
  | inl free ↦ rw (free, invalidate_page) (erase-Inv key p s _ e refl refl refl refl v)
  | inr leased ↦
      rw (leased, invalidate_page) (rewrite-Inv key p _ s _ e refl refl refl refl refl refl v)
]

invalidate_one-Inv :
    (key : PageKey) (counts : ℕ × ℕ) (s : Pager) → Inv s → Inv (invalidate_one key counts s).1
unfolding invalidate_one
invalidate_one-Inv key counts s v = checked (check_key key s) (lookup key s.pages) refl
  where
    checked :
        (r : Result Error Unit) (o : Option Page)
        → lookup key s.pages ≡ o
        → Inv
            (elim r as (λ _. Result Error (ℕ × ℕ) × Pager) [
              | err e ↦ (err e, s)
              | ok _ ↦ elim o as (λ _. Result Error (ℕ × ℕ) × Pager) [
                | none ↦ (ok counts, s)
                | some page ↦ (
                  ok (invalidate_page key page counts s).0,
                  (invalidate_page key page counts s).1,
                )
              ]
            ]).1
    checked (err x) o e = v
    checked (ok _) none e = v
    checked (ok _) (some p) e = invalidate_page-Inv key p counts s e v

invalidate_from-Inv :
    (ks : List PageKey) (counts : ℕ × ℕ) (s : Pager) → Inv s → Inv (invalidate_from ks counts s).1
unfolding invalidate_from
invalidate_from-Inv [] counts s v = v
invalidate_from-Inv (key ∷ ks) counts s v =
    go (invalidate_one key counts s).0 (invalidate_one-Inv key counts s v) (λ c.
      invalidate_from-Inv ks c (invalidate_one key counts s).1 (invalidate_one-Inv key counts s v))
  where
    go :
        (r : Result Error (ℕ × ℕ))
        → Inv (invalidate_one key counts s).1
        → ((c : ℕ × ℕ) → Inv (invalidate_from ks c (invalidate_one key counts s).1).1)
        → Inv
            (elim r as (λ _. Result Error (ℕ × ℕ) × Pager) [
              | err e ↦ (err e, (invalidate_one key counts s).1)
              | ok c ↦ invalidate_from ks c (invalidate_one key counts s).1
            ]).1
    go (err e) same more = same
    go (ok c) same more = more c

init-Inv :
    (repository generation : String) (max_bytes max_pages : ℕ) (s : Pager)
    → init repository generation max_bytes max_pages ≡ ok s
    → Inv s
unfolding init
init-Inv repository generation max_bytes max_pages s h = ground arith

init-limits :
    (repository generation : String) (max_bytes max_pages : ℕ) (s : Pager)
    → init repository generation max_bytes max_pages ≡ ok s
    → (s.max_bytes ≡ max_bytes) × (s.max_pages ≡ max_pages)
unfolding init
init-limits repository generation max_bytes max_pages s h = ground arith

module _ (sha256 : List ℕ → String) where
  -- Any step of any thread: what one of them does while it holds the lock.
  pub step-Inv : (t : Step) (s : Pager) → Inv s → Inv (step sha256 t s)
  unfolding step invalidate
  step-Inv (enters key has_loader expected) s v = enter-Inv key has_loader expected s v
  step-Inv (finishes key loaded expected allow) s v =
      finish-Inv sha256 key loaded expected allow s v
  step-Inv (pins key) s v = pin-Inv key s v
  step-Inv (releases key) s v = release-Inv key s v
  step-Inv (invalidates ks) s v = invalidate_from-Inv ks (0, 0) s v

  run-Inv : (ts : List Step) (s : Pager) → Inv s → Inv (run sha256 ts s)
  unfolding run
  run-Inv [] s v = v
  run-Inv (t ∷ ts) s v = run-Inv ts (step sha256 t s) (step-Inv t s v)

  -- However the calls of the threads interleave at the lock, a new pager stays within its limits: the
  -- bytes of the resident pages sum to at most the bytes that it counts, those to at most
  -- `max_bytes`, and there are at most `max_pages` pages.
  pub run_within_budget :
      (repository generation : String) (max_bytes max_pages : ℕ) {s : Pager} (ts : List Step)
      → init repository generation max_bytes max_pages ≡ ok s
      → let s' = run sha256 ts s in
        (sum size s'.pages ≤ s'.bytes) × (s'.bytes ≤ max_bytes) × (count s'.pages ≤ max_pages)
  run_within_budget repository generation max_bytes max_pages {s} ts h =
      let v = run-Inv ts s (init-Inv repository generation max_bytes max_pages s h) in
      let limits = init-limits repository generation max_bytes max_pages s h in
      let same = run-SameLimits sha256 ts s in
      (
        v.counted,
        omega (arith, v.within_bytes, limits.0, same.0),
        omega (arith, v.within_pages, limits.1, same.1),
      )
