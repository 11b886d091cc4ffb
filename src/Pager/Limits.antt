-- ===== src/Pager/Limits.antt =====
-- The limits of a `SemanticPager` (src/simplicio_fast/pager.py) never change.
use simplicio_fast.Prelude.{
  ℕ, zero, suc, String, ◌≡◌, refl, Bool, true, false, Option, List, [], ◌∷◌, arith, numbers_equate,
  strings_equate, pairs_equate, options_equate, length, Result, ok, err,
}
use simplicio_fast.Prelude.Dict.{count}
use simplicio_fast.Pager.{
  PageKey, key_eq, Error, Page, Pager, touch, over, min_page, drop_victim, evict_loop, evict,
  resident, cold, enter, Loaded, loads, no_bytes, fails, end_flight, finish, pin, release,
  invalidate_one, invalidate_from, invalidate, stored, Step, enters, finishes, pins, releases,
  invalidates, step, run, evict_round,
}

abbrev pub SameLimits : Pager → Pager → Type 0
SameLimits s t = (t.max_bytes ≡ s.max_bytes) × (t.max_pages ≡ s.max_pages)

evict_round-SameLimits :
    (o allow : Bool) (free : List Page) (again : Pager → Result Error Unit × Pager) (s : Pager)
    → ((v : Page) → SameLimits s (again (drop_victim v s)).1)
    → SameLimits s (evict_round o allow free again s).1
unfolding evict_round
evict_round-SameLimits false allow free again s h = (refl, refl)
evict_round-SameLimits true false free again s h = (refl, refl)
evict_round-SameLimits true true [] again s h = (refl, refl)
evict_round-SameLimits true true (p ∷ ps) again s h = h (min_page p ps)

evict_loop-SameLimits :
    (fuel required : ℕ) (allow : Bool) (s : Pager)
    → SameLimits s (evict_loop fuel required allow s).1
unfolding evict_loop drop_victim
evict_loop-SameLimits zero required allow s = (refl, refl)
evict_loop-SameLimits (suc f) required allow s =
    evict_round-SameLimits (over required s) allow _ (evict_loop f required allow) s
      (λ v. evict_loop-SameLimits f required allow (drop_victim v s))

enter-SameLimits :
    (key : PageKey) (l : Bool) (expected : Option String) (s : Pager)
    → SameLimits s (enter key l expected s).1
unfolding enter resident cold touch
enter-SameLimits key l expected s = ground arith

stored-SameLimits :
    (key : PageKey) (c : List ℕ) (d : String) (r : Result Error Unit × Pager) (s : Pager)
    → SameLimits s r.1
    → SameLimits s (stored key c d r).1
unfolding stored
stored-SameLimits key c d (err e, t) s h = h
stored-SameLimits key c d (ok _, t) s h = h

module _ (sha256 : List ℕ → String) where
  finish-SameLimits :
      (key : PageKey) (loaded : Loaded) (expected : Option String) (allow : Bool) (s : Pager)
      → SameLimits s (finish sha256 key loaded expected allow s).1
  unfolding finish end_flight evict
  finish-SameLimits key no_bytes expected allow s = (refl, refl)
  finish-SameLimits key fails expected allow s = (refl, refl)
  finish-SameLimits key (loads c) expected allow s = ground (
    arith,
    stored-SameLimits key c (sha256 c) (evict (length c) allow s) s
        (evict_loop-SameLimits (suc (count s.pages)) (length c) allow s),
  )

invalidate_one-SameLimits :
    (key : PageKey) (counts : ℕ × ℕ) (s : Pager) → SameLimits s (invalidate_one key counts s).1
unfolding invalidate_one
invalidate_one-SameLimits key counts s = ground arith

invalidate_from-SameLimits :
    (ks : List PageKey) (counts : ℕ × ℕ) (s : Pager) → SameLimits s (invalidate_from ks counts s).1
unfolding invalidate_from
invalidate_from-SameLimits [] counts s = (refl, refl)
invalidate_from-SameLimits (k ∷ ks) counts s = go (invalidate_one k counts s).0 λ c. ground (
  arith,
  invalidate_one-SameLimits k counts s,
  invalidate_from-SameLimits ks c (invalidate_one k counts s).1,
)
  where
    go :
        (r : Result Error (ℕ × ℕ))
        → ((c : ℕ × ℕ) → SameLimits s (invalidate_from ks c (invalidate_one k counts s).1).1)
        → SameLimits s
            (elim r as (λ _. Result Error (ℕ × ℕ) × Pager) [
              | err e ↦ (err e, (invalidate_one k counts s).1)
              | ok c ↦ invalidate_from ks c (invalidate_one k counts s).1
            ]).1
    go (err e) more = invalidate_one-SameLimits k counts s
    go (ok c) more = more c

module _ (sha256 : List ℕ → String) where
  step-SameLimits : (t : Step) (s : Pager) → SameLimits s (step sha256 t s)
  unfolding step pin release invalidate
  step-SameLimits (enters key l expected) s = enter-SameLimits key l expected s
  step-SameLimits (finishes key loaded expected allow) s =
      finish-SameLimits sha256 key loaded expected allow s
  step-SameLimits (pins key) s = ground arith
  step-SameLimits (releases key) s = ground arith
  step-SameLimits (invalidates ks) s = invalidate_from-SameLimits ks (0, 0) s

  pub run-SameLimits : (ts : List Step) (s : Pager) → SameLimits s (run sha256 ts s)
  unfolding run
  run-SameLimits [] s = (refl, refl)
  run-SameLimits (t ∷ ts) s =
      ground (arith, step-SameLimits t s, run-SameLimits ts (step sha256 t s))
