-- ===== src/Pager/Eviction.antt =====
-- The eviction loop of src/simplicio_fast/pager.py: that it ends, what it leaves, whom it spares.
use simplicio_fast.Prelude.{
  ℕ, zero, suc, ◌+◌, ◌≤◌, ◌<◌, ◌≡◌, refl, sym, ap, ◌∙◌, ◌≢◌, Bool, true, false, none, some, List,
  [], ◌∷◌, arith, numbers_equate, strings_equate, pairs_equate, options_equate, keep, Result, ok,
  err,
}
use simplicio_fast.Prelude.Dict.{lookup-erase_ne, values, count, lookup}
use simplicio_fast.Prelude.Dict.Measure.{count-erase}
use simplicio_fast.Pager.{
  PageKey, key_eq, Error, budget_exhausted, Page, Pager, over, unleased, min_page, drop_victim,
  evict_round, evict_loop, evict,
}
use simplicio_fast.Pager.Inv.{Inv, victim_lem, drop_victim-Inv}

-- A round ends the loop, or drops a page that nobody leases and goes on.
module _ {κ} (Q : Result Error Unit × Pager → Type κ) (s : Pager)
    (again : Pager → Result Error Unit × Pager) where
  pub evict_round_cases :
      (o allow : Bool) (free : List Page)
      → keep unleased (values s.pages) ≡ free
      → Inv s
      → (o ≡ false → Q (ok tt, s))
      → (o ≡ true → Q (err budget_exhausted, s))
      → ((p : Page) (ps : List Page)
          → free ≡ p ∷ ps
          → lookup (min_page p ps).key s.pages ≡ some (min_page p ps)
          → (min_page p ps).leases ≡ 0
          → Q (again (drop_victim (min_page p ps) s)))
      → Q (evict_round o allow free again s)
  unfolding evict_round
  evict_round_cases false allow free e v fits refused more = fits refl
  evict_round_cases true false free e v fits refused more = refused refl
  evict_round_cases true true [] e v fits refused more = refused refl
  evict_round_cases true true (p ∷ ps) e v fits refused more =
      let (found, free) = victim_lem s p ps v.distinct v.keyed e in more p ps refl found free

-- What holds at first and survives the drop of an unleased page holds after the loop.
module _ {κ} (P : Pager → Type κ)
    (dropped : (v : Page) (s : Pager)
      → Inv s
      → lookup v.key s.pages ≡ some v
      → v.leases ≡ 0
      → P s
      → P (drop_victim v s)) where
  pub evict_loop-Inv :
      (fuel required : ℕ) (allow : Bool) (s : Pager)
      → Inv s
      → P s
      → Inv (evict_loop fuel required allow s).1 × P (evict_loop fuel required allow s).1
  unfolding evict_loop
  evict_loop-Inv zero required allow s v h = (v, h)
  evict_loop-Inv (suc f) required allow s v h =
      evict_round_cases (λ r. Inv r.1 × P r.1) s (evict_loop f required allow) (over required s)
        allow (keep unleased (values s.pages)) refl v (λ _. (v, h)) (λ _. (v, h))
        (λ p ps _ found free.
          evict_loop-Inv f required allow (drop_victim (min_page p ps) s)
            (drop_victim-Inv (min_page p ps) s found v) (dropped (min_page p ps) s v found free h))

  pub evict-Inv :
      (required : ℕ) (allow : Bool) (s : Pager)
      → Inv s
      → P s
      → Inv (evict required allow s).1 × P (evict required allow s).1
  unfolding evict
  evict-Inv required allow s v h = evict_loop-Inv (suc (count s.pages)) required allow s v h

-- What the loop comes to: it fits, or it is refused with the budget still exceeded.
abbrev pub Evicted : ℕ → Result Error Unit × Pager → Type 0
Evicted required (ok _, s) = (s.bytes + required ≤ s.max_bytes) × (count s.pages < s.max_pages)
Evicted required (err e, s) = (e ≡ budget_exhausted) × (over required s ≡ true)

over-false :
    (required : ℕ) (s : Pager)
    → over required s ≡ false
    → (s.bytes + required ≤ s.max_bytes) × (count s.pages < s.max_pages)
unfolding over
over-false required s h = ground arith

count-drop_victim :
    (s : Pager) (p : Page) (f : ℕ)
    → Inv s
    → lookup p.key s.pages ≡ some p
    → count s.pages < suc f
    → count (drop_victim p s).pages < f
unfolding drop_victim
count-drop_victim s p f v found h = omega (arith, count-erase p.key p s.pages v.distinct found)

evict_loop-Evicted :
    (fuel required : ℕ) (allow : Bool) (s : Pager)
    → Inv s
    → count s.pages < fuel
    → Evicted required (evict_loop fuel required allow s)
unfolding evict_loop
evict_loop-Evicted zero required allow s v h = absurd (omega arith)
evict_loop-Evicted (suc f) required allow s v h =
    evict_round_cases (Evicted required) s (evict_loop f required allow) (over required s) allow
      (keep unleased (values s.pages)) refl v (over-false required s) (λ e. (refl, e))
      (λ p ps _ found free.
        let s' = drop_victim (min_page p ps) s in
        evict_loop-Evicted f required allow s' (drop_victim-Inv (min_page p ps) s found v)
          (count-drop_victim s (min_page p ps) f v found h))

pub evict_terminates :
    (required : ℕ) (allow : Bool) (s : Pager) → Inv s → Evicted required (evict required allow s)
unfolding evict
evict_terminates required allow s v =
    evict_loop-Evicted (suc (count s.pages)) required allow s v (omega arith)

pub some_eq : {A : Type 0} {a b : A} → some a ≡ some b → a ≡ b
some_eq h = cc

pub none-ne-some : {A : Type 0} {a : A} → none ≡ some a → ⊥
none-ne-some h = cc

-- a key whose page differs from the victim is not the victim's key
pub lookup-drop_victim :
    (q : Page) (s : Pager) (k : PageKey) (p : Page)
    → lookup q.key s.pages ≡ some q
    → lookup k s.pages ≡ some p
    → q ≢ p
    → lookup k (drop_victim q s).pages ≡ some p
unfolding drop_victim
lookup-drop_victim q s k p found h ne =
    lookup-erase_ne q.key k s.pages
      (λ same. ne (some_eq (sym found ∙ (ap (λ j. lookup j s.pages) same ∙ h))))
    ∙ h

-- A leased page is never evicted, nor changed by an eviction.
pub evict-leased :
    (required : ℕ) (allow : Bool) (s : Pager) (k : PageKey) {p : Page}
    → Inv s
    → lookup k s.pages ≡ some p
    → 0 < p.leases
    → lookup k (evict required allow s).1.pages ≡ some p
evict-leased required allow s k {p} v h held =
    (evict-Inv (λ t. lookup k t.pages ≡ some p)
      (λ q t w found free h. lookup-drop_victim q t k p found h (λ same. differ q free same))
      required allow s v h).1
  where
    differ : (q : Page) → q.leases ≡ 0 → q ≡ p → ⊥
    differ q free same = omega (arith, ap (λ (x : Page). x.leases) same)
