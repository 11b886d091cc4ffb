-- ===== src/Pager/Inv.antt =====
-- The invariant of the table of pages of src/simplicio_fast/pager.py, and the page that a round of
-- eviction picks.
use simplicio_fast.Prelude.{
  ℕ, ◌≤◌, ◌≡◌, inl, inr, some, List, [], ◌∷◌, arith, nat_beq, Bool-cases, numbers_equate,
  strings_equate, pairs_equate, options_equate, length, keep, All, All-imp,
}
use simplicio_fast.Prelude.Dict.{
  Dict, values, sum, count, lookup, insert, erase, Distinct, erase-Distinct,
}
use simplicio_fast.Prelude.Dict.Measure.{sum-erase, count-erase}
use simplicio_fast.Pager.{
  PageKey, key_eq, same_key_iff, Page, Pager, unleased, earlier, min_page, drop_victim,
}

-- each page stands under its own key
abbrev pub Keyed : Dict PageKey Page → Type 0
Keyed [] = Unit
Keyed ((k, p) ∷ d) = (p.key ≡ k) × Keyed d

abbrev pub size : Page → ℕ
size p = length p.content

-- The budget: every resident byte is counted, and the counts are within the limits.
pub record Inv (s : Pager) : Type 0 where
  pub distinct : Distinct s.pages
  pub keyed : Keyed s.pages
  pub counted : sum size s.pages ≤ s.bytes
  pub within_bytes : s.bytes ≤ s.max_bytes
  pub within_pages : count s.pages ≤ s.max_pages

pub lookup-Keyed :
    (k : PageKey) (p : Page) (d : Dict PageKey Page) → Keyed d → lookup k d ≡ some p → p.key ≡ k
lookup-Keyed k p [] h e = absurd (ground arith)
lookup-Keyed k p ((j, q) ∷ d) h e = ground (arith, same_key_iff j k, lookup-Keyed k p d h.1)

pub insert-Keyed :
    (k : PageKey) (p : Page) (d : Dict PageKey Page) → p.key ≡ k → Keyed d → Keyed (insert k p d)
insert-Keyed k p [] e h = (e, tt)
insert-Keyed k p ((j, q) ∷ d) e h = ground (arith, same_key_iff j k, insert-Keyed k p d e h.1)

pub erase-Keyed : (k : PageKey) (d : Dict PageKey Page) → Keyed d → Keyed (erase k d)
erase-Keyed k [] h = tt
erase-Keyed k ((j, q) ∷ d) h = ground (arith, erase-Keyed k d h.1)

abbrev Resident : Dict PageKey Page → Page → Type 0
Resident d p = lookup p.key d ≡ some p

values-Resident : (d : Dict PageKey Page) → Distinct d → Keyed d → All (Resident d) (values d)
values-Resident [] u h = tt
values-Resident ((k, p) ∷ d) u h = (
  ground (arith, same_key_iff k p.key),
  All-imp (Resident d) _ (values d) (λ q r. ground (arith, same_key_iff k q.key))
      (values-Resident d u.1 h.1),
)

keep-All {κ} :
    (Q : Page → Type κ) (ps : List Page)
    → All Q ps
    → All (λ p. Q p × (p.leases ≡ 0)) (keep unleased ps)
unfolding unleased
keep-All Q [] h = tt
keep-All Q (p ∷ ps) h = elim (Bool-cases (nat_beq p.leases 0)) [
  | inl free ↦ rw free ((h.0, ground arith), keep-All Q ps h.1)
  | inr held ↦ rw held (keep-All Q ps h.1)
]

min_page-All {κ} :
    (Q : Page → Type κ) (best : Page) (ps : List Page) → Q best → All Q ps → Q (min_page best ps)
unfolding min_page
min_page-All Q best [] h hs = h
min_page-All Q best (p ∷ ps) h hs = elim (Bool-cases (earlier p best)) [
  | inl e ↦ rw e (min_page-All Q p ps hs.0 hs.1)
  | inr e ↦ rw e (min_page-All Q best ps h hs.1)
]

-- The victim is a resident page that nobody leases.
pub victim_lem :
    (s : Pager) (p : Page) (ps : List Page)
    → Distinct s.pages
    → Keyed s.pages
    → keep unleased (values s.pages) ≡ p ∷ ps
    → Resident s.pages (min_page p ps) × ((min_page p ps).leases ≡ 0)
victim_lem s p ps u h e =
    let all =
      rw e at (keep-All (Resident s.pages) (values s.pages) (values-Resident s.pages u h)) in
    min_page-All (λ q. Resident s.pages q × (q.leases ≡ 0)) p ps all.0 all.1

-- What eviction keeps: all of the invariant, and it can only shrink the table.
pub drop_victim-Inv :
    (v : Page) (s : Pager) → lookup v.key s.pages ≡ some v → Inv s → Inv (drop_victim v s)
unfolding drop_victim
drop_victim-Inv v s e h = record {
  distinct = erase-Distinct v.key s.pages h.distinct;
  keyed = erase-Keyed v.key s.pages h.keyed;
  counted = omega (arith, sum-erase size v.key v s.pages h.distinct e, h.counted);
  within_bytes = omega (arith, h.within_bytes);
  within_pages = omega (arith, count-erase v.key v s.pages h.distinct e, h.within_pages);
}
