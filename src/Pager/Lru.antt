-- ===== src/Pager/Lru.antt =====
-- Eviction in src/simplicio_fast/pager.py takes the least recently used pages.
use mathlib.Core.Path.{subst}
use simplicio_fast.Prelude.{
  ℕ, zero, suc, ◌≤◌, ◌≡◌, refl, sym, ap, ◌∙◌, inl, inr, Bool, true, false, none, some, List, [],
  ◌∷◌, arith, nat_beq, nat_beq_iff, if◌then◌else◌, Bool-cases, ◌==◌, numbers_equate, strings_equate,
  pairs_equate, options_equate, keep, All,
}
use simplicio_fast.Prelude.Dict.{Dict, values, count, lookup, lookup-erase}
use simplicio_fast.Pager.{
  PageKey, key_eq, same_key_iff, Page, Pager, over, unleased, earlier, min_page, drop_victim,
  evict_loop, evict,
}
use simplicio_fast.Pager.Inv.{Inv, drop_victim-Inv}
use simplicio_fast.Pager.Eviction.{evict_round_cases, evict_loop-Inv, some_eq, none-ne-some}

earlier-le : (a b : Page) → earlier a b ≡ true → a.last_touch ≤ b.last_touch
unfolding earlier
earlier-le a b h = ground arith

le_of_not_earlier : (a b : Page) → earlier a b ≡ false → b.last_touch ≤ a.last_touch
unfolding earlier
le_of_not_earlier a b h = ground arith

pick-le :
    (best p : Page)
    → ((if earlier p best then p else best).last_touch ≤ best.last_touch)
      × ((if earlier p best then p else best).last_touch ≤ p.last_touch)
pick-le best p = ground (arith, earlier-le p best, le_of_not_earlier p best)

-- The victim was touched no later than any other candidate.
min_page-le :
    (best : Page) (ps : List Page)
    → ((min_page best ps).last_touch ≤ best.last_touch)
      × All (λ q. (min_page best ps).last_touch ≤ q.last_touch) ps
unfolding min_page
min_page-le best [] = (omega arith, tt)
min_page-le best (p ∷ ps) =
    let h = min_page-le (if earlier p best then p else best) ps in
    (omega (arith, h.0, (pick-le best p).0), (omega (arith, h.0, (pick-le best p).1), h.1))

module _ {κ} (Q : Page → Type κ) where
  keep-head : (p : Page) (ps : List Page) → p.leases ≡ 0 → All Q (keep unleased (p ∷ ps)) → Q p
  unfolding unleased
  keep-head p ps free h =
      let e : nat_beq p.leases 0 ≡ true = (nat_beq_iff p.leases 0).1 free in (rw e at h).0

  keep-tail :
      (p : Page) (ps : List Page) → All Q (keep unleased (p ∷ ps)) → All Q (keep unleased ps)
  keep-tail p ps h = elim (Bool-cases (unleased p)) [ inl e ↦ (rw e at h).1 | inr e ↦ rw e at h ]

  All-lookup :
      (d : Dict PageKey Page) (j : PageKey) (q : Page)
      → All Q (keep unleased (values d))
      → lookup j d ≡ some q
      → q.leases ≡ 0
      → Q q
  All-lookup [] j q h e free = absurd (ground arith)
  All-lookup ((k, p) ∷ d) j q h e free = elim (Bool-cases (k == j)) [
    | inl here ↦
        let same : p ≡ q = some_eq (rw here at e) in
        subst Q same (keep-head p (values d) (rw same free) h)
    | inr there ↦ All-lookup d j q (keep-tail p (values d) h) (rw there at e) free
  ]

lookup-drop_victim-subset :
    (w : Page) (t : Pager) (j : PageKey) (q : Page)
    → lookup j (drop_victim w t).pages ≡ some q
    → lookup j t.pages ≡ some q
unfolding drop_victim
lookup-drop_victim-subset w t j q h = elim (Bool-cases (w.key == j)) [
  | inl e ↦ absurd (none-ne-some (sym (rw e at (lookup-erase w.key j t.pages)) ∙ h))
  | inr e ↦ sym (rw e at (lookup-erase w.key j t.pages)) ∙ h
]

evict_loop-subset :
    (fuel required : ℕ) (allow : Bool) (s : Pager) (j : PageKey) (q : Page)
    → Inv s
    → lookup j (evict_loop fuel required allow s).1.pages ≡ some q
    → lookup j s.pages ≡ some q
evict_loop-subset fuel required allow s j q v =
    (evict_loop-Inv (λ t. lookup j t.pages ≡ some q → lookup j s.pages ≡ some q)
      (λ w t _ _ _ old h. old (lookup-drop_victim-subset w t j q h)) fuel required allow s v
      (λ h. h)).1

-- What the victim of a round leaves behind was touched no earlier.
victim-oldest :
    (s : Pager) (best : Page) (ps : List Page) (j : PageKey) (q : Page)
    → keep unleased (values s.pages) ≡ best ∷ ps
    → lookup j s.pages ≡ some q
    → q.leases ≡ 0
    → (min_page best ps).last_touch ≤ q.last_touch
victim-oldest s best ps j q e =
    All-lookup (λ x. (min_page best ps).last_touch ≤ x.last_touch) s.pages j q
      (rw e (min_page-le best ps))

lookup-drop_victim_ne :
    (w : Page) (t : Pager) (k : PageKey) (p : Page)
    → (w.key == k) ≡ false
    → lookup k t.pages ≡ some p
    → lookup k (drop_victim w t).pages ≡ some p
unfolding drop_victim
lookup-drop_victim_ne w t k p e h = rw e at (lookup-erase w.key k t.pages) ∙ h

evict_loop-oldest :
    (fuel required : ℕ) (allow : Bool) (s : Pager) (k j : PageKey) (p q : Page)
    → Inv s
    → lookup k s.pages ≡ some p
    → q.leases ≡ 0
    → lookup k (evict_loop fuel required allow s).1.pages ≡ none
    → lookup j (evict_loop fuel required allow s).1.pages ≡ some q
    → p.last_touch ≤ q.last_touch
unfolding evict_loop
evict_loop-oldest zero required allow s k j p q v h free gone there =
    absurd (none-ne-some (sym gone ∙ h))
evict_loop-oldest (suc f) required allow s k j p q v h free gone there =
    evict_round_cases
      (λ r. lookup k r.1.pages ≡ none → lookup j r.1.pages ≡ some q → p.last_touch ≤ q.last_touch) s
      (evict_loop f required allow) (over required s) allow (keep unleased (values s.pages)) refl v
      (λ _ gone _. absurd (none-ne-some (sym gone ∙ h)))
      (λ _ gone _. absurd (none-ne-some (sym gone ∙ h)))
      (λ best ps e found unheld gone there.
        let w = min_page best ps in
        let w-Inv = drop_victim-Inv w s found v in
        elim (Bool-cases (w.key == k)) [
          | inl here ↦
              let same : w ≡ p =
                some_eq
                  (sym found ∙ (ap (λ i. lookup i s.pages) ((same_key_iff w.key k).0 here) ∙ h)) in
              let old : lookup j s.pages ≡ some q =
                lookup-drop_victim-subset w s j q
                  (evict_loop-subset f required allow (drop_victim w s) j q w-Inv there) in
              subst (λ (x : Page). x.last_touch ≤ q.last_touch) same
                (victim-oldest s best ps j q e old free)
          | inr other ↦
              evict_loop-oldest f required allow (drop_victim w s) k j p q w-Inv
                (lookup-drop_victim_ne w s k p other h) free gone there
        ])
      gone there

-- Eviction takes the least recently used first: a page that was dropped was touched no later than
-- any page that nobody leases and that is still there.
pub evict-oldest :
    (required : ℕ) (allow : Bool) (s : Pager) (k j : PageKey) {p q : Page}
    → Inv s
    → lookup k s.pages ≡ some p
    → q.leases ≡ 0
    → lookup k (evict required allow s).1.pages ≡ none
    → lookup j (evict required allow s).1.pages ≡ some q
    → p.last_touch ≤ q.last_touch
unfolding evict
evict-oldest required allow s k j {p} {q} v h free gone there =
    evict_loop-oldest (suc (count s.pages)) required allow s k j p q v h free gone there
