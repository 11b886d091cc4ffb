-- ===== src/Pager/Leases.antt =====
-- Leases of `SemanticPager` (src/simplicio_fast/pager.py): what a lease protects, and what a load over a
-- leased page does to it.
use simplicio_fast.Prelude.{
  ℕ, suc, ◌+◌, ◌-◌, ◌≤◌, ◌<◌, String, ◌≡◌, false, ◌&&◌, none, some, List, ◌∷◌, arith, nat_beq,
  if◌then◌else◌, numbers_equate, strings_equate, pairs_equate, options_equate, ok,
}
use simplicio_fast.Prelude.Dict.{count, lookup, insert}
use simplicio_fast.Pager.{PageKey, key_eq, Page, Pager, pin, release, unpin}
use simplicio_fast.Prelude.Dict.{lookup-insert_self, lookup-erase_self}
use simplicio_fast.Pager.Inv.{size}

-- room for the content and one more page
abbrev pub HasRoom : ℕ → Pager → Type 0
HasRoom required s = (s.bytes + required ≤ s.max_bytes) × (count s.pages < s.max_pages)

-- the state of an owner: its flight and its miss are noted
abbrev take_off : PageKey → Pager → Pager
take_off key s = record s {
  flights = key ∷ s.flights;
  metrics = record (s.metrics) { misses = suc s.metrics.misses };
}

abbrev fresh_page : PageKey → List ℕ → String → Pager → Page
fresh_page key content digest s = record {
  key = key;
  content = content;
  digest = digest;
  last_touch = suc s.clock;
  leases = 0;
  invalidated = false;
}

-- A lease that `pin` takes on a resident page is given back by `release`: the page is there as
-- before, unless it was invalidated meanwhile and this was the last lease, when it goes.
release-pin :
    (key : PageKey) (s : Pager) {p : Page}
    → lookup key s.pages ≡ some p
    → let s' = (release key (pin key s).1).1 in
      ((release key (pin key s).1).0 ≡ ok tt)
      × (lookup key s'.pages ≡ (if p.invalidated && nat_beq p.leases 0 then none else some p))
      × (s'.bytes ≡ (if p.invalidated && nat_beq p.leases 0 then s.bytes - size p else s.bytes))
unfolding release pin unpin
release-pin key s {p} h =
    let held : Page = record p { leases = suc p.leases } in
    ground (
      arith,
      lookup-insert_self key held s.pages,
      lookup-insert_self key p (insert key held s.pages),
      lookup-erase_self key (insert key held s.pages),
    )
