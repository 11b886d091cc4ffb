-- ===== src/Temporal/Intervals.antt =====
-- The versions of an identity in `BitemporalOverlay` of src/simplicio_fast/temporal.py as a timeline:
-- what `as_of` finds at a world of it, and what it finds there after a deleted identity returns.
use simplicio_fast.Prelude.{
  ℕ, suc, ◌≤◌, ◌<◌, String, ◌≡◌, refl, ap, ◌∙◌, inl, inr, true, false, ◌&&◌, Option, none, some,
  List, [], ◌∷◌, ◌++◌, ok, arith, strings_equate, ltb, leb, le→leb, lt→ltb, beq_of, if◌then◌else◌,
  Bool-cases, All, keep, length, get_last?, get_last?-append,
}
use simplicio_fast.Prelude.Dict.{lookup, lookup-insert_self}
use simplicio_fast.Temporal.{
  Fact, Request, digest, Versions, Overlay, supersede, commit, is_open, init, new_fact, closed,
}
use simplicio_fast.Temporal.Query.{is_candidate, candidates, lasts}
use simplicio_fast.Temporal.Past.{not_yet, keep-push, keep-push_kept, view, view_of}
use simplicio_fast.Temporal.Calls.{Call, Proper, run}
use simplicio_fast.Temporal.Reach.{run-Inv, init-Inv}
use simplicio_fast.Temporal.Inv.{Ordered, Sound, Chain, Inv, lookup-Entries}

-- where the timeline starts
abbrev pub starts : List Fact → Fact → ℕ
starts [] latest = latest.valid_from
starts (f ∷ fs) latest = f.valid_from

lasts_until :
    (w n : ℕ) (f : Fact)
    → f.valid_to ≡ some n
    → is_candidate w true f ≡ (leb f.valid_from w && ltb w n)
unfolding is_candidate
lasts_until w n f to = ap (λ x. leb f.valid_from w && lasts x w && true) to ∙ ground arith

lasts_on : (w : ℕ) (f : Fact) → f.valid_to ≡ none → is_candidate w true f ≡ leb f.valid_from w
unfolding is_candidate
lasts_on w f to = ap (λ x. leb f.valid_from w && lasts x w && true) to ∙ ground arith

ends_after : (to : Option ℕ) (from n : ℕ) → Ordered to from → to ≡ some n → from < n
ends_after none from n h e = cc
ends_after (some t) from n h e = ground arith

module _ (sha256 : List ℕ → String) where
  after_end :
      (id repository : String) (w : ℕ) (p : Fact) (fs : List Fact)
      → All (Sound id repository) fs
      → Chain sha256 (some p) fs
      → ((t : ℕ) → p.valid_to ≡ some t → w < t)
      → keep (is_candidate w true) fs ≡ []
  after_end id repository w p [] s c ends = refl
  after_end id repository w p (f ∷ fs) s c ends =
      let lt : w < f.valid_from = ends f.valid_from c.0.0 in
      rw (not_yet w true f lt) (
        after_end id repository w f fs s.1 c.1 (λ t to.
          let more = ends_after f.valid_to f.valid_from t s.0.2 to in omega (arith, lt, more)))

  next :
      (f : Fact) (fs : List Fact) (l : Fact)
      → Chain sha256 (some f) (fs ++ l ∷ [])
      → f.valid_to ≡ some (starts fs l)
  next f [] l c = c.0.0
  next f (g ∷ gs) l c = c.0.0

  one_candidate :
      (id repository : String) (w : ℕ) (p : Option Fact) (fs : List Fact) (l : Fact)
      → All (Sound id repository) (fs ++ l ∷ [])
      → Chain sha256 p (fs ++ l ∷ [])
      → l.valid_to ≡ none
      → length (keep (is_candidate w true) (fs ++ l ∷ [])) ≡ (if leb (starts fs l) w then 1 else 0)
  one_candidate id repository w p [] l s c o = rw (lasts_on w l o) (ground arith)
  one_candidate id repository w p (f ∷ fs) l s c o =
      let to = next f fs l c.1 in
      let n = starts fs l in
      let rest = one_candidate id repository w (some f) fs l s.1 c.1 o in
      let lt : f.valid_from < n = ends_after f.valid_to f.valid_from n s.0.2 to in
      rw (lasts_until w n f to) (elim (Bool-cases (ltb w n)) [
        | inl before ↦
            let gone =
              after_end id repository w f (fs ++ l ∷ []) s.1 c.1
                (λ t to'. ground (arith, before, to, to')) in
            rw (before, gone) (ground arith)
        | inr after ↦ rw after (ground (arith, after, lt, rest))
      ])

  Inv-candidates :
      (o : Overlay) (id : String) (v : Versions) (w : ℕ)
      → Inv sha256 o
      → lookup id o.facts ≡ some v
      → length (candidates w true v) ≡ (if leb (starts v.older v.latest) w then 1 else 0)
  Inv-candidates o id v w i found =
      let entry =
        lookup-Entries sha256 o.repository o.world_sequence id v o.facts i.entries found in
      one_candidate id o.repository w none v.older v.latest entry.0 entry.1 entry.2

  -- After any sequence of calls on a fresh overlay in which no rename is to the same identity, exactly
  -- one version of an identity answers a query with tombstones about a world from the identity's
  -- first version on, and none answers one about an earlier world.
  pub run-candidates :
      (repository base : String) (overlay : Option String) {o : Overlay} (cs : List Call)
      → (id : String) (v : Versions) (w : ℕ) → init repository base overlay ≡ ok o
      → All Proper cs
      → lookup id (run sha256 cs o).facts ≡ some v
      → length (candidates w true v) ≡ (if leb (starts v.older v.latest) w then 1 else 0)
  run-candidates repository base overlay {o} cs id v w h proper found =
      Inv-candidates (run sha256 cs o) id v w
        (run-Inv sha256 cs o proper (init-Inv sha256 repository base overlay h)) found

  outlives :
      (w world observed : ℕ) (state : String) (d : Option String) (f : Fact)
      → f.valid_from ≤ w
      → w < world
      → state ≡ "active"
      → is_candidate w false (record (closed state world observed f) { successor = d }) ≡ true
  unfolding is_candidate closed
  outlives w world observed state d f le lt active =
      rw (beq_of active, le→leb f.valid_from w le, lt→ltb w world lt) refl

  buried : (w : ℕ) (f : Fact) → f.state ≡ "tombstoned" → is_candidate w false f ≡ false
  unfolding is_candidate
  buried w f dead = ground (arith, beq_of dead)

  -- A tombstone is no candidate for a query without tombstones, about any world. But once an active
  -- fact is committed under its identity in a later world, the tombstone is what such a query finds
  -- about every world from the tombstone's start to that commit.
  pub commit_revives :
      (r : Request) (world : ℕ) (o : Overlay) (v : Versions) (w : ℕ)
      → lookup r.canonical_id o.facts ≡ some v
      → is_open v.latest ≡ true
      → v.latest.state ≡ "tombstoned"
      → r.state ≡ "active"
      → v.latest.valid_from ≤ w
      → w < world
      → (is_candidate w false v.latest ≡ false)
        × ((u : Versions) × (lookup r.canonical_id (commit sha256 r world o).1.facts ≡ some u)
            × (view_of (get_last? (candidates w false u)) ≡ some (view v.latest)))
  unfolding supersede new_fact commit digest
  commit_revives r world o v w found opened dead active le lt =
      let observed = suc o.observed_sequence in
      let p = closed r.state world observed v.latest in
      let f = new_fact r (some (digest sha256 p)) world observed o in
      let linked = record p { successor = some (digest sha256 f) } in
      (
        buried w v.latest dead,
        (
          record { older = v.older ++ linked ∷ []; latest = f },
          rw (commit, found, opened) (lookup-insert_self r.canonical_id _ o.facts),
          rw
              (
                keep-push (is_candidate w false) (v.older ++ linked ∷ []) f (not_yet w false f lt),
                keep-push_kept (is_candidate w false) v.older linked (
                    outlives w world observed r.state (some (digest sha256 f)) v.latest le lt
                      active),
                get_last?-append (keep (is_candidate w false) v.older) linked,
              )
              refl,
        ),
      )
