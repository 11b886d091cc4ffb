-- ===== src/Temporal/Preserve.antt =====
-- The calls of `BitemporalOverlay` in src/simplicio_fast/temporal.py keep the chains of versions.
use simplicio_fast.Prelude.{
  ℕ, ◌≤◌, ◌<◌, String, ◌≡◌, refl, inl, inr, Bool, false, Option, none, some, List, ok, err, arith,
  strings_equate, Bool-cases, Option-cases, ◌≢◌, ◌⊎◌, Result-cases,
}
use simplicio_fast.Prelude.Dict.{lookup, insert-Distinct, lookup-insert_ne}
use simplicio_fast.Temporal.{
  Request, digest, Versions, Overlay, is_open, closed, new_fact, push_fact, open_new, supersede,
  commit, advance, Error, world_time_out_of_order, append, world_of, is_out_of_order, check_request,
}
use simplicio_fast.Temporal.Inv.{
  Inv, lookup-Entries, Entries-advance, insert-Entries, supersede-WellVersioned,
}

module _ (sha256 : List ℕ → String) where
  -- the open version under the identity starts before `world`
  abbrev pub StartsBefore : ℕ → Option Versions → Type 0
  StartsBefore world none = Unit
  StartsBefore world (some v) = v.latest.valid_from < world

  commit_new :
      (r : Request) (world : ℕ) (o : Overlay)
      → Inv sha256 o
      → o.world_sequence ≤ world
      → lookup r.canonical_id o.facts ≡ none
      → Inv sha256 (open_new sha256 r world o).1
  unfolding open_new new_fact push_fact
  commit_new r world o v le absent = record {
    distinct = insert-Distinct r.canonical_id _ o.facts v.distinct;
    entries =
        insert-Entries sha256 o.repository world r.canonical_id _ o.facts
          (rw absent (((refl, refl, tt), tt), (tt, tt), refl, ground arith))
          (Entries-advance sha256 o.repository o.world_sequence world o.facts le v.entries);
  }

  supersede-Inv :
      (r : Request) (world : ℕ) (u : Versions) (o : Overlay)
      → Inv sha256 o
      → o.world_sequence ≤ world
      → lookup r.canonical_id o.facts ≡ some u
      → u.latest.valid_from < world
      → Inv sha256 (supersede sha256 r world u o).1
  unfolding supersede new_fact closed digest
  supersede-Inv r world u o v le found lt = record {
    distinct = insert-Distinct r.canonical_id _ o.facts v.distinct;
    entries =
        insert-Entries sha256 o.repository world r.canonical_id _ o.facts
          (supersede-WellVersioned sha256 r.canonical_id o.repository o.world_sequence world u _ _
            (lookup-Entries sha256 o.repository o.world_sequence r.canonical_id u o.facts v.entries
              found)
            lt refl refl refl refl refl (refl, refl, tt) refl refl refl)
          (Entries-advance sha256 o.repository o.world_sequence world o.facts le v.entries);
  }

  pub commit-Inv :
      (r : Request) (world : ℕ) (o : Overlay)
      → Inv sha256 o
      → o.world_sequence ≤ world
      → StartsBefore world (lookup r.canonical_id o.facts)
      → Inv sha256 (commit sha256 r world o).1
  unfolding commit
  commit-Inv r world o v le before = elim (Option-cases (lookup r.canonical_id o.facts)) [
    | inl absent ↦ rw (commit, absent) (commit_new r world o v le absent)
    | inr (u, found) ↦
        let entry =
          lookup-Entries sha256 o.repository o.world_sequence r.canonical_id u o.facts v.entries
            found in
        rw (commit, found, entry.2) (supersede-Inv r world u o v le found (rw found at before))
  ]

  in_order :
      (allow : Bool) (world clock : ℕ) → is_out_of_order allow world clock ≡ false → clock ≤ world
  unfolding is_out_of_order
  in_order allow world clock h = ground arith

  -- What `append` does: it raises and changes nothing, or it commits in order.
  pub append-cases :
      (r : Request) (o : Overlay)
      → ((e : Error) × (append sha256 r o ≡ (err e, o)))
        ⊎ ((o.world_sequence ≤ world_of r.valid_from o.world_sequence)
            × (is_out_of_order r.allow_same_world
                  (world_of r.valid_from o.world_sequence)
                  o.world_sequence
                ≡ false)
            × (append sha256 r o ≡ (
              ok (commit sha256 r (world_of r.valid_from o.world_sequence) o).0,
              (commit sha256 r (world_of r.valid_from o.world_sequence) o).1,
            )))
  unfolding append advance
  append-cases r o = elim (Result-cases (check_request r)) [
    | inr (e, bad) ↦ inl (e, rw (append, bad) refl)
    | inl (u, fine) ↦
        let world = world_of r.valid_from o.world_sequence in
        elim (Bool-cases (is_out_of_order r.allow_same_world world o.world_sequence)) [
          | inl late ↦ inl (world_time_out_of_order, rw (append, fine, advance, late) refl)
          | inr now ↦ inr (
            in_order r.allow_same_world world o.world_sequence now,
            now,
            rw (append, fine, advance, now) refl,
          )
        ]
  ]

  -- `append` keeps the chains, unless it may start a version in the world of the one it closes.
  pub append-Inv :
      (r : Request) (o : Overlay)
      → Inv sha256 o
      → (o.world_sequence ≤ world_of r.valid_from o.world_sequence
          → is_out_of_order r.allow_same_world
              (world_of r.valid_from o.world_sequence)
              o.world_sequence
            ≡ false
          → StartsBefore (world_of r.valid_from o.world_sequence) (lookup r.canonical_id o.facts))
      → Inv sha256 (append sha256 r o).1
  append-Inv r o v before = elim (append-cases r o) [
    | inl (e, raised) ↦ rw raised v
    | inr (le, now, done) ↦
        rw done (commit-Inv r (world_of r.valid_from o.world_sequence) o v le (before le now))
  ]

  pub commit_world :
      (r : Request) (world : ℕ) (o : Overlay) → (commit sha256 r world o).1.world_sequence ≡ world
  unfolding commit open_new supersede
  commit_world r world o = elim (Option-cases (lookup r.canonical_id o.facts)) [
    | inl absent ↦ rw (commit, absent) refl
    | inr (u, found) ↦
        rw (commit, found)
          (elim (Bool-cases (is_open u.latest)) [
            | inl opened ↦ rw opened refl
            | inr shut ↦ rw shut refl
          ])
  ]

  -- The other identities keep their versions.
  pub commit_ne :
      (r : Request) (world : ℕ) (o : Overlay) (id : String)
      → r.canonical_id ≢ id
      → lookup id (commit sha256 r world o).1.facts ≡ lookup id o.facts
  unfolding commit open_new supersede
  commit_ne r world o id ne = elim (Option-cases (lookup r.canonical_id o.facts)) [
    | inl absent ↦ rw (commit, absent) (lookup-insert_ne r.canonical_id id _ o.facts ne)
    | inr (u, found) ↦
        rw (commit, found)
          (elim (Bool-cases (is_open u.latest)) [
            | inl opened ↦ rw opened (lookup-insert_ne r.canonical_id id _ o.facts ne)
            | inr shut ↦ rw shut (lookup-insert_ne r.canonical_id id _ o.facts ne)
          ])
  ]
