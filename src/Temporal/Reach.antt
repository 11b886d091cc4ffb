-- ===== src/Temporal/Reach.antt =====
-- Every sequence of calls of `BitemporalOverlay` in src/simplicio_fast/temporal.py leaves an overlay
-- whose chains are intact.
use mathlib.Core.Path.{subst}
use simplicio_fast.Prelude.{
  ℕ, suc, ◌≤◌, ◌<◌, String, ◌≡◌, refl, sym, inl, inr, Bool, true, false, Option, none, some, List,
  [], ◌∷◌, Result, ok, err, arith, ◌==◌, strings_equate, Bool-cases, Option-cases, ◌≢◌, ◌||◌, All,
}
use simplicio_fast.Prelude.Dict.{lookup}
use simplicio_fast.Temporal.{
  Fact, Request, digest, Overlay, init, commit, append, active_fact, burial, tombstone,
  bury_renamed, replacing, finish_rename, rename, world_of, is_out_of_order, Error,
}
use simplicio_fast.Temporal.Invalidation.{holding, carry_on, hold_all, invalidate_dependencies}
use simplicio_fast.Temporal.Inv.{Inv, lookup-Entries}
use simplicio_fast.Temporal.Preserve.{
  StartsBefore, append-cases, append-Inv, commit-Inv, commit_world, commit_ne,
}
use simplicio_fast.Temporal.Calls.{
  Call, appends, tombstones, invalidates, renames, Proper, step, run,
}

pub moves_on :
    (world clock : ℕ) (allow : Bool)
    → allow ≡ false
    → clock ≤ world
    → is_out_of_order allow world clock ≡ false
    → clock < world
unfolding is_out_of_order
moves_on world clock allow h le now = ground arith

module _ (sha256 : List ℕ → String) where
  -- No version starts after the clock, so a world past the clock is past the version's start.
  pub StartsBefore_lem :
      (id : String) (world : ℕ) (o : Overlay)
      → Inv sha256 o
      → o.world_sequence < world
      → StartsBefore sha256 world (lookup id o.facts)
  StartsBefore_lem id world o v lt = elim (Option-cases (lookup id o.facts)) [
    | inl absent ↦ rw absent tt
    | inr (u, found) ↦
        let entry =
          lookup-Entries sha256 o.repository o.world_sequence id u o.facts v.entries found in
        rw found (omega (arith, entry.3, lt))
  ]

  append_in_order :
      (r : Request) (o : Overlay)
      → r.allow_same_world ≡ false
      → Inv sha256 o
      → Inv sha256 (append sha256 r o).1
  append_in_order r o plain v = append-Inv sha256 r o v (λ le now.
      StartsBefore_lem r.canonical_id (world_of r.valid_from o.world_sequence) o v (
        moves_on (world_of r.valid_from o.world_sequence) o.world_sequence r.allow_same_world plain
          le now))

  tombstone-Inv :
      (id revision source reason : String) (successor : Option String) (from : Option ℕ)
      (allow : Bool)
      → (o : Overlay) → Inv sha256 o
      → (o.world_sequence ≤ world_of from o.world_sequence
          → is_out_of_order allow (world_of from o.world_sequence) o.world_sequence ≡ false
          → StartsBefore sha256 (world_of from o.world_sequence) (lookup id o.facts))
      → Inv sha256 (tombstone sha256 id revision source reason successor from allow o).1
  unfolding tombstone
  tombstone-Inv id revision source reason successor from allow o v before =
      elim (Option-cases (active_fact sha256 id o)) [
        | inl gone ↦ rw (tombstone, gone) v
        | inr (f, found) ↦
            rw (tombstone, found)
              (append-Inv sha256 (burial sha256 id revision source reason successor from allow f) o
                v before)
      ]

  pub bury_renamed_state :
      (old revision source : String) (f : Fact) (o : Overlay)
      → (bury_renamed sha256 old revision source f o).1
        ≡ (tombstone sha256 old revision source "renamed"
            (some (digest sha256 f))
            (some o.world_sequence)
            true
            o).1
  unfolding bury_renamed
  bury_renamed_state old revision source f o = go _
    where
      go :
          (r : Result Error Fact) {o' : Overlay}
          → (elim r as (λ _. Result Error Fact × Overlay) [
            | err e ↦ (err e, o')
            | ok _ ↦ (ok f, o')
          ]).1
            ≡ o'
      go (err e) = refl
      go (ok g) = refl

  -- The identity buried at the end of `rename` kept its versions, which start before the clock.
  renamed-Inv :
      (r : Request) (old revision source : String) (o : Overlay) (world : ℕ)
      → r.canonical_id ≢ old
      → Inv sha256 o
      → o.world_sequence < world
      → (f : Fact)
      → Inv sha256 (bury_renamed sha256 old revision source f (commit sha256 r world o).1).1
  unfolding world_of
  renamed-Inv r old revision source o world ne v lt f =
      let o' = (commit sha256 r world o).1 in
      let at_world : o'.world_sequence ≡ world = commit_world sha256 r world o in
      let v' =
        commit-Inv sha256 r world o v (omega (arith, lt))
          (StartsBefore_lem r.canonical_id world o v lt) in
      let before : StartsBefore sha256 o'.world_sequence (lookup old o'.facts) =
        rw (at_world, commit_ne sha256 r world o old ne) (StartsBefore_lem old world o v lt) in
      rw (bury_renamed_state old revision source f o') (
        tombstone-Inv old revision source "renamed" (some (digest sha256 f))
          (some o'.world_sequence) true o' v' (λ le now. before))

  rename-Inv :
      (old new revision source artifact : String) (o : Overlay)
      → new ≢ old
      → Inv sha256 o
      → Inv sha256 (rename sha256 old new revision source artifact o).1
  unfolding rename finish_rename world_of
  rename-Inv old new revision source artifact o ne v =
      elim (Option-cases (active_fact sha256 old o)) [
        | inl gone ↦ rw (rename, gone) v
        | inr (f, found) ↦
            let r = replacing sha256 new revision source artifact f in
            elim (append-cases sha256 r o) [
              | inl (e, raised) ↦ rw (rename, found, raised) v
              | inr (le, now, done) ↦
                  rw (rename, found, done)
                    (renamed-Inv r old revision source o (suc o.world_sequence) ne v (omega arith)
                      (commit sha256 r (suc o.world_sequence) o).0)
            ]
      ]

  pub carry_on_state :
      (id : String) (f : Fact) (o : Overlay) (rest : Result Error (List String) × Overlay)
      → (carry_on sha256 id (ok f, o) rest).1 ≡ rest.1
  unfolding carry_on
  carry_on_state id f o (err e, o') = refl
  carry_on_state id f o (ok ids, o') = refl

  hold_all-Inv :
      (revision source reason : String) (from : Option ℕ) (fs : List Fact) (o : Overlay)
      → Inv sha256 o
      → Inv sha256 (hold_all sha256 revision source reason from fs o).1
  unfolding hold_all carry_on
  hold_all-Inv revision source reason from [] o v = v
  hold_all-Inv revision source reason from (f ∷ fs) o v =
      let r = holding revision source reason from f in
      elim (append-cases sha256 r o) [
        | inl (e, raised) ↦ rw (hold_all, raised) v
        | inr (le, now, done) ↦
            let o' = (commit sha256 r (world_of from o.world_sequence) o).1 in
            let v' : Inv sha256 o' =
              subst (λ x. Inv sha256 x.1) done (append_in_order r o refl v) in
            rw
              (
                hold_all,
                done,
                carry_on_state f.canonical_id _ o'
                    (hold_all sha256 revision source reason none fs o'),
              )
              (hold_all-Inv revision source reason none fs o' v')
      ]

  pub step-Inv : (c : Call) (o : Overlay) → Proper c → Inv sha256 o → Inv sha256 (step sha256 c o)
  unfolding step invalidate_dependencies
  step-Inv (appends r) o proper v = append_in_order r o proper v
  step-Inv (tombstones id revision source reason successor from) o proper v =
      tombstone-Inv id revision source reason successor from false o v (λ le now.
        StartsBefore_lem id (world_of from o.world_sequence) o v
          (moves_on (world_of from o.world_sequence) o.world_sequence false refl le now))
  step-Inv (invalidates ids revision source reason from) o proper v =
      hold_all-Inv revision source reason from _ o v
  step-Inv (renames old new revision source artifact) o proper v =
      rename-Inv old new revision source artifact o (λ e. proper (sym e)) v

  pub run-Inv :
      (cs : List Call) (o : Overlay) → All Proper cs → Inv sha256 o → Inv sha256 (run sha256 cs o)
  unfolding run
  run-Inv [] o proper v = v
  run-Inv (c ∷ cs) o proper v = run-Inv cs (step sha256 c o) proper.1 (step-Inv c o proper.0 v)

  pub init-Inv :
      (repository base : String) (overlay : Option String) {o : Overlay}
      → init repository base overlay ≡ ok o
      → Inv sha256 o
  unfolding init
  init-Inv repository base overlay h = elim (Bool-cases (repository == "" || base == "")) [
    | inl missing ↦ absurd (ground (arith, missing))
    | inr given ↦
        subst (λ r. elim r as (λ _. Type 0) [ ok o ↦ Inv sha256 o | err e ↦ Unit ]) h
          (rw given record { distinct = tt; entries = tt })
  ]
