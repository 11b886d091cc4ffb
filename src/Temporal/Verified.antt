-- ===== src/Temporal/Verified.antt =====
-- `verify` of `BitemporalOverlay` in src/simplicio_fast/temporal.py against the invariant that its
-- calls keep, and what it finds where a fact was tampered with.
use simplicio_fast.Prelude.{
  ℕ, String, ◌≡◌, refl, true, false, Option, none, some, List, [], ◌∷◌, ok, arith, beq_of,
  strings_equate, options_equate, All,
}
use simplicio_fast.Prelude.Dict.{Dict}
use simplicio_fast.Prelude.Sorting.{sort_by}
use simplicio_fast.Temporal.{Fact, Versions, versions, Overlay, init}
use simplicio_fast.Temporal.Query.{
  check_link, check_fact, check_versions, check_facts, verify, differs, ends_early,
}
use simplicio_fast.Temporal.Inv.{Ordered, Sound, Linked, Chain, Entries, Inv}
use simplicio_fast.Temporal.Calls.{Call, Proper, run}
use simplicio_fast.Temporal.Reach.{run-Inv, init-Inv}

ends : (to : Option ℕ) (from : ℕ) → Ordered to from → ends_early to from ≡ false
ends none from h = refl
ends (some t) from h = ground arith

meets : (to : Option ℕ) (from : ℕ) → to ≡ some from → differs to from ≡ false
meets none from h = cc
meets (some t) from h = ground arith

module _ (sha256 : List ℕ → String) where
  check_link_lem : (p : Option Fact) (f : Fact) → Linked sha256 p f → check_link sha256 p f ≡ []
  unfolding check_link
  check_link_lem none f h = refl
  check_link_lem (some p) f h =
      rw (meets p.valid_to f.valid_from h.0, beq_of ⦃e = options_equate⦄ h.1) refl

  check_fact_lem :
      (id repository : String) (p : Option Fact) (f : Fact)
      → Sound id repository f
      → Linked sha256 p f
      → check_fact sha256 id repository p f ≡ []
  unfolding check_fact
  check_fact_lem id repository p f s h =
      rw (beq_of s.0, beq_of s.1, ends f.valid_to f.valid_from s.2, check_link_lem p f h) refl

  check_versions_lem :
      (id repository : String) (p : Option Fact) (fs : List Fact)
      → All (Sound id repository) fs
      → Chain sha256 p fs
      → check_versions sha256 id repository p fs ≡ []
  unfolding check_versions
  check_versions_lem id repository p [] s h = refl
  check_versions_lem id repository p (f ∷ fs) s h =
      rw
        (
          check_fact_lem id repository p f s.0 h.0,
          check_versions_lem id repository (some f) fs s.1 h.1,
        )
        refl

  check_facts_lem :
      (repository : String) (clock : ℕ) (d : Dict String Versions)
      → Entries sha256 repository clock d
      → check_facts sha256 repository d ≡ []
  unfolding check_facts
  check_facts_lem repository clock [] h = refl
  check_facts_lem repository clock ((id, v) ∷ d) h =
      rw
        (
          check_versions_lem id repository none (versions v) h.0.0 h.0.1,
          check_facts_lem repository clock d h.1,
        )
        refl

  pub Inv-verify :
      (o : Overlay)
      → Inv sha256 o
      → ((verify sha256 o).valid ≡ true) × ((verify sha256 o).invalid_digests ≡ [])
  unfolding verify sort_by
  Inv-verify o v = rw (check_facts_lem o.repository o.world_sequence o.facts v.entries) (refl, refl)

  -- From a fresh overlay, after any sequence of `append`, `tombstone`, `invalidate_dependencies` and
  -- `rename` calls, those that raise included, in which no rename is to the same identity, `verify`
  -- reports "valid" and names no digest.
  pub run-verify :
      (repository base : String) (overlay : Option String) {o : Overlay} (cs : List Call)
      → init repository base overlay ≡ ok o
      → All Proper cs
      → ((verify sha256 (run sha256 cs o)).valid ≡ true)
        × ((verify sha256 (run sha256 cs o)).invalid_digests ≡ [])
  run-verify repository base overlay {o} cs h proper =
      Inv-verify (run sha256 cs o)
        (run-Inv sha256 cs o proper (init-Inv sha256 repository base overlay h))
