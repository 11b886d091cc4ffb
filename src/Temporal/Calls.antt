-- ===== src/Temporal/Calls.antt =====
-- Sequences of calls of `BitemporalOverlay` in src/simplicio_fast/temporal.py, as its users make
-- them: the private argument `_allow_same_world` keeps its default.
use simplicio_fast.Prelude.{ℕ, String, ◌≡◌, ◌≢◌, false, Option, List, [], ◌∷◌}
use simplicio_fast.Temporal.{Request, Overlay, append, tombstone, rename}
use simplicio_fast.Temporal.Invalidation.{invalidate_dependencies}

pub data Call : Type 0 where
  appends : Request → Call
  tombstones : (id commit source reason : String) → (successor : Option String) → Option ℕ → Call
  invalidates : (ids : List String) → (commit source reason : String) → Option ℕ → Call
  renames : (old new commit source artifact : String) → Call

-- `append` is called without `_allow_same_world`, and a new identity differs from the old one.
abbrev pub Proper : Call → Type 0
Proper (appends r) = r.allow_same_world ≡ false
Proper (renames old new commit source artifact) = old ≢ new
Proper _ = Unit

module _ (sha256 : List ℕ → String) where
  unfoldable pub step : Call → Overlay → Overlay
  unfolding append tombstone rename invalidate_dependencies
  step (appends r) o = (append sha256 r o).1
  step (tombstones id commit source reason successor from) o =
      (tombstone sha256 id commit source reason successor from false o).1
  step (invalidates ids commit source reason from) o =
      (invalidate_dependencies sha256 ids commit source reason from o).1
  step (renames old new commit source artifact) o =
      (rename sha256 old new commit source artifact o).1

  unfoldable pub run : List Call → Overlay → Overlay
  unfolding step
  run [] o = o
  run (c ∷ cs) o = run cs (step c o)
