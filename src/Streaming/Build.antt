-- ===== src/Streaming/Build.antt =====
-- src/simplicio_fast/streaming.py: `build` and `build_file` of `StreamingBlockStore`.
use simplicio_fast.Prelude.{
  ℕ, String, Bool, not, ◌&&◌, ◌||◌, Option, none, some, List, [], ◌∷◌, Result, ok, err, ◌>>◌,
  raise_if, leb, ◌==◌, strings_equate,
}
use simplicio_fast.Prelude.Dict.{lookup, insert}
use simplicio_fast.Prelude.Int.{ℤ}
use simplicio_fast.Prelude.Json.{Json, Fields}
use simplicio_fast.Streaming.{
  Error, invalid_generation, invalid_block_size, source_unavailable, JsonFile, Work, Store,
  new_work, is_simple, max_block_bytes, blocks, start, progress, Progress, consume, publish,
}

-- the checks of `build` on its arguments
unfoldable pub check_request : String → ℕ → Result Error Unit
check_request generation size = do
  raise_if (generation == "" || not (is_simple generation)) invalid_generation
  raise_if (not (leb 1 size && leb size max_block_bytes)) invalid_block_size

-- `work.mkdir(parents=True, exist_ok=True)`
abbrev pub made : Option Work → Work
made none = new_work
made (some w) = w

abbrev pub opened : String → Store → Work
opened generation s = made (lookup generation s.works)

abbrev pub saved : String → Store → Result Error Json × Work × JsonFile → Result Error Json × Store
saved generation s (r, w, c) = (r, record { works = insert generation w s.works; current = c })

module _ (sha256 : List ℕ → String) (parse_int : String → Option ℤ) where
  abbrev finish :
      String → ℕ → JsonFile → Result Error Unit × Progress → Result Error Json × Work × JsonFile
  finish generation size current (err e, p) = (err e, p.work, current)
  finish generation size current (ok _, p) = publish sha256 parse_int generation size p current

  -- `build` after what it does before it reads the source
  abbrev run_from :
      List (List ℕ)
      → String
      → ℕ
      → Option ℕ
      → JsonFile
      → Result Error Fields × Work
      → Result Error Json × Work × JsonFile
  run_from chunks generation size fail current (err e, w) = (err e, w, current)
  run_from chunks generation size fail current (ok fs, w) =
      finish generation size current
        (consume sha256 parse_int fs fail (blocks size chunks) (progress fs w))

  -- `build` in the directory of its generation, beside `current.json`
  unfoldable pub build_work :
      List (List ℕ)
      → String
      → ℕ
      → Bool
      → Option ℕ
      → Work
      → JsonFile
      → Result Error Json × Work × JsonFile
  build_work chunks generation size resume fail work current =
      run_from chunks generation size fail current
        (start sha256 parse_int resume generation size work)

  unfoldable pub build :
      List (List ℕ) → String → ℕ → Bool → Option ℕ → Store → Result Error Json × Store
  build chunks generation size resume fail s = elim (check_request generation size) [
    | err e ↦ (err e, s)
    | ok _ ↦
        saved generation s
          (build_work chunks generation size resume fail (opened generation s) s.current)
  ]

  -- the file's content, if it can be opened, is read in pieces of `block_bytes`
  unfoldable pub build_file :
      Option (List ℕ) → String → ℕ → Bool → Store → Result Error Json × Store
  build_file none generation size resume s = (err source_unavailable, s)
  build_file (some content) generation size resume s =
      build (blocks size (content ∷ [])) generation size resume none s
