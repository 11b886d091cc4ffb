-- ===== src/Streaming/Publish.antt =====
-- A build of src/simplicio_fast/streaming.py that runs to its end: the manifest, the segment and the result.
use simplicio_fast.Prelude.{
  ℕ, ◌≤◌, String, ◌≡◌, refl, false, Option, none, some, List, [], arith, Result, ok, length,
  strings_equate,
}
use simplicio_fast.Prelude.Dict.{lookup, lookup-insert_self}
use simplicio_fast.Prelude.Int.{ℤ, pos}
use simplicio_fast.Prelude.Json.{Json, num, obj, Fields, end}
use simplicio_fast.Prelude.Json.Equality.{json_get, json_beq_refl}
use simplicio_fast.Streaming.{
  Error, JsonFile, absent, holds, Work, Store, Progress, progress, segment_name, fresh_checkpoint,
  manifest_fields, published_fields, consume, start, check_end, publish, is_equal, blocks, json_set,
}
use simplicio_fast.Streaming.Build.{build_work, build, check_request, opened, saved}
use simplicio_fast.Streaming.Blocks.{joined, Sized, blocks-Sized}
use simplicio_fast.Streaming.Entries.{
  entries, sum_lengths-entries, block_count-Sized, length-entries,
}
use simplicio_fast.Streaming.Loop.{Holding, consume_all}

module _ (sha256 : List ℕ → String) (parse_int : String → Option ℤ) where
  -- what the manifest of the blocks `bs` says, before the fields `rest`
  abbrev pub document_of : String → ℕ → List (List ℕ) → Fields → Json
  document_of generation size bs rest = obj (
      manifest_fields generation size (length (joined bs)) (sha256 (joined bs))
        (entries sha256 parse_int 0 bs) rest)

  -- the directory of a generation whose blocks are `bs`
  pub record IsPublished (generation : String) (size : ℕ) (bs : List (List ℕ)) (w : Work)
      : Type 0 where
    pub described : w.manifest ≡ holds (document_of generation size bs end)
    pub stored : lookup segment_name w.segments ≡ some (joined bs)
    pub settled : w.checkpoint ≡ absent

  -- the outcome of `build` in the directory
  pub record IsBuilt (generation : String) (size : ℕ) (bs : List (List ℕ)) (r : Result Error Json)
      (w : Work) (current : JsonFile) : Type 0 where
    pub appended : ℕ
    pub receipt : r ≡ ok (document_of generation size bs (published_fields appended))
    pub directory : IsPublished generation size bs w
    pub pointed : current ≡ holds (document_of generation size bs end)

  check_end-Holding :
      (fs : Fields) (size : ℕ) (bs : List (List ℕ)) (p : Progress)
      → 1 ≤ size
      → Sized size bs
      → Holding sha256 parse_int fs bs p
      → check_end sha256 parse_int size p ≡ ok tt
  unfolding check_end is_equal
  check_end-Holding fs size bs p h s held =
      rw
        (
          held.measured,
          block_count-Sized size bs h s,
          held.kept,
          length-entries sha256 parse_int 0 bs,
          sum_lengths-entries sha256 parse_int 0 bs,
          json_beq_refl (num (pos (length (joined bs)))) tt,
        )
        (ground arith)

  pub publish-IsBuilt :
      (fs : Fields) (generation : String) (size : ℕ) (bs : List (List ℕ)) (p : Progress)
      (current : JsonFile)
      → 1 ≤ size
      → Sized size bs
      → Holding sha256 parse_int fs bs p
      → let r = publish sha256 parse_int generation size p current in
        IsBuilt generation size bs r.0 r.1 r.2
  unfolding publish
  publish-IsBuilt fs generation size bs p current h s held =
      rw (publish, check_end-Holding fs size bs p h s held, held.measured, held.fed, held.kept)
        (record {
          appended = p.appended;
          receipt = refl;
          directory = record { described = refl; stored = held.written; settled = refl };
          pointed = refl;
        })

  -- the loop has read nothing of a fresh source
  pub Holding-fresh :
      (generation : String) (size : ℕ) (w : Work)
      → Holding sha256 parse_int (fresh_checkpoint generation size) [] (
          progress
            (fresh_checkpoint generation size)
            (start sha256 parse_int false generation size w).1)
  unfolding start json_set json_get
  Holding-fresh generation size w = record {
    at_index = refl;
    kept = refl;
    fed = refl;
    measured = refl;
    written = lookup-insert_self segment_name [] w.segments;
    noted = refl;
  }

  -- a store with the outcome of a build
  pub record IsStored (generation : String) (size : ℕ) (bs : List (List ℕ))
      (r : Result Error Json × Store) : Type 0 where
    pub work : Work
    pub placed : lookup generation r.1.works ≡ some work
    pub built : IsBuilt generation size bs r.0 work r.1.current

  pub IsStored-saved :
      (generation : String) (size : ℕ) (bs : List (List ℕ)) (s : Store)
      (r : Result Error Json × Work × JsonFile)
      → IsBuilt generation size bs r.0 r.1 r.2
      → IsStored generation size bs (saved generation s r)
  IsStored-saved generation size bs s r b = record {
    work = r.1;
    placed = lookup-insert_self generation r.1 s.works;
    built = b;
  }

  build_work-IsBuilt :
      (chunks : List (List ℕ)) (generation : String) (size : ℕ) (w : Work) (current : JsonFile)
      → 1 ≤ size
      → let r = build_work sha256 parse_int chunks generation size false none w current in
        IsBuilt generation size (blocks size chunks) r.0 r.1 r.2
  unfolding build_work start
  build_work-IsBuilt chunks generation size w current h =
      let fs = fresh_checkpoint generation size in
      let bs = blocks size chunks in
      let p = progress fs (start sha256 parse_int false generation size w).1 in
      let (done, held) =
        consume_all sha256 parse_int fs [] bs p (Holding-fresh generation size w) in
      let after = (consume sha256 parse_int fs none bs p).1 in
      rw (build_work, done)
        (publish-IsBuilt fs generation size bs after current h (blocks-Sized size chunks h) held)

  pub size_pos : (generation : String) (size : ℕ) → check_request generation size ≡ ok tt → 1 ≤ size
  unfolding check_request
  size_pos generation size h = ground arith

  -- a build with arguments that pass the checks publishes its source
  pub build-IsStored :
      (chunks : List (List ℕ)) (generation : String) (size : ℕ) (s : Store)
      → check_request generation size ≡ ok tt
      → IsStored generation size
          (blocks size chunks)
          (build sha256 parse_int chunks generation size false none s)
  unfolding build
  build-IsStored chunks generation size s h =
      rw (build, h)
        (IsStored-saved generation size (blocks size chunks) s
          (build_work sha256 parse_int chunks generation size false none (opened generation s)
            s.current)
          (build_work-IsBuilt chunks generation size (opened generation s) s.current
            (size_pos generation size h)))
