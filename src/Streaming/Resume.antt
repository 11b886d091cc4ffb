-- ===== src/Streaming/Resume.antt =====
-- A build of src/simplicio_fast/streaming.py that stops between two blocks, and one that resumes it.
use mathlib.Core.Path.{subst}
use mathlib.Core.List.{append-nil}
use simplicio_fast.Prelude.{
  ℕ, ◌≤◌, String, ◌≡◌, refl, sym, ap, ◌∙◌, inl, inr, Bool, true, false, Option, none, some, List,
  [], ◌++◌, Result, ok, err, Result-cases, length, strings_equate,
}
use simplicio_fast.Prelude.Dict.{lookup, lookup-insert_self}
use simplicio_fast.Prelude.Int.{ℤ, pos}
use simplicio_fast.Prelude.Json.{Json, num, str, arr, obj, Fields, field, end}
use simplicio_fast.Prelude.Json.Equality.{json_get, json_beq_refl}
use simplicio_fast.Streaming.{
  Error, injected_stream_failure, JsonFile, holds, absent, Work, Store, Progress, progress,
  segment_name, schema, fresh_checkpoint, load_checkpoint, start, consume, is_equal, blocks,
  items_of, json_set,
}
use simplicio_fast.Streaming.Build.{build_work, build, check_request, opened, saved}
use simplicio_fast.Streaming.Blocks.{joined, Sized, blocks-Sized}
use simplicio_fast.Streaming.Entries.{
  entries, list_of-items_of, validate_existing-entries, Sized-prefix,
}
use simplicio_fast.Streaming.Loop.{Holding, consume_new, consume_known, consume_all, after_known}
use simplicio_fast.Streaming.Publish.{
  document_of, IsBuilt, IsStored, IsStored-saved, publish-IsBuilt, Holding-fresh, build-IsStored,
  size_pos,
}

-- the checkpoint of blocks that a fresh build has stored
abbrev pub stopped_fields : String → ℕ → List Json → ℕ → Fields
stopped_fields generation size bs n = field "schema" (str schema) (
    field "generation" (str generation) (
      field "block_bytes" (num (pos size))
        (field "input_bytes" (num (pos n)) (field "blocks" (arr (items_of bs)) end))))

module _ (sha256 : List ℕ → String) (parse_int : String → Option ℤ) where
  -- the directory of a build that stopped after the blocks `used`
  pub record IsStopped (generation : String) (size : ℕ) (used : List (List ℕ)) (w : Work)
      : Type 0 where
    pub noted :
        w.checkpoint
        ≡ holds (
            obj (
              stopped_fields generation size
                (entries sha256 parse_int 0 used)
                (length (joined used))))
    pub stored : lookup segment_name w.segments ≡ some (joined used)

  Holding-IsStopped :
      (generation : String) (size : ℕ) (used : List (List ℕ)) (p : Progress)
      → Holding sha256 parse_int (fresh_checkpoint generation size) used p
      → IsStopped generation size used p.work
  unfolding json_set
  Holding-IsStopped generation size used p h = record {
    noted = h.noted ∙ rw (h.kept, h.measured) refl;
    stored = h.written;
  }

  start_again :
      (generation : String) (size : ℕ) (used : List (List ℕ)) (w : Work)
      → 1 ≤ size
      → Sized size used
      → IsStopped generation size used w
      → start sha256 parse_int true generation size w ≡ (
        ok (
            stopped_fields generation size
              (entries sha256 parse_int 0 used)
              (length (joined used))),
        w,
      )
  unfolding start load_checkpoint is_equal json_get
  start_again generation size used w h s stop =
      rw
        (
          start,
          stop.noted,
          json_beq_refl (str schema) tt,
          json_beq_refl (str generation) tt,
          json_beq_refl (num (pos size)) tt,
          stop.stored,
          list_of-items_of (entries sha256 parse_int 0 used),
          validate_existing-entries sha256 parse_int size used h s,
        )
        refl

  -- the loop of a build that resumes, after the blocks that it finds
  Holding-again :
      (generation : String) (size : ℕ) (used : List (List ℕ)) (w : Work)
      → IsStopped generation size used w
      → let fs =
          stopped_fields generation size (entries sha256 parse_int 0 used) (length (joined used)) in
        Holding sha256 parse_int fs used (after_known sha256 parse_int fs used (progress fs w))
  unfolding json_get json_set
  Holding-again generation size used w stop = record {
    at_index = refl;
    kept = list_of-items_of (entries sha256 parse_int 0 used);
    fed = refl;
    measured = refl;
    written = stop.stored;
    noted = stop.noted ∙ rw (list_of-items_of (entries sha256 parse_int 0 used)) refl;
  }

  resume-IsBuilt :
      (chunks : List (List ℕ)) (generation : String) (size : ℕ) (used left : List (List ℕ))
      (w : Work) (current : JsonFile)
      → 1 ≤ size
      → blocks size chunks ≡ used ++ left
      → IsStopped generation size used w
      → let r = build_work sha256 parse_int chunks generation size true none w current in
        IsBuilt sha256 parse_int generation size (blocks size chunks) r.0 r.1 r.2
  unfolding build_work json_get
  resume-IsBuilt chunks generation size used left w current h parts stop =
      let fs =
        stopped_fields generation size (entries sha256 parse_int 0 used) (length (joined used)) in
      let sized = blocks-Sized size chunks h in
      let known = after_known sha256 parse_int fs used (progress fs w) in
      let again =
        start_again generation size used w h
          (Sized-prefix size used left h (subst (Sized size) parts sized)) stop in
      let skip : consume sha256 parse_int fs none (blocks size chunks) (progress fs w)
          ≡ consume sha256 parse_int fs none left known =
        ap (λ t. consume sha256 parse_int fs none t (progress fs w)) parts
        ∙ consume_known sha256 parse_int fs none [] used left (progress fs w)
            (list_of-items_of (entries sha256 parse_int 0 used)) in
      let (done, held) =
        consume_all sha256 parse_int fs used left known
          (Holding-again generation size used w stop) in
      rw (build_work, again, skip, done)
        (publish-IsBuilt sha256 parse_int fs generation size (blocks size chunks)
          (consume sha256 parse_int fs none left known).1 current h sized (rw parts held))

  -- a build that stopped leaves a directory that can be resumed
  stop-IsStopped :
      (chunks : List (List ℕ)) (generation : String) (size k : ℕ) (w : Work) (current : JsonFile)
      → 1 ≤ size
      → let r = build_work sha256 parse_int chunks generation size false (some k) w current in
        r.0 ≡ err injected_stream_failure
        → (used left : List (List ℕ)) × (blocks size chunks ≡ used ++ left)
          × IsStopped generation size used r.1
  unfolding build_work start
  stop-IsStopped chunks generation size k w current h failed =
      let fs = fresh_checkpoint generation size in
      let bs = blocks size chunks in
      let p = progress fs (start sha256 parse_int false generation size w).1 in
      let o =
        consume_new sha256 parse_int fs (some k) [] bs p
          (Holding-fresh sha256 parse_int generation size w) in
      let after = (consume sha256 parse_int fs (some k) bs p).1 in
      elim (Result-cases (consume sha256 parse_int fs (some k) bs p).0) [
        | inl (u, done) ↦
            let whole : o.used ≡ bs =
              sym (append-nil o.used)
              ∙ ap (λ t. o.used ++ t) (sym (o.finished done))
              ∙ sym o.parts in
            let b =
              publish-IsBuilt sha256 parse_int fs generation size bs after current h
                (blocks-Sized size chunks h)
                (subst (λ t. Holding sha256 parse_int fs t after) whole o.held) in
            cc (b.receipt, rw (build_work, done) at failed)
        | inr (e, stop) ↦ (
          o.used,
          o.left,
          o.parts,
          rw (build_work, stop) (Holding-IsStopped generation size o.used after o.held),
        )
      ]

-- what a reader sees of a generation: the manifest, the segment and the checkpoint
abbrev pub seen : Option Work → Option (JsonFile × Option (List ℕ) × JsonFile)
seen none = none
seen (some w) = some (w.manifest, lookup segment_name w.segments, w.checkpoint)

abbrev pub visible : String → Store → Option (JsonFile × Option (List ℕ) × JsonFile)
visible generation s = seen (lookup generation s.works)

module _ (sha256 : List ℕ → String) (parse_int : String → Option ℤ) where
  IsStored-visible :
      (generation : String) (size : ℕ) (bs : List (List ℕ)) (r : Result Error Json × Store)
      → IsStored sha256 parse_int generation size bs r
      → (visible generation r.1
          ≡ some (
            holds (document_of sha256 parse_int generation size bs end),
            some (joined bs),
            absent,
          ))
        × (r.1.current ≡ holds (document_of sha256 parse_int generation size bs end))
  IsStored-visible generation size bs r stored =
      let d = stored.built.directory in
      (rw (stored.placed, d.described, d.stored, d.settled) refl, stored.built.pointed)

  build_passed :
      (chunks : List (List ℕ)) (generation : String) (size : ℕ) (resume : Bool) (fail : Option ℕ)
      (s : Store)
      → check_request generation size ≡ ok tt
      → build sha256 parse_int chunks generation size resume fail s
        ≡ saved generation s (
            build_work sha256 parse_int chunks generation size resume fail
              (opened generation s)
              s.current)
  unfolding build
  build_passed chunks generation size resume fail s h = rw (build, h) refl

  resume-IsStored :
      (chunks : List (List ℕ)) (generation : String) (size k : ℕ) (s : Store)
      → check_request generation size ≡ ok tt
      → (build sha256 parse_int chunks generation size false (some k) s).0
        ≡ err injected_stream_failure
      → IsStored sha256 parse_int generation size (blocks size chunks) (
          build sha256 parse_int chunks generation size true none
            (build sha256 parse_int chunks generation size false (some k) s).1)
  resume-IsStored chunks generation size k s h failed =
      let w = opened generation s in
      let stopped = build_work sha256 parse_int chunks generation size false (some k) w s.current in
      let positive = size_pos sha256 parse_int generation size h in
      let (used, left, parts, stop) =
        stop-IsStopped sha256 parse_int chunks generation size k w s.current positive
          (sym (ap (λ r. r.0) (build_passed chunks generation size false (some k) s h)) ∙ failed) in
      let again =
        build_work sha256 parse_int chunks generation size true none stopped.1 stopped.2 in
      rw
        (
          build_passed chunks generation size false (some k) s h,
          build_passed chunks generation size true none (saved generation s stopped).1 h,
          lookup-insert_self generation stopped.1 s.works,
        )
        (IsStored-saved sha256 parse_int generation size (blocks size chunks)
          (saved generation s stopped).1 again
          (resume-IsBuilt sha256 parse_int chunks generation size used left stopped.1 stopped.2
            positive parts stop))

-- Where a build with arguments that pass its checks stops by the injected failure after some of its
-- blocks, on any store, a build of the same chunks that resumes it returns, and leaves the manifest,
-- the segment, the missing checkpoint and `current.json` as the build without a failure leaves them.
pub resume-build :
    (sha256 : List ℕ → String) (parse_int : String → Option ℤ) (chunks : List (List ℕ))
    (generation : String) (size k : ℕ) (s : Store)
    → check_request generation size ≡ ok tt
    → (build sha256 parse_int chunks generation size false (some k) s).0
      ≡ err injected_stream_failure
    → let stopped = (build sha256 parse_int chunks generation size false (some k) s).1 in
      let resumed = build sha256 parse_int chunks generation size true none stopped in
      let direct = (build sha256 parse_int chunks generation size false none s).1 in
      (receipt : Json) × (resumed.0 ≡ ok receipt)
      × (visible generation resumed.1 ≡ visible generation direct)
      × (resumed.1.current ≡ direct.current)
resume-build sha256 parse_int chunks generation size k s h failed =
    let bs = blocks size chunks in
    let resumed = resume-IsStored sha256 parse_int chunks generation size k s h failed in
    let direct = build-IsStored sha256 parse_int chunks generation size s h in
    let a = IsStored-visible sha256 parse_int generation size bs _ resumed in
    let b = IsStored-visible sha256 parse_int generation size bs _ direct in
    (_, resumed.built.receipt, a.0 ∙ sym b.0, a.1 ∙ sym b.1)
