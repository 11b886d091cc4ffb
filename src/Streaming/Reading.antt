-- ===== src/Streaming/Reading.antt =====
-- What `read_range` and `read_all` of src/simplicio_fast/streaming.py give of a published generation.
use mathlib.Core.List.{append_assoc}
use simplicio_fast.Prelude.{
  ℕ, suc, ◌+◌, ◌-◌, ◌≤◌, ◌<◌, String, ◌≡◌, refl, sym, ap, ◌∙◌, inl, inr, true, false, Bool,
  Bool-cases, Option, none, some, List, [], ◌∷◌, ◌++◌, arith, Result, ok, ◌>>=◌, ltb, lt→ltb, leb,
  leb→le, nat_beq, nat_beq_iff, if◌then◌else◌, length, length-append, take, strings_equate,
}
use simplicio_fast.Prelude.Int.{ℤ, pos}
use simplicio_fast.Prelude.Json.{Json, num, str, end}
use simplicio_fast.Prelude.Json.Equality.{json_get, json_beq_refl}
use simplicio_fast.Streaming.{
  Error, invalid_manifest, Work, Store, max_range_bytes, entry, item_at, get_key, is_equal,
  is_simple, blocks, manifest_fields, schema,
}
use simplicio_fast.Streaming.Build.{build, check_request}
use simplicio_fast.Streaming.Ranges.{
  block_length, read_block, read_from, read_work, read_range, read_all, load_manifest, plan_of,
  checked, segment_at,
}
use simplicio_fast.Streaming.Slices.{
  slice, take_past, slice_split, slice_past, slice_reached, length-slice, slice_nil, slice_empty,
}
use simplicio_fast.Streaming.Blocks.{joined, Sized, blocks-joined, blocks-Sized}
use simplicio_fast.Streaming.Entries.{
  entries, take_block_at, bounded_block, Sized-head, Sized-tail, list_of-items_of,
}
use simplicio_fast.Streaming.Publish.{IsPublished, IsStored, build-IsStored, size_pos}

module _ (sha256 : List ℕ → String) (parse_int : String → Option ℤ) where
  take_right :
      (cursor to : ℕ) (b : List ℕ)
      → take (if ltb to (cursor + length b) then to - cursor else length b) b ≡ take (to - cursor) b
  take_right cursor to b = elim (Bool-cases (ltb to (cursor + length b))) [
    | inl h ↦ rw h refl
    | inr h ↦
        rw h (take_past (length b) b (omega arith) ∙ sym (take_past (to - cursor) b (ground arith)))
  ]

  read_block-entry :
      (from to i : ℕ) (pre b rest : List ℕ)
      → length pre < to
      → read_block sha256 parse_int from to
          (pre ++ b ++ rest)
          (length pre)
          (length b)
          (entry sha256 parse_int i b)
        ≡ ok (slice (from - length pre) (to - length pre) b)
  unfolding read_block get_key is_equal json_get
  read_block-entry from to i pre b rest h = elim (Bool-cases (ltb from (length pre + length b))) [
    | inl near ↦
        rw
          (
            lt→ltb (length pre) to h,
            near,
            take_block_at pre b rest,
            take_right (length pre) to b,
            json_beq_refl (str (sha256 b)) tt,
            (nat_beq_iff (length b) (length b)).1 refl,
          )
          refl
    | inr far ↦
        rw
          (
            lt→ltb (length pre) to h,
            far,
            slice_past (from - length pre) (to - length pre) b (ground arith),
          )
          refl
  ]

  block_length-entry :
      (i : ℕ) (b : List ℕ)
      → block_length sha256 parse_int (entry sha256 parse_int i b) ≡ ok (pos (length b))
  unfolding block_length json_get
  block_length-entry i b = refl

  abbrev next_turn : ℕ → ℕ → ℕ → List ℕ → List ℕ → List Json → Bool → Result Error (ℕ × List ℕ)
  next_turn total from to content pre es true = ok (length pre, slice from to pre)
  next_turn total from to content pre es false =
      read_from sha256 parse_int total from to content (length pre) (slice from to pre) es

  read_from_step :
      (total from to i : ℕ) (pre b rest : List ℕ) (es : List Json)
      → 1 ≤ length b
      → length pre + length b ≤ total
      → length pre < to
      → read_from sha256 parse_int total from to
          (pre ++ b ++ rest)
          (length pre)
          (slice from to pre)
          (entry sha256 parse_int i b ∷ es)
        ≡ next_turn total from to (pre ++ b ++ rest) (pre ++ b) es (leb to (length (pre ++ b)))
  unfolding read_from
  read_from_step total from to i pre b rest es h fits lt =
      rw
        (
          block_length-entry i b,
          bounded_block invalid_manifest (length b) (length pre) total h fits,
          read_block-entry from to i pre b rest lt,
          ← length-append pre b,
        )
        (elim (Bool-cases (leb to (length (pre ++ b)))) [
          | inl e ↦
              rw (e, ← length-append pre b)
                (ap (λ t. ok (length (pre ++ b), t)) (sym (slice_split from to pre b)))
          | inr e ↦
              rw (e, ← length-append pre b)
                (ap
                  (λ t.
                    read_from sha256 parse_int total from to (pre ++ b ++ rest) (length (pre ++ b))
                      t es)
                  (sym (slice_split from to pre b)))
        ])

  -- the loop of `read_range` over the blocks after `pre`
  read_from-entries :
      (size total from to i : ℕ) (pre : List ℕ) (bs : List (List ℕ))
      → 1 ≤ size
      → Sized size bs
      → length pre < to
      → to ≤ total
      → total ≡ length (pre ++ joined bs)
      → (k : ℕ) × (read_from sha256 parse_int total from to
            (pre ++ joined bs)
            (length pre)
            (slice from to pre)
            (entries sha256 parse_int i bs)
          ≡ ok (k, slice from to (pre ++ joined bs)))
        × (to ≤ k)
  read_from-entries size total from to i pre [] h s lt le e =
      absurd (omega (arith, length-append {0} pre []))
  read_from-entries size total from to i pre (b ∷ bs) h s lt le e =
      let whole = append_assoc pre b (joined bs) in
      let fits : length pre + length b ≤ total =
        omega
          (arith, e, ap length whole, length-append pre b, length-append (pre ++ b) (joined bs)) in
      rw
        (
          ← whole,
          read_from_step total from to i pre b (joined bs) (entries sha256 parse_int (suc i) bs)
              (Sized-head size b bs h s) fits lt,
        )
        (elim (Bool-cases (leb to (length (pre ++ b)))) [
          | inl done ↦
              rw (done, slice_reached from to (pre ++ b) (joined bs) (leb→le _ _ done))
                (length (pre ++ b), refl, leb→le _ _ done)
          | inr more ↦ rw more (
              read_from-entries size total from to (suc i) (pre ++ b) bs h (Sized-tail size b bs s)
                (ground arith) le (e ∙ ap length (sym whole)))
        ])

  -- `read_range` of a published directory
  read_work-IsPublished :
      (generation : String) (size from n : ℕ) (bs : List (List ℕ)) (w : Work)
      → 1 ≤ size
      → Sized size bs
      → from + n ≤ length (joined bs)
      → IsPublished sha256 parse_int generation size bs w
      → read_work sha256 parse_int from n (some w) (
          manifest_fields generation size
            (length (joined bs))
            (sha256 (joined bs))
            (entries sha256 parse_int 0 bs)
            end)
        ≡ ok (slice from (from + n) (joined bs))
  unfolding read_work plan_of json_get is_simple
  read_work-IsPublished generation size from n bs w h s fits pub' =
      let total = length (joined bs) in
      let inside : ltb total (from + n) ≡ false = ground arith in
      elim (Bool-cases (nat_beq n 0)) [
        | inl none' ↦
            rw (inside, none')
              (ap ok (sym (slice_empty from (from + n) (joined bs) (ground arith) fits)))
        | inr some' ↦
            let (k, got, reached) =
              read_from-entries size total from (from + n) 0 [] bs h s (ground arith) fits refl in
            let reach : ltb k (from + n) ≡ false = ground arith in
            let exact : nat_beq (length (slice from (from + n) (joined bs))) n ≡ true =
              (nat_beq_iff _ _).1
                (omega (arith, length-slice from (from + n) (joined bs) (omega arith) fits)) in
            rw (inside, some', pub'.stored, list_of-items_of (entries sha256 parse_int 0 bs))
              (ap
                  (λ t.
                    read_from sha256 parse_int total from (from + n) (joined bs) 0 t
                      (entries sha256 parse_int 0 bs)
                    >>= checked sha256 parse_int (from + n) n)
                  (sym (slice_nil from (from + n)))
                ∙ rw (got, reach, exact) refl)
      ]

  load_manifest-IsPublished :
      (generation : String) (size : ℕ) (bs : List (List ℕ)) (w : Work)
      → IsPublished sha256 parse_int generation size bs w
      → load_manifest (some w)
        ≡ ok (
            manifest_fields generation size
              (length (joined bs))
              (sha256 (joined bs))
              (entries sha256 parse_int 0 bs)
              end)
  unfolding load_manifest is_equal json_get
  load_manifest-IsPublished generation size bs w p =
      rw (load_manifest, p.described, json_beq_refl (str schema) tt) refl

  -- a generation that `build` has published
  pub read_range-IsStored :
      (generation : String) (size from n : ℕ) (bs : List (List ℕ)) (r : Result Error Json × Store)
      → 1 ≤ size
      → Sized size bs
      → from + n ≤ length (joined bs)
      → n ≤ max_range_bytes
      → IsStored sha256 parse_int generation size bs r
      → read_range sha256 parse_int generation (pos from) (pos n) r.1
        ≡ ok (slice from (from + n) (joined bs))
  unfolding read_range
  read_range-IsStored generation size from n bs r h s fits small stored =
      let allowed : ltb max_range_bytes n ≡ false = ground arith in
      rw
        (
          read_range,
          allowed,
          stored.placed,
          load_manifest-IsPublished generation size bs stored.work stored.built.directory,
        )
        (read_work-IsPublished generation size from n bs stored.work h s fits
          stored.built.directory)

  pub read_all-IsStored :
      (generation : String) (size : ℕ) (bs : List (List ℕ)) (r : Result Error Json × Store)
      → IsStored sha256 parse_int generation size bs r
      → read_all sha256 parse_int generation r.1 ≡ ok (joined bs)
  unfolding read_all item_at json_get
  read_all-IsStored generation size bs r stored =
      let p = stored.built.directory in
      rw
        (
          read_all,
          stored.placed,
          p.described,
          p.stored,
          segment_at,
          json_beq_refl (num (pos (length (joined bs)))) tt,
          json_beq_refl (str (sha256 (joined bs))) tt,
        )
        refl

-- After a build with arguments that pass its checks and no resume, on any store, `read_range` gives
-- each range of the source's bytes of at most 64 MiB that lies within them, and `read_all` all of
-- them, whatever the chunks and the block size were.
pub build-read :
    (sha256 : List ℕ → String) (parse_int : String → Option ℤ) (chunks : List (List ℕ))
    (generation : String) (size from n : ℕ) (s : Store)
    → check_request generation size ≡ ok tt
    → from + n ≤ length (joined chunks)
    → n ≤ max_range_bytes
    → let after = (build sha256 parse_int chunks generation size false none s).1 in
      (read_range sha256 parse_int generation (pos from) (pos n) after
        ≡ ok (slice from (from + n) (joined chunks)))
      × (read_all sha256 parse_int generation after ≡ ok (joined chunks))
build-read sha256 parse_int chunks generation size from n s h fits small =
    let r = build sha256 parse_int chunks generation size false none s in
    let stored = build-IsStored sha256 parse_int chunks generation size s h in
    let positive = size_pos sha256 parse_int generation size h in
    let whole = blocks-joined size chunks in
    (
      read_range-IsStored sha256 parse_int generation size from n (blocks size chunks) r positive
            (blocks-Sized size chunks positive) (rw whole fits) small stored
          ∙ ap (λ t. ok (slice from (from + n) t)) whole,
      read_all-IsStored sha256 parse_int generation size (blocks size chunks) r stored
          ∙ ap ok whole,
    )
