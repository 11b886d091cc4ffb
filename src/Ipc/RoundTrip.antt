-- ===== src/Ipc/RoundTrip.antt =====
-- `encode` and `decode_frame` of src/simplicio_fast/ipc.py undo each other.
use simplicio_fast.Prelude.{
  ℕ, ◌+◌, ◌≤◌, ◌<◌, String, ◌≡◌, refl, ap, ◌∙◌, ◌≢◌, inl, inr, Bool, true, false, ◌||◌, Option,
  some, List, ◌++◌, Result, ok, err, raise_if, passed, passes, ◌==◌, beq_self, strings_equate,
  numbers_equate, arith, ltb, if◌then◌else◌, length, length-append, take, drop, any, Bool-cases,
  ◌>>=◌,
}
use simplicio_fast.Prelude.Bytes.{
  lists_equate, pack_u32, unpack-pack_u32, take-append, drop-append, take_all, drop_all, drop_add,
}
use simplicio_fast.Prelude.Json.{Json, obj, codes}
use simplicio_fast.Ipc.{
  Error, Limits, IpcFrame, magic, header_size, header_length, payload_length, positive_limits,
  pack_header, text, make_frame, metadata, header_bytes, encode_frame, check_frame, decode_frame,
  decode_metadata, decode_fields, check_digest, text_field, payload_too_large, header_too_large,
  frame_too_large, limits_not_positive, truncated_frame, trailing_bytes,
}
use simplicio_fast.Ipc.Stream.{incomplete, frame_length, head_of, whole, judge, check_header}
use simplicio_fast.Ipc.Heads.{full_head}
use simplicio_fast.Prelude.Json.Encode.{encode}

raised : {A : Type 0} {e : Error} {a : A} → ◌≢◌ {A = Result Error A} (err e) (ok a)
raised h = cc

only : (bad : Bool) (e : Error) → bad ≡ false → ◌≡◌ {A = Result Error Unit} (raise_if bad e) (ok tt)
only false e h = refl
only true e h = cc

header_length_lem :
    (h p : ℕ) (tail : List ℕ)
    → h < 4294967296
    → header_length ((magic ++ (pack_u32 h ++ pack_u32 p)) ++ tail) ≡ h
header_length_lem h p tail l = unpack-pack_u32 h (pack_u32 p ++ tail) l

payload_length_lem :
    (h p : ℕ) (tail : List ℕ)
    → p < 4294967296
    → payload_length ((magic ++ (pack_u32 h ++ pack_u32 p)) ++ tail) ≡ p
payload_length_lem h p tail l = unpack-pack_u32 p tail l

text_ok :
    (s : String) (n : ℕ) (next : String → Result Error IpcFrame) {f : IpcFrame}
    → (text s n >>= next) ≡ ok f
    → (text s n ≡ ok s) × (next s ≡ ok f)
unfolding text
text_ok s n next h = elim (Bool-cases (s == "" || ltb n (length (encode s)))) [
  | inl bad ↦ absurd (raised (rw bad at h))
  | inr good ↦ (rw good refl, rw good at h)
]

module _ (sha256 : List ℕ → String) where
  -- the bytes of a frame whose lengths fit in 32 bits
  abbrev pub frame_bytes : IpcFrame → List ℕ
  frame_bytes f =
      (magic ++ (pack_u32 (length (header_bytes sha256 f)) ++ pack_u32 (length f.payload)))
      ++ (header_bytes sha256 f ++ f.payload)

  -- a frame within the limits
  pub record Fits (f : IpcFrame) (m : Limits) : Type 0 where
    positive : positive_limits m ≡ ok tt
    payload_fits : length f.payload ≤ m.max_payload_bytes
    header_fits : length (header_bytes sha256 f) ≤ m.max_header_bytes
    frame_fits : header_size + length (header_bytes sha256 f) + length f.payload ≤ m.max_frame_bytes
    header_packs : length (header_bytes sha256 f) < 4294967296
    payload_packs : length f.payload < 4294967296

  pack_header_ok :
      (h p : ℕ) (next : List ℕ → Result Error (List ℕ)) (bs : List ℕ)
      → (pack_header h p >>= next) ≡ ok bs
      → (h < 4294967296) × (p < 4294967296) × (next (magic ++ (pack_u32 h ++ pack_u32 p)) ≡ ok bs)
  unfolding pack_header
  pack_header_ok h p next bs e = elim (Bool-cases (ltb 4294967295 h || ltb 4294967295 p)) [
    | inl big ↦ absurd (raised (rw big at e))
    | inr small ↦ (ground (arith, small), ground (arith, small), rw small at e)
  ]

  pub encode_frame-Fits :
      (f : IpcFrame) (m : Limits) (bs : List ℕ)
      → encode_frame sha256 f m ≡ ok bs
      → Fits f m × (bs ≡ frame_bytes f)
  unfolding encode_frame positive_limits pack_header
  encode_frame-Fits f m bs h =
      let a =
        passed (ltb m.max_header_bytes 1 || ltb m.max_payload_bytes 1 || ltb m.max_frame_bytes 1)
          limits_not_positive _ h in
      let b = passed (ltb m.max_payload_bytes (length f.payload)) payload_too_large _ a.1 in
      let c =
        passed (ltb m.max_header_bytes (length (header_bytes sha256 f))) header_too_large _ b.1 in
      let d =
        passed
          (ltb m.max_frame_bytes (header_size + length (header_bytes sha256 f) + length f.payload))
          frame_too_large _ c.1 in
      let p =
        pack_header_ok (length (header_bytes sha256 f)) (length f.payload)
          (λ packed. ok (packed ++ (header_bytes sha256 f ++ f.payload))) bs d.1 in
      (
        record {
          positive = rw a.0 refl;
          payload_fits = ground (arith, b.0);
          header_fits = ground (arith, c.0);
          frame_fits = ground (arith, d.0);
          header_packs = p.0;
          payload_packs = p.1;
        },
        cc,
      )

  pub length-frame_bytes :
      (f : IpcFrame)
      → length (frame_bytes f) ≡ header_size + length (header_bytes sha256 f) + length f.payload
  length-frame_bytes f = omega (arith, length-append (header_bytes sha256 f) f.payload)

  check_frame-Fits : (f : IpcFrame) (m : Limits) → Fits f m → check_frame (frame_bytes f) m ≡ ok tt
  unfolding check_frame
  check_frame-Fits f m v =
      let h = length (header_bytes sha256 f) in
      let p = length f.payload in
      let tail = header_bytes sha256 f ++ f.payload in
      let hl = header_length_lem h p tail v.header_packs in
      let pl = payload_length_lem h p tail v.payload_packs in
      let size = length-frame_bytes f in
      let bs = frame_bytes f in
      rw v.positive (
        passes (ltb m.max_frame_bytes (length bs)) frame_too_large _
          (ground (arith, size, v.frame_fits))
        ∙ (passes (ltb (length bs) header_size) truncated_frame _ (ground (arith, size))
            ∙ (passes (ltb m.max_header_bytes (header_length bs)) header_too_large _
                  (ground (arith, hl, v.header_fits))
                ∙ (passes (ltb m.max_payload_bytes (payload_length bs)) payload_too_large _
                      (ground (arith, pl, v.payload_fits))
                    ∙ (passes (ltb (length bs) (frame_length bs)) truncated_frame _
                          (ground (arith, size, hl, pl))
                        ∙ only (ltb (frame_length bs) (length bs)) trailing_bytes
                            (ground (arith, size, hl, pl)))))))

  header_slice :
      (f : IpcFrame)
      → take (length (header_bytes sha256 f)) (drop header_size (frame_bytes f))
        ≡ header_bytes sha256 f
  header_slice f =
      take-append (length (header_bytes sha256 f)) (header_bytes sha256 f) f.payload (omega arith)
      ∙ take_all (length (header_bytes sha256 f)) (header_bytes sha256 f) refl

  payload_slice :
      (f : IpcFrame)
      → take
          (length f.payload)
          (drop (header_size + length (header_bytes sha256 f)) (frame_bytes f))
        ≡ f.payload
  payload_slice f =
      rw
        (
          drop_add header_size (length (header_bytes sha256 f)) (frame_bytes f),
          drop-append (length (header_bytes sha256 f)) (header_bytes sha256 f) f.payload
              (omega arith),
          drop_all (length (header_bytes sha256 f)) (header_bytes sha256 f) refl,
        )
        (take_all (length f.payload) f.payload refl)

  -- the constructor accepts the frame's fields
  abbrev pub IsFrame : IpcFrame → Type 0
  IsFrame f = make_frame f.request_id f.operation f.generation f.payload ≡ ok f

  -- a hexadecimal digest is ASCII
  abbrev pub IsAscii : String → Type 0
  IsAscii s = any (λ c. ltb 127 c) (codes s) ≡ false

  decode_fields-metadata :
      (f : IpcFrame)
      → IsFrame f
      → IsAscii (sha256 f.payload)
      → decode_fields sha256 (metadata sha256 f) f.payload ≡ ok f
  unfolding decode_fields check_digest text_field make_frame
  decode_fields-metadata f v ascii =
      let a = text_ok f.request_id 128 _ v in
      let b = text_ok f.operation 128 _ a.1 in
      let c = text_ok f.generation 128 _ b.1 in
      rw (ascii, beq_self (sha256 f.payload), a.0, b.0, c.0) v

  -- Decoding what `encode` returned gives the frame back, under the same limits, for every frame that
  -- the constructor accepts, where `json.loads` reads the metadata that `json.dumps` printed and the
  -- hexadecimal digest is ASCII.
  pub decode_frame-encode_frame :
      (loads : List ℕ → Option Json) (f : IpcFrame) (m : Limits) (bs : List ℕ)
      → IsFrame f
      → IsAscii (sha256 f.payload)
      → loads (header_bytes sha256 f) ≡ some (obj (metadata sha256 f))
      → encode_frame sha256 f m ≡ ok bs
      → decode_frame sha256 loads bs m ≡ ok f
  unfolding decode_frame decode_metadata
  decode_frame-encode_frame loads f m bs v ascii reads h =
      let (fits, same) = encode_frame-Fits f m bs h in
      let n = length (header_bytes sha256 f) in
      let p = length f.payload in
      let tail = header_bytes sha256 f ++ f.payload in
      let hl = header_length_lem n p tail fits.header_packs in
      let pl = payload_length_lem n p tail fits.payload_packs in
      rw (same, check_frame-Fits f m fits, hl, pl, header_slice f, payload_slice f, reads)
        (decode_fields-metadata f v ascii)

  -- a frame's bytes at the head of the buffer
  pub head_of-frame_bytes :
      (f : IpcFrame) (m : Limits) (rest : List ℕ)
      → Fits f m
      → head_of (frame_bytes f ++ rest) m ≡ whole (length (frame_bytes f))
  unfolding check_header
  head_of-frame_bytes f m rest v =
      let n = length (header_bytes sha256 f) in
      let p = length f.payload in
      let tail = (header_bytes sha256 f ++ f.payload) ++ rest in
      let bs = frame_bytes f ++ rest in
      let hl : header_length bs ≡ n = header_length_lem n p tail v.header_packs in
      let pl : payload_length bs ≡ p = payload_length_lem n p tail v.payload_packs in
      let size = length-frame_bytes f in
      let more = length-append (frame_bytes f) rest in
      let checked : check_header bs m ≡ ok tt =
        passes (ltb m.max_header_bytes (header_length bs)) header_too_large _
          (ground (arith, hl, v.header_fits))
        ∙ (passes (ltb m.max_payload_bytes (payload_length bs)) payload_too_large _
              (ground (arith, pl, v.payload_fits))
            ∙ only (ltb m.max_frame_bytes (frame_length bs)) frame_too_large
                (ground (arith, hl, pl, v.frame_fits))) in
      let enough : ltb (length bs) (frame_length bs) ≡ false = ground (arith, size, more, hl, pl) in
      let same : frame_length bs ≡ length (frame_bytes f) = omega (arith, size, hl, pl) in
      full_head bs m (omega (arith, size, more))
      ∙ (ap (λ r. judge r (length bs) (frame_length bs)) checked
          ∙ (ap (λ b. if b then incomplete else whole (frame_length bs)) enough ∙ ap whole same))
