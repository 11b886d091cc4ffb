-- ===== src/Ipc/Transport.antt =====
-- A stream of frames of src/simplicio_fast/ipc.py from `encode` to `IpcFrameDecoder`.
use simplicio_fast.Prelude.{
  ℕ, zero, suc, ◌<◌, String, ◌≡◌, refl, ap, ◌∙◌, Option, some, List, [], ◌∷◌, ◌++◌, ok, err, arith,
  length, length-append, take, drop,
}
use simplicio_fast.Prelude.Bytes.{take-append, drop-append, take_all, drop_all}
use simplicio_fast.Prelude.Json.{Json, obj}
use simplicio_fast.Ipc.{Error, Limits, IpcFrame, metadata, header_bytes, encode_frame, decode_frame}
use simplicio_fast.Ipc.Stream.{head_of, invalid, whole, drain, feed, feed_all, push_frame}
use simplicio_fast.Ipc.Chunks.{join, drain_fuel, drain_invalid, drain_whole, feed_all-chunks}
use simplicio_fast.Ipc.RoundTrip.{
  IsFrame, IsAscii, encode_frame-Fits, length-frame_bytes, head_of-frame_bytes,
  decode_frame-encode_frame,
}

module _ (sha256 : List ℕ → String) (loads : List ℕ → Option Json) where
  -- Each text of bytes is what `encode` returned for the frame at its place; the constructor accepted
  -- the frame, its digest is ASCII, and `json.loads` reads its metadata.
  abbrev pub Encoded : Limits → List IpcFrame → List (List ℕ) → Type 0
  Encoded m [] [] = Unit
  Encoded m (f ∷ fs) (bs ∷ bss) =
      (encode_frame sha256 f m ≡ ok bs)
      × IsFrame sha256 f
      × IsAscii sha256 (sha256 f.payload)
      × (loads (header_bytes sha256 f) ≡ some (obj (metadata sha256 f)))
      × Encoded m fs bss
  Encoded m _ _ = ⊥

  drain_frame :
      (fuel : ℕ) (m : Limits) (b rest : List ℕ) (f : IpcFrame)
      → head_of (b ++ rest) m ≡ whole (length b)
      → decode_frame sha256 loads b m ≡ ok f
      → drain sha256 loads (suc fuel) (b ++ rest) m ≡ push_frame f (drain sha256 loads fuel rest m)
  drain_frame fuel m b rest f here read =
      let slice : take (length b) (b ++ rest) ≡ b =
        take-append (length b) b rest (omega arith) ∙ take_all (length b) b refl in
      let after : drop (length b) (b ++ rest) ≡ rest =
        drop-append (length b) b rest (omega arith)
        ∙ ap (λ t. t ++ rest) (drop_all (length b) b refl) in
      drain_whole sha256 loads fuel (b ++ rest) m (length b) here ∙ rw (slice, read, after) refl

  drain-Encoded :
      (fuel : ℕ) (m : Limits) (fs : List IpcFrame) (bss : List (List ℕ))
      → Encoded m fs bss
      → length (join bss) < fuel
      → drain sha256 loads fuel (join bss) m ≡ (ok fs, [])
  unfolding drain head_of
  drain-Encoded zero m fs bss e l = absurd (omega (arith, l))
  drain-Encoded (suc fuel) m [] [] e l = refl
  drain-Encoded (suc fuel) m [] (bs ∷ bss) e l = absurd e
  drain-Encoded (suc fuel) m (f ∷ fs) [] e l = absurd e
  drain-Encoded (suc fuel) m (f ∷ fs) (bs ∷ bss) e l =
      let (fits, same) = encode_frame-Fits sha256 f m bs e.0 in
      let here : head_of (bs ++ join bss) m ≡ whole (length bs) =
        rw same (head_of-frame_bytes sha256 f m (join bss) fits) in
      let read = decode_frame-encode_frame sha256 loads f m bs e.1 e.2 e.3 e.0 in
      let size = length-frame_bytes sha256 f in
      let shorter : length (join bss) < fuel =
        omega (arith, l, length-append bs (join bss), size, ap length same) in
      drain_frame fuel m bs (join bss) f here read
      ∙ ap (push_frame f) (drain-Encoded fuel m fs bss e.4 shorter)

  -- The frames that were sent arrive, in order and with no byte left over, in whatever chunks the
  -- transport delivers the bytes of their encodings, under the same limits on both sides; each frame
  -- is one that the constructor accepts and whose metadata `json.loads` reads as printed, and its
  -- hexadecimal digest is ASCII.
  pub feed_all-Encoded :
      (m : Limits) (fs : List IpcFrame) (bss chunks : List (List ℕ))
      → Encoded m fs bss
      → join chunks ≡ join bss
      → feed_all sha256 loads chunks m [] ≡ (ok fs, [])
  unfolding feed
  feed_all-Encoded m fs bss chunks e same =
      feed_all-chunks sha256 loads chunks m fs []
        (rw same (drain-Encoded (suc (length (join bss))) m fs bss e (omega arith)))

  -- Where the bytes after a frame's encoding are no frame's header, one `feed` of both raises that
  -- header's error, the encoded frame is gone from the buffer, and no call returns it.
  pub feed_loses :
      (m : Limits) (f : IpcFrame) (bs tail : List ℕ) (e : Error)
      → Encoded m (f ∷ []) (bs ∷ [])
      → head_of tail m ≡ invalid e
      → feed sha256 loads (bs ++ tail) m [] ≡ (err e, tail)
  unfolding feed
  feed_loses m f bs tail e given bad =
      let (fits, same) = encode_frame-Fits sha256 f m bs given.0 in
      let here : head_of (bs ++ tail) m ≡ whole (length bs) =
        rw same (head_of-frame_bytes sha256 f m tail fits) in
      let read = decode_frame-encode_frame sha256 loads f m bs given.1 given.2 given.3 given.0 in
      let long = length-append bs tail in
      let size = length-frame_bytes sha256 f in
      let k = length (bs ++ tail) in
      let left =
        drain_fuel sha256 loads k (suc k) tail m (omega (arith, long, size, ap length same))
          (omega (arith, long)) in
      drain_frame k m bs tail f here read
      ∙ ap (push_frame f) (left ∙ drain_invalid sha256 loads k tail m e bad)
