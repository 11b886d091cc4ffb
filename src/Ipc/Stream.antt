-- ===== src/Ipc/Stream.antt =====
-- `IpcFrameDecoder` of src/simplicio_fast/ipc.py: frames read from a stream that arrives in chunks.
-- Its state is the buffer. `feed` gives the buffer back beside its result, also after a raise.
use simplicio_fast.Prelude.{
  ℕ, zero, suc, ◌+◌, String, not, Option, List, [], ◌∷◌, ◌++◌, Result, ok, err, ◌>>◌, raise_if,
  ◌==◌, numbers_equate, nat_beq, ltb, if◌then◌else◌, length, take, drop,
}
use simplicio_fast.Prelude.Bytes.{lists_equate}
use simplicio_fast.Prelude.Json.{Json}
use simplicio_fast.Ipc.{
  Error, invalid_magic, header_too_large, payload_too_large, frame_too_large, truncated_frame,
  Limits, IpcFrame, magic, header_size, header_length, payload_length, decode_frame,
}

-- what the loop sees at the head of the buffer: too few bytes, an error, or a frame of a length
pub data Head : Type 0 where
  incomplete : Head
  invalid : Error → Head
  whole : ℕ → Head

-- the header's checks, which need no more than the header
unfoldable pub check_header : List ℕ → Limits → Result Error Unit
check_header bs m = do
  raise_if (not (take 8 bs == magic)) invalid_magic
  raise_if (ltb m.max_header_bytes (header_length bs)) header_too_large
  raise_if (ltb m.max_payload_bytes (payload_length bs)) payload_too_large
  raise_if (ltb m.max_frame_bytes (header_size + header_length bs + payload_length bs))
      frame_too_large

abbrev pub frame_length : List ℕ → ℕ
frame_length bs = header_size + header_length bs + payload_length bs

-- the rest of what the loop tests, of the bytes that it has and those that it expects
abbrev pub judge : Result Error Unit → (has expected : ℕ) → Head
judge (err e) has expected = invalid e
judge (ok _) has expected = if ltb has expected then incomplete else whole expected

unfoldable pub head_of : List ℕ → Limits → Head
unfolding check_header
head_of bs m =
    if ltb (length bs) header_size
    then incomplete
    else judge (check_header bs m) (length bs) (frame_length bs)

-- The frames read so far are lost when a later one raises.
abbrev pub push_frame :
    IpcFrame → Result Error (List IpcFrame) × List ℕ → Result Error (List IpcFrame) × List ℕ
push_frame f (err e, rest) = (err e, rest)
push_frame f (ok fs, rest) = (ok (f ∷ fs), rest)

-- a turn of the loop: the decoded frame, the bytes after it, and what the later turns give
abbrev pub turn_of :
    Result Error IpcFrame
    → List ℕ
    → Result Error (List IpcFrame) × List ℕ
    → Result Error (List IpcFrame) × List ℕ
turn_of (err e) rest more = (err e, rest)
turn_of (ok f) rest more = push_frame f more

module _ (sha256 : List ℕ → String) (loads : List ℕ → Option Json) where
  -- The loop of `feed`, on fuel: each turn takes at least `header_size` bytes off the buffer.
  unfoldable pub drain : ℕ → List ℕ → Limits → Result Error (List IpcFrame) × List ℕ
  unfolding head_of decode_frame
  drain zero bs m = (ok [], bs)
  drain (suc fuel) bs m = elim (head_of bs m) [
    | incomplete ↦ (ok [], bs)
    | invalid e ↦ (err e, bs)
    | whole n ↦
        turn_of (decode_frame sha256 loads (take n bs) m) (drop n bs) (drain fuel (drop n bs) m)
  ]

  unfoldable pub feed : List ℕ → Limits → List ℕ → Result Error (List IpcFrame) × List ℕ
  unfolding drain
  feed chunk m buffer = drain (suc (length (buffer ++ chunk))) (buffer ++ chunk) m

  -- `finish`
  unfoldable pub finish : List ℕ → Result Error Unit
  finish buffer = raise_if (not (nat_beq (length buffer) 0)) truncated_frame

  -- the frames of a chunk, and those of the chunks after it, up to the first raise
  abbrev pub append_frames :
      Result Error (List IpcFrame) × List ℕ
      → Result Error (List IpcFrame) × List ℕ
      → Result Error (List IpcFrame) × List ℕ
  append_frames (err e, b) more = (err e, b)
  append_frames (ok fs, b) (err e, rest) = (err e, rest)
  append_frames (ok fs, b) (ok gs, rest) = (ok (fs ++ gs), rest)

  unfoldable pub feed_all : List (List ℕ) → Limits → List ℕ → Result Error (List IpcFrame) × List ℕ
  unfolding feed
  feed_all [] m buffer = (ok [], buffer)
  feed_all (chunk ∷ chunks) m buffer =
      let turn = feed chunk m buffer in append_frames turn (feed_all chunks m turn.1)
