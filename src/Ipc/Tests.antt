-- ===== src/Ipc/Tests.antt =====
-- A frame of src/simplicio_fast/ipc.py through `encode` and `IpcFrameDecoder`, and the theorems at
-- concrete inputs.
use simplicio_fast.Prelude.{
  ℕ, ◌≡◌, refl, none, some, Option, List, [], ◌∷◌, ◌++◌, ok, err, ◌==◌, numbers_equate,
  if◌then◌else◌, take, drop,
}
use simplicio_fast.Prelude.Bytes.{lists_equate}
use simplicio_fast.Prelude.TestHash.{test_hash}
use simplicio_fast.Prelude.Json.{Json, obj}
use simplicio_fast.Prelude.Json.Encode.{canonical}
use simplicio_fast.Ipc.{
  IpcFrame, default_limits, metadata, header_bytes, make_frame, encode_frame, decode_frame,
  invalid_magic,
}
use simplicio_fast.Ipc.Stream.{head_of, feed, feed_all}
use simplicio_fast.Ipc.Chunks.{feed_all-chunks}
use simplicio_fast.Ipc.RoundTrip.{frame_bytes}
use simplicio_fast.Ipc.Transport.{Encoded, feed_all-Encoded, feed_loses}

abbrev ping : IpcFrame
ping = record {
  request_id = "r1";
  operation = "ping";
  generation = "g1";
  payload = 1 ∷ 2 ∷ 255 ∷ [];
}

-- a reader of this one header
abbrev loads_ping : List ℕ → Option Json
loads_ping bs =
    if bs == header_bytes test_hash ping then some (obj (metadata test_hash ping)) else none

abbrev ping_bytes : List ℕ
ping_bytes = frame_bytes test_hash ping

ping_encodes : encode_frame test_hash ping default_limits ≡ ok ping_bytes
unfolding encode_frame canonical test_hash
ping_encodes = refl

ping-Encoded :
    Encoded test_hash loads_ping default_limits (ping ∷ ping ∷ []) (ping_bytes ∷ ping_bytes ∷ [])
unfolding make_frame canonical test_hash
ping-Encoded = (ping_encodes, refl, refl, refl, (ping_encodes, refl, refl, refl, tt))

abbrev cuts : List (List ℕ)
cuts = take 7 ping_bytes ∷ (drop 7 ping_bytes ++ take 20 ping_bytes) ∷ [] ∷ drop 20 ping_bytes ∷ []

-- The theorems at inputs where their hypotheses hold.
feed_all-Encoded_example :
    feed_all test_hash loads_ping cuts default_limits [] ≡ (ok (ping ∷ ping ∷ []), [])
unfolding canonical test_hash
feed_all-Encoded_example =
    feed_all-Encoded test_hash loads_ping default_limits (ping ∷ ping ∷ [])
      (ping_bytes ∷ ping_bytes ∷ []) cuts ping-Encoded refl

feed_all-chunks_example :
    feed_all test_hash loads_ping cuts default_limits [] ≡ (ok (ping ∷ ping ∷ []), [])
unfolding feed make_frame decode_frame canonical test_hash
feed_all-chunks_example =
    feed_all-chunks test_hash loads_ping cuts default_limits (ping ∷ ping ∷ []) [] refl

abbrev zeros : List ℕ
zeros = 0 ∷ 0 ∷ 0 ∷ 0 ∷ 0 ∷ 0 ∷ 0 ∷ 0 ∷ 0 ∷ 0 ∷ 0 ∷ 0 ∷ 0 ∷ 0 ∷ 0 ∷ 0 ∷ []

feed_loses_example :
    feed test_hash loads_ping (ping_bytes ++ zeros) default_limits [] ≡ (err invalid_magic, zeros)
unfolding make_frame head_of canonical test_hash
feed_loses_example =
    feed_loses test_hash loads_ping default_limits ping ping_bytes zeros invalid_magic
      (ping_encodes, refl, refl, refl, tt) refl
