-- ===== src/Ipc/Chunks.antt =====
-- `IpcFrameDecoder` of src/simplicio_fast/ipc.py: how the stream is cut into chunks does not matter.
use mathlib.Core.List.{append-nil, append_assoc}
use simplicio_fast.Prelude.{
  ℕ, zero, suc, ◌<◌, String, ◌≡◌, refl, sym, ap, ◌∙◌, ◌≢◌, ◌⊎◌, inl, inr, Option, List, [], ◌∷◌,
  ◌++◌, Result, ok, err, Result-cases, arith, length, length-append, take, drop,
}
use simplicio_fast.Prelude.Bytes.{take-append, drop-append, length-drop}
use simplicio_fast.Prelude.Json.{Json}
use simplicio_fast.Ipc.{Error, Limits, IpcFrame, decode_frame}
use simplicio_fast.Ipc.Stream.{
  Head, incomplete, invalid, whole, head_of, push_frame, turn_of, drain, feed, feed_all,
}
use simplicio_fast.Ipc.Heads.{head_of-append_invalid, head_of-append_whole}

-- the stream that arrives in chunks
abbrev pub join : List (List ℕ) → List ℕ
join [] = []
join (c ∷ cs) = c ++ join cs

abbrev Outcome : Type 0
Outcome = Result Error (List IpcFrame) × List ℕ

push_frame_ok :
    (f : IpcFrame) (p : Outcome) (zs : List IpcFrame) (r : List ℕ)
    → push_frame f p ≡ (ok zs, r)
    → (ys : List IpcFrame) × (p ≡ (ok ys, r)) × (zs ≡ f ∷ ys)
push_frame_ok f (err e, b) zs r h = cc
push_frame_ok f (ok ys, b) zs r h = (ys, cc, cc)

failed :
    (e : Error) (b : List ℕ) (zs : List IpcFrame) (r : List ℕ)
    → ◌≢◌ {A = Outcome} (err e, b) (ok zs, r)
failed e b zs r h = cc

Head-cases :
    (h : Head) → (h ≡ incomplete) ⊎ (((e : Error) × (h ≡ invalid e)) ⊎ ((n : ℕ) × (h ≡ whole n)))
Head-cases incomplete = inl refl
Head-cases (invalid e) = inr (inl (e, refl))
Head-cases (whole n) = inr (inr (n, refl))

module _ (sha256 : List ℕ → String) (loads : List ℕ → Option Json) where
  drain_incomplete :
      (fuel : ℕ) (a : List ℕ) (m : Limits)
      → head_of a m ≡ incomplete
      → drain sha256 loads (suc fuel) a m ≡ (ok [], a)
  unfolding drain
  drain_incomplete fuel a m h = rw (drain, h) refl

  pub drain_invalid :
      (fuel : ℕ) (a : List ℕ) (m : Limits) (e : Error)
      → head_of a m ≡ invalid e
      → drain sha256 loads (suc fuel) a m ≡ (err e, a)
  unfolding drain
  drain_invalid fuel a m e h = rw (drain, h) refl

  pub drain_whole :
      (fuel : ℕ) (a : List ℕ) (m : Limits) (n : ℕ)
      → head_of a m ≡ whole n
      → drain sha256 loads (suc fuel) a m
        ≡ turn_of
            (decode_frame sha256 loads (take n a) m)
            (drop n a)
            (drain sha256 loads fuel (drop n a) m)
  unfolding drain
  drain_whole fuel a m n h = rw (drain, h) refl

  -- Fuel above the length of the buffer is enough: more of it changes nothing.
  pub drain_fuel :
      (j k : ℕ) (a : List ℕ) (m : Limits)
      → length a < j
      → length a < k
      → drain sha256 loads j a m ≡ drain sha256 loads k a m
  drain_fuel zero k a m lj lk = absurd (omega (arith, lj))
  drain_fuel (suc j) zero a m lj lk = absurd (omega (arith, lk))
  drain_fuel (suc j) (suc k) a m lj lk = elim (Head-cases (head_of a m)) [
    | inl h ↦ drain_incomplete j a m h ∙ sym (drain_incomplete k a m h)
    | inr more ↦ elim more [
      | inl (e, h) ↦ drain_invalid j a m e h ∙ sym (drain_invalid k a m e h)
      | inr (n, h) ↦
          let shape = head_of-append_whole a [] m n h in
          let less = length-drop n a shape.1 in
          drain_whole j a m n h
          ∙ (ap (turn_of (decode_frame sha256 loads (take n a) m) (drop n a)) (
                drain_fuel j k (drop n a) m (omega (arith, less, shape.0, lj))
                  (omega (arith, less, shape.0, lk)))
              ∙ sym (drain_whole k a m n h))
    ]
  ]

  -- what `feed` gives for `a` and then for `b`, where their frames are `zs`
  abbrev Split : ℕ → List ℕ → List ℕ → Limits → List IpcFrame → List ℕ → Type 0
  Split fuel a b m zs r =
      (xs : List IpcFrame) × (rest : List ℕ) × (ys : List IpcFrame) × (drain sha256 loads fuel a m
        ≡ (ok xs, rest))
      × (drain sha256 loads (suc (length (rest ++ b))) (rest ++ b) m ≡ (ok ys, r))
      × (zs ≡ xs ++ ys)

  Split-cons :
      (fuel : ℕ) (a b : List ℕ) (m : Limits) (n : ℕ) (f : IpcFrame) (ys zs : List IpcFrame)
      → (r : List ℕ) → head_of a m ≡ whole n
      → decode_frame sha256 loads (take n a) m ≡ ok f
      → zs ≡ f ∷ ys
      → Split fuel (drop n a) b m ys r
      → Split (suc fuel) a b m zs r
  Split-cons fuel a b m n f ys zs r hn good e (xs, rest, ys', first, second, cut) = (
    f ∷ xs,
    rest,
    ys',
    drain_whole fuel a m n hn ∙ rw (good, first) refl,
    second,
    e ∙ ap (λ t. f ∷ t) cut,
  )

  -- The frames of `a ++ b` are those of `a`, then those of what `a` leaves and `b`.
  drain-append :
      (fuel k : ℕ) (a b : List ℕ) (m : Limits) (zs : List IpcFrame) (r : List ℕ)
      → length a < fuel
      → length (a ++ b) < k
      → drain sha256 loads k (a ++ b) m ≡ (ok zs, r)
      → Split fuel a b m zs r
  drain-append zero k a b m zs r lf lk h = absurd (omega (arith, lf))
  drain-append (suc fuel) zero a b m zs r lf lk h = absurd (omega (arith, lk))
  drain-append (suc fuel) (suc k) a b m zs r lf lk h = elim (Head-cases (head_of a m)) [
    | inl e ↦ (
      [],
      a,
      zs,
      drain_incomplete fuel a m e,
      drain_fuel (suc (length (a ++ b))) (suc k) (a ++ b) m (omega arith) lk ∙ h,
      refl,
    )
    | inr more ↦ elim more [
      | inl (x, e) ↦
          let bad = drain_invalid k (a ++ b) m x (head_of-append_invalid a b m x e) in
          absurd (failed x (a ++ b) zs r (sym bad ∙ h))
      | inr (n, e) ↦
          let shape = head_of-append_whole a b m n e in
          let less = length-drop n a shape.1 in
          let whole_turn = sym (drain_whole k (a ++ b) m n shape.2) ∙ h in
          let turn : turn_of (decode_frame sha256 loads (take n a) m) (drop n a ++ b)
                (drain sha256 loads k (drop n a ++ b) m)
              ≡ (ok zs, r) =
            rw (take-append n a b shape.1, drop-append n a b shape.1) at whole_turn in
          elim (Result-cases (decode_frame sha256 loads (take n a) m)) [
            | inr (x, bad) ↦ absurd (failed x (drop n a ++ b) zs r (rw bad at turn))
            | inl (f, good) ↦
                let (ys, tail, cut) = push_frame_ok f _ zs r (rw good at turn) in
                Split-cons fuel a b m n f ys zs r e good cut (
                  drain-append fuel k (drop n a) b m ys r (omega (arith, less, shape.0, lf))
                    (omega
                      (arith, less, shape.0, lk, length-append a b, length-append (drop n a) b))
                    tail)
          ]
    ]
  ]

  -- What a drain that did not raise leaves is not yet a frame.
  drain_waits :
      (fuel : ℕ) (a : List ℕ) (m : Limits) (xs : List IpcFrame) (rest : List ℕ)
      → length a < fuel
      → drain sha256 loads fuel a m ≡ (ok xs, rest)
      → head_of rest m ≡ incomplete
  drain_waits zero a m xs rest l h = absurd (omega (arith, l))
  drain_waits (suc fuel) a m xs rest l h = elim (Head-cases (head_of a m)) [
    | inl e ↦
        let stop : ◌≡◌ {A = Outcome} (ok [], a) (ok xs, rest) =
          sym (drain_incomplete fuel a m e) ∙ h in
        let same : a ≡ rest = cc in rw⁻¹ same e
    | inr more ↦ elim more [
      | inl (x, e) ↦ absurd (failed x a xs rest (sym (drain_invalid fuel a m x e) ∙ h))
      | inr (n, e) ↦
          let shape = head_of-append_whole a [] m n e in
          let less = length-drop n a shape.1 in
          let turn = sym (drain_whole fuel a m n e) ∙ h in
          elim (Result-cases (decode_frame sha256 loads (take n a) m)) [
            | inr (x, bad) ↦ absurd (failed x (drop n a) xs rest (rw bad at turn))
            | inl (f, good) ↦
                let (ys, tail, cut) = push_frame_ok f _ xs rest (rw good at turn) in
                drain_waits fuel (drop n a) m ys rest (omega (arith, less, shape.0, l)) tail
          ]
    ]
  ]

  feed_all-join :
      (chunks : List (List ℕ)) (m : Limits) (buffer : List ℕ) (zs : List IpcFrame) (r : List ℕ)
      → head_of buffer m ≡ incomplete
      → feed sha256 loads (join chunks) m buffer ≡ (ok zs, r)
      → feed_all sha256 loads chunks m buffer ≡ (ok zs, r)
  unfolding feed feed_all
  feed_all-join [] m buffer zs r waits h =
      let at_end = rw (append-nil buffer) at h in
      sym (drain_incomplete (length buffer) buffer m waits) ∙ at_end
  feed_all-join (c ∷ cs) m buffer zs r waits h =
      let together = rw (sym (append_assoc buffer c (join cs))) at h in
      let (xs, rest, ys, first, second, cut) =
        drain-append (suc (length (buffer ++ c))) (suc (length ((buffer ++ c) ++ join cs)))
          (buffer ++ c) (join cs) m zs r (omega arith) (omega arith) together in
      let waits' =
        drain_waits (suc (length (buffer ++ c))) (buffer ++ c) m xs rest (omega arith) first in
      rw (first, feed_all-join cs m rest ys r waits' second, cut) refl

  -- Where feeding the whole of a stream to a fresh decoder gives frames and leaves some bytes, feeding
  -- it in any chunks gives the same frames in all and leaves the same bytes.
  pub feed_all-chunks :
      (chunks : List (List ℕ)) (m : Limits) (frames : List IpcFrame) (rest : List ℕ)
      → feed sha256 loads (join chunks) m [] ≡ (ok frames, rest)
      → feed_all sha256 loads chunks m [] ≡ (ok frames, rest)
  unfolding head_of
  feed_all-chunks chunks m frames rest h = feed_all-join chunks m [] frames rest refl h
