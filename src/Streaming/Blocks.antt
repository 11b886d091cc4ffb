-- ===== src/Streaming/Blocks.antt =====
-- The blocks into which `_blocks` of src/simplicio_fast/streaming.py cuts a source.
use simplicio_fast.Prelude.{
  ℕ, zero, suc, ◌≤◌, ◌<◌, ◌≡◌, refl, sym, ap, ◌∙◌, inl, inr, List, [], ◌∷◌, ◌++◌, arith, length,
  take, drop, leb, leb→le, Bool-cases, All,
}
use simplicio_fast.Prelude.Bytes.{length-drop, length-take}
use mathlib.Core.List.{append_assoc}
use simplicio_fast.Streaming.{split, blocks_from, blocks}

abbrev pub joined : List (List ℕ) → List ℕ
joined [] = []
joined (b ∷ bs) = b ++ joined bs

-- every block is full but the last, and none is empty
abbrev pub Sized : ℕ → List (List ℕ) → Type 0
Sized size [] = Unit
Sized size (b ∷ []) = (1 ≤ length b) × (length b ≤ size)
Sized size (b ∷ c ∷ bs) = (length b ≡ size) × Sized size (c ∷ bs)

abbrev Full : ℕ → List (List ℕ) → Type 0
Full size = All (λ b. length b ≡ size)

pub joined-append : (xs ys : List (List ℕ)) → joined (xs ++ ys) ≡ joined xs ++ joined ys
joined-append [] ys = refl
joined-append (x ∷ xs) ys = rw (joined-append xs ys, append_assoc) refl

take-drop : (n : ℕ) (xs : List ℕ) → take n xs ++ drop n xs ≡ xs
take-drop zero xs = refl
take-drop (suc n) [] = refl
take-drop (suc n) (x ∷ xs) = ap (λ t. x ∷ t) (take-drop n xs)

split-joined :
    (fuel size : ℕ) (pending : List ℕ)
    → joined (split fuel size pending).0 ++ (split fuel size pending).1 ≡ pending
unfolding split
split-joined zero size pending = refl
split-joined (suc fuel) size pending = elim (Bool-cases (leb size (length pending))) [
  | inl h ↦
      rw (h, split, append_assoc)
        (ap (λ t. take size pending ++ t) (split-joined fuel size (drop size pending))
          ∙ take-drop size pending)
  | inr h ↦ rw (h, split)
]

split-Full : (fuel size : ℕ) (pending : List ℕ) → Full size (split fuel size pending).0
unfolding split
split-Full zero size pending = tt
split-Full (suc fuel) size pending = elim (Bool-cases (leb size (length pending))) [
  | inl h ↦
      rw (h, split)
        (length-take size pending (leb→le _ _ h), split-Full fuel size (drop size pending))
  | inr h ↦ rw (h, split) tt
]

split_short :
    (fuel size : ℕ) (pending : List ℕ)
    → 1 ≤ size
    → length pending ≤ fuel
    → length (split fuel size pending).1 < size
unfolding split
split_short zero size pending h k = omega arith
split_short (suc fuel) size pending h k = elim (Bool-cases (leb size (length pending))) [
  | inl e ↦
      rw (e, split)
        (split_short fuel size (drop size pending) h
          (omega (arith, length-drop size pending (leb→le _ _ e))))
  | inr e ↦ rw (e, split) (ground arith)
]

Full-Sized :
    (size : ℕ) (xs ys : List (List ℕ))
    → 1 ≤ size
    → Full size xs
    → Sized size ys
    → Sized size (xs ++ ys)
Full-Sized size [] ys h f s = s
Full-Sized size (x ∷ []) [] h f s = omega (arith, f.0)
Full-Sized size (x ∷ []) (y ∷ ys) h f s = (f.0, s)
Full-Sized size (x ∷ x' ∷ xs) ys h f s = (f.0, Full-Sized size (x' ∷ xs) ys h f.1 s)

blocks_from-joined :
    (size : ℕ) (pending : List ℕ) (cs : List (List ℕ))
    → joined (blocks_from size pending cs) ≡ pending ++ joined cs
unfolding blocks_from
blocks_from-joined size [] [] = refl
blocks_from-joined size (x ∷ pending) [] = refl
blocks_from-joined size pending (c ∷ cs) =
    let fuel = length (pending ++ c) in
    let (out, left) = split fuel size (pending ++ c) in
    joined-append out (blocks_from size left cs)
    ∙ ap (λ t. joined out ++ t) (blocks_from-joined size left cs)
    ∙ sym (append_assoc (joined out) left (joined cs))
    ∙ ap (λ t. t ++ joined cs) (split-joined fuel size (pending ++ c))
    ∙ append_assoc pending c (joined cs)

blocks_from-Sized :
    (size : ℕ) (pending : List ℕ) (cs : List (List ℕ))
    → 1 ≤ size
    → length pending < size
    → Sized size (blocks_from size pending cs)
unfolding blocks_from
blocks_from-Sized size [] [] h k = tt
blocks_from-Sized size (x ∷ pending) [] h k = omega arith
blocks_from-Sized size pending (c ∷ cs) h k =
    let fuel = length (pending ++ c) in
    let left = (split fuel size (pending ++ c)).1 in
    Full-Sized size (split fuel size (pending ++ c)).0 (blocks_from size left cs) h
      (split-Full fuel size (pending ++ c))
      (blocks_from-Sized size left cs h (split_short fuel size (pending ++ c) h (omega arith)))

pub blocks-joined :
    (size : ℕ) (chunks : List (List ℕ)) → joined (blocks size chunks) ≡ joined chunks
blocks-joined size chunks = blocks_from-joined size [] chunks

pub blocks-Sized : (size : ℕ) (chunks : List (List ℕ)) → 1 ≤ size → Sized size (blocks size chunks)
blocks-Sized size chunks h = blocks_from-Sized size [] chunks h (omega arith)
