-- ===== src/Generations/Reads.antt =====
-- `write` and `read` of `GenerationStore` in src/simplicio_fast/generation_store.py: overlays are
-- isolated from each other.
use mathlib.Core.Bool.{false≢true}
use simplicio_fast.Prelude.{
  ◌&&◌, ℕ, String, ◌≡◌, ◌≢◌, ◌⊎◌, refl, sym, ap, ◌∙◌, inl, inr, true, false, Option, some, List,
  Result, ok, err, arith, ◌==◌, beq_self, strings_equate, pairs_equate, if◌then◌else◌, Bool-cases,
  Option-cases, same_pair_iff,
}
use mathlib.Core.Path.{subst}
use text.Mathlib.TextEquality.{eq_iff}
use simplicio_fast.Prelude.Dict.{Dict, lookup, insert, lookup-insert}
use simplicio_fast.Generations.{
  Error, Store, Generation, Key, key, Overlay, overlay_of, has_pin, escapes, write, read,
}

raised : {e : Error} {s s' : Store} → ◌≢◌ {A = Result Error Unit × Store} (err e, s) (ok tt, s')
raised h = cc

-- What a write that returned has done.
write_ok :
    (now : ℕ) (gid slot fence path : String) (bytes : Option (List ℕ)) (s s' : Store)
    → write now gid slot fence path bytes s ≡ (ok tt, s')
    → (has_pin now gid fence s.pins ≡ true)
      × (escapes path ≡ false)
      × (s' ≡ record s {
        overlays =
            insert
              (key gid slot fence)
              (insert path bytes (overlay_of (lookup (key gid slot fence) s.overlays)))
              s.overlays;
      })
unfolding write
write_ok now gid slot fence path bytes s s' h = elim (Bool-cases (has_pin now gid fence s.pins)) [
  | inl live ↦ elim (Bool-cases (escapes path)) [
    | inl out ↦ absurd (raised (rw (live, out) at h))
    | inr inside ↦ let done = rw (live, inside) at h in (live, inside, cc)
  ]
  | inr dead ↦ absurd (raised (rw dead at h))
]

overlay_at_write :
    (k j : Key) (path other : String) (bytes : Option (List ℕ)) (d : Dict Key Overlay)
    → lookup other
        (overlay_of (lookup j (insert k (insert path bytes (overlay_of (lookup k d))) d)))
      ≡ (if k == j
          then (if path == other then some bytes else lookup other (overlay_of (lookup j d)))
          else lookup other (overlay_of (lookup j d)))
overlay_at_write k j path other bytes d = elim (Bool-cases (k == j)) [
  | inl same ↦
      let at_k : k ≡ j = (same_pair_iff k j).0 same in
      rw (lookup-insert k j (insert path bytes (overlay_of (lookup k d))) d, same)
        (lookup-insert path other bytes (overlay_of (lookup k d))
          ∙ ap (λ i. if path == other then some bytes else lookup other (overlay_of (lookup i d)))
              at_k)
  | inr differ ↦ rw (lookup-insert k j (insert path bytes (overlay_of (lookup k d))) d, differ) refl
]

overlay_at_elsewhere :
    (k j : Key) (path other : String) (bytes : Option (List ℕ)) (d : Dict Key Overlay)
    → ◌⊎◌ (k ≢ j) (path ≢ other)
    → lookup other
        (overlay_of (lookup j (insert k (insert path bytes (overlay_of (lookup k d))) d)))
      ≡ lookup other (overlay_of (lookup j d))
overlay_at_elsewhere k j path other bytes d (inl ne) =
    overlay_at_write k j path other bytes d ∙ ground (arith, same_pair_iff k j, ne)
overlay_at_elsewhere k j path other bytes d (inr ne) =
    overlay_at_write k j path other bytes d ∙ ground (arith, eq_iff path other, ne)

-- the store after the write
abbrev written : Key → String → Option (List ℕ) → Store → Store
written k path bytes s = record s {
  overlays = insert k (insert path bytes (overlay_of (lookup k s.overlays))) s.overlays;
}

read-written :
    (gid slot fence path : String) (bytes : Option (List ℕ)) (s : Store) (g : Generation)
    → lookup gid s.generations ≡ some g
    → read gid slot fence path (written (key gid slot fence) path bytes s) ≡ ok bytes
unfolding read
read-written gid slot fence path bytes s g found =
    let k = key gid slot fence in
    let here = overlay_at_write k k path path bytes s.overlays in
    rw (read, found, here, beq_self k, beq_self path) refl

read-written_elsewhere :
    (k : Key) (path gid slot fence other : String) (bytes : Option (List ℕ)) (s : Store)
    → ◌⊎◌ (k ≢ key gid slot fence) (path ≢ other)
    → read gid slot fence other (written k path bytes s) ≡ read gid slot fence other s
unfolding read
read-written_elsewhere k path gid slot fence other bytes s apart =
    elim (Option-cases (lookup gid s.generations)) [
      | inl absent ↦ rw (read, absent) refl
      | inr (g, found) ↦
          rw
            (
              read,
              found,
              overlay_at_elsewhere k (key gid slot fence) path other bytes s.overlays apart,
            )
            refl
    ]

read-written_at :
    (k : Key) (path gid slot fence other : String) (bytes : Option (List ℕ)) (s : Store)
    → (g : Generation) → lookup k.0 s.generations ≡ some g
    → read gid slot fence other (written k path bytes s)
      ≡ (if k == key gid slot fence && path == other then ok bytes else read gid slot fence other s)
read-written_at k path gid slot fence other bytes s g found =
    elim (Bool-cases (k == key gid slot fence)) [
      | inl same ↦ elim (Bool-cases (path == other)) [
        | inl here ↦
            let at_key : k ≡ key gid slot fence = (same_pair_iff k (key gid slot fence)).0 same in
            let at_path : path ≡ other = (eq_iff path other).0 here in
            rw (same, here)
              (subst (λ p. read gid slot fence p (written k path bytes s) ≡ ok bytes) at_path
                (subst (λ j. read gid slot fence path (written j path bytes s) ≡ ok bytes)
                  (sym at_key)
                  (read-written gid slot fence path bytes s g
                    (subst (λ j. lookup j.0 s.generations ≡ some g) at_key found))))
        | inr away ↦
            rw (same, away)
              (read-written_elsewhere k path gid slot fence other bytes s
                (inr (λ e. false≢true (sym away ∙ (eq_iff path other).1 e))))
      ]
      | inr differ ↦ rw differ (
          read-written_elsewhere k path gid slot fence other bytes s
            (inl (λ e. false≢true (sym differ ∙ (same_pair_iff k (key gid slot fence)).1 e))))
    ]

-- After a write that returned, in a generation that exists, a read of the same generation, slot, fence
-- and path gives the bytes written, or `None` where a tombstone was; and every read of another
-- generation, slot or fence, or of another path, gives what it gave before, errors included.
pub write-read :
    (now : ℕ) (gid slot fence path : String) (bytes : Option (List ℕ)) (s s' : Store)
    (g : Generation)
    → (gid' slot' fence' path' : String) → write now gid slot fence path bytes s ≡ (ok tt, s')
    → lookup gid s.generations ≡ some g
    → read gid' slot' fence' path' s' ≡ (
        if key gid slot fence == key gid' slot' fence' && path == path'
        then ok bytes
        else read gid' slot' fence' path' s)
write-read now gid slot fence path bytes s s' g gid' slot' fence' path' h found =
    let (live, inside, done) = write_ok now gid slot fence path bytes s s' h in
    subst
      (λ t. read gid' slot' fence' path' t ≡ (
        if key gid slot fence == key gid' slot' fence' && path == path'
        then ok bytes
        else read gid' slot' fence' path' s))
      (sym done) (read-written_at (key gid slot fence) path gid' slot' fence' path' bytes s g found)
