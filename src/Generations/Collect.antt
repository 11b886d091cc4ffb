-- ===== src/Generations/Collect.antt =====
-- `gc` of `GenerationStore` in src/simplicio_fast/generation_store.py: what it removes, and what a pin
-- keeps.
use simplicio_fast.Prelude.{
  ◌<◌, some, Option, ◌≤◌, beq_self, numbers_equate, ℕ, String, ◌≡◌, refl, ap, ◌∙◌, inl, inr, Bool,
  true, false, not, ◌&&◌, ◌||◌, none, List, [], ◌∷◌, err, arith, ◌==◌, strings_equate, pairs_equate,
  if◌then◌else◌, Bool-cases, Option-cases, same_pair_iff, contains, keep,
}
use text.Mathlib.TextEquality.{eq_iff}
use simplicio_fast.Prelude.Dict.{Dict, keys, lookup, lookup-erase}
use simplicio_fast.Prelude.Sorting.{sort_by, insert_by, str_ltb}
use simplicio_fast.Generations.{
  Store, Generation, Key, key, Overlay, is_protected, removable, remove_all, gc, without, read,
  key_error,
}

contains-insert_by :
    (a x : String) (xs : List String)
    → contains a (insert_by (λ d. d) x xs) ≡ (a == x || contains a xs)
contains-insert_by a x [] = refl
contains-insert_by a x (y ∷ ys) = elim (Bool-cases (str_ltb y x)) [
  | inl less ↦ rw (less, contains-insert_by a x ys) (ground arith)
  | inr more ↦ rw more refl
]

contains-sort_by :
    (a : String) (xs : List String) → contains a (sort_by (λ d. d) xs) ≡ contains a xs
unfolding sort_by
contains-sort_by a [] = refl
contains-sort_by a (x ∷ xs) =
    contains-insert_by a x (sort_by (λ d. d) xs) ∙ ap (λ b. a == x || b) (contains-sort_by a xs)

contains-keep :
    (p : String → Bool) (a : String) (xs : List String)
    → contains a (keep p xs) ≡ (p a && contains a xs)
contains-keep p a [] = ground arith
contains-keep p a (x ∷ xs) = ground (arith, eq_iff a x, contains-keep p a xs)

-- A removal takes the listed generations and their overlays, and nothing else.
lookup-remove_all :
    (gid : String) (gids : List String) (s : Store)
    → lookup gid (remove_all gids s).generations
      ≡ (if contains gid gids then none else lookup gid s.generations)
unfolding remove_all
lookup-remove_all gid [] s = refl
lookup-remove_all gid (g ∷ gids) s =
    lookup-remove_all gid gids _
    ∙ ground (arith, lookup-erase g gid s.generations, eq_iff g gid, eq_iff gid g)

lookup-without :
    (gid : String) (k : Key) (d : Dict Key Overlay)
    → lookup k (without gid d) ≡ (if k.0 == gid then none else lookup k d)
lookup-without gid k [] = ground arith
lookup-without gid k ((j, o) ∷ d) =
    ground (arith, same_pair_iff j k, eq_iff j.0 gid, eq_iff k.0 gid, lookup-without gid k d)

overlays-remove_all :
    (k : Key) (gids : List String) (s : Store)
    → lookup k (remove_all gids s).overlays
      ≡ (if contains k.0 gids then none else lookup k s.overlays)
unfolding remove_all
overlays-remove_all k [] s = refl
overlays-remove_all k (g ∷ gids) s =
    overlays-remove_all k gids _ ∙ ground (arith, lookup-without g k s.overlays)

lookup_absent :
    (gid : String) (d : Dict String Generation)
    → contains gid (keys d) ≡ false
    → lookup gid d ≡ none
lookup_absent gid [] h = refl
lookup_absent gid ((j, g) ∷ d) h = ground (arith, eq_iff j gid, eq_iff gid j, lookup_absent gid d)

contains-removable :
    (now : ℕ) (gid : String) (s : Store)
    → contains gid (removable now s)
      ≡ (not (is_protected now s.pins gid) && contains gid (keys s.generations))
unfolding removable
contains-removable now gid s =
    contains-sort_by gid _
    ∙ contains-keep (λ g. not (is_protected now s.pins g)) gid (keys s.generations)

read_absent :
    (gid slot fence path : String) (s : Store)
    → lookup gid s.generations ≡ none
    → read gid slot fence path s ≡ err key_error
unfolding read
read_absent gid slot fence path s absent = rw (read, absent) refl

-- Where a collection leaves a generation, reads of it are unchanged; elsewhere they find none.
read-remove_all :
    (gid slot fence path : String) (gids : List String) (s : Store)
    → read gid slot fence path (remove_all gids s)
      ≡ (if contains gid gids then err key_error else read gid slot fence path s)
unfolding read
read-remove_all gid slot fence path gids s = elim (Bool-cases (contains gid gids)) [
  | inl gone ↦ rw (gone, read, lookup-remove_all gid gids s, gone) refl
  | inr stays ↦
      let left = lookup-remove_all gid gids s in
      let left = rw stays at left in
      let kept = overlays-remove_all (key gid slot fence) gids s in
      let kept = rw stays at kept in
      elim (Option-cases (lookup gid s.generations)) [
        | inl absent ↦ rw (stays, read, left, absent) refl
        | inr (g, found) ↦ rw (stays, read, left, found, kept) refl
      ]
]

gc-read_if :
    (now : ℕ) (gid slot fence path : String) (s : Store)
    → read gid slot fence path (gc now false s).1
      ≡ (if is_protected now s.pins gid then read gid slot fence path s else err key_error)
unfolding gc
gc-read_if now gid slot fence path s =
    read-remove_all gid slot fence path (removable now s) s
    ∙ rw (contains-removable now gid s) (elim (Bool-cases (is_protected now s.pins gid)) [
      | inl live ↦ rw live refl
      | inr over ↦ elim (Bool-cases (contains gid (keys s.generations))) [
        | inl there ↦ rw (over, there) refl
        | inr missing ↦
            rw (over, missing)
              (read_absent gid slot fence path s (lookup_absent gid s.generations missing))
      ]
    ])

-- a pin, under its own key
pinned_protects :
    (now until : ℕ) (k : Key) (pins : Dict Key ℕ)
    → lookup k pins ≡ some until
    → now < until
    → is_protected now pins k.0 ≡ true
unfolding is_protected
pinned_protects now until k [] h l = cc
pinned_protects now until k ((j, t) ∷ pins) h l = elim (Bool-cases (j == k)) [
  | inl same ↦
      let at_k : j ≡ k = (same_pair_iff j k).0 same in
      let at_until : ◌≡◌ {A = Option ℕ} (some t) (some until) = rw same at h in
      rw (at_k, beq_self k.0) (ground (arith, at_until, l))
  | inr differ ↦ ground (arith, pinned_protects now until k pins (rw differ at h) l)
]

-- every pin of the generation is over
abbrev pub AllOver : ℕ → String → Dict Key ℕ → Type 0
AllOver now gid [] = Unit
AllOver now gid ((k, until) ∷ pins) = (k.0 ≡ gid → until ≤ now) × AllOver now gid pins

over_unprotects :
    (now : ℕ) (gid : String) (pins : Dict Key ℕ)
    → AllOver now gid pins
    → is_protected now pins gid ≡ false
unfolding is_protected
over_unprotects now gid [] h = refl
over_unprotects now gid ((k, until) ∷ pins) h =
    ground (arith, eq_iff k.0 gid, h.0, over_unprotects now gid pins h.1)

-- After a collection that is no dry run, a read of a generation with a pin that is not over, in any
-- slot, fence and path, gives what it gave before.
pub gc-read :
    (now : ℕ) (gid slot fence path attempt taken : String) (until : ℕ) (s : Store)
    → lookup (key gid attempt taken) s.pins ≡ some until
    → now < until
    → read gid slot fence path (gc now false s).1 ≡ read gid slot fence path s
gc-read now gid slot fence path attempt taken until s h l =
    gc-read_if now gid slot fence path s
    ∙ rw (pinned_protects now until (key gid attempt taken) s.pins h l) refl

-- After a collection that is no dry run, a read of a generation whose pins are all over raises a
-- `KeyError`.
pub gc-over :
    (now : ℕ) (gid slot fence path : String) (s : Store)
    → AllOver now gid s.pins
    → read gid slot fence path (gc now false s).1 ≡ err key_error
gc-over now gid slot fence path s h =
    gc-read_if now gid slot fence path s ∙ rw (over_unprotects now gid s.pins h) refl
