-- ===== src/Temporal/AsOf.antt =====
-- Sequences of calls of `BitemporalOverlay` in src/simplicio_fast/temporal.py and the answers of
-- `as_of` about worlds before them.
use simplicio_fast.Prelude.{
  ℕ, ◌≤◌, String, ◌≡◌, refl, sym, ap, ◌∙◌, inl, inr, true, Option, none, some, map, ok,
  strings_equate, options_equate, ltb, Bool-cases,
}
use simplicio_fast.Prelude.Sorting.{sort_by, map-sort_by}
use simplicio_fast.Temporal.{Overlay}
use simplicio_fast.Temporal.Query.{collect, is_outside, as_of}
use simplicio_fast.Temporal.Past.{view, views}

-- `o'` answers queries of world `w` as `o` does, and its clock is not before `w`.
pub record SamePast (w : ℕ) (o o' : Overlay) : Type 0 where
  pub collected : map view (collect w true o'.facts) ≡ map view (collect w true o.facts)
  pub base : o'.base_generation ≡ o.base_generation
  pub overlay : o'.overlay_generation ≡ o.overlay_generation
  pub clock : w ≤ o'.world_sequence

is_outside_same :
    (g : Option String) (o o' : Overlay)
    → o'.base_generation ≡ o.base_generation
    → o'.overlay_generation ≡ o.overlay_generation
    → is_outside g o' ≡ is_outside g o
unfolding is_outside
is_outside_same none o o' b v = refl
is_outside_same (some g) o o' b v = rw (b, v) refl

pub SamePast-as_of :
    (w : ℕ) (g : Option String) (o o' : Overlay)
    → SamePast w o o'
    → views (as_of w g true o') ≡ views (as_of w g true o)
unfolding as_of
SamePast-as_of w g o o' p = elim (Bool-cases (ltb w 1)) [
  | inl early ↦ rw early refl
  | inr late ↦ elim (Bool-cases (is_outside g o)) [
    | inl out ↦ rw (late, is_outside_same g o o' p.base p.overlay, out) refl
    | inr inside ↦
        rw (late, is_outside_same g o o' p.base p.overlay, inside)
          (ap ok (
            map-sort_by view (λ x. x.canonical_id) (collect w true o'.facts)
            ∙ ap (sort_by (λ x. x.canonical_id)) p.collected
            ∙ sym (map-sort_by view (λ x. x.canonical_id) (collect w true o.facts))))
  ]
]
