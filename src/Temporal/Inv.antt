-- ===== src/Temporal/Inv.antt =====
-- The invariant of `BitemporalOverlay` in src/simplicio_fast/temporal.py: under each identity a chain
-- of versions, each closed when the next one starts and hashed into it, the last one open.
use simplicio_fast.Prelude.{
  ℕ, ◌≤◌, ◌<◌, String, ◌≡◌, sym, ap, ◌∙◌, inl, inr, Option, none, some, List, [], ◌∷◌, ◌++◌, arith,
  ◌==◌, strings_equate, options_equate, Bool-cases, All, All-append,
}
use mathlib.Core.Path.{subst}
use text.Mathlib.TextEquality.{eq_iff}
use simplicio_fast.Prelude.Dict.{Dict, lookup, insert, Distinct}
use simplicio_fast.Temporal.{Fact, digest, Versions, versions, Overlay}

abbrev pub Ordered : Option ℕ → ℕ → Type 0
Ordered none from = Unit
Ordered (some to) from = from < to

-- A version stands under its identity, in its repository, and ends after it starts.
abbrev pub Sound : String → String → Fact → Type 0
Sound id repository f =
    (f.canonical_id ≡ id) × (f.repository ≡ repository) × Ordered f.valid_to f.valid_from

module _ (sha256 : List ℕ → String) where
  -- The version before ends where this one starts, and this one carries its digest.
  abbrev pub Linked : Option Fact → Fact → Type 0
  Linked none f = Unit
  Linked (some p) f = (p.valid_to ≡ some f.valid_from) × (f.predecessor ≡ some (digest sha256 p))

  abbrev pub Chain : Option Fact → List Fact → Type 0
  Chain p [] = Unit
  Chain p (f ∷ fs) = Linked p f × Chain (some f) fs

  abbrev pub WellVersioned : String → String → ℕ → Versions → Type 0
  WellVersioned id repository clock v =
      All (Sound id repository) (versions v)
      × Chain none (versions v)
      × (v.latest.valid_to ≡ none)
      × (v.latest.valid_from ≤ clock)

  abbrev pub Entries : String → ℕ → Dict String Versions → Type 0
  Entries repository clock [] = Unit
  Entries repository clock ((id, v) ∷ d) =
      WellVersioned id repository clock v × Entries repository clock d

  pub record Inv (o : Overlay) : Type 0 where
    pub distinct : Distinct o.facts
    pub entries : Entries o.repository o.world_sequence o.facts

  pub lookup-Entries :
      (repository : String) (clock : ℕ) (id : String) (v : Versions) (d : Dict String Versions)
      → Entries repository clock d
      → lookup id d ≡ some v
      → WellVersioned id repository clock v
  lookup-Entries repository clock id v [] h e = absurd (ground arith)
  lookup-Entries repository clock id v ((j, w) ∷ d) h e = elim (Bool-cases (j == id)) [
    | inl same ↦
        let here : some w ≡ some v = rw same at e in
        let at_v : w ≡ v = cc in
        subst (λ u. WellVersioned id repository clock u) at_v
          (subst (λ i. WellVersioned i repository clock w) ((eq_iff j id).0 same) h.0)
    | inr differ ↦ lookup-Entries repository clock id v d h.1 (rw differ at e)
  ]

  pub Entries-advance :
      (repository : String) (clock clock' : ℕ) (d : Dict String Versions)
      → clock ≤ clock'
      → Entries repository clock d
      → Entries repository clock' d
  Entries-advance repository clock clock' [] le h = tt
  Entries-advance repository clock clock' ((j, w) ∷ d) le h = (
    (h.0.0, h.0.1, h.0.2, omega (arith, h.0.3, le)),
    Entries-advance repository clock clock' d le h.1,
  )

  pub insert-Entries :
      (repository : String) (clock : ℕ) (id : String) (v : Versions) (d : Dict String Versions)
      → WellVersioned id repository clock v
      → Entries repository clock d
      → Entries repository clock (insert id v d)
  insert-Entries repository clock id v [] w h = (w, tt)
  insert-Entries repository clock id v ((j, u) ∷ d) w h = elim (Bool-cases (j == id)) [
    | inl same ↦
        let at_j : id ≡ j = sym ((eq_iff j id).0 same) in
        rw same (subst (λ i. WellVersioned i repository clock v) at_j w, h.1)
    | inr differ ↦ rw differ (h.0, insert-Entries repository clock id v d w h.1)
  ]

  -- The last version may be replaced by one that hangs on the same, and followed by one that hangs
  -- on it.
  Chain-push :
      (p : Option Fact) (fs : List Fact) (l l' f : Fact)
      → Chain p (fs ++ l ∷ [])
      → l'.valid_from ≡ l.valid_from
      → l'.predecessor ≡ l.predecessor
      → Linked (some l') f
      → Chain p ((fs ++ l' ∷ []) ++ f ∷ [])
  Chain-push none [] l l' f h from before link = (tt, (link, tt))
  Chain-push (some q) [] l l' f h from before link = ((rw from h.0.0, rw before h.0.1), (link, tt))
  Chain-push p (x ∷ fs) l l' f h from before link =
      (h.0, Chain-push (some x) fs l l' f h.1 from before link)

  All-init : (P : Fact → Type 0) (fs : List Fact) (l : Fact) → All P (fs ++ l ∷ []) → All P fs × P l
  All-init P [] l h = (tt, h.0)
  All-init P (x ∷ fs) l h = let rest = All-init P fs l h.1 in ((h.0, rest.0), rest.1)

  pub supersede-WellVersioned :
      (id repository : String) (clock world : ℕ) (v : Versions) (l' f : Fact)
      → WellVersioned id repository clock v
      → v.latest.valid_from < world
      → l'.canonical_id ≡ v.latest.canonical_id
      → l'.repository ≡ v.latest.repository
      → l'.valid_from ≡ v.latest.valid_from
      → l'.predecessor ≡ v.latest.predecessor
      → l'.valid_to ≡ some world
      → Sound id repository f
      → f.valid_from ≡ world
      → f.valid_to ≡ none
      → f.predecessor ≡ some (digest sha256 l')
      → WellVersioned id repository world (record { older = v.older ++ l' ∷ []; latest = f })
  supersede-WellVersioned id repository clock world v l' f h lt name place from before to s at o p =
      let both = All-init (Sound id repository) v.older v.latest h.0 in
      let s' : Sound id repository l' = (name ∙ both.1.0, place ∙ both.1.1, rw to (rw from lt)) in
      (
        All-append (Sound id repository) (v.older ++ l' ∷ []) (f ∷ [])
            (All-append (Sound id repository) v.older (l' ∷ []) both.0 (s', tt)) (s, tt),
        Chain-push none v.older v.latest l' f h.1 from before (to ∙ ap some (sym at), p),
        o,
        omega (arith, at),
      )
