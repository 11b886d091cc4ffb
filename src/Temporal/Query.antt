-- ===== src/Temporal/Query.antt =====
-- The queries of `BitemporalOverlay` in src/simplicio_fast/temporal.py: `as_of` and `verify`.
use simplicio_fast.Prelude.{
  ℕ, ◌+◌, String, Bool, true, false, not, ◌&&◌, ◌||◌, Option, none, some, List, [], ◌∷◌, ◌++◌,
  Result, ok, err, ◌==◌, numbers_equate, strings_equate, options_equate, nat_beq, ltb, leb,
  if◌then◌else◌, length, get_last?, keep,
}
use simplicio_fast.Prelude.Dict.{Dict}
use simplicio_fast.Prelude.Sorting.{sort_by, members}
use simplicio_fast.Temporal.{
  Error, invalid_as_of, stale_generation, Fact, digest, Versions, versions, Overlay, current,
}

-- `fact.valid_to is None or world_sequence < fact.valid_to`
abbrev pub lasts : Option ℕ → ℕ → Bool
lasts none w = true
lasts (some t) w = ltb w t

unfoldable pub is_candidate : ℕ → Bool → Fact → Bool
is_candidate w include_tombstones f =
    leb f.valid_from w
    && lasts f.valid_to w
    && (include_tombstones || not (f.state == "tombstoned"))

abbrev pub candidates : ℕ → Bool → Versions → List Fact
candidates w include_tombstones v = keep (is_candidate w include_tombstones) (versions v)

abbrev pub push : Option Fact → List Fact → List Fact
push none fs = fs
push (some f) fs = f ∷ fs

-- the loop of `as_of` over the values of `_facts`
unfoldable pub collect : ℕ → Bool → Dict String Versions → List Fact
unfolding is_candidate
collect w include_tombstones [] = []
collect w include_tombstones ((id, v) ∷ d) =
    push (get_last? (candidates w include_tombstones v)) (collect w include_tombstones d)

unfoldable pub is_outside : Option String → Overlay → Bool
is_outside none o = false
is_outside (some g) o = not (g == o.base_generation) && not (some g == o.overlay_generation)

unfoldable pub as_of : ℕ → Option String → Bool → Overlay → Result Error (List Fact)
unfolding is_outside collect
as_of w generation include_tombstones o =
    if ltb w 1
    then err invalid_as_of
    else if is_outside generation o
    then err stale_generation
    else ok (sort_by (λ f. f.canonical_id) (collect w include_tombstones o.facts))

abbrev pub flag : Bool → String → List String
flag bad d = if bad then d ∷ [] else []

abbrev pub ends_early : Option ℕ → ℕ → Bool
ends_early none from = false
ends_early (some to) from = leb to from

abbrev pub differs : Option ℕ → ℕ → Bool
differs none from = false
differs (some to) from = not (nat_beq to from)

abbrev is_active : Option Fact → Bool
is_active none = false
is_active (some f) = f.state == "active"

unfoldable pub count_active : Overlay → Dict String Versions → ℕ
count_active o [] = 0
count_active o ((id, v) ∷ d) =
    (if is_active (current v.latest.canonical_id o) then 1 else 0) + count_active o d

unfoldable pub count_facts : Dict String Versions → ℕ
count_facts [] = 0
count_facts ((id, v) ∷ d) = length (versions v) + count_facts d

-- what `verify` reports, less the overlay's own names
pub record Report : Type 0 where
  pub valid : Bool
  pub facts : ℕ
  pub active : ℕ
  pub invalid_digests : List String

module _ (sha256 : List ℕ → String) where
  -- the tests of a fact against the one before it
  unfoldable pub check_link : Option Fact → Fact → List String
  check_link none f = []
  check_link (some p) f =
      flag (differs p.valid_to f.valid_from) (digest sha256 f)
      ++ flag (not (f.predecessor == some (digest sha256 p))) (digest sha256 f)

  unfoldable pub check_fact : String → String → Option Fact → Fact → List String
  unfolding check_link
  check_fact id repository previous f =
      flag (not (f.canonical_id == id) || not (f.repository == repository)) (digest sha256 f)
      ++ (flag (ends_early f.valid_to f.valid_from) (digest sha256 f) ++ check_link previous f)

  unfoldable pub check_versions : String → String → Option Fact → List Fact → List String
  unfolding check_fact
  check_versions id repository previous [] = []
  check_versions id repository previous (f ∷ fs) =
      check_fact id repository previous f ++ check_versions id repository (some f) fs

  unfoldable pub check_facts : String → Dict String Versions → List String
  unfolding check_versions
  check_facts repository [] = []
  check_facts repository ((id, v) ∷ d) =
      check_versions id repository none (versions v) ++ check_facts repository d

  -- The program also tests each digest against the hash it is computed as, which never differs.
  unfoldable pub verify : Overlay → Report
  unfolding check_facts count_active count_facts
  verify o =
      let invalid = check_facts o.repository o.facts in
      record {
        valid = nat_beq (length invalid) 0;
        facts = count_facts o.facts;
        active = count_active o o.facts;
        invalid_digests = sort_by (λ d. d) (members invalid);
      }
