-- ===== src/Validation/Selection.antt =====
-- src/simplicio_fast/validation_cache.py: `affected`, the tests of handles that changed.
use text.Mathlib.TextEquality.{eq_iff}
use simplicio_fast.Prelude.{
  ℕ, zero, suc, Bool-cases, inl, inr, returned, followed, String, ◌≡◌, refl, sym, ap, ◌∙◌, Bool,
  true, false, ◌&&◌, ◌||◌, List, [], ◌∷◌, ◌++◌, arith, Result, ok, err, ◌>>=◌, ◌>>◌, raise_if,
  if◌then◌else◌, ltb, leb, length, take, ◌==◌, strings_equate, contains,
}
use simplicio_fast.Prelude.Dict.{Dict}
use simplicio_fast.Prelude.Int.{ℤ, pos, negsuc}
use simplicio_fast.Prelude.Sorting.{sort_by, members}
use simplicio_fast.Validation.Saving.{contains-sorted}
use simplicio_fast.Validation.{
  Error, selection_budget_invalid, changed_handles_invalid, test_mapping_invalid,
  test_values_invalid, check_strings, is_missing, sorted,
}

abbrev pub max_affected_tests : ℕ
max_affected_tests = 100000

pub record Selection : Type 0 where
  pub tests : List String
  pub changed_handles : List String
  pub reason_paths : Dict String (List String)
  pub complete : Bool

abbrev check_budget : ℤ → Result Error ℕ
check_budget (negsuc n) = err selection_budget_invalid
check_budget (pos n) =
    if ltb 0 n && leb n max_affected_tests then ok n else err selection_budget_invalid

abbrev pub check_tests : Dict String (List String) → Result Error Unit
check_tests [] = ok tt
check_tests ((handle, values) ∷ d) = do
  raise_if (is_missing handle) test_mapping_invalid
  check_strings values test_values_invalid
  check_tests d

-- `selected_by_handle`
abbrev pub selected_by : List String → Dict String (List String) → Dict String (List String)
selected_by changed [] = []
selected_by changed ((handle, values) ∷ d) =
    let rest = selected_by changed d in
    if contains handle changed then (handle, sorted (members values)) ∷ rest else rest

abbrev pub all_values : Dict String (List String) → List String
all_values [] = []
all_values ((handle, values) ∷ d) = values ++ all_values d

abbrev handle_of : String × List String → String
handle_of (handle, values) = handle

abbrev pub selection : ℕ → List String → Dict String (List String) → Selection
selection max changed by_handle =
    let selected = sorted (members (all_values by_handle)) in
    record {
      tests = take max selected;
      changed_handles = sorted (members changed);
      reason_paths = sort_by handle_of by_handle;
      complete = leb (length selected) max;
    }

unfoldable pub affected : List String → Dict String (List String) → ℤ → Result Error Selection
affected changed tests max = do
  budget ← check_budget max
  check_strings changed changed_handles_invalid
  check_tests tests
  ok (selection budget changed (selected_by changed tests))

contains-append :
    (t : String) (xs ys : List String) → contains t (xs ++ ys) ≡ (contains t xs || contains t ys)
contains-append t [] ys = refl
contains-append t (x ∷ xs) ys = ground (arith, contains-append t xs ys)

contains-members : (t : String) (xs : List String) → contains t (members xs) ≡ contains t xs
contains-members t [] = refl
contains-members t (x ∷ xs) = elim (Bool-cases (contains x xs)) [
  | inl again ↦ rw again (contains-members t xs ∙ repeated t x xs again)
  | inr new ↦ rw (new, contains-members t xs) refl
]
  where
    repeated :
        (t x : String) (xs : List String)
        → contains x xs ≡ true
        → contains t xs ≡ (t == x || contains t xs)
    repeated t x xs h = elim (Bool-cases (t == x)) [
      | inl same ↦ rw (same, (eq_iff t x).0 same, h) refl
      | inr other ↦ rw other refl
    ]

contains-sorted-members :
    (t : String) (xs : List String) → contains t (sorted (members xs)) ≡ contains t xs
contains-sorted-members t xs = contains-sorted t (members xs) ∙ contains-members t xs

take_all : (n : ℕ) (xs : List String) → leb (length xs) n ≡ true → take n xs ≡ xs
take_all zero [] h = refl
take_all (suc n) [] h = refl
take_all zero (x ∷ xs) h = ground arith
take_all (suc n) (x ∷ xs) h = ap (λ t. x ∷ t) (take_all n xs (ground arith))

-- one of the handles that changed has the test
abbrev pub is_wanted : String → List String → Dict String (List String) → Bool
is_wanted t changed [] = false
is_wanted t changed ((handle, values) ∷ d) =
    contains handle changed && contains t values || is_wanted t changed d

contains-all_values :
    (t : String) (changed : List String) (d : Dict String (List String))
    → contains t (all_values (selected_by changed d)) ≡ is_wanted t changed d
contains-all_values t changed [] = refl
contains-all_values t changed ((handle, values) ∷ d) = elim (Bool-cases (contains handle changed)) [
  | inl hit ↦ rw hit (
      contains-append t (sorted (members values)) (all_values (selected_by changed d))
      ∙ rw (contains-sorted-members t values, contains-all_values t changed d) refl)
  | inr miss ↦ rw miss (contains-all_values t changed d)
]

same_selection : (x y : Selection) → ◌≡◌ {A = Result Error Selection} (ok x) (ok y) → x ≡ y
same_selection x y h = cc

-- Let `affected` return a selection that it calls complete. Then a test is in it exactly when one of the handles
-- that changed lists the test.
pub affected-contains :
    (changed : List String) (tests : Dict String (List String)) (max : ℤ) (s : Selection)
    (t : String)
    → affected changed tests max ≡ ok s
    → s.complete ≡ true
    → contains t s.tests ≡ is_wanted t changed tests
unfolding affected
affected-contains changed tests max s t h whole =
    let (budget, allowed, rest) = returned (check_budget max) _ h in
    let (named, rest2) = followed (check_strings changed changed_handles_invalid) _ rest in
    let (valued, last) = followed (check_tests tests) _ rest2 in
    let same = same_selection (selection budget changed (selected_by changed tests)) s last in
    let all = sorted (members (all_values (selected_by changed tests))) in
    ap (λ x. contains t x.tests) (sym same)
    ∙ ap (contains t) (take_all budget all (ap (λ x. x.complete) same ∙ whole))
    ∙ contains-sorted-members t (all_values (selected_by changed tests))
    ∙ contains-all_values t changed tests
