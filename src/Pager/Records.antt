-- ===== src/Pager/Records.antt =====
-- `PageKey`, `_Page` and the state of `SemanticPager` of src/simplicio_fast/pager.py.
use text.Mathlib.TextEquality.{eq_iff}
use simplicio_fast.Prelude.{
  ℕ, String, ◌≡◌, ◌↔◌, Bool, true, ◌&&◌, Option, List, arith, Equality, ◌==◌, strings_equate,
  options_equate, same_option_iff,
}
use simplicio_fast.Prelude.Dict.{Dict}

abbrev pub schema : String
schema = "simplicio.fast.semantic-pager/v1"

pub record PageKey : Type 0 where
  pub repository : String
  pub generation : String
  pub overlay : Option String
  pub segment : String
  pub logical_range : String
  pub schema_name : String

abbrev pub key_beq : PageKey → PageKey → Bool
key_beq a b =
    a.repository == b.repository
    && a.generation == b.generation
    && a.overlay == b.overlay
    && a.segment == b.segment
    && a.logical_range == b.logical_range
    && a.schema_name == b.schema_name

pub same_key_iff : (a b : PageKey) → (key_beq a b ≡ true) ↔ (a ≡ b)
same_key_iff a b = (
  λ h. ground (
    arith,
    eq_iff a.repository b.repository,
    eq_iff a.generation b.generation,
    same_option_iff a.overlay b.overlay,
    eq_iff a.segment b.segment,
    eq_iff a.logical_range b.logical_range,
    eq_iff a.schema_name b.schema_name,
  ),
  λ h. ground (
    arith,
    eq_iff a.repository b.repository,
    eq_iff a.generation b.generation,
    same_option_iff a.overlay b.overlay,
    eq_iff a.segment b.segment,
    eq_iff a.logical_range b.logical_range,
    eq_iff a.schema_name b.schema_name,
  ),
)

instance abbrev pub key_eq : Equality PageKey
key_eq = record { same = key_beq; same_iff = same_key_iff }

pub data Error : Type 0 where
  limits_invalid cross_repo_page stale_generation schema_mismatch : Error
  budget_exhausted page_digest_mismatch page_not_resident lease_mismatch : Error
  -- a `TypeError` for what is not bytes, an exception of the loader, a `KeyError`
  not_bytes loader_failed key_error : Error
  -- the model's own: the eviction loop was cut short, which `evict_enough` excludes
  out_of_fuel : Error

pub record Page : Type 0 where
  pub key : PageKey
  -- the field `data`
  pub content : List ℕ
  pub digest : String
  pub last_touch : ℕ
  pub leases : ℕ
  pub invalidated : Bool

pub record Metrics : Type 0 where
  pub hits : ℕ
  pub misses : ℕ
  pub waits : ℕ
  pub evictions : ℕ
  pub invalidations : ℕ
  pub bytes_mapped : ℕ
  pub bytes_touched : ℕ
  pub bytes_copied : ℕ
  pub prefetch_useful : ℕ
  pub prefetch_wasted : ℕ

pub record Pager : Type 0 where
  pub repository : String
  pub generation : String
  pub max_bytes : ℕ
  pub max_pages : ℕ
  pub pages : Dict PageKey Page
  pub flights : List PageKey
  pub clock : ℕ
  pub bytes : ℕ
  pub metrics : Metrics
