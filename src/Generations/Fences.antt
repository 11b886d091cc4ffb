-- ===== src/Generations/Fences.antt =====
-- Sequences of calls of `GenerationStore` in src/simplicio_fast/generation_store.py: a fence that an
-- attempt has taken keeps the other fences off, and a generation stands under its own digest.
use simplicio_fast.Prelude.{
  ℕ, String, ◌≡◌, ◌≢◌, refl, sym, ap, inl, inr, Bool, true, false, Option, none, some, List, [],
  ◌∷◌, err, arith, ◌==◌, strings_equate, pairs_equate, if◌then◌else◌, Bool-cases, Option-cases, same_pair_iff,
}
use text.Mathlib.TextEquality.{eq_iff}
use simplicio_fast.Prelude.Dict.{Dict, lookup, insert, lookup-insert, has}
use simplicio_fast.Generations.{
  fence_stale, generation_missing, Files, Store, Generation, is_fenced, pin, create, is_corrupt, candidate, write,
  tombstone, gc, remove_all, removable, has_pin, escapes,
}

pub data Call : Type 0 where
  creates : (repo commit config parser : String) → Files → Call
  pins : ℕ → (gid attempt fence : String) → ℕ → Call
  writes : ℕ → (gid slot fence path : String) → Option (List ℕ) → Call
  tombstones : ℕ → (gid slot fence path : String) → Call
  collects : ℕ → Bool → Call

module _ (sha256 : List ℕ → String) where
  unfoldable pub step : Call → Store → Store
  unfolding create pin write tombstone gc
  step (creates repo commit config parser files) s =
      (create sha256 repo commit config parser files s).1
  step (pins now gid attempt fence ttl) s = (pin now gid attempt fence ttl s).1
  step (writes now gid slot fence path bytes) s = (write now gid slot fence path bytes s).1
  step (tombstones now gid slot fence path) s = (tombstone now gid slot fence path s).1
  step (collects now dry_run) s = (gc now dry_run s).1

  unfoldable pub run : List Call → Store → Store
  unfolding step
  run [] s = s
  run (c ∷ cs) s = run cs (step c s)

-- the stored fence of an attempt
abbrev Fenced : String → String → String → Store → Type 0
Fenced gid attempt fence s = lookup (gid, attempt) s.fences ≡ some fence

remove_all_fences : (gids : List String) (s : Store) → (remove_all gids s).fences ≡ s.fences
unfolding remove_all
remove_all_fences [] s = refl
remove_all_fences (gid ∷ gids) s = remove_all_fences gids _

is_fenced_other :
    (current fence : String)
    → current ≢ ""
    → is_fenced (some current) fence ≡ false
    → current ≡ fence
unfolding is_fenced
is_fenced_other current fence ne h = ground (arith, eq_iff current "", eq_iff current fence, ne)

write_fences :
    (now : ℕ) (gid slot fence path : String) (bytes : Option (List ℕ)) (s : Store)
    → (write now gid slot fence path bytes s).1.fences ≡ s.fences
unfolding write
write_fences now gid slot fence path bytes s = elim (Bool-cases (has_pin now gid fence s.pins)) [
  | inl live ↦ elim (Bool-cases (escapes path)) [
    | inl out ↦ rw (live, out) refl
    | inr inside ↦ rw (live, inside) refl
  ]
  | inr dead ↦ rw dead refl
]

kept :
    (p q : String × String) (fence held : String) (d : Dict (String × String) String)
    → held ≢ ""
    → lookup q d ≡ some held
    → is_fenced (lookup p d) fence ≡ false
    → lookup q (insert p fence d) ≡ some held
kept p q fence held d ne h free = elim (Bool-cases (p == q)) [
  | inl same ↦
      let keys_agree : p ≡ q = (same_pair_iff p q).0 same in
      let free' : is_fenced (some held) fence ≡ false = rw (keys_agree, h) at free in
      rw (lookup-insert p q fence d, same) (ap some (sym (is_fenced_other held fence ne free')))
  | inr differ ↦ rw (lookup-insert p q fence d, differ) h
]

pin-Fenced :
    (now : ℕ) (gid attempt fence : String) (ttl : ℕ) (s : Store) (id a held : String)
    → held ≢ ""
    → Fenced id a held s
    → Fenced id a held (pin now gid attempt fence ttl s).1
unfolding pin
pin-Fenced now gid attempt fence ttl s id a held ne h =
    elim (Option-cases (lookup gid s.generations)) [
      | inl absent ↦ rw (pin, absent) h
      | inr (g, found) ↦ elim (Bool-cases (is_fenced (lookup (gid, attempt) s.fences) fence)) [
        | inl stale ↦ rw (pin, found, stale) h
        | inr free ↦
            rw (pin, found, free) (kept (gid, attempt) (id, a) fence held s.fences ne h free)
      ]
    ]

module _ (sha256 : List ℕ → String) where
  create_fences :
      (repo commit config parser : String) (files : Files) (s : Store)
      → (create sha256 repo commit config parser files s).1.fences ≡ s.fences
  unfolding create
  create_fences repo commit config parser files s =
      let c = candidate sha256 repo commit config parser files in
      elim (Bool-cases (is_corrupt (lookup c.id s.generations) c)) [
        | inl bad ↦ rw (create, bad) refl
        | inr good ↦ rw (create, good) refl
      ]

  step-Fenced :
      (c : Call) (s : Store) (id a held : String)
      → held ≢ ""
      → Fenced id a held s
      → Fenced id a held (step sha256 c s)
  unfolding step tombstone gc
  step-Fenced (creates repo commit config parser files) s id a held ne h =
      rw (create_fences repo commit config parser files s) h
  step-Fenced (pins now gid attempt fence ttl) s id a held ne h =
      pin-Fenced now gid attempt fence ttl s id a held ne h
  step-Fenced (writes now gid slot fence path bytes) s id a held ne h =
      rw (write_fences now gid slot fence path bytes s) h
  step-Fenced (tombstones now gid slot fence path) s id a held ne h =
      rw (write_fences now gid slot fence path none s) h
  step-Fenced (collects now true) s id a held ne h = h
  step-Fenced (collects now false) s id a held ne h = rw (remove_all_fences (removable now s) s) h

  run-Fenced :
      (cs : List Call) (s : Store) (id a held : String)
      → held ≢ ""
      → Fenced id a held s
      → Fenced id a held (run sha256 cs s)
  unfolding run
  run-Fenced [] s id a held ne h = h
  run-Fenced (c ∷ cs) s id a held ne h =
      run-Fenced cs (step sha256 c s) id a held ne (step-Fenced c s id a held ne h)

  -- Once an attempt on a generation has a fence that is not empty, then after any sequence of calls of
  -- the store that fence still stands, and a pin with another fence for the attempt changes nothing and
  -- raises: `fence_stale` if the store has the generation then, and `generation_missing` if it does not.
  pub run-pin :
      (cs : List Call) (s : Store) (gid attempt held fence : String) (now ttl : ℕ)
      → held ≢ ""
      → held ≢ fence
      → lookup (gid, attempt) s.fences ≡ some held
      → (lookup (gid, attempt) (run sha256 cs s).fences ≡ some held)
        × (pin now gid attempt fence ttl (run sha256 cs s)
          ≡ (
            err (if has gid (run sha256 cs s).generations then fence_stale else generation_missing),
            run sha256 cs s,
          ))
  unfolding pin is_fenced
  run-pin cs s gid attempt held fence now ttl some_fence other h =
      let still = run-Fenced cs s gid attempt held some_fence h in
      let stale : is_fenced (some held) fence ≡ true =
        ground (arith, eq_iff held "", eq_iff held fence, some_fence, other) in
      (
        still,
        elim (Option-cases (lookup gid (run sha256 cs s).generations)) [
          | inl gone ↦ rw (pin, gone, has) refl
          | inr (g, exists) ↦ rw (pin, exists, has, still, stale) refl
        ],
      )
