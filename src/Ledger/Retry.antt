-- ===== src/Ledger/Retry.antt =====
-- Idempotency of `append_event` (src/simplicio_fast/ledger.py): a retry finds the event by its id.
use text.Mathlib.TextEquality.{eq_iff}
use simplicio_fast.Prelude.{
  ℕ, String, ◌≡◌, none, some, List, [], ◌∷◌, ◌⊎◌, arith, strings_equate, pairs_equate, inl, inr, ok,
}
use simplicio_fast.Prelude.Dict.{lookup, lookup-insert}
use simplicio_fast.Prelude.Json.{obj}
use simplicio_fast.Prelude.Json.Equality.{IsDict, json_beq_refl}
use simplicio_fast.Ledger.{
  Event, Request, Ledger, event_id, new_event, admit, enter, reuse, append_event, check_request,
  Call, step, run,
}
use simplicio_fast.Ledger.Cases.{append_cases, step_cases, append_event_ok}

module _ (sha256 : List ℕ → String) where
  append_event_again :
      (r : Request) (l l' : Ledger)
      → IsDict (obj r.metadata)
      → check_request r ≡ ok tt
      → lookup (event_id sha256 r) l'.by_id ≡ some (new_event sha256 r l)
      → append_event sha256 r l' ≡ (ok (new_event sha256 r l), l')
  unfolding append_event enter reuse new_event
  append_event_again r l l' d c h =
      ground (arith, json_beq_refl (obj r.metadata) d, eq_iff r.event_type r.event_type)

  abbrev Holds : String → Event → Ledger → Type 0
  Holds id e l = lookup id l.by_id ≡ some e

  append_event-Holds :
      (id : String) (e : Event) (r : Request) (l : Ledger)
      → Holds id e l
      → Holds id e (append_event sha256 r l).1
  append_event-Holds id e r l h = append_cases sha256 (Holds id e) r l h (λ fresh.
      unfold admit in
      ground (
        arith,
        lookup-insert (event_id sha256 r) id (new_event sha256 r l) l.by_id,
        eq_iff (event_id sha256 r) id,
      ))

  run-Holds :
      (cs : List Call) (l : Ledger) (id : String) (e : Event)
      → Holds id e l
      → Holds id e (run sha256 cs l)
  unfolding run
  run-Holds [] l id e h = h
  run-Holds (c ∷ cs) l id e h =
      run-Holds cs (step sha256 c l) id e
        (step_cases sha256 (Holds id e) c l h (λ _ _ _. h) (append_event-Holds id e))

  admit-Holds :
      (r : Request) (l : Ledger)
      → Holds (event_id sha256 r) (new_event sha256 r l) (admit sha256 r l).1
  unfolding admit
  admit-Holds r l = ground (
    arith,
    lookup-insert (event_id sha256 r) (event_id sha256 r) (new_event sha256 r l) l.by_id,
    eq_iff (event_id sha256 r) (event_id sha256 r),
  )

  -- A request that appended an event gives the same event when it is sent again, whatever calls came
  -- in between, and the second time the ledger does not change. The metadata is a dict, with no key
  -- twice, and the ledger held no event of that id at first.
  pub append_event_retry :
      (r : Request) (l : Ledger) (cs : List Call) {e : Event}
      → IsDict (obj r.metadata)
      → lookup (event_id sha256 r) l.by_id ≡ none
      → (append_event sha256 r l).0 ≡ ok e
      → append_event sha256 r (run sha256 cs (append_event sha256 r l).1)
        ≡ (ok e, run sha256 cs (append_event sha256 r l).1)
  append_event_retry r l cs {e} d new h =
      let (checked, result) = append_event_ok sha256 r l e h in
      let (is_new, same) = admitted r l e new result in
      rw (same, is_new)
        (append_event_again r l _ d checked (
          run-Holds cs (admit sha256 r l).1 (event_id sha256 r) (new_event sha256 r l)
            (admit-Holds r l)))
    where
      admitted :
          (r : Request) (l : Ledger) (e : Event)
          → lookup (event_id sha256 r) l.by_id ≡ none
          → ((lookup (event_id sha256 r) l.by_id ≡ none)
              × (e ≡ new_event sha256 r l)
              × ((append_event sha256 r l).1 ≡ (admit sha256 r l).1))
            ⊎ ((lookup (event_id sha256 r) l.by_id ≡ some e) × ((append_event sha256 r l).1 ≡ l))
          → (e ≡ new_event sha256 r l) × ((append_event sha256 r l).1 ≡ (admit sha256 r l).1)
      admitted r l e new (inl (_, p, q)) = (p, q)
      admitted r l e new (inr (found, _)) = absurd (ground arith)
