-- ===== src/Ledger/Cases.antt =====
-- Case analysis over the methods of `DeliveryLedger` (src/simplicio_fast/ledger.py): what a predicate
-- must satisfy to hold of the ledger after a call.
use simplicio_fast.Prelude.{
  ℕ, String, ◌≡◌, refl, false, none, some, List, strings_equate, pairs_equate, Result, ok, err, not,
  ◌||◌, ◌⊎◌, ◌==◌, Bool-cases, Option-cases, inl, inr, arith,
}
use simplicio_fast.Prelude.Dict.{lookup, insert}
use simplicio_fast.Prelude.Json.{obj}
use simplicio_fast.Prelude.Json.Equality.{json_beq}
use simplicio_fast.Ledger.{
  Event, Error, Request, Ledger, event_id, new_event, admit, enter, reuse, append_event,
  check_request, promote_winner, seal_delivery, promoted_other, Call, appends, promotes, seals,
  step,
}

module _ {κ} (sha256 : List ℕ → String) (P : Ledger → Type κ) where
  reuse_case : (r : Request) (e : Event) (l : Ledger) → P l → P (reuse sha256 r e l).1
  unfolding reuse
  reuse_case r e l h =
      elim (Bool-cases
        (not (e.event_type == r.event_type) || not (json_beq (obj e.metadata) (obj r.metadata)))) [
          | inl p ↦ rw p h
          | inr p ↦ rw p h
        ]

  -- `append_event` leaves the ledger alone, or admits the event of an id that it does not hold.
  pub append_cases :
      (r : Request) (l : Ledger)
      → P l
      → (lookup (event_id sha256 r) l.by_id ≡ none → P (admit sha256 r l).1)
      → P (append_event sha256 r l).1
  unfolding append_event enter
  append_cases r l same fresh = go (check_request r) refl
    where
      go : (c : Result Error Unit) → check_request r ≡ c → P (append_event sha256 r l).1
      go (err e) p = rw (p, append_event) same
      go (ok _) p =
          rw (p, append_event)
            (elim (Option-cases (lookup (event_id sha256 r) l.by_id)) [
              | inl new ↦ rw (new, enter) (fresh new)
              | inr (e, old) ↦ rw (old, enter) (reuse_case r e l same)
            ])

  -- A call leaves the ledger alone, or records a winner that no other candidate holds, or appends.
  pub step_cases :
      (c : Call) (l : Ledger)
      → P l
      → ((key : String × String) (candidate : String)
          → promoted_other (lookup key l.winner) candidate ≡ false
          → P (record l { winner = insert key candidate l.winner }))
      → ((r : Request) (m : Ledger) → P m → P (append_event sha256 r m).1)
      → P (step sha256 c l)
  unfolding step promote_winner seal_delivery
  step_cases (appends r) l same promoted appended = appended r l same
  step_cases (promotes t a c p) l same promoted appended =
      elim (Bool-cases (promoted_other (lookup (t, a) l.winner) c)) [
        | inl e ↦ rw (e, step, promote_winner) same
        | inr e ↦ rw (e, step, promote_winner) (appended _ _ (promoted (t, a) c e))
      ]
  step_cases (seals t a p) l same promoted appended = elim (Option-cases (lookup (t, a) l.winner)) [
    | inl e ↦ rw (e, step, seal_delivery) same
    | inr (w, e) ↦ rw (e, step, seal_delivery) (appended _ l same)
  ]

module _ (sha256 : List ℕ → String) where
  enter_ok :
      (r : Request) (l : Ledger) (e : Event)
      → (enter sha256 r l).0 ≡ ok e
      → ((lookup (event_id sha256 r) l.by_id ≡ none)
          × (e ≡ new_event sha256 r l)
          × ((enter sha256 r l).1 ≡ (admit sha256 r l).1))
        ⊎ ((lookup (event_id sha256 r) l.by_id ≡ some e) × ((enter sha256 r l).1 ≡ l))
  unfolding enter reuse admit
  enter_ok r l e h = ground arith

  -- `append_event` returns the new event, which it admitted, or the event that had the id before.
  pub append_event_ok :
      (r : Request) (l : Ledger) (e : Event)
      → (append_event sha256 r l).0 ≡ ok e
      → (check_request r ≡ ok tt)
        × (((lookup (event_id sha256 r) l.by_id ≡ none)
              × (e ≡ new_event sha256 r l)
              × ((append_event sha256 r l).1 ≡ (admit sha256 r l).1))
            ⊎ ((lookup (event_id sha256 r) l.by_id ≡ some e) × ((append_event sha256 r l).1 ≡ l)))
  unfolding append_event
  append_event_ok r l e h = ground (arith, enter_ok r l e)
