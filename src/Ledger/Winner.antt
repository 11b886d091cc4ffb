-- ===== src/Ledger/Winner.antt =====
-- The winner fence of src/simplicio_fast/ledger.py: `promote_winner` and `seal_delivery`.
use text.Mathlib.TextEquality.{eq_iff}
use simplicio_fast.Prelude.{
  ℕ, String, ◌≡◌, false, none, some, List, [], ◌∷◌, ◌++◌, ◌≢◌, ◌⊎◌, arith, strings_equate,
  pairs_equate, same_pair_iff, Option-cases, inl, inr, ok, err,
}
use simplicio_fast.Prelude.Dict.{lookup, insert, lookup-insert}
use simplicio_fast.Ledger.{
  Event, winner_fence, winner_required, Request, request, Ledger, event_id, new_event, admit,
  append_event, promote_winner, seal_delivery, promoted_other, Call, step, run,
}
use simplicio_fast.Ledger.Cases.{append_cases, step_cases, append_event_ok}

module _ (sha256 : List ℕ → String) where
  abbrev Won : String × String → String → Ledger → Type 0
  Won key w l = lookup key l.winner ≡ some w

  append_event-Won :
      (key : String × String) (w : String) (r : Request) (l : Ledger)
      → Won key w l
      → Won key w (append_event sha256 r l).1
  append_event-Won key w r l h = append_cases sha256 (Won key w) r l h (λ _. unfold admit in h)

  promotion-Won :
      (key : String × String) (w : String) (l : Ledger) (k : String × String) (c : String)
      → Won key w l
      → promoted_other (lookup k l.winner) c ≡ false
      → lookup key (insert k c l.winner) ≡ some w
  unfolding promoted_other
  promotion-Won key w l k c h p =
      ground (arith, lookup-insert k key c l.winner, same_pair_iff k key, eq_iff w c)

  -- A promoted winner stays: after any further calls, the task's attempt has the same winner.
  pub run-winner :
      (cs : List Call) (l : Ledger) (task attempt w : String)
      → lookup (task, attempt) l.winner ≡ some w
      → lookup (task, attempt) (run sha256 cs l).winner ≡ some w
  unfolding run
  run-winner [] l t a w h = h
  run-winner (c ∷ cs) l t a w h = run-winner cs (step sha256 c l) t a w (
      step_cases sha256 (Won (t, a) w) c l h (λ k d p. promotion-Won (t, a) w l k d h p)
        (λ r m. append_event-Won (t, a) w r m))

  -- Another candidate of an attempt that has a winner is refused, and nothing changes.
  pub promote_winner_fenced :
      (l : Ledger) (task attempt w candidate producer : String)
      → lookup (task, attempt) l.winner ≡ some w
      → w ≢ candidate
      → promote_winner sha256 task attempt candidate producer l ≡ (err winner_fence, l)
  unfolding promote_winner promoted_other
  promote_winner_fenced l t a w c p h ne = ground (arith, eq_iff w c)

  seal_delivery_missing :
      (l : Ledger) (t a p : String)
      → lookup (t, a) l.winner ≡ none
      → seal_delivery sha256 t a p l ≡ (err winner_required, l)
  unfolding seal_delivery
  seal_delivery_missing l t a p q = ground arith

  seal_delivery_result :
      (l : Ledger) (t a w p : String) (e : Event)
      → lookup (t, a) l.winner ≡ some w
      → (seal_delivery sha256 t a p l).0 ≡ ok e
      → ((e.candidate_id ≡ some w)
          × (e.event_type ≡ "DELIVERY_SEALED")
          × ((seal_delivery sha256 t a p l).1.events ≡ l.events ++ e ∷ []))
        ⊎ (((seal_delivery sha256 t a p l).1 ≡ l)
            × (lookup (event_id sha256 (request "DELIVERY_SEALED" t a (some w) p)) l.by_id
                ≡ some e))
  unfolding seal_delivery new_event admit
  seal_delivery_result l t a w p e q h =
      ground (arith, append_event_ok sha256 (request "DELIVERY_SEALED" t a (some w) p) l e)

  -- A delivery is sealed only for an attempt with a winner; the event that it returns names the
  -- winner and is the last of the ledger, unless the ledger held an event of that id before.
  pub seal_delivery_winner :
      (l : Ledger) (task attempt producer : String) {e : Event}
      → (seal_delivery sha256 task attempt producer l).0 ≡ ok e
      → (w : String) × (lookup (task, attempt) l.winner ≡ some w)
        × (((e.candidate_id ≡ some w)
              × (e.event_type ≡ "DELIVERY_SEALED")
              × ((seal_delivery sha256 task attempt producer l).1.events ≡ l.events ++ e ∷ []))
            ⊎ ((seal_delivery sha256 task attempt producer l).1 ≡ l
                × (lookup
                      (event_id sha256 (request "DELIVERY_SEALED" task attempt (some w) producer))
                      l.by_id
                    ≡ some e)))
  seal_delivery_winner l t a p {e} h = elim (Option-cases (lookup (t, a) l.winner)) [
    | inl q ↦ absurd (ground (arith, seal_delivery_missing l t a p))
    | inr (w, q) ↦ (w, q, seal_delivery_result l t a w p e q h)
  ]
