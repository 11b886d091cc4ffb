-- ===== src/Ledger/History.antt =====
-- What holds of a `DeliveryLedger` of src/simplicio_fast/ledger.py after any sequence of calls.
use mathlib.Core.List.{append-nil, append_assoc}
use text.Mathlib.TextEquality.{eq_iff}
use simplicio_fast.Prelude.{
  ℕ, String, ◌≡◌, refl, sym, ap, ◌∙◌, true, none, some, List, [], ◌∷◌, ◌++◌, arith, strings_equate,
  pairs_equate, numbers_equate, ok, All, All-append, All-imp,
}
use simplicio_fast.Prelude.Dict.{lookup, lookup-insert}
use simplicio_fast.Prelude.Digests.{zero_hash}
use simplicio_fast.Ledger.{
  Event, Request, Ledger, material, head_hash, event_hash, event_id, init, new_event, admit,
  append_event, verify_all, Call, step, run,
}
use simplicio_fast.Ledger.Cases.{append_cases, step_cases}
use simplicio_fast.Ledger.Chain.{Chained, Chained-append, last_hash, Chained-verify_all}

-- the hash before the first event is the zero hash
head_hash-eq-last_hash :
    (sha256 : List ℕ → String) (es : List Event) → head_hash es ≡ last_hash sha256 zero_hash es
unfolding head_hash
head_hash-eq-last_hash sha256 [] = refl
head_hash-eq-last_hash sha256 (e ∷ []) = refl
head_hash-eq-last_hash sha256 (e ∷ f ∷ es) = head_hash-eq-last_hash sha256 (f ∷ es)

module _ (sha256 : List ℕ → String) where
  -- The events form a chain, `by_id` finds each of them, and they belong to the ledger's repository.
  pub record Inv (l : Ledger) : Type 0 where
    pub chained : Chained sha256 0 zero_hash l.events
    pub indexed : All (λ e. lookup e.event_id l.by_id ≡ some e) l.events
    pub owned : All (λ e. e.repository ≡ l.repository) l.events

  -- the hash of an event does not cover the hash
  new_event_hash :
      (r : Request) (l : Ledger)
      → (new_event sha256 r l).event_hash ≡ event_hash sha256 (material (new_event sha256 r l))
  unfolding new_event material
  new_event_hash r l = refl

  admit-indexed :
      (r : Request) (l : Ledger)
      → lookup (event_id sha256 r) l.by_id ≡ none
      → All (λ e. lookup e.event_id l.by_id ≡ some e) l.events
      → All (λ e. lookup e.event_id (admit sha256 r l).1.by_id ≡ some e) (admit sha256 r l).1.events
  unfolding admit new_event
  admit-indexed r l fresh h =
      let id = event_id sha256 r in
      let e = new_event sha256 r l in
      All-append _ l.events (e ∷ [])
        (All-imp _ _ l.events
          (λ x k. ground (arith, lookup-insert id x.event_id e l.by_id, eq_iff id x.event_id)) h)
        (ground (arith, lookup-insert id id e l.by_id, eq_iff id id), tt)

  admit-Inv :
      (r : Request) (l : Ledger)
      → lookup (event_id sha256 r) l.by_id ≡ none
      → Inv l
      → Inv (admit sha256 r l).1
  unfolding admit new_event
  admit-Inv r l fresh v = record {
    chained =
        Chained-append sha256 0 zero_hash l.events (new_event sha256 r l) v.chained (omega arith)
          (head_hash-eq-last_hash sha256 l.events) (new_event_hash r l);
    indexed = admit-indexed r l fresh v.indexed;
    owned = All-append _ l.events (new_event sha256 r l ∷ []) v.owned (refl, tt);
  }

  append_event-Inv : (r : Request) (l : Ledger) → Inv l → Inv (append_event sha256 r l).1
  append_event-Inv r l v = append_cases sha256 Inv r l v (λ fresh. admit-Inv r l fresh v)

  -- Every call, whether it returns or raises, keeps the chain, the index and the repository.
  pub step-Inv : (c : Call) (l : Ledger) → Inv l → Inv (step sha256 c l)
  step-Inv c l v =
      step_cases sha256 Inv c l v
        (λ _ _ _. record { chained = v.chained; indexed = v.indexed; owned = v.owned })
        append_event-Inv

  run-Inv : (cs : List Call) (l : Ledger) → Inv l → Inv (run sha256 cs l)
  unfolding run
  run-Inv [] l v = v
  run-Inv (c ∷ cs) l v = run-Inv cs (step sha256 c l) (step-Inv c l v)

  init-Inv : (repository : String) (l : Ledger) → init repository ≡ ok l → Inv l
  unfolding init
  init-Inv repository l h = ground arith

  -- After any calls on a new ledger `verify_all` reports "valid", names no sequence, and its head is
  -- the hash of the last event, or the zero hash if there is none.
  pub run-verify_all :
      (repository : String) {l : Ledger} (cs : List Call)
      → init repository ≡ ok l
      → ((verify_all sha256 (run sha256 cs l)).valid ≡ true)
        × ((verify_all sha256 (run sha256 cs l)).invalid_sequences ≡ [])
        × ((verify_all sha256 (run sha256 cs l)).head ≡ head_hash (run sha256 cs l).events)
  run-verify_all repository {l} cs h =
      rw (head_hash-eq-last_hash sha256 (run sha256 cs l).events) (
        Chained-verify_all sha256 (run sha256 cs l)
          (run-Inv cs l (init-Inv repository l h)).chained)

  abbrev Extends : Ledger → Ledger → Type 0
  Extends l l' = (added : List Event) × (l'.events ≡ l.events ++ added)

  admit-Extends :
      (start : Ledger) (r : Request) (l : Ledger)
      → Extends start l
      → Extends start (admit sha256 r l).1
  unfolding admit
  admit-Extends start r l (xs, p) = (
    xs ++ new_event sha256 r l ∷ [],
    ap (λ es. es ++ new_event sha256 r l ∷ []) p ∙ append_assoc start.events xs _,
  )

  step-Extends : (c : Call) (l : Ledger) → Extends l (step sha256 c l)
  step-Extends c l =
      let same : Extends l l = ([], sym (append-nil l.events)) in
      step_cases sha256 (Extends l) c l same (λ _ _ _. same)
        (λ r m h. append_cases sha256 (Extends l) r m h (λ _. admit-Extends l r m h))

  -- No call rewrites or drops an event: after any calls the old events stand first.
  pub run-Extends : (cs : List Call) (l : Ledger) → Extends l (run sha256 cs l)
  unfolding run
  run-Extends [] l = ([], sym (append-nil l.events))
  run-Extends (c ∷ cs) l =
      let (xs, p) = step-Extends c l in
      let (ys, q) = run-Extends cs (step sha256 c l) in
      (xs ++ ys, q ∙ (ap (λ es. es ++ ys) p ∙ append_assoc l.events xs ys))
