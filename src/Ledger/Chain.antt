-- ===== src/Ledger/Chain.antt =====
-- `verify_all` and `verify_incremental` of src/simplicio_fast/ledger.py against the chain that they
-- look for: every event carries its position, the hash of the event before it, and its own hash.
use simplicio_fast.Prelude.{
  ℕ, zero, suc, ◌+◌, String, ◌≡◌, refl, ◌↔◌, true, false, some, List, [], ◌∷◌, ◌++◌, arith,
  strings_equate, nat_beq, length, get_elem?, contains, numbers_equate, ◌≢◌,
}
use native.Mathlib.Nat.{zero-add}
use text.Mathlib.TextEquality.{eq_iff}
use simplicio_fast.Prelude.Digests.{zero_hash}
use simplicio_fast.Ledger.{Event, Ledger, material, event_hash, is_linked, verify_from, verify_all}

nil_of_length : (xs : List ℕ) → nat_beq (length xs) 0 ≡ true → xs ≡ []
nil_of_length [] h = refl
nil_of_length (x ∷ xs) h = ground arith

length_of_contains : (i : ℕ) (xs : List ℕ) → contains i xs ≡ true → nat_beq (length xs) 0 ≡ false
length_of_contains i [] h = cc
length_of_contains i (x ∷ xs) h = ground arith

module _ (sha256 : List ℕ → String) where
  -- The events from position `n` on hang on the hash `previous`.
  abbrev pub Chained : ℕ → String → List Event → Type 0
  Chained n previous [] = Unit
  Chained n previous (e ∷ es) =
      (e.sequence ≡ n)
      × (e.prev_event_hash ≡ previous)
      × (e.event_hash ≡ event_hash sha256 (material e))
      × Chained (suc n) e.event_hash es

  -- the hash that the event after `es` must carry
  abbrev pub last_hash : String → List Event → String
  last_hash previous [] = previous
  last_hash previous (e ∷ es) = last_hash e.event_hash es

  pub is_linked_iff :
      (n : ℕ) (previous : String) (e : Event)
      → (is_linked sha256 n previous e ≡ true) ↔ (
          (e.sequence ≡ n)
          × (e.prev_event_hash ≡ previous)
          × (e.event_hash ≡ event_hash sha256 (material e)))
  unfolding is_linked
  is_linked_iff n previous e = (
    λ h. ground (
      arith,
      eq_iff e.prev_event_hash previous,
      eq_iff e.event_hash (event_hash sha256 (material e)),
    ),
    λ h. ground (
      arith,
      eq_iff e.prev_event_hash previous,
      eq_iff e.event_hash (event_hash sha256 (material e)),
    ),
  )

  verify_from-Chained :
      (n : ℕ) (previous : String) (es : List Event)
      → (verify_from sha256 n previous es).0 ≡ []
      → Chained n previous es
  unfolding verify_from
  verify_from-Chained n previous [] h = tt
  verify_from-Chained n previous (e ∷ es) h =
      ground (arith, is_linked_iff n previous e, verify_from-Chained (suc n) e.event_hash es)

  Chained-verify_from :
      (n : ℕ) (previous : String) (es : List Event)
      → Chained n previous es
      → verify_from sha256 n previous es ≡ ([], last_hash previous es)
  unfolding verify_from
  Chained-verify_from n previous [] h = refl
  Chained-verify_from n previous (e ∷ es) h =
      ground (arith, is_linked_iff n previous e, Chained-verify_from (suc n) e.event_hash es)

  pub Chained-append :
      (n : ℕ) (previous : String) (es : List Event) (e : Event)
      → Chained n previous es
      → e.sequence ≡ n + length es
      → e.prev_event_hash ≡ last_hash previous es
      → e.event_hash ≡ event_hash sha256 (material e)
      → Chained n previous (es ++ e ∷ [])
  Chained-append n previous [] e h s p k = (omega arith, p, k, tt)
  Chained-append n previous (x ∷ es) e h s p k =
      (h.0, h.1, h.2, Chained-append (suc n) x.event_hash es e h.3 (omega arith) p k)

  -- On a chain `verify_all` reports "valid", names no sequence, and heads the chain's last hash.
  pub Chained-verify_all :
      (l : Ledger)
      → Chained 0 zero_hash l.events
      → ((verify_all sha256 l).valid ≡ true)
        × ((verify_all sha256 l).invalid_sequences ≡ [])
        × ((verify_all sha256 l).head ≡ last_hash zero_hash l.events)
  unfolding verify_all
  Chained-verify_all l h = rw (Chained-verify_from 0 zero_hash l.events h) (refl, refl, refl)

  -- `verify_all` reports "valid" exactly when the stored events form an unbroken chain from the zero
  -- hash: each has its position, the hash of the event before it, and hashes to its own hash.
  pub verify_all_iff :
      (l : Ledger) → ((verify_all sha256 l).valid ≡ true) ↔ Chained 0 zero_hash l.events
  unfolding verify_all
  verify_all_iff l = (
    λ h. verify_from-Chained 0 zero_hash l.events (nil_of_length _ h),
    λ h. rw (Chained-verify_from 0 zero_hash l.events h),
  )

  verify_from-detects :
      (n : ℕ) (previous : String) (es : List Event) (i : ℕ) (e : Event)
      → get_elem? es i ≡ some e
      → e.event_hash ≢ event_hash sha256 (material e)
      → contains (n + i) (verify_from sha256 n previous es).0 ≡ true
  unfolding verify_from
  verify_from-detects n previous [] i e h ne = cc
  verify_from-detects n previous (x ∷ es) zero e h ne = ground (arith, is_linked_iff n previous x)
  verify_from-detects n previous (x ∷ es) (suc i) e h ne =
      ground (arith, verify_from-detects (suc n) x.event_hash es i e h ne)

  -- Wherever an event does not hash to the hash that it carries, `verify_all` names its sequence,
  -- whatever the other events are, and does not report "valid".
  verify_all_detects :
      (l : Ledger) (i : ℕ) (e : Event)
      → get_elem? l.events i ≡ some e
      → e.event_hash ≢ event_hash sha256 (material e)
      → (contains i (verify_all sha256 l).invalid_sequences ≡ true)
        × ((verify_all sha256 l).valid ≡ false)
  unfolding verify_all
  verify_all_detects l i e h ne =
      let found = verify_from-detects 0 zero_hash l.events i e h ne in
      (rw zero-add at found, length_of_contains _ _ found)
