-- ===== src/Streaming/Loop.antt =====
-- The loop of `build` in src/simplicio_fast/streaming.py: what it holds between two blocks of the source.
use mathlib.Core.List.{append_assoc, append-nil}
use mathlib.Core.Path.{subst}
use native.Mathlib.Nat.{zero-add}
use simplicio_fast.Prelude.{
  ℕ, zero, suc, ◌+◌, String, ◌≡◌, refl, sym, ap, ◌∙◌, inl, inr, Bool-cases, Option, none, some,
  List, [], ◌∷◌, ◌++◌, arith, Result, ok, raise_if, length, length-append, get_elem?,
  strings_equate,
}
use simplicio_fast.Prelude.Dict.{lookup, lookup-insert_self}
use simplicio_fast.Prelude.Int.{ℤ}
use simplicio_fast.Prelude.Json.{Fields}
use simplicio_fast.Streaming.{
  Error, injected_stream_failure, holds, Progress, segment_name, checkpoint_of, take_block,
  append_block, consume, counted, entry, is_reached, segment_of, Work,
}
use simplicio_fast.Streaming.Blocks.{joined, joined-append}
use simplicio_fast.Streaming.Entries.{entries, entries-append, length-entries, compare-entry}

get_elem?_end {ℓ} : {A : Type ℓ} (xs : List A) (n : ℕ) → n ≡ length xs → get_elem? xs n ≡ none
get_elem?_end [] n h = refl
get_elem?_end (x ∷ xs) zero h = absurd (omega arith)
get_elem?_end (x ∷ xs) (suc n) h = get_elem?_end xs n (omega arith)

get_elem?_at {ℓ} :
    {A : Type ℓ} (xs : List A) (y : A) (ys : List A) → get_elem? (xs ++ y ∷ ys) (length xs) ≡ some y
get_elem?_at [] y ys = refl
get_elem?_at (x ∷ xs) y ys = get_elem?_at xs y ys

joined_snoc : (done : List (List ℕ)) (b : List ℕ) → joined (done ++ b ∷ []) ≡ joined done ++ b
joined_snoc done b = joined-append done (b ∷ []) ∙ ap (λ t. joined done ++ t) (append-nil b)

length_snoc : (done : List (List ℕ)) (b : List ℕ) → length (done ++ b ∷ []) ≡ suc (length done)
length_snoc done b = omega (arith, length-append done (b ∷ []))

segment_of_written :
    (w : Work) (bs : List ℕ) → lookup segment_name w.segments ≡ some bs → segment_of w ≡ bs
segment_of_written w bs h = ground arith

module _ (sha256 : List ℕ → String) (parse_int : String → Option ℤ) (fs : Fields) where
  -- the loop has read the blocks `done`, and the files hold them
  pub record Holding (done : List (List ℕ)) (p : Progress) : Type 0 where
    pub at_index : p.index ≡ length done
    pub kept : p.blocks ≡ entries sha256 parse_int 0 done
    pub fed : p.source ≡ joined done
    pub measured : p.input_bytes ≡ length (joined done)
    pub written : lookup segment_name p.work.segments ≡ some (joined done)
    pub noted : p.work.checkpoint ≡ holds (checkpoint_of fs p.blocks p.input_bytes)

  entries_snoc :
      (done : List (List ℕ)) (b : List ℕ)
      → entries sha256 parse_int 0 (done ++ b ∷ [])
        ≡ entries sha256 parse_int 0 done ++ entry sha256 parse_int (length done) b ∷ []
  entries_snoc done b =
      entries-append sha256 parse_int 0 done (b ∷ [])
      ∙ ap (λ n. entries sha256 parse_int 0 done ++ entry sha256 parse_int n b ∷ [])
          (zero-add (length done))

  append_block-Holding :
      (done : List (List ℕ)) (b : List ℕ) (p : Progress)
      → Holding done p
      → Holding (done ++ b ∷ []) (append_block sha256 parse_int fs b (counted b p))
  unfolding append_block
  append_block-Holding done b p h = record {
    at_index = ap suc h.at_index ∙ sym (length_snoc done b);
    kept = rw (h.kept, h.at_index) (sym (entries_snoc done b));
    fed = ap (λ t. t ++ b) h.fed ∙ sym (joined_snoc done b);
    measured =
        ap (λ t. t + length b) h.measured
        ∙ sym (length-append (joined done) b)
        ∙ ap length (sym (joined_snoc done b));
    written =
        lookup-insert_self segment_name (segment_of p.work ++ b) p.work.segments
        ∙ ap (λ t. some (t ++ b)) (segment_of_written p.work (joined done) h.written)
        ∙ ap some (sym (joined_snoc done b));
    noted = refl;
  }

  take_block_new :
      (fail : Option ℕ) (done : List (List ℕ)) (b : List ℕ) (p : Progress)
      → Holding done p
      → take_block sha256 parse_int fs fail b p ≡ (
        raise_if (is_reached fail (suc p.appended)) injected_stream_failure,
        append_block sha256 parse_int fs b (counted b p),
      )
  unfolding take_block append_block
  take_block_new fail done b p h =
      let last =
        get_elem?_end p.blocks p.index
          (h.at_index ∙ sym (length-entries sha256 parse_int 0 done) ∙ ap length (sym h.kept)) in
      rw (take_block, last) refl

  -- the blocks that a run of the loop stored, and those that it left
  pub record Outcome (fail : Option ℕ) (done bs : List (List ℕ)) (r : Result Error Unit)
      (p : Progress) : Type 0 where
    pub used : List (List ℕ)
    pub left : List (List ℕ)
    pub parts : bs ≡ used ++ left
    pub held : Holding (done ++ used) p
    pub finished : r ≡ ok tt → left ≡ []
    pub returns : fail ≡ none → r ≡ ok tt

  pub consume_new :
      (fail : Option ℕ) (done bs : List (List ℕ)) (p : Progress)
      → Holding done p
      → Outcome fail done bs
          (consume sha256 parse_int fs fail bs p).0
          (consume sha256 parse_int fs fail bs p).1
  unfolding consume
  consume_new fail done [] p h = record {
    used = [];
    left = [];
    parts = refl;
    held = rw append-nil h;
    finished = λ e. refl;
    returns = λ e. refl;
  }
  consume_new fail done (b ∷ bs) p h =
      let after = append_block sha256 parse_int fs b (counted b p) in
      let held = append_block-Holding done b p h in
      elim (Bool-cases (is_reached fail (suc p.appended))) [
        | inl stop ↦
            rw (consume, take_block_new fail done b p h, stop)
              (record {
                used = b ∷ [];
                left = bs;
                parts = refl;
                held = held;
                finished = λ e. cc;
                returns = λ e. ground arith;
              })
        | inr go ↦
            let rest = consume_new fail (done ++ b ∷ []) bs after held in
            rw (consume, take_block_new fail done b p h, go)
              (record {
                used = b ∷ rest.used;
                left = rest.left;
                parts = ap (λ t. b ∷ t) rest.parts;
                held = rw append_assoc at rest.held;
                finished = rest.finished;
                returns = rest.returns;
              })
      ]

  -- a loop with no failure stores every block
  pub consume_all :
      (done bs : List (List ℕ)) (p : Progress)
      → Holding done p
      → ((consume sha256 parse_int fs none bs p).0 ≡ ok tt)
        × Holding (done ++ bs) (consume sha256 parse_int fs none bs p).1
  consume_all done bs p h =
      let o = consume_new none done bs p h in
      let whole = ap (λ t. o.used ++ t) (sym (o.finished (o.returns refl))) in
      (
        o.returns refl,
        subst (λ t. Holding (done ++ t) (consume sha256 parse_int fs none bs p).1)
            (sym (append-nil o.used) ∙ whole ∙ sym o.parts) o.held,
      )

  -- the loop after the known blocks `pre`
  abbrev pub after_known : List (List ℕ) → Progress → Progress
  after_known pre p = record p {
    index = length pre;
    source = joined pre;
    input_bytes = length (joined pre);
  }

  entry_at :
      (pre : List (List ℕ)) (b : List ℕ) (bs : List (List ℕ)) (p : Progress)
      → p.blocks ≡ entries sha256 parse_int 0 (pre ++ b ∷ bs)
      → get_elem? p.blocks (length pre) ≡ some (entry sha256 parse_int (length pre) b)
  entry_at pre b bs p h =
      let known = entries sha256 parse_int 0 pre in
      let later = λ (n : ℕ). entries sha256 parse_int n (b ∷ bs) in
      ap (λ t. get_elem? t (length pre)) (h ∙ entries-append sha256 parse_int 0 pre (b ∷ bs))
      ∙ ap (λ n. get_elem? (known ++ later (0 + length pre)) n)
          (sym (length-entries sha256 parse_int 0 pre))
      ∙ get_elem?_at known (entry sha256 parse_int (0 + length pre) b)
          (entries sha256 parse_int (suc (0 + length pre)) bs)
      ∙ ap (λ n. some (entry sha256 parse_int n b)) (zero-add (length pre))

  take_block_known :
      (fail : Option ℕ) (pre : List (List ℕ)) (b : List ℕ) (bs : List (List ℕ)) (p : Progress)
      → p.blocks ≡ entries sha256 parse_int 0 (pre ++ b ∷ bs)
      → take_block sha256 parse_int fs fail b (after_known pre p)
        ≡ (ok tt, after_known (pre ++ b ∷ []) p)
  unfolding take_block
  take_block_known fail pre b bs p h =
      let found : get_elem? p.blocks (length pre) ≡ some (entry sha256 parse_int (length pre) b) =
        entry_at pre b bs p h in
      rw
        (
          take_block,
          found,
          compare-entry sha256 parse_int (length pre) b,
          joined_snoc pre b,
          length_snoc pre b,
          length-append (joined pre) b,
        )
        refl

  pub consume_known :
      (fail : Option ℕ) (pre bs more : List (List ℕ)) (p : Progress)
      → p.blocks ≡ entries sha256 parse_int 0 (pre ++ bs)
      → consume sha256 parse_int fs fail (bs ++ more) (after_known pre p)
        ≡ consume sha256 parse_int fs fail more (after_known (pre ++ bs) p)
  unfolding consume
  consume_known fail pre [] more p h =
      ap (λ t. consume sha256 parse_int fs fail more (after_known t p)) (sym (append-nil pre))
  consume_known fail pre (b ∷ bs) more p h = rw (take_block_known fail pre b bs p h) (
      consume_known fail (pre ++ b ∷ []) bs more p
        (h ∙ ap (entries sha256 parse_int 0) (sym (append_assoc pre (b ∷ []) bs)))
      ∙ ap (λ t. consume sha256 parse_int fs fail more (after_known t p))
          (append_assoc pre (b ∷ []) bs))
