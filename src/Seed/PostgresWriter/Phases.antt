-- ===== src/Seed/PostgresWriter/Phases.antt =====
-- A whole phase: the records that the writer takes, and what the statements have inserted at its
-- end.
use mathlib.Core.List.{append_assoc, append-nil}
use test_permission.Base.{
  true, false, ℕ, String, List, [], ◌∷◌, ◌++◌, length, leb, lookup, keys, contains, ◌≡◌, refl, sym,
  ap, ◌∙◌, ◌==◌, ◌||◌, ◌⊎◌, inl, inr, arith, Bool-cases,
}
use test_permission.Base.Fallible.{Fallible, ok, err, >>=-eq-ok, ◌>>=◌}
use test_permission.Seed.Types.{Fact}
use test_permission.Seed.Rows.{Row, row_of}
use test_permission.Seed.PostgresWriter.{
  Statement, checkpoint, Writer, new_writer, rows_in, run_statement, flush, add, accept,
  flush_tables, flush_all, end_phase,
}
use test_permission.Seed.PostgresWriter.Laws.{
  sent, stored, IsAligned, BufIsAligned, Flushed, flush-Flushed, Flushed-BufIsAligned, buffered,
  stored-buffered, BufIsAligned-buffered, row_of-aligned, new_rows, AlignedResult,
}

-- The writer lost nothing, and its buffer is fit for the next call.
pub record Kept (w w' : Writer) (added : String → List Row) : Type 0 where
  pub stored : (t : String) → stored t w' ≡ stored t w ++ added t
  pub aligned : BufIsAligned w'

-- The rows of a table that a list of records stands for.
unfoldable pub rows_of : String → List Fact → List Row
rows_of t [] = []
rows_of t (f ∷ fs) = new_rows t (row_of f) ++ rows_of t fs

module _ (exec : Statement → Fallible (Unit {0})) where
  add-Kept :
      (table : String) (row : Row) (w w' : Writer)
      → IsAligned table row
      → BufIsAligned w
      → add exec table row w ≡ ok w'
      → Kept w w' (λ t. new_rows t (ok (table, row)))
  unfolding add
  add-Kept table row w w' fits aligned h =
      let v : Writer = buffered table row w in
      let aligned' : BufIsAligned v = BufIsAligned-buffered table row w fits aligned in
      elim (Bool-cases (leb w.batch (length (rows_in table w.buf ++ row ∷ [])))) [
        | inl full ↦
            let f : Flushed table v w' =
              flush-Flushed exec table v w' aligned' (ground (arith, full, h)) in
            record {
              stored = λ t. f.stored t ∙ stored-buffered t table row w;
              aligned = Flushed-BufIsAligned table v w' f aligned';
            }
        | inr room ↦
            let e : v ≡ w' = ground (arith, room, h) in
            rw (← e) (record { stored = λ t. stored-buffered t table row w; aligned = aligned' })
      ]

  pub accept-Kept :
      (f : Fact) (w w' : Writer)
      → BufIsAligned w
      → accept exec f w ≡ ok w'
      → Kept w w' (λ t. new_rows t (row_of f))
  unfolding accept
  accept-Kept f w w' aligned h = at (row_of f) (row_of-aligned f) h
    where
      at :
          (m : Fallible (String × Row))
          → AlignedResult m
          → (m >>= λ (tr : String × Row). add exec tr.0 tr.1 w) ≡ ok w'
          → Kept w w' (λ t. new_rows t m)
      at (ok (table, row)) fits e = add-Kept table row w w' fits aligned e
      at (err x) fits e = absurd (cc)

  -- The loop of a phase over its records.
  unfoldable pub accept_all : List Fact → Writer → Fallible Writer
  accept_all [] w = ok w
  accept_all (f ∷ fs) w = do w' ← accept exec f w; accept_all fs w'

  flush_tables-Kept :
      (tables : List String) (w w' : Writer)
      → BufIsAligned w
      → flush_tables exec tables w ≡ ok w'
      → Kept w w' (λ t. [])
        × ((t : String)
            → (contains tables t ≡ true) ⊎ (rows_in t w.buf ≡ [])
            → rows_in t w'.buf ≡ [])
  unfolding flush_tables contains
  flush_tables-Kept [] w w' aligned h =
      let e : w ≡ w' = ground (arith, h) in
      rw (← e) (record { stored = λ t. sym (append-nil _); aligned = aligned }, λ t. at t)
    where
      at : (t : String) → (false ≡ true) ⊎ (rows_in t w.buf ≡ []) → rows_in t w.buf ≡ []
      at t (inl no_table) = absurd (cc)
      at t (inr e) = e
  flush_tables-Kept (table ∷ tables) w w' aligned h =
      let (v, flushed, rest) = >>=-eq-ok (flush exec table w) _ h in
      let f : Flushed table w v = flush-Flushed exec table w v aligned flushed in
      let (k, empty) =
        flush_tables-Kept tables v w' (Flushed-BufIsAligned table w v f aligned) rest in
      (
        record { stored = λ t. k.stored t ∙ ap (λ l. l ++ []) (f.stored t); aligned = k.aligned },
        λ t. later t f empty,
      )
    where
      later :
          (t : String) {v : Writer}
          → Flushed table w v
          → ((u : String)
              → (contains tables u ≡ true) ⊎ (rows_in u v.buf ≡ [])
              → rows_in u w'.buf ≡ [])
          → ((table == t || contains tables t) ≡ true) ⊎ (rows_in t w.buf ≡ [])
          → rows_in t w'.buf ≡ []
      later t f empty c = elim (Bool-cases (table == t)) [
        | inl here ↦ empty t (inr (ground (arith, f.emptied t, here)))
        | inr other ↦ elim c [
          | inl m ↦ empty t (inl (ground (arith, m, other)))
          | inr e ↦ empty t (inr (ground (arith, f.emptied t, other, e)))
        ]
      ]

  rows_in-keys :
      (t : String) (buf : List (String × List Row))
      → (contains (keys buf) t ≡ true) ⊎ (rows_in t buf ≡ [])
  unfolding rows_in contains lookup
  rows_in-keys t [] = inr refl
  rows_in-keys t ((u, rows) ∷ buf) = ground (arith, rows_in-keys t buf)

  end_phase-Kept :
      (phase : String) (w w' : Writer)
      → BufIsAligned w
      → end_phase exec phase w ≡ ok w'
      → ((t : String) → sent t w'.log ≡ stored t w) × ((t : String) → rows_in t w'.buf ≡ [])
  unfolding end_phase flush_all run_statement sent
  end_phase-Kept phase w w' aligned h =
      let (v, flushed, rest) = >>=-eq-ok (flush_all exec w) _ h in
      let (k, empty) = flush_tables-Kept (keys w.buf) w v aligned flushed in
      let clean : (t : String) → rows_in t v.buf ≡ [] = λ t. empty t (rows_in-keys t w.buf) in
      let e : record v { log = checkpoint phase w.params ∷ v.log } ≡ w' = ground (arith, rest) in
      rw (← e) (
        λ t.
            sym (append-nil _)
            ∙ ap (λ l. sent t v.log ++ l) (sym (clean t))
            ∙ k.stored t
            ∙ append-nil _,
        clean,
      )

  accept_all-Kept :
      (fs : List Fact) (w w' : Writer)
      → BufIsAligned w
      → accept_all fs w ≡ ok w'
      → Kept w w' (λ t. rows_of t fs)
  unfolding accept_all rows_of
  accept_all-Kept [] w w' aligned h =
      let e : w ≡ w' = ground (arith, h) in
      rw (← e) (record { stored = λ t. sym (append-nil _); aligned = aligned })
  accept_all-Kept (f ∷ fs) w w' aligned h =
      let (v, accepted, rest) = >>=-eq-ok (accept exec f w) _ h in
      let here = accept-Kept f w v aligned accepted in
      let later = accept_all-Kept fs v w' here.aligned rest in
      record {
        stored = λ t.
            later.stored t
            ∙ ap (λ l. l ++ rows_of t fs) (here.stored t)
            ∙ append_assoc (stored t w) (new_rows t (row_of f)) (rows_of t fs);
        aligned = later.aligned;
      }

  -- When a fresh writer has taken a phase's records and the end of the phase succeeds, the executed statements have inserted into each table exactly the rows of the records that belong there, in the order of the stream and with nothing lost or repeated by the batching, and no row waits in the buffer.
  pub sent-end_phase :
      (phase : String) (batch : ℕ) (params : String) (fs : List Fact) (w w' : Writer)
      → accept_all fs (new_writer batch params) ≡ ok w
      → end_phase exec phase w ≡ ok w'
      → (t : String) → (sent t w'.log ≡ rows_of t fs) × (rows_in t w'.buf ≡ [])
  unfolding sent rows_in new_writer lookup
  sent-end_phase phase batch params fs w w' taken ended t =
      let all_kept = accept_all-Kept fs (new_writer batch params) w (λ u. tt) taken in
      let (shown, empty) = end_phase-Kept phase w w' all_kept.aligned ended in
      (shown t ∙ all_kept.stored t, empty t)
