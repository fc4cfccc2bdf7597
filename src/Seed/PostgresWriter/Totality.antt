-- ===== src/Seed/PostgresWriter/Totality.antt =====
-- A phase runs to its end when the server accepts every statement.
use test_permission.Base.{
  ℕ, String, List, [], ◌∷◌, ◌++◌, length, leb, lookup, keys, ◌≡◌, refl, inl, inr, All, Bool-cases,
}
use test_permission.Base.Fallible.{Fallible, ok}
use test_permission.Seed.Types.{Fact}
use test_permission.Seed.Rows.{Row, row_of}
use test_permission.Seed.PostgresWriter.{
  Statement, checkpoint, Writer, new_writer, rows_in, run_statement, send_rows, flush_rows, flush,
  add, accept, flush_tables, flush_all, end_phase,
}
use test_permission.Seed.PostgresWriter.Laws.{
  sent, IsAligned, BufIsAligned, batch_args_of_aligned, after_send, flush-Flushed,
  Flushed-BufIsAligned, buffered, BufIsAligned-buffered, row_of-aligned,
}
use test_permission.Seed.PostgresWriter.Phases.{accept_all, accept-Kept, rows_of, sent-end_phase}

module _ (exec : Statement → Fallible (Unit {0}))
    (accepts : (st : Statement) → exec st ≡ ok tt) where
  flush_rows_total :
      (table : String) (rows : List Row) (w : Writer)
      → All (IsAligned table) rows
      → (w' : Writer) × (flush_rows exec table rows w ≡ ok w')
  unfolding flush_rows send_rows run_statement
  flush_rows_total table [] w aligned = (w, refl)
  flush_rows_total table (row ∷ rows) w aligned = (
    after_send table (row ∷ rows) w,
    rw (batch_args_of_aligned table (row ∷ rows) aligned, accepts) refl,
  )

  flush_total :
      (table : String) (w : Writer) → BufIsAligned w → (w' : Writer) × (flush exec table w ≡ ok w')
  unfolding flush
  flush_total table w aligned = flush_rows_total table (rows_in table w.buf) w (aligned table)

  add_total :
      (table : String) (row : Row) (w : Writer)
      → IsAligned table row
      → BufIsAligned w
      → (w' : Writer) × (add exec table row w ≡ ok w')
  unfolding add
  add_total table row w fits aligned =
      let v : Writer = buffered table row w in
      let aligned' : BufIsAligned v = BufIsAligned-buffered table row w fits aligned in
      elim (Bool-cases (leb w.batch (length (rows_in table w.buf ++ row ∷ [])))) [
        | inl full ↦ let (w', e) = flush_total table v aligned' in (w', rw full e)
        | inr room ↦ (v, rw room refl)
      ]

  accept_total :
      (f : Fact) (table : String) (row : Row) (w : Writer)
      → row_of f ≡ ok (table, row)
      → BufIsAligned w
      → (w' : Writer) × (accept exec f w ≡ ok w')
  unfolding accept
  accept_total f table row w known aligned =
      rw known (add_total table row w (rw known at (row_of-aligned f)) aligned)

  -- Every record has a table: a registry resource is an endpoint, a page or a component.
  abbrev pub IsKnown : Fact → Type 0
  IsKnown f = (table : String) × (row : Row) × (row_of f ≡ ok (table, row))

  accept_all_total :
      (fs : List Fact) (w : Writer)
      → All IsKnown fs
      → BufIsAligned w
      → (w' : Writer) × (accept_all exec fs w ≡ ok w') × BufIsAligned w'
  unfolding accept_all
  accept_all_total [] w _ aligned = (w, refl, aligned)
  accept_all_total (f ∷ fs) w ((table, row, known), later) aligned =
      let (v, e) = accept_total f table row w known aligned in
      let (w', e', aligned') =
        accept_all_total fs v later (accept-Kept exec f w v aligned e).aligned in
      (w', rw e e', aligned')

  flush_tables_total :
      (tables : List String) (w : Writer)
      → BufIsAligned w
      → (w' : Writer) × (flush_tables exec tables w ≡ ok w')
  unfolding flush_tables
  flush_tables_total [] w aligned = (w, refl)
  flush_tables_total (table ∷ tables) w aligned =
      let (v, e) = flush_total table w aligned in
      let (w', e') =
        flush_tables_total tables v
          (Flushed-BufIsAligned table w v (flush-Flushed exec table w v aligned e) aligned) in
      (w', rw e e')

  end_phase_total :
      (phase : String) (w : Writer)
      → BufIsAligned w
      → (w' : Writer) × (end_phase exec phase w ≡ ok w')
  unfolding end_phase flush_all run_statement
  end_phase_total phase w aligned =
      let (v, e) = flush_tables_total (keys w.buf) w aligned in
      (record v { log = checkpoint phase w.params ∷ v.log }, rw (e, accepts) refl)

  -- When the server accepts every statement and every registry resource has a known kind, a fresh writer takes all records of a phase and ends it without an error, whatever the batch size; the executed statements have then inserted into each table exactly the rows of its records, in the order of the stream, and no row waits in the buffer.
  pub postgres_phase_runs :
      (phase : String) (batch : ℕ) (params : String) (fs : List Fact)
      → All IsKnown fs
      → (w w' : Writer) × (accept_all exec fs (new_writer batch params) ≡ ok w)
        × (end_phase exec phase w ≡ ok w')
        × ((t : String) → (sent t w'.log ≡ rows_of t fs) × (rows_in t w'.buf ≡ []))
  unfolding rows_in lookup new_writer
  postgres_phase_runs phase batch params fs known =
      let (w, taken, aligned) = accept_all_total fs (new_writer batch params) known (λ t. tt) in
      let (w', ended) = end_phase_total phase w aligned in
      (w, w', taken, ended, sent-end_phase exec phase batch params fs w w' taken ended)
