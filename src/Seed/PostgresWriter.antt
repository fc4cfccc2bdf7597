-- ===== src/Seed/PostgresWriter.antt =====
-- internal/seed/writer_postgres.go: the batching sink in front of Postgres. A statement that is
-- executed is a value; which ones the server accepts is a parameter.
pub mod Laws
pub mod Phases
pub mod Totality
use test_permission.Base.{
  Bool, true, false, ℕ, zero, suc, ◌+◌, String, Option, none, some, List, [], ◌∷◌, ◌++◌,
  if◌then◌else◌, leb, length, lookup, insert, keys,
}
use test_permission.Base.Fallible.{Fallible, ok, err, fault, ◌>>=◌, wrapping}
use test_permission.Seed.Types.{Fact, Sink}
use test_permission.Seed.Rows.{Cell, Row, cols_of, row_of}

-- A multi-row INSERT … ON CONFLICT DO NOTHING with its arguments by row, or the checkpoint of a
-- phase.
pub data Statement : Type 0 where
  insert_rows : String → List String → List Row → Statement
  checkpoint : String → String → Statement

-- `log` holds the executed statements, the last one first.
pub record Writer : Type 0 where
  pub batch : ℕ
  pub buf : List (String × List Row)
  pub done : ℕ
  pub params : String
  pub log : List Statement

unfoldable pub new_writer : ℕ → String → Writer
new_writer batch params = record { batch = batch; buf = []; done = 0; params = params; log = [] }

-- `w.buf[table]`, nil when absent.
unfoldable pub rows_in : String → List (String × List Row) → List Row
rows_in table buf = elim (lookup table buf) [ none ↦ [] | some rows ↦ rows ]

-- `row[j]` for each column; a shorter row panics.
unfoldable pub row_args : List String → Row → Fallible Row
row_args [] row = ok []
row_args (c ∷ cols) [] = err (fault "index out of range")
row_args (c ∷ cols) (x ∷ row) = do rest ← row_args cols row; ok (x ∷ rest)

unfoldable pub batch_args : List String → List Row → Fallible (List Row)
unfolding row_args
batch_args cols [] = ok []
batch_args cols (row ∷ rows) = do
  args ← row_args cols row
  rest ← batch_args cols rows
  ok (args ∷ rest)

module _ (exec : Statement → Fallible (Unit {0})) where
  unfoldable pub run_statement : Statement → Writer → Fallible Writer
  run_statement st w = do done ← exec st; ok (record w { log = st ∷ w.log })

  -- The part of `flush` after the check for no rows.
  unfoldable pub send_rows : String → List Row → Writer → Fallible Writer
  unfolding batch_args run_statement cols_of
  send_rows table rows w = do
    args ← batch_args (cols_of table) rows
    wrapping table (
        run_statement (insert_rows table (cols_of table) args)
          (record w { buf = insert table [] w.buf }))

  flush_rows : String → List Row → Writer → Fallible Writer
  unfolding send_rows
  flush_rows table [] w = ok w
  flush_rows table (row ∷ rows) w = send_rows table (row ∷ rows) w

  unfoldable pub flush : String → Writer → Fallible Writer
  unfolding flush_rows rows_in
  flush table w = flush_rows table (rows_in table w.buf) w

  unfoldable pub add : String → Row → Writer → Fallible Writer
  unfolding flush rows_in
  add table row w =
      let rows = rows_in table w.buf ++ row ∷ [] in
      let w' : Writer = record w { buf = insert table rows w.buf; done = w.done + 1 } in
      if leb w.batch (length rows) then flush table w' else ok w'

  unfoldable pub accept : Fact → Writer → Fallible Writer
  unfolding row_of add
  accept f w = do (table, row) ← row_of f; add table row w

  -- The loop of `flushAll` over the tables of the buffer.
  unfoldable pub flush_tables : List String → Writer → Fallible Writer
  unfolding flush
  flush_tables [] w = ok w
  flush_tables (table ∷ tables) w = do w' ← flush table w; flush_tables tables w'

  unfoldable pub flush_all : Writer → Fallible Writer
  unfolding flush_tables
  flush_all w = flush_tables (keys w.buf) w

  unfoldable pub begin_phase : String → ℕ → Writer → Fallible Writer
  begin_phase phase total w = ok (record w { done = 0 })

  unfoldable pub end_phase : String → Writer → Fallible Writer
  unfolding flush_all run_statement
  end_phase phase w = do
    w' ← flush_all w
    wrapping "checkpoint" (run_statement (checkpoint phase w.params) w')

  abbrev pub sink : Sink Writer
  sink = record { begin_phase = begin_phase; end_phase = end_phase; accept = accept }
