-- ===== src/Seed/PostgresWriter/Laws.antt =====
-- No row is lost or changed between the record methods and the executed statements.
use mathlib.Core.List.{append_assoc, append-nil}
use test_permission.Base.{
  ◌+◌, String, List, [], ◌∷◌, ◌++◌, if◌then◌else◌, insert, ◌≡◌, refl, subst, ◌==◌, inl, inr, arith,
  eq_iff, lookup-insert, All, All-append, Bool-cases,
}
use test_permission.Base.Fallible.{Fallible, ok, err}
use test_permission.Seed.Types.{Fact, RegistryResource}
use test_permission.Seed.Rows.{Row, cols_of, row_of, resource_row}
use test_permission.Seed.PostgresWriter.{
  Statement, insert_rows, checkpoint, Writer, rows_in, row_args, batch_args, run_statement,
  send_rows, flush_rows, flush,
}

-- The rows that the executed statements insert into a table, oldest first.
unfoldable pub sent : String → List Statement → List Row
sent t [] = []
sent t (insert_rows u cols rows ∷ log) = if u == t then sent t log ++ rows else sent t log
sent t (checkpoint phase params ∷ log) = sent t log

-- With the rows that wait in the buffer.
abbrev pub stored : String → Writer → List Row
stored t w = sent t w.log ++ rows_in t w.buf

-- A row fills the columns of its table.
abbrev pub IsAligned : String → Row → Type 0
IsAligned t row = row_args (cols_of t) row ≡ ok row

abbrev pub BufIsAligned : Writer → Type 0
BufIsAligned w = (t : String) → All (IsAligned t) (rows_in t w.buf)

rows_in-insert :
    (t u : String) (rows : List Row) (buf : List (String × List Row))
    → rows_in t (insert u rows buf) ≡ (if u == t then rows else rows_in t buf)
unfolding rows_in
rows_in-insert t u rows buf = ground (arith, lookup-insert u t rows buf)

pub batch_args_of_aligned :
    (t : String) (rows : List Row) → All (IsAligned t) rows → batch_args (cols_of t) rows ≡ ok rows
unfolding batch_args
batch_args_of_aligned t [] h = refl
batch_args_of_aligned t (row ∷ rows) (here, later) = rw (here, batch_args_of_aligned t rows later)

abbrev pub AlignedResult : Fallible (String × Row) → Type 0
AlignedResult (ok (t, row)) = IsAligned t row
AlignedResult (err e) = Unit

resource_row-aligned : (r : RegistryResource) → AlignedResult (resource_row r)
unfolding resource_row cols_of row_args
resource_row-aligned r = elim (Bool-cases (r.kind == "endpoint")) [
  | inl endpoint ↦ rw endpoint refl
  | inr other ↦ rw other (elim (Bool-cases (r.kind == "page")) [
    | inl page ↦ rw page refl
    | inr rest ↦ rw rest (elim (Bool-cases (r.kind == "component")) [
      | inl component ↦ rw component refl
      | inr unknown ↦ rw unknown tt
    ])
  ])
]

-- Whatever a record method hands to `add` fills the columns of the table that it names, so that a flush never reads past the end of a row.
pub row_of-aligned : (f : Fact) → AlignedResult (row_of f)
unfolding row_of cols_of row_args
row_of-aligned (Fact.resource r) = resource_row-aligned r
row_of-aligned _ = refl

-- What a flush of one table leaves: nothing waits there, the other tables are as before, and nothing is lost.
pub record Flushed (table : String) (w w' : Writer) : Type 0 where
  pub emptied : (t : String) → rows_in t w'.buf ≡ (if table == t then [] else rows_in t w.buf)
  pub stored : (t : String) → stored t w' ≡ stored t w

-- The state after a table's rows are sent.
abbrev pub after_send : String → List Row → Writer → Writer
after_send table rows w = record w {
  buf = insert table [] w.buf;
  log = insert_rows table (cols_of table) rows ∷ w.log;
}

module _ (exec : Statement → Fallible (Unit {0})) where
  send_rows-after_send :
      (table : String) (rows : List Row) (w w' : Writer)
      → All (IsAligned table) rows
      → send_rows exec table rows w ≡ ok w'
      → w' ≡ after_send table rows w
  unfolding send_rows run_statement
  send_rows-after_send table rows w w' aligned h =
      ground (arith, batch_args_of_aligned table rows aligned)

after_send-Flushed :
    (table : String) (rows : List Row) (w : Writer)
    → rows_in table w.buf ≡ rows
    → Flushed table w (after_send table rows w)
unfolding sent
after_send-Flushed table rows w same = record {
  emptied = λ t. rows_in-insert t table [] w.buf;
  stored = λ t. rw (rows_in-insert t table [] w.buf) (elim (Bool-cases (table == t)) [
    | inl here ↦
        let e : table ≡ t = (eq_iff table t).0 here in
        rw (here, append-nil)
          (subst (λ u. sent u w.log ++ rows ≡ sent u w.log ++ rows_in u w.buf) e (rw same refl))
    | inr other ↦ rw other refl
  ]);
}

module _ (exec : Statement → Fallible (Unit {0})) where
  flush_rows-Flushed :
      (table : String) (rows : List Row) (w w' : Writer)
      → rows_in table w.buf ≡ rows
      → All (IsAligned table) rows
      → flush_rows exec table rows w ≡ ok w'
      → Flushed table w w'
  unfolding flush_rows
  flush_rows-Flushed table [] w w' same aligned h = record {
    emptied = λ t. ground (arith, eq_iff table t, same);
    stored = λ t. ground (arith);
  }
  flush_rows-Flushed table (row ∷ rows) w w' same aligned h =
      rw (send_rows-after_send exec table (row ∷ rows) w w' aligned h)
        (after_send-Flushed table (row ∷ rows) w same)

module _ (exec : Statement → Fallible (Unit {0})) where
  pub flush-Flushed :
      (table : String) (w w' : Writer)
      → BufIsAligned w
      → flush exec table w ≡ ok w'
      → Flushed table w w'
  unfolding flush
  flush-Flushed table w w' aligned h =
      flush_rows-Flushed exec table (rows_in table w.buf) w w' refl (aligned table) h

pub Flushed-BufIsAligned :
    (table : String) (w w' : Writer) → Flushed table w w' → BufIsAligned w → BufIsAligned w'
Flushed-BufIsAligned table w w' f aligned t =
    rw (f.emptied t)
      (elim (Bool-cases (table == t)) [ inl here ↦ rw here tt | inr other ↦ rw other (aligned t) ])

-- What `add` does before it decides on a flush.
abbrev pub buffered : String → Row → Writer → Writer
buffered table row w = record w {
  buf = insert table (rows_in table w.buf ++ row ∷ []) w.buf;
  done = w.done + 1;
}

-- The rows that a record adds to a table.
abbrev pub new_rows : String → Fallible (String × Row) → List Row
new_rows t (ok (table, row)) = if table == t then row ∷ [] else []
new_rows t (err e) = []

pub stored-buffered :
    (t table : String) (row : Row) (w : Writer)
    → stored t (buffered table row w) ≡ stored t w ++ new_rows t (ok (table, row))
stored-buffered t table row w =
    rw (rows_in-insert t table (rows_in table w.buf ++ row ∷ []) w.buf)
      (elim (Bool-cases (table == t)) [
        | inl here ↦ let e : table ≡ t = (eq_iff table t).0 here in rw (here, e, append_assoc) refl
        | inr other ↦ rw (other, append-nil) refl
      ])

pub BufIsAligned-buffered :
    (table : String) (row : Row) (w : Writer)
    → IsAligned table row
    → BufIsAligned w
    → BufIsAligned (buffered table row w)
BufIsAligned-buffered table row w fits aligned t =
    rw (rows_in-insert t table (rows_in table w.buf ++ row ∷ []) w.buf)
      (elim (Bool-cases (table == t)) [
        | inl here ↦
            let e : table ≡ t = (eq_iff table t).0 here in
            rw here (
              subst (λ u. All (IsAligned u) (rows_in table w.buf ++ row ∷ [])) e
                (All-append (IsAligned table) (rows_in table w.buf) (row ∷ []) (aligned table)
                  (fits, tt)))
        | inr other ↦ rw other (aligned t)
      ])
