-- ===== src/Tests/Tables.antt =====
-- internal/seed/writer_postgres.go on a short phase.
use test_permission.Base.{String, [], ◌≡◌, refl, All}
use test_permission.Base.Fallible.{Fallible, ok}
use test_permission.Seed.Rows.{row_of}
use test_permission.Seed.PostgresWriter.{Statement, Writer, new_writer, rows_in, end_phase}
use test_permission.Seed.PostgresWriter.Laws.{AlignedResult, sent, row_of-aligned}
use test_permission.Seed.PostgresWriter.Phases.{accept_all, rows_of}
use test_permission.Seed.PostgresWriter.Totality.{IsKnown, postgres_phase_runs}
use test_permission.Tests.Samples.{facts, root_org}

abbrev accepts_statement : Statement → Fallible (Unit {0})
accepts_statement _ = ok tt

row_of-aligned_example : AlignedResult (row_of root_org)
row_of-aligned_example = row_of-aligned root_org

All-IsKnown : All (IsKnown accepts_statement (λ _. refl)) facts
unfolding row_of
All-IsKnown = (
  (_, _, refl),
  ((_, _, refl), ((_, _, refl), ((_, _, refl), ((_, _, refl), ((_, _, refl), tt))))),
)

postgres_phase_runs_example :
    (w w' : Writer) × (accept_all accepts_statement facts (new_writer 2 "seed=1") ≡ ok w)
    × (end_phase accepts_statement "identity" w ≡ ok w')
    × ((t : String) → (sent t w'.log ≡ rows_of t facts) × (rows_in t w'.buf ≡ []))
postgres_phase_runs_example =
    postgres_phase_runs accepts_statement (λ _. refl) "identity" 2 "seed=1" facts All-IsKnown
