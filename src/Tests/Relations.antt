-- ===== src/Tests/Relations.antt =====
-- internal/seed/writer_spicedb.go on a short phase with a repeated record.
use test_permission.Base.{List, [], ◌≡◌, refl, arith, Memᴰ, All}
use test_permission.Base.Fallible.{Fallible, ok}
use test_permission.Seed.Relationships.{Relationship, CaveatContext, rels_of}
use test_permission.Seed.SpicedbWriter.{Writer, new_writer, end_phase}
use test_permission.Seed.SpicedbWriter.Laws.{Sent, IsRequest}
use test_permission.Seed.SpicedbWriter.Phases.{
  accept_all, rels_given, IsConverted, spicedb_phase_runs,
}
use test_permission.Tests.Samples.{facts}

abbrev accepts_write : List Relationship → Fallible (Unit {0})
accepts_write _ = ok tt

abbrev struct_of : CaveatContext → Fallible CaveatContext
struct_of c = ok c

All-IsConverted : All (IsConverted accepts_write (λ _. refl) struct_of) facts
unfolding rels_of
All-IsConverted = ((_, refl), ((_, refl), ((_, refl), ((_, refl), ((_, refl), ((_, refl), tt))))))

spicedb_phase_runs_example :
    (w w' : Writer) × (accept_all accepts_write (λ _. refl) struct_of facts (new_writer 2) ≡ ok w)
    × (end_phase accepts_write "identity" w ≡ ok w')
    × (w'.buf ≡ [])
    × ((r : Relationship) → Memᴰ r (rels_given struct_of facts) → Sent r w'.log)
    × All (IsRequest 2 (rels_given struct_of facts)) w'.log
spicedb_phase_runs_example =
    spicedb_phase_runs accepts_write (λ _. refl) struct_of "identity" 2 facts (omega arith)
      All-IsConverted
