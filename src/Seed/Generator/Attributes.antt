-- ===== src/Seed/Generator/Attributes.antt =====
-- internal/seed/generator.go `StreamABAC`: the documents with attributes.
pub mod Laws
use test_permission.Base.{ℕ, ◌+◌, String, length, leb, nat_eq, if◌then◌else◌}
use test_permission.Base.Int.{pos}
use test_permission.Seed.Types.{Scale, Org, AbacDoc, Fact}
use test_permission.Seed.Program.{Program, ◌>>=◌, ◌>>◌, int_n, at, choose, emit, for_range}
use test_permission.Seed.Generator.{Generator, default_divisions, id_of}
use test_permission.Seed.Generator.Basis.{begin, end}

abbrev pub status_of : ℕ → String
status_of x = if nat_eq x 0 then "archived" else if leb x 2 then "draft" else "active"

module _ (padded : ℕ → ℕ → String) (g : Generator) where
  unfoldable pub make_abac_doc : ℕ → Program (Unit {0})
  make_abac_doc i = do
    oi ← int_n (length g.orgs)
    x ← int_n 10
    o ← at g.orgs oi
    division ← choose default_divisions
    level ← int_n 4
    emit (
        Fact.abac_doc (record {
          id = id_of padded "adoc-" 7 i;
          org_id = Org.id o;
          division_key = division;
          classification = pos (1 + level);
          status = status_of x;
          region = Org.region o;
        }))

  unfoldable pub stream_abac : Program (Unit {0})
  stream_abac = do
    begin "abac" (Scale.abac_docs g.scale)
    for_range make_abac_doc (Scale.abac_docs g.scale)
    end "abac"
