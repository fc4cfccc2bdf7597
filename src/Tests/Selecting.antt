-- ===== src/Tests/Selecting.antt =====
-- The tables and the relationships of a few records, and what is read back from them.
use test_permission.Base.{String, List, [], ◌≡◌, ◌↔◌, if◌then◌else◌, ◌==◌}
use test_permission.Seed.Rows.{Cell}
use test_permission.Seed.PostgresWriter.Phases.{rows_of}
use test_permission.Seed.Relationships.{Relationship, CaveatContext}
use test_permission.Seed.SpicedbWriter.Phases.{rels_given}
use test_permission.Base.Fallible.{Fallible, ok}
use test_permission.Database.{Database, Row1, Has, Stores}
use test_permission.Database.Selects.{Granted, Shared, role_grants_iff, acl_entries_iff}
use test_permission.Schema.{Related}
use test_permission.Schema.Holders.{Touches, allowed_role_iff, acl_iff}
use test_permission.Tests.Samples.{facts}

abbrev pub tables : Database
tables table = rows_of table facts

pub tables-Stores : Stores tables facts
tables-Stores table row = (λ m. m, λ m. m)

abbrev pub struct_of : CaveatContext → Fallible CaveatContext
struct_of c = ok c

abbrev pub held : List Relationship
held = rels_given struct_of facts

pub held-Touches : Touches struct_of held facts
held-Touches r = (λ m. m, λ m. m)

role_grants_iff_example :
    Row1 tables "role_grants" "resource_type" (Cell.text "endpoint") (λ row.
      Has "role_grants" "resource_id" row (Cell.text "e1")
      × Has "role_grants" "action" row (Cell.text "execute")
      × Has "role_grants" "role_id" row (Cell.text "r1"))
    ↔ Granted facts "endpoint" "e1" "execute" "r1"
role_grants_iff_example = role_grants_iff facts tables tables-Stores "endpoint" "e1" "execute" "r1"

acl_entries_iff_example :
    Row1 tables "acl_entries" "resource_id" (Cell.text "d1") (λ row.
      Has "acl_entries" "persona_id" row (Cell.text "p1")
      × Has "acl_entries" "action" row (Cell.text "edit"))
    ↔ Shared facts "d1" "p1" "edit"
acl_entries_iff_example = acl_entries_iff facts tables tables-Stores "d1" "p1" "edit"

allowed_role_iff_example :
    Related held [] "endpoint" "e1" "allowed_role" "role" "r1" "assignee"
    ↔ ((action : String) × Granted facts "endpoint" "e1" action "r1")
allowed_role_iff_example =
    allowed_role_iff struct_of held [] facts held-Touches "endpoint" "e1" "r1"

acl_iff_example : Related held [] "acl_document" "d1" "editor" "persona" "p1" "" ↔ (
    (action : String) × Shared facts "d1" "p1" action
    × (◌≡◌ {A = String} (if action == "edit" then "editor" else "viewer") "editor"))
acl_iff_example = acl_iff struct_of held [] facts held-Touches "d1" "editor" "p1"
