-- ===== src/Database.antt =====
-- The tables of schema "cedar" and what the SQL statements of
-- internal/adapter/outbound/postgres/loader.go select from them.
pub mod Facts
pub mod Selects
use test_permission.Base.{
  Bool, true, ℕ, String, Option, none, some, List, [], ◌∷◌, ◌≡◌, ◌↔◌, ◌==◌, if◌then◌else◌, Memᴰ,
}
use test_permission.Base.Int.{ℤ}
use test_permission.Base.Fallible.{Fallible, ok}
use test_permission.Seed.Types.{Fact}
use test_permission.Seed.Rows.{Cell, Row, cols_of}
use test_permission.Seed.PostgresWriter.Phases.{rows_of}
use test_permission.Postgres.Queries
use test_permission.Postgres.Queries.{PersonaAttrs, DocAttrs, PolicyAttrs}

-- The rows of each table.
abbrev pub Database : Type 0
Database = String → List Row

-- A cell by its column's name.
unfoldable pub cell : List String → String → Row → Option Cell
cell [] col row = none
cell (c ∷ cols) col [] = none
cell (c ∷ cols) col (x ∷ row) = if c == col then some x else cell cols col row

abbrev pub Has : String → String → Row → Cell → Type 0
Has table col row x = cell (cols_of table) col row ≡ some x

-- A row of a table where columns have values.
abbrev pub Row1 : Database → String → String → Cell → (Row → Type 0) → Type 0
Row1 db table col x P = (row : Row) × Memᴰ row (db table) × Has table col row x × P row

module _ (q : Queries.Queries) (db : Database) where
  -- SELECT role_id FROM persona_roles WHERE persona_id = $1
  abbrev pub SelectsPersonaRoles : Type 0
  SelectsPersonaRoles =
      (persona : String)
      → (ids : List String) × (q.persona_roles persona ≡ ok ids)
        × ((role : String)
            → Memᴰ role ids
              ↔ Row1 db "persona_roles" "persona_id" (Cell.text persona)
                  (λ row. Has "persona_roles" "role_id" row (Cell.text role)))

  -- SELECT role_id FROM role_grants WHERE resource_type = $1 AND resource_id = $2 AND action = $3
  abbrev pub SelectsRoleGrants : Type 0
  SelectsRoleGrants =
      (type id action : String)
      → (ids : List String) × (q.role_grants type id action ≡ ok ids)
        × ((role : String)
            → Memᴰ role ids
              ↔ Row1 db "role_grants" "resource_type" (Cell.text type) (λ row.
                Has "role_grants" "resource_id" row (Cell.text id)
                × Has "role_grants" "action" row (Cell.text action)
                × Has "role_grants" "role_id" row (Cell.text role)))

  -- SELECT persona_id, action FROM acl_entries WHERE resource_id = $1
  abbrev pub SelectsAclEntries : Type 0
  SelectsAclEntries =
      (id : String)
      → (entries : List (String × String)) × (q.acl_entries id ≡ ok entries)
        × ((persona action : String)
            → Memᴰ (persona, action) entries
              ↔ Row1 db "acl_entries" "resource_id" (Cell.text id) (λ row.
                Has "acl_entries" "persona_id" row (Cell.text persona)
                × Has "acl_entries" "action" row (Cell.text action)))

-- The tables hold exactly the rows of the records, in any order and number.
abbrev pub Stores : Database → List Fact → Type 0
Stores db facts =
    (table : String) (row : Row) → Memᴰ row (db table) ↔ Memᴰ row (rows_of table facts)
