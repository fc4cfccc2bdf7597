-- ===== src/Postgres/Queries.antt =====
-- The SQL statements of internal/adapter/outbound/postgres/loader.go: what each takes and returns.
-- An outer `none` is pgx.ErrNoRows, an inner one a NULL column.
use test_permission.Base.{Bool, String, Option, List}
use test_permission.Base.Int.{ℤ}
use test_permission.Base.Fallible.{Fallible}

pub record FolderRow : Type 0 where
  pub id : String
  pub parent_id : Option String
  pub org_id : String
  pub shared_org_id : Option String

pub record PersonaAttrs : Type 0 where
  pub clearance : ℤ
  pub division : String
  pub region : String

pub record DocAttrs : Type 0 where
  pub classification : ℤ
  pub division : String
  pub status : String
  pub region : String

pub record PolicyAttrs : Type 0 where
  pub active : Bool
  pub min_amount : ℤ
  pub max_amount : ℤ
  pub regions : List String

pub record Queries : Type 0 where
  pub persona_roles : String → Fallible (List String)
  pub role_grants : String → String → String → Fallible (List String)
  pub unit_memberships : String → Fallible (List String)
  pub document_folder : String → Fallible (Option (Option String))
  pub folder_chain : String → Fallible (List FolderRow)
  pub org_chain : List String → Fallible (List (String × Option String))
  pub persona_attrs : String → Fallible (Option PersonaAttrs)
  pub abac_document : String → Fallible (Option DocAttrs)
  pub pbac_assignments : String → Fallible (List String)
  pub purchase_order : String → Fallible (Option String)
  pub pbac_policy : String → Fallible (Option PolicyAttrs)
  pub acl_entries : String → Fallible (List (String × String))
