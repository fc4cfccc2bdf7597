-- ===== src/Seed/Rows.antt =====
-- internal/seed/writer_postgres.go: the tables, and the row that each record becomes.
use test_permission.Base.{Bool, String, none, some, List, [], ◌∷◌, ◌==◌, if◌then◌else◌, lookup}
use test_permission.Base.Int.{ℤ, pos}
use test_permission.Base.Fallible.{Fallible, ok, err, fault}
use test_permission.Seed.Types.{RegistryResource, Fact}

-- A value of a row: text, integer, boolean, text[] or NULL.
pub data Cell : Type 0 where
  null : Cell
  text : String → Cell
  integer : ℤ → Cell
  boolean : Bool → Cell
  texts : List String → Cell

abbrev pub Row : Type 0
Row = List Cell

-- The column orders that the rows below must match.
abbrev pub table_cols : List (String × List String)
table_cols =
    ("organizations", "id" ∷ "parent_id" ∷ "root_id" ∷ "name" ∷ "depth" ∷ "region" ∷ [])
    ∷ ("divisions", "id" ∷ "org_id" ∷ "key" ∷ "name" ∷ "is_default" ∷ [])
    ∷ ("roles", "id" ∷ "org_id" ∷ "key" ∷ "name" ∷ "is_default" ∷ [])
    ∷ ("accounts", "id" ∷ "email" ∷ "name" ∷ [])
    ∷ (
      "personas",
      "id" ∷ "account_id" ∷ "org_id" ∷ "division_id" ∷ "clearance" ∷ "employment_type" ∷ "region"
          ∷ [],
    )
    ∷ ("endpoints", "id" ∷ "service_key" ∷ "method" ∷ "path" ∷ [])
    ∷ ("pages", "id" ∷ "service_key" ∷ "route" ∷ [])
    ∷ ("components", "id" ∷ "service_key" ∷ "page_id" ∷ [])
    ∷ ("persona_roles", "persona_id" ∷ "role_id" ∷ "org_id" ∷ [])
    ∷ ("role_grants", "role_id" ∷ "resource_type" ∷ "resource_id" ∷ "action" ∷ [])
    ∷ ("folders", "id" ∷ "org_id" ∷ "parent_id" ∷ "shared_org_id" ∷ [])
    ∷ ("rebac_documents", "id" ∷ "folder_id" ∷ "owner_persona_id" ∷ [])
    ∷ ("unit_memberships", "persona_id" ∷ "org_id" ∷ "relation" ∷ [])
    ∷ (
      "abac_documents",
      "id" ∷ "org_id" ∷ "division_key" ∷ "classification" ∷ "status" ∷ "region" ∷ [],
    )
    ∷ (
      "pbac_policies",
      "id" ∷ "org_id" ∷ "name" ∷ "division_key" ∷ "min_amount" ∷ "max_amount" ∷ "regions" ∷ "active"
          ∷ [],
    )
    ∷ ("pbac_assignments", "persona_id" ∷ "policy_id" ∷ [])
    ∷ ("purchase_orders", "id" ∷ "org_id" ∷ "policy_id" ∷ "division_key" ∷ "region" ∷ [])
    ∷ ("acl_documents", "id" ∷ "org_id" ∷ [])
    ∷ ("acl_entries", "resource_id" ∷ "persona_id" ∷ "action" ∷ [])
    ∷ []

-- `tableCols[table]`, nil for an unknown table.
unfoldable pub cols_of : String → List String
unfolding lookup
cols_of table = elim (lookup table table_cols) [ none ↦ [] | some cols ↦ cols ]

-- "" becomes NULL.
unfoldable pub nullable : String → Cell
nullable s = if s == "" then Cell.null else Cell.text s

-- The table of a registry resource, and its row.
unfoldable pub resource_row : RegistryResource → Fallible (String × Row)
resource_row r =
    if r.kind == "endpoint"
    then ok (
      "endpoints",
      Cell.text r.id ∷ Cell.text r.service_key ∷ Cell.text r.method ∷ Cell.text r.path ∷ [],
    )
    else (if r.kind == "page"
        then ok ("pages", Cell.text r.id ∷ Cell.text r.service_key ∷ Cell.text r.route ∷ [])
        else (if r.kind == "component"
            then ok
                ("components", Cell.text r.id ∷ Cell.text r.service_key ∷ Cell.text r.page_id ∷ [])
            else err (fault "unknown resource kind")))

-- What each record method hands to `add`.
unfoldable pub row_of : Fact → Fallible (String × Row)
unfolding resource_row nullable
row_of (Fact.org o) = ok (
  "organizations",
  Cell.text o.id
      ∷ nullable o.parent_id
      ∷ Cell.text o.root_id
      ∷ Cell.text o.name
      ∷ Cell.integer (pos o.depth)
      ∷ Cell.text o.region
      ∷ [],
)
row_of (Fact.division d) = ok (
  "divisions",
  Cell.text d.id
      ∷ Cell.text d.org_id
      ∷ Cell.text d.key
      ∷ Cell.text d.name
      ∷ Cell.boolean d.is_default
      ∷ [],
)
row_of (Fact.role r) = ok (
  "roles",
  Cell.text r.id
      ∷ Cell.text r.org_id
      ∷ Cell.text r.key
      ∷ Cell.text r.name
      ∷ Cell.boolean r.is_default
      ∷ [],
)
row_of (Fact.account a) =
    ok ("accounts", Cell.text a.id ∷ Cell.text a.email ∷ Cell.text a.name ∷ [])
row_of (Fact.persona p) = ok (
  "personas",
  Cell.text p.id
      ∷ Cell.text p.account_id
      ∷ Cell.text p.org_id
      ∷ Cell.text p.division_id
      ∷ Cell.integer p.clearance
      ∷ Cell.text p.employment_type
      ∷ Cell.text p.region
      ∷ [],
)
row_of (Fact.resource r) = resource_row r
row_of (Fact.persona_role pr) =
    ok ("persona_roles", Cell.text pr.persona_id ∷ Cell.text pr.role_id ∷ Cell.text pr.org_id ∷ [])
row_of (Fact.role_grant rg) = ok (
  "role_grants",
  Cell.text rg.role_id
      ∷ Cell.text rg.resource_type
      ∷ Cell.text rg.resource_id
      ∷ Cell.text rg.action
      ∷ [],
)
row_of (Fact.folder f) = ok (
  "folders",
  Cell.text f.id ∷ Cell.text f.org_id ∷ nullable f.parent_id ∷ nullable f.shared_org_id ∷ [],
)
row_of (Fact.rebac_doc d) =
    ok (
      "rebac_documents",
      Cell.text d.id ∷ Cell.text d.folder_id ∷ Cell.text d.owner_persona_id ∷ [],
    )
row_of (Fact.membership m) =
    ok ("unit_memberships", Cell.text m.persona_id ∷ Cell.text m.org_id ∷ Cell.text m.relation ∷ [])
row_of (Fact.abac_doc d) = ok (
  "abac_documents",
  Cell.text d.id
      ∷ Cell.text d.org_id
      ∷ Cell.text d.division_key
      ∷ Cell.integer d.classification
      ∷ Cell.text d.status
      ∷ Cell.text d.region
      ∷ [],
)
row_of (Fact.pbac_policy p) = ok (
  "pbac_policies",
  Cell.text p.id
      ∷ Cell.text p.org_id
      ∷ Cell.text p.name
      ∷ Cell.text p.division_key
      ∷ Cell.integer p.min_amount
      ∷ Cell.integer p.max_amount
      ∷ Cell.texts p.regions
      ∷ Cell.boolean p.active
      ∷ [],
)
row_of (Fact.pbac_assignment a) =
    ok ("pbac_assignments", Cell.text a.persona_id ∷ Cell.text a.policy_id ∷ [])
row_of (Fact.purchase_order po) = ok (
  "purchase_orders",
  Cell.text po.id
      ∷ Cell.text po.org_id
      ∷ Cell.text po.policy_id
      ∷ Cell.text po.division_key
      ∷ Cell.text po.region
      ∷ [],
)
row_of (Fact.acl_doc d) = ok ("acl_documents", Cell.text d.id ∷ Cell.text d.org_id ∷ [])
row_of (Fact.acl_entry e) =
    ok ("acl_entries", Cell.text e.resource_id ∷ Cell.text e.persona_id ∷ Cell.text e.action ∷ [])
