-- ===== src/Database/Selects.antt =====
-- What the selections of the loader say of the records behind the tables.
use test_permission.Base.{String, List, [], ◌∷◌, ◌≡◌, refl, ◌↔◌, arith, Memᴰ}
use test_permission.Base.Fallible.{ok}
use test_permission.Seed.Types.{Fact, PersonaRole, RoleGrant, AclEntry}
use test_permission.Seed.Rows.{Cell, Row, cols_of, row_of}
use test_permission.Database.{Database, cell, Has, Row1, Stores}
use test_permission.Database.Facts.{
  mem-rows_of, persona_role_of_row, role_grant_of_row, acl_entry_of_row,
}

module _ (facts : List Fact) where
  -- The persona has the role, by a record of the stream.
  pub record Assigned (persona role : String) : Type 0 where
    pub assignment : PersonaRole
    pub listed : Memᴰ (Fact.persona_role assignment) facts
    pub of_persona : assignment.persona_id ≡ persona
    pub of_role : assignment.role_id ≡ role

  pub record Granted (type id action role : String) : Type 0 where
    pub grant : RoleGrant
    pub listed : Memᴰ (Fact.role_grant grant) facts
    pub of_type : grant.resource_type ≡ type
    pub of_resource : grant.resource_id ≡ id
    pub of_action : grant.action ≡ action
    pub of_role : grant.role_id ≡ role

  pub record Shared (id persona action : String) : Type 0 where
    pub entry : AclEntry
    pub listed : Memᴰ (Fact.acl_entry entry) facts
    pub of_resource : entry.resource_id ≡ id
    pub of_persona : entry.persona_id ≡ persona
    pub of_action : entry.action ≡ action

  module _ (db : Database) (stores : Stores db facts) where
    stored_row :
        (table : String) (row : Row) (f : Fact)
        → Memᴰ f facts
        → row_of f ≡ ok (table, row)
        → Memᴰ row (db table)
    stored_row table row f m e = (stores table row).1 ((mem-rows_of table facts row).1 (f, m, e))

    -- Where the tables hold exactly the rows that the Postgres writer makes of a list of records: a row of persona_roles has the persona and the role in its columns exactly when some record assigns that role to that persona.
    pub persona_roles_iff :
        (persona role : String)
        → Row1 db "persona_roles" "persona_id"
            (Cell.text persona)
            (λ row. Has "persona_roles" "role_id" row (Cell.text role))
          ↔ Assigned persona role
    unfolding row_of cols_of cell
    persona_roles_iff persona role = (
      λ (row, m, a, b).
          let (f, listed, e) =
            (mem-rows_of "persona_roles" facts row).0 ((stores "persona_roles" row).0 m) in
          let (pr, same) = persona_role_of_row f row e in
          let e' : row_of (Fact.persona_role pr) ≡ ok ("persona_roles", row) = rw same at e in
          record {
            assignment = pr;
            listed = rw same at listed;
            of_persona = ground arith;
            of_role = ground arith;
          },
      λ g.
          let pr = g.assignment in
          let row : Row =
            Cell.text pr.persona_id ∷ Cell.text pr.role_id ∷ Cell.text pr.org_id ∷ [] in
          (
            row,
            stored_row "persona_roles" row (Fact.persona_role pr) g.listed refl,
            ground (arith, g.of_persona),
            ground (arith, g.of_role),
          ),
    )

    -- Where the tables hold exactly the rows that the Postgres writer makes of a list of records: a row of role_grants has the type, the resource, the action and the role in the columns that the loader's statement names exactly when some record grants that action on that resource to that role.
    pub role_grants_iff :
        (type id action role : String)
        → Row1 db "role_grants" "resource_type" (Cell.text type) (λ row.
          Has "role_grants" "resource_id" row (Cell.text id)
          × Has "role_grants" "action" row (Cell.text action)
          × Has "role_grants" "role_id" row (Cell.text role))
          ↔ Granted type id action role
    unfolding row_of cols_of cell
    role_grants_iff type id action role = (
      λ (row, m, a, b).
          let (f, listed, e) =
            (mem-rows_of "role_grants" facts row).0 ((stores "role_grants" row).0 m) in
          let (rg, same) = role_grant_of_row f row e in
          let e' : row_of (Fact.role_grant rg) ≡ ok ("role_grants", row) = rw same at e in
          record {
            grant = rg;
            listed = rw same at listed;
            of_type = ground arith;
            of_resource = ground (arith, b.0);
            of_action = ground (arith, b.1);
            of_role = ground (arith, b.2);
          },
      λ g.
          let rg = g.grant in
          let row : Row =
            Cell.text rg.role_id
            ∷ Cell.text rg.resource_type
            ∷ Cell.text rg.resource_id
            ∷ Cell.text rg.action
            ∷ [] in
          (
            row,
            stored_row "role_grants" row (Fact.role_grant rg) g.listed refl,
            ground (arith, g.of_type),
            (ground (arith, g.of_resource), ground (arith, g.of_action), ground (arith, g.of_role)),
          ),
    )

    -- Where the tables hold exactly the rows that the Postgres writer makes of a list of records: a row of acl_entries has the document, the persona and the action in the columns that the loader's statement names exactly when some record shares that document with that persona for that action.
    pub acl_entries_iff :
        (id persona action : String)
        → Row1 db "acl_entries" "resource_id" (Cell.text id) (λ row.
          Has "acl_entries" "persona_id" row (Cell.text persona)
          × Has "acl_entries" "action" row (Cell.text action))
          ↔ Shared id persona action
    unfolding row_of cols_of cell
    acl_entries_iff id persona action = (
      λ (row, m, a, b).
          let (f, listed, e) =
            (mem-rows_of "acl_entries" facts row).0 ((stores "acl_entries" row).0 m) in
          let (en, same) = acl_entry_of_row f row e in
          let e' : row_of (Fact.acl_entry en) ≡ ok ("acl_entries", row) = rw same at e in
          record {
            entry = en;
            listed = rw same at listed;
            of_resource = ground arith;
            of_persona = ground (arith, b.0);
            of_action = ground (arith, b.1);
          },
      λ g.
          let en = g.entry in
          let row : Row =
            Cell.text en.resource_id ∷ Cell.text en.persona_id ∷ Cell.text en.action ∷ [] in
          (
            row,
            stored_row "acl_entries" row (Fact.acl_entry en) g.listed refl,
            ground (arith, g.of_resource),
            (ground (arith, g.of_persona), ground (arith, g.of_action)),
          ),
    )
