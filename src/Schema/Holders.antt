-- ===== src/Schema/Holders.antt =====
-- The relationships of a server that holds what the writer wrote, in terms of the records.
use test_permission.Base.{String, List, ◌≡◌, refl, ◌↔◌, ◌==◌, arith, Memᴰ, if◌then◌else◌}
use test_permission.Base.Fallible.{Fallible}
use test_permission.Seed.Types.{Fact}
use test_permission.Seed.Relationships.{Relationship, CaveatContext, acl_relation}
use test_permission.Seed.SpicedbWriter.Phases.{rels_given}
use test_permission.Schema.{Related}
use test_permission.Schema.Facts.{Writes, mem-rels_given, mem-Writes}
use test_permission.Schema.Origins.{assignee_of_Writes, allowed_role_of_Writes, acl_of_Writes}
use test_permission.Database.Selects.{Assigned, Granted, Shared}

-- The server holds exactly the relationships of the records.
abbrev pub Touches :
    (CaveatContext → Fallible CaveatContext) → List Relationship → List Fact → Type 0
Touches new_struct rels facts =
    (r : Relationship) → Memᴰ r rels ↔ Memᴰ r (rels_given new_struct facts)

module _ (new_struct : CaveatContext → Fallible CaveatContext) (rels : List Relationship)
    (given : CaveatContext) (facts : List Fact) (touches : Touches new_struct rels facts) where
  -- A relationship is held exactly when some record writes it.
  pub held_iff :
      (r : Relationship) → Memᴰ r rels ↔ ((f : Fact) × Memᴰ f facts × Writes new_struct f r)
  held_iff r = (
    λ m.
        let (f, listed, w) = (mem-rels_given new_struct facts r).0 ((touches r).0 m) in
        (f, listed, (mem-Writes new_struct f r).0 w),
    λ (f, listed, w).
        (touches r).1
          ((mem-rels_given new_struct facts r).1 (f, listed, (mem-Writes new_struct f r).1 w)),
  )

  -- Where the server holds exactly the relationships of a list of records: a persona is an assignee of a role exactly when some record assigns the role to the persona.
  pub assignee_iff :
      (role persona : String)
      → Related rels given "role" role "assignee" "persona" persona "" ↔ Assigned facts persona role
  assignee_iff role persona = (
    λ m.
        let (f, listed, w) = (held_iff _).0 m in
        let (pr, same, r, p) = assignee_of_Writes new_struct f role persona w in
        record { assignment = pr; listed = rw same at listed; of_persona = p; of_role = r },
    λ a.
        (held_iff _).1
          (Fact.persona_role a.assignment, a.listed, ground (arith, a.of_persona, a.of_role)),
  )

  -- Where the server holds exactly the relationships that the SpiceDB writer makes of a list of records, with structs that keep their maps: the assignees of a role are allowed on a resource exactly when some record grants an action on that resource to the role, whatever that action is; no record of another kind makes such a relationship.
  pub allowed_role_iff :
      (def_type id role : String)
      → Related rels given def_type id "allowed_role" "role" role "assignee"
        ↔ ((action : String) × Granted facts def_type id action role)
  allowed_role_iff def_type id role = (
    λ m.
        let (f, listed, w) = (held_iff _).0 m in
        let (rg, same, t, i, r) = allowed_role_of_Writes new_struct f def_type id role w in
        (
          rg.action,
          record {
            grant = rg;
            listed = rw same at listed;
            of_type = t;
            of_resource = i;
            of_action = refl;
            of_role = r;
          },
        ),
    λ (action, g).
        (held_iff _).1
          (Fact.role_grant g.grant, g.listed, ground (arith, g.of_type, g.of_resource, g.of_role)),
  )

  -- Where the server holds exactly the relationships that the SpiceDB writer makes of a list of records, with structs that keep their maps: a persona has a relation to an ACL document exactly when some entry shares the document with the persona and its action maps to that relation, "edit" to editor and every other action to viewer.
  pub acl_iff :
      (id relation persona : String)
      → Related rels given "acl_document" id relation "persona" persona "" ↔ (
          (action : String) × Shared facts id persona action
          × ((if action == "edit" then "editor" else "viewer") ≡ relation))
  unfolding acl_relation
  acl_iff id relation persona = (
    λ m.
        let (f, listed, w) = (held_iff _).0 m in
        let (e, same, i, a, p) = acl_of_Writes new_struct f id relation persona w in
        (
          e.action,
          record {
            entry = e;
            listed = rw same at listed;
            of_resource = i;
            of_persona = p;
            of_action = refl;
          },
          a,
        ),
    λ (action, s, a). (held_iff _).1 (
      Fact.acl_entry s.entry,
      s.listed,
      ground (arith, s.of_resource, s.of_persona, s.of_action, a),
    ),
  )
