-- ===== src/Equivalence/Acl/Agreement.antt =====
-- The two deciders on one ACL check and one dataset.
use mathlib.Core.Logic.{∥∥₁_elim, ∥∥₁_map}
use mathlib.Core.Logic.Iff
use mathlib.Core.HLevel.{⊥_prop}
use test_permission.Base.{
  Bool, true, String, none, some, List, [], ◌≡◌, refl, ◌↔◌, inl, inr, arith, lookup,
}
use test_permission.Base.Float.{Float64}
use test_permission.Base.Fallible.{Fallible, ok, Fallible-cases}
use test_permission.Domain.{EntityUid, Result, allow, deny}
use test_permission.Cedar
use test_permission.Cedar.{
  Engine, EntityMap, to_record, PreparedCheck, CedarRequest, cedar_request, prepare, find_entity,
}
use test_permission.Cedar.Laws.{
  last_entity, converted, prepare-converted, is_ok-prepare, entities_supported, all_supported,
  is_supported, verdict, check-verdict_iff,
}
use test_permission.Spicedb
use test_permission.Spicedb.{
  Client, ConsistencyMode, consistency, resource_types, permission_of, request_context,
  permission_request,
}
use test_permission.Spicedb.Tables.{HasDefinition-iff, HasPermissionName-iff}
use test_permission.Spicedb.Laws.{Supported, Consistent-consistency, check-decision_iff}
use test_permission.Postgres.{load_acl, load_for_check}
use test_permission.Postgres.Queries
use test_permission.Policies.{FollowsPolicies}
use test_permission.Seed.Types.{Fact}
use test_permission.Seed.Relationships.{Relationship, CaveatContext}
use test_permission.Schema.Holders.{Touches}
use test_permission.Database.{Database, SelectsAclEntries, Stores}
use test_permission.Database.Selects.{Shared, acl_entries_iff}
use test_permission.Equivalence.Rbac.Agreement.{
  FollowsSchema, IsDirect, decision_ext, allow_iff, ↔-trans,
}
use test_permission.Equivalence.Acl.{
  Access, view, edit, acl_action, permission_name, acl_request, Gives, Gives-map, acl_slice,
}
use test_permission.Equivalence.Acl.Sides.{
  ActionsKnown, permit_acl_iff, Gives-of_permission, permission_of_Gives,
}

-- The slice of an ACL check is prepared.
prepare-acl_slice :
    (a : Access) (persona resource : String) (rows : List (String × String))
    → (p : PreparedCheck) × (prepare
          (acl_request a persona resource)
          (acl_slice persona resource rows)
        ≡ ok p)
      × ((u : EntityUid)
          → find_entity u p.store ≡ converted (last_entity u (acl_slice persona resource rows)))
      × (p.req ≡ cedar_request (acl_request a persona resource) [])
unfolding to_record all_supported entities_supported is_supported
prepare-acl_slice a persona resource rows =
    let req = acl_request a persona resource in
    let es = acl_slice persona resource rows in
    elim (Fallible-cases (prepare req es)) [
      | inl (p, e) ↦
          let (stored, (context, read, same)) = prepare-converted req es p e in
          let empty : [] ≡ context = ground (arith, read) in (p, e, stored, rw empty same)
      | inr (x, refused) ↦ absurd (ground (arith, is_ok-prepare req es, refused))
    ]

module _ (engine : Engine) (policies : engine.PolicySet) (q : Queries.Queries) (db : Database)
    (facts : List Fact) (stores : Stores db facts) where
  -- Cedar decides an ACL check, and allows it exactly for a persona with an entry that gives it.
  cedar_acl :
      (a : Access) (persona resource : String)
      → FollowsPolicies engine policies
      → SelectsAclEntries q db
      → (c : Result) × (Cedar.check engine policies
            (load_for_check q)
            (acl_request a persona resource)
          ≡ ok c)
        × ((c.decision ≡ allow) ↔ ∥ Gives (Shared facts resource persona) a ∥₁)
  unfolding load_for_check load_acl
  cedar_acl a persona resource follows selects =
      let (rows, read, is_row) = selects resource in
      let req = acl_request a persona resource in
      let es = acl_slice persona resource rows in
      let (p, prepared, stored, same) = prepare-acl_slice a persona resource rows in
      let loaded : load_for_check q req ≡ ok es = rw read refl in
      (
        verdict engine policies (load_for_check q) es p,
        (check-verdict_iff engine policies (load_for_check q) req _).1
            (es, p, loaded, prepared, refl),
        rw same (
            ↔-trans (allow_iff _) (
              ↔-trans (follows p.store (cedar_request req [])) (
                Iff.trunc (
                  ↔-trans (permit_acl_iff persona resource rows p.store stored a) (
                    Gives-map a (λ action.
                      ↔-trans (is_row persona action)
                        (acl_entries_iff facts db stores resource persona action))))))),
      )

is_direct : (a : Access) → IsDirect "acl_document" (permission_name a)
is_direct view = inr (inr (inr (inl (refl, refl))))
is_direct edit = inr (inr (inr (inr (refl, refl))))

acl_supported :
    (a : Access)
    → (lookup "AclDocument" resource_types ≡ some "acl_document")
      × (permission_of "acl" (acl_action a) ≡ some (permission_name a))
unfolding lookup permission_of
acl_supported view = (refl, refl)
acl_supported edit = (refl, refl)

module _ (F : Float64) (client : Client F.T) (accepts_id : String → Bool) (mode : ConsistencyMode)
    (new_struct : CaveatContext → Fallible CaveatContext) (rels : List Relationship)
    (facts : List Fact) (touches : Touches new_struct rels facts) (known : ActionsKnown facts) where
  -- SpiceDB decides an ACL check, and allows it exactly for a persona with an entry that gives it.
  spicedb_acl :
      (a : Access) (persona resource : String)
      → FollowsSchema F client accepts_id rels
      → accepts_id resource ≡ true
      → accepts_id persona ≡ true
      → (s : Result) × (Spicedb.check F client mode (acl_request a persona resource) ≡ ok s)
        × ((s.decision ≡ allow) ↔ ∥ Gives (Shared facts resource persona) a ∥₁)
  unfolding request_context permission_request
  spicedb_acl a persona resource follows good_resource good_persona =
      let req = acl_request a persona resource in
      let sent = permission_request F client mode "acl_document" (permission_name a) req none in
      let supported : Supported F client mode req "acl_document" (permission_name a) none = record {
        resource_type = (HasDefinition-iff "AclDocument" "acl_document").0 (acl_supported a).0;
        action =
            (HasPermissionName-iff "acl" (acl_action a) (permission_name a)).0 (acl_supported a).1;
        with_context = refl;
      } in
      elim (follows sent (is_direct a) refl refl good_resource good_persona) [
        | inl (answer, p) ↦ (
          record { decision = allow; entities_loaded = 0 },
          (check-decision_iff F client mode req _).1 (
            consistency mode,
            "acl_document",
            permission_name a,
            none,
            Consistent-consistency F client mode,
            supported,
            answer,
            refl,
          ),
          (
            λ _.
                ∥∥₁_map p
                  (Gives-of_permission new_struct rels facts touches known a persona resource),
            λ _. refl,
          ),
        )
        | inr (answer, denied) ↦ (
          record { decision = deny; entities_loaded = 0 },
          (check-decision_iff F client mode req _).1 (
            consistency mode,
            "acl_document",
            permission_name a,
            none,
            Consistent-consistency F client mode,
            supported,
            answer,
            refl,
          ),
          (
            λ e. absurd (ground (arith, e)),
            λ h. absurd (
                ∥∥₁_elim h ⊥_prop λ g.
                  denied
                    (permission_of_Gives new_struct rels facts touches known a persona resource g)),
          ),
        )
      ]

-- On one dataset, whose rows fill the tables and whose relationships fill the server, both engines decide every ACL check for viewing or editing a document whose id and whose persona's id the server accepts: each answers without an error, the two decisions are equal, and they allow editing exactly when some record shares the document with the persona for editing, and viewing exactly when some record shares it for viewing or for editing. Conditions: the Cedar engine follows the policy files; the SpiceDB server follows the schema on accepted ids; the selection of the loader returns what its statement selects, and every entry is for one of the two actions.
pub acl_engines_agree :
    (engine : Engine) (policies : engine.PolicySet) (q : Queries.Queries) (db : Database)
    (F : Float64) (client : Client F.T) (accepts_id : String → Bool) (mode : ConsistencyMode)
    (new_struct : CaveatContext → Fallible CaveatContext) (rels : List Relationship)
    (facts : List Fact) (a : Access) (persona resource : String)
    → FollowsPolicies engine policies
    → FollowsSchema F client accepts_id rels
    → accepts_id resource ≡ true
    → accepts_id persona ≡ true
    → Stores db facts
    → SelectsAclEntries q db
    → Touches new_struct rels facts
    → ActionsKnown facts
    → (c s : Result) × (Cedar.check engine policies
          (load_for_check q)
          (acl_request a persona resource)
        ≡ ok c)
      × (Spicedb.check F client mode (acl_request a persona resource) ≡ ok s)
      × (c.decision ≡ s.decision)
      × ((c.decision ≡ allow) ↔ ∥ Gives (Shared facts resource persona) a ∥₁)
acl_engines_agree engine policies q db F client accepts_id mode new_struct rels facts a persona
      resource policies_followed schema_followed good_resource good_persona stores selects touches
      known =
    let (c, by_cedar, cedar_iff) =
      cedar_acl engine policies q db facts stores a persona resource policies_followed selects in
    let (s, by_spicedb, spicedb_iff) =
      spicedb_acl F client accepts_id mode new_struct rels facts touches known a persona resource
        schema_followed good_resource good_persona in
    (
      c,
      s,
      by_cedar,
      by_spicedb,
      decision_ext c.decision s.decision cedar_iff spicedb_iff,
      cedar_iff,
    )
