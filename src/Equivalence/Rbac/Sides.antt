-- ===== src/Equivalence/Rbac/Sides.antt =====
-- What each engine decides for an RBAC check: policies/rbac.cedar on the prepared store, and
-- `allowed_role` of schema/spicedb/schema.zed on the relationships.
use test_permission.Base.{String, some, List, [], ◌≡◌, ◌≢◌, refl, sym, ◌∙◌, ◌↔◌, arith, Memᴰ}
use test_permission.Base.Fallible.{Fallible}
use test_permission.Cedar.{EntityMap, set, uid_elems, CedarRequest, cedar_request}
use test_permission.Postgres.{uid_of, refs}
use test_permission.Policies.{InAllowedRoles, Permit, Forbid}
use test_permission.Seed.Types.{Fact, RoleGrant}
use test_permission.Seed.Relationships.{Relationship, CaveatContext}
use test_permission.Schema.{HasAllowedRole, HasPermission}
use test_permission.Schema.Holders.{Touches, assignee_iff, allowed_role_iff}
use test_permission.Database.Selects.{Assigned, Granted}
use test_permission.Equivalence.Store.{mem-refs, mem-uid_elems, uid_elems-AllEntities}
use test_permission.Equivalence.Rbac.{
  Kind, endpoint, page, component, cedar_type, def_type, action_on, rbac_request, rbac_slice,
  Stored, allowed_roles_in_store, persona-In_role_iff,
}

-- The Cedar types of the other models' resources, and their definitions in the schema.
not_cedar_type :
    (k : Kind)
    → (cedar_type k ≢ "RebacDocument")
      × (cedar_type k ≢ "AbacDocument")
      × (cedar_type k ≢ "PurchaseOrder")
      × (cedar_type k ≢ "AclDocument")
not_cedar_type endpoint = (λ h. cc, λ h. cc, λ h. cc, λ h. cc)
not_cedar_type page = (λ h. cc, λ h. cc, λ h. cc, λ h. cc)
not_cedar_type component = (λ h. cc, λ h. cc, λ h. cc, λ h. cc)

not_def_type :
    (k : Kind)
    → (def_type k ≢ "rebac_document")
      × (def_type k ≢ "abac_document")
      × (def_type k ≢ "purchase_order")
      × (def_type k ≢ "acl_document")
not_def_type endpoint = (λ h. cc, λ h. cc, λ h. cc, λ h. cc)
not_def_type page = (λ h. cc, λ h. cc, λ h. cc, λ h. cc)
not_def_type component = (λ h. cc, λ h. cc, λ h. cc, λ h. cc)

module _ (k : Kind) (persona resource : String) (role_ids grant_ids : List String)
    (store : EntityMap)
    (stored : Stored store (rbac_slice k persona resource role_ids grant_ids)) where
  abbrev check_request : CedarRequest
  check_request = cedar_request (rbac_request k persona resource) []

  in_allowed_roles_iff :
      InAllowedRoles store check_request
      ↔ ((role : String) × Memᴰ role role_ids × Memᴰ role grant_ids)
  in_allowed_roles_iff = (to, from)
    where
      to :
          InAllowedRoles store check_request
          → (role : String) × Memᴰ role role_ids × Memᴰ role grant_ids
      to a =
          let (t, m, above) = a.is_in in
          let e : some (set a.allowed) ≡ some (set (uid_elems (refs "Role" grant_ids))) =
            sym a.has_allowed
            ∙ allowed_roles_in_store k persona resource role_ids grant_ids store stored in
          let same : a.allowed ≡ uid_elems (refs "Role" grant_ids) = ground (arith, e) in
          let (role, granted, is_role) =
            (mem-refs "Role" grant_ids t).0
              ((mem-uid_elems (refs "Role" grant_ids) t).0 (rw same at m)) in
          (
            role,
            (persona-In_role_iff k persona resource role_ids grant_ids store stored role).0
                (rw is_role at above),
            granted,
          )

      from :
          (role : String) × Memᴰ role role_ids × Memᴰ role grant_ids
          → InAllowedRoles store check_request
      from (role, held, granted) = record {
        allowed = uid_elems (refs "Role" grant_ids);
        has_allowed = allowed_roles_in_store k persona resource role_ids grant_ids store stored;
        only_entities = uid_elems-AllEntities (refs "Role" grant_ids);
        is_in = (
          uid_of "Role" role,
          (mem-uid_elems (refs "Role" grant_ids) (uid_of "Role" role)).1
              ((mem-refs "Role" grant_ids (uid_of "Role" role)).1 (role, granted, refl)),
          (persona-In_role_iff k persona resource role_ids grant_ids store stored role).1 held,
        );
      }

permit_of_roles :
    (k : Kind) (persona resource : String) (store : EntityMap)
    → InAllowedRoles store (cedar_request (rbac_request k persona resource) [])
    → Permit store (cedar_request (rbac_request k persona resource) [])
permit_of_roles endpoint persona resource store a = Permit.execute (refl, refl) a
permit_of_roles page persona resource store a = Permit.view (refl, refl) a
permit_of_roles component persona resource store a = Permit.render (refl, refl) a

roles_of_permit :
    (k : Kind) (persona resource : String) (store : EntityMap)
    → Permit store (cedar_request (rbac_request k persona resource) [])
    → InAllowedRoles store (cedar_request (rbac_request k persona resource) [])
roles_of_permit k persona resource store (Permit.execute scope a) = a
roles_of_permit k persona resource store (Permit.view scope a) = a
roles_of_permit k persona resource store (Permit.render scope a) = a
roles_of_permit k persona resource store (Permit.doc_view (_, type) a) =
    absurd ((not_cedar_type k).0 type)
roles_of_permit k persona resource store (Permit.doc_read (_, type) a) =
    absurd ((not_cedar_type k).1 type)
roles_of_permit k persona resource store (Permit.po_approve (_, type) a) =
    absurd ((not_cedar_type k).2 type)
roles_of_permit k persona resource store (Permit.acl_view (_, type) a) =
    absurd ((not_cedar_type k).3 type)
roles_of_permit k persona resource store (Permit.acl_edit (_, type) a) =
    absurd ((not_cedar_type k).3 type)

module _ (k : Kind) (persona resource : String) (role_ids grant_ids : List String)
    (store : EntityMap)
    (stored : Stored store (rbac_slice k persona resource role_ids grant_ids)) where
  -- Cedar permits the check exactly when one of the persona's roles is granted the action.
  pub cedar_allows_iff :
      (Permit store (cedar_request (rbac_request k persona resource) [])
        × (¬ (Forbid store (cedar_request (rbac_request k persona resource) []))))
      ↔ ((role : String) × Memᴰ role role_ids × Memᴰ role grant_ids)
  cedar_allows_iff = (
    λ (p, _).
        (in_allowed_roles_iff k persona resource role_ids grant_ids store stored).0
          (roles_of_permit k persona resource store p),
    λ h. (
      permit_of_roles k persona resource store
          ((in_allowed_roles_iff k persona resource role_ids grant_ids store stored).1 h),
      λ ((_, type), _). (not_cedar_type k).1 type,
    ),
  )

-- The persona has a role that is granted the kind's action on the resource.
abbrev pub HoldsRole : List Fact → Kind → String → String → Type 0
HoldsRole facts k persona resource =
    (role : String) × Assigned facts persona role
    × Granted facts (def_type k) resource (action_on k) role

-- Every grant on a resource of a kind is for the kind's one action.
abbrev pub GrantsMatch : List Fact → Kind → Type 0
GrantsMatch facts k =
    (g : RoleGrant)
    → Memᴰ (Fact.role_grant g) facts
    → g.resource_type ≡ def_type k
    → g.action ≡ action_on k

module _ (rels : List Relationship) (given : CaveatContext) where
  allowed_of_permission :
      (k : Kind) (persona resource : String)
      → HasPermission rels given persona (def_type k) resource (action_on k)
      → HasAllowedRole rels given (def_type k) resource persona
  allowed_of_permission k persona resource (HasPermission.execute type _ a) = rw type a
  allowed_of_permission k persona resource (HasPermission.view_page type _ a) = rw type a
  allowed_of_permission k persona resource (HasPermission.render type _ a) = rw type a
  allowed_of_permission k persona resource (HasPermission.view_doc type _ a) =
      absurd ((not_def_type k).0 type)
  allowed_of_permission k persona resource (HasPermission.read type _ a) =
      absurd ((not_def_type k).1 type)
  allowed_of_permission k persona resource (HasPermission.approve type _ a) =
      absurd ((not_def_type k).2 type)
  allowed_of_permission k persona resource (HasPermission.view_acl type _ a) =
      absurd ((not_def_type k).3 type)
  allowed_of_permission k persona resource (HasPermission.edit_acl type _ a) =
      absurd ((not_def_type k).3 type)

  permission_of_allowed :
      (k : Kind) (persona resource : String)
      → HasAllowedRole rels given (def_type k) resource persona
      → HasPermission rels given persona (def_type k) resource (action_on k)
  permission_of_allowed endpoint persona resource a = HasPermission.execute refl refl a
  permission_of_allowed page persona resource a = HasPermission.view_page refl refl a
  permission_of_allowed component persona resource a = HasPermission.render refl refl a

module _ (new_struct : CaveatContext → Fallible CaveatContext) (rels : List Relationship)
    (given : CaveatContext) (facts : List Fact) (touches : Touches new_struct rels facts) where
  -- SpiceDB gives the permission exactly when the persona has a role that is granted the action.
  pub spicedb_allows_iff :
      (k : Kind) (persona resource : String)
      → GrantsMatch facts k
      → HasPermission rels given persona (def_type k) resource (action_on k)
        ↔ HoldsRole facts k persona resource
  spicedb_allows_iff k persona resource grants_match = (
    λ p.
        let a = allowed_of_permission rels given k persona resource p in
        let (action, g) =
          (allowed_role_iff new_struct rels given facts touches (def_type k) resource a.role).0
            a.allowed in
        let same : action ≡ action_on k =
          sym g.of_action ∙ grants_match g.grant g.listed g.of_type in
        (
          a.role,
          (assignee_iff new_struct rels given facts touches a.role persona).0 a.assigned,
          rw same at g,
        ),
    λ (role, held, g). permission_of_allowed rels given k persona resource (record {
      role = role;
      allowed =
          (allowed_role_iff new_struct rels given facts touches (def_type k) resource role).1
            (action_on k, g);
      assigned = (assignee_iff new_struct rels given facts touches role persona).1 held;
    }),
  )
