-- ===== src/Equivalence/Rbac/Agreement.antt =====
-- The two deciders, internal/adapter/outbound/cedar/engine.go over
-- internal/adapter/outbound/postgres/loader.go and internal/adapter/outbound/spicedb/decider.go, on
-- one RBAC check and one dataset.
use mathlib.Core.Logic.{∥∥₁_elim, ∥∥₁_map}
use mathlib.Core.Logic.Iff
use mathlib.Core.HLevel.{⊥_prop}
use test_permission.Base.{
  Bool, true, false, String, none, some, List, [], ◌≡◌, refl, sym, ◌↔◌, ◌⊎◌, inl, inr, arith,
  lookup, if◌then◌else◌,
}
use test_permission.Base.Float.{Float64}
use test_permission.Base.Fallible.{Fallible, ok}
use test_permission.Domain.{Result, allow, deny, Decision}
use test_permission.Cedar
use test_permission.Cedar.{Engine, PreparedCheck, prepare, cedar_request, to_record, EntityMap}
use test_permission.Cedar.Laws.{check-verdict_iff, verdict}
use test_permission.Spicedb
use test_permission.Spicedb.{
  Client, ConsistencyMode, consistency, CheckRequest, Permissionship, resource_types, permission_of,
  request_context, permission_request,
}
use test_permission.Spicedb.Tables.{HasDefinition-iff, HasPermissionName-iff}
use test_permission.Spicedb.Laws.{Supported, Consistent-consistency, check-decision_iff}
use test_permission.Seed.Types.{Fact}
use test_permission.Seed.Relationships.{Relationship, CaveatContext}
use test_permission.Postgres.{load_for_check}
use test_permission.Postgres.Queries
use test_permission.Policies.{FollowsPolicies}
use test_permission.Schema.{HasPermission}
use test_permission.Schema.Holders.{Touches}
use test_permission.Database.{Database, SelectsPersonaRoles, SelectsRoleGrants, Stores}
use test_permission.Database.Selects.{persona_roles_iff, role_grants_iff}
use test_permission.Equivalence.Rbac.{
  Kind, endpoint, page, component, cedar_type, def_type, action_on, rbac_request, rbac_slice,
}
use test_permission.Equivalence.Rbac.Preparing.{prepare-rbac_slice, load_for_check-rbac}
use test_permission.Equivalence.Rbac.Sides.{
  cedar_allows_iff, spicedb_allows_iff, HoldsRole, GrantsMatch,
}

-- The permissions of the schema that stand on relationships one step away and on no caveat.
abbrev pub IsDirect : String → String → Type 0
IsDirect def_type perm =
    ((def_type ≡ "endpoint") × (perm ≡ "execute"))
    ⊎ ((def_type ≡ "page") × (perm ≡ "view"))
    ⊎ ((def_type ≡ "component") × (perm ≡ "render"))
    ⊎ ((def_type ≡ "acl_document") × (perm ≡ "view"))
    ⊎ ((def_type ≡ "acl_document") × (perm ≡ "edit"))

-- Documented behaviour of the server, where `accepts_id` is its test of an object id (letters,
-- digits and a few signs, never ":"): asked, without a context, for one of these permissions with a
-- resource and a persona whose ids it accepts, it has the permission or does not, as the schema says
-- of its relationships. Nothing is said of other ids, definitions and permissions, where it fails.
abbrev pub FollowsSchema :
    (F : Float64) → Client F.T → (accepts_id : String → Bool) → List Relationship → Type 0
FollowsSchema F client accepts_id rels =
    (r : CheckRequest client.Struct)
    → IsDirect r.object_type r.permission
    → r.subject_type ≡ "persona"
    → r.context ≡ none
    → accepts_id r.object_id ≡ true
    → accepts_id r.subject_id ≡ true
    → ((client.check_permission r ≡ ok Permissionship.has_permission)
        × ∥ HasPermission rels [] r.subject_id r.object_type r.object_id r.permission ∥₁)
      ⊎ ((client.check_permission r ≡ ok Permissionship.no_permission)
          × (¬ (HasPermission rels [] r.subject_id r.object_type r.object_id r.permission)))

-- The kind's definition and permission, as the decider maps them.
supported_kind :
    (k : Kind)
    → (lookup (cedar_type k) resource_types ≡ some (def_type k))
      × (permission_of "rbac" (action_on k) ≡ some (action_on k))
unfolding lookup permission_of
supported_kind endpoint = (refl, refl)
supported_kind page = (refl, refl)
supported_kind component = (refl, refl)

pub decision_ext {ℓ} :
    {Holds : Type ℓ} (c s : Decision) → ((c ≡ allow) ↔ Holds) → ((s ≡ allow) ↔ Holds) → c ≡ s
decision_ext allow allow _ _ = refl
decision_ext deny deny _ _ = refl
decision_ext allow deny c s = sym (s.1 (c.0 refl))
decision_ext deny allow c s = c.1 (s.0 refl)

pub allow_iff : (b : Bool) → ((if b then allow else deny) ≡ allow) ↔ (b ≡ true)
allow_iff true = (λ _. refl, λ _. refl)
allow_iff false = (λ h. cc, λ h. cc)

pub ↔-trans {ℓ} : {A B C : Type ℓ} → (A ↔ B) → (B ↔ C) → A ↔ C
↔-trans f g = (λ a. g.0 (f.0 a), λ c. f.1 (g.1 c))

module _ (engine : Engine) (policies : engine.PolicySet) (q : Queries.Queries) (db : Database)
    (facts : List Fact) (stores : Stores db facts) where
  -- Cedar decides an RBAC check, and allows it exactly for a persona with a granted role.
  pub cedar_rbac :
      (k : Kind) (persona resource : String)
      → FollowsPolicies engine policies
      → SelectsPersonaRoles q db
      → SelectsRoleGrants q db
      → (c : Result) × (Cedar.check engine policies
            (load_for_check q)
            (rbac_request k persona resource)
          ≡ ok c)
        × ((c.decision ≡ allow) ↔ ∥ HoldsRole facts k persona resource ∥₁)
  cedar_rbac k persona resource follows selects_roles selects_grants =
      let (role_ids, held, is_held) = selects_roles persona in
      let (grant_ids, granted, is_granted) = selects_grants (def_type k) resource (action_on k) in
      let req = rbac_request k persona resource in
      let es = rbac_slice k persona resource role_ids grant_ids in
      let (p, prepared, stored, same) = prepare-rbac_slice k persona resource role_ids grant_ids in
      let loaded = load_for_check-rbac q k persona resource role_ids grant_ids held granted in
      (
        verdict engine policies (load_for_check q) es p,
        (check-verdict_iff engine policies (load_for_check q) req _).1
            (es, p, loaded, prepared, refl),
        rw same (
            ↔-trans (allow_iff _) (
              ↔-trans (follows p.store (cedar_request req [])) (
                Iff.trunc (
                  ↔-trans (cedar_allows_iff k persona resource role_ids grant_ids p.store stored) (
                    λ (role, m, n). (
                      role,
                      (persona_roles_iff facts db stores persona role).0 ((is_held role).0 m),
                      (role_grants_iff facts db stores (def_type k) resource (action_on k) role).0
                          ((is_granted role).0 n),
                    ),
                    λ (role, a, g). (
                      role,
                      (is_held role).1 ((persona_roles_iff facts db stores persona role).1 a),
                      (is_granted role).1 (
                          (role_grants_iff facts db stores (def_type k) resource (action_on k)
                              role).1
                            g),
                    ),
                  ))))),
      )

is_direct : (k : Kind) → IsDirect (def_type k) (action_on k)
is_direct endpoint = inl (refl, refl)
is_direct page = inr (inl (refl, refl))
is_direct component = inr (inr (inl (refl, refl)))

module _ (F : Float64) (client : Client F.T) (accepts_id : String → Bool) (mode : ConsistencyMode)
    (new_struct : CaveatContext → Fallible CaveatContext) (rels : List Relationship)
    (facts : List Fact) (touches : Touches new_struct rels facts) where
  -- SpiceDB decides an RBAC check, and allows it exactly for a persona with a granted role.
  pub spicedb_rbac :
      (k : Kind) (persona resource : String)
      → FollowsSchema F client accepts_id rels
      → accepts_id resource ≡ true
      → accepts_id persona ≡ true
      → GrantsMatch facts k
      → (s : Result) × (Spicedb.check F client mode (rbac_request k persona resource) ≡ ok s)
        × ((s.decision ≡ allow) ↔ ∥ HoldsRole facts k persona resource ∥₁)
  unfolding request_context permission_request
  spicedb_rbac k persona resource follows good_resource good_persona grants_match =
      let req = rbac_request k persona resource in
      let sent = permission_request F client mode (def_type k) (action_on k) req none in
      let supported : Supported F client mode req (def_type k) (action_on k) none = record {
        resource_type = (HasDefinition-iff (cedar_type k) (def_type k)).0 (supported_kind k).0;
        action = (HasPermissionName-iff "rbac" (action_on k) (action_on k)).0 (supported_kind k).1;
        with_context = refl;
      } in
      let holds =
        spicedb_allows_iff new_struct rels [] facts touches k persona resource grants_match in
      elim (follows sent (is_direct k) refl refl good_resource good_persona) [
        | inl (answer, p) ↦ (
          record { decision = allow; entities_loaded = 0 },
          (check-decision_iff F client mode req _).1 (
            consistency mode,
            def_type k,
            action_on k,
            none,
            Consistent-consistency F client mode,
            supported,
            answer,
            refl,
          ),
          (λ _. ∥∥₁_map p holds.0, λ _. refl),
        )
        | inr (answer, denied) ↦ (
          record { decision = deny; entities_loaded = 0 },
          (check-decision_iff F client mode req _).1 (
            consistency mode,
            def_type k,
            action_on k,
            none,
            Consistent-consistency F client mode,
            supported,
            answer,
            refl,
          ),
          (
            λ e. absurd (ground (arith, e)),
            λ h. absurd (∥∥₁_elim h ⊥_prop λ held. denied (holds.1 held)),
          ),
        )
      ]

-- On one dataset, whose rows fill the tables and whose relationships fill the server, both engines decide every RBAC check on an endpoint, a page or a component whose persona and resource ids the server accepts: each answers without an error, the two decisions are equal, and they allow exactly when some record assigns the persona a role that some record grants the action on the resource. Conditions: the Cedar engine follows the policy files; the SpiceDB server follows the schema on accepted ids; the two selections of the loader return what their statements select, and every grant on that kind of resource is for the kind's own action.
pub rbac_engines_agree :
    (engine : Engine) (policies : engine.PolicySet) (q : Queries.Queries) (db : Database)
    (F : Float64) (client : Client F.T) (accepts_id : String → Bool) (mode : ConsistencyMode)
    (new_struct : CaveatContext → Fallible CaveatContext) (rels : List Relationship)
    (facts : List Fact) (k : Kind) (persona resource : String)
    → FollowsPolicies engine policies
    → FollowsSchema F client accepts_id rels
    → accepts_id resource ≡ true
    → accepts_id persona ≡ true
    → Stores db facts
    → SelectsPersonaRoles q db
    → SelectsRoleGrants q db
    → Touches new_struct rels facts
    → GrantsMatch facts k
    → (c s : Result) × (Cedar.check engine policies
          (load_for_check q)
          (rbac_request k persona resource)
        ≡ ok c)
      × (Spicedb.check F client mode (rbac_request k persona resource) ≡ ok s)
      × (c.decision ≡ s.decision)
      × ((c.decision ≡ allow) ↔ ∥ HoldsRole facts k persona resource ∥₁)
rbac_engines_agree engine policies q db F client accepts_id mode new_struct rels facts k persona
      resource policies_followed schema_followed good_resource good_persona stores selects_roles
      selects_grants touches grants_match =
    let (c, by_cedar, cedar_iff) =
      cedar_rbac engine policies q db facts stores k persona resource policies_followed
        selects_roles selects_grants in
    let (s, by_spicedb, spicedb_iff) =
      spicedb_rbac F client accepts_id mode new_struct rels facts touches k persona resource
        schema_followed good_resource good_persona grants_match in
    (
      c,
      s,
      by_cedar,
      by_spicedb,
      decision_ext c.decision s.decision cedar_iff spicedb_iff,
      cedar_iff,
    )
