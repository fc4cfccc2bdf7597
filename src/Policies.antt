-- ===== src/Policies.antt =====
-- policies/*.cedar: the policy set, read by the rules of the Cedar language. A condition whose
-- evaluation meets a missing attribute or a value of another type is an error, and the policy is
-- then skipped; a request is allowed when a permit holds and no forbid does.
use test_permission.Base.{
  true, String, Option, none, some, List, [], ◌∷◌, ◌≡◌, ◌⊎◌, ◌↔◌, Memᴰ, lookup,
}
use test_permission.Base.Int.{ℤ, pos, leb_ℤ}
use test_permission.Domain.{EntityUid}
use test_permission.Cedar.{
  CedarValue, scalar, set, Scalar, boolean, text, long, entity, EntityMap, CedarEntity,
  CedarRequest, find_entity, Engine,
}

-- `u.key`
unfoldable pub attr : EntityMap → EntityUid → String → Option CedarValue
attr store u key = elim (find_entity u store) [ none ↦ none | some e ↦ lookup key e.attributes ]

-- `u in t`: `t` is `u` or an ancestor of it.
pub data In (store : EntityMap) : EntityUid → EntityUid → Type 0 where
  self : {u t : EntityUid} → u ≡ t → In store u t
  up :
      {u p t : EntityUid} (e : CedarEntity)
      → find_entity u store ≡ some e
      → Memᴰ p e.parents
      → In store p t
      → In store u t

-- `u in elems`: `u` is in one of the entities of a set.
abbrev pub InSet : EntityMap → EntityUid → List Scalar → Type 0
InSet store u elems = (t : EntityUid) × Memᴰ (entity t) elems × In store u t

-- The elements are entity references: `in` meets an error on any other element of the set.
abbrev pub AllEntities : List Scalar → Type 0
AllEntities [] = Unit
AllEntities (entity u ∷ elems) = AllEntities elems
AllEntities _ = ⊥

-- `==`: scalars by value, sets by their members.
pub data SameValue : CedarValue → CedarValue → Type 0 where
  scalars : {s : Scalar} → SameValue (scalar s) (scalar s)
  sets :
      {xs ys : List Scalar} → ((s : Scalar) → Memᴰ s xs ↔ Memᴰ s ys) → SameValue (set xs) (set ys)

abbrev pub action_uid : String → EntityUid
action_uid name = record { type = "Action"; id = name }

module _ (store : EntityMap) (r : CedarRequest) where
  abbrev pub Scope : String → String → Type 0
  Scope action type = (r.action ≡ action_uid action) × (r.resource.type ≡ type)

  -- rbac.cedar: `principal in resource.allowed_roles`
  pub record InAllowedRoles : Type 0 where
    pub allowed : List Scalar
    pub has_allowed : attr store r.resource "allowed_roles" ≡ some (set allowed)
    pub only_entities : AllEntities allowed
    pub is_in : InSet store r.principal allowed

  -- rebac.cedar: `resource in principal.member_of`
  pub record InMemberOf : Type 0 where
    pub units : List Scalar
    pub has_units : attr store r.principal "member_of" ≡ some (set units)
    pub only_entities : AllEntities units
    pub is_in : InSet store r.resource units

  -- abac.cedar: clearance, division and residency.
  pub record Reads : Type 0 where
    pub clearance : ℤ
    pub classification : ℤ
    pub has_clearance : attr store r.principal "clearance" ≡ some (scalar (long clearance))
    pub has_classification :
        attr store r.resource "classification" ≡ some (scalar (long classification))
    pub cleared : leb_ℤ classification clearance ≡ true
    pub division : CedarValue
    pub doc_division : CedarValue
    pub has_division : attr store r.principal "division" ≡ some division
    pub has_doc_division : attr store r.resource "division" ≡ some doc_division
    pub same_division : SameValue division doc_division
    pub region : CedarValue
    pub doc_region : CedarValue
    pub has_region : attr store r.principal "region" ≡ some region
    pub has_doc_region : attr store r.resource "region" ≡ some doc_region
    pub resident : SameValue region doc_region ⊎ (clearance ≡ pos 4)

  -- pbac.cedar: the assigned policy is active, and amount and region lie in its window.
  pub record Approves : Type 0 where
    pub policy : EntityUid
    pub has_policy : attr store r.resource "policy" ≡ some (scalar (entity policy))
    pub assigned : In store r.principal policy
    pub active : attr store policy "active" ≡ some (scalar (boolean true))
    pub amount : ℤ
    pub has_amount : lookup "amount" r.context ≡ some (scalar (long amount))
    pub min_amount : ℤ
    pub has_min : attr store policy "min_amount" ≡ some (scalar (long min_amount))
    pub above_min : leb_ℤ min_amount amount ≡ true
    pub max_amount : ℤ
    pub has_max : attr store policy "max_amount" ≡ some (scalar (long max_amount))
    pub below_max : leb_ℤ amount max_amount ≡ true
    pub regions : List Scalar
    pub has_regions : attr store policy "regions" ≡ some (set regions)
    pub region : Scalar
    pub has_region : lookup "region" r.context ≡ some (scalar region)
    pub in_regions : Memᴰ region regions

  -- acl.cedar: `resource has key && resource.key.contains(principal)`
  pub record Listed (key : String) : Type 0 where
    pub holders : List Scalar
    pub has_holders : attr store r.resource key ≡ some (set holders)
    pub is_in : Memᴰ (entity r.principal) holders

  -- The test of a key meets no error: the resource has no such key, or has a set under it.
  abbrev pub Evaluates : String → Type 0
  Evaluates key =
      (attr store r.resource key ≡ none)
      ⊎ ((holders : List Scalar) × (attr store r.resource key ≡ some (set holders)))

  -- The permit policies of the five files, each with its scope.
  pub data Permit : Type 0 where
    execute : Scope "execute" "Endpoint" → InAllowedRoles → Permit
    view : Scope "view" "Page" → InAllowedRoles → Permit
    render : Scope "render" "Component" → InAllowedRoles → Permit
    doc_view : Scope "doc.view" "RebacDocument" → InMemberOf → Permit
    doc_read : Scope "doc.read" "AbacDocument" → Reads → Permit
    po_approve : Scope "po.approve" "PurchaseOrder" → Approves → Permit
    acl_view :
        Scope "acl.view" "AclDocument"
        → Listed "viewers" ⊎ (Evaluates "viewers" × Listed "editors")
        → Permit
    acl_edit : Scope "acl.edit" "AclDocument" → Listed "editors" → Permit

  -- abac.cedar: archived documents.
  abbrev pub Forbid : Type 0
  Forbid =
      Scope "doc.read" "AbacDocument"
      × (attr store r.resource "status" ≡ some (scalar (text "archived")))

-- The documented behaviour of the engine on this policy set.
abbrev pub FollowsPolicies : (engine : Engine) → engine.PolicySet → Type 0
FollowsPolicies engine policies =
    (store : EntityMap) (r : CedarRequest)
    → (engine.authorize policies store r ≡ true) ↔ ∥ Permit store r × (¬ (Forbid store r)) ∥₁
