-- ===== src/Equivalence/Rbac.antt =====
-- RBAC with both engines: internal/adapter/outbound/postgres/loader.go `loadRBAC` with
-- policies/rbac.cedar, against `allowed_role` of schema/spicedb/schema.zed.
pub mod Sides
pub mod Preparing
pub mod Agreement
use test_permission.Base.{
  lookup, Bool, true, false, String, Option, none, some, List, [], ◌∷◌, ◌++◌, ◌≡◌, ◌≢◌, refl, sym,
  ap, ◌∙◌, ◌↔◌, ◌⊎◌, ◌==◌, ◌&&◌, inl, inr, arith, eq_iff, eq_refl, Memᴰ,
}
use test_permission.Base.Members.{mem-cons, not-mem-nil}
use test_permission.Base.Fallible.{Fallible, ok, err, Fallible-cases}
use test_permission.Domain.{EntityUid, Entity, Value, Request, model_rbac}
use test_permission.Cedar.{
  CedarEntity, EntityMap, Scalar, scalar, set, entity, find_entity, uid_eq, uid_elems, to_entity,
  to_record, to_value, PreparedCheck, cedar_request, prepare,
}
use test_permission.Cedar.Laws.{last_entity, converted, prepare-converted}
use test_permission.Postgres.{uid_of, refs, plain_entities, persona_entity}
use test_permission.Policies.{attr, In, InAllowedRoles, Permit, Forbid, action_uid}
use test_permission.Equivalence.Store.{
  attr_of_found, In-cases, mem-refs, mem-uid_elems, last_entity-append, plain_parents,
}

-- The three kinds of registry resource.
pub data Kind : Type 0 where
  endpoint page component : Kind

abbrev pub cedar_type : Kind → String
cedar_type endpoint = "Endpoint"
cedar_type page = "Page"
cedar_type component = "Component"

abbrev pub def_type : Kind → String
def_type endpoint = "endpoint"
def_type page = "page"
def_type component = "component"

-- The action on a kind of resource, which is the permission's name as well.
abbrev pub action_on : Kind → String
action_on endpoint = "execute"
action_on page = "view"
action_on component = "render"

abbrev pub rbac_request : Kind → String → String → Request
rbac_request k persona resource = record {
  model = model_rbac;
  principal = persona;
  action = action_on k;
  resource_type = cedar_type k;
  resource = resource;
  context = [];
}

module _ (k : Kind) (persona resource : String) (role_ids grant_ids : List String) where
  abbrev pub resource_entity : Entity
  resource_entity = record {
    uid = uid_of (cedar_type k) resource;
    attributes = ("allowed_roles", Value.uids (refs "Role" grant_ids)) ∷ [];
    parents = [];
  }

  -- What `loadRBAC` yields for the two selections.
  abbrev pub rbac_slice : List Entity
  rbac_slice =
      plain_entities "Role" role_ids
      ++ (persona_entity (rbac_request k persona resource) (refs "Role" role_ids)
          ∷ resource_entity
          ∷ [])

  abbrev persona_in_store : CedarEntity
  persona_in_store = record {
    uid = uid_of "Persona" persona;
    parents = refs "Role" role_ids;
    attributes = [];
  }

types_differ :
    (k : Kind) → ((cedar_type k == "Persona") ≡ false) × ((cedar_type k == "Role") ≡ false)
types_differ endpoint = (refl, refl)
types_differ page = (refl, refl)
types_differ component = (refl, refl)

last_entity-persona :
    (k : Kind) (persona resource : String) (role_ids grant_ids : List String)
    → last_entity (uid_of "Persona" persona) (rbac_slice k persona resource role_ids grant_ids)
      ≡ some (persona_entity (rbac_request k persona resource) (refs "Role" role_ids))
unfolding last_entity uid_eq
last_entity-persona k persona resource role_ids grant_ids =
    let (other, _) = types_differ k in
    rw
      (
        last_entity-append (uid_of "Persona" persona) (plain_entities "Role" role_ids) (
            persona_entity (rbac_request k persona resource) (refs "Role" role_ids)
            ∷ resource_entity k persona resource role_ids grant_ids
            ∷ []),
        other,
        eq_refl persona,
      )
      refl

last_entity-resource :
    (k : Kind) (persona resource : String) (role_ids grant_ids : List String)
    → last_entity
        (uid_of (cedar_type k) resource)
        (rbac_slice k persona resource role_ids grant_ids)
      ≡ some (resource_entity k persona resource role_ids grant_ids)
unfolding last_entity uid_eq
last_entity-resource k persona resource role_ids grant_ids =
    rw
      (
        last_entity-append (uid_of (cedar_type k) resource) (plain_entities "Role" role_ids) (
            persona_entity (rbac_request k persona resource) (refs "Role" role_ids)
            ∷ resource_entity k persona resource role_ids grant_ids
            ∷ []),
        eq_refl resource,
        eq_refl (cedar_type k),
      )
      refl

-- A role in the slice has no parents.
last_entity-role :
    (k : Kind) (persona resource : String) (role_ids grant_ids : List String) (id : String)
    (e : Entity)
    → last_entity (uid_of "Role" id) (rbac_slice k persona resource role_ids grant_ids) ≡ some e
    → e.parents ≡ []
unfolding last_entity uid_eq
last_entity-role k persona resource role_ids grant_ids id e h =
    let (_, other) = types_differ k in
    (plain_parents (uid_of "Role" id) "Role" role_ids e (
      rw
        (
          last_entity-append (uid_of "Role" id) (plain_entities "Role" role_ids) (
              persona_entity (rbac_request k persona resource) (refs "Role" role_ids)
              ∷ resource_entity k persona resource role_ids grant_ids
              ∷ []),
          other,
        )
        at h)).0

converted-parents :
    (o : Option Entity) (c : CedarEntity)
    → converted o ≡ some c
    → (e : Entity) × (o ≡ some e) × (c.parents ≡ e.parents)
unfolding to_entity
converted-parents none c h = absurd (ground arith)
converted-parents (some e) c h = (
  e,
  refl,
  elim (Fallible-cases (to_record e.attributes)) [
    | inl (m, read) ↦ ground (arith, read)
    | inr (x, refused) ↦ absurd (ground (arith, refused))
  ],
)

no_role : {persona id : String} → uid_of "Persona" persona ≢ uid_of "Role" id
no_role e =
    let e' : ◌≡◌ {A = String} "Persona" "Role" = ap EntityUid.type e in
    ground (arith, e', eq_iff "Persona" "Role")

-- A store in which every uid stands for the last entity of the slice.
abbrev pub Stored : EntityMap → List Entity → Type 0
Stored store es = (u : EntityUid) → find_entity u store ≡ converted (last_entity u es)

module _ (k : Kind) (persona resource : String) (role_ids grant_ids : List String)
    (store : EntityMap)
    (stored : Stored store (rbac_slice k persona resource role_ids grant_ids)) where
  find_persona :
      find_entity (uid_of "Persona" persona) store
      ≡ some (persona_in_store k persona resource role_ids grant_ids)
  unfolding to_entity to_record
  find_persona =
      stored (uid_of "Persona" persona)
      ∙ ap converted (last_entity-persona k persona resource role_ids grant_ids)

  pub allowed_roles_in_store :
      attr store (uid_of (cedar_type k) resource) "allowed_roles"
      ≡ some (set (uid_elems (refs "Role" grant_ids)))
  unfolding to_entity to_record to_value lookup
  allowed_roles_in_store = attr_of_found store (uid_of (cedar_type k) resource) _ "allowed_roles" (
      stored (uid_of (cedar_type k) resource)
      ∙ ap converted (last_entity-resource k persona resource role_ids grant_ids))

  not_above_role :
      (id : String) (t : EntityUid) → In store (uid_of "Role" id) t → uid_of "Role" id ≡ t
  not_above_role id t i = elim (In-cases i) [
    | inl same ↦ same
    | inr (c, p, found, m, rest) ↦
        let (e, last, same) =
          converted-parents
            (last_entity (uid_of "Role" id) (rbac_slice k persona resource role_ids grant_ids)) c
            (sym (stored (uid_of "Role" id)) ∙ found) in
        let none_above = last_entity-role k persona resource role_ids grant_ids id e last in
        absurd (not-mem-nil (rw (same, none_above) at m))
  ]

  pub persona-In_role_iff :
      (id : String) → In store (uid_of "Persona" persona) (uid_of "Role" id) ↔ Memᴰ id role_ids
  persona-In_role_iff id = (to, from)
    where
      to : In store (uid_of "Persona" persona) (uid_of "Role" id) → Memᴰ id role_ids
      to i = elim (In-cases i) [
        | inl same ↦ absurd (no_role same)
        | inr (c, p, found, m, rest) ↦
            let e : c ≡ persona_in_store k persona resource role_ids grant_ids =
              ground (arith, find_persona, found) in
            let (id', listed, is_role) = (mem-refs "Role" role_ids p).0 (rw e at m) in
            let same = not_above_role id' (uid_of "Role" id) (rw is_role at rest) in
            rw (← ap EntityUid.id same) listed
      ]

      from : Memᴰ id role_ids → In store (uid_of "Persona" persona) (uid_of "Role" id)
      from m =
          In.up (persona_in_store k persona resource role_ids grant_ids) find_persona
            ((mem-refs "Role" role_ids (uid_of "Role" id)).1 (id, m, refl)) (In.self refl)
