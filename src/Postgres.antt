-- ===== src/Postgres.antt =====
-- internal/adapter/outbound/postgres/loader.go: the entity slice that the Cedar engine needs for a
-- check. The database is a parameter, one function for each SQL statement of the loader.
pub mod Queries
use Queries.{FolderRow, PersonaAttrs, DocAttrs, PolicyAttrs}
use test_permission.Base.{
  Bool, true, false, String, Option, none, some, List, [], ◌∷◌, ◌++◌, ◌==◌, if◌then◌else◌, lookup,
}
use test_permission.Base.Fallible.{Fallible, ok, err, fault, ◌>>=◌, wrapping}
use test_permission.Domain.{
  EntityUid, Value, Entity, Request, EntityLoader, model_rbac, model_rebac, model_abac, model_pbac,
  model_acl,
}

abbrev pub type_persona : String
type_persona = "Persona"

abbrev pub type_role : String
type_role = "Role"

abbrev pub type_org_unit : String
type_org_unit = "OrgUnit"

abbrev pub type_folder : String
type_folder = "Folder"

abbrev pub type_pbac_policy : String
type_pbac_policy = "PbacPolicy"

abbrev pub registry_types : List (String × String)
registry_types = ("Endpoint", "endpoint") ∷ ("Page", "page") ∷ ("Component", "component") ∷ []

abbrev pub uid_of : String → String → EntityUid
uid_of type id = record { type = type; id = id }

-- The loops that turn ids into references of one type.
abbrev pub refs : String → List String → List EntityUid
refs type [] = []
refs type (id ∷ ids) = uid_of type id ∷ refs type ids

-- An entity with neither attributes nor parents.
abbrev pub plain_entity : EntityUid → Entity
plain_entity uid = record { uid = uid; attributes = []; parents = [] }

abbrev pub plain_entities : String → List String → List Entity
plain_entities type [] = []
plain_entities type (id ∷ ids) = plain_entity (uid_of type id) ∷ plain_entities type ids

abbrev pub persona_entity : Request → List EntityUid → Entity
persona_entity req parents = record {
  uid = uid_of type_persona req.principal;
  attributes = [];
  parents = parents;
}

abbrev pub optional_ref : String → Option String → List EntityUid
optional_ref type none = []
optional_ref type (some id) = uid_of type id ∷ []

-- One row of the folder chain: the owning unit, a shared unit and the parent folder.
abbrev pub folder_entity : FolderRow → Entity
folder_entity row = record {
  uid = uid_of type_folder row.id;
  attributes = [];
  parents =
      uid_of type_org_unit row.org_id
      ∷ (optional_ref type_org_unit row.shared_org_id ++ optional_ref type_folder row.parent_id);
}

abbrev pub folder_entities : List FolderRow → List Entity
folder_entities [] = []
folder_entities (row ∷ rows) = folder_entity row ∷ folder_entities rows

abbrev pub shared_unit : FolderRow → List String
shared_unit row = elim row.shared_org_id [ none ↦ [] | some id ↦ id ∷ [] ]

-- The units of the folders, in the order of the loop.
abbrev pub unit_ids : List FolderRow → List String
unit_ids [] = []
unit_ids (row ∷ rows) = shared_unit row ++ (row.org_id ∷ unit_ids rows)

abbrev pub unit_entities : List (String × Option String) → List Entity
unit_entities [] = []
unit_entities ((id, parent) ∷ rows) =
    record {
      uid = uid_of type_org_unit id;
      attributes = [];
      parents = optional_ref type_org_unit parent;
    }
    ∷ unit_entities rows

-- The loop over the ACL rows for one action; an unknown action is in neither list.
abbrev pub holders : String → List (String × String) → List EntityUid
holders wanted [] = []
holders wanted ((persona_id, action) ∷ rows) =
    let rest = holders wanted rows in
    if action == wanted then uid_of type_persona persona_id ∷ rest else rest

module _ (q : Queries.Queries) where
  unfoldable pub load_rbac : EntityLoader
  unfolding lookup
  load_rbac req = elim (lookup req.resource_type registry_types) [
    | none ↦ err (fault "rbac: unsupported resource type")
    | some reg_type ↦ do
      role_ids ← wrapping "query persona_roles" (q.persona_roles req.principal)
      grant_ids ← wrapping "query role_grants" (q.role_grants reg_type req.resource req.action)
      ok (
          plain_entities type_role role_ids
          ++ persona_entity req (refs type_role role_ids)
            ∷ record {
              uid = uid_of req.resource_type req.resource;
              attributes = ("allowed_roles", Value.uids (refs type_role grant_ids)) ∷ [];
              parents = [];
            }
            ∷ [])
  ]

  -- The persona of a ReBAC check with its memberships.
  abbrev pub member_entity : Request → List String → Entity
  member_entity req org_ids = record {
    uid = uid_of type_persona req.principal;
    attributes = ("member_of", Value.uids (refs type_org_unit org_ids)) ∷ [];
    parents = [];
  }

  abbrev pub document_entity : Request → List EntityUid → Entity
  document_entity req parents = record {
    uid = uid_of req.resource_type req.resource;
    attributes = [];
    parents = parents;
  }

  -- From a document's folder on: the folder chain and the units above it.
  unfoldable pub load_chains : Request → Entity → String → Fallible (List Entity)
  load_chains req member folder_id = do
    frows ← wrapping "query folder chain" (q.folder_chain folder_id)
    urows ← wrapping "query org chain" (q.org_chain (unit_ids frows))
    ok (
        member
        ∷ document_entity req (uid_of type_folder folder_id ∷ [])
        ∷ (folder_entities frows ++ unit_entities urows))

  unfoldable pub load_rebac : EntityLoader
  unfolding load_chains
  load_rebac req = do
    member_org_ids ← wrapping "query unit_memberships" (q.unit_memberships req.principal)
    folder ← wrapping "query rebac_documents" (q.document_folder req.resource)
    elim folder [
      | none ↦ ok (member_entity req member_org_ids ∷ [])
      | some none ↦ ok (member_entity req member_org_ids ∷ document_entity req [] ∷ [])
      | some (some folder_id) ↦ load_chains req (member_entity req member_org_ids) folder_id
    ]

  abbrev pub persona_attrs_entity : Request → Option PersonaAttrs → List Entity
  persona_attrs_entity req none = []
  persona_attrs_entity req (some a) =
      record {
        uid = uid_of type_persona req.principal;
        attributes =
            ("clearance", Value.int64 a.clearance)
            ∷ ("division", Value.string a.division)
            ∷ ("region", Value.string a.region)
            ∷ [];
        parents = [];
      }
      ∷ []

  abbrev pub doc_attrs_entity : Request → Option DocAttrs → List Entity
  doc_attrs_entity req none = []
  doc_attrs_entity req (some d) =
      record {
        uid = uid_of req.resource_type req.resource;
        attributes =
            ("classification", Value.int64 d.classification)
            ∷ ("division", Value.string d.division)
            ∷ ("status", Value.string d.status)
            ∷ ("region", Value.string d.region)
            ∷ [];
        parents = [];
      }
      ∷ []

  unfoldable pub load_abac : EntityLoader
  load_abac req = do
    persona ← wrapping "query persona attrs" (q.persona_attrs req.principal)
    doc ← wrapping "query abac document" (q.abac_document req.resource)
    ok (persona_attrs_entity req persona ++ doc_attrs_entity req doc)

  abbrev pub policy_entity : String → Option PolicyAttrs → List Entity
  policy_entity policy_id none = []
  policy_entity policy_id (some p) =
      record {
        uid = uid_of type_pbac_policy policy_id;
        attributes =
            ("active", Value.bool p.active)
            ∷ ("min_amount", Value.int64 p.min_amount)
            ∷ ("max_amount", Value.int64 p.max_amount)
            ∷ ("regions", Value.strings p.regions)
            ∷ [];
        parents = [];
      }
      ∷ []

  abbrev pub order_entity : Request → String → Entity
  order_entity req policy_id = record {
    uid = uid_of req.resource_type req.resource;
    attributes = ("policy", Value.uid (uid_of type_pbac_policy policy_id)) ∷ [];
    parents = [];
  }

  unfoldable pub load_pbac : EntityLoader
  load_pbac req = do
    assigned ← wrapping "query pbac_assignments" (q.pbac_assignments req.principal)
    order ← wrapping "query purchase_orders" (q.purchase_order req.resource)
    elim order [
      | none ↦ ok (persona_entity req (refs type_pbac_policy assigned) ∷ [])
      | some policy_id ↦ do
        policy ← wrapping "query pbac_policies" (q.pbac_policy policy_id)
        ok (
            persona_entity req (refs type_pbac_policy assigned)
            ∷ order_entity req policy_id
            ∷ policy_entity policy_id policy)
    ]

  unfoldable pub load_acl : EntityLoader
  load_acl req = do
    rows ← wrapping "query acl_entries" (q.acl_entries req.resource)
    ok (
        plain_entity (uid_of type_persona req.principal)
        ∷ record {
          uid = uid_of req.resource_type req.resource;
          attributes =
              ("viewers", Value.uids (holders "view" rows))
              ∷ ("editors", Value.uids (holders "edit" rows))
              ∷ [];
          parents = [];
        }
        ∷ [])

  unfoldable pub load_for_check : EntityLoader
  unfolding load_rbac load_rebac load_abac load_pbac load_acl
  load_for_check req =
      if req.model == model_rbac
      then load_rbac req
      else (if req.model == model_rebac
          then load_rebac req
          else (if req.model == model_abac
              then load_abac req
              else (if req.model == model_pbac
                  then load_pbac req
                  else (if req.model == model_acl
                      then load_acl req
                      else err (fault "unknown model")))))
