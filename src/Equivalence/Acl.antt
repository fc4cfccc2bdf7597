-- ===== src/Equivalence/Acl.antt =====
-- ACL with both engines: internal/adapter/outbound/postgres/loader.go `loadACL` with
-- policies/acl.cedar, against `acl_document` of schema/spicedb/schema.zed.
pub mod Sides
pub mod Agreement
use mathlib.Core.Logic.{∥∥₁_elim, ∥∥₁_map}
use test_permission.Base.{
  Bool, true, false, String, Option, none, some, List, [], ◌∷◌, ◌++◌, ◌≡◌, ◌≢◌, refl, sym, ap, ◌∙◌,
  ◌↔◌, ◌⊎◌, ◌==◌, ◌&&◌, inl, inr, arith, eq_iff, eq_refl, Memᴰ, lookup, Bool-cases, if◌then◌else◌,
}
use test_permission.Base.Members.{mem-cons, not-mem-nil}
use test_permission.Base.Fallible.{Fallible, ok, err, Fallible-cases, is_ok, wrapping}
use test_permission.Domain.{EntityUid, Entity, Value, Request, model_acl}
use test_permission.Cedar.{
  CedarEntity, EntityMap, Scalar, scalar, set, entity, find_entity, uid_eq, uid_elems, to_entity,
  to_record, to_value, PreparedCheck, CedarRequest, cedar_request, prepare,
}
use test_permission.Cedar.Laws.{
  last_entity, converted, prepare-converted, is_ok-prepare, entities_supported, all_supported,
  is_supported,
}
use test_permission.Postgres.{uid_of, refs, plain_entity, holders, load_acl, load_for_check}
use test_permission.Postgres.Queries
use test_permission.Policies.{attr, Listed, Permit, Forbid, action_uid}
use test_permission.Seed.Types.{Fact, AclEntry}
use test_permission.Seed.Relationships.{Relationship, CaveatContext}
use test_permission.Schema.{HasPermission, Related}
use test_permission.Schema.Holders.{Touches, acl_iff}
use test_permission.Database.Selects.{Shared}
use test_permission.Equivalence.Store.{mem-uid_elems, attr_of_found}

-- The two accesses to a document.
pub data Access : Type 0 where
  view edit : Access

abbrev pub acl_action : Access → String
acl_action view = "acl.view"
acl_action edit = "acl.edit"

-- The permission of the schema, and the action of an entry that gives the access.
abbrev pub permission_name : Access → String
permission_name view = "view"
permission_name edit = "edit"

abbrev pub acl_request : Access → String → String → Request
acl_request a persona resource = record {
  model = model_acl;
  principal = persona;
  action = acl_action a;
  resource_type = "AclDocument";
  resource = resource;
  context = [];
}

-- An editor can view.
abbrev pub Gives : (String → Type 0) → Access → Type 0
Gives Entry view = Entry "view" ⊎ Entry "edit"
Gives Entry edit = Entry "edit"

pub Gives-map :
    {P Q : String → Type 0} (a : Access)
    → ((action : String) → P action ↔ Q action)
    → Gives P a ↔ Gives Q a
Gives-map edit f = f "edit"
Gives-map view f = (
  λ h. elim h [ inl p ↦ inl ((f "view").0 p) | inr p ↦ inr ((f "edit").0 p) ],
  λ h. elim h [ inl p ↦ inl ((f "view").1 p) | inr p ↦ inr ((f "edit").1 p) ],
)

mem-holders :
    (wanted persona : String) (rows : List (String × String))
    → Memᴰ (uid_of "Persona" persona) (holders wanted rows) ↔ Memᴰ (persona, wanted) rows
mem-holders wanted persona [] = (λ m. absurd (not-mem-nil m), λ m. absurd (not-mem-nil m))
mem-holders wanted persona ((p, action) ∷ rows) = elim (Bool-cases (action == wanted)) [
  | inl same ↦ rw same (
    λ m. elim (mem-cons m) [
      | inl e ↦ Memᴰ.head (ground (arith, ap EntityUid.id e, (eq_iff action wanted).0 same))
      | inr later ↦ Memᴰ.tail ((mem-holders wanted persona rows).0 later)
    ],
    λ m. elim (mem-cons m) [
      | inl e ↦ Memᴰ.head (ground (arith, e))
      | inr later ↦ Memᴰ.tail ((mem-holders wanted persona rows).1 later)
    ],
  )
  | inr other ↦ rw other (
    λ m. Memᴰ.tail ((mem-holders wanted persona rows).0 m),
    λ m. elim (mem-cons m) [
      | inl e ↦ absurd (ground (arith, e, other, eq_iff action wanted))
      | inr later ↦ (mem-holders wanted persona rows).1 later
    ],
  )
]

module _ (persona resource : String) (rows : List (String × String)) where
  abbrev pub acl_entity : Entity
  acl_entity = record {
    uid = uid_of "AclDocument" resource;
    attributes =
        ("viewers", Value.uids (holders "view" rows))
        ∷ ("editors", Value.uids (holders "edit" rows))
        ∷ [];
    parents = [];
  }

  -- What `loadACL` yields for the rows of a document.
  abbrev pub acl_slice : List Entity
  acl_slice = plain_entity (uid_of "Persona" persona) ∷ acl_entity ∷ []

  last_entity-acl : last_entity (uid_of "AclDocument" resource) acl_slice ≡ some acl_entity
  unfolding last_entity uid_eq
  last_entity-acl = ground (arith, eq_refl resource)

  module _ (store : EntityMap)
      (stored : (u : EntityUid) → find_entity u store ≡ converted (last_entity u acl_slice)) where
    pub holders_in_store :
        (attr store (uid_of "AclDocument" resource) "viewers"
          ≡ some (set (uid_elems (holders "view" rows))))
        × (attr store (uid_of "AclDocument" resource) "editors"
            ≡ some (set (uid_elems (holders "edit" rows))))
    unfolding to_entity to_record to_value lookup
    holders_in_store =
        let found = stored (uid_of "AclDocument" resource) ∙ ap converted last_entity-acl in
        (
          attr_of_found store (uid_of "AclDocument" resource) _ "viewers" found,
          attr_of_found store (uid_of "AclDocument" resource) _ "editors" found,
        )

    pub Listed-iff :
        (key wanted : String) (r : CedarRequest)
        → r.principal ≡ uid_of "Persona" persona
        → attr store r.resource key ≡ some (set (uid_elems (holders wanted rows)))
        → Listed store r key ↔ Memᴰ (persona, wanted) rows
    Listed-iff key wanted r is_persona has = (
      λ l.
          let e : some (set l.holders) ≡ some (set (uid_elems (holders wanted rows))) =
            sym l.has_holders ∙ has in
          let same : l.holders ≡ uid_elems (holders wanted rows) = ground (arith, e) in
          (mem-holders wanted persona rows).0 (
            (mem-uid_elems (holders wanted rows) (uid_of "Persona" persona)).0
              (rw (same, is_persona) at l.is_in)),
      λ m. record {
        holders = uid_elems (holders wanted rows);
        has_holders = has;
        is_in = rw is_persona (
            (mem-uid_elems (holders wanted rows) (uid_of "Persona" persona)).1
              ((mem-holders wanted persona rows).1 m));
      },
    )
