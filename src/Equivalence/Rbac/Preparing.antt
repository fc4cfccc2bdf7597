-- ===== src/Equivalence/Rbac/Preparing.antt =====
-- The Cedar decider's input for an RBAC check: `loadRBAC` of
-- internal/adapter/outbound/postgres/loader.go and `Prepare` of
-- internal/adapter/outbound/cedar/engine.go.
use test_permission.Base.{true, String, List, [], ◌∷◌, ◌++◌, ◌≡◌, refl, inl, inr, arith, lookup}
use test_permission.Base.Fallible.{ok, Fallible-cases}
use test_permission.Cedar.{PreparedCheck, prepare, cedar_request, to_record}
use test_permission.Cedar.Laws.{
  entities_supported, all_supported, is_supported, is_ok-prepare, prepare-converted,
}
use test_permission.Postgres.{plain_entities, persona_entity, refs, load_rbac, load_for_check}
use test_permission.Postgres.Queries
use test_permission.Equivalence.Rbac.{
  Kind, endpoint, page, component, def_type, action_on, rbac_request, rbac_slice, resource_entity,
  Stored,
}

rbac_slice-supported :
    (k : Kind) (persona resource : String) (role_ids grant_ids : List String)
    → entities_supported (rbac_slice k persona resource role_ids grant_ids) ≡ true
unfolding entities_supported all_supported is_supported
rbac_slice-supported k persona resource role_ids grant_ids = at role_ids
  where
    at :
        (ids : List String)
        → entities_supported (
            plain_entities "Role" ids
            ++ (persona_entity (rbac_request k persona resource) (refs "Role" role_ids)
                ∷ resource_entity k persona resource role_ids grant_ids
                ∷ []))
          ≡ true
    at [] = refl
    at (id ∷ ids) = at ids

-- The slice of an RBAC check is prepared, with every uid standing for the last entity of that uid.
pub prepare-rbac_slice :
    (k : Kind) (persona resource : String) (role_ids grant_ids : List String)
    → (p : PreparedCheck) × (prepare
          (rbac_request k persona resource)
          (rbac_slice k persona resource role_ids grant_ids)
        ≡ ok p)
      × Stored p.store (rbac_slice k persona resource role_ids grant_ids)
      × (p.req ≡ cedar_request (rbac_request k persona resource) [])
unfolding to_record all_supported
prepare-rbac_slice k persona resource role_ids grant_ids =
    let req = rbac_request k persona resource in
    let es = rbac_slice k persona resource role_ids grant_ids in
    elim (Fallible-cases (prepare req es)) [
      | inl (p, e) ↦
          let (stored, (context, read, same)) = prepare-converted req es p e in
          let empty : [] ≡ context = ground (arith, read) in (p, e, stored, rw empty same)
      | inr (x, refused) ↦ absurd (
          ground (
            arith,
            is_ok-prepare req es,
            rbac_slice-supported k persona resource role_ids grant_ids,
            refused,
          ))
    ]

pub load_for_check-rbac :
    (q : Queries.Queries) (k : Kind) (persona resource : String) (role_ids grant_ids : List String)
    → q.persona_roles persona ≡ ok role_ids
    → q.role_grants (def_type k) resource (action_on k) ≡ ok grant_ids
    → load_for_check q (rbac_request k persona resource)
      ≡ ok (rbac_slice k persona resource role_ids grant_ids)
unfolding load_for_check load_rbac lookup
load_for_check-rbac q endpoint persona resource role_ids grant_ids held granted =
    rw (held, granted) refl
load_for_check-rbac q page persona resource role_ids grant_ids held granted =
    rw (held, granted) refl
load_for_check-rbac q component persona resource role_ids grant_ids held granted =
    rw (held, granted) refl
