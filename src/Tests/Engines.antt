-- ===== src/Tests/Engines.antt =====
-- internal/adapter/outbound/cedar/engine.go and internal/adapter/outbound/spicedb/decider.go at
-- concrete checks.
use test_permission.Base.{ℕ, String, Option, List, [], ◌≡◌, ◌↔◌, ◌&&◌, refl}
use test_permission.Base.Fallible.{ok, is_ok, Fallible}
use test_permission.Domain.{EntityUid, Entity, allow}
use test_permission.Cedar
use test_permission.Cedar.{PreparedCheck, prepare, find_entity, cedar_request}
use test_permission.Cedar.Laws.{
  entities_supported, all_supported, is_ok-prepare, last_entity, StandsFor, ConvertsAll,
  find-prepare, verdict, check-verdict_iff,
}
use test_permission.Spicedb
use test_permission.Spicedb.{Normals, Consistency, normalize_context}
use test_permission.Spicedb.Laws.{
  FitsAll, SendsAll, normalize_context-exact, Consistent, Supported, question, permissionship,
  check-decision_iff,
}
use test_permission.Tests.Samples.{
  integers, integers-IsExact, client, engine, loader, slice, execute_request, context_values,
  granted,
}

is_ok-prepare_example :
    is_ok (prepare execute_request slice)
    ≡ (entities_supported slice && all_supported execute_request.context)
is_ok-prepare_example = is_ok-prepare execute_request slice

abbrev prepared : PreparedCheck
unfolding prepare
prepared = elim (prepare execute_request slice) [
  | ok p ↦ p
  | Fallible.err e ↦ record { store = []; req = cedar_request execute_request [] }
]

find-prepare_example :
    ((u : EntityUid) → StandsFor (last_entity u slice) (find_entity u prepared.store))
    × (prepared.req.principal ≡ record { type = "Persona"; id = "p1" })
    × (prepared.req.action ≡ record { type = "Action"; id = "execute" })
    × (prepared.req.resource ≡ record { type = "Endpoint"; id = "e1" })
    × ConvertsAll [] prepared.req.context
unfolding prepare
find-prepare_example = find-prepare execute_request slice prepared refl

check-verdict_iff_example : (Cedar.check engine tt loader execute_request ≡ ok granted) ↔ (
    (es : List Entity) × (p : PreparedCheck) × (loader execute_request ≡ ok es)
    × (prepare execute_request es ≡ ok p)
    × (granted ≡ verdict engine tt loader es p))
check-verdict_iff_example = check-verdict_iff engine tt loader execute_request granted

normalize_context-exact_example :
    (FitsAll integers context_values
      → (out : Normals integers.T) × (normalize_context integers context_values ≡ ok out))
    × ((out : Normals integers.T)
        → normalize_context integers context_values ≡ ok out
        → FitsAll integers context_values × SendsAll integers context_values out)
normalize_context-exact_example = normalize_context-exact integers context_values integers-IsExact

check-decision_iff_example :
    (Spicedb.check integers client "fully_consistent" execute_request
      ≡ ok (record { decision = allow; entities_loaded = 0 }))
    ↔ ((c : Consistency) × (def_type : String) × (perm : String) × (context : Option client.Struct)
        × Consistent integers client "fully_consistent" c
        × Supported integers client "fully_consistent" execute_request def_type perm context
        × (client.check_permission
              (question integers client "fully_consistent" c def_type perm execute_request context)
            ≡ ok (permissionship integers client "fully_consistent" allow))
        × (◌≡◌ {A = ℕ} 0 0))
check-decision_iff_example =
    check-decision_iff integers client "fully_consistent" execute_request
      (record { decision = allow; entities_loaded = 0 })
