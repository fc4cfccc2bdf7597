-- ===== src/Service.antt =====
-- internal/core/service/router.go: validation of a request and the choice of its engine.
pub mod Laws
use test_permission.Base.{Bool, String, List, [], ◌∷◌, ◌||◌, ◌==◌, if◌then◌else◌, none, some}
use test_permission.Base.{lookup, insert, keys, contains}
use test_permission.Base.Fallible.{Fallible, Error, bad_request, wrap, fault, err, wrapping}
use test_permission.Domain.{models, Request, Result, Decider}

pub record Router : Type 0 where
  pub deciders : List (String × Decider)

-- The loop of `NewRouter`.
register : List (String × Decider) → List Decider → List (String × Decider)
register m [] = m
register m (d ∷ ds) = register (insert d.name d m) ds

unfoldable pub new_router : List Decider → Router
unfolding register insert
new_router ds = record { deciders = register [] ds }

unfoldable pub engines : Router → List String
engines r = keys r.deciders

unfoldable pub missing_field : Request → Bool
missing_field req =
    req.principal == "" || req.action == "" || req.resource == "" || req.resource_type == ""

unfoldable pub check : Router → String → Request → Fallible Result
unfolding missing_field
check r engine req = elim (lookup engine r.deciders) [
  | none ↦ err (bad_request "unknown engine")
  | some d ↦
      if missing_field req
      then err (bad_request "principal, action, resource_type and resource are required")
      else (if contains models req.model
          then wrapping d.name (d.check req)
          else err (bad_request "unknown model"))
]

-- `errors.Is(err, ErrBadRequest)`.
unfoldable pub is_bad_request : Error → Bool
is_bad_request (bad_request text) = Bool.true
is_bad_request (wrap text e) = is_bad_request e
is_bad_request (fault text) = Bool.false
