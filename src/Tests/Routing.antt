-- ===== src/Tests/Routing.antt =====
-- internal/core/service/router.go at concrete requests.
use test_permission.Base.{true, false, some, [], ◌∷◌, ◌≡◌, ◌↔◌, refl, lookup}
use test_permission.Base.Fallible.{Error, err, bad_request, ok}
use test_permission.Domain.{Decider}
use test_permission.Service.{new_router, check, is_bad_request}
use test_permission.Service.Laws.{
  last_named, lookup-new_router, Accepted, check-Accepted_iff, check_bad_request_iff,
}
use test_permission.Tests.Samples.{
  cedar_stub, old_cedar_stub, down_stub, router, execute_request, granted,
}

lookup-new_router_example :
    lookup "cedar" (new_router (old_cedar_stub ∷ down_stub ∷ cedar_stub ∷ [])).deciders
    ≡ some cedar_stub
unfolding last_named
lookup-new_router_example = lookup-new_router "cedar" (old_cedar_stub ∷ down_stub ∷ cedar_stub ∷ [])

check-Accepted_iff_example : (check router "cedar" execute_request ≡ ok granted) ↔ (
    (d : Decider) × Accepted router "cedar" execute_request d
    × (d.check execute_request ≡ ok granted))
check-Accepted_iff_example = check-Accepted_iff router "cedar" execute_request granted

stub_clean :
    (d : Decider) (e : Error)
    → lookup "nope" router.deciders ≡ some d
    → d.check execute_request ≡ err e
    → is_bad_request e ≡ false
unfolding lookup
stub_clean d e found h = absurd (cc)

check_bad_request_iff_example :
    (is_bad_request (bad_request "unknown engine") ≡ true)
    ↔ (¬ ((d : Decider) × Accepted router "nope" execute_request d))
unfolding check lookup
check_bad_request_iff_example =
    check_bad_request_iff router "nope" execute_request (bad_request "unknown engine") stub_clean
      refl
