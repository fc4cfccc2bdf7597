-- ===== src/Tests/Handling.antt =====
-- internal/adapter/inbound/rest/handler.go at concrete bodies.
use test_permission.Base.{false, String, some, ◌≡◌, ◌↔◌, refl, lookup, arith}
use test_permission.Base.Fallible.{Error, err, ok}
use test_permission.Domain.{Attributes, Request, Result, Decider}
use test_permission.Service.{is_bad_request}
use test_permission.Service.Laws.{Accepted}
use test_permission.Rest.{
  AuthorizeRequest, authorized, authorize, decode_entries, status_bad_gateway,
}
use test_permission.Rest.Laws.{
  Parsed, Names, asked, answer, service_checker, authorize-authorized_iff, authorize-gateway_iff,
}
use test_permission.Rest.ContextLaws.{RepresentsAll, decode_entries-eq-ok_iff}
use test_permission.Cedar.{PreparedCheck, prepare}
use test_permission.Cedar.Laws.{entities_supported, ConvertsAll}
use test_permission.Cedar.FromHandler.{decode_entries-supported}
use test_permission.Tests.Samples.{
  integers, decoder, router, body_request, granted, slice, context_json, context_values,
}

authorize-authorized_iff_example :
    ((authorize integers decoder (service_checker router) 7 "cedar").body
      ≡ authorized (answer 7 "cedar" (body_request "cedar") granted))
    ↔ ((req : AuthorizeRequest) × (context : Attributes) × (full : String) × (res : Result) × Parsed
          integers decoder "cedar" req context
        × Names req.engine full
        × ((service_checker router).check full (asked req context) ≡ ok res)
        × (answer 7 "cedar" (body_request "cedar") granted ≡ answer 7 full req res))
authorize-authorized_iff_example =
    authorize-authorized_iff integers decoder (service_checker router) 7 "cedar"
      (answer 7 "cedar" (body_request "cedar") granted)

stubs_clean :
    (d : Decider) (engine : String) (q : Request) (e : Error)
    → lookup engine router.deciders ≡ some d
    → d.check q ≡ err e
    → is_bad_request e ≡ false
unfolding lookup is_bad_request
stubs_clean d engine q e found h = ground arith

authorize-gateway_iff_example :
    ((authorize integers decoder (service_checker router) 7 "spicedb").status ≡ status_bad_gateway)
    ↔ ((req : AuthorizeRequest) × (context : Attributes) × (full : String) × (d : Decider)
        × (e : Error) × Parsed integers decoder "spicedb" req context
        × Names req.engine full
        × Accepted router full (asked req context) d
        × (d.check (asked req context) ≡ err e))
authorize-gateway_iff_example =
    authorize-gateway_iff integers decoder router 7 "spicedb" stubs_clean

decode_entries-eq-ok_iff_example :
    (decode_entries integers context_json ≡ ok context_values)
    ↔ RepresentsAll integers context_json context_values
decode_entries-eq-ok_iff_example = decode_entries-eq-ok_iff integers context_json context_values

abbrev order_request : Request
order_request = record {
  model = "pbac";
  principal = "p1";
  action = "po.approve";
  resource_type = "PurchaseOrder";
  resource = "po1";
  context = context_values;
}

decode_entries-supported_example :
    (p : PreparedCheck) × (prepare order_request slice ≡ ok p)
    × ConvertsAll context_values p.req.context
unfolding decode_entries entities_supported
decode_entries-supported_example =
    decode_entries-supported integers context_json order_request slice refl refl
