-- ===== src/Rest.antt =====
-- internal/adapter/inbound/rest/handler.go: POST /v1/authorize and GET /health.
-- The JSON package, the clock and the doubles are parameters.
pub mod JsonAny
pub mod Laws
pub mod ContextLaws
use JsonAny.{Json, Items, nil, cons}
use test_permission.Base.{
  Bool, ℕ, String, Option, none, some, List, [], ◌∷◌, ◌||◌, ◌==◌, if◌then◌else◌,
}
use test_permission.Base.Int.{ℤ}
use test_permission.Base.Float.{Float64}
use test_permission.Base.Fallible.{Fallible, Error, ok, err, fault, ◌>>=◌}
use test_permission.Domain.{Value, Attributes, Request, Result, decision_string}
use test_permission.Service.{is_bad_request}

-- The slice of the router that the handler needs.
pub record Checker : Type 0 where
  pub check : String → Request → Fallible Result
  pub engines : List String

-- `context` is the raw text of the field, empty when it is absent.
pub record AuthorizeRequest : Type 0 where
  pub engine : String
  pub model : String
  pub principal : String
  pub action : String
  pub resource_type : String
  pub resource : String
  pub context : String

pub record AuthorizeResponse : Type 0 where
  pub engine : String
  pub model : String
  pub decision : String
  pub entities_loaded : ℕ
  pub duration_ms : ℕ

pub data Body : Type 0 where
  error : String → Body
  authorized : AuthorizeResponse → Body
  health : Bool → List String → Body

pub record Response : Type 0 where
  pub status : ℕ
  pub body : Body

abbrev pub status_ok : ℕ
status_ok = 200

abbrev pub status_bad_request : ℕ
status_bad_request = 400

abbrev pub status_bad_gateway : ℕ
status_bad_gateway = 502

-- The JSON decoder: the request struct of a body, and the entries of an object. `none` is an error.
pub record Decoder (Float : Type 0) : Type 0 where
  pub decode : String → Option AuthorizeRequest
  pub unmarshal : String → Option (List (String × Json Float))

-- `err.Error()`: the messages are shown through their innermost text.
unfoldable pub message : Error → String
message (Error.bad_request text) = text
message (Error.wrap text e) = message e
message (Error.fault text) = text

-- "spicedb" without a mode means SpiceDB's default mode.
unfoldable pub engine_name : String → String
engine_name engine = if engine == "spicedb" then "spicedb-minimize_latency" else engine

unfoldable pub missing_field : AuthorizeRequest → Bool
missing_field req =
    req.engine == ""
    || req.model == ""
    || req.principal == ""
    || req.action == ""
    || req.resource_type == ""
    || req.resource == ""

-- The request that the handler hands to the router.
unfoldable pub domain_request : AuthorizeRequest → Attributes → Request
domain_request req context = record {
  model = req.model;
  principal = req.principal;
  action = req.action;
  resource_type = req.resource_type;
  resource = req.resource;
  context = context;
}

-- From the router's answer to the response; `duration_ms` is what the clock shows for the check.
unfoldable pub respond : ℕ → AuthorizeRequest → Fallible Result → Response
unfolding engine_name
respond duration_ms req (err e) =
    if is_bad_request e
    then record { status = status_bad_request; body = error (message e) }
    else record { status = status_bad_gateway; body = error "authorization backend failed" }
respond duration_ms req (ok res) = record {
  status = status_ok;
  body = authorized (record {
    engine = engine_name req.engine;
    model = req.model;
    decision = decision_string res.decision;
    entities_loaded = res.entities_loaded;
    duration_ms = duration_ms;
  });
}

module _ (F : Float64) where
  -- The loop over the elements of a JSON array.
  unfoldable pub decode_strings : Items F.T → Fallible (List String)
  decode_strings nil = ok []
  decode_strings (cons (Json.string s) es) = do strs ← decode_strings es; ok (s ∷ strs)
  decode_strings (cons _ es) = err (fault "only string arrays are supported")

  -- The type switch on one value.
  unfoldable pub decode_value : Json F.T → Fallible Value
  unfolding decode_strings
  decode_value (Json.number t) =
      if F.same t (F.of_int (F.to_int t))
      then ok (Value.int64 (F.to_int t))
      else err (fault "only integer numbers are supported")
  decode_value (Json.array es) = do strs ← decode_strings es; ok (Value.strings strs)
  decode_value (Json.bool b) = ok (Value.bool b)
  decode_value (Json.string s) = ok (Value.string s)
  decode_value _ = err (fault "unsupported value type")

  -- The loop over the entries; the keys of a decoded object are distinct.
  unfoldable pub decode_entries : List (String × Json F.T) → Fallible Attributes
  unfolding decode_value
  decode_entries [] = ok []
  decode_entries ((k, v) ∷ m) = do t ← decode_value v; out ← decode_entries m; ok ((k, t) ∷ out)

  module _ (json : Decoder F.T) where
    unfoldable pub decode_context : String → Fallible Attributes
    decode_context raw = if raw == "" then ok [] else elim (json.unmarshal raw) [
      | none ↦ err (fault "invalid context")
      | some m ↦ decode_entries m
    ]

    unfoldable pub authorize : Checker → ℕ → String → Response
    unfolding respond domain_request missing_field
    authorize router duration_ms raw_body = elim (json.decode raw_body) [
      | none ↦ record { status = status_bad_request; body = error "invalid JSON body" }
      | some req ↦
          if missing_field req
          then record {
            status = status_bad_request;
            body = error "need {engine, model, principal, action, resource_type, resource}";
          }
          else elim (decode_context req.context) [
            | err e ↦ record { status = status_bad_request; body = error (message e) }
            | ok context ↦
                respond duration_ms req
                  (router.check (engine_name req.engine) (domain_request req context))
          ]
    ]

unfoldable pub health_handler : Checker → Response
health_handler router = record { status = status_ok; body = health Bool.true router.engines }
