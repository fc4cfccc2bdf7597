-- ===== src/Rest/Laws.antt =====
-- What the handler answers, and when.
use test_permission.Base.{
  false, ℕ, String, some, ◌≡◌, refl, ◌↔◌, arith, lookup, Option-cases, Bool-cases, inl, inr, ◌⊎◌,
  ◌≢◌, ◌==◌, eq_iff, List, [],
}
use test_permission.Base.Float.{Float64}
use test_permission.Base.Fallible.{Fallible, Error, ok, err, wrapping, Fallible-cases}
use test_permission.Domain.{
  Attributes, Request, Result, Decider, Decision, allow, deny, decision_string,
}
use test_permission.Service
use test_permission.Service.{Router, is_bad_request}
use test_permission.Service.Laws.{Accepted, Accepted-or_rejected, Accepted-check}
use test_permission.Rest.JsonAny.{Json}
use test_permission.Rest.ContextLaws.{RepresentsAll, decode_entries-eq-ok_iff}
use test_permission.Rest.{
  Checker, AuthorizeRequest, AuthorizeResponse, Response, authorized, Decoder, engine_name,
  missing_field, decode_context, domain_request, respond, authorize, status_bad_gateway,
  status_bad_request,
}

-- The engine that a request names: "spicedb" stands for SpiceDB's default mode.
abbrev pub Names : String → String → Type 0
Names engine full =
    ((engine ≡ "spicedb") × (full ≡ "spicedb-minimize_latency"))
    ⊎ ((engine ≢ "spicedb") × (full ≡ engine))

Names-engine_name : (engine : String) → Names engine (engine_name engine)
unfolding engine_name
Names-engine_name engine = elim (Bool-cases (engine == "spicedb")) [
  | inl same ↦ inl ((eq_iff engine "spicedb").0 same, rw same refl)
  | inr other ↦ inr (λ e. ground (arith, other, e, eq_iff engine "spicedb"), rw other refl)
]

engine_name-of_Names : (engine full : String) → Names engine full → engine_name engine ≡ full
unfolding engine_name
engine_name-of_Names engine full (inl (e, f)) = ground (arith, e, f, eq_iff engine "spicedb")
engine_name-of_Names engine full (inr (e, f)) = ground (arith, e, f, eq_iff engine "spicedb")

abbrev decision_word : Decision → String
decision_word allow = "allow"
decision_word deny = "deny"

word_of_decision : (d : Decision) → decision_string d ≡ decision_word d
unfolding decision_string
word_of_decision allow = refl
word_of_decision deny = refl

-- The answer to a request whose check by an engine succeeded.
abbrev pub answer : ℕ → String → AuthorizeRequest → Result → AuthorizeResponse
answer duration_ms full req res = record {
  engine = full;
  model = req.model;
  decision = decision_word res.decision;
  entities_loaded = res.entities_loaded;
  duration_ms = duration_ms;
}

-- 400 with an error text.
record IsRejection (r : Response) : Type 0 where
  status : r.status ≡ status_bad_request
  body : (a : AuthorizeResponse) → r.body ≢ authorized a

-- The six fields that a body needs.
pub record Filled (req : AuthorizeRequest) : Type 0 where
  pub engine : req.engine ≢ ""
  pub model : req.model ≢ ""
  pub principal : req.principal ≢ ""
  pub action : req.action ≢ ""
  pub resource_type : req.resource_type ≢ ""
  pub resource : req.resource ≢ ""

Filled-iff : (req : AuthorizeRequest) → (missing_field req ≡ false) ↔ Filled req
unfolding missing_field
Filled-iff req = (
  λ h. record {
    engine = λ e. ground (arith, eq_iff req.engine "");
    model = λ e. ground (arith, eq_iff req.model "");
    principal = λ e. ground (arith, eq_iff req.principal "");
    action = λ e. ground (arith, eq_iff req.action "");
    resource_type = λ e. ground (arith, eq_iff req.resource_type "");
    resource = λ e. ground (arith, eq_iff req.resource "");
  },
  λ f. ground (
    arith,
    f.engine,
    f.model,
    f.principal,
    f.action,
    f.resource_type,
    f.resource,
    eq_iff req.engine "",
    eq_iff req.model "",
    eq_iff req.principal "",
    eq_iff req.action "",
    eq_iff req.resource "",
    eq_iff req.resource_type "",
  ),
)

-- The check that a body asks for.
abbrev pub asked : AuthorizeRequest → Attributes → Request
asked req context = record {
  model = req.model;
  principal = req.principal;
  action = req.action;
  resource_type = req.resource_type;
  resource = req.resource;
  context = context;
}

module _ (F : Float64) (json : Decoder F.T) where
  -- The context that a raw text stands for: none at all, or the values of a JSON object.
  abbrev pub Means : String → Attributes → Type 0
  Means raw context =
      ((raw ≡ "") × (context ≡ []))
      ⊎ ((raw ≢ "")
          × ((m : List (String × Json F.T)) × (json.unmarshal raw ≡ some m)
              × RepresentsAll F m context))

  Means-iff :
      (raw : String) (context : Attributes)
      → (decode_context F json raw ≡ ok context) ↔ Means raw context
  unfolding decode_context
  Means-iff raw context = elim (Bool-cases (raw == "")) [
    | inl empty ↦ rw empty (
      λ h. inl ((eq_iff raw "").0 empty, ground (arith, h)),
      λ h. elim h [
        | inl (_, e) ↦ rw e refl
        | inr (full, _) ↦ absurd (full ((eq_iff raw "").0 empty))
      ],
    )
    | inr full ↦
        let nonempty : raw ≢ "" = λ e. ground (arith, full, e, eq_iff raw "") in
        rw full (
          λ h. elim (Option-cases (json.unmarshal raw)) [
            | inl broken ↦ absurd (ground (arith, broken, h))
            | inr (m, read) ↦
                inr (nonempty, (m, read, (decode_entries-eq-ok_iff F m context).0 (rw read at h)))
          ],
          λ h. elim h [
            | inl (e, _) ↦ absurd (nonempty e)
            | inr (_, (m, read, r)) ↦ rw read ((decode_entries-eq-ok_iff F m context).1 r)
          ],
        )
  ]

  -- A body that passes the handler's own validation, with the request that it stands for.
  pub record Parsed (raw_body : String) (req : AuthorizeRequest) (context : Attributes)
      : Type 0 where
    pub decoded : json.decode raw_body ≡ some req
    pub complete : Filled req
    pub with_context : Means req.context context

  module _ (router : Checker) (duration_ms : ℕ) (raw_body : String) where
    Parsed-or_rejected :
        ((req : AuthorizeRequest) × (context : Attributes) × Parsed raw_body req context)
        ⊎ IsRejection (authorize F json router duration_ms raw_body)
    unfolding authorize
    Parsed-or_rejected = elim (Option-cases (json.decode raw_body)) [
      | inl broken ↦ inr (record { status = ground arith; body = λ a h. ground arith })
      | inr (req, decoded) ↦ elim (Bool-cases (missing_field req)) [
        | inl missing ↦ inr (record { status = ground arith; body = λ a h. ground arith })
        | inr complete ↦ elim (Fallible-cases (decode_context F json req.context)) [
          | inl (context, e) ↦ inl (
            req,
            context,
            record {
              decoded = decoded;
              complete = (Filled-iff req).0 complete;
              with_context = (Means-iff req.context context).0 e;
            },
          )
          | inr (e, bad) ↦ inr (record { status = ground arith; body = λ a h. ground arith })
        ]
      ]
    ]

    authorize-of_Parsed :
        (req : AuthorizeRequest) (context : Attributes)
        → Parsed raw_body req context
        → authorize F json router duration_ms raw_body
          ≡ respond duration_ms req
              (router.check (engine_name req.engine) (domain_request req context))
    unfolding authorize
    authorize-of_Parsed req context p = ground (
      arith,
      p.decoded,
      (Filled-iff req).1 p.complete,
      (Means-iff req.context context).1 p.with_context,
    )

    respond-authorized :
        (req : AuthorizeRequest) (m : Fallible Result) (a : AuthorizeResponse)
        → (respond duration_ms req m).body ≡ authorized a
        → (res : Result) × (m ≡ ok res) × (a ≡ answer duration_ms (engine_name req.engine) req res)
    unfolding respond
    respond-authorized req (ok res) a h = (res, refl, ground (arith, word_of_decision res.decision))
    respond-authorized req (err e) a h = absurd (ground arith)

    -- The handler answers with an authorization result exactly when the body decodes to a request whose six fields are not empty and whose context is absent or a JSON object of booleans, texts, whole numbers and arrays of texts, and the router's check of just these fields succeeds under the engine's full name, which is the named one but "spicedb-minimize_latency" for "spicedb"; the response then carries that full name, the model, the word for the decision, the entity count of that very check and the clock's duration.
    pub authorize-authorized_iff :
        (a : AuthorizeResponse)
        → ((authorize F json router duration_ms raw_body).body ≡ authorized a) ↔ (
            (req : AuthorizeRequest) × (context : Attributes) × (full : String) × (res : Result)
            × Parsed raw_body req context
            × Names req.engine full
            × (router.check full (asked req context) ≡ ok res)
            × (a ≡ answer duration_ms full req res))
    unfolding domain_request
    authorize-authorized_iff a = (to, from)
      where
        to :
            (authorize F json router duration_ms raw_body).body ≡ authorized a
            → (req : AuthorizeRequest) × (context : Attributes) × (full : String) × (res : Result)
              × Parsed raw_body req context
              × Names req.engine full
              × (router.check full (asked req context) ≡ ok res)
              × (a ≡ answer duration_ms full req res)
        to h = elim Parsed-or_rejected [
          | inr bad ↦ absurd (bad.body a h)
          | inl (req, context, p) ↦
              let (res, e, same) =
                respond-authorized req _ a (rw (authorize-of_Parsed req context p) at h) in
              (req, context, engine_name req.engine, res, p, Names-engine_name req.engine, e, same)
        ]

        from :
            ((req : AuthorizeRequest) × (context : Attributes) × (full : String) × (res : Result)
              × Parsed raw_body req context
              × Names req.engine full
              × (router.check full (asked req context) ≡ ok res)
              × (a ≡ answer duration_ms full req res))
            → (authorize F json router duration_ms raw_body).body ≡ authorized a
        from (req, context, full, res, p, names, e, same) =
            rw
              (
                authorize-of_Parsed req context p,
                engine_name-of_Names req.engine full names,
                e,
                same,
              )
              (unfold respond in
                ground (
                  arith,
                  engine_name-of_Names req.engine full names,
                  word_of_decision res.decision,
                ))

-- The composition of the service: the handler over the core router.
unfoldable pub service_checker : Router → Checker
service_checker r = record { check = Service.check r; engines = Service.engines r }

module _ (F : Float64) (json : Decoder F.T) (r : Router) (duration_ms : ℕ) (raw_body : String) where
  -- With the core router behind it, and registered engines whose own errors do not wrap ErrBadRequest, the handler answers 502 exactly when the body stands for a request that the router accepts and the engine's check of that request fails; every other failure is answered otherwise.
  pub authorize-gateway_iff :
      ((d : Decider) (engine : String) (q : Request) (e : Error)
        → lookup engine r.deciders ≡ some d
        → d.check q ≡ err e
        → is_bad_request e ≡ false)
      → ((authorize F json (service_checker r) duration_ms raw_body).status ≡ status_bad_gateway)
        ↔ ((req : AuthorizeRequest) × (context : Attributes) × (full : String) × (d : Decider)
            × (e : Error) × Parsed F json raw_body req context
            × Names req.engine full
            × Accepted r full (asked req context) d
            × (d.check (asked req context) ≡ err e))
  unfolding service_checker respond is_bad_request domain_request
  authorize-gateway_iff clean = (to, from)
    where
      at_engine :
          (req : AuthorizeRequest) (context : Attributes) (d : Decider) (m : Fallible Result)
          → (respond duration_ms req (wrapping d.name m)).status ≡ 502
          → (e : Error) × (m ≡ err e)
      at_engine req context d (ok res) h = absurd (omega arith)
      at_engine req context d (err e) h = (e, refl)

      to :
          ((authorize F json (service_checker r) duration_ms raw_body).status ≡ 502)
          → (req : AuthorizeRequest) × (context : Attributes) × (full : String) × (d : Decider)
            × (e : Error) × Parsed F json raw_body req context
            × Names req.engine full
            × Accepted r full (asked req context) d
            × (d.check (asked req context) ≡ err e)
      to h = elim (Parsed-or_rejected F json (service_checker r) duration_ms raw_body) [
        | inr bad ↦ absurd (omega (arith, bad.status))
        | inl (req, context, p) ↦
            let h' =
              rw (authorize-of_Parsed F json (service_checker r) duration_ms raw_body req context p)
                at h in
            elim (Accepted-or_rejected r (engine_name req.engine) (domain_request req context)) [
              | inl (d, a) ↦
                  let (e, failed) =
                    at_engine req context d _ (rw (Accepted-check r _ _ d a) at h') in
                  (
                    req,
                    context,
                    engine_name req.engine,
                    d,
                    e,
                    p,
                    Names-engine_name req.engine,
                    a,
                    failed,
                  )
              | inr (e, same, bad, _) ↦ absurd (ground arith)
            ]
      ]

      from :
          ((req : AuthorizeRequest) × (context : Attributes) × (full : String) × (d : Decider)
            × (e : Error) × Parsed F json raw_body req context
            × Names req.engine full
            × Accepted r full (asked req context) d
            × (d.check (asked req context) ≡ err e))
          → (authorize F json (service_checker r) duration_ms raw_body).status ≡ 502
      from (req, context, full, d, e, p, names, a, failed) =
          rw
            (
              authorize-of_Parsed F json (service_checker r) duration_ms raw_body req context p,
              engine_name-of_Names req.engine full names,
              Accepted-check r _ _ d a,
            )
            (ground (arith, clean d _ _ e a.found failed, failed))
