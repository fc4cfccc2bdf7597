-- ===== src/Service/Laws.antt =====
-- What the router answers, and which engine it asks.
use test_permission.Base.{
  true, false, String, Option, none, some, List, [], ◌∷◌, ◌≡◌, refl, ◌↔◌, ◌==◌, if◌then◌else◌,
  arith, lookup, insert, contains, lookup-insert, Option-cases, Bool-cases, inl, inr, ◌⊎◌, ◌≢◌,
  eq_iff,
}
use test_permission.Base.Fallible.{Fallible, Error, bad_request, ok, err, wrapping}
use test_permission.Domain.{models, Request, Result, Decider}
use test_permission.Service.{Router, register, new_router, missing_field, check, is_bad_request}

-- The last decider with a name, which later registrations overwrite.
unfoldable pub last_named : String → List Decider → Option Decider
last_named engine [] = none
last_named engine (d ∷ ds) = elim (last_named engine ds) [
  | none ↦ if d.name == engine then some d else none
  | some later ↦ some later
]

lookup-register :
    (engine : String) (m : List (String × Decider)) (ds : List Decider)
    → lookup engine (register m ds)
      ≡ elim (last_named engine ds) [ none ↦ lookup engine m | some later ↦ some later ]
unfolding register last_named
lookup-register engine m [] = refl
lookup-register engine m (d ∷ ds) =
    ground (arith, lookup-register engine (insert d.name d m) ds, lookup-insert d.name engine d m)

-- The router built from a list of deciders finds under an engine name the last decider of that name, and nothing when no decider has it.
pub lookup-new_router :
    (engine : String) (ds : List Decider)
    → lookup engine (new_router ds).deciders ≡ last_named engine ds
unfolding new_router lookup
lookup-new_router engine ds = ground (arith, lookup-register engine [] ds)

-- The four fields that a request needs.
pub record Filled (req : Request) : Type 0 where
  pub principal : req.principal ≢ ""
  pub action : req.action ≢ ""
  pub resource : req.resource ≢ ""
  pub resource_type : req.resource_type ≢ ""

-- The five models.
abbrev pub IsModel : String → Type 0
IsModel m = (m ≡ "rbac") ⊎ (m ≡ "rebac") ⊎ (m ≡ "abac") ⊎ (m ≡ "pbac") ⊎ (m ≡ "acl")

Filled-iff : (req : Request) → (missing_field req ≡ false) ↔ Filled req
unfolding missing_field
Filled-iff req = (
  λ h. record {
    principal = λ e. ground (arith, eq_iff req.principal "");
    action = λ e. ground (arith, eq_iff req.action "");
    resource = λ e. ground (arith, eq_iff req.resource "");
    resource_type = λ e. ground (arith, eq_iff req.resource_type "");
  },
  λ f. ground (
    arith,
    f.principal,
    f.action,
    f.resource,
    f.resource_type,
    eq_iff req.principal "",
    eq_iff req.action "",
    eq_iff req.resource "",
    eq_iff req.resource_type "",
  ),
)

IsModel-iff : (m : String) → (contains models m ≡ true) ↔ IsModel m
unfolding contains
IsModel-iff m = (
  λ h. ground (
    arith,
    h,
    eq_iff "rbac" m,
    eq_iff "rebac" m,
    eq_iff "abac" m,
    eq_iff "pbac" m,
    eq_iff "acl" m,
  ),
  λ k. ground (
    arith,
    k,
    eq_iff "rbac" m,
    eq_iff "rebac" m,
    eq_iff "abac" m,
    eq_iff "pbac" m,
    eq_iff "acl" m,
  ),
)

-- A request that the router passes on: a registered engine, no missing field, a known model.
pub record Accepted (r : Router) (engine : String) (req : Request) (d : Decider) : Type 0 where
  pub found : lookup engine r.deciders ≡ some d
  pub complete : Filled req
  pub known : IsModel req.model

-- The check succeeds with a result exactly when the engine is registered, the principal, action, resource and resource type are not empty, the model is one of rbac, rebac, abac, pbac and acl, and the engine's own check succeeds with that result.
pub check-Accepted_iff :
    (r : Router) (engine : String) (req : Request) (res : Result)
    → (check r engine req ≡ ok res)
      ↔ ((d : Decider) × Accepted r engine req d × (d.check req ≡ ok res))
unfolding check
check-Accepted_iff r engine req res = (
  to,
  λ (d, a, e).
      ground (arith, a.found, (Filled-iff req).1 a.complete, (IsModel-iff req.model).1 a.known),
)
  where
    to :
        check r engine req ≡ ok res
        → (d : Decider) × Accepted r engine req d × (d.check req ≡ ok res)
    to h = elim (Option-cases (lookup engine r.deciders)) [
      | inl missed ↦ absurd (ground arith)
      | inr (d, found) ↦ (
        d,
        record {
          found = found;
          complete = (Filled-iff req).0 (ground arith);
          known = (IsModel-iff req.model).0 (ground arith);
        },
        ground arith,
      )
    ]

wrapping_clean :
    (text : String) (m : Fallible Result) (e : Error)
    → ((e' : Error) → m ≡ err e' → is_bad_request e' ≡ false)
    → wrapping text m ≡ err e
    → is_bad_request e ≡ false
unfolding is_bad_request
wrapping_clean text (ok res) e clean h = cc
wrapping_clean text (err e') e clean h = ground (arith, clean e' refl)

-- A request that the router accepts is answered by its engine, the error wrapped in the name.
pub Accepted-check :
    (r : Router) (engine : String) (req : Request) (d : Decider)
    → Accepted r engine req d
    → check r engine req ≡ wrapping d.name (d.check req)
unfolding check
Accepted-check r engine req d a =
    ground (arith, a.found, (Filled-iff req).1 a.complete, (IsModel-iff req.model).1 a.known)

-- Every other request is answered by an error that wraps ErrBadRequest.
pub Accepted-or_rejected :
    (r : Router) (engine : String) (req : Request)
    → ((d : Decider) × Accepted r engine req d)
      ⊎ ((e : Error) × (check r engine req ≡ err e)
          × (is_bad_request e ≡ true)
          × (¬ ((d : Decider) × Accepted r engine req d)))
unfolding check is_bad_request
Accepted-or_rejected r engine req = elim (Option-cases (lookup engine r.deciders)) [
  | inl missed ↦
      inr (
        bad_request "unknown engine",
        ground arith,
        refl,
        λ (d, a). absurd (ground (arith, a.found)),
      )
  | inr (d, found) ↦ elim (Bool-cases (missing_field req)) [
    | inl missing ↦ inr (
      bad_request "principal, action, resource_type and resource are required",
      ground arith,
      refl,
      λ (d', a). absurd (ground (arith, (Filled-iff req).1 a.complete)),
    )
    | inr complete ↦ elim (Bool-cases (contains models req.model)) [
      | inl known ↦ inl (
        d,
        record {
          found = found;
          complete = (Filled-iff req).0 complete;
          known = (IsModel-iff req.model).0 known;
        },
      )
      | inr unknown ↦ inr (
        bad_request "unknown model",
        ground arith,
        refl,
        λ (d', a). absurd (ground (arith, (IsModel-iff req.model).1 a.known)),
      )
    ]
  ]
]

-- When the error of the engine registered under the name, if there is one, does not wrap ErrBadRequest, a failing check wraps ErrBadRequest exactly when the router did not accept the request (no decider under the engine's name, an empty principal, action, resource or resource type, or a model that is none of the five); every other error comes from the engine.
pub check_bad_request_iff :
    (r : Router) (engine : String) (req : Request) (e : Error)
    → ((d : Decider) (e' : Error)
        → lookup engine r.deciders ≡ some d
        → d.check req ≡ err e'
        → is_bad_request e' ≡ false)
    → check r engine req ≡ err e
    → (is_bad_request e ≡ true) ↔ (¬ ((d : Decider) × Accepted r engine req d))
check_bad_request_iff r engine req e engines_clean h = elim (Accepted-or_rejected r engine req) [
  | inl (d, a) ↦
      let clean =
        wrapping_clean d.name (d.check req) e (λ e'. engines_clean d e' a.found)
          (cc (Accepted-check r engine req d a)) in
      (λ b _. absurd (cc (clean, b)), λ no_decider. absurd (no_decider (d, a)))
  | inr (e', same, bad, none_accepted) ↦ (λ _. none_accepted, λ _. ground arith)
]
