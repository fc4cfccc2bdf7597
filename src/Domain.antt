-- ===== src/Domain.antt =====
-- internal/core/domain: the authorization domain, and internal/core/port: the two ports.
use test_permission.Base.{Bool, ℕ, String, List, [], ◌∷◌}
use test_permission.Base.Int.{ℤ}
use test_permission.Base.Fallible.{Fallible}

pub data Decision : Type 0 where
  allow deny : Decision

-- The string behind a `Decision`.
unfoldable pub decision_string : Decision → String
decision_string allow = "allow"
decision_string deny = "deny"

-- `Model` is a string type: any string may stand in a request.
abbrev pub Model : Type 0
Model = String

abbrev pub model_rbac : Model
model_rbac = "rbac"

abbrev pub model_rebac : Model
model_rebac = "rebac"

abbrev pub model_abac : Model
model_abac = "abac"

abbrev pub model_pbac : Model
model_pbac = "pbac"

abbrev pub model_acl : Model
model_acl = "acl"

abbrev pub models : List Model
models = model_rbac ∷ model_rebac ∷ model_abac ∷ model_pbac ∷ model_acl ∷ []

pub record EntityUid : Type 0 where
  pub type : String
  pub id : String

-- A value of type `any` in an attribute or a context. `other` is a value of a type that the
-- domain does not name; the text is that type's name.
pub data Value : Type 0 where
  bool : Bool → Value
  string : String → Value
  int : ℤ → Value
  int64 : ℤ → Value
  uid : EntityUid → Value
  strings : List String → Value
  uids : List EntityUid → Value
  other : String → Value

-- A `map[string]any`.
abbrev pub Attributes : Type 0
Attributes = List (String × Value)

pub record Request : Type 0 where
  pub model : Model
  pub principal : String
  pub action : String
  pub resource_type : String
  pub resource : String
  pub context : Attributes

pub record Result : Type 0 where
  pub decision : Decision
  pub entities_loaded : ℕ

pub record Entity : Type 0 where
  pub uid : EntityUid
  pub attributes : Attributes
  pub parents : List EntityUid

-- The ports: what an engine answers, and what the embedded engine loads.
pub record Decider : Type 0 where
  pub name : String
  pub check : Request → Fallible Result

abbrev pub EntityLoader : Type 0
EntityLoader = Request → Fallible (List Entity)
