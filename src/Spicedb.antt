-- ===== src/Spicedb.antt =====
-- internal/adapter/outbound/spicedb/decider.go: checks against a SpiceDB server.
-- The client library, structpb and the server are parameters.
pub mod Tables
pub mod Laws
use Prim.Native.String.{◌++◌ as str_append}
use test_permission.Base.{
  Bool, ◌^◌, String, Option, none, some, List, [], ◌∷◌, ◌||◌, ◌==◌, if◌then◌else◌, lookup,
}
use test_permission.Base.Int.{ℤ, pos, ltb_ℤ, ◌-ℤ◌}
use test_permission.Base.Float.{Float64}
use test_permission.Base.Fallible.{Fallible, ok, err, fault, ◌>>=◌, wrapping}
use test_permission.Domain.{Value, Attributes, Request, Result, Decider, allow, deny}
use test_permission.Domain.{model_rbac, model_rebac, model_abac, model_pbac, model_acl}

abbrev pub ConsistencyMode : Type 0
ConsistencyMode = String

abbrev pub minimize_latency : ConsistencyMode
minimize_latency = "minimize_latency"

abbrev pub fully_consistent : ConsistencyMode
fully_consistent = "fully_consistent"

-- The range of integers that the decider sends.
abbrev pub max_exact_int : ℤ
max_exact_int = pos (2 ^ 53)

-- Domain resource types, and the definitions of the schema.
abbrev pub resource_types : List (String × String)
resource_types =
    ("Endpoint", "endpoint")
    ∷ ("Page", "page")
    ∷ ("Component", "component")
    ∷ ("RebacDocument", "rebac_document")
    ∷ ("AbacDocument", "abac_document")
    ∷ ("PurchaseOrder", "purchase_order")
    ∷ ("AclDocument", "acl_document")
    ∷ []

-- The permission of the schema for a model and an action.
abbrev pub permissions : List (String × List (String × String))
permissions =
    (model_rbac, ("execute", "execute") ∷ ("view", "view") ∷ ("render", "render") ∷ [])
    ∷ (model_rebac, ("doc.view", "view") ∷ [])
    ∷ (model_abac, ("doc.read", "read") ∷ [])
    ∷ (model_pbac, ("po.approve", "approve") ∷ [])
    ∷ (model_acl, ("acl.view", "view") ∷ ("acl.edit", "edit") ∷ [])
    ∷ []

-- `permissions[model][action]`: the inner map is nil for an unknown model.
unfoldable pub permission_of : String → String → Option String
permission_of model action = elim (lookup model permissions) [
  | none ↦ none
  | some actions ↦ lookup action actions
]

-- What `normalizeContext` puts into its result: a double, an array of strings, or the value as
-- it came.
pub data Normal (Float : Type 0) : Type 0 where
  number : Float → Normal Float
  array : List String → Normal Float
  same : Value → Normal Float

abbrev pub Normals : Type 0 → Type 0
Normals Float = List (String × Normal Float)

pub data Consistency : Type 0 where
  minimizing_latency full : Consistency

pub data Permissionship : Type 0 where
  has_permission no_permission : Permissionship
  conditional_permission : List String → Permissionship
  unspecified : Permissionship

pub record CheckRequest (Struct : Type 0) : Type 0 where
  pub consistency : Consistency
  pub object_type : String
  pub object_id : String
  pub permission : String
  pub subject_type : String
  pub subject_id : String
  pub context : Option Struct

-- The client library: `structpb.NewStruct` and the call of the server.
pub record Client (Float : Type 0) : Type 1 where
  pub Struct : Type 0
  pub new_struct : Normals Float → Fallible Struct
  pub check_permission : CheckRequest Struct → Fallible Permissionship

unfoldable pub consistency : ConsistencyMode → Consistency
consistency mode =
    if mode == fully_consistent then Consistency.full else Consistency.minimizing_latency

-- The switch on the server's answer.
unfoldable pub decide : Permissionship → Fallible Result
decide Permissionship.has_permission = ok (record { decision = allow; entities_loaded = 0 })
decide Permissionship.no_permission = ok (record { decision = deny; entities_loaded = 0 })
decide (Permissionship.conditional_permission missing) =
    err (fault "conditional permission: missing caveat context")
decide Permissionship.unspecified = err (fault "unexpected permissionship")

module _ (F : Float64) where
  unfoldable pub normalize_value : Value → Fallible (Normal F.T)
  normalize_value (Value.int64 t) =
      if ltb_ℤ max_exact_int t || ltb_ℤ t (pos 0 -ℤ max_exact_int)
      then err (fault "integer exceeds float64 exact range (2^53)")
      else ok (Normal.number (F.of_int t))
  normalize_value (Value.int t) = ok (Normal.number (F.of_int t))
  normalize_value (Value.strings ss) = ok (Normal.array ss)
  normalize_value v = ok (Normal.same v)

  -- The keys of a context are distinct, so the loop writes each key once.
  unfoldable pub normalize_context : Attributes → Fallible (Normals F.T)
  unfolding normalize_value
  normalize_context [] = ok []
  normalize_context ((k, v) ∷ m) = do
    n ← normalize_value v
    out ← normalize_context m
    ok ((k, n) ∷ out)

  module _ (client : Client F.T) where
    open client use {Struct, new_struct, check_permission}

    -- An empty context is not sent.
    unfoldable pub request_context : Attributes → Fallible (Option Struct)
    request_context [] = ok none
    request_context context = do
      norm ← normalize_context context
      s ← wrapping "build check context" (new_struct norm)
      ok (some s)

    module _ (mode : ConsistencyMode) where
      unfoldable pub permission_request :
          String → String → Request → Option Struct → CheckRequest Struct
      permission_request def_type perm req context = record {
        consistency = consistency mode;
        object_type = def_type;
        object_id = req.resource;
        permission = perm;
        subject_type = "persona";
        subject_id = req.principal;
        context = context;
      }

      -- The call of the server, with what its answer makes.
      unfoldable pub ask : String → String → Request → Fallible Result
      ask def_type perm req = do
        context ← request_context req.context
        resp ←
            wrapping "check permission"
              (check_permission (permission_request def_type perm req context))
        decide resp

      unfoldable pub check : Request → Fallible Result
      check req = elim (lookup req.resource_type resource_types) [
        | none ↦ err (fault "unsupported resource type")
        | some def_type ↦ elim (permission_of req.model req.action) [
          | none ↦ err (fault "unsupported action for model")
          | some perm ↦ ask def_type perm req
        ]
      ]

      abbrev pub decider : Decider
      decider = record { name = str_append "spicedb-" mode; check = check }
