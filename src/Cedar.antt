-- ===== src/Cedar.antt =====
-- internal/adapter/outbound/cedar/engine.go: checks with the embedded Cedar engine.
-- The engine (cedar-go) is a parameter; its native values are written out.
pub mod Laws
pub mod FromHandler
use Prim.Native.String.{◌++◌ as str_append}
use test_permission.Base.{
  Bool, true, false, ℕ, String, Option, none, some, List, [], ◌∷◌, ◌&&◌, ◌==◌, if◌then◌else◌,
  length,
}
use test_permission.Base.Int.{ℤ}
use test_permission.Base.Fallible.{Fallible, ok, err, fault, ◌>>=◌, wrapping}
use test_permission.Domain.{
  EntityUid, Value, Attributes, Request, Result, Entity, Decider, EntityLoader, Decision, allow,
  deny,
}

-- The values of the engine. A set that the adapter builds holds texts or entity references.
pub data Scalar : Type 0 where
  boolean : Bool → Scalar
  text : String → Scalar
  long : ℤ → Scalar
  entity : EntityUid → Scalar

pub data CedarValue : Type 0 where
  scalar : Scalar → CedarValue
  set : List Scalar → CedarValue

abbrev pub CedarRecord : Type 0
CedarRecord = List (String × CedarValue)

pub record CedarEntity : Type 0 where
  pub uid : EntityUid
  pub parents : List EntityUid
  pub attributes : CedarRecord

abbrev pub EntityMap : Type 0
EntityMap = List (EntityUid × CedarEntity)

pub record CedarRequest : Type 0 where
  pub principal : EntityUid
  pub action : EntityUid
  pub resource : EntityUid
  pub context : CedarRecord

unfoldable pub uid_eq : EntityUid → EntityUid → Bool
uid_eq a b = a.type == b.type && a.id == b.id

-- `store[uid] = e`
unfoldable pub put_entity : EntityUid → CedarEntity → EntityMap → EntityMap
unfolding uid_eq
put_entity u e [] = (u, e) ∷ []
put_entity u e ((v, f) ∷ store) =
    if uid_eq v u then (u, e) ∷ store else (v, f) ∷ put_entity u e store

unfoldable pub find_entity : EntityUid → EntityMap → Option CedarEntity
unfolding uid_eq
find_entity u [] = none
find_entity u ((v, f) ∷ store) = if uid_eq v u then some f else find_entity u store

-- The two loops that collect the elements of a set.
abbrev pub text_elems : List String → List Scalar
text_elems [] = []
text_elems (s ∷ ss) = text s ∷ text_elems ss

abbrev pub uid_elems : List EntityUid → List Scalar
uid_elems [] = []
uid_elems (u ∷ us) = entity u ∷ uid_elems us

unfoldable pub to_value : Value → Fallible CedarValue
to_value (Value.bool b) = ok (scalar (boolean b))
to_value (Value.string s) = ok (scalar (text s))
to_value (Value.int i) = ok (scalar (long i))
to_value (Value.int64 i) = ok (scalar (long i))
to_value (Value.uid u) = ok (scalar (entity u))
to_value (Value.strings ss) = ok (set (text_elems ss))
to_value (Value.uids us) = ok (set (uid_elems us))
to_value (Value.other type) = err (fault "unsupported attribute type")

-- The loop over an attribute or context map, whose keys are distinct.
unfoldable pub to_record : Attributes → Fallible CedarRecord
unfolding to_value
to_record [] = ok []
to_record ((k, raw) ∷ m) = do
  val ← wrapping k (to_value raw)
  rest ← to_record m
  ok ((k, val) ∷ rest)

unfoldable pub to_entity : Entity → Fallible CedarEntity
unfolding to_record
to_entity de = do
  attrs ← wrapping de.uid.id (to_record de.attributes)
  ok (record { uid = de.uid; parents = de.parents; attributes = attrs })

-- The loop that fills the entity store.
unfoldable pub add_entities : EntityMap → List Entity → Fallible EntityMap
unfolding to_entity put_entity
add_entities store [] = ok store
add_entities store (de ∷ des) = do e ← to_entity de; add_entities (put_entity de.uid e store) des

pub record PreparedCheck : Type 0 where
  pub store : EntityMap
  pub req : CedarRequest

abbrev pub principal_type : String
principal_type = "Persona"

abbrev pub cedar_request : Request → CedarRecord → CedarRequest
cedar_request req context = record {
  principal = record { type = principal_type; id = req.principal };
  action = record { type = "Action"; id = req.action };
  resource = record { type = req.resource_type; id = req.resource };
  context = context;
}

unfoldable pub prepare : Request → List Entity → Fallible PreparedCheck
unfolding add_entities to_record
prepare req entities = do
  store ← add_entities [] entities
  context ← wrapping "request context" (to_record req.context)
  ok (record { store = store; req = cedar_request req context })

-- The documents, each under a comment line with its name.
unfoldable pub policy_text : List (String × String) → String
policy_text [] = ""
policy_text ((name, doc) ∷ docs) =
    str_append "// ---- "
      (str_append name (str_append " ----\n" (str_append doc (str_append "\n" (policy_text docs)))))

-- The engine: a parser of policy sets and the authorization call, `true` for Allow.
pub record Engine : Type 1 where
  pub PolicySet : Type 0
  pub parse : String → Fallible PolicySet
  pub authorize : PolicySet → EntityMap → CedarRequest → Bool

module _ (engine : Engine) where
  open engine use {PolicySet, parse, authorize}

  unfoldable pub evaluate_prepared : PolicySet → PreparedCheck → Decision
  evaluate_prepared policies p = if authorize policies p.store p.req then allow else deny

  unfoldable pub evaluate : PolicySet → Request → List Entity → Fallible Decision
  unfolding evaluate_prepared
  evaluate policies req entities = do p ← prepare req entities; ok (evaluate_prepared policies p)

  unfoldable pub check : PolicySet → EntityLoader → Request → Fallible Result
  unfolding evaluate
  check policies loader req = do
    entities ← wrapping "load entities" (loader req)
    decision ← evaluate policies req entities
    ok (record { decision = decision; entities_loaded = length entities })

  unfoldable pub new_decider : List (String × String) → EntityLoader → Fallible Decider
  unfolding check policy_text
  new_decider docs loader = do
    ps ← wrapping "parse cedar policies" (parse (policy_text docs))
    ok (record { name = "cedar"; check = check ps loader })
