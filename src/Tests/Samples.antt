-- ===== src/Tests/Samples.antt =====
-- Test data for internal/core, internal/adapter and internal/seed: engines, requests and records.
use test_permission.Base.{true, String, none, some, List, [], ◌∷◌, refl}
use test_permission.Base.Int.{ℤ, pos, eq_ℤ}
use test_permission.Base.Float.{Float64, IsExact}
use test_permission.Base.Fallible.{ok, err, fault}
use test_permission.Domain.{
  Value, Attributes, Request, Result, Entity, Decider, EntityLoader, allow,
}
use test_permission.Service.{Router}
use test_permission.Rest.JsonAny.{Json, nil, cons}
use test_permission.Rest.{AuthorizeRequest, Decoder}
use test_permission.Spicedb.{Client, Normals, Permissionship}
use test_permission.Cedar.{Engine}
use test_permission.Seed.Types.{Fact, PersonaRole, RoleGrant, AclEntry}

-- Doubles that hold every integer.
abbrev pub integers : Float64
integers = record { T = ℤ; of_int = λ i. i; to_int = λ i. i; same = eq_ℤ }

pub integers-IsExact : IsExact integers
integers-IsExact = record { round_trip = λ i _ _. refl }

abbrev pub granted : Result
granted = record { decision = allow; entities_loaded = 3 }

abbrev pub cedar_stub : Decider
cedar_stub = record { name = "cedar"; check = λ _. ok granted }

abbrev pub old_cedar_stub : Decider
old_cedar_stub = record { name = "cedar"; check = λ _. err (fault "old") }

abbrev pub down_stub : Decider
down_stub = record { name = "spicedb-minimize_latency"; check = λ _. err (fault "down") }

abbrev pub router : Router
router = record { deciders = ("cedar", cedar_stub) ∷ ("spicedb-minimize_latency", down_stub) ∷ [] }

abbrev pub execute_request : Request
execute_request = record {
  model = "rbac";
  principal = "p1";
  action = "execute";
  resource_type = "Endpoint";
  resource = "e1";
  context = [];
}

abbrev pub body_request : String → AuthorizeRequest
body_request engine = record {
  engine = engine;
  model = "rbac";
  principal = "p1";
  action = "execute";
  resource_type = "Endpoint";
  resource = "e1";
  context = "";
}

-- A decoder that reads the text as the engine's name.
abbrev pub decoder : Decoder ℤ
decoder = record { decode = λ text. some (body_request text); unmarshal = λ _. none }

abbrev pub context_json : List (String × Json ℤ)
context_json =
    ("amount", Json.number (pos 250)) ∷ ("regions", Json.array (cons (Json.string "jkt") nil)) ∷ []

abbrev pub context_values : Attributes
context_values = ("amount", Value.int64 (pos 250)) ∷ ("regions", Value.strings ("jkt" ∷ [])) ∷ []

-- A server that grants everything.
abbrev pub client : Client ℤ
client = record {
  Struct = Normals ℤ;
  new_struct = ok;
  check_permission = λ _. ok Permissionship.has_permission;
}

abbrev pub engine : Engine
engine = record { PolicySet = Unit {0}; parse = λ _. ok tt; authorize = λ _ _ _. true }

abbrev pub role_entity : Entity
role_entity = record { uid = record { type = "Role"; id = "r1" }; attributes = []; parents = [] }

abbrev pub older_role_entity : Entity
older_role_entity = record {
  uid = record { type = "Role"; id = "r1" };
  attributes = ("level", Value.int (pos 1)) ∷ [];
  parents = [];
}

abbrev pub slice : List Entity
slice = older_role_entity ∷ role_entity ∷ []

abbrev pub loader : EntityLoader
loader _ = ok slice

abbrev pub root_org : Fact
root_org =
    Fact.org (record {
      id = "o1";
      parent_id = "";
      root_id = "o1";
      name = "Org";
      depth = 0;
      region = "jkt";
    })

abbrev pub child_org : Fact
child_org = Fact.org (record {
  id = "o2";
  parent_id = "o1";
  root_id = "o1";
  name = "Sub";
  depth = 1;
  region = "jkt";
})

abbrev pub assignment : PersonaRole
assignment = record { persona_id = "p1"; role_id = "r1"; org_id = "o1" }

abbrev pub grant : RoleGrant
grant = record {
  role_id = "r1";
  resource_type = "endpoint";
  resource_id = "e1";
  action = "execute";
}

abbrev pub edit_entry : AclEntry
edit_entry = record { resource_id = "d1"; persona_id = "p1"; action = "edit" }

abbrev pub facts : List Fact
facts =
    root_org
    ∷ child_org
    ∷ Fact.persona_role assignment
    ∷ Fact.persona_role assignment
    ∷ Fact.role_grant grant
    ∷ Fact.acl_entry edit_entry
    ∷ []
