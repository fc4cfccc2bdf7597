-- ===== src/Seed/Sampler/Loaded.antt =====
-- internal/seed/sampler.go `Tuple.Request`, for a tuple of the sampler and for one that is read back
-- from its file, where a number of the context is a float64. encoding/json is a parameter.
pub mod Laws
use test_permission.Base.{String, List, [], ◌∷◌}
use test_permission.Base.Fallible.{Fallible, ok, err, fault, ◌>>=◌}
use test_permission.Base.Float.{Float64}
use test_permission.Domain.{Value, Attributes, Request}
use test_permission.Rest.JsonAny.{Json, Items, nil, cons}
use test_permission.Seed.Sampler.{Tuple}

-- A tuple as json.Unmarshal makes it.
pub record LoadedTuple (Float : Type 0) : Type 0 where
  pub model : String
  pub principal : String
  pub action : String
  pub resource_type : String
  pub resource : String
  pub context : List (String × Json Float)
  pub expected : String

-- No value of a sampled context is a float64 or a []any: each is kept.
abbrev pub request_of : Tuple → Request
request_of t = record {
  model = t.model;
  principal = t.principal;
  action = t.action;
  resource_type = t.resource_type;
  resource = t.resource;
  context = t.context;
}

module _ (F : Float64) where
  -- `e.(string)` panics on any other type.
  unfoldable pub strings_of : Items F.T → Fallible (List String)
  strings_of nil = ok []
  strings_of (cons (Json.string s) es) = do ss ← strings_of es; ok (s ∷ ss)
  strings_of (cons _ es) = err (fault "interface conversion")

  -- The type switch.
  unfoldable pub value_of : Json F.T → Fallible Value
  value_of (Json.number x) = ok (Value.int64 (F.to_int x))
  value_of (Json.array es) = do ss ← strings_of es; ok (Value.strings ss)
  value_of (Json.string s) = ok (Value.string s)
  value_of (Json.bool b) = ok (Value.bool b)
  value_of Json.null = ok (Value.other "nil")
  value_of (Json.object fields) = ok (Value.other "map[string]interface {}")

  unfoldable pub context_of : List (String × Json F.T) → Fallible Attributes
  context_of [] = ok []
  context_of ((k, v) ∷ entries) = do
    value ← value_of v
    rest ← context_of entries
    ok ((k, value) ∷ rest)

  unfoldable pub loaded_request : LoadedTuple F.T → Fallible Request
  loaded_request t = do
    context ← context_of t.context
    ok (record {
      model = t.model;
      principal = t.principal;
      action = t.action;
      resource_type = t.resource_type;
      resource = t.resource;
      context = context;
    })
