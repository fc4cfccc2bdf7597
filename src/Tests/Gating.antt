-- ===== src/Tests/Gating.antt =====
-- The gate on one tuple, and a sampled tuple that is read back.
use test_permission.Base.{true, false, ◌≡◌, ◌↔◌, refl, String, List, [], ◌∷◌, All}
use test_permission.Base.Int.{ℤ, pos}
use test_permission.Base.Fallible.{Fallible, ok}
use test_permission.Domain.{Value, Request, Entity}
use test_permission.Cedar.{Engine, PreparedCheck, prepare, cedar_request, add_entities, to_record}
use test_permission.Rest.JsonAny.{Json}
use test_permission.Seed.Sampler.{Tuple}
use test_permission.Seed.Sampler.Loaded.{LoadedTuple, request_of, loaded_request, context_of}
use test_permission.Seed.Sampler.Loaded.Laws.{
  ReadsBack, IsPlain, reread_tuple, loaded_request-reread,
}
use test_permission.Bench.{gate, preload}
use test_permission.Bench.Gate.{Passes, gate-Passes_iff}
use test_permission.Bench.Preloaded.{DecidesEach, preload-DecidesEach}
use test_permission.Tests.Samples.{integers, integers-IsExact, cedar_stub}

-- A reading of integers and texts; a sampled context has no other value.
abbrev plain_json : Value → Json ℤ
plain_json (Value.int64 i) = Json.number i
plain_json (Value.string s) = Json.string s
plain_json _ = Json.null

plain_json-ReadsBack : ReadsBack integers plain_json
plain_json-ReadsBack = record { int64_number = λ i. refl; string_text = λ s. refl }

abbrev order_tuple : Tuple
order_tuple = record {
  model = "pbac";
  principal = "psn-000001";
  action = "po.approve";
  resource_type = "PurchaseOrder";
  resource = "po-000001";
  context = ("amount", Value.int64 (pos 2_000_000)) ∷ ("region", Value.string "jakarta") ∷ [];
  expected = "allow";
}

loaded_request-reread_example :
    loaded_request integers (reread_tuple integers plain_json order_tuple)
    ≡ ok (request_of order_tuple)
loaded_request-reread_example =
    loaded_request-reread integers plain_json integers-IsExact plain_json-ReadsBack order_tuple
      (IsPlain.exact refl refl, (IsPlain.text, tt))

abbrev plain_tuple : LoadedTuple ℤ
plain_tuple = record {
  model = "rbac";
  principal = "psn-000001";
  action = "execute";
  resource_type = "Endpoint";
  resource = "ep/sales/list";
  context = [];
  expected = "allow";
}

abbrev one_file : String → Fallible (List (LoadedTuple ℤ))
one_file model = ok (plain_tuple ∷ [])

gate-Passes_iff_example :
    (gate integers one_file (cedar_stub ∷ []) ("rbac" ∷ []) false ≡ ok false)
    ↔ All (Passes integers one_file (cedar_stub ∷ [])) ("rbac" ∷ [])
gate-Passes_iff_example = gate-Passes_iff integers one_file (cedar_stub ∷ []) ("rbac" ∷ [])

abbrev yes_engine : Engine
yes_engine = record {
  PolicySet = Unit {0};
  parse = λ text. ok tt;
  authorize = λ policies store req. true;
}

abbrev no_entities : Request → Fallible (List Entity)
no_entities req = ok []

abbrev plain_request : Request
plain_request = record {
  model = "rbac";
  principal = "psn-000001";
  action = "execute";
  resource_type = "Endpoint";
  resource = "ep/sales/list";
  context = [];
}

abbrev plain_prepared : PreparedCheck
plain_prepared = record { store = []; req = cedar_request plain_request [] }

plain_preloaded : preload integers no_entities (plain_tuple ∷ []) ≡ ok (plain_prepared ∷ [])
unfolding preload loaded_request context_of prepare add_entities to_record
plain_preloaded = refl

preload-DecidesEach_example :
    DecidesEach integers yes_engine tt no_entities (plain_tuple ∷ []) (plain_prepared ∷ [])
preload-DecidesEach_example =
    preload-DecidesEach integers yes_engine tt no_entities (plain_tuple ∷ []) (plain_prepared ∷ [])
      plain_preloaded
