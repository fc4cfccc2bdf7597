-- ===== src/Seed/Sampler/Loaded/Laws.antt =====
-- A tuple that is written to its file and read back asks the same check.
use test_permission.Base.{true, ◌≡◌, refl, String, List, [], ◌∷◌}
use test_permission.Base.Int.{ℤ, pos, leb_ℤ, ◌-ℤ◌}
use test_permission.Base.Float.{Float64, IsExact, exact_bound}
use test_permission.Base.Fallible.{ok}
use test_permission.Domain.{Value, Attributes}
use test_permission.Rest.JsonAny.{Json}
use test_permission.Seed.Sampler.{Tuple}
use test_permission.Seed.Sampler.Loaded.{
  LoadedTuple, request_of, value_of, context_of, loaded_request,
}

-- The documented reading of what encoding/json writes, for the values of sampled contexts.
pub record ReadsBack (F : Float64) (read_back : Value → Json F.T) : Type 0 where
  pub int64_number : (i : ℤ) → read_back (Value.int64 i) ≡ Json.number (F.of_int i)
  pub string_text : (s : String) → read_back (Value.string s) ≡ Json.string s

-- The values of sampled contexts: texts, and integers that a float64 holds exactly.
pub data IsPlain : Value → Type 0 where
  text : {s : String} → IsPlain (Value.string s)
  exact :
      {i : ℤ}
      → leb_ℤ i exact_bound ≡ true
      → leb_ℤ (pos 0 -ℤ exact_bound) i ≡ true
      → IsPlain (Value.int64 i)

abbrev pub PlainContext : Attributes → Type 0
PlainContext [] = Unit
PlainContext (entry ∷ entries) = IsPlain entry.1 × PlainContext entries

module _ (F : Float64) (read_back : Value → Json F.T) where
  unfoldable pub reread : Attributes → List (String × Json F.T)
  reread [] = []
  reread ((k, v) ∷ entries) = (k, read_back v) ∷ reread entries

  abbrev pub reread_tuple : Tuple → LoadedTuple F.T
  reread_tuple t = record {
    model = t.model;
    principal = t.principal;
    action = t.action;
    resource_type = t.resource_type;
    resource = t.resource;
    context = reread t.context;
    expected = t.expected;
  }

  module _ (exact : IsExact F) (reads : ReadsBack F read_back) where
    value_of-read_back : (v : Value) → IsPlain v → value_of F (read_back v) ≡ ok v
    unfolding value_of
    value_of-read_back v IsPlain.text = rw (reads.string_text _)
    value_of-read_back v (IsPlain.exact low high) =
        rw (reads.int64_number _, exact.round_trip _ low high)

    context_of-reread : (c : Attributes) → PlainContext c → context_of F (reread c) ≡ ok c
    unfolding context_of reread
    context_of-reread [] h = refl
    context_of-reread ((k, v) ∷ entries) (plain, h) =
        rw (value_of-read_back v plain, context_of-reread entries h)

    -- A tuple whose context holds only texts and integers of at most 2^53 in size asks the same check after it has been written to its file as JSON and read back: its conversion to a request does not panic and gives the request of the tuple itself.
    pub loaded_request-reread :
        (t : Tuple) → PlainContext t.context → loaded_request F (reread_tuple t) ≡ ok (request_of t)
    unfolding loaded_request
    loaded_request-reread t plain = rw (context_of-reread t.context plain)
