-- ===== src/Cedar/FromHandler.antt =====
-- The contexts that the handler accepts, at the Cedar decider.
use test_permission.Base.{inl, inr, true, String, List, [], ◌∷◌, ◌≡◌, refl, arith}
use test_permission.Base.Float.{Float64}
use test_permission.Base.Fallible.{ok, Fallible-cases}
use test_permission.Domain.{Value, Attributes, Request, Entity}
use test_permission.Rest.JsonAny.{Json}
use test_permission.Rest.{decode_entries}
use test_permission.Rest.ContextLaws.{Represents, RepresentsAll, decode_entries-eq-ok_iff}
use test_permission.Cedar.{PreparedCheck, prepare}
use test_permission.Cedar.Laws.{
  is_supported, all_supported, entities_supported, is_ok-prepare, ConvertsAll, find-prepare,
}

module _ (F : Float64) where
  supported_of_Represents : (v : Json F.T) (t : Value) → Represents F v t → is_supported t ≡ true
  unfolding is_supported
  supported_of_Represents (Json.bool b) (Value.other t) h = absurd h
  supported_of_Represents (Json.string b) (Value.other t) h = absurd h
  supported_of_Represents (Json.number b) (Value.other t) h = absurd h
  supported_of_Represents (Json.array b) (Value.other t) h = absurd h
  supported_of_Represents Json.null (Value.other t) h = absurd h
  supported_of_Represents (Json.object b) (Value.other t) h = absurd h
  supported_of_Represents _ _ h = refl

  supported_of_RepresentsAll :
      (m : List (String × Json F.T)) (out : Attributes)
      → RepresentsAll F m out
      → all_supported out ≡ true
  unfolding all_supported
  supported_of_RepresentsAll [] [] h = refl
  supported_of_RepresentsAll ((k, v) ∷ m) ((j, t) ∷ out) (_, here, later) =
      ground (arith, supported_of_Represents v t here, supported_of_RepresentsAll m out later)
  supported_of_RepresentsAll _ _ h = absurd h

  -- For a request whose context the handler has decoded, the Cedar decider's preparation succeeds with every slice of entities whose attributes can be converted, so the decider never refuses it for its context; the prepared request then has the context's keys in order, each with the engine's value of the same bool, text, integer or texts.
  pub decode_entries-supported :
      (m : List (String × Json F.T)) (req : Request) (es : List Entity)
      → decode_entries F m ≡ ok req.context
      → entities_supported es ≡ true
      → (p : PreparedCheck) × (prepare req es ≡ ok p) × ConvertsAll req.context p.req.context
  decode_entries-supported m req es h converts =
      let known =
        supported_of_RepresentsAll m req.context ((decode_entries-eq-ok_iff F m req.context).0 h) in
      elim (Fallible-cases (prepare req es)) [
        | inl (p, e) ↦ let (_, _, _, _, context) = find-prepare req es p e in (p, e, context)
        | inr (x, refused) ↦ absurd (ground (arith, is_ok-prepare req es, known, converts, refused))
      ]
