-- ===== src/Rest/ContextLaws.antt =====
-- Which contexts the handler accepts, and what it makes of them.
use test_permission.Base.{true, String, List, [], ◌∷◌, ◌≡◌, refl, ◌↔◌, arith, Bool-cases, inl, inr}
use test_permission.Base.Float.{Float64}
use test_permission.Base.Fallible.{ok, >>=-eq-ok}
use test_permission.Domain.{Value, Attributes}
use test_permission.Rest.JsonAny.{Json, Items, nil, cons}
use test_permission.Rest.{decode_strings, decode_value, decode_entries}

module _ (F : Float64) where
  -- A JSON array of strings.
  abbrev pub items_of : List String → Items F.T
  items_of [] = nil
  items_of (s ∷ ss) = cons (Json.string s) (items_of ss)

  -- A context value, and the JSON value that it stands for.
  abbrev pub Represents : Json F.T → Value → Type 0
  Represents (Json.number x) (Value.int64 i) = (F.to_int x ≡ i) × (F.same x (F.of_int i) ≡ true)
  Represents (Json.bool b) (Value.bool c) = b ≡ c
  Represents (Json.string s) (Value.string t) = s ≡ t
  Represents (Json.array es) (Value.strings ss) = es ≡ items_of ss
  Represents _ _ = ⊥

  -- The same keys in the same order, each with a value that represents the other's.
  abbrev pub RepresentsAll : List (String × Json F.T) → Attributes → Type 0
  RepresentsAll [] [] = Unit
  RepresentsAll ((k, v) ∷ m) ((j, t) ∷ out) = (k ≡ j) × Represents v t × RepresentsAll m out
  RepresentsAll _ _ = ⊥

  decode_strings_sound :
      (es : Items F.T) (ss : List String) → decode_strings F es ≡ ok ss → es ≡ items_of ss
  unfolding decode_strings
  decode_strings_sound nil ss h = ground arith
  decode_strings_sound (cons (Json.string s) es) ss h =
      let (rest, e, same) = >>=-eq-ok (decode_strings F es) _ h in
      ground (arith, decode_strings_sound es rest e)
  decode_strings_sound (cons _ es) ss h = cc

  decode_strings_complete : (ss : List String) → decode_strings F (items_of ss) ≡ ok ss
  unfolding decode_strings
  decode_strings_complete [] = refl
  decode_strings_complete (s ∷ ss) = ground (arith, decode_strings_complete ss)

  decode_value_sound : (v : Json F.T) (t : Value) → decode_value F v ≡ ok t → Represents v t
  unfolding decode_value
  decode_value_sound Json.null t h = absurd (ground arith)
  decode_value_sound (Json.bool b) t h = let e : Value.bool b ≡ t = ground arith in rw (← e) refl
  decode_value_sound (Json.string s) t h =
      let e : Value.string s ≡ t = ground arith in rw (← e) refl
  decode_value_sound (Json.number x) t h = elim (Bool-cases (F.same x (F.of_int (F.to_int x)))) [
    | inl whole ↦ let e : Value.int64 (F.to_int x) ≡ t = ground arith in rw (← e) (refl, whole)
    | inr part ↦ absurd (ground arith)
  ]
  decode_value_sound (Json.array es) t h =
      let (ss, e, same) = >>=-eq-ok (decode_strings F es) _ h in
      let e' : Value.strings ss ≡ t = ground arith in rw (← e') (decode_strings_sound es ss e)
  decode_value_sound (Json.object fs) t h = absurd (ground arith)

  decode_value_complete : (v : Json F.T) (t : Value) → Represents v t → decode_value F v ≡ ok t
  unfolding decode_value
  decode_value_complete (Json.number x) (Value.int64 i) (e, same) = ground arith
  decode_value_complete (Json.bool b) (Value.bool c) e = ground arith
  decode_value_complete (Json.string s) (Value.string c) e = ground arith
  decode_value_complete (Json.array es) (Value.strings ss) e = rw (e, decode_strings_complete ss)
  decode_value_complete _ _ h = absurd h

  decode_entries_sound :
      (m : List (String × Json F.T)) (out : Attributes)
      → decode_entries F m ≡ ok out
      → RepresentsAll m out
  unfolding decode_entries
  decode_entries_sound [] out h = let e : [] ≡ out = ground arith in rw (← e) tt
  decode_entries_sound ((k, v) ∷ m) out h =
      let (t, decoded, h') = >>=-eq-ok (decode_value F v) _ h in
      let (rest, later, h'') = >>=-eq-ok (decode_entries F m) _ h' in
      let e : (k, t) ∷ rest ≡ out = ground arith in
      rw (← e) (refl, decode_value_sound v t decoded, decode_entries_sound m rest later)

  decode_entries_complete :
      (m : List (String × Json F.T)) (out : Attributes)
      → RepresentsAll m out
      → decode_entries F m ≡ ok out
  unfolding decode_entries
  decode_entries_complete [] [] h = refl
  decode_entries_complete ((k, v) ∷ m) ((j, t) ∷ out) (e, here, later) =
      rw (decode_value_complete v t here, decode_entries_complete m out later, e)
  decode_entries_complete _ _ h = absurd h

  -- A decoded object is accepted as a request context, with the given result, exactly when the result has the same keys in the same order and each value represents the JSON value: a bool or a string itself, a number that equals its own conversion to int64 and back as that int64, an array of strings as the list of them. Null, objects, fractions and mixed arrays are refused.
  pub decode_entries-eq-ok_iff :
      (m : List (String × Json F.T)) (out : Attributes)
      → (decode_entries F m ≡ ok out) ↔ RepresentsAll m out
  decode_entries-eq-ok_iff m out = (decode_entries_sound m out, decode_entries_complete m out)
