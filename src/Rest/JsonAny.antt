-- ===== src/Rest/JsonAny.antt =====
-- What encoding/json yields for a value of type `any`: `map[string]any`, `[]any`, float64, bool,
-- string or nil.
use test_permission.Base.{Bool, String}

mutual
  pub data Json (Float : Type 0) : Type 0 where
    null : Json Float
    bool : Bool → Json Float
    string : String → Json Float
    number : Float → Json Float
    array : Items Float → Json Float
    object : Fields Float → Json Float

  pub data Items (Float : Type 0) : Type 0 where
    nil : Items Float
    cons : Json Float → Items Float → Items Float

  pub data Fields (Float : Type 0) : Type 0 where
    end : Fields Float
    field : String → Json Float → Fields Float → Fields Float
