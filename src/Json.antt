-- ===== src/Json.antt =====
-- JSON values as `encoding/json` decodes them into an `interface{}`, and what the program asks of
-- that package. A number keeps its text.
use docpulse.Base.{Bool, String, Option, none, some, List, [], ◌∷◌}
use docpulse.Base.Dict.{Dict}
use docpulse.Base.Result.{Result}
use docpulse.Text.Utf8.{Bytes}

mutual
  pub data Value : Type 0 where
    obj : Fields → Value
    arr : Items → Value
    string : String → Value
    num : String → Value
    bool : Bool → Value
    null : Value

  pub data Items : Type 0 where
    nil : Items
    cons : Value → Items → Items

  pub data Fields : Type 0 where
    end : Fields
    field : String → Value → Fields → Fields

-- `map[string]interface{}`
abbrev pub Object : Type 0
Object = Dict Value

abbrev pub items : Items → List Value
items nil = []
items (cons v vs) = v ∷ items vs

abbrev pub fields : Fields → Object
fields end = []
fields (field k v fs) = (k, v) ∷ fields fs

-- `append(xs, ys...)`
abbrev pub append : Items → Items → Items
append nil ys = ys
append (cons x xs) ys = cons x (append xs ys)

-- `json.Unmarshal(raw, &m)` for a map `m`; JSON's null gives the empty map.
-- `json.Marshal` of a map.
pub record Codec : Type 0 where
  pub unmarshal_object : Bytes → Result Object
  pub marshal_object : Object → Result Bytes

-- `v.(map[string]interface{})`
abbrev pub as_object : Option Value → Option Object
as_object (some (obj fs)) = some (fields fs)
as_object _ = none

-- `v.(string)`
abbrev pub as_text : Option Value → Option String
as_text (some (string s)) = some s
as_text _ = none

-- `v.([]interface{})`
abbrev pub as_array : Option Value → Option (List Value)
as_array (some (arr vs)) = some (items vs)
as_array _ = none
