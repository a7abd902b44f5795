-- ===== src/Api/Schema.antt =====
-- `validateSchema` of internal/api/schema.go. A `json.RawMessage` inside the schema is read as the
-- value that it holds, and a missing key as an error of `json.Unmarshal`. `json.Unmarshal` of null
-- into a text or a map is no error and leaves it empty.
pub mod Accepted
mod Tests
use Prim.Native.String
use text.Mathlib.Text.{◌==◌ as str_eq}
use docpulse.Base.{
  Bool, true, false, ◌||◌, not, Option, none, some, List, [], ◌∷◌, String, if◌then◌else◌,
}
use docpulse.Base.Dict.{lookup}
use docpulse.Base.Result.{Result, ok, err, ◌>>=◌, ◌>>◌}
use docpulse.Text.Utf8.{Bytes}
use docpulse.Json.{Value, null, string, obj, Object, fields, Codec}

-- `json.Unmarshal(s[key], &text)`
abbrev pub text_in : Option Value → Option String
text_in (some (string s)) = some s
text_in (some null) = some ""
text_in _ = none

-- `json.Unmarshal(s[key], &object)`
abbrev pub object_in : Option Value → Option Object
object_in (some (obj fs)) = some (fields fs)
object_in (some null) = some []
object_in _ = none

abbrev is : String → Option String → Bool
is s none = false
is s (some t) = str_eq t s

abbrev has_text : Option String → Bool
has_text none = false
has_text (some t) = not (str_eq t "")

check_type : String → Option Object → Result (Unit {0})
check_type name none = err (String.◌++◌ "property \"" (String.◌++◌ name "\" must be a JSON object"))
check_type name (some prop) =
    if has_text (text_in (lookup "type" prop))
    then ok tt
    else err (String.◌++◌ "property \"" (String.◌++◌ name "\" is missing a \"type\" field"))

-- The loop over the properties, in the order in which the map is iterated.
check_properties : Object → Result (Unit {0})
check_properties [] = ok tt
check_properties ((name, value) ∷ props) = do
  check_type name (object_in (some value))
  check_properties props

abbrev no_properties : Result (Unit {0})
no_properties = err "schema must have a \"properties\" object with at least one field"

check_props : Option Object → Result (Unit {0})
check_props none = no_properties
check_props (some []) = no_properties
check_props (some (p ∷ props)) = check_properties (p ∷ props)

check_schema : Object → Result (Unit {0})
check_schema s =
    if is "object" (text_in (lookup "type" s))
    then check_props (object_in (lookup "properties" s))
    else err "schema must have \"type\": \"object\""

decode_schema : Result Object → Result (Unit {0})
decode_schema (err e) = err "schema must be a JSON object"
decode_schema (ok s) = check_schema s

pub validate_schema : Codec → Bytes → Result (Unit {0})
validate_schema json raw = decode_schema (json.unmarshal_object raw)

-- Opens the module, for tests.
unfoldable pub schema_check : Unit {0}
unfolding lookup check_type check_properties check_props check_schema decode_schema validate_schema
schema_check = tt
