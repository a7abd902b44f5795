-- ===== src/Api/Schema/Tests.antt =====
-- Runs of the check of a schema, with a decoder that answers one object.
use docpulse.Base.{◌≡◌, refl, ◌↔◌, [], ◌∷◌}
use docpulse.Base.Result.{ok, err}
use docpulse.Json.{string, num, obj, field, end, Object, Codec}
use docpulse.Api.Schema.{validate_schema, schema_check}
use docpulse.Api.Schema.Accepted.{IsSchema, validate_schema_iff}

abbrev person : Object
person =
    ("type", string "object")
    ∷ ("properties", obj (field "name" (obj (field "type" (string "string") end)) end))
    ∷ []

-- The type of a property is not a text.
abbrev untyped : Object
untyped =
    ("type", string "object")
    ∷ ("properties", obj (field "name" (obj (field "type" (num "1") end)) end))
    ∷ []

abbrev decodes_to : Object → Codec
decodes_to o = record { unmarshal_object = λ b. ok o; marshal_object = λ m. ok [] }

validate_schema_iff_example :
    (validate_schema (decodes_to person) [] ≡ ok tt)
    ↔ ((s : Object) × (ok person ≡ ok s) × IsSchema s)
validate_schema_iff_example = validate_schema_iff (decodes_to person) []

validate_schema_ok : validate_schema (decodes_to person) [] ≡ ok tt
unfolding schema_check
validate_schema_ok = refl

validate_schema-untyped :
    validate_schema (decodes_to untyped) [] ≡ err "property \"name\" is missing a \"type\" field"
unfolding schema_check
validate_schema-untyped = refl
