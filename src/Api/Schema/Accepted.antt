-- ===== src/Api/Schema/Accepted.antt =====
-- Which schemas are accepted.
use text.Mathlib.TextEquality.{eq_iff}
use docpulse.Base.{
  ◌≡◌, ◌≢◌, refl, sym, subst, ap, eq_of_some, ◌↔◌, inl, inr, true, Option, none, some, [], ◌∷◌,
  String, arith, All, Bool-cases,
}
use docpulse.Base.Dict.{lookup}
use docpulse.Base.Result.{Result, ok, err, >>_iff, ok-injective}
use docpulse.Text.Utf8.{Bytes}
use docpulse.Json.{Value, Object, Codec}
use docpulse.Api.Schema.{
  validate_schema, decode_schema, check_schema, check_props, check_properties, check_type, text_in,
  object_in, is, has_text,
}

-- A property is an object with a text under "type" that is not empty.
abbrev pub IsTyped : String × Value → Type 0
IsTyped (name, value) =
    (prop : Object) × (name' : String) × (object_in (some value) ≡ some prop)
    × (text_in (lookup "type" prop) ≡ some name')
    × (name' ≢ "")

-- The type is "object", and there are properties, all of them typed.
abbrev pub IsSchema : Object → Type 0
IsSchema s =
    (first : String × Value) × (rest : Object) × (text_in (lookup "type" s) ≡ some "object")
    × (object_in (lookup "properties" s) ≡ some (first ∷ rest))
    × All IsTyped (first ∷ rest)

has_text_iff :
    (t : Option String) → (has_text t ≡ true) ↔ ((name : String) × (t ≡ some name) × (name ≢ ""))
has_text_iff none = (λ h. absurd cc, λ (_, h, _). absurd cc)
has_text_iff (some t) = (
  λ h. (t, refl, ground (arith, eq_iff t "")),
  λ (name, e, h). ground (arith, eq_iff t "", eq_of_some e),
)

check_object_iff :
    (name : String) (o : Option Object)
    → (check_type name o ≡ ok tt) ↔ (
        (prop : Object) × (name' : String) × (o ≡ some prop)
        × (text_in (lookup "type" prop) ≡ some name')
        × (name' ≢ ""))
unfolding check_type
check_object_iff name none = (λ h. absurd cc, λ (_, _, h, _, _). absurd cc)
check_object_iff name (some prop) =
    let (to, from) = has_text_iff (text_in (lookup "type" prop)) in
    elim (Bool-cases (has_text (text_in (lookup "type" prop)))) [
      | inl e ↦ (λ _. let (n, t, h) = to e in (prop, n, refl, t, h), λ _. rw e refl)
      | inr e ↦ (
        λ h. absurd (let h' = rw e at h in cc),
        λ (p, n, o, t, h).
            let e' : has_text (text_in (lookup "type" prop)) ≡ true =
              from (n, rw (eq_of_some o) t, h) in
            absurd cc,
      )
    ]

check_properties_iff : (props : Object) → (check_properties props ≡ ok tt) ↔ All IsTyped props
unfolding check_properties
check_properties_iff [] = (λ _. tt, λ _. refl)
check_properties_iff ((name, value) ∷ props) =
    let (to, from) = check_object_iff name (object_in (some value)) in
    let (rto, rfrom) = check_properties_iff props in
    let (sto, sfrom) =
      >>_iff (check_type name (object_in (some value))) (check_properties props) tt in
    (λ h. let (a, b) = sto h in (to a, rto b), λ (a, b). sfrom (from a, rfrom b))

check_props_iff :
    (o : Option Object)
    → (check_props o ≡ ok tt) ↔ (
        (first : String × Value) × (rest : Object) × (o ≡ some (first ∷ rest))
        × All IsTyped (first ∷ rest))
unfolding check_props
check_props_iff none = (λ h. absurd cc, λ (_, _, h, _). absurd cc)
check_props_iff (some []) = (λ h. absurd cc, λ (_, _, h, _). absurd cc)
check_props_iff (some (p ∷ ps)) =
    let (to, from) = check_properties_iff (p ∷ ps) in
    (λ h. (p, ps, refl, to h), λ (q, qs, e, h). from (subst (All IsTyped) (sym (eq_of_some e)) h))

is_iff : (t : Option String) → (is "object" t ≡ true) ↔ (t ≡ some "object")
is_iff none = (λ h. absurd cc, λ h. absurd cc)
is_iff (some t) = (
  λ h. let e : t ≡ "object" = ground (arith, eq_iff t "object") in ap some e,
  λ h. ground (arith, eq_iff t "object", eq_of_some h),
)

check_schema_iff : (s : Object) → (check_schema s ≡ ok tt) ↔ IsSchema s
unfolding check_schema
check_schema_iff s =
    let (to, from) = check_props_iff (object_in (lookup "properties" s)) in
    let (tto, tfrom) = is_iff (text_in (lookup "type" s)) in
    elim (Bool-cases (is "object" (text_in (lookup "type" s)))) [
      | inl e ↦ (
        λ h. let (p, ps, o, a) = to (rw e at h) in (p, ps, tto e, o, a),
        λ (p, ps, t, o, a). rw e (from (p, ps, o, a)),
      )
      | inr e ↦ (
        λ h. absurd (let h' = rw e at h in cc),
        λ (p, ps, t, o, a). absurd (let e' = tfrom t in cc),
      )
    ]

-- A request's schema is accepted exactly where it decodes to a JSON object whose type is "object"
-- and whose properties are an object with at least one member, every member being an object with a
-- type that is a text and not empty.
pub validate_schema_iff :
    (json : Codec) (raw : Bytes)
    → (validate_schema json raw ≡ ok tt)
      ↔ ((s : Object) × (json.unmarshal_object raw ≡ ok s) × IsSchema s)
unfolding validate_schema decode_schema
validate_schema_iff json raw = go (json.unmarshal_object raw)
  where
    go : (d : Result Object) → (decode_schema d ≡ ok tt) ↔ ((s : Object) × (d ≡ ok s) × IsSchema s)
    go (err e) = (λ h. absurd cc, λ (_, h, _). absurd cc)
    go (ok s) =
        let (to, from) = check_schema_iff s in
        (λ h. (s, refl, to h), λ (s', e, h). from (subst IsSchema (sym (ok-injective e)) h))
