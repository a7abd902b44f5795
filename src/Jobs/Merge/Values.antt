-- ===== src/Jobs/Merge/Values.antt =====
-- What `mergeResults` of internal/jobs/worker.go returns for each field.
use Prim.Native.String.{String}
use mathlib.Core.List.{map}
use text.Mathlib.TextEquality.{eq_iff}
use docpulse.Base.{
  ℕ, zero, suc, ◌≡◌, refl, ◌∙◌, ap, Bool, true, false, Option, none, some, List, [], ◌∷◌, ◌++◌,
  arith, length, append_assoc, append-nil, All, All-append,
}
use docpulse.Base.Dict.{lookup}
use docpulse.Text.Utf8.{Bytes}
use docpulse.Json.{Value, null, arr, Items, nil, cons, items, Object, Codec, append, as_array}
use docpulse.Jobs.Merge.{
  is_array, concatenated, merge_all, empty_merge, score, confidence_of, properties, merge_results,
}
use docpulse.Jobs.Merge.Fields.{
  is_null, entry_values, values_of, combine, combine_all, merge_all-IsTracked,
}

-- The first of the values, if there is one.
abbrev pub first : List Value → Option Value
first [] = none
first (v ∷ vs) = some v

combine_all_kept : (v : Value) (vs : List Value) → combine_all false (some v) vs ≡ some v
unfolding combine_all combine concatenated
combine_all_kept v [] = refl
combine_all_kept v (w ∷ vs) = combine_all_kept v vs

combine_all_scalar : (vs : List Value) → combine_all false none vs ≡ first vs
unfolding combine_all combine
combine_all_scalar [] = refl
combine_all_scalar (v ∷ vs) = combine_all_kept v vs

items-append : (xs ys : Items) → items (append xs ys) ≡ items xs ++ items ys
items-append nil ys = refl
items-append (cons x xs) ys = ap (λ l. x ∷ l) (items-append xs ys)

-- The items of all the arrays, in order.
abbrev pub all_items : List Items → List Value
all_items [] = []
all_items (xs ∷ xss) = items xs ++ all_items xss

combine_all_array :
    (xs : Items) (xss : List Items)
    → as_array (combine_all true (some (arr xs)) (map arr xss)) ≡ some (items xs ++ all_items xss)
unfolding combine_all combine concatenated
combine_all_array xs [] = rw append-nil
combine_all_array xs (ys ∷ xss) =
    combine_all_array (append xs ys) xss
    ∙ ap some (ap (λ l. l ++ all_items xss) (items-append xs ys) ∙ append_assoc (items xs) _ _)

-- The confidence of a field for which so many results have a value.
abbrev pub graded : ℕ → ℕ
graded zero = 0
graded (suc zero) = 75
graded (suc (suc n)) = 100

abbrev IsPresent : Value → Type 0
IsPresent v = is_null v ≡ false

entry_values-IsPresent : (key : String) (m : Object) → All IsPresent (entry_values key m)
entry_values-IsPresent key [] = tt
entry_values-IsPresent key ((k, v) ∷ m) = ground (arith, entry_values-IsPresent key m)

values_of-IsPresent : (key : String) (rs : List Object) → All IsPresent (values_of key rs)
values_of-IsPresent key [] = tt
values_of-IsPresent key (r ∷ rs) =
    All-append IsPresent _ _ (entry_values-IsPresent key r) (values_of-IsPresent key rs)

combine-IsPresent :
    (array : Bool) (v w : Value) → IsPresent v → IsPresent (combine array (some v) w)
unfolding combine concatenated
combine-IsPresent true (arr xs) (arr ys) h = refl
combine-IsPresent _ _ _ h = h

-- A merged value is never null.
combine_all-IsPresent :
    (array : Bool) (v : Value) (vs : List Value)
    → IsPresent v
    → (w : Value) × (combine_all array (some v) vs ≡ some w) × IsPresent w
unfolding combine_all
combine_all-IsPresent array v [] h = (v, refl, h)
combine_all-IsPresent array v (w ∷ vs) h =
    combine_all-IsPresent array (combine array (some v) w) vs (combine-IsPresent array v w h)

score_present : (v : Value) (n : ℕ) → IsPresent v → score (some v) (suc n) ≡ graded (suc n)
unfolding score
score_present null n h = cc
score_present _ zero h = refl
score_present _ (suc n) h = ground arith

score-graded :
    (array : Bool) (vs : List Value)
    → All IsPresent vs
    → score (combine_all array none vs) (length vs) ≡ graded (length vs)
unfolding combine_all combine
score-graded array [] _ = unfold score in refl
score-graded array (v ∷ vs) (h, _) =
    let (w, e, present) = combine_all-IsPresent array v vs h in
    rw e (score_present w (length vs) present)

lookup-map :
    (key : String) (f : String → ℕ) (props : Object)
    → lookup key (map (λ (p : String × Value). (p.0, f p.0)) props)
      ≡ (elim (lookup key props) [ none ↦ none | some _ ↦ some (f key) ])
unfolding lookup
lookup-map key f [] = refl
lookup-map key f ((k, v) ∷ props) = ground (arith, eq_iff k key, lookup-map key f props)

confidence_of-graded :
    (props : Object) (key : String) (results : List Object)
    → confidence_of (merge_all props empty_merge results) key
      ≡ graded (length (values_of key results))
unfolding confidence_of
confidence_of-graded props key results =
    let t = merge_all-IsTracked props key results in
    rw (t.value, t.number)
      (score-graded (is_array props key) (values_of key results) (values_of-IsPresent key results))

module _ (json : Codec) (results : List Object) (schema : Bytes) (key : String) where
  abbrev declared_array : Bool
  declared_array = is_array (properties json schema) key

  -- A field that the schema does not declare as an array gets the first value that is not null, in
  -- the order of the results, and no entry where each result has null or nothing for it.
  pub merge_results-scalar :
      declared_array ≡ false
      → lookup key (merge_results json results schema).0 ≡ first (values_of key results)
  unfolding merge_results
  merge_results-scalar h =
      (merge_all-IsTracked (properties json schema) key results).value
      ∙ rw h (combine_all_scalar (values_of key results))

  -- A field that the schema declares as an array, and for which the results have arrays or null,
  -- gets the items of all of them, in the order of the results.
  pub merge_results-array :
      (xs : Items) (xss : List Items)
      → declared_array ≡ true
      → values_of key results ≡ map arr (xs ∷ xss)
      → as_array (lookup key (merge_results json results schema).0) ≡ some (all_items (xs ∷ xss))
  unfolding merge_results
  merge_results-array xs xss h e =
      rw ((merge_all-IsTracked (properties json schema) key results).value, h, e)
        (unfold combine_all combine in combine_all_array xs xss)

  -- The confidence has an entry for exactly the properties of the schema: 0 where no result has a
  -- value for the field that is not null, 0.75 where one has, and 1 where two or more have.
  pub merge_results-confidence :
      lookup key (merge_results json results schema).1
      ≡ (elim (lookup key (properties json schema)) [
        | none ↦ none
        | some _ ↦ some (graded (length (values_of key results)))
      ])
  unfolding merge_results
  merge_results-confidence =
      lookup-map key (confidence_of (merge_all (properties json schema) empty_merge results))
        (properties json schema)
      ∙ ap
          (λ (c : ℕ). elim (lookup key (properties json schema)) as (λ _. Option ℕ) [
            | none ↦ none
            | some _ ↦ some c
          ])
          (confidence_of-graded (properties json schema) key results)
