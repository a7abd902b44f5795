-- ===== src/Jobs/Merge/Reordering.antt =====
-- The order of iteration over the maps.
use Prim.Native.String.{String}
use mathlib.Core.List.{map}
use text.Mathlib.TextEquality.{eq_iff}
use docpulse.Base.{
  ℕ, ◌≡◌, refl, sym, ◌∙◌, ap, ap₂, Option, none, some, List, [], ◌∷◌, arith, if◌then◌else◌, length,
  fun_ext,
}
use docpulse.Base.Dict.{lookup, HasDistinctKeys, Lacks}
use docpulse.Text.Utf8.{Bytes}
use docpulse.Json.{Value, Object, Codec}
use docpulse.Jobs.Merge.{
  is_array, count, merge_all, empty_merge, score, confidence_of, properties, merge_results,
}
use docpulse.Jobs.Merge.Fields.{is_null, entry_values, values_of, combine_all, merge_all-IsTracked}

-- The same map: each key once, and the same value for each key.
pub record IsReordering (m n : Object) : Type 0 where
  pub distinct : HasDistinctKeys m
  pub distinct' : HasDistinctKeys n
  pub same : (key : String) → lookup key m ≡ lookup key n

abbrev pub AreReorderings : List Object → List Object → Type 0
AreReorderings [] [] = Unit
AreReorderings (m ∷ ms) (n ∷ ns) = IsReordering m n × AreReorderings ms ns
AreReorderings _ _ = ⊥

abbrev present : Option Value → List Value
present none = []
present (some v) = if is_null v then [] else v ∷ []

entry_values_of_Lacks : (key : String) (m : Object) → Lacks key m → entry_values key m ≡ []
entry_values_of_Lacks key [] _ = refl
entry_values_of_Lacks key ((k, v) ∷ m) (h, hs) =
    ground (arith, eq_iff k key, entry_values_of_Lacks key m hs)

entry_values-present :
    (key : String) (m : Object) → HasDistinctKeys m → entry_values key m ≡ present (lookup key m)
unfolding lookup
entry_values-present key [] _ = refl
entry_values-present key ((k, v) ∷ m) (h, hs) =
    ground (arith, eq_iff k key, entry_values_of_Lacks k m h, entry_values-present key m hs)

values_of-reordered :
    (key : String) (rs rs' : List Object)
    → AreReorderings rs rs'
    → values_of key rs ≡ values_of key rs'
values_of-reordered key [] [] _ = refl
values_of-reordered key [] (n ∷ ns) h = absurd h
values_of-reordered key (m ∷ ms) [] h = absurd h
values_of-reordered key (m ∷ ms) (n ∷ ns) (r, rs) = rw (
  entry_values-present key m r.distinct,
  entry_values-present key n r.distinct',
  r.same key,
  values_of-reordered key ms ns rs,
)

-- The order in which a map is iterated does not matter: reordered results give the same merged
-- value for each key, and the same confidences.
pub merge_results-reordered :
    (json : Codec) (rs rs' : List Object) (schema : Bytes)
    → AreReorderings rs rs'
    → ((key : String)
        → lookup key (merge_results json rs schema).0
          ≡ lookup key (merge_results json rs' schema).0)
      × ((merge_results json rs schema).1 ≡ (merge_results json rs' schema).1)
unfolding merge_results confidence_of
merge_results-reordered json rs rs' schema h = (
  merged,
  ap (λ (f : String → ℕ). map (λ (p : String × Value). (p.0, f p.0)) props)
      (fun_ext λ key. ap₂ score (merged key) (counted key)),
)
  where
    props : Object
    props = properties json schema

    merged :
        (key : String)
        → lookup key (merge_all props empty_merge rs).merged
          ≡ lookup key (merge_all props empty_merge rs').merged
    merged key =
        (merge_all-IsTracked props key rs).value
        ∙ ap (combine_all (is_array props key) none) (values_of-reordered key rs rs' h)
        ∙ sym (merge_all-IsTracked props key rs').value

    counted :
        (key : String)
        → count (merge_all props empty_merge rs).field_sources key
          ≡ count (merge_all props empty_merge rs').field_sources key
    counted key =
        (merge_all-IsTracked props key rs).number
        ∙ ap length (values_of-reordered key rs rs' h)
        ∙ sym (merge_all-IsTracked props key rs').number
