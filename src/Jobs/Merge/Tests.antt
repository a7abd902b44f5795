-- ===== src/Jobs/Merge/Tests.antt =====
-- Runs of the merge of two results, for a schema with a list and a text.
use text.Mathlib.Text.{◌==◌ as str_eq}
use text.Mathlib.TextEquality.{eq_iff}
use docpulse.Base.{
  ◌≡◌, ◌≢◌, refl, false, sym, ◌∙◌, none, some, List, [], ◌∷◌, String, arith, length,
}
use docpulse.Base.Dict.{lookup}
use docpulse.Base.Result.{ok}
use docpulse.Json.{
  Items, null, num, string, arr, obj, field, end, cons, nil, Object, Codec, as_array,
}
use docpulse.Jobs.Merge.{merge_results, properties, merger}
use docpulse.Jobs.Merge.Fields.{values_of}
use docpulse.Jobs.Merge.Reordering.{AreReorderings, merge_results-reordered}
use docpulse.Jobs.Merge.Values.{
  first, all_items, graded, merge_results-scalar, merge_results-array, merge_results-confidence,
}

abbrev invoice : Object
invoice =
    (
      "properties",
      obj (
          field "lines" (obj (field "type" (string "array") end))
            (field "payer" (obj (field "type" (string "string") end)) end)),
    )
    ∷ []

abbrev json : Codec
json = record { unmarshal_object = λ b. ok invoice; marshal_object = λ o. ok [] }

abbrev one_line : Items
one_line = cons (num "1") nil

abbrev two_lines : Items
two_lines = cons (num "2") (cons (num "3") nil)

abbrev first_result : Object
first_result = ("payer", null) ∷ ("lines", arr one_line) ∷ []

abbrev results : List Object
results = first_result ∷ (("payer", string "Ann") ∷ ("lines", arr two_lines) ∷ []) ∷ []

abbrev reordered : List Object
reordered = first_result ∷ (("lines", arr two_lines) ∷ ("payer", string "Ann") ∷ []) ∷ []

merge_results-scalar_example :
    lookup "payer" (merge_results json results []).0 ≡ first (values_of "payer" results)
unfolding merger
merge_results-scalar_example = merge_results-scalar json results [] "payer" refl

merge_results-array_example :
    as_array (lookup "lines" (merge_results json results []).0)
    ≡ some (all_items (one_line ∷ two_lines ∷ []))
unfolding merger
merge_results-array_example =
    merge_results-array json results [] "lines" one_line (two_lines ∷ []) refl refl

merge_results-confidence_example :
    lookup "payer" (merge_results json results []).1 ≡ (elim (lookup "payer" (properties json [])) [
      | none ↦ none
      | some _ ↦ some (graded (length (values_of "payer" results)))
    ])
merge_results-confidence_example = merge_results-confidence json results [] "payer"

merge_results_scores : (merge_results json results []).1 ≡ ("lines", 100) ∷ ("payer", 75) ∷ []
unfolding merger
merge_results_scores = refl

differs : (a b : String) → str_eq a b ≡ false → a ≢ b
differs a b h e = ground (arith, eq_iff a b)

abbrev payer : String
payer = "payer"

abbrev lines : String
lines = "lines"

payer-lines : payer ≢ lines
payer-lines = differs "payer" "lines" refl

lines-payer : lines ≢ payer
lines-payer = differs "lines" "payer" refl

same_second :
    (key : String)
    → lookup key (("payer", string "Ann") ∷ ("lines", arr two_lines) ∷ [])
      ≡ lookup key (("lines", arr two_lines) ∷ ("payer", string "Ann") ∷ [])
unfolding lookup
same_second key =
    let other : (key ≡ payer) → key ≢ lines = λ e f. payer-lines (sym e ∙ f) in
    ground (arith, other, eq_iff "payer" key, eq_iff "lines" key)

results_reordered : AreReorderings results reordered
results_reordered = (
  record {
    distinct = ((lines-payer, tt), (tt, tt));
    distinct' = ((lines-payer, tt), (tt, tt));
    same = λ key. refl;
  },
  (
    record {
      distinct = ((lines-payer, tt), (tt, tt));
      distinct' = ((payer-lines, tt), (tt, tt));
      same = same_second;
    },
    tt,
  ),
)

merge_results-reordered_example :
    ((key : String)
      → lookup key (merge_results json results []).0
        ≡ lookup key (merge_results json reordered []).0)
    × ((merge_results json results []).1 ≡ (merge_results json reordered []).1)
merge_results-reordered_example =
    merge_results-reordered json results reordered [] results_reordered
