-- ===== src/Jobs/Merge.antt =====
-- `mergeResults` of internal/jobs/worker.go. A confidence is in hundredths. The loops over Go maps
-- run in the order of the list; Jobs/Merge/Reordering.antt is about other orders.
pub mod Fields
pub mod Reordering
pub mod Values
mod Tests
use mathlib.Core.List.{map}
use text.Mathlib.Text.{◌==◌ as str_eq}
use docpulse.Base.{
  ℕ, ◌+◌, Bool, true, false, Option, none, some, List, [], ◌∷◌, String, ltb, if◌then◌else◌,
}
use docpulse.Base.Dict.{Dict, lookup, insert}
use docpulse.Base.Result.{Result, ok, err}
use docpulse.Text.Utf8.{Bytes}
use docpulse.Json.{Value, null, arr, Object, Codec, append, as_object, as_text}

pub record Merge : Type 0 where
  pub merged : Object
  pub field_sources : Dict ℕ

abbrev is : String → Option String → Bool
is s none = false
is s (some t) = str_eq s t

-- The schema declares the property as an array.
abbrev type_of : Option Object → Option String
type_of none = none
type_of (some prop) = as_text (lookup "type" prop)

pub is_array : Object → String → Bool
is_array props key = is "array" (type_of (as_object (lookup key props)))

abbrev pub count : Dict ℕ → String → ℕ
count sources key = elim (lookup key sources) [ none ↦ 0 | some n ↦ n ]

-- `none` where the merged value is left as it is.
pub concatenated : Bool → Value → Value → Option Value
concatenated true (arr xs) (arr ys) = some (arr (append xs ys))
concatenated _ existing value = none

write : Bool → String → Value → Option Value → Object → Object
write array key value none merged = insert key value merged
write array key value (some existing) merged = elim (concatenated array existing value) [
  | none ↦ merged
  | some both ↦ insert key both merged
]

-- One field of one result.
merge_field : Object → Merge → String × Value → Merge
merge_field props m (key, null) = m
merge_field props m (key, value) = record {
  merged = write (is_array props key) key value (lookup key m.merged) m.merged;
  field_sources = insert key (count m.field_sources key + 1) m.field_sources;
}

merge_fields : Object → Merge → Object → Merge
merge_fields props m [] = m
merge_fields props m (f ∷ fs) = merge_fields props (merge_field props m f) fs

pub merge_all : Object → Merge → List Object → Merge
merge_all props m [] = m
merge_all props m (r ∷ rs) = merge_all props (merge_fields props m r) rs

abbrev pub empty_merge : Merge
empty_merge = record { merged = []; field_sources = [] }

score : Option Value → ℕ → ℕ
score none n = 0
score (some null) n = 0
score (some v) n = if ltb 1 n then 100 else 75

confidence_of : Merge → String → ℕ
confidence_of m key = score (lookup key m.merged) (count m.field_sources key)

-- `schemaDef["properties"]`; the error of `json.Unmarshal` is dropped, and leaves the map empty.
abbrev decoded : Result Object → Object
decoded (ok o) = o
decoded (err e) = []

abbrev or_empty : Option Object → Object
or_empty none = []
or_empty (some o) = o

pub properties : Codec → Bytes → Object
properties json schema =
    or_empty (as_object (lookup "properties" (decoded (json.unmarshal_object schema))))

pub merge_results : Codec → List Object → Bytes → Object × Dict ℕ
merge_results json results schema =
    let props = properties json schema in
    let m = merge_all props empty_merge results in
    (m.merged, map (λ (p : String × Value). (p.0, confidence_of m p.0)) props)

-- Opens the module, for tests.
unfoldable pub merger : Unit {0}
unfolding lookup insert is_array concatenated write merge_field merge_fields merge_all score
    confidence_of properties merge_results
merger = tt
