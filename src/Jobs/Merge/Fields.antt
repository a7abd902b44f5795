-- ===== src/Jobs/Merge/Fields.antt =====
-- The merged value and the confidence of one field, by the values that the results have for it.
use Prim.Native.String.{String}
use text.Mathlib.Text.{◌==◌ as str_eq}
use text.Mathlib.TextEquality.{eq_iff}
use docpulse.Base.{
  ℕ, ◌+◌, ◌≡◌, refl, Bool, true, false, ◌&&◌, not, Option, none, some, List, [], ◌∷◌, ◌++◌, arith,
  if◌then◌else◌, length, length-append, append_assoc, append-nil, Bool-cases, Option-cases, inl,
  inr,
}
use docpulse.Base.Dict.{Dict, lookup, insert, lookup-insert}
use docpulse.Json.{Value, null, Object}
use docpulse.Jobs.Merge.{
  Merge, is_array, concatenated, write, count, merge_field, merge_fields, merge_all, empty_merge,
}

abbrev pub is_null : Value → Bool
is_null null = true
is_null _ = false

-- The values that are not null, of the entries with the key.
abbrev pub entry_values : String → Object → List Value
entry_values key [] = []
entry_values key ((k, v) ∷ m) =
    if not (is_null v) && str_eq k key then v ∷ entry_values key m else entry_values key m

-- Those of all results, in the order of the chunks.
abbrev pub values_of : String → List Object → List Value
values_of key [] = []
values_of key (r ∷ rs) = entry_values key r ++ values_of key rs

abbrev or_existing : Value → Option Value → Value
or_existing existing none = existing
or_existing existing (some both) = both

-- What the map holds once `v` was merged.
unfoldable pub combine : Bool → Option Value → Value → Value
combine array none v = v
combine array (some existing) v = or_existing existing (concatenated array existing v)

unfoldable pub combine_all : Bool → Option Value → List Value → Option Value
combine_all array acc [] = acc
combine_all array acc (v ∷ vs) = combine_all array (some (combine array acc v)) vs

lookup-write :
    (array : Bool) (k key : String) (v : Value) (old : Option Value) (m : Object)
    → lookup k m ≡ old
    → lookup key (write array k v old m)
      ≡ (if str_eq k key then some (combine array old v) else lookup key m)
unfolding write combine
lookup-write array k key v none m e = lookup-insert k key v m
lookup-write array k key v (some existing) m e =
    elim (Option-cases (concatenated array existing v)) [
      | inl kept ↦ rw (kept, write) (ground (arith, eq_iff k key))
      | inr (both, made) ↦ rw (made, write) (lookup-insert k key both m)
    ]

count-insert :
    (sources : Dict ℕ) (k key : String)
    → count (insert k (count sources k + 1) sources) key
      ≡ (if str_eq k key then count sources key + 1 else count sources key)
count-insert sources k key =
    ground (arith, eq_iff k key, lookup-insert k key (count sources k + 1) sources)

combine_all-append :
    (array : Bool) (acc : Option Value) (vs ws : List Value)
    → combine_all array acc (vs ++ ws) ≡ combine_all array (combine_all array acc vs) ws
unfolding combine_all
combine_all-append array acc [] ws = refl
combine_all-append array acc (v ∷ vs) ws =
    combine_all-append array (some (combine array acc v)) vs ws

module _ (props : Object) (key : String) where
  -- What is known of the field after some of the results.
  pub record IsTracked (vs : List Value) (m : Merge) : Type 0 where
    pub value : lookup key m.merged ≡ combine_all (is_array props key) none vs
    pub number : count m.field_sources key ≡ length vs

  merge_field-merged :
      (m : Merge) (k : String) (v : Value)
      → lookup key (merge_field props m (k, v)).merged ≡ (
          if not (is_null v) && str_eq k key
          then some (combine (is_array props k) (lookup k m.merged) v)
          else lookup key m.merged)
  unfolding merge_field
  merge_field-merged m k null = refl
  merge_field-merged m k _ =
      lookup-write (is_array props k) k key _ (lookup k m.merged) m.merged refl

  merge_field-sources :
      (m : Merge) (k : String) (v : Value)
      → count (merge_field props m (k, v)).field_sources key ≡ (
          if not (is_null v) && str_eq k key
          then count m.field_sources key + 1
          else count m.field_sources key)
  unfolding merge_field
  merge_field-sources m k null = refl
  merge_field-sources m k _ = count-insert m.field_sources k key

  -- The values that one entry adds.
  abbrev added : String → Value → List Value
  added k v = if not (is_null v) && str_eq k key then v ∷ [] else []

  entry_values-cons :
      (k : String) (v : Value) (r : Object)
      → entry_values key ((k, v) ∷ r) ≡ added k v ++ entry_values key r
  entry_values-cons k v r = ground arith

  key_of_added : (k : String) (v : Value) → (not (is_null v) && str_eq k key) ≡ true → k ≡ key
  key_of_added k v h = ground (arith, eq_iff k key)

  combined-IsTracked :
      (vs : List Value) (m : Merge) (v : Value)
      → IsTracked vs m
      → (not (is_null v) && str_eq key key) ≡ true
      → IsTracked (vs ++ v ∷ []) (merge_field props m (key, v))
  unfolding combine_all
  combined-IsTracked vs m v t here = record {
    value = rw (merge_field-merged, here, combine_all-append, t.value);
    number = rw (merge_field-sources, here, length-append vs (v ∷ []), t.number);
  }

  merge_field-IsTracked :
      (vs : List Value) (m : Merge) (k : String) (v : Value)
      → IsTracked vs m
      → IsTracked (vs ++ added k v) (merge_field props m (k, v))
  merge_field-IsTracked vs m k v t = elim (Bool-cases (not (is_null v) && str_eq k key)) [
    | inl here ↦
        let e = key_of_added k v here in rw here (rw e (combined-IsTracked vs m v t (rw e at here)))
    | inr other ↦
        rw (other, append-nil)
          (record {
            value = rw (merge_field-merged, other) t.value;
            number = rw (merge_field-sources, other) t.number;
          })
  ]

  merge_fields-IsTracked :
      (vs : List Value) (m : Merge) (r : Object)
      → IsTracked vs m
      → IsTracked (vs ++ entry_values key r) (merge_fields props m r)
  unfolding merge_fields
  merge_fields-IsTracked vs m [] t = rw append-nil t
  merge_fields-IsTracked vs m ((k, v) ∷ r) t = rw (entry_values-cons k v r) (
      rw (← append_assoc) (
        merge_fields-IsTracked (vs ++ added k v) (merge_field props m (k, v)) r
          (merge_field-IsTracked vs m k v t)))

  merge_all-IsTracked_from :
      (vs : List Value) (m : Merge) (rs : List Object)
      → IsTracked vs m
      → IsTracked (vs ++ values_of key rs) (merge_all props m rs)
  unfolding merge_all
  merge_all-IsTracked_from vs m [] t = rw append-nil t
  merge_all-IsTracked_from vs m (r ∷ rs) t = rw (← append_assoc) (
      merge_all-IsTracked_from (vs ++ entry_values key r) (merge_fields props m r) rs
        (merge_fields-IsTracked vs m r t))

  pub merge_all-IsTracked :
      (rs : List Object) → IsTracked (values_of key rs) (merge_all props empty_merge rs)
  merge_all-IsTracked rs =
      merge_all-IsTracked_from [] empty_merge rs
        (record { value = unfold lookup combine_all in refl; number = unfold lookup in refl })
