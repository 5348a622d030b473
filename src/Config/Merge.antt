-- ===== src/Config/Merge.antt =====
-- crates/config/src/merge.rs. The recursion of both functions is on the source.
use Prim.Native.String.{String}
use moghtech_lib.Base.{
  Bool, not, ◌&&◌, Option, some, List, [], ◌∷◌, map, if◌then◌else◌, is_empty, retain,
}
use moghtech_lib.Base.Text.{Text, trim, split}
use moghtech_lib.Config.Json.{
  Value, null, bool, number, string, array, object, Items, nil, cons, Fields, end, field,
  append_items, get, insert, remove,
}

-- crate::Error, as far as merging goes.
pub data Error : Type 0 where
  object_field_type_mismatch array_field_type_mismatch : (key : Text) (found : String) → Error

-- `error::value_type`
abbrev pub value_type : Value → String
value_type null = "null"
value_type (bool b) = "boolean"
value_type (number n) = "number"
value_type (string s) = "string"
value_type (array items) = "array"
value_type (object fields) = "object"

pub data Result {ℓ} (A : Type ℓ) : Type ℓ where
  ok : A → Result A
  err : Error → Result A

abbrev pub strings : List Text → Items
strings [] = nil
strings (s ∷ ss) = cons (string s) (strings ss)

-- The entries of a comma separated list.
unfoldable pub list_entries : Text → Items
list_entries list = strings (retain (λ s. not (is_empty s)) (map trim (split b',' list)))

module _ (merge_nested extend_array split_lists : Bool) where
  unfoldable mutual
    pub merge_source : Fields → Fields → Fields
    merge_source target end = target
    merge_source target (field key value source) =
        merge_source (insert key (merge_slot key value (get key target)) target) source

    -- What replaces the value of the key, if there is one.
    pub merge_slot : Text → Value → Option Value → Value
    merge_slot key (object s) (some (object t)) =
        let merged = object (merge_source t s) in if merge_nested then merged else object s
    merge_slot key null (some (object t)) = if merge_nested then object t else null
    merge_slot key null (some (array t)) = if extend_array then array t else null
    merge_slot key (array s) (some (array t)) =
        if extend_array then array (append_items t s) else array s
    merge_slot key (string s) (some (array t)) =
        if extend_array && split_lists then array (append_items t (list_entries s)) else string s
    merge_slot key value curr = value

abbrev pub as_object : Result Fields → Result Value
as_object (ok fields) = ok (object fields)
as_object (err e) = err e

module _ (merge_nested extend_array : Bool) where
  unfoldable mutual
    pub merge_objects : Fields → Fields → Result Fields
    merge_objects target end = ok target
    merge_objects target (field key value source) = elim (merge_field key value (get key target)) [
      | err e ↦ err e
      | ok merged ↦ merge_objects (insert key merged (remove key target)) source
    ]

    -- What replaces the value that was removed, if there was one.
    pub merge_field : Text → Value → Option Value → Result Value
    merge_field key (object s) (some (object t)) =
        let merged = merge_objects t s in if merge_nested then as_object merged else ok (object s)
    merge_field key (array s) (some (array t)) =
        ok (if extend_array then array (append_items t s) else array s)
    merge_field key value (some (object t)) =
        if merge_nested then err (object_field_type_mismatch key (value_type value)) else ok value
    merge_field key value (some (array t)) =
        if extend_array then err (array_field_type_mismatch key (value_type value)) else ok value
    merge_field key value curr = ok value
