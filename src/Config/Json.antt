-- ===== src/Config/Json.antt =====
-- The values of `serde_json` that crates/config works on. A number is the text that it is written
-- with. A map is the list of its fields; that `serde_json` keeps them in the order of their keys
-- is left out.
use moghtech_lib.Base.{◌≡◌, refl, Bool, Option, none, some, if◌then◌else◌, arith}
use moghtech_lib.Base.Text.{Text, text_eq, text_eq_iff}

mutual
  pub data Value : Type 0 where
    null : Value
    bool : Bool → Value
    number : Text → Value
    string : Text → Value
    array : Items → Value
    object : Fields → Value

  pub data Items : Type 0 where
    nil : Items
    cons : Value → Items → Items

  pub data Fields : Type 0 where
    end : Fields
    field : Text → Value → Fields → Fields

abbrev pub append_items : Items → Items → Items
append_items nil ys = ys
append_items (cons x xs) ys = cons x (append_items xs ys)

-- `Map::get`
unfoldable pub get : Text → Fields → Option Value
get k end = none
get k (field j v m) = if text_eq j k then some v else get k m

-- `Map::insert`
unfoldable pub insert : Text → Value → Fields → Fields
insert k v end = field k v end
insert k v (field j w m) = if text_eq j k then field k v m else field j w (insert k v m)

-- `Map::remove`, without the value.
unfoldable pub remove : Text → Fields → Fields
remove k end = end
remove k (field j v m) = if text_eq j k then remove k m else field j v (remove k m)

pub get-insert :
    (k j : Text) (v : Value) (m : Fields)
    → get j (insert k v m) ≡ (if text_eq k j then some v else get j m)
unfolding get insert
get-insert k j v end = refl
get-insert k j v (field i w m) =
    ground (arith, text_eq_iff k j, text_eq_iff i k, text_eq_iff i j, get-insert k j v m)

pub get-remove :
    (k j : Text) (m : Fields) → get j (remove k m) ≡ (if text_eq k j then none else get j m)
unfolding get remove
get-remove k j end = ground arith
get-remove k j (field i w m) =
    ground (arith, text_eq_iff k j, text_eq_iff i k, text_eq_iff i j, get-remove k j m)

-- A map has each key once.
abbrev pub HasDistinctKeys : Fields → Type 0
HasDistinctKeys end = Unit
HasDistinctKeys (field k v m) = (get k m ≡ none) × HasDistinctKeys m
