-- ===== src/Config/Tests.antt =====
-- crates/config/src/merge.rs: two small sources.
use moghtech_lib.Base.{◌≡◌, refl, true, some}
use moghtech_lib.Base.Text.{codes, trim, trim_start, trim_end, is_whitespace, split}
use moghtech_lib.Config.Json.{
  string, number, array, object, nil, cons, Fields, end, field, get, insert, remove,
  HasDistinctKeys,
}
use moghtech_lib.Config.Merge.{ok, merge_source, merge_objects, merge_field, list_entries}
use moghtech_lib.Config.MergeLaws.{over_checked, get-merge_objects}
use moghtech_lib.Config.MergeRules.{AreDistinct, IsMerged, merge_source-IsMerged}

abbrev file : Fields
file =
    field (codes "database")
      (object (
        field (codes "address") (string (codes "localhost"))
          (field (codes "port") (number (codes "27017")) end)))
      (field (codes "hosts") (array (cons (string (codes "a")) nil)) end)

abbrev env : Fields
env =
    field (codes "hosts") (string (codes "b, c"))
      (field (codes "database") (object (field (codes "address") (string (codes "db")) end)) end)

merged :
    get (codes "hosts") (merge_source true true true file env)
    ≡ some (
        array
          (cons (string (codes "a")) (cons (string (codes "b")) (cons (string (codes "c")) nil))))
unfolding get insert merge_source list_entries trim trim_start trim_end is_whitespace split
merged = refl

env-AreDistinct : AreDistinct env
unfolding get AreDistinct
env-AreDistinct = (refl, tt, (refl, (refl, tt, tt), tt))

merge_source-IsMerged_example :
    IsMerged true true true
      (get (codes "database") env)
      (get (codes "database") file)
      (get (codes "database") (merge_source true true true file env))
merge_source-IsMerged_example =
    merge_source-IsMerged true true true (codes "database") file env env-AreDistinct

abbrev override : Fields
override = field (codes "database") (object (field (codes "address") (string (codes "db")) end)) end

abbrev checked : Fields
checked = field (codes "hosts") (array (cons (string (codes "a")) nil)) (
    field (codes "database")
      (object (
        field (codes "port") (number (codes "27017"))
          (field (codes "address") (string (codes "db")) end)))
      end)

succeeds : merge_objects true true file override ≡ ok checked
unfolding get insert remove merge_objects
succeeds = refl

override_distinct : HasDistinctKeys override
unfolding get
override_distinct = (refl, tt)

get-merge_objects_example :
    over_checked
      (merge_field true true (codes "database"))
      (get (codes "database") override)
      (get (codes "database") file)
    ≡ ok (get (codes "database") checked)
get-merge_objects_example =
    get-merge_objects true true (codes "database") file override checked override_distinct succeeds
