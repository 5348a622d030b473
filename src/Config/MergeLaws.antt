-- ===== src/Config/MergeLaws.antt =====
-- crates/config/src/merge.rs: what a merge does to each key.
use moghtech_lib.Base.{◌≡◌, refl, Bool, Option, none, some, arith, inl, inr, ◌⊎◌}
use moghtech_lib.Base.Text.{Text, text_eq_iff}
use moghtech_lib.Config.Json.{
  Value, Fields, end, field, get, insert, remove, get-insert, get-remove, HasDistinctKeys,
}
use moghtech_lib.Config.Merge.{
  Error, Result, ok, err, merge_source, merge_slot, merge_objects, merge_field,
}

-- The merged value of a key, of what the source and the target have for it.
abbrev pub over : (Value → Option Value → Value) → Option Value → Option Value → Option Value
over slot none curr = curr
over slot (some value) curr = some (slot value curr)

abbrev pub over_checked :
    (Value → Option Value → Result Value) → Option Value → Option Value → Result (Option Value)
over_checked slot none curr = ok curr
over_checked slot (some value) curr = elim (slot value curr) [
  | err e ↦ err e
  | ok merged ↦ ok (some merged)
]

module _ (merge_nested extend_array split_lists : Bool) where
  -- After a source (each key once) is merged, each key has what `merge_slot` makes of its values in
  -- both, where the source has it, and what the target had, where not.
  pub get-merge_source :
      (k : Text) (target source : Fields)
      → HasDistinctKeys source
      → get k (merge_source merge_nested extend_array split_lists target source)
        ≡ over (merge_slot merge_nested extend_array split_lists k) (get k source) (get k target)
  unfolding merge_source get
  get-merge_source k target end d = refl
  get-merge_source k target (field j v source) (absent, d) =
      let slot = merge_slot merge_nested extend_array split_lists j v (get j target) in
      let rest = get-merge_source k (insert j slot target) source d in
      ground (arith, rest, absent, get-insert j k slot target, text_eq_iff j k)

module _ (merge_nested extend_array : Bool) where
  Result-cases {ℓ} :
      {A : Type ℓ} (r : Result A) → ((a : A) × (r ≡ ok a)) ⊎ ((e : Error) × (r ≡ err e))
  Result-cases (ok a) = inl (a, refl)
  Result-cases (err e) = inr (e, refl)

  -- If a checked merge of a source (each key once) succeeds, so did that of every key, and each key
  -- has what it gave, or what the target had, where the source does not have it.
  pub get-merge_objects :
      (k : Text) (target source merged : Fields)
      → HasDistinctKeys source
      → merge_objects merge_nested extend_array target source ≡ ok merged
      → over_checked (merge_field merge_nested extend_array k) (get k source) (get k target)
        ≡ ok (get k merged)
  unfolding merge_objects get
  get-merge_objects k target end merged d h = ground (arith, h)
  get-merge_objects k target (field j v source) merged (absent, d) h =
      elim (Result-cases (merge_field merge_nested extend_array j v (get j target))) [
        | inl (w, made) ↦
            let next = insert j w (remove j target) in
            let rest = get-merge_objects k next source merged d (ground (arith, made)) in
            ground (
              arith,
              rest,
              made,
              absent,
              get-insert j k w (remove j target),
              get-remove j k target,
              text_eq_iff j k,
            )
        | inr (e, failed) ↦ absurd (ground (arith, failed))
      ]
