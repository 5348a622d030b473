-- ===== src/Config/MergeRules.antt =====
-- crates/config/src/merge.rs: the rule for each key, at every depth.
use moghtech_lib.Base.{
  ◌≡◌, refl, sym, ap, ◌∙◌, subst, Bool, true, false, ◌&&◌, Option, none, some, arith, inl, inr,
  Bool-cases,
}
use moghtech_lib.Base.Text.{Text, text_eq, text_eq_iff}
use moghtech_lib.Config.Json.{
  Value, null, string, array, object, Items, Fields, end, field, append_items, get, insert,
  get-insert, HasDistinctKeys,
}
use moghtech_lib.Config.Merge.{merge_source, merge_slot, list_entries}
use moghtech_lib.Config.MergeLaws.{get-merge_source}

-- Each object of a value has each key once.
unfoldable mutual
  pub AreDistinct : Fields → Type 0
  AreDistinct end = Unit {0}
  AreDistinct (field k v m) = (get k m ≡ none) × IsDistinct v × AreDistinct m

  pub IsDistinct : Value → Type 0
  IsDistinct (object fields) = AreDistinct fields
  IsDistinct _ = Unit {0}

AreDistinct-HasDistinctKeys : (m : Fields) → AreDistinct m → HasDistinctKeys m
unfolding AreDistinct
AreDistinct-HasDistinctKeys end d = tt
AreDistinct-HasDistinctKeys (field k v m) (absent, distinct, d) =
    (absent, AreDistinct-HasDistinctKeys m d)

module _ (merge_nested extend_array split_lists : Bool) where
  -- Whether a value of the source replaces that of the target.
  abbrev pub Replaces : Value → Option Value → Type 0
  Replaces (object s) (some (object t)) = merge_nested ≡ false
  Replaces null (some (object t)) = merge_nested ≡ false
  Replaces null (some (array t)) = extend_array ≡ false
  Replaces (array s) (some (array t)) = extend_array ≡ false
  Replaces (string s) (some (array t)) = (extend_array && split_lists) ≡ false
  Replaces _ _ = Unit {0}

  -- The value of a key, from those of the source and of the target. Nested objects are merged key
  -- by key, arrays are extended, also by the entries of a list as text, and null leaves both alone.
  pub data IsMerged : Option Value → Option Value → Option Value → Type 0 where
    kept : (curr : Option Value) → IsMerged none curr curr
    replaced : (v : Value) (curr : Option Value) → Replaces v curr → IsMerged (some v) curr (some v)
    nested :
        (s t m : Fields)
        → merge_nested ≡ true
        → ((k : Text) → IsMerged (get k s) (get k t) (get k m))
        → IsMerged (some (object s)) (some (object t)) (some (object m))
    object_kept :
        (t : Fields)
        → merge_nested ≡ true
        → IsMerged (some null) (some (object t)) (some (object t))
    array_kept :
        (t : Items) → extend_array ≡ true → IsMerged (some null) (some (array t)) (some (array t))
    extended :
        (s t : Items)
        → extend_array ≡ true
        → IsMerged (some (array s)) (some (array t)) (some (array (append_items t s)))
    listed :
        (s : Text) (t : Items)
        → extend_array ≡ true
        → split_lists ≡ true
        → IsMerged
            (some (string s))
            (some (array t))
            (some (array (append_items t (list_entries s))))

  same-IsMerged :
      (s t m s' t' m' : Option Value)
      → (s ≡ s') × (t ≡ t') × (m ≡ m')
      → IsMerged s t m
      → IsMerged s' t' m'
  same-IsMerged s t m s' t' m' (a, b, c) h =
      subst (λ x. IsMerged x t' m') a (subst (λ x. IsMerged s x m') b (subst (IsMerged s t) c h))

  -- The key of the first field has what its slot gave; the others are merged after it.
  field-IsMerged :
      (k j : Text) (v slot : Value) (target source result : Fields)
      → get j result ≡ some slot
      → IsMerged (some v) (get j target) (some slot)
      → IsMerged (get k source) (get k (insert j slot target)) (get k result)
      → IsMerged (get k (field j v source)) (get k target) (get k result)
  unfolding get
  field-IsMerged k j v slot target source result at first rest = elim (Bool-cases (text_eq j k)) [
    | inl e ↦
        let same = (text_eq_iff j k).0 e in
        same-IsMerged _ _ _ _ _ _
          (ground (arith, e), ap (λ q. get q target) same, sym at ∙ ap (λ q. get q result) same)
          first
    | inr e ↦
        same-IsMerged _ _ _ _ _ _
          (ground (arith, e), ground (arith, e, get-insert j k slot target), refl) rest
  ]

  abbrev merged_with : Fields → Fields → Fields
  merged_with target source = merge_source merge_nested extend_array split_lists target source

  mutual
    unfolding merge_source AreDistinct get

    merge_fields-IsMerged :
        (k : Text) (target source : Fields)
        → AreDistinct source
        → IsMerged (get k source) (get k target) (get k (merged_with target source))
    merge_fields-IsMerged k target end d = kept (get k target)
    merge_fields-IsMerged k target (field j v source) (absent, distinct, d) =
        let slot = merge_slot merge_nested extend_array split_lists j v (get j target) in
        let next = insert j slot target in
        let at =
          get-merge_source merge_nested extend_array split_lists j next source
            (AreDistinct-HasDistinctKeys source d) in
        field-IsMerged k j v slot target source (merged_with next source)
          (ground (arith, at, absent, get-insert j j slot target, text_eq_iff j j))
          (merge_slot-IsMerged j v (get j target) distinct) (merge_fields-IsMerged k next source d)

    merge_slot-IsMerged :
        (key : Text) (value : Value) (curr : Option Value)
        → IsDistinct value
        → IsMerged
            (some value)
            curr
            (some (merge_slot merge_nested extend_array split_lists key value curr))
    merge_slot-IsMerged key (object s) (some (object t)) d = elim (Bool-cases merge_nested) [
      | inl e ↦
          same-IsMerged _ _ (some (object (merged_with t s))) _ _ _ (refl, refl, ground (arith, e))
            (nested s t (merged_with t s) e (λ k. merge_fields-IsMerged k t s d))
      | inr e ↦
          same-IsMerged _ _ (some (object s)) _ _ _ (refl, refl, ground (arith, e))
            (replaced (object s) (some (object t)) e)
    ]
    merge_slot-IsMerged key null (some (object t)) d = elim (Bool-cases merge_nested) [
      | inl e ↦
          same-IsMerged _ _ (some (object t)) _ _ _ (refl, refl, ground (arith, e))
            (object_kept t e)
      | inr e ↦
          same-IsMerged _ _ (some null) _ _ _ (refl, refl, ground (arith, e))
            (replaced null (some (object t)) e)
    ]
    merge_slot-IsMerged key null (some (array t)) d = elim (Bool-cases extend_array) [
      | inl e ↦
          same-IsMerged _ _ (some (array t)) _ _ _ (refl, refl, ground (arith, e)) (array_kept t e)
      | inr e ↦
          same-IsMerged _ _ (some null) _ _ _ (refl, refl, ground (arith, e))
            (replaced null (some (array t)) e)
    ]
    merge_slot-IsMerged key (array s) (some (array t)) d = elim (Bool-cases extend_array) [
      | inl e ↦
          same-IsMerged _ _ (some (array (append_items t s))) _ _ _ (refl, refl, ground (arith, e))
            (extended s t e)
      | inr e ↦
          same-IsMerged _ _ (some (array s)) _ _ _ (refl, refl, ground (arith, e))
            (replaced (array s) (some (array t)) e)
    ]
    merge_slot-IsMerged key (string s) (some (array t)) d =
        elim (Bool-cases (extend_array && split_lists)) [
          | inl e ↦
              same-IsMerged _ _ (some (array (append_items t (list_entries s)))) _ _ _
                (refl, refl, ground (arith, e)) (listed s t (ground (arith, e)) (ground (arith, e)))
          | inr e ↦
              same-IsMerged _ _ (some (string s)) _ _ _ (refl, refl, ground (arith, e))
                (replaced (string s) (some (array t)) e)
        ]
    merge_slot-IsMerged key value curr d = replaced value curr tt

  -- After a source whose objects have each key once is merged, each key has what the rule for it
  -- makes of its values in the source and in the target. Objects nest by the same rule: a key that
  -- the source does not have stays, and otherwise the value of the source replaces the other, but
  -- two objects are merged (if nested ones are), two arrays are joined (if arrays are extended),
  -- the target's first, as is an array with the entries of a list as text (if lists are split), and
  -- null leaves an object or an array as it is (if nested ones are merged, or arrays are extended).
  pub merge_source-IsMerged :
      (k : Text) (target source : Fields)
      → AreDistinct source
      → IsMerged
          (get k source)
          (get k target)
          (get k (merge_source merge_nested extend_array split_lists target source))
  merge_source-IsMerged k target source d = merge_fields-IsMerged k target source d
