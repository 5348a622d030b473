-- ===== src/Session/Memory.antt =====
-- A session in memory, whose states are numbers: `tower_sessions::Session` as `Store` describes it.
use moghtech_lib.Base.{
  ℕ, ◌+◌, refl, Bool, true, false, Option, none, some, ◌==◌, if◌then◌else◌, arith,
}
use moghtech_lib.Session.Store.{key_index, Value, Store}

pub record Data : Type 0 where
  pub id : ℕ
  pub is_modified : Bool
  pub values : ℕ → Option (Value ℕ)

abbrev pub put : ℕ → Option (Value ℕ) → (ℕ → Option (Value ℕ)) → ℕ → Option (Value ℕ)
put i v values j = if i == j then v else values j

abbrev pub memory : Store ℕ
memory = record {
  Data = Data;
  id = λ s. s.id;
  is_modified = λ s. s.is_modified;
  get_value = λ k s. s.values (key_index k);
  insert_value =
      λ k v s. record s { is_modified = true; values = put (key_index k) (some v) s.values };
  remove_value = λ k s. record s { is_modified = true; values = put (key_index k) none s.values };
  cycle_id = λ s. record s { id = s.id + 1 };
  get_value-insert = λ k j v s. refl;
  get_value-remove = λ k j s. refl;
  get_value-cycle_id = λ j s. refl;
  id-cycle_id = λ s e. omega arith;
  id-insert = λ k v s. refl;
  id-remove = λ k s. refl;
}

abbrev pub new : Data
new = record { id = 7; is_modified = false; values = λ k. none }
