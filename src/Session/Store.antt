-- ===== src/Session/Store.antt =====
-- auth/server/src/session.rs: what is kept on a session, under which keys, and what is used of
-- `tower_sessions::Session`, which is not part of the repository.
use Prim.Native.String.{String}
use moghtech_lib.Base.{ℕ, ◌≡◌, ◌≢◌, Bool, Option, none, some, if◌then◌else◌, ◌==◌}

-- crate::LoginKind
pub data LoginKind : Type 0 where
  local : LoginKind
  provider : (provider_id provider_name : String) → LoginKind
  workload : (issuer_id issuer_name rule_id rule_name : String) → LoginKind

pub data Key : Type 0 where
  authenticated_user external_login passkey_login login_kind totp_login totp_login_attempts
        passkey_enrollment totp_enrollment external_link :
      Key

abbrev pub key_index : Key → ℕ
key_index Key.authenticated_user = 0
key_index Key.external_login = 1
key_index Key.passkey_login = 2
key_index Key.login_kind = 3
key_index Key.totp_login = 4
key_index Key.totp_login_attempts = 5
key_index Key.passkey_enrollment = 6
key_index Key.totp_enrollment = 7
key_index Key.external_link = 8

-- A serialized value: `X` stands for the states of passkeys, TOTP secrets and providers.
pub data Value (X : Type 0) : Type 0 where
  user_at : String → ℕ → Value X
  user_state_at : String → X → ℕ → Value X
  user_state : String → X → Value X
  login : X → Value X
  kind : LoginKind → Value X
  count : ℕ → Value X

module _ {X : Type 0} where
  abbrev pub as_user_at : Value X → Option (String × ℕ)
  as_user_at (user_at u t) = some (u, t)
  as_user_at _ = none

  abbrev pub as_user_state_at : Value X → Option (String × X × ℕ)
  as_user_state_at (user_state_at u x t) = some (u, x, t)
  as_user_state_at _ = none

  abbrev pub as_user_state : Value X → Option (String × X)
  as_user_state (user_state u x) = some (u, x)
  as_user_state _ = none

  abbrev pub as_login : Value X → Option X
  as_login (login x) = some x
  as_login _ = none

  abbrev pub as_kind : Value X → Option LoginKind
  as_kind (kind k) = some k
  as_kind _ = none

  abbrev pub as_count : Value X → Option ℕ
  as_count (count n) = some n
  as_count _ = none

-- The documented behaviour of a session: its values by key, an id that `cycle_id` replaces while
-- the values stay, and whether it was modified (a modified session is saved, which extends its
-- expiry).
pub record Store (X : Type 0) : Type 1 where
  pub Data : Type 0
  pub id : Data → ℕ
  pub is_modified : Data → Bool
  pub get_value : Key → Data → Option (Value X)
  pub insert_value : Key → Value X → Data → Data
  pub remove_value : Key → Data → Data
  pub cycle_id : Data → Data
  pub get_value-insert :
      (k j : Key) (v : Value X) (s : Data)
      → get_value j (insert_value k v s)
        ≡ (if key_index k == key_index j then some v else get_value j s)
  pub get_value-remove :
      (k j : Key) (s : Data)
      → get_value j (remove_value k s)
        ≡ (if key_index k == key_index j then none else get_value j s)
  pub get_value-cycle_id : (j : Key) (s : Data) → get_value j (cycle_id s) ≡ get_value j s
  pub id-cycle_id : (s : Data) → id (cycle_id s) ≢ id s
  pub id-insert : (k : Key) (v : Value X) (s : Data) → id (insert_value k v s) ≡ id s
  pub id-remove : (k : Key) (s : Data) → id (remove_value k s) ≡ id s
