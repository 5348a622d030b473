-- ===== src/Session/Steps.antt =====
-- auth/server/src/session.rs: `Session`'s operations. A step returns the session and its result;
-- times are seconds since the epoch.
use Prim.Native.String.{String}
use text.Mathlib.Text.{◌==◌ as str_eq}
use moghtech_lib.Base.{ℕ, ◌+◌, ◌-◌, ◌*◌, Bool, Option, none, some, leb, if◌then◌else◌}
use moghtech_lib.Error.{
  Result, ok, err, ◌>>=◌, ◌>>◌, fail, or_fail, unauthorized, internal_server_error,
}
use moghtech_lib.Session.Store.{
  LoginKind, local, Key, Value, user_at, user_state_at, user_state, login, kind, count, as_user_at,
  as_user_state_at, as_user_state, as_login, as_kind, as_count, Store,
}

abbrev pub max_completed_login_age : ℕ
max_completed_login_age = 2 * 60

abbrev pub max_second_factor_login_age : ℕ
max_second_factor_login_age = 10 * 60

abbrev pub max_totp_login_attempts : ℕ
max_totp_login_attempts = 5

abbrev pub max_external_link_age : ℕ
max_external_link_age = 10 * 60

unfoldable pub is_within : ℕ → ℕ → ℕ → Bool
is_within begun_at now max_age = leb (now - begun_at) max_age

unfoldable pub check_login_age : ℕ → ℕ → ℕ → Result (Unit {0})
unfolding is_within
check_login_age begun_at now max_age =
    if is_within begun_at now max_age
    then ok tt
    else fail unauthorized "Login has expired. Log in again."

unfoldable pub check_second_factor_login_age : ℕ → ℕ → Result (Unit {0})
unfolding check_login_age
check_second_factor_login_age begun_at now =
    check_login_age begun_at now max_second_factor_login_age

unfoldable pub check_completed_login_age : ℕ → ℕ → Result (Unit {0})
unfolding check_login_age
check_completed_login_age authenticated_at now =
    check_login_age authenticated_at now max_completed_login_age

unfoldable pub check_external_link_age : ℕ → ℕ → Result (Unit {0})
unfolding is_within
check_external_link_age begun_at now =
    if is_within begun_at now max_external_link_age
    then ok tt
    else fail unauthorized "External link has expired, begin linking again"

unfoldable pub check_enrollment_user : String → String → Result (Unit {0})
check_enrollment_user began_by user_id =
    if str_eq began_by user_id
    then ok tt
    else fail unauthorized "enrollment was not initiated by this user"

pub record CompletedLogin : Type 0 where
  pub user_id : String
  pub authenticated_at : ℕ

pub record ExternalLink : Type 0 where
  pub user_id : String
  pub begun_at : ℕ

unfoldable pub check_age : ExternalLink → ℕ → Result (Unit {0})
unfolding check_external_link_age
check_age link now = check_external_link_age link.begun_at now

-- A value that does not read back is an error, and so is none where one is wanted.
abbrev pub decoded {ℓ} : {V : Type 0} {T : Type ℓ} → (V → Option T) → Option V → Result (Option T)
decoded decode none = ok none
decoded decode (some v) = elim (decode v) [
  | none ↦ fail internal_server_error "Internal session type error"
  | some t ↦ ok (some t)
]

abbrev pub needed {ℓ} : {T : Type ℓ} → String → Result (Option T) → Result T
needed message (ok o) = or_fail o unauthorized message
needed message (err e) = err e

module _ {X : Type 0} (S : Store X) where
  open S use {Data, get_value, insert_value, remove_value, cycle_id}

  -- A session without the value is left unmodified.
  unfoldable pub take {ℓ} :
      {T : Type ℓ} → Key → (Value X → Option T) → Data → Data × Result (Option T)
  take key decode s = elim (get_value key s) [
    | none ↦ (s, ok none)
    | some v ↦ (remove_value key s, decoded decode (some v))
  ]

  -- `tower_sessions::Session::remove`, which marks the session modified in any case.
  unfoldable pub remove {ℓ} :
      {T : Type ℓ} → Key → (Value X → Option T) → Data → Data × Result (Option T)
  remove key decode s = (remove_value key s, decoded decode (get_value key s))

  unfoldable pub insert_authenticated_user : String → ℕ → Data → Data
  insert_authenticated_user user_id authenticated_at s =
      insert_value Key.authenticated_user (user_at user_id authenticated_at) (cycle_id s)

  completed : ℕ → Result (String × ℕ) → Result CompletedLogin
  completed now r = do
    (user_id, authenticated_at) ← r
    check_completed_login_age authenticated_at now
    ok (record { user_id = user_id; authenticated_at = authenticated_at })

  unfoldable pub retrieve_authenticated_user_id : ℕ → Data → Data × Result CompletedLogin
  unfolding take completed
  retrieve_authenticated_user_id now s =
      let (t, r) = take Key.authenticated_user as_user_at s in
      (
        t,
        completed now
            (needed "Authentication steps must be completed before JWT can be retrieved" r),
      )

  unfoldable pub insert_external_login : X → Data → Data
  insert_external_login x s = insert_value Key.external_login (login x) s

  unfoldable pub retrieve_external_login : Data → Data × Result X
  unfolding take
  retrieve_external_login s =
      let (t, r) = take Key.external_login as_login s in
      (t, needed "External login has not been initiated for this session" r)

  unfoldable pub insert_login_kind : LoginKind → Data → Data
  insert_login_kind k s = insert_value Key.login_kind (kind k) s

  -- Without a kind, or with one that does not read back, the login counts as local.
  kind_or_local : Option (Value X) → LoginKind
  kind_or_local none = local
  kind_or_local (some v) = elim (as_kind v) [ none ↦ local | some k ↦ k ]

  unfoldable pub take_login_kind : Data → Data × LoginKind
  unfolding kind_or_local
  take_login_kind s = (remove_value Key.login_kind s, kind_or_local (get_value Key.login_kind s))

  unfoldable pub insert_passkey_login : String → X → ℕ → Data → Data
  insert_passkey_login user_id state begun_at s =
      insert_value Key.passkey_login (user_state_at user_id state begun_at) (cycle_id s)

  -- The kind is taken only if there is a login in progress, and before the age is checked.
  unfoldable pub retrieve_passkey_login : ℕ → Data → Data × Result (String × X × LoginKind)
  unfolding take take_login_kind
  retrieve_passkey_login now s =
      let (t, r) = take Key.passkey_login as_user_state_at s in
      elim (needed "Passkey login has not been initiated for this session" r) [
        | err e ↦ (t, err e)
        | ok (user_id, state, begun_at) ↦ (
          (take_login_kind t).0,
          do check_second_factor_login_age begun_at now; ok (user_id, state, (take_login_kind t).1),
        )
      ]

  unfoldable pub insert_totp_login : String → ℕ → Data → Data
  insert_totp_login user_id begun_at s =
      insert_value Key.totp_login (user_at user_id begun_at)
        (insert_value Key.totp_login_attempts (count 0) (cycle_id s))

  unfoldable pub complete_totp_login : Data → Data × LoginKind
  unfolding take_login_kind
  complete_totp_login s =
      take_login_kind (remove_value Key.totp_login_attempts (remove_value Key.totp_login s))

  counted : Data → Result ℕ
  counted s = elim (decoded as_count (get_value Key.totp_login_attempts s)) [
    | err e ↦ err e
    | ok none ↦ ok 0
    | ok (some n) ↦ ok n
  ]

  tried : Data → String → Result ℕ → Data × Result String
  unfolding complete_totp_login
  tried s user_id (err e) = (s, err e)
  tried s user_id (ok attempts) =
      if leb max_totp_login_attempts attempts
      then ((complete_totp_login s).0, fail unauthorized "Too many invalid codes. Log in again.")
      else (insert_value Key.totp_login_attempts (count (attempts + 1)) s, ok user_id)

  begun : ℕ → Data → Result (String × ℕ) → Data × Result String
  unfolding tried counted complete_totp_login
  begun now s (err e) = (s, err e)
  begun now s (ok (user_id, begun_at)) = elim (check_second_factor_login_age begun_at now) [
    | err e ↦ ((complete_totp_login s).0, err e)
    | ok _ ↦ tried s user_id (counted s)
  ]

  unfoldable pub begin_totp_login_attempt : ℕ → Data → Data × Result String
  unfolding begun
  begin_totp_login_attempt now s = begun now s (
      needed "TOTP login has not been initiated for this session"
        (decoded as_user_at (get_value Key.totp_login s)))

  unfoldable pub insert_passkey_enrollment : String → X → Data → Data
  insert_passkey_enrollment user_id state s =
      insert_value Key.passkey_enrollment (user_state user_id state) s

  -- The state of an enrollment, for the user who began it.
  enrolled : String → Result (String × X) → Result X
  enrolled user_id r = do (began_by, state) ← r; check_enrollment_user began_by user_id; ok state

  unfoldable pub retrieve_passkey_enrollment : String → Data → Data × Result X
  unfolding remove enrolled
  retrieve_passkey_enrollment user_id s =
      let (t, r) = remove Key.passkey_enrollment as_user_state s in
      (t, enrolled user_id (needed "Passkey enrollment has not been initiated for this session" r))

  unfoldable pub insert_totp_enrollment : String → X → Data → Data
  insert_totp_enrollment user_id totp s =
      insert_value Key.totp_enrollment (user_state user_id totp) s

  unfoldable pub retrieve_totp_enrollment : String → Data → Data × Result X
  unfolding remove enrolled
  retrieve_totp_enrollment user_id s =
      let (t, r) = remove Key.totp_enrollment as_user_state s in
      (t, enrolled user_id (needed "TOTP enrollment has not been initiated for this session" r))

  unfoldable pub insert_external_link : String → ℕ → Data → Data
  insert_external_link user_id begun_at s =
      insert_value Key.external_link (user_at user_id begun_at) (cycle_id s)

  linked : Result (String × ℕ) → Result ExternalLink
  linked r = do (user_id, begun_at) ← r; ok (record { user_id = user_id; begun_at = begun_at })

  unfoldable pub retrieve_external_link : Data → Data × Result ExternalLink
  unfolding take linked
  retrieve_external_link s =
      let (t, r) = take Key.external_link as_user_at s in
      (t, linked (needed "External link has not been initiated for this session" r))
