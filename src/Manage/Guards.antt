-- ===== src/Manage/Guards.antt =====
-- auth/server/src/api/manage/mod.rs: which requests of the management API a user may make. What a
-- request asks for besides its method only matters to its `resolve`, which is a parameter.
use moghtech_lib.Base.{
  ℕ, ◌+◌, ◌-◌, ◌/◌, ◌%◌, ◌^◌, min, ◌&&◌, ◌||◌, not, Bool, true, false, Option, none, some, ◌++◌,
  leb, ◌==◌, is_some, if◌then◌else◌,
}
use moghtech_lib.Base.Text.{Text, codes}
use moghtech_lib.Base.Decimal.{digits}
use moghtech_lib.Error.{Result, ok, err, fail, fail_with, forbidden}

-- The discriminant of `ManageRequest`.
pub data ManageRequestMethod : Type 0 where
  get_user_id : ManageRequestMethod
  update_username : ManageRequestMethod
  update_password : ManageRequestMethod
  begin_external_login_link : ManageRequestMethod
  unlink_local_login : ManageRequestMethod
  unlink_external_login : ManageRequestMethod
  list_external_login_providers : ManageRequestMethod
  create_external_login_provider : ManageRequestMethod
  update_external_login_provider : ManageRequestMethod
  delete_external_login_provider : ManageRequestMethod
  list_trusted_issuers : ManageRequestMethod
  create_trusted_issuer : ManageRequestMethod
  update_trusted_issuer : ManageRequestMethod
  delete_trusted_issuer : ManageRequestMethod
  begin_passkey_enrollment : ManageRequestMethod
  confirm_passkey_enrollment : ManageRequestMethod
  unenroll_passkey : ManageRequestMethod
  begin_totp_enrollment : ManageRequestMethod
  confirm_totp_enrollment : ManageRequestMethod
  unenroll_totp : ManageRequestMethod
  update_external_skip2fa : ManageRequestMethod
  create_api_key : ManageRequestMethod
  delete_api_key : ManageRequestMethod
  create_signing_key : ManageRequestMethod
  delete_signing_key : ManageRequestMethod

unfoldable pub is_get_user_id : ManageRequestMethod → Bool
is_get_user_id get_user_id = true
is_get_user_id _ = false

unfoldable pub check_not_workload : (is_workload : Bool) → ManageRequestMethod → Result (Unit {0})
check_not_workload is_workload request =
    if not is_workload || is_get_user_id request
    then ok tt
    else fail forbidden "Workload users can't use the auth management API"

unfoldable pub requires_recent_login : ManageRequestMethod → Bool
requires_recent_login get_user_id = false
requires_recent_login list_external_login_providers = false
requires_recent_login list_trusted_issuers = false
requires_recent_login delete_api_key = false
requires_recent_login delete_signing_key = false
requires_recent_login _ = true

unfoldable pub manages_resources : ManageRequestMethod → Bool
manages_resources create_external_login_provider = true
manages_resources update_external_login_provider = true
manages_resources delete_external_login_provider = true
manages_resources create_trusted_issuer = true
manages_resources update_trusted_issuer = true
manages_resources delete_trusted_issuer = true
manages_resources _ = false

abbrev pub reauthentication_required : Text
reauthentication_required = codes "Reauthentication required"

unfoldable pub check_credential_kind : Option ℕ → ManageRequestMethod → Result (Unit {0})
check_credential_kind authenticated_at request =
    if is_some authenticated_at || not (requires_recent_login request) || manages_resources request
    then ok tt
    else fail_with forbidden (
        reauthentication_required
        ++ codes
            ": this needs a recent login, credentials without a login (api keys, signing keys) can't be used for it")

unfoldable pub format_window : ℕ → Text
format_window secs =
    if leb 120 secs && secs % 60 == 0
    then digits 20 (secs / 60) ++ codes " minutes"
    else digits 20 secs ++ codes " seconds"

unfoldable pub check_recent_login :
    (window_secs leeway_secs : ℕ) → Option ℕ → (now : ℕ) → ManageRequestMethod → Result (Unit {0})
check_recent_login window_secs leeway_secs none now request = ok tt
check_recent_login window_secs leeway_secs (some at) now request =
    if window_secs == 0 || not (requires_recent_login request)
    then ok tt
    else if leb at (min (now + leeway_secs) (2 ^ 64 - 1)) && leb (now - at) window_secs
    then ok tt
    else fail_with forbidden (
        reauthentication_required
        ++ codes ": log in again to continue, this needs a login within the last "
        ++ format_window window_secs)

-- The settings of the app, and the time in seconds.
pub record Reauthentication : Type 0 where
  pub reauthentication_window_secs : ℕ
  pub leeway : ℕ
  pub now : ℕ

module _ {S Response : Type 0} (R : Reauthentication) where
  open R use {reauthentication_window_secs, leeway, now}

  -- `resolve`: what the request does and answers, once it is let through.
  unfoldable pub handler :
      (is_workload : Bool)
      → Option ℕ
      → ManageRequestMethod
      → (S → S × Result Response)
      → S
      → S × Result Response
  handler is_workload authenticated_at request resolve s =
      let resolved = resolve s in
      elim (check_not_workload is_workload request) [
        | err e ↦ (s, err e)
        | ok _ ↦ elim (check_credential_kind authenticated_at request) [
          | err e ↦ (s, err e)
          | ok _ ↦
              elim (check_recent_login reauthentication_window_secs leeway authenticated_at now
                request) [ err e ↦ (s, err e) | ok _ ↦ resolved ]
        ]
      ]
