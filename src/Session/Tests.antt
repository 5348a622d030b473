-- ===== src/Session/Tests.antt =====
-- auth/server/src/session.rs: a session in memory, whose states are numbers.
use moghtech_lib.Base.{◌-◌, ◌≡◌, ◌≢◌, none, [], ◌∷◌, leb, if◌then◌else◌, arith}
use moghtech_lib.Error.{ok, fail, unauthorized}
use moghtech_lib.Session.Store.{provider, Key}
use moghtech_lib.Session.Steps.{
  insert_authenticated_user, retrieve_authenticated_user_id, max_completed_login_age,
  insert_totp_enrollment, retrieve_totp_enrollment, insert_passkey_login, insert_login_kind,
  retrieve_passkey_login, insert_totp_login, begin_totp_login_attempt,
}
use moghtech_lib.Session.Memory.{memory, new}
use moghtech_lib.Session.Once.{
  retrieve-insert_authenticated_user, retrieve_authenticated_user_id_once,
  retrieve-insert_totp_enrollment, retrieve-insert_passkey_login,
}
use moghtech_lib.Session.Totp.{attempts, attempts-answer}

retrieve-insert_authenticated_user_example :
    ((retrieve_authenticated_user_id memory 1100
        (insert_authenticated_user memory "ada" 1000 new)).1
      ≡ (if leb (1100 - 1000) max_completed_login_age
          then ok (record { user_id = "ada"; authenticated_at = 1000 })
          else fail unauthorized "Login has expired. Log in again."))
    × (memory.id (insert_authenticated_user memory "ada" 1000 new) ≢ 7)
retrieve-insert_authenticated_user_example =
    retrieve-insert_authenticated_user memory "ada" 1000 1100 new

retrieve_authenticated_user_id_once_example :
    retrieve_authenticated_user_id memory 1101
      (retrieve_authenticated_user_id memory 1100
        (insert_authenticated_user memory "ada" 1000 new)).0
    ≡ (
      (retrieve_authenticated_user_id memory 1100
          (insert_authenticated_user memory "ada" 1000 new)).0,
      fail unauthorized "Authentication steps must be completed before JWT can be retrieved",
    )
retrieve_authenticated_user_id_once_example =
    retrieve_authenticated_user_id_once memory 1100 1101
      (insert_authenticated_user memory "ada" 1000 new)

retrieve-insert_totp_enrollment_example :
    ((retrieve_totp_enrollment memory "bob" (insert_totp_enrollment memory "ada" 5 new)).1
      ≡ fail unauthorized "enrollment was not initiated by this user")
    × (memory.get_value Key.totp_enrollment
          (retrieve_totp_enrollment memory "bob" (insert_totp_enrollment memory "ada" 5 new)).0
        ≡ none)
retrieve-insert_totp_enrollment_example = retrieve-insert_totp_enrollment memory "ada" "bob" 5 new

retrieve-insert_passkey_login_example :
    let t =
      insert_login_kind memory
        (provider "idp" "Example")
        (insert_passkey_login memory "ada" 5 1000 new) in
    ((retrieve_passkey_login memory 1100 t).1 ≡ ok ("ada", 5, provider "idp" "Example"))
    × (memory.get_value Key.passkey_login (retrieve_passkey_login memory 1100 t).0 ≡ none)
    × (memory.get_value Key.login_kind (retrieve_passkey_login memory 1100 t).0 ≡ none)
retrieve-insert_passkey_login_example =
    retrieve-insert_passkey_login memory "ada" 5 (provider "idp" "Example") 1000 1100 new

attempts-answer_example :
    (begin_totp_login_attempt memory 1200
      (attempts memory (1100 ∷ 1101 ∷ []) (insert_totp_login memory "ada" 1000 new))).1
    ≡ ok "ada"
attempts-answer_example =
    attempts-answer memory "ada" 1000 1200 (1100 ∷ 1101 ∷ []) new
      (omega arith, (omega arith, (omega arith, tt)))
