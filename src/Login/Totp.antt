-- ===== src/Login/Totp.antt =====
-- auth/server/src/api/login/totp.rs: `finish_totp_login`, and the steps of accepted codes. The app's
-- `AuthImpl` and the TOTP library are the record `Auth`; the app keeps the default
-- `consume_totp_step`.
use Prim.Native.String.{String}
use moghtech_lib.Base.{ℕ, Bool, true, false, Option, none, some, List, leb, if◌then◌else◌}
use moghtech_lib.Base.Table.{string_eq, lookup, insert}
use moghtech_lib.Error.{
  Result, ok, err, ◌>>=◌, ◌>>◌, fail, or_fail, unauthorized, internal_server_error,
}
use moghtech_lib.Session.Store.{LoginKind, Store}
use moghtech_lib.Session.Steps.{complete_totp_login}

-- What a call of the handler gets from the app and the library, at its time and for its client.
pub record Auth (Jwt : Type 0) : Type 1 where
  pub User : Type 0
  pub get_user : String → Result User
  pub totp_secret : User → Option String
  pub check_user_cidr_whitelist : User → Result (Unit {0})
  pub decode : String → Option (List ℕ)
  pub Totp : Type 0
  pub make_totp : List ℕ → Result Totp
  pub check_current : Totp → String → Option ℕ
  pub record_login : User → LoginKind → Result (Unit {0})
  pub encode_sub : String → Result Jwt

-- The latest accepted step of each user.
abbrev pub Steps : Type 0
Steps = List (String × ℕ)

unfoldable pub consume_totp_step_in_process : String → ℕ → Steps → Steps × Bool
consume_totp_step_in_process user_id step accepted = elim (lookup user_id accepted) [
  | none ↦ (insert user_id step accepted, true)
  | some last ↦ if leb step last then (accepted, false) else (insert user_id step accepted, true)
]

abbrev pub already_used {ℓ} : {T : Type ℓ} → Result T
already_used = fail unauthorized "TOTP code already used. Wait for the next code."

module _ {Jwt : Type 0} (A : Auth Jwt) where
  open A use {
    User, get_user, totp_secret, check_user_cidr_whitelist, decode, make_totp, check_current,
    record_login, encode_sub,
  }

  -- The user, and the step at which the code is valid.
  unfoldable pub checked : String → String → Result (User × ℕ)
  checked user_id code = do
    user ← get_user user_id
    secret ← or_fail (totp_secret user) internal_server_error "User is not enrolled in TOTP 2FA"
    check_user_cidr_whitelist user
    bytes ← or_fail (decode secret) internal_server_error "Failed to decode TOTP secret to bytes"
    totp ← make_totp bytes
    step ← or_fail (check_current totp code) unauthorized "Invalid TOTP code"
    ok (user, step)

  recorded : String → User → LoginKind → Result Jwt
  recorded user_id user kind = do record_login user kind; encode_sub user_id

  module _ {X : Type 0} (S : Store X) where
    unfoldable pub finish_totp_login :
        String → String → S.Data → Steps → (S.Data × Steps) × Result Jwt
    unfolding recorded
    finish_totp_login user_id code session accepted = elim (checked user_id code) [
      | err e ↦ ((session, accepted), err e)
      | ok (user, step) ↦
          let (consumed, fresh) = consume_totp_step_in_process user_id step accepted in
          if fresh
          then (let (done, kind) = complete_totp_login S session in
              ((done, consumed), recorded user_id user kind))
          else ((session, consumed), already_used)
    ]
