-- ===== src/Login/Local.antt =====
-- auth/server/src/api/login/local.rs: signing up, and logging in with a password. The app's
-- `AuthImpl`, bcrypt, and the start of a passkey's challenge are the record `LocalAuth`. What only
-- takes time (the hash for an unknown user) is left out.
use Prim.Native.String.{String}
use moghtech_lib.Base.{ℕ, Bool, not, ◌&&◌, Option, none, some, [], ◌∷◌, if◌then◌else◌}
use moghtech_lib.Base.Table.{string_eq}
use moghtech_lib.Error.{Error, Note, Result, ok, err, fail, ◌>>=◌, unauthorized}
use moghtech_lib.Session.Store.{LoginKind, local, Store}
use moghtech_lib.Session.Steps.{insert_passkey_login, insert_totp_login, insert_login_kind}

abbrev pub conflict : ℕ
conflict = 409

pub record LocalUser (Passkey : Type 0) : Type 0 where
  pub id : String
  pub hashed_password : Option String
  pub passkey : Option Passkey
  pub totp_secret : Option String

-- What a call of the handler gets from the app and the libraries, at its time and for its client.
pub record LocalAuth (X Passkey Challenge Jwt : Type 0) : Type 0 where
  pub local_auth_enabled : Bool
  pub local_registration_disabled : Bool
  pub no_users_exist : Result Bool
  pub validate_username : String → Result (Unit {0})
  pub validate_password : String → Result (Unit {0})
  pub find_user_with_username : String → Result (Option (LocalUser Passkey))
  pub bcrypt_hash : String → Result String
  pub bcrypt_verify : String → String → Result Bool
  pub check_user_cidr_whitelist : LocalUser Passkey → Result (Unit {0})
  pub start_passkey_authentication : Passkey → Result (Challenge × X)
  pub sign_up_local_user : String → String → Bool → Result String
  pub record_login : String → LoginKind → Result (Unit {0})
  pub encode_sub : String → Result Jwt

pub data JwtOrTwoFactor (Challenge Jwt : Type 0) : Type 0 where
  jwt : Jwt → JwtOrTwoFactor Challenge Jwt
  passkey : Challenge → JwtOrTwoFactor Challenge Jwt
  totp : JwtOrTwoFactor Challenge Jwt

abbrev pub invalid_credentials : Error
invalid_credentials = record {
  status = unauthorized;
  notes = Note.text "Invalid login credentials" ∷ [];
}

-- `.context("Invalid login credentials").status_code(UNAUTHORIZED)`
abbrev pub or_invalid {ℓ} : {A : Type ℓ} → Result A → Result A
or_invalid (ok a) = ok a
or_invalid (err e) =
    err (record { status = unauthorized; notes = Note.text "Invalid login credentials" ∷ e.notes })

module _ {X Passkey Challenge Jwt : Type 0} (A : LocalAuth X Passkey Challenge Jwt) where
  -- The name is free, or it is the user's own.
  unfoldable pub check_username_available : String → Option String → Result (Unit {0})
  check_username_available username user_id = elim (A.find_user_with_username username) [
    | err e ↦ err e
    | ok none ↦ ok tt
    | ok (some existing) ↦ elim user_id [
      | none ↦ fail conflict "Username is already taken"
      | some id ↦
          if string_eq.beq existing.id id then ok tt else fail conflict "Username is already taken"
    ]
  ]

  unfoldable pub registered : String → String → Bool → Result Jwt
  registered username password no_users_exist = do
    name ← A.validate_username username
    strong ← A.validate_password password
    free ← check_username_available username none
    hashed ← A.bcrypt_hash password
    user_id ← A.sign_up_local_user username hashed no_users_exist
    recorded ← A.record_login user_id local
    A.encode_sub user_id

  unfoldable pub sign_up : String → String → Result Jwt
  sign_up username password =
      if not A.local_auth_enabled then fail unauthorized "Local auth is not enabled" else do
        no_users ← A.no_users_exist
        let done = registered username password no_users in
            if A.local_registration_disabled && not no_users
            then fail unauthorized "User registration is disabled"
            else done

  -- A user whose password matches, and whose whitelist has the client: any other outcome is
  -- answered as a wrong password.
  unfoldable pub check_password : LocalUser Passkey → String → Result (Unit {0})
  check_password user password = elim user.hashed_password [
    | none ↦ err invalid_credentials
    | some hashed ↦ do
      verified ← or_invalid (A.bcrypt_verify password hashed)
      if not verified then err invalid_credentials else elim (A.check_user_cidr_whitelist user) [
        | err e ↦ err invalid_credentials
        | ok allowed ↦ ok tt
      ]
  ]

  unfoldable pub find_user : String → String → Result (LocalUser Passkey)
  find_user username password =
      if not A.local_auth_enabled then fail unauthorized "Local auth is not enabled" else do
        valid ← A.validate_username username
        found ← A.find_user_with_username username
        elim found [
          | none ↦ err invalid_credentials
          | some user ↦ do checked ← check_password user password; ok user
        ]

  module _ (S : Store X) where
    -- A second factor is asked for on the session, else the login is recorded and the token issued.
    unfoldable pub begin_login :
        LocalUser Passkey → ℕ → S.Data → S.Data × Result (JwtOrTwoFactor Challenge Jwt)
    begin_login user now session = elim user.passkey [
      | some key ↦ elim (A.start_passkey_authentication key) [
        | err e ↦ (session, err e)
        | ok (challenge, state) ↦ (
          insert_login_kind S local (insert_passkey_login S user.id state now session),
          ok (passkey challenge),
        )
      ]
      | none ↦ elim user.totp_secret [
        | some secret ↦
            (insert_login_kind S local (insert_totp_login S user.id now session), ok totp)
        | none ↦ (
          session,
          do recorded ← A.record_login user.id local; token ← A.encode_sub user.id; ok (jwt token),
        )
      ]
    ]

    unfoldable pub login_local_user :
        String → String → ℕ → S.Data → S.Data × Result (JwtOrTwoFactor Challenge Jwt)
    login_local_user username password now session = elim (find_user username password) [
      | err e ↦ (session, err e)
      | ok user ↦ begin_login user now session
    ]
