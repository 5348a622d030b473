-- ===== src/Login/LocalTests.antt =====
-- auth/server/src/api/login/local.rs: the theorems at an app with one user.
use Prim.Native.String.{String}
use moghtech_lib.Base.{ℕ, ◌≡◌, refl, inl, inr, true, false, none, some, if◌then◌else◌}
use moghtech_lib.Base.Table.{string_eq}
use moghtech_lib.Error.{ok, err}
use moghtech_lib.Session.Store.{local}
use moghtech_lib.Session.Memory.{memory, new}
use moghtech_lib.Login.Local.{
  LocalUser, LocalAuth, jwt, invalid_credentials, check_password, find_user, begin_login,
  login_local_user,
}
use moghtech_lib.Login.Refusals.{
  IsLetIn, login_local_user-invalid_credentials, login_local_user-jwt,
}

abbrev sample_user : LocalUser ℕ
sample_user = record {
  id = "u1";
  hashed_password = some "hash of secret";
  passkey = none;
  totp_secret = none;
}

abbrev sample_auth : LocalAuth ℕ ℕ ℕ String
sample_auth = record {
  local_auth_enabled = true;
  local_registration_disabled = true;
  no_users_exist = ok false;
  validate_username = λ name. ok tt;
  validate_password = λ password. ok tt;
  find_user_with_username =
      λ name. if string_eq.beq name "ops" then ok (some sample_user) else ok none;
  bcrypt_hash = λ password. ok "hash";
  bcrypt_verify = λ password hashed. ok (string_eq.beq password "secret");
  check_user_cidr_whitelist = λ user. ok tt;
  start_passkey_authentication = λ key. ok (0, 0);
  sign_up_local_user = λ name hashed first. ok "u2";
  record_login = λ id kind. ok tt;
  encode_sub = λ id. ok id;
}

login_local_user-invalid_credentials_example :
    login_local_user sample_auth memory "ops" "guess" 100 new ≡ (new, err invalid_credentials)
login_local_user-invalid_credentials_example =
    login_local_user-invalid_credentials sample_auth memory "ops" "guess" 100 new refl refl
      (inr (sample_user, refl, inr ("hash of secret", refl, inl refl)))

logged_in : (login_local_user sample_auth memory "ops" "secret" 100 new).1 ≡ ok (jwt "u1")
unfolding login_local_user find_user check_password begin_login
logged_in = refl

login_local_user-jwt_example :
    (user : LocalUser ℕ) × (sample_auth.find_user_with_username "ops" ≡ ok (some user))
    × IsLetIn sample_auth user "secret"
    × (user.passkey ≡ none)
    × (user.totp_secret ≡ none)
    × (sample_auth.record_login user.id local ≡ ok tt)
    × (sample_auth.encode_sub user.id ≡ ok "u1")
login_local_user-jwt_example =
    login_local_user-jwt sample_auth memory "ops" "secret" 100 new "u1" logged_in
