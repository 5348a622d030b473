-- ===== src/Middleware/Users.antt =====
-- auth/server/src/middleware.rs and lib.rs: the user whom the credentials of a request belong to. The
-- app's keys and users, its own type of user, and bcrypt are parameters. What only takes time (the
-- hash for an unknown key) is left out.
use moghtech_lib.Base.{ℕ, Bool, Option, none, some, List, ◌∷◌, if◌then◌else◌}
use moghtech_lib.Base.Text.{Text}
use moghtech_lib.Net.{IpAddr}
use moghtech_lib.Error.{Note, Result, ok, err, fail, ◌>>=◌, unauthorized}
use moghtech_lib.RequestIp.Cidr.{Nets, check_cidr_whitelist}
use moghtech_lib.Jwt.Provider.{JwtProvider, Signing, decode_sub}
use moghtech_lib.Middleware.Extract.{RequestAuthentication, jwt, api_key, public_key}

-- An API key or a signing key.
pub record AuthApiKey : Type 0 where
  pub user_id : Text
  pub cidr_whitelist : List Text

-- `AuthImpl`, at the time of a request, in seconds.
pub record Accounts (User : Type 0) : Type 1 where
  pub nets : Nets
  pub signing : Signing
  pub jwt_provider : JwtProvider
  pub now : ℕ
  pub get_api_key : (key secret : Text) → Result AuthApiKey
  pub get_signing_key : Text → Result AuthApiKey
  pub get_user : Text → Result User
  pub user_whitelist : User → List Text

-- `.status_code(UNAUTHORIZED)`
abbrev or_unauthorized {ℓ} : {A : Type ℓ} → Result A → Result A
or_unauthorized (ok a) = ok a
or_unauthorized (err e) = err (record e { status = unauthorized })

-- `.context("Invalid client credentials").status_code(UNAUTHORIZED)`
abbrev or_invalid {ℓ} : {A : Type ℓ} → Result A → Result A
or_invalid (ok a) = ok a
or_invalid (err e) =
    err (record { status = unauthorized; notes = Note.text "Invalid client credentials" ∷ e.notes })

module _ (bcrypt_verify : (secret hashed : Text) → Result Bool) where
  -- `verify_api_key_secret_with_cost`; `hashed_secret` is missing for an unknown key.
  unfoldable pub verify_api_key_secret : Text → Option Text → Result (Unit {0})
  verify_api_key_secret secret none = fail unauthorized "Invalid client credentials"
  verify_api_key_secret secret (some hashed_secret) = do
    verified ← or_invalid (bcrypt_verify secret hashed_secret)
    if verified then ok tt else fail unauthorized "Invalid client credentials"

module _ {User : Type 0} (A : Accounts User) where
  unfoldable pub get_jwt_user_id : Text → Result Text
  get_jwt_user_id token = or_unauthorized (decode_sub A.signing A.jwt_provider A.now token)

  -- The owner of a key that may be used from the address.
  unfoldable pub key_user_id : IpAddr → Result AuthApiKey → Result Text
  key_user_id ip found = do
    key ← found
    allowed ← check_cidr_whitelist A.nets ip key.cidr_whitelist
    ok key.user_id

  unfoldable pub get_user_id_from_request_authentication :
      RequestAuthentication → IpAddr → Result Text
  get_user_id_from_request_authentication (jwt token) ip = get_jwt_user_id token
  get_user_id_from_request_authentication (api_key key secret) ip =
      key_user_id ip (A.get_api_key key secret)
  get_user_id_from_request_authentication (public_key key) ip =
      key_user_id ip (A.get_signing_key key)

  unfoldable pub get_user_from_request_authentication : RequestAuthentication → IpAddr → Result User
  get_user_from_request_authentication req_auth ip = do
    user_id ← get_user_id_from_request_authentication req_auth ip
    user ← A.get_user user_id
    allowed ← check_cidr_whitelist A.nets ip (A.user_whitelist user)
    ok user
