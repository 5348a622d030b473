-- ===== src/Exchange/Request.antt =====
-- auth/server/src/api/token.rs, `validate_request`: the token type to issue.
use moghtech_lib.Base.{
  ℕ, ◌*◌, ◌||◌, not, Option, none, some, ◌++◌, is_some, is_empty, ltb, if◌then◌else◌,
}
use moghtech_lib.Base.Text.{Text, codes, text_eq, utf8_len}
use moghtech_lib.Error.{Result, ok}
use moghtech_lib.Exchange.Oauth.{oauth_error, invalid_request}

abbrev pub grant_type_token_exchange : Text
grant_type_token_exchange = codes "urn:ietf:params:oauth:grant-type:token-exchange"

abbrev pub token_type_id_token : Text
token_type_id_token = codes "urn:ietf:params:oauth:token-type:id_token"

abbrev pub token_type_jwt : Text
token_type_jwt = codes "urn:ietf:params:oauth:token-type:jwt"

abbrev pub token_type_access_token : Text
token_type_access_token = codes "urn:ietf:params:oauth:token-type:access_token"

abbrev pub max_subject_token_length : ℕ
max_subject_token_length = 16 * 1024

pub record TokenExchangeRequest : Type 0 where
  pub grant_type : Text
  pub subject_token : Text
  pub subject_token_type : Text
  pub requested_token_type : Option Text
  pub actor_token : Option Text
  pub actor_token_type : Option Text

unfoldable pub requested_type : Option Text → Result Text
requested_type none = ok token_type_access_token
requested_type (some requested) =
    if text_eq requested token_type_access_token
    then ok token_type_access_token
    else if text_eq requested token_type_jwt
    then ok token_type_jwt
    else invalid_request (
        codes "'requested_token_type' must be '"
        ++ token_type_access_token
        ++ codes "' or '"
        ++ token_type_jwt
        ++ codes "'")

unfoldable pub validate_request : TokenExchangeRequest → Result Text
validate_request request =
    if not (text_eq request.grant_type grant_type_token_exchange)
    then oauth_error "unsupported_grant_type"
        (codes "Only '" ++ grant_type_token_exchange ++ codes "' is supported")
    else if not (
        text_eq request.subject_token_type token_type_id_token
        || text_eq request.subject_token_type token_type_jwt)
    then invalid_request (
        codes "'subject_token_type' must be '"
        ++ token_type_id_token
        ++ codes "' or '"
        ++ token_type_jwt
        ++ codes "'. Only tokens signed by the provider can be exchanged.")
    else if is_some request.actor_token || is_some request.actor_token_type
    then invalid_request (codes "'actor_token' (delegation) is not supported")
    else if is_empty request.subject_token
    then invalid_request (codes "'subject_token' is empty")
    else if ltb max_subject_token_length (utf8_len request.subject_token)
    then invalid_request (codes "'subject_token' is too large")
    else requested_type request.requested_token_type
