-- ===== src/Exchange/OauthLaws.antt =====
-- auth/server/src/api/token.rs, `token_exchange_error` and `validate_request`: which answers there are.
use Prim.Native.String.{String}
use moghtech_lib.Base.{
  ℕ, ◌≡◌, ◌≢◌, ◌↔◌, ◌≤◌, ◌⊎◌, inl, inr, Bool, Option, none, some, [], arith, Option-cases,
}
use moghtech_lib.Base.Text.{Text, text_eq_iff, utf8_len}
use moghtech_lib.Error.{Error, ok, internal_server_error, bad_request}
use moghtech_lib.RateLimit.Wrapper.{failed_attempt}
use moghtech_lib.Exchange.Oauth.{
  token_exchange_error, downcast_oauth, downcast_attempt, oauth_description, annotated, oauth_error,
  invalid_request,
}
use moghtech_lib.Exchange.Request.{
  TokenExchangeRequest, validate_request, requested_type, grant_type_token_exchange,
  token_type_id_token, token_type_jwt, token_type_access_token, max_subject_token_length,
}

-- An answer is without a description exactly if it is `500 Internal Server Error`.
pub token_exchange_error-hides :
    (e : Error)
    → ((token_exchange_error e).1.error_description ≡ none)
      ↔ ((token_exchange_error e).0 ≡ internal_server_error)
unfolding token_exchange_error
token_exchange_error-hides e = elim (Option-cases (downcast_oauth e.notes)) [
  | inl k ↦ ground (arith, k)
  | inr ((code, description), k) ↦ ground (arith, k)
]

-- An OAuth error on which the rate limiter notes the attempts that are left keeps its code, and its
-- description gets the note.
pub token_exchange_error-failed_attempt :
    (full : Bool) (e : Error) (remaining : ℕ) (code : String) (description : Text)
    → downcast_oauth e.notes ≡ some (code, description)
    → token_exchange_error (failed_attempt full e remaining) ≡ (
      bad_request,
      record { error = code; error_description = some (annotated description remaining) },
    )
unfolding token_exchange_error failed_attempt downcast_oauth downcast_attempt oauth_description
token_exchange_error-failed_attempt full e remaining code description h = ground (arith, h)

-- The requests that are let through.
abbrev pub IsExchange : TokenExchangeRequest → Type 0
IsExchange r =
    (r.grant_type ≡ grant_type_token_exchange)
    × ((r.subject_token_type ≡ token_type_id_token) ⊎ (r.subject_token_type ≡ token_type_jwt))
    × (r.actor_token ≡ none)
    × (r.actor_token_type ≡ none)
    × (r.subject_token ≢ [])
    × (utf8_len r.subject_token ≤ max_subject_token_length)

-- What a request asks for: an access token, by name or by default, or a JWT.
abbrev pub AsksFor : Option Text → Text → Type 0
AsksFor none issued = issued ≡ token_type_access_token
AsksFor (some requested) issued =
    (issued ≡ requested) × ((requested ≡ token_type_access_token) ⊎ (requested ≡ token_type_jwt))

requested_type_iff :
    (requested : Option Text) (issued : Text)
    → (requested_type requested ≡ ok issued) ↔ AsksFor requested issued
unfolding requested_type oauth_error invalid_request
requested_type_iff none issued = ground arith
requested_type_iff (some requested) issued =
    let access_token = text_eq_iff requested token_type_access_token in
    let jwt = text_eq_iff requested token_type_jwt in ground (arith, access_token, jwt)

-- A request gets a token of a type exactly if it asks for an exchange, of an ID token or a JWT,
-- without delegation, the token is there and has 16 KiB at most, and the type is the one that is
-- requested, of an access token or a JWT, or that of an access token, if none is requested.
pub validate_request-IsExchange :
    (r : TokenExchangeRequest) (issued : Text)
    → (validate_request r ≡ ok issued) ↔ (IsExchange r × AsksFor r.requested_token_type issued)
unfolding validate_request oauth_error invalid_request
validate_request-IsExchange r issued =
    let grant = text_eq_iff r.grant_type grant_type_token_exchange in
    let id_token = text_eq_iff r.subject_token_type token_type_id_token in
    let jwt = text_eq_iff r.subject_token_type token_type_jwt in
    ground (arith, grant, id_token, jwt, requested_type_iff r.requested_token_type issued)
