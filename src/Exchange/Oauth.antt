-- ===== src/Exchange/Oauth.antt =====
-- auth/server/src/api/token.rs: the errors of the `/token` endpoint (RFC 6749 section 5.2).
use Prim.Native.String.{String}
use moghtech_lib.Base.{ℕ, ◌||◌, Option, none, some, List, [], ◌∷◌, ◌==◌, if◌then◌else◌}
use moghtech_lib.Base.Text.{Text}
use moghtech_lib.Error.{
  Error, Note, Result, err, bad_request, too_many_requests, service_unavailable,
  internal_server_error, is_client_error,
}

unfoldable pub oauth_error {ℓ} : {A : Type ℓ} → String → Text → Result A
oauth_error code description =
    err (record { status = bad_request; notes = Note.oauth_error code description ∷ [] })

unfoldable pub invalid_request {ℓ} : {A : Type ℓ} → Text → Result A
unfolding oauth_error
invalid_request description = oauth_error "invalid_request" description

unfoldable pub invalid_grant {ℓ} : {A : Type ℓ} → Text → Result A
unfolding oauth_error
invalid_grant description = oauth_error "invalid_grant" description

-- What an answer says of the error: an `OauthError`'s description, the same with the attempts that
-- are left, or the error's `to_string`.
pub data Description : Type 0 where
  described : Text → Description
  annotated : Text → ℕ → Description
  displayed : List Note → Description

pub record TokenExchangeError : Type 0 where
  pub error : String
  pub error_description : Option Description

-- `downcast_ref::<OauthError>()`: the outermost one on the chain.
unfoldable pub downcast_oauth : List Note → Option (String × Text)
downcast_oauth [] = none
downcast_oauth (Note.oauth_error code description ∷ notes) = some (code, description)
downcast_oauth (_ ∷ notes) = downcast_oauth notes

unfoldable pub downcast_attempt : List Note → Option ℕ
downcast_attempt [] = none
downcast_attempt (Note.failed_attempt full remaining ∷ notes) = some remaining
downcast_attempt (_ ∷ notes) = downcast_attempt notes

unfoldable pub oauth_description : List Note → Text → Description
oauth_description notes description = elim (downcast_attempt notes) [
  | some remaining ↦ annotated description remaining
  | none ↦ described description
]

unfoldable pub token_exchange_error : Error → ℕ × TokenExchangeError
token_exchange_error e = elim (downcast_oauth e.notes) [
  | some (code, description) ↦ (
    bad_request,
    record { error = code; error_description = some (oauth_description e.notes description) },
  )
  | none ↦
      if e.status == too_many_requests || e.status == service_unavailable
      then (
        e.status,
        record { error = "temporarily_unavailable"; error_description = some (displayed e.notes) },
      )
      else if is_client_error e.status
      then (
        bad_request,
        record { error = "invalid_grant"; error_description = some (displayed e.notes) },
      )
      else (internal_server_error, record { error = "server_error"; error_description = none })
]
