-- ===== src/Exchange/Providers.antt =====
-- auth/server/src/api/token.rs, `exchange_candidates` and `verify_exchange`, with the providers of
-- auth/client/rs/src/config.rs. Loading a client and looking up a user are parameters.
use moghtech_lib.Base.{
  ℕ, ◌&&◌, not, Bool, true, false, Option, none, some, List, [], ◌∷◌, ◌++◌, retain, is_empty, ltb,
  if◌then◌else◌,
}
use moghtech_lib.Base.Text.{Text, codes, utf8_len}
use moghtech_lib.Error.{Error, Note, Result, ok, err, is_client_error, bad_request}
use moghtech_lib.Exchange.Oauth.{invalid_request, invalid_grant}
use moghtech_lib.Exchange.Request.{max_subject_token_length}
use moghtech_lib.Exchange.Token.{
  Decoding, unverified_issuer, authenticated_at, issuers_match, contains, or_else,
}

pub record OidcConfig : Type 0 where
  pub enabled : Bool
  pub provider : Text
  pub client_id : Text

-- Of Github and Google.
pub record NamedOauthConfig : Type 0 where
  pub enabled : Bool
  pub client_id : Text

pub data ExternalLoginProviderConfig : Type 0 where
  oidc : OidcConfig → ExternalLoginProviderConfig
  github : NamedOauthConfig → ExternalLoginProviderConfig
  google : NamedOauthConfig → ExternalLoginProviderConfig

pub record ExternalLoginProvider : Type 0 where
  pub id : Text
  pub name : Text
  -- The field `slug`.
  pub slug_given : Text
  pub registration_disabled : Bool
  -- `token_exchange.enabled`
  pub token_exchange_enabled : Bool
  pub config : ExternalLoginProviderConfig

unfoldable pub config_enabled : ExternalLoginProviderConfig → Bool
config_enabled (oidc c) = c.enabled && not (is_empty c.provider) && not (is_empty c.client_id)
config_enabled (github c) = c.enabled && not (is_empty c.client_id)
config_enabled (google c) = c.enabled && not (is_empty c.client_id)

unfoldable pub slug : ExternalLoginProvider → Text
slug provider = if is_empty provider.slug_given then provider.id else provider.slug_given

abbrev pub google_issuer : Text
google_issuer = codes "https://accounts.google.com"

unfoldable pub is_role : Option Text → List Text → Bool
is_role none names = true
is_role (some role) names = contains names role

unfoldable pub config_issuer_match : Text → ExternalLoginProviderConfig → Bool
config_issuer_match issuer (oidc c) = issuers_match c.provider issuer
config_issuer_match issuer (google c) = issuers_match google_issuer issuer
config_issuer_match issuer (github c) = false

unfoldable pub is_candidate : Text → Option Text → ExternalLoginProvider → Bool
is_candidate issuer role provider =
    config_enabled provider.config
    && provider.token_exchange_enabled
    && is_role role (provider.id ∷ slug provider ∷ provider.name ∷ [])
    && config_issuer_match issuer provider.config

unfoldable pub exchange_candidates :
    List ExternalLoginProvider → Text → Option Text → List ExternalLoginProvider
exchange_candidates providers issuer role = retain (is_candidate issuer role) providers

pub record ExternalLoginInfo : Type 0 where
  pub provider_id : Text
  pub external_id : Text

-- `AuthUserImpl`: what the exchange asks of a user.
pub record AuthUser : Type 0 where
  pub id : Text
  pub username : Text
  pub is_workload : Bool
  pub is_enabled : Bool
  pub is_admin : Bool
  pub cidr_whitelist : List Text
  pub external_skip_2fa : Bool
  pub has_passkey : Bool
  pub has_totp_secret : Bool

pub record VerifiedExchange : Type 0 where
  pub provider : ExternalLoginProvider
  pub user : AuthUser
  pub info : ExternalLoginInfo
  pub authenticated_at : ℕ

-- A loaded client verifies tokens.
abbrev pub Client : Type 0
Client = ExternalLoginProvider → Text → Result ExternalLoginInfo

-- The furthest that the providers got.
pub record Rejections : Type 0 where
  pub unavailable : Option Error
  pub rejected : Option Error
  pub unknown_user : Option Error

abbrev pub nothing_tried : Rejections
nothing_tried = record { unavailable = none; rejected = none; unknown_user = none }

-- `Option::get_or_insert`
abbrev pub get_or_insert : Option Error → Error → Option Error
get_or_insert none e = some e
get_or_insert (some first) e = some first

abbrev pub error_of {ℓ} : {A : Type ℓ} → Result A → Error → Error
error_of (err e) other = e
error_of (ok a) other = other

-- The services: `{:#}` of an error, the app's hooks and the time in seconds.
pub record UserServices : Type 0 where
  pub decoding : Decoding
  pub display_chain : List Note → Text
  pub now : ℕ
  pub list_external_providers : Result (List ExternalLoginProvider)
  pub load_client : ExternalLoginProvider → Result Client
  pub find_user_with_external_login : Text → Text → Result (Option AuthUser)

unfoldable pub unknown_user_error : ExternalLoginProvider → Error
unknown_user_error provider = record {
  status = bad_request;
  notes =
      Note.oauth_error "invalid_grant" (
        codes "No user is linked to this identity. Log in with '"
        ++ provider.name
        ++ codes "' once before exchanging tokens.")
      ∷ [];
}

module _ (S : UserServices) where
  unfoldable pub report : Rejections → Result (Option VerifiedExchange)
  report r = elim r.unknown_user [
    | some e ↦ err e
    | none ↦ elim (or_else r.unavailable r.rejected) [
      | some e ↦ if is_client_error e.status then invalid_grant (S.display_chain e.notes) else err e
      | none ↦ invalid_grant (codes "Token was rejected")
    ]
  ]

  unfoldable pub verify_candidates :
      Text → Rejections → List ExternalLoginProvider → Result (Option VerifiedExchange)
  unfolding unknown_user_error
  verify_candidates token r [] = report r
  verify_candidates token r (provider ∷ providers) = elim (S.load_client provider) [
    | err e ↦
        verify_candidates token (record r { unavailable = get_or_insert r.unavailable e }) providers
    | ok client ↦ elim (client provider token) [
      | err e ↦ verify_candidates token (record r { rejected = some e }) providers
      | ok info ↦ elim (S.find_user_with_external_login info.provider_id info.external_id) [
        | err e ↦ err e
        | ok none ↦
            let e = unknown_user_error provider in
            verify_candidates token (record r { unknown_user = get_or_insert r.unknown_user e })
              providers
        | ok (some user) ↦ ok (
            some (record {
              provider = provider;
              user = user;
              info = info;
              authenticated_at = elim (authenticated_at S.decoding S.now token) [
                | none ↦ 0
                | some at ↦ at
              ];
            }))
      ]
    ]
  ]

  unfoldable pub verify_exchange : Text → Option Text → Result (Option VerifiedExchange)
  verify_exchange token role =
      if is_empty token
      then invalid_request (codes "The token is empty")
      else if ltb max_subject_token_length (utf8_len token)
      then invalid_request (codes "The token is too large")
      else elim (unverified_issuer S.decoding token) [
        | none ↦ invalid_grant (codes "The token is not a JWT with an issuer")
        | some issuer ↦ elim S.list_external_providers [
          | err e ↦ err e
          | ok providers ↦
              let candidates = exchange_candidates providers issuer role in
              if is_empty candidates
              then ok none
              else verify_candidates token nothing_tried candidates
        ]
      ]
