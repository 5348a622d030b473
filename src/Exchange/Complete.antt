-- ===== src/Exchange/Complete.antt =====
-- auth/server/src/api/token.rs, `complete_workload`, `complete_exchange` and `exchange`. The calls
-- that have an effect (the app's hooks, and the lock of a rule's user), and the read of the trusted
-- issuers under that lock, are listed in their order; what they answer is a parameter. What only the log says of a login is left out.
use Prim.Native.String.{String}
use moghtech_lib.Base.{
  ℕ, ◌-◌, ◌*◌, ◌/◌, ◌^◌, ◌&&◌, ◌||◌, not, min, Bool, Option, none, some, List, [], ◌∷◌, ◌++◌, ◌==◌,
  if◌then◌else◌,
}
use moghtech_lib.Base.Text.{Text, codes}
use moghtech_lib.Net.{IpAddr}
use moghtech_lib.Error.{
  Error, Note, Result, ok, err, fail, ◌>>=◌, bad_request, internal_server_error,
}
use moghtech_lib.Config.Json.{Fields}
use moghtech_lib.RequestIp.Cidr.{Nets, check_cidr_whitelist}
use moghtech_lib.Jwt.Provider.{
  JwtProvider, Signing, expires_at, encode_sub_with_ttl, encode_sub_with_auth_time,
}
use moghtech_lib.Workload.Claims.{WorkloadRule}
use moghtech_lib.Exchange.Oauth.{invalid_grant}
use moghtech_lib.Exchange.Request.{TokenExchangeRequest, validate_request}
use moghtech_lib.Exchange.Token.{or_else}
use moghtech_lib.Exchange.Providers.{
  AuthUser, ExternalLoginInfo, VerifiedExchange, UserServices, verify_exchange,
}
use moghtech_lib.Exchange.Workloads.{
  TrustedIssuer, VerifiedWorkload, WorkloadServices, verify_workload, current_rule,
}

pub record WorkloadIdentity : Type 0 where
  pub issuer_id : Text
  pub rule_id : Text
  pub rule_name : Text
  pub groups : List Text
  pub admin : Bool
  pub claims : Fields

pub data ExchangedLogin : Type 0 where
  provider_login : (provider_id provider_name : Text) → ExchangedLogin
  workload_login : (issuer_id issuer_name rule_id rule_name : Text) → ExchangedLogin

-- A `Login` that no second factor is part of.
pub record Login : Type 0 where
  pub user_id : Text
  pub username : Text
  pub ip : IpAddr
  pub kind : ExchangedLogin
  pub token_expires : ℕ

pub record TokenExchangeResponse : Type 0 where
  pub access_token : Text
  pub issued_token_type : Text
  pub token_type : String
  pub expires_in : ℕ

pub record ExchangedToken : Type 0 where
  pub response : TokenExchangeResponse
  pub user_id : Text
  pub login : ExchangedLogin

pub data Call : Type 0 where
  lock_workload_user : (issuer_id rule_id : Text) → Call
  unlock_workload_user : Call
  list_trusted_issuers : Call
  get_or_create_workload_user : WorkloadIdentity → Call
  sync_external_user : Text → ExternalLoginInfo → Call
  record_login : Login → Call

abbrev pub Run : Type 0
Run = List Call × Result ExchangedToken

-- What the app lists as the trusted issuers, once these calls are done: it may change meanwhile.
abbrev pub Issuers : Type 0
Issuers = List Call → Result (List TrustedIssuer)

abbrev pub called : Call → Run → Run
called c (calls, result) = (c ∷ calls, result)

-- The answers of the app, and the time in seconds.
pub record App : Type 1 where
  pub nets : Nets
  pub jwt_provider : JwtProvider
  pub signing : Signing
  pub now : ℕ
  pub answer_get_or_create : WorkloadIdentity → Result Text
  pub get_user : Text → Result AuthUser
  pub answer_sync : Text → ExternalLoginInfo → Result (Unit {0})
  pub answer_record : Login → Result (Unit {0})

unfoldable pub external_login_requires_two_factor : AuthUser → Bool
external_login_requires_two_factor user =
    not user.external_skip_2fa && (user.has_passkey || user.has_totp_secret)

unfoldable pub workload_ttl_ms : (token_ttl_secs default_ttl_ms : ℕ) → ℕ
workload_ttl_ms token_ttl_secs default_ttl_ms =
    if token_ttl_secs == 0 then default_ttl_ms else min (token_ttl_secs * 1000) default_ttl_ms

abbrev pub response_of : Text → Text → ℕ → TokenExchangeResponse
response_of jwt issued_token_type ttl_ms = record {
  access_token = jwt;
  issued_token_type = issued_token_type;
  token_type = "Bearer";
  expires_in = min (ttl_ms / 1000) (2 ^ 64 - 1);
}

module _ (A : App) (ip : IpAddr) (issued_token_type : Text) where
  open A use {nets, jwt_provider, signing, now}

  -- What must hold of the user of a rule.
  unfoldable pub check_workload_user : WorkloadRule → AuthUser → Result (Unit {0})
  check_workload_user rule user =
      if not user.is_workload
      then fail internal_server_error
          "The user returned by 'AuthImpl::get_or_create_workload_user' must report 'AuthUserImpl::is_workload'"
      else if not user.is_enabled
      then invalid_grant (codes "The user of rule '" ++ rule.name ++ codes "' is disabled")
      else if user.is_admin && not rule.admin
      then invalid_grant (
          codes "The user of rule '"
          ++ rule.name
          ++ codes "' is an admin, which the rule doesn't allow")
      else do
        allowed ← check_cidr_whitelist nets ip user.cidr_whitelist
        if external_login_requires_two_factor user
            then invalid_grant (
                codes
                  "The user of the workload requires a second factor, which a workload can't provide")
            else ok tt

  -- `Login::of`
  unfoldable pub login_of : AuthUser → ExchangedLogin → ℕ → Login
  login_of user kind token_expires = record {
    user_id = user.id;
    username = user.username;
    ip = ip;
    kind = kind;
    token_expires = token_expires;
  }

  -- Records the login, then issues the token.
  unfoldable pub issue : Login → Result Text → (ttl_ms : ℕ) → Run
  issue login encoded ttl_ms = (
    record_login login ∷ [],
    do
      done ← A.answer_record login
      jwt ← encoded
      ok (record {
        response = response_of jwt issued_token_type ttl_ms;
        user_id = login.user_id;
        login = login.kind;
      }),
  )

  unfoldable pub log_in_workload : TrustedIssuer → WorkloadRule → AuthUser → Run
  log_in_workload issuer rule user =
      let kind = workload_login issuer.id issuer.name rule.id rule.name in
      let ttl_ms = workload_ttl_ms rule.token_ttl_secs jwt_provider.ttl_ms in
      issue (login_of user kind (expires_at jwt_provider now ttl_ms))
        (encode_sub_with_ttl signing jwt_provider now user.id ttl_ms) ttl_ms

  unfoldable pub finish_workload : TrustedIssuer → WorkloadRule → Text → Run
  finish_workload issuer rule user_id = elim (A.get_user user_id) [
    | err e ↦ ([], err e)
    | ok user ↦ elim (check_workload_user rule user) [
      | err e ↦ ([], err e)
      | ok checked ↦ log_in_workload issuer rule user
    ]
  ]

  abbrev pub identity_of : TrustedIssuer → WorkloadRule → Fields → WorkloadIdentity
  identity_of issuer rule claims = record {
    issuer_id = issuer.id;
    rule_id = rule.id;
    rule_name = rule.name;
    groups = rule.groups;
    admin = rule.admin;
    claims = claims;
  }

  -- Under the lock, and from there on without it. The trusted issuers are read as they are once the
  -- given calls are done.
  unfoldable pub locked_workload : Issuers → List Call → VerifiedWorkload → Run
  locked_workload current calls verified =
      called list_trusted_issuers (elim (current_rule (current calls) verified) [
        | err e ↦ (unlock_workload_user ∷ [], err e)
        | ok (issuer, rule) ↦
            let identity = identity_of issuer rule verified.claims in
            called (get_or_create_workload_user identity) (
              called unlock_workload_user (elim (A.answer_get_or_create identity) [
                | err e ↦ ([], err e)
                | ok user_id ↦ finish_workload issuer rule user_id
              ]))
      ])

  unfoldable pub complete_workload : Issuers → VerifiedWorkload → Run
  complete_workload current verified =
      let lock = lock_workload_user verified.issuer.id verified.rule.id in
      called lock (locked_workload current (lock ∷ []) verified)

  unfoldable pub log_in_user : VerifiedExchange → Run
  log_in_user verified =
      let user = verified.user in
      let kind = provider_login verified.provider.id verified.provider.name in
      issue (login_of user kind (expires_at jwt_provider now jwt_provider.ttl_ms))
        (encode_sub_with_auth_time signing jwt_provider now user.id verified.authenticated_at)
        jwt_provider.ttl_ms

  -- The user is synced, then the login is recorded, then the token issued.
  unfoldable pub sync_and_log_in : VerifiedExchange → Run
  sync_and_log_in verified =
      let rest = log_in_user verified in
      called (sync_external_user verified.user.id verified.info)
        (elim (A.answer_sync verified.user.id verified.info) [
          | err e ↦ ([], err e)
          | ok synced ↦ rest
        ])

  unfoldable pub complete_exchange : VerifiedExchange → Run
  complete_exchange verified = elim (check_cidr_whitelist nets ip verified.user.cidr_whitelist) [
    | err e ↦ ([], err e)
    | ok allowed ↦
        if external_login_requires_two_factor verified.user
        then (
          [],
          invalid_grant (
              codes
                "The user requires a second factor for external logins, which this endpoint can't provide. Use 'ExchangeExternalForJwt' of the login api instead."),
        )
        else sync_and_log_in verified
  ]

unfoldable pub nothing_accepts : Option Text → Error
nothing_accepts (some role) = record {
  status = bad_request;
  notes =
      Note.oauth_error "invalid_grant" (
        codes "No login provider or workload rule '"
        ++ role
        ++ codes "' accepts tokens of this issuer")
      ∷ Note.role_not_found role
      ∷ [];
}
nothing_accepts none = record {
  status = bad_request;
  notes =
      Note.oauth_error "invalid_grant"
        (codes "No login provider or trusted issuer accepts tokens of this issuer")
      ∷ [];
}

abbrev pub rejection {ℓ} : {A : Type ℓ} → Result A → Option Error
rejection (err e) = some e
rejection (ok a) = none

abbrev pub unwrap_or : Option Error → Error → Error
unwrap_or none e = e
unwrap_or (some e) other = e

module _ (A : App) (U : UserServices) (W : WorkloadServices) where
  unfoldable pub exchange_workload :
      IpAddr → Text → Text → Issuers → Option Text → Option Error → Run
  exchange_workload ip issued_token_type token current role user_rejection =
      let refused : Option Error → Run =
        λ e. ([], err (unwrap_or (or_else user_rejection e) (nothing_accepts role))) in
      elim (verify_workload W token role) [
        | ok (some verified) ↦ complete_workload A ip issued_token_type current verified
        | ok none ↦ refused none
        | err e ↦ refused (some e)
      ]

  unfoldable pub exchange : IpAddr → TokenExchangeRequest → Issuers → Option Text → Run
  exchange ip request current role = elim (validate_request request) [
    | err e ↦ ([], err e)
    | ok issued_token_type ↦
        let token = request.subject_token in
        elim (verify_exchange U token role) [
          | ok (some verified) ↦ complete_exchange A ip issued_token_type verified
          | ok none ↦ exchange_workload ip issued_token_type token current role none
          | err e ↦ exchange_workload ip issued_token_type token current role (some e)
        ]
  ]
