-- ===== src/Exchange/WholeTests.antt =====
-- auth/server/src/api/token.rs: a whole exchange, of the token of a user.
use moghtech_lib.Base.{◌≡◌, refl, ◌⊎◌, ◌∙◌, ap, some, [], arith}
use moghtech_lib.Base.Text.{Text, codes, utf8_len, len_utf8}
use moghtech_lib.Net.{v4}
use moghtech_lib.Error.{ok}
use moghtech_lib.RequestIp.Cidr.{check_cidr_whitelist, parse}
use moghtech_lib.Jwt.Provider.{encode, encode_sub_with_auth_time}
use moghtech_lib.Exchange.Request.{token_type_access_token, validate_request, requested_type}
use moghtech_lib.Exchange.Complete.{
  Issuers, Run, ExchangedToken, response_of, provider_login, external_login_requires_two_factor,
  complete_exchange, sync_and_log_in, log_in_user, login_of, issue, exchange,
}
use moghtech_lib.Exchange.Tests.{sample_request}
use moghtech_lib.Exchange.IssueTests.{
  workload_services, user_services, verified_user, user_verified,
}
use moghtech_lib.Exchange.OrderTests.{app}
use moghtech_lib.Exchange.Whole.{IsUserToken, IsWorkloadToken, exchange-IsToken}
use moghtech_lib.Exchange.OauthLaws.{IsExchange, AsksFor}

abbrev access_token : ExchangedToken
access_token = record {
  response = response_of (codes "jwt") token_type_access_token 3600500;
  user_id = codes "u1";
  login = provider_login (codes "p1") (codes "SSO");
}

abbrev no_issuers : Issuers
no_issuers calls = ok []

abbrev sample_run : Run
sample_run =
    exchange app user_services workload_services (v4 1) sample_request no_issuers
      (some (codes "SSO"))

valid : validate_request sample_request ≡ ok token_type_access_token
unfolding validate_request requested_type utf8_len len_utf8
valid = refl

sample_run-complete_exchange :
    sample_run ≡ complete_exchange app (v4 1) token_type_access_token verified_user
unfolding exchange
sample_run-complete_exchange = ground (arith, valid, user_verified)

issued_access_token :
    (complete_exchange app (v4 1) token_type_access_token verified_user).1 ≡ ok access_token
unfolding complete_exchange sync_and_log_in log_in_user login_of issue
    external_login_requires_two_factor encode_sub_with_auth_time encode check_cidr_whitelist parse
issued_access_token = refl

exchanged : sample_run.1 ≡ ok access_token
exchanged = ap (λ (run : Run). run.1) sample_run-complete_exchange ∙ issued_access_token

exchange-IsToken_example :
    (issued : Text) × IsExchange sample_request
    × AsksFor sample_request.requested_token_type issued
    × (IsUserToken app user_services workload_services
          (v4 1)
          no_issuers
          (some (codes "SSO"))
          issued
          (codes "h.p.s")
          sample_run
          access_token
        ⊎ IsWorkloadToken app user_services workload_services
            (v4 1)
            no_issuers
            (some (codes "SSO"))
            issued
            (codes "h.p.s")
            sample_run
            access_token)
exchange-IsToken_example =
    exchange-IsToken app user_services workload_services (v4 1) no_issuers (some (codes "SSO"))
      sample_request access_token exchanged
