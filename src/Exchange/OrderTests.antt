-- ===== src/Exchange/OrderTests.antt =====
-- auth/server/src/api/token.rs: the tokens that a CI job and a user are issued.
use moghtech_lib.Base.{ℕ, ◌≡◌, refl, ◌⊎◌, true, false, none, [], ◌∷◌}
use moghtech_lib.Base.Text.{codes, split, utf8_len, len_utf8}
use moghtech_lib.Net.{v4}
use moghtech_lib.Error.{ok}
use moghtech_lib.Config.Json.{get}
use moghtech_lib.RequestIp.Cidr.{Nets, check_cidr_whitelist, parse}
use moghtech_lib.Jwt.Provider.{encode, encode_sub_with_ttl, encode_sub_with_auth_time}
use moghtech_lib.Jwt.Tests.{sample_provider}
use moghtech_lib.Workload.Glob.{
  glob_match, match_split, match_parts, find_after, ends_with, strip_prefix,
}
use moghtech_lib.Workload.Claims.{
  WorkloadRule, lookup, join, lookup_claim, value_matches, found_matches, claim_matches,
  rule_matches, match_rule,
}
use moghtech_lib.Exchange.Providers.{AuthUser}
use moghtech_lib.Exchange.Workloads.{
  TrustedIssuer, keys_eq, texts_eq, is_ascii_alphanumeric, validate_provider_id, has_unique_id,
  check_rule_id, unchanged, current_rule,
}
use moghtech_lib.Exchange.Complete.{
  App, Issuers, ExchangedToken, external_login_requires_two_factor, workload_ttl_ms, login_of,
  issue, log_in_workload, log_in_user, finish_workload, check_workload_user, locked_workload,
  complete_workload, sync_and_log_in, complete_exchange, response_of, provider_login,
  workload_login,
}
use moghtech_lib.Exchange.Order.{IsIssued, complete_workload-IsIssued}
use moghtech_lib.Exchange.LetIn.{IsRefused, IsLetIn, complete_exchange_cases}
use moghtech_lib.Exchange.IssueTests.{ci_issuer, verified_job, verified_user, sample_user}

abbrev letters : Nets
letters = record {
  IpNet = ℕ;
  parse_net = λ s. none;
  parse_ip = λ s. none;
  parse_socket = λ s. none;
  contains = λ net ip. false;
  host = λ ip. 0;
  as_v6 = λ net. none;
  v4_net = λ b len. none;
}

abbrev pub app : App
app = record {
  nets = letters;
  jwt_provider = sample_provider;
  signing = record { sign = λ claims. ok (codes "jwt"); decode = λ now iss aud leeway token. none };
  now = 1200;
  answer_get_or_create = λ identity. ok (codes "w1");
  get_user = λ id. ok (record sample_user { id = id; is_workload = true });
  answer_sync = λ id info. ok tt;
  answer_record = λ login. ok tt;
}

-- An issuer that is there only under the lock.
abbrev pub sample_issuers : Issuers
sample_issuers [] = ok []
sample_issuers (call ∷ calls) = ok (ci_issuer ∷ [])

abbrev job_token : ExchangedToken
job_token = record {
  response = response_of (codes "jwt") (codes "t") 900000;
  user_id = codes "w1";
  login = workload_login (codes "t1") (codes "CI") (codes "ci") (codes "CI");
}

issued_job : (complete_workload app (v4 1) (codes "t") sample_issuers verified_job).1 ≡ ok job_token
unfolding complete_workload locked_workload finish_workload log_in_workload login_of issue
    check_workload_user external_login_requires_two_factor workload_ttl_ms encode_sub_with_ttl
    encode current_rule unchanged keys_eq texts_eq match_rule rule_matches claim_matches
    found_matches value_matches lookup_claim lookup split join get glob_match match_split
    match_parts find_after ends_with strip_prefix check_rule_id has_unique_id validate_provider_id
    is_ascii_alphanumeric utf8_len len_utf8 check_cidr_whitelist parse
issued_job = refl

complete_workload-IsIssued_example :
    (issuer : TrustedIssuer) × (rule : WorkloadRule) × (user : AuthUser) × IsIssued app
      (v4 1)
      (codes "t")
      sample_issuers
      verified_job
      (complete_workload app (v4 1) (codes "t") sample_issuers verified_job).0
      job_token
      issuer
      rule
      user
complete_workload-IsIssued_example =
    complete_workload-IsIssued app (v4 1) (codes "t") sample_issuers verified_job job_token
      issued_job

abbrev user_token : ExchangedToken
user_token = record {
  response = response_of (codes "jwt") (codes "t") 3600500;
  user_id = codes "u1";
  login = provider_login (codes "p1") (codes "SSO");
}

issued_user : (complete_exchange app (v4 1) (codes "t") verified_user).1 ≡ ok user_token
unfolding complete_exchange sync_and_log_in log_in_user login_of issue
    external_login_requires_two_factor encode_sub_with_auth_time encode check_cidr_whitelist parse
issued_user = refl

complete_exchange_cases_example :
    IsRefused app
      (v4 1)
      (codes "t")
      verified_user
      (complete_exchange app (v4 1) (codes "t") verified_user)
    ⊎ IsLetIn app
        (v4 1)
        (codes "t")
        verified_user
        (complete_exchange app (v4 1) (codes "t") verified_user)
complete_exchange_cases_example = complete_exchange_cases app (v4 1) (codes "t") verified_user
