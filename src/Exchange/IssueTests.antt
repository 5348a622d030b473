-- ===== src/Exchange/IssueTests.antt =====
-- auth/server/src/api/token.rs: the exchange of the token of a CI job, and of the token of a user.
use moghtech_lib.Base.{◌≡◌, refl, true, false, none, some, [], ◌∷◌, if◌then◌else◌}
use moghtech_lib.Base.Text.{codes, text_eq, split, utf8_len, len_utf8, trim_end_matches, trim_first}
use moghtech_lib.Error.{ok, fail, internal_server_error}
use moghtech_lib.Config.Json.{get}
use moghtech_lib.Workload.Glob.{
  glob_match, match_split, match_parts, find_after, ends_with, strip_prefix,
}
use moghtech_lib.Workload.Claims.{
  lookup, join, lookup_claim, value_matches, found_matches, claim_matches, rule_matches, match_rule,
}
use moghtech_lib.Workload.Tests.{sample_claims, sample_rule, disabled_rule}
use moghtech_lib.Exchange.Token.{
  issuers_match, unverified_payload, unverified_issuer, authenticated_at, authenticated_at_from,
}
use moghtech_lib.Exchange.Providers.{
  oidc, ExternalLoginProvider, config_enabled, slug, is_role, config_issuer_match, is_candidate,
  exchange_candidates, ExternalLoginInfo, AuthUser, VerifiedExchange, UserServices,
  verify_candidates, verify_exchange,
}
use moghtech_lib.Exchange.Workloads.{
  TrustedIssuer, discovery, VerifiedWorkload, WorkloadServices, is_ascii_alphanumeric,
  validate_provider_id, has_unique_id, check_rule_id, is_rule, is_issuer_candidate, rules_of,
  verify_issuers, verify_workload,
}
use moghtech_lib.Exchange.Accepted.{IsAccepted, verify_exchange-First}
use moghtech_lib.Exchange.Matched.{IsMatched, verify_workload-FirstMatch}
use moghtech_lib.Exchange.Tests.{sample_decoding}

abbrev pub ci_issuer : TrustedIssuer
ci_issuer = record {
  id = codes "t1";
  name = codes "CI";
  enabled = true;
  issuer = codes "https://ci/";
  keys = discovery;
  audiences = codes "app" ∷ [];
  max_token_age_secs = 300;
  rules = disabled_rule ∷ sample_rule ∷ [];
}

-- Another cluster of the same issuer, with other keys.
abbrev other_issuer : TrustedIssuer
other_issuer = record ci_issuer { id = codes "t0" }

abbrev pub workload_services : WorkloadServices
workload_services = record {
  decoding = sample_decoding;
  display_chain = λ notes. [];
  list_trusted_issuers = ok (other_issuer ∷ ci_issuer ∷ []);
  load_keys = λ trusted. ok (λ token audiences age.
      if text_eq trusted.id (codes "t1")
      then ok sample_claims
      else fail internal_server_error "Token was rejected");
}

abbrev pub verified_job : VerifiedWorkload
verified_job = record { issuer = ci_issuer; rule = sample_rule; claims = sample_claims }

job_verified : verify_workload workload_services (codes "h.p.s") none ≡ ok (some verified_job)
unfolding verify_workload unverified_issuer unverified_payload is_issuer_candidate issuers_match
    is_rule is_role verify_issuers rules_of match_rule rule_matches claim_matches found_matches
    value_matches lookup_claim lookup split join get glob_match match_split match_parts find_after
    ends_with strip_prefix check_rule_id has_unique_id validate_provider_id is_ascii_alphanumeric
    utf8_len len_utf8 trim_end_matches trim_first
job_verified = refl

verify_workload-FirstMatch_example : IsMatched workload_services (codes "h.p.s") none verified_job
verify_workload-FirstMatch_example =
    verify_workload-FirstMatch workload_services (codes "h.p.s") none verified_job job_verified

abbrev pub sample_oidc : ExternalLoginProvider
sample_oidc = record {
  id = codes "p1";
  name = codes "SSO";
  slug_given = codes "sso";
  registration_disabled = false;
  token_exchange_enabled = true;
  config = oidc (record { enabled = true; provider = codes "https://ci"; client_id = codes "c" });
}

abbrev pub sample_user : AuthUser
sample_user = record {
  id = codes "u1";
  username = codes "ops";
  is_workload = false;
  is_enabled = true;
  is_admin = false;
  cidr_whitelist = [];
  external_skip_2fa = true;
  has_passkey = true;
  has_totp_secret = false;
}

abbrev sample_info : ExternalLoginInfo
sample_info = record { provider_id = codes "p1"; external_id = codes "x" }

abbrev pub user_services : UserServices
user_services = record {
  decoding = sample_decoding;
  display_chain = λ notes. [];
  now = 1200;
  list_external_providers = ok (record sample_oidc { id = codes "p0" } ∷ sample_oidc ∷ []);
  load_client =
      λ provider. ok (λ p token. ok (record { provider_id = p.id; external_id = codes "x" }));
  find_user_with_external_login =
      λ provider external. if text_eq provider (codes "p1") then ok (some sample_user) else ok none;
}

abbrev pub verified_user : VerifiedExchange
verified_user = record {
  provider = sample_oidc;
  user = sample_user;
  info = sample_info;
  authenticated_at = 0;
}

pub user_verified :
    verify_exchange user_services (codes "h.p.s") (some (codes "SSO")) ≡ ok (some verified_user)
unfolding verify_exchange exchange_candidates is_candidate config_enabled slug is_role
    config_issuer_match issuers_match verify_candidates unverified_issuer unverified_payload
    authenticated_at authenticated_at_from get split utf8_len len_utf8 trim_end_matches trim_first
user_verified = refl

verify_exchange-First_example :
    IsAccepted user_services (codes "h.p.s") (some (codes "SSO")) verified_user
verify_exchange-First_example =
    verify_exchange-First user_services (codes "h.p.s") (some (codes "SSO")) verified_user
      user_verified
