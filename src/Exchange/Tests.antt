-- ===== src/Exchange/Tests.antt =====
-- auth/server/src/api/token.rs: the theorems at the token of a CI job and at the token of a user.
use moghtech_lib.Base.{◌≡◌, ◌≤◌, ◌↔◌, refl, true, ◌||◌, none, some, [], ◌∷◌, if◌then◌else◌, arith}
use moghtech_lib.Base.Text.{codes, text_eq, split, utf8_len, len_utf8, trim_end_matches, trim_first}
use moghtech_lib.Base.Int.{pos, gtb, saturating_sub, saturating_add, saturate, ◌-ℤ◌, ◌+ℤ◌}
use moghtech_lib.Error.{Error, ok, internal_server_error}
use moghtech_lib.Config.Json.{Value, Fields, get}
use moghtech_lib.Workload.Tests.{sample_claims}
use moghtech_lib.Exchange.Oauth.{token_exchange_error}
use moghtech_lib.Exchange.OauthLaws.{
  token_exchange_error-hides, IsExchange, AsksFor, validate_request-IsExchange,
}
use moghtech_lib.Exchange.Request.{
  TokenExchangeRequest, validate_request, grant_type_token_exchange, token_type_id_token,
  token_type_access_token,
}
use moghtech_lib.Exchange.Token.{
  Decoding, TokenVerificationKeys, unverified_payload, is_security_event_token, check_not_before,
  timestamp_i64, check_token_age, check_verified, verify_audiences, verify, contains,
}
use moghtech_lib.Exchange.TokenLaws.{IsClaimed, IsPassed, verify-IsVerified}

abbrev refused : Error
refused = record { status = 429; notes = [] }

token_exchange_error-hides_example :
    ((token_exchange_error refused).1.error_description ≡ none)
    ↔ ((token_exchange_error refused).0 ≡ internal_server_error)
token_exchange_error-hides_example = token_exchange_error-hides refused

abbrev pub sample_request : TokenExchangeRequest
sample_request = record {
  grant_type = grant_type_token_exchange;
  subject_token = codes "h.p.s";
  subject_token_type = token_type_id_token;
  requested_token_type = none;
  actor_token = none;
  actor_token_type = none;
}

validate_request-IsExchange_example :
    (validate_request sample_request ≡ ok token_type_access_token)
    ↔ (IsExchange sample_request × AsksFor none token_type_access_token)
validate_request-IsExchange_example =
    validate_request-IsExchange sample_request token_type_access_token

abbrev pub sample_payload : Fields
sample_payload = Fields.field (codes "iss") (Value.string (codes "https://ci")) sample_claims

abbrev pub sample_decoding : Decoding
sample_decoding = record {
  decode_payload = λ payload. if text_eq payload (codes "p") then some sample_payload else none;
  as_u64 = λ n. none;
  as_i64 = λ n. none;
  as_f64_i64 = λ n. none;
  as_f64_u64 = λ n. none;
}

abbrev sample_keys : TokenVerificationKeys
sample_keys = record {
  from_str = λ token. true;
  claims = λ token audience trusted.
      if text_eq audience (codes "app") then some (record { issue_time = pos 1000 }) else none;
}

verified :
    verify sample_decoding sample_keys
      (pos 1200)
      (codes "h.p.s")
      (codes "other" ∷ codes "app" ∷ [])
      []
      300
    ≡ ok (record { issue_time = pos 1000 })
unfolding verify verify_audiences check_verified is_security_event_token unverified_payload
    check_not_before timestamp_i64 check_token_age gtb saturating_sub saturating_add saturate ◌-ℤ◌
    ◌+ℤ◌ get split utf8_len len_utf8 trim_end_matches trim_first
verified = refl

verify-IsVerified_example :
    (utf8_len (codes "h.p.s") ≤ 16384)
    × (sample_keys.from_str (codes "h.p.s") ≡ true)
    × IsClaimed sample_decoding sample_keys
        (λ other. contains (codes "other" ∷ codes "app" ∷ []) other || contains [] other)
        1200
        (codes "h.p.s")
        300
        (codes "other" ∷ codes "app" ∷ [])
        (record { issue_time = pos 1000 })
    × IsPassed sample_decoding sample_keys 1200
        (codes "h.p.s")
        300
        (record { issue_time = pos 1000 })
verify-IsVerified_example =
    verify-IsVerified sample_decoding sample_keys 1200 (codes "h.p.s")
      (codes "other" ∷ codes "app" ∷ []) [] 300 (record { issue_time = pos 1000 }) (omega arith)
      (omega arith) verified
