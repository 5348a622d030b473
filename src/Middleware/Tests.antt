-- ===== src/Middleware/Tests.antt =====
-- auth/server/src/middleware.rs: the theorems at a signed request.
use moghtech_lib.Base.{
  ℕ, ◌%◌, ◌+◌, ◌≡◌, ◌≤◌, refl, true, false, none, some, List, [], ◌∷◌, length, if◌then◌else◌, arith,
}
use moghtech_lib.Base.Text.{Text, codes, text_eq, trim, trim_start, trim_end, is_whitespace}
use moghtech_lib.Base.Int.{pos, gtb, saturating_sub, saturating_abs, saturate, ◌-ℤ◌}
use moghtech_lib.Base.Decimal.{parse_i64, parse_digits, in_i64}
use moghtech_lib.Base.Table.{lookup}
use moghtech_lib.Net.{v4}
use moghtech_lib.Error.{Result, ok}
use moghtech_lib.RateLimit.Attempts.{RateLimiter, check}
use moghtech_lib.RateLimit.Entries.{EntryMap, get}
use moghtech_lib.RateLimit.Key.{key}
use moghtech_lib.RateLimit.Wrapper.{
  with_failure_rate_limit_using_ip, lenient_end, store_checked, give_back,
}
use moghtech_lib.Middleware.Signature.{to_ascii_uppercase, body_sha256, pki_auth_prologue}
use moghtech_lib.Middleware.SignatureLaws.{AreBytes, pki_auth_prologue_inj}
use moghtech_lib.Middleware.Extract.{
  Headers, RequestAuthentication, public_key, Auth, ServerKeys, server_keys, check_signed_request,
  check_request_timestamp, keys_and_timestamp, validate_signature, verify_request_signature,
  extract_request_jwt, extract_request_api_key, extract_request_authentication,
  extract_request_authentication_rate_limited, prologue_of,
}
use moghtech_lib.Middleware.Request.{
  Request, SignedRequestBody, read_body, read_signed_request_body, handle_authenticated,
  extract_and_handle, authenticate_request,
}
use moghtech_lib.Middleware.Laws.{IsFrom, check_request_timestamp-near}
use moghtech_lib.Middleware.Handled.{IsRead, signed_of, authenticate_request-IsFrom}

-- A digest of one byte.
abbrev digest : List ℕ → List ℕ
digest body = (length body % 256) ∷ []

digest-AreBytes : (body : List ℕ) → AreBytes (digest body)
digest-AreBytes body = (omega arith, tt)

pki_auth_prologue_inj_example :
    (to_ascii_uppercase (codes "post") ≡ to_ascii_uppercase (codes "POST"))
    × (codes "read?x=1" ≡ codes "read?x=1")
    × (pos 1700 ≡ pos 1700)
    × (digest (1 ∷ 2 ∷ []) ≡ digest (3 ∷ 4 ∷ []))
unfolding pki_auth_prologue body_sha256 to_ascii_uppercase
pki_auth_prologue_inj_example =
    pki_auth_prologue_inj digest (codes "post") (codes "POST") (codes "read?x=1") (codes "read?x=1")
      (pos 1700) (pos 1700) (1 ∷ 2 ∷ []) (3 ∷ 4 ∷ []) digest-AreBytes refl refl (omega arith)
      (omega arith) refl

abbrev keys : ServerKeys
keys = record {
  handshake = λ prologue.
      some (λ signature. if text_eq signature (codes "sig") then some (codes "key") else none);
}

abbrev auth : Auth
auth = record {
  server_private_key = some keys;
  signing_key_timestamp_tolerance_ms = 1000;
  sha256 = digest;
}

abbrev sample_headers : Headers
sample_headers = record {
  authorization = none;
  x_api_key = none;
  x_api_secret = none;
  x_api_signature = some (some (codes "sig"));
  x_api_timestamp = some (some (codes " 1700 "));
}

abbrev sample_request : Request
sample_request = record {
  ip = v4 1;
  headers = sample_headers;
  method = codes "POST";
  path_and_query = some (codes "/read");
  body = ok (1 ∷ 2 ∷ []);
}

abbrev sample_limiter : RateLimiter
sample_limiter = record {
  disabled = false;
  max_attempts = 2;
  window = 10;
  ipv6_prefix_len = 64;
  max_entries = 2;
}

near : check_request_timestamp auth sample_headers (pos 2500) ≡ ok (pos 1700)
unfolding check_request_timestamp parse_i64 parse_digits in_i64 trim trim_start trim_end
    is_whitespace gtb saturating_sub saturating_abs saturate ◌-ℤ◌
near = refl

check_request_timestamp-near_example : (2500 ≤ 1700 + 1000) × (1700 ≤ 2500 + 1000)
check_request_timestamp-near_example =
    check_request_timestamp-near auth sample_headers 2500 1700 (omega arith) (omega arith) near

abbrev answer : RequestAuthentication → EntryMap → EntryMap × Result Text
answer (public_key found) m = (m, ok found)
answer _ m = (m, ok [])

answered :
    (authenticate_request auth true sample_limiter sample_request answer
      (pos 2500)
      (pos 9999)
      (1, 2)
      (3, 4)
      (5, 6)
      []).1
    ≡ ok (codes "key")
unfolding authenticate_request extract_and_handle handle_authenticated read_signed_request_body
    read_body check_signed_request server_keys check_request_timestamp parse_i64 parse_digits in_i64
    trim trim_start trim_end is_whitespace gtb saturating_sub saturating_abs saturate ◌-ℤ◌
    with_failure_rate_limit_using_ip extract_request_authentication_rate_limited
    extract_request_authentication extract_request_jwt extract_request_api_key
    verify_request_signature keys_and_timestamp validate_signature prologue_of get check lenient_end
    store_checked give_back key lookup
answered = refl

authenticate_request-IsFrom_example :
    (read : SignedRequestBody) × (found : RequestAuthentication) × (state : EntryMap) × IsRead auth
      true sample_limiter sample_request
      (pos 2500)
      read
    × IsFrom auth sample_headers
        (signed_of auth true sample_limiter sample_request read)
        (pos 9999)
        read.timestamp
        found
    × ((answer found state).1 ≡ ok (codes "key"))
authenticate_request-IsFrom_example =
    authenticate_request-IsFrom auth true sample_limiter sample_request answer (pos 2500) (pos 9999)
      (1, 2) (3, 4) (5, 6) [] (codes "key") answered
