-- ===== src/Manage/Tests.antt =====
-- auth/server/src/api/manage: the theorems at the request of a user, and of an API key.
use moghtech_lib.Base.{
  ℕ, ◌≡◌, inl, inr, arith, suc, Bool, true, false, Option, none, some, List, [], if◌then◌else◌,
}
use moghtech_lib.Base.Text.{Text, codes, text_eq}
use moghtech_lib.Net.{v4}
use moghtech_lib.Error.{
  Error, Result, ok, err, fail, forbidden, unauthorized, internal_server_error,
}
use moghtech_lib.RequestIp.Cidr.{Nets}
use moghtech_lib.Jwt.Provider.{JwtClaims, JwtProvider, Signing}
use moghtech_lib.RateLimit.Attempts.{RateLimiter}
use moghtech_lib.RateLimit.Entries.{EntryMap}
use moghtech_lib.RateLimit.Key.{key}
use moghtech_lib.Middleware.Extract.{Auth}
use moghtech_lib.Middleware.Request.{Request}
use moghtech_lib.Middleware.Users.{Accounts}
use moghtech_lib.Manage.Guards.{
  ManageRequestMethod, update_password, requires_recent_login, manages_resources, Reauthentication,
  handler,
}
use moghtech_lib.Manage.GuardLaws.{IsPermitted, handler-forbidden}

abbrev within_300 : Reauthentication
within_300 = record { reauthentication_window_secs = 300; leeway = 10; now = 1200 }

-- An API key, which has no login, for the change of a password.
key_not-IsPermitted : ¬ IsPermitted within_300 false none update_password
unfolding requires_recent_login manages_resources
key_not-IsPermitted (kind, inl h) = ground (arith, h)
key_not-IsPermitted (kind, inr h) = ground (arith, h)

abbrev changed : ℕ → ℕ × Result ℕ
changed s = (suc s, ok s)

handler-forbidden_example :
    (e : Error) × (handler within_300 false none update_password changed 7 ≡ (7, err e))
    × (e.status ≡ forbidden)
handler-forbidden_example =
    handler-forbidden within_300 false none update_password changed 7 key_not-IsPermitted

abbrev no_keys : Auth
no_keys = record {
  server_private_key = none;
  signing_key_timestamp_tolerance_ms = 1000;
  sha256 = λ body. body;
}

abbrev no_nets : Nets
no_nets = record {
  IpNet = ℕ;
  parse_net = λ s. none;
  parse_ip = λ s. none;
  parse_socket = λ s. none;
  contains = λ net ip. false;
  host = λ ip. 0;
  as_v6 = λ net. none;
  v4_net = λ bits prefix_len. none;
}

abbrev claims : JwtClaims
claims = record {
  sub = codes "u";
  iss = codes "app";
  aud = codes "app";
  iat = 1000;
  exp = 4600;
  auth_time = none;
}

abbrev provider : JwtProvider
provider = record {
  secret_missing = false;
  ttl_ms = 3600000;
  iss = codes "app";
  aud = codes "app";
  leeway = 10;
}

abbrev signing : Signing
signing = record {
  sign = λ c. ok (codes "t");
  decode = λ now iss aud leeway token. if text_eq token (codes "t") then some claims else none;
}

-- The users are their ids.
abbrev accounts : Accounts Text
accounts = record {
  nets = no_nets;
  signing = signing;
  jwt_provider = provider;
  now = 1200;
  get_api_key = λ key secret. fail unauthorized "Invalid client credentials";
  get_signing_key = λ key. fail unauthorized "Invalid client credentials";
  get_user = λ id. if text_eq id (codes "u") then ok id else fail internal_server_error "No user";
  user_whitelist = λ user. [];
}

abbrev request : Request
request = record {
  ip = v4 1;
  headers = record {
    authorization = some (some (codes "Bearer t"));
    x_api_key = none;
    x_api_secret = none;
    x_api_signature = none;
    x_api_timestamp = none;
  };
  method = codes "POST";
  path_and_query = some (codes "/auth/manage/UpdatePassword");
  body = ok [];
}

abbrev limiter : RateLimiter
limiter = record {
  disabled = false;
  max_attempts = 2;
  window = 10;
  ipv6_prefix_len = 64;
  max_entries = 2;
}

abbrev unparsed : List ℕ → Option ManageRequestMethod
unparsed bytes = none

abbrev enabled : Text → Bool
enabled user = true

abbrev workload : Text → Bool
workload user = false

abbrev answer : Text → EntryMap → EntryMap × Result Text
answer user m = (m, ok user)
