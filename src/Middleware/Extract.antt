-- ===== src/Middleware/Extract.antt =====
-- auth/server/src/middleware.rs: the credentials that a request carries. The headers give the first
-- value of a name, `some none` where it is no text; the signature's handshake is a parameter.
use moghtech_lib.Base.{
  ℕ, ◌-◌, ◌^◌, ◌||◌, min, Bool, Option, none, some, List, [], ◌∷◌, ◌==◌, if◌then◌else◌,
}
use moghtech_lib.Base.Text.{Text, codes, text_eq, trim, trim_start, to_ascii_lowercase}
use moghtech_lib.Base.Int.{ℤ, pos, gtb, saturating_sub, saturating_abs}
use moghtech_lib.Base.Decimal.{parse_i64}
use moghtech_lib.Net.{IpAddr}
use moghtech_lib.Error.{Result, ok, err, fail, or_fail, ◌>>=◌, unauthorized, internal_server_error}
use moghtech_lib.RateLimit.Attempts.{RateLimiter}
use moghtech_lib.RateLimit.Entries.{EntryMap}
use moghtech_lib.RateLimit.Wrapper.{with_failure_rate_limit_using_ip}
use moghtech_lib.Middleware.Signature.{pki_auth_prologue}

pub record Headers : Type 0 where
  pub authorization : Option (Option Text)
  pub x_api_key : Option (Option Text)
  pub x_api_secret : Option (Option Text)
  pub x_api_signature : Option (Option Text)
  pub x_api_timestamp : Option (Option Text)

pub data RequestAuthentication : Type 0 where
  jwt : Text → RequestAuthentication
  api_key : (key secret : Text) → RequestAuthentication
  public_key : Text → RequestAuthentication

unfoldable pub is_ascii_whitespace : ℕ → Bool
is_ascii_whitespace c = c == 32 || c == 9 || c == 10 || c == 12 || c == 13

-- `str::split_once`, at an ASCII whitespace.
unfoldable pub split_once : Text → Option (Text × Text)
split_once [] = none
split_once (c ∷ s) =
    let rest = split_once s in
    if is_ascii_whitespace c
    then some ([], s)
    else elim rest [ none ↦ none | some (a, b) ↦ some (c ∷ a, b) ]

-- Without its `Bearer` scheme, if it has that.
unfoldable pub jwt_of : Text → Text
jwt_of maybe_bearer = elim (split_once maybe_bearer) [
  | some (scheme, token) ↦
      if text_eq (to_ascii_lowercase scheme) (codes "bearer")
      then trim_start token
      else maybe_bearer
  | none ↦ maybe_bearer
]

unfoldable pub extract_request_jwt : Headers → Result (Option Text)
extract_request_jwt headers = elim headers.authorization [
  | none ↦ ok none
  | some value ↦ do
    authorization ← or_fail value unauthorized "AUTHORIZATION is not valid UTF-8"
    ok (some (jwt_of (trim authorization)))
]

unfoldable pub extract_request_api_key : Headers → Result (Option (Text × Text))
extract_request_api_key headers = elim headers.x_api_key [
  | none ↦ ok none
  | some value ↦ do
    key ← or_fail value unauthorized "X-API-KEY is not valid UTF-8"
    given ←
        or_fail headers.x_api_secret unauthorized
          "Request headers have X-API-KEY but missing X-API-SECRET"
    secret ← or_fail given unauthorized "X-API-SECRET is not valid UTF-8"
    ok (some (trim key, trim secret))
]

-- What the signature covers of a request.
pub record Signed : Type 0 where
  pub method : Text
  pub path_and_query : Option Text
  pub body : List ℕ

-- The server's keys make a handshake with a prologue, if they can be used, which finds the public
-- key that a signature was made with.
pub record ServerKeys : Type 0 where
  pub handshake : Text → Option (Text → Option Text)

-- The app: its keys, if it has any, its tolerance in milliseconds, and the digest.
pub record Auth : Type 0 where
  pub server_private_key : Option ServerKeys
  pub signing_key_timestamp_tolerance_ms : ℕ
  pub sha256 : List ℕ → List ℕ

abbrev pub by_signature : Option Text → Option RequestAuthentication
by_signature none = none
by_signature (some key) = some (public_key key)

module _ (A : Auth) where
  unfoldable pub server_keys : Result ServerKeys
  server_keys = or_fail A.server_private_key unauthorized "Signing keys are not enabled"

  unfoldable pub prologue_of : Signed → ℤ → Text
  prologue_of r timestamp =
      let path : Text = elim r.path_and_query [ none ↦ codes "/" | some path ↦ path ] in
      pki_auth_prologue A.sha256 r.method path timestamp r.body

  unfoldable pub check_request_timestamp : Headers → ℤ → Result ℤ
  check_request_timestamp headers now = do
    value ←
        or_fail headers.x_api_timestamp unauthorized
          "Request headers have X-API-SIGNATURE but missing X-API-TIMESTAMP"
    text ← or_fail value unauthorized "X-API-TIMESTAMP is not valid UTF-8"
    timestamp ←
        or_fail (parse_i64 (trim text)) unauthorized
          "X-API-TIMESTAMP is not a unix timestamp in milliseconds"
    let tolerance = min A.signing_key_timestamp_tolerance_ms (2 ^ 63 - 1) in
        if gtb (saturating_abs (saturating_sub now timestamp)) (pos tolerance)
        then fail unauthorized "Invalid client credentials"
        else ok timestamp

  unfoldable pub check_signed_request : Headers → ℤ → Result (ServerKeys × ℤ)
  check_signed_request headers now = do
    keys ← server_keys
    timestamp ← check_request_timestamp headers now
    ok (keys, timestamp)

  -- `checked`: the time, if it was checked before the body was read.
  unfoldable pub keys_and_timestamp : Headers → ℤ → Option ℤ → Result (ServerKeys × ℤ)
  keys_and_timestamp headers now none = check_signed_request headers now
  keys_and_timestamp headers now (some timestamp) = do keys ← server_keys; ok (keys, timestamp)

  unfoldable pub validate_signature : ServerKeys → Text → Text → Result (Option Text)
  validate_signature keys prologue signature = do
    handshake ←
        or_fail (keys.handshake prologue) internal_server_error
          "Failed to verify the request signature"
    key ← or_fail (handshake signature) unauthorized "Invalid client credentials"
    ok (some key)

  unfoldable pub verify_request_signature : Headers → Signed → ℤ → Option ℤ → Result (Option Text)
  verify_request_signature headers r now checked = elim headers.x_api_signature [
    | none ↦ ok none
    | some value ↦ do
      signature ← or_fail value unauthorized "X-API-SIGNATURE is not valid UTF-8"
      (keys, timestamp) ← keys_and_timestamp headers now checked
      validate_signature keys (prologue_of r timestamp) signature
  ]

  unfoldable pub extract_request_authentication :
      Headers → Signed → ℤ → Option ℤ → Result (Option RequestAuthentication)
  extract_request_authentication headers r now checked = elim (extract_request_jwt headers) [
    | err e ↦ err e
    | ok (some token) ↦ ok (some (jwt token))
    | ok none ↦ elim (extract_request_api_key headers) [
      | err e ↦ err e
      | ok (some (key, secret)) ↦ ok (some (api_key key secret))
      | ok none ↦ do key ← verify_request_signature headers r now checked; ok (by_signature key)
    ]
  ]

  -- Failures count against the client's address; no credentials are none.
  unfoldable pub extract_request_authentication_rate_limited :
      (full : Bool)
      → RateLimiter
      → IpAddr
      → (started ended : ℕ) → Headers
      → Signed
      → ℤ
      → Option ℤ
      → EntryMap
      → EntryMap × Result RequestAuthentication
  extract_request_authentication_rate_limited full l ip started ended headers r now checked m =
      let (m', extracted) =
        with_failure_rate_limit_using_ip full l
          (λ others. (others, extract_request_authentication headers r now checked)) ip started
          ended m in
      (m', do found ← extracted; or_fail found unauthorized "Invalid client credentials")
