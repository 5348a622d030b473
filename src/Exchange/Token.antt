-- ===== src/Exchange/Token.antt =====
-- auth/server/src/provider/token_exchange.rs: what is read of a token before and after it is
-- verified. The decoding of base64 and JSON is a parameter, and so are the numbers of JSON, which
-- are texts here.
use moghtech_lib.Base.{
  ℕ, ◌-◌, ◌^◌, ◌&&◌, not, min, Bool, true, false, Option, none, some, List, [], ◌∷◌, is_some,
  is_empty, any, ltb, ◌||◌, ◌==◌, if◌then◌else◌,
}
use moghtech_lib.Base.Text.{Text, codes, text_eq, utf8_len, split, trim_end_matches}
use moghtech_lib.Base.Int.{ℤ, pos, negsuc, gtb, saturating_sub, saturating_add}
use moghtech_lib.Error.{Result, ok, fail, or_fail, ◌>>=◌, internal_server_error}
use moghtech_lib.Config.Json.{Value, Fields, get}
use moghtech_lib.Exchange.Request.{max_subject_token_length}

abbrev pub clock_skew_tolerance_secs : ℕ
clock_skew_tolerance_secs = 60

pub record Decoding : Type 0 where
  -- base64url without padding, then a JSON object.
  pub decode_payload : Text → Option Fields
  -- `as_u64`, `as_i64`, and `as_f64`, which a cast takes to the integers.
  pub as_u64 : Text → Option ℕ
  pub as_i64 : Text → Option ℤ
  pub as_f64_i64 : Text → Option ℤ
  -- `value.max(0.0) as u64`
  pub as_f64_u64 : Text → Option ℕ

unfoldable pub issuers_match : Text → Text → Bool
issuers_match a b =
    let a' = trim_end_matches b'/' a in not (is_empty a') && text_eq a' (trim_end_matches b'/' b)

abbrev pub as_str : Value → Option Text
as_str (Value.string s) = some s
as_str _ = none

abbrev pub and_then {ℓ} : {A B : Type ℓ} → Option A → (A → Option B) → Option B
and_then none next = none
and_then (some a) next = next a

abbrev pub or_else {ℓ} : {A : Type ℓ} → Option A → Option A → Option A
or_else none other = other
or_else (some a) other = some a

-- The payload between two dots.
abbrev pub payload_of : List Text → Option Text
payload_of (header ∷ payload ∷ signature ∷ []) = some payload
payload_of _ = none

module _ (D : Decoding) where
  open D use {decode_payload, as_u64, as_i64, as_f64_i64, as_f64_u64}

  unfoldable pub unverified_payload : Text → Option Fields
  unverified_payload token =
      if ltb max_subject_token_length (utf8_len token)
      then none
      else and_then (payload_of (split b'.' token))
          (λ payload. decode_payload (trim_end_matches b'=' payload))

  unfoldable pub unverified_issuer : Text → Option Text
  unverified_issuer token =
      and_then (unverified_payload token) (λ payload. and_then (get (codes "iss") payload) as_str)

  unfoldable pub is_security_event_token : Text → Bool
  is_security_event_token token = elim (unverified_payload token) [
    | none ↦ false
    | some payload ↦ is_some (get (codes "events") payload)
  ]

  unfoldable pub timestamp_i64 : Value → Option ℤ
  timestamp_i64 (Value.number n) = or_else (as_i64 n) (as_f64_i64 n)
  timestamp_i64 _ = none

  unfoldable pub check_not_before : Text → ℤ → Result (Unit {0})
  check_not_before token now =
      let not_before =
        and_then (unverified_payload token)
          (λ payload. and_then (get (codes "nbf") payload) timestamp_i64) in
      elim not_before [
        | none ↦ ok tt
        | some at ↦
            if gtb at (saturating_add now (pos clock_skew_tolerance_secs))
            then fail internal_server_error "Token is not valid yet (nbf)"
            else ok tt
      ]

  -- A timestamp before 1970 is as good as 0.
  unfoldable pub timestamp_u64 : Value → Option ℕ
  timestamp_u64 (Value.number n) =
      or_else (as_u64 n) (or_else (and_then (as_i64 n) (λ at. some 0)) (as_f64_u64 n))
  timestamp_u64 _ = none

  unfoldable pub authenticated_at_from : Fields → ℕ → Option ℕ
  authenticated_at_from payload now =
      let timestamp = λ (claim : Text). and_then (get claim payload) timestamp_u64 in
      and_then (or_else (timestamp (codes "auth_time")) (timestamp (codes "iat")))
        (λ at. some (min at now))

  unfoldable pub authenticated_at : ℕ → Text → Option ℕ
  authenticated_at now token =
      and_then (unverified_payload token) (λ payload. authenticated_at_from payload now)

-- The age and the limit are written out in the last message.
unfoldable pub check_token_age : (issued_at now : ℤ) → (max_age_secs : ℕ) → Result (Unit {0})
check_token_age issued_at now max_age_secs =
    if max_age_secs == 0
    then ok tt
    else let age = saturating_sub now issued_at in
      if gtb (negsuc (clock_skew_tolerance_secs - 1)) age
      then fail internal_server_error "Token was issued in the future"
      else if gtb age (pos (min max_age_secs (2 ^ 63 - 1)))
      then fail internal_server_error "Token was issued too long ago"
      else ok tt

pub record IdTokenClaims : Type 0 where
  pub issue_time : ℤ

-- The keys of an issuer, as the OpenID library uses them: whether a text is a token, and the claims
-- of a token whose signature, issuer and expiry hold, for an audience and a test of the others.
pub record TokenVerificationKeys : Type 0 where
  pub from_str : Text → Bool
  pub claims : Text → Text → (Text → Bool) → Option IdTokenClaims

abbrev pub contains : List Text → Text → Bool
contains texts t = any (text_eq t) texts

module _ (D : Decoding) (keys : TokenVerificationKeys) where
  -- The payload is authentic at this point.
  unfoldable pub check_verified : ℤ → Text → ℕ → IdTokenClaims → Result IdTokenClaims
  check_verified now token max_age_secs claims =
      if is_security_event_token D token
      then fail internal_server_error "Security event tokens (eg. logout tokens) can't be exchanged"
      else do
        checked ← check_not_before D token now
        fresh ← check_token_age claims.issue_time now max_age_secs
        ok claims

  -- The loop over the audiences; `rejected`: whether the library refused the token for one, whose
  -- words for it are left out.
  unfoldable pub verify_audiences :
      (trusted : Text → Bool) → ℤ → Text → ℕ → (rejected : Bool) → List Text → Result IdTokenClaims
  verify_audiences trusted now token max_age_secs true [] =
      fail internal_server_error "Token was rejected"
  verify_audiences trusted now token max_age_secs false [] =
      fail internal_server_error "No audience is accepted for tokens"
  verify_audiences trusted now token max_age_secs rejected (audience ∷ audiences) =
      let skip = verify_audiences trusted now token max_age_secs rejected audiences in
      let next = verify_audiences trusted now token max_age_secs true audiences in
      if is_empty audience then skip else elim (keys.claims token audience trusted) [
        | some claims ↦ check_verified now token max_age_secs claims
        | none ↦ next
      ]

  unfoldable pub verify :
      ℤ → Text → (audiences trusted_other_audiences : List Text) → ℕ → Result IdTokenClaims
  verify now token audiences trusted_other_audiences max_age_secs =
      if ltb max_subject_token_length (utf8_len token)
      then fail internal_server_error "Token is too large"
      else if not (keys.from_str token)
      then fail internal_server_error "Token is not a valid JWT"
      else verify_audiences
          (λ other. contains audiences other || contains trusted_other_audiences other) now token
          max_age_secs false audiences

  unfoldable pub verify_payload : ℤ → Text → List Text → ℕ → Result Fields
  verify_payload now token audiences max_age_secs = do
    claims ← verify now token audiences [] max_age_secs
    or_fail (unverified_payload D token) internal_server_error "Token payload is not an object"
