-- ===== src/Jwt/Provider.antt =====
-- auth/server/src/provider/jwt.rs: `JwtProvider`. Signing and the decoder of `jsonwebtoken`, which
-- checks signature, `iss`, `aud` and `exp`, are parameters; the keys are part of them. The time is
-- an argument, in seconds.
use moghtech_lib.Base.{
  ℕ, ◌+◌, ◌-◌, ◌/◌, ◌^◌, Bool, Option, none, some, min, max, ltb, if◌then◌else◌,
}
use moghtech_lib.Base.Text.{Text}
use moghtech_lib.Error.{Result, ok, fail, ◌>>=◌, internal_server_error}

pub record JwtClaims : Type 0 where
  pub sub : Text
  pub iss : Text
  pub aud : Text
  pub iat : ℕ
  pub exp : ℕ
  pub auth_time : Option ℕ

unfoldable pub authenticated_at : JwtClaims → ℕ
authenticated_at claims = elim claims.auth_time [
  | none ↦ claims.iat
  | some auth_time ↦ min auth_time claims.iat
]

pub record JwtProvider : Type 0 where
  pub secret_missing : Bool
  pub ttl_ms : ℕ
  pub iss : Text
  pub aud : Text
  -- Of the validation.
  pub leeway : ℕ

abbrev u64_max : ℕ
u64_max = 2 ^ 64 - 1

-- `u64::saturating_add`
unfoldable pub saturating_add : ℕ → ℕ → ℕ
saturating_add a b = min (a + b) u64_max

-- Rounded up, and a second at least.
unfoldable pub ttl_secs : ℕ → ℕ
ttl_secs ttl_ms = max (min ((ttl_ms + 999) / 1000) u64_max) 1

unfoldable pub expires_at : JwtProvider → (now ttl_ms : ℕ) → ℕ
expires_at jwt now ttl_ms = saturating_add now (ttl_secs (min ttl_ms jwt.ttl_ms))

abbrev min_option : Option ℕ → ℕ → Option ℕ
min_option none iat = none
min_option (some auth_time) iat = some (min auth_time iat)

-- The library, with the keys of the provider.
pub record Signing : Type 0 where
  pub sign : JwtClaims → Result Text
  pub decode : (now : ℕ) → (iss aud : Text) → (leeway : ℕ) → Text → Option JwtClaims

module _ (S : Signing) (jwt : JwtProvider) where
  unfoldable pub claims_of : (now : ℕ) → Text → ℕ → Option ℕ → JwtClaims
  claims_of now sub ttl_ms auth_time = record {
    sub = sub;
    iss = jwt.iss;
    aud = jwt.aud;
    iat = now;
    exp = saturating_add now (ttl_secs (min ttl_ms jwt.ttl_ms));
    auth_time = min_option auth_time now;
  }

  unfoldable pub encode : (now : ℕ) → Text → ℕ → Option ℕ → Result Text
  encode now sub ttl_ms auth_time =
      if jwt.secret_missing
      then fail internal_server_error "No jwt secret is configured"
      else S.sign (claims_of now sub ttl_ms auth_time)

  unfoldable pub encode_sub : (now : ℕ) → Text → Result Text
  encode_sub now sub = encode now sub jwt.ttl_ms none

  unfoldable pub encode_sub_with_ttl : (now : ℕ) → Text → ℕ → Result Text
  encode_sub_with_ttl now sub ttl_ms = encode now sub ttl_ms none

  unfoldable pub encode_sub_with_auth_time : (now : ℕ) → Text → ℕ → Result Text
  encode_sub_with_auth_time now sub auth_time = encode now sub jwt.ttl_ms (some auth_time)

  unfoldable pub decode_claims : (now : ℕ) → Text → Result JwtClaims
  decode_claims now token =
      if jwt.secret_missing
      then fail internal_server_error "Invalid user credentials"
      else elim (S.decode now jwt.iss jwt.aud jwt.leeway token) [
        | none ↦ fail internal_server_error "Invalid user credentials"
        | some claims ↦
            if ltb (saturating_add now jwt.leeway) claims.iat
            then fail internal_server_error "Invalid user credentials"
            else ok claims
      ]

  unfoldable pub decode_sub : (now : ℕ) → Text → Result Text
  decode_sub now token = do claims ← decode_claims now token; ok claims.sub
