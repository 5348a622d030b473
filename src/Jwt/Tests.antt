-- ===== src/Jwt/Tests.antt =====
-- auth/server/src/provider/jwt.rs: the theorem at a library that signs one token.
use moghtech_lib.Base.{
  ℕ, ◌+◌, ◌*◌, ◌≡◌, ◌≤◌, refl, Bool, true, false, ◌&&◌, Option, none, some, leb, ◌==◌,
  if◌then◌else◌, arith,
}
use moghtech_lib.Base.Text.{codes, text_eq, text_eq_iff}
use moghtech_lib.Error.{ok, fail, internal_server_error}
use moghtech_lib.Jwt.Provider.{
  JwtClaims, JwtProvider, Signing, claims_of, encode, decode_claims, authenticated_at,
  saturating_add, ttl_secs,
}
use moghtech_lib.Jwt.Laws.{Decodes, encode-decode_claims}

abbrev pub sample_provider : JwtProvider
sample_provider = record {
  secret_missing = false;
  ttl_ms = 3600500;
  iss = codes "app";
  aud = codes "app";
  leeway = 10;
}

abbrev issued : JwtClaims
issued = record {
  sub = codes "u1";
  iss = codes "app";
  aud = codes "app";
  iat = 1000;
  exp = 4601;
  auth_time = some 400;
}

abbrev is_400 : Option ℕ → Bool
is_400 none = false
is_400 (some t) = t == 400

is_issued : JwtClaims → Bool
is_issued c =
    text_eq c.sub issued.sub
    && text_eq c.iss issued.iss
    && text_eq c.aud issued.aud
    && c.iat == 1000
    && c.exp == 4601
    && is_400 c.auth_time

abbrev sample_signing : Signing
sample_signing = record {
  sign = λ c. if is_issued c then ok (codes "jwt") else fail internal_server_error "other claims";
  decode = λ now iss aud leeway token. if leb now (4601 + leeway) then some issued else none;
}

is_issued-eq : (c : JwtClaims) → is_issued c ≡ true → c ≡ issued
unfolding is_issued
is_issued-eq c h = ground (
  arith,
  h,
  text_eq_iff c.sub issued.sub,
  text_eq_iff c.iss issued.iss,
  text_eq_iff c.aud issued.aud,
)

sample_signing-Decodes : Decodes sample_signing
sample_signing-Decodes c token now leeway h le = ground (arith, h, le, is_issued-eq c)

encoded :
    encode sample_signing sample_provider 1000 (codes "u1") 3600500 (some 400) ≡ ok (codes "jwt")
unfolding encode claims_of saturating_add ttl_secs is_issued
encoded = refl

encode-decode_claims_example :
    (claims : JwtClaims) × (decode_claims sample_signing sample_provider 4600 (codes "jwt")
      ≡ ok claims)
    × (claims.sub ≡ codes "u1")
    × (authenticated_at claims ≡ 400)
    × (claims.exp * 1000 ≤ 1000 * 1000 + 3600500 + 1000)
encode-decode_claims_example =
    encode-decode_claims sample_signing sample_provider sample_signing-Decodes 1000 4600 3600500 400
      (codes "u1") (codes "jwt") encoded (omega arith) (omega arith) (omega arith)
