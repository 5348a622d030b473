-- ===== src/Jwt/Laws.antt =====
-- auth/server/src/provider/jwt.rs: what an issued token says, and how long it is accepted.
use moghtech_lib.Base.{ℕ, ◌+◌, ◌*◌, ◌^◌, ◌≤◌, ◌<◌, ◌≡◌, some, min, arith}
use moghtech_lib.Base.Text.{Text}
use moghtech_lib.Error.{ok}
use moghtech_lib.Jwt.Provider.{
  JwtClaims, JwtProvider, Signing, claims_of, encode, decode_claims, saturating_add, ttl_secs,
  authenticated_at,
}

-- What the library documents: a token it signed decodes to its claims as long as it is not expired
-- by more than the leeway, for the same issuer and audience.
abbrev pub Decodes : Signing → Type 0
Decodes S =
    (claims : JwtClaims) (token : Text) (now leeway : ℕ)
    → S.sign claims ≡ ok token
    → now ≤ claims.exp + leeway
    → S.decode now claims.iss claims.aud leeway token ≡ some claims

module _ (S : Signing) (jwt : JwtProvider) (signed : Decodes S) where
  -- With a decoder that accepts what was signed until it expires: a token that was issued for a
  -- user, with a time of authentication, is decoded to that user at any later time (below 2^64)
  -- within the smaller of its own and the default lifetime; it counts as authenticated at that
  -- time, or at its issue if that is earlier, and expires within the default lifetime and a second.
  pub encode-decode_claims :
      (now later ttl_ms auth_time : ℕ) (sub token : Text)
      → encode S jwt now sub ttl_ms (some auth_time) ≡ ok token
      → now ≤ later
      → later < 2 ^ 64
      → later * 1000 ≤ now * 1000 + min ttl_ms jwt.ttl_ms
      → (claims : JwtClaims) × (decode_claims S jwt later token ≡ ok claims)
        × (claims.sub ≡ sub)
        × (authenticated_at claims ≡ min auth_time now)
        × (claims.exp * 1000 ≤ now * 1000 + jwt.ttl_ms + 1000)
  unfolding encode decode_claims claims_of saturating_add ttl_secs authenticated_at
  encode-decode_claims now later ttl_ms auth_time sub token h le small before =
      let claims = claims_of S jwt now sub ttl_ms (some auth_time) in
      (
        claims,
        ground (arith, h, le, small, before, signed claims token later jwt.leeway),
        ground arith,
        ground arith,
        ground (arith, h),
      )
