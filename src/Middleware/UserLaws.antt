-- ===== src/Middleware/UserLaws.antt =====
-- auth/server/src/middleware.rs, `get_user_from_request_authentication` and `verify_api_key_secret`:
-- who is let in.
use moghtech_lib.Base.{
  ◌≡◌, refl, ◌⊎◌, inl, inr, Bool, true, Option, none, List, [], ◌∷◌, some, arith, Bool-cases,
}
use moghtech_lib.Base.Text.{Text}
use moghtech_lib.Net.{IpAddr}
use moghtech_lib.Error.{Error, Note, Result, ok, err, Result-cases, unauthorized}
use moghtech_lib.RequestIp.Cidr.{check_cidr_whitelist}
use moghtech_lib.Jwt.Provider.{JwtClaims, decode_claims, decode_sub}
use moghtech_lib.Middleware.Extract.{RequestAuthentication, jwt, api_key, public_key}
use moghtech_lib.Middleware.Users.{
  AuthApiKey, Accounts, verify_api_key_secret, get_jwt_user_id, key_user_id,
  get_user_id_from_request_authentication, get_user_from_request_authentication,
}

abbrev invalid_with : List Note → Error
invalid_with causes = record {
  status = unauthorized;
  notes = Note.text "Invalid client credentials" ∷ causes;
}

module _ (bcrypt_verify : (secret hashed : Text) → Result Bool) where
  -- A secret is taken only for a key that exists, and that it was verified against; anything else,
  -- an error of bcrypt too, is `401 Unauthorized`.
  pub verify_api_key_secret_cases :
      (secret : Text) (hashed_secret : Option Text)
      → ((verify_api_key_secret bcrypt_verify secret hashed_secret ≡ ok tt)
          × ((hashed : Text) × (hashed_secret ≡ some hashed)
              × (bcrypt_verify secret hashed ≡ ok true)))
        ⊎ ((e : Error) × (verify_api_key_secret bcrypt_verify secret hashed_secret ≡ err e)
            × (e.status ≡ unauthorized))
  unfolding verify_api_key_secret
  verify_api_key_secret_cases secret none = inr (invalid_with [], refl, refl)
  verify_api_key_secret_cases secret (some hashed) =
      elim (Result-cases (bcrypt_verify secret hashed)) [
        | inr (f, e) ↦ inr (invalid_with f.notes, ground (arith, e), refl)
        | inl (verified, e) ↦ elim (Bool-cases verified) [
          | inl k ↦ inl (ground (arith, e, k), (hashed, refl, ground (arith, e, k)))
          | inr k ↦ inr (invalid_with [], ground (arith, e, k), refl)
        ]
      ]

module _ {User : Type 0} (A : Accounts User) where
  -- The key of a user, that may be used from the address.
  abbrev pub IsKey : IpAddr → Text → Result AuthApiKey → Type 0
  IsKey ip user_id found =
      (key : AuthApiKey) × (found ≡ ok key)
      × (check_cidr_whitelist A.nets ip key.cidr_whitelist ≡ ok tt)
      × (key.user_id ≡ user_id)

  -- The credentials are those of the user.
  abbrev pub IsOwner : IpAddr → RequestAuthentication → Text → Type 0
  IsOwner ip (jwt token) user_id =
      (claims : JwtClaims) × (decode_claims A.signing A.jwt_provider A.now token ≡ ok claims)
      × (claims.sub ≡ user_id)
  IsOwner ip (api_key key secret) user_id = IsKey ip user_id (A.get_api_key key secret)
  IsOwner ip (public_key key) user_id = IsKey ip user_id (A.get_signing_key key)

  key_user_id-IsKey :
      (ip : IpAddr) (found : Result AuthApiKey) (user_id : Text)
      → key_user_id A ip found ≡ ok user_id
      → IsKey ip user_id found
  unfolding key_user_id
  key_user_id-IsKey ip (err e) user_id h = absurd (ground (arith, h))
  key_user_id-IsKey ip (ok key) user_id h =
      elim (Result-cases (check_cidr_whitelist A.nets ip key.cidr_whitelist)) [
        | inr (f, e) ↦ absurd (ground (arith, h, e))
        | inl (tt, e) ↦ (key, refl, e, ground (arith, h, e))
      ]

  get_user_id_from_request_authentication-IsOwner :
      (found : RequestAuthentication) (ip : IpAddr) (user_id : Text)
      → get_user_id_from_request_authentication A found ip ≡ ok user_id
      → IsOwner ip found user_id
  unfolding get_user_id_from_request_authentication get_jwt_user_id decode_sub
  get_user_id_from_request_authentication-IsOwner (jwt token) ip user_id h =
      elim (Result-cases (decode_claims A.signing A.jwt_provider A.now token)) [
        | inr (f, e) ↦ absurd (ground (arith, h, e))
        | inl (claims, e) ↦ (claims, e, ground (arith, h, e))
      ]
  get_user_id_from_request_authentication-IsOwner (api_key key secret) ip user_id h =
      key_user_id-IsKey ip (A.get_api_key key secret) user_id h
  get_user_id_from_request_authentication-IsOwner (public_key key) ip user_id h =
      key_user_id-IsKey ip (A.get_signing_key key) user_id h

  -- A user whose credentials these are, and whose whitelist has the address.
  abbrev pub IsUserOf : RequestAuthentication → IpAddr → User → Type 0
  IsUserOf found ip user =
      (user_id : Text) × IsOwner ip found user_id
      × (A.get_user user_id ≡ ok user)
      × (check_cidr_whitelist A.nets ip (A.user_whitelist user) ≡ ok tt)

  pub get_user_from_request_authentication-IsUserOf :
      (found : RequestAuthentication) (ip : IpAddr) (user : User)
      → get_user_from_request_authentication A found ip ≡ ok user
      → IsUserOf found ip user
  unfolding get_user_from_request_authentication
  get_user_from_request_authentication-IsUserOf found ip user h =
      elim (Result-cases (get_user_id_from_request_authentication A found ip)) [
        | inr (f, e) ↦ absurd (ground (arith, h, e))
        | inl (user_id, e) ↦ elim (Result-cases (A.get_user user_id)) [
          | inr (f, k) ↦ absurd (ground (arith, h, e, k))
          | inl (other, k) ↦
              elim (Result-cases (check_cidr_whitelist A.nets ip (A.user_whitelist other))) [
                | inr (f, m) ↦ absurd (ground (arith, h, e, k, m))
                | inl (tt, m) ↦ (
                  user_id,
                  get_user_id_from_request_authentication-IsOwner found ip user_id e,
                  ground (arith, h, e, k, m),
                  ground (arith, h, e, k, m),
                )
              ]
        ]
      ]
