-- ===== src/Middleware/Laws.antt =====
-- auth/server/src/middleware.rs: whose credentials a request carries.
use moghtech_lib.Base.{
  ℕ, ◌+◌, ◌^◌, ◌≡◌, refl, subst, ◌≤◌, ◌<◌, ◌⊎◌, inl, inr, Option, none, some, arith, Option-cases,
}
use moghtech_lib.Base.Text.{Text}
use moghtech_lib.Base.Int.{ℤ, pos, gtb, saturating_sub, saturating_abs, saturate, ◌-ℤ◌}
use moghtech_lib.Error.{ok, Result-cases}
use moghtech_lib.Middleware.Extract.{
  Headers, RequestAuthentication, jwt, api_key, public_key, Auth, ServerKeys, Signed, prologue_of,
  check_request_timestamp, check_signed_request, server_keys, keys_and_timestamp,
  validate_signature, verify_request_signature, extract_request_jwt, extract_request_api_key,
  extract_request_authentication,
}

module _ (A : Auth) where
  -- The time in the header of a request: `now` and the tolerance are in range.
  pub check_request_timestamp-near :
      (headers : Headers) (now timestamp : ℕ)
      → now < 2 ^ 63
      → timestamp < 2 ^ 63
      → check_request_timestamp A headers (pos now) ≡ ok (pos timestamp)
      → (now ≤ timestamp + A.signing_key_timestamp_tolerance_ms)
        × (timestamp ≤ now + A.signing_key_timestamp_tolerance_ms)
  unfolding check_request_timestamp saturating_sub saturating_abs saturate ◌-ℤ◌ gtb
  check_request_timestamp-near headers now timestamp a b h = ground (arith, a, b, h)

  -- A signature was made with the key for this request: a server key is configured and made the
  -- handshake of the request's prologue at the time, which was checked before or is near `now`.
  abbrev pub IsSigned : Headers → Signed → ℤ → Option ℤ → Text → Type 0
  IsSigned headers r now checked key =
      (keys : ServerKeys) × (timestamp : ℤ) × (signature : Text) × (handshake : Text → Option Text)
      × (A.server_private_key ≡ some keys)
      × (headers.x_api_signature ≡ some (some signature))
      × ((checked ≡ some timestamp)
          ⊎ ((checked ≡ none) × (check_request_timestamp A headers now ≡ ok timestamp)))
      × (keys.handshake (prologue_of A r timestamp) ≡ some handshake)
      × (handshake signature ≡ some key)

  pub check_signed_request-ok :
      (headers : Headers) (now timestamp : ℤ) (keys : ServerKeys)
      → check_signed_request A headers now ≡ ok (keys, timestamp)
      → (A.server_private_key ≡ some keys) × (check_request_timestamp A headers now ≡ ok timestamp)
  unfolding check_signed_request server_keys
  check_signed_request-ok headers now timestamp keys h = elim (Option-cases A.server_private_key) [
    | inl e ↦ absurd (ground (arith, h, e))
    | inr (k, e) ↦ elim (Result-cases (check_request_timestamp A headers now)) [
      | inr (f, m) ↦ absurd (ground (arith, h, e, m))
      | inl (t, m) ↦ (ground (arith, h, e, m), ground (arith, h, e, m))
    ]
  ]

  keys_and_timestamp-ok :
      (headers : Headers) (now timestamp : ℤ) (checked : Option ℤ) (keys : ServerKeys)
      → keys_and_timestamp A headers now checked ≡ ok (keys, timestamp)
      → (A.server_private_key ≡ some keys)
        × ((checked ≡ some timestamp)
            ⊎ ((checked ≡ none) × (check_request_timestamp A headers now ≡ ok timestamp)))
  unfolding keys_and_timestamp server_keys
  keys_and_timestamp-ok headers now timestamp none keys h =
      let (key, near) = check_signed_request-ok headers now timestamp keys h in
      (key, inr (refl, near))
  keys_and_timestamp-ok headers now timestamp (some t) keys h =
      elim (Option-cases A.server_private_key) [
        | inl e ↦ absurd (ground (arith, h, e))
        | inr (k, e) ↦ (ground (arith, h, e), inl (ground (arith, h, e)))
      ]

  verify_request_signature-IsSigned :
      (headers : Headers) (r : Signed) (now : ℤ) (checked : Option ℤ) (key : Text)
      → verify_request_signature A headers r now checked ≡ ok (some key)
      → IsSigned headers r now checked key
  unfolding verify_request_signature validate_signature
  verify_request_signature-IsSigned headers r now checked key h =
      elim (Option-cases headers.x_api_signature) [
        | inl e ↦ absurd (ground (arith, h, e))
        | inr (none, e) ↦ absurd (ground (arith, h, e))
        | inr (some signature, e) ↦ elim (Result-cases (keys_and_timestamp A headers now checked)) [
          | inr (f, k) ↦ absurd (ground (arith, h, e, k))
          | inl ((keys, timestamp), k) ↦
              let (configured, near) = keys_and_timestamp-ok headers now timestamp checked keys k in
              elim (Option-cases (keys.handshake (prologue_of A r timestamp))) [
                | inl m ↦ absurd (ground (arith, h, e, k, m))
                | inr (handshake, m) ↦ elim (Option-cases (handshake signature)) [
                  | inl n ↦ absurd (ground (arith, h, e, k, m, n))
                  | inr (found, n) ↦ (
                    keys,
                    timestamp,
                    signature,
                    handshake,
                    configured,
                    e,
                    near,
                    m,
                    ground (arith, h, e, k, m, n),
                  )
                ]
              ]
        ]
      ]

  -- Whose credentials a request carries: the first kind of them that it has a header for.
  abbrev pub IsFrom : Headers → Signed → ℤ → Option ℤ → RequestAuthentication → Type 0
  IsFrom headers r now checked (jwt token) = extract_request_jwt headers ≡ ok (some token)
  IsFrom headers r now checked (api_key key secret) =
      (headers.authorization ≡ none) × (extract_request_api_key headers ≡ ok (some (key, secret)))
  IsFrom headers r now checked (public_key key) =
      (headers.authorization ≡ none)
      × (headers.x_api_key ≡ none)
      × IsSigned headers r now checked key

  same-IsFrom :
      (headers : Headers) (r : Signed) (now : ℤ) (checked : Option ℤ) (a b : RequestAuthentication)
      → a ≡ b
      → IsFrom headers r now checked a
      → IsFrom headers r now checked b
  same-IsFrom headers r now checked a b e h = subst (IsFrom headers r now checked) e h

  no-jwt :
      (headers : Headers) → extract_request_jwt headers ≡ ok none → headers.authorization ≡ none
  unfolding extract_request_jwt
  no-jwt headers h = elim (Option-cases headers.authorization) [
    | inl e ↦ e
    | inr (none, e) ↦ absurd (ground (arith, h, e))
    | inr (some value, e) ↦ absurd (ground (arith, h, e))
  ]

  no-api_key :
      (headers : Headers) → extract_request_api_key headers ≡ ok none → headers.x_api_key ≡ none
  unfolding extract_request_api_key
  no-api_key headers h = elim (Option-cases headers.x_api_key) [
    | inl e ↦ e
    | inr (none, e) ↦ absurd (ground (arith, h, e))
    | inr (some value, e) ↦ elim (Option-cases headers.x_api_secret) [
      | inl k ↦ absurd (ground (arith, h, e, k))
      | inr (none, k) ↦ absurd (ground (arith, h, e, k))
      | inr (some secret, k) ↦ absurd (ground (arith, h, e, k))
    ]
  ]

  pub extract_request_authentication-IsFrom :
      (headers : Headers) (r : Signed) (now : ℤ) (checked : Option ℤ)
      (found : RequestAuthentication)
      → extract_request_authentication A headers r now checked ≡ ok (some found)
      → IsFrom headers r now checked found
  unfolding extract_request_authentication
  extract_request_authentication-IsFrom headers r now checked found h =
      elim (Result-cases (extract_request_jwt headers)) [
        | inr (f, e) ↦ absurd (ground (arith, h, e))
        | inl (some token, e) ↦
            same-IsFrom headers r now checked (jwt token) found (ground (arith, h, e)) e
        | inl (none, e) ↦ elim (Result-cases (extract_request_api_key headers)) [
          | inr (f, k) ↦ absurd (ground (arith, h, e, k))
          | inl (some (key, secret), k) ↦
              same-IsFrom headers r now checked (api_key key secret) found (ground (arith, h, e, k))
                (no-jwt headers e, k)
          | inl (none, k) ↦ elim (Result-cases (verify_request_signature A headers r now checked)) [
            | inr (f, m) ↦ absurd (ground (arith, h, e, k, m))
            | inl (none, m) ↦ absurd (ground (arith, h, e, k, m))
            | inl (some key, m) ↦
                let signed = verify_request_signature-IsSigned headers r now checked key m in
                same-IsFrom headers r now checked (public_key key) found
                  (ground (arith, h, e, k, m)) (no-jwt headers e, no-api_key headers k, signed)
          ]
        ]
      ]
