-- ===== src/Exchange/TokenLaws.antt =====
-- auth/server/src/provider/token_exchange.rs: what a verified token has passed.
use moghtech_lib.Base.{
  ℕ, ◌+◌, ◌-◌, ◌^◌, ◌≢◌, subst, ◌≡◌, ◌≤◌, ◌<◌, ◌⊎◌, inl, inr, Bool, true, false, none, some, List,
  [], ◌∷◌, is_empty, arith, ◌||◌, Bool-cases, Option-cases,
}
use moghtech_lib.Base.Filtered.{Member, here, there}
use moghtech_lib.Base.Text.{Text, codes, utf8_len}
use moghtech_lib.Base.Int.{
  ℤ, pos, negsuc, gtb, saturating_add, ◌+ℤ◌, saturating_sub, saturate, ◌-ℤ◌,
}
use moghtech_lib.Error.{ok, Result-cases}
use moghtech_lib.Config.Json.{Value, Fields, get}
use moghtech_lib.Exchange.Token.{
  Decoding, IdTokenClaims, TokenVerificationKeys, is_security_event_token, check_not_before,
  check_token_age, check_verified, unverified_payload, timestamp_i64, verify_audiences, verify,
  contains,
}

-- The token was issued no more than the age ago, and not in the future but for a skew of 60 seconds.
abbrev pub IsFresh : (now max_age : ℕ) → ℤ → Type 0
IsFresh now max_age (pos issued) = (issued ≤ now + 60) × (now ≤ issued + max_age)
IsFresh now max_age (negsuc n) = now + n + 1 ≤ max_age

check_token_age-IsFresh :
    (issued : ℤ) (now max_age : ℕ)
    → now < 2 ^ 63
    → max_age < 2 ^ 63 - 1
    → check_token_age issued (pos now) max_age ≡ ok tt
    → (max_age ≡ 0) ⊎ IsFresh now max_age issued
unfolding check_token_age saturating_sub saturate ◌-ℤ◌ gtb
check_token_age-IsFresh (pos issued) now max_age a b h = ground (arith, a, b, h)
check_token_age-IsFresh (negsuc n) now max_age a b h = ground (arith, a, b, h)

module _ (D : Decoding) (keys : TokenVerificationKeys) where
  -- The payload has a claim.
  abbrev pub HasClaim : Text → Text → Value → Type 0
  HasClaim token name value =
      (payload : Fields) × (unverified_payload D token ≡ some payload)
      × (get name payload ≡ some value)

  -- The time of the claim `nbf`: a whole number, or else another, which a cast makes one.
  abbrev pub IsNotBefore : Text → ℤ → Type 0
  IsNotBefore token at =
      (n : Text) × HasClaim token (codes "nbf") (Value.number n)
      × ((D.as_i64 n ≡ some at) ⊎ ((D.as_i64 n ≡ none) × (D.as_f64_i64 n ≡ some at)))

  -- What holds of a token, apart from what the library checks of it.
  abbrev pub IsPassed : (now : ℕ) → Text → (max_age : ℕ) → IdTokenClaims → Type 0
  IsPassed now token max_age claims =
      (¬ ((value : Value) × HasClaim token (codes "events") value))
      × (¬ ((at : ℕ) × IsNotBefore token (pos at) × (now + 60 < at)))
      × ((max_age ≡ 0) ⊎ IsFresh now max_age claims.issue_time)

  is_security_event_token-events :
      (token : Text)
      → is_security_event_token D token ≡ false
      → ¬ ((value : Value) × HasClaim token (codes "events") value)
  unfolding is_security_event_token
  is_security_event_token-events token h (value, (payload, read, found)) =
      ground (arith, h, read, found)

  check_not_before-started :
      (now : ℕ) (token : Text)
      → now + 60 < 2 ^ 63
      → check_not_before D token (pos now) ≡ ok tt
      → ¬ ((at : ℕ) × IsNotBefore token (pos at) × (now + 60 < at))
  unfolding check_not_before timestamp_i64 saturating_add saturate ◌+ℤ◌ gtb
  check_not_before-started now token bound h (at, (n, (payload, read, found), inl whole), late) =
      ground (arith, bound, h, read, found, whole, late)
  check_not_before-started now token bound h
        (at, (n, (payload, read, found), inr (other, cast)), late) =
      ground (arith, bound, h, read, found, other, cast, late)

  check_verified-ok :
      (now : ℕ) (token : Text) (max_age : ℕ) (claims found : IdTokenClaims)
      → now + 60 < 2 ^ 63
      → max_age < 2 ^ 63 - 1
      → check_verified D keys (pos now) token max_age claims ≡ ok found
      → (claims ≡ found) × IsPassed now token max_age claims
  unfolding check_verified
  check_verified-ok now token max_age claims found a b h =
      elim (Bool-cases (is_security_event_token D token)) [
        | inl event ↦ absurd (ground (arith, h, event))
        | inr plain ↦ elim (Result-cases (check_not_before D token (pos now))) [
          | inr (e, early) ↦ absurd (ground (arith, h, plain, early))
          | inl (done, started) ↦
              elim (Result-cases (check_token_age claims.issue_time (pos now) max_age)) [
                | inr (e, old) ↦ absurd (ground (arith, h, plain, started, old))
                | inl (done, fresh) ↦ (
                  ground (arith, h, plain, started, fresh),
                  (
                    is_security_event_token-events token plain,
                    check_not_before-started now token a started,
                    check_token_age-IsFresh claims.issue_time now max_age (omega (arith, a)) b
                        fresh,
                  ),
                )
              ]
        ]
      ]

  module _ (trusted : Text → Bool) (now : ℕ) (token : Text) (max_age : ℕ) where
    -- The library verified the token for an audience of the list that is not empty.
    abbrev pub IsClaimed : List Text → IdTokenClaims → Type 0
    IsClaimed audiences claims =
        (audience : Text) × Member audience audiences
        × (audience ≢ [])
        × (keys.claims token audience trusted ≡ some claims)

    verify_audiences-ok :
        (rejected : Bool) (audiences : List Text) (claims : IdTokenClaims)
        → now + 60 < 2 ^ 63
        → max_age < 2 ^ 63 - 1
        → verify_audiences D keys trusted (pos now) token max_age rejected audiences ≡ ok claims
        → IsClaimed audiences claims × IsPassed now token max_age claims
    unfolding verify_audiences
    verify_audiences-ok true [] claims a b h = absurd (ground (arith, h))
    verify_audiences-ok false [] claims a b h = absurd (ground (arith, h))
    verify_audiences-ok rejected (audience ∷ audiences) claims a b h =
        elim (Bool-cases (is_empty audience)) [
          | inl e ↦
              let ((found, member, full, claimed), passed) =
                verify_audiences-ok rejected audiences claims a b (ground (arith, h, e)) in
              ((found, there member, full, claimed), passed)
          | inr e ↦ elim (Option-cases (keys.claims token audience trusted)) [
            | inl other ↦
                let ((found, member, full, claimed), passed) =
                  verify_audiences-ok true audiences claims a b (ground (arith, h, e, other)) in
                ((found, there member, full, claimed), passed)
            | inr (found, k) ↦
                let (same, passed) =
                  check_verified-ok now token max_age found claims a b (ground (arith, h, e, k)) in
                (
                  (audience, here, ground (arith, e), ground (arith, k, same)),
                  subst (IsPassed now token max_age) same passed,
                )
          ]
        ]

  -- A token is verified only if it has 16 KiB at most, and the library reads it as a token and
  -- verified it for an audience of the list that is not empty; and if it has no claim `events`, its
  -- `nbf` is 60 seconds ahead at most, and, unless the age has no limit, it was issued at most that
  -- long ago and no more than 60 seconds ahead. The time and the age are below the end of `i64`.
  pub verify-IsVerified :
      (now : ℕ) (token : Text) (audiences trusted_others : List Text) (max_age : ℕ)
      (claims : IdTokenClaims)
      → now + 60 < 2 ^ 63
      → max_age < 2 ^ 63 - 1
      → verify D keys (pos now) token audiences trusted_others max_age ≡ ok claims
      → (utf8_len token ≤ 16384)
        × (keys.from_str token ≡ true)
        × IsClaimed
            (λ other. contains audiences other || contains trusted_others other)
            now
            token
            max_age
            audiences
            claims
        × IsPassed now token max_age claims
  unfolding verify
  verify-IsVerified now token audiences trusted_others max_age claims a b h =
      let (claimed, passed) =
        verify_audiences-ok (λ other. contains audiences other || contains trusted_others other) now
          token max_age false audiences claims a b (ground (arith, h)) in
      (ground (arith, h), ground (arith, h), claimed, passed)
