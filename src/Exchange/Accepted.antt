-- ===== src/Exchange/Accepted.antt =====
-- auth/server/src/api/token.rs, `verify_exchange` and `verify_workload`: who accepts a token.
use moghtech_lib.Base.{
  ◌≡◌, ap, ◌⊎◌, inl, inr, Option, none, some, List, [], ◌∷◌, ◌++◌, retain, All, arith, Option-cases,
}
use moghtech_lib.Base.Text.{Text}
use moghtech_lib.Base.Filtered.{Filtered}
use moghtech_lib.Error.{Error, ok, err, Result-cases}
use moghtech_lib.Exchange.Oauth.{invalid_request, invalid_grant, oauth_error}
use moghtech_lib.Exchange.Token.{unverified_issuer}
use moghtech_lib.Exchange.Providers.{
  ExternalLoginProvider, ExternalLoginInfo, VerifiedExchange, UserServices, Client, Rejections,
  report, verify_candidates, verify_exchange, exchange_candidates, is_candidate, nothing_tried,
  get_or_insert, unknown_user_error, AuthUser,
}
use moghtech_lib.Exchange.Candidates.{IsCandidate, is_candidate-Filtered}

module _ (S : UserServices) where
  -- A provider that leaves the token to the next one.
  abbrev pub Declines : Text → ExternalLoginProvider → Type 0
  Declines token provider =
      ((e : Error) × (S.load_client provider ≡ err e))
      ⊎ ((client : Client) × (S.load_client provider ≡ ok client)
          × (((e : Error) × (client provider token ≡ err e))
              ⊎ ((info : ExternalLoginInfo) × (client provider token ≡ ok info)
                  × (S.find_user_with_external_login info.provider_id info.external_id ≡ ok none))))

  -- The client of the provider verified the token, and the user of the identity is linked.
  abbrev pub Accepts : Text → VerifiedExchange → Type 0
  Accepts token v =
      (client : Client) × (S.load_client v.provider ≡ ok client)
      × (client v.provider token ≡ ok v.info)
      × (S.find_user_with_external_login v.info.provider_id v.info.external_id ≡ ok (some v.user))

  abbrev pub First : Text → List ExternalLoginProvider → VerifiedExchange → Type 0
  First token providers v =
      (before : List ExternalLoginProvider) × (after : List ExternalLoginProvider) × (providers
        ≡ before ++ (v.provider ∷ after))
      × All (Declines token) before
      × Accepts token v

  report-err : (r : Rejections) (v : Option VerifiedExchange) → ¬ (report S r ≡ ok v)
  unfolding report invalid_grant oauth_error
  report-err r v h = ground (arith, h)

  later :
      (token : Text) (p : ExternalLoginProvider) (ps : List ExternalLoginProvider)
      (v : VerifiedExchange)
      → Declines token p
      → First token ps v
      → First token (p ∷ ps) v
  later token p ps v declines (before, after, split, declined, accepts) =
      (p ∷ before, after, ap (λ qs. p ∷ qs) split, (declines, declined), accepts)

  accepted :
      (token : Text) (p : ExternalLoginProvider) (ps : List ExternalLoginProvider)
      (v : VerifiedExchange) (client : Client) (info : ExternalLoginInfo) (user : AuthUser)
      → S.load_client p ≡ ok client
      → client p token ≡ ok info
      → S.find_user_with_external_login info.provider_id info.external_id ≡ ok (some user)
      → (p ≡ v.provider) × (info ≡ v.info) × (user ≡ v.user)
      → First token (p ∷ ps) v
  accepted token p ps v client info user k m n (a, b, c) = (
    [],
    ps,
    ap (λ q. q ∷ ps) a,
    tt,
    (client, ground (arith, k, a), ground (arith, m, a, b), ground (arith, n, b, c)),
  )

  verify_candidates-First :
      (token : Text) (r : Rejections) (providers : List ExternalLoginProvider)
      (v : VerifiedExchange)
      → verify_candidates S token r providers ≡ ok (some v)
      → First token providers v
  unfolding verify_candidates
  verify_candidates-First token r [] v h = absurd (report-err r (some v) h)
  verify_candidates-First token r (p ∷ ps) v h = elim (Result-cases (S.load_client p)) [
    | inr (e, k) ↦ later token p ps v (inl (e, k)) (
        verify_candidates-First token (record r { unavailable = get_or_insert r.unavailable e }) ps
          v (ground (arith, h, k)))
    | inl (client, k) ↦ elim (Result-cases (client p token)) [
      | inr (e, m) ↦ later token p ps v (inr (client, k, inl (e, m))) (
          verify_candidates-First token (record r { rejected = some e }) ps v
            (ground (arith, h, k, m)))
      | inl (info, m) ↦
          elim (Result-cases (S.find_user_with_external_login info.provider_id info.external_id)) [
            | inr (e, n) ↦ absurd (ground (arith, h, k, m, n))
            | inl (none, n) ↦ later token p ps v (inr (client, k, inr (info, m, n))) (
                verify_candidates-First token
                  (record r { unknown_user = get_or_insert r.unknown_user (unknown_user_error p) })
                  ps v (ground (arith, h, k, m, n)))
            | inl (some user, n) ↦
                accepted token p ps v client info user k m n (
                  ground (arith, h, k, m, n),
                  ground (arith, h, k, m, n),
                  ground (arith, h, k, m, n),
                )
          ]
    ]
  ]

  -- Whose a token is, of a user: of a provider that the app lists, and a user of the app.
  abbrev pub IsAccepted : Text → Option Text → VerifiedExchange → Type 0
  IsAccepted token role v =
      (issuer : Text) × (providers : List ExternalLoginProvider) × (candidates : List
        ExternalLoginProvider)
      × (unverified_issuer S.decoding token ≡ some issuer)
      × (S.list_external_providers ≡ ok providers)
      × Filtered (IsCandidate issuer role) providers candidates
      × First token candidates v

  -- A verified token names an issuer; of the providers that the app lists, exactly those are asked,
  -- in their order, that take part in the exchange, have the role, are enabled (and have a client
  -- id, and an issuer, set) and have that issuer, but for slashes at the end. The first that does
  -- not decline the token decides: its client verified the token, and the app links a user to the
  -- identity.
  pub verify_exchange-First :
      (token : Text) (role : Option Text) (v : VerifiedExchange)
      → verify_exchange S token role ≡ ok (some v)
      → IsAccepted token role v
  unfolding verify_exchange exchange_candidates invalid_request invalid_grant oauth_error
  verify_exchange-First token role v h = elim (Option-cases (unverified_issuer S.decoding token)) [
    | inl e ↦ absurd (ground (arith, h, e))
    | inr (issuer, e) ↦ elim (Result-cases S.list_external_providers) [
      | inr (f, k) ↦ absurd (ground (arith, h, e, k))
      | inl (providers, k) ↦
          let candidates = retain (is_candidate issuer role) providers in
          (
            issuer,
            providers,
            candidates,
            e,
            k,
            is_candidate-Filtered issuer role providers,
            verify_candidates-First token nothing_tried candidates v (ground (arith, h, e, k)),
          )
    ]
  ]
