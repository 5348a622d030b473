-- ===== src/Exchange/LetIn.antt =====
-- auth/server/src/api/token.rs, `complete_exchange`: what is done for a user, and in which order.
use moghtech_lib.Base.{◌≡◌, refl, subst, ◌⊎◌, inl, inr, false, List, [], ◌∷◌, arith, Bool-cases}
use moghtech_lib.Base.Text.{Text}
use moghtech_lib.Net.{IpAddr}
use moghtech_lib.Error.{Error, Result, ok, err, Result-cases}
use moghtech_lib.RequestIp.Cidr.{check_cidr_whitelist}
use moghtech_lib.Jwt.Provider.{expires_at, encode_sub_with_auth_time}
use moghtech_lib.Exchange.Oauth.{invalid_grant, oauth_error}
use moghtech_lib.Exchange.Providers.{VerifiedExchange}
use moghtech_lib.Exchange.Complete.{
  App, Call, Run, sync_external_user, record_login, Login, ExchangedToken,
  external_login_requires_two_factor, log_in_user, sync_and_log_in, complete_exchange,
  provider_login, issue, login_of,
}
use moghtech_lib.Exchange.Order.{LogsIn, issue-LogsIn}

module _ (A : App) (ip : IpAddr) (issued : Text) where
  -- Refused before the exchange has any effect: from the address, or for want of a second factor.
  abbrev pub IsRefused : VerifiedExchange → Run → Type 0
  IsRefused v run =
      (e : Error) × (run ≡ ([], err e))
      × (¬ (
          (check_cidr_whitelist A.nets ip v.user.cidr_whitelist ≡ ok tt)
          × (external_login_requires_two_factor v.user ≡ false)))

  abbrev pub user_login_of : VerifiedExchange → Login
  user_login_of v =
      login_of A ip issued v.user (provider_login v.provider.id v.provider.name)
        (expires_at A.jwt_provider A.now A.jwt_provider.ttl_ms)

  abbrev pub user_jwt : VerifiedExchange → Result Text
  user_jwt v = encode_sub_with_auth_time A.signing A.jwt_provider A.now v.user.id v.authenticated_at

  -- What follows the sync of the user: nothing if it failed, else the login.
  abbrev pub IsSynced : VerifiedExchange → List Call → Result ExchangedToken → Type 0
  IsSynced v rest result =
      ((e : Error) × (A.answer_sync v.user.id v.info ≡ err e) × (rest ≡ []) × (result ≡ err e))
      ⊎ ((A.answer_sync v.user.id v.info ≡ ok tt)
          × (rest ≡ record_login (user_login_of v) ∷ [])
          × (((e : Error) × (result ≡ err e))
              ⊎ ((t : ExchangedToken) × (result ≡ ok t)
                  × LogsIn A ip issued (user_login_of v) (user_jwt v) rest t)))

  -- Let in: both checks hold, then the user is synced, and then comes the login.
  abbrev pub IsLetIn : VerifiedExchange → Run → Type 0
  IsLetIn v run =
      (rest : List Call) × (run.0 ≡ sync_external_user v.user.id v.info ∷ rest)
      × (check_cidr_whitelist A.nets ip v.user.cidr_whitelist ≡ ok tt)
      × (external_login_requires_two_factor v.user ≡ false)
      × IsSynced v rest run.1

  log_in_user-IsSynced :
      (v : VerifiedExchange)
      → A.answer_sync v.user.id v.info ≡ ok tt
      → IsSynced v (log_in_user A ip issued v).0 (log_in_user A ip issued v).1
  unfolding log_in_user issue
  log_in_user-IsSynced v synced = elim (Result-cases (log_in_user A ip issued v).1) [
    | inr (e, k) ↦ inr (synced, refl, inl (e, k))
    | inl (t, k) ↦
        let logs_in =
          issue-LogsIn A ip issued (user_login_of v) (user_jwt v) A.jwt_provider.ttl_ms t k in
        inr (synced, refl, inr (t, k, logs_in))
  ]

  sync_and_log_in-IsLetIn :
      (v : VerifiedExchange)
      → check_cidr_whitelist A.nets ip v.user.cidr_whitelist ≡ ok tt
      → external_login_requires_two_factor v.user ≡ false
      → IsLetIn v (sync_and_log_in A ip issued v)
  unfolding sync_and_log_in
  sync_and_log_in-IsLetIn v allowed no_factor =
      elim (Result-cases (A.answer_sync v.user.id v.info)) [
        | inr (e, k) ↦
            ([], ground (arith, k), allowed, no_factor, inl (e, k, refl, ground (arith, k)))
        | inl (done, k) ↦
            let run = log_in_user A ip issued v in
            (
              run.0,
              ground (arith, k),
              allowed,
              no_factor,
              subst (IsSynced v run.0) (ground (arith, k)) (log_in_user-IsSynced v k),
            )
      ]

  -- The exchange of a login provider's token either is refused without any effect, and then the
  -- address is not on the user's whitelist or the user needs a second factor; or it is allowed
  -- both, the user is synced first, and then, if that did not fail, the login is recorded. A token
  -- is issued only after that; it is the user's and counts from the time that the provider
  -- authenticated the user at.
  pub complete_exchange_cases :
      (v : VerifiedExchange)
      → IsRefused v (complete_exchange A ip issued v) ⊎ IsLetIn v (complete_exchange A ip issued v)
  unfolding complete_exchange invalid_grant oauth_error
  complete_exchange_cases v =
      elim (Result-cases (check_cidr_whitelist A.nets ip v.user.cidr_whitelist)) [
        | inr (f, e) ↦
            inl (f, ground (arith, e), λ (allowed, no_factor). ground (arith, e, allowed))
        | inl (done, e) ↦ elim (Bool-cases (external_login_requires_two_factor v.user)) [
          | inl k ↦ elim (Result-cases (complete_exchange A ip issued v).1) [
            | inl (t, m) ↦ absurd (ground (arith, e, k, m))
            | inr (f, m) ↦
                inl
                  (f, ground (arith, e, k, m), λ (allowed, no_factor). ground (arith, k, no_factor))
          ]
          | inr k ↦ inr (subst (IsLetIn v) (ground (arith, e, k)) (sync_and_log_in-IsLetIn v e k))
        ]
      ]

  -- The user was let in, synced and logged in.
  abbrev pub IsLoggedIn : VerifiedExchange → Run → ExchangedToken → Type 0
  IsLoggedIn v run t =
      (run.0 ≡ sync_external_user v.user.id v.info ∷ record_login (user_login_of v) ∷ [])
      × (check_cidr_whitelist A.nets ip v.user.cidr_whitelist ≡ ok tt)
      × (external_login_requires_two_factor v.user ≡ false)
      × (A.answer_sync v.user.id v.info ≡ ok tt)
      × LogsIn A ip issued (user_login_of v) (user_jwt v) (record_login (user_login_of v) ∷ []) t

  IsLetIn-IsLoggedIn :
      (v : VerifiedExchange) (run : Run) (t : ExchangedToken)
      → run.1 ≡ ok t
      → IsLetIn v run
      → IsLoggedIn v run t
  IsLetIn-IsLoggedIn v run t h (rest, calls, allowed, no_factor, inl (e, failed, none_after, k)) =
      absurd (ground (arith, h, k))
  IsLetIn-IsLoggedIn v run t h (rest, calls, allowed, no_factor, inr (synced, after, inl (e, k))) =
      absurd (ground (arith, h, k))
  IsLetIn-IsLoggedIn v run t h
        (rest, calls, allowed, no_factor, inr (synced, after, inr (u, k, logs_in))) =
      let same : u ≡ t = ground (arith, h, k) in
      (
        ground (arith, calls, after),
        allowed,
        no_factor,
        synced,
        subst
            (LogsIn A ip issued (user_login_of v) (user_jwt v)
              (record_login (user_login_of v) ∷ []))
            same
            (subst
              (λ (calls : List Call). LogsIn A ip issued (user_login_of v) (user_jwt v) calls u)
              after logs_in),
      )

  pub complete_exchange-IsLoggedIn :
      (v : VerifiedExchange) (t : ExchangedToken)
      → (complete_exchange A ip issued v).1 ≡ ok t
      → IsLoggedIn v (complete_exchange A ip issued v) t
  complete_exchange-IsLoggedIn v t h = elim (complete_exchange_cases v) [
    | inl (e, k, refused) ↦ absurd (ground (arith, h, k))
    | inr let_in ↦ IsLetIn-IsLoggedIn v (complete_exchange A ip issued v) t h let_in
  ]
