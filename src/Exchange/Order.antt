-- ===== src/Exchange/Order.antt =====
-- auth/server/src/api/token.rs, `complete_workload` and `complete_exchange`: what was done, and in
-- which order, when a token is issued.
use moghtech_lib.Base.{
  ℕ, ◌≡◌, refl, sym, subst, inl, inr, true, false, not, ◌&&◌, List, [], ◌∷◌, arith,
}
use moghtech_lib.Base.Text.{Text}
use moghtech_lib.Net.{IpAddr}
use moghtech_lib.Error.{Result, ok, Result-cases}
use moghtech_lib.RequestIp.Cidr.{check_cidr_whitelist}
use moghtech_lib.Jwt.Provider.{expires_at, encode_sub_with_ttl}
use moghtech_lib.Workload.Claims.{WorkloadRule}
use moghtech_lib.Exchange.Oauth.{invalid_grant, oauth_error}
use moghtech_lib.Exchange.Providers.{AuthUser}
use moghtech_lib.Exchange.Workloads.{TrustedIssuer, VerifiedWorkload, current_rule}
use moghtech_lib.Exchange.Current.{IsCurrent, current_rule-IsCurrent}
use moghtech_lib.Exchange.Complete.{
  App, Call, Run, Issuers, list_trusted_issuers, lock_workload_user, unlock_workload_user,
  get_or_create_workload_user, record_login, Login, ExchangedToken,
  external_login_requires_two_factor, check_workload_user, log_in_workload, finish_workload,
  identity_of, locked_workload, complete_workload, workload_login, workload_ttl_ms, issue, login_of,
}

module _ (A : App) (ip : IpAddr) (issued : Text) where
  -- The user of a workload that a token is issued for.
  abbrev pub IsAllowed : WorkloadRule → AuthUser → Type 0
  IsAllowed rule user =
      (user.is_workload ≡ true)
      × (user.is_enabled ≡ true)
      × (user.is_admin && not rule.admin ≡ false)
      × (check_cidr_whitelist A.nets ip user.cidr_whitelist ≡ ok tt)
      × (external_login_requires_two_factor user ≡ false)

  check_workload_user-IsAllowed :
      (rule : WorkloadRule) (user : AuthUser)
      → check_workload_user A ip issued rule user ≡ ok tt
      → IsAllowed rule user
  unfolding check_workload_user invalid_grant oauth_error
  check_workload_user-IsAllowed rule user h =
      elim (Result-cases (check_cidr_whitelist A.nets ip user.cidr_whitelist)) [
        | inl (done, e) ↦ ground (arith, h, e)
        | inr (f, e) ↦ absurd (ground (arith, h, e))
      ]

  -- A login that was recorded, and the token that was issued then.
  abbrev pub LogsIn : Login → Result Text → List Call → ExchangedToken → Type 0
  LogsIn login encoded calls t =
      (calls ≡ record_login login ∷ [])
      × (A.answer_record login ≡ ok tt)
      × (encoded ≡ ok t.response.access_token)
      × (t.response.issued_token_type ≡ issued)
      × (t.user_id ≡ login.user_id)
      × (t.login ≡ login.kind)

  pub issue-LogsIn :
      (login : Login) (encoded : Result Text) (ttl_ms : ℕ) (t : ExchangedToken)
      → (issue A ip issued login encoded ttl_ms).1 ≡ ok t
      → LogsIn login encoded (issue A ip issued login encoded ttl_ms).0 t
  unfolding issue
  issue-LogsIn login encoded ttl_ms t h = elim (Result-cases (A.answer_record login)) [
    | inr (f, e) ↦ absurd (ground (arith, h, e))
    | inl (done, e) ↦ elim (Result-cases encoded) [
      | inr (f, k) ↦ absurd (ground (arith, h, e, k))
      | inl (jwt, k) ↦ (
        refl,
        e,
        ground (arith, h, e, k),
        ground (arith, h, e, k),
        ground (arith, h, e, k),
        ground (arith, h, e, k),
      )
    ]
  ]

  -- A rule's user, from the app's answers.
  abbrev pub IsUser : TrustedIssuer → WorkloadRule → VerifiedWorkload → AuthUser → Type 0
  IsUser issuer rule v user =
      (user_id : Text) × (A.answer_get_or_create (identity_of A ip issued issuer rule v.claims)
        ≡ ok user_id)
      × (A.get_user user_id ≡ ok user)
      × IsAllowed rule user

  abbrev pub workload_login_of : TrustedIssuer → WorkloadRule → AuthUser → Login
  workload_login_of issuer rule user =
      let ttl_ms = workload_ttl_ms rule.token_ttl_secs A.jwt_provider.ttl_ms in
      login_of A ip issued user (workload_login issuer.id issuer.name rule.id rule.name)
        (expires_at A.jwt_provider A.now ttl_ms)

  abbrev pub workload_jwt : WorkloadRule → AuthUser → Result Text
  workload_jwt rule user =
      encode_sub_with_ttl A.signing A.jwt_provider A.now user.id
        (workload_ttl_ms rule.token_ttl_secs A.jwt_provider.ttl_ms)

  -- What holds of a token that was issued for a workload, and what was done for it.
  abbrev pub IsIssued :
      Issuers
      → VerifiedWorkload
      → List Call
      → ExchangedToken
      → TrustedIssuer
      → WorkloadRule
      → AuthUser
      → Type 0
  IsIssued current v calls t issuer rule user =
      (rest : List Call) × (calls
        ≡ lock_workload_user v.issuer.id v.rule.id
          ∷ list_trusted_issuers
          ∷ get_or_create_workload_user (identity_of A ip issued issuer rule v.claims)
          ∷ unlock_workload_user
          ∷ rest)
      × IsCurrent (current (lock_workload_user v.issuer.id v.rule.id ∷ [])) v issuer rule
      × IsUser issuer rule v user
      × LogsIn (workload_login_of issuer rule user) (workload_jwt rule user) rest t

  finish_workload-log_in_workload :
      (issuer : TrustedIssuer) (rule : WorkloadRule) (user_id : Text) (user : AuthUser)
      → A.get_user user_id ≡ ok user
      → check_workload_user A ip issued rule user ≡ ok tt
      → finish_workload A ip issued issuer rule user_id
        ≡ log_in_workload A ip issued issuer rule user
  unfolding finish_workload
  finish_workload-log_in_workload issuer rule user_id user e k = ground (arith, e, k)

  finish_workload-LogsIn :
      (issuer : TrustedIssuer) (rule : WorkloadRule) (user_id : Text) (t : ExchangedToken)
      → (finish_workload A ip issued issuer rule user_id).1 ≡ ok t
      → (user : AuthUser) × (A.get_user user_id ≡ ok user)
        × IsAllowed rule user
        × LogsIn
            (workload_login_of issuer rule user)
            (workload_jwt rule user)
            (finish_workload A ip issued issuer rule user_id).0
            t
  unfolding finish_workload log_in_workload
  finish_workload-LogsIn issuer rule user_id t h = elim (Result-cases (A.get_user user_id)) [
    | inr (f, e) ↦ absurd (ground (arith, h, e))
    | inl (user, e) ↦ elim (Result-cases (check_workload_user A ip issued rule user)) [
      | inr (f, k) ↦ absurd (ground (arith, h, e, k))
      | inl (done, k) ↦
          let same = finish_workload-log_in_workload issuer rule user_id user e k in
          let logs_in =
            subst
              (λ (run : Run).
                (run.1 ≡ ok t)
                → LogsIn (workload_login_of issuer rule user) (workload_jwt rule user) run.0 t)
              (sym same)
              (issue-LogsIn (workload_login_of issuer rule user) (workload_jwt rule user)
                (workload_ttl_ms rule.token_ttl_secs A.jwt_provider.ttl_ms) t) in
          (user, e, check_workload_user-IsAllowed rule user k, logs_in h)
    ]
  ]

  -- A token for a workload is issued only so: the user of its rule is locked; then, under the lock,
  -- the trusted issuers are read again; by then the issuer is enabled and as the token was verified
  -- with it, and the claims meet its rule of the same id; that rule is given to the app with its
  -- groups and whether it makes an admin; the lock is let go; the user is a workload, enabled, an
  -- admin only if the rule says so, allowed from the address and without a second factor; the login
  -- is recorded; and the token is the user's, for the time that the rule gives.
  pub complete_workload-IsIssued :
      (current : Issuers) (v : VerifiedWorkload) (t : ExchangedToken)
      → (complete_workload A ip issued current v).1 ≡ ok t
      → (issuer : TrustedIssuer) × (rule : WorkloadRule) × (user : AuthUser) × IsIssued current v
          (complete_workload A ip issued current v).0
          t
          issuer
          rule
          user
  unfolding complete_workload locked_workload
  complete_workload-IsIssued current v t h =
      let read = current (lock_workload_user v.issuer.id v.rule.id ∷ []) in
      elim (Result-cases (current_rule read v)) [
        | inr (f, e) ↦ absurd (ground (arith, h, e))
        | inl ((issuer, rule), e) ↦
            let identity = identity_of A ip issued issuer rule v.claims in
            elim (Result-cases (A.answer_get_or_create identity)) [
              | inr (f, k) ↦ absurd (ground (arith, h, e, k))
              | inl (user_id, k) ↦
                  let run = finish_workload A ip issued issuer rule user_id in
                  let (user, found, allowed, logs_in) =
                    finish_workload-LogsIn issuer rule user_id t (ground (arith, h, e, k)) in
                  (
                    issuer,
                    rule,
                    user,
                    (
                      run.0,
                      ground (arith, e, k),
                      current_rule-IsCurrent read v issuer rule e,
                      (user_id, k, found, allowed),
                      logs_in,
                    ),
                  )
            ]
      ]
