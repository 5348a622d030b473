-- ===== src/Exchange/Whole.antt =====
-- auth/server/src/api/token.rs, `exchange`: whose token is issued, and what was done for it.
use moghtech_lib.Base.{◌≡◌, sym, ap, subst, ◌∙◌, ◌⊎◌, inl, inr, Option, none, some, arith}
use moghtech_lib.Base.Text.{Text}
use moghtech_lib.Net.{IpAddr}
use moghtech_lib.Error.{Error, ok, Result-cases}
use moghtech_lib.Workload.Claims.{WorkloadRule}
use moghtech_lib.Exchange.Request.{TokenExchangeRequest, validate_request}
use moghtech_lib.Exchange.OauthLaws.{IsExchange, AsksFor, validate_request-IsExchange}
use moghtech_lib.Exchange.Providers.{AuthUser, VerifiedExchange, UserServices, verify_exchange}
use moghtech_lib.Exchange.Workloads.{
  TrustedIssuer, VerifiedWorkload, WorkloadServices, verify_workload,
}
use moghtech_lib.Exchange.Accepted.{IsAccepted, verify_exchange-First}
use moghtech_lib.Exchange.Matched.{IsMatched, verify_workload-FirstMatch}
use moghtech_lib.Exchange.Complete.{
  App, Issuers, Run, ExchangedToken, complete_exchange, complete_workload, exchange_workload,
  exchange,
}
use moghtech_lib.Exchange.Order.{IsIssued, complete_workload-IsIssued}
use moghtech_lib.Exchange.LetIn.{IsLoggedIn, complete_exchange-IsLoggedIn}

module _ (A : App) (U : UserServices) (W : WorkloadServices) (ip : IpAddr) (current : Issuers)
    (role : Option Text) where
  -- The token is that of a user whom a login provider's token belongs to, and who was logged in.
  abbrev pub IsUserToken : (issued token : Text) → Run → ExchangedToken → Type 0
  IsUserToken issued token run t =
      (v : VerifiedExchange) × IsAccepted U token role v × IsLoggedIn A ip issued v run t

  -- The token is that of the user of a workload, and no login provider accepted the other token.
  abbrev pub IsWorkloadToken : (issued token : Text) → Run → ExchangedToken → Type 0
  IsWorkloadToken issued token run t =
      (¬ ((v : VerifiedExchange) × (verify_exchange U token role ≡ ok (some v))))
      × ((v : VerifiedWorkload) × (issuer : TrustedIssuer) × (rule : WorkloadRule)
          × (user : AuthUser) × IsMatched W token role v
          × IsIssued A ip issued current v run.0 t issuer rule user)

  user-IsUserToken :
      (issued token : Text) (v : VerifiedExchange) (run : Run) (t : ExchangedToken)
      → run.1 ≡ ok t
      → verify_exchange U token role ≡ ok (some v)
      → run ≡ complete_exchange A ip issued v
      → IsUserToken issued token run t
  user-IsUserToken issued token v run t h k same =
      let logged_in =
        complete_exchange-IsLoggedIn A ip issued v t (sym (ap (λ (r : Run). r.1) same) ∙ h) in
      (
        v,
        verify_exchange-First U token role v k,
        subst (λ r. IsLoggedIn A ip issued v r t) (sym same) logged_in,
      )

  exchange_workload-IsWorkloadToken :
      (issued token : Text) (rejected : Option Error) (t : ExchangedToken)
      → (exchange_workload A U W ip issued token current role rejected).1 ≡ ok t
      → (¬ ((v : VerifiedExchange) × (verify_exchange U token role ≡ ok (some v))))
      → IsWorkloadToken issued token
          (exchange_workload A U W ip issued token current role rejected)
          t
  unfolding exchange_workload
  exchange_workload-IsWorkloadToken issued token rejected t h no_user =
      elim (Result-cases (verify_workload W token role)) [
        | inr (f, e) ↦ absurd (ground (arith, h, e))
        | inl (none, e) ↦ absurd (ground (arith, h, e))
        | inl (some v, e) ↦
            let run = complete_workload A ip issued current v in
            let (issuer, rule, user, done) =
              complete_workload-IsIssued A ip issued current v t (ground (arith, h, e)) in
            let same : run ≡ exchange_workload A U W ip issued token current role rejected =
              ground (arith, e) in
            subst (λ (r : Run). IsWorkloadToken issued token r t) same
              (no_user, (v, issuer, rule, user, verify_workload-FirstMatch W token role v e, done))
      ]

  -- A token is issued only on a request that asks for an exchange and for a token of its type: for
  -- the user whom a login provider's token belongs to, once the user was let in, synced and logged
  -- in; or, if no provider accepts the token, for the user of the workload whom a trusted issuer's
  -- token belongs to, once its rule was read again and the user logged in.
  pub exchange-IsToken :
      (request : TokenExchangeRequest) (t : ExchangedToken)
      → (exchange A U W ip request current role).1 ≡ ok t
      → (issued : Text) × IsExchange request
        × AsksFor request.requested_token_type issued
        × (IsUserToken issued request.subject_token (exchange A U W ip request current role) t
            ⊎ IsWorkloadToken issued request.subject_token
                (exchange A U W ip request current role)
                t)
  unfolding exchange
  exchange-IsToken request t h = elim (Result-cases (validate_request request)) [
    | inr (f, e) ↦ absurd (ground (arith, h, e))
    | inl (issued, e) ↦
        let token = request.subject_token in
        let (asks, asked) = (validate_request-IsExchange request issued).0 e in
        elim (Result-cases (verify_exchange U token role)) [
          | inl (some v, k) ↦
              let run = exchange A U W ip request current role in
              (
                issued,
                asks,
                asked,
                inl (user-IsUserToken issued token v run t h k (ground (arith, e, k))),
              )
          | inl (none, k) ↦
              let run = exchange_workload A U W ip issued token current role none in
              let same : run ≡ exchange A U W ip request current role = ground (arith, e, k) in
              let issued_for =
                exchange_workload-IsWorkloadToken issued token none t (ground (arith, h, same))
                  (λ (v, m). ground (arith, k, m)) in
              let found = subst (λ (r : Run). IsWorkloadToken issued token r t) same issued_for in
              (issued, asks, asked, inr found)
          | inr (f, k) ↦
              let run = exchange_workload A U W ip issued token current role (some f) in
              let same : run ≡ exchange A U W ip request current role = ground (arith, e, k) in
              let issued_for =
                exchange_workload-IsWorkloadToken issued token (some f) t (ground (arith, h, same))
                  (λ (v, m). ground (arith, k, m)) in
              let found = subst (λ (r : Run). IsWorkloadToken issued token r t) same issued_for in
              (issued, asks, asked, inr found)
        ]
  ]
