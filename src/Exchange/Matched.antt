-- ===== src/Exchange/Matched.antt =====
-- auth/server/src/api/token.rs, `verify_workload`, `check_rule_id`: which rule a token gets.
use moghtech_lib.Base.{
  ◌≡◌, ap, subst, ◌⊎◌, inl, inr, Option, none, some, List, [], ◌∷◌, ◌++◌, retain, All, arith,
  Option-cases,
}
use moghtech_lib.Base.Text.{Text}
use moghtech_lib.Error.{Error, ok, err, Result-cases}
use moghtech_lib.Config.Json.{Fields}
use moghtech_lib.Workload.Claims.{WorkloadRule, match_rule}
use moghtech_lib.Workload.Rules.{IsMet, match_rule-first, match_rule-none, unmatched}
use moghtech_lib.Exchange.Oauth.{invalid_grant, oauth_error}
use moghtech_lib.Exchange.Token.{unverified_issuer}
use moghtech_lib.Exchange.Providers.{get_or_insert}
use moghtech_lib.Exchange.Workloads.{
  TrustedIssuer, VerifiedWorkload, WorkloadServices, Keys, Progress, report_progress,
  verify_issuers, verify_workload, is_issuer_candidate, rules_of, check_rule_id, no_progress,
  grant_error, unmatched_error,
}
use moghtech_lib.Base.Filtered.{Filtered}
use moghtech_lib.Exchange.Candidates.{
  IsRuleOf, IsIssuerCandidate, HasOwnId, rules_of-Filtered, is_issuer_candidate-Filtered,
  check_rule_id-HasOwnId,
}

unmatched_rules :
    (role : Option Text) (trusted : TrustedIssuer) (claims : Fields)
    → match_rule (rules_of role trusted) claims ≡ none
    → (rules : List WorkloadRule) × Filtered (IsRuleOf role) trusted.rules rules
      × All (λ rule. ¬ IsMet claims rule) rules
unmatched_rules role trusted claims h = (
  rules_of role trusted,
  rules_of-Filtered role trusted,
  unmatched claims (rules_of role trusted) (match_rule-none (rules_of role trusted) claims h),
)

module _ (S : WorkloadServices) where
  -- An issuer that leaves the token to the next one.
  abbrev pub Passes : Text → Option Text → TrustedIssuer → Type 0
  Passes token role trusted =
      ((e : Error) × (S.load_keys trusted ≡ err e))
      ⊎ ((keys : Keys) × (S.load_keys trusted ≡ ok keys)
          × (((e : Error) × (keys token trusted.audiences trusted.max_token_age_secs ≡ err e))
              ⊎ ((claims : Fields) × (keys token trusted.audiences trusted.max_token_age_secs
                    ≡ ok claims)
                  × ((rules : List WorkloadRule) × Filtered (IsRuleOf role) trusted.rules rules
                      × All (λ rule. ¬ IsMet claims rule) rules))))

  -- Its keys verified the token for its audiences, and the rule is the first one of the role that the
  -- claims meet, with an id of its own.
  abbrev pub Matches : Text → Option Text → VerifiedWorkload → Type 0
  Matches token role v =
      (keys : Keys) × (S.load_keys v.issuer ≡ ok keys)
      × (keys token v.issuer.audiences v.issuer.max_token_age_secs ≡ ok v.claims)
      × ((before : List WorkloadRule) × (after : List WorkloadRule) × Filtered (IsRuleOf role)
            v.issuer.rules (before ++ (v.rule ∷ after))
          × All (λ rule. ¬ IsMet v.claims rule) before)
      × IsMet v.claims v.rule
      × HasOwnId v.issuer v.rule

  abbrev pub FirstMatch : Text → Option Text → List TrustedIssuer → VerifiedWorkload → Type 0
  FirstMatch token role issuers v =
      (before : List TrustedIssuer) × (after : List TrustedIssuer) × (issuers
        ≡ before ++ (v.issuer ∷ after))
      × All (Passes token role) before
      × Matches token role v

  report_progress-err :
      (p : Progress) (v : Option VerifiedWorkload) → ¬ (report_progress S p ≡ ok v)
  unfolding report_progress invalid_grant oauth_error
  report_progress-err p v h = ground (arith, h)

  later :
      (token : Text) (role : Option Text) (t : TrustedIssuer) (ts : List TrustedIssuer)
      (v : VerifiedWorkload)
      → Passes token role t
      → FirstMatch token role ts v
      → FirstMatch token role (t ∷ ts) v
  later token role t ts v passes (before, after, split, passed, matches) =
      (t ∷ before, after, ap (λ qs. t ∷ qs) split, (passes, passed), matches)

  matched :
      (token : Text) (role : Option Text) (t : TrustedIssuer) (ts : List TrustedIssuer)
      (v : VerifiedWorkload) (keys : Keys) (claims : Fields) (rule : WorkloadRule)
      → S.load_keys t ≡ ok keys
      → keys token t.audiences t.max_token_age_secs ≡ ok claims
      → match_rule (rules_of role t) claims ≡ some rule
      → check_rule_id t rule ≡ ok tt
      → (t ≡ v.issuer) × (claims ≡ v.claims) × (rule ≡ v.rule)
      → FirstMatch token role (t ∷ ts) v
  matched token role t ts v keys claims rule k m n u (a, b, c) =
      let (before, after, split, earlier, met) =
        match_rule-first (rules_of role v.issuer) v.claims v.rule (ground (arith, n, a, b, c)) in
      let none_met = unmatched v.claims before earlier in
      (
        [],
        ts,
        ap (λ q. q ∷ ts) a,
        tt,
        (
          keys,
          ground (arith, k, a),
          ground (arith, m, a, b),
          (
            before,
            after,
            subst (Filtered (IsRuleOf role) v.issuer.rules) split (rules_of-Filtered role v.issuer),
            none_met,
          ),
          met,
          check_rule_id-HasOwnId v.issuer v.rule (ground (arith, u, a, c)),
        ),
      )

  verify_issuers-FirstMatch :
      (token : Text) (role : Option Text) (p : Progress) (issuers : List TrustedIssuer)
      (v : VerifiedWorkload)
      → verify_issuers S token role p issuers ≡ ok (some v)
      → FirstMatch token role issuers v
  unfolding verify_issuers
  verify_issuers-FirstMatch token role p [] v h = absurd (report_progress-err p (some v) h)
  verify_issuers-FirstMatch token role p (t ∷ ts) v h = elim (Result-cases (S.load_keys t)) [
    | inr (e, k) ↦
        let rest =
          verify_issuers-FirstMatch token role
            (record p { unavailable = get_or_insert p.unavailable e }) ts v in
        later token role t ts v (inl (e, k)) (rest (ground (arith, h, k)))
    | inl (keys, k) ↦ elim (Result-cases (keys token t.audiences t.max_token_age_secs)) [
      | inr (e, m) ↦
          let e' = grant_error (S.display_chain e.notes) in
          let rest = verify_issuers-FirstMatch token role (record p { rejected = some e' }) ts v in
          later token role t ts v (inr (keys, k, inl (e, m))) (rest (ground (arith, h, k, m)))
      | inl (claims, m) ↦ elim (Option-cases (match_rule (rules_of role t) claims)) [
        | inl n ↦
            let unmatched = get_or_insert p.unmatched (unmatched_error role t) in
            let rest =
              verify_issuers-FirstMatch token role (record p { unmatched = unmatched }) ts v in
            later token role t ts v
              (inr (keys, k, inr (claims, m, unmatched_rules role t claims n)))
              (rest (ground (arith, h, k, m, n)))
        | inr (rule, n) ↦ elim (Result-cases (check_rule_id t rule)) [
          | inr (e, c) ↦ absurd (ground (arith, h, k, m, n, c))
          | inl (done, c) ↦ matched token role t ts v keys claims rule k m n c (
            ground (arith, h, k, m, n, c),
            ground (arith, h, k, m, n, c),
            ground (arith, h, k, m, n, c),
          )
        ]
      ]
    ]
  ]

  -- Whose a token is, of a workload: of an issuer that the app lists, and a rule of it.
  abbrev pub IsMatched : Text → Option Text → VerifiedWorkload → Type 0
  IsMatched token role v =
      (issuer : Text) × (issuers : List TrustedIssuer) × (candidates : List TrustedIssuer)
      × (unverified_issuer S.decoding token ≡ some issuer)
      × (S.list_trusted_issuers ≡ ok issuers)
      × Filtered (IsIssuerCandidate issuer role) issuers candidates
      × FirstMatch token role candidates v

  -- A verified workload token names an issuer; of the trusted issuers that the app lists, exactly
  -- those are asked, in their order, that are enabled, have that issuer (but for slashes at the end)
  -- and a rule of the role. The first that does not leave the token to the next decides: its keys
  -- verified the token for its audiences and token age, and the rule, whose id no other rule of the
  -- issuer has, is the first one of the role that is enabled and has conditions, all of them met.
  pub verify_workload-FirstMatch :
      (token : Text) (role : Option Text) (v : VerifiedWorkload)
      → verify_workload S token role ≡ ok (some v)
      → IsMatched token role v
  unfolding verify_workload invalid_grant oauth_error
  verify_workload-FirstMatch token role v h =
      elim (Option-cases (unverified_issuer S.decoding token)) [
        | inl e ↦ absurd (ground (arith, h, e))
        | inr (issuer, e) ↦ elim (Result-cases S.list_trusted_issuers) [
          | inr (f, k) ↦ absurd (ground (arith, h, e, k))
          | inl (issuers, k) ↦
              let candidates = retain (is_issuer_candidate issuer role) issuers in
              (
                issuer,
                issuers,
                candidates,
                e,
                k,
                is_issuer_candidate-Filtered issuer role issuers,
                verify_issuers-FirstMatch token role no_progress candidates v
                    (ground (arith, h, e, k)),
              )
        ]
      ]
