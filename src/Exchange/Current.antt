-- ===== src/Exchange/Current.antt =====
-- auth/server/src/api/token.rs, `current_rule`: the rule as it is under the lock of its user.
use moghtech_lib.Base.{
  ◌≡◌, refl, sym, ap, subst, ◌∙◌, inl, inr, Bool, true, some, List, [], ◌∷◌, ◌++◌, ◌&&◌, arith,
  Bool-cases, Option-cases,
}
use moghtech_lib.Base.Text.{Text, text_eq, text_eq_iff}
use moghtech_lib.Error.{Result, ok, err, Result-cases}
use moghtech_lib.Config.Json.{Fields}
use moghtech_lib.Workload.Claims.{WorkloadRule, rule_matches, match_rule, find}
use moghtech_lib.Workload.Rules.{IsMet, rule_matches-IsMet, find-first}
use moghtech_lib.Exchange.Oauth.{invalid_grant, oauth_error}
use moghtech_lib.Exchange.Workloads.{
  TrustedIssuer, VerifiedWorkload, check_rule_id, TrustedIssuerKeys, discovery, jwks_uri, static,
  keys_eq, texts_eq, unchanged, current_match, current_rule,
}
use moghtech_lib.Exchange.Candidates.{HasOwnId, check_rule_id-HasOwnId}

match_rule-one :
    (current rule : WorkloadRule) (claims : Fields)
    → match_rule (current ∷ []) claims ≡ some rule
    → (current ≡ rule) × IsMet claims rule
unfolding match_rule
match_rule-one current rule claims h = elim (Bool-cases (rule_matches claims current)) [
  | inl e ↦
      let same : current ≡ rule = ground (arith, h, e) in
      (same, subst (IsMet claims) same (rule_matches-IsMet claims current e))
  | inr e ↦ absurd (ground (arith, h, e))
]

current_match-IsMet :
    (issuer : TrustedIssuer) (v : VerifiedWorkload) (rule : WorkloadRule)
    → current_match issuer v ≡ some rule
    → (rule.id ≡ v.rule.id) × IsMet v.claims rule
current_match-IsMet issuer v rule h =
    let test : WorkloadRule → Bool = λ current. text_eq current.id v.rule.id in
    elim (Option-cases (find test issuer.rules)) [
      | inl e ↦ absurd (ground (arith, h, e))
      | inr (current, e) ↦
          let (before, after, split, earlier, found) = find-first test issuer.rules current e in
          let (same, met) = match_rule-one current rule v.claims (ground (arith, h, e)) in
          let id : current.id ≡ v.rule.id = (text_eq_iff current.id v.rule.id).0 found in
          (ap (λ r. r.id) (sym same) ∙ id, met)
    ]

keys_eq-same : (a b : TrustedIssuerKeys) → keys_eq a b ≡ true → a ≡ b
unfolding keys_eq
keys_eq-same discovery discovery h = refl
keys_eq-same (jwks_uri a) (jwks_uri b) h = ap jwks_uri ((text_eq_iff a b).0 h)
keys_eq-same (static a) (static b) h = ap static ((text_eq_iff a b).0 h)
keys_eq-same discovery (jwks_uri b) h = absurd (ground (arith, h))
keys_eq-same discovery (static b) h = absurd (ground (arith, h))
keys_eq-same (jwks_uri a) discovery h = absurd (ground (arith, h))
keys_eq-same (jwks_uri a) (static b) h = absurd (ground (arith, h))
keys_eq-same (static a) discovery h = absurd (ground (arith, h))
keys_eq-same (static a) (jwks_uri b) h = absurd (ground (arith, h))

texts_eq-same : (s t : List Text) → texts_eq s t ≡ true → s ≡ t
unfolding texts_eq
texts_eq-same [] [] h = refl
texts_eq-same [] (b ∷ t) h = absurd (ground (arith, h))
texts_eq-same (a ∷ s) [] h = absurd (ground (arith, h))
texts_eq-same (a ∷ s) (b ∷ t) h =
    let first = (text_eq_iff a b).0 (ground (arith, h)) in
    let rest = texts_eq-same s t (ground (arith, h)) in ground (arith, first, rest)

-- What a token is verified with is as it was.
abbrev pub IsUnchanged : TrustedIssuer → TrustedIssuer → Type 0
IsUnchanged read issuer =
    (issuer.issuer ≡ read.issuer)
    × (issuer.keys ≡ read.keys)
    × (issuer.audiences ≡ read.audiences)
    × (issuer.max_token_age_secs ≡ read.max_token_age_secs)

unchanged-IsUnchanged :
    (read issuer : TrustedIssuer) → unchanged read issuer ≡ true → IsUnchanged read issuer
unfolding unchanged
unchanged-IsUnchanged read issuer h = (
  (text_eq_iff issuer.issuer read.issuer).0 (ground (arith, h)),
  keys_eq-same issuer.keys read.keys (ground (arith, h)),
  texts_eq-same issuer.audiences read.audiences (ground (arith, h)),
  ground (arith, h),
)

-- The issuer and rule as they are now.
abbrev pub IsCurrent :
    Result (List TrustedIssuer) → VerifiedWorkload → TrustedIssuer → WorkloadRule → Type 0
IsCurrent current v issuer rule =
    (before : List TrustedIssuer) × (after : List TrustedIssuer) × (current
      ≡ ok (before ++ (issuer ∷ after)))
    × (issuer.id ≡ v.issuer.id)
    × (issuer.enabled ≡ true)
    × IsUnchanged v.issuer issuer
    × (rule.id ≡ v.rule.id)
    × IsMet v.claims rule
    × HasOwnId issuer rule

checked-IsCurrent :
    (issuers : List TrustedIssuer) (v : VerifiedWorkload) (issuer : TrustedIssuer)
    (rule : WorkloadRule)
    → find (λ i. text_eq i.id v.issuer.id && i.enabled) issuers ≡ some issuer
    → unchanged v.issuer issuer ≡ true
    → current_match issuer v ≡ some rule
    → check_rule_id issuer rule ≡ ok tt
    → IsCurrent (ok issuers) v issuer rule
checked-IsCurrent issuers v issuer rule e k m n =
    let test : TrustedIssuer → Bool = λ i. text_eq i.id v.issuer.id && i.enabled in
    let (before, after, split, earlier, found) = find-first test issuers issuer e in
    let (id, met) = current_match-IsMet issuer v rule m in
    (
      before,
      after,
      ap ok split,
      ground (arith, found, text_eq_iff issuer.id v.issuer.id),
      ground (arith, found),
      unchanged-IsUnchanged v.issuer issuer k,
      id,
      met,
      check_rule_id-HasOwnId issuer rule n,
    )

-- The rule that an exchange goes on with is the rule as it is now: of the issuer of the same id,
-- which is enabled and whose keys, audiences, issuer and token age are those that the token was
-- verified with; the rule has the id of the one that matched, which no other rule of the issuer
-- has, and the claims meet it.
pub current_rule-IsCurrent :
    (current : Result (List TrustedIssuer)) (v : VerifiedWorkload) (issuer : TrustedIssuer)
    (rule : WorkloadRule)
    → current_rule current v ≡ ok (issuer, rule)
    → IsCurrent current v issuer rule
unfolding current_rule invalid_grant oauth_error
current_rule-IsCurrent (err e) v issuer rule h = absurd (ground (arith, h))
current_rule-IsCurrent (ok issuers) v issuer rule h =
    let test : TrustedIssuer → Bool = λ i. text_eq i.id v.issuer.id && i.enabled in
    elim (Option-cases (find test issuers)) [
      | inl e ↦ absurd (ground (arith, h, e))
      | inr (i, e) ↦ elim (Bool-cases (unchanged v.issuer i)) [
        | inr k ↦ absurd (ground (arith, h, e, k))
        | inl k ↦ elim (Option-cases (current_match i v)) [
          | inl m ↦ absurd (ground (arith, h, e, k, m))
          | inr (r, m) ↦ elim (Result-cases (check_rule_id i r)) [
            | inr (f, n) ↦ absurd (ground (arith, h, e, k, m, n))
            | inl (done, n) ↦
                let same : i ≡ issuer = ground (arith, h, e, k, m, n) in
                let same_rule : r ≡ rule = ground (arith, h, e, k, m, n) in
                subst (λ j. IsCurrent (ok issuers) v j rule) same
                  (subst (λ q. IsCurrent (ok issuers) v i q) same_rule
                    (checked-IsCurrent issuers v i r e k m n))
          ]
        ]
      ]
    ]
