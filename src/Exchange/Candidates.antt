-- ===== src/Exchange/Candidates.antt =====
-- auth/server/src/api/token.rs, `exchange_candidates`, `verify_workload` and `check_rule_id`: which
-- providers, issuers and rules are asked for a token.
use moghtech_lib.Base.{
  ◌≡◌, ◌≢◌, refl, ◌↔◌, ◌⊎◌, inl, true, ◌&&◌, Option, none, some, List, [], ◌∷◌, retain, arith,
}
use moghtech_lib.Base.Filtered.{
  Member, Filtered, IsAlone, retain-Filtered, Filtered-all, any-Member, Member-any, retain-IsAlone,
}
use moghtech_lib.Base.Text.{Text, text_eq, text_eq_iff, trim_end_matches}
use moghtech_lib.Error.{ok}
use moghtech_lib.Workload.Claims.{WorkloadRule}
use moghtech_lib.Exchange.Token.{issuers_match}
use moghtech_lib.Exchange.Providers.{
  ExternalLoginProvider, ExternalLoginProviderConfig, oidc, github, google, google_issuer, is_role,
  slug, config_enabled, config_issuer_match, is_candidate,
}
use moghtech_lib.Exchange.Workloads.{
  TrustedIssuer, is_rule, is_issuer_candidate, rules_of, check_rule_id, has_unique_id,
}

-- The same issuer, but for slashes at the end.
abbrev pub SameIssuer : Text → Text → Type 0
SameIssuer a b =
    (trim_end_matches b'/' a ≢ []) × (trim_end_matches b'/' a ≡ trim_end_matches b'/' b)

issuers_match_iff : (a b : Text) → (issuers_match a b ≡ true) ↔ SameIssuer a b
unfolding issuers_match
issuers_match_iff a b =
    ground (arith, text_eq_iff (trim_end_matches b'/' a) (trim_end_matches b'/' b))

-- A provider that is enabled, with all that its kind needs, and has the issuer. Github has none.
abbrev pub HasIssuer : Text → ExternalLoginProviderConfig → Type 0
HasIssuer issuer (oidc c) =
    (c.enabled ≡ true) × (c.provider ≢ []) × (c.client_id ≢ []) × SameIssuer c.provider issuer
HasIssuer issuer (github c) = ⊥
HasIssuer issuer (google c) =
    (c.enabled ≡ true) × (c.client_id ≢ []) × SameIssuer google_issuer issuer

config_iff :
    (issuer : Text) (config : ExternalLoginProviderConfig)
    → ((config_enabled config && config_issuer_match issuer config) ≡ true)
      ↔ HasIssuer issuer config
unfolding config_enabled config_issuer_match
config_iff issuer (oidc c) = ground (arith, issuers_match_iff c.provider issuer)
config_iff issuer (github c) = ground arith
config_iff issuer (google c) = ground (arith, issuers_match_iff google_issuer issuer)

-- No role is asked for, or the provider by its id, its name or its slug, if it has one.
abbrev pub HasRole : Option Text → ExternalLoginProvider → Type 0
HasRole role provider =
    (role ≡ none)
    ⊎ (role ≡ some provider.id)
    ⊎ (role ≡ some provider.name)
    ⊎ ((provider.slug_given ≢ []) × (role ≡ some provider.slug_given))

is_role_iff :
    (role : Option Text) (provider : ExternalLoginProvider)
    → (is_role role (provider.id ∷ slug provider ∷ provider.name ∷ []) ≡ true)
      ↔ HasRole role provider
unfolding is_role slug
is_role_iff none provider = ground arith
is_role_iff (some role) provider = ground (
  arith,
  text_eq_iff role provider.id,
  text_eq_iff role provider.name,
  text_eq_iff role provider.slug_given,
)

abbrev pub IsCandidate : Text → Option Text → ExternalLoginProvider → Type 0
IsCandidate issuer role provider =
    (provider.token_exchange_enabled ≡ true)
    × HasRole role provider
    × HasIssuer issuer provider.config

is_candidate_iff :
    (issuer : Text) (role : Option Text) (provider : ExternalLoginProvider)
    → (is_candidate issuer role provider ≡ true) ↔ IsCandidate issuer role provider
unfolding is_candidate
is_candidate_iff issuer role provider =
    ground (arith, config_iff issuer provider.config, is_role_iff role provider)

pub is_candidate-Filtered :
    (issuer : Text) (role : Option Text) (providers : List ExternalLoginProvider)
    → Filtered (IsCandidate issuer role) providers (retain (is_candidate issuer role) providers)
is_candidate-Filtered issuer role providers =
    retain-Filtered (is_candidate issuer role) (IsCandidate issuer role)
      (is_candidate_iff issuer role) providers

-- No role is asked for, or the rule by its id or its name.
abbrev pub IsRuleOf : Option Text → WorkloadRule → Type 0
IsRuleOf role rule = (role ≡ none) ⊎ (role ≡ some rule.id) ⊎ (role ≡ some rule.name)

is_rule_iff :
    (role : Option Text) (rule : WorkloadRule) → (is_rule role rule ≡ true) ↔ IsRuleOf role rule
unfolding is_rule is_role
is_rule_iff none rule = ground arith
is_rule_iff (some role) rule = ground (arith, text_eq_iff role rule.id, text_eq_iff role rule.name)

pub rules_of-Filtered :
    (role : Option Text) (trusted : TrustedIssuer)
    → Filtered (IsRuleOf role) trusted.rules (rules_of role trusted)
unfolding rules_of
rules_of-Filtered none trusted = Filtered-all (IsRuleOf none) (λ rule. inl refl) trusted.rules
rules_of-Filtered (some role) trusted =
    retain-Filtered (is_rule (some role)) (IsRuleOf (some role)) (is_rule_iff (some role))
      trusted.rules

-- An issuer that is enabled, is the one of the token, and has a rule of the role.
abbrev pub IsIssuerCandidate : Text → Option Text → TrustedIssuer → Type 0
IsIssuerCandidate issuer role trusted =
    (trusted.enabled ≡ true)
    × SameIssuer trusted.issuer issuer
    × ((rule : WorkloadRule) × Member rule trusted.rules × IsRuleOf role rule)

is_issuer_candidate_iff :
    (issuer : Text) (role : Option Text) (trusted : TrustedIssuer)
    → (is_issuer_candidate issuer role trusted ≡ true) ↔ IsIssuerCandidate issuer role trusted
unfolding is_issuer_candidate
is_issuer_candidate_iff issuer role trusted =
    let same = issuers_match_iff trusted.issuer issuer in
    (
      λ h.
          let (rule, member, passes) =
            any-Member (is_rule role) trusted.rules (ground (arith, h)) in
          (
            ground (arith, h),
            same.0 (ground (arith, h)),
            (rule, member, (is_rule_iff role rule).0 passes),
          ),
      λ (enabled, issued, (rule, member, passes)).
          let has_rule =
            Member-any (is_rule role) rule trusted.rules member
              ((is_rule_iff role rule).1 passes) in
          ground (arith, enabled, same.1 issued, has_rule),
    )

pub is_issuer_candidate-Filtered :
    (issuer : Text) (role : Option Text) (issuers : List TrustedIssuer)
    → Filtered
        (IsIssuerCandidate issuer role)
        issuers
        (retain (is_issuer_candidate issuer role) issuers)
is_issuer_candidate-Filtered issuer role issuers =
    retain-Filtered (is_issuer_candidate issuer role) (IsIssuerCandidate issuer role)
      (is_issuer_candidate_iff issuer role) issuers

-- One rule of the issuer alone has the id of the rule.
abbrev pub HasOwnId : TrustedIssuer → WorkloadRule → Type 0
HasOwnId issuer rule = IsAlone (λ other. other.id ≡ rule.id) issuer.rules

pub check_rule_id-HasOwnId :
    (issuer : TrustedIssuer) (rule : WorkloadRule)
    → check_rule_id issuer rule ≡ ok tt
    → HasOwnId issuer rule
unfolding check_rule_id has_unique_id
check_rule_id-HasOwnId issuer rule h =
    retain-IsAlone (λ other. text_eq other.id rule.id) (λ other. other.id ≡ rule.id)
      (λ other. text_eq_iff other.id rule.id) issuer.rules (ground (arith, h))
