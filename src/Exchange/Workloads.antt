-- ===== src/Exchange/Workloads.antt =====
-- auth/server/src/api/token.rs, `verify_workload`, `check_rule_id` and `current_rule`, with the
-- trusted issuers of auth/client/rs/src/config.rs. Loading the keys of an issuer is a parameter.
use moghtech_lib.Base.{
  ℕ, ◌&&◌, ◌||◌, not, Bool, true, false, Option, none, some, List, [], ◌∷◌, ◌++◌, any, all, retain,
  is_empty, length, leb, ltb, ◌==◌, if◌then◌else◌,
}
use moghtech_lib.Base.Text.{Text, codes, text_eq, utf8_len}
use moghtech_lib.Error.{
  Error, Note, Result, ok, err, fail, fail_with, ◌>>=◌, bad_request, service_unavailable,
  internal_server_error,
}
use moghtech_lib.Config.Json.{Fields}
use moghtech_lib.Workload.Claims.{WorkloadRule, match_rule, find}
use moghtech_lib.Exchange.Oauth.{invalid_grant}
use moghtech_lib.Exchange.Token.{Decoding, unverified_issuer, issuers_match, or_else}
use moghtech_lib.Exchange.Providers.{is_role, get_or_insert}

pub data TrustedIssuerKeys : Type 0 where
  discovery : TrustedIssuerKeys
  jwks_uri : Text → TrustedIssuerKeys
  static : Text → TrustedIssuerKeys

pub record TrustedIssuer : Type 0 where
  pub id : Text
  pub name : Text
  pub enabled : Bool
  pub issuer : Text
  pub keys : TrustedIssuerKeys
  pub audiences : List Text
  pub max_token_age_secs : ℕ
  pub rules : List WorkloadRule

pub record VerifiedWorkload : Type 0 where
  pub issuer : TrustedIssuer
  pub rule : WorkloadRule
  pub claims : Fields

-- The derived `==`.
unfoldable pub keys_eq : TrustedIssuerKeys → TrustedIssuerKeys → Bool
keys_eq discovery discovery = true
keys_eq (jwks_uri a) (jwks_uri b) = text_eq a b
keys_eq (static a) (static b) = text_eq a b
keys_eq _ _ = false

unfoldable pub texts_eq : List Text → List Text → Bool
texts_eq [] [] = true
texts_eq (a ∷ s) (b ∷ t) = text_eq a b && texts_eq s t
texts_eq _ _ = false

abbrev pub max_provider_id_length : ℕ
max_provider_id_length = 64

unfoldable pub is_ascii_alphanumeric : ℕ → Bool
is_ascii_alphanumeric c =
    (leb b'0' c && leb c b'9') || (leb b'A' c && leb c b'Z') || (leb b'a' c && leb c b'z')

unfoldable pub validate_provider_id : Text → Result (Unit {0})
validate_provider_id id =
    if is_empty id
    then fail internal_server_error "Provider id cannot be empty"
    else if ltb max_provider_id_length (utf8_len id)
    then fail internal_server_error "Provider id cannot be longer than 64 characters"
    else if not (all (λ c. is_ascii_alphanumeric c || c == b'-' || c == b'_') id)
    then fail internal_server_error
        "Provider id can only contain alphanumeric characters, '-' and '_'"
    else ok tt

unfoldable pub has_unique_id : TrustedIssuer → WorkloadRule → Bool
has_unique_id issuer rule = length (retain (λ other. text_eq other.id rule.id) issuer.rules) == 1

unfoldable pub check_rule_id : TrustedIssuer → WorkloadRule → Result (Unit {0})
check_rule_id issuer rule =
    let misconfigured =
      fail_with internal_server_error
        (codes "Trusted issuer '" ++ issuer.name ++ codes "' is misconfigured") in
    if has_unique_id issuer rule
    then elim (validate_provider_id rule.id) [ ok done ↦ ok tt | err e ↦ misconfigured ]
    else misconfigured

unfoldable pub is_rule : Option Text → WorkloadRule → Bool
is_rule role rule = is_role role (rule.id ∷ rule.name ∷ [])

unfoldable pub is_issuer_candidate : Text → Option Text → TrustedIssuer → Bool
is_issuer_candidate issuer role trusted =
    trusted.enabled && issuers_match trusted.issuer issuer && any (is_rule role) trusted.rules

-- With a role, only the rules of that name are evaluated.
unfoldable pub rules_of : Option Text → TrustedIssuer → List WorkloadRule
rules_of none trusted = trusted.rules
rules_of (some role) trusted = retain (is_rule (some role)) trusted.rules

-- The keys of an issuer verify tokens, for audiences and up to an age (`verify_payload`).
abbrev pub Keys : Type 0
Keys = Text → List Text → ℕ → Result Fields

pub record Progress : Type 0 where
  pub unavailable : Option Error
  pub rejected : Option Error
  pub unmatched : Option Error

abbrev pub no_progress : Progress
no_progress = record { unavailable = none; rejected = none; unmatched = none }

abbrev pub grant_error : Text → Error
grant_error description = record {
  status = bad_request;
  notes = Note.oauth_error "invalid_grant" description ∷ [];
}

unfoldable pub unmatched_error : Option Text → TrustedIssuer → Error
unmatched_error (some role) trusted = grant_error (
    codes "The token is valid, but does not match rule '"
    ++ role
    ++ codes "' of '"
    ++ trusted.name
    ++ codes "'")
unmatched_error none trusted =
    grant_error (codes "The token is valid, but matches no rule of '" ++ trusted.name ++ codes "'")

pub record WorkloadServices : Type 0 where
  pub decoding : Decoding
  pub display_chain : List Note → Text
  pub list_trusted_issuers : Result (List TrustedIssuer)
  pub load_keys : TrustedIssuer → Result Keys

module _ (S : WorkloadServices) where
  unfoldable pub report_progress : Progress → Result (Option VerifiedWorkload)
  report_progress p = elim (or_else p.unmatched (or_else p.unavailable p.rejected)) [
    | some e ↦ err e
    | none ↦ invalid_grant (codes "Token was rejected")
  ]

  unfoldable pub verify_issuers :
      Text → Option Text → Progress → List TrustedIssuer → Result (Option VerifiedWorkload)
  verify_issuers token role p [] = report_progress p
  verify_issuers token role p (trusted ∷ others) = elim (S.load_keys trusted) [
    | err e ↦
        verify_issuers token role (record p { unavailable = get_or_insert p.unavailable e }) others
    | ok keys ↦ elim (keys token trusted.audiences trusted.max_token_age_secs) [
      | err e ↦
          let e' = grant_error (S.display_chain e.notes) in
          verify_issuers token role (record p { rejected = some e' }) others
      | ok claims ↦ elim (match_rule (rules_of role trusted) claims) [
        | none ↦
            let e = unmatched_error role trusted in
            verify_issuers token role (record p { unmatched = get_or_insert p.unmatched e }) others
        | some rule ↦ do
          checked ← check_rule_id trusted rule
          ok (some (record { issuer = trusted; rule = rule; claims = claims }))
      ]
    ]
  ]

  unfoldable pub verify_workload : Text → Option Text → Result (Option VerifiedWorkload)
  verify_workload token role = elim (unverified_issuer S.decoding token) [
    | none ↦ invalid_grant (codes "The token is not a JWT with an issuer")
    | some issuer ↦ elim S.list_trusted_issuers [
      | err e ↦ err e
      | ok issuers ↦
          let candidates = retain (is_issuer_candidate issuer role) issuers in
          if is_empty candidates then ok none else verify_issuers token role no_progress candidates
    ]
  ]

-- What the token was verified with.
unfoldable pub unchanged : TrustedIssuer → TrustedIssuer → Bool
unchanged read issuer =
    text_eq issuer.issuer read.issuer
    && keys_eq issuer.keys read.keys
    && texts_eq issuer.audiences read.audiences
    && issuer.max_token_age_secs == read.max_token_age_secs

abbrev pub current_match : TrustedIssuer → VerifiedWorkload → Option WorkloadRule
current_match issuer verified =
    elim (find (λ current. text_eq current.id verified.rule.id) issuer.rules) [
      | none ↦ none
      | some current ↦ match_rule (current ∷ []) verified.claims
    ]

-- The issuers are those that the app has by now.
unfoldable pub current_rule :
    Result (List TrustedIssuer) → VerifiedWorkload → Result (TrustedIssuer × WorkloadRule)
current_rule (err e) verified = err e
current_rule (ok issuers) verified =
    let read = verified.issuer in
    elim (find (λ issuer. text_eq issuer.id read.id && issuer.enabled) issuers) [
      | none ↦
          invalid_grant
            (codes "Trusted issuer '" ++ read.name ++ codes "' no longer accepts tokens")
      | some issuer ↦
          if not (unchanged read issuer)
          then fail_with service_unavailable (
              codes "Trusted issuer '"
              ++ issuer.name
              ++ codes "' changed during the exchange, try again")
          else elim (current_match issuer verified) [
            | none ↦ invalid_grant (
                codes "The token no longer matches rule '"
                ++ verified.rule.name
                ++ codes "' of '"
                ++ issuer.name
                ++ codes "'")
            | some current ↦ do checked ← check_rule_id issuer current; ok (issuer, current)
          ]
    ]
