-- ===== src/Workload/Claims.antt =====
-- auth/server/src/provider/workload.rs, `lookup_claim`, `claim_matches`, `match_rule`, and the rules
-- of auth/client/rs/src/config.rs. The claims of a token are a JSON object.
use moghtech_lib.Base.{
  ℕ, zero, suc, Bool, true, false, ◌||◌, ◌&&◌, not, Option, none, some, List, [], ◌∷◌, ◌++◌, ltb,
  ◌==◌, if◌then◌else◌, length, take, drop, is_empty, all,
}
use moghtech_lib.Base.Text.{Text, codes, split}
use moghtech_lib.Config.Json.{Value, Items, Fields, get}
use moghtech_lib.Workload.Glob.{glob_match}

abbrev pub max_claim_path_parts : ℕ
max_claim_path_parts = 16

-- `[&str]::join`, with a dot.
unfoldable pub join : List Text → Text
join [] = []
join (part ∷ []) = part
join (part ∷ next ∷ parts) = part ++ (b'.' ∷ join (next ∷ parts))

abbrev pub as_object : Value → Option Fields
as_object (Value.object nested) = some nested
as_object _ = none

-- The loop of the inner `lookup` over the lengths of a name, the longest first. Each level of
-- the claims uses one part of the path at least, so the number of parts is enough fuel.
unfoldable pub lookup : ℕ → List Text → ℕ → Fields → Option Value
lookup fuel parts zero claims = none
lookup zero parts (suc n) claims = none
lookup (suc fuel) parts (suc n) claims =
    let shorter = lookup (suc fuel) parts n claims in
    elim (get (join (take (suc n) parts)) claims) [
      | none ↦ shorter
      | some value ↦ if suc n == length parts then some value else elim (as_object value) [
        | none ↦ shorter
        | some nested ↦
            let rest = drop (suc n) parts in
            elim (lookup fuel rest (length rest) nested) [
              | some found ↦ some found
              | none ↦ shorter
            ]
      ]
    ]

unfoldable pub lookup_claim : Fields → Text → Option Value
lookup_claim claims path =
    let parts = split b'.' path in
    if is_empty path || ltb max_claim_path_parts (length parts)
    then none
    else lookup (length parts) parts (length parts) claims

pub record WorkloadClaim : Type 0 where
  pub claim : Text
  pub pattern : Text

pub record WorkloadRule : Type 0 where
  pub id : Text
  pub name : Text
  pub enabled : Bool
  pub claims : List WorkloadClaim
  pub groups : List Text
  pub admin : Bool
  pub token_ttl_secs : ℕ

unfoldable pub value_matches : Text → Value → Bool
value_matches pattern (Value.string value) = glob_match pattern value
value_matches pattern (Value.bool true) = glob_match pattern (codes "true")
value_matches pattern (Value.bool false) = glob_match pattern (codes "false")
value_matches pattern (Value.number value) = glob_match pattern value
value_matches pattern _ = false

unfoldable pub any_matches : Text → Items → Bool
any_matches pattern Items.nil = false
any_matches pattern (Items.cons value values) =
    value_matches pattern value || any_matches pattern values

-- One of the values of a list, or the value. A missing claim never matches.
unfoldable pub found_matches : Text → Option Value → Bool
found_matches pattern (some (Value.array values)) = any_matches pattern values
found_matches pattern (some value) = value_matches pattern value
found_matches pattern none = false

unfoldable pub claim_matches : Fields → WorkloadClaim → Bool
claim_matches claims condition =
    found_matches condition.pattern (lookup_claim claims condition.claim)

unfoldable pub rule_matches : Fields → WorkloadRule → Bool
rule_matches claims rule =
    rule.enabled && not (is_empty rule.claims) && all (claim_matches claims) rule.claims

-- `Iterator::find`
abbrev pub find {ℓ} : {A : Type ℓ} → (A → Bool) → List A → Option A
find p [] = none
find p (x ∷ xs) = if p x then some x else find p xs

unfoldable pub match_rule : List WorkloadRule → Fields → Option WorkloadRule
match_rule rules claims = find (rule_matches claims) rules
