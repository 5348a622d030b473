-- ===== src/Workload/Rules.antt =====
-- auth/server/src/provider/workload.rs, `match_rule`: which rule a token gets.
use moghtech_lib.Base.{
  ◌≡◌, refl, ap, ◌<◌, Bool, true, false, none, some, List, [], ◌∷◌, ◌++◌, length, all, All, arith,
  Bool-cases, inl, inr,
}
use moghtech_lib.Config.Json.{Fields}
use moghtech_lib.Workload.Claims.{WorkloadRule, claim_matches, rule_matches, find, match_rule}

all-All : {A : Type 0} (p : A → Bool) (xs : List A) → all p xs ≡ true → All (λ x. p x ≡ true) xs
all-All p [] h = tt
all-All p (x ∷ xs) h = (ground (arith, h), all-All p xs (ground (arith, h)))

-- The first element that passes: what stands before it fails.
pub find-first :
    {A : Type 0} (p : A → Bool) (xs : List A) (x : A)
    → find p xs ≡ some x
    → (before : List A) × (after : List A) × (xs ≡ before ++ (x ∷ after))
      × All (λ y. p y ≡ false) before
      × (p x ≡ true)
find-first p [] x h = absurd (ground (arith, h))
find-first p (y ∷ ys) x h = elim (Bool-cases (p y)) [
  | inl e ↦
      let same : y ≡ x = ground (arith, h, e) in
      ([], ys, ap (λ z. z ∷ ys) same, tt, ground (arith, e, same))
  | inr e ↦
      let (before, after, split, earlier, passes) = find-first p ys x (ground (arith, h, e)) in
      (y ∷ before, after, ap (λ zs. y ∷ zs) split, (e, earlier), passes)
]

pub find-none :
    {A : Type 0} (p : A → Bool) (xs : List A) → find p xs ≡ none → All (λ y. p y ≡ false) xs
find-none p [] h = tt
find-none p (y ∷ ys) h = (ground (arith, h), find-none p ys (ground (arith, h)))

-- A rule that is enabled, has a condition, and has every condition met.
abbrev pub IsMet : Fields → WorkloadRule → Type 0
IsMet claims rule =
    (rule.enabled ≡ true)
    × (0 < length rule.claims)
    × All (λ condition. claim_matches claims condition ≡ true) rule.claims

pub rule_matches-IsMet :
    (claims : Fields) (rule : WorkloadRule) → rule_matches claims rule ≡ true → IsMet claims rule
unfolding rule_matches
rule_matches-IsMet claims rule h = (
  ground (arith, h),
  ground (arith, h),
  all-All (claim_matches claims) rule.claims (ground (arith, h)),
)

pub match_rule-first :
    (rules : List WorkloadRule) (claims : Fields) (rule : WorkloadRule)
    → match_rule rules claims ≡ some rule
    → (before : List WorkloadRule) × (after : List WorkloadRule) × (rules
        ≡ before ++ (rule ∷ after))
      × All (λ other. rule_matches claims other ≡ false) before
      × IsMet claims rule
unfolding match_rule
match_rule-first rules claims rule h =
    let (before, after, split, earlier, passes) = find-first (rule_matches claims) rules rule h in
    (before, after, split, earlier, rule_matches-IsMet claims rule passes)

pub match_rule-none :
    (rules : List WorkloadRule) (claims : Fields)
    → match_rule rules claims ≡ none
    → All (λ other. rule_matches claims other ≡ false) rules
unfolding match_rule
match_rule-none rules claims h = find-none (rule_matches claims) rules h

All-all : {A : Type 0} (p : A → Bool) (xs : List A) → All (λ x. p x ≡ true) xs → all p xs ≡ true
All-all p [] h = refl
All-all p (x ∷ xs) (h, hs) = ground (arith, h, All-all p xs hs)

IsMet-rule_matches :
    (claims : Fields) (rule : WorkloadRule) → IsMet claims rule → rule_matches claims rule ≡ true
unfolding rule_matches
IsMet-rule_matches claims rule (enabled, some_claims, met) =
    ground (arith, enabled, some_claims, All-all (claim_matches claims) rule.claims met)

-- Rules that do not match are not met.
pub unmatched :
    (claims : Fields) (rules : List WorkloadRule)
    → All (λ other. rule_matches claims other ≡ false) rules
    → All (λ other. ¬ IsMet claims other) rules
unmatched claims [] h = tt
unmatched claims (rule ∷ rules) (h, hs) =
    (λ met. ground (arith, h, IsMet-rule_matches claims rule met), unmatched claims rules hs)
