-- ===== src/Workload/Lookup.antt =====
-- auth/server/src/provider/workload.rs, `lookup_claim`: against the meaning of a dotted path.
use moghtech_lib.Base.{
  ℕ, zero, suc, ◌≡◌, refl, subst, ap, ◌∙◌, ◌≤◌, ◌<◌, true, false, some, List, [], ◌∷◌, ◌==◌, ◌-◌,
  is_some, length, take, drop, is_empty, arith, Option-cases, Bool-cases, inl, inr,
}
use moghtech_lib.Base.Text.{Text, split, split-same, split-other, split-cases}
use moghtech_lib.Config.Json.{Value, Fields, get}
use moghtech_lib.Workload.Claims.{join, as_object, lookup, lookup_claim, max_claim_path_parts}

-- A value stands at the parts of a path: under their joined name, or in an object under the
-- name joined from the first of them, at the rest.
pub data At : Fields → List Text → Value → Type 0 where
  named :
      {claims : Fields} {parts : List Text} {v : Value}
      → 0 < length parts
      → get (join parts) claims ≡ some v
      → At claims parts v
  nested :
      {claims : Fields} {parts : List Text} {v : Value} (n : ℕ) (m : Fields)
      → 0 < n
      → n < length parts
      → get (join (take n parts)) claims ≡ some (Value.object m)
      → At m (drop n parts) v
      → At claims parts v

take_all : (parts : List Text) → take (length parts) parts ≡ parts
take_all [] = refl
take_all (part ∷ parts) = ap (λ ps. part ∷ ps) (take_all parts)

as_object-object : (v : Value) (m : Fields) → as_object v ≡ some m → v ≡ Value.object m
as_object-object (Value.object k) m h = ground (arith, h)
as_object-object Value.null m h = absurd (ground (arith, h))
as_object-object (Value.bool b) m h = absurd (ground (arith, h))
as_object-object (Value.number b) m h = absurd (ground (arith, h))
as_object-object (Value.string b) m h = absurd (ground (arith, h))
as_object-object (Value.array b) m h = absurd (ground (arith, h))

-- What is found is at the path.
lookup-At :
    (fuel : ℕ) (parts : List Text) (n : ℕ) (claims : Fields) (v : Value)
    → n ≤ length parts
    → lookup fuel parts n claims ≡ some v
    → At claims parts v
unfolding lookup
lookup-At fuel parts zero claims v le h = absurd (ground (arith, h))
lookup-At zero parts (suc n) claims v le h = absurd (ground (arith, h))
lookup-At (suc fuel) parts (suc n) claims v le h =
    let shorter = lookup-At (suc fuel) parts n claims v (omega (arith, le)) in
    elim (Option-cases (get (join (take (suc n) parts)) claims)) [
      | inl e ↦ shorter (ground (arith, h, e))
      | inr (w, e) ↦ elim (Bool-cases (suc n == length parts)) [
        | inl k ↦
            let whole : suc n ≡ length parts = ground (arith, k) in
            let key = ap (λ i. take i parts) whole ∙ take_all parts in
            named (omega (arith, le)) (rw (← key) (ground (arith, h, e, k)))
        | inr k ↦ elim (Option-cases (as_object w)) [
          | inl o ↦ shorter (ground (arith, h, e, k, o))
          | inr (m, o) ↦
              let rest = drop (suc n) parts in
              elim (Option-cases (lookup fuel rest (length rest) m)) [
                | inl f ↦ shorter (ground (arith, h, e, k, o, f))
                | inr (x, f) ↦
                    let at = lookup-At fuel rest (length rest) m x (omega arith) f in
                    let same : x ≡ v = ground (arith, h, e, k, o, f) in
                    nested (suc n) m (omega arith) (ground (arith, k, le))
                      (rw (as_object-object w m o) at e) (subst (At m rest) same at)
              ]
        ]
      ]
    ]

length-drop : (n : ℕ) (parts : List Text) → length (drop n parts) ≡ length parts - n
length-drop zero parts = omega arith
length-drop (suc n) [] = omega arith
length-drop (suc n) (part ∷ parts) = omega (arith, length-drop n parts)

-- The whole rest of the path is tried first.
lookup-whole :
    (fuel : ℕ) (parts : List Text) (claims : Fields) (v : Value)
    → 0 < length parts
    → get (join parts) claims ≡ some v
    → lookup (suc fuel) parts (length parts) claims ≡ some v
unfolding lookup
lookup-whole fuel [] claims v lt h = absurd (omega (arith, lt))
lookup-whole fuel (part ∷ parts) claims v lt h =
    ground (arith, h, take_all parts, ap (λ ps. part ∷ ps) (take_all parts))

lookup-under :
    (fuel : ℕ) (parts : List Text) (j n : ℕ) (claims m : Fields)
    → get (join (take (suc j) parts)) claims ≡ some (Value.object m)
    → suc j < length parts
    → is_some (lookup fuel (drop (suc j) parts) (length (drop (suc j) parts)) m) ≡ true
    → suc j ≤ n
    → is_some (lookup (suc fuel) parts n claims) ≡ true
unfolding lookup
lookup-under fuel parts j zero claims m h lt found le = absurd (omega (arith, le))
lookup-under fuel parts j (suc n) claims m h lt found le = elim (Bool-cases (j == n)) [
  | inl e ↦ let same : n ≡ j = ground (arith, e) in rw same (ground (arith, h, lt, found))
  | inr e ↦ ground (arith, e, le, lookup-under fuel parts j n claims m h lt found)
]

At-lookup :
    {claims : Fields} {parts : List Text} {v : Value} (fuel : ℕ)
    → At claims parts v
    → length parts ≤ fuel
    → is_some (lookup fuel parts (length parts) claims) ≡ true
At-lookup zero (named lt h) le = absurd (omega (arith, lt, le))
At-lookup {claims} {parts} {v} (suc fuel) (named lt h) le =
    ground (arith, lookup-whole fuel parts claims v lt h)
At-lookup zero (nested n m pos lt h at) le = absurd (omega (arith, lt, le))
At-lookup (suc fuel) (nested zero m pos lt h at) le = absurd (omega (arith, pos))
At-lookup {claims} {parts} (suc fuel) (nested (suc j) m pos lt h at) le =
    let found = At-lookup fuel at (omega (arith, le, length-drop (suc j) parts)) in
    lookup-under fuel parts j (length parts) claims m h lt found (omega (arith, lt))

join-nil : (part : Text) (parts : List Text) → join ([] ∷ part ∷ parts) ≡ b'.' ∷ join (part ∷ parts)
unfolding join
join-nil part parts = refl

join-cons :
    (c : ℕ) (part : Text) (parts : List Text) → join ((c ∷ part) ∷ parts) ≡ c ∷ join (part ∷ parts)
unfolding join
join-cons c part [] = refl
join-cons c part (next ∷ parts) = refl

join-split-nil : join (split b'.' []) ≡ []
unfolding split join
join-split-nil = refl

join-split : (s : Text) → join (split b'.' s) ≡ s
join-split [] = join-split-nil
join-split (c ∷ s) =
    let (part, parts, k) = split-cases b'.' s in
    let rest = rw k at (join-split s) in
    elim (Bool-cases (c == b'.')) [
      | inl e ↦
          let same : c ≡ b'.' = ground (arith, e) in
          rw (same, split-same b'.' s, k, join-nil part parts, rest) refl
      | inr e ↦ rw (split-other b'.' c s part parts e k, join-cons c part parts, rest) refl
    ]

lookup_claim-lookup :
    (claims : Fields) (path : Text)
    → is_empty path ≡ false
    → length (split b'.' path) ≤ max_claim_path_parts
    → lookup_claim claims path
      ≡ lookup (length (split b'.' path)) (split b'.' path) (length (split b'.' path)) claims
unfolding lookup_claim
lookup_claim-lookup claims path full le = ground (arith, full, le)

lookup_claim-whole :
    (claims : Fields) (path : Text) (v : Value)
    → is_empty path ≡ false
    → length (split b'.' path) ≤ max_claim_path_parts
    → get path claims ≡ some v
    → lookup_claim claims path ≡ some v
lookup_claim-whole claims path v full le h =
    let (part, parts, k) = split-cases b'.' path in
    let key : get (join (split b'.' path)) claims ≡ some v = rw (join-split path) h in
    let found = lookup-whole (length parts) (part ∷ parts) claims v (omega arith) (rw k at key) in
    rw (lookup_claim-lookup claims path full le, k) found

-- At a path that is not empty and has sixteen parts at most: what is found stands at the path,
-- something is found when anything stands there, and the value under the whole path, as one name,
-- is found before any nested one.
pub lookup_claim-At :
    (claims : Fields) (path : Text)
    → is_empty path ≡ false
    → length (split b'.' path) ≤ max_claim_path_parts
    → ((v : Value) → lookup_claim claims path ≡ some v → At claims (split b'.' path) v)
      × ((v : Value) → At claims (split b'.' path) v → is_some (lookup_claim claims path) ≡ true)
      × ((v : Value) → get path claims ≡ some v → lookup_claim claims path ≡ some v)
lookup_claim-At claims path full le =
    let parts = split b'.' path in
    let same = lookup_claim-lookup claims path full le in
    (
      λ v h. lookup-At (length parts) parts (length parts) claims v (omega arith) (rw same at h),
      λ v at. rw same (At-lookup (length parts) at (omega arith)),
      λ v h. lookup_claim-whole claims path v full le h,
    )
