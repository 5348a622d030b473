-- ===== src/Base/Filtered.antt =====
-- Members of a list, and what a filter leaves, as relations.
use moghtech_lib.Base.{
  ◌≡◌, refl, ap, subst, ◌↔◌, inl, inr, Bool, true, List, [], ◌∷◌, ◌++◌, length, retain, any, All,
  arith, Bool-cases,
}

pub data Member {A : Type 0} : A → List A → Type 0 where
  here : {x : A} {xs : List A} → Member x (x ∷ xs)
  there : {x y : A} {xs : List A} → Member x xs → Member x (y ∷ xs)

-- The elements with a property, in their order.
pub data Filtered {A : Type 0} (P : A → Type 0) : List A → List A → Type 0 where
  nothing : Filtered P [] []
  taken : {x : A} {xs ys : List A} → P x → Filtered P xs ys → Filtered P (x ∷ xs) (x ∷ ys)
  skipped : {x : A} {xs ys : List A} → ¬ P x → Filtered P xs ys → Filtered P (x ∷ xs) ys

module _ {A : Type 0} where
  pub retain-Filtered :
      (p : A → Bool) (P : A → Type 0)
      → ((x : A) → (p x ≡ true) ↔ P x)
      → (xs : List A) → Filtered P xs (retain p xs)
  retain-Filtered p P h [] = nothing
  retain-Filtered p P h (x ∷ xs) = elim (Bool-cases (p x)) [
    | inl e ↦
        subst (Filtered P (x ∷ xs)) (ground (arith, e))
          (taken {ys = retain p xs} ((h x).0 e) (retain-Filtered p P h xs))
    | inr e ↦
        subst (Filtered P (x ∷ xs)) (ground (arith, e)) (
          skipped {ys = retain p xs} (λ q. ground (arith, e, (h x).1 q)) (retain-Filtered p P h xs))
  ]

  pub Filtered-all : (P : A → Type 0) → ((x : A) → P x) → (xs : List A) → Filtered P xs xs
  Filtered-all P h [] = nothing
  Filtered-all P h (x ∷ xs) = taken (h x) (Filtered-all P h xs)

  pub any-Member :
      (p : A → Bool) (xs : List A) → any p xs ≡ true → (x : A) × Member x xs × (p x ≡ true)
  any-Member p [] h = absurd (ground (arith, h))
  any-Member p (x ∷ xs) h = elim (Bool-cases (p x)) [
    | inl e ↦ (x, here, e)
    | inr e ↦
        let (y, member, passes) = any-Member p xs (ground (arith, h, e)) in
        (y, there member, passes)
  ]

  pub Member-any : (p : A → Bool) (x : A) (xs : List A) → Member x xs → p x ≡ true → any p xs ≡ true
  Member-any p x [] member h = elim member [ ]
  Member-any p x (y ∷ xs) here h = ground (arith, h)
  Member-any p x (y ∷ xs) (there member) h = ground (arith, Member-any p x xs member h)

  -- The one element of the list with a property.
  abbrev pub IsAlone : (A → Type 0) → List A → Type 0
  IsAlone P xs =
      (before : List A) × (x : A) × (after : List A) × (xs ≡ before ++ (x ∷ after))
      × P x
      × All (λ y. ¬ P y) before
      × All (λ y. ¬ P y) after

  retain-none :
      (p : A → Bool) (P : A → Type 0)
      → ((x : A) → (p x ≡ true) ↔ P x)
      → (xs : List A) → length (retain p xs) ≡ 0
      → All (λ y. ¬ P y) xs
  retain-none p P h [] e = tt
  retain-none p P h (x ∷ xs) e = elim (Bool-cases (p x)) [
    | inl k ↦ absurd (ground (arith, e, k))
    | inr k ↦ (λ q. ground (arith, k, (h x).1 q), retain-none p P h xs (ground (arith, e, k)))
  ]

  pub retain-IsAlone :
      (p : A → Bool) (P : A → Type 0)
      → ((x : A) → (p x ≡ true) ↔ P x)
      → (xs : List A) → length (retain p xs) ≡ 1
      → IsAlone P xs
  retain-IsAlone p P h [] e = absurd (ground (arith, e))
  retain-IsAlone p P h (x ∷ xs) e = elim (Bool-cases (p x)) [
    | inl k ↦ ([], x, xs, refl, (h x).0 k, tt, retain-none p P h xs (ground (arith, e, k)))
    | inr k ↦
        let (before, y, after, split, holds, none_before, none_after) =
          retain-IsAlone p P h xs (ground (arith, e, k)) in
        (
          x ∷ before,
          y,
          after,
          ap (λ ys. x ∷ ys) split,
          holds,
          (λ q. ground (arith, k, (h x).1 q), none_before),
          none_after,
        )
  ]
