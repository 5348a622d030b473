-- ===== src/Base/Table.antt =====
-- A `HashMap` as an association list, in the order in which the map is walked. The keys are a
-- type with a Boolean equality.
use Prim.Native.String.{String}
use mathlib.Core.Path.{◌≡◌, refl}
use mathlib.Core.Logic.{◌↔◌, inl, inr}
use mathlib.Core.Bool.{Bool, true, false}
use mathlib.Core.Option.{Option, none, some}
use mathlib.Core.List.{List, [], ◌∷◌}
use native.Mathlib.Omega.{arith}
use text.Mathlib.Text.{◌==◌ as str_eq}
use text.Mathlib.TextEquality.{eq_iff}
use moghtech_lib.Base.Tests.{if◌then◌else◌, Bool-cases}
use moghtech_lib.Base.Lists.{All}

pub record Eq {ℓ} (K : Type ℓ) : Type ℓ where
  pub beq : K → K → Bool
  pub beq_iff : (j k : K) → (beq j k ≡ true) ↔ (j ≡ k)

instance abbrev pub string_eq : Eq String
string_eq = record { beq_iff = eq_iff; beq = str_eq }

pub beq_refl {ℓ} : {K : Type ℓ} ⦃e : Eq K⦄ (k : K) → e.beq k k ≡ true
beq_refl ⦃e⦄ k = (e.beq_iff k k).1 refl

module _ {ℓ κ} {K : Type ℓ} {V : Type κ} ⦃e : Eq K⦄ where
  unfoldable pub lookup : K → List (K × V) → Option V
  lookup k [] = none
  lookup k ((j, v) ∷ m) = if e.beq j k then some v else lookup k m

  unfoldable pub insert : K → V → List (K × V) → List (K × V)
  insert k v [] = (k, v) ∷ []
  insert k v ((j, w) ∷ m) = if e.beq j k then (k, v) ∷ m else (j, w) ∷ insert k v m

  -- Every binding of the key: a map that `insert` built has one at most.
  unfoldable pub remove : K → List (K × V) → List (K × V)
  remove k [] = []
  remove k ((j, v) ∷ m) = if e.beq j k then remove k m else (j, v) ∷ remove k m

  pub lookup-insert :
      (k j : K) (v : V) (m : List (K × V))
      → lookup j (insert k v m) ≡ (if e.beq k j then some v else lookup j m)
  unfolding lookup insert
  lookup-insert k j v [] = refl
  lookup-insert k j v ((i, w) ∷ m) =
      ground (arith, e.beq_iff k j, e.beq_iff i k, e.beq_iff i j, lookup-insert k j v m)

  pub lookup-remove :
      (k j : K) (m : List (K × V))
      → lookup j (remove k m) ≡ (if e.beq k j then none else lookup j m)
  unfolding lookup remove
  lookup-remove k j [] = ground arith
  lookup-remove k j ((i, w) ∷ m) =
      ground (arith, e.beq_iff k j, e.beq_iff i k, e.beq_iff i j, lookup-remove k j m)

-- No key is bound twice.
module _ {ℓ κ} {K : Type ℓ} {V : Type κ} ⦃e : Eq K⦄ where
  abbrev pub HasDistinctKeys : List (K × V) → Type 0
  HasDistinctKeys [] = Unit
  HasDistinctKeys ((k, v) ∷ m) = All (λ p. e.beq p.0 k ≡ false) m × HasDistinctKeys m

  pub lookup_absent :
      (k : K) (m : List (K × V)) → All (λ p. e.beq p.0 k ≡ false) m → lookup k m ≡ none
  unfolding lookup
  lookup_absent k [] a = refl
  lookup_absent k ((j, v) ∷ m) a = ground (arith, lookup_absent k m a.1)

  insert-All :
      (k j : K) (v : V) (m : List (K × V))
      → e.beq j k ≡ false
      → All (λ p. e.beq p.0 k ≡ false) m
      → All (λ p. e.beq p.0 k ≡ false) (insert j v m)
  unfolding insert
  insert-All k j v [] h a = (h, tt)
  insert-All k j v ((i, w) ∷ m) h a = ground (arith, insert-All k j v m h a.1)

  pub insert-HasDistinctKeys :
      (k : K) (v : V) (m : List (K × V)) → HasDistinctKeys m → HasDistinctKeys (insert k v m)
  unfolding insert
  insert-HasDistinctKeys k v [] d = (tt, tt)
  insert-HasDistinctKeys k v ((j, w) ∷ m) (a, d) = elim (Bool-cases (e.beq j k)) [
    | inl same ↦ let e' = (e.beq_iff j k).0 same in rw (same, ← e') (a, d)
    | inr other ↦
        let other' : e.beq k j ≡ false = ground (arith, other, e.beq_iff k j, e.beq_iff j k) in
        rw other (insert-All j k v m other' a, insert-HasDistinctKeys k v m d)
  ]

  remove-All :
      (k j : K) (m : List (K × V))
      → All (λ p. e.beq p.0 k ≡ false) m
      → All (λ p. e.beq p.0 k ≡ false) (remove j m)
  unfolding remove
  remove-All k j [] a = tt
  remove-All k j ((i, w) ∷ m) a = ground (arith, remove-All k j m a.1)

  pub remove-HasDistinctKeys :
      (k : K) (m : List (K × V)) → HasDistinctKeys m → HasDistinctKeys (remove k m)
  unfolding remove
  remove-HasDistinctKeys k [] d = tt
  remove-HasDistinctKeys k ((j, w) ∷ m) (a, d) =
      ground (arith, remove-All j k m a, remove-HasDistinctKeys k m d)
