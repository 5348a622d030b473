-- ===== src/SecondFactor/View.antt =====
-- auth/server/src/api/login/totp.rs: what the operations do to one user's entry, the entry of a
-- user who is not on the map being empty.
use Prim.Native.String.{String}
use text.Mathlib.Text.{◌==◌ as str_eq}
use text.Mathlib.TextEquality.{eq_iff}
use moghtech_lib.Base.{
  ℕ, ◌≤◌, ◌≡◌, refl, List, [], ◌∷◌, Option, none, some, false, ltb, if◌then◌else◌, arith,
  Bool-cases, inl, inr, All,
}
use moghtech_lib.Base.Times.{recent, count_recent, count_recent-recent, IsOrdered, IsOrdered-recent}
use moghtech_lib.Base.Table.{string_eq, lookup, HasDistinctKeys, lookup_absent}
use moghtech_lib.SecondFactor.Attempts.{
  UserAttempts, SecondFactorAttempts, prune, sweep_due, is_active, sweep_users, sweep,
}

abbrev pub failures_of : Option UserAttempts → List ℕ
failures_of none = []
failures_of (some user) = user.failures

abbrev pub in_flight_of : Option UserAttempts → ℕ
in_flight_of none = 0
in_flight_of (some user) = user.in_flight

-- The lock of a user's recovery codes, as long as codes of the user are being checked.
abbrev pub lock_of : Option UserAttempts → Option ℕ
lock_of none = none
lock_of (some user) = if ltb 0 user.in_flight then some user.recovery_codes else none

-- Each call seen by one user: the same failures count, now and later, and as many codes are being
-- checked.
pub record Keeps (window now : ℕ) (v w : Option UserAttempts) : Type 0 where
  pub counts :
      (later : ℕ)
      → now ≤ later
      → count_recent later window (failures_of w) ≡ count_recent later window (failures_of v)
  pub in_flight : in_flight_of w ≡ in_flight_of v
  pub lock : lock_of w ≡ lock_of v
  pub order : IsOrdered now (failures_of v) → IsOrdered now (failures_of w)

Keeps-refl : (window now : ℕ) (v : Option UserAttempts) → Keeps window now v v
Keeps-refl window now v = record {
  counts = λ later h. refl;
  in_flight = refl;
  lock = refl;
  order = λ o. o;
}

-- A swept entry is pruned, and dropped if nothing is left of it.
settled : ℕ → ℕ → Option UserAttempts → Option UserAttempts
settled now window none = none
settled now window (some user) =
    if is_active (prune now window user) then some (prune now window user) else none

settled-failures :
    (now window : ℕ) (v : Option UserAttempts)
    → (failures_of (settled now window v) ≡ recent now window (failures_of v))
      × (in_flight_of (settled now window v) ≡ in_flight_of v)
      × (lock_of (settled now window v) ≡ lock_of v)
unfolding settled prune is_active
settled-failures now window none = (refl, refl, refl)
settled-failures now window (some user) = ground arith

settled-Keeps :
    (now window : ℕ) (v : Option UserAttempts) → Keeps window now v (settled now window v)
settled-Keeps now window v =
    let (same, flying, locked) = settled-failures now window v in
    record {
      counts = λ later h. rw same (count_recent-recent now later window (failures_of v) h);
      in_flight = flying;
      lock = locked;
      order = λ o. rw same (IsOrdered-recent now now window (failures_of v) o);
    }

sweep_users-none :
    (now window : ℕ) (u : String) (m : List (String × UserAttempts))
    → lookup u m ≡ none
    → lookup u (sweep_users now window m) ≡ none
unfolding lookup sweep_users
sweep_users-none now window u [] h = refl
sweep_users-none now window u ((j, x) ∷ m) h = ground (arith, sweep_users-none now window u m)

lookup-sweep_users :
    (now window : ℕ) (u : String) (m : List (String × UserAttempts))
    → HasDistinctKeys m
    → lookup u (sweep_users now window m) ≡ settled now window (lookup u m)
unfolding lookup sweep_users settled
lookup-sweep_users now window u [] d = refl
lookup-sweep_users now window u ((j, x) ∷ m) (a, d) = elim (Bool-cases (str_eq j u)) [
  | inl same ↦
      let gone =
        sweep_users-none now window u m (lookup_absent u m (rw ((eq_iff j u).0 same) at a)) in
      ground (arith, same, gone)
  | inr other ↦ ground (arith, other, lookup-sweep_users now window u m d)
]

sweep_users-All :
    (now window : ℕ) (k : String) (m : List (String × UserAttempts))
    → All (λ p. str_eq p.0 k ≡ false) m
    → All (λ p. str_eq p.0 k ≡ false) (sweep_users now window m)
unfolding sweep_users
sweep_users-All now window k [] a = tt
sweep_users-All now window k ((j, x) ∷ m) (h, a) = ground (arith, sweep_users-All now window k m a)

sweep_users-HasDistinctKeys :
    (now window : ℕ) (m : List (String × UserAttempts))
    → HasDistinctKeys m
    → HasDistinctKeys (sweep_users now window m)
unfolding sweep_users
sweep_users-HasDistinctKeys now window [] d = tt
sweep_users-HasDistinctKeys now window ((k, x) ∷ m) (a, d) =
    ground (arith, sweep_users-All now window k m a, sweep_users-HasDistinctKeys now window m d)

pub sweep-Keeps :
    (now : ℕ) (u : String) (s : SecondFactorAttempts)
    → HasDistinctKeys s.users
    → Keeps s.window now (lookup u s.users) (lookup u (sweep now s).users)
      × HasDistinctKeys (sweep now s).users
unfolding sweep
sweep-Keeps now u s d = elim (Bool-cases (sweep_due now s.last_sweep)) [
  | inl due ↦
      rw (due, lookup-sweep_users now s.window u s.users d)
        (
          settled-Keeps now s.window (lookup u s.users),
          sweep_users-HasDistinctKeys now s.window s.users d,
        )
  | inr early ↦ rw early (Keeps-refl s.window now (lookup u s.users), d)
]
