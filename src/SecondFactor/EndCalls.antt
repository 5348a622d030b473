-- ===== src/SecondFactor/EndCalls.antt =====
-- auth/server/src/api/login/totp.rs: what `end` does to the entry of each user.
use Prim.Native.String.{String}
use text.Mathlib.Text.{◌==◌ as str_eq}
use text.Mathlib.TextEquality.{eq_iff}
use moghtech_lib.Base.{
  ℕ, ◌-◌, ◌≤◌, ◌≡◌, refl, sym, [], ◌∷◌, ◌++◌, none, some, Bool, true, false, append-nil,
  if◌then◌else◌, arith, Option-cases, inl, inr, ◌⊎◌,
}
use moghtech_lib.Base.Times.{recent}
use moghtech_lib.Base.Table.{
  string_eq, lookup, lookup-insert, lookup-remove, HasDistinctKeys, insert-HasDistinctKeys,
  remove-HasDistinctKeys,
}
use moghtech_lib.SecondFactor.Attempts.{UserAttempts, SecondFactorAttempts, is_active, finish, end}
use moghtech_lib.SecondFactor.View.{failures_of, in_flight_of, lock_of}

-- An entry without anything left is as good as none.
is_active_lem :
    (y : UserAttempts)
    → (failures_of (if is_active y then some y else none) ≡ y.failures)
      × (in_flight_of (if is_active y then some y else none) ≡ y.in_flight)
      × (lock_of (if is_active y then some y else none) ≡ lock_of (some y))
unfolding is_active
is_active_lem y = ground arith

finish_lem :
    (window : ℕ) (failed : Bool) (now : ℕ) (x : UserAttempts)
    → ((finish window failed now x).failures
        ≡ recent now window x.failures ++ (if failed then now ∷ [] else []))
      × ((finish window failed now x).in_flight ≡ x.in_flight - 1)
      × ((finish window failed now x).recovery_codes ≡ x.recovery_codes)
unfolding finish
finish_lem window true now x = (refl, refl, refl)
finish_lem window false now x = (sym (append-nil _), refl, refl)

end-lookup :
    (id : String) (failed : Bool) (now : ℕ) (s : SecondFactorAttempts) (x : UserAttempts)
    → lookup id s.users ≡ some x
    → lookup id (end id failed now s).users ≡ (
        if is_active (finish s.window failed now x)
        then some (finish s.window failed now x)
        else none)
unfolding end
end-lookup id failed now s x found = ground (
  arith,
  found,
  eq_iff id id,
  lookup-insert id id (finish s.window failed now x) s.users,
  lookup-remove id id s.users,
)

-- The end of an attempt, for its user.
pub end_self :
    (id : String) (failed : Bool) (now : ℕ) (s : SecondFactorAttempts) (x : UserAttempts)
    → lookup id s.users ≡ some x
    → (failures_of (lookup id (end id failed now s).users)
        ≡ recent now s.window x.failures ++ (if failed then now ∷ [] else []))
      × (in_flight_of (lookup id (end id failed now s).users) ≡ x.in_flight - 1)
      × ((lock_of (lookup id (end id failed now s).users) ≡ some x.recovery_codes)
          ⊎ (x.in_flight ≤ 1))
end_self id failed now s x found = ground (
  arith,
  end-lookup id failed now s x found,
  finish_lem s.window failed now x,
  is_active_lem (finish s.window failed now x),
)

pub end-HasDistinctKeys :
    (id : String) (failed : Bool) (now : ℕ) (s : SecondFactorAttempts)
    → HasDistinctKeys s.users
    → HasDistinctKeys (end id failed now s).users
unfolding end
end-HasDistinctKeys id failed now s d = elim (Option-cases (lookup id s.users)) [
  | inl missing ↦ rw (missing, end) d
  | inr (x, found) ↦ ground (
    arith,
    found,
    insert-HasDistinctKeys id (finish s.window failed now x) s.users d,
    remove-HasDistinctKeys id s.users d,
  )
]

pub end-other :
    (id u : String) (failed : Bool) (now : ℕ) (s : SecondFactorAttempts)
    → str_eq id u ≡ false
    → lookup u (end id failed now s).users ≡ lookup u s.users
unfolding end
end-other id u failed now s h = elim (Option-cases (lookup id s.users)) [
  | inl missing ↦ rw (missing, end)
  | inr (x, found) ↦ ground (
    arith,
    found,
    h,
    lookup-insert id u (finish s.window failed now x) s.users,
    lookup-remove id u s.users,
  )
]
