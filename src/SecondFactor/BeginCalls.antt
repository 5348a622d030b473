-- ===== src/SecondFactor/BeginCalls.antt =====
-- auth/server/src/api/login/totp.rs: what `begin` does to the entry of each user.
use Prim.Native.String.{String}
use text.Mathlib.Text.{◌==◌ as str_eq}
use text.Mathlib.TextEquality.{eq_iff}
use moghtech_lib.Base.{
  ℕ, ◌+◌, ◌≤◌, ◌<◌, ◌≡◌, refl, ◌∙◌, some, true, false, ◌↔◌, if◌then◌else◌, arith,
}
use moghtech_lib.Base.Times.{
  recent, count_recent, count_recent-recent, length-recent, IsOrdered, IsOrdered-recent,
}
use moghtech_lib.Base.Table.{
  string_eq, lookup, lookup-insert, HasDistinctKeys, insert-HasDistinctKeys,
}
use moghtech_lib.Error.{Result, ok, err, is_ok}
use moghtech_lib.SecondFactor.Attempts.{
  UserAttempts, SecondFactorAttempts, sweep, entry, admit, begin,
}
use moghtech_lib.SecondFactor.View.{failures_of, in_flight_of, lock_of, sweep-Keeps}

-- One more code is being checked.
abbrev pub grants : Result ℕ → ℕ
grants (ok lock) = 1
grants (err e) = 0

entry_lem :
    (id : String) (s : SecondFactorAttempts)
    → ((entry id s).0.users ≡ s.users)
      × ((entry id s).0.max_failures ≡ s.max_failures)
      × ((entry id s).0.window ≡ s.window)
      × ((entry id s).1.failures ≡ failures_of (lookup id s.users))
      × ((entry id s).1.in_flight ≡ in_flight_of (lookup id s.users))
      × (lock_of (some (entry id s).1) ≡ lock_of (lookup id s.users))
unfolding entry
entry_lem id s = ground arith

sweep_lem :
    (now : ℕ) (s : SecondFactorAttempts)
    → ((sweep now s).max_failures ≡ s.max_failures) × ((sweep now s).window ≡ s.window)
unfolding sweep
sweep_lem now s = ground arith

admit_lem :
    (budget window now : ℕ) (user : UserAttempts)
    → ((admit budget window now user).0.failures ≡ recent now window user.failures)
      × ((admit budget window now user).0.in_flight
          ≡ user.in_flight + grants (admit budget window now user).1)
      × ((admit budget window now user).0.recovery_codes ≡ user.recovery_codes)
unfolding admit
admit_lem budget window now user = ground arith

-- A code is checked exactly if the failures in the window and the codes being checked leave room.
admit_iff :
    (budget window now : ℕ) (user : UserAttempts)
    → (is_ok (admit budget window now user).1 ≡ true)
      ↔ (count_recent now window user.failures + user.in_flight < budget)
unfolding admit
admit_iff budget window now user = ground (arith, length-recent now window user.failures)

admit-lock :
    (budget window now : ℕ) (user : UserAttempts) (lock : ℕ)
    → (admit budget window now user).1 ≡ ok lock
    → user.recovery_codes ≡ lock
unfolding admit
admit-lock budget window now user lock h = ground arith

module _ (id : String) (now : ℕ) (s : SecondFactorAttempts) where
  pub asked : UserAttempts
  asked = (entry id (sweep now s)).1

  pub begin-lookup :
      (u : String)
      → (lookup u (begin id now s).0.users ≡ (
          if str_eq id u
          then some (admit s.max_failures s.window now asked).0
          else lookup u (sweep now s).users))
        × ((begin id now s).1 ≡ (admit s.max_failures s.window now asked).1)
        × ((begin id now s).0.max_failures ≡ s.max_failures)
        × ((begin id now s).0.window ≡ s.window)
  unfolding begin asked sweep entry admit lookup
  begin-lookup u =
      let (users, budget, window, _, _, _) = entry_lem id (sweep now s) in
      let (same_budget, same_window) = sweep_lem now s in
      (
        rw (budget, window, same_budget, same_window)
            (lookup-insert id u (admit s.max_failures s.window now (entry id (sweep now s)).1).0
                (entry id (sweep now s)).0.users
              ∙ rw users refl),
        rw (budget, window, same_budget, same_window) refl,
        budget ∙ same_budget,
        window ∙ same_window,
      )

  pub begin-HasDistinctKeys : HasDistinctKeys s.users → HasDistinctKeys (begin id now s).0.users
  unfolding begin
  begin-HasDistinctKeys d =
      let (users, _, _, _, _, _) = entry_lem id (sweep now s) in
      insert-HasDistinctKeys id _ (entry id (sweep now s)).0.users
        (rw users (sweep-Keeps now id s d).1)

  -- A code is checked exactly if the failures in the window, with the codes being checked, leave
  -- room.
  pub begin_iff :
      HasDistinctKeys s.users
      → (is_ok (begin id now s).1 ≡ true) ↔ (
          count_recent now s.window (failures_of (lookup id s.users))
            + in_flight_of (lookup id s.users)
          < s.max_failures)
  unfolding asked
  begin_iff d =
      let (_, answer, _, _) = begin-lookup id in
      let (_, _, _, same, flying, _) = entry_lem id (sweep now s) in
      let keeps = (sweep-Keeps now id s d).0 in
      ground (
        arith,
        answer,
        same,
        flying,
        keeps.counts now (omega arith),
        keeps.in_flight,
        admit_iff s.max_failures s.window now (entry id (sweep now s)).1,
      )

  pub begin_self :
      HasDistinctKeys s.users
      → (failures_of (lookup id (begin id now s).0.users)
          ≡ recent now s.window (failures_of (lookup id (sweep now s).users)))
        × (in_flight_of (lookup id (begin id now s).0.users)
            ≡ in_flight_of (lookup id s.users) + grants (begin id now s).1)
  unfolding asked
  begin_self d =
      let (found, answer, _, _) = begin-lookup id in
      let (_, _, _, same, flying, _) = entry_lem id (sweep now s) in
      ground (
        arith,
        found,
        answer,
        same,
        flying,
        eq_iff id id,
        (sweep-Keeps now id s d).0.in_flight,
        admit_lem s.max_failures s.window now (entry id (sweep now s)).1,
      )

  pub begin-counts :
      (later : ℕ)
      → HasDistinctKeys s.users
      → now ≤ later
      → count_recent later s.window (failures_of (lookup id (begin id now s).0.users))
        ≡ count_recent later s.window (failures_of (lookup id s.users))
  begin-counts later d h =
      let (pruned, _) = begin_self d in
      rw pruned (
        count_recent-recent now later s.window (failures_of (lookup id (sweep now s).users)) h
        ∙ (sweep-Keeps now id s d).0.counts later h)

  pub begin-IsOrdered :
      HasDistinctKeys s.users
      → IsOrdered now (failures_of (lookup id s.users))
      → IsOrdered now (failures_of (lookup id (begin id now s).0.users))
  begin-IsOrdered d o =
      let (pruned, _) = begin_self d in
      rw pruned (
        IsOrdered-recent now now s.window (failures_of (lookup id (sweep now s).users))
          ((sweep-Keeps now id s d).0.order o))

  pub begin-lock :
      (lock : ℕ)
      → (begin id now s).1 ≡ ok lock
      → lock_of (lookup id (begin id now s).0.users) ≡ some lock
  unfolding asked
  begin-lock lock h =
      let (found, answer, _, _) = begin-lookup id in
      ground (
        arith,
        found,
        answer,
        eq_iff id id,
        h,
        admit_lem s.max_failures s.window now (entry id (sweep now s)).1,
        admit-lock s.max_failures s.window now (entry id (sweep now s)).1 lock,
      )

  pub begin-keeps_lock :
      (lock : ℕ)
      → HasDistinctKeys s.users
      → lock_of (lookup id s.users) ≡ some lock
      → lock_of (lookup id (begin id now s).0.users) ≡ some lock
  unfolding asked
  begin-keeps_lock lock d h =
      let (found, _, _, _) = begin-lookup id in
      let (_, _, _, _, _, locked) = entry_lem id (sweep now s) in
      ground (
        arith,
        found,
        locked,
        eq_iff id id,
        h,
        (sweep-Keeps now id s d).0.lock,
        admit_lem s.max_failures s.window now (entry id (sweep now s)).1,
      )

  pub begin-other :
      (u : String)
      → str_eq id u ≡ false
      → lookup u (begin id now s).0.users ≡ lookup u (sweep now s).users
  begin-other u h = let (found, _, _, _) = begin-lookup u in ground (arith, found, h)
