-- ===== src/RateLimit/Budget.antt =====
-- crates/rate_limit/src/lib.rs: how many attempts of one client can fail within the window.
use moghtech_lib.Base.{ℕ, ◌+◌, ◌≤◌, ◌≡◌, refl, [], ◌∷◌, ◌++◌, ◌↔◌, ◌⊎◌, arith, false, ◌∙◌}
use moghtech_lib.Base.Times.{
  recent, count_recent, length-recent, count_recent-recent, IsOrdered, IsOrdered-later,
  IsOrdered-recent, IsOrdered-push, count_recent-antitone, count_recent-push, Bounded, Bounded-mono,
}
use moghtech_lib.Error.{is_ok}
use moghtech_lib.RateLimit.Attempts.{
  Attempts, RateLimiter, reserve, push_failure, record_failure, fail_reservation, drop_reservation,
}
use moghtech_lib.RateLimit.Strict.{
  World, granted, start, ask, fail_held, drop_held, fail_lenient, Step, time_passes, asks, fails,
  finishes, fails_lenient, Reach, starts, steps,
}

module _ (l : RateLimiter) where
  -- The failures stored stand for all that were recorded, from now on.
  abbrev Tracks : World → Type 0
  Tracks w =
      (later : ℕ)
      → w.clock ≤ later
      → count_recent later l.window w.attempts.failures ≡ count_recent later l.window w.log

  record Inv (w : World) : Type 0 where
    counted : w.attempts.in_flight ≡ w.held
    budget : count_recent w.clock l.window w.log + w.attempts.in_flight ≤ l.max_attempts + w.lenient
    in_flight_le : w.attempts.in_flight ≤ l.max_attempts
    ordered : IsOrdered w.clock w.attempts.failures
    bounded : Bounded l.window (l.max_attempts + w.lenient) w.log

  reserve-in_flight :
      (now : ℕ) (a : Attempts)
      → (reserve l now a).0.in_flight ≡ a.in_flight + granted (reserve l now a).1
  unfolding reserve
  reserve-in_flight now a = ground arith

  reserve-failures :
      (now : ℕ) (a : Attempts) → (reserve l now a).0.failures ≡ recent now l.window a.failures
  unfolding reserve
  reserve-failures now a = ground arith

  -- A reservation is granted only inside the budget.
  reserve-granted :
      (now : ℕ) (a : Attempts)
      → granted (reserve l now a).1 ≡ 0
        ⊎ (count_recent now l.window a.failures + a.in_flight + 1 ≤ l.max_attempts)
  unfolding reserve
  reserve-granted now a = ground (arith, length-recent now l.window a.failures)

  push_failure-failures :
      (now : ℕ) (a : Attempts)
      → (push_failure l now a).0.failures ≡ recent now l.window a.failures ++ now ∷ []
  unfolding push_failure
  push_failure-failures now a = refl

  push_failure-in_flight :
      (now : ℕ) (a : Attempts) → (push_failure l now a).0.in_flight ≡ a.in_flight
  unfolding push_failure
  push_failure-in_flight now a = refl

  Step-Tracks : {v w : World} → Step l v w → Tracks v → Tracks w
  unfolding ask fail_held drop_held fail_lenient fail_reservation record_failure drop_reservation
  Step-Tracks (time_passes d) t later h = t later (omega arith)
  Step-Tracks {v} asks t later h =
      rw (reserve-failures v.clock v.attempts)
        (count_recent-recent v.clock later l.window v.attempts.failures h ∙ t later h)
  Step-Tracks {v} (fails held) t later h =
      count_recent-push l.window v.clock later v.attempts.failures v.log h (t later h)
  Step-Tracks (finishes held) t later h = t later h
  Step-Tracks {v} fails_lenient t later h =
      count_recent-push l.window v.clock later v.attempts.failures v.log h (t later h)

  Step-Inv : {v w : World} → Step l v w → Tracks v → Inv v → Inv w
  unfolding ask fail_held drop_held fail_lenient fail_reservation record_failure drop_reservation
  Step-Inv {v} (time_passes d) t i = record {
    counted = i.counted;
    budget = omega (arith, count_recent-antitone v.clock (v.clock + d) l.window v.log, i.budget);
    in_flight_le = i.in_flight_le;
    ordered = IsOrdered-later v.clock (v.clock + d) v.attempts.failures (omega arith) i.ordered;
    bounded = i.bounded;
  }
  Step-Inv {v} asks t i = record {
    counted = omega (arith, reserve-in_flight v.clock v.attempts, i.counted);
    budget = ground (
      arith,
      reserve-in_flight v.clock v.attempts,
      reserve-granted v.clock v.attempts,
      t v.clock (omega arith),
      i.budget,
    );
    in_flight_le = ground (
      arith,
      reserve-in_flight v.clock v.attempts,
      reserve-granted v.clock v.attempts,
      i.in_flight_le,
    );
    ordered =
        rw (reserve-failures v.clock v.attempts)
          (IsOrdered-recent v.clock v.clock l.window v.attempts.failures i.ordered);
    bounded = i.bounded;
  }
  Step-Inv {v} (fails held) t i = record {
    counted = omega (arith, i.counted);
    budget = ground (arith, i.budget, i.counted);
    in_flight_le = omega (arith, i.in_flight_le);
    ordered =
        IsOrdered-push v.clock (recent v.clock l.window v.attempts.failures)
          (IsOrdered-recent v.clock v.clock l.window v.attempts.failures i.ordered);
    bounded = (ground (arith, i.budget, i.counted), i.bounded);
  }
  Step-Inv {v} (finishes held) t i = record {
    counted = omega (arith, i.counted);
    budget = omega (arith, i.budget);
    in_flight_le = omega (arith, i.in_flight_le);
    ordered = i.ordered;
    bounded = i.bounded;
  }
  Step-Inv {v} fails_lenient t i = record {
    counted = i.counted;
    budget = ground (arith, i.budget);
    in_flight_le = i.in_flight_le;
    ordered =
        IsOrdered-push v.clock (recent v.clock l.window v.attempts.failures)
          (IsOrdered-recent v.clock v.clock l.window v.attempts.failures i.ordered);
    bounded = (
      ground (arith, i.budget),
      Bounded-mono l.window (l.max_attempts + v.lenient) (l.max_attempts + (v.lenient + 1)) v.log
          (omega arith) i.bounded,
    );
  }

  Reach-Inv : {w : World} → Reach l w → Tracks w × Inv w
  unfolding start
  Reach-Inv (starts now) = (
    λ later h. refl,
    record {
      counted = refl;
      budget = omega arith;
      in_flight_le = omega arith;
      ordered = tt;
      bounded = tt;
    },
  )
  Reach-Inv (steps r s) = let (t, i) = Reach-Inv r in (Step-Tracks s t, Step-Inv s t i)

  -- Whatever the attempts of a client do and in whatever order, when one of them fails, the
  -- failures in the window that ends then (itself included) are at most `max_attempts`, and one
  -- more for each failure recorded past the reservations.
  pub Reach-Bounded : (w : World) → Reach l w → Bounded l.window (l.max_attempts + w.lenient) w.log
  Reach-Bounded w r = (Reach-Inv r).1.bounded

  -- At most `max_attempts` attempts of a client run at the same time, and `in_flight` is their
  -- number.
  pub Reach-held :
      (w : World) → Reach l w → (w.attempts.in_flight ≡ w.held) × (w.held ≤ l.max_attempts)
  Reach-held w r = let i = (Reach-Inv r).1 in (i.counted, omega (arith, i.counted, i.in_flight_le))

  pub Reach-IsOrdered : (w : World) → Reach l w → IsOrdered w.clock w.attempts.failures
  Reach-IsOrdered w r = (Reach-Inv r).1.ordered

  reserve-refused_iff :
      (now : ℕ) (a : Attempts)
      → (is_ok (reserve l now a).1 ≡ false)
        ↔ (l.max_attempts ≤ count_recent now l.window a.failures)
  unfolding reserve
  reserve-refused_iff now a = ground (arith, length-recent now l.window a.failures)

  -- A reservation is refused exactly if the failures recorded in the window use up the budget: the
  -- attempts in flight never cause a refusal.
  pub Reach-refused_iff :
      (w : World)
      → Reach l w
      → (is_ok (reserve l w.clock w.attempts).1 ≡ false)
        ↔ (l.max_attempts ≤ count_recent w.clock l.window w.log)
  Reach-refused_iff w r =
      rw (← (Reach-Inv r).0 w.clock (omega arith)) (reserve-refused_iff w.clock w.attempts)
