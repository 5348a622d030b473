-- ===== src/SecondFactor/Invariant.antt =====
-- auth/server/src/api/login/totp.rs: what holds of one user at all times.
use Prim.Native.String.{String}
use text.Mathlib.Text.{◌==◌ as str_eq}
use moghtech_lib.Base.{ℕ, ◌+◌, ◌≤◌, ◌≡◌, refl, List, [], ◌∷◌, Option, some, false, arith, ◌⊎◌}
use moghtech_lib.Base.Times.{
  count_recent, count_recent-antitone, IsOrdered, IsOrdered-later, Bounded,
}
use moghtech_lib.Base.Table.{string_eq, lookup, HasDistinctKeys}
use moghtech_lib.SecondFactor.Attempts.{UserAttempts, new}
use moghtech_lib.SecondFactor.View.{failures_of, in_flight_of, lock_of}
use moghtech_lib.SecondFactor.World.{World, start, times, held}

-- The lock of each live code of the user is the one on the map.
abbrev pub Locked : String → Option UserAttempts → List (String × ℕ) → Type 0
Locked u v [] = Unit
Locked u v ((x, lock) ∷ live) = ((str_eq x u ≡ false) ⊎ (lock_of v ≡ some lock)) × Locked u v live

module _ (budget window : ℕ) (u : String) where
  pub record Inv (w : World) : Type 0 where
    pub distinct : HasDistinctKeys w.attempts.users
    pub same_budget : w.attempts.max_failures ≡ budget
    pub same_window : w.attempts.window ≡ window
    pub counted : in_flight_of (lookup u w.attempts.users) ≡ held u w.live
    pub tracks :
        (later : ℕ)
        → w.clock ≤ later
        → count_recent later window (failures_of (lookup u w.attempts.users))
          ≡ count_recent later window (times u w.log)
    pub within_budget : count_recent w.clock window (times u w.log) + held u w.live ≤ budget
    pub ordered : IsOrdered w.clock (failures_of (lookup u w.attempts.users))
    pub bounded : Bounded window budget (times u w.log)
    pub locked : Locked u (lookup u w.attempts.users) w.live

  pub Locked-same :
      (v w : Option UserAttempts) (live : List (String × ℕ))
      → lock_of w ≡ lock_of v
      → Locked u v live
      → Locked u w live
  Locked-same v w [] e k = tt
  Locked-same v w ((x, lock) ∷ live) e (p, k) = (rw e p, Locked-same v w live e k)

  pub start-Inv : (now : ℕ) → Inv (start budget window now)
  unfolding start new lookup
  start-Inv now = record {
    distinct = tt;
    same_budget = refl;
    same_window = refl;
    counted = refl;
    tracks = λ later h. refl;
    within_budget = omega arith;
    ordered = tt;
    bounded = tt;
    locked = tt;
  }

  pub time-Inv : (w : World) (d : ℕ) → Inv w → Inv (record w { clock = w.clock + d })
  time-Inv w d i = record {
    distinct = i.distinct;
    same_budget = i.same_budget;
    same_window = i.same_window;
    counted = i.counted;
    tracks = λ later h. i.tracks later (omega arith);
    within_budget = omega (
      arith,
      count_recent-antitone w.clock (w.clock + d) window (times u w.log),
      i.within_budget,
    );
    ordered = IsOrdered-later w.clock (w.clock + d) _ (omega arith) i.ordered;
    bounded = i.bounded;
    locked = i.locked;
  }
