-- ===== src/SecondFactor/Tests.antt =====
-- auth/server/src/api/login/totp.rs: codes of one user, three in fifteen seconds.
use moghtech_lib.Base.{ℕ, ◌+◌, ◌<◌, ◌≡◌, refl, ◌↔◌, [], ◌∷◌, some, true}
use moghtech_lib.Base.Times.{Bounded, count_recent}
use moghtech_lib.Base.Table.{lookup, insert}
use moghtech_lib.Error.{is_ok}
use moghtech_lib.SecondFactor.Attempts.{
  new, begin, end, sweep, sweep_due, sweep_users, is_active, entry, admit, prune, finish,
}
use moghtech_lib.SecondFactor.World.{
  World, start, begins, ends, time_passes, begin_code, end_code, Reach, starts, steps, times, held,
}
use moghtech_lib.SecondFactor.Bound.{Reach-times-Bounded, Reach-begin_iff, Reach-shared_lock}

-- Two codes are being checked.
abbrev checking : World
checking = record {
  clock = 100;
  attempts = record {
    max_failures = 3;
    window = 15;
    users = ("ada", record { failures = []; in_flight = 2; recovery_codes = 0 }) ∷ [];
    last_sweep = some 100;
    locks = 1;
  };
  live = ("ada", 0) ∷ ("ada", 0) ∷ [];
  log = [];
}

checked : Reach 3 15 checking
unfolding start new begins begin entry sweep sweep_due sweep_users is_active admit prune lookup
    insert
checked = steps (steps (starts 100) (begin_code "ada")) (begin_code "ada")

-- One of them was refused.
abbrev refused : World
refused = record {
  clock = 104;
  attempts = record {
    max_failures = 3;
    window = 15;
    users = ("ada", record { failures = 104 ∷ []; in_flight = 1; recovery_codes = 0 }) ∷ [];
    last_sweep = some 100;
    locks = 1;
  };
  live = ("ada", 0) ∷ [];
  log = ("ada", 104) ∷ [];
}

reached : Reach 3 15 refused
unfolding ends end finish is_active prune lookup insert
reached = steps (steps checked (time_passes 4)) (end_code 0 "ada" 0 true refl)

Reach-times-Bounded_example : Bounded 15 3 (times "ada" (("ada", 104) ∷ []))
Reach-times-Bounded_example = Reach-times-Bounded 3 15 "ada" refused reached

Reach-begin_iff_example :
    (is_ok (begin "ada" 104 refused.attempts).1 ≡ true)
    ↔ (count_recent 104 15 (times "ada" refused.log) + held "ada" refused.live < 3)
Reach-begin_iff_example = Reach-begin_iff 3 15 "ada" refused reached

Reach-shared_lock_example : ◌≡◌ {A = ℕ} 0 0
Reach-shared_lock_example = Reach-shared_lock 3 15 "ada" checking 0 1 0 0 checked refl refl
