-- ===== src/RateLimit/Strict.antt =====
-- crates/rate_limit/src/lib.rs: what the attempts of one client can do, in any order. A step holds
-- the entry's lock throughout; between steps time passes and other attempts run.
use moghtech_lib.Base.{ℕ, ◌+◌, ◌-◌, ◌<◌, List, [], ◌∷◌}
use moghtech_lib.Error.{Result, ok, err}
use moghtech_lib.RateLimit.Attempts.{
  Attempts, no_attempts, RateLimiter, Reserve, reserved, wait, reserve, record_failure,
  fail_reservation, drop_reservation,
}

-- A client's entry with what the code does not store: the clock, every failure that was recorded
-- (newest first), how many reservations are alive, and how many failures went past the reservations.
pub record World : Type 0 where
  pub clock : ℕ
  pub attempts : Attempts
  pub log : List ℕ
  pub held : ℕ
  pub lenient : ℕ

abbrev pub granted : Result Reserve → ℕ
granted (ok reserved) = 1
granted (ok (wait expiry)) = 0
granted (err e) = 0

unfoldable pub start : ℕ → World
start now = record { clock = now; attempts = no_attempts; log = []; held = 0; lenient = 0 }

module _ (l : RateLimiter) where
  unfoldable pub ask : World → World
  ask w =
      let (a, r) = reserve l w.clock w.attempts in
      record w { attempts = a; held = w.held + granted r }

  unfoldable pub fail_held : World → World
  fail_held w = record w {
    attempts = (fail_reservation l w.clock w.attempts).0;
    log = w.clock ∷ w.log;
    held = w.held - 1;
  }

  unfoldable pub drop_held : World → World
  drop_held w = record w { attempts = drop_reservation w.attempts; held = w.held - 1 }

  unfoldable pub fail_lenient : World → World
  fail_lenient w = record w {
    attempts = (record_failure l w.clock w.attempts).0;
    log = w.clock ∷ w.log;
    lenient = w.lenient + 1;
  }

  pub data Step (w : World) : World → Type 0 where
    time_passes : (d : ℕ) → Step w (record w { clock = w.clock + d })
    asks : Step w (ask w)
    -- A reservation is failed or dropped once, by its owner.
    fails : 0 < w.held → Step w (fail_held w)
    finishes : 0 < w.held → Step w (drop_held w)
    fails_lenient : Step w (fail_lenient w)

  pub data Reach : World → Type 0 where
    starts : (now : ℕ) → Reach (start now)
    steps : {v w : World} → Reach v → Step v w → Reach w
