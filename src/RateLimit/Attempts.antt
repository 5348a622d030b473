-- ===== src/RateLimit/Attempts.antt =====
-- crates/rate_limit/src/lib.rs: the attempts of one client, and what a limiter does to them under
-- the entry's lock.
use moghtech_lib.Base.{
  ℕ, ◌+◌, ◌-◌, ◌*◌, ◌^◌, List, [], ◌∷◌, ◌++◌, Option, none, some, Bool, false, leb, ltb,
  if◌then◌else◌, length, get_elem?, first?, min, max,
}
use moghtech_lib.Base.Times.{recent}
use moghtech_lib.Error.{Error, Result, ok, err, Note, too_many_requests}

pub record Attempts : Type 0 where
  -- When the failures happened, oldest first.
  pub failures : List ℕ
  -- How many strict attempts are in flight.
  pub in_flight : ℕ

abbrev pub no_attempts : Attempts
no_attempts = record { failures = []; in_flight = 0 }

-- The limiter's settings. The map of its clients is an argument of what uses it.
pub record RateLimiter : Type 0 where
  pub disabled : Bool
  pub max_attempts : ℕ
  pub window : ℕ
  pub ipv6_prefix_len : ℕ
  pub max_entries : ℕ

abbrev pub default_ipv6_prefix_len : ℕ
default_ipv6_prefix_len = 64

abbrev pub default_max_entries : ℕ
default_max_entries = 100000

unfoldable pub builder : ℕ → ℕ → RateLimiter
builder max_attempts window = record {
  disabled = false;
  max_attempts = max_attempts;
  window = window;
  ipv6_prefix_len = default_ipv6_prefix_len;
  max_entries = default_max_entries;
}

unfoldable pub set_disabled : Bool → RateLimiter → RateLimiter
set_disabled disabled l = record l { disabled = disabled }

unfoldable pub set_ipv6_prefix_len : ℕ → RateLimiter → RateLimiter
set_ipv6_prefix_len len l = record l { ipv6_prefix_len = min len 128 }

unfoldable pub set_max_entries : ℕ → RateLimiter → RateLimiter
set_max_entries max_entries l = record l { max_entries = max max_entries 1 }

-- The last `Instant` of a 64-bit Unix, in nanoseconds.
instant_max : ℕ
instant_max = 2 ^ 63 * 1000000000 - 1

checked_add : ℕ → ℕ → Option ℕ
checked_add t d = if leb (t + d) instant_max then some (t + d) else none

abbrev checked_sub : ℕ → ℕ → Option ℕ
checked_sub a b = if ltb a b then none else some (a - b)

unfoldable pub prune : ℕ → ℕ → Attempts → Attempts
prune now window a = record a { failures = recent now window a.failures }

-- What is left of the window of a failure at the given place, or the whole window without one.
abbrev pub left_of : ℕ → ℕ → Option ℕ → ℕ
left_of window now none = window
left_of window now (some time) = window - (now - time)

unfoldable pub retry_time : RateLimiter → List ℕ → ℕ → ℕ
retry_time l failures now = elim (checked_sub (length failures) l.max_attempts) [
  | none ↦ l.window
  | some index ↦ left_of l.window now (get_elem? failures index)
]

unfoldable pub too_many_attempts : RateLimiter → List ℕ → ℕ → Error
too_many_attempts l failures now = record {
  status = too_many_requests;
  notes = Note.retry_in (retry_time l failures now) ∷ [];
}

-- A client without an entry is refused by a limiter that allows no attempt at all.
unfoldable pub check : RateLimiter → ℕ → Option Attempts → Option Attempts × Result (Unit {0})
unfolding prune too_many_attempts
check l now none = (none, if leb l.max_attempts 0 then err (too_many_attempts l [] now) else ok tt)
check l now (some a) =
    let pruned = prune now l.window a in
    (
      some pruned,
      if leb l.max_attempts (length pruned.failures)
          then err (too_many_attempts l pruned.failures now)
          else ok tt,
    )

pub data Reserve : Type 0 where
  reserved : Reserve
  -- Until one in flight finishes, or until the given time.
  wait : Option ℕ → Reserve

unfoldable pub expiry : ℕ → Option ℕ → Option ℕ
unfolding checked_add instant_max
expiry window none = none
expiry window (some first) = checked_add first window

unfoldable pub reserve : RateLimiter → ℕ → Attempts → Attempts × Result Reserve
unfolding prune too_many_attempts
reserve l now a =
    let pruned = prune now l.window a in
    if leb l.max_attempts (length pruned.failures)
    then (pruned, err (too_many_attempts l pruned.failures now))
    else if leb l.max_attempts (length pruned.failures + pruned.in_flight)
    then (pruned, ok (wait (expiry l.window (first? pruned.failures))))
    else (record pruned { in_flight = pruned.in_flight + 1 }, ok reserved)

-- With the attempts that remain.
unfoldable pub push_failure : RateLimiter → ℕ → Attempts → Attempts × ℕ
unfolding prune
push_failure l now a =
    let pruned = prune now l.window a in
    let pushed = record pruned { failures = pruned.failures ++ now ∷ [] } in
    (pushed, l.max_attempts - length pushed.failures)

unfoldable pub record_failure : RateLimiter → ℕ → Attempts → Attempts × ℕ
unfolding push_failure
record_failure l now a = push_failure l now a

-- `Reservation::fail`: the budget passes from the reservation to the failure.
unfoldable pub fail_reservation : RateLimiter → ℕ → Attempts → Attempts × ℕ
unfolding push_failure
fail_reservation l now a = push_failure l now (record a { in_flight = a.in_flight - 1 })

-- `Reservation::drop`
unfoldable pub drop_reservation : Attempts → Attempts
drop_reservation a = record a { in_flight = a.in_flight - 1 }
