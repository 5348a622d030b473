-- ===== src/SecondFactor/Attempts.antt =====
-- auth/server/src/api/login/totp.rs: `SecondFactorAttempts` and its operations. The lock of a
-- user's recovery codes is a number, a new one for each entry that is made.
use Prim.Native.String.{String}
use moghtech_lib.Base.{
  ℕ, ◌+◌, ◌-◌, ◌*◌, List, [], ◌∷◌, ◌++◌, Option, none, some, Bool, true, false, not, ◌||◌, leb, ltb,
  if◌then◌else◌, length, get_elem?, is_empty,
}
use moghtech_lib.Base.Times.{recent}
use moghtech_lib.Base.Table.{string_eq, lookup, insert, remove}
use moghtech_lib.Error.{Note, Result, ok, err, fail, too_many_requests, is_server_error}

-- How many codes can fail for a user, within how long, and how often idle users are dropped.
abbrev pub max_second_factor_failures : ℕ
max_second_factor_failures = 10

abbrev pub second_factor_failure_window : ℕ
second_factor_failure_window = 15 * 60 * 1000000000

abbrev pub second_factor_sweep_interval : ℕ
second_factor_sweep_interval = 60 * 1000000000

pub record UserAttempts : Type 0 where
  -- When codes failed, oldest first.
  pub failures : List ℕ
  -- Codes being checked.
  pub in_flight : ℕ
  -- The lock held while a recovery code is checked and used up.
  pub recovery_codes : ℕ

pub record SecondFactorAttempts : Type 0 where
  pub max_failures : ℕ
  pub window : ℕ
  pub users : List (String × UserAttempts)
  pub last_sweep : Option ℕ
  -- The locks made so far.
  pub locks : ℕ

unfoldable pub new : ℕ → ℕ → SecondFactorAttempts
new max_failures window = record {
  max_failures = max_failures;
  window = window;
  users = [];
  last_sweep = none;
  locks = 0;
}

unfoldable pub prune : ℕ → ℕ → UserAttempts → UserAttempts
prune now window user = record user { failures = recent now window user.failures }

unfoldable pub sweep_due : ℕ → Option ℕ → Bool
sweep_due now none = true
sweep_due now (some last) = not (ltb (now - last) second_factor_sweep_interval)

unfoldable pub is_active : UserAttempts → Bool
is_active user = ltb 0 user.in_flight || not (is_empty user.failures)

unfoldable pub sweep_users : ℕ → ℕ → List (String × UserAttempts) → List (String × UserAttempts)
sweep_users now window [] = []
sweep_users now window ((id, user) ∷ users) =
    let pruned = prune now window user in
    let rest = sweep_users now window users in
    if is_active pruned then (id, pruned) ∷ rest else rest

unfoldable pub sweep : ℕ → SecondFactorAttempts → SecondFactorAttempts
sweep now s =
    if sweep_due now s.last_sweep
    then record s { last_sweep = some now; users = sweep_users now s.window s.users }
    else s

-- `entry(id).or_default()`
unfoldable pub entry : String → SecondFactorAttempts → SecondFactorAttempts × UserAttempts
entry id s = elim (lookup id s.users) [
  | some user ↦ (s, user)
  | none ↦ (
    record s { locks = s.locks + 1 },
    record { failures = []; in_flight = 0; recovery_codes = s.locks },
  )
]

abbrev left_of : ℕ → ℕ → Option ℕ → ℕ
left_of window now none = window
left_of window now (some time) = window - (now - time)

unfoldable pub retry_in : ℕ → ℕ → List ℕ → ℕ → ℕ
retry_in budget window failures now =
    left_of window now (get_elem? failures (length failures - budget))

-- What `begin` does with the user's entry: the entry as it is stored, and the lock or the refusal.
unfoldable pub admit : ℕ → ℕ → ℕ → UserAttempts → UserAttempts × Result ℕ
unfolding prune
admit budget window now user =
    let pruned = prune now window user in
    if leb budget (length pruned.failures)
    then (
      pruned,
      err (record {
        status = too_many_requests;
        notes = Note.retry_in (retry_in budget window pruned.failures now) ∷ [];
      }),
    )
    else if leb budget (length pruned.failures + pruned.in_flight)
    then (
      pruned,
      fail too_many_requests
          "Too many codes for this account are being checked at once | Try again shortly",
    )
    else (record pruned { in_flight = pruned.in_flight + 1 }, ok pruned.recovery_codes)

unfoldable pub begin : String → ℕ → SecondFactorAttempts → SecondFactorAttempts × Result ℕ
begin id now s =
    let (t, user) = entry id (sweep now s) in
    let (stored, answer) = admit t.max_failures t.window now user in
    (record t { users = insert id stored t.users }, answer)

-- The entry of a user whose attempt ends.
unfoldable pub finish : ℕ → Bool → ℕ → UserAttempts → UserAttempts
unfolding prune
finish window failed now user =
    let pruned = prune now window (record user { in_flight = user.in_flight - 1 }) in
    if failed then record pruned { failures = pruned.failures ++ now ∷ [] } else pruned

unfoldable pub end : String → Bool → ℕ → SecondFactorAttempts → SecondFactorAttempts
end id failed now s = elim (lookup id s.users) [
  | none ↦ s
  | some user ↦
      let done = finish s.window failed now user in
      record s { users = if is_active done then insert id done s.users else remove id s.users }
]

-- `SecondFactorAttempt::end`: a refused code is a failure, an error of the server is not.
unfoldable pub is_failure {ℓ} : {A : Type ℓ} → Result A → Bool
is_failure (ok a) = false
is_failure (err e) = not (is_server_error e.status)
