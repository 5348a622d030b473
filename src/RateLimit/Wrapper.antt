-- ===== src/RateLimit/Wrapper.antt =====
-- crates/rate_limit/src/lib.rs: `WithFailureRateLimit`. The attempt is a function `run` of the map
-- of clients: its result, and the map as all others left it while it ran. An entry that is referred
-- to stays on the map (`RateLimit.Room`, `RateLimit.Cleanup`), so it is looked up there again.
use moghtech_lib.Base.{ℕ, List, [], ◌∷◌, Option, none, some, Bool, not, ◌&&◌, if◌then◌else◌}
use moghtech_lib.Base.Table.{lookup, insert}
use moghtech_lib.Net.{IpAddr, ip_addr_eq}
use moghtech_lib.Error.{Error, Result, ok, err, Note, context, is_server_error}
use moghtech_lib.RateLimit.Attempts.{
  Attempts, RateLimiter, check, reserved, wait, reserve, record_failure, fail_reservation,
  drop_reservation,
}
use moghtech_lib.RateLimit.Entries.{Entry, EntryMap, get, get_or_insert, release}
use moghtech_lib.RateLimit.Key.{key}
use moghtech_lib.RateLimit.Cleanup.{attempts_of}
use moghtech_lib.RequestIp.Cidr.{Nets}
use moghtech_lib.RequestIp.Policy.{TrustedProxies}
use moghtech_lib.RequestIp.Client.{Headers, get_client_ip}

-- `full`: whether the details of server errors are shown (`ServerErrorDetail::Full`).
unfoldable pub failed_attempt : Bool → Error → ℕ → Error
failed_attempt full e remaining =
    context e (Note.failed_attempt (not (is_server_error e.status && not full)) remaining)

-- What was done to the attempts under the lock of the client's entry.
unfoldable pub store : IpAddr → Attempts → EntryMap → EntryMap
store k a m = elim (lookup k m) [ none ↦ m | some e ↦ insert k (record e { attempts = a }) m ]

abbrev pub attempts_in : Option Entry → Option Attempts
attempts_in none = none
attempts_in (some e) = some e.attempts

unfoldable pub store_checked : IpAddr → Option Attempts → EntryMap → EntryMap
unfolding store
store_checked k none m = m
store_checked k (some a) m = store k a m

-- The reference that `get` handed out, if any, is dropped last.
unfoldable pub give_back : IpAddr → Option Entry → EntryMap → EntryMap
give_back k none m = m
give_back k (some e) m = release k m

-- What the others do until an attempt that waits is woken, and when it is. It is woken by a change
-- or when the wait is over, here at any time: the loop tries again either way.
abbrev pub Wake : Type 0
Wake = ℕ × (EntryMap → EntryMap)

module _ (l : RateLimiter) where
  -- The entry is held by now. Woken for the last time, an attempt that still waits has no answer.
  unfoldable pub reserve_loop :
      IpAddr → ℕ → List Wake → EntryMap → EntryMap × Option (Result (Unit {0}))
  reserve_loop k now [] m =
      let (a, answer) = reserve l now (attempts_of (lookup k m)) in
      elim answer [
        | err e ↦ (store k a m, some (err e))
        | ok reserved ↦ (store k a m, some (ok tt))
        | ok (wait expiry) ↦ (store k a m, none)
      ]
  reserve_loop k now ((later, others) ∷ wakes) m =
      let (a, answer) = reserve l now (attempts_of (lookup k m)) in
      let rest = reserve_loop k later wakes (others (store k a m)) in
      elim answer [
        | err e ↦ (store k a m, some (err e))
        | ok reserved ↦ (store k a m, some (ok tt))
        | ok (wait expiry) ↦ rest
      ]

module _ {ℓ} {R : Type ℓ} (full : Bool) (l : RateLimiter) where
  -- A failure is recorded on the entry that is looked up again.
  unfoldable pub lenient_end : IpAddr → ℕ → EntryMap × Result R → EntryMap × Result R
  lenient_end k ended (m, ok res) = (m, ok res)
  lenient_end k ended (m, err e) =
      let (held, entry) = get_or_insert l k ended m in
      let (a, remaining) = record_failure l ended entry.attempts in
      (release k (store k a held), err (failed_attempt full e remaining))

  unfoldable pub strict_end : IpAddr → ℕ → EntryMap × Result R → EntryMap × Result R
  strict_end k ended (m, ok res) =
      (release k (store k (drop_reservation (attempts_of (lookup k m))) m), ok res)
  strict_end k ended (m, err e) =
      let (a, remaining) = fail_reservation l ended (attempts_of (lookup k m)) in
      (release k (store k a m), err (failed_attempt full e remaining))

module _ (full : Bool) (l : RateLimiter) where
  module _ {ℓ} {R : Type ℓ} (run : EntryMap → EntryMap × Result R) where
    -- Starts at `now`; the attempt, if it runs, ends at `ended`.
    unfoldable pub with_failure_rate_limit_using_ip :
        IpAddr → (now ended : ℕ) → EntryMap → EntryMap × Result R
    with_failure_rate_limit_using_ip ip now ended m =
        if l.disabled
        then run m
        else let k = key l ip in
          let (held, entry) = get k m in
          let (checked, allowed) = check l now (attempts_in entry) in
          let next = store_checked k checked held in
          elim allowed [
            | err e ↦ (give_back k entry next, err e)
            | ok _ ↦
                let done = lenient_end full l k ended (run next) in
                (give_back k entry done.0, done.1)
          ]

    unfoldable pub strict_run :
        IpAddr → ℕ → EntryMap × Option (Result (Unit {0})) → EntryMap × Option (Result R)
    strict_run k ended (m, none) = (m, none)
    strict_run k ended (m, some (err e)) = (release k m, some (err e))
    strict_run k ended (m, some (ok _)) =
        let done = strict_end full l k ended (run m) in (done.0, some done.1)

    -- `none` as long as it waits.
    unfoldable pub with_strict_failure_rate_limit_using_ip :
        IpAddr → (now ended : ℕ) → List Wake → EntryMap → EntryMap × Option (Result R)
    with_strict_failure_rate_limit_using_ip ip now ended wakes m =
        let free = run m in
        let k = key l ip in
        if l.disabled
        then (free.0, some free.1)
        else strict_run k ended (reserve_loop l k now wakes (get_or_insert l k now m).0)

    module _ (N : Nets) where
      unfoldable pub with_failure_rate_limit_using_headers :
          Headers
          → Option IpAddr
          → TrustedProxies N.IpNet
          → (now ended : ℕ) → EntryMap
          → EntryMap × Result R
      with_failure_rate_limit_using_headers headers peer proxies now ended m =
          if l.disabled then run m else elim (get_client_ip N headers peer proxies) [
            | err e ↦ (m, err e)
            | ok ip ↦ with_failure_rate_limit_using_ip ip now ended m
          ]

      unfoldable pub with_strict_failure_rate_limit_using_headers :
          Headers
          → Option IpAddr
          → TrustedProxies N.IpNet
          → (now ended : ℕ) → List Wake
          → EntryMap
          → EntryMap × Option (Result R)
      with_strict_failure_rate_limit_using_headers headers peer proxies now ended wakes m =
          let free = run m in
          if l.disabled
          then (free.0, some free.1)
          else elim (get_client_ip N headers peer proxies) [
            | err e ↦ (m, some (err e))
            | ok ip ↦ with_strict_failure_rate_limit_using_ip ip now ended wakes m
          ]
