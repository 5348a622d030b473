-- ===== src/RateLimit/StrictSingle.antt =====
-- crates/rate_limit/src/lib.rs: a strict attempt for one client, without the map.
use moghtech_lib.Base.{
  ℕ, ◌+◌, ◌≡◌, ap, ◌∙◌, [], ◌∷◌, ◌++◌, Option, none, some, Bool, false, leb, if◌then◌else◌, length,
  arith, Option-cases, inl, inr,
}
use moghtech_lib.Base.Times.{recent}
use moghtech_lib.Base.Table.{lookup}
use moghtech_lib.Net.{IpAddr, ip_addr_eq}
use moghtech_lib.Error.{Result, ok, err}
use moghtech_lib.RateLimit.Attempts.{
  Attempts, RateLimiter, prune, reserve, fail_reservation, drop_reservation, push_failure,
  too_many_attempts,
}
use moghtech_lib.RateLimit.Entries.{Entry, EntryMap, get_or_insert, hold}
use moghtech_lib.RateLimit.Key.{key}
use moghtech_lib.RateLimit.Cleanup.{attempts_of}
use moghtech_lib.RateLimit.Room.{get_or_insert-lookup}
use moghtech_lib.RateLimit.Wrapper.{
  store, reserve_loop, strict_end, strict_run, with_strict_failure_rate_limit_using_ip,
}
use moghtech_lib.Base.{All, List, sym}
use moghtech_lib.RateLimit.Wrapper.{Wake}
use moghtech_lib.RateLimit.Single.{ended_with, store-attempts, release-attempts}

-- The others keep the attempts of the client.
abbrev pub Keeps : IpAddr → (EntryMap → EntryMap) → Type 0
Keeps k others = (n : EntryMap) → attempts_of (lookup k (others n)) ≡ attempts_of (lookup k n)

module _ {ℓ} {R : Type ℓ} (full : Bool) (l : RateLimiter) where
  -- What a strict attempt of the client does: it is refused, it waits until it is woken next, or it
  -- runs, and then holds no reservation.
  abbrev pub attempted_strictly :
      (now ended : ℕ) → Result R → List Wake → Attempts → Attempts × Option (Result R)
  attempted_strictly now ended outcome [] a =
      let pruned = record a { failures = recent now l.window a.failures } in
      if leb l.max_attempts (length pruned.failures)
      then (pruned, some (err (too_many_attempts l pruned.failures now)))
      else if leb l.max_attempts (length pruned.failures + pruned.in_flight)
      then (pruned, none)
      else let done = ended_with full l ended pruned outcome in (done.0, some done.1)
  attempted_strictly now ended outcome (wake ∷ wakes) a =
      let pruned = record a { failures = recent now l.window a.failures } in
      let woken = attempted_strictly wake.0 ended outcome wakes pruned in
      if leb l.max_attempts (length pruned.failures)
      then (pruned, some (err (too_many_attempts l pruned.failures now)))
      else if leb l.max_attempts (length pruned.failures + pruned.in_flight)
      then woken
      else let done = ended_with full l ended pruned outcome in (done.0, some done.1)

  strict_end-found :
      (k : IpAddr) (ended : ℕ) (m : EntryMap) (a : Attempts) (e : Entry) (outcome : Result R)
      → lookup k m ≡ some e
      → e.attempts ≡ record a { in_flight = a.in_flight + 1 }
      → let done = strict_end full l k ended (m, outcome) in
        (attempts_of (lookup k done.0), done.1) ≡ ended_with full l ended a outcome
  unfolding strict_end fail_reservation push_failure prune drop_reservation
  strict_end-found k ended m a e (ok res) found same =
      ground (arith, found, same, release-attempts k (store k a m), store-attempts k a m e found)
  strict_end-found k ended m a e (err f) found same =
      let b = record a { failures = recent ended l.window a.failures ++ ended ∷ [] } in
      ground (arith, found, same, release-attempts k (store k b m), store-attempts k b m e found)

  strict_end-attempts :
      (k : IpAddr) (ended : ℕ) (m : EntryMap) (a : Attempts) (outcome : Result R)
      → attempts_of (lookup k m) ≡ record a { in_flight = a.in_flight + 1 }
      → let done = strict_end full l k ended (m, outcome) in
        (attempts_of (lookup k done.0), done.1) ≡ ended_with full l ended a outcome
  unfolding strict_end fail_reservation push_failure prune drop_reservation
  strict_end-attempts k ended m a outcome h = elim (Option-cases (lookup k m)) [
    | inl missing ↦ absurd (ground (arith, missing, h))
    | inr (e, found) ↦
        let same : e.attempts ≡ record a { in_flight = a.in_flight + 1 } =
          ground (arith, found, h) in
        strict_end-found k ended m a e outcome found same
  ]

  strict_run-attempted :
      (k : IpAddr) (now ended : ℕ) (wakes : List Wake) (m : EntryMap) (e : Entry)
      (others : EntryMap → EntryMap) (outcome : Result R)
      → lookup k m ≡ some e
      → Keeps k others
      → All (λ wake. Keeps k wake.1) wakes
      → let done =
          strict_run full l (λ n. (others n, outcome)) k ended (reserve_loop l k now wakes m) in
        (attempts_of (lookup k done.0), done.1)
        ≡ attempted_strictly now ended outcome wakes (attempts_of (lookup k m))
  unfolding strict_run reserve_loop reserve prune
  strict_run-attempted k now ended [] m e others outcome there keeps kept =
      let before = attempts_of (lookup k m) in
      let a = record before { failures = recent now l.window before.failures } in
      let run = record a { in_flight = a.in_flight + 1 } in
      let ended_as =
        strict_end-attempts k ended (others (store k run m)) a outcome
          (keeps (store k run m) ∙ ap attempts_of (store-attempts k run m e there)) in
      ground (
        arith,
        ap attempts_of (store-attempts k a m e there),
        release-attempts k (store k a m),
        ended_as,
      )
  strict_run-attempted k now ended (wake ∷ wakes) m e others outcome there keeps (keep, kept) =
      let before = attempts_of (lookup k m) in
      let a = record before { failures = recent now l.window before.failures } in
      let run = record a { in_flight = a.in_flight + 1 } in
      let next = wake.1 (store k a m) in
      let waited : attempts_of (lookup k next) ≡ a =
        keep (store k a m) ∙ ap attempts_of (store-attempts k a m e there) in
      let ended_as =
        strict_end-attempts k ended (others (store k run m)) a outcome
          (keeps (store k run m) ∙ ap attempts_of (store-attempts k run m e there)) in
      elim (Option-cases (lookup k next)) [
        | inl missing ↦
            let idle : a.in_flight ≡ 0 =
              ap (λ x. x.in_flight) (sym waited ∙ ap attempts_of missing) in
            ground (
              arith,
              idle,
              ap attempts_of (store-attempts k a m e there),
              release-attempts k (store k a m),
              ended_as,
            )
        | inr (f, found) ↦
            let woken =
              strict_run-attempted k wake.0 ended wakes next f others outcome found keeps kept in
            ground (
              arith,
              rw waited at woken,
              ap attempts_of (store-attempts k a m e there),
              release-attempts k (store k a m),
              ended_as,
            )
      ]

  -- Unless the limiter is disabled, `with_strict_failure_rate_limit_using_ip` does what is said of
  -- one client alone: it is refused with the budget used up, waits while the rest of it is reserved,
  -- looking again whenever it is woken, and otherwise runs; and whether it then succeeds or fails,
  -- its reservation is given back. The others may do anything to the map while it waits and runs
  -- that keeps this client's attempts.
  pub with_strict_failure_rate_limit-attempted :
      (ip : IpAddr) (now ended : ℕ) (wakes : List Wake) (m : EntryMap)
      (others : EntryMap → EntryMap) (outcome : Result R)
      → l.disabled ≡ false
      → Keeps (key l ip) others
      → All (λ wake. Keeps (key l ip) wake.1) wakes
      → let done =
          with_strict_failure_rate_limit_using_ip full l
            (λ n. (others n, outcome))
            ip
            now
            ended
            wakes
            m in
        (attempts_of (lookup (key l ip) done.0), done.1)
        ≡ attempted_strictly now ended outcome wakes (attempts_of (lookup (key l ip) m))
  unfolding with_strict_failure_rate_limit_using_ip hold
  with_strict_failure_rate_limit-attempted ip now ended wakes m others outcome on keeps kept =
      let k = key l ip in
      let held = (get_or_insert l k now m).0 in
      let entry = (get_or_insert l k now m).1 in
      let (there, same) = get_or_insert-lookup l now k m in
      let before : attempts_of (lookup k held) ≡ attempts_of (lookup k m) =
        ap attempts_of there ∙ same in
      let ran =
        strict_run-attempted k now ended wakes held (hold entry) others outcome there keeps kept in
      ground (arith, on, rw before at ran)
