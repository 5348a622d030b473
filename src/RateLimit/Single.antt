-- ===== src/RateLimit/Single.antt =====
-- crates/rate_limit/src/lib.rs: `WithFailureRateLimit` for one client, without the map.
use moghtech_lib.Base.{
  ℕ, ◌-◌, ◌≡◌, refl, [], ◌∷◌, ◌++◌, Option, none, some, Bool, false, leb, if◌then◌else◌, length,
  arith, Option-cases, inl, inr,
}
use moghtech_lib.Base.Times.{recent}
use moghtech_lib.Base.Table.{lookup, insert, lookup-insert}
use moghtech_lib.Net.{IpAddr, ip_addr_eq, ip_eq_iff}
use moghtech_lib.Error.{Result, ok, err}
use moghtech_lib.RateLimit.Attempts.{
  Attempts, RateLimiter, prune, check, record_failure, push_failure, too_many_attempts,
}
use moghtech_lib.RateLimit.Entries.{Entry, EntryMap, get, get_or_insert, release, hold}
use moghtech_lib.RateLimit.Key.{key}
use moghtech_lib.RateLimit.Cleanup.{attempts_of}
use moghtech_lib.RateLimit.Room.{get_or_insert-lookup}
use moghtech_lib.RateLimit.Wrapper.{
  failed_attempt, store, store_checked, attempts_in, give_back, lenient_end,
  with_failure_rate_limit_using_ip,
}

module _ {ℓ} {R : Type ℓ} (full : Bool) (l : RateLimiter) where
  -- The attempts of the client, and the answer, once an attempt has ended that was let in.
  abbrev pub ended_with : ℕ → Attempts → Result R → Attempts × Result R
  ended_with ended a (ok res) = (a, ok res)
  ended_with ended a (err e) =
      let failures = recent ended l.window a.failures ++ ended ∷ [] in
      (
        record a { failures = failures },
        err (failed_attempt full e (l.max_attempts - length failures)),
      )

  -- An attempt of a client with the given attempts.
  abbrev pub attempted : (now ended : ℕ) → Result R → Attempts → Attempts × Result R
  attempted now ended outcome a =
      let pruned = record a { failures = recent now l.window a.failures } in
      if leb l.max_attempts (length pruned.failures)
      then (pruned, err (too_many_attempts l pruned.failures now))
      else ended_with ended pruned outcome

pub store-attempts :
    (k : IpAddr) (a : Attempts) (m : EntryMap) (e : Entry)
    → lookup k m ≡ some e
    → lookup k (store k a m) ≡ some (record e { attempts = a })
unfolding store
store-attempts k a m e h =
    ground (arith, h, ip_eq_iff k k, lookup-insert k k (record e { attempts = a }) m)

pub release-attempts :
    (k : IpAddr) (m : EntryMap) → attempts_of (lookup k (release k m)) ≡ attempts_of (lookup k m)
unfolding release
release-attempts k m = elim (Option-cases (lookup k m)) [
  | inl missing ↦ ground (arith, missing)
  | inr (e, found) ↦
      ground
        (arith, found, ip_eq_iff k k, lookup-insert k k (record e { handles = e.handles - 1 }) m)
]

give_back-attempts :
    (k : IpAddr) (o : Option Entry) (m : EntryMap)
    → attempts_of (lookup k (give_back k o m)) ≡ attempts_of (lookup k m)
unfolding give_back
give_back-attempts k none m = refl
give_back-attempts k (some e) m = release-attempts k m

-- What is checked at the start, whether the client has an entry or not.
check-attempts :
    (l : RateLimiter) (now : ℕ) (k : IpAddr) (m : EntryMap)
    → let held = get k m in
      let checked = check l now (attempts_in held.1) in
      let a = attempts_of (lookup k m) in
      (attempts_of (lookup k (store_checked k checked.0 held.0))
        ≡ record a { failures = recent now l.window a.failures })
      × (checked.1 ≡ (
          if leb l.max_attempts (length (recent now l.window a.failures))
          then err (too_many_attempts l (recent now l.window a.failures) now)
          else ok tt))
unfolding get check store_checked hold
check-attempts l now k m = elim (Option-cases (lookup k m)) [
  | inl missing ↦ (ground (arith, missing), ground (arith, missing))
  | inr (e, found) ↦
      let there : lookup k (insert k (hold e) m) ≡ some (hold e) =
        ground (arith, ip_eq_iff k k, lookup-insert k k (hold e) m) in
      (
        ground (
          arith,
          found,
          store-attempts k
              (record e.attempts { failures = recent now l.window e.attempts.failures })
              (insert k (hold e) m) (hold e) there,
        ),
        ground (arith, found),
      )
]

module _ {ℓ} {R : Type ℓ} (full : Bool) (l : RateLimiter) where
  lenient_end-attempts :
      (k : IpAddr) (ended : ℕ) (m : EntryMap) (outcome : Result R)
      → let done = lenient_end full l k ended (m, outcome) in
        (attempts_of (lookup k done.0), done.1)
        ≡ ended_with full l ended (attempts_of (lookup k m)) outcome
  unfolding lenient_end record_failure push_failure prune
  lenient_end-attempts k ended m (ok res) = refl
  lenient_end-attempts k ended m (err e) =
      let held = (get_or_insert l k ended m).0 in
      let entry = (get_or_insert l k ended m).1 in
      let (there, same) = get_or_insert-lookup l ended k m in
      let a = (record_failure l ended entry.attempts).0 in
      let stored = store-attempts k a held (hold entry) there in
      ground (arith, stored, same, release-attempts k (store k a held))

  -- Unless the limiter is disabled, `with_failure_rate_limit_using_ip` does to the attempts of the
  -- client, and answers, what is said of one client alone: with the budget used up, the attempt
  -- is refused and nothing is recorded; otherwise it runs, its success is passed on, and its failure is
  -- recorded when it ends and says how many attempts remain. The others may do anything to the map
  -- in the meantime that keeps this client's attempts.
  pub with_failure_rate_limit-attempted :
      (ip : IpAddr) (now ended : ℕ) (m : EntryMap) (others : EntryMap → EntryMap)
      (outcome : Result R)
      → l.disabled ≡ false
      → ((n : EntryMap)
          → attempts_of (lookup (key l ip) (others n)) ≡ attempts_of (lookup (key l ip) n))
      → let done =
          with_failure_rate_limit_using_ip full l (λ n. (others n, outcome)) ip now ended m in
        (attempts_of (lookup (key l ip) done.0), done.1)
        ≡ attempted full l now ended outcome (attempts_of (lookup (key l ip) m))
  unfolding with_failure_rate_limit_using_ip
  with_failure_rate_limit-attempted ip now ended m others outcome on keeps =
      let k = key l ip in
      let held = (get k m).0 in
      let entry = (get k m).1 in
      let checked = check l now (attempts_in entry) in
      let next = store_checked k checked.0 held in
      let (pruned, allowed) = check-attempts l now k m in
      let done = lenient_end full l k ended (others next, outcome) in
      let ran = lenient_end-attempts k ended (others next) outcome in
      ground (
        arith,
        on,
        pruned,
        allowed,
        keeps next,
        ran,
        give_back-attempts k entry next,
        give_back-attempts k entry done.0,
      )
