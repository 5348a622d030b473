-- ===== src/RateLimit/Tests.antt =====
-- crates/rate_limit/src/lib.rs: runs of a small limiter, two failures in ten seconds.
use moghtech_lib.Base.{
  ℕ, ◌+◌, ◌*◌, ◌^◌, ◌≤◌, ◌≡◌, refl, ◌↔◌, inl, [], ◌∷◌, some, true, false, arith,
}
use moghtech_lib.Base.Times.{Bounded, count_recent}
use moghtech_lib.Base.Table.{lookup, HasDistinctKeys}
use moghtech_lib.Error.{Result, err, Note, is_ok, unauthorized}
use moghtech_lib.Net.{IpAddr, v4, v6, to_canonical, ip_addr_eq}
use moghtech_lib.RateLimit.Attempts.{
  RateLimiter, builder, prune, reserve, push_failure, fail_reservation,
}
use moghtech_lib.RateLimit.Strict.{
  World, start, ask, fail_held, time_passes, asks, fails, Reach, starts, steps,
}
use moghtech_lib.RateLimit.Budget.{Reach-Bounded, Reach-held, Reach-refused_iff}
use moghtech_lib.RateLimit.Key.{key, key_iff, SameClient}
use moghtech_lib.RateLimit.Entries.{Entry, EntryMap, cleanup_at, get_or_insert, hold}
use moghtech_lib.RateLimit.Cleanup.{attempts_of, HasOrder, cleanup_at-attempts, cleanup_at-held}
use moghtech_lib.RateLimit.Room.{get_or_insert-lookup, get_or_insert-in_use}
use moghtech_lib.Base.{length, max, none}
use moghtech_lib.RateLimit.Size.{busy, length-get_or_insert-le}
use moghtech_lib.RateLimit.Wrapper.{
  with_failure_rate_limit_using_ip, with_strict_failure_rate_limit_using_ip,
}
use moghtech_lib.RateLimit.Single.{attempted, with_failure_rate_limit-attempted}
use moghtech_lib.RateLimit.StrictSingle.{
  attempted_strictly, with_strict_failure_rate_limit-attempted,
}

abbrev limiter : RateLimiter
limiter = record {
  disabled = false;
  max_attempts = 2;
  window = 10;
  ipv6_prefix_len = 64;
  max_entries = 2;
}

builder_example : builder 2 10 ≡ record limiter { max_entries = 100000 }
unfolding builder
builder_example = refl

-- Two attempts run at the same time and fail, three seconds apart.
abbrev world : World
world = record {
  clock = 104;
  attempts = record { failures = 101 ∷ 104 ∷ []; in_flight = 0 };
  log = 104 ∷ 101 ∷ [];
  held = 0;
  lenient = 0;
}

abbrev asking : World
asking = record {
  clock = 100;
  attempts = record { failures = []; in_flight = 2 };
  log = [];
  held = 2;
  lenient = 0;
}

asked : Reach limiter asking
unfolding start ask reserve prune
asked = steps (steps (starts 100) asks) asks

failed : Reach limiter (record {
  clock = 101;
  attempts = record { failures = 101 ∷ []; in_flight = 1 };
  log = 101 ∷ [];
  held = 1;
  lenient = 0;
})
unfolding fail_held fail_reservation push_failure prune
failed = steps (steps asked (time_passes 1)) (fails (omega arith))

reached : Reach limiter world
unfolding fail_held fail_reservation push_failure prune
reached = steps (steps failed (time_passes 3)) (fails (omega arith))

Reach-Bounded_example : Bounded 10 2 (104 ∷ 101 ∷ [])
Reach-Bounded_example = Reach-Bounded limiter world reached

Reach-held_example : (asking.attempts.in_flight ≡ asking.held) × (asking.held ≤ 2)
Reach-held_example = Reach-held limiter asking asked

Reach-refused_iff_example :
    (is_ok (reserve limiter 104 (world.attempts)).1 ≡ false)
    ↔ (2 ≤ count_recent 104 10 (104 ∷ 101 ∷ []))
Reach-refused_iff_example = Reach-refused_iff limiter world reached

key_iff_example :
    (key limiter (v6 (5 * 2 ^ 64 + 1)) ≡ key limiter (v6 (5 * 2 ^ 64 + 9)))
    ↔ SameClient 64 (to_canonical (v6 (5 * 2 ^ 64 + 1))) (to_canonical (v6 (5 * 2 ^ 64 + 9)))
key_iff_example =
    key_iff limiter (v6 (5 * 2 ^ 64 + 1)) (v6 (5 * 2 ^ 64 + 9)) (omega arith) (omega arith)
      (omega arith)

-- A client that waits for an answer, and one that has left the window.
abbrev waiting : Entry
waiting = record {
  attempts = record { failures = 90 ∷ []; in_flight = 1 };
  handles = 1;
  locked = false;
}

abbrev idle : Entry
idle = record {
  attempts = record { failures = 80 ∷ []; in_flight = 0 };
  handles = 0;
  locked = false;
}

abbrev clients : EntryMap
clients = (v4 1, waiting) ∷ (v4 2, idle) ∷ []

distinct : HasDistinctKeys clients
distinct = ((refl, tt), (tt, tt))

in_order : HasOrder 100 clients
in_order = ((omega arith, tt, tt), ((omega arith, tt, tt), tt))

found : lookup (v4 1) clients ≡ some waiting
unfolding lookup
found = refl

cleanup_at-attempts_example :
    prune 105 10 (attempts_of (lookup (v4 2) (cleanup_at limiter 100 clients)))
    ≡ prune 105 10 (attempts_of (lookup (v4 2) clients))
cleanup_at-attempts_example =
    cleanup_at-attempts limiter 100 105 (v4 2) clients distinct in_order (omega arith)

cleanup_at-held_example : lookup (v4 1) (cleanup_at limiter 100 clients) ≡ some waiting
cleanup_at-held_example =
    cleanup_at-held limiter 100 (v4 1) clients waiting distinct found (omega arith)

get_or_insert-in_use_example :
    lookup (v4 1) (get_or_insert limiter (v4 3) 100 clients).0 ≡ some waiting
get_or_insert-in_use_example =
    get_or_insert-in_use limiter 100 (v4 3) (v4 1) clients waiting distinct refl found
      (inl (omega arith))

absent : lookup (v4 3) clients ≡ none
unfolding lookup
absent = refl

length-get_or_insert-le_example :
    length (get_or_insert limiter (v4 3) 100 clients).0 ≤ max 2 (busy clients + 1)
length-get_or_insert-le_example =
    length-get_or_insert-le limiter 100 (v4 3) clients distinct (omega arith) absent

get_or_insert-lookup_example :
    (lookup (v4 3) (get_or_insert limiter (v4 3) 100 clients).0
      ≡ some (hold (get_or_insert limiter (v4 3) 100 clients).1))
    × ((get_or_insert limiter (v4 3) 100 clients).1.attempts ≡ attempts_of (lookup (v4 3) clients))
get_or_insert-lookup_example = get_or_insert-lookup limiter 100 (v4 3) clients

abbrev refused_login : Result ℕ
refused_login =
    err (record { status = unauthorized; notes = Note.text "Invalid login credentials" ∷ [] })

abbrev unchanged : EntryMap → EntryMap
unchanged m = m

keeps :
    (k : IpAddr) (n : EntryMap) → attempts_of (lookup k (unchanged n)) ≡ attempts_of (lookup k n)
keeps k n = refl

with_failure_rate_limit-attempted_example :
    let done =
      with_failure_rate_limit_using_ip true limiter
        (λ n. (unchanged n, refused_login))
        (v4 2)
        100
        101
        clients in
    (attempts_of (lookup (key limiter (v4 2)) done.0), done.1)
    ≡ attempted true limiter 100 101 refused_login
        (attempts_of (lookup (key limiter (v4 2)) clients))
with_failure_rate_limit-attempted_example =
    with_failure_rate_limit-attempted true limiter (v4 2) 100 101 clients unchanged refused_login
      refl (keeps (key limiter (v4 2)))

-- The other attempt of the client has the whole budget, at the start and when this one is woken.
abbrev tight : RateLimiter
tight = record limiter { max_attempts = 1; window = 11 }

with_strict_failure_rate_limit-attempted_example :
    let done =
      with_strict_failure_rate_limit_using_ip true tight
        (λ n. (unchanged n, refused_login))
        (v4 1)
        101
        103
        ((102, unchanged) ∷ [])
        clients in
    (attempts_of (lookup (key tight (v4 1)) done.0), done.1)
    ≡ attempted_strictly true tight 101 103 refused_login
        ((102, unchanged) ∷ [])
        (attempts_of (lookup (key tight (v4 1)) clients))
with_strict_failure_rate_limit-attempted_example =
    with_strict_failure_rate_limit-attempted true tight (v4 1) 101 103 ((102, unchanged) ∷ [])
      clients unchanged refused_login refl (keeps (key tight (v4 1))) (keeps (key tight (v4 1)), tt)
