-- ===== src/RateLimit/Entries.antt =====
-- crates/rate_limit/src/lib.rs: the map of clients. Each function runs under the map's lock. An
-- entry counts the references to it besides the map's own (`Arc::strong_count` less one), and
-- whether another thread holds its lock. A reference that `get` or `get_or_insert` hands out is
-- given back by `release`. The capacity of the map is not modelled.
use moghtech_lib.Base.{
  ℕ, ◌+◌, ◌-◌, ◌/◌, List, [], ◌∷◌, Option, none, some, Bool, true, false, not, ◌&&◌, leb, ltb, ◌==◌,
  if◌then◌else◌, length, last?, retain, take, min, max,
}
use moghtech_lib.Base.Table.{lookup, insert, remove}
use moghtech_lib.Net.{IpAddr, ip_addr_eq}
use moghtech_lib.RateLimit.Attempts.{Attempts, no_attempts, RateLimiter}

pub record Entry : Type 0 where
  pub attempts : Attempts
  pub handles : ℕ
  pub locked : Bool

abbrev pub fresh : Entry
fresh = record { attempts = no_attempts; handles = 0; locked = false }

abbrev pub EntryMap : Type 0
EntryMap = List (IpAddr × Entry)

abbrev is_none_or : Option ℕ → (ℕ → Bool) → Bool
is_none_or none p = true
is_none_or (some a) p = p a

unfoldable pub is_stale : RateLimiter → ℕ → Entry → Bool
is_stale l now e =
    if ltb 0 e.handles
    then false
    else if e.locked
    then false
    else e.attempts.in_flight == 0
      && is_none_or (last? e.attempts.failures) (λ last. leb l.window (now - last))

-- Those who may be removed early, with their last failure.
unfoldable pub removable : EntryMap → List (Option ℕ × IpAddr)
removable [] = []
removable ((k, e) ∷ m) =
    if e.handles == 0 && not e.locked && e.attempts.in_flight == 0
    then (last? e.attempts.failures, k) ∷ removable m
    else removable m

-- `None` before every time.
abbrev pub age_rank : Option ℕ → ℕ
age_rank none = 0
age_rank (some t) = t + 1

unfoldable pub insert_by_age :
    Option ℕ × IpAddr → List (Option ℕ × IpAddr) → List (Option ℕ × IpAddr)
insert_by_age (a, k) [] = (a, k) ∷ []
insert_by_age (a, k) ((b, j) ∷ xs) =
    if leb (age_rank a) (age_rank b) then (a, k) ∷ (b, j) ∷ xs else (b, j) ∷ insert_by_age (a, k) xs

-- `select_nth_unstable_by_key` puts the oldest first, in some order: here, in the order of age.
unfoldable pub select_by_age : List (Option ℕ × IpAddr) → List (Option ℕ × IpAddr)
unfolding insert_by_age
select_by_age [] = []
select_by_age (x ∷ xs) = insert_by_age x (select_by_age xs)

unfoldable pub remove_all : List (Option ℕ × IpAddr) → EntryMap → EntryMap
remove_all [] m = m
remove_all ((last, k) ∷ ks) m = remove_all ks (remove k m)

unfoldable pub drop_stale : RateLimiter → ℕ → EntryMap → EntryMap
drop_stale l now = retain (λ p. not (is_stale l now p.1))

unfoldable pub evict : ℕ → EntryMap → EntryMap
evict target m =
    let choice = removable m in
    let excess = min (length m - target) (length choice) in
    if excess == 0
    then m
    else remove_all
        (take excess (if ltb excess (length choice) then select_by_age choice else choice)) m

unfoldable pub make_room : RateLimiter → ℕ → EntryMap → EntryMap
make_room l now m = evict (l.max_entries - max (l.max_entries / 10) 1) (drop_stale l now m)

unfoldable pub hold : Entry → Entry
hold e = record e { handles = e.handles + 1 }

-- The map with one more reference to the entry, if there is one.
unfoldable pub get : IpAddr → EntryMap → EntryMap × Option Entry
unfolding hold
get k m = elim (lookup k m) [ none ↦ (m, none) | some e ↦ (insert k (hold e) m, some e) ]

unfoldable pub get_or_insert : RateLimiter → IpAddr → ℕ → EntryMap → EntryMap × Entry
unfolding hold
get_or_insert l k now m = elim (lookup k m) [
  | some e ↦ (insert k (hold e) m, e)
  | none ↦
      (insert k (hold fresh) (if leb l.max_entries (length m) then make_room l now m else m), fresh)
]

-- A reference is dropped.
unfoldable pub release : IpAddr → EntryMap → EntryMap
release k m = elim (lookup k m) [
  | none ↦ m
  | some e ↦ insert k (record e { handles = e.handles - 1 }) m
]

unfoldable pub cleanup_at : RateLimiter → ℕ → EntryMap → EntryMap
cleanup_at l now m = drop_stale l now m
