-- ===== src/RateLimit/Size.antt =====
-- crates/rate_limit/src/lib.rs: how many clients the map has.
use moghtech_lib.Base.{
  ℕ, suc, ◌+◌, ◌-◌, ◌/◌, ◌≤◌, ◌<◌, ◌≡◌, refl, inl, inr, List, [], ◌∷◌, none, some, true, false, not,
  ◌&&◌, ◌==◌, if◌then◌else◌, length, take, min, max, All, arith, Bool-cases, Option-cases,
}
use moghtech_lib.Base.Table.{
  lookup, insert, remove, lookup-remove, HasDistinctKeys, remove-HasDistinctKeys,
}
use moghtech_lib.Net.{IpAddr, ip_addr_eq, ip_eq_iff, ip_eq}
use moghtech_lib.RateLimit.Attempts.{RateLimiter}
use moghtech_lib.RateLimit.Entries.{
  Entry, EntryMap, fresh, removable, select_by_age, remove_all, drop_stale, evict, make_room,
  get_or_insert, hold,
}
use moghtech_lib.RateLimit.Room.{drop_stale-HasDistinctKeys}
use moghtech_lib.RateLimit.Choice.{
  Choice, present, IsPresent, Avoids, AreDistinct, select_by_age-All, take-All,
  select_by_age-AreDistinct, take-AreDistinct, length-select_by_age, length-take, ip_eq_comm,
}

-- Entries that cannot be removed early.
abbrev pub busy : EntryMap → ℕ
busy [] = 0
busy ((k, e) ∷ m) =
    (if e.handles == 0 && not e.locked && e.attempts.in_flight == 0 then 0 else 1) + busy m

length-remove_absent :
    (k : IpAddr) (m : EntryMap) → All (λ p. ip_eq p.0 k ≡ false) m → length (remove k m) ≡ length m
unfolding remove
length-remove_absent k [] a = refl
length-remove_absent k ((j, e) ∷ m) a = ground (arith, length-remove_absent k m a.1)

length-remove :
    (k : IpAddr) (m : EntryMap) (e : Entry)
    → HasDistinctKeys m
    → lookup k m ≡ some e
    → suc (length (remove k m)) ≡ length m
unfolding lookup remove
length-remove k [] e d h = absurd (ground (arith, h))
length-remove k ((j, f) ∷ m) e (a, d) h = elim (Bool-cases (ip_eq j k)) [
  | inl same ↦
      let absent = length-remove_absent k m (rw ((ip_eq_iff j k).0 same) at a) in
      ground (arith, same, absent)
  | inr other ↦ ground (arith, other, length-remove k m e d)
]

IsPresent-remove :
    (k : IpAddr) (m : EntryMap) (xs : List Choice)
    → Avoids k xs
    → IsPresent m xs
    → IsPresent (remove k m) xs
IsPresent-remove k m [] a p = tt
IsPresent-remove k m (x ∷ xs) (h, a) (g, p) = (
  let other = ip_eq_comm x.1 k h in ground (arith, other, g, lookup-remove k x.1 m),
  IsPresent-remove k m xs a p,
)

length-remove_all :
    (xs : List Choice) (m : EntryMap)
    → HasDistinctKeys m
    → AreDistinct xs
    → IsPresent m xs
    → length (remove_all xs m) + length xs ≡ length m
unfolding remove_all
length-remove_all [] m d a p = omega arith
length-remove_all ((t, k) ∷ xs) m d (a, ds) (g, p) = elim (Option-cases (lookup k m)) [
  | inl missing ↦ absurd (ground (arith, missing, g))
  | inr (e, found) ↦ omega (
    arith,
    length-remove k m e d found,
    length-remove_all xs (remove k m) (remove-HasDistinctKeys k m d) ds
        (IsPresent-remove k m xs a p),
  )
]

removable-Avoids :
    (k : IpAddr) (m : EntryMap) → All (λ p. ip_eq p.0 k ≡ false) m → Avoids k (removable m)
unfolding removable
removable-Avoids k [] a = tt
removable-Avoids k ((j, e) ∷ m) a = ground (arith, removable-Avoids k m a.1)

removable-AreDistinct : (m : EntryMap) → HasDistinctKeys m → AreDistinct (removable m)
unfolding removable
removable-AreDistinct [] d = tt
removable-AreDistinct ((k, e) ∷ m) (a, d) =
    ground (arith, removable-AreDistinct m d, removable-Avoids k m a)

IsPresent-more :
    (j : IpAddr) (e : Entry) (m : EntryMap) (xs : List Choice)
    → IsPresent m xs
    → IsPresent ((j, e) ∷ m) xs
unfolding lookup
IsPresent-more j e m [] p = tt
IsPresent-more j e m (x ∷ xs) (g, p) = (ground (arith, g), IsPresent-more j e m xs p)

removable-IsPresent : (m : EntryMap) → IsPresent m (removable m)
unfolding removable lookup
removable-IsPresent [] = tt
removable-IsPresent ((k, e) ∷ m) =
    let rest = IsPresent-more k e m (removable m) (removable-IsPresent m) in
    elim (Bool-cases (e.handles == 0 && not e.locked && e.attempts.in_flight == 0)) [
      | inl free ↦ rw free (ground (arith, ip_eq_iff k k), rest)
      | inr used ↦ rw used rest
    ]

length-removable : (m : EntryMap) → length (removable m) + busy m ≡ length m
unfolding removable
length-removable [] = refl
length-removable ((k, e) ∷ m) = ground (arith, length-removable m)

length-evict :
    (target : ℕ) (m : EntryMap) → HasDistinctKeys m → length (evict target m) ≤ max target (busy m)
unfolding evict
length-evict target m d =
    let choice = removable m in
    let excess = min (length m - target) (length choice) in
    let distinct = removable-AreDistinct m d in
    let there = removable-IsPresent m in
    let older = select_by_age choice in
    ground (
      arith,
      length-removable m,
      length-select_by_age choice,
      length-take excess choice (omega arith),
      length-take excess older (omega (arith, length-select_by_age choice)),
      length-remove_all (take excess choice) m d (take-AreDistinct excess choice distinct)
          (take-All (λ x. present m x ≡ true) excess choice there),
      length-remove_all (take excess older) m d
          (take-AreDistinct excess older (select_by_age-AreDistinct choice distinct))
          (take-All (λ x. present m x ≡ true) excess older
            (select_by_age-All (λ x. present m x ≡ true) choice there)),
    )

busy-drop_stale : (l : RateLimiter) (now : ℕ) (m : EntryMap) → busy (drop_stale l now m) ≤ busy m
unfolding drop_stale
busy-drop_stale l now [] = omega arith
busy-drop_stale l now ((k, e) ∷ m) = ground (arith, busy-drop_stale l now m)

length-insert-le : (k : IpAddr) (e : Entry) (m : EntryMap) → length (insert k e m) ≤ suc (length m)
unfolding insert
length-insert-le k e [] = omega arith
length-insert-le k e ((j, f) ∷ m) = ground (arith, length-insert-le k e m)

-- On a map that has each client once, and a limiter for one client at least: with a new client the
-- map has at most `max_entries` entries, or else only the new one besides those in use.
pub length-get_or_insert-le :
    (l : RateLimiter) (now : ℕ) (k : IpAddr) (m : EntryMap)
    → HasDistinctKeys m
    → 0 < l.max_entries
    → lookup k m ≡ none
    → length (get_or_insert l k now m).0 ≤ max l.max_entries (busy m + 1)
unfolding get_or_insert make_room
length-get_or_insert-le l now k m d pos missing =
    let kept = drop_stale l now m in
    let target = l.max_entries - max (l.max_entries / 10) 1 in
    let room = evict target kept in
    ground (
      arith,
      missing,
      length-insert-le k (hold fresh) m,
      length-insert-le k (hold fresh) room,
      length-evict target kept (drop_stale-HasDistinctKeys l now m d),
      busy-drop_stale l now m,
    )
