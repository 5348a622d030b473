-- ===== src/RateLimit/Room.antt =====
-- crates/rate_limit/src/lib.rs: a full map makes room for a new client.
use moghtech_lib.Base.{
  ℕ, zero, suc, ◌-◌, ◌/◌, ◌<◌, ◌≡◌, refl, ap, ◌∙◌, ◌⊎◌, inl, inr, List, [], ◌∷◌, Option, none, some,
  false, not, leb, if◌then◌else◌, length, take, min, max, All, All-retain, arith, Bool-cases,
  Option-cases,
}
use moghtech_lib.Base.Table.{lookup, remove, lookup-remove, lookup-insert, HasDistinctKeys}
use moghtech_lib.Net.{IpAddr, ip_addr_eq, ip_eq_iff, ip_eq}
use moghtech_lib.RateLimit.Attempts.{RateLimiter}
use moghtech_lib.RateLimit.Entries.{
  Entry, EntryMap, fresh, is_stale, removable, insert_by_age, select_by_age, remove_all, drop_stale,
  evict, make_room, get_or_insert, hold,
}
use moghtech_lib.RateLimit.Cleanup.{lookup-drop_stale, attempts_of}

abbrev pub IsInUse : Entry → Type 0
IsInUse e = (0 < e.handles) ⊎ (0 < e.attempts.in_flight)

-- None of the choices is the client `k`.
abbrev Spares : IpAddr → List (Option ℕ × IpAddr) → Type 0
Spares k = All (λ x. ip_eq x.1 k ≡ false)

insert_by_age-Spares :
    (k : IpAddr) (x : Option ℕ × IpAddr) (xs : List (Option ℕ × IpAddr))
    → ip_eq x.1 k ≡ false
    → Spares k xs
    → Spares k (insert_by_age x xs)
unfolding insert_by_age
insert_by_age-Spares k (a, i) [] h s = (h, tt)
insert_by_age-Spares k (a, i) ((b, j) ∷ xs) h s =
    ground (arith, insert_by_age-Spares k (a, i) xs h s.1)

select_by_age-Spares :
    (k : IpAddr) (xs : List (Option ℕ × IpAddr)) → Spares k xs → Spares k (select_by_age xs)
unfolding select_by_age
select_by_age-Spares k [] s = tt
select_by_age-Spares k (x ∷ xs) (h, s) =
    insert_by_age-Spares k x (select_by_age xs) h (select_by_age-Spares k xs s)

take-Spares :
    (k : IpAddr) (n : ℕ) (xs : List (Option ℕ × IpAddr)) → Spares k xs → Spares k (take n xs)
take-Spares k zero xs s = tt
take-Spares k (suc n) [] s = tt
take-Spares k (suc n) (x ∷ xs) (h, s) = (h, take-Spares k n xs s)

lookup-remove_all :
    (k : IpAddr) (xs : List (Option ℕ × IpAddr)) (m : EntryMap)
    → Spares k xs
    → lookup k (remove_all xs m) ≡ lookup k m
unfolding remove_all
lookup-remove_all k [] m s = refl
lookup-remove_all k ((a, j) ∷ xs) m (h, s) =
    lookup-remove_all k xs (remove j m) s ∙ ground (arith, h, lookup-remove j k m)

removable-Spares_absent :
    (k j : IpAddr) (m : EntryMap)
    → All (λ p. ip_eq p.0 j ≡ false) m
    → j ≡ k
    → Spares k (removable m)
unfolding removable
removable-Spares_absent k j [] a same = tt
removable-Spares_absent k j ((i, f) ∷ m) a same =
    let rest = removable-Spares_absent k j m a.1 same in
    let other : ip_eq i k ≡ false = rw (← same) a.0 in ground (arith, rest, other)

removable-Spares :
    (k : IpAddr) (m : EntryMap) (e : Entry)
    → HasDistinctKeys m
    → lookup k m ≡ some e
    → IsInUse e
    → Spares k (removable m)
unfolding lookup removable
removable-Spares k [] e d h u = tt
removable-Spares k ((j, f) ∷ m) e (a, d) h u = elim (Bool-cases (ip_eq j k)) [
  | inl same ↦
      let rest = removable-Spares_absent k j m a ((ip_eq_iff j k).0 same) in
      ground (arith, rest, same)
  | inr other ↦
      let rest = removable-Spares k m e d (ground (arith, other)) u in ground (arith, rest, other)
]

lookup-evict :
    (target : ℕ) (k : IpAddr) (m : EntryMap)
    → Spares k (removable m)
    → lookup k (evict target m) ≡ lookup k m
unfolding evict
lookup-evict target k m s =
    let excess = min (length m - target) (length (removable m)) in
    ground (
      arith,
      lookup-remove_all k (take excess (select_by_age (removable m))) m (
          take-Spares k excess (select_by_age (removable m))
            (select_by_age-Spares k (removable m) s)),
      lookup-remove_all k (take excess (removable m)) m (take-Spares k excess (removable m) s),
    )

pub drop_stale-HasDistinctKeys :
    (l : RateLimiter) (now : ℕ) (m : EntryMap)
    → HasDistinctKeys m
    → HasDistinctKeys (drop_stale l now m)
unfolding drop_stale
drop_stale-HasDistinctKeys l now [] d = tt
drop_stale-HasDistinctKeys l now ((k, e) ∷ m) (a, d) = ground (
  arith,
  All-retain (λ p. ip_eq p.0 k ≡ false) (λ p. not (is_stale l now p.1)) m a,
  drop_stale-HasDistinctKeys l now m d,
)

not-stale : (l : RateLimiter) (now : ℕ) (e : Entry) → IsInUse e → is_stale l now e ≡ false
unfolding is_stale
not-stale l now e u = ground arith

make_room-lookup :
    (l : RateLimiter) (now : ℕ) (k : IpAddr) (m : EntryMap) (e : Entry)
    → HasDistinctKeys m
    → lookup k m ≡ some e
    → IsInUse e
    → lookup k (make_room l now m) ≡ some e
unfolding make_room
make_room-lookup l now k m e d h u =
    let kept : lookup k (drop_stale l now m) ≡ some e =
      lookup-drop_stale l now k m e d h
      ∙ ap (λ b. if b then none else some e) (not-stale l now e u) in
    lookup-evict (l.max_entries - max (l.max_entries / 10) 1) k (drop_stale l now m)
      (removable-Spares k (drop_stale l now m) e (drop_stale-HasDistinctKeys l now m d) kept u)
    ∙ kept

-- An attempt gets the entry of its client, or a new one without failures, with one reference more.
pub get_or_insert-lookup :
    (l : RateLimiter) (now : ℕ) (k : IpAddr) (m : EntryMap)
    → (lookup k (get_or_insert l k now m).0 ≡ some (hold (get_or_insert l k now m).1))
      × ((get_or_insert l k now m).1.attempts ≡ attempts_of (lookup k m))
unfolding get_or_insert
get_or_insert-lookup l now k m = elim (Option-cases (lookup k m)) [
  | inl missing ↦ ground (
    arith,
    missing,
    ip_eq_iff k k,
    lookup-insert k k (hold fresh) (if leb l.max_entries (length m) then make_room l now m else m),
  )
  | inr (f, found) ↦ ground (arith, found, ip_eq_iff k k, lookup-insert k k (hold f) m)
]

-- Whatever client comes, on a map that has each client once, every other entry that an attempt
-- refers to, or that has attempts in flight, stays as it was, also when the map is full and makes
-- room.
pub get_or_insert-in_use :
    (l : RateLimiter) (now : ℕ) (k j : IpAddr) (m : EntryMap) (e : Entry)
    → HasDistinctKeys m
    → ip_eq k j ≡ false
    → lookup j m ≡ some e
    → IsInUse e
    → lookup j (get_or_insert l k now m).0 ≡ some e
unfolding get_or_insert
get_or_insert-in_use l now k j m e d other h u = elim (Option-cases (lookup k m)) [
  | inl missing ↦ ground (
    arith,
    missing,
    other,
    h,
    make_room-lookup l now j m e d h u,
    lookup-insert k j (hold fresh) (if leb l.max_entries (length m) then make_room l now m else m),
  )
  | inr (f, found) ↦ ground (arith, found, other, h, lookup-insert k j (hold f) m)
]
