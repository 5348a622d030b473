-- ===== src/RateLimit/Cleanup.antt =====
-- crates/rate_limit/src/lib.rs: what the removal of clients can lose.
use moghtech_lib.Base.{
  ℕ, ◌-◌, ◌≤◌, ◌<◌, ◌≡◌, refl, inl, inr, List, [], ◌∷◌, Option, none, some, true, false, ltb,
  if◌then◌else◌, last?, All, arith, Bool-cases, Option-cases,
}
use moghtech_lib.Base.Times.{recent, IsOrdered}
use moghtech_lib.Base.Table.{lookup, HasDistinctKeys, lookup_absent}
use moghtech_lib.Net.{IpAddr, ip_addr_eq, ip_eq_iff, ip_eq}
use moghtech_lib.RateLimit.Attempts.{Attempts, no_attempts, RateLimiter, prune}
use moghtech_lib.RateLimit.Entries.{Entry, EntryMap, is_stale, drop_stale, cleanup_at}

-- What the limiter knows of a client: nothing, without an entry.
abbrev pub attempts_of : Option Entry → Attempts
attempts_of none = no_attempts
attempts_of (some e) = e.attempts

abbrev pub HasOrder : ℕ → EntryMap → Type 0
HasOrder now = All (λ p. IsOrdered now p.1.attempts.failures)

All-last? : (u t : ℕ) (ts : List ℕ) → All (λ v. u ≤ v) ts → last? ts ≡ some t → u ≤ t
All-last? u t [] a e = absurd (ground arith)
All-last? u t (v ∷ []) a e = ground arith
All-last? u t (v ∷ w ∷ ts) a e = All-last? u t (w ∷ ts) a.1 e

nil_of_last? : (ts : List ℕ) → last? ts ≡ none → ts ≡ []
nil_of_last? [] e = refl
nil_of_last? (t ∷ []) e = ground arith
nil_of_last? (t ∷ u ∷ ts) e = let f = nil_of_last? (u ∷ ts) e in absurd (ground arith)

-- With the last failure out of the window, so are all.
recent-nil :
    (now later window : ℕ) (ts : List ℕ) (t : ℕ)
    → IsOrdered now ts
    → last? ts ≡ some t
    → window ≤ now - t
    → now ≤ later
    → recent later window ts ≡ []
recent-nil now later window [] t o e h k = refl
recent-nil now later window (u ∷ []) t o e h k = ground arith
recent-nil now later window (u ∷ v ∷ ts) t (p, q, o) e h k =
    let older : u ≤ t = All-last? u t (v ∷ ts) q e in
    let out : ltb (later - u) window ≡ false = ground arith in
    rw out (recent-nil now later window (v ∷ ts) t o e h k)

stale-recent :
    (l : RateLimiter) (now later : ℕ) (e : Entry)
    → IsOrdered now e.attempts.failures
    → is_stale l now e ≡ true
    → now ≤ later
    → (recent later l.window e.attempts.failures ≡ [])
      × (e.attempts.in_flight ≡ 0)
      × (e.handles ≡ 0)
unfolding is_stale
stale-recent l now later e o s h = elim (Option-cases (last? e.attempts.failures)) [
  | inl none_left ↦ (
    let empty = nil_of_last? e.attempts.failures none_left in rw empty refl,
    ground arith,
    ground arith,
  )
  | inr (t, last) ↦ (
    recent-nil now later l.window e.attempts.failures t o last (ground arith) h,
    ground arith,
    ground arith,
  )
]

pub lookup-drop_stale_none :
    (l : RateLimiter) (now : ℕ) (k : IpAddr) (m : EntryMap)
    → lookup k m ≡ none
    → lookup k (drop_stale l now m) ≡ none
unfolding lookup drop_stale
lookup-drop_stale_none l now k [] h = refl
lookup-drop_stale_none l now k ((j, f) ∷ m) h = ground (arith, lookup-drop_stale_none l now k m)

pub lookup-drop_stale :
    (l : RateLimiter) (now : ℕ) (k : IpAddr) (m : EntryMap) (e : Entry)
    → HasDistinctKeys m
    → lookup k m ≡ some e
    → lookup k (drop_stale l now m) ≡ (if is_stale l now e then none else some e)
unfolding lookup drop_stale
lookup-drop_stale l now k [] e d h = absurd (ground arith)
lookup-drop_stale l now k ((j, f) ∷ m) e (d, ds) h = elim (Bool-cases (ip_eq j k)) [
  | inl same ↦
      let e' : j ≡ k = (ip_eq_iff j k).0 same in
      let absent = lookup-drop_stale_none l now k m (lookup_absent k m (rw e' at d)) in
      ground (arith, same, absent)
  | inr other ↦ ground (arith, other, lookup-drop_stale l now k m e ds)
]

lookup-IsOrdered :
    (now : ℕ) (k : IpAddr) (m : EntryMap) (e : Entry)
    → HasOrder now m
    → lookup k m ≡ some e
    → IsOrdered now e.attempts.failures
unfolding lookup
lookup-IsOrdered now k [] e o h = absurd (ground arith)
lookup-IsOrdered now k ((j, f) ∷ m) e (p, o) h = elim (Bool-cases (ip_eq j k)) [
  | inl same ↦ let e' : f ≡ e = ground (arith, same) in rw (← e') p
  | inr other ↦ lookup-IsOrdered now k m e o (ground (arith, other))
]

-- On a map that has each client once, with its failures in order, the removal of stale clients loses
-- nothing: from then on every client has the same failures in the window, and the same attempts in
-- flight, as if it had kept its entry.
pub cleanup_at-attempts :
    (l : RateLimiter) (now later : ℕ) (k : IpAddr) (m : EntryMap)
    → HasDistinctKeys m
    → HasOrder now m
    → now ≤ later
    → prune later l.window (attempts_of (lookup k (cleanup_at l now m)))
      ≡ prune later l.window (attempts_of (lookup k m))
unfolding cleanup_at prune
cleanup_at-attempts l now later k m d o h = elim (Option-cases (lookup k m)) [
  | inl missing ↦ rw (missing, lookup-drop_stale_none l now k m missing)
  | inr (f, found) ↦
      let dropped = lookup-drop_stale l now k m f d found in
      let old = stale-recent l now later f (lookup-IsOrdered now k m f o found) in
      ground (arith, dropped, found, old)
]

-- On a map that has each client once, a clean-up keeps every entry that an attempt refers to, as it
-- is.
pub cleanup_at-held :
    (l : RateLimiter) (now : ℕ) (k : IpAddr) (m : EntryMap) (e : Entry)
    → HasDistinctKeys m
    → lookup k m ≡ some e
    → 0 < e.handles
    → lookup k (cleanup_at l now m) ≡ some e
unfolding cleanup_at is_stale
cleanup_at-held l now k m e d h used = ground (arith, lookup-drop_stale l now k m e d h)
