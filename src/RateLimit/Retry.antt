-- ===== src/RateLimit/Retry.antt =====
-- crates/rate_limit/src/lib.rs: the wait that a refusal names.
use moghtech_lib.Base.{
  ℕ, zero, suc, ◌+◌, ◌-◌, ◌≤◌, ◌<◌, ◌≡◌, refl, List, [], ◌∷◌, ◌↔◌, arith, true, false, Bool-cases,
  inl, inr, length, get_elem?, All, some,
}
use moghtech_lib.Base.Times.{within, count_recent, count_recent-le-length, IsOrdered}
use moghtech_lib.Error.{Error, Note, too_many_requests}
use moghtech_lib.RateLimit.Attempts.{Attempts}

-- `429 Too Many Requests`, naming a wait.
abbrev pub refusal : ℕ → Error
refusal time = record { status = too_many_requests; notes = Note.retry_in time ∷ [] }

All-get_elem? :
    (t u : ℕ) (ts : List ℕ) (i : ℕ) → All (λ v. t ≤ v) ts → get_elem? ts i ≡ some u → t ≤ u
All-get_elem? t u [] i a e = absurd (ground arith)
All-get_elem? t u (v ∷ ts) zero a e = ground arith
All-get_elem? t u (v ∷ ts) (suc i) a e = All-get_elem? t u ts i a.1 e

-- Once the failure at a place has left the window, so have those before it.
pub count_recent_of_left :
    (now later window : ℕ) (ts : List ℕ) (i t : ℕ)
    → IsOrdered now ts
    → get_elem? ts i ≡ some t
    → within later window t ≡ false
    → count_recent later window ts + suc i ≤ length ts
count_recent_of_left now later window [] i t o e out = absurd (ground arith)
count_recent_of_left now later window (u ∷ ts) zero t o e out =
    ground (arith, count_recent-le-length later window ts)
count_recent_of_left now later window (u ∷ ts) (suc i) t (p, q, o) e out =
    ground (arith, count_recent_of_left now later window ts i t o e out, All-get_elem? u t ts i q e)

count_recent-All :
    (t later window : ℕ) (ts : List ℕ)
    → All (λ v. t ≤ v) ts
    → within later window t ≡ true
    → count_recent later window ts ≡ length ts
count_recent-All t later window [] a h = refl
count_recent-All t later window (u ∷ ts) a h =
    ground (arith, count_recent-All t later window ts a.1 h)

-- While it is in the window, so are those after it.
pub count_recent_of_within :
    (now later window : ℕ) (ts : List ℕ) (i t : ℕ)
    → IsOrdered now ts
    → get_elem? ts i ≡ some t
    → within later window t ≡ true
    → length ts ≤ count_recent later window ts + i
count_recent_of_within now later window [] i t o e h = absurd (ground arith)
count_recent_of_within now later window (u ∷ ts) zero t (p, q, o) e h =
    ground (arith, count_recent-All u later window ts q)
count_recent_of_within now later window (u ∷ ts) (suc i) t (p, q, o) e h =
    ground (arith, count_recent_of_within now later window ts i t o e h)

pub get_elem?-total {ℓ} :
    {A : Type ℓ} (xs : List A) (i : ℕ) → i < length xs → (a : A) × (get_elem? xs i ≡ some a)
get_elem?-total [] i h = absurd (omega arith)
get_elem?-total (x ∷ xs) zero h = (x, refl)
get_elem?-total (x ∷ xs) (suc i) h = get_elem?-total xs i (omega arith)

IsOrdered-get_elem? :
    (now : ℕ) (ts : List ℕ) (i t : ℕ) → IsOrdered now ts → get_elem? ts i ≡ some t → t ≤ now
IsOrdered-get_elem? now [] i t o e = absurd (ground arith)
IsOrdered-get_elem? now (u ∷ ts) zero t o e = ground arith
IsOrdered-get_elem? now (u ∷ ts) (suc i) t o e = IsOrdered-get_elem? now ts i t o.2 e

-- With the excess failure at its place, the budget is free again once that one has left.
pub free_iff :
    (now d window budget : ℕ) (ts : List ℕ) (t : ℕ)
    → IsOrdered now ts
    → 0 < budget
    → budget ≤ length ts
    → get_elem? ts (length ts - budget) ≡ some t
    → (count_recent (now + d) window ts < budget) ↔ (window - (now - t) ≤ d)
free_iff now d window budget ts t o pos full e = elim (Bool-cases (within (now + d) window t)) [
  | inl h ↦ ground (
    arith,
    h,
    count_recent_of_within now (now + d) window ts (length ts - budget) t o e h,
    IsOrdered-get_elem? now ts (length ts - budget) t o e,
  )
  | inr h ↦ ground (
    arith,
    h,
    count_recent_of_left now (now + d) window ts (length ts - budget) t o e h,
    IsOrdered-get_elem? now ts (length ts - budget) t o e,
  )
]
