-- ===== src/Base/Times.antt =====
-- Points in time and spans are numbers of nanoseconds. `now - t` stops at 0, as
-- `Instant::duration_since` does, and `window - d` as `Duration::saturating_sub`.
use Prim.Native.Nat.{ℕ, ◌+◌, ◌-◌, ◌≤◌}
use mathlib.Core.Path.{◌≡◌, refl}
use mathlib.Core.Bool.{Bool}
use mathlib.Core.List.{List, [], ◌∷◌, ◌++◌}
use native.Mathlib.Omega.{arith}
use moghtech_lib.Base.Tests.{ltb, if◌then◌else◌}
use moghtech_lib.Base.Lists.{length, retain, All, All-append, All-retain}

-- `now.duration_since(time) < window`
abbrev pub within : ℕ → ℕ → ℕ → Bool
within now window time = ltb (now - time) window

-- The times that have not left the window.
abbrev pub recent : ℕ → ℕ → List ℕ → List ℕ
recent now window = retain (within now window)

abbrev pub count_recent : ℕ → ℕ → List ℕ → ℕ
count_recent now window [] = 0
count_recent now window (t ∷ ts) =
    (if within now window t then 1 else 0) + count_recent now window ts

pub length-recent :
    (now window : ℕ) (ts : List ℕ) → length (recent now window ts) ≡ count_recent now window ts
length-recent now window [] = refl
length-recent now window (t ∷ ts) = ground (arith, length-recent now window ts)

pub count_recent-append :
    (now window : ℕ) (xs ys : List ℕ)
    → count_recent now window (xs ++ ys) ≡ count_recent now window xs + count_recent now window ys
count_recent-append now window [] ys = omega arith
count_recent-append now window (x ∷ xs) ys = omega (arith, count_recent-append now window xs ys)

-- What has left the window never comes back.
pub count_recent-recent :
    (now later window : ℕ) (ts : List ℕ)
    → now ≤ later
    → count_recent later window (recent now window ts) ≡ count_recent later window ts
count_recent-recent now later window [] h = refl
count_recent-recent now later window (t ∷ ts) h =
    ground (arith, count_recent-recent now later window ts h)

pub count_recent-le-length : (now window : ℕ) (ts : List ℕ) → count_recent now window ts ≤ length ts
count_recent-le-length now window [] = omega arith
count_recent-le-length now window (t ∷ ts) = ground (arith, count_recent-le-length now window ts)

-- Oldest first, none later than `now`.
abbrev pub IsOrdered : ℕ → List ℕ → Type 0
IsOrdered now [] = Unit
IsOrdered now (t ∷ ts) = (t ≤ now) × All (λ u. t ≤ u) ts × IsOrdered now ts

pub IsOrdered-later :
    (now later : ℕ) (ts : List ℕ) → now ≤ later → IsOrdered now ts → IsOrdered later ts
IsOrdered-later now later [] h o = tt
IsOrdered-later now later (t ∷ ts) h (p, q, o) = (omega arith, q, IsOrdered-later now later ts h o)

pub IsOrdered-recent :
    (now at window : ℕ) (ts : List ℕ) → IsOrdered now ts → IsOrdered now (recent at window ts)
IsOrdered-recent now at window [] o = tt
IsOrdered-recent now at window (t ∷ ts) (p, q, o) =
    ground
      (arith, All-retain (λ u. t ≤ u) (within at window) ts q, IsOrdered-recent now at window ts o)

pub IsOrdered-push : (now : ℕ) (ts : List ℕ) → IsOrdered now ts → IsOrdered now (ts ++ now ∷ [])
IsOrdered-push now [] o = (omega arith, tt, tt)
IsOrdered-push now (t ∷ ts) (p, q, o) =
    (p, All-append (λ u. t ≤ u) ts (now ∷ []) q (p, tt), IsOrdered-push now ts o)

-- Fewer failures are in the window as time goes on.
pub count_recent-antitone :
    (now later window : ℕ) (ts : List ℕ)
    → now ≤ later
    → count_recent later window ts ≤ count_recent now window ts
count_recent-antitone now later window [] h = omega arith
count_recent-antitone now later window (t ∷ ts) h =
    ground (arith, count_recent-antitone now later window ts h)

-- After a push the stored failures count one more, whenever they are counted.
pub count_recent-push :
    (window now later : ℕ) (ts log : List ℕ)
    → now ≤ later
    → count_recent later window ts ≡ count_recent later window log
    → count_recent later window (recent now window ts ++ now ∷ [])
      ≡ count_recent later window (now ∷ log)
count_recent-push window now later ts log h e = omega (
  arith,
  count_recent-append later window (recent now window ts) (now ∷ []),
  count_recent-recent now later window ts h,
  e,
)

-- Newest first: each failure, with those before it that were still in the window, is within the
-- bound.
abbrev pub Bounded : ℕ → ℕ → List ℕ → Type 0
Bounded window bound [] = Unit
Bounded window bound (t ∷ ts) = (count_recent t window (t ∷ ts) ≤ bound) × Bounded window bound ts

pub Bounded-mono :
    (window m n : ℕ) (ts : List ℕ) → m ≤ n → Bounded window m ts → Bounded window n ts
Bounded-mono window m n [] h b = tt
Bounded-mono window m n (t ∷ ts) h (p, b) = (omega arith, Bounded-mono window m n ts h b)
