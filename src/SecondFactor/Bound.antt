-- ===== src/SecondFactor/Bound.antt =====
-- auth/server/src/api/login/totp.rs: what holds of a user however the codes of all users interleave.
use Prim.Native.String.{String}
use text.Mathlib.Text.{◌==◌ as str_eq}
use text.Mathlib.TextEquality.{eq_iff}
use moghtech_lib.Base.{
  ℕ, zero, suc, ◌+◌, ◌<◌, ◌≡◌, List, [], ◌∷◌, Option, some, true, get_elem?, arith, Bool-cases,
  Option-cases, inl, inr, ◌↔◌,
}
use moghtech_lib.Base.Times.{count_recent, Bounded}
use moghtech_lib.Base.Table.{string_eq, lookup}
use moghtech_lib.Error.{is_ok}
use moghtech_lib.SecondFactor.Attempts.{UserAttempts, begin}
use moghtech_lib.SecondFactor.View.{lock_of}
use moghtech_lib.SecondFactor.BeginCalls.{begin_iff}
use moghtech_lib.SecondFactor.World.{
  World, Step, time_passes, begin_code, end_code, Reach, starts, steps, times, held,
}
use moghtech_lib.SecondFactor.Invariant.{Locked, Inv, start-Inv, time-Inv}
use moghtech_lib.SecondFactor.Begins.{begins-other, begins_self}
use moghtech_lib.SecondFactor.Ends.{held-remove_at, ends-other, ends_self}

module _ (budget window : ℕ) (u : String) where
  Step-Inv : {v w : World} → Step v w → Inv budget window u v → Inv budget window u w
  Step-Inv {v} (time_passes d) i = time-Inv budget window u v d i
  Step-Inv {v} (begin_code id) i = elim (Bool-cases (str_eq id u)) [
    | inl same ↦ rw ((eq_iff id u).0 same) (begins_self budget window u v i)
    | inr other ↦ begins-other budget window u v id other i
  ]
  Step-Inv {v} (end_code at id lock failed h) i = elim (Bool-cases (str_eq id u)) [
    | inl same ↦ elim (Option-cases (lookup u v.attempts.users)) [
      | inl missing ↦ absurd (
          ground
            (arith, held-remove_at budget window u v.live at id lock h, same, missing, i.counted))
      | inr (x, found) ↦
          let e = (eq_iff id u).0 same in
          rw e (ends_self budget window u v at lock failed x (rw e at h) found i)
    ]
    | inr other ↦ ends-other budget window u v at id lock failed h other i
  ]

  Reach-Inv : {w : World} → Reach budget window w → Inv budget window u w
  Reach-Inv (starts now) = start-Inv budget window u now
  Reach-Inv (steps r s) = Step-Inv s (Reach-Inv r)

-- However the codes of all users interleave, when a code of a user fails, the failures of the user
-- in the window that ends then (itself included) are at most the bound.
pub Reach-times-Bounded :
    (budget window : ℕ) (u : String) (w : World)
    → Reach budget window w
    → Bounded window budget (times u w.log)
Reach-times-Bounded budget window u w r = (Reach-Inv budget window u r).bounded

-- A code of a user is checked exactly if the user's failures in the window, with the codes of the
-- user being checked, are fewer than the bound.
pub Reach-begin_iff :
    (budget window : ℕ) (u : String) (w : World)
    → Reach budget window w
    → (is_ok (begin u w.clock w.attempts).1 ≡ true)
      ↔ (count_recent w.clock window (times u w.log) + held u w.live < budget)
Reach-begin_iff budget window u w r =
    let i = Reach-Inv budget window u r in
    ground (
      arith,
      begin_iff u w.clock w.attempts i.distinct,
      i.tracks w.clock (omega arith),
      i.counted,
      i.same_window,
      i.same_budget,
    )

Locked-get_elem? :
    (u : String) (v : Option UserAttempts) (live : List (String × ℕ)) (i lock : ℕ)
    → Locked u v live
    → get_elem? live i ≡ some (u, lock)
    → lock_of v ≡ some lock
Locked-get_elem? u v [] i lock k h = absurd (ground arith)
Locked-get_elem? u v ((x, l) ∷ live) zero lock k h = ground (arith, k.0, eq_iff x u)
Locked-get_elem? u v ((x, l) ∷ live) (suc i) lock k h = Locked-get_elem? u v live i lock k.1 h

-- All codes of a user that are being checked at the same time hold the same lock of the user's
-- recovery codes, though idle users are dropped and come back with a new one.
pub Reach-shared_lock :
    (budget window : ℕ) (u : String) (w : World) (i j a b : ℕ)
    → Reach budget window w
    → get_elem? w.live i ≡ some (u, a)
    → get_elem? w.live j ≡ some (u, b)
    → a ≡ b
Reach-shared_lock budget window u w i j a b r p q =
    let k = (Reach-Inv budget window u r).locked in
    ground (
      arith,
      Locked-get_elem? u (lookup u w.attempts.users) w.live i a k p,
      Locked-get_elem? u (lookup u w.attempts.users) w.live j b k q,
    )
