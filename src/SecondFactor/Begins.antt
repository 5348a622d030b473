-- ===== src/SecondFactor/Begins.antt =====
-- auth/server/src/api/login/totp.rs: a code that is sent keeps what holds of a user.
use Prim.Native.String.{String}
use text.Mathlib.Text.{◌==◌ as str_eq}
use text.Mathlib.TextEquality.{eq_iff}
use moghtech_lib.Base.{
  ℕ, ◌+◌, ◌≡◌, refl, sym, ◌∙◌, List, [], ◌∷◌, Option, some, false, arith, inl, inr,
}
use moghtech_lib.Base.Table.{string_eq, lookup}
use moghtech_lib.Error.{Result, ok, err}
use moghtech_lib.SecondFactor.Attempts.{UserAttempts, new, begin, sweep}
use moghtech_lib.SecondFactor.View.{lock_of, sweep-Keeps}
use moghtech_lib.SecondFactor.BeginCalls.{
  grants, begin-lookup, begin-HasDistinctKeys, begin_iff, begin_self, begin-counts, begin-IsOrdered,
  begin-lock, begin-keeps_lock, begin-other,
}
use moghtech_lib.SecondFactor.World.{World, admitted, begins, held}
use moghtech_lib.SecondFactor.Invariant.{Locked, Inv, Locked-same}

module _ (budget window : ℕ) (u : String) where
  held-admitted_other :
      (id : String) (answer : Result ℕ) (live : List (String × ℕ))
      → str_eq id u ≡ false
      → held u (admitted id answer live) ≡ held u live
  held-admitted_other id (ok lock) live h = ground (arith, h)
  held-admitted_other id (err e) live h = refl

  Locked-admitted_other :
      (v : Option UserAttempts) (id : String) (answer : Result ℕ) (live : List (String × ℕ))
      → str_eq id u ≡ false
      → Locked u v live
      → Locked u v (admitted id answer live)
  Locked-admitted_other v id (ok lock) live h k = (inl h, k)
  Locked-admitted_other v id (err e) live h k = k

  -- The calls of another user change nothing.
  pub begins-other :
      (w : World) (id : String)
      → str_eq id u ≡ false
      → Inv budget window u w
      → Inv budget window u (begins id w)
  unfolding begins
  begins-other w id other i =
      let same = begin-other id w.clock w.attempts u other in
      let keeps = (sweep-Keeps w.clock u w.attempts i.distinct).0 in
      let (_, _, budget_kept, window_kept) = begin-lookup id w.clock w.attempts u in
      let answer = (begin id w.clock w.attempts).1 in
      record {
        distinct = begin-HasDistinctKeys id w.clock w.attempts i.distinct;
        same_budget = budget_kept ∙ i.same_budget;
        same_window = window_kept ∙ i.same_window;
        counted =
            rw same
              (keeps.in_flight ∙ i.counted ∙ sym (held-admitted_other id answer w.live other));
        tracks =
            λ later h. ground (arith, same, keeps.counts later h, i.tracks later h, i.same_window);
        within_budget = rw (held-admitted_other id answer w.live other) i.within_budget;
        ordered = rw same (keeps.order i.ordered);
        bounded = i.bounded;
        locked = rw same (
            Locked-admitted_other (lookup u (sweep w.clock w.attempts).users) id answer w.live other
              (Locked-same budget window u (lookup u w.attempts.users)
                (lookup u (sweep w.clock w.attempts).users) w.live keeps.lock i.locked));
      }

  Locked-begun :
      (v w : Option UserAttempts) (live : List (String × ℕ))
      → ((lock : ℕ) → lock_of v ≡ some lock → lock_of w ≡ some lock)
      → Locked u v live
      → Locked u w live
  Locked-begun v w [] keep k = tt
  Locked-begun v w ((x, lock) ∷ live) keep (inl other, k) =
      (inl other, Locked-begun v w live keep k)
  Locked-begun v w ((x, lock) ∷ live) keep (inr same, k) =
      (inr (keep lock same), Locked-begun v w live keep k)

  held-admitted :
      (answer : Result ℕ) (live : List (String × ℕ))
      → held u (admitted u answer live) ≡ held u live + grants answer
  held-admitted (ok lock) live = ground (arith, eq_iff u u)
  held-admitted (err e) live = omega arith

  Locked-admitted :
      (v : Option UserAttempts) (answer : Result ℕ) (live : List (String × ℕ))
      → ((lock : ℕ) → answer ≡ ok lock → lock_of v ≡ some lock)
      → Locked u v live
      → Locked u v (admitted u answer live)
  Locked-admitted v (ok lock) live new k = (inr (new lock refl), k)
  Locked-admitted v (err e) live new k = k

  pub begins_self : (w : World) → Inv budget window u w → Inv budget window u (begins u w)
  unfolding begins
  begins_self w i =
      let s = w.attempts in
      let answer = (begin u w.clock s).1 in
      let (_, flying) = begin_self u w.clock s i.distinct in
      let (_, _, budget_kept, window_kept) = begin-lookup u w.clock s u in
      record {
        distinct = begin-HasDistinctKeys u w.clock s i.distinct;
        same_budget = budget_kept ∙ i.same_budget;
        same_window = window_kept ∙ i.same_window;
        counted = ground (arith, flying, i.counted, held-admitted answer w.live);
        tracks = λ later h.
            ground
              (arith, begin-counts u w.clock s later i.distinct h, i.tracks later h, i.same_window);
        within_budget = ground (
          arith,
          held-admitted answer w.live,
          i.within_budget,
          begin_iff u w.clock s i.distinct,
          i.tracks w.clock (omega arith),
          i.counted,
          i.same_window,
          i.same_budget,
        );
        ordered = begin-IsOrdered u w.clock s i.distinct i.ordered;
        bounded = i.bounded;
        locked =
            Locked-admitted (lookup u (begin u w.clock s).0.users) answer w.live
              (λ lock h. begin-lock u w.clock s lock h)
              (Locked-begun (lookup u s.users) (lookup u (begin u w.clock s).0.users) w.live
                (λ lock h. begin-keeps_lock u w.clock s lock i.distinct h) i.locked);
      }
