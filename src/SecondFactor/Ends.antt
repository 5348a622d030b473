-- ===== src/SecondFactor/Ends.antt =====
-- auth/server/src/api/login/totp.rs: a code that is answered keeps what holds of a user.
use Prim.Native.String.{String}
use text.Mathlib.Text.{◌==◌ as str_eq}
use text.Mathlib.TextEquality.{eq_iff}
use moghtech_lib.Base.{
  ℕ, zero, suc, ◌+◌, ◌≤◌, ◌≡◌, refl, append-nil, ◌∙◌, List, [], ◌∷◌, ◌++◌, Option, some, Bool, true,
  false, if◌then◌else◌, get_elem?, arith, inl, inr,
}
use moghtech_lib.Base.Times.{
  recent, count_recent, count_recent-recent, count_recent-push, IsOrdered, IsOrdered-recent,
  IsOrdered-push, Bounded,
}
use moghtech_lib.Base.Table.{string_eq, lookup}
use moghtech_lib.SecondFactor.Attempts.{UserAttempts, SecondFactorAttempts, end}
use moghtech_lib.SecondFactor.EndCalls.{end_self, end-other, end-HasDistinctKeys}
use moghtech_lib.SecondFactor.World.{World, remove_at, ends, times, held}
use moghtech_lib.SecondFactor.Invariant.{Locked, Inv, Locked-same}

module _ (budget window : ℕ) (u : String) where
  pub held-remove_at :
      (live : List (String × ℕ)) (i : ℕ) (id : String) (lock : ℕ)
      → get_elem? live i ≡ some (id, lock)
      → held u live ≡ held u (remove_at i live) + (if str_eq id u then 1 else 0)
  held-remove_at [] i id lock h = absurd (ground arith)
  held-remove_at ((x, k) ∷ live) zero id lock h = ground arith
  held-remove_at ((x, k) ∷ live) (suc i) id lock h = omega (arith, held-remove_at live i id lock h)

  Locked-remove_at :
      (v : Option UserAttempts) (live : List (String × ℕ)) (i : ℕ)
      → Locked u v live
      → Locked u v (remove_at i live)
  Locked-remove_at v [] i k = tt
  Locked-remove_at v ((x, lock) ∷ live) zero (p, k) = k
  Locked-remove_at v ((x, lock) ∷ live) (suc i) (p, k) = (p, Locked-remove_at v live i k)

  Locked-none :
      (v : Option UserAttempts) (live : List (String × ℕ)) → held u live ≡ 0 → Locked u v live
  Locked-none v [] h = tt
  Locked-none v ((x, lock) ∷ live) h = (inl (ground arith), Locked-none v live (omega arith))

  end-kept :
      (id : String) (failed : Bool) (now : ℕ) (s : SecondFactorAttempts)
      → ((end id failed now s).max_failures ≡ s.max_failures)
        × ((end id failed now s).window ≡ s.window)
  unfolding end
  end-kept id failed now s = ground arith

  times-other :
      (failed : Bool) (id : String) (now : ℕ) (log : List (String × ℕ))
      → str_eq id u ≡ false
      → times u (if failed then (id, now) ∷ log else log) ≡ times u log
  times-other true id now log h = ground (arith, h)
  times-other false id now log h = refl

  times_self :
      (failed : Bool) (now : ℕ) (log : List (String × ℕ))
      → times u (if failed then (u, now) ∷ log else log)
        ≡ (if failed then now ∷ times u log else times u log)
  times_self true now log = ground (arith, eq_iff u u)
  times_self false now log = refl

  -- The stored failures of the user whose attempt ends, against the recorded ones.
  count_recent-end :
      (failed : Bool) (now later : ℕ) (ts log : List ℕ)
      → now ≤ later
      → count_recent later window ts ≡ count_recent later window log
      → count_recent later window (recent now window ts ++ (if failed then now ∷ [] else []))
        ≡ count_recent later window (if failed then now ∷ log else log)
  count_recent-end true now later ts log h e = count_recent-push window now later ts log h e
  count_recent-end false now later ts log h e =
      rw (append-nil (recent now window ts)) (count_recent-recent now later window ts h ∙ e)

  IsOrdered-end :
      (failed : Bool) (now : ℕ) (ts : List ℕ)
      → IsOrdered now ts
      → IsOrdered now (recent now window ts ++ (if failed then now ∷ [] else []))
  IsOrdered-end true now ts o =
      IsOrdered-push now (recent now window ts) (IsOrdered-recent now now window ts o)
  IsOrdered-end false now ts o =
      rw (append-nil (recent now window ts)) (IsOrdered-recent now now window ts o)

  Bounded-end :
      (failed : Bool) (now n : ℕ) (log : List ℕ)
      → count_recent now window log + suc n ≤ budget
      → Bounded window budget log
      → Bounded window budget (if failed then now ∷ log else log)
        × (count_recent now window (if failed then now ∷ log else log) + n ≤ budget)
  Bounded-end true now n log h b = ((ground arith, b), ground arith)
  Bounded-end false now n log h b = (b, omega arith)

  pub ends-other :
      (w : World) (i : ℕ) (id : String) (lock : ℕ) (failed : Bool)
      → get_elem? w.live i ≡ some (id, lock)
      → str_eq id u ≡ false
      → Inv budget window u w
      → Inv budget window u (ends i id failed w)
  unfolding ends
  ends-other w i id lock failed at other v =
      let same = end-other id u failed w.clock w.attempts other in
      let kept = end-kept id failed w.clock w.attempts in
      let fewer = held-remove_at w.live i id lock at in
      record {
        distinct = end-HasDistinctKeys id failed w.clock w.attempts v.distinct;
        same_budget = kept.0 ∙ v.same_budget;
        same_window = kept.1 ∙ v.same_window;
        counted = ground (arith, same, fewer, other, v.counted);
        tracks = λ later h. rw (same, times-other failed id w.clock w.log other) (v.tracks later h);
        within_budget =
            rw (times-other failed id w.clock w.log other)
              (ground (arith, fewer, other, v.within_budget));
        ordered = rw same v.ordered;
        bounded = rw (times-other failed id w.clock w.log other) v.bounded;
        locked = rw same (Locked-remove_at (lookup u w.attempts.users) w.live i v.locked);
      }

  pub ends_self :
      (w : World) (i lock : ℕ) (failed : Bool) (x : UserAttempts)
      → get_elem? w.live i ≡ some (u, lock)
      → lookup u w.attempts.users ≡ some x
      → Inv budget window u w
      → Inv budget window u (ends i u failed w)
  unfolding ends
  ends_self w i lock failed x at found v =
      let s = w.attempts in
      let (stored, flying, kept_lock) = end_self u failed w.clock s x found in
      let kept = end-kept u failed w.clock s in
      let fewer : held u w.live ≡ held u (remove_at i w.live) + 1 =
        ground (arith, held-remove_at w.live i u lock at, eq_iff u u) in
      let flown : x.in_flight ≡ held u w.live = ground (arith, found, v.counted) in
      let bound =
        Bounded-end failed w.clock (held u (remove_at i w.live)) (times u w.log)
          (omega (arith, fewer, v.within_budget)) v.bounded in
      record {
        distinct = end-HasDistinctKeys u failed w.clock s v.distinct;
        same_budget = kept.0 ∙ v.same_budget;
        same_window = kept.1 ∙ v.same_window;
        counted = ground (arith, flying, fewer, flown);
        tracks = λ later h.
            rw (times_self failed w.clock w.log, stored, v.same_window)
              (count_recent-end failed w.clock later x.failures (times u w.log) h
                (rw found at (v.tracks later h)));
        within_budget = rw (times_self failed w.clock w.log) bound.1;
        ordered =
            rw (stored, v.same_window)
              (IsOrdered-end failed w.clock x.failures (rw found at v.ordered));
        bounded = rw (times_self failed w.clock w.log) bound.0;
        locked = elim kept_lock [
          | inl same ↦ Locked-remove_at (lookup u (end u failed w.clock s).users) w.live i (
              Locked-same budget window u (lookup u s.users)
                (lookup u (end u failed w.clock s).users) w.live
                (ground (arith, same, found, flown, fewer)) v.locked)
          | inr last ↦
              Locked-none (lookup u (end u failed w.clock s).users) (remove_at i w.live)
                (omega (arith, last, flown, fewer))
        ];
      }
