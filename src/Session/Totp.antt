-- ===== src/Session/Totp.antt =====
-- auth/server/src/session.rs: how many codes can be tried for one first factor.
use Prim.Native.String.{String}
use moghtech_lib.Base.{
  ℕ, suc, ◌+◌, ◌-◌, ◌≤◌, ◌<◌, ◌≡◌, none, some, ltb, ◌==◌, if◌then◌else◌, arith, List, [], ◌∷◌,
  length, All, Bool-cases, inl, inr, ◌∙◌, ap, subst, ◌⊎◌,
}
use moghtech_lib.Error.{Result, ok, fail, unauthorized}
use moghtech_lib.Session.Store.{Key, user_at, count, Store}
use moghtech_lib.Session.Steps.{
  check_second_factor_login_age, insert_totp_login, complete_totp_login, begin_totp_login_attempt,
  max_second_factor_login_age, max_totp_login_attempts,
}

abbrev pub not_initiated : Result String
not_initiated = fail unauthorized "TOTP login has not been initiated for this session"

abbrev pub too_many : Result String
too_many = fail unauthorized "Too many invalid codes. Log in again."

module _ {X : Type 0} (S : Store X) (user_id : String) (begun_at : ℕ) where
  -- The login has used up so many attempts, or is gone.
  record Pending (n : ℕ) (s : S.Data) : Type 0 where
    begun : S.get_value Key.totp_login s ≡ some (user_at user_id begun_at)
    tried : S.get_value Key.totp_login_attempts s ≡ some (count n)

  insert_totp_login-Pending : (s : S.Data) → Pending 0 (insert_totp_login S user_id begun_at s)
  unfolding insert_totp_login
  insert_totp_login-Pending s =
      let s1 = S.insert_value Key.totp_login_attempts (count 0) (S.cycle_id s) in
      record {
        begun = S.get_value-insert Key.totp_login Key.totp_login (user_at user_id begun_at) s1;
        tried =
            S.get_value-insert Key.totp_login Key.totp_login_attempts (user_at user_id begun_at) s1
            ∙ S.get_value-insert Key.totp_login_attempts Key.totp_login_attempts (count 0)
                (S.cycle_id s);
      }

  complete_totp_login-gone :
      (s : S.Data) → S.get_value Key.totp_login (complete_totp_login S s).0 ≡ none
  unfolding complete_totp_login
  complete_totp_login-gone s =
      let s1 = S.remove_value Key.totp_login s in
      let s2 = S.remove_value Key.totp_login_attempts s1 in
      S.get_value-remove Key.login_kind Key.totp_login s2
      ∙ S.get_value-remove Key.totp_login_attempts Key.totp_login s1
      ∙ S.get_value-remove Key.totp_login Key.totp_login s

  attempt-Pending :
      (n now : ℕ) (s : S.Data)
      → Pending n s
      → now - begun_at ≤ max_second_factor_login_age
      → n < max_totp_login_attempts
      → ((begin_totp_login_attempt S now s).1 ≡ ok user_id)
        × Pending (n + 1) (begin_totp_login_attempt S now s).0
  unfolding begin_totp_login_attempt check_second_factor_login_age
  attempt-Pending n now s p h lt =
      let next : begin_totp_login_attempt S now s
          ≡ (S.insert_value Key.totp_login_attempts (count (n + 1)) s, ok user_id) =
        ground (arith, p.begun, p.tried) in
      let stored =
        S.get_value-insert Key.totp_login_attempts Key.totp_login_attempts (count (n + 1)) s in
      let kept = S.get_value-insert Key.totp_login_attempts Key.totp_login (count (n + 1)) s in
      (
        ap (λ r. r.1) next,
        record {
          begun = ap (λ r. S.get_value Key.totp_login r.0) next ∙ kept ∙ p.begun;
          tried = ap (λ r. S.get_value Key.totp_login_attempts r.0) next ∙ stored;
        },
      )

  attempt-last :
      (now : ℕ) (s : S.Data)
      → Pending max_totp_login_attempts s
      → now - begun_at ≤ max_second_factor_login_age
      → begin_totp_login_attempt S now s ≡ ((complete_totp_login S s).0, too_many)
  unfolding begin_totp_login_attempt check_second_factor_login_age
  attempt-last now s p h = ground (arith, p.begun, p.tried)

  attempt-gone :
      (now : ℕ) (s : S.Data)
      → S.get_value Key.totp_login s ≡ none
      → begin_totp_login_attempt S now s ≡ (s, not_initiated)
  unfolding begin_totp_login_attempt
  attempt-gone now s h = ground (arith, h)

  -- So many attempts were made, whatever they were answered.
  abbrev Made : ℕ → S.Data → Type 0
  Made n s =
      ((n ≤ max_totp_login_attempts) × Pending n s)
      ⊎ ((max_totp_login_attempts < n) × (S.get_value Key.totp_login s ≡ none))

  answer : ℕ → Result String
  answer n =
      if ltb n max_totp_login_attempts
      then ok user_id
      else if n == max_totp_login_attempts
      then too_many
      else not_initiated

  attempt-Made :
      (n now : ℕ) (s : S.Data)
      → Made n s
      → now - begun_at ≤ max_second_factor_login_age
      → ((begin_totp_login_attempt S now s).1 ≡ answer n)
        × Made (n + 1) (begin_totp_login_attempt S now s).0
  unfolding answer
  attempt-Made n now s (inl (le, p)) h = elim (Bool-cases (ltb n max_totp_login_attempts)) [
    | inl more ↦
        let (r, q) = attempt-Pending n now s p h (ground arith) in
        (ground (arith, r, more), inl (ground arith, q))
    | inr last ↦
        let e : n ≡ max_totp_login_attempts = ground arith in
        let r = attempt-last now s (rw e at p) h in
        (
          ground (arith, r, e),
          inr (
            omega (arith, e),
            ap (λ x. S.get_value Key.totp_login x.0) r ∙ complete_totp_login-gone s,
          ),
        )
  ]
  attempt-Made n now s (inr (gt, gone)) h =
      let r = attempt-gone now s gone in
      (ground (arith, r), inr (omega arith, ap (λ x. S.get_value Key.totp_login x.0) r ∙ gone))

module _ {X : Type 0} (S : Store X) where
  -- The session after attempts at the given times.
  unfoldable pub attempts : List ℕ → S.Data → S.Data
  attempts [] s = s
  attempts (now ∷ nows) s = attempts nows (begin_totp_login_attempt S now s).0

  attempts-Made :
      (user_id : String) (begun_at n : ℕ) (nows : List ℕ) (s : S.Data)
      → Made S user_id begun_at n s
      → All (λ now. now - begun_at ≤ max_second_factor_login_age) nows
      → Made S user_id begun_at (n + length nows) (attempts nows s)
  unfolding attempts
  attempts-Made user_id begun_at n [] s m h = let e : n + 0 ≡ n = omega arith in rw e m
  attempts-Made user_id begun_at n (now ∷ nows) s m (h, hs) =
      let e : n + suc (length nows) ≡ n + 1 + length nows = omega arith in
      rw e (
        attempts-Made user_id begun_at (n + 1) nows (begin_totp_login_attempt S now s).0
          (attempt-Made S user_id begun_at n now s m h).1 hs)

  -- A first factor is good for five codes: of the attempts after it, all of them made within ten
  -- minutes, the first five are let through for its user, the sixth is refused, and those after it
  -- find no login on the session.
  pub attempts-answer :
      (user_id : String) (begun_at now : ℕ) (nows : List ℕ) (s : S.Data)
      → All (λ t. t - begun_at ≤ max_second_factor_login_age) (now ∷ nows)
      → (begin_totp_login_attempt S now (attempts nows (insert_totp_login S user_id begun_at s))).1
        ≡ (if ltb (length nows) max_totp_login_attempts
            then ok user_id
            else if length nows == max_totp_login_attempts
            then too_many
            else not_initiated)
  unfolding answer
  attempts-answer user_id begun_at now nows s (h, hs) =
      let start = insert_totp_login S user_id begun_at s in
      let first = insert_totp_login-Pending S user_id begun_at s in
      let e : 0 + length nows ≡ length nows = omega arith in
      let made = attempts-Made user_id begun_at 0 nows start (inl (omega arith, first)) hs in
      (attempt-Made S user_id begun_at (length nows) now (attempts nows start)
        (subst (λ n. Made S user_id begun_at n (attempts nows start)) e made) h).0
