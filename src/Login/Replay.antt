-- ===== src/Login/Replay.antt =====
-- auth/server/src/api/login/totp.rs: a code is good for one login.
use Prim.Native.String.{String}
use text.Mathlib.Text.{◌==◌ as str_eq}
use text.Mathlib.TextEquality.{eq_iff}
use moghtech_lib.Base.{
  ℕ, ◌≤◌, ◌≡◌, true, false, none, some, List, [], ◌∷◌, leb, arith, Option-cases, Bool-cases, inl,
  inr,
}
use moghtech_lib.Base.Table.{string_eq, lookup, lookup-insert}
use moghtech_lib.Error.{ok}
use moghtech_lib.Session.Store.{Key, Store}
use moghtech_lib.Session.Steps.{complete_totp_login, take_login_kind}
use moghtech_lib.Login.Totp.{
  Auth, Steps, consume_totp_step_in_process, already_used, checked, finish_totp_login,
}

-- The steps after further codes of any users.
abbrev pub consume_all : List (String × ℕ) → Steps → Steps
consume_all [] accepted = accepted
consume_all ((user_id, step) ∷ calls) accepted =
    consume_all calls (consume_totp_step_in_process user_id step accepted).0

-- A step of the user at least as late was accepted.
abbrev HasReached : String → ℕ → Steps → Type 0
HasReached u step accepted = (last : ℕ) × (lookup u accepted ≡ some last) × (step ≤ last)

consume-HasReached :
    (u user_id : String) (step other : ℕ) (accepted : Steps)
    → HasReached u step accepted
    → HasReached u step (consume_totp_step_in_process user_id other accepted).0
unfolding consume_totp_step_in_process
consume-HasReached u user_id step other accepted (last, found, le) =
    elim (Option-cases (lookup user_id accepted)) [
      | inl missing ↦ (
        last,
        ground (arith, missing, found, eq_iff user_id u, lookup-insert user_id u other accepted),
        le,
      )
      | inr (latest, had) ↦ elim (Bool-cases (leb other latest)) [
        | inl old ↦ (last, ground (arith, had, old, found), le)
        | inr new ↦ elim (Bool-cases (str_eq user_id u)) [
          | inl same ↦ (
            other,
            ground (arith, had, new, same, lookup-insert user_id u other accepted),
            ground (arith, had, new, found, le, (eq_iff user_id u).0 same),
          )
          | inr different ↦ (
            last,
            ground (arith, had, new, different, found, lookup-insert user_id u other accepted),
            le,
          )
        ]
      ]
    ]

consume_all-HasReached :
    (u : String) (step : ℕ) (calls : List (String × ℕ)) (accepted : Steps)
    → HasReached u step accepted
    → HasReached u step (consume_all calls accepted)
consume_all-HasReached u step [] accepted h = h
consume_all-HasReached u step ((user_id, other) ∷ calls) accepted h =
    consume_all-HasReached u step calls (consume_totp_step_in_process user_id other accepted).0
      (consume-HasReached u user_id step other accepted h)

consume_fresh :
    (u : String) (step : ℕ) (accepted : Steps)
    → (consume_totp_step_in_process u step accepted).1 ≡ true
    → HasReached u step (consume_totp_step_in_process u step accepted).0
unfolding consume_totp_step_in_process
consume_fresh u step accepted h =
    (step, ground (arith, h, eq_iff u u, lookup-insert u u step accepted), omega arith)

consume_old :
    (u : String) (step earlier : ℕ) (accepted : Steps)
    → HasReached u step accepted
    → earlier ≤ step
    → (consume_totp_step_in_process u earlier accepted).1 ≡ false
unfolding consume_totp_step_in_process
consume_old u step earlier accepted (last, found, le) h = ground (arith, found)

module _ {X : Type 0} (S : Store X) where
  complete_totp_login-cleared :
      (s : S.Data)
      → (S.get_value Key.totp_login (complete_totp_login S s).0 ≡ none)
        × (S.get_value Key.totp_login_attempts (complete_totp_login S s).0 ≡ none)
        × (S.get_value Key.login_kind (complete_totp_login S s).0 ≡ none)
  unfolding complete_totp_login take_login_kind
  complete_totp_login-cleared s =
      let s1 = S.remove_value Key.totp_login s in
      let s2 = S.remove_value Key.totp_login_attempts s1 in
      (
        ground (
          arith,
          S.get_value-remove Key.login_kind Key.totp_login s2,
          S.get_value-remove Key.totp_login_attempts Key.totp_login s1,
          S.get_value-remove Key.totp_login Key.totp_login s,
        ),
        ground (
          arith,
          S.get_value-remove Key.login_kind Key.totp_login_attempts s2,
          S.get_value-remove Key.totp_login_attempts Key.totp_login_attempts s1,
        ),
        ground (arith, S.get_value-remove Key.login_kind Key.login_kind s2),
      )

module _ {Jwt X : Type 0} (S : Store X) where
  finish_totp_login-HasReached :
      (A : Auth Jwt) (u code : String) (session : S.Data) (accepted : Steps) (user : A.User) (n : ℕ)
      (jwt : Jwt)
      → checked A u code ≡ ok (user, n)
      → (finish_totp_login A S u code session accepted).1 ≡ ok jwt
      → HasReached u n (finish_totp_login A S u code session accepted).0.1
  unfolding finish_totp_login
  finish_totp_login-HasReached A u code session accepted user n jwt valid done =
      elim (Bool-cases (consume_totp_step_in_process u n accepted).1) [
        | inl fresh ↦
            let (last, found, le) = consume_fresh u n accepted fresh in
            (last, ground (arith, valid, fresh, found), le)
        | inr old ↦ absurd (ground (arith, valid, old, done))
      ]

  -- Once a code has completed a login, no code of the same step or an earlier one completes another
  -- login of this user, whatever the session and whatever other codes come in between: it is refused
  -- as already used.
  pub finish_totp_login_once :
      (A B : Auth Jwt) (u code again : String) (session other : S.Data) (accepted : Steps)
      (calls : List (String × ℕ)) (user : A.User) (same : B.User) (n earlier : ℕ) (jwt : Jwt)
      → checked A u code ≡ ok (user, n)
      → (finish_totp_login A S u code session accepted).1 ≡ ok jwt
      → checked B u again ≡ ok (same, earlier)
      → earlier ≤ n
      → (finish_totp_login B S u again other
          (consume_all calls (finish_totp_login A S u code session accepted).0.1)).1
        ≡ already_used
  finish_totp_login_once A B u code again session other accepted calls user same n earlier jwt valid
        done revalid le =
      let later = consume_all calls (finish_totp_login A S u code session accepted).0.1 in
      let reached =
        consume_all-HasReached u n calls (finish_totp_login A S u code session accepted).0.1
          (finish_totp_login-HasReached A u code session accepted user n jwt valid done) in
      unfold finish_totp_login in ground (arith, revalid, consume_old u n earlier later reached le)

  -- A completed login leaves nothing of itself on the session: neither the login, nor the count of
  -- its attempts, nor its kind.
  pub finish_totp_login-cleared :
      (A : Auth Jwt) (u code : String) (session : S.Data) (accepted : Steps) (jwt : Jwt)
      → (finish_totp_login A S u code session accepted).1 ≡ ok jwt
      → (S.get_value Key.totp_login (finish_totp_login A S u code session accepted).0.0 ≡ none)
        × (S.get_value Key.totp_login_attempts (finish_totp_login A S u code session accepted).0.0
            ≡ none)
        × (S.get_value Key.login_kind (finish_totp_login A S u code session accepted).0.0 ≡ none)
  unfolding finish_totp_login
  finish_totp_login-cleared A u code session accepted jwt done =
      ground (arith, complete_totp_login-cleared S session)
