-- ===== src/Manage/GuardLaws.antt =====
-- auth/server/src/api/manage/mod.rs, `handler`: which requests are let through.
use moghtech_lib.Base.{
  ℕ, ◌+◌, ◌^◌, ◌≡◌, refl, ◌≤◌, ◌<◌, ◌⊎◌, inl, inr, Bool, true, false, Option, none, some, arith,
}
use moghtech_lib.Error.{Error, Result, ok, err, forbidden, Result-cases}
use moghtech_lib.Manage.Guards.{
  ManageRequestMethod, get_user_id, is_get_user_id, check_not_workload, requires_recent_login,
  manages_resources, check_credential_kind, check_recent_login, Reauthentication, handler,
}

-- When a login is recent enough for a request: a window of `0` does not check it.
abbrev pub IsRecent : Reauthentication → ManageRequestMethod → ℕ → Type 0
IsRecent R request at =
    (requires_recent_login request ≡ false)
    ⊎ (R.reauthentication_window_secs ≡ 0)
    ⊎ ((at ≤ R.now + R.leeway) × (R.now ≤ at + R.reauthentication_window_secs))

-- What a login, or credentials without one, may be used for.
abbrev pub IsEnough : Reauthentication → ManageRequestMethod → Option ℕ → Type 0
IsEnough R request none =
    (requires_recent_login request ≡ false) ⊎ (manages_resources request ≡ true)
IsEnough R request (some at) = IsRecent R request at

abbrev pub IsPermitted : Reauthentication → Bool → Option ℕ → ManageRequestMethod → Type 0
IsPermitted R is_workload at request =
    ((is_workload ≡ false) ⊎ (request ≡ get_user_id)) × IsEnough R request at

pub is_get_user_id_lem :
    (request : ManageRequestMethod) → is_get_user_id request ≡ true → request ≡ get_user_id
unfolding is_get_user_id
is_get_user_id_lem request h = ground (arith, h)

check_not_workload-ok :
    (is_workload : Bool) (request : ManageRequestMethod)
    → check_not_workload is_workload request ≡ ok tt
    → (is_workload ≡ false) ⊎ (request ≡ get_user_id)
unfolding check_not_workload
check_not_workload-ok false request h = inl refl
check_not_workload-ok true request h = inr (is_get_user_id_lem request (ground (arith, h)))

check_recent_login-ok :
    (R : Reauthentication) (at : ℕ) (request : ManageRequestMethod)
    → check_recent_login R.reauthentication_window_secs R.leeway (some at) R.now request ≡ ok tt
    → IsRecent R request at
unfolding check_recent_login
check_recent_login-ok R at request h = ground (arith, h)

IsRecent-check :
    (R : Reauthentication) (at : ℕ) (request : ManageRequestMethod)
    → at < 2 ^ 64
    → IsRecent R request at
    → check_recent_login R.reauthentication_window_secs R.leeway (some at) R.now request ≡ ok tt
unfolding check_recent_login
IsRecent-check R at request bound h = ground (arith, bound, h)

IsEnough-ok :
    (R : Reauthentication) (at : Option ℕ) (request : ManageRequestMethod)
    → check_credential_kind at request ≡ ok tt
    → check_recent_login R.reauthentication_window_secs R.leeway at R.now request ≡ ok tt
    → IsEnough R request at
unfolding check_credential_kind
IsEnough-ok R none request kind recent = ground (arith, kind)
IsEnough-ok R (some at) request kind recent = check_recent_login-ok R at request recent

check_not_workload-403 :
    (is_workload : Bool) (request : ManageRequestMethod) (e : Error)
    → check_not_workload is_workload request ≡ err e
    → e.status ≡ forbidden
unfolding check_not_workload
check_not_workload-403 is_workload request e h = ground (arith, h)

check_credential_kind-403 :
    (at : Option ℕ) (request : ManageRequestMethod) (e : Error)
    → check_credential_kind at request ≡ err e
    → e.status ≡ forbidden
unfolding check_credential_kind
check_credential_kind-403 at request e h = ground (arith, h)

check_recent_login-403 :
    (R : Reauthentication) (at : Option ℕ) (request : ManageRequestMethod) (e : Error)
    → check_recent_login R.reauthentication_window_secs R.leeway at R.now request ≡ err e
    → e.status ≡ forbidden
unfolding check_recent_login
check_recent_login-403 R none request e h = absurd (ground (arith, h))
check_recent_login-403 R (some at) request e h = ground (arith, h)

check_not_workload_allowed :
    (is_workload : Bool) (request : ManageRequestMethod)
    → (is_workload ≡ false) ⊎ (request ≡ get_user_id)
    → check_not_workload is_workload request ≡ ok tt
unfolding check_not_workload is_get_user_id
check_not_workload_allowed is_workload request (inl h) = ground (arith, h)
check_not_workload_allowed is_workload request (inr h) = ground (arith, h)

-- Whether the time of a login is one of 64 bits.
abbrev pub IsTime : Option ℕ → Type 0
IsTime none = Unit {0}
IsTime (some at) = at < 2 ^ 64

IsEnough-checks :
    (R : Reauthentication) (at : Option ℕ) (request : ManageRequestMethod)
    → IsTime at
    → IsEnough R request at
    → (check_credential_kind at request ≡ ok tt)
      × (check_recent_login R.reauthentication_window_secs R.leeway at R.now request ≡ ok tt)
unfolding check_credential_kind check_recent_login
IsEnough-checks R none request bound h = (ground (arith, h), refl)
IsEnough-checks R (some at) request bound h = (ground arith, IsRecent-check R at request bound h)

module _ {S Response : Type 0} (R : Reauthentication) (is_workload : Bool) (at : Option ℕ)
    (request : ManageRequestMethod) (resolve : S → S × Result Response) where
  -- A request is answered only by its `resolve`, and only if it is permitted: a workload may ask
  -- for its id alone; without a login only the resources may be changed (and lists be read, keys be
  -- deleted); and a login is within the window, up to the leeway, unless there is none.
  pub handler-IsPermitted :
      (s : S) (x : Response)
      → (handler R is_workload at request resolve s).1 ≡ ok x
      → IsPermitted R is_workload at request
        × (handler R is_workload at request resolve s ≡ resolve s)
  unfolding handler
  handler-IsPermitted s x h = elim (Result-cases (check_not_workload is_workload request)) [
    | inr (f, e) ↦ absurd (ground (arith, h, e))
    | inl (tt, e) ↦ elim (Result-cases (check_credential_kind at request)) [
      | inr (f, k) ↦ absurd (ground (arith, h, e, k))
      | inl (tt, k) ↦
          elim (Result-cases
            (check_recent_login R.reauthentication_window_secs R.leeway at R.now request)) [
              | inr (f, m) ↦ absurd (ground (arith, h, e, k, m))
              | inl (tt, m) ↦ (
                (check_not_workload-ok is_workload request e, IsEnough-ok R at request k m),
                ground (arith, e, k, m),
              )
            ]
    ]
  ]

  -- A request that is not permitted does nothing, and is answered with `403 Forbidden`.
  pub handler-forbidden :
      (s : S)
      → ¬ IsPermitted R is_workload at request
      → (e : Error) × (handler R is_workload at request resolve s ≡ (s, err e))
        × (e.status ≡ forbidden)
  unfolding handler
  handler-forbidden s h = elim (Result-cases (check_not_workload is_workload request)) [
    | inr (f, e) ↦ (f, ground (arith, e), check_not_workload-403 is_workload request f e)
    | inl (tt, e) ↦ elim (Result-cases (check_credential_kind at request)) [
      | inr (f, k) ↦ (f, ground (arith, e, k), check_credential_kind-403 at request f k)
      | inl (tt, k) ↦
          elim (Result-cases
            (check_recent_login R.reauthentication_window_secs R.leeway at R.now request)) [
              | inr (f, m) ↦ (f, ground (arith, e, k, m), check_recent_login-403 R at request f m)
              | inl (tt, m) ↦
                  absurd
                    (h (check_not_workload-ok is_workload request e, IsEnough-ok R at request k m))
            ]
    ]
  ]

  -- A permitted request is resolved; a login's time has 64 bits.
  pub handler-resolve :
      (s : S)
      → IsTime at
      → IsPermitted R is_workload at request
      → handler R is_workload at request resolve s ≡ resolve s
  unfolding handler
  handler-resolve s bound (kind, enough) =
      let (known, recent) = IsEnough-checks R at request bound enough in
      ground (arith, check_not_workload_allowed is_workload request kind, known, recent)
