-- ===== src/Login/Refusals.antt =====
-- auth/server/src/api/login/local.rs: what a refused password says, and who gets a token for one.
use Prim.Native.String.{String}
use moghtech_lib.Base.{
  ℕ, ◌≡◌, subst, ◌⊎◌, inl, inr, true, false, none, some, arith, Bool-cases, Option-cases,
}
use moghtech_lib.Error.{Error, ok, err, Result-cases}
use moghtech_lib.Session.Store.{local, Store}
use moghtech_lib.Login.Local.{
  LocalUser, LocalAuth, jwt, invalid_credentials, check_password, find_user, begin_login,
  login_local_user,
}

module _ {X Passkey Challenge Jwt : Type 0} (A : LocalAuth X Passkey Challenge Jwt) where
  -- Why a password is refused: the user has none, it is another one, or the client is not on the
  -- user's whitelist.
  abbrev pub IsRefused : LocalUser Passkey → String → Type 0
  IsRefused user password =
      (user.hashed_password ≡ none)
      ⊎ ((hashed : String) × (user.hashed_password ≡ some hashed)
          × ((A.bcrypt_verify password hashed ≡ ok false)
              ⊎ ((A.bcrypt_verify password hashed ≡ ok true)
                  × ((e : Error) × (A.check_user_cidr_whitelist user ≡ err e)))))

  -- The password is the user's, and the client is let in.
  abbrev pub IsLetIn : LocalUser Passkey → String → Type 0
  IsLetIn user password =
      (hashed : String) × (user.hashed_password ≡ some hashed)
      × (A.bcrypt_verify password hashed ≡ ok true)
      × (A.check_user_cidr_whitelist user ≡ ok tt)

  check_password-IsRefused :
      (user : LocalUser Passkey) (password : String)
      → IsRefused user password
      → check_password A user password ≡ err invalid_credentials
  unfolding check_password
  check_password-IsRefused user password (inl h) = ground (arith, h)
  check_password-IsRefused user password (inr (hashed, h, inl k)) = ground (arith, h, k)
  check_password-IsRefused user password (inr (hashed, h, inr (k, (e, m)))) =
      ground (arith, h, k, m)

  check_password-IsLetIn :
      (user : LocalUser Passkey) (password : String)
      → check_password A user password ≡ ok tt
      → IsLetIn user password
  unfolding check_password
  check_password-IsLetIn user password h = elim (Option-cases user.hashed_password) [
    | inl e ↦ absurd (ground (arith, h, e))
    | inr (hashed, e) ↦ elim (Result-cases (A.bcrypt_verify password hashed)) [
      | inr (f, k) ↦ absurd (ground (arith, h, e, k))
      | inl (false, k) ↦ absurd (ground (arith, h, e, k))
      | inl (true, k) ↦ elim (Result-cases (A.check_user_cidr_whitelist user)) [
        | inr (f, m) ↦ absurd (ground (arith, h, e, k, m))
        | inl (done, m) ↦ (hashed, e, k, m)
      ]
    ]
  ]

  find_user-IsLetIn :
      (username password : String) (user : LocalUser Passkey)
      → find_user A username password ≡ ok user
      → (A.find_user_with_username username ≡ ok (some user)) × IsLetIn user password
  unfolding find_user
  find_user-IsLetIn username password user h = elim (Bool-cases A.local_auth_enabled) [
    | inr e ↦ absurd (ground (arith, h, e))
    | inl e ↦ elim (Result-cases (A.validate_username username)) [
      | inr (f, k) ↦ absurd (ground (arith, h, e, k))
      | inl (done, k) ↦ elim (Result-cases (A.find_user_with_username username)) [
        | inr (f, m) ↦ absurd (ground (arith, h, e, k, m))
        | inl (none, m) ↦ absurd (ground (arith, h, e, k, m))
        | inl (some found, m) ↦ elim (Result-cases (check_password A found password)) [
          | inr (f, n) ↦ absurd (ground (arith, h, e, k, m, n))
          | inl (checked, n) ↦
              let same : found ≡ user = ground (arith, h, e, k, m, n) in
              (
                ground (arith, m, same),
                subst (λ u. IsLetIn u password) same (check_password-IsLetIn found password n),
              )
        ]
      ]
    ]
  ]

  module _ (S : Store X) where
    -- With local logins enabled and a valid username: an unknown user, a user without a password,
    -- another password and a client outside the user's whitelist get the very same answer, and leave
    -- the session as it is.
    pub login_local_user-invalid_credentials :
        (username password : String) (now : ℕ) (session : S.Data)
        → A.local_auth_enabled ≡ true
        → A.validate_username username ≡ ok tt
        → (A.find_user_with_username username ≡ ok none)
          ⊎ ((user : LocalUser Passkey) × (A.find_user_with_username username ≡ ok (some user))
              × IsRefused user password)
        → login_local_user A S username password now session ≡ (session, err invalid_credentials)
    unfolding login_local_user find_user
    login_local_user-invalid_credentials username password now session enabled valid (inl h) =
        ground (arith, enabled, valid, h)
    login_local_user-invalid_credentials username password now session enabled valid
          (inr (user, h, refused)) =
        ground (arith, enabled, valid, h, check_password-IsRefused user password refused)

    begin_login-jwt :
        (user : LocalUser Passkey) (now : ℕ) (session : S.Data) (token : Jwt)
        → (begin_login A S user now session).1 ≡ ok (jwt token)
        → (user.passkey ≡ none)
          × (user.totp_secret ≡ none)
          × (A.record_login user.id local ≡ ok tt)
          × (A.encode_sub user.id ≡ ok token)
    unfolding begin_login
    begin_login-jwt user now session token h = elim (Option-cases user.passkey) [
      | inr (key, e) ↦ elim (Result-cases (A.start_passkey_authentication key)) [
        | inr (f, k) ↦ absurd (ground (arith, h, e, k))
        | inl ((challenge, state), k) ↦ absurd (ground (arith, h, e, k))
      ]
      | inl e ↦ elim (Option-cases user.totp_secret) [
        | inr (secret, k) ↦ absurd (ground (arith, h, e, k))
        | inl k ↦ elim (Result-cases (A.record_login user.id local)) [
          | inr (f, m) ↦ absurd (ground (arith, h, e, k, m))
          | inl (done, m) ↦ elim (Result-cases (A.encode_sub user.id)) [
            | inr (f, n) ↦ absurd (ground (arith, h, e, k, m, n))
            | inl (given, n) ↦ (e, k, m, ground (arith, h, e, k, m, n))
          ]
        ]
      ]
    ]

    -- A token for a password is a token of the user of that name, whose password it is, for a
    -- client on the user's whitelist, once the login is recorded; and only if the user has no
    -- second factor.
    pub login_local_user-jwt :
        (username password : String) (now : ℕ) (session : S.Data) (token : Jwt)
        → (login_local_user A S username password now session).1 ≡ ok (jwt token)
        → (user : LocalUser Passkey) × (A.find_user_with_username username ≡ ok (some user))
          × IsLetIn user password
          × (user.passkey ≡ none)
          × (user.totp_secret ≡ none)
          × (A.record_login user.id local ≡ ok tt)
          × (A.encode_sub user.id ≡ ok token)
    unfolding login_local_user
    login_local_user-jwt username password now session token h =
        elim (Result-cases (find_user A username password)) [
          | inr (f, e) ↦ absurd (ground (arith, h, e))
          | inl (user, e) ↦
              let (found, let_in) = find_user-IsLetIn username password user e in
              let (no_key, no_secret, recorded, encoded) =
                begin_login-jwt user now session token (ground (arith, h, e)) in
              (user, found, let_in, no_key, no_secret, recorded, encoded)
        ]
