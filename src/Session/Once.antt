-- ===== src/Session/Once.antt =====
-- auth/server/src/session.rs: what is kept on the session can be used once, in time, and by its
-- user.
use Prim.Native.String.{String}
use text.Mathlib.Text.{◌==◌ as str_eq}
use moghtech_lib.Base.{
  ℕ, ◌-◌, ◌≡◌, ◌≢◌, none, some, leb, if◌then◌else◌, arith, Option-cases, inl, inr, ◌∙◌,
}
use moghtech_lib.Error.{ok, fail, unauthorized}
use moghtech_lib.Session.Store.{LoginKind, Key, user_at, user_state_at, user_state, kind, Store}
use moghtech_lib.Session.Steps.{
  check_completed_login_age, check_second_factor_login_age, check_enrollment_user,
  insert_authenticated_user, retrieve_authenticated_user_id, insert_passkey_login,
  retrieve_passkey_login, insert_login_kind, insert_totp_enrollment, retrieve_totp_enrollment,
  max_completed_login_age, max_second_factor_login_age,
}

module _ {X : Type 0} (S : Store X) where
  -- A completed login is exchanged for the user and the time that were stored, at most two minutes
  -- after it; and the session has another id than before the login.
  pub retrieve-insert_authenticated_user :
      (user_id : String) (at now : ℕ) (s : S.Data)
      → ((retrieve_authenticated_user_id S now (insert_authenticated_user S user_id at s)).1 ≡ (
          if leb (now - at) max_completed_login_age
          then ok (record { user_id = user_id; authenticated_at = at })
          else fail unauthorized "Login has expired. Log in again."))
        × (S.id (insert_authenticated_user S user_id at s) ≢ S.id s)
  unfolding retrieve_authenticated_user_id insert_authenticated_user check_completed_login_age
  retrieve-insert_authenticated_user user_id at now s = (
    ground (
      arith,
      S.get_value-insert Key.authenticated_user Key.authenticated_user (user_at user_id at)
          (S.cycle_id s),
    ),
    λ e.
        S.id-cycle_id s (
          ground
            (arith, e, S.id-insert Key.authenticated_user (user_at user_id at) (S.cycle_id s))),
  )

  -- A login is taken off the session by the first exchange, also one that is refused: the next one
  -- finds none, and leaves the session as it is.
  pub retrieve_authenticated_user_id_once :
      (now later : ℕ) (s : S.Data)
      → retrieve_authenticated_user_id S later (retrieve_authenticated_user_id S now s).0 ≡ (
        (retrieve_authenticated_user_id S now s).0,
        fail unauthorized "Authentication steps must be completed before JWT can be retrieved",
      )
  unfolding retrieve_authenticated_user_id
  retrieve_authenticated_user_id_once now later s =
      elim (Option-cases (S.get_value Key.authenticated_user s)) [
        | inl missing ↦ ground (arith, missing)
        | inr (v, found) ↦
            ground
              (arith, found, S.get_value-remove Key.authenticated_user Key.authenticated_user s)
      ]

  -- An enrollment is completed by the user who began it and nobody else, and it is taken off the
  -- session either way.
  pub retrieve-insert_totp_enrollment :
      (began_by user_id : String) (totp : X) (s : S.Data)
      → ((retrieve_totp_enrollment S user_id (insert_totp_enrollment S began_by totp s)).1 ≡ (
          if str_eq began_by user_id
          then ok totp
          else fail unauthorized "enrollment was not initiated by this user"))
        × (S.get_value Key.totp_enrollment
              (retrieve_totp_enrollment S user_id (insert_totp_enrollment S began_by totp s)).0
            ≡ none)
  unfolding retrieve_totp_enrollment insert_totp_enrollment check_enrollment_user
  retrieve-insert_totp_enrollment began_by user_id totp s =
      let stored =
        S.get_value-insert Key.totp_enrollment Key.totp_enrollment (user_state began_by totp) s in
      let gone =
        S.get_value-remove Key.totp_enrollment Key.totp_enrollment
          (S.insert_value Key.totp_enrollment (user_state began_by totp) s) in
      (ground (arith, stored), ground (arith, gone))

  -- The passkey step of a login gives the state and the kind of its first factor, at most ten
  -- minutes after that; and it leaves neither of them on the session, in time or not.
  pub retrieve-insert_passkey_login :
      (user_id : String) (state : X) (k : LoginKind) (begun_at now : ℕ) (s : S.Data)
      → let t = insert_login_kind S k (insert_passkey_login S user_id state begun_at s) in
        ((retrieve_passkey_login S now t).1 ≡ (
          if leb (now - begun_at) max_second_factor_login_age
          then ok (user_id, state, k)
          else fail unauthorized "Login has expired. Log in again."))
        × (S.get_value Key.passkey_login (retrieve_passkey_login S now t).0 ≡ none)
        × (S.get_value Key.login_kind (retrieve_passkey_login S now t).0 ≡ none)
  unfolding retrieve_passkey_login insert_passkey_login insert_login_kind
      check_second_factor_login_age
  retrieve-insert_passkey_login user_id state k begun_at now s =
      let v = user_state_at user_id state begun_at in
      let s1 = S.insert_value Key.passkey_login v (S.cycle_id s) in
      let s2 = S.insert_value Key.login_kind (kind k) s1 in
      let s3 = S.remove_value Key.passkey_login s2 in
      let stored : S.get_value Key.passkey_login s2 ≡ some v =
        S.get_value-insert Key.login_kind Key.passkey_login (kind k) s1
        ∙ S.get_value-insert Key.passkey_login Key.passkey_login v (S.cycle_id s) in
      let kinded : S.get_value Key.login_kind s3 ≡ some (kind k) =
        S.get_value-remove Key.passkey_login Key.login_kind s2
        ∙ S.get_value-insert Key.login_kind Key.login_kind (kind k) s1 in
      let gone : S.get_value Key.passkey_login (S.remove_value Key.login_kind s3) ≡ none =
        S.get_value-remove Key.login_kind Key.passkey_login s3
        ∙ S.get_value-remove Key.passkey_login Key.passkey_login s2 in
      let unkinded : S.get_value Key.login_kind (S.remove_value Key.login_kind s3) ≡ none =
        S.get_value-remove Key.login_kind Key.login_kind s3 in
      (
        ground (arith, stored, kinded),
        ground (arith, stored, gone),
        ground (arith, stored, unkinded),
      )
