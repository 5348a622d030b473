-- ===== src/Login/Tests.antt =====
-- auth/server/src/api/login/totp.rs: one user, whose code of the current step is `123456`.
use Prim.Native.String.{String}
use text.Mathlib.Text.{◌==◌ as str_eq}
use moghtech_lib.Base.{ℕ, ◌≡◌, refl, none, some, List, [], ◌∷◌, if◌then◌else◌, arith}
use moghtech_lib.Base.Table.{lookup, insert}
use moghtech_lib.Error.{ok}
use moghtech_lib.Session.Store.{Key}
use moghtech_lib.Session.Steps.{insert_totp_login}
use moghtech_lib.Session.Memory.{memory, new}
use moghtech_lib.Login.Totp.{
  Auth, consume_totp_step_in_process, already_used, checked, finish_totp_login,
}
use moghtech_lib.Login.Replay.{consume_all, finish_totp_login_once, finish_totp_login-cleared}

abbrev app : Auth ℕ
app = record {
  User = String;
  get_user = λ id. ok id;
  totp_secret = λ user. some "GEZDGNBV";
  check_user_cidr_whitelist = λ user. ok tt;
  decode = λ secret. some (49 ∷ []);
  Totp = List ℕ;
  make_totp = λ bytes. ok bytes;
  check_current = λ totp code. if str_eq code "123456" then some 70 else none;
  record_login = λ user kind. ok tt;
  encode_sub = λ id. ok 1;
}

valid : checked app "ada" "123456" ≡ ok ("ada", 70)
unfolding checked
valid = refl

begun : memory.Data
unfolding insert_totp_login
begun = insert_totp_login memory "ada" 1000 new

completes : (finish_totp_login app memory "ada" "123456" begun []).1 ≡ ok 1
unfolding finish_totp_login checked consume_totp_step_in_process lookup insert
completes = refl

finish_totp_login_once_example :
    (finish_totp_login app memory "ada" "123456" begun
      (consume_all (("bob", 70) ∷ []) (finish_totp_login app memory "ada" "123456" begun []).0.1)).1
    ≡ already_used
finish_totp_login_once_example =
    finish_totp_login_once memory app app "ada" "123456" "123456" begun begun [] (("bob", 70) ∷ [])
      "ada" "ada" 70 70 1 valid completes valid (omega arith)

finish_totp_login-cleared_example :
    (memory.get_value Key.totp_login (finish_totp_login app memory "ada" "123456" begun []).0.0
      ≡ none)
    × (memory.get_value Key.totp_login_attempts
          (finish_totp_login app memory "ada" "123456" begun []).0.0
        ≡ none)
    × (memory.get_value Key.login_kind (finish_totp_login app memory "ada" "123456" begun []).0.0
        ≡ none)
finish_totp_login-cleared_example =
    finish_totp_login-cleared memory app "ada" "123456" begun [] 1 completes
