-- ===== src/Validations/AccountLaws.antt =====
-- auth/server/src/validations.rs: which usernames and passwords are valid.
use moghtech_lib.Base.{ℕ, ◌≡◌, ◌≤◌, ◌↔◌, refl, true, false, [], ◌∷◌, length, all, not, arith}
use moghtech_lib.Base.Text.{Text, utf8_len, len_utf8}
use moghtech_lib.Error.{ok}
use moghtech_lib.Validations.Validator.{
  Parsers, is_control, is_username_char, is_letter, validate, validate_content, validate_matches,
  validate_no_control_chars,
}
use moghtech_lib.Validations.Accounts.{validate_username, validate_password}

username_char-control : (c : ℕ) → is_username_char c ≡ true → is_control c ≡ false
unfolding is_username_char is_control is_letter
username_char-control c h = ground (arith, h)

usernames-printable :
    (s : Text) → all is_username_char s ≡ true → validate_no_control_chars s ≡ ok tt
unfolding validate_no_control_chars
usernames-printable [] h = refl
usernames-printable (c ∷ s) h = ground (arith, h, username_char-control c, usernames-printable s)

printable-all :
    (s : Text) → (validate_no_control_chars s ≡ ok tt) ↔ (all (λ c. not (is_control c)) s ≡ true)
unfolding validate_no_control_chars
printable-all [] = ground arith
printable-all (c ∷ s) = ground (arith, printable-all s)

length-utf8_len : (s : Text) → length s ≤ utf8_len s
unfolding utf8_len len_utf8
length-utf8_len [] = omega arith
length-utf8_len (c ∷ s) = ground (arith, length-utf8_len s)

module _ (P : Parsers) where
  -- A username is valid exactly if it has 1 to 100 characters, all of `a-z A-Z 0-9 . _ @ -`, and is
  -- no object id.
  pub validate_username_iff :
      (name : Text)
      → (validate_username P name ≡ ok tt) ↔ (
          (1 ≤ length name)
          × (length name ≤ 100)
          × (all is_username_char name ≡ true)
          × (P.is_object_id name ≡ false))
  unfolding validate_username validate validate_content validate_matches
  validate_username_iff [] = ground arith
  validate_username_iff (c ∷ s) = ground (arith, usernames-printable (c ∷ s))

  -- A password is valid exactly if it has 8 characters at least, 72 bytes at most (so that bcrypt
  -- hashes all of it), and no control character.
  pub validate_password_iff :
      (password : Text)
      → (validate_password P password ≡ ok tt) ↔ (
          (8 ≤ length password)
          × (utf8_len password ≤ 72)
          × (all (λ c. not (is_control c)) password ≡ true))
  unfolding validate_password validate validate_content
  validate_password_iff password = ground (arith, printable-all password, length-utf8_len password)
