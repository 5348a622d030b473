-- ===== src/Validations/Tests.antt =====
-- auth/server/src/validations.rs: the theorems at concrete texts.
use moghtech_lib.Base.{◌≡◌, ◌≤◌, ◌↔◌, true, false, length, all, not}
use moghtech_lib.Base.Text.{codes, utf8_len}
use moghtech_lib.Error.{ok}
use moghtech_lib.Validations.Validator.{Parsers, is_control, is_username_char}
use moghtech_lib.Validations.Accounts.{validate_username, validate_password}
use moghtech_lib.Validations.AccountLaws.{validate_username_iff, validate_password_iff}

abbrev sample_parsers : Parsers
sample_parsers = record { is_url = λ s. false; is_object_id = λ s. false }

validate_username_iff_example :
    (validate_username sample_parsers (codes "ops@example.com") ≡ ok tt) ↔ (
      (1 ≤ length (codes "ops@example.com"))
      × (length (codes "ops@example.com") ≤ 100)
      × (all is_username_char (codes "ops@example.com") ≡ true)
      × (false ≡ false))
validate_username_iff_example = validate_username_iff sample_parsers (codes "ops@example.com")

validate_password_iff_example :
    (validate_password sample_parsers (codes "correct horse") ≡ ok tt) ↔ (
      (8 ≤ length (codes "correct horse"))
      × (utf8_len (codes "correct horse") ≤ 72)
      × (all (λ c. not (is_control c)) (codes "correct horse") ≡ true))
validate_password_iff_example = validate_password_iff sample_parsers (codes "correct horse")
