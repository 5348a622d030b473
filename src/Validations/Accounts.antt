-- ===== src/Validations/Accounts.antt =====
-- auth/server/src/validations.rs: usernames, passwords and names of API keys.
use moghtech_lib.Base.{ℕ, false, none, some, [], ◌∷◌, ltb, if◌then◌else◌}
use moghtech_lib.Base.Text.{Text, utf8_len}
use moghtech_lib.Error.{Result, ok, err, ◌>>=◌, Note, internal_server_error}
use moghtech_lib.Validations.Validator.{Parsers, StringValidator, username, validate, with_context}

abbrev pub min_username_length : ℕ
min_username_length = 1

abbrev pub max_username_length : ℕ
max_username_length = 100

abbrev pub min_password_length : ℕ
min_password_length = 8

abbrev pub max_password_bytes : ℕ
max_password_bytes = 72

abbrev pub max_api_key_name_length : ℕ
max_api_key_name_length = 200

module _ (P : Parsers) where
  unfoldable pub validate_username : Text → Result (Unit {0})
  validate_username name =
      let validator : StringValidator = record {
        min_length = min_username_length;
        max_length = some max_username_length;
        skip_control_check = false;
        matches = some username;
      } in
      with_context (validate P validator name) (Note.text "Failed to validate username")

  unfoldable pub validate_password : Text → Result (Unit {0})
  validate_password password =
      let validator : StringValidator = record {
        min_length = min_password_length;
        max_length = some max_password_bytes;
        skip_control_check = false;
        matches = none;
      } in
      do
        valid ←
            with_context (validate P validator password) (Note.text "Failed to validate password")
        if ltb max_password_bytes (utf8_len password)
            then err (record {
              status = internal_server_error;
              notes =
                  Note.text "Failed to validate password"
                  ∷ Note.text
                      "Input too long. Must be at most 72 bytes, characters outside of ASCII take 2 to 4 bytes each."
                  ∷ [];
            })
            else ok tt

  unfoldable pub validate_api_key_name : Text → Result (Unit {0})
  validate_api_key_name name =
      let validator : StringValidator = record {
        min_length = 0;
        max_length = some max_api_key_name_length;
        skip_control_check = false;
        matches = none;
      } in
      with_context (validate P validator name) (Note.text "Failed to validate api key name")
