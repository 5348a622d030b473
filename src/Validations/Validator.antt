-- ===== src/Validations/Validator.antt =====
-- crates/validations/src/lib.rs: `StringValidator`. The `url` and `bson` crates are parameters:
-- whether a text is an url, and, with the feature `bson`, an object id (never, without it).
use moghtech_lib.Base.{
  ℕ, ◌&&◌, ◌||◌, not, Bool, true, false, Option, none, some, [], ◌∷◌, ltb, leb, ◌==◌, length, all,
  is_empty, if◌then◌else◌,
}
use moghtech_lib.Base.Text.{Text, codes}
use moghtech_lib.Error.{Result, ok, err, fail, ◌>>=◌, context, Note, internal_server_error}

pub data StringValidatorMatches : Type 0 where
  username : StringValidatorMatches
  variable_name : StringValidatorMatches
  http_url : StringValidatorMatches

pub record StringValidator : Type 0 where
  pub min_length : ℕ
  pub max_length : Option ℕ
  pub skip_control_check : Bool
  pub matches : Option StringValidatorMatches

pub record Parsers : Type 0 where
  pub is_url : Text → Bool
  pub is_object_id : Text → Bool

-- `char::is_control`
unfoldable pub is_control : ℕ → Bool
is_control c = leb c 31 || (leb 127 c && leb c 159)

unfoldable pub is_letter : ℕ → Bool
is_letter c = (leb b'A' c && leb c b'Z') || (leb b'a' c && leb c b'z')

abbrev pub is_digit : ℕ → Bool
is_digit c = leb b'0' c && leb c b'9'

unfoldable pub is_username_char : ℕ → Bool
is_username_char c = is_letter c || is_digit c || c == b'.' || c == b'_' || c == b'@' || c == b'-'

unfoldable pub is_name_char : ℕ → Bool
is_name_char c = is_letter c || is_digit c || c == b'_'

-- `^[a-zA-Z_][a-zA-Z0-9_]*$`
unfoldable pub is_variable_name : Text → Bool
is_variable_name [] = false
is_variable_name (c ∷ s) = (is_letter c || c == b'_') && all is_name_char s

unfoldable pub starts_with : Text → Text → Bool
starts_with [] s = true
starts_with (a ∷ part) [] = false
starts_with (a ∷ part) (b ∷ s) = a == b && starts_with part s

-- The first control character is the error.
unfoldable pub validate_no_control_chars : Text → Result (Unit {0})
validate_no_control_chars [] = ok tt
validate_no_control_chars (c ∷ s) =
    let rest = validate_no_control_chars s in
    if is_control c then fail internal_server_error "Control character" else rest

-- `result.context(…)`
abbrev pub with_context {ℓ} : {A : Type ℓ} → Result A → Note → Result A
with_context (ok a) note = ok a
with_context (err e) note = err (context e note)

module _ (P : Parsers) where
  unfoldable pub validate_matches : StringValidatorMatches → Text → Result (Unit {0})
  validate_matches username input =
      if is_empty input || not (all is_username_char input)
      then fail internal_server_error
          "Only alphanumeric characters, underscores, hyphens, dots, and @ are allowed"
      else if P.is_object_id input
      then fail internal_server_error "Cannot be valid ObjectId"
      else ok tt
  validate_matches variable_name input =
      if is_variable_name input
      then ok tt
      else fail internal_server_error "Only alphanumeric characters and underscores are allowed"
  validate_matches http_url input =
      if not (starts_with (codes "http://") input) && not (starts_with (codes "https://") input)
      then fail internal_server_error "Input must start with http:// or https://"
      else if P.is_url input
      then ok tt
      else fail internal_server_error "Failed to parse input as URL"

  abbrev pub exceeds : Option ℕ → ℕ → Bool
  exceeds none len = false
  exceeds (some max_length) len = ltb max_length len

  unfoldable pub validate_content : StringValidator → Text → Result (Unit {0})
  validate_content v input = elim v.matches [
    | none ↦ ok tt
    | some matches ↦
        with_context (validate_matches matches input) (Note.text "Invalid characters in input")
  ]

  -- Characters are counted, not bytes.
  unfoldable pub validate : StringValidator → Text → Result (Unit {0})
  validate v input =
      if ltb (length input) v.min_length
      then fail internal_server_error "Input too short"
      else if exceeds v.max_length (length input)
      then fail internal_server_error "Input too long"
      else if v.skip_control_check
      then validate_content v input
      else do printable ← validate_no_control_chars input; validate_content v input
