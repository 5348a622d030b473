-- ===== src/Config/EnvFile.antt =====
-- crates/config/src/env_file.rs: the entries of an env file. Lines keep their ends here: each is
-- trimmed before it is read.
use moghtech_lib.Base.{
  ℕ, ◌+◌, Bool, true, false, ◌||◌, Option, none, some, List, [], ◌∷◌, ◌==◌, if◌then◌else◌, is_empty,
  any,
}
use moghtech_lib.Base.Text.{Text, codes, text_eq, trim, trim_start, split}

pub data Message : Type 0 where
  expected_entry missing_name : Message
  duplicate_entry unsupported_escape : (name : Text) → Message
  unterminated_double unterminated_single content_after_quote : Message

pub record EnvFileError : Type 0 where
  pub line : ℕ
  pub message : Message

pub data Result {ℓ} (A : Type ℓ) : Type ℓ where
  ok : A → Result A
  err : EnvFileError → Result A

abbrev pub error {ℓ} : {A : Type ℓ} → ℕ → Message → Result A
error line message = err (record { line = line; message = message })

abbrev pub prepend : ℕ → Result (Text × Text) → Result (Text × Text)
prepend c (ok (out, rest)) = ok (c ∷ out, rest)
prepend c (err e) = err e

-- What stands for a character after a backslash.
abbrev pub unescape : ℕ → Option ℕ
unescape c =
    if c == b'n'
    then some 10
    else if c == b'r'
    then some 13
    else if c == b't'
    then some 9
    else if c == b'"' || c == b'\\'
    then some c
    else none

-- The loop after a double quote, after a backslash or not: the value, and what follows the quote
-- that ends it.
unfoldable pub in_quotes : (name : Text) (line : ℕ) → Bool → Text → Result (Text × Text)
in_quotes name line escaped [] = error line unterminated_double
in_quotes name line true (c ∷ chars) =
    let rest = in_quotes name line false chars in
    elim (unescape c) [ none ↦ error line (unsupported_escape name) | some d ↦ prepend d rest ]
in_quotes name line false (c ∷ chars) =
    let rest = in_quotes name line (c == b'\\') chars in
    if c == b'\\' then rest else if c == b'"' then ok ([], chars) else prepend c rest

-- `str::rfind`, with what stands before and after it.
unfoldable pub rfind : ℕ → Text → Option (Text × Text)
rfind q [] = none
rfind q (c ∷ s) = elim (rfind q s) [
  | some (before, after) ↦ some (c ∷ before, after)
  | none ↦ if c == q then some ([], s) else none
]

-- Nothing may follow the quote that ends a value.
abbrev pub closed : ℕ → Result (Text × Text) → Result Text
closed line (ok (out, rest)) = if is_empty rest then ok out else error line content_after_quote
closed line (err e) = err e

abbrev pub single_quoted : ℕ → Option (Text × Text) → Result (Text × Text)
single_quoted line none = error line unterminated_single
single_quoted line (some parts) = ok parts

unfoldable pub parse_value : Text → (name : Text) (line : ℕ) → Result Text
parse_value [] name line = ok []
parse_value (c ∷ chars) name line =
    if c == b'"'
    then closed line (in_quotes name line false chars)
    else if c == b'\''
    then closed line (single_quoted line (rfind b'\'' chars))
    else ok (c ∷ chars)

pub record Entry : Type 0 where
  pub line : ℕ
  pub name : Text
  pub value : Text

-- `str::strip_prefix`
unfoldable pub strip_prefix : Text → Text → Option Text
strip_prefix [] s = some s
strip_prefix (c ∷ prefix) [] = none
strip_prefix (c ∷ prefix) (d ∷ s) = if c == d then strip_prefix prefix s else none

unfoldable pub split_once : ℕ → Text → Option (Text × Text)
split_once sep [] = none
split_once sep (c ∷ s) =
    let rest = split_once sep s in
    if c == sep
    then some ([], s)
    else elim rest [ none ↦ none | some (before, after) ↦ some (c ∷ before, after) ]

abbrev or_whole : Option Text → Text → Text
or_whole none s = s
or_whole (some rest) s = trim_start rest

unfoldable pub strip_export : Text → Text
unfolding strip_prefix
strip_export line = or_whole (strip_prefix (codes "export ") line) line

abbrev pub starts_with : ℕ → Text → Bool
starts_with c [] = false
starts_with c (d ∷ s) = c == d

-- One line that is neither blank nor a comment, with the names before it.
unfoldable pub parse_line : ℕ → List Text → Text → Result Entry
parse_line number names line = elim (split_once b'=' (strip_export line)) [
  | none ↦ error number expected_entry
  | some (before, after) ↦
      let name = trim before in
      if is_empty name
      then error number missing_name
      else if any (text_eq name) names
      then error number (duplicate_entry name)
      else elim (parse_value (trim after) name number) [
        | err e ↦ err e
        | ok value ↦ ok (record { line = number; name = name; value = value })
      ]
]

unfoldable pub parse_lines : ℕ → List Text → List Text → Result (List Entry)
parse_lines number names [] = ok []
parse_lines number names (raw ∷ lines) =
    let line = trim raw in
    elim (is_empty line || starts_with b'#' line) [
      | true ↦ parse_lines (number + 1) names lines
      | false ↦ elim (parse_line number names line) [
        | err e ↦ err e
        | ok entry ↦ elim (parse_lines (number + 1) (entry.name ∷ names) lines) [
          | err e ↦ err e
          | ok entries ↦ ok (entry ∷ entries)
        ]
      ]
    ]

abbrev or_all : Option Text → Text → Text
or_all none s = s
or_all (some rest) s = rest

-- Without a byte order mark.
unfoldable pub parse_entries : Text → Result (List Entry)
unfolding strip_prefix
parse_entries content =
    parse_lines 1 [] (split 10 (or_all (strip_prefix (0xfeff ∷ []) content) content))
