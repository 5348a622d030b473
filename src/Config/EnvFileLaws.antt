-- ===== src/Config/EnvFileLaws.antt =====
-- crates/config/src/env_file.rs: what is read back, and what is refused.
use moghtech_lib.Base.{
  ℕ, ◌+◌, ◌≡◌, refl, false, ◌||◌, List, [], ◌∷◌, ◌++◌, ◌==◌, if◌then◌else◌, is_empty, any, All,
  arith, Bool-cases, inl, inr, ◌⊎◌,
}
use moghtech_lib.Base.Text.{Text, text_eq, trim}
use moghtech_lib.Config.EnvFile.{
  EnvFileError, Result, ok, err, in_quotes, parse_value, Entry, starts_with, parse_line,
  parse_lines, parse_entries,
}

-- How a value is written in double quotes: line ends, tabs, quotes and backslashes escaped.
abbrev pub escape : Text → Text
escape [] = []
escape (c ∷ s) =
    if c == 10
    then b'\\' ∷ b'n' ∷ escape s
    else if c == 13
    then b'\\' ∷ b'r' ∷ escape s
    else if c == 9
    then b'\\' ∷ b't' ∷ escape s
    else if c == b'"' || c == b'\\'
    then b'\\' ∷ c ∷ escape s
    else c ∷ escape s

abbrev pub quote : Text → Text
quote value = b'"' ∷ (escape value ++ b'"' ∷ [])

in_quotes-escape :
    (name : Text) (line : ℕ) (value : Text)
    → in_quotes name line false (escape value ++ b'"' ∷ []) ≡ ok (value, [])
unfolding in_quotes
in_quotes-escape name line [] = refl
in_quotes-escape name line (c ∷ s) = ground (arith, in_quotes-escape name line s)

-- Whatever characters a value has, written in double quotes it is read back unchanged.
pub parse_value-quote :
    (value name : Text) (line : ℕ) → parse_value (quote value) name line ≡ ok value
unfolding parse_value
parse_value-quote value name line = ground (arith, in_quotes-escape name line value)

-- No name is there twice.
abbrev pub HasDistinctNames : List Entry → Type 0
HasDistinctNames [] = Unit
HasDistinctNames (e ∷ es) = All (λ f. text_eq f.name e.name ≡ false) es × HasDistinctNames es

parse_line-name :
    (number : ℕ) (names : List Text) (line : Text) (e : Entry)
    → parse_line number names line ≡ ok e
    → any (text_eq e.name) names ≡ false
unfolding parse_line
parse_line-name number names line e h = ground arith

abbrev Fresh : List Text → List Entry → Type 0
Fresh names = All (λ f. any (text_eq f.name) names ≡ false)

Fresh-cases :
    (name : Text) (names : List Text) (es : List Entry)
    → Fresh (name ∷ names) es
    → Fresh names es × All (λ f. text_eq f.name name ≡ false) es
Fresh-cases name names [] h = (tt, tt)
Fresh-cases name names (e ∷ es) (h, hs) = ground (arith, Fresh-cases name names es hs)

Result-cases {ℓ} :
    {A : Type ℓ} (r : Result A) → ((a : A) × (r ≡ ok a)) ⊎ ((e : EnvFileError) × (r ≡ err e))
Result-cases (ok a) = inl (a, refl)
Result-cases (err e) = inr (e, refl)

parse_lines-names :
    (number : ℕ) (names lines : List Text) (es : List Entry)
    → parse_lines number names lines ≡ ok es
    → Fresh names es × HasDistinctNames es
unfolding parse_lines
parse_lines-names number names [] es h = let e : [] ≡ es = ground arith in rw (← e) (tt, tt)
parse_lines-names number names (raw ∷ lines) es h =
    elim (Bool-cases (is_empty (trim raw) || starts_with b'#' (trim raw))) [
      | inl blank ↦ parse_lines-names (number + 1) names lines es (ground (arith, blank))
      | inr used ↦ elim (Result-cases (parse_line number names (trim raw))) [
        | inr (e, failed) ↦ absurd (ground (arith, used, failed))
        | inl (entry, read) ↦
            elim (Result-cases (parse_lines (number + 1) (entry.name ∷ names) lines)) [
              | inr (e, failed) ↦ absurd (ground (arith, used, read, failed))
              | inl (entries, rest) ↦
                  let (fresh, distinct) =
                    parse_lines-names (number + 1) (entry.name ∷ names) lines entries rest in
                  let (older, other) = Fresh-cases entry.name names entries fresh in
                  let e : entry ∷ entries ≡ es = ground (arith, used, read, rest) in
                  rw (← e)
                    ((parse_line-name number names (trim raw) entry read, older), (other, distinct))
            ]
      ]
    ]

-- An env file that is read has each name once.
pub parse_entries-HasDistinctNames :
    (content : Text) (es : List Entry) → parse_entries content ≡ ok es → HasDistinctNames es
unfolding parse_entries
parse_entries-HasDistinctNames content es h = (parse_lines-names 1 [] _ es h).1
