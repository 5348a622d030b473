-- ===== src/Config/EnvFileTests.antt =====
-- crates/config/src/env_file.rs: small env files.
use moghtech_lib.Base.{◌≡◌, refl, List, [], ◌∷◌}
use moghtech_lib.Base.Text.{codes, trim, trim_start, trim_end, is_whitespace, split}
use moghtech_lib.Config.EnvFile.{
  ok, Entry, parse_value, parse_entries, parse_lines, parse_line, strip_prefix, strip_export,
  split_once, rfind,
}
use moghtech_lib.Config.EnvFileLaws.{
  quote, HasDistinctNames, parse_value-quote, parse_entries-HasDistinctNames,
}

parse_value-quote_example :
    parse_value (quote (codes "a\n\"b\"")) (codes "KEY") 1 ≡ ok (codes "a\n\"b\"")
parse_value-quote_example = parse_value-quote (codes "a\n\"b\"") (codes "KEY") 1

abbrev entries : List Entry
entries =
    (record { line = 2; name = codes "A"; value = codes "1" })
    ∷ (record { line = 3; name = codes "B"; value = codes "it's" })
    ∷ []

reads : parse_entries (codes "# x\nexport A=1\nB = 'it's' \n") ≡ ok entries
unfolding parse_entries parse_lines parse_line parse_value strip_prefix strip_export split_once
    rfind trim trim_start trim_end is_whitespace split
reads = refl

parse_entries-HasDistinctNames_example : HasDistinctNames entries
parse_entries-HasDistinctNames_example =
    parse_entries-HasDistinctNames (codes "# x\nexport A=1\nB = 'it's' \n") entries reads
