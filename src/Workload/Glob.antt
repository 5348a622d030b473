-- ===== src/Workload/Glob.antt =====
-- auth/server/src/provider/workload.rs, `glob_match`.
use moghtech_lib.Base.{
  Bool, true, false, ◌||◌, Option, none, some, List, [], ◌∷◌, ◌==◌, if◌then◌else◌, is_empty,
}
use moghtech_lib.Base.Text.{Text, text_eq, split}

-- `str::strip_prefix`
unfoldable pub strip_prefix : Text → Text → Option Text
strip_prefix [] s = some s
strip_prefix (a ∷ part) [] = none
strip_prefix (a ∷ part) (b ∷ s) = if a == b then strip_prefix part s else none

-- What `str::find` leaves: the text behind the first occurrence of the part.
unfoldable pub find_after : Text → Text → Option Text
find_after part [] = strip_prefix part []
find_after part (c ∷ s) =
    let later = find_after part s in
    elim (strip_prefix part (c ∷ s)) [ some rest ↦ some rest | none ↦ later ]

-- `str::ends_with`
unfoldable pub ends_with : Text → Text → Bool
ends_with part [] = text_eq part []
ends_with part (c ∷ s) = text_eq part (c ∷ s) || ends_with part s

-- The loop over the parts behind the first one. The last part has to end the value.
unfoldable pub match_parts : List Text → Text → Bool
match_parts [] rest = true
match_parts (part ∷ []) rest = ends_with part rest
match_parts (part ∷ next ∷ parts) rest = elim (find_after part rest) [
  | some rest' ↦ match_parts (next ∷ parts) rest'
  | none ↦ false
]

unfoldable pub match_split : List Text → Text → Bool
match_split [] value = is_empty value
match_split (first ∷ parts) value = elim (strip_prefix first value) [
  | none ↦ false
  | some rest ↦ if is_empty parts then is_empty rest else match_parts parts rest
]

unfoldable pub glob_match : Text → Text → Bool
glob_match pattern value = match_split (split b'*' pattern) value
