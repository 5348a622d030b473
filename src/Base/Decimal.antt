-- ===== src/Base/Decimal.antt =====
-- Whole numbers as decimal text: `to_string` and `parse` of an `i64`.
use moghtech_lib.Base.{
  ℕ, zero, suc, ◌+◌, ◌-◌, ◌*◌, ◌/◌, ◌%◌, ◌^◌, ◌<◌, ◌≡◌, refl, Bool, true, false, ◌&&◌, Option, none,
  some, [], ◌∷◌, ◌++◌, ltb, leb, ◌==◌, if◌then◌else◌, is_empty, all, arith,
}
use moghtech_lib.Base.Text.{Text}
use moghtech_lib.Base.Int.{ℤ, pos, negsuc}

abbrev pub is_ascii_digit : ℕ → Bool
is_ascii_digit c = leb b'0' c && leb c b'9'

-- The digits of a number below `10 ^ fuel`.
unfoldable pub digits : (fuel : ℕ) → ℕ → Text
digits zero n = []
digits (suc fuel) n =
    let front = digits fuel (n / 10) in
    if ltb n 10 then (b'0' + n) ∷ [] else front ++ ((b'0' + n % 10) ∷ [])

unfoldable pub parse_digits : ℕ → Text → Option ℕ
parse_digits value [] = some value
parse_digits value (c ∷ s) =
    let rest = parse_digits (value * 10 + (c - b'0')) s in if is_ascii_digit c then rest else none

-- An `i64` has twenty characters at most.
unfoldable pub display_i64 : ℤ → Text
display_i64 (pos n) = digits 20 n
display_i64 (negsuc n) = b'-' ∷ digits 20 (n + 1)

unfoldable pub in_i64 : Bool → Option ℕ → Option ℤ
in_i64 negative none = none
in_i64 false (some n) = if ltb n (2 ^ 63) then some (pos n) else none
in_i64 true (some zero) = some (pos 0)
in_i64 true (some (suc n)) = if ltb n (2 ^ 63) then some (negsuc n) else none

-- A sign alone, or nothing, is no number.
unfoldable pub parse_i64 : Text → Option ℤ
parse_i64 [] = none
parse_i64 (c ∷ s) =
    if c == b'-'
    then (if is_empty s then none else in_i64 true (parse_digits 0 s))
    else if c == b'+'
    then (if is_empty s then none else in_i64 false (parse_digits 0 s))
    else in_i64 false (parse_digits 0 (c ∷ s))

parse_digits-append :
    (value d n : ℕ) (s : Text)
    → d < 10
    → parse_digits value s ≡ some n
    → parse_digits value (s ++ ((b'0' + d) ∷ [])) ≡ some (n * 10 + d)
unfolding parse_digits
parse_digits-append value d n [] lt h = ground (arith, lt, h)
parse_digits-append value d n (c ∷ s) lt h =
    ground (arith, h, parse_digits-append (value * 10 + (c - b'0')) d n s lt)

pub parse_digits-digits : (fuel n : ℕ) → n < 10 ^ fuel → parse_digits 0 (digits fuel n) ≡ some n
unfolding digits parse_digits
parse_digits-digits zero n lt = ground (arith, lt)
parse_digits-digits (suc fuel) n lt =
    let power : 10 ^ suc fuel ≡ 10 * 10 ^ fuel = omega arith in
    let small : n / 10 < 10 ^ fuel = omega (arith, lt, power) in
    let front =
      parse_digits-append 0 (n % 10) (n / 10) (digits fuel (n / 10)) (omega arith)
        (parse_digits-digits fuel (n / 10) small) in
    ground (arith, front)

pub all-append : (p : ℕ → Bool) (s t : Text) → all p (s ++ t) ≡ (all p s && all p t)
all-append p [] t = refl
all-append p (c ∷ s) t = ground (arith, all-append p s t)

-- Nothing but digits, and one at least.
pub all-digits : (fuel n : ℕ) → all is_ascii_digit (digits fuel n) ≡ true
unfolding digits
all-digits zero n = refl
all-digits (suc fuel) n =
    let last = (b'0' + n % 10) ∷ [] in
    let end : all is_ascii_digit last ≡ true = ground arith in
    ground
      (arith, all-digits fuel (n / 10), all-append is_ascii_digit (digits fuel (n / 10)) last, end)

is_empty-append : (s : Text) (c : ℕ) → is_empty (s ++ (c ∷ [])) ≡ false
is_empty-append [] c = refl
is_empty-append (d ∷ s) c = refl

pub is_empty-digits : (fuel n : ℕ) → is_empty (digits (suc fuel) n) ≡ false
unfolding digits
is_empty-digits fuel n = ground (arith, is_empty-append (digits fuel (n / 10)) (b'0' + n % 10))

-- A text that starts with no sign is read as its digits.
parse_i64-unsigned :
    (s : Text) (n : ℕ)
    → is_empty s ≡ false
    → all is_ascii_digit s ≡ true
    → parse_digits 0 s ≡ some n
    → n < 2 ^ 63
    → parse_i64 s ≡ some (pos n)
unfolding parse_i64 in_i64
parse_i64-unsigned [] n full digits h lt = absurd (ground (arith, full))
parse_i64-unsigned (c ∷ s) n full digits h lt = ground (arith, digits, h, lt)

-- The values of an `i64`.
abbrev pub InI64 : ℤ → Type 0
InI64 (pos n) = n < 2 ^ 63
InI64 (negsuc n) = n < 2 ^ 63

-- An `i64` is read back from its text.
pub parse_i64-display_i64 : (z : ℤ) → InI64 z → parse_i64 (display_i64 z) ≡ some z
unfolding parse_i64 display_i64 in_i64
parse_i64-display_i64 (pos n) lt =
    parse_i64-unsigned (digits 20 n) n (is_empty-digits 19 n) (all-digits 20 n)
      (parse_digits-digits 20 n (omega (arith, lt))) lt
parse_i64-display_i64 (negsuc n) lt =
    ground
      (arith, lt, is_empty-digits 19 (n + 1), parse_digits-digits 20 (n + 1) (omega (arith, lt)))
