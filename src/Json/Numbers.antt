-- ===== src/Json/Numbers.antt =====
-- `scan_number` of src/json/parse.rs.
pub mod Bounds
use colander.Prelude.{
  ℕ, ◌+◌, Bool, false, ◌||◌, Str, Bytes, [], ◌∷◌, Option, none, some, leb, ◌&&◌, if◌then◌else◌,
  codes, ok,
}
use colander.Text.Utf8.{Utf8, valid, invalid, from_utf8}
use colander.Text.Decimal.{is_digit}
use colander.Json.Input.{Input, Parser, ◌>>◌, pure, error, peek, bump, is_at, slice_between}

digit_at : Option ℕ → Bool
digit_at none = false
digit_at (some c) = is_digit c

-- `b'1'..=b'9'`
nonzero_digit_at : Option ℕ → Bool
nonzero_digit_at none = false
nonzero_digit_at (some c) = leb b'1' c && leb c b'9'

skip_digit_bytes : Bytes → ℕ → Input
skip_digit_bytes [] n = record { rest = []; position = n }
skip_digit_bytes (b ∷ s) n =
    let later = skip_digit_bytes s (n + 1) in
    if is_digit b then later else record { rest = b ∷ s; position = n }

-- `while matches!(self.peek(), Some(b'0'..=b'9')) { self.position += 1 }`
unfoldable pub skip_digits : Parser (Unit {0})
unfolding skip_digit_bytes
skip_digits i = ok (tt, skip_digit_bytes i.rest i.position)

step : Parser (Unit {0})
step i = ok (tt, bump i)

-- at least one digit, or the message
digits : Str → Parser (Unit {0})
unfolding digit_at skip_digits error
digits message i = if digit_at (peek i) then skip_digits i else error message i

-- an optional sign in front of the digits
optional_minus : Parser (Unit {0})
unfolding step
optional_minus i = if is_at b'-' (peek i) then step i else pure tt i

optional_sign : Parser (Unit {0})
unfolding step
optional_sign i = if is_at b'+' (peek i) || is_at b'-' (peek i) then step i else pure tt i

integer_part : Parser (Unit {0})
unfolding step nonzero_digit_at skip_digits error
integer_part i =
    if is_at b'0' (peek i)
    then step i
    else if nonzero_digit_at (peek i)
    then skip_digits i
    else error (codes "invalid number") i

fraction_part : Parser (Unit {0})
unfolding step digits
fraction_part i =
    if is_at b'.' (peek i) then (do step; digits (codes "invalid number fraction")) i else pure tt i

exponent_part : Parser (Unit {0})
unfolding step optional_sign digits
exponent_part i =
    if is_at b'e' (peek i) || is_at b'E' (peek i)
    then (do step; optional_sign; digits (codes "invalid number exponent")) i
    else pure tt i

number_text : Utf8 → Parser Str
unfolding error
number_text (valid s) = pure s
number_text (invalid n) = error (codes "invalid number")

unfoldable pub scan_number : Parser Str
unfolding optional_minus integer_part fraction_part exponent_part number_text slice_between
scan_number start =
    (do
      optional_minus
      integer_part
      fraction_part
      exponent_part
      (λ i. number_text (from_utf8 (slice_between start i)) i))
      start
