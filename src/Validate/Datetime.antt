-- ===== src/Validate/Datetime.antt =====
-- src/validate/datetime.rs: dates, times of day and offsets from UTC.
pub mod Print
pub mod Offset
pub mod Times
pub mod Dates
pub mod Fields
mod Tests
use colander.Prelude.{
  ℕ, zero, suc, ◌+◌, ◌-◌, ◌%◌, ◌<◌, ◌≤◌, ◌≡◌, refl, Bool, true, false, not, ◌&&◌, ◌||◌, ◌==◌, leb,
  ltb, Str, List, [], ◌∷◌, ◌++◌, map, Option, none, some, codes, length, take, replicate, is_empty,
  if◌then◌else◌, Result, ok, out_of_fuel, map_ok,
}
use colander.Prelude.Int.{ℤ, pos, negsuc, ltb_ℤ, leb_ℤ, eqb_ℤ}
use colander.Prelude.Options.{◌>>=◌}
use colander.Text.Decimal.{is_digit, parse_i32}
use colander.Text.Split.{split}
use colander.Text.Trim.{trim, trim_end, split_once, strip_suffix, take_while}
use colander.Validate.Datetime.Print.{pad, print_date, print_time}
use colander.Validate.Datetime.Offset.{Attempt, parse_offset, is_sign}

-- the three numbers of a date or a time
abbrev pub Three : Type 0
Three = ℤ × ℤ × ℤ

abbrev between : ℕ → ℕ → ℤ → Bool
between lo hi z = leb_ℤ (pos lo) z && leb_ℤ z (pos hi)

plus : ℕ → ℤ → ℤ
plus k (pos n) = pos (n + k)
plus k (negsuc n) = negsuc n

unfoldable pub expand_year : ℤ → Option ℤ
unfolding plus
expand_year year =
    if between 0 29 year
    then some (plus 2000 year)
    else if between 30 99 year
    then some (plus 1900 year)
    else if between 100 9999 year
    then some year
    else none

is_date_separator : ℕ → Bool
is_date_separator c = c == b'-' || c == b'/'

three_numbers : List Str → Option Three
three_numbers (a ∷ b ∷ c ∷ []) = do
  x ← parse_i32 a
  y ← parse_i32 b
  z ← parse_i32 c
  some (x, y, z)
three_numbers _ = none

unfoldable pub split_date : Str → Option Three
unfolding is_date_separator three_numbers
split_date text = three_numbers (map trim (split is_date_separator text))

abbrev is_one_of : List ℕ → ℤ → Bool
is_one_of [] z = false
is_one_of (n ∷ ns) z = eqb_ℤ z (pos n) || is_one_of ns z

-- `year % n == 0`, which ignores the sign
divisible : ℕ → ℤ → Bool
divisible n (pos m) = m % n == 0
divisible n (negsuc m) = suc m % n == 0

is_leap : ℤ → Bool
unfolding divisible
is_leap year = (divisible 4 year && not (divisible 100 year)) || divisible 400 year

unfoldable pub days_of : ℤ → ℤ → ℕ
unfolding is_leap
days_of year month =
    if is_one_of (1 ∷ 3 ∷ 5 ∷ 7 ∷ 8 ∷ 10 ∷ 12 ∷ []) month
    then 31
    else if is_one_of (4 ∷ 6 ∷ 9 ∷ 11 ∷ []) month
    then 30
    else if is_leap year
    then 29
    else 28

unfoldable pub is_leap_ok : ℤ → ℤ → ℤ → Bool
is_leap_ok year month day =
    if not (between 1 12 month) || ltb_ℤ day (pos 1)
    then false
    else leb_ℤ day (pos (days_of year month))

-- which of the three numbers is the year
unfoldable pub order_date : Three → Three
order_date (first, second, third) =
    if ltb_ℤ (pos 31) first then (first, second, third) else (third, first, second)

-- the steps that `parse_date` and `parse_datetime` share, up to the test of the day
unfoldable pub calendar_date : Str → Option Three
calendar_date text = do
  numbers ← split_date text
  let ordered = order_date numbers
  year ← expand_year ordered.0
  if is_leap_ok year ordered.1 ordered.2 then some (year, ordered.1, ordered.2) else none

unfoldable pub parse_date : Str → Option Str
parse_date text = do date ← calendar_date (trim text); some (print_date date)

unfoldable pub normalize_fraction : Str → Option Str
normalize_fraction fraction =
    let digits = take_while is_digit fraction in
    if is_empty digits then none else some (take 7 (digits ++ replicate (7 - length digits) b'0'))

clock_numbers : List Str → Option Three
clock_numbers (a ∷ b ∷ []) = do x ← parse_i32 a; y ← parse_i32 b; some (x, y, pos 0)
clock_numbers (a ∷ b ∷ c ∷ []) = do
  x ← parse_i32 a
  y ← parse_i32 b
  z ← parse_i32 c
  some (x, y, z)
clock_numbers _ = none

-- the clock and the fraction of a text that is split at its first point
clock_parts : Str → Option (Str × Str) → Option (Str × Str)
clock_parts text none = some (trim text, codes "0000000")
clock_parts text (some (clock, fraction)) = do
  digits ← normalize_fraction fraction
  some (trim clock, digits)

is_clock : Three → Bool
is_clock (hour, minute, second) = between 0 23 hour && (between 0 59 minute && between 0 59 second)

unfoldable pub parse_clock : Str → Option (Three × Str)
unfolding clock_numbers clock_parts is_clock
parse_clock text = do
  parts ← clock_parts text (split_once (λ c. c == b'.') text)
  numbers ← clock_numbers (map trim (split (λ c. c == b':') (parts.0)))
  if is_clock numbers then some (numbers, parts.1) else none

unfoldable pub parse_time : Str → Option Str
parse_time text = do clock ← parse_clock (trim text); some (print_time clock.0)

-- `split_once(['T', ' '])`
is_time_mark : ℕ → Bool
is_time_mark c = c == b'T' || c == b' '

push_left : ℕ → Option (Str × Str) → Bool → Str → Option (Str × Str)
push_left c (some (a, b)) here s = some (c ∷ a, b)
push_left c none true s = some ([], c ∷ s)
push_left c none false s = none

-- the text in front of its last sign, and from there on
unfoldable pub last_sign : Str → Option (Str × Str)
unfolding push_left is_sign
last_sign [] = none
last_sign (c ∷ s) = push_left c (last_sign s) (is_sign c) s

-- the loop from the last byte down to the second one
sign_after_first : Str → Option (Str × Str)
unfolding push_left
sign_after_first [] = none
sign_after_first (c ∷ s) = push_left c (last_sign s) false s

utc : Str
utc = codes "+00:00"

-- the time of day and the offset, where an offset was tried
with_offset : Str → Str → Result (Option Str) → Result (Str × Str)
unfolding utc
with_offset rest before (ok none) = ok (rest, utc)
with_offset rest before (ok (some offset)) = ok (trim_end before, offset)
with_offset rest before (Result.err e) = Result.err e
with_offset rest before Result.panic = Result.panic
with_offset rest before out_of_fuel = out_of_fuel

at_sign : Str → Option (Str × Str) → Result (Str × Str)
unfolding with_offset utc
at_sign rest none = ok (rest, utc)
at_sign rest (some (before, candidate)) = with_offset rest before (parse_offset candidate)

without_z : Str → Option Str → Result (Str × Str)
unfolding at_sign sign_after_first utc
without_z rest (some stripped) = ok (trim_end stripped, utc)
without_z rest none = at_sign rest (sign_after_first rest)

unfoldable pub split_offset : Str → Result (Str × Str)
unfolding without_z
split_offset rest = without_z rest (strip_suffix (λ c. c == b'Z' || c == b'z') rest)

print_datetime : Three → Str → Option (Three × Str) → Option Str
print_datetime date offset none = none
print_datetime date offset (some (clock, fraction)) =
    some (print_date date ++ (b'T' ∷ (print_time clock ++ (b'.' ∷ (fraction ++ offset)))))

at_date : Three → Str → Attempt Str
unfolding print_datetime
at_date date rest =
    map_ok (λ (parts : Str × Str). print_datetime date parts.1 (parse_clock parts.0))
      (split_offset (trim rest))

dated : Str → Option Three → Attempt Str
unfolding at_date
dated rest none = ok none
dated rest (some date) = at_date date rest

datetime_parts : Option (Str × Str) → Attempt Str
unfolding dated
datetime_parts none = ok none
datetime_parts (some (date_part, rest)) = dated rest (calendar_date date_part)

unfoldable pub parse_datetime : Str → Attempt Str
unfolding datetime_parts is_time_mark
parse_datetime text = datetime_parts (split_once is_time_mark (trim text))
