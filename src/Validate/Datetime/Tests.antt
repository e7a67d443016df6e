-- ===== src/Validate/Datetime/Tests.antt =====
-- Runs of src/validate/datetime.rs.
use colander.Prelude.{
  ℕ, ◌++◌, All, length, arith, ◌≡◌, refl, codes, some, none, Str, Result, ok, [], ◌∷◌,
}
use colander.Text.Decimal.{parse_int, show_nat}
use colander.Text.Decimal.{IsDigit}
use colander.Validate.Datetime.Dates.{IsDate, date_text, parse_date-IsDate, parse_date-parse_date}
use colander.Validate.Datetime.Times.{
  IsClock, clock_text, parse_time-IsClock, parse_time-parse_time, normalize_fraction-IsFraction,
}
use colander.Validate.Datetime.Offset.Slices.{Answers, parse_offset-Answers, parse_offset-panic}
use colander.Text.Trim.{
  is_whitespace, trim, trim_start, trim_end, split_once, strip_suffix, take_while,
}
use colander.Text.Split.{split}
use colander.Text.Utf8.{as_bytes, encode_char}
use colander.Validate.Datetime.Print.{pad, print_date, print_time}
use colander.Validate.Datetime.Offset.{parse_offset, slice_bytes, is_sign}
use colander.Validate.Datetime.{
  parse_date, calendar_date, split_date, order_date, expand_year, is_leap_ok, days_of,
  parse_datetime, split_offset, last_sign, parse_clock, parse_time, normalize_fraction,
}

abbrev leap_day : Str
leap_day = codes " 2/29/24 "

leap_day_run : parse_date leap_day ≡ some (codes "2024-02-29")
unfolding parse_date calendar_date split_date split trim trim_start trim_end order_date expand_year
    is_leap_ok days_of print_date pad show_nat parse_int
leap_day_run = refl

parse_date-IsDate_example :
    (y : ℕ) × (m : ℕ) × (d : ℕ) × (codes "2024-02-29" ≡ date_text y m d) × IsDate y m d
parse_date-IsDate_example = parse_date-IsDate leap_day leap_day_run

parse_date-parse_date_example : parse_date (codes "2024-02-29") ≡ some (codes "2024-02-29")
parse_date-parse_date_example = parse_date-parse_date leap_day leap_day_run

abbrev late : Str
late = codes "7:05"

late_run : parse_time late ≡ some (codes "07:05:00")
unfolding parse_time parse_clock split trim trim_start trim_end split_once print_time pad show_nat
    parse_int
late_run = refl

parse_time-IsClock_example :
    (h : ℕ) × (m : ℕ) × (s : ℕ) × (codes "07:05:00" ≡ clock_text h m s) × IsClock h m s
parse_time-IsClock_example = parse_time-IsClock late late_run

parse_time-parse_time_example : parse_time (codes "07:05:00") ≡ some (codes "07:05:00")
parse_time-parse_time_example = parse_time-parse_time late late_run

abbrev short_fraction : Str
short_fraction = codes "25x"

short_fraction_run : normalize_fraction short_fraction ≡ some (codes "2500000")
unfolding normalize_fraction take_while
short_fraction_run = refl

normalize_fraction-IsFraction_example :
    (length (codes "2500000") ≡ 7) × All IsDigit (codes "2500000")
normalize_fraction-IsFraction_example =
    normalize_fraction-IsFraction short_fraction short_fraction_run

parse_offset-Answers_example : Answers (parse_offset (codes "+12:3"))
parse_offset-Answers_example =
    parse_offset-Answers (codes "+12:3")
      (omega arith, (omega arith, (omega arith, (omega arith, (omega arith, tt)))))

parse_offset-panic_example : parse_offset (b'+' ∷ b'1' ∷ 0xE9 ∷ b'1' ∷ []) ≡ Result.panic
unfolding is_sign is_whitespace
parse_offset-panic_example =
    parse_offset-panic b'+' b'1' 0xE9 b'1' refl (omega arith) (omega arith) (omega arith)
      (omega arith) refl refl refl

-- the panic is reached from a date and time of a response
datetime_panic :
    parse_datetime (codes "2024-01-01 10:00" ++ (b'+' ∷ b'1' ∷ 0xE9 ∷ b'1' ∷ [])) ≡ Result.panic
unfolding parse_datetime calendar_date split_date split trim trim_start trim_end order_date
    expand_year is_leap_ok days_of parse_int split_offset last_sign is_sign parse_offset slice_bytes
    split_once strip_suffix as_bytes encode_char
datetime_panic = refl

date_runs :
    (parse_date (codes " 2/29/24 ") ≡ some (codes "2024-02-29"))
    × (parse_date (codes "2023-02-29") ≡ none)
    × (parse_date (codes "1999/1/5") ≡ some (codes "1999-01-05"))
unfolding parse_date calendar_date split_date split trim trim_start trim_end order_date expand_year
    is_leap_ok days_of print_date pad show_nat parse_int
date_runs = (refl, refl, refl)

datetime_run :
    parse_datetime (codes "2024-02-29 7:05 +0530")
    ≡ ok (some (codes "2024-02-29T07:05:00.0000000+05:30"))
unfolding parse_datetime calendar_date split_date split trim trim_start trim_end order_date
    expand_year is_leap_ok days_of print_date print_time pad show_nat parse_int split_offset
    last_sign is_sign parse_offset slice_bytes parse_clock normalize_fraction split_once
    strip_suffix take_while as_bytes encode_char
datetime_run = refl

-- a negative number of hours passes the upper bound
negative_hours : parse_offset (codes "+-20:00") ≡ ok (some (codes "+-20:00"))
unfolding parse_offset trim trim_start trim_end is_sign split_once parse_int pad show_nat
negative_hours = refl
