-- ===== src/Validate/Datetime/Dates.antt =====
-- What `parse_date` accepts is a date of the Gregorian calendar, and what it prints is read back.
use colander.Prelude.{
  ℕ, ◌+◌, ◌/◌, ◌%◌, ◌<◌, ◌≤◌, ◌≡◌, refl, Bool, true, false, not, ◌||◌, ◌&&◌, ◌==◌, leb, Str, [],
  ◌∷◌, ◌++◌, none, some, arith, All, All-append, ap, if◌then◌else◌, inl, inr, Bool-cases,
}
use colander.Prelude.Int.{ℤ, pos, negsuc, ltb_ℤ}
use colander.Prelude.Options.{◌>>=◌, bind-some}
use colander.Text.Decimal.{IsDigit}
use colander.Text.Split.{split_plain, split-append}
use colander.Text.Trim.{trim, is_whitespace}
use colander.Text.Trim.Plain.{IsInk, trim_ink}
use colander.Validate.Datetime.Print.{print_date}
use colander.Validate.Datetime.Fields.{
  two, four, pad-two, pad-four, two-IsDigit, four-IsDigit, parse-two, parse-four, digits-IsInk,
}
use colander.Validate.Datetime.{
  Three, expand_year, is_date_separator, three_numbers, split_date, is_leap, days_of, is_leap_ok,
  order_date, calendar_date, parse_date, divisible, plus,
}

-- Every fourth year but three of four centuries.
abbrev pub leap_year : ℕ → Bool
leap_year y = y % 4 == 0 && (not (y % 100 == 0) || y % 400 == 0)

-- The days of a month by the rule that the lengths alternate, twice over.
abbrev pub month_days : ℕ → ℕ → ℕ
month_days y m = if m == 2 then (if leap_year y then 29 else 28) else 30 + (m + m / 8) % 2

pub record IsDate (y m d : ℕ) : Type 0 where
  pub year_low : 100 ≤ y
  pub year_high : y ≤ 9999
  pub month_low : 1 ≤ m
  pub month_high : m ≤ 12
  pub day_low : 1 ≤ d
  pub day_high : d ≤ month_days y m

expand_year-some :
    (z : ℤ) {y : ℤ} → expand_year z ≡ some y → (n : ℕ) × (y ≡ pos n) × (100 ≤ n) × (n ≤ 9999)
unfolding expand_year plus
expand_year-some (pos n) h = elim (Bool-cases (leb n 29)) [
  | inl p ↦ (n + 2000, ground arith, ground arith, ground arith)
  | inr p ↦ elim (Bool-cases (leb n 99)) [
    | inl q ↦ (n + 1900, ground arith, ground arith, ground arith)
    | inr q ↦ (n, ground arith, ground arith, ground arith)
  ]
]
expand_year-some (negsuc n) h = absurd (ground arith)

is_leap-leap_year : (y : ℕ) → is_leap (pos y) ≡ leap_year y
unfolding is_leap divisible
is_leap-leap_year y = ground arith

days_of-month_days : (y m : ℕ) → 1 ≤ m → m ≤ 12 → days_of (pos y) (pos m) ≡ month_days y m
unfolding days_of
days_of-month_days y m l h = ground (arith, is_leap-leap_year y)

is_leap_ok-IsDate :
    (y : ℕ) (month day : ℤ)
    → 100 ≤ y
    → y ≤ 9999
    → is_leap_ok (pos y) month day ≡ true
    → (m : ℕ) × (d : ℕ) × (month ≡ pos m) × (day ≡ pos d) × IsDate y m d
unfolding is_leap_ok
is_leap_ok-IsDate y (negsuc m) day l h e = absurd (ground arith)
is_leap_ok-IsDate y (pos m) (negsuc d) l h e = absurd (ground arith)
is_leap_ok-IsDate y (pos m) (pos d) l h e =
    let low : 1 ≤ m = ground arith in
    let high : m ≤ 12 = ground arith in
    let days = days_of-month_days y m low high in
    (
      m,
      d,
      refl,
      refl,
      record {
        year_low = l;
        year_high = h;
        month_low = low;
        month_high = high;
        day_low = ground arith;
        day_high = ground (arith, days);
      },
    )

IsDate-is_leap_ok : {y m d : ℕ} → IsDate y m d → is_leap_ok (pos y) (pos m) (pos d) ≡ true
unfolding is_leap_ok
IsDate-is_leap_ok {y} {m} {d} h =
    let days = days_of-month_days y m h.month_low h.month_high in
    let l = h.month_low in
    let u = h.month_high in let dl = h.day_low in let du = h.day_high in ground (arith, days)

pub if-some {ℓ} :
    {A : Type ℓ} (b : Bool) (a : A) {x : A}
    → (if b then some a else none) ≡ some x
    → (b ≡ true) × (x ≡ a)
if-some true a h = (refl, cc)
if-some false a h = absurd (cc)

abbrev pub natural_date : ℕ → ℕ → ℕ → Three
natural_date y m d = (pos y, pos m, pos d)

-- the steps from three ordered numbers
ordered-IsDate :
    (first month day : ℤ) {date : Three}
    → (expand_year first >>= λ year.
        if is_leap_ok year month day then some (year, month, day) else none)
      ≡ some date
    → (y : ℕ) × (m : ℕ) × (d : ℕ) × (date ≡ natural_date y m d) × IsDate y m d
ordered-IsDate first month day h =
    let (year, e, rest) = bind-some (expand_year first) _ h in
    let (y, is_year, low, high) = expand_year-some first e in
    let (valid, is_date) = if-some _ _ rest in
    let (m, d, is_month, is_day, fits) =
      is_leap_ok-IsDate y month day low high
        (cc (valid, ap (λ z. is_leap_ok z month day) is_year)) in
    (y, m, d, cc (is_date, is_year, is_month, is_day), fits)

calendar_date-IsDate :
    (text : Str) {date : Three}
    → calendar_date text ≡ some date
    → (y : ℕ) × (m : ℕ) × (d : ℕ) × (date ≡ natural_date y m d) × IsDate y m d
unfolding calendar_date
calendar_date-IsDate text h =
    let (numbers, _, rest) = bind-some (split_date text) _ h in
    ordered-IsDate (order_date numbers).0 (order_date numbers).1 (order_date numbers).2 rest

abbrev pub date_text : ℕ → ℕ → ℕ → Str
date_text y m d = four y ++ (b'-' ∷ (two m ++ (b'-' ∷ two d)))

month_days_31 : (y m : ℕ) → month_days y m ≤ 31
month_days_31 y m = ground arith

print_date-text : {y m d : ℕ} → IsDate y m d → print_date (natural_date y m d) ≡ date_text y m d
unfolding print_date
print_date-text {y} {m} {d} h =
    let days = month_days_31 y m in
    let day = h.day_high in
    let month = h.month_high in
    let high = h.year_high in
    rw (pad-four y h.year_low (omega arith), pad-two m (omega arith), pad-two d (omega arith)) refl

no_separator : (s : Str) → All IsDigit s → All (λ c. is_date_separator c ≡ false) s
unfolding is_date_separator
no_separator [] h = tt
no_separator (c ∷ s) (hc, hs) = (ground arith, no_separator s hs)

split_date-text :
    (y m d : ℕ)
    → y < 10000
    → m < 100
    → d < 100
    → split_date (date_text y m d) ≡ some (natural_date y m d)
unfolding split_date three_numbers
split_date-text y m d hy hm hd =
    let dash : is_date_separator b'-' ≡ true = (unfold is_date_separator in refl) in
    let year = four-IsDigit y hy in
    let month = two-IsDigit m hm in
    let day = two-IsDigit d hd in
    rw
      (
        split-append is_date_separator (four y) b'-' (two m ++ (b'-' ∷ two d))
            (no_separator (four y) year) dash,
        split-append is_date_separator (two m) b'-' (two d) (no_separator (two m) month) dash,
        split_plain is_date_separator (two d) (no_separator (two d) day),
        trim_ink (four y) (digits-IsInk (four y) year),
        trim_ink (two m) (digits-IsInk (two m) month),
        trim_ink (two d) (digits-IsInk (two d) day),
        parse-four y hy,
        parse-two m hm,
        parse-two d hd,
      )
      refl

expand_year-plain : (y : ℕ) → 100 ≤ y → y ≤ 9999 → expand_year (pos y) ≡ some (pos y)
unfolding expand_year
expand_year-plain y l h = ground arith

calendar_date-text :
    {y m d : ℕ} → IsDate y m d → calendar_date (date_text y m d) ≡ some (natural_date y m d)
unfolding calendar_date order_date
calendar_date-text {y} {m} {d} h =
    let days = month_days_31 y m in
    let day = h.day_high in
    let month = h.month_high in
    let low = h.year_low in
    let high = h.year_high in
    let first : ltb_ℤ (pos 31) (pos y) ≡ true = ground arith in
    rw
      (
        split_date-text y m d (omega arith) (omega arith) (omega arith),
        first,
        expand_year-plain y low high,
        IsDate-is_leap_ok h,
      )
      refl

dash-IsInk : IsInk b'-'
unfolding is_whitespace
dash-IsInk = refl

date_text-IsInk : (y m d : ℕ) → y < 10000 → m < 100 → d < 100 → All IsInk (date_text y m d)
date_text-IsInk y m d hy hm hd =
    All-append IsInk (four y) (b'-' ∷ (two m ++ (b'-' ∷ two d)))
      (digits-IsInk (four y) (four-IsDigit y hy))
      (
        dash-IsInk,
        All-append IsInk (two m) (b'-' ∷ two d) (digits-IsInk (two m) (two-IsDigit m hm))
            (dash-IsInk, digits-IsInk (two d) (two-IsDigit d hd)),
      )

parse_date-text : {y m d : ℕ} → IsDate y m d → parse_date (date_text y m d) ≡ some (date_text y m d)
unfolding parse_date
parse_date-text {y} {m} {d} h =
    let days = month_days_31 y m in
    let day = h.day_high in
    let month = h.month_high in
    let high = h.year_high in
    rw
      (
        trim_ink (date_text y m d)
            (date_text-IsInk y m d (omega arith) (omega arith) (omega arith)),
        calendar_date-text h,
        print_date-text h,
      )
      refl

-- An accepted date is printed as four, two and two digits of a year from 100 to 9999, a month and a
-- day that the month has in the Gregorian calendar.
pub parse_date-IsDate :
    (text : Str) {out : Str}
    → parse_date text ≡ some out
    → (y : ℕ) × (m : ℕ) × (d : ℕ) × (out ≡ date_text y m d) × IsDate y m d
unfolding parse_date
parse_date-IsDate text h =
    let (date, e1, e2) = bind-some (calendar_date (trim text)) _ h in
    let (y, m, d, e3, fits) = calendar_date-IsDate (trim text) e1 in
    (y, m, d, (cc (e2, ap print_date e3, print_date-text fits)), fits)

-- The date that is printed is accepted, and printed as it is.
pub parse_date-parse_date :
    (text : Str) {out : Str} → parse_date text ≡ some out → parse_date out ≡ some out
parse_date-parse_date text h =
    let (y, m, d, e, fits) = parse_date-IsDate text h in rw e (parse_date-text fits)
