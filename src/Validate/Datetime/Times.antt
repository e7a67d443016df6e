-- ===== src/Validate/Datetime/Times.antt =====
-- What `parse_time` accepts is a time of a day of 24 hours, and what it prints is read back. A
-- fraction has seven digits.
use colander.Prelude.{
  ℕ, zero, suc, ◌-◌, ◌≤◌, ◌≡◌, refl, Bool, true, false, ◌==◌, Str, [], ◌∷◌, ◌++◌, map, Option, none,
  some, arith, All, All-append, ap, length, length-append, take, replicate, is_empty, codes,
  if◌then◌else◌, inl, inr, Bool-cases,
}
use colander.Prelude.Int.{ℤ, pos, negsuc}
use colander.Prelude.Options.{bind-some}
use colander.Text.Decimal.{IsDigit, is_digit}
use colander.Text.Split.{split, split_plain, split-append}
use colander.Text.Trim.{trim, split_once, take_while, is_whitespace}
use colander.Text.Trim.Plain.{IsInk, trim_ink, split_once_plain}
use colander.Validate.Datetime.Print.{print_time}
use colander.Validate.Datetime.Fields.{two, pad-two, two-IsDigit, parse-two, digits-IsInk}
use colander.Validate.Datetime.Dates.{if-some}
use colander.Validate.Datetime.{
  Three, normalize_fraction, clock_numbers, clock_parts, is_clock, parse_clock, parse_time, between,
}

abbrev pub IsFraction : Str → Type 0
IsFraction s = (length s ≡ 7) × All IsDigit s

take_while-IsDigit : (s : Str) → All IsDigit (take_while is_digit s)
unfolding take_while
take_while-IsDigit [] = tt
take_while-IsDigit (c ∷ s) = elim (Bool-cases (is_digit c)) [
  | inl p ↦ rw p (p, take_while-IsDigit s)
  | inr p ↦ rw p tt
]

replicate-IsDigit : (n : ℕ) → All IsDigit (replicate n b'0')
replicate-IsDigit zero = tt
replicate-IsDigit (suc n) = (refl, replicate-IsDigit n)

take-IsDigit : (n : ℕ) (s : Str) → All IsDigit s → All IsDigit (take n s)
take-IsDigit zero s h = tt
take-IsDigit (suc n) [] h = tt
take-IsDigit (suc n) (c ∷ s) (hc, hs) = (hc, take-IsDigit n s hs)

length-take : (n : ℕ) (s : Str) → n ≤ length s → length (take n s) ≡ n
length-take zero s h = refl
length-take (suc n) [] h = absurd (omega arith)
length-take (suc n) (c ∷ s) h = omega (arith, length-take n s (omega arith))

length-replicate : (n c : ℕ) → length (replicate n c) ≡ n
length-replicate zero c = refl
length-replicate (suc n) c = omega (arith, length-replicate n c)

-- An accepted fraction has seven digits.
pub normalize_fraction-IsFraction :
    (s : Str) {out : Str} → normalize_fraction s ≡ some out → (length out ≡ 7) × All IsDigit out
unfolding normalize_fraction
normalize_fraction-IsFraction s h =
    let digits = take_while is_digit s in
    let zeros = replicate (7 - length digits) b'0' in
    let (_, e) = if-some' (is_empty digits) (take 7 (digits ++ zeros)) h in
    rw e (
      length-take 7 (digits ++ zeros)
          (omega (arith, length-append digits zeros, length-replicate (7 - length digits) b'0')),
      take-IsDigit 7 (digits ++ zeros) (
          All-append IsDigit digits zeros (take_while-IsDigit s)
            (replicate-IsDigit (7 - length digits))),
    )
  where
    if-some' :
        (b : Bool) (a : Str) {x : Str}
        → (if b then none else some a) ≡ some x
        → (b ≡ false) × (x ≡ a)
    if-some' true a e = absurd (cc)
    if-some' false a e = (refl, cc)

pub record IsClock (h m s : ℕ) : Type 0 where
  pub hour : h ≤ 23
  pub minute : m ≤ 59
  pub second : s ≤ 59

abbrev pub natural_clock : ℕ → ℕ → ℕ → Three
natural_clock h m s = (pos h, pos m, pos s)

within-pos : (hi : ℕ) (z : ℤ) → between 0 hi z ≡ true → (n : ℕ) × (z ≡ pos n) × (n ≤ hi)
within-pos hi (pos n) h = (n, refl, ground arith)
within-pos hi (negsuc n) h = absurd (ground arith)

is_clock-IsClock :
    (t : Three)
    → is_clock t ≡ true
    → (h : ℕ) × (m : ℕ) × (s : ℕ) × (t ≡ natural_clock h m s) × IsClock h m s
unfolding is_clock
is_clock-IsClock (hour, minute, second) e =
    let (h, eh, lh) = within-pos 23 hour (ground arith) in
    let (m, em, lm) = within-pos 59 minute (ground arith) in
    let (s, es, ls) = within-pos 59 second (ground arith) in
    (h, m, s, cc (eh, em, es), record { hour = lh; minute = lm; second = ls })

clock_parts-IsFraction :
    (text : Str) (o : Option (Str × Str)) {parts : Str × Str}
    → clock_parts text o ≡ some parts
    → IsFraction parts.1
unfolding clock_parts
clock_parts-IsFraction text none {parts} h =
    let e : parts.1 ≡ codes "0000000" = cc in
    rw e (refl, (refl, (refl, (refl, (refl, (refl, (refl, (refl, tt))))))))
clock_parts-IsFraction text (some (clock, fraction)) {parts} h =
    let (digits, e1, e2) = bind-some (normalize_fraction fraction) _ h in
    let e : parts.1 ≡ digits = cc in rw e (normalize_fraction-IsFraction fraction e1)

-- An accepted clock is a time of the day, with a fraction of seven digits.
pub parse_clock-IsClock :
    (text : Str) {clock : Three × Str}
    → parse_clock text ≡ some clock
    → (h : ℕ) × (m : ℕ) × (s : ℕ) × (clock.0 ≡ natural_clock h m s)
      × IsClock h m s
      × IsFraction clock.1
unfolding parse_clock
parse_clock-IsClock text {clock} e =
    let (parts, e1, r1) = bind-some (clock_parts text (split_once (λ c. c == b'.') text)) _ e in
    let (numbers, e2, r2) =
      bind-some (clock_numbers (map trim (split (λ c. c == b':') parts.0))) _ r1 in
    let (valid, r3) = if-some _ (numbers, parts.1) r2 in
    let (h, m, s, e3, fits) = is_clock-IsClock numbers valid in
    let fraction : clock.1 ≡ parts.1 = cc in
    (h, m, s, cc, fits, rw fraction (clock_parts-IsFraction text _ e1))

abbrev pub clock_text : ℕ → ℕ → ℕ → Str
clock_text h m s = two h ++ (b':' ∷ (two m ++ (b':' ∷ two s)))

print_time-text : {h m s : ℕ} → IsClock h m s → print_time (natural_clock h m s) ≡ clock_text h m s
unfolding print_time
print_time-text {h} {m} {s} c =
    let hour = c.hour in
    let minute = c.minute in
    let second = c.second in
    rw (pad-two h (omega arith), pad-two m (omega arith), pad-two s (omega arith)) refl

abbrev is_colon : ℕ → Bool
is_colon c = c == b':'

no_colon : (s : Str) → All IsDigit s → All (λ c. is_colon c ≡ false) s
no_colon [] h = tt
no_colon (c ∷ s) (hc, hs) = (ground arith, no_colon s hs)

no_point : (s : Str) → All IsDigit s → All (λ c. (c == b'.') ≡ false) s
no_point [] h = tt
no_point (c ∷ s) (hc, hs) = (ground arith, no_point s hs)

-- a predicate of the digits and of the colon holds of a whole time
All-clock_text :
    (P : ℕ → Type 0)
    → ((t : Str) → All IsDigit t → All P t)
    → P b':'
    → {h m s : ℕ} → IsClock h m s
    → All P (clock_text h m s)
All-clock_text P digits colon {h} {m} {s} c =
    let hour = c.hour in
    let minute = c.minute in
    let second = c.second in
    All-append P (two h) (b':' ∷ (two m ++ (b':' ∷ two s)))
      (digits (two h) (two-IsDigit h (omega arith)))
      (
        colon,
        All-append P (two m) (b':' ∷ two s) (digits (two m) (two-IsDigit m (omega arith)))
            (colon, digits (two s) (two-IsDigit s (omega arith))),
      )

clock_text-IsInk : {h m s : ℕ} → IsClock h m s → All IsInk (clock_text h m s)
unfolding is_whitespace
clock_text-IsInk c = All-clock_text IsInk digits-IsInk refl c

clock_numbers-text :
    {h m s : ℕ}
    → IsClock h m s
    → clock_numbers (map trim (split is_colon (clock_text h m s))) ≡ some (natural_clock h m s)
unfolding clock_numbers
clock_numbers-text {h} {m} {s} c =
    let lh = c.hour in
    let lm = c.minute in
    let ls = c.second in
    let hour = two-IsDigit h (omega arith) in
    let minute = two-IsDigit m (omega arith) in
    let second = two-IsDigit s (omega arith) in
    rw
      (
        split-append is_colon (two h) b':' (two m ++ (b':' ∷ two s)) (no_colon (two h) hour) refl,
        split-append is_colon (two m) b':' (two s) (no_colon (two m) minute) refl,
        split_plain is_colon (two s) (no_colon (two s) second),
        trim_ink (two h) (digits-IsInk (two h) hour),
        trim_ink (two m) (digits-IsInk (two m) minute),
        trim_ink (two s) (digits-IsInk (two s) second),
        parse-two h (omega arith),
        parse-two m (omega arith),
        parse-two s (omega arith),
      )
      refl

IsClock-is_clock : {h m s : ℕ} → IsClock h m s → is_clock (natural_clock h m s) ≡ true
unfolding is_clock
IsClock-is_clock c = let lh = c.hour in let lm = c.minute in let ls = c.second in ground arith

parse_clock-text :
    {h m s : ℕ}
    → IsClock h m s
    → parse_clock (clock_text h m s) ≡ some (natural_clock h m s, codes "0000000")
unfolding parse_clock clock_parts
parse_clock-text {h} {m} {s} c =
    rw
      (
        split_once_plain (λ d. d == b'.') (clock_text h m s)
            (All-clock_text (λ d. (d == b'.') ≡ false) no_point refl c),
        trim_ink (clock_text h m s) (clock_text-IsInk c),
        clock_numbers-text c,
        IsClock-is_clock c,
      )
      refl

parse_time-text :
    {h m s : ℕ} → IsClock h m s → parse_time (clock_text h m s) ≡ some (clock_text h m s)
unfolding parse_time
parse_time-text {h} {m} {s} c =
    rw (trim_ink (clock_text h m s) (clock_text-IsInk c), parse_clock-text c, print_time-text c)
      refl

-- An accepted time is printed as two digits each of an hour up to 23, and a minute and a second up
-- to 59.
pub parse_time-IsClock :
    (text : Str) {out : Str}
    → parse_time text ≡ some out
    → (h : ℕ) × (m : ℕ) × (s : ℕ) × (out ≡ clock_text h m s) × IsClock h m s
unfolding parse_time
parse_time-IsClock text h =
    let (clock, e1, e2) = bind-some (parse_clock (trim text)) _ h in
    let (hour, minute, second, e3, fits, _) = parse_clock-IsClock (trim text) e1 in
    (hour, minute, second, cc (e2, ap print_time e3, print_time-text fits), fits)

-- The time that is printed is accepted, and printed as it is.
pub parse_time-parse_time :
    (text : Str) {out : Str} → parse_time text ≡ some out → parse_time out ≡ some out
parse_time-parse_time text h =
    let (hour, minute, second, e, fits) = parse_time-IsClock text h in rw e (parse_time-text fits)
