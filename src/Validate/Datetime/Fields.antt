-- ===== src/Validate/Datetime/Fields.antt =====
-- Padded numbers are digits, and are read back where a date or a time is split.
use colander.Prelude.{
  ℕ, ◌/◌, ◌%◌, ◌^◌, ◌<◌, ◌≤◌, ◌≡◌, refl, ltb, Str, [], ◌∷◌, some, arith, All, ◌∙◌, ap, inl, inr,
  Bool-cases,
}
use colander.Prelude.Int.{pos}
use colander.Text.Decimal.{IsDigit, parse_i32}
use colander.Text.Decimal.Digits.{
  digit, digit-IsDigit, show_nat_one, show_nat_two, show_nat_three, show_nat_four, parse_int_two,
  parse_int_four,
}
use colander.Text.Trim.{is_whitespace}
use colander.Text.Trim.Plain.{IsInk}
use colander.Validate.Datetime.Print.{pad, pad_nat}

-- two digits, and four
abbrev pub two : ℕ → Str
two n = digit (n / 10) ∷ digit (n % 10) ∷ []

abbrev pub four : ℕ → Str
four n = digit (n / 1000) ∷ digit (n / 100 % 10) ∷ digit (n / 10 % 10) ∷ digit (n % 10) ∷ []

pub pad-two : (n : ℕ) → n < 100 → pad 2 (pos n) ≡ two n
unfolding pad pad_nat
pad-two n h = elim (Bool-cases (ltb n 10)) [
  | inl p ↦
      let high : n / 10 ≡ 0 = ground arith in
      let low : n % 10 ≡ n = ground arith in rw (show_nat_one n (ground arith), high, low) refl
  | inr p ↦ rw (show_nat_two n (ground arith) h) refl
]

pub pad-four : (n : ℕ) → 100 ≤ n → n < 10000 → pad 4 (pos n) ≡ four n
unfolding pad pad_nat
pad-four n l h = elim (Bool-cases (ltb n 1000)) [
  | inl p ↦
      let high : n / 1000 ≡ 0 = ground arith in
      let next : n / 100 % 10 ≡ n / 100 = ground arith in
      rw (show_nat_three n l (ground arith), high, next) refl
  | inr p ↦ rw (show_nat_four n (ground arith) h) refl
]

pub two-IsDigit : (n : ℕ) → n < 100 → All IsDigit (two n)
two-IsDigit n h = (digit-IsDigit (n / 10) (omega arith), (digit-IsDigit (n % 10) (omega arith), tt))

pub four-IsDigit : (n : ℕ) → n < 10000 → All IsDigit (four n)
four-IsDigit n h = (
  digit-IsDigit (n / 1000) (omega arith),
  (
    digit-IsDigit (n / 100 % 10) (omega arith),
    (digit-IsDigit (n / 10 % 10) (omega arith), (digit-IsDigit (n % 10) (omega arith), tt)),
  ),
)

pub parse-two : (n : ℕ) → n < 100 → parse_i32 (two n) ≡ some (pos n)
parse-two n h =
    parse_int_two (2 ^ 31) (n / 10) (n % 10) (omega arith) (omega arith) (omega arith)
    ∙ ap (λ k. some (pos k)) (omega arith)

pub parse-four : (n : ℕ) → n < 10000 → parse_i32 (four n) ≡ some (pos n)
parse-four n h =
    parse_int_four (2 ^ 31) (n / 1000) (n / 100 % 10) (n / 10 % 10) (n % 10) (omega arith)
      (omega arith) (omega arith) (omega arith) (omega arith)
    ∙ ap (λ k. some (pos k)) (omega arith)

pub digit-IsInk : (c : ℕ) → IsDigit c → IsInk c
unfolding is_whitespace
digit-IsInk c h = ground arith

pub digits-IsInk : (s : Str) → All IsDigit s → All IsInk s
digits-IsInk [] h = tt
digits-IsInk (c ∷ s) (hc, hs) = (digit-IsInk c hc, digits-IsInk s hs)
