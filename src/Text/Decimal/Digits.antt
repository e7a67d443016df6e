-- ===== src/Text/Decimal/Digits.antt =====
-- Short numbers digit by digit.
use colander.Prelude.{
  ℕ, zero, suc, ◌+◌, ◌*◌, ◌/◌, ◌%◌, ◌<◌, ◌≤◌, ◌≡◌, refl, Str, [], ◌∷◌, some, arith, All, ◌∙◌, ap,
}
use colander.Prelude.Int.{pos}
use colander.Text.Decimal.{
  emit, emit_step, show_nat, IsDigit, read_digits, read_number-cons, parse_int, parse_int_digits,
  below,
}

-- the character of a digit
abbrev pub digit : ℕ → ℕ
digit d = b'0' + d

pub digit-IsDigit : (d : ℕ) → d < 10 → IsDigit (digit d)
digit-IsDigit d h = ground arith

emit_one : (f n : ℕ) (out : Str) → n < f → n < 10 → emit f n out ≡ digit n ∷ out
emit_one zero n out h k = absurd (omega arith)
emit_one (suc f) n out h k = emit_step f n out ∙ ground arith

-- one digit more in front of the last
emit_more :
    (f n : ℕ) (out : Str)
    → n < suc f
    → 10 ≤ n
    → emit (suc f) n out ≡ emit f (n / 10) (digit (n % 10) ∷ out)
emit_more f n out h k = emit_step f n out ∙ ground arith

emit_two :
    (f n : ℕ) (out : Str)
    → n < f
    → 10 ≤ n
    → n < 100
    → emit f n out ≡ digit (n / 10) ∷ digit (n % 10) ∷ out
emit_two zero n out h k l = absurd (omega arith)
emit_two (suc f) n out h k l =
    emit_more f n out h k ∙ emit_one f (n / 10) _ (omega arith) (omega arith)

emit_three :
    (f n : ℕ) (out : Str)
    → n < f
    → 100 ≤ n
    → n < 1000
    → emit f n out ≡ digit (n / 100) ∷ digit (n / 10 % 10) ∷ digit (n % 10) ∷ out
emit_three zero n out h k l = absurd (omega arith)
emit_three (suc f) n out h k l =
    emit_more f n out h (omega arith)
    ∙ emit_two f (n / 10) _ (omega arith) (omega arith) (omega arith)
    ∙ ap (λ d. digit d ∷ digit (n / 10 % 10) ∷ digit (n % 10) ∷ out) (omega arith)

emit_four :
    (f n : ℕ) (out : Str)
    → n < f
    → 1000 ≤ n
    → n < 10000
    → emit f n out
      ≡ digit (n / 1000) ∷ digit (n / 100 % 10) ∷ digit (n / 10 % 10) ∷ digit (n % 10) ∷ out
emit_four zero n out h k l = absurd (omega arith)
emit_four (suc f) n out h k l =
    emit_more f n out h (omega arith)
    ∙ emit_three f (n / 10) _ (omega arith) (omega arith) (omega arith)
    ∙ (let high : n / 10 / 100 ≡ n / 1000 = omega arith in
        let next : n / 10 / 10 % 10 ≡ n / 100 % 10 = omega arith in rw (high, next) refl)

pub show_nat_one : (n : ℕ) → n < 10 → show_nat n ≡ digit n ∷ []
unfolding show_nat
show_nat_one n h = emit_one (suc n) n [] (omega arith) h

pub show_nat_two : (n : ℕ) → 10 ≤ n → n < 100 → show_nat n ≡ digit (n / 10) ∷ digit (n % 10) ∷ []
unfolding show_nat
show_nat_two n h k = emit_two (suc n) n [] (omega arith) h k

pub show_nat_three :
    (n : ℕ)
    → 100 ≤ n
    → n < 1000
    → show_nat n ≡ digit (n / 100) ∷ digit (n / 10 % 10) ∷ digit (n % 10) ∷ []
unfolding show_nat
show_nat_three n h k = emit_three (suc n) n [] (omega arith) h k

pub show_nat_four :
    (n : ℕ)
    → 1000 ≤ n
    → n < 10000
    → show_nat n
      ≡ digit (n / 1000) ∷ digit (n / 100 % 10) ∷ digit (n / 10 % 10) ∷ digit (n % 10) ∷ []
unfolding show_nat
show_nat_four n h k = emit_four (suc n) n [] (omega arith) h k

read_digit :
    (d : ℕ) (s : Str) (n : ℕ) → d < 10 → read_digits (digit d ∷ s) n ≡ read_digits s (n * 10 + d)
unfolding read_digits
read_digit d s n h = ground arith

parse_digits :
    (limit d : ℕ) (s : Str)
    → d < 10
    → All IsDigit s
    → parse_int limit (digit d ∷ s) ≡ below limit (read_digits s d)
parse_digits limit d s h hs =
    parse_int_digits limit (digit d ∷ s) (λ e. cc) (digit-IsDigit d h, hs)
    ∙ rw (read_number-cons (digit d) s, read_digit d s 0 h)
        (ap (λ n. below limit (read_digits s n)) (omega arith))

-- Two and four digits are read as their number.
pub parse_int_two :
    (limit a b : ℕ)
    → a < 10
    → b < 10
    → 100 ≤ limit
    → parse_int limit (digit a ∷ digit b ∷ []) ≡ some (pos (a * 10 + b))
unfolding below read_digits
parse_int_two limit a b ha hb h =
    parse_digits limit a (digit b ∷ []) ha (digit-IsDigit b hb, tt)
    ∙ rw (read_digit b [] a hb) (ground arith)

pub parse_int_four :
    (limit a b c d : ℕ)
    → a < 10
    → b < 10
    → c < 10
    → d < 10
    → 10000 ≤ limit
    → parse_int limit (digit a ∷ digit b ∷ digit c ∷ digit d ∷ [])
      ≡ some (pos (((a * 10 + b) * 10 + c) * 10 + d))
parse_int_four limit a b c d ha hb hc hd h =
    parse_digits limit a _ ha (digit-IsDigit b hb, (digit-IsDigit c hc, (digit-IsDigit d hd, tt)))
    ∙ rw
        (
          read_digit b (digit c ∷ digit d ∷ []) a hb,
          read_digit c (digit d ∷ []) (a * 10 + b) hc,
          read_digit d [] ((a * 10 + b) * 10 + c) hd,
        )
        (unfold below read_digits in ground arith)
