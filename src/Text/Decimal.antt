-- ===== src/Text/Decimal.antt =====
-- Decimal numbers: `Display` and `FromStr` of the integer types.
pub mod Ranges
pub mod Digits
use colander.Prelude.{
  ℕ, zero, suc, ◌+◌, ◌-◌, ◌*◌, ◌/◌, ◌%◌, ◌^◌, ◌<◌, ◌≡◌, ◌≢◌, refl, Bool, true, false, ◌&&◌, Str, [],
  ◌∷◌, ◌++◌, append-nil, Option, none, some, arith, leb, ltb, ◌==◌, if◌then◌else◌, All, Bool-cases,
  inl, inr, ap, sym, ◌∙◌,
}
use colander.Prelude.Int.{ℤ, pos, negsuc}

abbrev pub is_digit : ℕ → Bool
is_digit c = leb b'0' c && leb c b'9'

emit : ℕ → ℕ → Str → Str
emit zero n out = out
emit (suc f) n out = elim (n / 10 == 0) [
  | true ↦ (b'0' + n % 10) ∷ out
  | false ↦ emit f (n / 10) ((b'0' + n % 10) ∷ out)
]

-- A natural number in decimal; the fuel `n + 1` is more than its digits.
unfoldable pub show_nat : ℕ → Str
unfolding emit
show_nat n = emit (suc n) n []

unfoldable pub show_int : ℤ → Str
unfolding show_nat
show_int (pos n) = show_nat n
show_int (negsuc n) = b'-' ∷ show_nat (suc n)

read_digits : Str → ℕ → Option ℕ
read_digits [] n = some n
read_digits (c ∷ s) n = if is_digit c then read_digits s (n * 10 + (c - b'0')) else none

pub read_number : Str → Option ℕ
unfolding read_digits
read_number [] = none
read_number (c ∷ s) = read_digits (c ∷ s) 0

below : ℕ → Option ℕ → Option ℤ
below limit none = none
below limit (some n) = if ltb n limit then some (pos n) else none

negated : ℕ → Option ℕ → Option ℤ
negated limit none = none
negated limit (some zero) = some (pos 0)
negated limit (some (suc n)) = if ltb n limit then some (negsuc n) else none

-- `FromStr` of a signed type whose values lie in [-limit, limit): an optional sign, then digits.
unfoldable pub parse_int : ℕ → Str → Option ℤ
unfolding read_number below negated
parse_int limit [] = none
parse_int limit (c ∷ s) =
    if c == b'+'
    then below limit (read_number s)
    else if c == b'-'
    then negated limit (read_number s)
    else below limit (read_number (c ∷ s))

abbrev pub parse_i32 : Str → Option ℤ
parse_i32 = parse_int (2 ^ 31)

abbrev pub parse_i64 : Str → Option ℤ
parse_i64 = parse_int (2 ^ 63)

below_limit : ℕ → Option ℕ → Option ℕ
below_limit limit none = none
below_limit limit (some n) = if ltb n limit then some n else none

-- `FromStr` of an unsigned type: an optional plus sign, then digits.
unfoldable pub parse_nat : ℕ → Str → Option ℕ
unfolding read_number below_limit
parse_nat limit [] = none
parse_nat limit (c ∷ s) =
    if c == b'+' then below_limit limit (read_number s) else below_limit limit (read_number (c ∷ s))

abbrev pub parse_u64 : Str → Option ℕ
parse_u64 = parse_nat (2 ^ 64)

-- the loop of `show_nat` by its test
emit_step :
    (f n : ℕ) (out : Str)
    → emit (suc f) n out
      ≡ (if n / 10 == 0 then (b'0' + n % 10) ∷ out else emit f (n / 10) ((b'0' + n % 10) ∷ out))
unfolding emit
emit_step f n out = ground arith

read_last : (n : ℕ) (out : Str) → read_digits ((b'0' + n % 10) ∷ out) (n / 10) ≡ read_digits out n
unfolding read_digits
read_last n out = ground arith

read-emit : (f n : ℕ) (out : Str) → n < f → read_digits (emit f n out) 0 ≡ read_digits out n
read-emit zero n out h = absurd (omega arith)
read-emit (suc f) n out h =
    ground (arith, emit_step f n out, read_last n out, read-emit f (n / 10) ((b'0' + n % 10) ∷ out))

abbrev pub IsDigit : ℕ → Type 0
IsDigit c = is_digit c ≡ true

emit-IsDigit : (f n : ℕ) (out : Str) → All IsDigit out → All IsDigit (emit f n out)
unfolding emit
emit-IsDigit zero n out h = h
emit-IsDigit (suc f) n out h =
    elim (n / 10 == 0)
      as (λ b. All IsDigit (elim b [
        | true ↦ (b'0' + n % 10) ∷ out
        | false ↦ emit f (n / 10) ((b'0' + n % 10) ∷ out)
      ])) [ true ↦ (ground arith, h) | false ↦ emit-IsDigit f (n / 10) _ (ground arith, h) ]

-- the first digit of a positive number is not zero
emit_head :
    (f n : ℕ) (out : Str)
    → n < f
    → 0 < n
    → (c : ℕ) × (t : Str) × (emit f n out ≡ c ∷ t) × (b'0' < c)
emit_head zero n out h p = absurd (omega arith)
emit_head (suc f) n out h p = elim (Bool-cases (n / 10 == 0)) [
  | inl e ↦ (b'0' + n % 10, out, ground (arith, emit_step f n out), ground arith)
  | inr e ↦
      let (c, t, q, r) =
        emit_head f (n / 10) ((b'0' + n % 10) ∷ out) (ground arith) (ground arith) in
      (c, t, ground (arith, emit_step f n out), r)
]

pub show_nat-zero : show_nat 0 ≡ b'0' ∷ []
unfolding show_nat
show_nat-zero = refl

pub show_nat-head : (n : ℕ) → 0 < n → (c : ℕ) × (t : Str) × (show_nat n ≡ c ∷ t) × (b'0' < c)
unfolding show_nat
show_nat-head n p = emit_head (suc n) n [] (omega arith) p

pub show_nat-IsDigit : (n : ℕ) → All IsDigit (show_nat n)
unfolding show_nat
show_nat-IsDigit n = emit-IsDigit (suc n) n [] tt

read_number-cons : (c : ℕ) (s : Str) → read_number (c ∷ s) ≡ read_digits (c ∷ s) 0
unfolding read_number
read_number-cons c s = refl

read_number-show_nat_pos : (n : ℕ) → 0 < n → read_number (show_nat n) ≡ some n
unfolding show_nat
read_number-show_nat_pos n p =
    let (c, t, e, _) = show_nat-head n p in
    rw e (
      read_number-cons c t
      ∙ ap (λ s. read_digits s 0) (sym e)
      ∙ read-emit (suc n) n [] (omega arith)
      ∙ unfold read_digits in refl)

-- A number is read back from its decimal print.
pub read_number-show_nat : (n : ℕ) → read_number (show_nat n) ≡ some n
read_number-show_nat zero = unfold show_nat read_number in refl
read_number-show_nat (suc n) = read_number-show_nat_pos (suc n) (omega arith)

parse_int_digit :
    (limit c : ℕ) (s : Str)
    → is_digit c ≡ true
    → parse_int limit (c ∷ s) ≡ below limit (read_number (c ∷ s))
unfolding parse_int
parse_int_digit limit c s h = ground arith

parse_int_digits :
    (limit : ℕ) (s : Str) → s ≢ [] → All IsDigit s → parse_int limit s ≡ below limit (read_number s)
parse_int_digits limit [] h _ = absurd (h refl)
parse_int_digits limit (c ∷ s) h (hc, _) = parse_int_digit limit c s hc

pub show_nat-ne-nil : (n : ℕ) → show_nat n ≢ []
show_nat-ne-nil zero h = cc (show_nat-zero, h)
show_nat-ne-nil (suc n) h = let (c, t, e, _) = show_nat-head (suc n) (omega arith) in cc (e, h)

-- `FromStr` reads back what `Display` writes of a non-negative value in range.
pub parse_int-show_nat : (limit n : ℕ) → n < limit → parse_int limit (show_nat n) ≡ some (pos n)
unfolding below
parse_int-show_nat limit n h =
    parse_int_digits limit (show_nat n) (show_nat-ne-nil n) (show_nat-IsDigit n)
    ∙ rw (read_number-show_nat n) (ground arith)

below-some :
    (limit : ℕ) (o : Option ℕ) {z : ℤ}
    → below limit o ≡ some z
    → (n : ℕ) × (z ≡ pos n) × (n < limit) × (o ≡ some n)
unfolding below
below-some limit none h = cc
below-some limit (some n) h = (n, ground arith, ground arith, refl)

-- What is read from digits alone is not negative and below the limit.
pub parse_int_plain :
    (limit : ℕ) (s : Str) {z : ℤ}
    → All IsDigit s
    → parse_int limit s ≡ some z
    → (n : ℕ) × (z ≡ pos n) × (n < limit) × (read_number s ≡ some n)
parse_int_plain limit [] h e = absurd (unfold parse_int in cc)
parse_int_plain limit (c ∷ s) (hc, hs) e =
    below-some limit (read_number (c ∷ s)) (sym (parse_int_digit limit c s hc) ∙ e)

-- any fuel above the number prints it alike
emit_fuel : (f g n : ℕ) (out : Str) → n < f → n < g → emit f n out ≡ emit g n out
emit_fuel zero g n out h k = absurd (omega arith)
emit_fuel (suc f) zero n out h k = absurd (omega arith)
emit_fuel (suc f) (suc g) n out h k =
    ground
      (arith, emit_step f n out, emit_step g n out, emit_fuel f g (n / 10) ((b'0' + n % 10) ∷ out))

read_digits_cons :
    (c : ℕ) (s : Str) (n : ℕ) {m : ℕ}
    → read_digits (c ∷ s) n ≡ some m
    → (is_digit c ≡ true) × (read_digits s (n * 10 + (c - b'0')) ≡ some m)
unfolding read_digits
read_digits_cons c s n h = ground arith

-- printing `n` followed by the digits of `s` is printing the number that they spell together
emit-read_digits :
    (s : Str) (n f g : ℕ) (out : Str) {m : ℕ}
    → 0 < n
    → n < f
    → m < g
    → read_digits s n ≡ some m
    → emit g m out ≡ emit f n (s ++ out)
emit-read_digits [] n f g out {m} p h k e =
    let same : n ≡ m = (unfold read_digits in cc) in
    rw (← same) (emit_fuel g f n out (rw same (k)) h)
emit-read_digits (c ∷ s) n f g out p h k e =
    let n' = n * 10 + (c - b'0') in
    let (d, e') = read_digits_cons c s n e in
    emit-read_digits s n' (suc n') g out (ground arith) (omega arith) k e'
    ∙ emit_step n' n' (s ++ out)
    ∙ ground (arith, emit_fuel n' f n (c ∷ (s ++ out)))

-- A text of digits with no leading zero is the decimal print of the number it spells.
pub show_nat-read_number :
    (c : ℕ) (s : Str) {n : ℕ} → b'0' < c → read_number (c ∷ s) ≡ some n → show_nat n ≡ c ∷ s
unfolding show_nat
show_nat-read_number c s {n} h e =
    let (d, e') = read_digits_cons c s 0 (sym (read_number-cons c s) ∙ e) in
    let first : 0 * 10 + (c - b'0') ≡ c - b'0' = omega arith in
    emit-read_digits s (c - b'0') (suc (c - b'0')) (suc n) [] (omega arith) (omega arith)
      (omega arith) (ap (read_digits s) (sym first) ∙ e')
    ∙ emit_step (c - b'0') (c - b'0') (s ++ [])
    ∙ ground (arith, append-nil s)

-- One digit is the decimal print of the number it spells, zero included.
pub show_nat_digit : (c : ℕ) {n : ℕ} → read_number (c ∷ []) ≡ some n → show_nat n ≡ c ∷ []
unfolding show_nat
show_nat_digit c {n} h =
    let low : n ≡ c - b'0' = (unfold read_number in ground arith) in
    let digit : is_digit c ≡ true = (unfold read_number in ground arith) in
    emit_step n n [] ∙ ground arith
