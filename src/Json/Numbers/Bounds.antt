-- ===== src/Json/Numbers/Bounds.antt =====
-- `scan_number` (src/json/parse.rs) takes at least one byte, or reports an error.
use colander.Prelude.{
  ℕ, suc, ◌+◌, ◌≤◌, ◌<◌, ◌≡◌, refl, true, ◌||◌, Str, Bytes, [], ◌∷◌, Option, none, some, arith,
  length, codes,
}
use colander.Text.Utf8.{Utf8, valid, invalid, from_utf8}
use colander.Json.Input.{Input, ◌>>◌, peek, is_at, slice_between}
use colander.Json.Input.Below.{
  left, Below, Below-mono, Below-bind, Below-if, left-bump, left-bump_at,
}
use colander.Json.Numbers.{
  digit_at, nonzero_digit_at, skip_digit_bytes, skip_digits, step, digits, optional_minus,
  optional_sign, integer_part, fraction_part, exponent_part, number_text, scan_number,
}

left-skip_digit_bytes : (s : Bytes) (n : ℕ) → left (skip_digit_bytes s n) ≤ length s
unfolding skip_digit_bytes
left-skip_digit_bytes [] n = omega arith
left-skip_digit_bytes (b ∷ s) n = ground (arith, left-skip_digit_bytes s (n + 1))

Below-skip_digits : (i : Input) → Below (suc (left i)) (skip_digits i)
unfolding skip_digits
Below-skip_digits i = omega (arith, left-skip_digit_bytes i.rest i.position)

Below-digits : (message : Str) (i : Input) → Below (suc (left i)) (digits message i)
unfolding digits
Below-digits message i =
    Below-if (suc (left i)) (digit_at (peek i)) _ _ (λ _. Below-skip_digits i) (λ _. tt)

Below-step : (b : ℕ) (i : Input) → is_at b (peek i) ≡ true → Below (left i) (step i)
unfolding step
Below-step b i e = left-bump_at b i e

or_at-some : (a b : ℕ) (o : Option ℕ) → (is_at a o || is_at b o) ≡ true → (c : ℕ) × (o ≡ some c)
unfolding is_at
or_at-some a b none h = absurd (cc)
or_at-some a b (some c) h = (c, refl)

Below-step-some : (i : Input) → ((c : ℕ) × (peek i ≡ some c)) → Below (left i) (step i)
unfolding step
Below-step-some i (c, e) = left-bump i e

Below-optional_minus : (i : Input) → Below (suc (left i)) (optional_minus i)
unfolding optional_minus
Below-optional_minus i =
    Below-if (suc (left i)) (is_at b'-' (peek i)) _ _
      (λ e. Below-mono (left i) (suc (left i)) (step i) (omega arith) (Below-step b'-' i e))
      (λ _. omega arith)

Below-optional_sign : (i : Input) → Below (suc (left i)) (optional_sign i)
unfolding optional_sign
Below-optional_sign i =
    Below-if (suc (left i)) (is_at b'+' (peek i) || is_at b'-' (peek i)) _ _
      (λ e.
        Below-mono (left i) (suc (left i)) (step i) (omega arith)
          (Below-step-some i (or_at-some b'+' b'-' (peek i) e)))
      (λ _. omega arith)

nonzero-skip_digits :
    (i : Input) → nonzero_digit_at (peek i) ≡ true → Below (left i) (skip_digits i)
unfolding skip_digits nonzero_digit_at peek
nonzero-skip_digits i h = go i.rest h
  where
    go :
        (s : Bytes)
        → nonzero_digit_at (peek (record { rest = s; position = i.position })) ≡ true
        → left (skip_digit_bytes s i.position) < length s
    go [] e = absurd (cc)
    go (c ∷ s) e = ground (arith, left-skip_digit_bytes s (i.position + 1))

Below-integer_part : (i : Input) → Below (left i) (integer_part i)
unfolding integer_part
Below-integer_part i =
    Below-if (left i) (is_at b'0' (peek i)) _ _ (λ e. Below-step b'0' i e)
      (λ _.
        Below-if (left i) (nonzero_digit_at (peek i)) _ _ (λ e. nonzero-skip_digits i e) (λ _. tt))

Below-fraction_part : (i : Input) → Below (suc (left i)) (fraction_part i)
unfolding fraction_part
Below-fraction_part i =
    Below-if (suc (left i)) (is_at b'.' (peek i)) _ _
      (λ e.
        Below-bind (left i) (suc (left i)) step (λ _. digits (codes "invalid number fraction")) i
          (Below-step b'.' i e)
          λ _ j lt.
            Below-mono (suc (left j)) (suc (left i)) (digits (codes "invalid number fraction") j)
              (omega arith) (Below-digits (codes "invalid number fraction") j))
      (λ _. omega arith)

Below-exponent_part : (i : Input) → Below (suc (left i)) (exponent_part i)
unfolding exponent_part
Below-exponent_part i =
    Below-if (suc (left i)) (is_at b'e' (peek i) || is_at b'E' (peek i)) _ _
      (λ e.
        Below-bind (left i) (suc (left i)) step
          (λ _. optional_sign >> digits (codes "invalid number exponent")) i
          (Below-step-some i (or_at-some b'e' b'E' (peek i) e))
          λ _ j lt.
            Below-bind (suc (left j)) (suc (left i)) optional_sign
              (λ _. digits (codes "invalid number exponent")) j (Below-optional_sign j)
              λ _ k lk.
                Below-mono (suc (left k)) (suc (left i))
                  (digits (codes "invalid number exponent") k) (omega arith)
                  (Below-digits (codes "invalid number exponent") k))
      (λ _. omega arith)

Below-number_text : (u : Utf8) (i : Input) → Below (suc (left i)) (number_text u i)
unfolding number_text
Below-number_text (valid s) i = omega arith
Below-number_text (invalid n) i = tt

pub Below-scan_number : (i : Input) → Below (left i) (scan_number i)
unfolding scan_number
Below-scan_number i =
    Below-bind (suc (left i)) (left i) optional_minus _ i (Below-optional_minus i) λ _ i1 l1.
      Below-bind (left i1) (left i) integer_part _ i1 (Below-integer_part i1) λ _ i2 l2.
        Below-bind (suc (left i2)) (left i) fraction_part _ i2 (Below-fraction_part i2) λ _ i3 l3.
          Below-bind (suc (left i3)) (left i) exponent_part _ i3 (Below-exponent_part i3) λ _ i4 l4.
            Below-mono (suc (left i4)) (left i) _ (omega arith)
              (Below-number_text (from_utf8 (slice_between i i4)) i4)
