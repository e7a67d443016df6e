-- ===== src/Validate/Datetime/Offset.antt =====
-- `parse_offset` of src/validate/datetime.rs, which slices its text by bytes.
pub mod Slices
use colander.Prelude.{
  ℕ, zero, suc, ◌+◌, ◌-◌, Bool, true, false, not, ◌||◌, ◌==◌, ltb, leb, Str, [], ◌∷◌, ◌++◌, Option,
  none, some, codes, length, if◌then◌else◌, Result, ok, err,
}
use colander.Prelude.Int.{ℤ, pos, ltb_ℤ}
use colander.Text.Decimal.{parse_i32}
use colander.Text.Trim.{trim, split_once}
use colander.Text.Utf8.{as_bytes, encode_char}
use colander.Validate.Datetime.Print.{pad}

-- An optional value, or a panic.
abbrev pub Attempt {ℓ} : Type ℓ → Type ℓ
Attempt A = Result (Option A)

infixl 5 ◌>>=◌
abbrev pub ◌>>=◌ {ℓ κ} : {A : Type ℓ} {B : Type κ} → Attempt A → (A → Attempt B) → Attempt B
ok none >>= f = ok none
ok (some a) >>= f = f a
err e >>= f = err e
Result.panic >>= f = Result.panic
Result.out_of_fuel >>= f = Result.out_of_fuel

unfoldable pub is_sign : ℕ → Bool
is_sign c = c == b'+' || c == b'-'

keep_char : ℕ → Result (Str × Str) → Result (Str × Str)
keep_char c (ok (a, b)) = ok (c ∷ a, b)
keep_char c (err e) = err e
keep_char c Result.panic = Result.panic
keep_char c Result.out_of_fuel = Result.out_of_fuel

-- `(&text[..at], &text[at..])`, which panics off a character boundary
unfoldable pub slice_bytes : ℕ → Str → Result (Str × Str)
unfolding keep_char
slice_bytes zero s = ok ([], s)
slice_bytes (suc n) [] = Result.panic
slice_bytes (suc n) (c ∷ s) =
    let width = length (encode_char c) in
    let rest = keep_char c (slice_bytes (suc n - width) s) in
    if ltb (suc n) width then Result.panic else rest

-- `.parse().ok()?` on a pair of texts
numbers : Str × Str → Attempt (ℤ × ℤ)
numbers (hours, minutes) = do h ← ok (parse_i32 hours); m ← ok (parse_i32 minutes); ok (some (h, m))

sliced : Result (Str × Str) → Attempt (ℤ × ℤ)
unfolding numbers
sliced (ok halves) = numbers halves
sliced (err e) = err e
sliced Result.panic = Result.panic
sliced Result.out_of_fuel = Result.out_of_fuel

whole_hours : Str → Attempt (ℤ × ℤ)
whole_hours body = do h ← ok (parse_i32 body); ok (some (h, pos 0))

offset_numbers : Str → Option (Str × Str) → Attempt (ℤ × ℤ)
unfolding numbers sliced whole_hours
offset_numbers body (some halves) = numbers halves
offset_numbers body none =
    if length (as_bytes body) == 4
    then sliced (slice_bytes 2 body)
    else if length (as_bytes body) == 2
    then whole_hours body
    else ok none

in_limits : ℤ × ℤ → Bool
in_limits (hours, minutes) = not (ltb_ℤ (pos 14) hours || ltb_ℤ (pos 59) minutes)

print_offset : ℕ → ℤ × ℤ → Str
print_offset sign (hours, minutes) = sign ∷ (pad 2 hours ++ (b':' ∷ pad 2 minutes))

signed_offset : ℕ → Str → Attempt Str
unfolding offset_numbers in_limits print_offset
signed_offset sign body = do
  offset ← offset_numbers body (split_once (λ c. c == b':') body)
  ok (if in_limits offset then some (print_offset sign offset) else none)

offset_of : Str → Attempt Str
unfolding signed_offset
offset_of [] = ok none
offset_of (sign ∷ body) = if is_sign sign then signed_offset sign body else ok none

unfoldable pub parse_offset : Str → Attempt Str
unfolding offset_of
parse_offset text = offset_of (trim text)
