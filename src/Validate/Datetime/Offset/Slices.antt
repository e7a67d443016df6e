-- ===== src/Validate/Datetime/Offset/Slices.antt =====
-- When `parse_offset` panics: its slices by bytes.
use colander.Prelude.{
  ℕ, zero, suc, ◌-◌, ◌<◌, ◌≤◌, ◌≡◌, refl, true, false, ◌==◌, ltb, Str, [], ◌∷◌, ◌++◌, Option, none,
  some, arith, All, length, length-append, inl, inr, Bool-cases, Result, ok,
}
use colander.Text.Decimal.{parse_i32}
use colander.Text.Utf8.{as_bytes, encode_char}
use colander.Text.Trim.{trim, split_once, is_whitespace}
use colander.Text.Trim.Plain.{IsInk, split_once_plain, trim_between, All-trim}
use colander.Validate.Datetime.Offset.{
  Attempt, ◌>>=◌, is_sign, slice_bytes, keep_char, numbers, sliced, whole_hours, offset_numbers,
  signed_offset, offset_of, parse_offset,
}

abbrev pub IsAscii : ℕ → Type 0
IsAscii c = c < 0x80

-- an answer, and no panic
abbrev pub Answers {ℓ} : {A : Type ℓ} → Attempt A → Type ℓ
Answers {A = A} r = (o : Option A) × (r ≡ ok o)

Answers-bind {ℓ κ} :
    {A : Type ℓ} {B : Type κ} (r : Attempt A) (f : A → Attempt B)
    → Answers r
    → ((a : A) → Answers (f a))
    → Answers (r >>= f)
Answers-bind r f (none, e) h = (none, rw e refl)
Answers-bind r f (some a, e) h = let (o, e') = h a in (o, rw e e')

width_one : (c : ℕ) → IsAscii c → length (encode_char c) ≡ 1
unfolding encode_char
width_one c h = ground arith

length_ascii : (s : Str) → All IsAscii s → length (as_bytes s) ≡ length s
unfolding as_bytes
length_ascii [] h = refl
length_ascii (c ∷ s) (hc, hs) =
    omega (arith, length-append (encode_char c) (as_bytes s), width_one c hc, length_ascii s hs)

slice_ascii :
    (n : ℕ) (s : Str)
    → n ≤ length s
    → All IsAscii s
    → (halves : Str × Str) × (slice_bytes n s ≡ ok halves)
unfolding slice_bytes keep_char
slice_ascii zero s h hs = (([], s), refl)
slice_ascii (suc n) [] h hs = absurd (omega arith)
slice_ascii (suc n) (c ∷ s) h (hc, hs) =
    let (halves, e) = slice_ascii n s (omega arith) hs in
    let one : suc n - length (encode_char c) ≡ n = omega (arith, width_one c hc) in
    let fits : ltb (suc n) (length (encode_char c)) ≡ false = ground (arith, width_one c hc) in
    ((c ∷ halves.0, halves.1), rw (fits, one, e) refl)

numbers-Answers : (halves : Str × Str) → Answers (numbers halves)
unfolding numbers
numbers-Answers (a, b) =
    Answers-bind (ok (parse_i32 a)) _ (_, refl)
      λ h. Answers-bind (ok (parse_i32 b)) _ (_, refl) λ m. (_, refl)

whole_hours-Answers : (body : Str) → Answers (whole_hours body)
unfolding whole_hours
whole_hours-Answers body = Answers-bind (ok (parse_i32 body)) _ (_, refl) λ h. (_, refl)

offset_numbers-Answers :
    (body : Str) (o : Option (Str × Str)) → All IsAscii body → Answers (offset_numbers body o)
unfolding offset_numbers sliced
offset_numbers-Answers body (some halves) h = numbers-Answers halves
offset_numbers-Answers body none h = elim (Bool-cases (length (as_bytes body) == 4)) [
  | inl p ↦
      let (halves, e) = slice_ascii 2 body (ground (arith, length_ascii body h)) h in
      rw (p, e) (numbers-Answers halves)
  | inr p ↦ elim (Bool-cases (length (as_bytes body) == 2)) [
    | inl q ↦ rw (p, q) (whole_hours-Answers body)
    | inr q ↦ rw (p, q) (none, refl)
  ]
]

signed_offset-Answers :
    (sign : ℕ) (body : Str) → All IsAscii body → Answers (signed_offset sign body)
unfolding signed_offset
signed_offset-Answers sign body h =
    Answers-bind (offset_numbers body (split_once (λ c. c == b':') body)) _
      (offset_numbers-Answers body _ h) λ offset. (_, refl)

offset_of-Answers : (s : Str) → All IsAscii s → Answers (offset_of s)
unfolding offset_of
offset_of-Answers [] h = (_, refl)
offset_of-Answers (sign ∷ body) (hc, hs) = elim (Bool-cases (is_sign sign)) [
  | inl e ↦ rw e (signed_offset-Answers sign body hs)
  | inr e ↦ rw e (none, refl)
]

-- On ASCII text an offset is accepted or refused.
pub parse_offset-Answers : (text : Str) → All IsAscii text → Answers (parse_offset text)
unfolding parse_offset
parse_offset-Answers text h = offset_of-Answers (trim text) (All-trim IsAscii text h)

sign-IsInk : (c : ℕ) → is_sign c ≡ true → IsInk c
unfolding is_sign is_whitespace
sign-IsInk c h = ground arith

width_two : (c : ℕ) → 0x80 ≤ c → c < 0x800 → length (encode_char c) ≡ 2
unfolding encode_char
width_two c l h = ground arith

four_bytes :
    (a b c : ℕ)
    → IsAscii a
    → 0x80 ≤ b
    → b < 0x800
    → IsAscii c
    → length (as_bytes (a ∷ b ∷ c ∷ [])) ≡ 4
unfolding as_bytes
four_bytes a b c ha low high hc = omega (
  arith,
  width_one a ha,
  width_two b low high,
  width_one c hc,
  length-append (encode_char a) (encode_char b ++ (encode_char c ++ [])),
  length-append (encode_char b) (encode_char c ++ []),
  length-append (encode_char c) [],
)

half_panic :
    (a b c : ℕ) → IsAscii a → 0x80 ≤ b → b < 0x800 → slice_bytes 2 (a ∷ b ∷ c ∷ []) ≡ Result.panic
unfolding slice_bytes keep_char
half_panic a b c ha low high = rw (width_one a ha, width_two b low high) refl

-- A sign and then three characters of one, two and one bytes, with no colon and no space at the end:
-- a slice ends inside the second of them.
pub parse_offset-panic :
    (sign a b c : ℕ)
    → is_sign sign ≡ true
    → IsAscii a
    → 0x80 ≤ b
    → b < 0x800
    → IsAscii c
    → (a == b':') ≡ false
    → (c == b':') ≡ false
    → is_whitespace c ≡ false
    → parse_offset (sign ∷ a ∷ b ∷ c ∷ []) ≡ Result.panic
unfolding parse_offset offset_of signed_offset offset_numbers sliced
parse_offset-panic sign a b c hs ha low high hc na nc ink =
    rw
      (
        trim_between sign (a ∷ b ∷ []) c (sign-IsInk sign hs) ink,
        hs,
        split_once_plain (λ d. d == b':') (a ∷ b ∷ c ∷ []) (na, (ground arith, (nc, tt))),
        four_bytes a b c ha low high hc,
        half_panic a b c ha low high,
      )
      refl
