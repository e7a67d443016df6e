-- ===== src/Text/Utf8.antt =====
-- UTF-8: `str::as_bytes`, and the validation of `std::str::from_utf8`.
pub mod Prefix
pub mod RoundTrip
use colander.Prelude.{
  ℕ, ◌+◌, ◌-◌, ◌*◌, ◌/◌, ◌%◌, ◌≡◌, refl, Bool, ◌&&◌, Str, Bytes, [], ◌∷◌, ◌++◌, leb, ltb, ◌==◌,
  if◌then◌else◌,
}

-- The bytes of one character (`char::encode_utf8`).
unfoldable pub encode_char : ℕ → Bytes
encode_char c =
    if ltb c 0x80
    then c ∷ []
    else if ltb c 0x800
    then (0xC0 + c / 64) ∷ (0x80 + c % 64) ∷ []
    else if ltb c 0x10000
    then (0xE0 + c / 4096) ∷ (0x80 + c / 64 % 64) ∷ (0x80 + c % 64) ∷ []
    else (0xF0 + c / 262144) ∷ (0x80 + c / 4096 % 64) ∷ (0x80 + c / 64 % 64) ∷ (0x80 + c % 64) ∷ []

unfoldable pub as_bytes : Str → Bytes
unfolding encode_char
as_bytes [] = []
as_bytes (c ∷ s) = encode_char c ++ as_bytes s

-- What `from_utf8` answers: the characters, or how many bytes in front are valid.
pub data Utf8 : Type 0 where
  valid : Str → Utf8
  invalid : ℕ → Utf8

abbrev in_range : ℕ → ℕ → ℕ → Bool
in_range lo hi b = leb lo b && leb b hi

abbrev is_tail : ℕ → Bool
is_tail = in_range 0x80 0xBF

-- one character of `width` bytes in front of what follows
with_char : ℕ → ℕ → Utf8 → Utf8
with_char c width (valid s) = valid (c ∷ s)
with_char c width (invalid n) = invalid (width + n)

-- the second byte that a first byte of a three-byte or a four-byte sequence allows
second_ok : ℕ → ℕ → Bool
second_ok a b =
    if a == 0xE0
    then in_range 0xA0 0xBF b
    else if a == 0xED
    then in_range 0x80 0x9F b
    else if a == 0xF0
    then in_range 0x90 0xBF b
    else if a == 0xF4
    then in_range 0x80 0x8F b
    else is_tail b

unfoldable pub from_utf8 : Bytes → Utf8
unfolding with_char second_ok
from_utf8 [] = valid []
from_utf8 (a ∷ []) = if ltb a 0x80 then valid (a ∷ []) else invalid 0
from_utf8 (a ∷ b ∷ []) =
    let one = with_char a 1 (from_utf8 (b ∷ [])) in
    if ltb a 0x80
    then one
    else if in_range 0xC2 0xDF a && is_tail b
    then valid (((a - 0xC0) * 64 + (b - 0x80)) ∷ [])
    else invalid 0
from_utf8 (a ∷ b ∷ c ∷ []) =
    let one = with_char a 1 (from_utf8 (b ∷ c ∷ [])) in
    let two = with_char ((a - 0xC0) * 64 + (b - 0x80)) 2 (from_utf8 (c ∷ [])) in
    if ltb a 0x80
    then one
    else if in_range 0xC2 0xDF a && is_tail b
    then two
    else if in_range 0xE0 0xEF a && (second_ok a b && is_tail c)
    then valid (((a - 0xE0) * 4096 + (b - 0x80) * 64 + (c - 0x80)) ∷ [])
    else invalid 0
from_utf8 (a ∷ b ∷ c ∷ d ∷ s) =
    let one = with_char a 1 (from_utf8 (b ∷ c ∷ d ∷ s)) in
    let two = with_char ((a - 0xC0) * 64 + (b - 0x80)) 2 (from_utf8 (c ∷ d ∷ s)) in
    let three =
      with_char ((a - 0xE0) * 4096 + (b - 0x80) * 64 + (c - 0x80)) 3 (from_utf8 (d ∷ s)) in
    let four =
      with_char ((a - 0xF0) * 262144 + (b - 0x80) * 4096 + (c - 0x80) * 64 + (d - 0x80)) 4
        (from_utf8 s) in
    if ltb a 0x80
    then one
    else if in_range 0xC2 0xDF a && is_tail b
    then two
    else if in_range 0xE0 0xEF a && (second_ok a b && is_tail c)
    then three
    else if in_range 0xF0 0xF4 a && (second_ok a b && (is_tail c && is_tail d))
    then four
    else invalid 0

utf8_run :
    from_utf8 (0x61 ∷ 0xE2 ∷ 0x82 ∷ 0xAC ∷ 0xF0 ∷ 0x9F ∷ 0x98 ∷ 0x80 ∷ [])
    ≡ valid (0x61 ∷ 0x20AC ∷ 0x1F600 ∷ [])
unfolding from_utf8
utf8_run = refl

utf8_truncated : from_utf8 (0x61 ∷ 0xE2 ∷ 0x82 ∷ []) ≡ invalid 1
unfolding from_utf8
utf8_truncated = refl
