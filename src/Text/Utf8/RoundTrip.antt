-- ===== src/Text/Utf8/RoundTrip.antt =====
-- A string is read back from its UTF-8 bytes.
use colander.Prelude.{
  ℕ, ◌+◌, ◌-◌, ◌*◌, ◌/◌, ◌%◌, ◌≡◌, refl, Bool, true, false, ◌&&◌, ◌||◌, Str, Bytes, [], ◌∷◌, ◌++◌,
  arith, leb, ltb, All, ◌∙◌, ap, inl, inr, Bool-cases,
}
use colander.Text.Utf8.{
  valid, from_utf8, as_bytes, encode_char, with_char, second_ok, is_tail, in_range,
}

-- the Unicode scalar values, which a `char` is
abbrev pub is_scalar : ℕ → Bool
is_scalar c = ltb c 0xD800 || (leb 0xE000 c && ltb c 0x110000)

abbrev pub IsScalar : ℕ → Type 0
IsScalar c = is_scalar c ≡ true

from_utf8_one :
    (a : ℕ) (s : Bytes) → ltb a 0x80 ≡ true → from_utf8 (a ∷ s) ≡ with_char a 1 (from_utf8 s)
unfolding from_utf8 with_char
from_utf8_one a [] h = ground arith
from_utf8_one a (b ∷ []) h = ground arith
from_utf8_one a (b ∷ c ∷ []) h = ground arith
from_utf8_one a (b ∷ c ∷ d ∷ s) h = ground arith

from_utf8_two :
    (a b : ℕ) (s : Bytes)
    → ltb a 0x80 ≡ false
    → (in_range 0xC2 0xDF a && is_tail b) ≡ true
    → from_utf8 (a ∷ b ∷ s) ≡ with_char ((a - 0xC0) * 64 + (b - 0x80)) 2 (from_utf8 s)
unfolding from_utf8 with_char
from_utf8_two a b [] h k = rw (h, k) refl
from_utf8_two a b (c ∷ []) h k = rw (h, k) refl
from_utf8_two a b (c ∷ d ∷ s) h k = rw (h, k) refl

from_utf8_three :
    (a b c : ℕ) (s : Bytes)
    → ltb a 0x80 ≡ false
    → (in_range 0xC2 0xDF a && is_tail b) ≡ false
    → (in_range 0xE0 0xEF a && (second_ok a b && is_tail c)) ≡ true
    → from_utf8 (a ∷ b ∷ c ∷ s)
      ≡ with_char ((a - 0xE0) * 4096 + (b - 0x80) * 64 + (c - 0x80)) 3 (from_utf8 s)
unfolding from_utf8 with_char
from_utf8_three a b c [] h k l = rw (h, k, l) refl
from_utf8_three a b c (d ∷ s) h k l = rw (h, k, l) refl

from_utf8_four :
    (a b c d : ℕ) (s : Bytes)
    → ltb a 0x80 ≡ false
    → (in_range 0xC2 0xDF a && is_tail b) ≡ false
    → (in_range 0xE0 0xEF a && (second_ok a b && is_tail c)) ≡ false
    → (in_range 0xF0 0xF4 a && (second_ok a b && (is_tail c && is_tail d))) ≡ true
    → from_utf8 (a ∷ b ∷ c ∷ d ∷ s)
      ≡ with_char
          ((a - 0xF0) * 262144 + (b - 0x80) * 4096 + (c - 0x80) * 64 + (d - 0x80))
          4
          (from_utf8 s)
unfolding from_utf8 with_char
from_utf8_four a b c d s h k l m = rw (h, k, l, m) refl

from_utf8-encode_char :
    (c : ℕ) (s : Bytes) {t : Str}
    → IsScalar c
    → from_utf8 s ≡ valid t
    → from_utf8 (encode_char c ++ s) ≡ valid (c ∷ t)
unfolding encode_char with_char second_ok
from_utf8-encode_char c s {t} h e = elim (Bool-cases (ltb c 0x80)) [
  | inl p ↦ rw p (from_utf8_one c s p ∙ rw e refl)
  | inr p ↦ elim (Bool-cases (ltb c 0x800)) [
    | inl q ↦
        rw (p, q)
          (from_utf8_two (0xC0 + c / 64) (0x80 + c % 64) s (ground arith) (ground arith)
            ∙ rw e (ap (λ x. valid (x ∷ t)) (ground arith)))
    | inr q ↦ elim (Bool-cases (ltb c 0x10000)) [
      | inl r ↦
          rw (p, q, r)
            (from_utf8_three (0xE0 + c / 4096) (0x80 + c / 64 % 64) (0x80 + c % 64) s (ground arith)
                (ground arith) (ground arith)
              ∙ rw e (ap (λ x. valid (x ∷ t)) (ground arith)))
      | inr r ↦
          rw (p, q, r)
            (from_utf8_four (0xF0 + c / 262144) (0x80 + c / 4096 % 64) (0x80 + c / 64 % 64)
                (0x80 + c % 64) s (ground arith) (ground arith) (ground arith) (ground arith)
              ∙ rw e (ap (λ x. valid (x ∷ t)) (ground arith)))
    ]
  ]
]

-- `from_utf8` accepts the bytes of every string and returns the string.
pub from_utf8-as_bytes : (s : Str) → All IsScalar s → from_utf8 (as_bytes s) ≡ valid s
unfolding as_bytes
from_utf8-as_bytes [] h = unfold from_utf8 in refl
from_utf8-as_bytes (c ∷ s) (hc, hs) =
    from_utf8-encode_char c (as_bytes s) hc (from_utf8-as_bytes s hs)
