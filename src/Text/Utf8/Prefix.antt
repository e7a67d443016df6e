-- ===== src/Text/Utf8/Prefix.antt =====
-- The valid prefix that `from_utf8` reports is shorter than its input.
use colander.Prelude.{
  ◌-◌, ◌*◌, ◌&&◌, ltb, ℕ, ◌+◌, ◌<◌, ◌≡◌, Bool, true, false, Str, Bytes, [], ◌∷◌, length, arith,
  if◌then◌else◌,
}
use colander.Text.Utf8.{Utf8, valid, invalid, with_char, from_utf8, in_range, is_tail, second_ok}

unfoldable pub Short : ℕ → Utf8 → Type 0
Short k (valid s) = Unit
Short k (invalid n) = n < k

Short-if : (k : ℕ) (t : Bool) (u v : Utf8) → Short k u → Short k v → Short k (if t then u else v)
unfolding Short
Short-if k true u v h h' = h
Short-if k false u v h h' = h'

Short-with_char :
    (m k c width : ℕ) (u : Utf8) → m ≡ width + k → Short k u → Short m (with_char c width u)
unfolding with_char Short
Short-with_char m k c width (valid s) e h = tt
Short-with_char m k c width (invalid n) e h = omega arith

Short-valid : (k : ℕ) (s : Str) → Short k (valid s)
unfolding Short
Short-valid k s = tt

Short-invalid : (k : ℕ) → 0 < k → Short k (invalid 0)
unfolding Short
Short-invalid k h = h

pub from_utf8-Short : (s : Bytes) → Short (length s) (from_utf8 s)
unfolding from_utf8
from_utf8-Short [] = Short-valid 0 []
from_utf8-Short (a ∷ []) =
    let z = Short-invalid 1 (omega arith) in Short-if 1 (ltb a 0x80) _ _ (Short-valid 1 (a ∷ [])) z
from_utf8-Short (a ∷ b ∷ []) =
    let z = Short-invalid 2 (omega arith) in
    Short-if 2 (ltb a 0x80) _ _
      (Short-with_char 2 1 a 1 (from_utf8 (b ∷ [])) (omega arith) (from_utf8-Short (b ∷ [])))
      (Short-if 2 (in_range 0xC2 0xDF a && is_tail b) _ _
        (Short-valid 2 (((a - 0xC0) * 64 + (b - 0x80)) ∷ [])) z)
from_utf8-Short (a ∷ b ∷ c ∷ []) =
    let z = Short-invalid 3 (omega arith) in
    Short-if 3 (ltb a 0x80) _ _
      (Short-with_char 3 2 a 1 (from_utf8 (b ∷ c ∷ [])) (omega arith)
        (from_utf8-Short (b ∷ c ∷ [])))
      (Short-if 3 (in_range 0xC2 0xDF a && is_tail b) _ _
        (Short-with_char 3 1 ((a - 0xC0) * 64 + (b - 0x80)) 2 (from_utf8 (c ∷ [])) (omega arith)
          (from_utf8-Short (c ∷ [])))
        (Short-if 3 (in_range 0xE0 0xEF a && (second_ok a b && is_tail c)) _ _
          (Short-valid 3 (((a - 0xE0) * 4096 + (b - 0x80) * 64 + (c - 0x80)) ∷ [])) z))
from_utf8-Short (a ∷ b ∷ c ∷ d ∷ s) =
    let k = length (a ∷ b ∷ c ∷ d ∷ s) in
    let z = Short-invalid k (omega arith) in
    Short-if k (ltb a 0x80) _ _
      (Short-with_char k (length (b ∷ c ∷ d ∷ s)) _ 1 (from_utf8 (b ∷ c ∷ d ∷ s)) (omega arith)
        (from_utf8-Short (b ∷ c ∷ d ∷ s)))
      (Short-if k (in_range 0xC2 0xDF a && is_tail b) _ _
        (Short-with_char k (length (c ∷ d ∷ s)) _ 2 (from_utf8 (c ∷ d ∷ s)) (omega arith)
          (from_utf8-Short (c ∷ d ∷ s)))
        (Short-if k (in_range 0xE0 0xEF a && (second_ok a b && is_tail c)) _ _
          (Short-with_char k (length (d ∷ s)) _ 3 (from_utf8 (d ∷ s)) (omega arith)
            (from_utf8-Short (d ∷ s)))
          (Short-if k (in_range 0xF0 0xF4 a && (second_ok a b && (is_tail c && is_tail d))) _ _
            (Short-with_char k (length s)
              ((a - 0xF0) * 262144 + (b - 0x80) * 4096 + (c - 0x80) * 64 + (d - 0x80)) 4
              (from_utf8 s) (omega arith) (from_utf8-Short s))
            z)))
