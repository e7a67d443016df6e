-- ===== src/Json/Double.antt =====
-- `format_double` of src/json/write.rs. What the standard library prints is ASCII, so a slice by
-- bytes is one by characters.
pub mod Digits
use colander.Prelude.{
  ◌≡◌, refl, ℕ, zero, suc, ◌+◌, ◌-◌, Bool, true, false, not, ◌&&◌, ◌||◌, ◌==◌, leb, ltb, Str, List,
  [], ◌∷◌, ◌++◌, Option, none, some, codes, length, take, drop, replicate, Result, ok, ◌>>=◌,
  if◌then◌else◌,
}
use colander.Prelude.Int.{ℤ, pos, negsuc, leb_ℤ}
use colander.Text.Decimal.{parse_i32, parse_int, show_nat}
use colander.Text.Trim.{split_once, trim_start_matches}
use colander.Json.{Json, number}
use colander.Floats.{Floats}

-- `expect`
expect {ℓ} : {A : Type ℓ} → Option A → Result A
expect none = Result.panic
expect (some a) = ok a

starts_with_minus : Str → Bool
starts_with_minus [] = false
starts_with_minus (c ∷ s) = c == b'-'

unfoldable pub without_dots : Str → Str
without_dots [] = []
without_dots (c ∷ s) = let rest = without_dots s in if c == b'.' then rest else c ∷ rest

sign_of : Bool → Str
sign_of true = b'-' ∷ []
sign_of false = []

unsigned_abs : ℤ → ℕ
unsigned_abs (pos n) = n
unsigned_abs (negsuc n) = suc n

exponent_sign : ℤ → ℕ
exponent_sign (pos n) = b'+'
exponent_sign (negsuc n) = b'-'

-- `d.dddE+dd`; the slice of the first digit panics without one
scientific_text : Str → ℤ → Result Str
unfolding unsigned_abs exponent_sign
scientific_text [] exponent = Result.panic
scientific_text (d ∷ digits) exponent =
    let magnitude = unsigned_abs exponent in
    ok (
      (d ∷ [])
      ++ ((if ltb 1 (length (d ∷ digits)) then b'.' ∷ digits else [])
          ++ (b'E'
              ∷ exponent_sign exponent
              ∷ ((if ltb magnitude 10 then b'0' ∷ [] else []) ++ show_nat magnitude))))

-- the digits with a point or zeros, where the exponent is from -4 to 16
positional_text : Str → ℤ → Str
positional_text digits (pos exponent) =
    if leb (length digits) (exponent + 1)
    then digits ++ replicate (exponent + 1 - length digits) b'0'
    else take (exponent + 1) digits ++ (b'.' ∷ drop (exponent + 1) digits)
positional_text digits (negsuc n) = codes "0." ++ (replicate n b'0' ++ digits)

unfoldable pub format_digits : Str → Str → Result Str
unfolding starts_with_minus without_dots sign_of scientific_text positional_text expect
format_digits mantissa exponent_text = do
  exponent ← expect (parse_i32 exponent_text)
  let digits = without_dots (trim_start_matches b'-' mantissa)
  text ←
      if not (leb_ℤ (negsuc 3) exponent && leb_ℤ exponent (pos 16))
      then scientific_text digits exponent
      else ok (positional_text digits exponent)
  ok (sign_of (starts_with_minus mantissa) ++ text)

module _ {F : Type 0} (floats : Floats F) where
  unfoldable pub format_double : F → Result Str
  unfolding expect
  format_double value =
      if floats.is_zero value
      then ok (if floats.is_sign_negative value then codes "-0" else codes "0")
      else if not (floats.is_finite value)
      then ok (codes "null")
      else (do
        (mantissa, exponent) ← expect (split_once (λ c. c == b'e') (floats.lower_exp value))
        format_digits mantissa exponent)

  -- `Json::double`
  unfoldable pub double : F → Result Json
  double value = do text ← format_double value; ok (number text)

-- the examples of the comment above `format_double`
examples :
    (format_digits (codes "1") (codes "16") ≡ ok (codes "10000000000000000"))
    × (format_digits (codes "1") (codes "17") ≡ ok (codes "1E+17"))
    × (format_digits (codes "1") (codes "-4") ≡ ok (codes "0.0001"))
    × (format_digits (codes "1") (codes "-5") ≡ ok (codes "1E-05"))
    × (format_digits (codes "5") (codes "-324") ≡ ok (codes "5E-324"))
    × (format_digits (codes "2.286") (codes "1") ≡ ok (codes "22.86"))
unfolding format_digits parse_int trim_start_matches show_nat
examples = (refl, refl, refl, refl, refl, refl)
