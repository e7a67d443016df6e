-- ===== src/Json/Access/Integers.antt =====
-- The `i64` accessor on the print of an integer.
use colander.Prelude.{suc, ◌^◌, ◌≡◌, refl, false, Str, [], ◌∷◌, some, arith, All, any}
use colander.Prelude.Int.{ℤ, pos, negsuc}
use colander.Text.Decimal.{
  show_int, show_nat, show_nat-IsDigit, IsDigit, parse_i64, parse_int-show_nat,
}
use colander.Text.Decimal.Ranges.{parse_int-show_negsuc}
use colander.Codec.Wire.{Fits}
use colander.Json.{number}
use colander.Json.Access.{as_i64, as_number_text, integer_of, is_float_mark}

no_mark : (s : Str) → All IsDigit s → any is_float_mark s ≡ false
unfolding is_float_mark
no_mark [] h = refl
no_mark (c ∷ s) (hc, hs) = ground (arith, no_mark s hs)

no_mark_int : (z : ℤ) → any is_float_mark (show_int z) ≡ false
unfolding show_int
no_mark_int (pos n) = no_mark (show_nat n) (show_nat-IsDigit n)
no_mark_int (negsuc n) =
    unfold is_float_mark in no_mark (show_nat (suc n)) (show_nat-IsDigit (suc n))

pub parse_i64-show_int : (z : ℤ) → Fits (2 ^ 64) z → parse_i64 (show_int z) ≡ some z
parse_i64-show_int (pos n) h = unfold show_int in parse_int-show_nat (2 ^ 63) n (omega arith)
parse_i64-show_int (negsuc n) h = parse_int-show_negsuc (2 ^ 63) n (omega arith)

pub as_i64-show_int : (z : ℤ) → Fits (2 ^ 64) z → as_i64 (number (show_int z)) ≡ some z
unfolding as_i64 as_number_text integer_of
as_i64-show_int z h = rw (no_mark_int z) (parse_i64-show_int z h)
