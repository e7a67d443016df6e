-- ===== src/Text/Decimal/Ranges.antt =====
-- Signed and large numbers read back from their decimal print.
use colander.Prelude.{ℕ, suc, ◌<◌, ◌≤◌, ◌≡◌, refl, Str, [], ◌∷◌, none, some, arith, All, ◌∙◌, ◌≢◌}
use colander.Prelude.Int.{negsuc}
use colander.Text.Decimal.{
  IsDigit, show_nat, show_int, read_number, below, negated, below_limit, parse_int, parse_nat,
  parse_int_digits, read_number-show_nat, show_nat-ne-nil, show_nat-IsDigit,
}

-- A signed value in range is read back.
pub parse_int-show_negsuc :
    (limit n : ℕ) → n < limit → parse_int limit (show_int (negsuc n)) ≡ some (negsuc n)
unfolding parse_int show_int negated
parse_int-show_negsuc limit n h = rw (read_number-show_nat (suc n)) (ground arith)

-- A value at the limit or above is refused.
pub parse_int-show_nat_above : (limit n : ℕ) → limit ≤ n → parse_int limit (show_nat n) ≡ none
unfolding below
parse_int-show_nat_above limit n h =
    parse_int_digits limit (show_nat n) (show_nat-ne-nil n) (show_nat-IsDigit n)
    ∙ rw (read_number-show_nat n) (ground arith)

parse_nat_digits :
    (limit : ℕ) (s : Str)
    → s ≢ []
    → All IsDigit s
    → parse_nat limit s ≡ below_limit limit (read_number s)
unfolding parse_nat
parse_nat_digits limit [] h _ = absurd (h refl)
parse_nat_digits limit (c ∷ s) h (hc, _) = ground arith

pub parse_nat-show_nat : (limit n : ℕ) → n < limit → parse_nat limit (show_nat n) ≡ some n
unfolding below_limit
parse_nat-show_nat limit n h =
    parse_nat_digits limit (show_nat n) (show_nat-ne-nil n) (show_nat-IsDigit n)
    ∙ rw (read_number-show_nat n) (ground arith)
