-- ===== src/Validate/Datetime/Print.antt =====
-- What src/validate/datetime.rs prints: numbers padded with zeros.
use colander.Prelude.{ℕ, suc, ◌-◌, Str, ◌∷◌, ◌++◌, length, replicate}
use colander.Prelude.Int.{ℤ, pos, negsuc}
use colander.Text.Decimal.{show_nat}

unfoldable pub pad_nat : ℕ → ℕ → Str
pad_nat width n = replicate (width - length (show_nat n)) b'0' ++ show_nat n

-- `{:02}` and `{:04}`; the sign is one of the characters
unfoldable pub pad : ℕ → ℤ → Str
unfolding pad_nat
pad width (pos n) = pad_nat width n
pad width (negsuc n) = b'-' ∷ pad_nat (width - 1) (suc n)

unfoldable pub print_date : ℤ × ℤ × ℤ → Str
print_date (year, month, day) = pad 4 year ++ (b'-' ∷ (pad 2 month ++ (b'-' ∷ pad 2 day)))

unfoldable pub print_time : ℤ × ℤ × ℤ → Str
print_time (hour, minute, second) = pad 2 hour ++ (b':' ∷ (pad 2 minute ++ (b':' ∷ pad 2 second)))
