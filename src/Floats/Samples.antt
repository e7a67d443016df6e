-- ===== src/Floats/Samples.antt =====
-- A small number system for concrete runs: halves, from 0 on. Every text is read as 20.
use Prim.Native.Nat.{compare}
use colander.Prelude.{
  ℕ, ◌+◌, ◌-◌, ◌*◌, ◌/◌, ◌%◌, true, false, not, some, codes, ◌==◌, if◌then◌else◌,
}
use colander.Prelude.Int.{ℤ, pos, negsuc}
use colander.Floats.{Floats}

abbrev two_times : ℤ → ℕ
two_times (pos n) = 2 * n
two_times (negsuc n) = 0

abbrev pub halves : Floats ℕ
halves = record {
  parse_f64 = λ s. some 40;
  lower_exp = λ x. codes "1e0";
  is_zero = λ x. x == 0;
  is_sign_negative = λ x. false;
  is_finite = λ x. true;
  is_nan = λ x. false;
  to_bits = λ x. x;
  from_bits = λ n. n;
  from_f32_bits = λ n. n;
  infinity = 0;
  neg_infinity = 0;
  nan = 0;
  literal = λ s. 0;
  from_int = λ z. two_times z;
  to_i128 = λ x. pos (x / 2);
  sub = λ x y. (x - y) + (y - x);
  div = λ x y. 2 * x / y;
  abs = λ x. x;
  fract = λ x. x % 2;
  round_ties_even = λ x. x;
  partial_cmp = λ x y. some (compare x y);
}

-- The same with 7 as a NaN, which prints with no exponent.
abbrev pub halves_or_nan : Floats ℕ
halves_or_nan = record halves {
  lower_exp = λ x. if x == 7 then codes "NaN" else codes "1e0";
  is_finite = λ x. not (x == 7);
  is_nan = λ x. x == 7;
  nan = 7;
}
