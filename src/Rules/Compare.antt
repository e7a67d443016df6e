-- ===== src/Rules/Compare.antt =====
-- `compare_values` of src/rules/expression.rs: the order behind the comparison operators.
pub mod Mixed
pub mod Reversed
mod Tests
use Prim.Native.Nat.{Ordering, compare}
use colander.Prelude.{
  ℕ, ◌≡◌, ◌≢◌, ◌↔◌, refl, Bool, true, false, not, ◌&&◌, ◌||◌, Str, Bytes, [], ◌∷◌, Option, none,
  some, codes, if◌then◌else◌, Result, ok, ◌>>=◌, arith, Bool-cases, Option-cases, inl, inr, ◌⊎◌,
}
use colander.Prelude.Int.{ℤ}
use colander.Text.Utf8.{as_bytes}
use colander.Rules.Value.{
  Val, null, boolean, text, int, real, list, rows, raw, to_double, compare_int, is_equal,
}
use colander.Rules.Value.Equal.{int_compare_double, int_equals_double, values_equal, near}
use colander.Floats.{Floats, less, equal}

-- `Ordering::reverse`
unfoldable pub reverse : Ordering → Ordering
reverse Ordering.lt = Ordering.gt
reverse Ordering.eq = Ordering.eq
reverse Ordering.gt = Ordering.lt

-- `cmp` on strings
unfoldable pub compare_bytes : Bytes → Bytes → Ordering
compare_bytes [] [] = Ordering.eq
compare_bytes [] (b ∷ t) = Ordering.lt
compare_bytes (a ∷ s) [] = Ordering.gt
compare_bytes (a ∷ s) (b ∷ t) = elim (compare a b) [
  | Ordering.lt ↦ Ordering.lt
  | Ordering.eq ↦ compare_bytes s t
  | Ordering.gt ↦ Ordering.gt
]

unfoldable pub compare_text : Str → Str → Ordering
compare_text s t = compare_bytes (as_bytes s) (as_bytes t)

or_equal : Option Ordering → Ordering
or_equal none = Ordering.eq
or_equal (some o) = o

module _ {F : Type 0} (floats : Floats F) where
  real_ordering : F → F → Ordering
  unfolding or_equal
  real_ordering a b =
      if floats.is_nan a
      then (if floats.is_nan b then Ordering.eq else Ordering.lt)
      else if floats.is_nan b
      then Ordering.gt
      else or_equal (floats.partial_cmp a b)

  unfoldable pub compare_reals : F → F → Ordering
  unfolding real_ordering
  compare_reals a b = if near floats a b then Ordering.eq else real_ordering a b

  as_reals : Val F → Val F → Result Ordering
  as_reals a b = do x ← to_double floats a; y ← to_double floats b; ok (compare_reals x y)

  or_as_reals : Val F → Val F → Option Ordering → Result Ordering
  unfolding as_reals
  or_as_reals a b (some o) = ok o
  or_as_reals a b none = as_reals a b

  reversed : Option Ordering → Option Ordering
  unfolding reverse
  reversed none = none
  reversed (some o) = some (reverse o)

  unfoldable pub compare_values : Val F → Val F → Result Ordering
  unfolding as_reals or_as_reals reversed
  compare_values null null = ok Ordering.eq
  compare_values null b = ok Ordering.lt
  compare_values a null = ok Ordering.gt
  compare_values (text a) (text b) = ok (compare_text a b)
  compare_values (int a) (int b) = ok (compare_int a b)
  compare_values (int a) (real b) = or_as_reals (int a) (real b) (int_compare_double floats a b)
  compare_values (real a) (int b) =
      or_as_reals (real a) (int b) (reversed (int_compare_double floats b a))
  compare_values a b = as_reals a b
